-- ===== src/Graph/Topological/Start.antt =====
-- The degrees and the queue that the loop starts with.
use weavegraph.Base.{
  ◌+◌, ◌≡◌, ◌↔◌, sym, ap, ◌∙◌, inl, inr, some, Option-cases, List, [], ◌∷◌, In, IsDistinct, ℕ-key,
  arith,
}
use weavegraph.Base.Map.{get, keys, IsMap, put-IsMap, in-get, get-in}
use weavegraph.Kind.{NodeKind, NodeKind-key}
use weavegraph.Graph.Edges.{Edges}
use weavegraph.Graph.Topological.{
  Degrees, add_node, count_target, count_targets, count_edges, zero_in_degree,
}
use weavegraph.Graph.Topological.Pending.{pending}
use weavegraph.Graph.Topological.Counted.{nodes, degree_of, degree-count_edges}

add_node-IsMap : (n : NodeKind) (m : Degrees) → IsMap m → IsMap (add_node n m)
unfolding add_node
add_node-IsMap n m h = elim (Option-cases (get n m)) [
  | inl e ↦ rw (e, add_node) (put-IsMap n 0 m h)
  | inr (d, e) ↦ rw (e, add_node) h
]

count_target-IsMap : (n : NodeKind) (m : Degrees) → IsMap m → IsMap (count_target n m)
unfolding count_target
count_target-IsMap n m h = elim (Option-cases (get n m)) [
  | inl e ↦ rw (e, count_target) (put-IsMap n 1 m h)
  | inr (d, e) ↦ rw (e, count_target) (put-IsMap n (d + 1) m h)
]

count_targets-IsMap : (ns : List NodeKind) (m : Degrees) → IsMap m → IsMap (count_targets ns m)
unfolding count_targets
count_targets-IsMap [] m h = h
count_targets-IsMap (n ∷ ns) m h =
    count_targets-IsMap ns (count_target n m) (count_target-IsMap n m h)

pub count_edges-IsMap : (edges : Edges) (m : Degrees) → IsMap m → IsMap (count_edges edges m)
unfolding count_edges
count_edges-IsMap [] m h = h
count_edges-IsMap ((from, tos) ∷ edges) m h =
    count_edges-IsMap edges (count_targets tos (add_node from m))
      (count_targets-IsMap tos (add_node from m) (add_node-IsMap from m h))

-- At first all edges are pending.
pub get-count_edges :
    (edges : Edges) (v : NodeKind)
    → In v (nodes edges)
    → get v (count_edges edges []) ≡ some (pending [] edges v)
unfolding get
get-count_edges edges v i =
    let (d, found) = in-get v (count_edges edges []) i in
    found ∙ ap some (ap degree_of (sym found) ∙ degree-count_edges edges v [] ∙ omega arith)

in-zero_in_degree-keys : (v : NodeKind) (m : Degrees) → In v (zero_in_degree m) → In v (keys m)
unfolding zero_in_degree
in-zero_in_degree-keys v [] i = i
in-zero_in_degree-keys v ((n, d) ∷ m) i = ground (arith, in-zero_in_degree-keys v m)

pub in-zero_in_degree :
    (v : NodeKind) (m : Degrees) → IsMap m → In v (zero_in_degree m) ↔ (get v m ≡ some 0)
unfolding zero_in_degree get
in-zero_in_degree v [] h = (λ i. absurd i, λ e. absurd cc)
in-zero_in_degree v ((n, d) ∷ m) h =
    ground (arith, in-zero_in_degree v m, in-zero_in_degree-keys v m, get-in v 0 m)

pub zero_in_degree-IsDistinct : (m : Degrees) → IsMap m → IsDistinct (zero_in_degree m)
unfolding zero_in_degree
zero_in_degree-IsDistinct [] h = tt
zero_in_degree-IsDistinct ((n, d) ∷ m) h =
    ground (arith, zero_in_degree-IsDistinct m, in-zero_in_degree-keys n m)
