-- ===== src/Graph/Topological/Counted.antt =====
-- The in-degrees that the sort counts first.
use weavegraph.Base.{
  ℕ, ◌+◌, ◌≡◌, ◌↔◌, ◌⊎◌, inl, inr, Option, none, some, Option-cases, List, [], ◌∷◌, In,
  if◌then◌else◌, ◌==◌, arith,
}
use weavegraph.Base.Map.{get, get-put, keys, IsMap, keys-put, keys-put_self, get-in, in-keys-put}
use weavegraph.Kind.{NodeKind, NodeKind-key}
use weavegraph.Graph.Edges.{Edges, targets, Edge, source-in-keys}
use weavegraph.Graph.Topological.{Degrees, add_node, count_target, count_targets, count_edges}
use weavegraph.Graph.Topological.Pending.{count, pending}

abbrev pub degree_of : Option ℕ → ℕ
degree_of none = 0
degree_of (some d) = d

abbrev pub degree : Degrees → NodeKind → ℕ
degree m v = degree_of (get v m)

degree-add_node : (n v : NodeKind) (m : Degrees) → degree (add_node n m) v ≡ degree m v
unfolding add_node
degree-add_node n v m = ground (arith, get-put n v 0 m)

degree-count_target :
    (n v : NodeKind) (m : Degrees)
    → degree (count_target n m) v ≡ (if n == v then 1 else 0) + degree m v
unfolding count_target
degree-count_target n v m = elim (Option-cases (get n m)) [
  | inl e ↦ rw (e, count_target) (ground (arith, get-put n v 1 m))
  | inr (d, e) ↦ rw (e, count_target) (ground (arith, get-put n v (d + 1) m))
]

degree-count_targets :
    (ns : List NodeKind) (v : NodeKind) (m : Degrees)
    → degree (count_targets ns m) v ≡ count v ns + degree m v
unfolding count_targets
degree-count_targets [] v m = omega arith
degree-count_targets (n ∷ ns) v m =
    omega (arith, degree-count_targets ns v (count_target n m), degree-count_target n v m)

pub degree-count_edges :
    (edges : Edges) (v : NodeKind) (m : Degrees)
    → degree (count_edges edges m) v ≡ pending [] edges v + degree m v
unfolding count_edges
degree-count_edges [] v m = omega arith
degree-count_edges ((from, tos) ∷ edges) v m = omega (
  arith,
  degree-count_edges edges v (count_targets tos (add_node from m)),
  degree-count_targets tos v (add_node from m),
  degree-add_node from v m,
)

-- The nodes that are counted.
abbrev pub nodes : Edges → List NodeKind
nodes edges = keys (count_edges edges [])

keys-add_node :
    (n v : NodeKind) (m : Degrees) → (n ≡ v) ⊎ In v (keys m) → In v (keys (add_node n m))
unfolding add_node
keys-add_node n v m h = elim (Option-cases (get n m)) [
  | inl e ↦ rw (e, add_node) (ground (arith, keys-put_self n 0 m, keys-put n v 0 m))
  | inr (d, e) ↦ rw (e, add_node) (ground (arith, get-in n d m e))
]

keys-count_target :
    (n v : NodeKind) (m : Degrees) → (n ≡ v) ⊎ In v (keys m) → In v (keys (count_target n m))
unfolding count_target
keys-count_target n v m h = elim (Option-cases (get n m)) [
  | inl e ↦ rw (e, count_target) (ground (arith, keys-put_self n 1 m, keys-put n v 1 m))
  | inr (d, e) ↦
      rw (e, count_target) (ground (arith, keys-put_self n (d + 1) m, keys-put n v (d + 1) m))
]

keys-count_targets :
    (ns : List NodeKind) (v : NodeKind) (m : Degrees)
    → In v ns ⊎ In v (keys m)
    → In v (keys (count_targets ns m))
unfolding count_targets
keys-count_targets [] v m h = ground arith
keys-count_targets (n ∷ ns) v m h =
    ground (arith, keys-count_targets ns v (count_target n m), keys-count_target n v m)

pub keys-count_edges :
    (edges : Edges) (v : NodeKind) (m : Degrees)
    → In v (keys edges) ⊎ ((u : NodeKind) × Edge edges u v) ⊎ In v (keys m)
    → In v (keys (count_edges edges m))
unfolding count_edges targets get
keys-count_edges [] v m h = ground arith
keys-count_edges ((from, tos) ∷ edges) v m h = ground (
  arith,
  keys-count_edges edges v (count_targets tos (add_node from m)),
  keys-count_targets tos v (add_node from m),
  keys-add_node from v m,
)

-- Both ends of an edge are counted.
pub target-in-nodes : (edges : Edges) (u v : NodeKind) → Edge edges u v → In v (nodes edges)
target-in-nodes edges u v e = keys-count_edges edges v [] (inr (inl (u, e)))

pub source-in-nodes : (edges : Edges) (u v : NodeKind) → Edge edges u v → In u (nodes edges)
source-in-nodes edges u v e = keys-count_edges edges u [] (inl (source-in-keys edges u v e))

-- The nodes of the graph: those that have edges and those that edges lead to.
abbrev pub IsEndpoint : Edges → NodeKind → Type 0
IsEndpoint edges v = In v (keys edges) ⊎ ((u : NodeKind) × Edge edges u v)

in-keys-add_node :
    (n v : NodeKind) (m : Degrees) → In v (keys (add_node n m)) → (n ≡ v) ⊎ In v (keys m)
unfolding add_node
in-keys-add_node n v m i = elim (Option-cases (get n m)) [
  | inl e ↦ in-keys-put n v 0 m (rw (e, add_node) at i)
  | inr (d, e) ↦ inr (rw (e, add_node) at i)
]

in-keys-count_target :
    (n v : NodeKind) (m : Degrees) → In v (keys (count_target n m)) → (n ≡ v) ⊎ In v (keys m)
unfolding count_target
in-keys-count_target n v m i = elim (Option-cases (get n m)) [
  | inl e ↦ in-keys-put n v 1 m (rw (e, count_target) at i)
  | inr (d, e) ↦ in-keys-put n v (d + 1) m (rw (e, count_target) at i)
]

in-keys-count_targets :
    (ns : List NodeKind) (v : NodeKind) (m : Degrees)
    → In v (keys (count_targets ns m))
    → In v ns ⊎ In v (keys m)
unfolding count_targets count_target
in-keys-count_targets [] v m i = inr i
in-keys-count_targets (n ∷ ns) v m i =
    ground (arith, in-keys-count_targets ns v (count_target n m), in-keys-count_target n v m)

-- The first entry's targets, and those of the others when the edges are a map.
endpoint_split :
    (from : NodeKind) (tos : List NodeKind) (edges : Edges) (v : NodeKind) (m : Degrees)
    → IsMap ((from, tos) ∷ edges)
    → In v (keys edges) ⊎ ((u : NodeKind) × Edge edges u v) ⊎ In v tos ⊎ (from ≡ v) ⊎ In v (keys m)
    → In v (keys ((from, tos) ∷ edges))
      ⊎ ((u : NodeKind) × Edge ((from, tos) ∷ edges) u v)
      ⊎ In v (keys m)
unfolding targets get
endpoint_split from tos edges v m h (inl i) = inl (inr i)
endpoint_split from tos edges v m h (inr (inl (u, e))) =
    inr (inl (u, ground (arith, source-in-keys edges u v)))
endpoint_split from tos edges v m h (inr (inr (inl i))) = inr (inl (from, ground arith))
endpoint_split from tos edges v m h (inr (inr (inr (inl e)))) = inl (inl e)
endpoint_split from tos edges v m h (inr (inr (inr (inr i)))) = inr (inr i)

in-keys-count_edges :
    (edges : Edges) (v : NodeKind) (m : Degrees)
    → IsMap edges
    → In v (keys (count_edges edges m))
    → In v (keys edges) ⊎ ((u : NodeKind) × Edge edges u v) ⊎ In v (keys m)
unfolding count_edges
in-keys-count_edges [] v m h i = inr (inr i)
in-keys-count_edges ((from, tos) ∷ edges) v m h i =
    endpoint_split from tos edges v m h
      (elim (in-keys-count_edges edges v (count_targets tos (add_node from m)) h.1 i) [
        | inl k ↦ inl k
        | inr (inl e) ↦ inr (inl e)
        | inr (inr k) ↦ elim (in-keys-count_targets tos v (add_node from m) k) [
          | inl t ↦ inr (inr (inl t))
          | inr k' ↦ inr (inr (inr (in-keys-add_node from v m k')))
        ]
      ])

pub nodes-IsEndpoint :
    (edges : Edges) (v : NodeKind) → IsMap edges → In v (nodes edges) ↔ IsEndpoint edges v
nodes-IsEndpoint edges v h = (
  λ i. elim (in-keys-count_edges edges v [] h i) [
    | inl k ↦ inl k
    | inr (inl e) ↦ inr e
    | inr (inr none_left) ↦ absurd none_left
  ],
  λ e. keys-count_edges edges v [] (elim e [ inl k ↦ inl k | inr t ↦ inr (inl t) ]),
)
