-- ===== src/Graph/Cycle/Decides.antt =====
-- `detect_cycle` decides whether the unconditional edges hold a cycle.
use mathlib.Core.WellFounded.{Acc}
use weavegraph.Base.{
  suc, ◌≡◌, refl, ◌⊎◌, inl, inr, List, [], ◌∷◌, length, arith, In, ◌↔◌, none, some, Option-cases,
}
use weavegraph.Base.Map.{Map, get, keys, keys-put_self, keys-put, get-in, get-put}
use weavegraph.Kind.{NodeKind, NodeKind-key}
use weavegraph.Graph.Edges.{
  Edges, targets, Edge, Walk, here, step, OnCycle, IsCycle, source-in-keys,
}
use weavegraph.Graph.Cycle.{
  Color, white, Search, color, Outcome, found, done, out_of_fuel, initial_colors, add_white,
  add_whites, add_targets, detect_cycle,
}
use weavegraph.Graph.Cycle.Whites.{whites-le-length}
use weavegraph.Graph.Cycle.Correct.{Inv, Sound, Explored, dfs-Visits, search_from-Sound}

-- The first edge of a walk that goes on by one more edge.
uncons :
    {edges : Edges} {m u v : NodeKind}
    → Walk edges m u
    → Edge edges u v
    → (w : NodeKind) × Edge edges m w × Walk edges w v
uncons {v = v} here e = (v, e, here)
uncons (step p e') e = let (w, e0, q) = uncons p e' in (w, e0, step q e)

Acc-acyclic : {edges : Edges} {n : NodeKind} → Acc (λ m k. Edge edges k m) n → ¬ OnCycle edges n
Acc-acyclic (Acc.intro n smaller) (m, e, p) = Acc-acyclic (smaller m e) (uncons p e)

-- A node that has a colour keeps one, and the nodes that are added have one.
keys-add_white :
    (n m : NodeKind) (c : Map NodeKind Color)
    → (n ≡ m) ⊎ In m (keys c)
    → In m (keys (add_white n c))
unfolding add_white
keys-add_white n m c h = elim (Option-cases (get n c)) [
  | inl e ↦ rw (e, add_white) (ground (arith, keys-put_self n white c, keys-put n m white c))
  | inr (v, e) ↦ rw (e, add_white) (ground (arith, get-in n v c e))
]

keys-add_whites :
    (ns : List NodeKind) (m : NodeKind) (c : Map NodeKind Color)
    → In m ns ⊎ In m (keys c)
    → In m (keys (add_whites ns c))
unfolding add_whites
keys-add_whites [] m c h = ground arith
keys-add_whites (n ∷ ns) m c h =
    ground (arith, keys-add_whites ns m (add_white n c), keys-add_white n m c)

keys-add_targets :
    (edges : Edges) (n m : NodeKind) (c : Map NodeKind Color)
    → Edge edges n m ⊎ In m (keys c)
    → In m (keys (add_targets edges c))
unfolding add_targets targets get
keys-add_targets [] n m c h = ground arith
keys-add_targets ((from, tos) ∷ edges) n m c h =
    ground (arith, keys-add_targets edges n m (add_whites tos c), keys-add_whites tos m c)

target_known :
    (edges : Edges) (n m : NodeKind) → Edge edges n m → In m (keys (initial_colors edges))
unfolding initial_colors
target_known edges n m e = keys-add_targets edges n m (add_whites (keys edges) []) (inl e)

source_known :
    (edges : Edges) (n m : NodeKind) → Edge edges n m → In n (keys (initial_colors edges))
unfolding initial_colors
source_known edges n m e =
    keys-add_targets edges n n (add_whites (keys edges) [])
      (inr (keys-add_whites (keys edges) n [] (inl (source-in-keys edges n m e))))

-- At the start every node is white.
abbrev IsBlank : Map NodeKind Color → Type 0
IsBlank c = (n : NodeKind) → (get n c ≡ none) ⊎ (get n c ≡ some white)

add_white-IsBlank : (n : NodeKind) (c : Map NodeKind Color) → IsBlank c → IsBlank (add_white n c)
unfolding add_white
add_white-IsBlank n c h m = ground (arith, h m, get-put n m white c)

add_whites-IsBlank :
    (ns : List NodeKind) (c : Map NodeKind Color) → IsBlank c → IsBlank (add_whites ns c)
unfolding add_whites
add_whites-IsBlank [] c h = h
add_whites-IsBlank (n ∷ ns) c h = add_whites-IsBlank ns (add_white n c) (add_white-IsBlank n c h)

add_targets-IsBlank :
    (edges : Edges) (c : Map NodeKind Color) → IsBlank c → IsBlank (add_targets edges c)
unfolding add_targets
add_targets-IsBlank [] c h = h
add_targets-IsBlank ((from, tos) ∷ edges) c h =
    add_targets-IsBlank edges (add_whites tos c) (add_whites-IsBlank tos c h)

no_colors : IsBlank []
unfolding get
no_colors n = inl refl

initial_white :
    (edges : Edges) (path : List NodeKind) (n : NodeKind)
    → color (record { colors = initial_colors edges; path = path }) n ≡ white
unfolding color initial_colors
initial_white edges path n = ground (
  arith,
  add_targets-IsBlank edges (add_whites (keys edges) [])
      (add_whites-IsBlank (keys edges) [] no_colors) n,
)

abbrev pub Covers : (List NodeKind → List NodeKind) → Type 0
Covers order = (ns : List NodeKind) (n : NodeKind) → In n (order ns) ↔ In n ns

-- What the search says of the whole graph.
abbrev pub Decided : Edges → Outcome → Type 0
Decided edges (found cycle) = IsCycle edges cycle
Decided edges (done s) = (n : NodeKind) → ¬ OnCycle edges n
Decided edges out_of_fuel = ⊥

module _ (edges : Edges) where
  abbrev nodes : List NodeKind
  nodes = keys (initial_colors edges)

  abbrev blank : Search
  blank = record { colors = initial_colors edges; path = [] }

  Inv-blank : Inv edges nodes (target_known edges) blank
  Inv-blank = record {
    settled = λ n b. cc (b, initial_white edges [] n);
    on_path = λ n g. cc (g, initial_white edges [] n);
  }

  -- All sources are black at the end, so no walk goes on for ever.
  Decided-from :
      (ns : List NodeKind) (r : Outcome)
      → ((n : NodeKind) → In n nodes → In n ns)
      → Sound edges nodes
          (target_known edges)
          (Explored edges nodes (target_known edges) ns blank)
          r
      → Decided edges r
  Decided-from ns (found cycle) all h = h
  Decided-from ns (done s) all h = λ n on.
      Acc-acyclic (h.inv.settled n (h.finished n (all n (source_known edges n on.0 on.1)))) on
  Decided-from ns out_of_fuel all h = h

-- In whatever order the hash map lists its keys, the search ends. A list that it returns is a
-- cycle: it begins and ends with one node, and each node has an edge to the next. When it returns
-- none, no node has a walk of one edge or more back to itself.
pub detect_cycle-Decided :
    (order : List NodeKind → List NodeKind) (edges : Edges)
    → Covers order
    → Decided edges (detect_cycle order edges)
unfolding detect_cycle
detect_cycle-Decided order edges covers =
    Decided-from edges (order (nodes edges)) _ (λ n i. (covers (nodes edges) n).1 i)
      (search_from-Sound edges (nodes edges) (target_known edges) (suc (length (nodes edges))) _
        (dfs-Visits edges (nodes edges) (target_known edges) (suc (length (nodes edges))))
        (order (nodes edges)) (blank edges)
        (omega (arith, whites-le-length (nodes edges) (blank edges)))
        (λ n i. (covers (nodes edges) n).0 i) refl (Inv-blank edges))
