-- ===== src/Graph/Topological/Pending.antt =====
-- How many edges lead to a node from nodes that are not done.
use weavegraph.Base.{
  ℕ, ◌+◌, ◌≡◌, ◌≢◌, refl, inl, inr, true, Bool-cases, List, [], ◌∷◌, ◌++◌, contains, contains-in,
  in-contains, In, if◌then◌else◌, ◌==◌, arith, ℕ-key,
}
use weavegraph.Base.Map.{get, keys, IsMap}
use weavegraph.Kind.{NodeKind, NodeKind-key}
use weavegraph.Graph.Edges.{Edges, targets, Edge, source-in-keys}

-- How often a node stands in a list.
abbrev pub count : NodeKind → List NodeKind → ℕ
count n [] = 0
count n (m ∷ ms) = (if m == n then 1 else 0) + count n ms

abbrev pub pending : List NodeKind → Edges → NodeKind → ℕ
pending finished [] n = 0
pending finished ((from, tos) ∷ edges) n =
    (if contains finished from then 0 else count n tos) + pending finished edges n

pub count-zero : (n : NodeKind) (ms : List NodeKind) → count n ms ≡ 0 → ¬ In n ms
count-zero n [] h i = i
count-zero n (m ∷ ms) h i = ground (arith, count-zero n ms)

pub count-pos : (n : NodeKind) (ms : List NodeKind) → count n ms ≢ 0 → In n ms
count-pos n [] h = absurd (h refl)
count-pos n (m ∷ ms) h = ground (arith, count-pos n ms)

contains-concat :
    (xs : List NodeKind) (a b : NodeKind)
    → contains (xs ++ a ∷ []) b ≡ (if contains xs b then true else (a == b))
contains-concat [] a b = ground arith
contains-concat (x ∷ xs) a b = ground (arith, contains-concat xs a b)

module _ (finished : List NodeKind) where
  -- A node without edges changes nothing.
  pending_other :
      (node : NodeKind) (edges : Edges) (n : NodeKind)
      → ¬ In node (keys edges)
      → pending (finished ++ node ∷ []) edges n ≡ pending finished edges n
  pending_other node [] n h = refl
  pending_other node ((from, tos) ∷ edges) n h =
      ground (arith, pending_other node edges n, contains-concat finished node from)

  -- When a node is done, its edges are no longer pending.
  pub pending_step :
      (node : NodeKind) (edges : Edges) (n : NodeKind)
      → IsMap edges
      → ¬ In node finished
      → pending (finished ++ node ∷ []) edges n + count n (targets edges node)
        ≡ pending finished edges n
  unfolding targets get
  pending_step node [] n h new = omega arith
  pending_step node ((from, tos) ∷ edges) n h new = ground (
    arith,
    pending_step node edges n,
    pending_other node edges n,
    contains-concat finished node from,
    contains-in finished from,
  )

  -- Where no edge is pending, each source is done.
  pub pending-zero :
      (edges : Edges) (u v : NodeKind)
      → pending finished edges v ≡ 0
      → Edge edges u v
      → In u finished
  unfolding targets get
  pending-zero [] u v h e = absurd e
  pending-zero ((from, tos) ∷ edges) u v h e =
      ground (arith, pending-zero edges u v, contains-in finished from, count-zero v tos)

  -- A pending edge leads from a node that is not done.
  pub pending-pos :
      (edges : Edges) (v : NodeKind)
      → IsMap edges
      → pending finished edges v ≢ 0
      → (u : NodeKind) × Edge edges u v × (¬ In u finished)
  unfolding targets get
  pending-pos [] v h pos = absurd (pos refl)
  pending-pos ((from, tos) ∷ edges) v h pos = elim (Bool-cases (contains finished from)) [
    | inl old ↦ further (pending-pos edges v h.1) (ground arith)
    | inr new ↦ elim (ℕ-key.eq? (count v tos) 0) [
      | yes e ↦ further (pending-pos edges v h.1) (ground arith)
      | no ne ↦ (from, ground (arith, count-pos v tos), λ i. cc (new, in-contains finished from i))
    ]
  ]
    where
      further :
          (pending finished edges v ≢ 0 → (u : NodeKind) × Edge edges u v × (¬ In u finished))
          → pending finished edges v ≢ 0
          → (u : NodeKind) × Edge ((from, tos) ∷ edges) u v × (¬ In u finished)
      further below p =
          let (u, e, out) = below p in (u, ground (arith, source-in-keys edges u v), out)
