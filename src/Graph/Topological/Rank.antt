-- ===== src/Graph/Topological/Rank.antt =====
-- The place of a node in a list that is in topological order.
use weavegraph.Base.{
  ℕ, suc, ◌≤◌, ◌<◌, ◌⊎◌, inl, inr, List, [], ◌∷◌, ◌++◌, length, In, in-append, if◌then◌else◌, ◌==◌,
  arith,
}
use weavegraph.Kind.{NodeKind, NodeKind-key}
use weavegraph.Graph.Edges.{Edges, Edge}
use weavegraph.Graph.Topological.Sorted.{InOrder}

-- The length of the list for a node that does not stand in it.
abbrev pub rank : List NodeKind → NodeKind → ℕ
rank [] v = 0
rank (w ∷ ws) v = let rest = rank ws v in if w == v then 0 else suc rest

pub rank-le-length : (ws : List NodeKind) (v : NodeKind) → rank ws v ≤ length ws
rank-le-length [] v = omega arith
rank-le-length (w ∷ ws) v = ground (arith, rank-le-length ws v)

rank-lt_after :
    (edges : Edges) (before ws : List NodeKind) (u v : NodeKind)
    → InOrder edges before ws
    → In v ws
    → Edge edges u v
    → In u before ⊎ (rank ws u < rank ws v)
rank-lt_after edges before [] u v order i e = absurd i
rank-lt_after edges before (w ∷ ws) u v order i e = elim (NodeKind-key.eq? w v) [
  | yes same ↦ inl (order.0 u (rw same e))
  | no other ↦ elim (rank-lt_after edges (before ++ w ∷ []) ws u v order.1 (ground arith) e) [
    | inl j ↦ ground (arith, in-append u before (w ∷ []))
    | inr lt ↦ inr (ground arith)
  ]
]

-- An edge leads to a node with a larger rank.
pub rank-lt :
    (edges : Edges) (ws : List NodeKind) (u v : NodeKind)
    → InOrder edges [] ws
    → In v ws
    → Edge edges u v
    → rank ws u < rank ws v
rank-lt edges ws u v order i e = elim (rank-lt_after edges [] ws u v order i e) [
  | inl none_left ↦ absurd none_left
  | inr lt ↦ lt
]
