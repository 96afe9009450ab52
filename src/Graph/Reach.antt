-- ===== src/Graph/Reach.antt =====
-- The breadth-first searches of `detect_unreachable_nodes` and `detect_no_path_to_end`
-- (src/graphs/compilation.rs): both loops have this shape, over the edges and over their reverse.
pub mod Scan
pub mod Correct
use weavegraph.Base.{ℕ, zero, suc, Bool, true, false, List, [], ◌∷◌, ◌++◌, In, if◌then◌else◌}
use weavegraph.Base.Map.{Map, put, contains_key}
use weavegraph.Kind.{NodeKind, NodeKind-key}

-- `reachable` (or `can_reach_end`), and the queue.
pub record Bfs : Type 0 where
  pub reachable : Map NodeKind Bool
  pub queue : List NodeKind

abbrev pub seen : Bfs → NodeKind → Bool
seen s n = contains_key n s.reachable

-- The body of the inner loop.
unfoldable pub offer : NodeKind → Bfs → Bfs
offer n s =
    if seen s n
    then s
    else record s { reachable = put n true s.reachable; queue = s.queue ++ n ∷ [] }

unfoldable pub scan : List NodeKind → Bfs → Bfs
unfolding offer
scan [] s = s
scan (n ∷ ns) s = scan ns (offer n s)

-- The `while` loop, with the state where the fuel runs out.
unfoldable pub bfs : (NodeKind → List NodeKind) → ℕ → Bfs → Bfs
unfolding scan
bfs next zero s = s
bfs next (suc fuel) s = elim s.queue [
  | [] ↦ s
  | n ∷ rest ↦ bfs next fuel (scan (next n) (record s { queue = rest }))
]

unfoldable pub start_at : NodeKind → Bfs
start_at root = record { reachable = put root true []; queue = root ∷ [] }

-- The nodes that steps of `next` lead to from `root`.
pub data Reach (next : NodeKind → List NodeKind) (root : NodeKind) : NodeKind → Type 0 where
  here : Reach next root root
  step : {u v : NodeKind} → Reach next root u → In v (next u) → Reach next root v
