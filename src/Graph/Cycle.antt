-- ===== src/Graph/Cycle.antt =====
-- `GraphBuilder::detect_cycle` of src/graphs/compilation.rs: a depth-first search in three colours.
pub mod Colors
pub mod Decides
pub mod Whites
pub mod Correct
use weavegraph.Base.{
  ℕ, zero, suc, Option, none, some, Bool, List, [], ◌∷◌, ◌++◌, drop, drop_last, length, position,
  if◌then◌else◌, ◌==◌,
}
use weavegraph.Base.Map.{Map, get, put, keys}
use weavegraph.Kind.{NodeKind, NodeKind-key}
use weavegraph.Graph.Edges.{Edges, targets}

-- Not visited, on the current path, and fully explored.
pub data Color : Type 0 where
  white gray black : Color

-- What the recursive calls share: the colours and the path from the root.
pub record Search : Type 0 where
  pub colors : Map NodeKind Color
  pub path : List NodeKind

-- `colors.get(node).copied().unwrap_or(Color::White)`.
unfoldable pub color : Search → NodeKind → Color
color s node = elim (get node s.colors) [ none ↦ white | some c ↦ c ]

unfoldable pub paint : NodeKind → Color → Search → Search
paint node c s = record s { colors = put node c s.colors }

-- `entry(node).or_insert(Color::White)`.
unfoldable pub add_white : NodeKind → Map NodeKind Color → Map NodeKind Color
add_white node colors = elim (get node colors) [ none ↦ put node white colors | some _ ↦ colors ]

unfoldable pub add_whites : List NodeKind → Map NodeKind Color → Map NodeKind Color
add_whites [] colors = colors
add_whites (node ∷ rest) colors = add_whites rest (add_white node colors)

unfoldable pub add_targets : Edges → Map NodeKind Color → Map NodeKind Color
add_targets [] colors = colors
add_targets ((from, tos) ∷ rest) colors = add_targets rest (add_whites tos colors)

-- The colours at the start: all sources, then all targets.
unfoldable pub initial_colors : Edges → Map NodeKind Color
initial_colors edges = add_targets edges (add_whites (keys edges) [])

-- `found` is `Some(cycle)`, and `done` is `None` with the state that the call leaves.
pub data Outcome : Type 0 where
  found : List NodeKind → Outcome
  done : Search → Outcome
  out_of_fuel : Outcome

infixl 5 ◌>>=◌
abbrev pub ◌>>=◌ : Outcome → (Search → Outcome) → Outcome
found cycle >>= f = found cycle
done s >>= f = f s
out_of_fuel >>= f = out_of_fuel

-- The loop over the neighbours of the node on top of the path; `visit` is the recursive call.
unfoldable pub explore : (NodeKind → Search → Outcome) → List NodeKind → Search → Outcome
explore visit [] s = done s
explore visit (neighbor ∷ rest) s = elim (color s neighbor) [
  | white ↦ do s' ← visit neighbor s; explore visit rest s'
  | gray ↦ elim (position neighbor s.path) [
    | some cycle_start ↦ found (drop cycle_start s.path ++ neighbor ∷ [])
    | none ↦ explore visit rest s
  ]
  | black ↦ explore visit rest s
]

unfoldable pub enter : NodeKind → Search → Search
unfolding paint
enter node s = record (paint node gray s) { path = s.path ++ node ∷ [] }

unfoldable pub leave : NodeKind → Search → Search
unfolding paint
leave node s = paint node black (record s { path = drop_last s.path })

-- The fuel bounds the depth of the recursion.
unfoldable pub dfs : Edges → ℕ → NodeKind → Search → Outcome
dfs edges zero node s = out_of_fuel
dfs edges (suc fuel) node s = do
  s' ← explore (dfs edges fuel) (targets edges node) (enter node s)
  done (leave node s')

abbrev pub is_white : Color → Bool
is_white c = elim c [ white ↦ Bool.true | gray ↦ Bool.false | black ↦ Bool.false ]

-- The loop over all nodes.
unfoldable pub search_from : (NodeKind → Search → Outcome) → List NodeKind → Search → Outcome
search_from visit [] s = done s
search_from visit (node ∷ rest) s =
    let next = visit node s >>= search_from visit rest in
    let skip = search_from visit rest s in if is_white (color s node) then next else skip

-- `order` is the order in which the hash map of colours lists its keys.
unfoldable pub detect_cycle : (List NodeKind → List NodeKind) → Edges → Outcome
detect_cycle order edges =
    let nodes = keys (initial_colors edges) in
    search_from (dfs edges (suc (length nodes))) (order nodes)
      (record { colors = initial_colors edges; path = [] })
