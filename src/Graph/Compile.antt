-- ===== src/Graph/Compile.antt =====
-- `compile` and `validate` of src/graphs/compilation.rs.
pub mod Reachable
pub mod Known
pub mod Valid
use weavegraph.Base.{
  ℕ, zero, suc, Bool, true, false, not, ◌||◌, Option, none, some, String, List, [], ◌∷◌, ◌++◌,
  length, filter, any, contains, is_empty, if◌then◌else◌, ◌==◌, leb,
}
use weavegraph.Base.Map.{Map, keys, contains_key}
use weavegraph.Base.Result.{Result, ok, err, ◌>>=◌, ◌>>◌}
use weavegraph.Base.Sort.{sort}
use weavegraph.Kind.{NodeKind, NodeKind-key, start, end, custom, display_le}
use weavegraph.Graph.Edges.{Edges, targets}
use weavegraph.Graph.Builder.{ConditionalEdge, GraphBuilder, App, push_edge, from_parts}
use weavegraph.Graph.Cycle.{Outcome, found, done, out_of_fuel, detect_cycle}
use weavegraph.Graph.Reach.{Bfs, seen, bfs, start_at}

pub data GraphCompileError : Type 0 where
  missing_entry : GraphCompileError
  unknown_node : NodeKind → GraphCompileError
  edge_from_end : GraphCompileError
  cycle_detected : List NodeKind → GraphCompileError
  unreachable_nodes : List NodeKind → GraphCompileError
  no_path_to_end : List NodeKind → GraphCompileError
  duplicate_edge : NodeKind → NodeKind → GraphCompileError

-- All endpoints of edges: as many rounds as there are endpoints empty the queue of a search.
abbrev pub endpoints : Edges → List NodeKind
endpoints [] = []
endpoints ((from, tos) ∷ edges) = from ∷ (tos ++ endpoints edges)

-- The registered nodes that the search from `root` does not see, sorted by their display.
unfoldable pub missed : (NodeKind → List NodeKind) → NodeKind → ℕ → List NodeKind → List NodeKind
missed next root fuel nodes =
    sort display_le (filter (λ n. not (seen (bfs next fuel (start_at root)) n)) nodes)

unfoldable pub detect_unreachable_nodes : List NodeKind → Edges → List NodeKind
unfolding missed
detect_unreachable_nodes nodes edges =
    missed (targets edges) start (suc (length (endpoints edges))) nodes

unfoldable pub push_reversed : NodeKind → List NodeKind → Edges → Edges
push_reversed from [] reverse = reverse
push_reversed from (to ∷ tos) reverse = push_reversed from tos (push_edge to from reverse)

unfoldable pub reverse_into : Edges → Edges → Edges
reverse_into [] reverse = reverse
reverse_into ((from, tos) ∷ edges) reverse = reverse_into edges (push_reversed from tos reverse)

-- `reverse_edges`: for each target the sources of its edges.
abbrev pub reverse_edges : Edges → Edges
reverse_edges edges = reverse_into edges []

unfoldable pub detect_no_path_to_end : List NodeKind → Edges → List NodeKind
unfolding missed
detect_no_path_to_end nodes edges =
    missed (targets (reverse_edges edges)) end (suc (length (endpoints edges))) nodes

-- The first target that the set of the targets before it holds.
unfoldable pub first_duplicate : List NodeKind → List NodeKind → Option NodeKind
first_duplicate before [] = none
first_duplicate before (to ∷ tos) =
    if contains before to then some to else first_duplicate (to ∷ before) tos

unfoldable pub detect_duplicate_edge : Edges → Option (NodeKind × NodeKind)
detect_duplicate_edge [] = none
detect_duplicate_edge ((from, tos) ∷ edges) = elim (first_duplicate [] tos) [
  | some to ↦ some (from, to)
  | none ↦ detect_duplicate_edge edges
]

-- A custom node must be registered.
unfoldable pub check_known : List NodeKind → NodeKind → Result GraphCompileError (Unit {0})
check_known nodes start = ok tt
check_known nodes end = ok tt
check_known nodes (custom name) =
    if contains nodes (custom name) then ok tt else err (unknown_node (custom name))

unfoldable pub check_targets : List NodeKind → List NodeKind → Result GraphCompileError (Unit {0})
check_targets nodes [] = ok tt
check_targets nodes (to ∷ tos) = do check_known nodes to; check_targets nodes tos

unfoldable pub check_source : List NodeKind → NodeKind → Result GraphCompileError (Unit {0})
check_source nodes end = err edge_from_end
check_source nodes start = ok tt
check_source nodes (custom name) = check_known nodes (custom name)

-- The last loop of `validate`.
unfoldable pub check_edges : List NodeKind → Edges → Result GraphCompileError (Unit {0})
check_edges nodes [] = ok tt
check_edges nodes ((from, tos) ∷ edges) = do
  check_source nodes from
  check_targets nodes tos
  check_edges nodes edges

abbrev pub fail_if : Bool → GraphCompileError → Result GraphCompileError (Unit {0})
fail_if true e = err e
fail_if false e = ok tt

unfoldable pub check_cycle : Outcome → Result GraphCompileError (Unit {0})
check_cycle (found cycle) = err (cycle_detected cycle)
check_cycle (done s) = ok tt
check_cycle out_of_fuel = ok tt

unfoldable pub check_duplicate : Option (NodeKind × NodeKind) → Result GraphCompileError (Unit {0})
check_duplicate none = ok tt
check_duplicate (some (from, to)) = err (duplicate_edge from to)

module _ {N P C R : Type 0} where
  unfoldable pub has_start_edge : GraphBuilder N P C R → Bool
  has_start_edge b =
      not (is_empty (targets b.edges start)) || any (λ ce. ce.from == start) b.conditional_edges

  -- Rules 3 and 4, which a graph with conditional edges skips.
  unfoldable pub check_reachability : GraphBuilder N P C R → Result GraphCompileError (Unit {0})
  check_reachability b =
      let unreachable = detect_unreachable_nodes (keys b.nodes) b.edges in
      let no_path = detect_no_path_to_end (keys b.nodes) b.edges in
      if is_empty b.conditional_edges
      then (do
        fail_if (not (is_empty unreachable)) (unreachable_nodes unreachable)
        fail_if (not (is_empty no_path)) (no_path_to_end no_path))
      else ok tt

  -- `order` is the order in which the hash map of colours lists its keys.
  unfoldable pub validate :
      (List NodeKind → List NodeKind) → GraphBuilder N P C R → Result GraphCompileError (Unit {0})
  validate order b = do
    fail_if (not (has_start_edge b)) missing_entry
    check_cycle (detect_cycle order b.edges)
    check_reachability b
    check_duplicate (detect_duplicate_edge b.edges)
    check_edges (keys b.nodes) b.edges

  unfoldable pub compile :
      (List NodeKind → List NodeKind)
      → GraphBuilder N P C R
      → Result GraphCompileError (App N P C R)
  compile order b = do
    validate order b
    ok (from_parts b.nodes b.edges b.conditional_edges b.runtime_config b.reducer_registry)
