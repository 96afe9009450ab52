-- ===== src/Frontier.antt =====
-- `compute_next_frontier` of src/runtimes/runner.rs: commands, edges and predicates are resolved to
-- the frontier of the next step. The warnings in the log are left out.
pub mod Routes
pub mod Next
use weavegraph.Base.{
  String, Bool, true, false, not, ◌&&◌, Option, none, some, List, [], ◌∷◌, ◌++◌, map, contains,
  filter, is_empty, if◌then◌else◌, ◌==◌, String-key,
}
use weavegraph.Base.Map.{Map, get, put, contains_key}
use weavegraph.Kind.{
  NodeKind, NodeKind-key, start, end, custom, to_node_kind, FrontierCommand, append, replace,
}
use weavegraph.State.{StateSnapshot}
use weavegraph.Graph.Edges.{Edges, targets}
use weavegraph.Graph.Builder.{ConditionalEdge}

-- The predicate of a conditional edge names the targets.
abbrev pub EdgePredicate : Type 0 → Type 0
EdgePredicate V = StateSnapshot V → List String

abbrev pub or_no_commands : Option (List FrontierCommand) → List FrontierCommand
or_no_commands none = []
or_no_commands (some commands) = commands

-- The commands by the node that emits them, in the order of emission.
unfoldable pub add_command :
    NodeKind
    → FrontierCommand
    → Map NodeKind (List FrontierCommand)
    → Map NodeKind (List FrontierCommand)
add_command origin command m = put origin (or_no_commands (get origin m) ++ command ∷ []) m

unfoldable pub commands_by_node :
    List (NodeKind × FrontierCommand)
    → Map NodeKind (List FrontierCommand)
    → Map NodeKind (List FrontierCommand)
commands_by_node [] m = m
commands_by_node ((origin, command) ∷ rest) m = commands_by_node rest (add_command origin command m)

-- `next_targets` and `frontier_replaced`.
pub record Routing : Type 0 where
  pub next_targets : List NodeKind
  pub frontier_replaced : Bool

-- Only the first `Replace` of a node counts.
unfoldable pub apply_command : List NodeKind → FrontierCommand → Routing → Routing
apply_command default_edges (replace entries) r =
    if r.frontier_replaced
    then r
    else record { next_targets = map to_node_kind entries; frontier_replaced = true }
apply_command default_edges (append entries) r = record r {
  next_targets =
      (if is_empty r.next_targets && not r.frontier_replaced
        then r.next_targets ++ default_edges
        else r.next_targets)
      ++ map to_node_kind entries;
}

unfoldable pub apply_commands : List NodeKind → List FrontierCommand → Routing → Routing
apply_commands default_edges [] r = r
apply_commands default_edges (command ∷ commands) r =
    apply_commands default_edges commands (apply_command default_edges command r)

-- The branch on the commands of the node.
unfoldable pub resolve_commands : List NodeKind → Option (List FrontierCommand) → Routing
resolve_commands default_edges none = record {
  next_targets = default_edges;
  frontier_replaced = false;
}
resolve_commands default_edges (some commands) =
    let r =
      apply_commands default_edges commands
        (record { next_targets = []; frontier_replaced = false }) in
    if is_empty r.next_targets && not r.frontier_replaced
    then record r { next_targets = r.next_targets ++ default_edges }
    else r

-- The kind that a name of a predicate stands for.
unfoldable pub named_target : String → NodeKind
named_target name = if name == "End" then end else if name == "Start" then start else custom name

module _ {V : Type 0} where
  unfoldable pub conditional_targets :
      List (ConditionalEdge (EdgePredicate V)) → StateSnapshot V → NodeKind → List NodeKind
  conditional_targets [] snap id = []
  conditional_targets (ce ∷ ces) snap id =
      let rest = conditional_targets ces snap id in
      if ce.from == id then map named_target (ce.predicate snap) ++ rest else rest

  -- The targets of one node that ran.
  unfoldable pub node_targets :
      Edges
      → List (ConditionalEdge (EdgePredicate V))
      → StateSnapshot V
      → Map NodeKind (List FrontierCommand)
      → NodeKind
      → List NodeKind
  node_targets edges conditional_edges snap by_node id =
      let r = resolve_commands (targets edges id) (get id by_node) in
      if r.frontier_replaced
      then r.next_targets
      else r.next_targets ++ conditional_targets conditional_edges snap id

module _ {N : Type 0} where
  unfoldable pub is_valid_target : Map NodeKind N → NodeKind → Bool
  is_valid_target nodes end = true
  is_valid_target nodes start = true
  is_valid_target nodes (custom name) = contains_key (custom name) nodes

  -- The last loop of the body.
  unfoldable pub push_targets : Map NodeKind N → List NodeKind → List NodeKind → List NodeKind
  push_targets nodes [] next_frontier = next_frontier
  push_targets nodes (target ∷ rest) next_frontier = push_targets nodes rest (
      if is_valid_target nodes target
      then (if contains next_frontier target then next_frontier else next_frontier ++ target ∷ [])
      else next_frontier)

  unfoldable pub route_all :
      Map NodeKind N → (NodeKind → List NodeKind) → List NodeKind → List NodeKind → List NodeKind
  route_all nodes routes [] next_frontier = next_frontier
  route_all nodes routes (id ∷ ran) next_frontier =
      route_all nodes routes ran (push_targets nodes (routes id) next_frontier)

  unfoldable pub compute_next_frontier :
      {V : Type 0}
      → Map NodeKind N
      → Edges
      → List (ConditionalEdge (EdgePredicate V))
      → StateSnapshot V
      → List NodeKind
      → List (NodeKind × FrontierCommand)
      → List NodeKind
  compute_next_frontier nodes edges conditional_edges snap ran frontier_commands =
      route_all nodes
        (node_targets edges conditional_edges snap (commands_by_node frontier_commands [])) ran []
