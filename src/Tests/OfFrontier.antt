-- ===== src/Tests/OfFrontier.antt =====
-- The frontier theorems on two nodes that ran, one of which replaces its targets.
use weavegraph.Base.{◌≡◌, ◌↔◌, IsDistinct, List, [], ◌∷◌, In, true}
use weavegraph.Base.Map.{Map}
use weavegraph.Kind.{NodeKind, NodeRoute, end, append, replace, FrontierCommand, to_node_kind}
use weavegraph.State.{StateSnapshot, snapshot}
use weavegraph.Graph.Builder.{ConditionalEdge}
use weavegraph.Frontier.{
  EdgePredicate, node_targets, commands_by_node, compute_next_frontier, is_valid_target,
}
use weavegraph.Frontier.Routes.{node_targets-routes}
use weavegraph.Frontier.Next.{leads, compute_next_frontier-IsDistinct, compute_next_frontier-exact}
use weavegraph.Tests.Values.{node_a, node_b, node_c, line, Value, one_user_message}

abbrev seen : StateSnapshot Value
unfolding snapshot
seen = snapshot one_user_message

abbrev nodes : Map NodeKind (Unit {0})
nodes = (node_a, tt) ∷ (node_b, tt) ∷ (node_c, tt) ∷ []

abbrev to_c : List (ConditionalEdge (EdgePredicate Value))
to_c = record { from = node_a; predicate = λ snap. "c" ∷ "nowhere" ∷ [] } ∷ []

abbrev commands : List (NodeKind × FrontierCommand)
commands =
    (node_b, append (NodeRoute.node node_a ∷ []))
    ∷ (node_b, replace (NodeRoute.node node_c ∷ []))
    ∷ (node_b, replace (NodeRoute.node node_b ∷ []))
    ∷ (node_b, append (NodeRoute.node end ∷ []))
    ∷ []

-- Of the commands of b the first `Replace` and the `Append` after it count.
node_targets-routes_example :
    node_targets line to_c seen (commands_by_node commands []) node_b ≡ node_c ∷ end ∷ []
unfolding to_node_kind
node_targets-routes_example = node_targets-routes line to_c seen commands node_b

compute_next_frontier-IsDistinct_example :
    IsDistinct (compute_next_frontier nodes line to_c seen (node_a ∷ node_b ∷ []) commands)
compute_next_frontier-IsDistinct_example =
    compute_next_frontier-IsDistinct nodes line to_c seen (node_a ∷ node_b ∷ []) commands

compute_next_frontier-exact_example :
    In node_c (compute_next_frontier nodes line to_c seen (node_a ∷ node_b ∷ []) commands) ↔ (
      ((id : NodeKind) × In id (node_a ∷ node_b ∷ [])
        × In node_c (leads nodes line to_c seen (node_a ∷ node_b ∷ []) commands id))
      × (is_valid_target nodes node_c ≡ true))
compute_next_frontier-exact_example =
    compute_next_frontier-exact nodes line to_c seen (node_a ∷ node_b ∷ []) commands node_c
