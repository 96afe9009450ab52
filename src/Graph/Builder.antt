-- ===== src/Graph/Builder.antt =====
-- src/graphs/builder.rs and src/graphs/edges.rs. A node, a predicate of a conditional edge, the
-- runtime configuration and the reducer registry are parameters here, but for the two methods that
-- look into them.
use weavegraph.Base.{ℕ, ◌+◌, List, [], ◌∷◌, ◌++◌, length}
use weavegraph.Base.Map.{Map, put}
use weavegraph.Kind.{NodeKind, NodeKind-key, start, end, custom}
use weavegraph.Kind.{ChannelType}
use weavegraph.Config.{EventBusConfig}
use weavegraph.Config.Hash.{RuntimeConfig}
use weavegraph.Reducers.{Reducer, ReducerRegistry, register}
use weavegraph.Graph.Edges.{Edges, targets}

pub record ConditionalEdge (P : Type 0) : Type 0 where
  pub from : NodeKind
  pub predicate : P

pub record GraphBuilder (N P C R : Type 0) : Type 0 where
  pub nodes : Map NodeKind N
  pub edges : Edges
  pub conditional_edges : List (ConditionalEdge P)
  pub runtime_config : C
  pub reducer_registry : R

-- What `into_parts` hands to `App::from_parts`.
pub record App (N P C R : Type 0) : Type 0 where
  pub nodes : Map NodeKind N
  pub edges : Edges
  pub conditional_edges : List (ConditionalEdge P)
  pub reducer_registry : R
  pub runtime_config : C

-- `entry(from).or_default().push(to)`.
unfoldable pub push_edge : NodeKind → NodeKind → Edges → Edges
push_edge from to edges = put from (targets edges from ++ to ∷ []) edges

abbrev count_edges : Edges → ℕ
count_edges [] = 0
count_edges ((from, tos) ∷ edges) = length tos + count_edges edges

module _ {N P C R : Type 0} where
  -- `config` and `registry` are the defaults of their types.
  unfoldable pub new : C → R → GraphBuilder N P C R
  new config registry = record {
    nodes = [];
    edges = [];
    conditional_edges = [];
    runtime_config = config;
    reducer_registry = registry;
  }

  unfoldable pub add_conditional_edge : NodeKind → P → GraphBuilder N P C R → GraphBuilder N P C R
  add_conditional_edge from predicate b = record b {
    conditional_edges = b.conditional_edges ++ record { from = from; predicate = predicate } ∷ [];
  }

  -- A virtual kind is ignored, with a warning in the log.
  unfoldable pub add_node : NodeKind → N → GraphBuilder N P C R → GraphBuilder N P C R
  add_node start node b = b
  add_node end node b = b
  add_node (custom name) node b = record b { nodes = put (custom name) node b.nodes }

  unfoldable pub add_edge : NodeKind → NodeKind → GraphBuilder N P C R → GraphBuilder N P C R
  unfolding push_edge
  add_edge from to b = record b { edges = push_edge from to b.edges }

  unfoldable pub with_runtime_config : C → GraphBuilder N P C R → GraphBuilder N P C R
  with_runtime_config config b = record b { runtime_config = config }

  unfoldable pub with_reducer_registry : R → GraphBuilder N P C R → GraphBuilder N P C R
  with_reducer_registry registry b = record b { reducer_registry = registry }

  pub node_count : GraphBuilder N P C R → ℕ
  node_count b = length b.nodes

  pub edge_count : GraphBuilder N P C R → ℕ
  edge_count b = count_edges b.edges

  unfoldable pub from_parts :
      Map NodeKind N → Edges → List (ConditionalEdge P) → C → R → App N P C R
  from_parts nodes edges conditional_edges config registry = record {
    nodes = nodes;
    edges = edges;
    conditional_edges = conditional_edges;
    reducer_registry = registry;
    runtime_config = config;
  }

-- The clone of the configuration is the configuration.
unfoldable pub with_event_bus_config :
    {N P C T R : Type 0}
    → EventBusConfig
    → GraphBuilder N P (RuntimeConfig C T) R
    → GraphBuilder N P (RuntimeConfig C T) R
with_event_bus_config config b = record b {
  runtime_config = record b.runtime_config { event_bus = config };
}

unfoldable pub with_reducer :
    {N P C V : Type 0}
    → ChannelType
    → Reducer V
    → GraphBuilder N P C (ReducerRegistry V)
    → GraphBuilder N P C (ReducerRegistry V)
unfolding register
with_reducer channel reducer b = record b {
  reducer_registry = register channel reducer b.reducer_registry;
}
