-- ===== src/Graph/Made.antt =====
-- Chains of calls of the builder of src/graphs/builder.rs, and what they ask for.
pub mod Parts
pub mod New
use mathlib.Core.List.{append_assoc, append-nil}
use weavegraph.Base.{
  ◌≡◌, refl, sym, ap, ◌∙◌, Bool, true, false, Option, none, some, String, List, [], ◌∷◌, ◌++◌,
  if◌then◌else◌, ◌==◌, same-test,
}
use weavegraph.Base.Map.{get, IsMap, put-IsMap, get-put}
use weavegraph.Kind.{NodeKind, NodeKind-key, start, end, custom, ChannelType, ChannelType-key}
use weavegraph.Graph.Edges.{Edges, targets}
use weavegraph.Graph.Builder.{
  new, GraphBuilder, push_edge, add_node, add_edge, add_conditional_edge, with_runtime_config,
  with_reducer_registry, with_event_bus_config, with_reducer,
}
use weavegraph.Config.{EventBusConfig}
use weavegraph.Config.Hash.{RuntimeConfig}
use weavegraph.Reducers.{Reducer, ReducerRegistry, register}
use weavegraph.Graph.Compile.Reachable.{targets-push_edge}

-- A call of one of the builder's methods.
pub data Call (N P C T V : Type 0) : Type 0 where
  node : NodeKind → N → Call N P C T V
  edge : NodeKind → NodeKind → Call N P C T V
  conditional_edge : NodeKind → P → Call N P C T V
  runtime_config : RuntimeConfig C T → Call N P C T V
  event_bus_config : EventBusConfig → Call N P C T V
  reducer : ChannelType → Reducer V → Call N P C T V
  reducer_registry : ReducerRegistry V → Call N P C T V

abbrev pub items : {A : Type 0} → Option (List A) → List A
items none = []
items (some xs) = xs

module _ {N P C T V : Type 0} where
  abbrev pub call :
      Call N P C T V
      → GraphBuilder N P (RuntimeConfig C T) (ReducerRegistry V)
      → GraphBuilder N P (RuntimeConfig C T) (ReducerRegistry V)
  call (node k n) b = add_node k n b
  call (edge from to) b = add_edge from to b
  call (conditional_edge from predicate) b = add_conditional_edge from predicate b
  call (runtime_config c) b = with_runtime_config c b
  call (event_bus_config bus) b = with_event_bus_config bus b
  call (reducer channel f) b = with_reducer channel f b
  call (reducer_registry r) b = with_reducer_registry r b

  -- The calls one after the other.
  abbrev pub build :
      List (Call N P C T V)
      → GraphBuilder N P (RuntimeConfig C T) (ReducerRegistry V)
      → GraphBuilder N P (RuntimeConfig C T) (ReducerRegistry V)
  build [] b = b
  build (c ∷ cs) b = build cs (call c b)

  -- The targets that the calls give to a source, in order.
  abbrev pub linked : NodeKind → List (Call N P C T V) → List NodeKind
  linked n [] = []
  linked n (node k m ∷ cs) = linked n cs
  linked n (edge from to ∷ cs) = if from == n then to ∷ linked n cs else linked n cs
  linked n (conditional_edge from predicate ∷ cs) = linked n cs
  linked n (runtime_config c ∷ cs) = linked n cs
  linked n (event_bus_config bus ∷ cs) = linked n cs
  linked n (reducer channel f ∷ cs) = linked n cs
  linked n (reducer_registry r ∷ cs) = linked n cs

  -- The node that the calls register last under a kind, or the one that is there.
  abbrev pub registered : NodeKind → Option N → List (Call N P C T V) → Option N
  registered k o [] = o
  registered k o (node j n ∷ cs) = registered k (if j == k then some n else o) cs
  registered k o (edge from to ∷ cs) = registered k o cs
  registered k o (conditional_edge from predicate ∷ cs) = registered k o cs
  registered k o (runtime_config c ∷ cs) = registered k o cs
  registered k o (event_bus_config bus ∷ cs) = registered k o cs
  registered k o (reducer channel f ∷ cs) = registered k o cs
  registered k o (reducer_registry r ∷ cs) = registered k o cs

  -- The event bus that is set last, alone or in a configuration.
  abbrev pub last_bus : EventBusConfig → List (Call N P C T V) → EventBusConfig
  last_bus bus [] = bus
  last_bus bus (node k m ∷ cs) = last_bus bus cs
  last_bus bus (edge from to ∷ cs) = last_bus bus cs
  last_bus bus (conditional_edge from predicate ∷ cs) = last_bus bus cs
  last_bus bus (runtime_config c ∷ cs) = last_bus c.event_bus cs
  last_bus bus (event_bus_config later ∷ cs) = last_bus later cs
  last_bus bus (reducer channel f ∷ cs) = last_bus bus cs
  last_bus bus (reducer_registry r ∷ cs) = last_bus bus cs

  -- The reducers of a channel: those of the registry that is set last, and those that are added to
  -- it, in order.
  abbrev pub reducers_of :
      ChannelType → Option (List (Reducer V)) → List (Call N P C T V) → Option (List (Reducer V))
  reducers_of k o [] = o
  reducers_of k o (node j m ∷ cs) = reducers_of k o cs
  reducers_of k o (edge from to ∷ cs) = reducers_of k o cs
  reducers_of k o (conditional_edge from predicate ∷ cs) = reducers_of k o cs
  reducers_of k o (runtime_config c ∷ cs) = reducers_of k o cs
  reducers_of k o (event_bus_config bus ∷ cs) = reducers_of k o cs
  reducers_of k o (reducer channel f ∷ cs) =
      reducers_of k (if channel == k then some (items o ++ f ∷ []) else o) cs
  reducers_of k o (reducer_registry r ∷ cs) = reducers_of k (get k r) cs
