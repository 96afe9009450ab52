-- ===== src/Graph/Made/Parts.antt =====
-- What a chain of calls makes of each part of the builder.
use mathlib.Core.List.{append_assoc, append-nil}
use weavegraph.Base.{
  ◌≡◌, refl, sym, ap, ◌∙◌, Bool, true, false, Option, none, some, String, List, [], ◌∷◌, ◌++◌,
  if◌then◌else◌, ◌==◌, same-test,
}
use weavegraph.Base.Map.{get, IsMap, put-IsMap, get-put}
use weavegraph.Kind.{NodeKind, NodeKind-key, start, end, custom, ChannelType, ChannelType-key}
use weavegraph.Graph.Edges.{Edges, targets}
use weavegraph.Graph.Builder.{
  GraphBuilder, push_edge, add_node, add_edge, add_conditional_edge, with_runtime_config,
  with_reducer_registry, with_event_bus_config, with_reducer,
}
use weavegraph.Config.Hash.{RuntimeConfig}
use weavegraph.Reducers.{Reducer, ReducerRegistry, register}
use weavegraph.Graph.Compile.Reachable.{targets-push_edge}
use weavegraph.Graph.Made.{
  node, edge, conditional_edge, runtime_config, event_bus_config, reducer, reducer_registry, Call,
  build, items, linked, registered, last_bus, reducers_of,
}

linked_once :
    (from to n : NodeKind) (edges : Edges) (after : List NodeKind) (same : Bool)
    → (from == n) ≡ same
    → (if same then targets edges from ++ to ∷ [] else targets edges n) ++ after
      ≡ targets edges n ++ (if same then to ∷ after else after)
linked_once from to n edges after true e =
    ap (λ k. (targets edges k ++ to ∷ []) ++ after) (same-test from n e)
    ∙ append_assoc (targets edges n) (to ∷ []) after
linked_once from to n edges after false e = refl

module _ {V : Type 0} where
  get-register :
      (k channel : ChannelType) (f : Reducer V) (r : ReducerRegistry V)
      → get k (register channel f r)
        ≡ (if channel == k then some (items (get k r) ++ f ∷ []) else get k r)
  unfolding register
  get-register k channel f r = get-put channel k _ r ∙ at_channel (channel == k) refl
    where
      added : Option (List (Reducer V)) → List (Reducer V)
      added o = elim o [ none ↦ f ∷ [] | some reducers ↦ reducers ++ f ∷ [] ]

      added-items : (o : Option (List (Reducer V))) → added o ≡ items o ++ f ∷ []
      added-items none = refl
      added-items (some fs) = refl

      at_channel :
          (same : Bool)
          → (channel == k) ≡ same
          → (if same then some (added (get channel r)) else get k r)
            ≡ (if same then some (items (get k r) ++ f ∷ []) else get k r)
      at_channel true e =
          ap (λ c. some (added (get c r))) (same-test channel k e) ∙ ap some (added-items (get k r))
      at_channel false e = refl

module _ {N P C T V : Type 0} where
  pub build-bus :
      (cs : List (Call N P C T V)) (b : GraphBuilder N P (RuntimeConfig C T) (ReducerRegistry V))
      → (build cs b).runtime_config.event_bus ≡ last_bus b.runtime_config.event_bus cs
  unfolding add_edge add_node add_conditional_edge with_runtime_config with_reducer_registry
      with_event_bus_config with_reducer
  build-bus [] b = refl
  build-bus (node start m ∷ cs) b = build-bus cs b
  build-bus (node end m ∷ cs) b = build-bus cs b
  build-bus (node (custom name) m ∷ cs) b = build-bus cs (add_node (custom name) m b)
  build-bus (edge from to ∷ cs) b = build-bus cs (add_edge from to b)
  build-bus (conditional_edge from predicate ∷ cs) b =
      build-bus cs (add_conditional_edge from predicate b)
  build-bus (runtime_config c ∷ cs) b = build-bus cs (with_runtime_config c b)
  build-bus (event_bus_config bus ∷ cs) b = build-bus cs (with_event_bus_config bus b)
  build-bus (reducer channel f ∷ cs) b = build-bus cs (with_reducer channel f b)
  build-bus (reducer_registry r ∷ cs) b = build-bus cs (with_reducer_registry r b)

  pub build-reducers :
      (cs : List (Call N P C T V)) (b : GraphBuilder N P (RuntimeConfig C T) (ReducerRegistry V))
      (k : ChannelType)
      → get k (build cs b).reducer_registry ≡ reducers_of k (get k b.reducer_registry) cs
  unfolding add_edge add_node add_conditional_edge with_runtime_config with_reducer_registry
      with_event_bus_config with_reducer
  build-reducers [] b k = refl
  build-reducers (node start m ∷ cs) b k = build-reducers cs b k
  build-reducers (node end m ∷ cs) b k = build-reducers cs b k
  build-reducers (node (custom name) m ∷ cs) b k = build-reducers cs (add_node (custom name) m b) k
  build-reducers (edge from to ∷ cs) b k = build-reducers cs (add_edge from to b) k
  build-reducers (conditional_edge from predicate ∷ cs) b k =
      build-reducers cs (add_conditional_edge from predicate b) k
  build-reducers (runtime_config c ∷ cs) b k = build-reducers cs (with_runtime_config c b) k
  build-reducers (event_bus_config bus ∷ cs) b k = build-reducers cs (with_event_bus_config bus b) k
  build-reducers (reducer channel f ∷ cs) b k =
      build-reducers cs (with_reducer channel f b) k
      ∙ ap (λ o. reducers_of k o cs) (get-register k channel f b.reducer_registry)
  build-reducers (reducer_registry r ∷ cs) b k = build-reducers cs (with_reducer_registry r b) k

  pub build-linked :
      (cs : List (Call N P C T V)) (b : GraphBuilder N P (RuntimeConfig C T) (ReducerRegistry V))
      (n : NodeKind)
      → targets (build cs b).edges n ≡ targets b.edges n ++ linked n cs
  unfolding add_edge add_node add_conditional_edge with_runtime_config with_reducer_registry
      with_event_bus_config with_reducer push_edge
  build-linked [] b n = sym (append-nil (targets b.edges n))
  build-linked (node start m ∷ cs) b n = build-linked cs b n
  build-linked (node end m ∷ cs) b n = build-linked cs b n
  build-linked (node (custom name) m ∷ cs) b n = build-linked cs (add_node (custom name) m b) n
  build-linked (edge from to ∷ cs) b n =
      build-linked cs (add_edge from to b) n
      ∙ ap (λ tos. tos ++ linked n cs) (targets-push_edge from to n b.edges)
      ∙ linked_once from to n b.edges (linked n cs) (from == n) refl
  build-linked (conditional_edge from predicate ∷ cs) b n =
      build-linked cs (add_conditional_edge from predicate b) n
  build-linked (runtime_config c ∷ cs) b n = build-linked cs (with_runtime_config c b) n
  build-linked (event_bus_config bus ∷ cs) b n = build-linked cs (with_event_bus_config bus b) n
  build-linked (reducer channel f ∷ cs) b n = build-linked cs (with_reducer channel f b) n
  build-linked (reducer_registry r ∷ cs) b n = build-linked cs (with_reducer_registry r b) n

  pub build-IsMap :
      (cs : List (Call N P C T V)) (b : GraphBuilder N P (RuntimeConfig C T) (ReducerRegistry V))
      → IsMap b.edges
      → IsMap (build cs b).edges
  unfolding add_edge add_node add_conditional_edge with_runtime_config with_reducer_registry
      with_event_bus_config with_reducer push_edge
  build-IsMap [] b h = h
  build-IsMap (node start m ∷ cs) b h = build-IsMap cs b h
  build-IsMap (node end m ∷ cs) b h = build-IsMap cs b h
  build-IsMap (node (custom name) m ∷ cs) b h = build-IsMap cs (add_node (custom name) m b) h
  build-IsMap (edge from to ∷ cs) b h =
      build-IsMap cs (add_edge from to b)
        (put-IsMap from (targets b.edges from ++ to ∷ []) b.edges h)
  build-IsMap (conditional_edge from predicate ∷ cs) b h =
      build-IsMap cs (add_conditional_edge from predicate b) h
  build-IsMap (runtime_config c ∷ cs) b h = build-IsMap cs (with_runtime_config c b) h
  build-IsMap (event_bus_config bus ∷ cs) b h = build-IsMap cs (with_event_bus_config bus b) h
  build-IsMap (reducer channel f ∷ cs) b h = build-IsMap cs (with_reducer channel f b) h
  build-IsMap (reducer_registry r ∷ cs) b h = build-IsMap cs (with_reducer_registry r b) h

  pub build-registered :
      (cs : List (Call N P C T V)) (b : GraphBuilder N P (RuntimeConfig C T) (ReducerRegistry V))
      (name : String)
      → get (custom name) (build cs b).nodes
        ≡ registered (custom name) (get (custom name) b.nodes) cs
  unfolding add_edge add_node add_conditional_edge with_runtime_config with_reducer_registry
      with_event_bus_config with_reducer
  build-registered [] b name = refl
  build-registered (node start m ∷ cs) b name = build-registered cs b name
  build-registered (node end m ∷ cs) b name = build-registered cs b name
  build-registered (node (custom other) m ∷ cs) b name =
      build-registered cs (add_node (custom other) m b) name
      ∙ ap (λ o. registered (custom name) o cs) (get-put (custom other) (custom name) m b.nodes)
  build-registered (edge from to ∷ cs) b name = build-registered cs (add_edge from to b) name
  build-registered (conditional_edge from predicate ∷ cs) b name =
      build-registered cs (add_conditional_edge from predicate b) name
  build-registered (runtime_config c ∷ cs) b name =
      build-registered cs (with_runtime_config c b) name
  build-registered (event_bus_config bus ∷ cs) b name =
      build-registered cs (with_event_bus_config bus b) name
  build-registered (reducer channel f ∷ cs) b name =
      build-registered cs (with_reducer channel f b) name
  build-registered (reducer_registry r ∷ cs) b name =
      build-registered cs (with_reducer_registry r b) name

  pub build-virtual :
      (cs : List (Call N P C T V)) (b : GraphBuilder N P (RuntimeConfig C T) (ReducerRegistry V))
      → (get start b.nodes ≡ none) × (get end b.nodes ≡ none)
      → (get start (build cs b).nodes ≡ none) × (get end (build cs b).nodes ≡ none)
  unfolding add_edge add_node add_conditional_edge with_runtime_config with_reducer_registry
      with_event_bus_config with_reducer
  build-virtual [] b h = h
  build-virtual (node start m ∷ cs) b h = build-virtual cs b h
  build-virtual (node end m ∷ cs) b h = build-virtual cs b h
  build-virtual (node (custom name) m ∷ cs) b h =
      build-virtual cs (add_node (custom name) m b)
        (get-put (custom name) start m b.nodes ∙ h.0, get-put (custom name) end m b.nodes ∙ h.1)
  build-virtual (edge from to ∷ cs) b h = build-virtual cs (add_edge from to b) h
  build-virtual (conditional_edge from predicate ∷ cs) b h =
      build-virtual cs (add_conditional_edge from predicate b) h
  build-virtual (runtime_config c ∷ cs) b h = build-virtual cs (with_runtime_config c b) h
  build-virtual (event_bus_config bus ∷ cs) b h = build-virtual cs (with_event_bus_config bus b) h
  build-virtual (reducer channel f ∷ cs) b h = build-virtual cs (with_reducer channel f b) h
  build-virtual (reducer_registry r ∷ cs) b h = build-virtual cs (with_reducer_registry r b) h
