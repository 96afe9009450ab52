-- ===== src/Graph/Made/New.antt =====
-- What a chain of calls makes of a new builder.
use weavegraph.Base.{◌≡◌, refl, none, String, List}
use weavegraph.Base.Map.{get, IsMap}
use weavegraph.Kind.{NodeKind, NodeKind-key, start, end, custom, ChannelType, ChannelType-key}
use weavegraph.Graph.Edges.{targets}
use weavegraph.Graph.Builder.{new}
use weavegraph.Config.Hash.{RuntimeConfig}
use weavegraph.Reducers.{ReducerRegistry}
use weavegraph.Graph.Made.{Call, build, linked, registered, last_bus, reducers_of}
use weavegraph.Graph.Made.Parts.{
  build-bus, build-reducers, build-linked, build-IsMap, build-registered, build-virtual,
}

module _ {N P C T V : Type 0} where
  -- Whatever calls make a builder from a new one: its edges are a map, the targets of each source
  -- are those that the calls give to it, in their order, the node of a custom kind is the last one
  -- that the calls register under it, no node is registered for Start or End, its event bus is the one
  -- that the calls set last, and the reducers of each channel are those of the registry that the calls
  -- set last, followed by those that they add to it, in their order.
  pub build-new :
      (cs : List (Call N P C T V)) (c : RuntimeConfig C T) (r : ReducerRegistry V)
      → IsMap (build cs (new c r)).edges
        × ((n : NodeKind) → targets (build cs (new c r)).edges n ≡ linked n cs)
        × ((name : String)
            → get (custom name) (build cs (new c r)).nodes ≡ registered (custom name) none cs)
        × (get start (build cs (new c r)).nodes ≡ none)
        × (get end (build cs (new c r)).nodes ≡ none)
        × ((build cs (new c r)).runtime_config.event_bus ≡ last_bus c.event_bus cs)
        × ((k : ChannelType)
            → get k (build cs (new c r)).reducer_registry ≡ reducers_of k (get k r) cs)
  unfolding new targets get
  build-new cs c r =
      let (no_start, no_end) = build-virtual cs (new c r) (refl, refl) in
      (
        build-IsMap cs (new c r) tt,
        build-linked cs (new c r),
        build-registered cs (new c r),
        no_start,
        no_end,
        build-bus cs (new c r),
        build-reducers cs (new c r),
      )
