-- ===== src/Tests/OfGraph.antt =====
-- The graph theorems on the graphs of the tests.
use weavegraph.Base.{ℕ, ◌≡◌, ◌↔◌, refl, none, some, String, List, [], ◌∷◌}
use weavegraph.Base.Map.{IsMap, get}
use weavegraph.Base.Result.{ok}
use weavegraph.Kind.{
  NodeKind, NodeKind-key, end, start, custom, ChannelType, ChannelType-key, message,
}
use weavegraph.Graph.Edges.{targets}
use weavegraph.Graph.Cycle.{detect_cycle}
use weavegraph.Graph.Cycle.Decides.{Decided, Covers, detect_cycle-Decided}
use weavegraph.Graph.Compile.{validate}
use weavegraph.Graph.Compile.Valid.{IsWellFormed, validate-IsWellFormed}
use weavegraph.Graph.Builder.{new}
use weavegraph.Graph.Made.{Call, build, linked, registered, last_bus, reducers_of}
use weavegraph.Graph.Made.New.{build-new}
use weavegraph.Config.{with_memory_sink, with_stdout_only}
use weavegraph.Config.Hash.{RuntimeConfig}
use weavegraph.Reducers.{ReducerRegistry, add_messages}
use weavegraph.Tests.Values.{node_a, node_b, node_c, line-IsMap, loop, line_builder}

as_given-Covers : Covers (λ ns. ns)
as_given-Covers ns n = (λ i. i, λ i. i)

detect_cycle-Decided_example : Decided loop (detect_cycle (λ ns. ns) loop)
detect_cycle-Decided_example = detect_cycle-Decided (λ ns. ns) loop as_given-Covers

validate-IsWellFormed_example :
    (validate (λ ns. ns) line_builder ≡ ok tt) ↔ IsWellFormed line_builder
validate-IsWellFormed_example =
    validate-IsWellFormed (λ ns. ns) line_builder as_given-Covers line-IsMap

-- The second node of the name replaces the first, and the targets of a keep their order.
abbrev calls : List (Call ℕ (Unit {0}) (Unit {0}) (Unit {0}) ℕ)
calls =
    Call.node node_a 1
    ∷ Call.node start 2
    ∷ Call.edge node_a node_b
    ∷ Call.edge start node_a
    ∷ Call.node node_a 3
    ∷ Call.edge node_a node_c
    ∷ Call.event_bus_config with_memory_sink
    ∷ Call.reducer message add_messages
    ∷ []

abbrev bare : RuntimeConfig (Unit {0}) (Unit {0})
bare = record {
  session_id = none;
  checkpointer_custom = none;
  sqlite_db_name = none;
  event_bus = with_stdout_only;
  clock = none;
}

abbrev no_reducers : ReducerRegistry ℕ
no_reducers = []

build-new_example :
    IsMap (build calls (new bare no_reducers)).edges
    × ((n : NodeKind) → targets (build calls (new bare no_reducers)).edges n ≡ linked n calls)
    × ((name : String)
        → get (custom name) (build calls (new bare no_reducers)).nodes
          ≡ registered (custom name) none calls)
    × (get start (build calls (new bare no_reducers)).nodes ≡ none)
    × (get end (build calls (new bare no_reducers)).nodes ≡ none)
    × ((build calls (new bare no_reducers)).runtime_config.event_bus
        ≡ last_bus with_stdout_only calls)
    × ((k : ChannelType)
        → get k (build calls (new bare no_reducers)).reducer_registry
          ≡ reducers_of k (get k no_reducers) calls)
build-new_example = build-new calls bare no_reducers

targets_of_a : linked node_a calls ≡ node_b ∷ node_c ∷ []
targets_of_a = refl

node_of_a : registered node_a none calls ≡ some 3
node_of_a = refl

bus_of_calls : last_bus with_stdout_only calls ≡ with_memory_sink
bus_of_calls = refl

reducers_of_messages : reducers_of message none calls ≡ some (add_messages ∷ [])
reducers_of_messages = refl
