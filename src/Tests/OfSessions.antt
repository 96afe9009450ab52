-- ===== src/Tests/OfSessions.antt =====
-- The theorems on encodings, on the barrier that never fails, and on sessions that are created.
use weavegraph.Base.{◌≡◌, refl, sym, ◌∙◌, Option, String, String-key, [], ◌∷◌, some, none, arith}
use weavegraph.Base.Map.{Map, get, put, contains_key}
use weavegraph.Base.Result.{Result, ok}
use weavegraph.Kind.{NodeKind-key}
use weavegraph.Reducers.{default_registry, ReducerRegistry}
use weavegraph.Barrier.{BarrierOutcome, apply_barrier}
use weavegraph.Barrier.Total.{apply_barrier-ok}
use weavegraph.Scheduler.{Node}
use weavegraph.Frontier.{EdgePredicate}
use weavegraph.Graph.Edges.{targets}
use weavegraph.Graph.Builder.{GraphBuilder, from_parts, push_edge}
use weavegraph.Graph.Compile.{
  validate, compile, check_edges, check_targets, check_source, check_known, check_cycle,
  check_duplicate, check_reachability, has_start_edge, missed, push_reversed, reverse_into,
  first_duplicate, detect_unreachable_nodes, detect_no_path_to_end, detect_duplicate_edge,
}
use weavegraph.Graph.Cycle.{
  detect_cycle, color, paint, add_white, add_whites, add_targets, initial_colors, explore, enter,
  leave, dfs, search_from,
}
use weavegraph.Graph.Reach.{offer, scan, bfs, start_at}
use weavegraph.Base.Sort.{sort, insert}
use weavegraph.Session.{resumed}
use weavegraph.Checkpoint.{Checkpoint, in_memory-IsLawful, save, load_latest}
use weavegraph.Runner.{RunnerError, AppRunner, maybe_checkpoint}
use weavegraph.Runner.Sound.{IsSoundFrontier}
use weavegraph.Runner.Invariants.{IsSound}
use weavegraph.Runner.Life.{create_session, load_checkpoint}
use weavegraph.Runner.Resume.{create_session-maybe_checkpoint}
use weavegraph.Runner.Start.{create_session-IsSound}
use weavegraph.Tests.Values.{
  node_a, node_b, line, line-IsMap, Value, Value-json, one_user_message, two_partials,
}
use weavegraph.Tests.OfRunner.{outside, app, session, runner, runner-IsSound}

-- No channel has a reducer.
abbrev nothing_registered : ReducerRegistry Value
nothing_registered = []

apply_barrier-ok_example :
    (outcome : BarrierOutcome Value) × ((apply_barrier nothing_registered one_user_message
        (node_a ∷ node_b ∷ [])
        two_partials).1
      ≡ ok outcome)
apply_barrier-ok_example =
    apply_barrier-ok nothing_registered one_user_message (node_a ∷ node_b ∷ []) two_partials

-- After a restart there are no sessions, and the store is what the save has left.
abbrev restarted : AppRunner Value String (Unit {0}) (Map String (Checkpoint Value))
restarted = record runner {
  sessions = [];
  checkpointer = (maybe_checkpoint outside "one" runner).checkpointer;
}

found_session : get "one" runner.sessions ≡ some session
unfolding get
found_session = refl

create_session-maybe_checkpoint_example :
    (get "one" (create_session outside "one" one_user_message restarted).0.sessions ≡ some session)
    × ((create_session outside "one" one_user_message restarted).1 ≡ ok (resumed 0))
unfolding save
create_session-maybe_checkpoint_example =
    create_session-maybe_checkpoint outside "one" session [] runner restarted one_user_message
      in_memory-IsLawful (omega arith) refl refl found_session refl refl

abbrev pub builder :
    GraphBuilder (Node Value String) (EdgePredicate Value) (Unit {0}) (ReducerRegistry Value)
builder = record {
  nodes = app.nodes;
  edges = line;
  conditional_edges = [];
  runtime_config = tt;
  reducer_registry = default_registry;
}

pub builds : compile (λ ns. ns) builder ≡ ok app
unfolding compile validate check_edges check_targets check_source check_known check_cycle
    check_duplicate check_reachability has_start_edge missed push_reversed reverse_into
    first_duplicate detect_unreachable_nodes detect_no_path_to_end detect_duplicate_edge
    detect_cycle color paint add_white add_whites add_targets initial_colors explore enter leave dfs
    search_from offer scan bfs start_at sort insert from_parts push_edge targets get put
    contains_key
builds = refl

nothing_stored : load_checkpoint outside "two" runner.checkpointer ≡ ok none
unfolding load_checkpoint load_latest get
nothing_stored = refl

nothing_unsound :
    (c : Checkpoint Value)
    → load_checkpoint outside "two" runner.checkpointer ≡ ok (some c)
    → IsSoundFrontier app c.frontier
nothing_unsound c h = absurd (none_is_none (sym nothing_stored ∙ h))
  where
    none_is_none : ¬ (
        ◌≡◌ {A = Result (RunnerError String String) (Option (Checkpoint Value))}
          (ok none)
          (ok (some c)))
    none_is_none e = cc

create_session-IsSound_example : IsSound (create_session outside "two" one_user_message runner).0
create_session-IsSound_example =
    create_session-IsSound outside "two" one_user_message runner (λ ns. ns) builder
      (λ ns n. (λ i. i, λ i. i)) line-IsMap builds runner-IsSound nothing_unsound
