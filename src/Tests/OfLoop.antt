-- ===== src/Tests/OfLoop.antt =====
-- The loop to completion, on an application of one node.
use weavegraph.Base.{◌≡◌, refl, String, String-key, [], ◌∷◌, some}
use weavegraph.Base.Map.{Map, get, put, remove, contains_key}
use weavegraph.Base.Result.{ok}
use weavegraph.Base.Sort.{sort, insert}
use weavegraph.Kind.{start, end}
use weavegraph.State.{empty_partial, VersionedState, snapshot}
use weavegraph.Graph.Edges.{targets}
use weavegraph.Reducers.{
  default_registry, add_messages, add_errors, channel_guard, register, apply_reducers, try_update,
  update_channels, apply_all, merge_into, map_merge,
}
use weavegraph.Barrier.{
  saturating_add, error_le, insert_all, gather_one, gather, merged_updates, same_map, bump_messages,
  bump_extra, updated_channels, apply_barrier,
}
use weavegraph.Frontier.{
  add_command, commands_by_node, apply_command, apply_commands, resolve_commands, named_target,
  conditional_targets, node_targets, is_valid_target, push_targets, route_all,
  compute_next_frontier,
}
use weavegraph.Scheduler.{
  superstep, partition, tasks, run_node, collect, find_missing, should_run_with, channel_versions,
  some_newer,
}
use weavegraph.Checkpoint.{Checkpoint}
use weavegraph.Runner.{
  AppOf, AppRunner, by_kind, take_partials, schedule_step, is_terminal, is_session_complete,
  apply_barrier_and_update, conclude_step, merge_step, run_one_superstep, maybe_checkpoint,
}
use weavegraph.Runner.Step.{run_step, run_session, begin_run, finish_run, conclude_run, persist}
use weavegraph.Runner.Life.{run_until_complete}
use weavegraph.Runner.Complete.{IsFinal, run_until_complete-IsFinal}
use weavegraph.Tests.Values.{node_a, Value, Value-json, said, one_user_message, talker}
use weavegraph.Tests.OfRunner.{outside, app, runner}

abbrev one_node : AppOf Value String (Unit {0})
one_node = record app {
  nodes = (node_a, talker) ∷ [];
  edges = (start, node_a ∷ []) ∷ (node_a, end ∷ []) ∷ [];
}

abbrev one_runner : AppRunner Value String (Unit {0}) (Map String (Checkpoint Value))
one_runner = record runner { app = one_node }

-- The barrier merges what the node says.
abbrev final_state : VersionedState Value
final_state =
    (apply_barrier default_registry one_user_message (node_a ∷ [])
      (record empty_partial { messages = some (said "a" ∷ []) } ∷ [])).0

one_loop : (run_until_complete outside 2 "one" one_runner).1 ≡ some (ok final_state)
unfolding run_until_complete run_step run_session begin_run finish_run conclude_run persist
    run_one_superstep merge_step conclude_step apply_barrier_and_update schedule_step superstep
    partition should_run_with channel_versions some_newer tasks run_node collect find_missing get
    put remove snapshot contains_key by_kind take_partials is_terminal is_session_complete
    maybe_checkpoint apply_barrier updated_channels bump_extra bump_messages same_map merged_updates
    gather gather_one insert_all error_le saturating_add default_registry add_messages add_errors
    channel_guard register apply_reducers try_update update_channels apply_all merge_into map_merge
    add_command commands_by_node apply_command apply_commands resolve_commands named_target
    conditional_targets node_targets is_valid_target push_targets route_all compute_next_frontier
    targets sort insert
one_loop = refl

run_until_complete-IsFinal_example :
    IsFinal outside "one" final_state (run_until_complete outside 2 "one" one_runner).0
run_until_complete-IsFinal_example =
    run_until_complete-IsFinal outside "one" 2 one_runner final_state one_loop
