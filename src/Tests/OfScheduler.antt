-- ===== src/Tests/OfScheduler.antt =====
-- The scheduler theorems on nodes that succeed and fail.
use weavegraph.Base.{◌≡◌, ◌↔◌, refl, String, List, [], ◌∷◌, In, some, none, map, true}
use weavegraph.Base.Map.{Map, get, contains_key}
use weavegraph.Base.Result.{Result, ok, err}
use weavegraph.Kind.{NodeKind, start}
use weavegraph.State.{StateSnapshot, NodePartial, empty_partial, snapshot}
use weavegraph.Scheduler.{
  Node, SchedulerState, SchedulerError, node_run, StepRunResult, default_state, channel_versions,
  record_all, should_run, record_seen, superstep, partition, tasks, run_node, collect, find_missing,
  should_run_with,
}
use weavegraph.Scheduler.Gate.{should_run-record_seen}
use weavegraph.Scheduler.Superstep.{Returns}
use weavegraph.Scheduler.Outcome.{
  wanted, unwanted, AllSucceed, Blames, superstep-succeeds, superstep-ok, superstep-fails,
}
use weavegraph.Scheduler.Again.{superstep-again}
use weavegraph.Tests.Values.{
  node_a, node_b, Value, said, one_user_message, show, talker, faulty, in_order, in_order-Delivers,
}

abbrev seen : StateSnapshot Value
unfolding snapshot
seen = snapshot one_user_message

abbrev talkers : Map NodeKind (Node Value String)
talkers = (node_a, talker) ∷ (node_b, talker) ∷ []

abbrev one_faulty : Map NodeKind (Node Value String)
one_faulty = (node_a, talker) ∷ (node_b, faulty) ∷ []

abbrev frontier : List NodeKind
frontier = start ∷ node_b ∷ node_a ∷ []

abbrev run :
    Map NodeKind (Node Value String)
    → SchedulerState × Result (SchedulerError String) (StepRunResult Value)
run nodes =
    superstep show in_order (record { concurrency_limit = 2 }) default_state nodes frontier seen 5
      none

should_run-record_seen_example :
    should_run (record_seen default_state "a" seen) "a" (record seen { messages_version = 2 })
    ≡ true
unfolding seen
should_run-record_seen_example =
    should_run-record_seen default_state "a" "a" seen (record seen { messages_version = 2 })

superstep-succeeds_example :
    ((r : StepRunResult Value) × ((run talkers).1 ≡ ok r))
    ↔ AllSucceed show in_order
        (record { concurrency_limit = 2 })
        default_state
        talkers
        frontier
        seen
        5
        none
superstep-succeeds_example =
    superstep-succeeds show in_order (record { concurrency_limit = 2 }) default_state talkers
      frontier seen 5 none in_order-Delivers

abbrev said_by : String → NodePartial Value
said_by name = record empty_partial { messages = some (said name ∷ []) }

abbrev good_run : StepRunResult Value
good_run = record {
  ran_nodes = node_b ∷ node_a ∷ [];
  skipped_nodes = start ∷ [];
  outputs = (node_b, said_by "b") ∷ (node_a, said_by "a") ∷ [];
}

run-talkers : (run talkers).1 ≡ ok good_run
unfolding superstep partition should_run_with channel_versions tasks run_node collect find_missing
    get snapshot contains_key
run-talkers = refl

superstep-ok_example :
    (good_run.ran_nodes
      ≡ wanted show in_order
          (record { concurrency_limit = 2 })
          default_state
          talkers
          frontier
          seen
          5
          none)
    × (good_run.skipped_nodes
        ≡ unwanted show in_order
            (record { concurrency_limit = 2 })
            default_state
            talkers
            frontier
            seen
            5
            none)
    × ((run talkers).0
        ≡ record_all
            (map show (
              wanted show in_order
                (record { concurrency_limit = 2 })
                default_state
                talkers
                frontier
                seen
                5
                none))
            (channel_versions seen)
            default_state)
    × (In (node_a, said_by "a") good_run.outputs ↔ (
        In node_a (
          wanted show in_order
            (record { concurrency_limit = 2 })
            default_state
            talkers
            frontier
            seen
            5
            none)
        × Returns show talkers seen 5 none node_a (ok (said_by "a"))))
superstep-ok_example =
    superstep-ok show in_order (record { concurrency_limit = 2 }) default_state talkers frontier
      seen 5 none good_run node_a (said_by "a") in_order-Delivers run-talkers

run-faulty : (run one_faulty).1 ≡ err (node_run node_b 5 "broken")
unfolding superstep partition should_run_with channel_versions tasks run_node collect find_missing
    get snapshot contains_key
run-faulty = refl

superstep-fails_example :
    ((run one_faulty).0 ≡ default_state)
    × Blames show in_order
        (record { concurrency_limit = 2 })
        default_state
        one_faulty
        frontier
        seen
        5
        none
        (node_run node_b 5 "broken")
superstep-fails_example =
    superstep-fails show in_order (record { concurrency_limit = 2 }) default_state one_faulty
      frontier seen 5 none (node_run node_b 5 "broken") in_order-Delivers run-faulty

superstep-again_example :
    superstep show in_order
      (record { concurrency_limit = 2 })
      (run talkers).0
      talkers
      frontier
      seen
      6
      none
    ≡ ((run talkers).0, ok (record { ran_nodes = []; skipped_nodes = frontier; outputs = [] }))
superstep-again_example =
    superstep-again show in_order (record { concurrency_limit = 2 }) default_state talkers frontier
      seen none 5 6 good_run in_order-Delivers run-talkers
