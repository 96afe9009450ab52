-- ===== src/Tests/OfRunner.antt =====
-- The theorems on sessions, checkpoints and steps, for an application of two nodes in a line.
use weavegraph.Base.{
  ◌≡◌, ◌⊎◌, refl, subst, inl, inr, str_apart, String, String-key, [], ◌∷◌, some, none, true, false,
}
use weavegraph.Base.Map.{Map, get, put, get-put_cases, contains_key}
use weavegraph.Base.Result.{ok, err}
use weavegraph.State.{empty_partial, snapshot}
use weavegraph.Reducers.{default_registry}
use weavegraph.Frontier.{is_valid_target}
use weavegraph.Scheduler.{
  default_state, node_run, superstep, partition, tasks, run_node, collect, find_missing,
  should_run_with, channel_versions,
}
use weavegraph.Session.{SessionState, StepOptions, SchedulerOutcome}
use weavegraph.Checkpoint.{Checkpoint, in_memory}
use weavegraph.Runner.{
  RunnerError, scheduler, session_not_found, Outside, AppOf, AppRunner, by_kind, take_partials,
  schedule_step, run_one_superstep, merge_step, is_terminal,
}
use weavegraph.Runner.Step.{run_step, run_session, begin_run, finish_run, fail_step}
use weavegraph.Runner.Partials.{Matched, Gives, to_run, schedule_step-Matched}
use weavegraph.Runner.Sound.{IsSoundFrontier}
use weavegraph.Runner.Invariants.{IsSound, run_step_other, run_step-IsSound}
use weavegraph.Runner.Errors.{IsNodeFailure, next_step, run_step-err}
use weavegraph.Runner.Recorded.{IsRecorded, run_step-IsRecorded}
use weavegraph.Tests.Values.{
  node_a, node_b, line, Value, Value-json, said, one_user_message, show, talker, faulty, in_order,
  in_order-Delivers,
}

abbrev pub outside : Outside Value String (Map String (Checkpoint Value)) String
outside = record {
  debug = show;
  unordered = in_order;
  available_parallelism = 4;
  now = 9;
  display_node_error = λ e. e;
  display_error = λ e. "error";
  store = in_memory;
}

abbrev pub app : AppOf Value String (Unit {0})
app = record {
  nodes = (node_a, talker) ∷ (node_b, faulty) ∷ [];
  edges = line;
  conditional_edges = [];
  reducer_registry = default_registry;
  runtime_config = tt;
}

abbrev pub session : SessionState Value
session = record {
  state = one_user_message;
  step = 0;
  frontier = node_a ∷ [];
  scheduler = record { concurrency_limit = 4 };
  scheduler_state = default_state;
}

abbrev pub runner : AppRunner Value String (Unit {0}) (Map String (Checkpoint Value))
runner = record {
  app = app;
  sessions = ("one", session) ∷ [];
  checkpointer = some [];
  autosave = true;
}

abbrev no_interrupts : StepOptions
no_interrupts = record { interrupt_before = []; interrupt_after = []; interrupt_each_step = false }

pub runner-IsSound : IsSound runner
unfolding put get is_valid_target contains_key
runner-IsSound id s h = elim (get-put_cases "one" id session s [] h) [
  | inl same ↦ subst (λ (t : SessionState Value). IsSoundFrontier app t.frontier) same.1 only_a
  | inr nothing ↦ absurd cc
]
  where
    only_a : IsSoundFrontier app (node_a ∷ [])
    only_a = (
      (λ i. i, tt),
      λ k i. elim i [
        | inl e ↦ subst (λ j. is_valid_target app.nodes j ≡ true) e refl
        | inr none_left ↦ absurd none_left
      ],
    )

abbrev outcome : SchedulerOutcome Value
outcome = record {
  ran_nodes = node_a ∷ [];
  skipped_nodes = [];
  partials = record empty_partial { messages = some (said "a" ∷ []) } ∷ [];
}

scheduled_outcome : (schedule_step outside app "one" session 1).1 ≡ ok outcome
unfolding schedule_step superstep partition should_run_with channel_versions tasks run_node collect
    find_missing get snapshot contains_key by_kind put take_partials
scheduled_outcome = refl

schedule_step-Matched_example :
    (outcome.ran_nodes ≡ to_run outside app "one" session 1)
    × Matched (Gives outside app "one" session 1) outcome.ran_nodes outcome.partials
schedule_step-Matched_example =
    schedule_step-Matched outside app "one" session 1 outcome in_order-Delivers (λ i. i, tt)
      scheduled_outcome

run_step_other_example : get "two" (run_step outside "one" no_interrupts runner).0.sessions ≡ none
unfolding get
run_step_other_example =
    run_step_other outside "one" no_interrupts runner "two" (str_apart "one" "two" refl)

run_step-IsSound_example : IsSound (run_step outside "one" no_interrupts runner).0
run_step-IsSound_example = run_step-IsSound outside "one" no_interrupts runner runner-IsSound

abbrev failing_session : SessionState Value
failing_session = record session { frontier = node_b ∷ [] }

-- The session is about to run the node that fails.
abbrev failing : AppRunner Value String (Unit {0}) (Map String (Checkpoint Value))
failing = record runner { sessions = ("one", failing_session) ∷ [] }

failing-IsSound : IsSound failing
unfolding put get is_valid_target contains_key
failing-IsSound id s h = elim (get-put_cases "one" id failing_session s [] h) [
  | inl same ↦ subst (λ (t : SessionState Value). IsSoundFrontier app t.frontier) same.1 only_b
  | inr nothing ↦ absurd cc
]
  where
    only_b : IsSoundFrontier app (node_b ∷ [])
    only_b = (
      (λ i. i, tt),
      λ k i. elim i [
        | inl e ↦ subst (λ j. is_valid_target app.nodes j ≡ true) e refl
        | inr none_left ↦ absurd none_left
      ],
    )

abbrev broken : RunnerError String String
broken = scheduler (node_run node_b 1 "broken")

failed_step : (run_step outside "one" no_interrupts failing).1 ≡ err broken
unfolding run_step run_session begin_run finish_run fail_step run_one_superstep merge_step
    schedule_step superstep partition should_run_with channel_versions tasks run_node collect
    find_missing get snapshot contains_key by_kind put take_partials is_terminal
failed_step = refl

run_step-err_example :
    ((get "one" failing.sessions ≡ none) × (broken ≡ session_not_found "one"))
    ⊎ ((s : SessionState Value) × (get "one" failing.sessions ≡ some s)
        × IsNodeFailure outside app "one" s
            (next_step outside "one" no_interrupts failing broken s)
            broken)
run_step-err_example =
    run_step-err outside "one" no_interrupts failing broken in_order-Delivers failing-IsSound
      failed_step

failing_found : get "one" failing.sessions ≡ some failing_session
unfolding get
failing_found = refl

run_step-IsRecorded_example :
    IsRecorded outside "one" no_interrupts failing failing_session broken
      (run_step outside "one" no_interrupts failing).0
run_step-IsRecorded_example =
    run_step-IsRecorded outside "one" no_interrupts failing failing_session broken refl
      failing_found failed_step
