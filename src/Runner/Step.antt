-- ===== src/Runner/Step.antt =====
-- `run_step` of src/runtimes/runner.rs.
use weavegraph.Base.{
  String, String-key, Bool, true, false, Option, none, some, [], ◌∷◌, find, contains, if◌then◌else◌,
}
use weavegraph.Base.Map.{get, put, remove}
use weavegraph.Base.Result.{Result, ok, err}
use weavegraph.Kind.{NodeKind, NodeKind-key}
use weavegraph.State.{Json, empty_partial, with_errors}
use weavegraph.Barrier.{apply_barrier}
use weavegraph.Session.{
  SessionState, StepReport, StepOptions, before_node, after_node, after_step, StepResult,
  versions_of,
}
use weavegraph.Runner.{
  RunnerError, session_not_found, Outside, AppRunner, is_terminal, run_one_superstep,
  maybe_checkpoint, error_event,
}

-- A session with nothing to do.
unfoldable pub idle_report : {V : Type 0} → SessionState V → StepReport V
idle_report session_state = record {
  step = session_state.step;
  ran_nodes = [];
  skipped_nodes = session_state.frontier;
  barrier_outcome = record { updated_channels = []; errors = []; frontier_commands = [] };
  next_frontier = [];
  state_versions = versions_of session_state.state;
  completed = true;
}

module _ {V E C S X : Type 0} (outside : Outside V E S X) where
  -- The session goes back into the map, and to the checkpointer.
  unfoldable pub persist : String → SessionState V → AppRunner V E C S → AppRunner V E C S
  persist session_id session_state runner =
      maybe_checkpoint outside session_id
        (record runner { sessions = put session_id session_state runner.sessions })

  unfoldable pub conclude_run :
      String
      → StepOptions
      → SessionState V
      → AppRunner V E C S
      → StepReport V
      → AppRunner V E C S × Result (RunnerError E X) (StepResult V)
  conclude_run session_id options session_state runner report = (
    persist session_id session_state runner,
    ok (elim (find (contains options.interrupt_after) report.ran_nodes) [
      | some n ↦ StepResult.paused (record { session_state = session_state; reason = after_node n })
      | none ↦
          if options.interrupt_each_step
          then StepResult.paused
              (record { session_state = session_state; reason = after_step report.step })
          else StepResult.completed report
    ]),
  )

  module _ ⦃json : Json V⦄ where
    -- The event goes through the barrier into the state, and the error is returned.
    unfoldable pub fail_step :
        String
        → SessionState V
        → AppRunner V E C S
        → RunnerError E X
        → AppRunner V E C S × Result (RunnerError E X) (StepResult V)
    fail_step session_id session_state runner e =
        let partial =
          with_errors (error_event outside session_id session_state e ∷ []) empty_partial in
        let update_state =
          (apply_barrier runner.app.reducer_registry session_state.state [] (partial ∷ [])).0 in
        (persist session_id (record session_state { state = update_state }) runner, err e)

    unfoldable pub finish_run :
        String
        → StepOptions
        → AppRunner V E C S
        → SessionState V × Result (RunnerError E X) (StepReport V)
        → AppRunner V E C S × Result (RunnerError E X) (StepResult V)
    finish_run session_id options runner (session_state, err e) =
        fail_step session_id session_state runner e
    finish_run session_id options runner (session_state, ok report) =
        conclude_run session_id options session_state runner report

    -- The tests before the run: a terminal frontier, and a node to interrupt before. The session
    -- leaves the map while it runs.
    unfoldable pub begin_run :
        String
        → StepOptions
        → AppRunner V E C S
        → SessionState V
        → Bool
        → Option NodeKind
        → AppRunner V E C S × Result (RunnerError E X) (StepResult V)
    begin_run session_id options runner session_state true interrupt =
        (runner, ok (StepResult.completed (idle_report session_state)))
    begin_run session_id options runner session_state false (some n) = (
      runner,
      ok (StepResult.paused (record { session_state = session_state; reason = before_node n })),
    )
    begin_run session_id options runner session_state false none =
        finish_run session_id options
          (record runner { sessions = remove session_id runner.sessions })
          (run_one_superstep outside runner.app session_id session_state)

    unfoldable pub run_session :
        String
        → StepOptions
        → AppRunner V E C S
        → SessionState V
        → AppRunner V E C S × Result (RunnerError E X) (StepResult V)
    run_session session_id options runner session_state =
        begin_run session_id options runner session_state (is_terminal session_state.frontier)
          (find (contains options.interrupt_before) session_state.frontier)

    unfoldable pub run_step :
        String
        → StepOptions
        → AppRunner V E C S
        → AppRunner V E C S × Result (RunnerError E X) (StepResult V)
    run_step session_id options runner = elim (get session_id runner.sessions) [
      | none ↦ (runner, err (session_not_found session_id))
      | some session_state ↦ run_session session_id options runner session_state
    ]
