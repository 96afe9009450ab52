-- ===== src/Runner/Life.antt =====
-- The life of a session in src/runtimes/runner.rs: creation or resumption, inputs of an iterative
-- session, and the loop that runs it to completion.
use weavegraph.Base.{
  ℕ, zero, suc, String, String-key, false, Option, none, some, List, [], ◌∷◌, is_empty,
  if◌then◌else◌,
}
use weavegraph.Base.Map.{get, put, contains_key}
use weavegraph.Base.Result.{Result, ok, err, map_err}
use weavegraph.Kind.{NodeKind, NodeKind-key, start, end, custom}
use weavegraph.State.{Json, VersionedState, NodePartial}
use weavegraph.Barrier.{apply_barrier}
use weavegraph.Graph.Edges.{targets}
use weavegraph.Scheduler.{new, default_state}
use weavegraph.Session.{SessionState, SessionInit, fresh, resumed, StepOptions, StepResult}
use weavegraph.Checkpoint.{Checkpoint, from_session, restore_session_state}
use weavegraph.Runner.{
  RunnerError, session_not_found, no_start_nodes, invalid_iterative_entry, unexpected_pause,
  checkpointer, app_barrier, Outside, AppRunner, is_session_complete,
}
use weavegraph.Runner.Step.{run_step}

abbrev pub default_options : StepOptions
default_options = record {
  interrupt_before = [];
  interrupt_after = [];
  interrupt_each_step = false;
}

module _ {V E S X : Type 0} (outside : Outside V E S X) where
  unfoldable pub load_checkpoint :
      String → Option S → Result (RunnerError E X) (Option (Checkpoint V))
  load_checkpoint session_id none = ok none
  load_checkpoint session_id (some cp) =
      map_err checkpointer (outside.store.load_latest session_id cp)

  -- A save that fails is ignored.
  unfoldable pub save_checkpoint : String → SessionState V → Option S → Option S
  save_checkpoint session_id session_state none = none
  save_checkpoint session_id session_state (some cp) =
      some (outside.store.save (from_session outside.now session_id session_state) cp).0

  abbrev pub fresh_session : VersionedState V → List NodeKind → SessionState V
  fresh_session initial_state frontier = record {
    state = initial_state;
    step = 0;
    frontier = frontier;
    scheduler = new outside.available_parallelism;
    scheduler_state = default_state;
  }

module _ {V E C S X : Type 0} (outside : Outside V E S X) where
  unfoldable pub init_session :
      String
      → VersionedState V
      → AppRunner V E C S
      → Result (RunnerError E X) (Option (Checkpoint V))
      → AppRunner V E C S × Result (RunnerError E X) SessionInit
  init_session session_id initial_state runner (err e) = (runner, err e)
  init_session session_id initial_state runner (ok (some stored)) = (
    record runner { sessions = put session_id (restore_session_state stored) runner.sessions },
    ok (resumed stored.step),
  )
  init_session session_id initial_state runner (ok none) =
      let frontier = targets runner.app.edges start in
      if is_empty frontier then (runner, err no_start_nodes) else (
        record runner {
          sessions = put session_id (fresh_session outside initial_state frontier) runner.sessions;
          checkpointer =
              save_checkpoint outside session_id (fresh_session outside initial_state frontier)
                runner.checkpointer;
        },
        ok fresh,
      )

  unfoldable pub create_session :
      String
      → VersionedState V
      → AppRunner V E C S
      → AppRunner V E C S × Result (RunnerError E X) SessionInit
  create_session session_id initial_state runner =
      init_session session_id initial_state runner
        (load_checkpoint outside session_id runner.checkpointer)

module _ {V E C S X : Type 0} where
  unfoldable pub set_iterative_frontier :
      String
      → List NodeKind
      → AppRunner V E C S
      → AppRunner V E C S × Result (RunnerError E X) (Unit {0})
  set_iterative_frontier session_id frontier runner = elim (get session_id runner.sessions) [
    | none ↦ (runner, err (session_not_found session_id))
    | some session_state ↦ (
      record runner {
        sessions =
            put session_id
              (record session_state { frontier = frontier; scheduler_state = default_state })
              runner.sessions;
      },
      ok tt,
    )
  ]

  unfoldable pub frontier_for_iterative_entry :
      AppRunner V E C S → NodeKind → Result (RunnerError E X) (List NodeKind)
  frontier_for_iterative_entry runner start =
      let frontier = targets runner.app.edges start in
      if is_empty frontier then err no_start_nodes else ok frontier
  frontier_for_iterative_entry runner end = err (invalid_iterative_entry end)
  frontier_for_iterative_entry runner (custom name) =
      if contains_key (custom name) runner.app.nodes
      then ok (custom name ∷ [])
      else err (invalid_iterative_entry (custom name))

  unfoldable pub apply_iterative_input :
      ⦃json : Json V⦄
      → String
      → NodePartial V
      → AppRunner V E C S
      → AppRunner V E C S × Result (RunnerError E X) (Unit {0})
  apply_iterative_input session_id input runner = elim (get session_id runner.sessions) [
    | none ↦ (runner, err (session_not_found session_id))
    | some session_state ↦
        let (updated_state, outcome) =
          apply_barrier runner.app.reducer_registry session_state.state [] (input ∷ []) in
        elim outcome [
          | err e ↦ (runner, err (app_barrier e))
          | ok _ ↦ (
            record runner {
              sessions =
                  put session_id (record session_state { state = updated_state }) runner.sessions;
            },
            ok tt,
          )
        ]
  ]

  -- One effect after another; an error ends the chain with the runner as it is then.
  infixl 5 ◌and_then◌
  abbrev pub ◌and_then◌ :
      {A B : Type 0}
      → AppRunner V E C S × Result (RunnerError E X) A
      → (A → AppRunner V E C S → AppRunner V E C S × Result (RunnerError E X) B)
      → AppRunner V E C S × Result (RunnerError E X) B
  (runner, ok a) and_then f = f a runner
  (runner, err e) and_then f = (runner, err e)

module _ {V E C S X : Type 0} (outside : Outside V E S X) where
  unfoldable pub create_iterative_session :
      String
      → VersionedState V
      → NodeKind
      → AppRunner V E C S
      → AppRunner V E C S × Result (RunnerError E X) SessionInit
  create_iterative_session session_id initial_state entry_node runner =
      (runner, frontier_for_iterative_entry runner entry_node) and_then λ frontier r.
      create_session outside session_id initial_state r and_then λ init r'.
      set_iterative_frontier session_id frontier r' and_then λ _ r''. (r'', ok init)

  module _ ⦃json : Json V⦄ where
    -- The final state, or the error that ended the loop; `none` where the fuel runs out.
    unfoldable pub run_until_complete :
        ℕ
        → String
        → AppRunner V E C S
        → AppRunner V E C S × Option (Result (RunnerError E X) (VersionedState V))
    run_until_complete zero session_id runner = (runner, none)
    run_until_complete (suc fuel) session_id runner = elim (get session_id runner.sessions) [
      | none ↦ (runner, some (err (session_not_found session_id)))
      | some session_state ↦
          let (runner', result) = run_step outside session_id default_options runner in
          let again = run_until_complete fuel session_id runner' in
          if is_session_complete session_state
          then (runner, some (ok session_state.state))
          else elim result [
            | err e ↦ (runner', some (err e))
            | ok (StepResult.paused report) ↦ (runner', some (err unexpected_pause))
            | ok (StepResult.completed report) ↦
                if report.completed
                then (
                  runner',
                  elim (get session_id runner'.sessions) [
                    | none ↦ some (err (session_not_found session_id))
                    | some final ↦ some (ok final.state)
                  ],
                )
                else again
          ]
    ]

    unfoldable pub invoke_next :
        ℕ
        → String
        → NodePartial V
        → NodeKind
        → AppRunner V E C S
        → AppRunner V E C S × Option (Result (RunnerError E X) (VersionedState V))
    invoke_next fuel session_id input entry_node runner =
        let (runner', prepared) =
          (runner, frontier_for_iterative_entry runner entry_node) and_then λ frontier r.
          apply_iterative_input session_id input r and_then λ _ r'.
          set_iterative_frontier session_id frontier r' in
        elim prepared [
          | err e ↦ (runner', some (err e))
          | ok _ ↦ run_until_complete fuel session_id runner'
        ]
