-- ===== src/Runner/Recorded.antt =====
-- What a failed step leaves in the session that it ran.
use weavegraph.Base.{
  ℕ, ◌+◌, ◌%◌, ◌^◌, String, String-key, ◌≡◌, refl, sym, ap, subst, ◌∙◌, Bool, true, false, Option,
  none, some, [], ◌∷◌, ◌++◌,
}
use weavegraph.Base.Map.{get, remove, get-put_self}
use weavegraph.Base.Result.{Result, ok, err, err-injective}
use weavegraph.Base.Sort.{sort}
use weavegraph.Kind.{NodeKind, NodeKind-key}
use weavegraph.State.{Json, ErrorEvent, VersionedState, empty_partial, with_errors}
use weavegraph.Reducers.{ReducerError, ReducerRegistry, default_registry}
use weavegraph.Barrier.{BarrierOutcome, apply_barrier}
use weavegraph.Barrier.Effect.{all_errors, errors_appended}
use weavegraph.Session.{SessionState, StepReport, StepOptions, StepResult, SchedulerOutcome}
use weavegraph.Runner.{
  RunnerError, Outside, AppOf, AppRunner, schedule_step, update_session, apply_barrier_and_update,
  conclude_step, merge_step, run_one_superstep, maybe_checkpoint, error_event,
}
use weavegraph.Runner.Step.{
  begin_run, finish_run, fail_step, conclude_run, persist, run_session, run_step,
}
use weavegraph.Runner.Sound.{run_step_found}

-- Only the counter of the step, and the scheduler's state, differ.
abbrev pub Halted : {V : Type 0} → SessionState V → SessionState V → Type 0
Halted s t = (t.step ≡ (s.step + 1) % 2 ^ 64) × (t.frontier ≡ s.frontier) × (t.state ≡ s.state)

module _ {V : Type 0} ⦃json : Json V⦄ {E C X : Type 0} (app : AppOf V E C) (step : ℕ)
    (s : SessionState V) (e : RunnerError E X) where
  conclude-Halted :
      (t : SessionState V) (scheduled : SchedulerOutcome V)
      (merged : VersionedState V × Result ReducerError (BarrierOutcome V))
      → Halted s t
      → (conclude_step app step scheduled (update_session t merged)).1 ≡ err e
      → Halted s (conclude_step {X = X} app step scheduled (update_session t merged)).0
  unfolding conclude_step
  conclude-Halted t scheduled (u, ok o) h failed = absurd cc
  conclude-Halted t scheduled (u, err x) h failed = h

  merge_step-Halted :
      (scheduled : SessionState V × Result (RunnerError E X) (SchedulerOutcome V))
      → Halted s scheduled.0
      → (merge_step app step scheduled).1 ≡ err e
      → Halted s (merge_step app step scheduled).0
  unfolding merge_step apply_barrier_and_update
  merge_step-Halted (t, err x) h failed = h
  merge_step-Halted (t, ok scheduled) h failed =
      conclude-Halted t scheduled
        (apply_barrier app.reducer_registry t.state scheduled.ran_nodes scheduled.partials) h failed

module _ {V : Type 0} ⦃json : Json V⦄ {E C S X : Type 0} (outside : Outside V E S X)
    (session_id : String) (options : StepOptions) (runner : AppRunner V E C S) (s : SessionState V)
    (e : RunnerError E X) where
  run_one-Halted :
      (run_one_superstep outside runner.app session_id s).1 ≡ err e
      → Halted s (run_one_superstep outside runner.app session_id s).0
  unfolding run_one_superstep schedule_step
  run_one-Halted failed = merge_step-Halted runner.app _ s e _ (refl, refl, refl) failed

  -- The session is in the map, with the event appended to its errors.
  abbrev pub IsRecorded : AppRunner V E C S → Type 0
  IsRecorded after =
      (t : SessionState V) × (get session_id after.sessions ≡ some t)
      × (t.step ≡ (s.step + 1) % 2 ^ 64)
      × (t.frontier ≡ s.frontier)
      × (t.state.errors.value ≡ s.state.errors.value ++ error_event outside session_id t e ∷ [])

  event_appended :
      (state : VersionedState V) (event : ErrorEvent V)
      → (apply_barrier default_registry state []
          (with_errors (event ∷ []) empty_partial ∷ [])).0.errors.value
        ≡ state.errors.value ++ event ∷ []
  unfolding with_errors all_errors sort
  event_appended state event =
      errors_appended state [] (with_errors (event ∷ []) empty_partial ∷ [])

  fail_step-IsRecorded :
      (taken : AppRunner V E C S) (t : SessionState V)
      → taken.app.reducer_registry ≡ default_registry
      → Halted s t
      → IsRecorded (fail_step outside session_id t taken e).0
  unfolding fail_step persist maybe_checkpoint error_event
  fail_step-IsRecorded taken t registry h = (
    _,
    get-put_self session_id _ taken.sessions,
    h.0,
    h.1,
    ap
          (λ (r : ReducerRegistry V).
            (apply_barrier r t.state [] (
              with_errors (error_event outside session_id t e ∷ []) empty_partial
              ∷ [])).0.errors.value)
          registry
        ∙ event_appended t.state (error_event outside session_id t e)
        ∙ ap (λ (u : VersionedState V). u.errors.value ++ error_event outside session_id t e ∷ [])
            h.2,
  )

  finish_run-IsRecorded :
      (taken : AppRunner V E C S)
      (stepped : SessionState V × Result (RunnerError E X) (StepReport V))
      → taken.app.reducer_registry ≡ default_registry
      → (stepped.1 ≡ err e → Halted s stepped.0)
      → (finish_run outside session_id options taken stepped).1 ≡ err e
      → IsRecorded (finish_run outside session_id options taken stepped).0
  unfolding finish_run fail_step conclude_run
  finish_run-IsRecorded taken (t, err x) registry halted failed =
      let same : x ≡ e = err-injective (StepResult V) (fail_error t x taken failed) in
      subst (λ y. IsRecorded (fail_step outside session_id t taken y).0) (sym same)
        (fail_step-IsRecorded taken t registry (halted (ap err same)))
    where
      fail_error :
          (t : SessionState V) (x : RunnerError E X) (taken : AppRunner V E C S)
          → (fail_step outside session_id t taken x).1 ≡ err e
          → ◌≡◌ {A = Result (RunnerError E X) (StepResult V)} (err x) (err e)
      fail_error t x taken h = h
  finish_run-IsRecorded taken (t, ok report) registry halted failed = absurd (no_error failed)
    where
      no_error : ¬ ((conclude_run outside session_id options t taken report).1 ≡ err e)
      no_error h = cc

  begin_run-IsRecorded :
      (terminal : Bool) (interrupt : Option NodeKind)
      → runner.app.reducer_registry ≡ default_registry
      → (begin_run outside session_id options runner s terminal interrupt).1 ≡ err e
      → IsRecorded (begin_run outside session_id options runner s terminal interrupt).0
  unfolding begin_run
  begin_run-IsRecorded true interrupt registry failed = absurd cc
  begin_run-IsRecorded false (some n) registry failed = absurd cc
  begin_run-IsRecorded false none registry failed =
      finish_run-IsRecorded (record runner { sessions = remove session_id runner.sessions })
        (run_one_superstep outside runner.app session_id s) registry run_one-Halted failed

  -- When a step of a session fails under the default registry, the session is still in the map:
  -- its step counter is raised, its frontier is the one before the step, and the event of the error
  -- is appended to its errors.
  pub run_step-IsRecorded :
      runner.app.reducer_registry ≡ default_registry
      → get session_id runner.sessions ≡ some s
      → (run_step outside session_id options runner).1 ≡ err e
      → IsRecorded (run_step outside session_id options runner).0
  unfolding run_session
  run_step-IsRecorded registry found failed =
      let same = run_step_found outside session_id options runner s found in
      subst (λ (o : AppRunner V E C S × Result (RunnerError E X) (StepResult V)). IsRecorded o.0)
        (sym same) (begin_run-IsRecorded _ _ registry (sym (ap (λ o. o.1) same) ∙ failed))
