-- ===== src/Runner/Errors.antt =====
-- The errors of a step, each traced back to the node that failed.
use weavegraph.Base.{
  ℕ, ◌+◌, ◌%◌, ◌^◌, String, String-key, ◌≡◌, ◌⊎◌, refl, sym, ap, subst, ◌∙◌, inl, inr, Bool, true,
  false, Option, none, some, Option-cases, In, in-filter, if◌then◌else◌,
}
use weavegraph.Base.Map.{Map, get, contains_key}
use weavegraph.Base.Result.{Result, ok, err, map_err, ◌>>=◌, err-injective}
use weavegraph.Kind.{NodeKind, NodeKind-key, start, end, custom}
use weavegraph.State.{Json, VersionedState, snapshot}
use weavegraph.Reducers.{ReducerError}
use weavegraph.Barrier.{BarrierOutcome}
use weavegraph.Barrier.Total.{apply_barrier-ok}
use weavegraph.Frontier.{is_valid_target}
use weavegraph.Scheduler.{
  is_virtual, SchedulerError, node_not_found, node_run, StepRunResult, superstep, channel_versions,
}
use weavegraph.Scheduler.Superstep.{wants, Delivers, Returns}
use weavegraph.Scheduler.Outcome.{Blames, superstep-fails}
use weavegraph.Session.{SessionState, StepReport, StepOptions, StepResult, SchedulerOutcome}
use weavegraph.Runner.{
  RunnerError, session_not_found, scheduler, Outside, AppOf, AppRunner, schedule_step,
  update_session, apply_barrier_and_update, conclude_step, normalize, merge_step, run_one_superstep,
}
use weavegraph.Runner.Step.{begin_run, finish_run, fail_step, conclude_run, run_session, run_step}
use weavegraph.Runner.Sound.{IsSoundFrontier, run_step_found, run_step_missing}
use weavegraph.Runner.Invariants.{IsSound}

module _ {V : Type 0} ⦃json : Json V⦄ {E C X : Type 0} (app : AppOf V E C) (step : ℕ)
    (e : RunnerError E X) where
  merged_no_error :
      (t : SessionState V) (scheduled : SchedulerOutcome V) (o : BarrierOutcome V)
      (merged : VersionedState V × Result ReducerError (BarrierOutcome V))
      → merged.1 ≡ ok o
      → ¬ ((conclude_step {X = X} app step scheduled (update_session t merged)).1 ≡ err e)
  unfolding conclude_step
  merged_no_error t scheduled o (u, ok p) good h = cc
  merged_no_error t scheduled o (u, err x) good h = cc

  -- An error of a step is one of the scheduler.
  merge_step-err :
      (scheduled : SessionState V × Result (RunnerError E X) (SchedulerOutcome V))
      → (merge_step app step scheduled).1 ≡ err e
      → scheduled.1 ≡ err e
  unfolding merge_step apply_barrier_and_update
  merge_step-err (t, err x) h = ap err (err-injective (StepReport V) h)
  merge_step-err (t, ok scheduled) h =
      let (o, good) =
        apply_barrier-ok app.reducer_registry t.state scheduled.ran_nodes scheduled.partials in
      absurd (merged_no_error t scheduled o _ good h)

is_registered :
    {N : Type 0} (nodes : Map NodeKind N) (k : NodeKind) (newer : Bool)
    → (if is_virtual k then false else newer) ≡ true
    → is_valid_target nodes k ≡ true
    → ¬ (get k nodes ≡ none)
unfolding is_valid_target contains_key
is_registered nodes start newer w valid absent = cc
is_registered nodes end newer w valid absent = cc
is_registered {N} nodes (custom name) newer w valid absent =
    let broken =
      sym valid ∙ ap (λ (o : Option N). elim o [ none ↦ false | some _ ↦ true ]) absent in
    cc

module _ {V E C S X : Type 0} (outside : Outside V E S X) (app : AppOf V E C) (session_id : String)
    (s : SessionState V) (step : ℕ) where
  -- A node of the frontier failed in this step, with this error.
  abbrev pub IsNodeFailure : RunnerError E X → Type 0
  IsNodeFailure e =
      (k : NodeKind) × (x : E) × (e ≡ scheduler (node_run k step x))
      × In k s.frontier
      × Returns outside.debug app.nodes (snapshot s.state) step (some session_id) k (err x)

  blamed :
      (x : SchedulerError E)
      → IsSoundFrontier app s.frontier
      → Blames outside.debug outside.unordered s.scheduler s.scheduler_state app.nodes s.frontier
          (snapshot s.state)
          step
          (some session_id)
          x
      → IsNodeFailure (scheduler x)
  blamed (node_not_found k n) sound (step_same, there, absent) =
      let i =
        in-filter (wants outside.debug s.scheduler_state (channel_versions (snapshot s.state))) k
          s.frontier there in
      absurd (is_registered app.nodes k _ i.1 (sound.1 k i.0) absent)
  blamed (node_run k n x) sound (step_same, there, returns) =
      let i =
        in-filter (wants outside.debug s.scheduler_state (channel_versions (snapshot s.state))) k
          s.frontier there in
      (k, x, ap (λ m. scheduler (node_run k m x)) step_same, i.0, returns)

  scheduled-err :
      (e : RunnerError E X)
      → (schedule_step outside app session_id s step).1 ≡ err e
      → (x : SchedulerError E) × ((superstep outside.debug outside.unordered s.scheduler
            s.scheduler_state app.nodes s.frontier
            (snapshot s.state)
            step
            (some session_id)).1
          ≡ err x)
        × (scheduler x ≡ e)
  unfolding schedule_step
  scheduled-err e h = lowered _ refl h
    where
      lowered :
          (r : Result (SchedulerError E) (StepRunResult V))
          → (superstep outside.debug outside.unordered s.scheduler s.scheduler_state app.nodes
              s.frontier
              (snapshot s.state)
              step
              (some session_id)).1
            ≡ r
          → ◌≡◌ {A = Result (RunnerError E X) (SchedulerOutcome V)}
              (map_err scheduler r >>= λ q. ok (normalize q))
              (err e)
          → (x : SchedulerError E) × ((superstep outside.debug outside.unordered s.scheduler
                s.scheduler_state app.nodes s.frontier
                (snapshot s.state)
                step
                (some session_id)).1
              ≡ err x)
            × (scheduler x ≡ e)
      lowered (ok q) is_r k = absurd cc
      lowered (err x) is_r k = (x, is_r, err-injective (SchedulerOutcome V) k)

  schedule_step-err :
      (e : RunnerError E X)
      → Delivers outside.unordered
      → IsSoundFrontier app s.frontier
      → (schedule_step outside app session_id s step).1 ≡ err e
      → IsNodeFailure e
  schedule_step-err e delivers sound h =
      let (x, failed, same) = scheduled-err e h in
      subst IsNodeFailure same (
        blamed x sound
          (superstep-fails outside.debug outside.unordered s.scheduler s.scheduler_state app.nodes
            s.frontier (snapshot s.state) step (some session_id) x delivers failed).1)

module _ {V : Type 0} ⦃json : Json V⦄ {E C S X : Type 0} (outside : Outside V E S X)
    (session_id : String) (options : StepOptions) (runner : AppRunner V E C S)
    (e : RunnerError E X) where
  -- The number of the next step of a session.
  abbrev pub next_step : SessionState V → ℕ
  next_step s = (s.step + 1) % 2 ^ 64

  run_one_superstep-err :
      (s : SessionState V)
      → Delivers outside.unordered
      → IsSoundFrontier runner.app s.frontier
      → (run_one_superstep outside runner.app session_id s).1 ≡ err e
      → IsNodeFailure outside runner.app session_id s (next_step s) e
  unfolding run_one_superstep
  run_one_superstep-err s delivers sound h =
      schedule_step-err outside runner.app session_id (record s { step = next_step s })
        (next_step s) e delivers sound (merge_step-err runner.app (next_step s) e _ h)

  finish_run-err :
      (taken : AppRunner V E C S)
      (stepped : SessionState V × Result (RunnerError E X) (StepReport V))
      → (finish_run outside session_id options taken stepped).1 ≡ err e
      → stepped.1 ≡ err e
  unfolding finish_run fail_step conclude_run
  finish_run-err taken (t, err x) h = ap err (err-injective (StepResult V) h)
  finish_run-err taken (t, ok report) h = absurd cc

  begin_run-err :
      (s : SessionState V) (terminal : Bool) (interrupt : Option NodeKind)
      → Delivers outside.unordered
      → IsSoundFrontier runner.app s.frontier
      → (begin_run outside session_id options runner s terminal interrupt).1 ≡ err e
      → IsNodeFailure outside runner.app session_id s (next_step s) e
  unfolding begin_run
  begin_run-err s true interrupt delivers sound h = absurd cc
  begin_run-err s false (some j) delivers sound h = absurd cc
  begin_run-err s false none delivers sound h =
      run_one_superstep-err s delivers sound (finish_run-err _ _ h)

  -- If the stream hands over each task's result and the frontiers of the runner's sessions hold no
  -- kind twice and only virtual and registered ones: when a step fails, there is no such session
  -- and the error says so, or a node of the session's frontier failed on the session's state and
  -- the error names it with its step and its own error. So a step reports neither a missing node
  -- nor a failure of the barrier.
  pub run_step-err :
      Delivers outside.unordered
      → IsSound runner
      → (run_step outside session_id options runner).1 ≡ err e
      → ((get session_id runner.sessions ≡ none) × (e ≡ session_not_found session_id))
        ⊎ ((s : SessionState V) × (get session_id runner.sessions ≡ some s)
            × IsNodeFailure outside runner.app session_id s (next_step s) e)
  unfolding run_session
  run_step-err delivers sound h = elim (Option-cases (get session_id runner.sessions)) [
    | inl absent ↦ inl (
      absent,
      err-injective (StepResult V)
          (sym h ∙ ap (λ o. o.1) (run_step_missing outside session_id options runner absent)),
    )
    | inr (s, found) ↦ inr (
      s,
      found,
      begin_run-err s _ _ delivers (sound session_id s found)
          (sym (ap (λ o. o.1) (run_step_found outside session_id options runner s found)) ∙ h),
    )
  ]
