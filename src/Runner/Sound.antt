-- ===== src/Runner/Sound.antt =====
-- What a step makes of the session that it runs.
use weavegraph.Base.{
  ℕ, ◌+◌, ◌%◌, ◌^◌, String, String-key, ◌≡◌, ◌⊎◌, refl, sym, subst, inl, inr, Bool, true, false,
  Option, none, some, List, In, IsDistinct,
}
use weavegraph.Base.Map.{get, put, remove}
use weavegraph.Base.Result.{Result, ok, err}
use weavegraph.Kind.{NodeKind, NodeKind-key}
use weavegraph.State.{Json, VersionedState, snapshot}
use weavegraph.Reducers.{ReducerError}
use weavegraph.Barrier.{BarrierOutcome}
use weavegraph.Frontier.{is_valid_target}
use weavegraph.Frontier.Next.{compute_next_frontier-IsDistinct, compute_next_frontier-exact}
use weavegraph.Session.{SessionState, StepReport, StepOptions, StepResult, SchedulerOutcome}
use weavegraph.Runner.{
  RunnerError, session_not_found, Outside, AppOf, AppRunner, schedule_step, update_session,
  apply_barrier_and_update, conclude_step, merge_step, run_one_superstep, maybe_checkpoint,
}
use weavegraph.Runner.Step.{
  persist, conclude_run, fail_step, finish_run, begin_run, run_session, run_step,
}

module _ {V E C : Type 0} where
  -- No kind stands twice in the frontier, and each is virtual or registered.
  abbrev pub IsSoundFrontier : AppOf V E C → List NodeKind → Type 0
  IsSoundFrontier app frontier =
      IsDistinct frontier × ((k : NodeKind) → In k frontier → is_valid_target app.nodes k ≡ true)

  -- The step counter goes up by one, and the frontier stays or is a sound one.
  abbrev pub Follows : AppOf V E C → SessionState V → SessionState V → Type 0
  Follows app s t =
      (t.step ≡ (s.step + 1) % 2 ^ 64)
      × ((t.frontier ≡ s.frontier) ⊎ IsSoundFrontier app t.frontier)

  -- The session that ran is put back after a step that follows the session before.
  abbrev pub PutsBack :
      {S : Type 0} → String → AppRunner V E C S → SessionState V → AppRunner V E C S → Type 0
  PutsBack session_id runner s after =
      (t : SessionState V) × (after.app ≡ runner.app)
      × (after.sessions ≡ put session_id t (remove session_id runner.sessions))
      × Follows runner.app s t

-- The session is still on its old frontier, with the counter raised.
abbrev pub Begun : {V : Type 0} → SessionState V → SessionState V → Type 0
Begun s t = (t.step ≡ (s.step + 1) % 2 ^ 64) × (t.frontier ≡ s.frontier)

module _ {V : Type 0} (E X : Type 0) (s : SessionState V) where
  update-Begun :
      (t : SessionState V) (merged : VersionedState V × Result ReducerError (BarrierOutcome V))
      → Begun s t
      → Begun s (update_session {E = E} {X = X} t merged).0
  update-Begun t (u, ok o) h = h
  update-Begun t (u, err e) h = h

module _ {V : Type 0} ⦃json : Json V⦄ {E C X : Type 0} (app : AppOf V E C)
    (s : SessionState V) where
  conclude_step-Follows :
      (step : ℕ) (scheduled : SchedulerOutcome V)
      (merged : SessionState V × Result (RunnerError E X) (BarrierOutcome V))
      → Begun s merged.0
      → Follows app s (conclude_step app step scheduled merged).0
  unfolding conclude_step
  conclude_step-Follows step scheduled (t, err e) h = (h.0, inl h.1)
  conclude_step-Follows step scheduled (t, ok outcome) h = (
    h.0,
    inr (
      compute_next_frontier-IsDistinct app.nodes app.edges app.conditional_edges (snapshot t.state)
          scheduled.ran_nodes outcome.frontier_commands,
      λ k i.
          ((compute_next_frontier-exact app.nodes app.edges app.conditional_edges (snapshot t.state)
              scheduled.ran_nodes outcome.frontier_commands k).0
            i).1,
    ),
  )

  merge_step-Follows :
      (step : ℕ) (scheduled : SessionState V × Result (RunnerError E X) (SchedulerOutcome V))
      → Begun s scheduled.0
      → Follows app s (merge_step app step scheduled).0
  unfolding merge_step apply_barrier_and_update
  merge_step-Follows step (t, err e) h = (h.0, inl h.1)
  merge_step-Follows step (t, ok scheduled) h =
      conclude_step-Follows step scheduled
        (apply_barrier_and_update app t scheduled.ran_nodes scheduled.partials)
        (update-Begun E X s t _ h)

module _ {V : Type 0} ⦃json : Json V⦄ {E C S X : Type 0} (outside : Outside V E S X) where
  pub run_one_superstep-Follows :
      (app : AppOf V E C) (session_id : String) (s : SessionState V)
      → Follows app s (run_one_superstep outside app session_id s).0
  unfolding run_one_superstep schedule_step
  run_one_superstep-Follows app session_id s = merge_step-Follows app s _ _ (refl, refl)

  maybe_checkpoint-sessions :
      (session_id : String) (r : AppRunner V E C S)
      → ((maybe_checkpoint outside session_id r).app ≡ r.app)
        × ((maybe_checkpoint outside session_id r).sessions ≡ r.sessions)
  unfolding maybe_checkpoint
  maybe_checkpoint-sessions session_id r = (refl, refl)

  finish_run-PutsBack :
      (session_id : String) (options : StepOptions) (runner : AppRunner V E C S)
      (s : SessionState V) (stepped : SessionState V × Result (RunnerError E X) (StepReport V))
      → Follows runner.app s stepped.0
      → PutsBack session_id runner s
          (finish_run outside session_id options
            (record runner { sessions = remove session_id runner.sessions })
            stepped).0
  unfolding finish_run fail_step conclude_run persist maybe_checkpoint
  finish_run-PutsBack session_id options runner s (t, err e) h = (_, refl, refl, h)
  finish_run-PutsBack session_id options runner s (t, ok report) h = (t, refl, refl, h)

  begin_run-PutsBack :
      (session_id : String) (options : StepOptions) (runner : AppRunner V E C S)
      (s : SessionState V) (terminal : Bool) (interrupt : Option NodeKind)
      → ((begin_run outside session_id options runner s terminal interrupt).0 ≡ runner)
        ⊎ PutsBack session_id runner s
            (begin_run outside session_id options runner s terminal interrupt).0
  unfolding begin_run
  begin_run-PutsBack session_id options runner s true interrupt = inl refl
  begin_run-PutsBack session_id options runner s false (some n) = inl refl
  begin_run-PutsBack session_id options runner s false none = inr (
      finish_run-PutsBack session_id options runner s _
        (run_one_superstep-Follows runner.app session_id s))

  pub run_step_found :
      (session_id : String) (options : StepOptions) (runner : AppRunner V E C S)
      (s : SessionState V)
      → get session_id runner.sessions ≡ some s
      → run_step outside session_id options runner ≡ run_session outside session_id options runner s
  unfolding run_step
  run_step_found session_id options runner s found = rw (found, run_step)

  pub run_step_missing :
      (session_id : String) (options : StepOptions) (runner : AppRunner V E C S)
      → get session_id runner.sessions ≡ none
      → run_step outside session_id options runner ≡ (runner, err (session_not_found session_id))
  unfolding run_step
  run_step_missing session_id options runner absent = rw (absent, run_step)

  pub run_step-PutsBack :
      (session_id : String) (options : StepOptions) (runner : AppRunner V E C S)
      (s : SessionState V)
      → get session_id runner.sessions ≡ some s
      → ((run_step outside session_id options runner).0 ≡ runner)
        ⊎ PutsBack session_id runner s (run_step outside session_id options runner).0
  unfolding run_session
  run_step-PutsBack session_id options runner s found =
      subst
        (λ (o : AppRunner V E C S × Result (RunnerError E X) (StepResult V)).
          (o.0 ≡ runner) ⊎ PutsBack session_id runner s o.0)
        (sym (run_step_found session_id options runner s found))
        (begin_run-PutsBack session_id options runner s _ _)
