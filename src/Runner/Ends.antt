-- ===== src/Runner/Ends.antt =====
-- What a completed step says of the frontier that it leaves, in src/runtimes/runner.rs.
use weavegraph.Base.{
  ℕ, String, String-key, ◌≡◌, refl, sym, ap, subst, ◌∙◌, inl, inr, Bool, true, false, Option, none,
  some, Option-cases, if◌then◌else◌, contains, find,
}
use weavegraph.Base.Map.{get, remove, get-put_self}
use weavegraph.Base.Result.{Result, ok, err, ok-injective}
use weavegraph.Kind.{NodeKind, NodeKind-key}
use weavegraph.State.{Json}
use weavegraph.Barrier.{BarrierOutcome}
use weavegraph.Session.{
  PausedReport, SessionState, StepReport, StepOptions, StepResult, SchedulerOutcome,
}
use weavegraph.Runner.{
  RunnerError, session_not_found, Outside, AppOf, AppRunner, is_terminal, conclude_step, merge_step,
  run_one_superstep, maybe_checkpoint,
}
use weavegraph.Runner.Step.{
  idle_report, begin_run, finish_run, fail_step, conclude_run, persist, run_session, run_step,
}
use weavegraph.Runner.Sound.{run_step_found, run_step_missing}

module _ {V : Type 0} ⦃json : Json V⦄ {E C X : Type 0} (app : AppOf V E C) (step : ℕ)
    (report : StepReport V) where
  -- A report of a step says whether the frontier that the step leaves is terminal.
  abbrev Reports : SessionState V × Result (RunnerError E X) (StepReport V) → Type 0
  Reports stepped = stepped.1 ≡ ok report → report.completed ≡ is_terminal stepped.0.frontier

  conclude_step-Reports :
      (scheduled : SchedulerOutcome V)
      (merged : SessionState V × Result (RunnerError E X) (BarrierOutcome V))
      → Reports (conclude_step app step scheduled merged)
  unfolding conclude_step
  conclude_step-Reports scheduled (t, err e) h = absurd cc
  conclude_step-Reports scheduled (t, ok outcome) h =
      sym (ap (λ (r : StepReport V). r.completed) (ok-injective (RunnerError E X) h))

  merge_step-Reports :
      (scheduled : SessionState V × Result (RunnerError E X) (SchedulerOutcome V))
      → Reports (merge_step app step scheduled)
  unfolding merge_step
  merge_step-Reports (t, err e) h = absurd cc
  merge_step-Reports (t, ok scheduled) h = conclude_step-Reports scheduled _ h

-- Where a step neither paused at a node nor after it, the report is the one that was made.
completed_report :
    {V : Type 0} (interrupted : Option NodeKind) (each : Bool) (at : NodeKind → PausedReport V)
    (after : PausedReport V) (made report : StepReport V)
    → ◌≡◌ {A = StepResult V}
        (elim interrupted [
          | some n ↦ StepResult.paused (at n)
          | none ↦ if each then StepResult.paused after else StepResult.completed made
        ])
        (StepResult.completed report)
    → made ≡ report
completed_report (some n) each at after made report h = absurd cc
completed_report none true at after made report h = absurd cc
completed_report none false at after made report h = cc

module _ {V : Type 0} ⦃json : Json V⦄ {E C S X : Type 0} (outside : Outside V E S X)
    (session_id : String) where
  -- The session is in the map, and the report says whether its frontier is terminal.
  abbrev pub Ends : StepReport V → AppRunner V E C S → Type 0
  Ends report after =
      (t : SessionState V) × (get session_id after.sessions ≡ some t)
      × (report.completed ≡ is_terminal t.frontier)

  module _ (options : StepOptions) (report : StepReport V) where
    finish_run-Ends :
        (taken : AppRunner V E C S)
        (stepped : SessionState V × Result (RunnerError E X) (StepReport V))
        → ((r : StepReport V) → stepped.1 ≡ ok r → r.completed ≡ is_terminal stepped.0.frontier)
        → (finish_run outside session_id options taken stepped).1 ≡ ok (StepResult.completed report)
        → Ends report (finish_run outside session_id options taken stepped).0
    unfolding finish_run fail_step conclude_run persist maybe_checkpoint
    finish_run-Ends taken (t, err e) reports h = absurd cc
    finish_run-Ends taken (t, ok made) reports h =
        let same =
          completed_report (find (contains options.interrupt_after) made.ran_nodes)
            options.interrupt_each_step _ _ made report (ok-injective (RunnerError E X) h) in
        (
          t,
          get-put_self session_id t taken.sessions,
          sym (ap (λ (r : StepReport V). r.completed) same) ∙ reports made refl,
        )

    begin_run-Ends :
        (runner : AppRunner V E C S) (s : SessionState V) (terminal : Bool)
        (interrupt : Option NodeKind)
        → get session_id runner.sessions ≡ some s
        → terminal ≡ is_terminal s.frontier
        → (begin_run outside session_id options runner s terminal interrupt).1
          ≡ ok (StepResult.completed report)
        → Ends report (begin_run outside session_id options runner s terminal interrupt).0
    unfolding begin_run idle_report run_one_superstep
    begin_run-Ends runner s true interrupt found e h =
        (s, found, sym (ap done (ok-injective (RunnerError E X) h)) ∙ e)
      where
        done : StepResult V → Bool
        done (StepResult.completed r) = r.completed
        done (StepResult.paused r) = true
    begin_run-Ends runner s false (some n) found e h = absurd cc
    begin_run-Ends runner s false none found e h =
        finish_run-Ends (record runner { sessions = remove session_id runner.sessions }) _
          (λ r. merge_step-Reports runner.app _ r _) h

    -- A completed step of a session leaves the session in the map, and its report says whether the
    -- frontier that it leaves is terminal.
    pub run_step-Ends :
        (runner : AppRunner V E C S)
        → (run_step outside session_id options runner).1 ≡ ok (StepResult.completed report)
        → Ends report (run_step outside session_id options runner).0
    unfolding run_session
    run_step-Ends runner h = elim (Option-cases (get session_id runner.sessions)) [
      | inl absent ↦ absurd (
          no_session
            (sym (ap (λ o. o.1) (run_step_missing outside session_id options runner absent)) ∙ h))
      | inr (s, found) ↦
          let same = run_step_found outside session_id options runner s found in
          subst
            (λ (o : AppRunner V E C S × Result (RunnerError E X) (StepResult V)). Ends report o.0)
            (sym same) (begin_run-Ends runner s _ _ found refl (sym (ap (λ o. o.1) same) ∙ h))
    ]
      where
        no_session : ¬ (
            ◌≡◌ {A = Result (RunnerError E X) (StepResult V)}
              (err (session_not_found session_id))
              (ok (StepResult.completed report)))
        no_session e = cc
