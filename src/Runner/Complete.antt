-- ===== src/Runner/Complete.antt =====
-- The loop that runs a session to completion, in src/runtimes/runner.rs.
use weavegraph.Base.{
  ℕ, zero, suc, String, String-key, ◌≡◌, refl, sym, ap, subst, ◌∙◌, inl, inr, Bool, true, false,
  Option, none, some, Option-cases, if◌then◌else◌,
}
use weavegraph.Base.Map.{get}
use weavegraph.Base.Result.{Result, ok, err}
use weavegraph.Kind.{NodeKind-key}
use weavegraph.State.{Json, VersionedState}
use weavegraph.Session.{SessionState, StepReport, StepResult}
use weavegraph.Runner.{
  RunnerError, session_not_found, unexpected_pause, Outside, AppRunner, is_terminal,
  is_session_complete,
}
use weavegraph.Runner.Step.{run_step}
use weavegraph.Runner.Life.{default_options, run_until_complete}
use weavegraph.Runner.Ends.{Ends, run_step-Ends}

module _ {V : Type 0} ⦃json : Json V⦄ {E C S X : Type 0} (outside : Outside V E S X)
    (session_id : String) where
  -- The session is in the map with this state, and its frontier is terminal.
  abbrev pub IsFinal : VersionedState V → AppRunner V E C S → Type 0
  IsFinal state after =
      (t : SessionState V) × (get session_id after.sessions ≡ some t)
      × (t.state ≡ state)
      × (is_terminal t.frontier ≡ true)

  -- What the loop promises of a pair of a runner and a result.
  abbrev Promises :
      AppRunner V E C S × Option (Result (RunnerError E X) (VersionedState V)) → Type 0
  Promises out = (state : VersionedState V) → out.1 ≡ some (ok state) → IsFinal state out.0

  final_state :
      (after : AppRunner V E C S) (report : StepReport V)
      → Ends outside session_id report after
      → report.completed ≡ true
      → Promises (
        after,
        elim (get session_id after.sessions) [
          | none ↦ some (err (session_not_found session_id))
          | some final ↦ some (ok final.state)
        ],
      )
  final_state after report (t, found, terminal) completed state h = (
    t,
    found,
    given (
        sym (
          ap
            (λ (o : Option (SessionState V)).
              elim o as (λ _. Option (Result (RunnerError E X) (VersionedState V))) [
                | none ↦ some (err (session_not_found session_id))
                | some final ↦ some (ok final.state)
              ])
            found)
        ∙ h),
    sym terminal ∙ completed,
  )
    where
      given :
          ◌≡◌ {A = Option (Result (RunnerError E X) (VersionedState V))}
            (some (ok t.state))
            (some (ok state))
          → t.state ≡ state
      given e = cc

  -- One round of the loop, after the test of the session.
  abbrev pub round :
      AppRunner V E C S
      → Result (RunnerError E X) (StepResult V)
      → AppRunner V E C S × Option (Result (RunnerError E X) (VersionedState V))
      → AppRunner V E C S × Option (Result (RunnerError E X) (VersionedState V))
  round after result again = elim result [
    | err e ↦ (after, some (err e))
    | ok (StepResult.paused report) ↦ (after, some (err unexpected_pause))
    | ok (StepResult.completed report) ↦
        if report.completed
        then (
          after,
          elim (get session_id after.sessions) [
            | none ↦ some (err (session_not_found session_id))
            | some final ↦ some (ok final.state)
          ],
        )
        else again
  ]

  round-Promises :
      (stepped : AppRunner V E C S × Result (RunnerError E X) (StepResult V))
      (again : AppRunner V E C S × Option (Result (RunnerError E X) (VersionedState V)))
      → ((r : StepReport V)
          → stepped.1 ≡ ok (StepResult.completed r)
          → Ends outside session_id r stepped.0)
      → Promises again
      → Promises (round stepped.0 stepped.1 again)
  round-Promises (after, err e) again ends rest state h = absurd cc
  round-Promises (after, ok (StepResult.paused p)) again ends rest state h = absurd cc
  round-Promises (after, ok (StepResult.completed r)) again ends rest state h =
      split r.completed refl state h
    where
      split :
          (b : Bool)
          → r.completed ≡ b
          → Promises (
              if b
              then (
                after,
                elim (get session_id after.sessions) [
                  | none ↦ some (err (session_not_found session_id))
                  | some final ↦ some (ok final.state)
                ],
              )
              else again)
      split true e = final_state after r (ends r refl) e
      split false e = rest

  pub loop_found :
      (fuel : ℕ) (runner : AppRunner V E C S) (s : SessionState V)
      → get session_id runner.sessions ≡ some s
      → run_until_complete outside (suc fuel) session_id runner ≡ (
          if is_terminal s.frontier
          then (runner, some (ok s.state))
          else round
              (run_step outside session_id default_options runner).0
              (run_step outside session_id default_options runner).1
              (run_until_complete outside fuel session_id
                (run_step outside session_id default_options runner).0))
  unfolding run_until_complete is_session_complete
  loop_found fuel runner s found = rw (found, run_until_complete) refl

  pub loop_missing :
      (fuel : ℕ) (runner : AppRunner V E C S)
      → get session_id runner.sessions ≡ none
      → run_until_complete outside (suc fuel) session_id runner
        ≡ (runner, some (err (session_not_found session_id)))
  unfolding run_until_complete
  loop_missing fuel runner absent = rw (absent, run_until_complete)

  loop-Promises :
      (runner : AppRunner V E C S) (s : SessionState V) (b : Bool)
      (going : AppRunner V E C S × Option (Result (RunnerError E X) (VersionedState V)))
      → get session_id runner.sessions ≡ some s
      → is_terminal s.frontier ≡ b
      → Promises going
      → Promises (if b then (runner, some (ok s.state)) else going)
  loop-Promises runner s true going found e rest state h = (s, found, cc, e)
  loop-Promises runner s false going found e rest state h = rest state h

  -- When the loop returns a state, the session is in the map with this state, and its frontier is
  -- terminal: the loop returns no state of a session that has nodes left to run.
  pub run_until_complete-IsFinal :
      (fuel : ℕ) (runner : AppRunner V E C S) (state : VersionedState V)
      → (run_until_complete outside fuel session_id runner).1 ≡ some (ok state)
      → IsFinal state (run_until_complete outside fuel session_id runner).0
  unfolding run_until_complete
  run_until_complete-IsFinal zero runner state h = absurd cc
  run_until_complete-IsFinal (suc fuel) runner state h =
      elim (Option-cases (get session_id runner.sessions)) [
        | inl absent ↦ absurd (no_state (sym (ap (λ o. o.1) (loop_missing fuel runner absent)) ∙ h))
        | inr (s, found) ↦
            subst Promises (sym (loop_found fuel runner s found))
              (loop-Promises runner s (is_terminal s.frontier) _ found refl (
                round-Promises (run_step outside session_id default_options runner) _
                  (λ r. run_step-Ends outside session_id default_options r runner)
                  (run_until_complete-IsFinal fuel
                    (run_step outside session_id default_options runner).0)))
              state h
      ]
    where
      no_state : ¬ (
          ◌≡◌ {A = Option (Result (RunnerError E X) (VersionedState V))}
            (some (err (session_not_found session_id)))
            (some (ok state)))
      no_state e = cc
