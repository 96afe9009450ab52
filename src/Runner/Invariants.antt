-- ===== src/Runner/Invariants.antt =====
-- What holds of all sessions of a runner, whatever steps it runs.
use weavegraph.Base.{
  String, String-key, ◌≡◌, ◌⊎◌, sym, ap, subst, ◌∙◌, inl, inr, some, Option-cases,
}
use weavegraph.Base.Map.{
  get, put, remove, get-put_other, get-put_cases, get-remove_other, get-remove-some,
}
use weavegraph.Kind.{NodeKind-key}
use weavegraph.State.{Json}
use weavegraph.Session.{SessionState, StepOptions}
use weavegraph.Runner.{Outside, AppOf, AppRunner}
use weavegraph.Runner.Step.{run_step}
use weavegraph.Runner.Sound.{
  IsSoundFrontier, Follows, PutsBack, run_step-PutsBack, run_step_missing,
}

-- Each session of the runner has a sound frontier.
abbrev pub IsSound : {V E C S : Type 0} → AppRunner V E C S → Type 0
IsSound {V} runner =
    (id : String) (s : SessionState V)
    → get id runner.sessions ≡ some s
    → IsSoundFrontier runner.app s.frontier

module _ {V : Type 0} ⦃json : Json V⦄ {E C S X : Type 0} (outside : Outside V E S X)
    (session_id : String) (options : StepOptions) (runner : AppRunner V E C S) where
  abbrev after : AppRunner V E C S
  after = (run_step outside session_id options runner).0

  -- The runner stays, or the session alone is replaced by one that follows it.
  after_cases :
      (after ≡ runner)
      ⊎ ((s : SessionState V) × (get session_id runner.sessions ≡ some s)
          × PutsBack session_id runner s after)
  after_cases = elim (Option-cases (get session_id runner.sessions)) [
    | inl absent ↦ inl (ap (λ o. o.0) (run_step_missing outside session_id options runner absent))
    | inr (s, found) ↦ elim (run_step-PutsBack outside session_id options runner s found) [
      | inl same ↦ inl same
      | inr back ↦ inr (s, found, back)
    ]
  ]

  put_back_other :
      (other : String) (t : SessionState V)
      → ¬ (session_id ≡ other)
      → get other (put session_id t (remove session_id runner.sessions)) ≡ get other runner.sessions
  put_back_other other t apart =
      get-put_other session_id other t (remove session_id runner.sessions) apart
      ∙ get-remove_other session_id other runner.sessions apart

  -- A step of one session leaves every other session as it is.
  pub run_step_other :
      (other : String)
      → ¬ (session_id ≡ other)
      → get other after.sessions ≡ get other runner.sessions
  run_step_other other apart = elim after_cases [
    | inl same ↦ ap (λ (r : AppRunner V E C S). get other r.sessions) same
    | inr (s, found, (t, app_same, sessions_same, follows)) ↦
        ap (get other) sessions_same ∙ put_back_other other t apart
  ]

  Sound-kept :
      IsSound runner
      → (s t : SessionState V) → get session_id runner.sessions ≡ some s
      → Follows runner.app s t
      → IsSoundFrontier runner.app t.frontier
  Sound-kept sound s t found (stepped, inl same) =
      subst (IsSoundFrontier runner.app) (sym same) (sound session_id s found)
  Sound-kept sound s t found (stepped, inr next) = next

  -- In a runner in which no frontier holds a kind twice or one that is neither virtual nor
  -- registered, this is so after any step too, whether it succeeds, pauses or fails.
  pub run_step-IsSound : IsSound runner → IsSound after
  run_step-IsSound sound = elim after_cases [
    | inl same ↦ subst IsSound (sym same) sound
    | inr (s, found, (t, app_same, sessions_same, follows)) ↦ λ id u at.
        subst (λ (a : AppOf V E C). IsSoundFrontier a u.frontier) (sym app_same)
          (elim (get-put_cases session_id id t u (remove session_id runner.sessions)
            (sym (ap (get id) sessions_same) ∙ at)) [
              | inl same ↦
                  subst (λ (v : SessionState V). IsSoundFrontier runner.app v.frontier) same.1
                    (Sound-kept sound s t found follows)
              | inr before ↦ sound id u (get-remove-some session_id id u runner.sessions before)
            ])
  ]
