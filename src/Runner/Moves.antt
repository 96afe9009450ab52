-- ===== src/Runner/Moves.antt =====
-- A step of a session moves its frontier along the edges, where there are no conditional edges and
-- no commands.
use weavegraph.Base.{
  String, String-key, ◌≡◌, refl, sym, ap, subst, ◌∙◌, false, Option, none, some, [], In, contains,
  find,
}
use weavegraph.Base.Map.{get, remove, get-put_self}
use weavegraph.Base.Result.{Result, ok, err}
use weavegraph.Kind.{NodeKind, NodeKind-key}
use weavegraph.State.{Json}
use weavegraph.Graph.Edges.{Edge}
use weavegraph.Scheduler.Superstep.{Delivers}
use weavegraph.Session.{SessionState, StepReport, StepOptions, StepResult}
use weavegraph.Runner.{RunnerError, Outside, AppRunner, is_terminal, maybe_checkpoint}
use weavegraph.Runner.Step.{
  begin_run, finish_run, fail_step, conclude_run, persist, run_session, run_step,
}
use weavegraph.Runner.Sound.{IsSoundFrontier, run_step_found}
use weavegraph.Runner.Advance.{AreSilent, run_one_superstep-Advances}

module _ {V : Type 0} ⦃json : Json V⦄ {E C S X : Type 0} (outside : Outside V E S X)
    (session_id : String) where
  -- The session has moved on along edges of the application.
  abbrev pub MovesOn : AppRunner V E C S → SessionState V → AppRunner V E C S → Type 0
  MovesOn runner s after =
      (t : SessionState V) × (get session_id after.sessions ≡ some t)
      × ((k : NodeKind)
          → In k t.frontier
          → (id : NodeKind) × In id s.frontier × Edge runner.app.edges id k)
      × (after.app ≡ runner.app)

  module _ (options : StepOptions) (runner : AppRunner V E C S) (s : SessionState V)
      (report : StepReport V) where
    finish_run-MovesOn :
        (stepped : SessionState V × Result (RunnerError E X) (StepReport V))
        → ((r : StepReport V)
            → stepped.1 ≡ ok r
            → (k : NodeKind) → In k stepped.0.frontier
            → (id : NodeKind) × In id s.frontier × Edge runner.app.edges id k)
        → (finish_run outside session_id options
            (record runner { sessions = remove session_id runner.sessions })
            stepped).1
          ≡ ok (StepResult.completed report)
        → MovesOn runner s
            (finish_run outside session_id options
              (record runner { sessions = remove session_id runner.sessions })
              stepped).0
    unfolding finish_run fail_step conclude_run persist maybe_checkpoint
    finish_run-MovesOn (t, err e) moves h = absurd cc
    finish_run-MovesOn (t, ok made) moves h =
        (t, get-put_self session_id t (remove session_id runner.sessions), moves made refl, refl)

    begin_run-MovesOn :
        (interrupt : Option NodeKind)
        → Delivers outside.unordered
        → runner.app.conditional_edges ≡ []
        → AreSilent runner.app.nodes
        → IsSoundFrontier runner.app s.frontier
        → (begin_run outside session_id options runner s false interrupt).1
          ≡ ok (StepResult.completed report)
        → MovesOn runner s (begin_run outside session_id options runner s false interrupt).0
    unfolding begin_run
    begin_run-MovesOn (some n) delivers none_conditional silent sound h = absurd cc
    begin_run-MovesOn none delivers none_conditional silent sound h =
        finish_run-MovesOn _
          (λ r.
            run_one_superstep-Advances outside runner.app session_id s delivers none_conditional
              silent sound.0 r)
          h

    -- After a completed step of a session that is not terminal there is an edge from the frontier
    -- before to each kind of the frontier.
    pub run_step-MovesOn :
        Delivers outside.unordered
        → runner.app.conditional_edges ≡ []
        → AreSilent runner.app.nodes
        → IsSoundFrontier runner.app s.frontier
        → get session_id runner.sessions ≡ some s
        → is_terminal s.frontier ≡ false
        → (run_step outside session_id options runner).1 ≡ ok (StepResult.completed report)
        → MovesOn runner s (run_step outside session_id options runner).0
    unfolding run_session
    run_step-MovesOn delivers none_conditional silent sound found going h =
        let same =
          run_step_found outside session_id options runner s found
          ∙ ap
              (λ b.
                begin_run outside session_id options runner s b
                  (find (contains options.interrupt_before) s.frontier))
              going in
        subst
          (λ (o : AppRunner V E C S × Result (RunnerError E X) (StepResult V)).
            MovesOn runner s o.0)
          (sym same)
          (begin_run-MovesOn _ delivers none_conditional silent sound
            (sym (ap (λ o. o.1) same) ∙ h))
