-- ===== src/Runner/Advance.antt =====
-- Steps of an application without conditional edges whose nodes emit no commands: the frontier
-- moves along the edges.
use mathlib.Core.List.{append-nil}
use weavegraph.Base.{
  ℕ, ◌+◌, ◌%◌, ◌^◌, String, String-key, ◌≡◌, refl, sym, ap, subst, ◌∙◌, Option, none, some, List,
  [], ◌∷◌, ◌++◌, In, All, IsDistinct, in-filter,
}
use weavegraph.Base.Map.{Map, get}
use weavegraph.Base.Result.{Result, ok, err, ok-injective}
use weavegraph.Kind.{NodeKind, NodeKind-key, custom, FrontierCommand}
use weavegraph.State.{Json, NodePartial, VersionedState, StateSnapshot, snapshot}
use weavegraph.Reducers.{ReducerRegistry, ReducerError}
use weavegraph.Barrier.{
  BarrierOutcome, Gathered, gather, gather_one, nothing_gathered, conclude, apply_barrier,
}
use weavegraph.Graph.Edges.{Edge, targets}
use weavegraph.Frontier.{conditional_targets}
use weavegraph.Frontier.Next.{leads, compute_next_frontier-exact}
use weavegraph.Scheduler.{Node, NodeContext}
use weavegraph.Scheduler.Superstep.{Delivers}
use weavegraph.Session.{SessionState, StepReport, SchedulerOutcome}
use weavegraph.Runner.{
  RunnerError, Outside, AppOf, schedule_step, update_session, apply_barrier_and_update,
  conclude_step, merge_step, run_one_superstep,
}
use weavegraph.Runner.Partials.{Matched, Gives, schedule_step-Matched}

-- No node emits a frontier command.
abbrev pub AreSilent : {V E : Type 0} → Map NodeKind (Node V E) → Type 0
AreSilent {V} {E} nodes =
    (k : NodeKind) (node : Node V E) (snap : StateSnapshot V) (ctx : NodeContext)
    (p : NodePartial V)
    → get k nodes ≡ some node
    → node snap ctx ≡ ok p
    → p.frontier ≡ none

abbrev IsQuiet : {V : Type 0} → NodePartial V → Type 0
IsQuiet p = p.frontier ≡ none

module _ {V : Type 0} where
  gather_one-IsQuiet :
      (id : NodeKind) (p : NodePartial V) (g : Gathered V)
      → IsQuiet p
      → (gather_one id p g).frontier_commands ≡ g.frontier_commands
  unfolding gather_one
  gather_one-IsQuiet id p g h =
      ap
        (λ (o : Option FrontierCommand). elim o as (λ _. List (NodeKind × FrontierCommand)) [
          | none ↦ g.frontier_commands
          | some command ↦ g.frontier_commands ++ (id, command) ∷ []
        ])
        h

  gather-IsQuiet :
      (ids : List NodeKind) (ps : List (NodePartial V)) (g : Gathered V)
      → All IsQuiet ps
      → (gather ids ps g).frontier_commands ≡ g.frontier_commands
  unfolding gather
  gather-IsQuiet ids [] g h = refl
  gather-IsQuiet [] (p ∷ ps) g h =
      gather-IsQuiet [] ps _ h.1 ∙ gather_one-IsQuiet (custom "?") p g h.0
  gather-IsQuiet (i ∷ ids) (p ∷ ps) g h = gather-IsQuiet ids ps _ h.1 ∙ gather_one-IsQuiet i p g h.0

  module _ ⦃json : Json V⦄ where
    conclude-IsQuiet :
        (s : VersionedState V) (g : Gathered V) (o : BarrierOutcome V)
        (after : VersionedState V × Result ReducerError (Unit {0}))
        → (conclude s g after).1 ≡ ok o
        → o.frontier_commands ≡ g.frontier_commands
    conclude-IsQuiet s g o (u, ok v) h =
        sym (ap (λ (q : BarrierOutcome V). q.frontier_commands) (ok-injective ReducerError h))
    conclude-IsQuiet s g o (u, err e) h = absurd cc

    apply_barrier-IsQuiet :
        (registry : ReducerRegistry V) (s : VersionedState V) (ids : List NodeKind)
        (ps : List (NodePartial V)) (o : BarrierOutcome V)
        → All IsQuiet ps
        → (apply_barrier registry s ids ps).1 ≡ ok o
        → o.frontier_commands ≡ []
    unfolding apply_barrier
    apply_barrier-IsQuiet registry s ids ps o quiet h =
        conclude-IsQuiet s (gather ids ps nothing_gathered) o _ h
        ∙ gather-IsQuiet ids ps nothing_gathered quiet

Matched-IsQuiet :
    {V : Type 0} (R : NodeKind → NodePartial V → Type 0)
    → ((k : NodeKind) (p : NodePartial V) → R k p → IsQuiet p)
    → (ks : List NodeKind) (ps : List (NodePartial V)) → Matched R ks ps
    → All IsQuiet ps
Matched-IsQuiet R quiet [] [] h = tt
Matched-IsQuiet R quiet (k ∷ ks) (p ∷ ps) h = (quiet k p h.0, Matched-IsQuiet R quiet ks ps h.1)
Matched-IsQuiet R quiet [] (p ∷ ps) h = absurd h
Matched-IsQuiet R quiet (k ∷ ks) [] h = absurd h

module _ {V E C : Type 0} (app : AppOf V E C) where
  -- Without commands and conditional edges a node leads to the targets of its edges.
  leads-targets :
      (snap : StateSnapshot V) (ran : List NodeKind) (commands : List (NodeKind × FrontierCommand))
      (id : NodeKind)
      → app.conditional_edges ≡ []
      → commands ≡ []
      → leads app.nodes app.edges app.conditional_edges snap ran commands id ≡ targets app.edges id
  unfolding conditional_targets
  leads-targets snap ran commands id none_conditional quiet =
      ap (λ ces. leads app.nodes app.edges ces snap ran commands id) none_conditional
      ∙ ap (λ cs. leads app.nodes app.edges [] snap ran cs id) quiet
      ∙ append-nil (targets app.edges id ++ [])
      ∙ append-nil (targets app.edges id)

module _ {V : Type 0} ⦃json : Json V⦄ {E C X : Type 0} (app : AppOf V E C) (s : SessionState V)
    (none_conditional : app.conditional_edges ≡ []) where
  -- After a step, an edge leads from the frontier before to each kind of the frontier.
  abbrev pub Advances : SessionState V × Result (RunnerError E X) (StepReport V) → Type 0
  Advances stepped =
      (report : StepReport V)
      → stepped.1 ≡ ok report
      → (t : NodeKind) → In t stepped.0.frontier
      → (id : NodeKind) × In id s.frontier × Edge app.edges id t

  conclude_step-Advances :
      (step : ℕ) (u : SessionState V) (scheduled : SchedulerOutcome V)
      (merged : VersionedState V × Result ReducerError (BarrierOutcome V))
      → ((id : NodeKind) → In id scheduled.ran_nodes → In id s.frontier)
      → ((o : BarrierOutcome V) → merged.1 ≡ ok o → o.frontier_commands ≡ [])
      → Advances (conclude_step app step scheduled (update_session u merged))
  unfolding conclude_step
  conclude_step-Advances step u scheduled (v, err e) ran quiet report h t i = absurd cc
  conclude_step-Advances step u scheduled (v, ok o) ran quiet report h t i =
      let (id, j, l) =
        ((compute_next_frontier-exact app.nodes app.edges app.conditional_edges (snapshot v)
            scheduled.ran_nodes o.frontier_commands t).0
          i).0 in
      (
        id,
        ran id j,
        subst (In t)
            (leads-targets app (snapshot v) scheduled.ran_nodes o.frontier_commands id
              none_conditional (quiet o refl))
            l,
      )

  merge_step-Advances :
      (step : ℕ) (scheduled : SessionState V × Result (RunnerError E X) (SchedulerOutcome V))
      → ((o : SchedulerOutcome V)
          → scheduled.1 ≡ ok o
          → ((id : NodeKind) → In id o.ran_nodes → In id s.frontier) × All IsQuiet o.partials)
      → Advances (merge_step app step scheduled)
  unfolding merge_step apply_barrier_and_update
  merge_step-Advances step (u, err e) good report h t i = absurd cc
  merge_step-Advances step (u, ok o) good report h t i =
      conclude_step-Advances step u o _ (good o refl).0
        (λ b e.
          apply_barrier-IsQuiet app.reducer_registry u.state o.ran_nodes o.partials b
            (good o refl).1 e)
        report h t i

module _ {V : Type 0} ⦃json : Json V⦄ {E C S X : Type 0} (outside : Outside V E S X)
    (app : AppOf V E C) (session_id : String) where
  scheduled_silence :
      (s : SessionState V) (step : ℕ) (o : SchedulerOutcome V)
      → Delivers outside.unordered
      → AreSilent app.nodes
      → IsDistinct s.frontier
      → (schedule_step outside app session_id s step).1 ≡ ok o
      → ((id : NodeKind) → In id o.ran_nodes → In id s.frontier) × All IsQuiet o.partials
  scheduled_silence s step o delivers silent distinct h =
      let (ran, matched) =
        schedule_step-Matched outside app session_id s step o delivers distinct h in
      (
        λ id i. (in-filter _ id s.frontier (subst (In id) ran i)).0,
        Matched-IsQuiet (Gives outside app session_id s step) (λ k p g. silent k g.0 _ _ p g.1 g.2)
            o.ran_nodes o.partials matched,
      )

  pub run_one_superstep-Advances :
      (s : SessionState V)
      → Delivers outside.unordered
      → app.conditional_edges ≡ []
      → AreSilent app.nodes
      → IsDistinct s.frontier
      → (report : StepReport V) → (run_one_superstep outside app session_id s).1 ≡ ok report
      → (t : NodeKind) → In t (run_one_superstep outside app session_id s).0.frontier
      → (id : NodeKind) × In id s.frontier × Edge app.edges id t
  unfolding run_one_superstep
  run_one_superstep-Advances s delivers none_conditional silent distinct =
      merge_step-Advances app s none_conditional _ _ (λ o.
        scheduled_silence (record s { step = (s.step + 1) % 2 ^ 64 }) _ o delivers silent distinct)
