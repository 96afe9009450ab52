-- ===== src/Runner/Liveness.antt =====
-- The loop to completion comes to an end where the graph has no cycle, no conditional edges and no
-- nodes that emit commands.
use weavegraph.Base.{
  ℕ, zero, suc, ◌+◌, ◌≤◌, ◌<◌, String, String-key, ◌≡◌, refl, sym, ap, subst, ◌∙◌, inl, inr, Bool,
  true, false, Option, none, some, Option-cases, List, List-cases, [], In, length, if◌then◌else◌,
  arith,
}
use weavegraph.Base.Map.{Map, get, IsMap}
use weavegraph.Base.Result.{Result, ok, err}
use weavegraph.Kind.{NodeKind, NodeKind-key}
use weavegraph.State.{Json, VersionedState}
use weavegraph.Graph.Edges.{Edges, Edge}
use weavegraph.Graph.Builder.{GraphBuilder}
use weavegraph.Graph.Cycle.Decides.{Covers}
use weavegraph.Graph.Compile.{compile}
use weavegraph.Graph.Compile.Valid.{validate-IsWellFormed}
use weavegraph.Graph.Topological.{topological_sort}
use weavegraph.Graph.Topological.Complete.{topological_sort-Sorted}
use weavegraph.Graph.Topological.Rank.{rank, rank-le-length, rank-lt}
use weavegraph.Frontier.{EdgePredicate}
use weavegraph.Reducers.{ReducerRegistry}
use weavegraph.Scheduler.{Node}
use weavegraph.Runner.Start.{compiled}
use weavegraph.Scheduler.Superstep.{Delivers}
use weavegraph.Session.{SessionState, StepReport, StepResult}
use weavegraph.Runner.{
  RunnerError, session_not_found, unexpected_pause, Outside, AppOf, AppRunner, is_terminal,
}
use weavegraph.Runner.Step.{run_step}
use weavegraph.Runner.Life.{default_options, run_until_complete}
use weavegraph.Runner.Invariants.{IsSound, run_step-IsSound}
use weavegraph.Runner.Complete.{round, loop_found, loop_missing}
use weavegraph.Runner.Advance.{AreSilent}
use weavegraph.Runner.Moves.{MovesOn, run_step-MovesOn}

true-ne-false : ¬ (true ≡ false)
true-ne-false e = cc

module _ (V E X : Type 0) (session_id : String) where
  looked_up :
      (o : Option (SessionState V))
      → (r : Result (RunnerError E X) (VersionedState V)) × (◌≡◌
          {A = Option (Result (RunnerError E X) (VersionedState V))}
          (elim o [
            | none ↦ some (err (session_not_found session_id))
            | some final ↦ some (ok final.state)
          ])
          (some r))
  looked_up none = (err (session_not_found session_id), refl)
  looked_up (some final) = (ok final.state, refl)

module _ {V : Type 0} ⦃json : Json V⦄ {E C S X : Type 0} (outside : Outside V E S X)
    (session_id : String) where
  -- The loop has come to an end.
  abbrev HasEnded :
      AppRunner V E C S × Option (Result (RunnerError E X) (VersionedState V)) → Type 0
  HasEnded out = (r : Result (RunnerError E X) (VersionedState V)) × (out.1 ≡ some r)

  round-HasEnded :
      (stepped : AppRunner V E C S × Result (RunnerError E X) (StepResult V))
      (again : AppRunner V E C S × Option (Result (RunnerError E X) (VersionedState V)))
      → ((r : StepReport V) → stepped.1 ≡ ok (StepResult.completed r) → HasEnded again)
      → HasEnded (round outside session_id stepped.0 stepped.1 again)
  round-HasEnded (after, err e) again rest = (err e, refl)
  round-HasEnded (after, ok (StepResult.paused p)) again rest = (err unexpected_pause, refl)
  round-HasEnded (after, ok (StepResult.completed r)) again rest = split r.completed
    where
      split :
          (b : Bool)
          → HasEnded (
              if b
              then (
                after,
                elim (get session_id after.sessions) [
                  | none ↦ some (err (session_not_found session_id))
                  | some final ↦ some (ok final.state)
                ],
              )
              else again)
      split true = looked_up V E X session_id (get session_id after.sessions)
      split false = rest r refl

  module _ (app : AppOf V E C) (place : NodeKind → ℕ) (bound : ℕ)
      (delivers : Delivers outside.unordered) (none_conditional : app.conditional_edges ≡ [])
      (silent : AreSilent app.nodes)
      (rises : (u v : NodeKind) → Edge app.edges u v → place u < place v)
      (bounded : (v : NodeKind) → place v ≤ bound) where
    -- Each kind of the frontier is so far along that the fuel suffices for the rest.
    abbrev IsAhead : ℕ → AppRunner V E C S → Type 0
    IsAhead fuel runner =
        (s : SessionState V)
        → get session_id runner.sessions ≡ some s
        → (k : NodeKind) → In k s.frontier
        → bound < place k + fuel

    MovesOn-IsAhead :
        (fuel : ℕ) (runner : AppRunner V E C S) (s : SessionState V) (after : AppRunner V E C S)
        → runner.app ≡ app
        → get session_id runner.sessions ≡ some s
        → IsAhead (suc fuel) runner
        → MovesOn outside session_id runner s after
        → IsAhead fuel after
    MovesOn-IsAhead fuel runner s after same found ahead (t, found', moves, kept) u is_u k i =
        let is_t : t ≡ u = cc (found', is_u) in
        let (id, j, e) = moves k (subst (λ (x : SessionState V). In k x.frontier) (sym is_t) i) in
        omega (
          arith,
          ahead s found id j,
          rises id k (subst (λ (a : AppOf V E C). Edge a.edges id k) same e),
        )

    not_stuck :
        (runner : AppRunner V E C S) (s : SessionState V)
        → get session_id runner.sessions ≡ some s
        → IsAhead zero runner
        → is_terminal s.frontier ≡ true
    unfolding is_terminal
    not_stuck runner s found ahead = elim (List-cases s.frontier) [
      | inl empty ↦ rw empty refl
      | inr (k, rest, front) ↦
          absurd (omega (arith, ahead s found k (subst (In k) (sym front) (inl refl)), bounded k))
    ]

    advanced :
        (fuel : ℕ) (runner : AppRunner V E C S) (s : SessionState V) (r : StepReport V)
        → runner.app ≡ app
        → IsSound runner
        → IsAhead (suc fuel) runner
        → get session_id runner.sessions ≡ some s
        → is_terminal s.frontier ≡ false
        → (run_step outside session_id default_options runner).1 ≡ ok (StepResult.completed r)
        → ((run_step outside session_id default_options runner).0.app ≡ app)
          × IsSound (run_step outside session_id default_options runner).0
          × IsAhead fuel (run_step outside session_id default_options runner).0
    advanced fuel runner s r same sound ahead found going h =
        let moved =
          run_step-MovesOn outside session_id default_options runner s r delivers
            (subst (λ (a : AppOf V E C). a.conditional_edges ≡ []) (sym same) none_conditional)
            (subst (λ (a : AppOf V E C). AreSilent a.nodes) (sym same) silent)
            (sound session_id s found) found going h in
        (
          moved.3 ∙ same,
          run_step-IsSound outside session_id default_options runner sound,
          MovesOn-IsAhead fuel runner s (run_step outside session_id default_options runner).0 same
              found ahead moved,
        )

    round_of :
        ℕ
        → AppRunner V E C S
        → AppRunner V E C S × Option (Result (RunnerError E X) (VersionedState V))
    round_of fuel runner =
        round outside session_id (run_step outside session_id default_options runner).0
          (run_step outside session_id default_options runner).1
          (run_until_complete outside fuel session_id
            (run_step outside session_id default_options runner).0)

    fork :
        (runner : AppRunner V E C S) (s : SessionState V)
        (going : AppRunner V E C S × Option (Result (RunnerError E X) (VersionedState V)))
        (b : Bool)
        → (b ≡ false → HasEnded going)
        → HasEnded (if b then (runner, some (ok s.state)) else going)
    fork runner s going true h = (ok s.state, refl)
    fork runner s going false h = h refl

    -- The loop ends where it has no session, where the session is terminal, and else where its
    -- round ends.
    loop_cases :
        (fuel : ℕ) (runner : AppRunner V E C S)
        → ((s : SessionState V)
            → get session_id runner.sessions ≡ some s
            → is_terminal s.frontier ≡ false
            → HasEnded (round_of fuel runner))
        → HasEnded (run_until_complete outside (suc fuel) session_id runner)
    unfolding round_of
    loop_cases fuel runner h = elim (Option-cases (get session_id runner.sessions)) [
      | inl absent ↦ (
        err (session_not_found session_id),
        ap (λ o. o.1) (loop_missing outside session_id fuel runner absent),
      )
      | inr (s, found) ↦
          subst HasEnded (sym (loop_found outside session_id fuel runner s found))
            (fork runner s (round_of fuel runner) (is_terminal s.frontier) (h s found))
    ]

    loop-HasEnded :
        (fuel : ℕ) (runner : AppRunner V E C S)
        → runner.app ≡ app
        → IsSound runner
        → IsAhead fuel runner
        → HasEnded (run_until_complete outside (suc fuel) session_id runner)
    unfolding round_of
    loop-HasEnded zero runner same sound ahead =
        loop_cases zero runner
          (λ s found going. absurd (true-ne-false (sym (not_stuck runner s found ahead) ∙ going)))
    loop-HasEnded (suc fuel) runner same sound ahead =
        loop_cases (suc fuel) runner (λ s found going.
          round-HasEnded (run_step outside session_id default_options runner) _ (λ r h.
            let (same', sound', ahead') = advanced fuel runner s r same sound ahead found going h in
            loop-HasEnded fuel (run_step outside session_id default_options runner).0 same' sound'
              ahead'))

  -- Let the stream hand over each task's result, `compile` make the runner's application, with an
  -- order that lists the keys it is given, of a builder whose edges are a map and which has no
  -- conditional edges, no node emit a frontier command, and no frontier of the runner's sessions
  -- hold a kind twice or one that is neither virtual nor registered. If the rounds of the loop are
  -- two more than the nodes in the topological order of the edges, the loop comes to an end.
  pub run_until_complete-HasEnded :
      (order : List NodeKind → List NodeKind)
      (b : GraphBuilder (Node V E) (EdgePredicate V) C (ReducerRegistry V))
      (runner : AppRunner V E C S) (sorted : List NodeKind) (fuel : ℕ)
      → Delivers outside.unordered
      → Covers order
      → IsMap b.edges
      → b.conditional_edges ≡ []
      → AreSilent b.nodes
      → compile order b ≡ ok runner.app
      → IsSound runner
      → topological_sort b.edges ≡ some sorted
      → length sorted + 2 ≤ fuel
      → (r : Result (RunnerError E X) (VersionedState V)) × ((run_until_complete outside fuel
            session_id runner).1
          ≡ some r)
  run_until_complete-HasEnded order b runner sorted zero delivers covers is_map none_conditional
        silent h sound is_sorted enough =
      absurd (omega arith)
  run_until_complete-HasEnded order b runner sorted (suc fuel) delivers covers is_map
        none_conditional silent h sound is_sorted enough =
      let (valid, same_nodes, same_edges, same_conditional) = compiled order b runner.app h in
      let formed = (validate-IsWellFormed order b covers is_map).0 valid in
      let (result, e, distinct, ends, in_order, all) = topological_sort-Sorted b.edges is_map in
      let is_result : result ≡ sorted = cc (e, is_sorted) in
      loop-HasEnded runner.app (rank result) (length result) delivers
        (same_conditional ∙ none_conditional)
        (subst (λ (ns : Map NodeKind (Node V E)). AreSilent ns) (sym same_nodes) silent)
        (λ u v edge.
          let edge' = subst (λ (es : Edges). Edge es u v) same_edges edge in
          rank-lt b.edges result u v in_order (all.1 formed.acyclic v (inr (u, edge'))) edge')
        (rank-le-length result) fuel runner refl sound
        (λ s found k i. omega (arith, ap length is_result))
