-- ===== src/Runner/Partials.antt =====
-- The partials of a step stand in the order of the frontier, whatever the order of completion.
use weavegraph.Base.{
  ℕ, String, ◌≡◌, ◌↔◌, ◌⊎◌, refl, sym, ap, subst, ◌∙◌, inl, inr, Option, none, some, List, [], ◌∷◌,
  In, IsDistinct, filter, in-filter, Bool, arith,
}
use weavegraph.Base.Map.{
  Map, get, put, remove, get-put_self, get-put_other, get-put_cases, get-remove_other,
}
use weavegraph.Base.Result.{Result, ok, map_err, ◌>>=◌, Result-cases, ok-injective}
use weavegraph.Kind.{NodeKind, NodeKind-key, start}
use weavegraph.State.{NodePartial, empty_partial, snapshot}
use weavegraph.Scheduler.{SchedulerState, SchedulerError, StepRunResult, superstep}
use weavegraph.Scheduler.Superstep.{Delivers, Returns}
use weavegraph.Scheduler.Outcome.{superstep-ok, superstep-succeeds, wanted}
use weavegraph.Session.{SessionState, SchedulerOutcome}
use weavegraph.Runner.{
  RunnerError, scheduler, Outside, AppOf, by_kind, take_partials, normalize, schedule_step,
}

IsDistinct-filter :
    (p : NodeKind → Bool) (ks : List NodeKind) → IsDistinct ks → IsDistinct (filter p ks)
IsDistinct-filter p [] h = h
IsDistinct-filter p (k ∷ ks) h = ground (arith, IsDistinct-filter p ks h.1, in-filter p k ks)

module _ {V : Type 0} where
  -- Each kind has its partial, in order.
  abbrev pub Matched :
      (NodeKind → NodePartial V → Type 0) → List NodeKind → List (NodePartial V) → Type 0
  Matched R [] [] = Unit
  Matched R [] (p ∷ ps) = ⊥
  Matched R (k ∷ ks) [] = ⊥
  Matched R (k ∷ ks) (p ∷ ps) = R k p × Matched R ks ps

  by_kind-keeps :
      (outputs : List (NodeKind × NodePartial V)) (m : Map NodeKind (NodePartial V)) (k : NodeKind)
      (p : NodePartial V)
      → get k (by_kind outputs m) ≡ some p
      → In (k, p) outputs ⊎ (get k m ≡ some p)
  unfolding by_kind
  by_kind-keeps [] m k p h = inr h
  by_kind-keeps ((j, q) ∷ outputs) m k p h = elim (by_kind-keeps outputs (put j q m) k p h) [
    | inl i ↦ inl (inr i)
    | inr e ↦ elim (get-put_cases j k q p m e) [
      | inl same ↦ inl (inl (ap (λ l. (l, q)) same.0 ∙ ap (λ x. (k, x)) same.1))
      | inr before ↦ inr before
    ]
  ]

  by_kind-has :
      (outputs : List (NodeKind × NodePartial V)) (m : Map NodeKind (NodePartial V)) (k : NodeKind)
      → ((p : NodePartial V) × In (k, p) outputs) ⊎ ((p : NodePartial V) × (get k m ≡ some p))
      → (p : NodePartial V) × (get k (by_kind outputs m) ≡ some p)
  unfolding by_kind
  by_kind-has [] m k (inl h) = absurd h.1
  by_kind-has [] m k (inr h) = h
  by_kind-has ((j, q) ∷ outputs) m k (inl (p, inr i)) =
      by_kind-has outputs (put j q m) k (inl (p, i))
  by_kind-has ((j, q) ∷ outputs) m k (inl (p, inl e)) =
      by_kind-has outputs (put j q m) k
        (inr (q, subst (λ l. get l (put j q m) ≡ some q) (ap (λ o. o.0) e) (get-put_self j q m)))
  by_kind-has ((j, q) ∷ outputs) m k (inr (p, e)) =
      by_kind-has outputs (put j q m) k (inr (kept p e))
    where
      kept :
          (p : NodePartial V)
          → get k m ≡ some p
          → (r : NodePartial V) × (get k (put j q m) ≡ some r)
      kept p e = elim (NodeKind-key.eq? j k) [
        | yes same ↦ (q, subst (λ l. get l (put j q m) ≡ some q) same (get-put_self j q m))
        | no other ↦ (p, get-put_other j k q m other ∙ e)
      ]

  take_partials-Matched :
      (R : NodeKind → NodePartial V → Type 0) (ks : List NodeKind)
      (m : Map NodeKind (NodePartial V))
      → IsDistinct ks
      → ((k : NodeKind) → In k ks → (p : NodePartial V) × (get k m ≡ some p) × R k p)
      → Matched R ks (take_partials ks m)
  unfolding take_partials
  take_partials-Matched R [] m d h = tt
  take_partials-Matched R (k ∷ ks) m d h =
      let (p, found, holds) = h k (inl refl) in
      subst
        (λ (o : Option (NodePartial V)). Matched R (k ∷ ks) (elim o [
          | none ↦ take_partials ks (remove k m)
          | some partial ↦ partial ∷ take_partials ks (remove k m)
        ]))
        (sym found)
        (holds, take_partials-Matched R ks (remove k m) d.1 (λ l i. rest l i (h l (inr i))))
    where
      rest :
          (l : NodeKind)
          → In l ks
          → (p : NodePartial V) × (get l m ≡ some p) × R l p
          → (p : NodePartial V) × (get l (remove k m) ≡ some p) × R l p
      rest l i (p, found, holds) =
          (p, get-remove_other k l m (λ e. d.0 (subst (λ x. In x ks) (sym e) i)) ∙ found, holds)

module _ {V E C S X : Type 0} (outside : Outside V E S X) (app : AppOf V E C) (session_id : String)
    (session_state : SessionState V) (step : ℕ) where
  -- The node of the kind returns the partial on the state of the session.
  abbrev pub Gives : NodeKind → NodePartial V → Type 0
  Gives k p =
      Returns outside.debug app.nodes (snapshot session_state.state) step (some session_id) k (ok p)

  abbrev scheduled : SchedulerState × Result (SchedulerError E) (StepRunResult V)
  scheduled =
      superstep outside.debug outside.unordered session_state.scheduler
        session_state.scheduler_state app.nodes session_state.frontier
        (snapshot session_state.state) step (some session_id)

  abbrev pub to_run : List NodeKind
  to_run =
      wanted outside.debug outside.unordered session_state.scheduler session_state.scheduler_state
        app.nodes session_state.frontier (snapshot session_state.state) step (some session_id)

  ok_outcome :
      (o : SchedulerOutcome V)
      → (schedule_step outside app session_id session_state step).1 ≡ ok o
      → (r : StepRunResult V) × (scheduled.1 ≡ ok r) × (normalize r ≡ o)
  unfolding schedule_step
  ok_outcome o h = elim (Result-cases scheduled.1) [
    | inl (r, e) ↦ (
      r,
      e,
      ok-injective (RunnerError E X)
          (sym (ap (λ (x : Result (SchedulerError E) (StepRunResult V)). lift_result x) e) ∙ h),
    )
    | inr (x, e) ↦
        let broken =
          sym (ap (λ (x : Result (SchedulerError E) (StepRunResult V)). lift_result x) e) ∙ h in
        absurd cc
  ]
    where
      lift_result :
          Result (SchedulerError E) (StepRunResult V)
          → Result (RunnerError E X) (SchedulerOutcome V)
      lift_result x = map_err scheduler x >>= λ r. ok (normalize r)

  outputs-Matched :
      (r : StepRunResult V)
      → Delivers outside.unordered
      → IsDistinct session_state.frontier
      → scheduled.1 ≡ ok r
      → (r.ran_nodes ≡ to_run)
        × Matched Gives r.ran_nodes (take_partials r.ran_nodes (by_kind r.outputs []))
  unfolding get
  outputs-Matched r delivers distinct h = (
    ran,
    take_partials-Matched Gives r.ran_nodes (by_kind r.outputs [])
        (subst IsDistinct (sym ran) (IsDistinct-filter _ session_state.frontier distinct))
        partial_of,
  )
    where
      exact :
          (k : NodeKind) (p : NodePartial V)
          → (r.ran_nodes ≡ to_run) × (In (k, p) r.outputs ↔ (In k to_run × Gives k p))
      exact k p =
          let all_of =
            superstep-ok outside.debug outside.unordered session_state.scheduler
              session_state.scheduler_state app.nodes session_state.frontier
              (snapshot session_state.state) step (some session_id) r k p delivers h in
          (all_of.0, all_of.3)

      all_succeed : (k : NodeKind) → In k to_run → (p : NodePartial V) × Gives k p
      all_succeed =
          (superstep-succeeds outside.debug outside.unordered session_state.scheduler
              session_state.scheduler_state app.nodes session_state.frontier
              (snapshot session_state.state) step (some session_id) delivers).0
            (r, h)

      ran : r.ran_nodes ≡ to_run
      ran = (exact start empty_partial).0

      partial_of :
          (k : NodeKind)
          → In k r.ran_nodes
          → (p : NodePartial V) × (get k (by_kind r.outputs []) ≡ some p) × Gives k p
      partial_of k i =
          let j = subst (In k) ran i in
          let (p, good) = all_succeed k j in
          let (q, found) = by_kind-has r.outputs [] k (inl (p, (exact k p).1.1 (j, good))) in
          elim (by_kind-keeps r.outputs [] k q found) [
            | inl there ↦ (q, found, ((exact k q).1.0 there).1)
            | inr nothing ↦ absurd cc
          ]

  -- If the stream hands over each task's result and no kind stands twice in the frontier: after a
  -- step is scheduled, the nodes that ran are those of the frontier that want to run, and the
  -- partials are those that these nodes return on the session's state, one for each and in the
  -- order of the frontier, in whatever order the tasks complete.
  pub schedule_step-Matched :
      (o : SchedulerOutcome V)
      → Delivers outside.unordered
      → IsDistinct session_state.frontier
      → (schedule_step outside app session_id session_state step).1 ≡ ok o
      → (o.ran_nodes ≡ to_run) × Matched Gives o.ran_nodes o.partials
  schedule_step-Matched o delivers distinct h =
      let (r, e, same) = ok_outcome o h in
      subst
        (λ (q : SchedulerOutcome V). (q.ran_nodes ≡ to_run) × Matched Gives q.ran_nodes q.partials)
        same (outputs-Matched r delivers distinct e)
