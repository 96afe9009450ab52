-- ===== src/Scheduler/Outcome.antt =====
-- The outcome of a superstep, on every branch.
use weavegraph.Base.{
  ℕ, String, String-key, ℕ-key, ◌≡◌, ◌↔◌, ◌⊎◌, refl, sym, ap, subst, ◌∙◌, inl, inr, not, Option,
  none, Option-cases, List, map, In, filter,
}
use weavegraph.Base.Map.{Map, get}
use weavegraph.Base.Result.{Result, ok, err, Result-cases, ok-injective, err-injective}
use weavegraph.Kind.{NodeKind, NodeKind-key}
use weavegraph.State.{NodePartial, StateSnapshot}
use weavegraph.Scheduler.{
  Node, Scheduler, SchedulerState, SchedulerError, node_not_found, node_run, StepRunResult,
  channel_versions, collect, tasks, finish, find_missing, superstep, record_all,
}
use weavegraph.Scheduler.Superstep.{
  wants, partition-filter, Delivers, find_missing-none, find_missing-some, collect-cases, succeeded,
  in-succeeded, not-in-succeeded, Returns, in-tasks, in-tasks_of,
}

module _ {V E : Type 0} (debug : NodeKind → String)
    (unordered : ℕ
      → List (NodeKind × Result E (NodePartial V))
      → List (NodeKind × Result E (NodePartial V)))
    (scheduler : Scheduler) (state : SchedulerState) (nodes : Map NodeKind (Node V E))
    (frontier : List NodeKind) (snap : StateSnapshot V) (step : ℕ)
    (invocation_id : Option String) where
  -- The kinds of the frontier that are to run.
  abbrev pub wanted : List NodeKind
  wanted = filter (wants debug state (channel_versions snap)) frontier

  abbrev pub unwanted : List NodeKind
  unwanted = filter (λ k. not (wants debug state (channel_versions snap) k)) frontier

  abbrev pub outcome : SchedulerState × Result (SchedulerError E) (StepRunResult V)
  outcome = superstep debug unordered scheduler state nodes frontier snap step invocation_id

  abbrev results : List (NodeKind × Result E (NodePartial V))
  results = unordered scheduler.concurrency_limit (tasks debug nodes snap step invocation_id wanted)

  pub superstep-filter :
      outcome
      ≡ finish debug state
          (channel_versions snap)
          step
          (wanted, unwanted)
          (find_missing nodes wanted)
          (collect step results)
  unfolding superstep
  superstep-filter =
      ap
        (λ (parts : List NodeKind × List NodeKind).
          finish debug state (channel_versions snap) step parts (find_missing nodes parts.0) (
            collect step (
              unordered scheduler.concurrency_limit
                (tasks debug nodes snap step invocation_id parts.0))))
        (partition-filter debug state (channel_versions snap) frontier)

  -- The three ways in which a superstep ends.
  abbrev pub Ends : Type 0
  Ends =
      ((k : NodeKind) × (outcome ≡ (state, err (node_not_found k step)))
        × In k wanted
        × (get k nodes ≡ none))
      ⊎ (((k : NodeKind) × (x : E) × (outcome ≡ (state, err (node_run k step x)))
            × In k wanted
            × Returns debug nodes snap step invocation_id k (err x))
          ⊎ ((outputs : List (NodeKind × NodePartial V)) × (outcome ≡ (
            record_all (map debug wanted) (channel_versions snap) state,
            ok (record { ran_nodes = wanted; skipped_nodes = unwanted; outputs = outputs }),
          ))
              × (find_missing nodes wanted ≡ none)
              × (results ≡ succeeded E outputs)))

  ends : Delivers unordered → Ends
  ends delivers = elim (Option-cases (find_missing nodes wanted)) [
    | inr (k, missing) ↦
        let (there, absent) = find_missing-some nodes wanted k missing in
        inl (
          k,
          superstep-filter
              ∙ ap
                  (λ m.
                    finish debug state (channel_versions snap) step (wanted, unwanted) m
                      (collect step results))
                  missing,
          there,
          absent,
        )
    | inl all_found ↦
        let reached =
          superstep-filter
          ∙ ap
              (λ m.
                finish debug state (channel_versions snap) step (wanted, unwanted) m
                  (collect step results))
              all_found in
        elim (collect-cases step results) [
          | inl (outputs, collected, all_ok) ↦ inr (
              inr (
                outputs,
                reached
                    ∙ ap (finish debug state (channel_versions snap) step (wanted, unwanted) none)
                        collected,
                all_found,
                all_ok,
              ))
          | inr (k, x, collected, i) ↦
              let (there, returns) =
                in-tasks debug nodes snap step invocation_id wanted k (err x)
                  ((delivers scheduler.concurrency_limit _ (k, err x)).0 i) in
              inr (
                inl (
                  k,
                  x,
                  reached
                      ∙ ap (finish debug state (channel_versions snap) step (wanted, unwanted) none)
                          collected,
                  there,
                  returns,
                ))
        ]
  ]

  -- Each kind to run has a node, and the node succeeds.
  abbrev pub AllSucceed : Type 0
  AllSucceed =
      (k : NodeKind)
      → In k wanted
      → (p : NodePartial V) × Returns debug nodes snap step invocation_id k (ok p)

  no_result :
      (e : SchedulerError E) (r : StepRunResult V) → outcome ≡ (state, err e) → ¬ (outcome.1 ≡ ok r)
  no_result e r h k = let broken = sym (ap (λ o. o.1) h) ∙ k in cc

  one_result :
      (k : NodeKind) (r q : Result E (NodePartial V))
      → Returns debug nodes snap step invocation_id k r
      → Returns debug nodes snap step invocation_id k q
      → r ≡ q
  one_result k r q (run, found, result) (other, found', result') =
      let same_run : run ≡ other = cc (found, found') in
      sym result
      ∙ ap (λ f. f snap (record { node_id = debug k; step = step; invocation_id = invocation_id }))
          same_run
      ∙ result'

  all_succeed :
      (outputs : List (NodeKind × NodePartial V))
      → Delivers unordered
      → find_missing nodes wanted ≡ none
      → results ≡ succeeded E outputs
      → AllSucceed
  all_succeed outputs delivers all_found all_ok k i =
      let (run, found) = find_missing-none nodes wanted k all_found i in
      let result =
        run snap (record { node_id = debug k; step = step; invocation_id = invocation_id }) in
      let task : In (k, result) (succeeded E outputs) = subst (In (k, result)) all_ok (
        (delivers scheduler.concurrency_limit _ (k, result)).1
          (in-tasks_of debug nodes snap step invocation_id wanted k result i (run, found, refl))) in
      elim (Result-cases result) [
        | inl (p, e) ↦ (p, (run, found, e))
        | inr (x, e) ↦
            absurd
              (not-in-succeeded E outputs k x (subst (λ r. In (k, r) (succeeded E outputs)) e task))
      ]

  -- If the stream hands over each task's result: a superstep succeeds just when each kind of the
  -- frontier that is to run has a node, and this node succeeds on the snapshot.
  pub superstep-succeeds :
      Delivers unordered → ((r : StepRunResult V) × (outcome.1 ≡ ok r)) ↔ AllSucceed
  superstep-succeeds delivers = elim (ends delivers) [
    | inl (k, e, i, absent) ↦ (
      λ h. absurd (no_result _ h.0 e h.1),
      λ h. let (p, good) = h k i in absurd (cc (good.1, absent)),
    )
    | inr (inl (k, x, e, i, returns)) ↦ (
      λ h. absurd (no_result _ h.0 e h.1),
      λ h. let (p, good) = h k i in absurd (cc (one_result k (err x) (ok p) returns good)),
    )
    | inr (inr (outputs, e, all_found, all_ok)) ↦
        (λ h. all_succeed outputs delivers all_found all_ok, λ h. (_, ap (λ o. o.1) e))
  ]

  -- If the stream hands over each task's result and the superstep succeeds: it ran the kinds of the
  -- frontier that are not virtual and have a channel newer than their record, in order, skipped the
  -- others, in order, recorded the versions for those that ran, and its outputs are just the
  -- partials that the nodes of these kinds return.
  pub superstep-ok :
      (r : StepRunResult V) (k : NodeKind) (p : NodePartial V)
      → Delivers unordered
      → outcome.1 ≡ ok r
      → (r.ran_nodes ≡ wanted)
        × (r.skipped_nodes ≡ unwanted)
        × (outcome.0 ≡ record_all (map debug wanted) (channel_versions snap) state)
        × (In (k, p) r.outputs
            ↔ (In k wanted × Returns debug nodes snap step invocation_id k (ok p)))
  superstep-ok r k p delivers h = elim (ends delivers) [
    | inl (j, e, i, absent) ↦ absurd (no_result _ r e h)
    | inr (inl (j, x, e, i, returns)) ↦ absurd (no_result _ r e h)
    | inr (inr (outputs, e, all_found, all_ok)) ↦
        let is_r = ok-injective (SchedulerError E) (sym (ap (λ o. o.1) e) ∙ h) in
        (
          sym (ap (λ (q : StepRunResult V). q.ran_nodes) is_r),
          sym (ap (λ (q : StepRunResult V). q.skipped_nodes) is_r),
          ap (λ o. o.0) e,
          subst
              (λ (q : StepRunResult V).
                In (k, p) q.outputs
                ↔ (In k wanted × Returns debug nodes snap step invocation_id k (ok p)))
              is_r (same_outputs outputs all_ok),
        )
  ]
    where
      same_outputs :
          (outputs : List (NodeKind × NodePartial V))
          → results ≡ succeeded E outputs
          → In (k, p) outputs ↔ (In k wanted × Returns debug nodes snap step invocation_id k (ok p))
      same_outputs outputs all_ok = (
        λ i. in-tasks debug nodes snap step invocation_id wanted k (ok p) (
            (delivers scheduler.concurrency_limit _ (k, ok p)).0
              (subst (In (k, ok p)) (sym all_ok) ((in-succeeded E outputs k p).0 i))),
        λ w. (in-succeeded E outputs k p).1 (
            subst (In (k, ok p)) all_ok (
              (delivers scheduler.concurrency_limit _ (k, ok p)).1
                (in-tasks_of debug nodes snap step invocation_id wanted k (ok p) w.0 w.1))),
      )

  -- What an error says: the step, and a kind to run without a node or one whose node failed.
  abbrev pub Blames : SchedulerError E → Type 0
  Blames (node_not_found k s) = (s ≡ step) × In k wanted × (get k nodes ≡ none)
  Blames (node_run k s x) =
      (s ≡ step) × In k wanted × Returns debug nodes snap step invocation_id k (err x)

  -- If the stream hands over each task's result and the superstep fails: nothing is recorded, and
  -- the error names a kind to run that has no node, or one whose node failed with this error.
  pub superstep-fails :
      (e : SchedulerError E)
      → Delivers unordered
      → outcome.1 ≡ err e
      → (outcome.0 ≡ state) × Blames e
  superstep-fails e delivers h = elim (ends delivers) [
    | inl (k, reached, i, absent) ↦ (
      ap (λ o. o.0) reached,
      subst Blames (err-injective _ (sym (ap (λ o. o.1) reached) ∙ h)) (refl, i, absent),
    )
    | inr (inl (k, x, reached, i, returns)) ↦ (
      ap (λ o. o.0) reached,
      subst Blames (err-injective _ (sym (ap (λ o. o.1) reached) ∙ h)) (refl, i, returns),
    )
    | inr (inr (outputs, reached, all_found, all_ok)) ↦
        let broken = sym (ap (λ o. o.1) reached) ∙ h in absurd cc
  ]
