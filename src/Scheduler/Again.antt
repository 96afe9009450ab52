-- ===== src/Scheduler/Again.antt =====
-- A superstep that follows another one on the same frontier and versions has nothing to run.
use weavegraph.Base.{
  ℕ, String, String-key, ◌≡◌, refl, sym, ap, subst, ◌∙◌, inl, inr, Bool, false, not, Option, none,
  Bool-cases, List-cases, List, [], ◌∷◌, map, In, filter, in-filter_of, arith,
}
use weavegraph.Base.Map.{Map}
use weavegraph.Base.Result.{Result, ok}
use weavegraph.Kind.{NodeKind, start}
use weavegraph.State.{empty_partial, NodePartial, StateSnapshot}
use weavegraph.Scheduler.{
  Node, Scheduler, SchedulerState, StepRunResult, channel_versions, collect, tasks, finish,
  find_missing, superstep, record_all,
}
use weavegraph.Scheduler.Gate.{record_all-should_run, record_rest}
use weavegraph.Scheduler.Superstep.{wants, Delivers}
use weavegraph.Scheduler.Outcome.{unwanted, superstep-filter, superstep-ok}

in-map :
    (debug : NodeKind → String) (k : NodeKind) (ks : List NodeKind)
    → In k ks
    → In (debug k) (map debug ks)
in-map debug k [] i = absurd i
in-map debug k (j ∷ ks) (inl e) = inl (ap debug e)
in-map debug k (j ∷ ks) (inr i) = inr (in-map debug k ks i)

filter_none :
    (p : NodeKind → Bool) (ks : List NodeKind)
    → ((k : NodeKind) → In k ks → p k ≡ false)
    → filter p ks ≡ []
filter_none p [] h = refl
filter_none p (k ∷ ks) h = ground (arith, h k (inl refl), filter_none p ks (λ j i. h j (inr i)))

filter_all :
    (p : NodeKind → Bool) (ks : List NodeKind)
    → ((k : NodeKind) → In k ks → p k ≡ false)
    → filter (λ k. not (p k)) ks ≡ ks
filter_all p [] h = refl
filter_all p (k ∷ ks) h = ground (arith, h k (inl refl), filter_all p ks (λ j i. h j (inr i)))

module _ {V : Type 0} (debug : NodeKind → String) (state : SchedulerState)
    (frontier : List NodeKind) (snap : StateSnapshot V) where
  abbrev ran : List NodeKind
  ran = filter (wants debug state (channel_versions snap)) frontier

  abbrev recorded : SchedulerState
  recorded = record_all (map debug ran) (channel_versions snap) state

  wants_no_more :
      (k : NodeKind) → In k frontier → wants debug recorded (channel_versions snap) k ≡ false
  wants_no_more k i = elim (Bool-cases (wants debug state (channel_versions snap) k)) [
    | inl wanted_k ↦ ground (
      arith,
      record_all-should_run snap (map debug ran) state (debug k) (
          in-map debug k ran
            (in-filter_of (wants debug state (channel_versions snap)) k frontier i wanted_k)),
    )
    | inr other ↦ ground (arith, record_rest snap (map debug ran) state (debug k))
  ]

module _ {V E : Type 0} (debug : NodeKind → String)
    (unordered : ℕ
      → List (NodeKind × Result E (NodePartial V))
      → List (NodeKind × Result E (NodePartial V)))
    (scheduler : Scheduler) (state : SchedulerState) (nodes : Map NodeKind (Node V E))
    (frontier : List NodeKind) (snap : StateSnapshot V) (invocation_id : Option String) where
  nothing_delivered : (limit : ℕ) → Delivers unordered → unordered limit [] ≡ []
  nothing_delivered limit delivers = elim (List-cases (unordered limit [])) [
    | inl empty ↦ empty
    | inr (r, rest, more) ↦ absurd ((delivers limit [] r).0 (subst (In r) (sym more) (inl refl)))
  ]

  all_skipped :
      (later : SchedulerState) (step : ℕ)
      → Delivers unordered
      → ((k : NodeKind) → In k frontier → wants debug later (channel_versions snap) k ≡ false)
      → superstep debug unordered scheduler later nodes frontier snap step invocation_id
        ≡ (later, ok (record { ran_nodes = []; skipped_nodes = frontier; outputs = [] }))
  unfolding find_missing tasks collect record_all
  all_skipped later step delivers h =
      superstep-filter debug unordered scheduler later nodes frontier snap step invocation_id
      ∙ ap
          (λ (ks : List NodeKind).
            finish debug later (channel_versions snap) step
              (ks, unwanted debug unordered scheduler later nodes frontier snap step invocation_id)
              (find_missing nodes ks)
              (collect step (
                unordered scheduler.concurrency_limit
                  (tasks debug nodes snap step invocation_id ks))))
          (filter_none (wants debug later (channel_versions snap)) frontier h)
      ∙ ap
          (λ (ks : List NodeKind).
            finish debug later (channel_versions snap) step ([], ks) none
              (collect step (unordered scheduler.concurrency_limit [])))
          (filter_all (wants debug later (channel_versions snap)) frontier h)
      ∙ ap
          (λ (rs : List (NodeKind × Result E (NodePartial V))).
            finish debug later (channel_versions snap) step ([], frontier) none (collect step rs))
          (nothing_delivered scheduler.concurrency_limit delivers)

  -- If the stream hands over each task's result: after a superstep that succeeds, another one on
  -- the same frontier and snapshot runs no node, skips the whole frontier and changes no record.
  pub superstep-again :
      (step next_step : ℕ) (r : StepRunResult V)
      → Delivers unordered
      → (superstep debug unordered scheduler state nodes frontier snap step invocation_id).1 ≡ ok r
      → superstep debug unordered scheduler
          (superstep debug unordered scheduler state nodes frontier snap step invocation_id).0
          nodes
          frontier
          snap
          next_step
          invocation_id
        ≡ (
          (superstep debug unordered scheduler state nodes frontier snap step invocation_id).0,
          ok (record { ran_nodes = []; skipped_nodes = frontier; outputs = [] }),
        )
  superstep-again step next_step r delivers h =
      subst
        (λ (st : SchedulerState).
          superstep debug unordered scheduler st nodes frontier snap next_step invocation_id
          ≡ (st, ok (record { ran_nodes = []; skipped_nodes = frontier; outputs = [] })))
        (sym
          (superstep-ok debug unordered scheduler state nodes frontier snap step invocation_id r
            start empty_partial delivers h).2)
        (all_skipped (recorded debug state frontier snap) next_step delivers
          (wants_no_more debug state frontier snap))
