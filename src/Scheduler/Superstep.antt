-- ===== src/Scheduler/Superstep.antt =====
-- What a superstep runs, when it succeeds, and what its errors say.
use weavegraph.Base.{
  ℕ, String, String-key, ℕ-key, ◌≡◌, ◌↔◌, ◌⊎◌, refl, sym, ap, subst, ◌∙◌, inl, inr, Bool, false,
  not, Option, none, some, Option-cases, List, [], ◌∷◌, In, in-append, in-append_left,
  in-append_right, filter, if◌then◌else◌, arith,
}
use weavegraph.Base.Map.{Map, get, contains_key}
use weavegraph.Base.Result.{Result, ok, err, ◌>>=◌}
use weavegraph.Kind.{NodeKind, NodeKind-key}
use weavegraph.State.{NodePartial, StateSnapshot}
use weavegraph.Scheduler.{
  Node, SchedulerState, node_run, should_run_with, is_virtual, partition, collect, run_node, tasks,
  find_missing,
}

module _ (debug : NodeKind → String) (state : SchedulerState) (channels : Map String ℕ) where
  -- A kind runs if it is not virtual and a channel is newer than its record.
  abbrev pub wants : NodeKind → Bool
  wants k = if is_virtual k then false else should_run_with state (debug k) channels

  pub partition-filter :
      (frontier : List NodeKind)
      → partition debug state channels frontier
        ≡ (filter wants frontier, filter (λ k. not (wants k)) frontier)
  unfolding partition
  partition-filter [] = refl
  partition-filter (k ∷ frontier) = ground (arith, partition-filter frontier)

module _ {V : Type 0} where
  -- The results of tasks that all succeed.
  abbrev pub succeeded :
      (E : Type 0) → List (NodeKind × NodePartial V) → List (NodeKind × Result E (NodePartial V))
  succeeded E [] = []
  succeeded E ((k, p) ∷ outs) = (k, ok p) ∷ succeeded E outs

  pub in-succeeded :
      (E : Type 0) (outs : List (NodeKind × NodePartial V)) (k : NodeKind) (p : NodePartial V)
      → In (k, p) outs ↔ In (k, ok p) (succeeded E outs)
  in-succeeded E [] k p = (λ i. i, λ i. i)
  in-succeeded E ((j, q) ∷ outs) k p = (
    λ i. elim i [
      | inl e ↦ inl (ap (λ o. (o.0, ok o.1)) e)
      | inr r ↦ inr ((in-succeeded E outs k p).0 r)
    ],
    λ i. elim i [ inl e ↦ inl cc | inr r ↦ inr ((in-succeeded E outs k p).1 r) ],
  )

  pub not-in-succeeded :
      (E : Type 0) (outs : List (NodeKind × NodePartial V)) (k : NodeKind) (x : E)
      → ¬ In (k, err x) (succeeded E outs)
  not-in-succeeded E [] k x i = i
  not-in-succeeded E ((j, q) ∷ outs) k x (inl e) = cc
  not-in-succeeded E ((j, q) ∷ outs) k x (inr i) = not-in-succeeded E outs k x i

module _ {V E : Type 0} where
  -- The stream hands over the result of each task, and nothing else.
  abbrev pub Delivers :
      (ℕ → List (NodeKind × Result E (NodePartial V)) → List (NodeKind × Result E (NodePartial V)))
      → Type 0
  Delivers unordered =
      (limit : ℕ) (results : List (NodeKind × Result E (NodePartial V)))
      (r : NodeKind × Result E (NodePartial V))
      → In r (unordered limit results) ↔ In r results

  pub find_missing-none :
      (nodes : Map NodeKind (Node V E)) (ks : List NodeKind) (k : NodeKind)
      → find_missing nodes ks ≡ none
      → In k ks
      → (run : Node V E) × (get k nodes ≡ some run)
  unfolding find_missing contains_key
  find_missing-none nodes [] k h i = absurd i
  find_missing-none nodes (j ∷ ks) k h i = elim (Option-cases (get j nodes)) [
    | inl absent ↦ ground arith
    | inr (run, found) ↦ elim i [
      | inl e ↦ (run, subst (λ l. get l nodes ≡ some run) e found)
      | inr rest ↦ find_missing-none nodes ks k (ground arith) rest
    ]
  ]

  pub find_missing-some :
      (nodes : Map NodeKind (Node V E)) (ks : List NodeKind) (k : NodeKind)
      → find_missing nodes ks ≡ some k
      → In k ks × (get k nodes ≡ none)
  unfolding find_missing contains_key
  find_missing-some nodes [] k h = cc
  find_missing-some nodes (j ∷ ks) k h = elim (Option-cases (get j nodes)) [
    | inl absent ↦ ground arith
    | inr (run, found) ↦
        let rest = find_missing-some nodes ks k (ground arith) in (inr rest.0, rest.1)
  ]

  pub collect-cases :
      (step : ℕ) (rs : List (NodeKind × Result E (NodePartial V)))
      → ((outs : List (NodeKind × NodePartial V)) × (collect step rs ≡ ok outs)
          × (rs ≡ succeeded E outs))
        ⊎ ((k : NodeKind) × (x : E) × (collect step rs ≡ err (node_run k step x))
            × In (k, err x) rs)
  unfolding collect
  collect-cases step [] = inl ([], refl, refl)
  collect-cases step ((k, ok p) ∷ rs) = elim (collect-cases step rs) [
    | inl (outs, e, all_ok) ↦ inl (
      (k, p) ∷ outs,
      ap (λ r. r >>= λ outputs. ok ((k, p) ∷ outputs)) e,
      ap (λ l. (k, ok p) ∷ l) all_ok,
    )
    | inr (j, x, e, i) ↦ inr (j, x, ap (λ r. r >>= λ outputs. ok ((k, p) ∷ outputs)) e, inr i)
  ]
  collect-cases step ((k, err x) ∷ rs) = inr (k, x, refl, inl refl)

module _ {V E : Type 0} (debug : NodeKind → String) (nodes : Map NodeKind (Node V E))
    (snap : StateSnapshot V) (step : ℕ) (invocation_id : Option String) where
  -- What the node of a kind returns in this step.
  abbrev pub Returns : NodeKind → Result E (NodePartial V) → Type 0
  Returns k r =
      (run : Node V E) × (get k nodes ≡ some run)
      × (run snap (record { node_id = debug k; step = step; invocation_id = invocation_id }) ≡ r)

  run_node-none :
      (k : NodeKind) → get k nodes ≡ none → run_node debug nodes snap step invocation_id k ≡ []
  unfolding run_node
  run_node-none k absent = rw (absent, run_node)

  run_node-some :
      (k : NodeKind) (run : Node V E)
      → get k nodes ≡ some run
      → run_node debug nodes snap step invocation_id k
        ≡ (k, run snap (record { node_id = debug k; step = step; invocation_id = invocation_id }))
          ∷ []
  unfolding run_node
  run_node-some k run found = rw (found, run_node)

  in-run_node :
      (j k : NodeKind) (r : Result E (NodePartial V))
      → In (k, r) (run_node debug nodes snap step invocation_id j)
      → (j ≡ k) × Returns k r
  unfolding run_node
  in-run_node j k r i = elim (Option-cases (get j nodes)) [
    | inl absent ↦ absurd (subst (In (k, r)) (run_node-none j absent) i)
    | inr (run, found) ↦ elim (subst (In (k, r)) (run_node-some j run found) i) [
      | inl e ↦ (
        ap (λ o. o.0) e,
        subst (λ l. Returns l r) (ap (λ o. o.0) e) (run, found, ap (λ o. o.1) e),
      )
      | inr no_more ↦ absurd no_more
    ]
  ]

  pub in-tasks :
      (ks : List NodeKind) (k : NodeKind) (r : Result E (NodePartial V))
      → In (k, r) (tasks debug nodes snap step invocation_id ks)
      → In k ks × Returns k r
  unfolding tasks
  in-tasks [] k r i = absurd i
  in-tasks (j ∷ ks) k r i =
      elim (in-append (k, r) (run_node debug nodes snap step invocation_id j) _ i) [
        | inl here ↦ let h = in-run_node j k r here in (inl h.0, h.1)
        | inr there ↦ let h = in-tasks ks k r there in (inr h.0, h.1)
      ]

  pub in-tasks_of :
      (ks : List NodeKind) (k : NodeKind) (r : Result E (NodePartial V))
      → In k ks
      → Returns k r
      → In (k, r) (tasks debug nodes snap step invocation_id ks)
  unfolding tasks
  in-tasks_of [] k r i h = absurd i
  in-tasks_of (j ∷ ks) k r (inl e) h =
      let (run, found, result) = subst (λ l. Returns l r) (sym e) h in
      in-append_left (k, r) (run_node debug nodes snap step invocation_id j) _
        (subst (In (k, r)) (sym (run_node-some j run found))
          (inl (ap (λ x. (j, x)) result ∙ ap (λ l. (l, r)) e)))
  in-tasks_of (j ∷ ks) k r (inr i) h =
      in-append_right (k, r) (run_node debug nodes snap step invocation_id j) _
        (in-tasks_of ks k r i h)
