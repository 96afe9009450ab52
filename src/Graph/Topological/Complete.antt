-- ===== src/Graph/Topological/Complete.antt =====
-- What the topological sort returns.
use mathlib.Core.List.{append-nil}
use mathlib.Core.WellFounded.{Acc}
use weavegraph.Base.{
  ℕ, zero, suc, ◌+◌, ◌<◌, ◌≡◌, ◌↔◌, ap, subst, ◌∙◌, inl, inr, Bool-cases, some, List, List-cases,
  [], ◌∷◌, ◌++◌, length, length-append, contains, contains-in, in-contains, In, in-append,
  IsDistinct, length-le_of_subset, ℕ-key, arith,
}
use weavegraph.Base.Map.{IsMap}
use weavegraph.Kind.{NodeKind, NodeKind-key}
use weavegraph.Graph.Edges.{Edges, Edge, Walk, here, step, OnCycle, Walk-trans}
use weavegraph.Graph.Topological.{Sorting, take_node, sort_loop, begin_sort, topological_sort}
use weavegraph.Graph.Topological.Pending.{pending, pending-pos}
use weavegraph.Graph.Topological.Counted.{IsEndpoint, nodes-IsEndpoint, nodes, source-in-nodes}
use weavegraph.Graph.Topological.Sorted.{
  InOrder, IsSorting, begin_sort-IsSorting, take_node-IsSorting,
}

-- A walk that begins at a node with an edge goes back before it begins.
Acc-no_cycle : {edges : Edges} {n : NodeKind} → Acc (λ u v. Edge edges u v) n → ¬ OnCycle edges n
Acc-no_cycle {edges} (Acc.intro n smaller) (m, e, here) = Acc-no_cycle (smaller n e) (n, e, here)
Acc-no_cycle {edges} (Acc.intro n smaller) (m, e, step {u} {v} p last) =
    Acc-no_cycle (smaller u last) (n, last, Walk-trans edges (step here e) p)

module _ (edges : Edges) where
  InOrder-Acc :
      (before vs : List NodeKind)
      → ((u : NodeKind) → In u before → Acc (λ a b. Edge edges a b) u)
      → InOrder edges before vs
      → (v : NodeKind) → In v vs
      → Acc (λ a b. Edge edges a b) v
  InOrder-Acc before [] h order v i = absurd i
  InOrder-Acc before (w ∷ vs) h order v i =
      let first : Acc (λ a b. Edge edges a b) w = Acc.intro w (λ u e. h u (order.0 u e)) in
      elim i [
        | inl e ↦ subst (Acc (λ a b. Edge edges a b)) e first
        | inr j ↦
            InOrder-Acc (before ++ w ∷ []) vs
              (λ u k. elim (in-append u before (w ∷ []) k) [
                | inl old ↦ h u old
                | inr new ↦ elim new [
                  | inl e ↦ subst (Acc (λ a b. Edge edges a b)) e first
                  | inr none_left ↦ absurd none_left
                ]
              ])
              order.1 v j
      ]

  -- In a graph without cycles one cannot go on to new sources for ever.
  no_endless_sources :
      (out : NodeKind → Type 0)
      → ((n : NodeKind) → ¬ OnCycle edges n)
      → ((v : NodeKind) → out v → (u : NodeKind) × Edge edges u v × out u)
      → (fuel : ℕ) (v : NodeKind) (visited : List NodeKind) → out v
      → ((w : NodeKind) → In w (v ∷ visited) → In w (nodes edges) × Walk edges v w)
      → IsDistinct (v ∷ visited)
      → length (nodes edges) < length (v ∷ visited) + fuel
      → ⊥
  no_endless_sources out acyclic source zero v visited o reach distinct long = absurd (
      omega
        (arith, length-le_of_subset (v ∷ visited) (nodes edges) distinct (λ w i. (reach w i).0)))
  no_endless_sources out acyclic source (suc fuel) v visited o reach distinct long =
      let (u, e, o') = source v o in
      no_endless_sources out acyclic source fuel u (v ∷ visited) o'
        (λ w i. elim i [
          | inl same ↦
              subst (λ k. In k (nodes edges) × Walk edges u k) same
                (source-in-nodes edges u v e, here)
          | inr old ↦ ((reach w old).0, Walk-trans edges (step here e) (reach w old).1)
        ])
        (λ i. acyclic u (v, e, (reach u i).1), distinct) (omega arith)

  -- What the loop hands over at its end.
  abbrev Final : List NodeKind → Type 0
  Final result =
      IsDistinct result
      × InOrder edges [] result
      × ((v : NodeKind) → In v result ↔ (In v (nodes edges) × (pending result edges v ≡ 0)))

  module _ (is_map : IsMap edges) where
    length-take_node :
        (node : NodeKind) (rest : List NodeKind) (s : Sorting)
        → length (take_node edges node rest s).result ≡ length s.result + 1
    unfolding take_node
    length-take_node node rest s = omega (arith, length-append s.result (node ∷ []))

    sort_loop-Final :
        (fuel : ℕ) (s : Sorting)
        → IsSorting edges s
        → length (nodes edges) < length s.result + fuel
        → (result : List NodeKind) × (sort_loop edges fuel s ≡ some result) × Final result
    unfolding sort_loop
    sort_loop-Final zero s h long = absurd (
        omega (
          arith,
          length-le_of_subset (s.result ++ s.queue) (nodes edges) h.distinct
              (λ v i. ((h.ready v).0 i).0),
          length-append s.result s.queue,
        ))
    sort_loop-Final (suc fuel) s h long = elim (List-cases s.queue) [
      | inl empty ↦
          let flat = ap (λ q. s.result ++ q) empty ∙ append-nil s.result in
          (
            s.result,
            rw (empty, sort_loop),
            (
              subst IsDistinct flat h.distinct,
              h.in_order,
              λ v.
                  subst (λ l. In v l ↔ (In v (nodes edges) × (pending s.result edges v ≡ 0))) flat
                    (h.ready v),
            ),
          )
      | inr (node, rest, front) ↦
          let (result, e, f) =
            sort_loop-Final fuel (take_node edges node rest s)
              (take_node-IsSorting edges is_map node rest s h front)
              (omega (arith, length-take_node node rest s)) in
          (result, rw (front, sort_loop) e, f)
    ]

module _ (edges : Edges) (is_map : IsMap edges) where
  unfinished :
      (result : List NodeKind)
      → Final edges result
      → (v : NodeKind) → In v (nodes edges) × (¬ In v result)
      → (u : NodeKind) × Edge edges u v × (In u (nodes edges) × (¬ In u result))
  unfinished result f v (there, out) =
      let (u, e, out') =
        pending-pos result edges v is_map (λ none_left. out ((f.2 v).1 (there, none_left))) in
      (u, e, (source-in-nodes edges u v e, out'))

  complete :
      (result : List NodeKind)
      → Final edges result
      → ((n : NodeKind) → ¬ OnCycle edges n)
      → (v : NodeKind) → In v (nodes edges)
      → In v result
  complete result f acyclic v there = elim (Bool-cases (contains result v)) [
    | inl yes_in ↦ contains-in result v yes_in
    | inr out ↦ absurd (
        no_endless_sources edges (λ w. In w (nodes edges) × (¬ In w result)) acyclic
          (unfinished result f) (length (nodes edges)) v []
          (there, λ i. cc (out, in-contains result v i))
          (λ w i. elim i [
            | inl same ↦ subst (λ k. In k (nodes edges) × Walk edges v k) same (there, here)
            | inr none_left ↦ absurd none_left
          ])
          (λ i. i, tt) (omega arith))
  ]

  acyclic_of_complete :
      (result : List NodeKind)
      → Final edges result
      → ((v : NodeKind) → In v (nodes edges) → In v result)
      → (n : NodeKind) → ¬ OnCycle edges n
  acyclic_of_complete result f all n (m, e, p) =
      Acc-no_cycle
        (InOrder-Acc edges [] result (λ u i. absurd i) f.1 n (all n (source-in-nodes edges n m e)))
        (m, e, p)

  -- The topological sort of edges that are a map ends, with a list in which no node stands twice,
  -- each is an endpoint of the edges, and each comes after the sources of all edges to it. All
  -- endpoints are in the list if and only if no node has a walk of one edge or more back to itself.
  pub topological_sort-Sorted :
      (result : List NodeKind) × (topological_sort edges ≡ some result)
      × IsDistinct result
      × ((v : NodeKind) → In v result → IsEndpoint edges v)
      × InOrder edges [] result
      × (((v : NodeKind) → IsEndpoint edges v → In v result) ↔ ((n : NodeKind) → ¬ OnCycle edges n))
  unfolding topological_sort
  topological_sort-Sorted =
      let (result, e, f) =
        sort_loop-Final edges is_map (suc (length (nodes edges))) (begin_sort edges)
          (begin_sort-IsSorting edges) (omega arith) in
      (
        result,
        e,
        f.0,
        λ v i. (nodes-IsEndpoint edges v is_map).0 ((f.2 v).0 i).0,
        f.1,
        (
          λ all.
              acyclic_of_complete result f (λ v i. all v ((nodes-IsEndpoint edges v is_map).0 i)),
          λ acyclic v i. complete result f acyclic v ((nodes-IsEndpoint edges v is_map).1 i),
        ),
      )
