-- ===== src/Graph/Topological/Sorted.antt =====
-- What holds in each round of the loop: the degrees count the pending edges, and the nodes without
-- pending edges are those that are in the result or in the queue.
use mathlib.Core.List.{append_assoc}
use weavegraph.Base.{
  ℕ-key, ◌+◌, ◌≡◌, ◌↔◌, refl, sym, ap, subst, ◌∙◌, inl, inr, some, List, [], ◌∷◌, ◌++◌, In,
  in-append, in-append_left, in-append_right, IsDistinct, IsDistinct-append, IsDistinct-apart,
  sort-IsDistinct, arith,
}
use weavegraph.Base.Map.{get, IsMap, keys, get-in}
use weavegraph.Base.Sort.{sort, in-sort, in-sort_of}
use weavegraph.Kind.{NodeKind, NodeKind-key}
use weavegraph.Graph.Edges.{Edges, targets, Edge}
use weavegraph.Graph.Topological.{
  Sorting, sorts_before, count_edges, zero_in_degree, release, take_node, begin_sort,
}
use weavegraph.Graph.Topological.Pending.{
  count, count-zero, count-pos, pending, pending_step, pending-zero,
}
use weavegraph.Graph.Topological.Release.{
  in-keys-release, in-release_list, get-release, in-release, Suffices, release-IsDistinct,
}
use weavegraph.Graph.Topological.Counted.{nodes, target-in-nodes}
use weavegraph.Graph.Topological.Start.{
  count_edges-IsMap, get-count_edges, in-zero_in_degree, zero_in_degree-IsDistinct,
}

-- Each node of the list comes after the sources of all its edges.
abbrev pub InOrder : Edges → List NodeKind → List NodeKind → Type 0
InOrder edges before [] = Unit
InOrder edges before (v ∷ vs) =
    ((u : NodeKind) → Edge edges u v → In u before) × InOrder edges (before ++ v ∷ []) vs

pub InOrder-concat :
    (edges : Edges) (before vs : List NodeKind) (v : NodeKind)
    → InOrder edges before vs
    → ((u : NodeKind) → Edge edges u v → In u (before ++ vs))
    → InOrder edges before (vs ++ v ∷ [])
InOrder-concat edges before [] v h last =
    (λ u e. ground (arith, last u e, in-append u before []), tt)
InOrder-concat edges before (w ∷ vs) v h last = (
  h.0,
  InOrder-concat edges (before ++ w ∷ []) vs v h.1
      (λ u e. subst (In u) (sym (append_assoc before (w ∷ []) vs)) (last u e)),
)

module _ (edges : Edges) where
  pub record IsSorting (s : Sorting) : Type 0 where
    pub degrees :
        (v : NodeKind) → In v (nodes edges) → get v s.in_degree ≡ some (pending s.result edges v)
    pub known : (v : NodeKind) → In v (keys s.in_degree) → In v (nodes edges)
    pub ready :
        (v : NodeKind)
        → In v (s.result ++ s.queue) ↔ (In v (nodes edges) × (pending s.result edges v ≡ 0))
    pub distinct : IsDistinct (s.result ++ s.queue)
    pub in_order : InOrder edges [] s.result

  pub begin_sort-IsSorting : IsSorting (begin_sort edges)
  unfolding begin_sort
  begin_sort-IsSorting = record {
    degrees = λ v i. get-count_edges edges v i;
    known = λ v i. i;
    ready = λ v. (
      λ i.
          let zero_deg =
            (in-zero_in_degree v (count_edges edges []) is_map).0 (in-sort sorts_before v _ i) in
          let there = get-in v 0 (count_edges edges []) zero_deg in
          (there, all_pending v there zero_deg),
      λ h. in-sort_of sorts_before v _ (
          (in-zero_in_degree v (count_edges edges []) is_map).1
            (get-count_edges edges v h.0 ∙ ap some h.1)),
    );
    distinct =
        sort-IsDistinct sorts_before (zero_in_degree (count_edges edges []))
          (zero_in_degree-IsDistinct (count_edges edges []) is_map);
    in_order = tt;
  }
    where
      is_map : IsMap (count_edges edges [])
      is_map = count_edges-IsMap edges [] tt

      all_pending :
          (v : NodeKind)
          → In v (nodes edges)
          → get v (count_edges edges []) ≡ some 0
          → pending [] edges v ≡ 0
      all_pending v i e = cc (get-count_edges edges v i, e)

  module _ (is_map : IsMap edges) (node : NodeKind) (rest : List NodeKind) (s : Sorting)
      (h : IsSorting s) (front : s.queue ≡ node ∷ rest) where
    taken : In node (s.result ++ s.queue)
    taken = in-append_right node s.result s.queue (rw front (inl refl))

    is_new : ¬ In node s.result
    is_new i = IsDistinct-apart s.result s.queue h.distinct node i (rw front (inl refl))

    -- The pending edges of a node after the round.
    left :
        (v : NodeKind)
        → pending (s.result ++ node ∷ []) edges v + count v (targets edges node)
          ≡ pending s.result edges v
    left v = pending_step s.result node edges v is_map is_new

    suffices : Suffices (targets edges node) s.in_degree
    suffices v d g =
        let i = h.known v (get-in v d s.in_degree g) in
        let same : d ≡ pending s.result edges v = cc (g, h.degrees v i) in omega (arith, left v)

    new_zero : List NodeKind
    new_zero = (release (targets edges node) s.in_degree).1

    released :
        (v : NodeKind)
        → In v (nodes edges)
        → In v new_zero
          ↔ (In v (targets edges node) × (pending s.result edges v ≡ count v (targets edges node)))
    unfolding new_zero
    released v i =
        in-release (targets edges node) s.in_degree v (pending s.result edges v) (h.degrees v i)
          (omega (arith, left v))

    new_known : (v : NodeKind) → In v new_zero → In v (nodes edges)
    unfolding new_zero
    new_known v i =
        target-in-nodes edges node v (in-release_list (targets edges node) s.in_degree v i)

    -- The list of what is done and waits only grows, by the nodes that are released.
    whole :
        (s.result ++ node ∷ []) ++ (rest ++ sort sorts_before new_zero)
        ≡ (s.result ++ s.queue) ++ sort sorts_before new_zero
    whole =
        append_assoc s.result (node ∷ []) (rest ++ sort sorts_before new_zero)
        ∙ sym (append_assoc s.result (node ∷ rest) (sort sorts_before new_zero))
        ∙ ap (λ q. (s.result ++ q) ++ sort sorts_before new_zero) (sym front)

    take_degrees :
        (v : NodeKind)
        → In v (nodes edges)
        → get v (release (targets edges node) s.in_degree).0
          ≡ some (pending (s.result ++ node ∷ []) edges v)
    take_degrees v i =
        get-release (targets edges node) s.in_degree v (pending s.result edges v) (h.degrees v i)
        ∙ ap some (omega (arith, left v))

    take_ready :
        (v : NodeKind)
        → In v ((s.result ++ s.queue) ++ sort sorts_before new_zero)
          ↔ (In v (nodes edges) × (pending (s.result ++ node ∷ []) edges v ≡ 0))
    take_ready v = (
      λ i. elim (in-append v (s.result ++ s.queue) (sort sorts_before new_zero) i) [
        | inl old ↦ let (there, none_left) = (h.ready v).0 old in (there, omega (arith, left v))
        | inr new ↦
            let z = in-sort sorts_before v new_zero new in
            let there = new_known v z in
            let (t, same) = (released v there).0 z in (there, omega (arith, left v))
      ],
      λ (there, none_left). elim (ℕ-key.eq? (pending s.result edges v) 0) [
        | yes e ↦ in-append_left v (s.result ++ s.queue) _ ((h.ready v).1 (there, e))
        | no pos ↦ in-append_right v (s.result ++ s.queue) (sort sorts_before new_zero) (
            in-sort_of sorts_before v new_zero (
              (released v there).1
                (count-pos v (targets edges node) (omega (arith, left v)), omega (arith, left v))))
      ],
    )

    taken_apart : IsDistinct ((s.result ++ s.queue) ++ sort sorts_before new_zero)
    unfolding new_zero
    taken_apart =
        IsDistinct-append (s.result ++ s.queue) (sort sorts_before new_zero) h.distinct
          (sort-IsDistinct sorts_before new_zero
            (release-IsDistinct (targets edges node) s.in_degree suffices))
          (λ v old new.
            let z = in-sort sorts_before v new_zero new in
            let (there, none_left) = (h.ready v).0 old in
            let (t, same) = (released v there).0 z in
            count-zero v (targets edges node) (sym same ∙ none_left) t)

    pub take_node-IsSorting : IsSorting (take_node edges node rest s)
    unfolding take_node new_zero
    take_node-IsSorting = record {
      degrees = take_degrees;
      known = λ v i. h.known v (in-keys-release (targets edges node) s.in_degree v i);
      ready = λ v. rw whole (take_ready v);
      distinct = rw whole taken_apart;
      in_order =
          InOrder-concat edges [] s.result node h.in_order
            (λ u e. pending-zero s.result edges u node ((h.ready node).0 taken).1 e);
    }
