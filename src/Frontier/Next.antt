-- ===== src/Frontier/Next.antt =====
-- The next frontier as a set: what stands in it, and that nothing stands in it twice.
use weavegraph.Base.{
  ◌≡◌, ◌↔◌, ◌⊎◌, refl, subst, sym, inl, inr, true, List, [], ◌∷◌, ◌++◌, In, in-append,
  in-append_left, in-concat_self, IsDistinct, IsDistinct-concat, contains-in, in-contains, arith,
}
use weavegraph.Base.Map.{Map}
use weavegraph.Kind.{NodeKind, NodeKind-key, FrontierCommand}
use weavegraph.State.{StateSnapshot}
use weavegraph.Graph.Edges.{Edges, targets}
use weavegraph.Graph.Builder.{ConditionalEdge}
use weavegraph.Frontier.{
  EdgePredicate, conditional_targets, node_targets, commands_by_node, is_valid_target, push_targets,
  route_all, compute_next_frontier,
}
use weavegraph.Frontier.Routes.{emitted_by, routes, node_targets-routes}

module _ {N : Type 0} (nodes : Map NodeKind N) where
  push_targets-in :
      (ts next : List NodeKind) (t : NodeKind)
      → In t (push_targets nodes ts next)
      → In t next ⊎ (In t ts × (is_valid_target nodes t ≡ true))
  unfolding push_targets
  push_targets-in [] next t i = inl i
  push_targets-in (u ∷ ts) next t i = ground (
    arith,
    push_targets-in ts next t,
    push_targets-in ts (next ++ u ∷ []) t,
    in-append t next (u ∷ []),
  )

  in-push_targets :
      (ts next : List NodeKind) (t : NodeKind)
      → In t next ⊎ (In t ts × (is_valid_target nodes t ≡ true))
      → In t (push_targets nodes ts next)
  unfolding push_targets
  in-push_targets [] next t (inl i) = i
  in-push_targets [] next t (inr h) = absurd h.0
  in-push_targets (u ∷ ts) next t h = ground (
    arith,
    in-push_targets ts next t,
    in-push_targets ts (next ++ u ∷ []) t,
    in-append_left t next (u ∷ []),
    in-concat_self u next,
    contains-in next u,
  )

  push_targets-IsDistinct :
      (ts next : List NodeKind) → IsDistinct next → IsDistinct (push_targets nodes ts next)
  unfolding push_targets
  push_targets-IsDistinct [] next h = h
  push_targets-IsDistinct (u ∷ ts) next h = ground (
    arith,
    push_targets-IsDistinct ts next,
    push_targets-IsDistinct ts (next ++ u ∷ []),
    IsDistinct-concat next u h,
    in-contains next u,
  )

  -- One of the nodes leads to `t`.
  abbrev Led : (NodeKind → List NodeKind) → List NodeKind → NodeKind → Type 0
  Led lead ran t = (id : NodeKind) × In id ran × In t (lead id)

  Led-rest :
      (lead : NodeKind → List NodeKind) (j : NodeKind) (ran : List NodeKind) (t : NodeKind)
      → Led lead ran t
      → Led lead (j ∷ ran) t
  Led-rest lead j ran t (id, i, h) = (id, inr i, h)

  Led-here :
      (lead : NodeKind → List NodeKind) (j : NodeKind) (ran : List NodeKind) (t : NodeKind)
      → In t (lead j)
      → Led lead (j ∷ ran) t
  Led-here lead j ran t h = (j, inl refl, h)

  Led-split :
      (lead : NodeKind → List NodeKind) (j : NodeKind) (ran : List NodeKind) (t : NodeKind)
      → Led lead (j ∷ ran) t
      → In t (lead j) ⊎ Led lead ran t
  Led-split lead j ran t (id, inl e, h) = inl (subst (λ k. In t (lead k)) (sym e) h)
  Led-split lead j ran t (id, inr i, h) = inr (id, i, h)

  route_all-in :
      (lead : NodeKind → List NodeKind) (ran next : List NodeKind) (t : NodeKind)
      → In t (route_all nodes lead ran next)
      → In t next ⊎ (Led lead ran t × (is_valid_target nodes t ≡ true))
  unfolding route_all
  route_all-in lead [] next t i = inl i
  route_all-in lead (j ∷ ran) next t i =
      elim (route_all-in lead ran (push_targets nodes (lead j) next) t i) [
        | inl pushed ↦ elim (push_targets-in (lead j) next t pushed) [
          | inl before ↦ inl before
          | inr h ↦ inr (Led-here lead j ran t h.0, h.1)
        ]
        | inr h ↦ inr (Led-rest lead j ran t h.0, h.1)
      ]

  in-route_all :
      (lead : NodeKind → List NodeKind) (ran next : List NodeKind) (t : NodeKind)
      → In t next ⊎ (Led lead ran t × (is_valid_target nodes t ≡ true))
      → In t (route_all nodes lead ran next)
  unfolding route_all
  in-route_all lead [] next t (inl i) = i
  in-route_all lead [] next t (inr h) = absurd h.0.1
  in-route_all lead (j ∷ ran) next t (inl i) =
      in-route_all lead ran _ t (inl (in-push_targets (lead j) next t (inl i)))
  in-route_all lead (j ∷ ran) next t (inr h) = elim (Led-split lead j ran t h.0) [
    | inl here ↦ in-route_all lead ran _ t (inl (in-push_targets (lead j) next t (inr (here, h.1))))
    | inr rest ↦ in-route_all lead ran _ t (inr (rest, h.1))
  ]

  route_all-IsDistinct :
      (lead : NodeKind → List NodeKind) (ran next : List NodeKind)
      → IsDistinct next
      → IsDistinct (route_all nodes lead ran next)
  unfolding route_all
  route_all-IsDistinct lead [] next h = h
  route_all-IsDistinct lead (j ∷ ran) next h =
      route_all-IsDistinct lead ran _ (push_targets-IsDistinct (lead j) next h)

module _ {N V : Type 0} (nodes : Map NodeKind N) (edges : Edges)
    (conditional_edges : List (ConditionalEdge (EdgePredicate V))) (snap : StateSnapshot V)
    (ran : List NodeKind) (commands : List (NodeKind × FrontierCommand)) where
  -- What a node that ran leads to.
  abbrev pub leads : NodeKind → List NodeKind
  leads id =
      routes (targets edges id) (conditional_targets conditional_edges snap id)
        (emitted_by id commands) []

  -- No node stands twice in the next frontier.
  pub compute_next_frontier-IsDistinct :
      IsDistinct (compute_next_frontier nodes edges conditional_edges snap ran commands)
  unfolding compute_next_frontier
  compute_next_frontier-IsDistinct = route_all-IsDistinct nodes _ ran [] tt

  -- A node stands in the next frontier just when it is virtual or registered and some node that ran
  -- leads to it by its commands, its edges or its predicates.
  pub compute_next_frontier-exact :
      (t : NodeKind)
      → In t (compute_next_frontier nodes edges conditional_edges snap ran commands)
        ↔ (((id : NodeKind) × In id ran × In t (leads id)) × (is_valid_target nodes t ≡ true))
  unfolding compute_next_frontier
  compute_next_frontier-exact t = (
    λ i.
        elim (route_all-in nodes
          (node_targets edges conditional_edges snap (commands_by_node commands [])) ran [] t i) [
            | inl none_yet ↦ absurd none_yet
            | inr h ↦ ((h.0.0, h.0.1, subst (In t) (leads_lem h.0.0) h.0.2), h.1)
          ],
    λ h.
        in-route_all nodes
          (node_targets edges conditional_edges snap (commands_by_node commands [])) ran [] t
          (inr ((h.0.0, h.0.1, subst (In t) (sym (leads_lem h.0.0)) h.0.2), h.1)),
  )
    where
      leads_lem :
          (id : NodeKind)
          → node_targets edges conditional_edges snap (commands_by_node commands []) id ≡ leads id
      leads_lem id = node_targets-routes edges conditional_edges snap commands id
