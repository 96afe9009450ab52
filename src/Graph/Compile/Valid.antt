-- ===== src/Graph/Compile/Valid.antt =====
-- `validate` accepts exactly the well-formed graphs.
use weavegraph.Base.{
  IsDistinct, ◌≡◌, refl, ◌⊎◌, ◌↔◌, inl, inr, true, false, not, ◌||◌, List, [], ◌∷◌, In, ◌==◌, arith,
  any, is_empty, List-cases, ap, ◌∙◌, Bool,
}
use weavegraph.Base.Map.{keys, IsMap}
use weavegraph.Base.Result.{ok, >>-eq-ok}
use weavegraph.Kind.{NodeKind, NodeKind-key, start, end}
use weavegraph.Graph.Edges.{Edges, targets, Edge, Walk, OnCycle, IsCycle-OnCycle}
use weavegraph.Graph.Builder.{ConditionalEdge, GraphBuilder}
use weavegraph.Graph.Cycle.{Outcome, found, done, out_of_fuel, detect_cycle}
use weavegraph.Graph.Cycle.Decides.{Covers, Decided, detect_cycle-Decided}
use weavegraph.Graph.Compile.{
  GraphCompileError, detect_duplicate_edge, missing_entry, unreachable_nodes, no_path_to_end,
  check_edges, fail_if, check_cycle, check_duplicate, has_start_edge, check_reachability, validate,
  detect_unreachable_nodes, detect_no_path_to_end, missing_entry, unreachable_nodes, no_path_to_end,
}
use weavegraph.Graph.Compile.Known.{AreKnown, check_edges-ok, check_duplicate-ok}
use weavegraph.Graph.Compile.Reachable.{
  reported_or_Walk, reported_or_Walk_to_end, detect_unreachable_nodes-exact,
  detect_no_path_to_end-exact,
}

-- A list that is reported is empty when no node meets its condition.
empty_of : (ns : List NodeKind) → ((n : NodeKind) → ¬ In n ns) → is_empty ns ≡ true
empty_of [] h = refl
empty_of (n ∷ ns) h = absurd (h n (inl refl))

not_empty_of_in : (n : NodeKind) (ns : List NodeKind) → In n ns → not (is_empty ns) ≡ true
not_empty_of_in n [] i = absurd i
not_empty_of_in n (m ∷ ns) i = refl

not_in_empty : (ns : List NodeKind) → is_empty ns ≡ true → (n : NodeKind) → ¬ In n ns
not_in_empty [] e n i = i
not_in_empty (m ∷ ns) e n i = cc

fail_if-ok : (b : Bool) (e : GraphCompileError) → (fail_if (not b) e ≡ ok tt) ↔ (b ≡ true)
fail_if-ok true e = (λ h. refl, λ h. refl)
fail_if-ok false e = (λ h. cc, λ h. cc)

check_outcome :
    (edges : Edges) (r : Outcome)
    → Decided edges r
    → (check_cycle r ≡ ok tt) ↔ ((n : NodeKind) → ¬ OnCycle edges n)
unfolding check_cycle
check_outcome edges (found cycle) (n, rest, e, links) =
    (λ h. cc, λ acyclic. absurd (acyclic n (IsCycle-OnCycle edges n rest links)))
check_outcome edges (done s) acyclic = (λ h. acyclic, λ h. refl)
check_outcome edges out_of_fuel h = absurd h

check_cycle-ok :
    (order : List NodeKind → List NodeKind) (edges : Edges)
    → Covers order
    → (check_cycle (detect_cycle order edges) ≡ ok tt) ↔ ((n : NodeKind) → ¬ OnCycle edges n)
check_cycle-ok order edges covers =
    check_outcome edges (detect_cycle order edges) (detect_cycle-Decided order edges covers)

or_true : (b : Bool) → (b || true) ≡ true
or_true true = refl
or_true false = refl

any-from :
    {P : Type 0} (ces : List (ConditionalEdge P)) (n : NodeKind)
    → (any (λ ce. ce.from == n) ces ≡ true) ↔ ((ce : ConditionalEdge P) × In ce ces × (ce.from ≡ n))
any-from {P} [] n = (λ e. cc, λ h. absurd h.1)
any-from {P} (c ∷ ces) n = elim (NodeKind-key.eq? c.from n) [
  | yes e ↦ (λ h. (c, inl refl, e), λ h. ground arith)
  | no other ↦
      let rest = any-from ces n in
      (
        λ h. let (ce, i, e) = rest.0 (ground arith) in (ce, inr i, e),
        λ (ce, i, e). elim i [
          | inl same ↦ absurd (other (ap (λ (x : ConditionalEdge P). x.from) same ∙ e))
          | inr j ↦ ground (arith, rest.1 (ce, j, e))
        ],
      )
]

all_reachable :
    (nodes : List NodeKind) (edges : Edges)
    → is_empty (detect_unreachable_nodes nodes edges) ≡ true
    → (n : NodeKind) → In n nodes
    → Walk edges start n
all_reachable nodes edges e n i = elim (reported_or_Walk nodes edges n i) [
  | inl reported ↦ absurd (not_in_empty _ e n reported)
  | inr w ↦ w
]

all_reach_end :
    (nodes : List NodeKind) (edges : Edges)
    → IsMap edges
    → is_empty (detect_no_path_to_end nodes edges) ≡ true
    → (n : NodeKind) → In n nodes
    → Walk edges n end
all_reach_end nodes edges h e n i = elim (reported_or_Walk_to_end nodes edges n h i) [
  | inl reported ↦ absurd (not_in_empty _ e n reported)
  | inr w ↦ w
]

module _ {N P C R : Type 0} where
  -- A conditional edge from Start, or an unconditional one.
  abbrev pub HasEntry : GraphBuilder N P C R → Type 0
  HasEntry b =
      ((n : NodeKind) × Edge b.edges start n)
      ⊎ ((ce : ConditionalEdge P) × In ce b.conditional_edges × (ce.from ≡ start))

  -- The rules of `validate`.
  pub record IsWellFormed (b : GraphBuilder N P C R) : Type 0 where
    pub entry : HasEntry b
    pub acyclic : (n : NodeKind) → ¬ OnCycle b.edges n
    pub on_walk :
        b.conditional_edges ≡ []
        → (n : NodeKind) → In n (keys b.nodes)
        → Walk b.edges start n × Walk b.edges n end
    pub distinct : (n : NodeKind) → IsDistinct (targets b.edges n)
    pub known : AreKnown (keys b.nodes) b.edges

  has_start_edge-true : (b : GraphBuilder N P C R) → (has_start_edge b ≡ true) ↔ HasEntry b
  unfolding has_start_edge
  has_start_edge-true b =
      let conditional = any-from b.conditional_edges start in
      (
        λ e. elim (List-cases (targets b.edges start)) [
          | inl no_target ↦
              inr (conditional.0 (ground (arith, ap (λ l. not (is_empty l)) no_target)))
          | inr (n, rest, some_targets) ↦ inl (n, rw some_targets (inl refl))
        ],
        elim [
          | inl (n, i) ↦ rw (not_empty_of_in n (targets b.edges start) i)
          | inr ce ↦ rw (conditional.1 ce) (or_true _)
        ],
      )

  check_reachability-ok :
      (b : GraphBuilder N P C R)
      → IsMap b.edges
      → (check_reachability b ≡ ok tt) ↔ (
          b.conditional_edges ≡ []
          → (n : NodeKind) → In n (keys b.nodes)
          → Walk b.edges start n × Walk b.edges n end)
  unfolding check_reachability
  check_reachability-ok b h = elim (List-cases b.conditional_edges) [
    | inl unconditional ↦
        let both =
          >>-eq-ok
            (fail_if (not (is_empty (detect_unreachable_nodes (keys b.nodes) b.edges)))
              (unreachable_nodes (detect_unreachable_nodes (keys b.nodes) b.edges)))
            (fail_if (not (is_empty (detect_no_path_to_end (keys b.nodes) b.edges)))
              (no_path_to_end (detect_no_path_to_end (keys b.nodes) b.edges))) in
        let from_start =
          fail_if-ok (is_empty (detect_unreachable_nodes (keys b.nodes) b.edges)) _ in
        let to_end = fail_if-ok (is_empty (detect_no_path_to_end (keys b.nodes) b.edges)) _ in
        rw (unconditional, check_reachability)
          (
            λ e _ n i. (
              all_reachable (keys b.nodes) b.edges (from_start.0 (both.0 e).0) n i,
              all_reach_end (keys b.nodes) b.edges h (to_end.0 (both.0 e).1) n i,
            ),
            λ k. both.1 (
              from_start.1 (
                  empty_of (detect_unreachable_nodes (keys b.nodes) b.edges) λ n i.
                    let (known, no_walk) =
                      (detect_unreachable_nodes-exact (keys b.nodes) b.edges n).0 i in
                    no_walk (k refl n known).0),
              to_end.1 (
                  empty_of (detect_no_path_to_end (keys b.nodes) b.edges) λ n i.
                    let (known, no_walk) =
                      (detect_no_path_to_end-exact (keys b.nodes) b.edges n h).0 i in
                    no_walk (k refl n known).1),
            ),
          )
    | inr (ce, ces, some_edges) ↦ rw (some_edges, check_reachability) (λ e none. cc, λ k. refl)
  ]

  -- `validate` accepts a graph if and only if it is well formed: there is an edge or a conditional
  -- edge from Start, no cycle, no target twice under one source, every endpoint is virtual or
  -- registered, End is no source, and, if there are no conditional edges, each registered node
  -- lies on a walk from Start and on a walk to End. The edges are those of a map, in which a
  -- source stands once, and `order` lists the keys that it is given.
  pub validate-IsWellFormed :
      (order : List NodeKind → List NodeKind) (b : GraphBuilder N P C R)
      → Covers order
      → IsMap b.edges
      → (validate order b ≡ ok tt) ↔ IsWellFormed b
  unfolding validate
  validate-IsWellFormed order b covers h =
      let entry = has_start_edge-true b in
      let cycle = check_cycle-ok order b.edges covers in
      let reach = check_reachability-ok b h in
      let distinct = check_duplicate-ok b.edges h in
      let known = check_edges-ok (keys b.nodes) b.edges h in
      let rule_6 =
        >>-eq-ok (check_duplicate (detect_duplicate_edge b.edges))
          (check_edges (keys b.nodes) b.edges) in
      let rule_5 = >>-eq-ok (check_reachability b) _ in
      let rule_3 = >>-eq-ok (check_cycle (detect_cycle order b.edges)) _ in
      let rule_2 = >>-eq-ok (fail_if (not (has_start_edge b)) missing_entry) _ in
      let rule_1 = fail_if-ok (has_start_edge b) missing_entry in
      (
        λ e.
            let (one, e2) = rule_2.0 e in
            let (two, e3) = rule_3.0 e2 in
            let (three, e5) = rule_5.0 e3 in
            let (five, six) = rule_6.0 e5 in
            record {
              entry = entry.0 (rule_1.0 one);
              acyclic = cycle.0 two;
              on_walk = reach.0 three;
              distinct = distinct.0 five;
              known = known.0 six;
            },
        λ k. rule_2.1 (
          rule_1.1 (entry.1 k.entry),
          rule_3.1 (
            cycle.1 k.acyclic,
            rule_5.1 (reach.1 k.on_walk, rule_6.1 (distinct.1 k.distinct, known.1 k.known)),
          ),
        ),
      )
