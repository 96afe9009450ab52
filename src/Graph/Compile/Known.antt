-- ===== src/Graph/Compile/Known.antt =====
-- The checks of `validate` that look at one edge at a time: duplicates and endpoints.
use weavegraph.Base.{
  IsDistinct, ◌≡◌, refl, ◌⊎◌, ◌↔◌, inl, inr, false, none, List, [], ◌∷◌, In, if◌then◌else◌, ◌==◌,
  arith, contains, contains-in, in-contains, Bool-cases, Option-cases, subst, sym, ◌∙◌,
}
use weavegraph.Base.Map.{get, keys, IsMap}
use weavegraph.Base.Result.{ok, ◌>>◌, >>-eq-ok}
use weavegraph.Kind.{NodeKind, NodeKind-key, start, end, custom}
use weavegraph.Graph.Edges.{Edges, targets, Edge, source-in-keys}
use weavegraph.Graph.Compile.{
  first_duplicate, detect_duplicate_edge, check_known, check_targets, check_source, check_edges,
  check_duplicate,
}
use weavegraph.Graph.Compile.Reachable.{no_targets}

-- A node that an edge may name: a virtual one, or one that is registered.
abbrev pub IsKnown : List NodeKind → NodeKind → Type 0
IsKnown nodes start = Unit
IsKnown nodes end = Unit
IsKnown nodes (custom name) = In (custom name) nodes

not_before : (before : List NodeKind) (n : NodeKind) → contains before n ≡ false → ¬ In n before
not_before before n e i = cc (e, in-contains before n i)

first_duplicate-none :
    (before tos : List NodeKind)
    → (first_duplicate before tos ≡ none)
      ↔ (IsDistinct tos × ((n : NodeKind) → In n tos → ¬ In n before))
unfolding first_duplicate
first_duplicate-none before [] = (λ e. (tt, λ n i. absurd i), λ h. refl)
first_duplicate-none before (to ∷ tos) = elim (Bool-cases (contains before to)) [
  | inl old ↦ rw old (λ e. cc, λ h. absurd (h.1 to (inl refl) (contains-in before to old)))
  | inr new ↦
      let rest = first_duplicate-none (to ∷ before) tos in
      rw new (
        λ e.
            let h = rest.0 e in
            (
              (λ i. h.1 to i (inl refl), h.0),
              λ n i b. elim i [
                | inl same ↦
                    absurd (not_before before to new (subst (λ m. In m before) (sym same) b))
                | inr later ↦ h.1 n later (inr b)
              ],
            ),
        λ h. rest.1 (
          h.0.1,
          λ n i. elim [
            | inl same ↦ h.0.0 (subst (λ m. In m tos) (sym same) i)
            | inr b ↦ h.1 n (inr i) b
          ],
        ),
      )
]

check_known-ok :
    (nodes : List NodeKind) (n : NodeKind) → (check_known nodes n ≡ ok tt) ↔ IsKnown nodes n
unfolding check_known
check_known-ok nodes start = (λ e. tt, λ h. refl)
check_known-ok nodes end = (λ e. tt, λ h. refl)
check_known-ok nodes (custom name) =
    ground (arith, contains-in nodes (custom name), in-contains nodes (custom name))

check_targets-ok :
    (nodes tos : List NodeKind)
    → (check_targets nodes tos ≡ ok tt) ↔ ((n : NodeKind) → In n tos → IsKnown nodes n)
unfolding check_targets
check_targets-ok nodes [] = (λ e n i. absurd i, λ h. refl)
check_targets-ok nodes (to ∷ tos) =
    let both = >>-eq-ok (check_known nodes to) (check_targets nodes tos) in
    (
      λ e n i. elim i [
        | inl same ↦ subst (IsKnown nodes) same ((check_known-ok nodes to).0 (both.0 e).0)
        | inr later ↦ (check_targets-ok nodes tos).0 (both.0 e).1 n later
      ],
      λ h. both.1 (
        (check_known-ok nodes to).1 (h to (inl refl)),
        (check_targets-ok nodes tos).1 (λ n i. h n (inr i)),
      ),
    )

-- A source of edges: End is none, and a custom node is registered.
abbrev pub IsSource : List NodeKind → NodeKind → Type 0
IsSource nodes start = Unit
IsSource nodes end = ⊥
IsSource nodes (custom name) = In (custom name) nodes

check_source-ok :
    (nodes : List NodeKind) (n : NodeKind) → (check_source nodes n ≡ ok tt) ↔ IsSource nodes n
unfolding check_source
check_source-ok nodes start = (λ e. tt, λ h. refl)
check_source-ok nodes end = (λ e. cc, λ h. absurd h)
check_source-ok nodes (custom name) = check_known-ok nodes (custom name)

-- What the last loop asks of the edges.
pub record AreKnown (nodes : List NodeKind) (edges : Edges) : Type 0 where
  pub sources : (n : NodeKind) → In n (keys edges) → IsSource nodes n
  pub targets : (n m : NodeKind) → Edge edges n m → IsKnown nodes m

Edge-cons :
    (from : NodeKind) (tos : List NodeKind) (edges : Edges) (n m : NodeKind)
    → IsMap ((from, tos) ∷ edges)
    → Edge ((from, tos) ∷ edges) n m ↔ ((from ≡ n) × In m tos ⊎ Edge edges n m)
unfolding targets get
Edge-cons from tos edges n m h = ground (arith, source-in-keys edges n m)

pub check_edges-ok :
    (nodes : List NodeKind) (edges : Edges)
    → IsMap edges
    → (check_edges nodes edges ≡ ok tt) ↔ AreKnown nodes edges
unfolding check_edges
check_edges-ok nodes [] h = (
  λ e. record { sources = λ n i. absurd i; targets = λ n m i. absurd (no_targets m n i) },
  λ k. refl,
)
check_edges-ok nodes ((from, tos) ∷ edges) h =
    let outer =
      >>-eq-ok (check_source nodes from) (check_targets nodes tos >> check_edges nodes edges) in
    let inner = >>-eq-ok (check_targets nodes tos) (check_edges nodes edges) in
    let rest = check_edges-ok nodes edges h.1 in
    let source = check_source-ok nodes from in
    let known = check_targets-ok nodes tos in
    (
      λ e.
          let (first_ok, more) = outer.0 e in
          let (tos_ok, edges_ok) = inner.0 more in
          record {
            sources = λ n. elim [
              | inl same ↦ subst (IsSource nodes) same (source.0 first_ok)
              | inr i ↦ (rest.0 edges_ok).sources n i
            ];
            targets = λ n m edge. elim ((Edge-cons from tos edges n m h).0 edge) [
              | inl here ↦ known.0 tos_ok m here.1
              | inr there ↦ (rest.0 edges_ok).targets n m there
            ];
          },
      λ k. outer.1 (
        source.1 (k.sources from (inl refl)),
        inner.1 (
          known.1 (λ m i. k.targets from m ((Edge-cons from tos edges from m h).1 (inl (refl, i)))),
          rest.1 (record {
            sources = λ n i. k.sources n (inr i);
            targets = λ n m i. k.targets n m ((Edge-cons from tos edges n m h).1 (inr i));
          }),
        ),
      ),
    )

targets-cons :
    (from : NodeKind) (tos : List NodeKind) (edges : Edges) (n : NodeKind)
    → targets ((from, tos) ∷ edges) n ≡ (if from == n then tos else targets edges n)
unfolding targets get
targets-cons from tos edges n = ground arith

targets_absent : (edges : Edges) (n : NodeKind) → ¬ In n (keys edges) → targets edges n ≡ []
unfolding targets get
targets_absent [] n h = refl
targets_absent ((from, tos) ∷ edges) n h = ground (arith, targets_absent edges n)

module _ (from : NodeKind) (tos : List NodeKind) (edges : Edges) where
  IsDistinct-cons :
      IsDistinct tos
      → ((n : NodeKind) → IsDistinct (targets edges n))
      → (n : NodeKind) → IsDistinct (targets ((from, tos) ∷ edges) n)
  IsDistinct-cons first rest n = elim (Bool-cases (from == n)) [
    | inl same ↦ rw (targets-cons from tos edges n, same) first
    | inr other ↦ rw (targets-cons from tos edges n, other) (rest n)
  ]

  first-IsDistinct : IsDistinct (targets ((from, tos) ∷ edges) from) → IsDistinct tos
  first-IsDistinct h = subst IsDistinct (targets-cons from tos edges from ∙ here) h
    where
      here : (if from == from then tos else targets edges from) ≡ tos
      here = ground arith

  rest-IsDistinct :
      ¬ In from (keys edges)
      → (n : NodeKind) → IsDistinct (targets ((from, tos) ∷ edges) n)
      → IsDistinct (targets edges n)
  rest-IsDistinct new n h = elim (NodeKind-key.eq? from n) [
    | yes same ↦ rw (targets_absent edges n (subst (λ m. ¬ In m (keys edges)) same new)) tt
    | no other ↦ subst IsDistinct (targets-cons from tos edges n ∙ elsewhere n other) h
  ]
    where
      elsewhere :
          (n : NodeKind)
          → ¬ (from ≡ n)
          → (if from == n then tos else targets edges n) ≡ targets edges n
      elsewhere n other = ground arith

pub check_duplicate-ok :
    (edges : Edges)
    → IsMap edges
    → (check_duplicate (detect_duplicate_edge edges) ≡ ok tt)
      ↔ ((n : NodeKind) → IsDistinct (targets edges n))
unfolding check_duplicate detect_duplicate_edge
check_duplicate-ok [] h = (λ e n. rw (targets_absent [] n (λ i. i)) tt, λ k. refl)
check_duplicate-ok ((from, tos) ∷ edges) h =
    let rest = check_duplicate-ok edges h.1 in
    let first = first_duplicate-none [] tos in
    elim (Option-cases (first_duplicate [] tos)) [
      | inl none_twice ↦
          rw (none_twice, detect_duplicate_edge)
            (
              λ e. IsDistinct-cons from tos edges (first.0 none_twice).0 (rest.0 e),
              λ k. rest.1 (λ n. rest-IsDistinct from tos edges h.0 n (k n)),
            )
      | inr (to, twice) ↦
          rw (twice, detect_duplicate_edge)
            (
              λ e. cc,
              λ k. cc (twice, first.1 (first-IsDistinct from tos edges (k from), λ n i b. b)),
            )
    ]
