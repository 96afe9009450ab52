-- ===== src/Barrier/Sorted.antt =====
-- The order in which `apply_barrier` of src/app.rs puts the errors of a superstep.
use Prim.Native.Nat.{compare, Ordering}
use Prim.Native.String.{compare as compare_str, then as or_then}
use weavegraph.Base.{◌<◌, ◌≡◌, ◌⊎◌, sym, ap, ◌∙◌, inl, inr, true, false, List, filter}
use weavegraph.Base.Order.{
  is_not_greater, reverse, reverse-then, reverse_total, compare-IsLawful, compare_str-IsLawful,
  then_trans, then_cases, compare_lt, compare_eq,
}
use weavegraph.Base.Sort.{
  sort, IsOrdered, IsOrdered-of, sort-IsOrdered, ties, sort_stable, sort-perm,
}
use mathlib.Core.List.{Perm}
use weavegraph.State.{ErrorEvent, error_message}
use weavegraph.Barrier.{scope_rank, scope_name, scope_step, error_le}

reversed :
    (o o' p p' : Ordering) → o' ≡ reverse o → p' ≡ reverse p → or_then o' p' ≡ reverse (or_then o p)
reversed o o' p p' e f = rw (e, f) (sym (reverse-then o p))

not_greater : (o : Ordering) → is_not_greater o ≡ true → ¬ (o ≡ Ordering.gt)
not_greater o h e = let no = sym (ap is_not_greater e) ∙ h in cc

module _ {V : Type 0} where
  -- An error comes before another by the rank of its scope; in one rank by the name of the scope;
  -- then by its step, by its time, and by its message.
  abbrev pub ComesFirst : ErrorEvent V → ErrorEvent V → Type 0
  ComesFirst a b =
      (scope_rank a.scope < scope_rank b.scope)
      ⊎ ((scope_rank a.scope ≡ scope_rank b.scope)
          × ((compare_str (scope_name a.scope) (scope_name b.scope) ≡ Ordering.lt)
              ⊎ ((compare_str (scope_name a.scope) (scope_name b.scope) ≡ Ordering.eq)
                  × ((scope_step a.scope < scope_step b.scope)
                      ⊎ ((scope_step a.scope ≡ scope_step b.scope)
                          × ((a.when < b.when)
                              ⊎ ((a.when ≡ b.when)
                                  × ¬ (
                                      compare_str (error_message a.error) (error_message b.error)
                                      ≡ Ordering.gt))))))))

  -- The comparison of the sort.
  abbrev error_cmp : ErrorEvent V → ErrorEvent V → Ordering
  error_cmp a b = or_then (compare (scope_rank a.scope) (scope_rank b.scope)) (
      or_then (compare_str (scope_name a.scope) (scope_name b.scope)) (
        or_then (compare (scope_step a.scope) (scope_step b.scope)) (
          or_then (compare a.when b.when)
            (compare_str (error_message a.error) (error_message b.error)))))

  error_cmp_swap : (a b : ErrorEvent V) → error_cmp b a ≡ reverse (error_cmp a b)
  error_cmp_swap a b =
      reversed _ _ _ _ (compare-IsLawful.0 (scope_rank a.scope) (scope_rank b.scope)) (
        reversed _ _ _ _ (compare_str-IsLawful.0 (scope_name a.scope) (scope_name b.scope)) (
          reversed _ _ _ _ (compare-IsLawful.0 (scope_step a.scope) (scope_step b.scope)) (
            reversed _ _ _ _ (compare-IsLawful.0 a.when b.when)
              (compare_str-IsLawful.0 (error_message a.error) (error_message b.error)))))

  error_le_total : (a b : ErrorEvent V) → error_le a b ≡ false → error_le b a ≡ true
  unfolding error_le
  error_le_total a b h = ap is_not_greater (error_cmp_swap a b) ∙ reverse_total (error_cmp a b) h

  error_le_trans :
      (a b c : ErrorEvent V) → error_le a b ≡ true → error_le b c ≡ true → error_le a c ≡ true
  unfolding error_le
  error_le_trans a b c =
      then_trans compare (scope_rank a.scope) (scope_rank b.scope) (scope_rank c.scope) _ _ _
        compare-IsLawful
        (then_trans compare_str (scope_name a.scope) (scope_name b.scope) (scope_name c.scope) _ _ _
          compare_str-IsLawful
          (then_trans compare (scope_step a.scope) (scope_step b.scope) (scope_step c.scope) _ _ _
            compare-IsLawful
            (then_trans compare a.when b.when c.when _ _ _ compare-IsLawful (
              compare_str-IsLawful.1 (error_message a.error) (error_message b.error)
                (error_message c.error)))))

  error_le-ComesFirst : (a b : ErrorEvent V) → error_le a b ≡ true → ComesFirst a b
  unfolding error_le
  error_le-ComesFirst a b h =
      elim (then_cases (compare (scope_rank a.scope) (scope_rank b.scope)) _ h) [
        | inl less ↦ inl (compare_lt (scope_rank a.scope) (scope_rank b.scope) less)
        | inr (same, h1) ↦ inr (
          compare_eq (scope_rank a.scope) (scope_rank b.scope) same,
          elim (then_cases (compare_str (scope_name a.scope) (scope_name b.scope)) _ h1) [
            | inl less ↦ inl less
            | inr (same, h2) ↦ inr (same, by_step a b h2)
          ],
        )
      ]
    where
      by_step :
          (a b : ErrorEvent V)
          → is_not_greater (
              or_then (compare (scope_step a.scope) (scope_step b.scope)) (
                or_then
                  (compare a.when b.when)
                  (compare_str (error_message a.error) (error_message b.error))))
            ≡ true
          → (scope_step a.scope < scope_step b.scope)
            ⊎ ((scope_step a.scope ≡ scope_step b.scope)
                × ((a.when < b.when)
                    ⊎ ((a.when ≡ b.when)
                        × ¬ (
                            compare_str (error_message a.error) (error_message b.error)
                            ≡ Ordering.gt))))
      by_step a b h = elim (then_cases (compare (scope_step a.scope) (scope_step b.scope)) _ h) [
        | inl less ↦ inl (compare_lt (scope_step a.scope) (scope_step b.scope) less)
        | inr (same, h1) ↦ inr (
          compare_eq (scope_step a.scope) (scope_step b.scope) same,
          elim (then_cases (compare a.when b.when) _ h1) [
            | inl less ↦ inl (compare_lt a.when b.when less)
            | inr (same, h2) ↦ inr (compare_eq a.when b.when same, not_greater _ h2)
          ],
        )
      ]

  -- A list of errors that is put in order: each as often as before, and those that are equal in all
  -- that the order compares in the order that they had.
  abbrev pub IsSorting : List (ErrorEvent V) → List (ErrorEvent V) → Type 0
  IsSorting errors sorted =
      Perm sorted errors
      × IsOrdered ComesFirst sorted
      × ((e : ErrorEvent V) → filter (ties error_le e) sorted ≡ filter (ties error_le e) errors)

  pub sort-IsSorting : (errors : List (ErrorEvent V)) → IsSorting errors (sort error_le errors)
  sort-IsSorting errors = (
    sort-perm error_le errors,
    IsOrdered-of (λ a b. error_le a b ≡ true) ComesFirst (sort error_le errors)
        (λ a b i j. error_le-ComesFirst a b)
        (sort-IsOrdered error_le error_le_total error_le_trans errors),
    λ e. sort_stable error_le error_le_total error_le_trans e errors,
  )
