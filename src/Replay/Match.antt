-- ===== src/Replay/Match.antt =====
-- When two sequences of events match.
use weavegraph.Base.{
  ℕ, ℕ-key, suc, ◌≡◌, refl, sym, ap, ◌∙◌, ◌↔◌, inl, inr, true, false, List, [], ◌∷◌, ◌++◌, map,
  length, is_empty, if◌then◌else◌, ◌==◌, Key, same-test, test-same, Bool-cases, arith,
}
use weavegraph.Replay.{
  Difference, matched, with_differences, is_match, same_values, first_difference,
  compare_event_sequences_with, event_count_differs, event_differs,
}

module _ {W : Type 0} ⦃key : Key W⦄ where
  same_values-eq : (xs ys : List W) → same_values xs ys ≡ true → xs ≡ ys
  same_values-eq [] [] h = refl
  same_values-eq [] (y ∷ ys) h = cc
  same_values-eq (x ∷ xs) [] h = cc
  same_values-eq (x ∷ xs) (y ∷ ys) h = elim (Bool-cases (x == y)) [
    | inl same ↦
        let rest = same_values-eq xs ys (rw same at h) in let head = same-test x y same in cc
    | inr other ↦ let no : false ≡ true = rw other at h in absurd cc
  ]

  same_values_refl : (xs : List W) → same_values xs xs ≡ true
  same_values_refl [] = refl
  same_values_refl (x ∷ xs) = rw (test-same x x refl) (same_values_refl xs)

  first_difference-eq :
      (index : ℕ) (xs ys : List W)
      → length xs ≡ length ys
      → first_difference index xs ys ≡ []
      → xs ≡ ys
  first_difference-eq index [] [] e h = refl
  first_difference-eq index [] (y ∷ ys) e h = absurd (omega arith)
  first_difference-eq index (x ∷ xs) [] e h = absurd (omega arith)
  first_difference-eq index (x ∷ xs) (y ∷ ys) e h = elim (Bool-cases (x == y)) [
    | inl same ↦
        let rest = first_difference-eq (suc index) xs ys (omega arith) (rw same at h) in
        let head = same-test x y same in cc
    | inr other ↦
        let no : ◌≡◌ {A = List (Difference W)} (event_differs index x y ∷ []) [] = rw other at h in
        absurd cc
  ]

  is_empty-nil : (ds : List (Difference W)) → is_empty ds ≡ true → ds ≡ []
  is_empty-nil [] h = refl
  is_empty-nil (d ∷ ds) h = cc

  from_match :
      (xs ys : List W)
      → is_match (
          if same_values xs ys
          then matched
          else with_differences (
              (if length xs == length ys
                then []
                else event_count_differs (length xs) (length ys) ∷ [])
              ++ first_difference 0 xs ys))
        ≡ true
      → xs ≡ ys
  unfolding is_match with_differences
  from_match xs ys h = elim (Bool-cases (same_values xs ys)) [
    | inl same ↦ same_values-eq xs ys same
    | inr differ ↦ elim (Bool-cases (length xs == length ys)) [
      | inl even ↦
          first_difference-eq 0 xs ys (same-test (length xs) (length ys) even)
            (is_empty-nil (first_difference 0 xs ys) (rw (differ, even) at h))
      | inr uneven ↦ let no : false ≡ true = rw (differ, uneven) at h in absurd cc
    ]
  ]

  -- Two sequences of events match just when their normalised values are the same.
  pub compare_event_sequences_with-is_match :
      {E : Type 0} (left right : List E) (normalizer : E → W)
      → (is_match (compare_event_sequences_with left right normalizer) ≡ true)
        ↔ (map normalizer left ≡ map normalizer right)
  unfolding compare_event_sequences_with is_match matched with_differences
  compare_event_sequences_with-is_match left right normalizer =
      (λ h. from_match (map normalizer left) (map normalizer right) h, λ e. rw (alike e) refl)
    where
      alike :
          map normalizer left ≡ map normalizer right
          → same_values (map normalizer left) (map normalizer right) ≡ true
      alike e =
          ap (same_values (map normalizer left)) (sym e) ∙ same_values_refl (map normalizer left)
