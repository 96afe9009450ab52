-- ===== src/Base/Distinct.antt =====
-- Lists in which no element stands twice.
use Prim.Native.Nat.{◌+◌, ◌≤◌}
use mathlib.Core.Path.{◌≡◌, refl}
use mathlib.Core.Logic.{inl, inr}
use mathlib.Core.Bool.{Bool}
use mathlib.Core.List.{List, [], ◌∷◌, ◌++◌}
use native.Mathlib.Omega.{arith}
use weavegraph.Base.Tests.{if◌then◌else◌, Key, ◌==◌}
use weavegraph.Base.Lists.{In, IsDistinct, length, in-append, in-append_left, in-append_right}
use weavegraph.Base.Sort.{sort, insert, in-sort, in-insert}

module _ {A : Type 0} where
  pub IsDistinct-append :
      (xs ys : List A)
      → IsDistinct xs
      → IsDistinct ys
      → ((a : A) → In a xs → ¬ In a ys)
      → IsDistinct (xs ++ ys)
  IsDistinct-append [] ys h k apart = k
  IsDistinct-append (x ∷ xs) ys h k apart = (
    λ i. elim (in-append x xs ys i) [ inl j ↦ h.0 j | inr j ↦ apart x (inl refl) j ],
    IsDistinct-append xs ys h.1 k (λ a i. apart a (inr i)),
  )

  -- No element of the first part stands in the second.
  pub IsDistinct-apart : (xs ys : List A) → IsDistinct (xs ++ ys) → (a : A) → In a xs → ¬ In a ys
  IsDistinct-apart [] ys h a i j = i
  IsDistinct-apart (x ∷ xs) ys h a i j =
      ground (arith, IsDistinct-apart xs ys h.1 a, in-append_right a xs ys)

  pub IsDistinct-append_left : (xs ys : List A) → IsDistinct (xs ++ ys) → IsDistinct xs
  IsDistinct-append_left [] ys h = tt
  IsDistinct-append_left (x ∷ xs) ys h =
      ground (arith, IsDistinct-append_left xs ys, in-append_left x xs ys)

  module _ (before : A → A → Bool) where
    insert-IsDistinct :
        (x : A) (ys : List A) → ¬ In x ys → IsDistinct ys → IsDistinct (insert before x ys)
    unfolding insert
    insert-IsDistinct x [] new h = ground arith
    insert-IsDistinct x (y ∷ ys) new h =
        ground (arith, insert-IsDistinct x ys, in-insert before x y ys)

    pub sort-IsDistinct : (xs : List A) → IsDistinct xs → IsDistinct (sort before xs)
    unfolding sort
    sort-IsDistinct [] h = tt
    sort-IsDistinct (x ∷ xs) h =
        insert-IsDistinct x (sort before xs) (λ i. h.0 (in-sort before x xs i))
          (sort-IsDistinct xs h.1)

  module _ ⦃key : Key A⦄ where
    without : A → List A → List A
    without a [] = []
    without a (x ∷ xs) = let rest = without a xs in if x == a then rest else x ∷ rest

    in-without : (a b : A) (xs : List A) → In b xs → ¬ (a ≡ b) → In b (without a xs)
    unfolding without
    in-without a b [] i other = i
    in-without a b (x ∷ xs) i other = ground (arith, in-without a b xs)

    length-without_le : (a : A) (xs : List A) → length (without a xs) ≤ length xs
    unfolding without
    length-without_le a [] = omega arith
    length-without_le a (x ∷ xs) = ground (arith, length-without_le a xs)

    length-without : (a : A) (xs : List A) → In a xs → length (without a xs) + 1 ≤ length xs
    unfolding without
    length-without a [] i = absurd i
    length-without a (x ∷ xs) i = ground (arith, length-without a xs, length-without_le a xs)

    -- A list without repetition whose elements all stand in another one is no longer than it.
    pub length-le_of_subset :
        (xs ys : List A) → IsDistinct xs → ((a : A) → In a xs → In a ys) → length xs ≤ length ys
    length-le_of_subset [] ys h sub = omega arith
    length-le_of_subset (x ∷ xs) ys h sub = omega (
      arith,
      length-le_of_subset xs (without x ys) h.1
          (λ a i. in-without x a ys (sub a (inr i)) (λ e. h.0 (rw e i))),
      length-without x ys (sub x (inl refl)),
    )
