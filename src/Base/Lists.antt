-- ===== src/Base/Lists.antt =====
-- Lists over the native numbers, under the library's names, and membership by recursion.
use Prim.Native.Nat.{ℕ, zero, suc, ◌+◌}
use mathlib.Core.Path.{◌≡◌, refl, ap}
use mathlib.Core.Logic.{◌⊎◌, inl, inr}
use mathlib.Core.Bool.{Bool, true, false}
use mathlib.Core.Option.{Option, none, some}
use mathlib.Core.List.{List, [], ◌∷◌, ◌++◌}
use native.Mathlib.Omega.{arith}
use weavegraph.Base.Tests.{if◌then◌else◌, Key, ◌==◌}

module _ {ℓ} {A : Type ℓ} where
  abbrev pub length : List A → ℕ
  length [] = 0
  length (x ∷ xs) = suc (length xs)

  abbrev pub is_empty : List A → Bool
  is_empty [] = true
  is_empty (x ∷ xs) = false

  abbrev pub drop : ℕ → List A → List A
  drop zero xs = xs
  drop (suc n) [] = []
  drop (suc n) (x ∷ xs) = drop n xs

  abbrev pub get_elem? : List A → ℕ → Option A
  get_elem? [] i = none
  get_elem? (x ∷ xs) zero = some x
  get_elem? (x ∷ xs) (suc i) = get_elem? xs i

  -- `Vec::pop`, without the value that it returns.
  abbrev pub drop_last : List A → List A
  drop_last [] = []
  drop_last (x ∷ []) = []
  drop_last (x ∷ y ∷ xs) = x ∷ drop_last (y ∷ xs)

  abbrev pub any : (A → Bool) → List A → Bool
  any p [] = false
  any p (x ∷ xs) = if p x then true else any p xs

  abbrev pub all : (A → Bool) → List A → Bool
  all p [] = true
  all p (x ∷ xs) = if p x then all p xs else false

  abbrev pub filter : (A → Bool) → List A → List A
  filter p [] = []
  filter p (x ∷ xs) = let rest = filter p xs in if p x then x ∷ rest else rest

  abbrev pub find : (A → Bool) → List A → Option A
  find p [] = none
  find p (x ∷ xs) = if p x then some x else find p xs

  abbrev pub All {κ} : (A → Type κ) → List A → Type κ
  All P [] = Unit
  All P (x ∷ xs) = P x × All P xs

  -- To split on a computed list and keep the equation.
  pub List-cases : (xs : List A) → (xs ≡ []) ⊎ ((x : A) × (rest : List A) × (xs ≡ x ∷ rest))
  List-cases [] = inl refl
  List-cases (x ∷ xs) = inr (x, xs, refl)

  pub length-append : (xs ys : List A) → length (xs ++ ys) ≡ length xs + length ys
  length-append [] ys = omega arith
  length-append (x ∷ xs) ys = omega (arith, length-append xs ys)

  pub drop_last-concat : (xs : List A) (a : A) → drop_last (xs ++ a ∷ []) ≡ xs
  drop_last-concat [] a = refl
  drop_last-concat (x ∷ []) a = refl
  drop_last-concat (x ∷ y ∷ xs) a = ap (λ l. x ∷ l) (drop_last-concat (y ∷ xs) a)

  module _ ⦃key : Key A⦄ where
    -- `contains` of slices and vectors.
    abbrev pub contains : List A → A → Bool
    contains [] a = false
    contains (x ∷ xs) a = if x == a then true else contains xs a

    -- `iter().position(|n| n == a)`.
    abbrev pub position : A → List A → Option ℕ
    position a [] = none
    position a (x ∷ xs) =
        if x == a then some 0 else elim (position a xs) [ none ↦ none | some i ↦ some (suc i) ]

module _ {A : Type 0} where
  -- `a` stands in the list.
  abbrev pub In : A → List A → Type 0
  In a [] = ⊥
  In a (x ∷ xs) = (x ≡ a) ⊎ In a xs

  pub in-append : (a : A) (xs ys : List A) → In a (xs ++ ys) → In a xs ⊎ In a ys
  in-append a [] ys h = inr h
  in-append a (x ∷ xs) ys h = ground (arith, in-append a xs ys)

  pub in-append_left : (a : A) (xs ys : List A) → In a xs → In a (xs ++ ys)
  in-append_left a [] ys h = absurd h
  in-append_left a (x ∷ xs) ys h = ground (arith, in-append_left a xs ys)

  pub in-append_right : (a : A) (xs ys : List A) → In a ys → In a (xs ++ ys)
  in-append_right a [] ys h = h
  in-append_right a (x ∷ xs) ys h = inr (in-append_right a xs ys h)

  pub in-concat_self : (a : A) (xs : List A) → In a (xs ++ a ∷ [])
  in-concat_self a xs = in-append_right a xs (a ∷ []) (inl refl)

  pub in-filter : (p : A → Bool) (a : A) (xs : List A) → In a (filter p xs) → In a xs × (p a ≡ true)
  in-filter p a [] h = absurd h
  in-filter p a (x ∷ xs) h = ground (arith, in-filter p a xs)

  pub in-filter_of :
      (p : A → Bool) (a : A) (xs : List A) → In a xs → p a ≡ true → In a (filter p xs)
  in-filter_of p a [] h e = absurd h
  in-filter_of p a (x ∷ xs) h e = ground (arith, in-filter_of p a xs)

  pub All-in {κ} : (P : A → Type κ) (xs : List A) → All P xs → (a : A) → In a xs → P a
  All-in P [] h a m = absurd m
  All-in P (x ∷ xs) h a (inl e) = rw (← e) h.0
  All-in P (x ∷ xs) h a (inr m) = All-in P xs h.1 a m

  -- No element stands twice.
  abbrev pub IsDistinct : List A → Type 0
  IsDistinct [] = Unit
  IsDistinct (x ∷ xs) = (¬ In x xs) × IsDistinct xs

  pub IsDistinct-concat :
      (xs : List A) (a : A) → IsDistinct xs → ¬ In a xs → IsDistinct (xs ++ a ∷ [])
  IsDistinct-concat [] a h new = (λ i. i, tt)
  IsDistinct-concat (x ∷ xs) a h new =
      ground (arith, IsDistinct-concat xs a h.1, in-append x xs (a ∷ []))

  module _ ⦃key : Key A⦄ where
    pub contains-in : (xs : List A) (a : A) → contains xs a ≡ true → In a xs
    contains-in [] a h = cc
    contains-in (x ∷ xs) a h = ground (arith, contains-in xs a)

    pub in-contains : (xs : List A) (a : A) → In a xs → contains xs a ≡ true
    in-contains [] a h = absurd h
    in-contains (x ∷ xs) a h = ground (arith, in-contains xs a)

    pub position-in : (a : A) (xs : List A) → In a xs → (i : ℕ) × (position a xs ≡ some i)
    position-in a [] h = absurd h
    position-in a (x ∷ xs) h = elim (key.eq? x a) [
      | yes e ↦ (0, ground arith)
      | no other ↦ let (i, e) = position-in a xs (ground arith) in (suc i, ground arith)
    ]

    pub drop-position :
        (a : A) (xs : List A) (i : ℕ)
        → position a xs ≡ some i
        → (rest : List A) × (drop i xs ≡ a ∷ rest)
    drop-position a [] i h = cc
    drop-position a (x ∷ xs) zero h = (xs, ground arith)
    drop-position a (x ∷ xs) (suc i) h = drop-position a xs i (ground arith)
