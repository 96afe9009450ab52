-- ===== src/Base/Sort.antt =====
-- `slice::sort_by`: a stable sort, here by insertion.
use mathlib.Core.Path.{◌≡◌, refl, sym, ap, subst, ◌∙◌}
use mathlib.Core.Logic.{◌⊎◌, inl, inr}
use mathlib.Core.Bool.{Bool, true, false, ◌&&◌}
use mathlib.Core.List.{List, [], ◌∷◌, Perm}
use mathlib.Core.List.Perm
use native.Mathlib.Omega.{arith}
use weavegraph.Base.Tests.{if◌then◌else◌, Bool-cases}
use weavegraph.Base.Lists.{In, filter}

module _ {ℓ} {A : Type ℓ} (before : A → A → Bool) where
  unfoldable pub insert : A → List A → List A
  insert x [] = x ∷ []
  insert x (y ∷ ys) = if before x y then x ∷ y ∷ ys else y ∷ insert x ys

  unfoldable pub sort : List A → List A
  unfolding insert
  sort [] = []
  sort (x ∷ xs) = insert x (sort xs)

  insert-perm : (x : A) (ys : List A) → Perm (insert x ys) (x ∷ ys)
  unfolding insert
  insert-perm x [] = Perm.refl (x ∷ [])
  insert-perm x (y ∷ ys) =
      elim (before x y) as (λ b. Perm (if b then x ∷ y ∷ ys else y ∷ insert x ys) (x ∷ y ∷ ys)) [
        | true ↦ Perm.refl (x ∷ y ∷ ys)
        | false ↦ Perm.trans (Perm.cons y (insert-perm x ys)) (Perm.swap x y ys)
      ]

  -- A sort only reorders.
  pub sort-perm : (xs : List A) → Perm (sort xs) xs
  unfolding sort
  sort-perm [] = Perm.refl []
  sort-perm (x ∷ xs) = Perm.trans (insert-perm x (sort xs)) (Perm.cons x (sort-perm xs))

module _ {A : Type 0} (before : A → A → Bool) where
  pub in-insert : (x a : A) (ys : List A) → In a (insert before x ys) → (x ≡ a) ⊎ In a ys
  unfolding insert
  in-insert x a [] i = ground arith
  in-insert x a (y ∷ ys) i = ground (arith, in-insert x a ys)

  in-insert_of : (x a : A) (ys : List A) → (x ≡ a) ⊎ In a ys → In a (insert before x ys)
  unfolding insert
  in-insert_of x a [] i = ground arith
  in-insert_of x a (y ∷ ys) i = ground (arith, in-insert_of x a ys)

  pub in-sort : (a : A) (xs : List A) → In a (sort before xs) → In a xs
  unfolding sort
  in-sort a [] i = i
  in-sort a (x ∷ xs) i = ground (arith, in-sort a xs, in-insert x a (sort before xs))

  pub in-sort_of : (a : A) (xs : List A) → In a xs → In a (sort before xs)
  unfolding sort
  in-sort_of a [] i = i
  in-sort_of a (x ∷ xs) i = ground (arith, in-sort_of a xs, in-insert_of x a (sort before xs))

-- Every element stands in the relation to all that follow it.
abbrev pub IsOrdered {ℓ} : {A : Type 0} → (A → A → Type ℓ) → List A → Type ℓ
IsOrdered R [] = Unit
IsOrdered R (x ∷ xs) = ((y : _) → In y xs → R x y) × IsOrdered R xs

pub IsOrdered-of :
    {A : Type 0} (R S : A → A → Type 0) (xs : List A)
    → ((a b : A) → In a xs → In b xs → R a b → S a b)
    → IsOrdered R xs
    → IsOrdered S xs
IsOrdered-of R S [] f h = tt
IsOrdered-of R S (x ∷ xs) f (first, rest) = (
  λ y i. f x y (inl refl) (inr i) (first y i),
  IsOrdered-of R S xs (λ a b i j. f a b (inr i) (inr j)) rest,
)

-- Neither of the two is after the other.
abbrev pub ties : {A : Type 0} → (A → A → Bool) → A → A → Bool
ties before a b = before a b && before b a

-- A sort by a total and transitive test orders, and keeps the order of those that tie.
module _ {A : Type 0} (before : A → A → Bool)
    (total : (a b : A) → before a b ≡ false → before b a ≡ true)
    (transitive : (a b c : A) → before a b ≡ true → before b c ≡ true → before a c ≡ true) where
  insert-IsOrdered :
      (x : A) (ys : List A)
      → IsOrdered (λ a b. before a b ≡ true) ys
      → IsOrdered (λ a b. before a b ≡ true) (insert before x ys)
  unfolding insert
  insert-IsOrdered x [] h = (λ y i. absurd i, tt)
  insert-IsOrdered x (y ∷ ys) (first, rest) = elim (Bool-cases (before x y)) [
    | inl now ↦ rw now (
      λ z i. elim i [
        | inl same ↦ subst (λ w. before x w ≡ true) same now
        | inr later ↦ transitive x y z now (first z later)
      ],
      (first, rest),
    )
    | inr later ↦ rw later (
      λ z i. elim (in-insert before x z ys i) [
        | inl same ↦ subst (λ w. before y w ≡ true) same (total x y later)
        | inr there ↦ first z there
      ],
      insert-IsOrdered x ys rest,
    )
  ]

  pub sort-IsOrdered : (xs : List A) → IsOrdered (λ a b. before a b ≡ true) (sort before xs)
  unfolding sort
  sort-IsOrdered [] = tt
  sort-IsOrdered (x ∷ xs) = insert-IsOrdered x (sort before xs) (sort-IsOrdered xs)

  insert_stable :
      (e x : A) (ys : List A)
      → filter (ties before e) (insert before x ys) ≡ filter (ties before e) (x ∷ ys)
  unfolding insert
  insert_stable e x [] = refl
  insert_stable e x (y ∷ ys) = elim (Bool-cases (before x y)) [
    | inl now ↦ rw now refl
    | inr later ↦ rw later (
        ap (λ l. if ties before e y then y ∷ l else l) (insert_stable e x ys)
        ∙ swapped (ties before e x) (ties before e y) (apart later))
  ]
    where
      swapped :
          (p q : Bool)
          → ¬ ((p ≡ true) × (q ≡ true))
          → (if q
              then y ∷ (if p then x ∷ filter (ties before e) ys else filter (ties before e) ys)
              else (if p then x ∷ filter (ties before e) ys else filter (ties before e) ys))
            ≡ (if p
                then x ∷ (if q then y ∷ filter (ties before e) ys else filter (ties before e) ys)
                else (if q then y ∷ filter (ties before e) ys else filter (ties before e) ys))
      swapped true true h = absurd (h (refl, refl))
      swapped true false h = refl
      swapped false q h = refl

      both : (p q : Bool) → (p && q) ≡ true → (p ≡ true) × (q ≡ true)
      both true q h = (refl, h)
      both false q h = absurd cc

      no_test : ¬ (false ≡ true)
      no_test e = cc

      apart : before x y ≡ false → ¬ ((ties before e x ≡ true) × (ties before e y ≡ true))
      apart later (tx, ty) =
          let ordered : before x y ≡ true = transitive x e y (both _ _ tx).1 (both _ _ ty).0 in
          no_test (sym later ∙ ordered)

  pub sort_stable :
      (e : A) (xs : List A) → filter (ties before e) (sort before xs) ≡ filter (ties before e) xs
  unfolding sort
  sort_stable e [] = refl
  sort_stable e (x ∷ xs) =
      insert_stable e x (sort before xs)
      ∙ ap (λ l. if ties before e x then x ∷ l else l) (sort_stable e xs)
