-- ===== src/Base/Order.antt =====
-- Rust's `Ordering`: three-way comparisons, chained by `then`, of numbers and of texts.
use Prim.Native.Nat.{ℕ, ◌<◌, Ordering, compare}
use Prim.Native.Char.{code}
use Prim.Native.String.{String, ◌∷◌, then, compare as compare_str}
use Prim.Native.String.compare as compare_text
use mathlib.Core.Path.{◌≡◌, refl, sym, ap, ap₂, ◌∙◌}
use mathlib.Core.Logic.{◌⊎◌, inl, inr}
use mathlib.Core.Bool.{Bool, true, false}
use native.Mathlib.Omega.{arith}

abbrev pub is_not_greater : Ordering → Bool
is_not_greater o = elim o [ Ordering.gt ↦ false | _ ↦ true ]

-- `Ordering::reverse`.
abbrev pub reverse : Ordering → Ordering
reverse Ordering.lt = Ordering.gt
reverse Ordering.eq = Ordering.eq
reverse Ordering.gt = Ordering.lt

pub Ordering-cases : (o : Ordering) → (o ≡ Ordering.lt) ⊎ ((o ≡ Ordering.eq) ⊎ (o ≡ Ordering.gt))
Ordering-cases Ordering.lt = inl refl
Ordering-cases Ordering.eq = inr (inl refl)
Ordering-cases Ordering.gt = inr (inr refl)

pub reverse-then : (o p : Ordering) → reverse (then o p) ≡ then (reverse o) (reverse p)
reverse-then Ordering.lt p = refl
reverse-then Ordering.eq p = refl
reverse-then Ordering.gt p = refl

pub reverse_total : (o : Ordering) → is_not_greater o ≡ false → is_not_greater (reverse o) ≡ true
reverse_total Ordering.lt h = absurd cc
reverse_total Ordering.eq h = absurd cc
reverse_total Ordering.gt h = refl

-- What makes a comparison a total preorder.
abbrev pub IsLawful {ℓ} : {A : Type ℓ} → (A → A → Ordering) → Type ℓ
IsLawful {A} cmp =
    ((a b : A) → cmp b a ≡ reverse (cmp a b))
    × ((a b c : A)
        → is_not_greater (cmp a b) ≡ true
        → is_not_greater (cmp b c) ≡ true
        → is_not_greater (cmp a c) ≡ true)

pub compare-IsLawful : IsLawful compare
compare-IsLawful = (λ a b. ground arith, λ a b c h k. ground arith)

-- A comparison that is chained before others.
pub then_trans :
    {A : Type 0} (cmp : A → A → Ordering) (a b c : A) (p q r : Ordering)
    → IsLawful cmp
    → (is_not_greater p ≡ true → is_not_greater q ≡ true → is_not_greater r ≡ true)
    → is_not_greater (then (cmp a b) p) ≡ true
    → is_not_greater (then (cmp b c) q) ≡ true
    → is_not_greater (then (cmp a c) r) ≡ true
then_trans cmp a b c p q r (swap, trans) rest h k =
    go (cmp a b) (cmp b c) (cmp a c) (trans a b c) first second h k
  where
    first :
        cmp a c ≡ Ordering.eq
        → is_not_greater (cmp b c) ≡ true
        → is_not_greater (reverse (cmp a b)) ≡ true
    first e n =
        sym (ap is_not_greater (swap a b))
        ∙ trans b c a n (ap is_not_greater (swap a c ∙ ap reverse e))

    second :
        cmp a c ≡ Ordering.eq
        → is_not_greater (cmp a b) ≡ true
        → is_not_greater (reverse (cmp b c)) ≡ true
    second e n =
        sym (ap is_not_greater (swap b c))
        ∙ trans c a b (ap is_not_greater (swap a c ∙ ap reverse e)) n

    go :
        (x y z : Ordering)
        → (is_not_greater x ≡ true → is_not_greater y ≡ true → is_not_greater z ≡ true)
        → (z ≡ Ordering.eq → is_not_greater y ≡ true → is_not_greater (reverse x) ≡ true)
        → (z ≡ Ordering.eq → is_not_greater x ≡ true → is_not_greater (reverse y) ≡ true)
        → is_not_greater (then x p) ≡ true
        → is_not_greater (then y q) ≡ true
        → is_not_greater (then z r) ≡ true
    go Ordering.eq Ordering.eq Ordering.eq t f s h k = rest h k
    go x y Ordering.lt t f s h k = refl
    go Ordering.gt y z t f s h k = absurd cc
    go x Ordering.gt z t f s h k = absurd cc
    go Ordering.lt Ordering.lt Ordering.eq t f s h k = absurd (let no = f refl refl in cc)
    go Ordering.lt Ordering.eq Ordering.eq t f s h k = absurd (let no = f refl refl in cc)
    go Ordering.eq Ordering.lt Ordering.eq t f s h k = absurd (let no = s refl refl in cc)
    go Ordering.lt Ordering.lt Ordering.gt t f s h k = t refl refl
    go Ordering.lt Ordering.eq Ordering.gt t f s h k = absurd (let no = t refl refl in cc)
    go Ordering.eq Ordering.lt Ordering.gt t f s h k = absurd (let no = t refl refl in cc)
    go Ordering.eq Ordering.eq Ordering.gt t f s h k = absurd (let no = t refl refl in cc)

compare_str_swap : (s t : String) → compare_str t s ≡ reverse (compare_str s t)
compare_str_swap String.[] String.[] = refl
compare_str_swap String.[] (d ∷ t) =
    compare_text.cons-nil d t ∙ ap reverse (sym (compare_text.nil-cons d t))
compare_str_swap (c ∷ s) String.[] =
    compare_text.nil-cons c s ∙ ap reverse (sym (compare_text.cons-nil c s))
compare_str_swap (c ∷ s) (d ∷ t) =
    compare_text.cons-cons d c t s
    ∙ ap₂ then (compare-IsLawful.0 (code c) (code d)) (compare_str_swap s t)
    ∙ sym (reverse-then (compare (code c) (code d)) (compare_str s t))
    ∙ ap reverse (sym (compare_text.cons-cons c d s t))

compare_str_trans :
    (s t u : String)
    → is_not_greater (compare_str s t) ≡ true
    → is_not_greater (compare_str t u) ≡ true
    → is_not_greater (compare_str s u) ≡ true
compare_str_trans String.[] t String.[] h k = refl
compare_str_trans String.[] t (e ∷ u) h k = ap is_not_greater (compare_text.nil-cons e u)
compare_str_trans (c ∷ s) String.[] u h k =
    absurd (let no = sym (ap is_not_greater (compare_text.cons-nil c s)) ∙ h in cc)
compare_str_trans (c ∷ s) (d ∷ t) String.[] h k =
    absurd (let no = sym (ap is_not_greater (compare_text.cons-nil d t)) ∙ k in cc)
compare_str_trans (c ∷ s) (d ∷ t) (e ∷ u) h k =
    ap is_not_greater (compare_text.cons-cons c e s u)
    ∙ then_trans compare (code c) (code d) (code e) (compare_str s t) (compare_str t u)
        (compare_str s u) compare-IsLawful (compare_str_trans s t u)
        (sym (ap is_not_greater (compare_text.cons-cons c d s t)) ∙ h)
        (sym (ap is_not_greater (compare_text.cons-cons d e t u)) ∙ k)

pub compare_str-IsLawful : IsLawful compare_str
compare_str-IsLawful = (compare_str_swap, compare_str_trans)

-- The first of two chained comparisons decides, or is equal and the second decides.
pub then_cases :
    (o p : Ordering)
    → is_not_greater (then o p) ≡ true
    → (o ≡ Ordering.lt) ⊎ ((o ≡ Ordering.eq) × (is_not_greater p ≡ true))
then_cases Ordering.lt p h = inl refl
then_cases Ordering.eq p h = inr (refl, h)
then_cases Ordering.gt p h = absurd cc

pub compare_lt : (m n : ℕ) → compare m n ≡ Ordering.lt → m < n
compare_lt m n h = ground arith

pub compare_eq : (m n : ℕ) → compare m n ≡ Ordering.eq → m ≡ n
compare_eq m n h = ground arith
