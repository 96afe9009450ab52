-- ===== src/Base/Tests.antt =====
-- Boolean tests, and equality of keys as an interface.
use Prim.Native.Nat.{ℕ, ◌+◌, ◌%◌, ◌^◌, ◌<◌, compare, Ordering}
use Prim.Native.String.{String}
use mathlib.Core.Path.{◌≡◌, refl, ◌∙◌, ap₂}
use mathlib.Core.Logic.{◌⊎◌, inl, inr}
use mathlib.Core.Bool.{Bool, true, false}
use mathlib.Core.Option.{Option, none, some}
use native.Mathlib.Decide.{ℕ_discrete}
use native.Mathlib.Omega.{arith}
use text.Mathlib.Text.{◌==◌ as str_eq}
use text.Mathlib.TextEquality.{eq_iff}

abbrev pub ltb : ℕ → ℕ → Bool
ltb a b = elim (compare a b) [ Ordering.lt ↦ true | _ ↦ false ]

abbrev pub leb : ℕ → ℕ → Bool
leb a b = elim (compare a b) [ Ordering.gt ↦ false | _ ↦ true ]

-- The place of a `u64` among all of them once it is cast to `i64`: from 2 ^ 63 on they are negative.
abbrev pub signed_place : ℕ → ℕ
signed_place n = (n + 2 ^ 63) % 2 ^ 64

-- The test `a <= b` of two `u64` that are cast to `i64`.
abbrev pub leb_i64 : ℕ → ℕ → Bool
leb_i64 a b = leb (signed_place a) (signed_place b)

signed_place_small : (n : ℕ) → n < 2 ^ 63 → signed_place n ≡ n + 2 ^ 63
signed_place_small n h = omega arith

leb_shifted : (a b : ℕ) → leb (a + 2 ^ 63) (b + 2 ^ 63) ≡ leb a b
leb_shifted a b = ground arith

-- Below 2 ^ 63 the casts keep the order.
pub leb_i64-leb : (a b : ℕ) → a < 2 ^ 63 → b < 2 ^ 63 → leb_i64 a b ≡ leb a b
leb_i64-leb a b ha hb =
    ap₂ leb (signed_place_small a ha) (signed_place_small b hb) ∙ leb_shifted a b

infix 1 if◌then◌else◌
abbrev pub if◌then◌else◌ {ℓ} : {A : Type ℓ} → Bool → A → A → A
if true then x else y = x
if false then x else y = y

pub Bool-cases : (b : Bool) → (b ≡ true) ⊎ (b ≡ false)
Bool-cases true = inl refl
Bool-cases false = inr refl

pub Option-cases {ℓ} : {A : Type ℓ} (o : Option A) → (o ≡ none) ⊎ ((a : A) × (o ≡ some a))
Option-cases none = inl refl
Option-cases (some a) = inr (a, refl)

-- A type whose equality can be decided: what Rust asks of a key by `Eq + Hash`.
pub record Key {ℓ} (K : Type ℓ) : Type ℓ where
  pub eq? : (a b : K) → Dec (a ≡ b)

pub str_apart : (s t : String) → str_eq s t ≡ false → ¬ (s ≡ t)
str_apart s t e p = cc (e, (eq_iff s t).1 p)

abbrev pub str_cases : (s t : String) (b : Bool) → str_eq s t ≡ b → Dec (s ≡ t)
str_cases s t true e = yes ((eq_iff s t).0 e)
str_cases s t false e = no (str_apart s t e)

abbrev pub String-discrete : (s t : String) → Dec (s ≡ t)
String-discrete s t = str_cases s t (str_eq s t) refl

instance abbrev pub String-key : Key String
String-key = record { eq? = String-discrete }

instance abbrev pub ℕ-key : Key ℕ
unfolding ℕ_discrete
ℕ-key = record { eq? = ℕ_discrete }

-- The test `a == b` of two keys.
infix 50 ◌==◌
abbrev pub ◌==◌ {ℓ} : {K : Type ℓ} ⦃key : Key K⦄ → K → K → Bool
◌==◌ ⦃key⦄ a b = elim (key.eq? a b) [ yes _ ↦ true | no _ ↦ false ]

pub test-same {ℓ} : {K : Type ℓ} ⦃key : Key K⦄ (a b : K) → a ≡ b → (a == b) ≡ true
test-same ⦃key⦄ a b e =
    elim (key.eq? a b) as (λ d. (elim d as (λ _. Bool) [ yes _ ↦ true | no _ ↦ false ]) ≡ true) [
      | yes _ ↦ refl
      | no other ↦ absurd (other e)
    ]

pub same-test {ℓ} : {K : Type ℓ} ⦃key : Key K⦄ (a b : K) → (a == b) ≡ true → a ≡ b
same-test ⦃key⦄ a b =
    elim (key.eq? a b)
      as (λ d. (elim d as (λ _. Bool) [ yes _ ↦ true | no _ ↦ false ]) ≡ true → a ≡ b) [
        | yes e ↦ λ h. e
        | no other ↦ λ h. cc
      ]

pub test-other {ℓ} : {K : Type ℓ} ⦃key : Key K⦄ (a b : K) → ¬ (a ≡ b) → (a == b) ≡ false
test-other ⦃key⦄ a b other =
    elim (key.eq? a b) as (λ d. (elim d as (λ _. Bool) [ yes _ ↦ true | no _ ↦ false ]) ≡ false) [
      | yes e ↦ absurd (other e)
      | no _ ↦ refl
    ]
