-- ===== src/Base/Result.antt =====
-- Rust's `Result`.
use mathlib.Core.Path.{◌≡◌, refl, ap}
use mathlib.Core.Logic.{◌↔◌, ◌⊎◌, inl, inr}

pub data Result {ℓ κ} (E : Type ℓ) (A : Type κ) : Type (ℓ ⊔ κ) where
  ok : A → Result E A
  err : E → Result E A

-- The `?` operator.
infixl 5 ◌>>=◌ ◌>>◌
abbrev pub ◌>>=◌ {ℓ κ μ} :
    {E : Type ℓ} {A : Type κ} {B : Type μ} → Result E A → (A → Result E B) → Result E B
ok a >>= f = f a
err e >>= f = err e

abbrev pub ◌>>◌ {ℓ κ} : {E : Type ℓ} {B : Type κ} → Result E (Unit {0}) → Result E B → Result E B
m >> k = m >>= λ _. k

-- `Result::map_err`.
abbrev pub map_err {ℓ κ μ} :
    {E : Type ℓ} {F : Type μ} {A : Type κ} → (E → F) → Result E A → Result F A
map_err f (ok a) = ok a
map_err f (err e) = err (f e)

-- Both steps of a chain succeed, or the chain fails.
pub >>-eq-ok {ℓ} :
    {E : Type ℓ} (m k : Result E (Unit {0})) → ((m >> k) ≡ ok tt) ↔ ((m ≡ ok tt) × (k ≡ ok tt))
>>-eq-ok (ok u) k = (λ e. (refl, e), λ h. h.1)
>>-eq-ok (err e) k = (λ h. cc, λ h. cc (h.0))

-- To split on a computed result and keep the equation.
pub Result-cases {ℓ κ} :
    {E : Type ℓ} {A : Type κ} (r : Result E A) → ((a : A) × (r ≡ ok a)) ⊎ ((e : E) × (r ≡ err e))
Result-cases (ok a) = inl (a, refl)
Result-cases (err e) = inr (e, refl)

pub ok-injective {ℓ κ} :
    (E : Type ℓ) {A : Type κ} {a b : A} → ◌≡◌ {A = Result E A} (ok a) (ok b) → a ≡ b
ok-injective E e = cc

pub err-injective {ℓ κ} :
    {E : Type ℓ} (A : Type κ) {a b : E} → ◌≡◌ {A = Result E A} (err a) (err b) → a ≡ b
err-injective A e = cc

-- The inversion of a step that succeeds.
pub >>=-eq-ok {ℓ κ μ} :
    {E : Type ℓ} {A : Type κ} {B : Type μ} {made : B} (step : Result E A) (next : A → Result E B)
    → step >>= next ≡ ok made
    → (value : A) × (step ≡ ok value) × (next value ≡ ok made)
>>=-eq-ok (ok value) next = λ same. (value, refl, same)
>>=-eq-ok (err e) next = λ same. cc

pub map_err-eq-ok {ℓ κ μ} :
    {E : Type ℓ} {F : Type μ} {A : Type κ} {a : A} (f : E → F) (r : Result E A)
    → map_err f r ≡ ok a
    → r ≡ ok a
map_err-eq-ok {F = F} f (ok a) h = ap ok (ok-injective F h)
map_err-eq-ok f (err e) h = cc
