-- ===== src/Base/Utf8.antt =====
-- The bytes of texts as `str::bytes` gives them, and the printing of numbers.
use Prim.Native.Char.{code}
use Prim.Native.String.{String, ◌∷◌ as ◌∷ₜ◌, ◌++◌ as append_text}
use Prim.Native.Nat.{ℕ, zero, suc, ◌+◌, ◌/◌, ◌%◌, ◌<◌}
use mathlib.Core.Path.{◌≡◌, refl}
use mathlib.Core.Bool.{Bool, true, false}
use mathlib.Core.Option.{some, none}
use mathlib.Core.List.{List, [], ◌∷◌, ◌++◌}
use native.Mathlib.Omega.{arith}
use weavegraph.Base.Tests.{ltb, if◌then◌else◌}
use weavegraph.Base.Lists.{get_elem?, All}

-- UTF-8, with the masks of `char::encode_utf8`.
abbrev pub utf8 : ℕ → List ℕ
utf8 c =
    if ltb c 128
    then c ∷ []
    else if ltb c 2048
    then (192 + c / 64 % 32) ∷ (128 + c % 64) ∷ []
    else if ltb c 65536
    then (224 + c / 4096 % 16) ∷ (128 + c / 64 % 64) ∷ (128 + c % 64) ∷ []
    else (240 + c / 262144 % 8) ∷ (128 + c / 4096 % 64) ∷ (128 + c / 64 % 64) ∷ (128 + c % 64) ∷ []

abbrev pub bytes : String → List ℕ
bytes String.[] = []
bytes (c ∷ₜ rest) = utf8 (code c) ++ bytes rest

abbrev digits : List String
digits =
    "0" ∷ "1" ∷ "2" ∷ "3" ∷ "4" ∷ "5" ∷ "6" ∷ "7" ∷ "8" ∷ "9" ∷ "a" ∷ "b" ∷ "c" ∷ "d" ∷ "e" ∷ "f"
    ∷ []

abbrev digit : ℕ → String
digit n = elim (get_elem? digits n) [ some d ↦ d | none ↦ "" ]

-- Decimal, on fuel: a number has fewer digits than its successor.
abbrev decimal_on : ℕ → ℕ → String
decimal_on zero n = ""
decimal_on (suc fuel) n =
    let rest = decimal_on fuel (n / 10) in
    if ltb n 10 then digit n else append_text rest (digit (n % 10))

abbrev pub decimal : ℕ → String
decimal n = decimal_on (suc n) n

-- The lowest digits of base 16, so many of them.
abbrev pub hex : ℕ → ℕ → String
hex zero n = ""
hex (suc k) n = append_text (hex k (n / 16)) (digit (n % 16))

All-append : (P : ℕ → Type 0) (xs ys : List ℕ) → All P xs → All P ys → All P (xs ++ ys)
All-append P [] ys a b = b
All-append P (x ∷ xs) ys (p, a) b = (p, All-append P xs ys a b)

pick :
    (P : ℕ → Type 0) (b : Bool) (xs ys : List ℕ)
    → (b ≡ true → All P xs)
    → All P ys
    → All P (if b then xs else ys)
pick P true xs ys a c = a refl
pick P false xs ys a c = c

utf8-lt : (c : ℕ) → All (λ b. b < 255) (utf8 c)
utf8-lt c =
    pick _ (ltb c 128) _ _ (λ h. (small h, tt))
      (pick _ (ltb c 2048) _ _ (λ _. (omega arith, (omega arith, tt)))
        (pick _ (ltb c 65536) _ _ (λ _. (omega arith, (omega arith, (omega arith, tt))))
          (omega arith, (omega arith, (omega arith, (omega arith, tt))))))
  where
    small : ltb c 128 ≡ true → c < 255
    small h = ground arith

-- No byte of a text is 255.
pub bytes-lt : (s : String) → All (λ b. b < 255) (bytes s)
bytes-lt String.[] = tt
bytes-lt (c ∷ₜ rest) = All-append _ (utf8 (code c)) (bytes rest) (utf8-lt (code c)) (bytes-lt rest)
