-- ===== src/Utils/Rng/Bounds.antt =====
-- The ranges of random values, and that no index is out of bounds.
use native.Mathlib.Nat.{mod-lt}
use weavegraph.Base.{
  ◌⊎◌, ℕ, zero, suc, ◌+◌, ◌-◌, ◌%◌, ◌^◌, ◌≤◌, ◌<◌, ◌≡◌, refl, ap, none, some, List, [], ◌∷◌, In,
  All, length, get_elem?, leb, arith, inl, inr, false,
}
use weavegraph.Utils.Rng.{
  StdRng, DeterministicRng, random_range_u32, random_string, random_alphanumeric, alphanumeric,
  choose,
}

offset_lem :
    (n low high : ℕ)
    → low < high
    → high < 2 ^ 32
    → (low ≤ (low + n % (high - low)) % 2 ^ 32) × ((low + n % (high - low)) % 2 ^ 32 < high)
offset_lem n low high nonempty bounded =
    let offset : n % (high - low) < high - low = mod-lt n (omega arith) in
    within (n % (high - low)) offset
  where
    within : (x : ℕ) → x < high - low → (low ≤ (low + x) % 2 ^ 32) × ((low + x) % 2 ^ 32 < high)
    within x below = (omega arith, omega arith)

leb-lt : (a b : ℕ) → a < b → leb b a ≡ false
leb-lt a b h = ground arith

get_elem?-lt :
    {A : Type 0} (xs : List A) (i : ℕ)
    → i < length xs
    → (x : A) × (get_elem? xs i ≡ some x) × In x xs
get_elem?-lt [] i h = absurd (omega arith)
get_elem?-lt (x ∷ xs) zero h = (x, refl, inl refl)
get_elem?-lt (x ∷ xs) (suc i) h =
    let (y, found, there) = get_elem?-lt xs i (omega arith) in (y, found, inr there)

lt_of_lt_le : (a b c : ℕ) → a < b → b ≤ c → a < c
lt_of_lt_le a b c h k = omega arith

module _ {G : Type 0} (std : StdRng G) where
  -- A range of 32 bits that is not empty gives a value in it.
  pub random_range_u32-lt :
      (r : DeterministicRng G) (low high : ℕ)
      → low < high
      → high < 2 ^ 32
      → (low ≤ (random_range_u32 std r low high).0) × ((random_range_u32 std r low high).0 < high)
  unfolding random_range_u32
  random_range_u32-lt r low high nonempty bounded =
      rw (leb-lt low high nonempty) (offset_lem _ low high nonempty bounded)

  -- A random string has the length asked for, and its characters are lowercase letters.
  pub random_string-length :
      (r : DeterministicRng G) (len : ℕ)
      → (length ((random_string std r len).0) ≡ len)
        × All (λ c. (97 ≤ c) × (c ≤ 122)) ((random_string std r len).0)
  unfolding random_string
  random_string-length r zero = (refl, tt)
  random_string-length r (suc len) =
      let (low, high) = random_range_u32-lt r 97 123 (omega arith) (omega arith) in
      let (same, letters) = random_string-length ((random_range_u32 std r 97 123).1) len in
      (ap suc same, (letter _ low high, letters))
    where
      letter : (n : ℕ) → 97 ≤ n → n < 123 → (97 ≤ n % 2 ^ 8) × (n % 2 ^ 8 ≤ 122)
      letter n low high = (omega arith, omega arith)

  -- A random alphanumeric string is made without an index out of bounds; it has the length asked for,
  -- and its characters are among the 62.
  pub random_alphanumeric-length :
      (r : DeterministicRng G) (len : ℕ)
      → (s : List ℕ) × (after : DeterministicRng G) × (random_alphanumeric std r len
          ≡ some (s, after))
        × (length s ≡ len)
        × All (λ c. In c alphanumeric) s
  unfolding random_alphanumeric
  random_alphanumeric-length r zero = ([], r, refl, refl, tt)
  random_alphanumeric-length r (suc len) =
      let (low, high) = random_range_u32-lt r 0 62 (omega arith) (omega arith) in
      let (c, found, listed) = get_elem?-lt alphanumeric _ high in
      let (s, after, rest, same, chars) =
        random_alphanumeric-length ((random_range_u32 std r 0 62).1) len in
      (c ∷ s, after, rw (random_alphanumeric, found, rest) refl, ap suc same, (listed, chars))

  range_below :
      (r : DeterministicRng G) (d len : ℕ)
      → d ≤ len
      → d < 2 ^ 32
      → 0 < len
      → (random_range_u32 std r 0 d).0 < len
  unfolding random_range_u32
  range_below r zero len small bounded nonempty = nonempty
  range_below r (suc d) len small bounded nonempty =
      let (low, high) = random_range_u32-lt r 0 (suc d) (omega arith) bounded in
      lt_of_lt_le _ (suc d) len high small

  choose_index :
      {T : Type 0} (r : DeterministicRng G) (x : T) (xs : List T)
      → (random_range_u32 std r 0 (length (x ∷ xs) % 2 ^ 32)).0 < length (x ∷ xs)
  choose_index r x xs =
      range_below r (length (x ∷ xs) % 2 ^ 32) (length (x ∷ xs)) (omega arith) (omega arith)
        (omega arith)

  -- A choice of an empty list is none; a choice of another is one of its elements, without an index
  -- out of bounds.
  pub choose-In :
      {T : Type 0} (r : DeterministicRng G) (choices : List T)
      → ((choices ≡ []) × (choose std r choices ≡ some (none, r)))
        ⊎ ((x : T) × (after : DeterministicRng G) × (choose std r choices ≡ some (some x, after))
            × In x choices)
  unfolding choose
  choose-In r [] = inl (refl, refl)
  choose-In r (x ∷ xs) =
      let (y, found, there) = get_elem?-lt (x ∷ xs) _ (choose_index r x xs) in
      inr (y, (random_range_u32 std r 0 (length (x ∷ xs) % 2 ^ 32)).1, rw found refl, there)
