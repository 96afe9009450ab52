-- ===== src/Utils/Rng.antt =====
-- src/utils/deterministic_rng.rs: random values that a seed determines. The generator of the crate
-- rand is a parameter: the state after seeding, and what each kind of draw gives and leaves.
pub mod Bounds
pub mod Registry
use Prim.Native.Char.{Char, code}
use Prim.Native.String
use Prim.Native.String.{◌∷◌ as ◌∷ₜ◌}
use weavegraph.Base.{
  ℕ, zero, suc, ◌+◌, ◌-◌, ◌*◌, ◌%◌, ◌^◌, String, String-key, Bool, Option, none, some, List, [],
  ◌∷◌, if◌then◌else◌, leb, length, get_elem?, is_empty, ◌++◌, ltb,
}
use weavegraph.Base.Map.{Map, get, put}

-- `StdRng`. Draws of 32 and 64 bits are below those powers.
pub record StdRng (G : Type 0) : Type 0 where
  pub seed_from_u64 : ℕ → G
  pub next_u32 : G → ℕ × G
  pub next_u64 : G → ℕ × G
  pub next_bool : G → Bool × G

pub record DeterministicRng (G : Type 0) : Type 0 where
  pub rng : G
  pub seed : ℕ

-- A to Z, a to z, 0 to 9: `CHARS`.
abbrev pub codes_from : ℕ → ℕ → List ℕ
codes_from first zero = []
codes_from first (suc n) = first ∷ codes_from (suc first) n

abbrev pub alphanumeric : List ℕ
alphanumeric = codes_from 65 26 ++ codes_from 97 26 ++ codes_from 48 10

module _ {G : Type 0} (std : StdRng G) where
  unfoldable pub new : ℕ → DeterministicRng G
  new seed = record { rng = std.seed_from_u64 seed; seed = seed }

  unfoldable pub reset : DeterministicRng G → DeterministicRng G
  reset r = record r { rng = std.seed_from_u64 r.seed }

  -- A draw keeps the seed.
  abbrev pub draw : {A : Type 0} → (G → A × G) → DeterministicRng G → A × DeterministicRng G
  draw next r = let (x, rng) = next r.rng in (x, record r { rng = rng })

  unfoldable pub random_u64 : DeterministicRng G → ℕ × DeterministicRng G
  random_u64 = draw std.next_u64

  unfoldable pub random_u32 : DeterministicRng G → ℕ × DeterministicRng G
  random_u32 = draw std.next_u32

  unfoldable pub random_bool : DeterministicRng G → Bool × DeterministicRng G
  random_bool = draw std.next_bool

  -- The new generator, and the state after its seed was drawn.
  unfoldable pub fork : DeterministicRng G → DeterministicRng G × DeterministicRng G
  fork r = let (seed, after) = random_u64 r in (new seed, after)

  -- `min >= max` gives `min`.
  unfoldable pub random_range_u32 : DeterministicRng G → ℕ → ℕ → ℕ × DeterministicRng G
  random_range_u32 r low high =
      if leb high low
      then (low, r)
      else (let (n, after) = draw std.next_u32 r in ((low + n % (high - low)) % 2 ^ 32, after))

  -- The codes of the characters of `random_string`, from `a` to `z`, each of them cast to a byte.
  unfoldable pub random_string : DeterministicRng G → ℕ → List ℕ × DeterministicRng G
  random_string r zero = ([], r)
  random_string r (suc len) =
      let (n, after) = random_range_u32 r 97 123 in
      let (rest, last) = random_string after len in (n % 2 ^ 8 ∷ rest, last)

  -- The codes of `random_alphanumeric`; none where the index would panic.
  unfoldable pub random_alphanumeric : DeterministicRng G → ℕ → Option (List ℕ × DeterministicRng G)
  random_alphanumeric r zero = some ([], r)
  random_alphanumeric r (suc len) =
      let (n, after) = random_range_u32 r 0 62 in
      elim (get_elem? alphanumeric n) [
        | some c ↦ elim (random_alphanumeric after len) [
          | some (rest, last) ↦ some (c ∷ rest, last)
          | none ↦ none
        ]
        | none ↦ none
      ]

  -- `choose`; the outer option is none where the index would panic. The length is cast to 32 bits.
  unfoldable pub choose :
      {T : Type 0} → DeterministicRng G → List T → Option (Option T × DeterministicRng G)
  choose r choices =
      if is_empty choices
      then some (none, r)
      else (let (n, after) = random_range_u32 r 0 (length choices % 2 ^ 32) in
          elim (get_elem? choices n) [ some x ↦ some (some x, after) | none ↦ none ])
