-- ===== src/Utils/Rng/Registry.antt =====
-- `RngRegistry` of src/utils/deterministic_rng.rs: a generator for each name, whose seed the name and
-- the seed of the registry determine.
use weavegraph.Base.{
  ℕ, ◌+◌, ◌*◌, ◌%◌, ◌^◌, String, String-key, ◌≡◌, refl, ◌⊎◌, sym, ap, ◌∙◌, inl, inr, Option, none,
  some, Option-cases, List, [], ◌∷◌, arith,
}
use weavegraph.Base.Utf8.{bytes}
use weavegraph.Base.Map.{Map, get, put, get-put_cases}
use weavegraph.Utils.Rng.{StdRng, DeterministicRng, new, reset}

abbrev hash_bytes : ℕ → List ℕ → ℕ
hash_bytes acc [] = acc
hash_bytes acc (b ∷ bs) = hash_bytes ((acc * 31 % 2 ^ 64 + b) % 2 ^ 64) bs

unfoldable pub derived_seed : ℕ → String → ℕ
derived_seed base_seed name = (base_seed + hash_bytes 0 (bytes name)) % 2 ^ 64

pub record RngRegistry (G : Type 0) : Type 0 where
  pub rngs : Map String (DeterministicRng G)
  pub base_seed : ℕ

abbrev reset_values :
    {G : Type 0} → StdRng G → Map String (DeterministicRng G) → Map String (DeterministicRng G)
reset_values std [] = []
reset_values std ((name, r) ∷ rest) = (name, reset std r) ∷ reset_values std rest

module _ {G : Type 0} (std : StdRng G) where
  unfoldable pub new_registry : ℕ → RngRegistry G
  new_registry base_seed = record { rngs = []; base_seed = base_seed }

  -- `entry(name).or_insert_with(..)`: the generator, and the registry that has it.
  unfoldable pub get_rng : String → RngRegistry G → DeterministicRng G × RngRegistry G
  get_rng name registry = elim (get name registry.rngs) [
    | some r ↦ (r, registry)
    | none ↦
        let r = new std (derived_seed registry.base_seed name) in
        (r, record registry { rngs = put name r registry.rngs })
  ]

  -- An operation through the mutable reference that `get_rng` returns.
  abbrev pub with_rng :
      {A : Type 0}
      → String
      → (DeterministicRng G → A × DeterministicRng G)
      → RngRegistry G
      → A × RngRegistry G
  with_rng name operation registry =
      let (r, found) = get_rng name registry in
      let (x, after) = operation r in (x, record found { rngs = put name after found.rngs })

  unfoldable pub reset_all : RngRegistry G → RngRegistry G
  reset_all registry = record registry { rngs = reset_values std registry.rngs }

  -- An operation on a generator that keeps its seed, as every draw does.
  abbrev pub KeepsSeed : {A : Type 0} → (DeterministicRng G → A × DeterministicRng G) → Type 0
  KeepsSeed operation = (r : DeterministicRng G) → ((operation r).1).seed ≡ r.seed

  -- What calls make of a new registry.
  pub data IsReached (base_seed : ℕ) : RngRegistry G → Type 1 where
    fresh : IsReached base_seed (new_registry base_seed)
    drawn :
        {A : Type 0} (name : String) (operation : DeterministicRng G → A × DeterministicRng G)
        (registry : RngRegistry G)
        → KeepsSeed operation
        → IsReached base_seed registry
        → IsReached base_seed ((with_rng name operation registry).1)
    again :
        (registry : RngRegistry G)
        → IsReached base_seed registry
        → IsReached base_seed (reset_all registry)

  -- Every generator has the seed of its name.
  abbrev pub IsSeeded : ℕ → RngRegistry G → Type 0
  IsSeeded base_seed registry =
      (registry.base_seed ≡ base_seed)
      × ((name : String) (r : DeterministicRng G)
          → get name registry.rngs ≡ some r
          → r.seed ≡ derived_seed base_seed name)

  get-reset_values :
      (name : String) (rngs : Map String (DeterministicRng G))
      → get name (reset_values std rngs)
        ≡ (elim (get name rngs) [ some r ↦ some (reset std r) | none ↦ none ])
  unfolding get
  get-reset_values name [] = refl
  get-reset_values name ((j, r) ∷ rest) = ground (arith, get-reset_values name rest)

  get_rng_found :
      (name : String) (r : DeterministicRng G) (registry : RngRegistry G)
      → get name registry.rngs ≡ some r
      → get_rng name registry ≡ (r, registry)
  unfolding get_rng
  get_rng_found name r registry found = rw (found, get_rng) refl

  get_rng_missing :
      (name : String) (registry : RngRegistry G)
      → get name registry.rngs ≡ none
      → get_rng name registry ≡ (
        new std (derived_seed registry.base_seed name),
        record registry {
          rngs = put name (new std (derived_seed registry.base_seed name)) registry.rngs;
        },
      )
  unfolding get_rng
  get_rng_missing name registry missing = rw (missing, get_rng) refl

  -- The generator of a name, and what the registry keeps.
  get_rng-IsSeeded :
      (base_seed : ℕ) (name : String) (registry : RngRegistry G)
      → IsSeeded base_seed registry
      → (((get_rng name registry).0).seed ≡ derived_seed base_seed name)
        × IsSeeded base_seed ((get_rng name registry).1)
  unfolding new
  get_rng-IsSeeded base_seed name registry (base, seeded) =
      elim (Option-cases (get name registry.rngs)) [
        | inl missing ↦ rw (get_rng_missing name registry missing) (
          ap (λ b. derived_seed b name) base,
          (
            base,
            λ j r found. elim (get_put_seed j r found) [
              | inl (same, made) ↦
                  ap (λ x. x.seed) (sym made)
                  ∙ ap (λ b. derived_seed b name) base
                  ∙ ap (derived_seed base_seed) same
              | inr before ↦ seeded j r before
            ],
          ),
        )
        | inr (r, found) ↦
            rw (get_rng_found name r registry found) (seeded name r found, (base, seeded))
      ]
    where
      fresh_rng : DeterministicRng G
      fresh_rng = record {
        rng = std.seed_from_u64 (derived_seed registry.base_seed name);
        seed = derived_seed registry.base_seed name;
      }

      get_put_seed :
          (j : String) (r : DeterministicRng G)
          → get j (put name fresh_rng registry.rngs) ≡ some r
          → ((name ≡ j) × (fresh_rng ≡ r)) ⊎ (get j registry.rngs ≡ some r)
      get_put_seed j r found = get-put_cases name j fresh_rng r registry.rngs found

  with_rng-IsSeeded :
      {A : Type 0} (base_seed : ℕ) (name : String)
      (operation : DeterministicRng G → A × DeterministicRng G) (registry : RngRegistry G)
      → KeepsSeed operation
      → IsSeeded base_seed registry
      → IsSeeded base_seed ((with_rng name operation registry).1)
  with_rng-IsSeeded base_seed name operation registry keeps before =
      let r = (get_rng name registry).0 in
      let (seed, (base, seeded)) = get_rng-IsSeeded base_seed name registry before in
      (
        base,
        λ j x found.
            elim (get-put_cases name j ((operation r).1) x (((get_rng name registry).1).rngs)
              found) [
                | inl (same, made) ↦
                    ap (λ x. x.seed) (sym made) ∙ keeps r ∙ seed ∙ ap (derived_seed base_seed) same
                | inr there ↦ seeded j x there
              ],
      )

  reset_all-IsSeeded :
      (base_seed : ℕ) (registry : RngRegistry G)
      → IsSeeded base_seed registry
      → IsSeeded base_seed (reset_all registry)
  unfolding reset_all reset
  reset_all-IsSeeded base_seed registry (base, seeded) =
      (base, λ j x found. kept j x found (Option-cases (get j registry.rngs)))
    where
      kept :
          (j : String) (x : DeterministicRng G)
          → get j (reset_values std registry.rngs) ≡ some x
          → (get j registry.rngs ≡ none)
            ⊎ ((r : DeterministicRng G) × (get j registry.rngs ≡ some r))
          → x.seed ≡ derived_seed base_seed j
      kept j x found (inl missing) =
          let gone : ◌≡◌ {A = Option (DeterministicRng G)} none (some x) =
            ap (λ o. elim o [ some r ↦ some (reset std r) | none ↦ none ]) (sym missing)
            ∙ sym (get-reset_values j registry.rngs)
            ∙ found in
          absurd cc
      kept j x found (inr (r, there)) =
          let made : ◌≡◌ {A = Option (DeterministicRng G)} (some (reset std r)) (some x) =
            ap (λ o. elim o [ some r ↦ some (reset std r) | none ↦ none ]) (sym there)
            ∙ sym (get-reset_values j registry.rngs)
            ∙ found in
          let seeds : r.seed ≡ x.seed = cc in sym seeds ∙ seeded j r there

  pub IsReached-IsSeeded :
      (base_seed : ℕ) (registry : RngRegistry G)
      → IsReached base_seed registry
      → IsSeeded base_seed registry
  unfolding new_registry get
  IsReached-IsSeeded base_seed registry fresh = (refl, λ name r found. absurd cc)
  IsReached-IsSeeded base_seed _ (drawn name operation registry keeps before) =
      with_rng-IsSeeded base_seed name operation registry keeps
        (IsReached-IsSeeded base_seed registry before)
  IsReached-IsSeeded base_seed _ (again registry before) =
      reset_all-IsSeeded base_seed registry (IsReached-IsSeeded base_seed registry before)

  -- Whatever was drawn from a registry, after a reset the generator of every name is the one that a
  -- new registry of the same seed gives.
  pub get_rng-reset_all :
      (base_seed : ℕ) (registry : RngRegistry G) (name : String)
      → IsReached base_seed registry
      → (get_rng name (reset_all registry)).0 ≡ (get_rng name (new_registry base_seed)).0
  unfolding get_rng reset_all reset new new_registry get
  get_rng-reset_all base_seed registry name reached =
      let (base, seeded) = IsReached-IsSeeded base_seed registry reached in
      elim (Option-cases (get name registry.rngs)) [
        | inl missing ↦
            ap (λ x. x.0)
              (get_rng_missing name (reset_all registry)
                (get-reset_values name registry.rngs ∙ rw missing refl))
            ∙ ap (λ b. new std (derived_seed b name)) base
        | inr (r, found) ↦
            ap (λ x. x.0)
              (get_rng_found name (reset std r) (reset_all registry)
                (get-reset_values name registry.rngs ∙ rw found refl))
            ∙ ap (new std) (seeded name r found)
      ]
