-- ===== src/Tests/OfRng.antt =====
-- src/utils/deterministic_rng.rs with a concrete generator.
use weavegraph.Base.{ℕ, ◌+◌, ◌*◌, ◌%◌, ◌^◌, ◌≡◌, refl, true, [], ◌∷◌}
use weavegraph.Utils.Rng.{StdRng, DeterministicRng, random_u32, random_range_u32, random_string}
use weavegraph.Utils.Rng.Registry.{
  RngRegistry, new_registry, with_rng, KeepsSeed, IsReached, fresh, drawn,
}

-- A linear congruential generator.
abbrev congruential : StdRng ℕ
congruential = record {
  seed_from_u64 = λ seed. seed;
  next_u32 = λ g. (g % 2 ^ 32, (g * 1664525 + 1013904223) % 2 ^ 32);
  next_u64 = λ g. (g, (g * 1664525 + 1013904223) % 2 ^ 32);
  next_bool = λ g. (true, g);
}

abbrev seeded : DeterministicRng ℕ
seeded = record { rng = 42; seed = 42 }

range_seeded : (random_range_u32 congruential seeded 10 20).0 ≡ 12
unfolding random_range_u32
range_seeded = refl

word : (random_string congruential seeded 3).0 ≡ 113 ∷ 106 ∷ 117 ∷ []
unfolding random_string random_range_u32
word = refl

random_u32-KeepsSeed : KeepsSeed congruential (random_u32 congruential)
unfolding random_u32
random_u32-KeepsSeed r = refl

abbrev used : RngRegistry ℕ
used = (with_rng congruential "agent" (random_u32 congruential) (new_registry congruential 7)).1

used-IsReached : IsReached congruential 7 used
used-IsReached =
    drawn "agent" (random_u32 congruential) (new_registry congruential 7) random_u32-KeepsSeed fresh
