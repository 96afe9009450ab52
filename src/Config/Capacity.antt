-- ===== src/Config/Capacity.antt =====
-- The sinks and the capacities of the configurations that the constructors make.
use weavegraph.Base.{
  ℕ, ℕ-key, ◌≤◌, ◌≡◌, ◌≢◌, refl, sym, ap, ◌∙◌, inl, inr, true, false, Option, none, some, List, [],
  ◌∷◌, In, IsDistinct, IsDistinct-concat, Bool-cases, contains, contains-in, in-contains, is_empty,
  if◌then◌else◌, in-concat_self, in-append_left, arith, ◌==◌, test-same,
}
use weavegraph.Config.{
  SinkConfig, std_out, SinkConfig-key, DiagnosticsConfig, EventBusConfig, normalize_capacity,
  default_with_capacity, with_default_capacity, effective_capacity, new_event_bus, add_sink,
  with_diagnostics, with_capacity_and_diag, build_event_bus,
}

-- What the constructors make.
pub data IsMade : EventBusConfig → Type 0 where
  made : (capacity : ℕ) (sinks : List SinkConfig) → IsMade (new_event_bus capacity sinks)
  added :
      (sink : SinkConfig) (config : EventBusConfig) → IsMade config → IsMade (add_sink sink config)
  diagnosed :
      (diagnostics : DiagnosticsConfig) (config : EventBusConfig)
      → IsMade config
      → IsMade (with_diagnostics diagnostics config)

-- A capacity of at least 1, and one of the diagnostics, which is filled in.
abbrev HasCapacity : EventBusConfig → Type 0
HasCapacity config =
    (1 ≤ config.buffer_capacity) × ((c : ℕ) × (config.diagnostics.buffer_capacity ≡ some c))

normalize_capacity-le : (capacity : ℕ) → 1 ≤ normalize_capacity capacity
unfolding normalize_capacity
normalize_capacity-le capacity = ground arith

normalize_capacity_same : (capacity : ℕ) → 1 ≤ capacity → normalize_capacity capacity ≡ capacity
unfolding normalize_capacity
normalize_capacity_same capacity h = ground arith

not_zero : (n : ℕ) → ¬ (n ≡ 0) → 1 ≤ n
not_zero n h = ground arith

positive_or_default : (capacity : ℕ) → 1 ≤ (if capacity == 0 then 1024 else capacity)
positive_or_default capacity = elim (Bool-cases (capacity == 0)) [
  | inl zero ↦ rw zero (omega arith)
  | inr other ↦ rw other (not_zero capacity (λ e. no_test (sym other ∙ test-same capacity 0 e)))
]
  where
    no_test : ¬ (false ≡ true)
    no_test e = cc

IsMade-HasCapacity : (config : EventBusConfig) → IsMade config → HasCapacity config
unfolding new_event_bus add_sink with_diagnostics default_with_capacity with_default_capacity
IsMade-HasCapacity _ (made capacity sinks) = (positive_or_default capacity, (_, refl))
IsMade-HasCapacity _ (added sink config before) = IsMade-HasCapacity config before
IsMade-HasCapacity _ (diagnosed diagnostics config before) =
    let (positive, _) = IsMade-HasCapacity config before in
    (positive, filled diagnostics.buffer_capacity)
  where
    filled :
        (o : Option ℕ)
        → (c : ℕ) × ((elim o [
          | some c ↦ some c
          | none ↦ some (normalize_capacity config.buffer_capacity)
        ])
            ≡ some c)
    filled none = (_, refl)
    filled (some c) = (c, refl)

normalize_capacity_or : (c : ℕ) → normalize_capacity c ≡ (if c == 0 then 1 else c)
unfolding normalize_capacity
normalize_capacity_or c = ground arith

effective_some :
    (d : DiagnosticsConfig) (n c : ℕ) → d.buffer_capacity ≡ some c → effective_capacity d n ≡ c
unfolding effective_capacity
effective_some d n c h = rw h refl

-- The bus of a configuration that the constructors make has a sink, and opens its first channel with
-- the capacity of the configuration, which is at least 1. The configuration has a capacity of
-- diagnostics, and where these are enabled their channel is opened with it, or with 1 where it is 0;
-- the channel of disabled diagnostics has capacity 1.
pub build_event_bus_capacity :
    (config : EventBusConfig)
    → IsMade config
    → ((build_event_bus config).sinks ≢ [])
      × ((build_event_bus config).hub_capacity ≡ config.buffer_capacity)
      × (1 ≤ config.buffer_capacity)
      × ((c : ℕ) × (config.diagnostics.buffer_capacity ≡ some c)
          × ((build_event_bus config).diagnostics_channel
              ≡ (if config.diagnostics.enabled then (if c == 0 then 1 else c) else 1)))
unfolding build_event_bus with_capacity_and_diag
build_event_bus_capacity config h =
    let (positive, (c, filled)) = IsMade-HasCapacity config h in
    (
      some_sink config.sinks,
      normalize_capacity_same config.buffer_capacity positive,
      positive,
      (
        c,
        filled,
        ap (λ x. if config.diagnostics.enabled then normalize_capacity x else 1)
              (effective_some config.diagnostics config.buffer_capacity c filled)
            ∙ ap (λ x. if config.diagnostics.enabled then x else 1) (normalize_capacity_or c),
      ),
    )
  where
    some_sink : (sinks : List SinkConfig) → (if is_empty sinks then std_out ∷ [] else sinks) ≢ []
    some_sink [] e = cc
    some_sink (s ∷ sinks) e = cc

-- Adding sinks to distinct ones keeps them distinct, and the added one is among them.
pub add_sink-IsDistinct :
    (sink : SinkConfig) (config : EventBusConfig)
    → IsDistinct config.sinks
    → IsDistinct ((add_sink sink config).sinks)
      × In sink ((add_sink sink config).sinks)
      × ((other : SinkConfig) → In other config.sinks → In other ((add_sink sink config).sinks))
unfolding add_sink
add_sink-IsDistinct sink config distinct = elim (Bool-cases (contains config.sinks sink)) [
  | inl there ↦ rw there (distinct, contains-in config.sinks sink there, λ other i. i)
  | inr new ↦ rw new (
    IsDistinct-concat config.sinks sink distinct (absent new),
    in-concat_self sink config.sinks,
    λ other i. in-append_left other config.sinks (sink ∷ []) i,
  )
]
  where
    absent : contains config.sinks sink ≡ false → ¬ In sink config.sinks
    absent new i = let there = in-contains config.sinks sink i in cc
