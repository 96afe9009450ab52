-- ===== src/Config.antt =====
-- src/runtimes/runtime_config.rs: the configuration of the runtime, of its event bus and of the
-- diagnostics of the sinks.
pub mod Capacity
pub mod Hash
use weavegraph.Base.{
  ℕ, String, ◌≡◌, ◌≢◌, refl, sym, Bool, true, false, not, Option, none, some, List, [], ◌∷◌, ◌++◌,
  map, if◌then◌else◌, ◌==◌, ℕ-key, Key, leb, contains, is_empty,
}

pub data SinkConfig : Type 0 where
  std_out memory : SinkConfig

pub std_out-ne-memory : std_out ≢ memory
std_out-ne-memory e = cc

abbrev pub sink_eq? : (a b : SinkConfig) → Dec (a ≡ b)
sink_eq? std_out std_out = yes refl
sink_eq? memory memory = yes refl
sink_eq? std_out memory = no std_out-ne-memory
sink_eq? memory std_out = no (λ e. std_out-ne-memory (sym e))

instance abbrev pub SinkConfig-key : Key SinkConfig
SinkConfig-key = record { eq? = sink_eq? }

pub record DiagnosticsConfig : Type 0 where
  pub enabled : Bool
  pub buffer_capacity : Option ℕ
  pub emit_to_events : Bool

-- `capacity.max(1)`.
unfoldable pub normalize_capacity : ℕ → ℕ
normalize_capacity capacity = if leb 1 capacity then capacity else 1

unfoldable pub default_with_capacity : ℕ → DiagnosticsConfig
default_with_capacity event_bus_capacity = record {
  enabled = true;
  buffer_capacity = some (normalize_capacity event_bus_capacity);
  emit_to_events = false;
}

unfoldable pub with_default_capacity : ℕ → DiagnosticsConfig → DiagnosticsConfig
with_default_capacity event_bus_capacity d = record d {
  buffer_capacity = elim d.buffer_capacity [
    | some c ↦ some c
    | none ↦ some (normalize_capacity event_bus_capacity)
  ];
}

unfoldable pub effective_capacity : DiagnosticsConfig → ℕ → ℕ
effective_capacity d event_bus_capacity = elim d.buffer_capacity [
  | some c ↦ c
  | none ↦ normalize_capacity event_bus_capacity
]

-- `DiagnosticsConfig::default`.
unfoldable pub default_diagnostics : DiagnosticsConfig
default_diagnostics = record { enabled = true; buffer_capacity = none; emit_to_events = false }

pub record EventBusConfig : Type 0 where
  pub buffer_capacity : ℕ
  pub sinks : List SinkConfig
  pub diagnostics : DiagnosticsConfig

abbrev pub default_buffer_capacity : ℕ
default_buffer_capacity = 1024

-- `EventBusConfig::new`.
unfoldable pub new_event_bus : ℕ → List SinkConfig → EventBusConfig
new_event_bus buffer_capacity sinks = record {
  buffer_capacity = if buffer_capacity == 0 then default_buffer_capacity else buffer_capacity;
  sinks = sinks;
  diagnostics = default_with_capacity buffer_capacity;
}

unfoldable pub with_stdout_only : EventBusConfig
with_stdout_only = new_event_bus default_buffer_capacity (std_out ∷ [])

unfoldable pub with_memory_sink : EventBusConfig
with_memory_sink = new_event_bus default_buffer_capacity (memory ∷ [])

unfoldable pub add_sink : SinkConfig → EventBusConfig → EventBusConfig
add_sink sink config = record config {
  sinks = if not (contains config.sinks sink) then config.sinks ++ sink ∷ [] else config.sinks;
}

unfoldable pub with_diagnostics : DiagnosticsConfig → EventBusConfig → EventBusConfig
with_diagnostics diagnostics config = record config {
  diagnostics = with_default_capacity config.buffer_capacity diagnostics;
}

-- Of src/event_bus/bus.rs and src/event_bus/hub.rs: a bus, by its sinks and by the capacities of the
-- two channels that it opens. A channel of capacity 0 panics.
pub record EventBus : Type 0 where
  pub sinks : List SinkConfig
  pub hub_capacity : ℕ
  pub diagnostics_channel : ℕ
  pub diagnostics_enabled : Bool
  pub diagnostics_emit_to_events : Bool

unfoldable pub with_capacity_and_diag : List SinkConfig → ℕ → ℕ → Bool → Bool → EventBus
with_capacity_and_diag sinks buffer_capacity diagnostics_capacity enabled emit = record {
  sinks = sinks;
  hub_capacity = normalize_capacity buffer_capacity;
  diagnostics_channel = if enabled then normalize_capacity diagnostics_capacity else 1;
  diagnostics_enabled = enabled;
  diagnostics_emit_to_events = emit;
}

unfoldable pub build_event_bus : EventBusConfig → EventBus
build_event_bus config =
    with_capacity_and_diag (if is_empty config.sinks then std_out ∷ [] else config.sinks)
      config.buffer_capacity (effective_capacity config.diagnostics config.buffer_capacity)
      config.diagnostics.enabled config.diagnostics.emit_to_events
