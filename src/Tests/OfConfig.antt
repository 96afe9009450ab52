-- ===== src/Tests/OfConfig.antt =====
-- src/runtimes/runtime_config.rs on concrete configurations.
use native.Mathlib.Decide.{ℕ_discrete}
use weavegraph.Base.{
  ℕ, ℕ-key, ◌==◌, ◌≤◌, ◌≡◌, ◌≢◌, refl, if◌then◌else◌, true, false, none, some, [], ◌∷◌,
}
use weavegraph.Config.{
  std_out, memory, DiagnosticsConfig, EventBusConfig, new_event_bus, add_sink, with_diagnostics,
  build_event_bus, default_with_capacity, normalize_capacity,
}
use weavegraph.Config.Capacity.{IsMade, made, added, diagnosed, build_event_bus_capacity}
use weavegraph.Config.Hash.{metadata_signature, diagnostics_signature}

abbrev quiet : DiagnosticsConfig
quiet = record { enabled = false; buffer_capacity = none; emit_to_events = true }

abbrev two_sinks : EventBusConfig
two_sinks = with_diagnostics quiet (add_sink std_out (add_sink memory (new_event_bus 0 [])))

two_sinks-IsMade : IsMade two_sinks
two_sinks-IsMade = diagnosed quiet (add_sink std_out (add_sink memory (new_event_bus 0 []))) (
    added std_out (add_sink memory (new_event_bus 0 []))
      (added memory (new_event_bus 0 []) (made 0 [])))

two_sinks_signature :
    metadata_signature (add_sink std_out (add_sink memory (new_event_bus 64 [])))
    ≡ "event_buffer:64" ∷ "event_sink:0:Memory" ∷ "event_sink:1:StdOut" ∷ "diagnostics_enabled:true"
      ∷ "diagnostics_capacity:64" ∷ "diagnostics_emit_to_events:false" ∷ []
unfolding ℕ_discrete metadata_signature diagnostics_signature add_sink new_event_bus
    default_with_capacity normalize_capacity
two_sinks_signature = refl

build_event_bus_capacity_example :
    ((build_event_bus two_sinks).sinks ≢ [])
    × ((build_event_bus two_sinks).hub_capacity ≡ two_sinks.buffer_capacity)
    × (1 ≤ two_sinks.buffer_capacity)
    × ((c : ℕ) × (two_sinks.diagnostics.buffer_capacity ≡ some c)
        × ((build_event_bus two_sinks).diagnostics_channel
            ≡ (if two_sinks.diagnostics.enabled then (if c == 0 then 1 else c) else 1)))
build_event_bus_capacity_example = build_event_bus_capacity two_sinks two_sinks-IsMade
