-- ===== src/Tests/OfBarrier.antt =====
-- The barrier theorems on two partials.
use weavegraph.Base.{◌≡◌, ◌++◌, refl, String, String-key, [], ◌∷◌, none, is_empty, if◌then◌else◌}
use weavegraph.Base.Map.{get, has_distinct_keys-IsMap}
use weavegraph.Base.Result.{ok}
use weavegraph.Base.{List}
use weavegraph.State.{ErrorEvent}
use weavegraph.Barrier.Sorted.{IsSorting}
use weavegraph.Reducers.{default_registry}
use weavegraph.Barrier.{apply_barrier, saturating_add, BarrierOutcome}
use weavegraph.Barrier.Effect.{
  all_messages, all_errors, apply_barrier-messages, apply_barrier-errors,
}
use weavegraph.Barrier.Writes.{AreMaps}
use weavegraph.Barrier.Extra.{apply_barrier-extra}
use weavegraph.Tests.Values.{
  nil, node_a, node_b, Value, Value-json, text, one_user_message, two_partials,
}

two_partials-AreMaps : AreMaps two_partials
two_partials-AreMaps = (
  has_distinct_keys-IsMap {K = String} (("topic", text "dogs") ∷ []) refl,
  (has_distinct_keys-IsMap {K = String} (("topic", nil) ∷ []) refl, tt),
)

apply_barrier-messages_example :
    ((apply_barrier default_registry one_user_message (node_a ∷ []) two_partials).0.messages.value
      ≡ one_user_message.messages.value ++ all_messages two_partials)
    × ((apply_barrier default_registry one_user_message
          (node_a ∷ [])
          two_partials).0.messages.version
        ≡ (if is_empty (all_messages two_partials) then 1 else saturating_add 1 1))
apply_barrier-messages_example = apply_barrier-messages one_user_message (node_a ∷ []) two_partials

apply_barrier-errors_example :
    (sorted : List (ErrorEvent Value)) × IsSorting (all_errors two_partials) sorted
    × ((apply_barrier default_registry one_user_message (node_a ∷ []) two_partials).0.errors.value
        ≡ one_user_message.errors.value ++ sorted)
    × ((apply_barrier default_registry one_user_message (node_a ∷ []) two_partials).0.errors.version
        ≡ 1)
    × ((outcome : BarrierOutcome Value) × ((apply_barrier default_registry one_user_message
            (node_a ∷ [])
            two_partials).1
          ≡ ok outcome)
        × (outcome.errors ≡ sorted))
apply_barrier-errors_example = apply_barrier-errors one_user_message (node_a ∷ []) two_partials

apply_barrier-extra_example :
    get "topic"
      (apply_barrier default_registry one_user_message
        (node_a ∷ node_b ∷ [])
        two_partials).0.extra.value
    ≡ none
unfolding get
apply_barrier-extra_example =
    apply_barrier-extra one_user_message (node_a ∷ node_b ∷ []) two_partials "topic"
      two_partials-AreMaps
