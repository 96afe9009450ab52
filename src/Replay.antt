-- ===== src/Replay.antt =====
-- src/runtimes/replay.rs: the comparison of recorded runs. A difference is a value in place of its
-- text. What serde_json makes of messages, extras, errors and numbers, and the JSON forms of events, are
-- parameters.
pub mod Profile
pub mod Match
use weavegraph.Base.{
  ℕ, zero, suc, ℕ-key, String, String-key, ◌≡◌, refl, Bool, true, false, not, ◌&&◌, Option, none,
  some, List, [], ◌∷◌, ◌++◌, map, length, find, is_empty, if◌then◌else◌, ◌==◌, Key,
}
use weavegraph.Base.Map.{Map, get, remove, keys}
use weavegraph.Base.Result.{Result, ok, err}
use weavegraph.State.{Message, ErrorEvent, VersionedState}
use weavegraph.Utils.Json.Equal.{Value-key}
use weavegraph.Utils.Json.{Value, number, object, Fields, no_fields, field}
use weavegraph.State.Slots.{StateLifecycle, durable, invocation_scoped, StateKey, storage_key}

pub record ReplayRun (V E : Type 0) : Type 0 where
  pub final_state : VersionedState V
  pub events : List E

pub data Difference (W : Type 0) : Type 0 where
  final_state_differs : W → W → Difference W
  event_count_differs : ℕ → ℕ → Difference W
  event_differs : ℕ → W → W → Difference W

pub record ReplayComparison (W : Type 0) : Type 0 where
  pub differences : List (Difference W)

pub data ReplayConformanceError (W : Type 0) : Type 0 where
  mismatch : List (Difference W) → ReplayConformanceError W

-- `StateNormalizeProfile`: keys, each with the lifecycle of the typed key that brought it.
abbrev pub StateNormalizeProfile : Type 0
StateNormalizeProfile = List (String × Option StateLifecycle)

abbrev pub conflicting : Option StateLifecycle → Option StateLifecycle → Bool
conflicting (some durable) (some invocation_scoped) = true
conflicting (some invocation_scoped) (some durable) = true
conflicting _ _ = false

-- `None` where the code panics on conflicting lifecycles.
unfoldable pub add_raw :
    String → Option StateLifecycle → StateNormalizeProfile → Option StateNormalizeProfile
add_raw key lifecycle ignored = elim (find (λ entry. entry.0 == key) ignored) [
  | some (_, existing) ↦ if conflicting existing lifecycle then none else some ignored
  | none ↦ some (ignored ++ (key, lifecycle) ∷ [])
]

unfoldable pub ignore_extra_keys :
    List String → StateNormalizeProfile → Option StateNormalizeProfile
ignore_extra_keys [] ignored = some ignored
ignore_extra_keys (key ∷ rest) ignored = elim (add_raw key none ignored) [
  | some next ↦ ignore_extra_keys rest next
  | none ↦ none
]

unfoldable pub ignore_key : StateKey → StateNormalizeProfile → Option StateNormalizeProfile
ignore_key key ignored = add_raw (storage_key key) (some key.lifecycle) ignored

abbrev pub ignored_keys : StateNormalizeProfile → List String
ignored_keys ignored = keys ignored

-- The loop that takes the ignored keys out of the extras.
abbrev pub remove_all : {A : Type 0} → List String → Map String A → Map String A
remove_all [] extra = extra
remove_all (k ∷ ks) extra = remove_all ks (remove k extra)

module _ {W : Type 0} where
  unfoldable pub matched : ReplayComparison W
  matched = record { differences = [] }

  unfoldable pub with_differences : List (Difference W) → ReplayComparison W
  with_differences differences = record { differences = differences }

  unfoldable pub is_match : ReplayComparison W → Bool
  is_match comparison = is_empty comparison.differences

  unfoldable pub assert_matches : ReplayComparison W → Result (ReplayConformanceError W) (Unit {0})
  assert_matches comparison =
      if is_match comparison then ok tt else err (mismatch comparison.differences)

  module _ ⦃key : Key W⦄ where
    abbrev pub same_values : List W → List W → Bool
    same_values [] [] = true
    same_values (x ∷ xs) (y ∷ ys) = (x == y) && same_values xs ys
    same_values xs ys = false

    -- The loop over the events that both have, which ends at the first difference.
    abbrev pub first_difference : ℕ → List W → List W → List (Difference W)
    first_difference index (x ∷ xs) (y ∷ ys) =
        let rest = first_difference (suc index) xs ys in
        if x == y then rest else event_differs index x y ∷ []
    first_difference index xs ys = []

    unfoldable pub compare_event_sequences_with :
        {E : Type 0} → List E → List E → (E → W) → ReplayComparison W
    compare_event_sequences_with left right normalizer =
        let left_values = map normalizer left in
        let right_values = map normalizer right in
        if same_values left_values right_values
        then matched
        else with_differences (
            (if length left_values == length right_values
              then []
              else event_count_differs (length left_values) (length right_values) ∷ [])
            ++ first_difference 0 left_values right_values)

-- serde_json: the values of the parts of a state.
pub record PartForms (V N : Type 0) : Type 0 where
  pub of_messages : List Message → Value N
  pub of_extra : Map String V → Value N
  pub of_errors : List (ErrorEvent V) → Value N
  pub of_version : ℕ → N

module _ {V N : Type 0} ⦃key : Key N⦄ (forms : PartForms V N) where
  -- The `json!` of the two normalizers, with the extras of its own.
  abbrev pub state_value : VersionedState V → Map String V → Value N
  state_value s extra = object (
      field "messages" (forms.of_messages s.messages.value) (
        field "messages_version" (number (forms.of_version s.messages.version)) (
          field "extra" (forms.of_extra extra) (
            field "extra_version" (number (forms.of_version s.extra.version)) (
              field "errors" (forms.of_errors s.errors.value)
                (field "errors_version" (number (forms.of_version s.errors.version)) no_fields))))))

  unfoldable pub normalize_state : VersionedState V → Value N
  normalize_state s = state_value s s.extra.value

  unfoldable pub normalize_state_with : VersionedState V → StateNormalizeProfile → Value N
  normalize_state_with s profile = state_value s (remove_all (ignored_keys profile) s.extra.value)

  abbrev pub compare_values : Value N → Value N → ReplayComparison (Value N)
  compare_values left right =
      if left == right then matched else with_differences (final_state_differs left right ∷ [])

  unfoldable pub compare_final_state :
      VersionedState V → VersionedState V → ReplayComparison (Value N)
  compare_final_state left right = compare_values (normalize_state left) (normalize_state right)

  unfoldable pub compare_final_state_with :
      VersionedState V → VersionedState V → StateNormalizeProfile → ReplayComparison (Value N)
  compare_final_state_with left right profile =
      compare_values (normalize_state_with left profile) (normalize_state_with right profile)

  unfoldable pub compare_replay_runs_with :
      {E : Type 0} → ReplayRun V E → ReplayRun V E → (E → Value N) → ReplayComparison (Value N)
  compare_replay_runs_with left right event_normalizer = with_differences (
      (compare_final_state left.final_state right.final_state).differences
      ++ (compare_event_sequences_with left.events right.events event_normalizer).differences)

  unfoldable pub compare_replay_runs_with_profile :
      {E : Type 0}
      → ReplayRun V E
      → ReplayRun V E
      → StateNormalizeProfile
      → (E → Value N)
      → ReplayComparison (Value N)
  compare_replay_runs_with_profile left right profile event_normalizer = with_differences (
      (compare_final_state_with left.final_state right.final_state profile).differences
      ++ (compare_event_sequences_with left.events right.events event_normalizer).differences)

-- The default normaliser, by the JSON form `to_json_value` of an event.
module _ {E N : Type 0} (to_json_value : E → Value N) where
  abbrev pub remove_field : String → Fields N → Fields N
  remove_field k no_fields = no_fields
  remove_field k (field j v fs) =
      let rest = remove_field k fs in if j == k then rest else field j v rest

  abbrev pub without_timestamp : Value N → Value N
  without_timestamp (object fs) = object (remove_field "timestamp" fs)
  without_timestamp v = v

  unfoldable pub normalize_event : E → Value N
  normalize_event event = without_timestamp (to_json_value event)

  module _ ⦃key : Key N⦄ where
    unfoldable pub compare_event_sequences : List E → List E → ReplayComparison (Value N)
    compare_event_sequences left right = compare_event_sequences_with left right normalize_event

    unfoldable pub compare_replay_runs :
        {V : Type 0} → PartForms V N → ReplayRun V E → ReplayRun V E → ReplayComparison (Value N)
    compare_replay_runs forms left right = compare_replay_runs_with forms left right normalize_event
