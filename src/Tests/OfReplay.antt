-- ===== src/Tests/OfReplay.antt =====
-- src/runtimes/replay.rs and the typed keys of src/state.rs on concrete values.
use native.Mathlib.Decide.{ℕ_discrete}
use weavegraph.Base.{
  ℕ, ℕ-key, String, String-key, str_apart, ◌≡◌, ◌↔◌, refl, sym, ◌∙◌, inl, inr, true, Option, none,
  some, List, [], ◌∷◌, map, length, ◌==◌, same-test, Bool-cases,
}
use weavegraph.Base.Map.{Map, get, remove}
use weavegraph.State.{Role, Message, VersionedState}
use weavegraph.State.Slots.{StateKey, storage_key, durable, invocation_scoped}
use weavegraph.Utils.Json.{
  Value, null, number, string, array, object, Items, nil, item, Fields, no_fields, field,
}
use weavegraph.Replay.{
  PartForms, ReplayRun, StateNormalizeProfile, add_raw, is_match, compare_replay_runs_with_profile,
  normalize_event,
}
use weavegraph.Replay.Profile.{SameUnder, IsFaithful, compare_replay_runs_with_profile-is_match}

abbrev tick : StateKey
tick = record { namespace = "wq"; name = "tick"; schema_version = 1; lifecycle = invocation_scoped }

slot_of_tick : storage_key tick ≡ "wq:tick:v1"
unfolding ℕ_discrete storage_key
slot_of_tick = refl

-- The raw key keeps no lifecycle, and two typed keys that conflict are both accepted after it.
conflict_missed :
    add_raw "wq:tick:v1" (some durable) (("wq:tick:v1", none) ∷ [])
    ≡ some (("wq:tick:v1", none) ∷ [])
unfolding add_raw
conflict_missed = refl

conflict_found :
    add_raw "wq:tick:v1" (some durable) (("wq:tick:v1", some invocation_scoped) ∷ []) ≡ none
unfolding add_raw
conflict_found = refl

abbrev said : String → Message
said content = record { role = Role.user; content = content }

abbrev state_of : ℕ → Map String ℕ → VersionedState ℕ
state_of version extras = record {
  messages = record { value = said "hello" ∷ []; version = version };
  extra = record { value = extras; version = 5 };
  errors = record { value = []; version = 1 };
}

abbrev run_of : ℕ → Map String ℕ → ReplayRun ℕ (Value ℕ)
run_of version extras = record { final_state = state_of version extras; events = null ∷ [] }

-- Two runs whose extras differ in the ignored key and in their order.
abbrev first : Map String ℕ
first = ("wq:tick:v1", 1) ∷ ("total", 7) ∷ ("left", 4) ∷ []

abbrev second : Map String ℕ
second = ("left", 4) ∷ ("total", 7) ∷ ("wq:tick:v1", 2) ∷ []

abbrev ignored : StateNormalizeProfile
ignored = ("wq:tick:v1", some invocation_scoped) ∷ []

abbrev contents : List Message → Items ℕ
contents [] = nil
contents (m ∷ ms) = item (string m.content) (contents ms)

abbrev of_found : String → Option ℕ → Fields ℕ → Fields ℕ
of_found k (some n) rest = field k (number n) rest
of_found k none rest = rest

-- The extras by their keys, of which there are three.
abbrev listed : Map String ℕ → Fields ℕ
listed m =
    of_found "left" (get "left" m)
      (of_found "total" (get "total" m) (of_found "wq:tick:v1" (get "wq:tick:v1" m) no_fields))

abbrev forms : PartForms ℕ ℕ
forms = record {
  of_messages = λ ms. array (contents ms);
  of_extra = λ m. object (listed m);
  of_errors = λ es. number (length es);
  of_version = λ n. n;
}

same_left : (k : String) → get k (remove "wq:tick:v1" first) ≡ get k (remove "wq:tick:v1" second)
unfolding get remove
same_left k = elim (Bool-cases ("total" == k)) [
  | inr other ↦ rw other refl
  | inl total ↦ elim (Bool-cases ("left" == k)) [
    | inr other ↦ rw (other, total) refl
    | inl left ↦
        absurd (
          str_apart "total" "left" refl (same-test "total" k total ∙ sym (same-test "left" k left)))
  ]
]

forms-IsFaithful : IsFaithful forms ignored (state_of 3 first) (state_of 3 second)
unfolding remove get
forms-IsFaithful = (λ _. refl, (λ _. same_left, λ _. refl), λ _. refl, λ m n e. e)

compare_replay_runs_with_profile-is_match_example :
    (is_match
        (compare_replay_runs_with_profile forms (run_of 3 first) (run_of 3 second) ignored (λ e. e))
      ≡ true)
    ↔ (SameUnder ignored (state_of 3 first) (state_of 3 second)
        × (map (λ (e : Value ℕ). e) (null ∷ []) ≡ map (λ (e : Value ℕ). e) (null ∷ [])))
compare_replay_runs_with_profile-is_match_example =
    compare_replay_runs_with_profile-is_match forms (run_of 3 first) (run_of 3 second) ignored
      (λ e. e) forms-IsFaithful

abbrev stamped : String → Value ℕ
stamped time = object (field "type" (string "node") (field "timestamp" (string time) no_fields))

timestamp_ignored :
    normalize_event (λ e. e) (stamped "noon") ≡ normalize_event (λ e. e) (stamped "one")
unfolding normalize_event
timestamp_ignored = refl
