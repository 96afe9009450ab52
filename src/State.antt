-- ===== src/State.antt =====
-- src/state.rs, src/message.rs, src/channels and the updates of src/node.rs. A JSON value is
-- serde_json's: what the program uses of it is the interface `Json`.
pub mod Slots
use weavegraph.Base.{
  ℕ, String, ◌≡◌, Bool, Option, none, some, List, [], ◌∷◌, ◌++◌, map, if◌then◌else◌, ◌==◌,
  String-key,
}
use weavegraph.Base.Map.{Map, put}
use weavegraph.Kind.{NodeKind, FrontierCommand, NodeRoute, append, replace}

-- serde_json::Value: the null value, the other values that the program builds, and `==`.
pub record Json (V : Type 0) : Type 0 where
  pub null : V
  pub text : String → V
  pub array : List V → V
  pub object : List (String × V) → V
  pub eq? : (a b : V) → Dec (a ≡ b)

-- `Value::is_null`.
abbrev pub is_null : {V : Type 0} ⦃json : Json V⦄ → V → Bool
is_null ⦃json⦄ v = elim (json.eq? v json.null) [ yes _ ↦ Bool.true | no _ ↦ Bool.false ]

pub data Role : Type 0 where
  user assistant system tool : Role
  custom : String → Role

unfoldable pub as_str : Role → String
as_str user = "user"
as_str assistant = "assistant"
as_str system = "system"
as_str tool = "tool"
as_str (custom s) = s

-- `From<&str> for Role`.
unfoldable pub role_from : String → Role
role_from s =
    if s == "user"
    then user
    else if s == "assistant"
    then assistant
    else if s == "system"
    then system
    else if s == "tool"
    then tool
    else custom s

pub record Message : Type 0 where
  pub role : Role
  pub content : String

pub data ErrorScope : Type 0 where
  node : String → ℕ → ErrorScope
  scheduler : ℕ → ErrorScope
  runner : String → ℕ → ErrorScope
  app : ErrorScope

-- A message and details, with or without the error that caused it.
pub data WeaveError (V : Type 0) : Type 0 where
  root : String → V → WeaveError V
  caused : String → WeaveError V → V → WeaveError V

unfoldable pub error_message : {V : Type 0} → WeaveError V → String
error_message (root message details) = message
error_message (caused message cause details) = message

-- `when` is a time of chrono, as a number: times are only compared.
pub record ErrorEvent (V : Type 0) : Type 0 where
  pub when : ℕ
  pub scope : ErrorScope
  pub error : WeaveError V
  pub tags : List String
  pub context : V

-- The three channels share this shape.
pub record Channel (A : Type 0) : Type 0 where
  pub value : A
  pub version : ℕ

pub record VersionedState (V : Type 0) : Type 0 where
  pub messages : Channel (List Message)
  pub extra : Channel (Map String V)
  pub errors : Channel (List (ErrorEvent V))

pub record StateSnapshot (V : Type 0) : Type 0 where
  pub messages : List Message
  pub messages_version : ℕ
  pub extra : Map String V
  pub extra_version : ℕ
  pub errors : List (ErrorEvent V)
  pub errors_version : ℕ

pub record NodePartial (V : Type 0) : Type 0 where
  pub messages : Option (List Message)
  pub extra : Option (Map String V)
  pub errors : Option (List (ErrorEvent V))
  pub frontier : Option FrontierCommand

module _ {V : Type 0} where
  unfoldable pub snapshot : VersionedState V → StateSnapshot V
  snapshot s = record {
    messages = s.messages.value;
    messages_version = s.messages.version;
    extra = s.extra.value;
    extra_version = s.extra.version;
    errors = s.errors.value;
    errors_version = s.errors.version;
  }

  -- The defaults of the channels have version 1.
  unfoldable pub new_with_messages : List Message → VersionedState V
  new_with_messages messages = record {
    messages = record { value = messages; version = 1 };
    extra = record { value = []; version = 1 };
    errors = record { value = []; version = 1 };
  }

  unfoldable pub new_with_user_message : String → VersionedState V
  unfolding new_with_messages
  new_with_user_message user_text =
      new_with_messages (record { role = user; content = user_text } ∷ [])

  unfoldable pub add_message : String → String → VersionedState V → VersionedState V
  unfolding role_from
  add_message role content s = record s {
    messages = record s.messages {
      value = s.messages.value ++ record { role = role_from role; content = content } ∷ [];
    };
  }

  unfoldable pub add_extra : String → V → VersionedState V → VersionedState V
  add_extra key value s = record s {
    extra = record s.extra { value = put key value s.extra.value };
  }

  -- `NodePartial::new`, the default.
  abbrev pub empty_partial : NodePartial V
  empty_partial = record { messages = none; extra = none; errors = none; frontier = none }

  unfoldable pub with_messages : List Message → NodePartial V → NodePartial V
  with_messages messages p = record p { messages = some messages }

  unfoldable pub with_extra : Map String V → NodePartial V → NodePartial V
  with_extra extra p = record p { extra = some extra }

  unfoldable pub with_errors : List (ErrorEvent V) → NodePartial V → NodePartial V
  with_errors errors p = record p { errors = some errors }

  unfoldable pub with_frontier_replace : List NodeKind → NodePartial V → NodePartial V
  with_frontier_replace targets p = record p {
    frontier = some (replace (map NodeRoute.node targets));
  }

  unfoldable pub with_frontier_append : List NodeKind → NodePartial V → NodePartial V
  with_frontier_append targets p = record p {
    frontier = some (append (map NodeRoute.node targets));
  }

  unfoldable pub with_frontier_command : FrontierCommand → NodePartial V → NodePartial V
  with_frontier_command command p = record p { frontier = some command }

  module _ ⦃json : Json V⦄ where
    abbrev pub put_nulls : List String → Map String V → Map String V
    put_nulls [] extra = extra
    put_nulls (key ∷ keys) extra = put_nulls keys (put key json.null extra)

    unfoldable pub clear_extra_keys : List String → NodePartial V → NodePartial V
    clear_extra_keys keys p = record p {
      extra = some (put_nulls keys (elim p.extra [ none ↦ [] | some extra ↦ extra ]));
    }
