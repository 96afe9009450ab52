-- ===== src/Reducers.antt =====
-- src/reducers: the three reducers and the registry that applies them.
pub mod Registry
use weavegraph.Base.{
  String, Bool, false, not, Option, none, some, List, [], ◌∷◌, ◌++◌, is_empty, if◌then◌else◌,
  String-key,
}
use weavegraph.Base.Map.{Map, get, put, remove, keys}
use weavegraph.Base.Result.{Result, ok, err}
use weavegraph.Kind.{ChannelType, message, error, extra, ChannelType-key}
use weavegraph.State.{Json, is_null, VersionedState, NodePartial}

-- What implements the trait `Reducer` is its `apply`.
abbrev pub Reducer : Type 0 → Type 0
Reducer V = VersionedState V → NodePartial V → VersionedState V

pub data ReducerError : Type 0 where
  unknown_channel : ChannelType → ReducerError
  apply : ChannelType → String → ReducerError

abbrev pub ReducerRegistry : Type 0 → Type 0
ReducerRegistry V = Map ChannelType (List (Reducer V))

-- `as_ref().map(|v| !v.is_empty()).unwrap_or(false)`.
abbrev pub has_items : {A : Type 0} → Option (List A) → Bool
has_items none = false
has_items (some items) = not (is_empty items)

module _ {V : Type 0} where
  unfoldable pub add_messages : Reducer V
  add_messages state update = elim update.messages [
    | none ↦ state
    | some msgs ↦ record state {
      messages = record state.messages { value = state.messages.value ++ msgs };
    }
  ]

  unfoldable pub add_errors : Reducer V
  add_errors state update = elim update.errors [
    | none ↦ state
    | some events ↦
        if is_empty events
        then state
        else record state { errors = record state.errors { value = state.errors.value ++ events } }
  ]

  unfoldable pub channel_guard : ChannelType → NodePartial V → Bool
  channel_guard message partial = has_items partial.messages
  channel_guard extra partial = has_items partial.extra
  channel_guard error partial = has_items partial.errors

  unfoldable pub register : ChannelType → Reducer V → ReducerRegistry V → ReducerRegistry V
  register channel reducer registry =
      put channel
        (elim (get channel registry) [
          | none ↦ reducer ∷ []
          | some reducers ↦ reducers ++ reducer ∷ []
        ])
        registry

  -- `ReducerRegistry::with_reducer`, for chains of calls.
  unfoldable pub with_reducer : ChannelType → Reducer V → ReducerRegistry V → ReducerRegistry V
  unfolding register
  with_reducer channel reducer registry = register channel reducer registry

  unfoldable pub apply_reducers :
      List (Reducer V) → VersionedState V → NodePartial V → VersionedState V
  apply_reducers [] state update = state
  apply_reducers (reducer ∷ reducers) state update =
      apply_reducers reducers (reducer state update) update

  -- The state comes back beside an error too.
  unfoldable pub try_update :
      ReducerRegistry V
      → ChannelType
      → VersionedState V
      → NodePartial V
      → VersionedState V × Result ReducerError (Unit {0})
  unfolding channel_guard apply_reducers
  try_update registry channel state update =
      if channel_guard channel update
      then elim (get channel registry) [
        | some reducers ↦ (apply_reducers reducers state update, ok tt)
        | none ↦ (state, err (unknown_channel channel))
      ]
      else (state, ok tt)

  unfoldable pub update_channels :
      ReducerRegistry V
      → List ChannelType
      → VersionedState V
      → NodePartial V
      → VersionedState V × Result ReducerError (Unit {0})
  update_channels registry [] state update = (state, ok tt)
  update_channels registry (channel ∷ channels) state update =
      let (state', result) = try_update registry channel state update in
      let rest = update_channels registry channels state' update in
      elim result [ ok _ ↦ rest | err e ↦ (state', err e) ]

  unfoldable pub apply_all :
      ReducerRegistry V
      → VersionedState V
      → NodePartial V
      → VersionedState V × Result ReducerError (Unit {0})
  apply_all registry state update = update_channels registry (keys registry) state update

  module _ ⦃json : Json V⦄ where
    -- A null deletes its key.
    unfoldable pub merge_into : Map String V → Map String V → Map String V
    merge_into [] state_map = state_map
    merge_into ((k, v) ∷ update) state_map =
        merge_into update (if is_null v then remove k state_map else put k v state_map)

    unfoldable pub map_merge : Reducer V
    unfolding merge_into
    map_merge state update = elim update.extra [
      | none ↦ state
      | some extras ↦ if is_empty extras then state else record state {
        extra = record state.extra { value = merge_into extras state.extra.value };
      }
    ]

    unfoldable pub default_registry : ReducerRegistry V
    unfolding register
    default_registry =
        register error add_errors (register extra map_merge (register message add_messages []))
