-- ===== src/Barrier/Default.antt =====
-- The default registry: what the three reducers make of an update.
use mathlib.Core.List.{append-nil}
use weavegraph.Base.{
  ◌≡◌, refl, some, Option-cases, List-cases, List, [], ◌∷◌, ◌++◌, inl, inr, ap, ◌∙◌,
}
use weavegraph.Base.Map.{get, put, keys}
use weavegraph.Base.Result.{Result, ok}
use weavegraph.Kind.{ChannelType, message, error, extra, ChannelType-key}
use weavegraph.State.{Json, VersionedState, NodePartial}
use weavegraph.Reducers.{
  ReducerRegistry, ReducerError, default_registry, try_update, update_channels, apply_all,
  merge_into, add_messages, add_errors, map_merge,
}
use weavegraph.Barrier.{items}

keys_of_default :
    (V : Type 0) ⦃json : Json V⦄ → keys (default_registry {V = V}) ≡ message ∷ extra ∷ error ∷ []
unfolding default_registry put get
keys_of_default V = refl

module _ {V : Type 0} ⦃json : Json V⦄ where
  -- All updates of a partial applied to a state.
  unfoldable pub reduced : VersionedState V → NodePartial V → VersionedState V
  reduced s u = record {
    messages = record s.messages { value = s.messages.value ++ items u.messages };
    extra = record s.extra { value = merge_into (items u.extra) s.extra.value };
    errors = record s.errors { value = s.errors.value ++ items u.errors };
  }

  update_message :
      (s : VersionedState V) (u : NodePartial V)
      → try_update default_registry message s u ≡ (
        record s { messages = record s.messages { value = s.messages.value ++ items u.messages } },
        ok tt,
      )
  unfolding try_update default_registry get put add_messages
  update_message s u = elim (Option-cases u.messages) [
    | inl none_given ↦ rw (none_given, try_update, add_messages, append-nil)
    | inr (xs, given) ↦ elim (List-cases xs) [
      | inl empty ↦ rw (given ∙ ap some empty, try_update, add_messages, append-nil)
      | inr (x, rest, more) ↦ rw (given ∙ ap some more, try_update, add_messages)
    ]
  ]

  update_extra :
      (s : VersionedState V) (u : NodePartial V)
      → try_update default_registry extra s u ≡ (
        record s { extra = record s.extra { value = merge_into (items u.extra) s.extra.value } },
        ok tt,
      )
  unfolding try_update default_registry get put map_merge
  update_extra s u = elim (Option-cases u.extra) [
    | inl none_given ↦ rw (none_given, try_update, map_merge)
    | inr (xs, given) ↦ elim (List-cases xs) [
      | inl empty ↦ rw (given ∙ ap some empty, try_update, map_merge)
      | inr (x, rest, more) ↦ rw (given ∙ ap some more, try_update, map_merge)
    ]
  ]

  update_error :
      (s : VersionedState V) (u : NodePartial V)
      → try_update default_registry error s u ≡ (
        record s { errors = record s.errors { value = s.errors.value ++ items u.errors } },
        ok tt,
      )
  unfolding try_update default_registry get put add_errors
  update_error s u = elim (Option-cases u.errors) [
    | inl none_given ↦ rw (none_given, try_update, add_errors, append-nil)
    | inr (xs, given) ↦ elim (List-cases xs) [
      | inl empty ↦ rw (given ∙ ap some empty, try_update, add_errors, append-nil)
      | inr (x, rest, more) ↦ rw (given ∙ ap some more, try_update, add_errors)
    ]
  ]

  update_channels-cons :
      (registry : ReducerRegistry V) (c : ChannelType) (cs : List ChannelType)
      (s t : VersionedState V) (u : NodePartial V)
      → try_update registry c s u ≡ (t, ok tt)
      → update_channels registry (c ∷ cs) s u ≡ update_channels registry cs t u
  unfolding update_channels
  update_channels-cons registry c cs s t u e =
      rw (e, update_channels)
        (ap
          (λ (p : VersionedState V × Result ReducerError (Unit {0})).
            update_channels registry cs p.0 u)
          e)

  -- The three reducers change one channel each, and none of them fails.
  pub apply_all-default :
      (s : VersionedState V) (u : NodePartial V)
      → apply_all default_registry s u ≡ (reduced s u, ok tt)
  unfolding apply_all reduced update_channels
  apply_all-default s u = rw (keys_of_default V) (
      update_channels-cons default_registry message (extra ∷ error ∷ []) s _ u (update_message s u)
      ∙ update_channels-cons default_registry extra (error ∷ []) _ _ u (update_extra _ u)
      ∙ update_channels-cons default_registry error [] _ _ u (update_error _ u))
