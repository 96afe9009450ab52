-- ===== src/Reducers/Registry.antt =====
-- No registry makes `apply_all` fail: it visits only the channels that have reducers.
use weavegraph.Base.{◌≡◌, refl, ap, ◌∙◌, Bool-cases, inl, inr, List, [], ◌∷◌, In}
use weavegraph.Base.Map.{keys, in-get}
use weavegraph.Base.Result.{Result, ok, err}
use weavegraph.Kind.{ChannelType, ChannelType-key}
use weavegraph.State.{VersionedState, NodePartial}
use weavegraph.Reducers.{
  ReducerRegistry, ReducerError, channel_guard, try_update, update_channels, apply_all,
}

module _ {V : Type 0} (registry : ReducerRegistry V) (u : NodePartial V) where
  try_update-ok :
      (c : ChannelType) (s : VersionedState V)
      → In c (keys registry)
      → (try_update registry c s u).1 ≡ ok tt
  unfolding try_update
  try_update-ok c s i =
      let (reducers, found) = in-get c registry i in
      elim (Bool-cases (channel_guard c u)) [
        | inl given ↦ rw (given, found, try_update)
        | inr empty ↦ rw (empty, try_update)
      ]

  update_channels-ok :
      (cs : List ChannelType) (s : VersionedState V)
      → ((c : ChannelType) → In c cs → In c (keys registry))
      → (update_channels registry cs s u).1 ≡ ok tt
  unfolding update_channels
  update_channels-ok [] s h = refl
  update_channels-ok (c ∷ cs) s h =
      ap
        (λ (r : Result ReducerError (Unit {0})).
          (elim r as (λ _. VersionedState V × Result ReducerError (Unit {0})) [
            | ok _ ↦ update_channels registry cs (try_update registry c s u).0 u
            | err e ↦ ((try_update registry c s u).0, err e)
          ]).1)
        (try_update-ok c s (h c (inl refl)))
      ∙ update_channels-ok cs (try_update registry c s u).0 (λ d i. h d (inr i))

  -- Whatever reducers are registered, the application of an update does not fail.
  pub apply_all-ok : (s : VersionedState V) → (apply_all registry s u).1 ≡ ok tt
  unfolding apply_all
  apply_all-ok s = update_channels-ok (keys registry) s (λ c i. i)
