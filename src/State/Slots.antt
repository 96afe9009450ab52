-- ===== src/State/Slots.antt =====
-- src/state.rs: typed keys of the extras, and the builder of states. What serde_json makes of a typed
-- value is a parameter.
use Prim.Native.String.{◌++◌ as append_text}
use weavegraph.Base.{
  ℕ, ℕ-key, String, String-key, ◌≡◌, sym, ap, ◌∙◌, Bool, ◌&&◌, Option, none, some, inl, inr, ◌==◌,
}
use weavegraph.Base.Map.{get, put, get-put_self}
use weavegraph.Base.Result.{Result, ok, err, map_err, ◌>>=◌, Result-cases, ok-injective}
use weavegraph.Base.Utf8.{decimal}
use weavegraph.State.{VersionedState, StateSnapshot, add_extra, snapshot}

pub data StateLifecycle : Type 0 where
  durable invocation_scoped : StateLifecycle

pub record StateKey : Type 0 where
  pub namespace : String
  pub name : String
  pub schema_version : ℕ
  pub lifecycle : StateLifecycle

unfoldable pub new_key : String → String → ℕ → StateKey
new_key namespace name schema_version = record {
  namespace = namespace;
  name = name;
  schema_version = schema_version;
  lifecycle = durable;
}

-- `StateKey::invocation_scoped`.
unfoldable pub scoped : StateKey → StateKey
scoped key = record key { lifecycle = invocation_scoped }

-- `==` leaves the lifecycle out.
unfoldable pub same_key : StateKey → StateKey → Bool
same_key a b =
    (a.namespace == b.namespace) && (a.name == b.name) && (a.schema_version == b.schema_version)

unfoldable pub storage_key : StateKey → String
storage_key key =
    append_text key.namespace
      (append_text ":" (append_text key.name (append_text ":v" (decimal key.schema_version))))

pub data StateSlotError (X : Type 0) : Type 0 where
  missing : String → StateSlotError X
  serialize deserialize : String → X → StateSlotError X

-- `to_value` and `from_value` of serde_json at a type.
pub record Serde (V X T : Type 0) : Type 0 where
  pub to_value : T → Result X V
  pub from_value : V → Result X T

module _ {V X T : Type 0} (serde : Serde V X T) where
  unfoldable pub add_typed_extra :
      StateKey → T → VersionedState V → Result (StateSlotError X) (VersionedState V)
  add_typed_extra key value s = do
    json_value ← map_err (serialize (storage_key key)) (serde.to_value value)
    ok (add_extra (storage_key key) json_value s)

  abbrev transpose : String → Option V → Result (StateSlotError X) (Option T)
  transpose slot none = ok none
  transpose slot (some v) = map_err (deserialize slot) (serde.from_value v) >>= λ t. ok (some t)

  unfoldable pub get_typed : StateKey → StateSnapshot V → Result (StateSlotError X) (Option T)
  get_typed key s = transpose (storage_key key) (get (storage_key key) s.extra)

  abbrev found_or : String → Option T → Result (StateSlotError X) T
  found_or slot (some t) = ok t
  found_or slot none = err (missing slot)

  unfoldable pub require_typed : StateKey → StateSnapshot V → Result (StateSlotError X) T
  require_typed key s = get_typed key s >>= found_or (storage_key key)

  -- A value that serde_json takes back from what it makes of it is read back from the slot that it
  -- was written to, by any key of the slot.
  pub require_typed-add_typed_extra :
      (key other : StateKey) (value : T) (s after : VersionedState V)
      → ((v : V) → serde.to_value value ≡ ok v → serde.from_value v ≡ ok value)
      → storage_key key ≡ storage_key other
      → add_typed_extra key value s ≡ ok after
      → require_typed other (snapshot after) ≡ ok value
  unfolding require_typed get_typed add_typed_extra add_extra snapshot
  require_typed-add_typed_extra key other value s after back same h =
      elim (Result-cases (serde.to_value value)) [
        | inl (v, made) ↦
            let written : add_extra (storage_key key) v s ≡ after =
              ok-injective (StateSlotError X) (rw made at h) in
            let read : get (storage_key other) after.extra.value ≡ some v =
              ap (λ (x : VersionedState V). get (storage_key other) x.extra.value) (sym written)
              ∙ ap (λ k. get k (put (storage_key key) v s.extra.value)) (sym same)
              ∙ get-put_self (storage_key key) v s.extra.value in
            ap (λ o. transpose (storage_key other) o >>= found_or (storage_key other)) read
            ∙ ap
                (λ r.
                  (map_err (deserialize (storage_key other)) r >>= λ t. ok (some t))
                  >>= found_or (storage_key other))
                (back v made)
        | inr (e, failed) ↦
            let refused : ◌≡◌ {A = Result (StateSlotError X) (VersionedState V)}
                (err (serialize (storage_key key) e)) (ok after) =
              rw failed at h in
            absurd cc
      ]
