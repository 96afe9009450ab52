-- ===== src/Persistence.antt =====
-- src/runtimes/persistence.rs: the shapes in which states and checkpoints are stored, and the
-- conversions. The texts of times are chrono's, and a parameter.
use weavegraph.Base.{ℕ, String, ◌≡◌, refl, Option, none, some, List, [], ◌∷◌, map}
use weavegraph.Base.Map.{Map}
use weavegraph.Base.Result.{Result, ok, ◌>>=◌}
use weavegraph.Kind.{NodeKind, encode, decode}
use weavegraph.Kind.Codec.{decode-encode}
use weavegraph.State.{Message, ErrorEvent, VersionedState}
use weavegraph.Checkpoint.{Checkpoint}

pub record PersistedVecChannel (T : Type 0) : Type 0 where
  pub version : ℕ
  pub items : List T

pub record PersistedMapChannel (V : Type 0) : Type 0 where
  pub version : ℕ
  pub entries : Map String V

pub record PersistedState (V : Type 0) : Type 0 where
  pub messages : PersistedVecChannel Message
  pub extra : PersistedMapChannel V
  pub errors : PersistedVecChannel (ErrorEvent V)

-- `PersistedVersionsSeen` holds the one map that it wraps.
pub record PersistedVersionsSeen : Type 0 where
  pub seen : Map String (Map String ℕ)

pub record PersistedCheckpoint (V : Type 0) : Type 0 where
  pub session_id : String
  pub step : ℕ
  pub state : PersistedState V
  pub frontier : List String
  pub versions_seen : PersistedVersionsSeen
  pub concurrency_limit : ℕ
  pub created_at : String
  pub ran_nodes : List String
  pub skipped_nodes : List String
  pub updated_channels : List String

-- The errors of the JSON helpers, which no conversion below makes.
pub data PersistenceError : Type 0 where
  missing_field : String → PersistenceError
  serde : String → PersistenceError
  other : String → PersistenceError

-- `to_rfc3339` and `parse_from_rfc3339` of chrono.
pub record TimeText : Type 0 where
  pub to_rfc3339 : ℕ → String
  pub parse_from_rfc3339 : String → Option ℕ

-- A time that was printed is parsed back.
abbrev pub IsExact : TimeText → Type 0
IsExact time = (t : ℕ) → time.parse_from_rfc3339 (time.to_rfc3339 t) ≡ some t

-- The defaults of the two channels.
unfoldable pub empty_vec_channel : {T : Type 0} → PersistedVecChannel T
empty_vec_channel = record { version = 1; items = [] }

unfoldable pub empty_map_channel : {V : Type 0} → PersistedMapChannel V
empty_map_channel = record { version = 1; entries = [] }

abbrev pub parsed_or : ℕ → Option ℕ → ℕ
parsed_or now (some t) = t
parsed_or now none = now

pub decode_all : (kinds : List NodeKind) → map decode (map encode kinds) ≡ kinds
decode_all [] = refl
decode_all (k ∷ kinds) = rw (decode-encode k, decode_all kinds) refl

module _ {V : Type 0} where
  unfoldable pub persist_state : VersionedState V → PersistedState V
  persist_state s = record {
    messages = record { version = s.messages.version; items = s.messages.value };
    extra = record { version = s.extra.version; entries = s.extra.value };
    errors = record { version = s.errors.version; items = s.errors.value };
  }

  unfoldable pub restore_state : PersistedState V → Result PersistenceError (VersionedState V)
  restore_state p = ok record {
    messages = record { value = p.messages.items; version = p.messages.version };
    extra = record { value = p.extra.entries; version = p.extra.version };
    errors = record { value = p.errors.items; version = p.errors.version };
  }

  unfoldable pub persist_checkpoint : TimeText → Checkpoint V → PersistedCheckpoint V
  persist_checkpoint time cp = record {
    session_id = cp.session_id;
    step = cp.step;
    state = persist_state cp.state;
    frontier = map encode cp.frontier;
    versions_seen = record { seen = cp.versions_seen };
    concurrency_limit = cp.concurrency_limit;
    created_at = time.to_rfc3339 cp.created_at;
    ran_nodes = map encode cp.ran_nodes;
    skipped_nodes = map encode cp.skipped_nodes;
    updated_channels = cp.updated_channels;
  }

  -- `TryFrom<PersistedCheckpoint>`, which takes the time of the clock for a time that it cannot parse.
  unfoldable pub restore_checkpoint :
      TimeText → ℕ → PersistedCheckpoint V → Result PersistenceError (Checkpoint V)
  restore_checkpoint time now p = do
    state ← restore_state p.state
    ok record {
      session_id = p.session_id;
      step = p.step;
      state = state;
      frontier = map decode p.frontier;
      versions_seen = p.versions_seen.seen;
      concurrency_limit = p.concurrency_limit;
      created_at = parsed_or now (time.parse_from_rfc3339 p.created_at);
      ran_nodes = map decode p.ran_nodes;
      skipped_nodes = map decode p.skipped_nodes;
      updated_channels = p.updated_channels;
    }

  -- Where times are parsed back, a checkpoint comes back unchanged from what is stored of it.
  pub restore_checkpoint-persist_checkpoint :
      (time : TimeText) (now : ℕ) (cp : Checkpoint V)
      → IsExact time
      → restore_checkpoint time now (persist_checkpoint time cp) ≡ ok cp
  unfolding restore_checkpoint persist_checkpoint restore_state persist_state
  restore_checkpoint-persist_checkpoint time now cp exact =
      rw
        (
          exact cp.created_at,
          decode_all cp.frontier,
          decode_all cp.ran_nodes,
          decode_all cp.skipped_nodes,
        )
        refl

  -- The conversion of a stored checkpoint never fails. The time of the
  -- result is the one parsed, or else the clock's, and what is stored of the result is a checkpoint that converts to it again.
  pub restore_checkpoint_total :
      (time : TimeText) (now later : ℕ) (p : PersistedCheckpoint V)
      → IsExact time
      → (cp : Checkpoint V) × (restore_checkpoint time now p ≡ ok cp)
        × (cp.created_at ≡ parsed_or now (time.parse_from_rfc3339 p.created_at))
        × (restore_checkpoint time later (persist_checkpoint time cp) ≡ ok cp)
  unfolding restore_checkpoint restore_state
  restore_checkpoint_total time now later p exact =
      (_, refl, refl, restore_checkpoint-persist_checkpoint time later _ exact)
