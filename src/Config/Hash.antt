-- ===== src/Config/Hash.antt =====
-- The hash of a configuration: 64-bit FNV-1a over its parts, each ended by the byte 255.
use Prim.Native.Nat.{bit_xor}
use Prim.Native.String.{◌++◌ as append_text}
use weavegraph.Base.{
  ℕ, suc, ◌*◌, ◌%◌, ◌^◌, ◌<◌, String, ◌≡◌, refl, sym, ap, ◌∙◌, Bool, true, false, Option, none,
  some, List, [], ◌∷◌, ◌++◌, map, All, arith,
}
use weavegraph.Base.Utf8.{bytes, decimal, hex, bytes-lt}
use weavegraph.Config.{
  SinkConfig, std_out, memory, DiagnosticsConfig, EventBusConfig, with_stdout_only,
}

abbrev hash_step : ℕ → ℕ → ℕ
hash_step hash byte = bit_xor hash byte * 1099511628211 % 2 ^ 64

abbrev pub hash_stream : ℕ → List ℕ → ℕ
hash_stream hash [] = hash
hash_stream hash (b ∷ bs) = hash_stream (hash_step hash b) bs

unfoldable pub hash_all : List String → ℕ → ℕ
hash_all [] hash = hash
hash_all (part ∷ parts) hash = hash_all parts (hash_stream hash (bytes part ++ 255 ∷ []))

unfoldable pub hash_parts : List String → String
hash_parts parts = hex 16 (hash_all parts 14695981039346656037)

-- All the bytes that are hashed.
abbrev pub stream : List String → List ℕ
stream [] = []
stream (part ∷ parts) = bytes part ++ 255 ∷ stream parts

hash_stream-append :
    (hash : ℕ) (xs ys : List ℕ) → hash_stream hash (xs ++ ys) ≡ hash_stream (hash_stream hash xs) ys
hash_stream-append hash [] ys = refl
hash_stream-append hash (x ∷ xs) ys = hash_stream-append (hash_step hash x) xs ys

hash_all-stream :
    (parts : List String) (hash : ℕ) → hash_all parts hash ≡ hash_stream hash (stream parts)
unfolding hash_all
hash_all-stream [] hash = refl
hash_all-stream (part ∷ parts) hash =
    hash_all-stream parts (hash_stream hash (bytes part ++ 255 ∷ []))
    ∙ ap (λ h. hash_stream h (stream parts)) (hash_stream-append hash (bytes part) (255 ∷ []))
    ∙ sym (hash_stream-append hash (bytes part) (255 ∷ stream parts))

-- The byte 255 tells where a part ends.
part_ends :
    (xs ys r s : List ℕ)
    → All (λ b. b < 255) xs
    → All (λ b. b < 255) ys
    → xs ++ 255 ∷ r ≡ ys ++ 255 ∷ s
    → (xs ≡ ys) × (r ≡ s)
part_ends [] [] r s a b e = (refl, cc)
part_ends [] (y ∷ ys) r s a (below, b) e = let same : 255 ≡ y = cc in absurd (omega arith)
part_ends (x ∷ xs) [] r s (below, a) b e = let same : x ≡ 255 = cc in absurd (omega arith)
part_ends (x ∷ xs) (y ∷ ys) r s (_, a) (_, b) e =
    let (same, rest) = part_ends xs ys r s a b cc in let head : x ≡ y = cc in (cc, rest)

not_empty : (xs r : List ℕ) → ¬ ([] ≡ xs ++ 255 ∷ r)
not_empty [] r e = cc
not_empty (x ∷ xs) r e = cc

stream-injective : (ps qs : List String) → stream ps ≡ stream qs → map bytes ps ≡ map bytes qs
stream-injective [] [] e = refl
stream-injective [] (q ∷ qs) e = absurd (not_empty (bytes q) (stream qs) e)
stream-injective (p ∷ ps) [] e = absurd (not_empty (bytes p) (stream ps) (sym e))
stream-injective (p ∷ ps) (q ∷ qs) e =
    let (same, rest) =
      part_ends (bytes p) (bytes q) (stream ps) (stream qs) (bytes-lt p) (bytes-lt q) e in
    let others = stream-injective ps qs rest in cc

-- The hash is FNV-1a of a stream of bytes, and the stream of another list of parts is the same only
-- if all its parts have the same bytes.
pub hash_parts-stream :
    (parts : List String)
    → (hash_parts parts ≡ hex 16 (hash_stream 14695981039346656037 (stream parts)))
      × ((others : List String) → stream parts ≡ stream others → map bytes parts ≡ map bytes others)
unfolding hash_parts
hash_parts-stream parts =
    (ap (hex 16) (hash_all-stream parts 14695981039346656037), stream-injective parts)

-- `{sink:?}`, `{}` of a Boolean.
abbrev pub show_sink : SinkConfig → String
show_sink std_out = "StdOut"
show_sink memory = "Memory"

abbrev show_bool : Bool → String
show_bool true = "true"
show_bool false = "false"

unfoldable pub diagnostics_signature : DiagnosticsConfig → List String
diagnostics_signature d =
    append_text "diagnostics_enabled:" (show_bool d.enabled)
    ∷ append_text "diagnostics_capacity:"
        (elim d.buffer_capacity [ some c ↦ decimal c | none ↦ "" ])
    ∷ append_text "diagnostics_emit_to_events:" (show_bool d.emit_to_events)
    ∷ []

abbrev sink_parts : ℕ → List SinkConfig → List String
sink_parts index [] = []
sink_parts index (sink ∷ sinks) =
    append_text "event_sink:" (append_text (decimal index) (append_text ":" (show_sink sink)))
    ∷ sink_parts (suc index) sinks

-- `EventBusConfig::metadata_signature`.
unfoldable pub metadata_signature : EventBusConfig → List String
metadata_signature config =
    append_text "event_buffer:" (decimal config.buffer_capacity) ∷ sink_parts 0 config.sinks
    ++ diagnostics_signature config.diagnostics

-- The checkpointer and the clock of a configuration are values of types of the program.
pub record RuntimeConfig (C T : Type 0) : Type 0 where
  pub session_id : Option String
  pub checkpointer_custom : Option C
  pub sqlite_db_name : Option String
  pub event_bus : EventBusConfig
  pub clock : Option T

-- `environment` is the variable SQLITE_DB_NAME, as the file .env leaves it.
unfoldable pub resolve_sqlite_db_name : Option String → Option String → Option String
resolve_sqlite_db_name environment (some name) = some name
resolve_sqlite_db_name (some name) none = some name
resolve_sqlite_db_name none none = some "weavegraph.db"

abbrev text_of : Option String → String
text_of (some s) = s
text_of none = ""

abbrev is_some {ℓ} : {A : Type ℓ} → Option A → Bool
is_some (some a) = true
is_some none = false

module _ {C T : Type 0} where
  -- `RuntimeConfig::new`; `default` is the one without a session and a name.
  unfoldable pub new_config : Option String → Option String → Option String → RuntimeConfig C T
  new_config environment session_id sqlite_db_name = record {
    session_id = session_id;
    checkpointer_custom = none;
    sqlite_db_name = resolve_sqlite_db_name environment sqlite_db_name;
    event_bus = with_stdout_only;
    clock = none;
  }

  unfoldable pub clock_mode : RuntimeConfig C T → String
  clock_mode config = elim config.clock [ some _ ↦ "configured" | none ↦ "unset" ]

  unfoldable pub config_parts : RuntimeConfig C T → List String
  config_parts config =
      "weavegraph-runtime-config-v1"
      ∷ append_text "session_id:" (text_of config.session_id)
      ∷ append_text "sqlite_db_name:" (text_of config.sqlite_db_name)
      ∷ append_text "custom_checkpointer:" (show_bool (is_some config.checkpointer_custom))
      ∷ append_text "clock:" (clock_mode config)
      ∷ metadata_signature config.event_bus

  unfoldable pub config_hash : RuntimeConfig C T → String
  config_hash config = hash_parts (config_parts config)
