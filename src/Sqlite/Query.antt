-- ===== src/Sqlite/Query.antt =====
-- `query_steps` of the SQLite checkpointer: the steps of a session by pages. `like` is SQLite's LIKE on
-- the text of a JSON array. Steps are compared as i64.
pub mod Lengths
pub mod Page
pub mod Selects
use Prim.Native.String.{◌++◌ as append_text}
use weavegraph.Base.{
  ℕ, zero, suc, ◌+◌, ◌%◌, ◌^◌, ℕ-key, String, String-key, ◌≡◌, refl, sym, ap, ◌∙◌, Bool, true,
  false, ◌&&◌, Option, none, some, List, [], ◌∷◌, map, filter, drop, length, min, if◌then◌else◌,
  ◌==◌, ltb, leb_i64, ◌<◌,
}
use weavegraph.Base.Sort.{sort}
use weavegraph.Base.Result.{Result, ok, err, map_err, ◌>>=◌}
use weavegraph.Kind.{NodeKind, encode, decode}
use weavegraph.Checkpoint.{Checkpoint}
use weavegraph.Persistence.{TimeText, persist_state, restore_state, parsed_or, decode_all}
use weavegraph.Utils.Json.{Value, array}
use weavegraph.Sqlite.{
  StepColumns, StepRow, Database, SqliteError, backend, json, convert, Serde, Clock, items_of,
  serialize_json, serialize_texts, serialize_checkpoint, row_of,
}
use weavegraph.Sqlite.Latest.{texts_of, deserialize_json, IsExact}

pub record StepQuery : Type 0 where
  pub limit : Option ℕ
  pub offset : Option ℕ
  pub min_step : Option ℕ
  pub max_step : Option ℕ
  pub ran_node : Option NodeKind
  pub skipped_node : Option NodeKind

pub record PageInfo : Type 0 where
  pub total_count : ℕ
  pub page_size : ℕ
  pub offset : ℕ
  pub has_next_page : Bool

pub record StepQueryResult (V : Type 0) : Type 0 where
  pub checkpoints : List (Checkpoint V)
  pub page_info : PageInfo

abbrev pub take {ℓ} : {A : Type ℓ} → ℕ → List A → List A
take zero xs = []
take (suc n) [] = []
take (suc n) (x ∷ xs) = x ∷ take n xs

abbrev pub holds {ℓ} : {A : Type ℓ} → Option A → (A → Bool) → Bool
holds none test = true
holds (some a) test = test a

-- A number that is given is below 2 ^ 63.
abbrev pub HasI64 : Option ℕ → Type 0
HasI64 none = Unit
HasI64 (some n) = n < 2 ^ 63

-- The conditions of the WHERE clause.
unfoldable pub meets : (String → String → Bool) → String → StepQuery → StepRow → Bool
meets like session_id query row =
    (row.session_id == session_id)
    && holds query.min_step (λ n. leb_i64 n row.step)
    && holds query.max_step (λ n. leb_i64 row.step n)
    && holds query.ran_node
        (λ k. like (append_text "%" (append_text (encode k) "%")) row.columns.ran_nodes_json)
    && holds query.skipped_node
        (λ k. like (append_text "%" (append_text (encode k) "%")) row.columns.skipped_nodes_json)

abbrev or_default : ℕ → Option ℕ → ℕ
or_default n none = n
or_default n (some m) = m

-- At most 1000.
unfoldable pub limit_of : StepQuery → ℕ
limit_of query = min (or_default 100 query.limit) 1000

unfoldable pub offset_of : StepQuery → ℕ
offset_of query = or_default 0 query.offset

-- The rows of `ORDER BY step DESC LIMIT .. OFFSET ..`.
unfoldable pub page_rows : StepQuery → List StepRow → List StepRow
page_rows query rows =
    take (limit_of query)
      (drop (offset_of query) (sort (λ (a b : StepRow). leb_i64 b.step a.step) rows))

module _ {V N X : Type 0} (serde : Serde V N X) (clock : Clock) where
  unfoldable pub row_to_checkpoint : ℕ → String → StepRow → Result (SqliteError X) (Checkpoint V)
  row_to_checkpoint now session_id row = do
    state_val ← deserialize_json serde clock row.columns.state_json "state"
    frontier_val ← deserialize_json serde clock row.columns.frontier_json "frontier"
    versions_seen_val ← deserialize_json serde clock row.columns.versions_seen_json "versions_seen"
    ran_nodes_val ← deserialize_json serde clock row.columns.ran_nodes_json "ran_nodes"
    skipped_nodes_val ← deserialize_json serde clock row.columns.skipped_nodes_json "skipped_nodes"
    updated_channels_val ←
        deserialize_json serde clock row.columns.updated_channels_json "updated_channels"
    persisted_state ← map_err (json "state") (serde.state_of state_val)
    state ← map_err convert (restore_state persisted_state)
    frontier ← texts_of serde clock "frontier" frontier_val
    ran_nodes ← texts_of serde clock "ran_nodes" ran_nodes_val
    skipped_nodes ← texts_of serde clock "skipped_nodes" skipped_nodes_val
    updated_channels ← texts_of serde clock "updated_channels" updated_channels_val
    persisted_vs ← map_err (json "versions_seen") (serde.seen_of versions_seen_val)
    ok record {
      session_id = session_id;
      step = row.step;
      state = state;
      frontier = map decode frontier;
      versions_seen = persisted_vs.seen;
      concurrency_limit = 1;
      created_at = parsed_or now ((clock.time).parse_from_rfc3339 row.created_at);
      ran_nodes = map decode ran_nodes;
      skipped_nodes = map decode skipped_nodes;
      updated_channels = updated_channels;
    }

  unfoldable pub rows_to_checkpoints :
      ℕ → String → List StepRow → Result (SqliteError X) (List (Checkpoint V))
  rows_to_checkpoints now session_id [] = ok []
  rows_to_checkpoints now session_id (row ∷ rows) = do
    checkpoint ← row_to_checkpoint now session_id row
    rest ← rows_to_checkpoints now session_id rows
    ok (checkpoint ∷ rest)

  unfoldable pub query_steps :
      (String → String → Bool)
      → Bool
      → ℕ
      → String
      → StepQuery
      → Database
      → Result (SqliteError X) (StepQueryResult V)
  query_steps like reachable now session_id query db =
      if reachable
      then (let rows = filter (meets like session_id query) db.steps in
          rows_to_checkpoints now session_id (page_rows query rows) >>= λ checkpoints. ok record {
            checkpoints = checkpoints;
            page_info = record {
              total_count = length rows;
              page_size = length checkpoints % 2 ^ 32;
              offset = offset_of query;
              has_next_page =
                  ltb ((offset_of query + limit_of query) % 2 ^ 32) (length rows % 2 ^ 32);
            };
          })
      else err backend
