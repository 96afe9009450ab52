-- ===== src/Sqlite.antt =====
-- src/runtimes/checkpointer_sqlite.rs and its helpers, over the tables of src/migrations/0001_init.sql:
-- the statements and the trigger are functions on the rows. JSON texts are serde_json's, times are
-- chrono's and SQLite's, and `reachable` says whether every statement of a transaction is executed:
-- those are parameters. A step or a limit keeps its bits in the cast to i64 and back, so that equality
-- reads the same; where the order of steps matters, `leb_i64` compares them as they are cast.
pub mod Rows
pub mod Latest
pub mod Checked
pub mod Query
use weavegraph.Base.{
  ℕ, ℕ-key, String, String-key, ◌≡◌, Bool, true, false, not, ◌&&◌, Option, none, some, List, [],
  ◌∷◌, ◌++◌, map, filter, any, if◌then◌else◌, ◌==◌,
}
use weavegraph.Base.Map.{Map, get, put}
use weavegraph.Base.Result.{Result, ok, err, map_err, ◌>>=◌}
use weavegraph.Kind.{NodeKind, encode, decode}
use weavegraph.State.{VersionedState}
use weavegraph.Checkpoint.{Checkpoint}
use weavegraph.Persistence.{
  PersistedState, PersistedVersionsSeen, PersistenceError, TimeText, persist_state, restore_state,
  parsed_or,
}
use weavegraph.Utils.Json.{
  Value, null, bool, number, string, array, object, Items, nil, item, Fields,
}

-- A row of `sessions`, by its id in the table.
pub record SessionRow : Type 0 where
  pub updated_at : String
  pub concurrency_limit : ℕ
  pub last_step : ℕ
  pub last_state_json : Option String
  pub last_frontier_json : Option String
  pub last_versions_seen_json : Option String

-- The texts of a row of `steps`.
pub record StepColumns : Type 0 where
  pub state_json : String
  pub frontier_json : String
  pub versions_seen_json : String
  pub ran_nodes_json : String
  pub skipped_nodes_json : String
  pub updated_channels_json : String

pub record StepRow : Type 0 where
  pub session_id : String
  pub step : ℕ
  pub created_at : String
  pub columns : StepColumns

pub record Database : Type 0 where
  pub sessions : Map String SessionRow
  pub steps : List StepRow

-- The messages of `CheckpointerError`, by what they report.
pub data SqliteError (X : Type 0) : Type 0 where
  backend : SqliteError X
  conflict : ℕ → ℕ → SqliteError X
  session_not_found : ℕ → SqliteError X
  step_exists : SqliteError X
  json : String → X → SqliteError X
  not_array : String → SqliteError X
  missing_field : String → SqliteError X
  convert : PersistenceError → SqliteError X

-- serde_json: the texts of values, and the values of states and of the versions seen.
pub record Serde (V N X : Type 0) : Type 0 where
  pub print : Value N → Result X String
  pub parse : String → Result X (Value N)
  pub state_value : PersistedState V → Result X (Value N)
  pub state_of : Value N → Result X (PersistedState V)
  pub seen_value : PersistedVersionsSeen → Result X (Value N)
  pub seen_of : Value N → Result X PersistedVersionsSeen

-- SQLite's `strftime`, and chrono's parser.
pub record Clock : Type 0 where
  pub strftime : ℕ → String
  pub time : TimeText

-- `INSERT OR IGNORE INTO sessions`, with the defaults of the schema.
unfoldable pub insert_session : String → ℕ → String → Map String SessionRow → Map String SessionRow
insert_session id limit stamp sessions = elim (get id sessions) [
  | some _ ↦ sessions
  | none ↦
      put id
        record {
          updated_at = stamp;
          concurrency_limit = limit;
          last_step = 0;
          last_state_json = none;
          last_frontier_json = none;
          last_versions_seen_json = none;
        }
        sessions
]

-- The trigger `trg_steps_after_insert`.
unfoldable pub after_insert : StepRow → String → Map String SessionRow → Map String SessionRow
after_insert row stamp sessions = elim (get row.session_id sessions) [
  | some s ↦
      put row.session_id
        record {
          updated_at = stamp;
          concurrency_limit = s.concurrency_limit;
          last_step = row.step;
          last_state_json = some row.columns.state_json;
          last_frontier_json = some row.columns.frontier_json;
          last_versions_seen_json = some row.columns.versions_seen_json;
        }
        sessions
  | none ↦ sessions
]

-- The primary key of `steps`.
abbrev pub same_step : StepRow → StepRow → Bool
same_step a b = (a.session_id == b.session_id) && (a.step == b.step)

-- The row of the session, inserted if it is not there, and what the trigger makes of it.
unfoldable pub insert_rows : StepRow → ℕ → Map String SessionRow → Map String SessionRow
insert_rows row limit sessions =
    after_insert row row.created_at (insert_session row.session_id limit row.created_at sessions)

-- The two statements of `save`; a step row that stands there is replaced.
unfoldable pub insert_or_replace : StepRow → ℕ → Database → Database
insert_or_replace row limit db = record {
  sessions = insert_rows row limit db.sessions;
  steps = filter (λ other. not (same_step other row)) db.steps ++ row ∷ [];
}

module _ {V N X : Type 0} (serde : Serde V N X) (clock : Clock) where
  abbrev pub items_of : List String → Items N
  items_of [] = nil
  items_of (s ∷ rest) = item (string s) (items_of rest)

  -- `serialize_json`.
  abbrev pub serialize_json : String → Result X (Value N) → Result (SqliteError X) String
  serialize_json context value = map_err (json context) (value >>= serde.print)

  abbrev pub serialize_texts : String → List String → Result (SqliteError X) String
  serialize_texts context texts = serialize_json context (ok (array (items_of texts)))

  -- The serialisation that `save` and `save_with_concurrency_check` begin with.
  unfoldable pub serialize_checkpoint : Checkpoint V → Result (SqliteError X) StepColumns
  serialize_checkpoint checkpoint = do
    state_json ← serialize_json "state" (serde.state_value (persist_state checkpoint.state))
    frontier_json ← serialize_texts "frontier" (map encode checkpoint.frontier)
    versions_seen_json ←
        serialize_json "versions_seen" (serde.seen_value record { seen = checkpoint.versions_seen })
    ran_nodes_json ← serialize_texts "ran_nodes" (map encode checkpoint.ran_nodes)
    skipped_nodes_json ← serialize_texts "skipped_nodes" (map encode checkpoint.skipped_nodes)
    updated_channels_json ← serialize_texts "updated_channels" checkpoint.updated_channels
    ok record {
      state_json = state_json;
      frontier_json = frontier_json;
      versions_seen_json = versions_seen_json;
      ran_nodes_json = ran_nodes_json;
      skipped_nodes_json = skipped_nodes_json;
      updated_channels_json = updated_channels_json;
    }

  abbrev pub row_of : String → Checkpoint V → StepColumns → StepRow
  row_of stamp checkpoint columns = record {
    session_id = checkpoint.session_id;
    step = checkpoint.step;
    created_at = stamp;
    columns = columns;
  }

  unfoldable pub save :
      Bool → ℕ → Checkpoint V → Database → Database × Result (SqliteError X) (Unit {0})
  save reachable now checkpoint db = elim (serialize_checkpoint checkpoint) [
    | ok columns ↦
        if reachable
        then (
          insert_or_replace (row_of (clock.strftime now) checkpoint columns)
              checkpoint.concurrency_limit db,
          ok tt,
        )
        else (db, err backend)
    | err e ↦ (db, err e)
  ]
