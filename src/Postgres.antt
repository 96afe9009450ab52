-- ===== src/Postgres.antt =====
-- src/runtimes/checkpointer_postgres.rs and its helpers, over the tables of
-- src/migrations/postgres/0001_init.sql: the statements are functions on the rows. What serde_json
-- makes of values, what the database makes of a text that is cast to jsonb and read again, and
-- whether it executes every statement of a transaction are parameters. The checkpoints are
-- serialised as by the SQLite checkpointer, and the errors are its errors. A step keeps its bits in
-- the cast to i64 and back, and `leb_i64` is the comparison of steps that are cast.
pub mod Rows
pub mod Latest
pub mod Newest
pub mod Query
use weavegraph.Base.{
  ℕ, ℕ-key, String, String-key, ◌≡◌, Bool, true, false, ◌&&◌, Option, none, some, List, [], ◌∷◌,
  if◌then◌else◌, ◌==◌, leb_i64,
}
use weavegraph.Base.Map.{Map, get, put}
use weavegraph.Base.Result.{Result, ok, err, ◌>>=◌}
use weavegraph.Checkpoint.{Checkpoint}
use weavegraph.Sqlite.{
  StepColumns, SqliteError, backend, conflict, Serde, Clock, serialize_checkpoint,
}
use weavegraph.Utils.Json.{Value}

-- The snapshot of the latest step that a session holds.
pub record Snapshot (N : Type 0) : Type 0 where
  pub last_state_json : Option (Value N)
  pub last_frontier_json : Option (Value N)
  pub last_versions_seen_json : Option (Value N)

-- A row of `sessions`, by its id in the table.
pub record SessionRow (N : Type 0) : Type 0 where
  pub updated_at : ℕ
  pub concurrency_limit : ℕ
  pub last_step : ℕ
  pub snapshot : Snapshot N

-- The values of a row of `steps`.
pub record StepValues (N : Type 0) : Type 0 where
  pub state_json : Value N
  pub frontier_json : Value N
  pub versions_seen_json : Value N
  pub ran_nodes_json : Value N
  pub skipped_nodes_json : Value N
  pub updated_channels_json : Value N

pub record StepRow (N : Type 0) : Type 0 where
  pub session_id : String
  pub step : ℕ
  pub created_at : ℕ
  pub values : StepValues N

pub record Database (N : Type 0) : Type 0 where
  pub sessions : Map String (SessionRow N)
  pub steps : List (StepRow N)

module _ {N : Type 0} where
  -- `INSERT INTO sessions` with `ON CONFLICT (id) DO NOTHING`, and the defaults of the schema.
  unfoldable pub ensure_session :
      String → ℕ → ℕ → Map String (SessionRow N) → Map String (SessionRow N)
  ensure_session id limit now sessions = elim (get id sessions) [
    | some _ ↦ sessions
    | none ↦
        put id
          record {
            updated_at = now;
            concurrency_limit = limit;
            last_step = 0;
            snapshot = record {
              last_state_json = none;
              last_frontier_json = none;
              last_versions_seen_json = none;
            };
          }
          sessions
  ]

  -- `INSERT INTO steps` with `ON CONFLICT (session_id, step) DO UPDATE`: a row that stands there
  -- takes the new values and keeps its time.
  unfoldable pub upsert_step : StepRow N → List (StepRow N) → List (StepRow N)
  upsert_step row [] = row ∷ []
  upsert_step row (other ∷ rest) =
      let others = upsert_step row rest in
      if (other.session_id == row.session_id) && (other.step == row.step)
      then record other { values = row.values } ∷ rest
      else other ∷ others

  -- The snapshot that a step leaves.
  abbrev pub snapshot_of : StepValues N → Snapshot N
  snapshot_of values = record {
    last_state_json = some values.state_json;
    last_frontier_json = some values.frontier_json;
    last_versions_seen_json = some values.versions_seen_json;
  }

  -- `CASE WHEN last_step <= $2 THEN ... ELSE ... END`, for every column of the snapshot.
  abbrev pub advance : StepRow N → SessionRow N → SessionRow N
  advance row s = record {
    updated_at = row.created_at;
    concurrency_limit = s.concurrency_limit;
    last_step = if leb_i64 s.last_step row.step then row.step else s.last_step;
    snapshot = if leb_i64 s.last_step row.step then snapshot_of row.values else s.snapshot;
  }

  -- `UPDATE sessions`.
  unfoldable pub update_latest : StepRow N → Map String (SessionRow N) → Map String (SessionRow N)
  update_latest row sessions = elim (get row.session_id sessions) [
    | some s ↦ put row.session_id (advance row s) sessions
    | none ↦ sessions
  ]

  -- The statements of a save, by the values of its row.
  unfoldable pub write_step : StepRow N → ℕ → Database N → Database N
  write_step row limit db = record {
    sessions = update_latest row (ensure_session row.session_id limit row.created_at db.sessions);
    steps = upsert_step row db.steps;
  }

  -- The step that a caller expects, against the session that was read for update.
  unfoldable pub check_last_step :
      {X : Type 0} → Option ℕ → Option (SessionRow N) → Result (SqliteError X) (Unit {0})
  check_last_step none row = ok tt
  check_last_step (some expected) (some row) =
      if row.last_step == expected then ok tt else err (conflict expected row.last_step)
  check_last_step (some expected) none = err backend

module _ {V N X : Type 0} (serde : Serde V N X) (clock : Clock)
    (jsonb : String → Option (Value N)) where
  -- A cast `$3::jsonb` of the statements.
  abbrev pub cast : String → Result (SqliteError X) (Value N)
  cast text = elim (jsonb text) [ some value ↦ ok value | none ↦ err backend ]

  unfoldable pub cast_columns : StepColumns → Result (SqliteError X) (StepValues N)
  cast_columns columns = do
    state_json ← cast columns.state_json
    frontier_json ← cast columns.frontier_json
    versions_seen_json ← cast columns.versions_seen_json
    ran_nodes_json ← cast columns.ran_nodes_json
    skipped_nodes_json ← cast columns.skipped_nodes_json
    updated_channels_json ← cast columns.updated_channels_json
    ok record {
      state_json = state_json;
      frontier_json = frontier_json;
      versions_seen_json = versions_seen_json;
      ran_nodes_json = ran_nodes_json;
      skipped_nodes_json = skipped_nodes_json;
      updated_channels_json = updated_channels_json;
    }

  abbrev pub step_row : ℕ → Checkpoint V → StepValues N → StepRow N
  step_row now checkpoint values = record {
    session_id = checkpoint.session_id;
    step = checkpoint.step;
    created_at = now;
    values = values;
  }

  -- The insertion of the step and the update of its session, once the session is there.
  unfoldable pub write_checkpoint :
      ℕ → Checkpoint V → StepColumns → Database N → Database N × Result (SqliteError X) (Unit {0})
  write_checkpoint now checkpoint columns db = elim (cast_columns columns) [
    | ok values ↦
        (write_step (step_row now checkpoint values) checkpoint.concurrency_limit db, ok tt)
    | err e ↦ (db, err e)
  ]

  unfoldable pub save :
      Bool → ℕ → Checkpoint V → Database N → Database N × Result (SqliteError X) (Unit {0})
  save reachable now checkpoint db = elim (serialize_checkpoint serde clock checkpoint) [
    | ok columns ↦
        if reachable then write_checkpoint now checkpoint columns db else (db, err backend)
    | err e ↦ (db, err e)
  ]

  unfoldable pub save_with_concurrency_check :
      Bool
      → ℕ
      → Checkpoint V
      → Option ℕ
      → Database N
      → Database N × Result (SqliteError X) (Unit {0})
  save_with_concurrency_check reachable now checkpoint expected_last_step db =
      elim (serialize_checkpoint serde clock checkpoint) [
        | err e ↦ (db, err e)
        | ok columns ↦
            if reachable
            then elim (check_last_step expected_last_step (
                get checkpoint.session_id (
                  ensure_session checkpoint.session_id checkpoint.concurrency_limit now
                    db.sessions))) [
                      | err e ↦ (db, err e)
                      | ok _ ↦ write_checkpoint now checkpoint columns db
                    ]
            else (db, err backend)
      ]
