-- ===== src/Postgres/Latest.antt =====
-- `load_latest` of the Postgres checkpointer, and what it reads after a save: the newest step.
use weavegraph.Base.{
  ℕ, ℕ-key, String, String-key, ◌≡◌, refl, sym, ap, ◌∙◌, inl, inr, Bool, true, false, ◌&&◌, Option,
  none, some, List, [], map, if◌then◌else◌, ◌==◌, Option-cases,
}
use weavegraph.Base.Map.{Map, get}
use weavegraph.Base.Result.{Result, ok, err, map_err, ◌>>=◌, >>=-eq-ok, Result-cases, ok-injective}
use weavegraph.Kind.{encode, decode}
use weavegraph.State.{VersionedState}
use weavegraph.Checkpoint.{Checkpoint}
use weavegraph.Persistence.{PersistedState, PersistedVersionsSeen, persist_state, restore_state}
use weavegraph.Utils.Json.{Value, array}
use weavegraph.Sqlite.{
  StepColumns, SqliteError, backend, json, missing_field, convert, Serde, Clock, items_of,
  serialize_json, serialize_texts, serialize_checkpoint,
}
use weavegraph.Sqlite.Latest.{texts_of, texts_in-items_of, serialized_parts}
use weavegraph.Postgres.{
  Snapshot, SessionRow, StepValues, Database, snapshot_of, write_step, step_row, cast, cast_columns,
  write_checkpoint, save,
}

abbrev is_none {ℓ} : {A : Type ℓ} → Option A → Bool
is_none (some a) = false
is_none none = true

-- What a snapshot is read as: the state, the frontier and the versions seen.
pub record Loaded (V : Type 0) : Type 0 where
  pub state : VersionedState V
  pub frontier : List String
  pub versions_seen : Map String (Map String ℕ)

module _ {V N X : Type 0} (serde : Serde V N X) (clock : Clock)
    (jsonb : String → Option (Value N)) where
  abbrev pub require_json_field : Option (Value N) → String → Result (SqliteError X) (Value N)
  require_json_field (some value) name = ok value
  require_json_field none name = err (missing_field name)

  -- The fields that are required, and their conversions.
  unfoldable pub load_snapshot : Snapshot N → Result (SqliteError X) (Loaded V)
  load_snapshot snapshot = do
    state_val ← require_json_field snapshot.last_state_json "state_json"
    frontier_val ← require_json_field snapshot.last_frontier_json "frontier_json"
    versions_seen_val ← require_json_field snapshot.last_versions_seen_json "versions_seen_json"
    persisted_state ← map_err (json "state") (serde.state_of state_val)
    state ← map_err convert (restore_state persisted_state)
    frontier ← texts_of serde clock "frontier" frontier_val
    persisted_vs ← map_err (json "versions_seen") (serde.seen_of versions_seen_val)
    ok record { state = state; frontier = frontier; versions_seen = persisted_vs.seen }

  -- The checkpoint of a session, with nothing of what its step ran.
  abbrev pub checkpoint_of : String → SessionRow N → Loaded V → Checkpoint V
  checkpoint_of session_id row loaded = record {
    session_id = session_id;
    step = row.last_step;
    state = loaded.state;
    frontier = map decode loaded.frontier;
    versions_seen = loaded.versions_seen;
    concurrency_limit = row.concurrency_limit;
    created_at = row.updated_at;
    ran_nodes = [];
    skipped_nodes = [];
    updated_channels = [];
  }

  abbrev pub load_found :
      String → Option (SessionRow N) → Result (SqliteError X) (Option (Checkpoint V))
  load_found session_id none = ok none
  load_found session_id (some row) =
      if row.last_step == 0 && is_none row.snapshot.last_state_json
      then ok none
      else (load_snapshot row.snapshot >>= λ loaded.
          ok (some (checkpoint_of session_id row loaded)))

  unfoldable pub load_latest :
      Bool → String → Database N → Result (SqliteError X) (Option (Checkpoint V))
  load_latest reachable session_id db =
      if reachable then load_found session_id (get session_id db.sessions) else err backend

  -- A state or the versions seen whose text the database takes are made again of what is read, and
  -- an array of texts is read as it was.
  abbrev pub IsStored : Type 0
  IsStored =
      ((p : PersistedState V) (text : String) (v : Value N)
        → serialize_json serde clock "state" (serde.state_value p) ≡ ok text
        → jsonb text ≡ some v
        → serde.state_of v ≡ ok p)
      × ((p : PersistedVersionsSeen) (text : String) (v : Value N)
          → serialize_json serde clock "versions_seen" (serde.seen_value p) ≡ ok text
          → jsonb text ≡ some v
          → serde.seen_of v ≡ ok p)
      × ((context : String) (texts : List String) (text : String) (v : Value N)
          → serialize_texts serde clock context texts ≡ ok text
          → jsonb text ≡ some v
          → v ≡ array (items_of serde clock texts))

  cast-some :
      (text : String) (v : Value N) → cast serde clock jsonb text ≡ ok v → jsonb text ≡ some v
  cast-some text v h = elim (Option-cases (jsonb text)) [
    | inl missing ↦
        let no : ◌≡◌ {A = Result (SqliteError X) (Value N)} (err backend) (ok v) =
          rw (missing, cast) at h in
        absurd cc
    | inr (w, found) ↦
        let same : ◌≡◌ {A = Result (SqliteError X) (Value N)} (ok w) (ok v) =
          rw (found, cast) at h in
        found ∙ ap some (ok-injective (SqliteError X) same)
  ]

  -- What the values of a row are made of.
  pub cast_parts :
      (columns : StepColumns) (values : StepValues N)
      → cast_columns serde clock jsonb columns ≡ ok values
      → (jsonb columns.state_json ≡ some values.state_json)
        × (jsonb columns.frontier_json ≡ some values.frontier_json)
        × (jsonb columns.versions_seen_json ≡ some values.versions_seen_json)
        × (jsonb columns.ran_nodes_json ≡ some values.ran_nodes_json)
        × (jsonb columns.skipped_nodes_json ≡ some values.skipped_nodes_json)
        × (jsonb columns.updated_channels_json ≡ some values.updated_channels_json)
  unfolding cast_columns
  cast_parts columns values h =
      let (v1, e1, r1) = >>=-eq-ok (cast serde clock jsonb columns.state_json) _ h in
      let (v2, e2, r2) = >>=-eq-ok (cast serde clock jsonb columns.frontier_json) _ r1 in
      let (v3, e3, r3) = >>=-eq-ok (cast serde clock jsonb columns.versions_seen_json) _ r2 in
      let (v4, e4, r4) = >>=-eq-ok (cast serde clock jsonb columns.ran_nodes_json) _ r3 in
      let (v5, e5, r5) = >>=-eq-ok (cast serde clock jsonb columns.skipped_nodes_json) _ r4 in
      let (v6, e6, r6) = >>=-eq-ok (cast serde clock jsonb columns.updated_channels_json) _ r5 in
      let made =
        ok-injective (SqliteError X)
          {a = record {
            state_json = v1;
            frontier_json = v2;
            versions_seen_json = v3;
            ran_nodes_json = v4;
            skipped_nodes_json = v5;
            updated_channels_json = v6;
          }}
          r6 in
      (
        cast-some _ v1 e1 ∙ ap (λ c. some c.state_json) made,
        cast-some _ v2 e2 ∙ ap (λ c. some c.frontier_json) made,
        cast-some _ v3 e3 ∙ ap (λ c. some c.versions_seen_json) made,
        cast-some _ v4 e4 ∙ ap (λ c. some c.ran_nodes_json) made,
        cast-some _ v5 e5 ∙ ap (λ c. some c.skipped_nodes_json) made,
        cast-some _ v6 e6 ∙ ap (λ c. some c.updated_channels_json) made,
      )

  -- The snapshot of a save is read as what was saved.
  pub load_snapshot_saved :
      (checkpoint : Checkpoint V) (columns : StepColumns) (values : StepValues N)
      → IsStored
      → serialize_checkpoint serde clock checkpoint ≡ ok columns
      → cast_columns serde clock jsonb columns ≡ ok values
      → load_snapshot (snapshot_of values)
        ≡ ok record {
          state = checkpoint.state;
          frontier = map encode checkpoint.frontier;
          versions_seen = checkpoint.versions_seen;
        }
  unfolding load_snapshot restore_state persist_state
  load_snapshot_saved checkpoint columns values stored made put_in =
      let (e1, e2, e3, _, _, _) = serialized_parts serde clock checkpoint columns made in
      let (c1, c2, c3, _, _, _) = cast_parts columns values put_in in
      rw
        (
          load_snapshot,
          stored.0 _ _ _ e1 c1,
          stored.2 _ _ _ _ e2 c2,
          texts_in-items_of serde clock (map encode checkpoint.frontier),
          stored.1 _ _ _ e3 c3,
        )
        refl

  -- A save that succeeds took every text, and wrote its row.
  pub save_ok :
      (now : ℕ) (checkpoint : Checkpoint V) (db after : Database N)
      → save serde clock jsonb true now checkpoint db ≡ (after, ok tt)
      → (columns : StepColumns) × (values : StepValues N) × (serialize_checkpoint serde clock
            checkpoint
          ≡ ok columns)
        × (cast_columns serde clock jsonb columns ≡ ok values)
        × (after
            ≡ write_step
                (step_row serde clock jsonb now checkpoint values)
                checkpoint.concurrency_limit
                db)
  unfolding save write_checkpoint
  save_ok now checkpoint db after h =
      elim (Result-cases (serialize_checkpoint serde clock checkpoint)) [
        | inr (e, failed) ↦ absurd (differs e (ap (λ x. x.1) (rw (failed, save) at h)))
        | inl (columns, made) ↦ elim (Result-cases (cast_columns serde clock jsonb columns)) [
          | inr (e, failed) ↦
              absurd (differs e (ap (λ x. x.1) (rw (made, save, write_checkpoint, failed) at h)))
          | inl (values, put_in) ↦ (
            columns,
            values,
            made,
            put_in,
            sym (ap (λ x. x.0) (rw (made, save, write_checkpoint, put_in) at h)),
          )
        ]
      ]
    where
      differs :
          (e : SqliteError X) → ¬ (◌≡◌ {A = Result (SqliteError X) (Unit {0})} (err e) (ok tt))
      differs e h = cc
