-- ===== src/Tests/OfPostgres.antt =====
-- Runs of the Postgres checkpointer, with the texts of the runs of the SQLite one.
use native.Mathlib.Decide.{ℕ_discrete}
use weavegraph.Base.{
  ℕ, ℕ-key, String, String-key, str_apart, ◌≡◌, refl, sym, ap, ◌∙◌, arith, true, Option, none, some,
  [],
}
use weavegraph.Base.Map.{get, put}
use weavegraph.Base.Result.{Result, ok, err, ok-injective}
use weavegraph.Kind.{NodeKind-key, custom, encode, decode}
use weavegraph.Persistence.{persist_state, restore_state}
use weavegraph.Utils.Json.{Value, null, bool, string, array, nil, item}
use weavegraph.Sqlite.{StepColumns, items_of, serialize_checkpoint, serialize_json}
use weavegraph.Sqlite.Latest.{parsed_back}
use weavegraph.Postgres.{
  Database, SessionRow, save, cast_columns, write_checkpoint, write_step, ensure_session,
  update_latest,
}
use weavegraph.Postgres.Rows.{present}
use weavegraph.Postgres.Latest.{IsStored, load_latest}
use weavegraph.Postgres.Newest.{newest_of, stamped, load_latest-save_newest, load_latest-save_older}
use weavegraph.Base.{◌∷◌, contains, ◌&&◌, ◌==◌, leb}
use weavegraph.Base.Sort.{sort, insert}
use weavegraph.Sqlite.Query.{StepQuery, limit_of, offset_of}
use weavegraph.Postgres.{StepValues, step_row}
use weavegraph.Postgres.Query.{
  selects, joined, selected_page, joined_to_checkpoint, joined_to_checkpoints, query_steps,
  selects-step_row, joined_to_checkpoint-step_row,
}
use weavegraph.Tests.OfSqlite.{parse, serde, clock, at_step, serde-IsExact}

abbrev taken : Result (Unit {0}) (Value ℕ) → Option (Value ℕ)
taken (ok v) = some v
taken (err e) = none

abbrev jsonb : String → Option (Value ℕ)
jsonb text = taken (parse text)

-- The value that a text was made of is the one that is read.
read_back :
    (context : String) (value : Result (Unit {0}) (Value ℕ)) (text : String) (v : Value ℕ)
    → serialize_json serde clock context value ≡ ok text
    → jsonb text ≡ some v
    → value ≡ ok v
read_back context value text v printed found =
    let (w, made, parsed) = parsed_back serde clock context value text serde-IsExact printed in
    let same : some w ≡ some v = sym (ap taken parsed) ∙ found in
    let equal : w ≡ v = cc in made ∙ ap ok equal

jsonb-IsStored : IsStored serde clock jsonb
jsonb-IsStored = (
  λ p text v printed found.
      serde-IsExact.1 p v (read_back "state" (serde.state_value p) text v printed found),
  λ p text v printed found.
      serde-IsExact.2 p v (read_back "versions_seen" (serde.seen_value p) text v printed found),
  λ context texts text v printed found. sym (
      ok-injective (Unit {0})
        (read_back context (ok (array (items_of serde clock texts))) text v printed found)),
)

abbrev empty_db : Database ℕ
empty_db = record { sessions = []; steps = [] }

abbrev fifth_db : Database ℕ
fifth_db = (save serde clock jsonb true 3 (at_step 5) empty_db).0

fifth_saved : save serde clock jsonb true 3 (at_step 5) empty_db ≡ (fifth_db, ok tt)
unfolding ℕ_discrete save serialize_checkpoint persist_state encode cast_columns write_checkpoint
fifth_saved = refl

load_latest-save_newest_example :
    (load_latest serde clock jsonb true "s1" fifth_db
      ≡ ok (
          some (
            newest_of serde clock jsonb 3
              (present 8 3 (get "s1" empty_db.sessions)).concurrency_limit
              (at_step 5))))
    × (load_latest serde clock jsonb true "s2" fifth_db
        ≡ load_latest serde clock jsonb true "s2" empty_db)
unfolding get
load_latest-save_newest_example =
    load_latest-save_newest serde clock jsonb 3 (at_step 5) empty_db fifth_db "s2" jsonb-IsStored
      (str_apart "s1" "s2" refl) (omega arith) (omega arith) fifth_saved

abbrev fifth_row : SessionRow ℕ
fifth_row = record {
  updated_at = 3;
  concurrency_limit = 8;
  last_step = 5;
  snapshot = record {
    last_state_json = jsonb "true";
    last_frontier_json = jsonb "qStart";
    last_versions_seen_json = jsonb "null";
  };
}

fifth_found : get "s1" fifth_db.sessions ≡ some fifth_row
unfolding ℕ_discrete save serialize_checkpoint persist_state encode cast_columns write_checkpoint
    write_step ensure_session update_latest get put
fifth_found = refl

abbrev second_db : Database ℕ
second_db = (save serde clock jsonb true 4 (at_step 2) fifth_db).0

second_saved : save serde clock jsonb true 4 (at_step 2) fifth_db ≡ (second_db, ok tt)
unfolding ℕ_discrete save serialize_checkpoint persist_state encode cast_columns write_checkpoint
second_saved = refl

load_latest-save_older_example :
    load_latest serde clock jsonb true "s1" second_db
    ≡ ok (stamped serde clock jsonb 4 (some (newest_of serde clock jsonb 3 8 (at_step 5))))
unfolding get
load_latest-save_older_example =
    load_latest-save_older serde clock jsonb 4 (at_step 2) fifth_db second_db fifth_row
      (some (newest_of serde clock jsonb 3 8 (at_step 5))) fifth_found (omega arith) (omega arith)
      (load_latest-save_newest_example.0) second_saved

abbrev columns : StepColumns
columns = record {
  state_json = "true";
  frontier_json = "qStart";
  versions_seen_json = "null";
  ran_nodes_json = "qCustom:a";
  skipped_nodes_json = "[]";
  updated_channels_json = "[]";
}

columns_of_step : serialize_checkpoint serde clock (at_step 1) ≡ ok columns
unfolding serialize_checkpoint persist_state encode
columns_of_step = refl

abbrev values : StepValues ℕ
values = record {
  state_json = bool true;
  frontier_json = array (item (string "Start") nil);
  versions_seen_json = null;
  ran_nodes_json = array (item (string "Custom:a") nil);
  skipped_nodes_json = array nil;
  updated_channels_json = array nil;
}

values_of_columns : cast_columns serde clock jsonb columns ≡ ok values
unfolding ℕ_discrete cast_columns
values_of_columns = refl

joined_to_checkpoint-step_row_example :
    joined_to_checkpoint serde clock jsonb "s1" (step_row serde clock jsonb 3 (at_step 1) values, 4)
    ≡ ok record (at_step 1) { concurrency_limit = 4; created_at = 3 }
joined_to_checkpoint-step_row_example =
    joined_to_checkpoint-step_row serde clock jsonb 3 4 (at_step 1) columns values jsonb-IsStored
      columns_of_step values_of_columns

abbrev of_node : StepQuery
of_node = record {
  limit = none;
  offset = none;
  min_step = some 1;
  max_step = none;
  ran_node = some (custom "a");
  skipped_node = none;
}

selects-step_row_example :
    selects "s1" of_node (step_row serde clock jsonb 3 (at_step 1) values) ≡ (
      ((at_step 1).session_id == "s1")
      && leb 1 1
      && true
      && contains (custom "a" ∷ []) (custom "a")
      && true)
selects-step_row_example =
    selects-step_row serde clock jsonb 3 (at_step 1) columns values "s1" of_node jsonb-IsStored
      (omega arith) (omega arith) tt columns_of_step values_of_columns

abbrev joined_rows : Database ℕ
joined_rows = record {
  sessions = ("s1", fifth_row) ∷ [];
  steps =
      step_row serde clock jsonb 3 (at_step 1) values
      ∷ step_row serde clock jsonb 4 (at_step 2) values
      ∷ [];
}

first_page_found :
    query_steps serde clock jsonb true "s1" (record of_node { limit = some 1 }) joined_rows
    ≡ ok record {
      checkpoints = record (at_step 2) { created_at = 4 } ∷ [];
      page_info = record { total_count = 2; page_size = 1; offset = 0; has_next_page = true };
    }
unfolding ℕ_discrete query_steps selects joined selected_page joined_to_checkpoints
    joined_to_checkpoint limit_of offset_of sort insert restore_state decode encode get
first_page_found = refl
