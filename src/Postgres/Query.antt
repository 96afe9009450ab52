-- ===== src/Postgres/Query.antt =====
-- `query_steps` of the Postgres checkpointer: the steps of a session by pages. The nodes of a step are
-- filtered by containment (`@>`) of a JSON array of one text. Steps are compared as
-- i64. The queries and their results are those of the SQLite checkpointer.
use weavegraph.Base.{
  ℕ, ◌+◌, ◌%◌, ◌^◌, ℕ-key, String, String-key, ◌≡◌, refl, sym, ap, ◌∙◌, inl, inr, Bool, true, false,
  ◌&&◌, Option, none, some, List, [], ◌∷◌, map, filter, drop, length, contains, if◌then◌else◌, ◌==◌,
  ltb, leb, leb_i64, leb_i64-leb, ◌<◌, Bool-cases, test-same, same-test, test-other,
}
use weavegraph.Base.Sort.{sort}
use weavegraph.Base.Map.{Map, get}
use weavegraph.Base.Result.{Result, ok, err, map_err, ◌>>=◌}
use weavegraph.Kind.{NodeKind, NodeKind-key, encode, decode}
use weavegraph.Kind.Codec.{decode-encode}
use weavegraph.Checkpoint.{Checkpoint}
use weavegraph.Persistence.{persist_state, restore_state, decode_all}
use weavegraph.Utils.Json.{Value, string, array, Items, nil, item}
use weavegraph.Sqlite.{
  SqliteError, backend, json, convert, Serde, Clock, items_of, serialize_checkpoint, StepColumns,
}
use weavegraph.Sqlite.Latest.{texts_of, texts_in-items_of, serialized_parts}
use weavegraph.Sqlite.Query.{StepQuery, StepQueryResult, HasI64, holds, take, limit_of, offset_of}
use weavegraph.Postgres.{SessionRow, StepValues, StepRow, Database, step_row, cast_columns}
use weavegraph.Postgres.Latest.{IsStored, cast_parts}

-- The step rows of the session that meet the conditions, with the limit of their session.
abbrev pub Joined : Type 0 → Type 0
Joined N = StepRow N × ℕ

module _ {N : Type 0} where
  abbrev pub has_text : String → Items N → Bool
  has_text s nil = false
  has_text s (item (string t) rest) = if t == s then true else has_text s rest
  has_text s (item v rest) = has_text s rest

  -- `v @> '["s"]'`.
  abbrev pub holds_text : Value N → String → Bool
  holds_text (array items) s = has_text s items
  holds_text v s = false

  -- The conditions of the WHERE clause.
  unfoldable pub selects : String → StepQuery → StepRow N → Bool
  selects session_id query row =
      (row.session_id == session_id)
      && holds query.min_step (λ n. leb_i64 n row.step)
      && holds query.max_step (λ n. leb_i64 row.step n)
      && holds query.ran_node (λ k. holds_text row.values.ran_nodes_json (encode k))
      && holds query.skipped_node (λ k. holds_text row.values.skipped_nodes_json (encode k))

  -- `JOIN sessions`: a row without its session is dropped.
  unfoldable pub joined : Map String (SessionRow N) → List (StepRow N) → List (Joined N)
  joined sessions [] = []
  joined sessions (row ∷ rows) = elim (get row.session_id sessions) [
    | some s ↦ (row, s.concurrency_limit) ∷ joined sessions rows
    | none ↦ joined sessions rows
  ]

  unfoldable pub selected_page : StepQuery → List (Joined N) → List (Joined N)
  selected_page query rows =
      take (limit_of query)
        (drop (offset_of query) (sort (λ (a b : Joined N). leb_i64 b.0.step a.0.step) rows))

module _ {V N X : Type 0} (serde : Serde V N X) (clock : Clock)
    (jsonb : String → Option (Value N)) where
  unfoldable pub joined_to_checkpoint : String → Joined N → Result (SqliteError X) (Checkpoint V)
  joined_to_checkpoint session_id (row, limit) = do
    persisted_state ← map_err (json "state") (serde.state_of row.values.state_json)
    state ← map_err convert (restore_state persisted_state)
    frontier ← texts_of serde clock "frontier" row.values.frontier_json
    ran_nodes ← texts_of serde clock "ran_nodes" row.values.ran_nodes_json
    skipped_nodes ← texts_of serde clock "skipped_nodes" row.values.skipped_nodes_json
    updated_channels ← texts_of serde clock "updated_channels" row.values.updated_channels_json
    persisted_vs ← map_err (json "versions_seen") (serde.seen_of row.values.versions_seen_json)
    ok record {
      session_id = session_id;
      step = row.step;
      state = state;
      frontier = map decode frontier;
      versions_seen = persisted_vs.seen;
      concurrency_limit = limit;
      created_at = row.created_at;
      ran_nodes = map decode ran_nodes;
      skipped_nodes = map decode skipped_nodes;
      updated_channels = updated_channels;
    }

  unfoldable pub joined_to_checkpoints :
      String → List (Joined N) → Result (SqliteError X) (List (Checkpoint V))
  joined_to_checkpoints session_id [] = ok []
  joined_to_checkpoints session_id (row ∷ rows) = do
    checkpoint ← joined_to_checkpoint session_id row
    rest ← joined_to_checkpoints session_id rows
    ok (checkpoint ∷ rest)

  unfoldable pub query_steps :
      Bool → String → StepQuery → Database N → Result (SqliteError X) (StepQueryResult V)
  query_steps reachable session_id query db =
      if reachable
      then (let rows = filter (selects session_id query) db.steps in
          joined_to_checkpoints session_id (selected_page query (joined db.sessions rows))
          >>= λ checkpoints. ok record {
            checkpoints = checkpoints;
            page_info = record {
              total_count = length rows;
              page_size = length checkpoints % 2 ^ 32;
              offset = offset_of query;
              has_next_page =
                  ltb ((offset_of query + limit_of query) % 2 ^ 32) (length rows % 2 ^ 32);
            };
          })
      else err backend

  -- A test of a bound whose number is below 2 ^ 63 where there is one.
  holds_small :
      (bound : Option ℕ) (f g : ℕ → Bool)
      → HasI64 bound
      → ((n : ℕ) → n < 2 ^ 63 → f n ≡ g n)
      → holds bound f ≡ holds bound g
  holds_small none f g small same = refl
  holds_small (some n) f g small same = same n small

  -- The text of a node stands in the array of the nodes' texts just when the node is one of them.
  has_text-encode :
      (k : NodeKind) (kinds : List NodeKind)
      → has_text (encode k) (items_of serde clock (map encode kinds)) ≡ contains kinds k
  has_text-encode k [] = refl
  has_text-encode k (j ∷ kinds) = elim (Bool-cases (j == k)) [
    | inl same ↦ rw (same, test-same (encode j) (encode k) (ap encode (same-test j k same))) refl
    | inr other ↦
        rw
          (
            other,
            test-other (encode j) (encode k) (λ e.
                let equal = sym (decode-encode j) ∙ ap decode e ∙ decode-encode k in
                let no : true ≡ false = sym (test-same j k equal) ∙ other in cc),
          )
          (has_text-encode k kinds)
  ]

  -- Let the database keep the states, the versions and the arrays of texts that it takes. The row of a
  -- checkpoint that was saved gives it back whole, but for its limit, which is the session's, and its
  -- time, which is the row's.
  pub joined_to_checkpoint-step_row :
      (now limit : ℕ) (checkpoint : Checkpoint V) (columns : StepColumns) (values : StepValues N)
      → IsStored serde clock jsonb
      → serialize_checkpoint serde clock checkpoint ≡ ok columns
      → cast_columns serde clock jsonb columns ≡ ok values
      → joined_to_checkpoint checkpoint.session_id
          (step_row serde clock jsonb now checkpoint values, limit)
        ≡ ok record checkpoint { concurrency_limit = limit; created_at = now }
  unfolding joined_to_checkpoint restore_state persist_state
  joined_to_checkpoint-step_row now limit checkpoint columns values stored made put_in =
      let (e1, e2, e3, e4, e5, e6) = serialized_parts serde clock checkpoint columns made in
      let (c1, c2, c3, c4, c5, c6) = cast_parts serde clock jsonb columns values put_in in
      rw
        (
          joined_to_checkpoint,
          stored.0 _ _ _ e1 c1,
          stored.2 _ _ _ _ e2 c2,
          stored.2 _ _ _ _ e4 c4,
          stored.2 _ _ _ _ e5 c5,
          stored.2 _ _ _ _ e6 c6,
          texts_in-items_of serde clock (map encode checkpoint.frontier),
          texts_in-items_of serde clock (map encode checkpoint.ran_nodes),
          texts_in-items_of serde clock (map encode checkpoint.skipped_nodes),
          texts_in-items_of serde clock checkpoint.updated_channels,
          decode_all checkpoint.frontier,
          decode_all checkpoint.ran_nodes,
          decode_all checkpoint.skipped_nodes,
          stored.1 _ _ _ e3 c3,
        )
        refl

  -- Let the database keep the arrays of texts that it takes, and let the step of the checkpoint and the
  -- bounds of the query be below 2 ^ 63. A query of the steps selects the row of a
  -- checkpoint that was saved just when the checkpoint is of the session, its step is within the
  -- bounds, and the nodes asked for are among those that it ran and those that it skipped.
  pub selects-step_row :
      (now : ℕ) (checkpoint : Checkpoint V) (columns : StepColumns) (values : StepValues N)
      (id : String) (query : StepQuery)
      → IsStored serde clock jsonb
      → checkpoint.step < 2 ^ 63
      → HasI64 query.min_step
      → HasI64 query.max_step
      → serialize_checkpoint serde clock checkpoint ≡ ok columns
      → cast_columns serde clock jsonb columns ≡ ok values
      → selects id query (step_row serde clock jsonb now checkpoint values) ≡ (
          (checkpoint.session_id == id)
          && holds query.min_step (λ n. leb n checkpoint.step)
          && holds query.max_step (λ n. leb checkpoint.step n)
          && holds query.ran_node (λ k. contains checkpoint.ran_nodes k)
          && holds query.skipped_node (λ k. contains checkpoint.skipped_nodes k))
  unfolding selects
  selects-step_row now checkpoint columns values id query stored small least most made put_in =
      let (_, _, _, e4, e5, _) = serialized_parts serde clock checkpoint columns made in
      let (_, _, _, c4, c5, _) = cast_parts serde clock jsonb columns values put_in in
      rw (selects, stored.2 _ _ _ _ e4 c4, stored.2 _ _ _ _ e5 c5)
        (λ i.
          (checkpoint.session_id == id)
          && holds_small query.min_step (λ n. leb_i64 n checkpoint.step)
              (λ n. leb n checkpoint.step) least (λ n h. leb_i64-leb n checkpoint.step h small) i
          && holds_small query.max_step (λ n. leb_i64 checkpoint.step n)
              (λ n. leb checkpoint.step n) most (λ n h. leb_i64-leb checkpoint.step n small h) i
          && holds query.ran_node (λ k. has_text-encode k checkpoint.ran_nodes i)
          && holds query.skipped_node (λ k. has_text-encode k checkpoint.skipped_nodes i))
