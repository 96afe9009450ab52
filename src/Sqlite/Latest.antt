-- ===== src/Sqlite/Latest.antt =====
-- `load_latest` of the SQLite checkpointer, and what it reads after `save`.
use weavegraph.Base.{
  ℕ, ℕ-key, String, String-key, ◌≡◌, refl, sym, ap, ◌∙◌, inl, inr, Bool, true, false, ◌&&◌, Option,
  none, some, List, [], ◌∷◌, map, if◌then◌else◌, ◌==◌,
}
use weavegraph.Base.Map.{get}
use weavegraph.Base.Result.{
  Result, ok, err, map_err, ◌>>=◌, >>=-eq-ok, map_err-eq-ok, Result-cases, ok-injective,
}
use weavegraph.Kind.{encode, decode}
use weavegraph.Checkpoint.{Checkpoint}
use weavegraph.Persistence.{
  PersistedState, PersistedVersionsSeen, persist_state, restore_state, parsed_or, decode_all,
}
use weavegraph.Utils.Json.{Value, string, array, Items, nil, item}
use weavegraph.Sqlite.Rows.{initial_limit, written_row, get-insert_rows, get-insert_rows_other}
use weavegraph.Sqlite.{
  SessionRow, StepColumns, StepRow, Database, SqliteError, backend, json, not_array, missing_field,
  convert, Serde, Clock, insert_or_replace, items_of, serialize_json, serialize_texts,
  serialize_checkpoint, row_of, save,
}

abbrev is_none {ℓ} : {A : Type ℓ} → Option A → Bool
is_none (some a) = false
is_none none = true

module _ {V N X : Type 0} (serde : Serde V N X) (clock : Clock) where
  -- `filter_map(|v| v.as_str())`.
  abbrev pub texts_in : Items N → List String
  texts_in nil = []
  texts_in (item (string s) rest) = s ∷ texts_in rest
  texts_in (item v rest) = texts_in rest

  abbrev pub texts_of : String → Value N → Result (SqliteError X) (List String)
  texts_of context (array items) = ok (texts_in items)
  texts_of context v = err (not_array context)

  abbrev pub require_json_field : Option String → String → Result (SqliteError X) String
  require_json_field (some text) name = ok text
  require_json_field none name = err (missing_field name)

  abbrev pub deserialize_json : String → String → Result (SqliteError X) (Value N)
  deserialize_json text context = map_err (json context) (serde.parse text)

  -- What `load_latest` makes of the row of a session that has a checkpoint.
  unfoldable pub load_row : ℕ → String → SessionRow → Result (SqliteError X) (Checkpoint V)
  load_row now session_id row = do
    state_payload ← require_json_field row.last_state_json "state_json"
    frontier_payload ← require_json_field row.last_frontier_json "frontier_json"
    versions_seen_payload ← require_json_field row.last_versions_seen_json "versions_seen_json"
    state_val ← deserialize_json state_payload "state"
    frontier_val ← deserialize_json frontier_payload "frontier"
    versions_seen_val ← deserialize_json versions_seen_payload "versions_seen"
    persisted_state ← map_err (json "state") (serde.state_of state_val)
    state ← map_err convert (restore_state persisted_state)
    frontier ← texts_of "frontier" frontier_val
    persisted_vs ← map_err (json "versions_seen") (serde.seen_of versions_seen_val)
    ok record {
      session_id = session_id;
      step = row.last_step;
      state = state;
      frontier = map decode frontier;
      versions_seen = persisted_vs.seen;
      concurrency_limit = row.concurrency_limit;
      created_at = parsed_or now ((clock.time).parse_from_rfc3339 row.updated_at);
      ran_nodes = [];
      skipped_nodes = [];
      updated_channels = [];
    }

  abbrev pub load_found :
      ℕ → String → Option SessionRow → Result (SqliteError X) (Option (Checkpoint V))
  load_found now session_id none = ok none
  load_found now session_id (some row) =
      if row.last_step == 0 && is_none row.last_state_json
      then ok none
      else (load_row now session_id row >>= λ checkpoint. ok (some checkpoint))

  unfoldable pub load_latest :
      Bool → ℕ → String → Database → Result (SqliteError X) (Option (Checkpoint V))
  load_latest reachable now session_id db =
      if reachable then load_found now session_id (get session_id db.sessions) else err backend

  -- serde_json parses back what it printed, and takes back what it made values of.
  abbrev pub IsExact : Type 0
  IsExact =
      ((v : Value N) (text : String) → serde.print v ≡ ok text → serde.parse text ≡ ok v)
      × ((p : PersistedState V) (v : Value N)
          → serde.state_value p ≡ ok v
          → serde.state_of v ≡ ok p)
      × ((p : PersistedVersionsSeen) (v : Value N)
          → serde.seen_value p ≡ ok v
          → serde.seen_of v ≡ ok p)

  pub texts_in-items_of : (texts : List String) → texts_in (items_of serde clock texts) ≡ texts
  texts_in-items_of [] = refl
  texts_in-items_of (s ∷ rest) = ap (λ ts. s ∷ ts) (texts_in-items_of rest)

  -- A text that was serialised came of a value, and parses to it.
  pub parsed_back :
      (context : String) (value : Result X (Value N)) (text : String)
      → IsExact
      → serialize_json serde clock context value ≡ ok text
      → (v : Value N) × (value ≡ ok v) × (serde.parse text ≡ ok v)
  parsed_back context value text exact h =
      let (v, made, printed) =
        >>=-eq-ok value serde.print (map_err-eq-ok (json context) (value >>= serde.print) h) in
      (v, made, exact.0 v text printed)

  -- What the texts of a row are made of.
  pub serialized_parts :
      (checkpoint : Checkpoint V) (columns : StepColumns)
      → serialize_checkpoint serde clock checkpoint ≡ ok columns
      → (serialize_json serde clock "state" (serde.state_value (persist_state checkpoint.state))
          ≡ ok columns.state_json)
        × (serialize_texts serde clock "frontier" (map encode checkpoint.frontier)
            ≡ ok columns.frontier_json)
        × (serialize_json serde clock "versions_seen"
              (serde.seen_value record { seen = checkpoint.versions_seen })
            ≡ ok columns.versions_seen_json)
        × (serialize_texts serde clock "ran_nodes" (map encode checkpoint.ran_nodes)
            ≡ ok columns.ran_nodes_json)
        × (serialize_texts serde clock "skipped_nodes" (map encode checkpoint.skipped_nodes)
            ≡ ok columns.skipped_nodes_json)
        × (serialize_texts serde clock "updated_channels" checkpoint.updated_channels
            ≡ ok columns.updated_channels_json)
  unfolding serialize_checkpoint
  serialized_parts checkpoint columns h =
      let (state_json, e1, r1) =
        >>=-eq-ok
          (serialize_json serde clock "state" (serde.state_value (persist_state checkpoint.state)))
          _ h in
      let (frontier_json, e2, r2) =
        >>=-eq-ok (serialize_texts serde clock "frontier" (map encode checkpoint.frontier)) _ r1 in
      let (versions_seen_json, e3, r3) =
        >>=-eq-ok
          (serialize_json serde clock "versions_seen"
            (serde.seen_value record { seen = checkpoint.versions_seen }))
          _ r2 in
      let (ran_nodes_json, e4, r4) =
        >>=-eq-ok (serialize_texts serde clock "ran_nodes" (map encode checkpoint.ran_nodes)) _
          r3 in
      let (skipped_nodes_json, e5, r5) =
        >>=-eq-ok
          (serialize_texts serde clock "skipped_nodes" (map encode checkpoint.skipped_nodes)) _
          r4 in
      let (updated_channels_json, e6, r6) =
        >>=-eq-ok (serialize_texts serde clock "updated_channels" checkpoint.updated_channels) _
          r5 in
      let made =
        ok-injective (SqliteError X)
          {a = record {
            state_json = state_json;
            frontier_json = frontier_json;
            versions_seen_json = versions_seen_json;
            ran_nodes_json = ran_nodes_json;
            skipped_nodes_json = skipped_nodes_json;
            updated_channels_json = updated_channels_json;
          }}
          r6 in
      (
        e1 ∙ ap (λ c. ok c.state_json) made,
        e2 ∙ ap (λ c. ok c.frontier_json) made,
        e3 ∙ ap (λ c. ok c.versions_seen_json) made,
        e4 ∙ ap (λ c. ok c.ran_nodes_json) made,
        e5 ∙ ap (λ c. ok c.skipped_nodes_json) made,
        e6 ∙ ap (λ c. ok c.updated_channels_json) made,
      )

  -- What `load_latest` gives for a checkpoint that was saved.
  abbrev pub latest_of : ℕ → ℕ → ℕ → Checkpoint V → Checkpoint V
  latest_of saved now limit checkpoint = record {
    session_id = checkpoint.session_id;
    step = checkpoint.step;
    state = checkpoint.state;
    frontier = checkpoint.frontier;
    versions_seen = checkpoint.versions_seen;
    concurrency_limit = limit;
    created_at = parsed_or now ((clock.time).parse_from_rfc3339 (clock.strftime saved));
    ran_nodes = [];
    skipped_nodes = [];
    updated_channels = [];
  }

  load_row_saved :
      (saved now limit : ℕ) (checkpoint : Checkpoint V) (columns : StepColumns)
      → IsExact
      → serialize_checkpoint serde clock checkpoint ≡ ok columns
      → load_row now checkpoint.session_id
          (written_row (row_of serde clock (clock.strftime saved) checkpoint columns) limit)
        ≡ ok (latest_of saved now limit checkpoint)
  unfolding load_row restore_state persist_state
  load_row_saved saved now limit checkpoint columns exact h =
      let (e1, e2, e3, _, _, _) = serialized_parts checkpoint columns h in
      let (v1, m1, p1) = parsed_back "state" _ _ exact e1 in
      let (v2, m2, p2) = parsed_back "frontier" _ _ exact e2 in
      let (v3, m3, p3) = parsed_back "versions_seen" _ _ exact e3 in
      let listed : array (items_of serde clock (map encode checkpoint.frontier)) ≡ v2 =
        ok-injective X m2 in
      rw
        (
          load_row,
          p1,
          p2,
          p3,
          exact.1 _ v1 m1,
          ← listed,
          texts_in-items_of (map encode checkpoint.frontier),
          decode_all checkpoint.frontier,
          exact.2 _ v3 m3,
        )
        refl

  save_ok :
      (saved : ℕ) (checkpoint : Checkpoint V) (db after : Database)
      → save serde clock true saved checkpoint db ≡ (after, ok tt)
      → (columns : StepColumns) × (serialize_checkpoint serde clock checkpoint ≡ ok columns)
        × (after
            ≡ insert_or_replace
                (row_of serde clock (clock.strftime saved) checkpoint columns)
                checkpoint.concurrency_limit
                db)
  unfolding save
  save_ok saved checkpoint db after h =
      elim (Result-cases (serialize_checkpoint serde clock checkpoint)) [
        | inl (columns, made) ↦ (columns, made, sym (ap (λ x. x.0) (rw (made, save) at h)))
        | inr (e, failed) ↦ absurd (ok_differs e (ap (λ x. x.1) (rw (failed, save) at h)))
      ]
    where
      ok_differs :
          (e : SqliteError X) → ¬ (◌≡◌ {A = Result (SqliteError X) (Unit {0})} (err e) (ok tt))
      ok_differs e h = cc

  load_found_written :
      (now limit : ℕ) (id : String) (row : StepRow)
      → load_found now id (some (written_row row limit))
        ≡ (load_row now id (written_row row limit) >>= λ checkpoint. ok (some checkpoint))
  load_found_written now limit id row =
      ap
        (λ b.
          if b
          then ok none
          else (load_row now id (written_row row limit) >>= λ checkpoint. ok (some checkpoint)))
        (and_false (row.step == 0))
    where
      and_false : (b : Bool) → (b && false) ≡ false
      and_false true = refl
      and_false false = refl

  -- Let serde_json take back what it makes. After a save that succeeds, the latest checkpoint of its
  -- session has the step, the state, the frontier and the versions that were saved, the time of the
  -- save, the limit of the session's first save, and no nodes or channels of the step; and another
  -- session loads as before.
  pub load_latest-save :
      (saved now : ℕ) (checkpoint : Checkpoint V) (db after : Database) (other : String)
      → IsExact
      → ¬ (checkpoint.session_id ≡ other)
      → save serde clock true saved checkpoint db ≡ (after, ok tt)
      → (load_latest true now checkpoint.session_id after
          ≡ ok (
              some (
                latest_of saved now
                  (initial_limit checkpoint.concurrency_limit
                    (get checkpoint.session_id db.sessions))
                  checkpoint)))
        × (load_latest true now other after ≡ load_latest true now other db)
  unfolding load_latest insert_or_replace
  load_latest-save saved now checkpoint db after other exact apart h =
      let (columns, made, is_after) = save_ok saved checkpoint db after h in
      let row = row_of serde clock (clock.strftime saved) checkpoint columns in
      let limit = checkpoint.concurrency_limit in
      let first = initial_limit limit (get checkpoint.session_id db.sessions) in
      (
        ap
              (λ (d : Database).
                load_found now checkpoint.session_id (get checkpoint.session_id d.sessions))
              is_after
            ∙ ap (load_found now checkpoint.session_id) (get-insert_rows row limit db.sessions)
            ∙ load_found_written now first checkpoint.session_id row
            ∙ ap (λ r. r >>= λ c. ok (some c))
                (load_row_saved saved now first checkpoint columns exact made),
        ap (λ (d : Database). load_found now other (get other d.sessions)) is_after
            ∙ ap (load_found now other) (get-insert_rows_other row limit db.sessions other apart),
      )
