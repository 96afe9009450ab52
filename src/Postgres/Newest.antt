-- ===== src/Postgres/Newest.antt =====
-- The latest checkpoint of the Postgres checkpointer is the newest step, in whatever order the steps
-- are saved.
use weavegraph.Base.{
  ℕ, ℕ-key, String, String-key, ◌≡◌, ◌<◌, ◌≤◌, refl, sym, ap, ◌∙◌, arith, Bool, true, false, ◌&&◌,
  Option, none, some, [], map, if◌then◌else◌, ◌==◌, leb, leb_i64, leb_i64-leb, ◌^◌,
}
use weavegraph.Base.Map.{get}
use weavegraph.Base.Result.{Result, ok, err, ◌>>=◌, ok-injective}
use weavegraph.Kind.{encode}
use weavegraph.Checkpoint.{Checkpoint}
use weavegraph.Persistence.{decode_all}
use weavegraph.Utils.Json.{Value}
use weavegraph.Sqlite.{SqliteError, Serde, Clock}
use weavegraph.Postgres.Rows.{present, get-written, get-written_other}
use weavegraph.Postgres.Latest.{
  Loaded, load_snapshot, checkpoint_of, load_found, load_latest, IsStored, load_snapshot_saved,
  save_ok,
}
use weavegraph.Postgres.{
  SessionRow, StepValues, StepRow, Database, snapshot_of, advance, write_step, step_row, save,
}

leb_i64-le : (a b : ℕ) → b < 2 ^ 63 → a ≤ b → leb_i64 a b ≡ true
leb_i64-le a b small h = leb_i64-leb a b (omega arith) small ∙ leb_le a b h
  where
    leb_le : (a b : ℕ) → a ≤ b → leb a b ≡ true
    leb_le a b h = ground arith

leb_i64-gt : (a b : ℕ) → a < 2 ^ 63 → b < a → leb_i64 a b ≡ false
leb_i64-gt a b small h = leb_i64-leb a b small (omega arith) ∙ leb_gt a b h
  where
    leb_gt : (a b : ℕ) → b < a → leb a b ≡ false
    leb_gt a b h = ground arith

advance_newer :
    {N : Type 0} (row : StepRow N) (s : SessionRow N)
    → row.step < 2 ^ 63
    → s.last_step ≤ row.step
    → advance row s ≡ record {
      updated_at = row.created_at;
      concurrency_limit = s.concurrency_limit;
      last_step = row.step;
      snapshot = snapshot_of row.values;
    }
advance_newer row s small h = rw (leb_i64-le s.last_step row.step small h) refl

advance_older :
    {N : Type 0} (row : StepRow N) (s : SessionRow N)
    → s.last_step < 2 ^ 63
    → row.step < s.last_step
    → advance row s ≡ record s { updated_at = row.created_at }
advance_older row s small h = rw (leb_i64-gt s.last_step row.step small h) refl

and_false : (b : Bool) → (b && false) ≡ false
and_false true = refl
and_false false = refl

module _ {V N X : Type 0} (serde : Serde V N X) (clock : Clock)
    (jsonb : String → Option (Value N)) where
  -- The time of a checkpoint, set anew.
  abbrev pub stamped : ℕ → Option (Checkpoint V) → Option (Checkpoint V)
  stamped now none = none
  stamped now (some checkpoint) = some record checkpoint { created_at = now }

  -- What `load_latest` gives for a checkpoint that was saved.
  abbrev pub newest_of : ℕ → ℕ → Checkpoint V → Checkpoint V
  newest_of now limit checkpoint = record checkpoint {
    concurrency_limit = limit;
    created_at = now;
    ran_nodes = [];
    skipped_nodes = [];
    updated_channels = [];
  }

  after_save :
      (now : ℕ) (checkpoint : Checkpoint V) (db : Database N) (values : StepValues N)
      → load_latest serde clock jsonb true checkpoint.session_id (
          write_step
            (step_row serde clock jsonb now checkpoint values)
            checkpoint.concurrency_limit
            db)
        ≡ load_found serde clock jsonb checkpoint.session_id (
            some (
              advance
                (step_row serde clock jsonb now checkpoint values)
                (present checkpoint.concurrency_limit now (get checkpoint.session_id db.sessions))))
  unfolding load_latest write_step
  after_save now checkpoint db values = ap (load_found serde clock jsonb checkpoint.session_id) (
      get-written (step_row serde clock jsonb now checkpoint values) checkpoint.concurrency_limit
        db.sessions)

  load_newer :
      (now limit : ℕ) (checkpoint : Checkpoint V) (values : StepValues N)
      → load_snapshot serde clock jsonb (snapshot_of values)
        ≡ ok record {
          state = checkpoint.state;
          frontier = map encode checkpoint.frontier;
          versions_seen = checkpoint.versions_seen;
        }
      → load_found serde clock jsonb checkpoint.session_id (
          some record {
            updated_at = now;
            concurrency_limit = limit;
            last_step = checkpoint.step;
            snapshot = snapshot_of values;
          })
        ≡ ok (some (newest_of now limit checkpoint))
  load_newer now limit checkpoint values loaded =
      rw (and_false (checkpoint.step == 0), loaded, decode_all checkpoint.frontier) refl

  load_older :
      (now : ℕ) (id : String) (s : SessionRow N) (found : Option (Checkpoint V))
      → load_found serde clock jsonb id (some s) ≡ ok found
      → load_found serde clock jsonb id (some record s { updated_at = now })
        ≡ ok (stamped now found)
  load_older now id s found h = go _ (load_snapshot serde clock jsonb s.snapshot) h
    where
      go :
          (b : Bool) (loaded : Result (SqliteError X) (Loaded V))
          → (if b
              then ok none
              else (loaded >>= λ l. ok (some (checkpoint_of serde clock jsonb id s l))))
            ≡ ok found
          → (if b
              then ok none
              else (loaded >>= λ l.
                  ok (some (checkpoint_of serde clock jsonb id (record s { updated_at = now }) l))))
            ≡ ok (stamped now found)
      go true loaded h = ap (λ o. ok (stamped now o)) (ok-injective (SqliteError X) h)
      go false (ok l) h = ap (λ o. ok (stamped now o)) (ok-injective (SqliteError X) h)
      go false (err e) h = absurd cc

  -- Let the database keep the states, the versions and the arrays of texts that it takes. After a
  -- save that succeeds of a step below 2 ^ 63 that is not below the last step of its session, the latest checkpoint
  -- of the session has the step, the state, the frontier and the versions that were saved, the time
  -- of the save, the limit of the session's first save, and no nodes or channels of the step; and
  -- another session loads as before.
  pub load_latest-save_newest :
      (now : ℕ) (checkpoint : Checkpoint V) (db after : Database N) (other : String)
      → IsStored serde clock jsonb
      → ¬ (checkpoint.session_id ≡ other)
      → checkpoint.step < 2 ^ 63
      → (present checkpoint.concurrency_limit now (get checkpoint.session_id db.sessions)).last_step
        ≤ checkpoint.step
      → save serde clock jsonb true now checkpoint db ≡ (after, ok tt)
      → (load_latest serde clock jsonb true checkpoint.session_id after
          ≡ ok (
              some (
                newest_of now
                  (present checkpoint.concurrency_limit now
                    (get checkpoint.session_id db.sessions)).concurrency_limit
                  checkpoint)))
        × (load_latest serde clock jsonb true other after
            ≡ load_latest serde clock jsonb true other db)
  unfolding load_latest write_step
  load_latest-save_newest now checkpoint db after other stored apart small newer h =
      let (columns, values, made, put_in, is_after) =
        save_ok serde clock jsonb now checkpoint db after h in
      let row = step_row serde clock jsonb now checkpoint values in
      let s = present checkpoint.concurrency_limit now (get checkpoint.session_id db.sessions) in
      (
        ap (load_latest serde clock jsonb true checkpoint.session_id) is_after
            ∙ after_save now checkpoint db values
            ∙ ap (λ r. load_found serde clock jsonb checkpoint.session_id (some r))
                (advance_newer row s small newer)
            ∙ load_newer now s.concurrency_limit checkpoint values (
                load_snapshot_saved serde clock jsonb checkpoint columns values stored made put_in),
        ap (load_latest serde clock jsonb true other) is_after
            ∙ ap (load_found serde clock jsonb other)
                (get-written_other row checkpoint.concurrency_limit db.sessions other apart),
      )

  -- After a save that succeeds of a step below the last step of its session, which is below 2 ^ 63, the latest checkpoint of
  -- the session is the one it was, but for the time, which is that of the save.
  pub load_latest-save_older :
      (now : ℕ) (checkpoint : Checkpoint V) (db after : Database N) (s : SessionRow N)
      (latest : Option (Checkpoint V))
      → get checkpoint.session_id db.sessions ≡ some s
      → s.last_step < 2 ^ 63
      → checkpoint.step < s.last_step
      → load_latest serde clock jsonb true checkpoint.session_id db ≡ ok latest
      → save serde clock jsonb true now checkpoint db ≡ (after, ok tt)
      → load_latest serde clock jsonb true checkpoint.session_id after ≡ ok (stamped now latest)
  unfolding load_latest
  load_latest-save_older now checkpoint db after s latest found small older was h =
      let (columns, values, made, put_in, is_after) =
        save_ok serde clock jsonb now checkpoint db after h in
      let row = step_row serde clock jsonb now checkpoint values in
      ap (load_latest serde clock jsonb true checkpoint.session_id) is_after
      ∙ after_save now checkpoint db values
      ∙ ap
          (λ o.
            load_found serde clock jsonb checkpoint.session_id
              (some (advance row (present checkpoint.concurrency_limit now o))))
          found
      ∙ ap (λ r. load_found serde clock jsonb checkpoint.session_id (some r))
          (advance_older row s small older)
      ∙ load_older now checkpoint.session_id s latest
          (ap (load_found serde clock jsonb checkpoint.session_id) (sym found) ∙ was)
