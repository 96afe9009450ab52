-- ===== src/Sqlite/Checked.antt =====
-- `save_with_concurrency_check` of the SQLite checkpointer: optimistic concurrency.
use weavegraph.Base.{
  ℕ, ℕ-key, String-key, ◌≡◌, ◌≢◌, ◌⊎◌, refl, sym, ap, subst, ◌∙◌, inl, inr, Bool, true, false,
  Option, none, some, [], ◌∷◌, ◌++◌, any, if◌then◌else◌, ◌==◌, Bool-cases, same-test,
}
use weavegraph.Base.Map.{get}
use weavegraph.Base.Result.{Result, ok, err, Result-cases}
use weavegraph.Checkpoint.{Checkpoint}
use weavegraph.Sqlite.Rows.{initial_limit, written_row, get-insert_rows}
use weavegraph.Sqlite.{
  SessionRow, StepColumns, StepRow, Database, SqliteError, backend, conflict, session_not_found,
  step_exists, Serde, Clock, insert_rows, same_step, serialize_checkpoint, row_of,
}

-- The step that a caller expects, against the row of the session.
unfoldable pub check_step :
    {X : Type 0} → Option ℕ → Option SessionRow → Result (SqliteError X) (Unit {0})
check_step none row = ok tt
check_step (some expected) (some row) =
    if row.last_step == expected then ok tt else err (conflict expected row.last_step)
check_step (some expected) none = if expected == 0 then ok tt else err (session_not_found expected)

-- `INSERT INTO steps` fails on a row with the same primary key, and the transaction is dropped.
unfoldable pub insert_new :
    {X : Type 0} → StepRow → ℕ → Database → Database × Result (SqliteError X) (Unit {0})
insert_new row limit db =
    if any (λ other. same_step other row) db.steps then (db, err step_exists) else (
      record { sessions = insert_rows row limit db.sessions; steps = db.steps ++ row ∷ [] },
      ok tt,
    )

module _ {V N X : Type 0} (serde : Serde V N X) (clock : Clock) where
  unfoldable pub save_with_concurrency_check :
      Bool → ℕ → Checkpoint V → Option ℕ → Database → Database × Result (SqliteError X) (Unit {0})
  save_with_concurrency_check reachable now checkpoint expected_last_step db =
      elim (serialize_checkpoint serde clock checkpoint) [
        | err e ↦ (db, err e)
        | ok columns ↦
            if reachable
            then elim (check_step expected_last_step (get checkpoint.session_id db.sessions)) [
              | err e ↦ (db, err e)
              | ok _ ↦
                  insert_new (row_of serde clock (clock.strftime now) checkpoint columns)
                    checkpoint.concurrency_limit db
            ]
            else (db, err backend)
      ]

  -- A step that the expected one allows: the last step of the session, or 0 for a new one.
  abbrev pub IsExpected : Option ℕ → Option SessionRow → Type 0
  IsExpected none row = Unit
  IsExpected (some expected) (some row) = row.last_step ≡ expected
  IsExpected (some expected) none = expected ≡ 0

  check_step-IsExpected :
      (expected : Option ℕ) (row : Option SessionRow)
      → check_step {X = X} expected row ≡ ok tt
      → IsExpected expected row
  unfolding check_step
  check_step-IsExpected none row h = tt
  check_step-IsExpected (some e) (some row) h = elim (Bool-cases (row.last_step == e)) [
    | inl same ↦ same-test row.last_step e same
    | inr other ↦
        let refused : ◌≡◌ {A = Result (SqliteError X) (Unit {0})} (err (conflict e row.last_step))
            (ok tt) =
          rw other at h in
        absurd cc
  ]
  check_step-IsExpected (some e) none h = elim (Bool-cases (e == 0)) [
    | inl same ↦ same-test e 0 same
    | inr other ↦
        let refused : ◌≡◌ {A = Result (SqliteError X) (Unit {0})} (err (session_not_found e))
            (ok tt) =
          rw other at h in
        absurd cc
  ]

  -- What a checked save leaves when it succeeds.
  abbrev pub Admitted :
      Bool → ℕ → Checkpoint V → Option ℕ → Database → Database → StepColumns → Type 0
  Admitted reachable now checkpoint expected db after columns =
      let row = row_of serde clock (clock.strftime now) checkpoint columns in
      (serialize_checkpoint serde clock checkpoint ≡ ok columns)
      × (reachable ≡ true)
      × IsExpected expected (get checkpoint.session_id db.sessions)
      × (any (λ other. same_step other row) db.steps ≡ false)
      × (after.sessions ≡ insert_rows row checkpoint.concurrency_limit db.sessions)
      × (after.steps ≡ db.steps ++ row ∷ [])

  checked :
      (now : ℕ) (checkpoint : Checkpoint V) (expected : Option ℕ) (db : Database)
      (columns : StepColumns)
      → serialize_checkpoint serde clock checkpoint ≡ ok columns
      → check_step {X = X} expected (get checkpoint.session_id db.sessions) ≡ ok tt
      → save_with_concurrency_check true now checkpoint expected db
        ≡ insert_new
            (row_of serde clock (clock.strftime now) checkpoint columns)
            checkpoint.concurrency_limit
            db
  unfolding save_with_concurrency_check
  checked now checkpoint expected db columns made allowed =
      rw (made, allowed, save_with_concurrency_check) refl

  -- A save under a check of the step either adds the row of the step, and then the database answered,
  -- the session stood at the expected step and had no row for this step; or it reports an error and
  -- changes nothing.
  pub save_with_concurrency_check-Admitted :
      (reachable : Bool) (now : ℕ) (checkpoint : Checkpoint V) (expected : Option ℕ) (db : Database)
      → ((after : Database) × (columns : StepColumns) × (save_with_concurrency_check reachable now
              checkpoint expected db
            ≡ (after, ok tt))
          × Admitted reachable now checkpoint expected db after columns)
        ⊎ ((e : SqliteError X) × (save_with_concurrency_check reachable now checkpoint expected db
              ≡ (db, err e)))
  unfolding save_with_concurrency_check insert_new
  save_with_concurrency_check-Admitted reachable now checkpoint expected db =
      elim (Result-cases (serialize_checkpoint serde clock checkpoint)) [
        | inr (e, failed) ↦ inr (e, rw (failed, save_with_concurrency_check) refl)
        | inl (columns, made) ↦ elim (Bool-cases reachable) [
          | inr down ↦ inr (backend, rw (made, down, save_with_concurrency_check) refl)
          | inl up ↦
              rw up
                (elim (Result-cases
                  (check_step {X = X} expected (get checkpoint.session_id db.sessions))) [
                    | inr (e, refused) ↦
                        inr (e, rw (made, refused, save_with_concurrency_check) refl)
                    | inl (_, allowed) ↦ added columns made allowed
                  ])
        ]
      ]
    where
      added :
          (columns : StepColumns)
          → serialize_checkpoint serde clock checkpoint ≡ ok columns
          → check_step {X = X} expected (get checkpoint.session_id db.sessions) ≡ ok tt
          → ((after : Database) × (columns : StepColumns) × (save_with_concurrency_check true now
                  checkpoint expected db
                ≡ (after, ok tt))
              × Admitted true now checkpoint expected db after columns)
            ⊎ ((e : SqliteError X) × (save_with_concurrency_check true now checkpoint expected db
                  ≡ (db, err e)))
      added columns made allowed =
          let row = row_of serde clock (clock.strftime now) checkpoint columns in
          elim (Bool-cases (any (λ other. same_step other row) db.steps)) [
            | inl there ↦ inr (
              step_exists,
              checked now checkpoint expected db columns made allowed ∙ rw there refl,
            )
            | inr new ↦ inl (
              record {
                sessions = insert_rows row checkpoint.concurrency_limit db.sessions;
                steps = db.steps ++ row ∷ [];
              },
              columns,
              checked now checkpoint expected db columns made allowed ∙ rw new refl,
              (made, refl, check_step-IsExpected expected _ allowed, new, refl, refl),
            )
          ]

  -- Of two checked saves of a session that expect the same step, the first of which moves the session
  -- to another step, the second reports an error and changes nothing.
  pub save_with_concurrency_check_second :
      (reachable : Bool) (now later : ℕ) (first second : Checkpoint V) (expected : ℕ)
      (db after : Database)
      → first.session_id ≡ second.session_id
      → first.step ≢ expected
      → save_with_concurrency_check reachable now first (some expected) db ≡ (after, ok tt)
      → (e : SqliteError X) × (save_with_concurrency_check reachable later second
            (some expected)
            after
          ≡ (after, err e))
  save_with_concurrency_check_second reachable now later first second expected db after same moved
        saved =
      elim (save_with_concurrency_check-Admitted reachable later second (some expected) after) [
        | inr failed ↦ failed
        | inl (_, _, _, (_, _, stands, _, _, _)) ↦
            elim (save_with_concurrency_check-Admitted reachable now first (some expected) db) [
              | inr (e, failed) ↦
                  let no : ◌≡◌ {A = Result (SqliteError X) (Unit {0})} (err e) (ok tt) =
                    ap (λ x. x.1) (sym failed ∙ saved) in
                  absurd cc
              | inl (left, columns, did, (_, _, _, _, sessions, _)) ↦
                  let row = row_of serde clock (clock.strftime now) first columns in
                  let read : get second.session_id after.sessions
                      ≡ some (
                          written_row row (
                            initial_limit first.concurrency_limit
                              (get first.session_id db.sessions))) =
                    ap
                      (λ (x : Database × Result (SqliteError X) (Unit {0})).
                        get second.session_id (x.0).sessions)
                      (sym saved ∙ did)
                    ∙ ap (get second.session_id) sessions
                    ∙ ap (λ k. get k (insert_rows row first.concurrency_limit db.sessions))
                        (sym same)
                    ∙ get-insert_rows row first.concurrency_limit db.sessions in
                  absurd (moved (subst (IsExpected (some expected)) read stands))
            ]
      ]
