-- ===== src/Sqlite/Rows.antt =====
-- The row of a session after the statements of a save.
use weavegraph.Base.{
  ℕ, String, String-key, ◌≡◌, refl, sym, ap, ◌∙◌, inl, inr, Option, none, some, Option-cases,
}
use weavegraph.Base.Map.{Map, get, put, get-put_self, get-put_other}
use weavegraph.Sqlite.{SessionRow, StepRow, insert_session, after_insert, insert_rows}

-- The limit of a session is the one of its first save.
abbrev pub initial_limit : ℕ → Option SessionRow → ℕ
initial_limit limit none = limit
initial_limit limit (some row) = row.concurrency_limit

-- What the trigger writes.
abbrev pub written_row : StepRow → ℕ → SessionRow
written_row row limit = record {
  updated_at = row.created_at;
  concurrency_limit = limit;
  last_step = row.step;
  last_state_json = some row.columns.state_json;
  last_frontier_json = some row.columns.frontier_json;
  last_versions_seen_json = some row.columns.versions_seen_json;
}

abbrev new_row : String → ℕ → SessionRow
new_row stamp limit = record {
  updated_at = stamp;
  concurrency_limit = limit;
  last_step = 0;
  last_state_json = none;
  last_frontier_json = none;
  last_versions_seen_json = none;
}

insert_session_missing :
    (id stamp : String) (limit : ℕ) (sessions : Map String SessionRow)
    → get id sessions ≡ none
    → insert_session id limit stamp sessions ≡ put id (new_row stamp limit) sessions
unfolding insert_session
insert_session_missing id stamp limit sessions missing = rw (missing, insert_session) refl

insert_session_found :
    (id stamp : String) (limit : ℕ) (sessions : Map String SessionRow) (s : SessionRow)
    → get id sessions ≡ some s
    → insert_session id limit stamp sessions ≡ sessions
unfolding insert_session
insert_session_found id stamp limit sessions s found = rw (found, insert_session) refl

inserted :
    (id stamp : String) (limit : ℕ) (sessions : Map String SessionRow)
    → (s : SessionRow) × (get id (insert_session id limit stamp sessions) ≡ some s)
      × (s.concurrency_limit ≡ initial_limit limit (get id sessions))
inserted id stamp limit sessions = elim (Option-cases (get id sessions)) [
  | inl missing ↦ (
    new_row stamp limit,
    ap (get id) (insert_session_missing id stamp limit sessions missing)
        ∙ get-put_self id (new_row stamp limit) sessions,
    sym (ap (initial_limit limit) missing),
  )
  | inr (s, found) ↦ (
    s,
    ap (get id) (insert_session_found id stamp limit sessions s found) ∙ found,
    sym (ap (initial_limit limit) found),
  )
]

inserted_other :
    (id other stamp : String) (limit : ℕ) (sessions : Map String SessionRow)
    → ¬ (id ≡ other)
    → get other (insert_session id limit stamp sessions) ≡ get other sessions
inserted_other id other stamp limit sessions apart = elim (Option-cases (get id sessions)) [
  | inl missing ↦
      ap (get other) (insert_session_missing id stamp limit sessions missing)
      ∙ get-put_other id other (new_row stamp limit) sessions apart
  | inr (s, found) ↦ ap (get other) (insert_session_found id stamp limit sessions s found)
]

after_insert_found :
    (row : StepRow) (stamp : String) (sessions : Map String SessionRow) (s : SessionRow)
    → get row.session_id sessions ≡ some s
    → after_insert row stamp sessions
      ≡ put row.session_id
          (record (written_row row s.concurrency_limit) { updated_at = stamp })
          sessions
unfolding after_insert
after_insert_found row stamp sessions s found = rw (found, after_insert) refl

-- The session of a row that was written.
pub get-insert_rows :
    (row : StepRow) (limit : ℕ) (sessions : Map String SessionRow)
    → get row.session_id (insert_rows row limit sessions)
      ≡ some (written_row row (initial_limit limit (get row.session_id sessions)))
unfolding insert_rows
get-insert_rows row limit sessions =
    let (s, found, same) = inserted row.session_id row.created_at limit sessions in
    ap (get row.session_id) (after_insert_found row row.created_at _ s found)
    ∙ get-put_self row.session_id _ _
    ∙ ap (λ l. some (written_row row l)) same

-- The other sessions.
pub get-insert_rows_other :
    (row : StepRow) (limit : ℕ) (sessions : Map String SessionRow) (other : String)
    → ¬ (row.session_id ≡ other)
    → get other (insert_rows row limit sessions) ≡ get other sessions
unfolding insert_rows
get-insert_rows_other row limit sessions other apart =
    let (s, found, same) = inserted row.session_id row.created_at limit sessions in
    ap (get other) (after_insert_found row row.created_at _ s found)
    ∙ get-put_other row.session_id other _ _ apart
    ∙ inserted_other row.session_id other row.created_at limit sessions apart
