-- ===== src/Postgres/Rows.antt =====
-- The row of a session after the statements of a save.
use weavegraph.Base.{
  ℕ, String, String-key, ◌≡◌, refl, sym, ap, ◌∙◌, inl, inr, Option, none, some, Option-cases,
}
use weavegraph.Base.Map.{Map, get, put, get-put_self, get-put_other}
use weavegraph.Postgres.{SessionRow, StepRow, ensure_session, advance, update_latest}

module _ {N : Type 0} where
  -- The row that a session has, or the one it starts with.
  abbrev pub present : ℕ → ℕ → Option (SessionRow N) → SessionRow N
  present limit now (some s) = s
  present limit now none = record {
    updated_at = now;
    concurrency_limit = limit;
    last_step = 0;
    snapshot = record {
      last_state_json = none;
      last_frontier_json = none;
      last_versions_seen_json = none;
    };
  }

  ensure_missing :
      (id : String) (limit now : ℕ) (sessions : Map String (SessionRow N))
      → get id sessions ≡ none
      → ensure_session id limit now sessions ≡ put id (present limit now none) sessions
  unfolding ensure_session
  ensure_missing id limit now sessions missing = rw (missing, ensure_session) refl

  ensure_found :
      (id : String) (limit now : ℕ) (sessions : Map String (SessionRow N)) (s : SessionRow N)
      → get id sessions ≡ some s
      → ensure_session id limit now sessions ≡ sessions
  unfolding ensure_session
  ensure_found id limit now sessions s found = rw (found, ensure_session) refl

  pub get-ensure_session :
      (id : String) (limit now : ℕ) (sessions : Map String (SessionRow N))
      → get id (ensure_session id limit now sessions) ≡ some (present limit now (get id sessions))
  get-ensure_session id limit now sessions = elim (Option-cases (get id sessions)) [
    | inl missing ↦
        ap (get id) (ensure_missing id limit now sessions missing)
        ∙ get-put_self id (present limit now none) sessions
        ∙ ap (λ o. some (present limit now o)) (sym missing)
    | inr (s, found) ↦
        ap (get id) (ensure_found id limit now sessions s found)
        ∙ found
        ∙ ap (λ o. some (present limit now o)) (sym found)
  ]

  ensure_other :
      (id other : String) (limit now : ℕ) (sessions : Map String (SessionRow N))
      → ¬ (id ≡ other)
      → get other (ensure_session id limit now sessions) ≡ get other sessions
  ensure_other id other limit now sessions apart = elim (Option-cases (get id sessions)) [
    | inl missing ↦
        ap (get other) (ensure_missing id limit now sessions missing)
        ∙ get-put_other id other (present limit now none) sessions apart
    | inr (s, found) ↦ ap (get other) (ensure_found id limit now sessions s found)
  ]

  update_found :
      (row : StepRow N) (sessions : Map String (SessionRow N)) (s : SessionRow N)
      → get row.session_id sessions ≡ some s
      → update_latest row sessions ≡ put row.session_id (advance row s) sessions
  unfolding update_latest
  update_found row sessions s found = rw (found, update_latest) refl

  -- The session of a row that was written.
  pub get-written :
      (row : StepRow N) (limit : ℕ) (sessions : Map String (SessionRow N))
      → get row.session_id
          (update_latest row (ensure_session row.session_id limit row.created_at sessions))
        ≡ some (advance row (present limit row.created_at (get row.session_id sessions)))
  get-written row limit sessions =
      ap (get row.session_id)
        (update_found row _ _ (get-ensure_session row.session_id limit row.created_at sessions))
      ∙ get-put_self row.session_id _ _

  -- The other sessions.
  pub get-written_other :
      (row : StepRow N) (limit : ℕ) (sessions : Map String (SessionRow N)) (other : String)
      → ¬ (row.session_id ≡ other)
      → get other (update_latest row (ensure_session row.session_id limit row.created_at sessions))
        ≡ get other sessions
  get-written_other row limit sessions other apart =
      ap (get other)
        (update_found row _ _ (get-ensure_session row.session_id limit row.created_at sessions))
      ∙ get-put_other row.session_id other _ _ apart
      ∙ ensure_other row.session_id other limit row.created_at sessions apart
