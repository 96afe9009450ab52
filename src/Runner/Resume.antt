-- ===== src/Runner/Resume.antt =====
-- A session that is created where its checkpoint is stored goes on from there.
use weavegraph.Base.{◌≤◌, String, String-key, ◌≡◌, ap, ◌∙◌, true, some}
use weavegraph.Base.Map.{get, get-put_self}
use weavegraph.Base.Result.{ok, map_err}
use weavegraph.State.{VersionedState}
use weavegraph.Session.{SessionState, resumed}
use weavegraph.Checkpoint.{
  Checkpoint, IsLawful, from_session, restore_session_state, restore_session_state-from_session,
}
use weavegraph.Runner.{checkpointer, Outside, AppRunner, autosaved, maybe_checkpoint}
use weavegraph.Runner.Life.{load_checkpoint, create_session, init_session}

module _ {V E S X : Type 0} (outside : Outside V E S X) (session_id : String)
    (s : SessionState V) where
  -- The checkpoint of the session that a save writes now.
  abbrev pub saved : Checkpoint V
  saved = from_session outside.now session_id s

  autosaved-load :
      (cp : S)
      → IsLawful outside.store
      → (outside.store.save saved cp).1 ≡ ok tt
      → load_checkpoint outside session_id (autosaved outside session_id true (some cp) (some s))
        ≡ ok (some saved)
  unfolding load_checkpoint autosaved from_session
  autosaved-load cp lawful good = ap (map_err checkpointer) (lawful.load-save saved cp good)

  module _ {C : Type 0} (cp : S) (runner : AppRunner V E C S) where
    maybe_checkpoint-load :
        IsLawful outside.store
        → runner.autosave ≡ true
        → runner.checkpointer ≡ some cp
        → get session_id runner.sessions ≡ some s
        → (outside.store.save saved cp).1 ≡ ok tt
        → load_checkpoint outside session_id
            (maybe_checkpoint outside session_id runner).checkpointer
          ≡ ok (some saved)
    unfolding maybe_checkpoint
    maybe_checkpoint-load lawful auto given found good =
        ap
          (λ b.
            load_checkpoint outside session_id
              (autosaved outside session_id b runner.checkpointer (get session_id runner.sessions)))
          auto
        ∙ ap
            (λ c.
              load_checkpoint outside session_id
                (autosaved outside session_id true c (get session_id runner.sessions)))
            given
        ∙ ap
            (λ o.
              load_checkpoint outside session_id (autosaved outside session_id true (some cp) o))
            found
        ∙ autosaved-load cp lawful good

    -- Let the store keep what it is given, and a runner with autosave save a session whose limit of
    -- concurrency is at least 1. Then another runner over the saved store, whatever its application
    -- and sessions are, that creates a session of this name has the saved session in its map
    -- instead of a fresh one, and reports the step from which it resumes.
    pub create_session-maybe_checkpoint :
        (restarted : AppRunner V E C S) (initial_state : VersionedState V)
        → IsLawful outside.store
        → 1 ≤ s.scheduler.concurrency_limit
        → runner.autosave ≡ true
        → runner.checkpointer ≡ some cp
        → get session_id runner.sessions ≡ some s
        → (outside.store.save saved cp).1 ≡ ok tt
        → restarted.checkpointer ≡ (maybe_checkpoint outside session_id runner).checkpointer
        → (get session_id (create_session outside session_id initial_state restarted).0.sessions
            ≡ some s)
          × ((create_session outside session_id initial_state restarted).1 ≡ ok (resumed s.step))
    unfolding create_session init_session from_session restore_session_state
    create_session-maybe_checkpoint restarted initial_state lawful limit auto given found good
          same =
        let loaded =
          ap (λ c. load_checkpoint outside session_id c) same
          ∙ maybe_checkpoint-load lawful auto given found good in
        let created = ap (λ l. init_session outside session_id initial_state restarted l) loaded in
        (
          ap (λ o. get session_id o.0.sessions) created
              ∙ get-put_self session_id (restore_session_state saved) restarted.sessions
              ∙ ap some (restore_session_state-from_session outside.now session_id s limit),
          ap (λ o. o.1) created,
        )
