-- ===== src/Scheduler/Gate.antt =====
-- Version gating: what the scheduler records of a node decides when the node runs again.
use weavegraph.Base.{
  String, String-key, ℕ-key, ◌≡◌, true, false, List, [], ◌∷◌, In, ◌⊎◌, inl, inr, if◌then◌else◌, ltb,
  test-same, ◌==◌, arith,
}
use weavegraph.Base.Map.{get, put, get-put}
use weavegraph.State.{StateSnapshot}
use weavegraph.Scheduler.{
  SchedulerState, channel_versions, or_empty, some_newer, should_run_with, should_run, put_versions,
  record_seen_with, record_seen, record_all,
}

module _ {V : Type 0} where
  -- A node that has recorded one snapshot runs at another just when the version of the messages or
  -- that of the extras is larger there; the record of one node changes nothing for another.
  pub should_run-record_seen :
      (st : SchedulerState) (id other : String) (snap later : StateSnapshot V)
      → should_run (record_seen st id snap) other later ≡ (
          if id == other
          then (if ltb snap.messages_version later.messages_version
              then true
              else ltb snap.extra_version later.extra_version)
          else should_run st other later)
  unfolding should_run record_seen should_run_with record_seen_with channel_versions put_versions
      some_newer
  should_run-record_seen st id other snap later = ground (
    arith,
    get-put id other
        (put "extra" snap.extra_version
          (put "messages" snap.messages_version (or_empty (get id st.versions_seen))))
        st.versions_seen,
    get-put "extra" "messages" snap.extra_version
        (put "messages" snap.messages_version (or_empty (get id st.versions_seen))),
    get-put "extra" "extra" snap.extra_version
        (put "messages" snap.messages_version (or_empty (get id st.versions_seen))),
    get-put "messages" "messages" snap.messages_version (or_empty (get id st.versions_seen)),
  )

module _ {V : Type 0} (snap : StateSnapshot V) where
  record_one :
      (st : SchedulerState) (id other : String)
      → (id ≡ other) ⊎ (should_run_with st other (channel_versions snap) ≡ false)
      → should_run_with
          (record_seen_with st id (channel_versions snap))
          other
          (channel_versions snap)
        ≡ false
  unfolding should_run record_seen
  record_one st id other (inl e) =
      ground (arith, should_run-record_seen st id other snap snap, test-same id other e)
  record_one st id other (inr e) = ground (arith, should_run-record_seen st id other snap snap)

  pub record_rest :
      (ids : List String) (st : SchedulerState) (id : String)
      → should_run_with st id (channel_versions snap) ≡ false
      → should_run_with (record_all ids (channel_versions snap) st) id (channel_versions snap)
        ≡ false
  unfolding record_all
  record_rest [] st id h = h
  record_rest (i ∷ ids) st id h =
      record_rest ids (record_seen_with st i (channel_versions snap)) id
        (record_one st i id (inr h))

  -- A node that has just recorded the versions does not want to run again.
  pub record_all-should_run :
      (ids : List String) (st : SchedulerState) (id : String)
      → In id ids
      → should_run_with (record_all ids (channel_versions snap) st) id (channel_versions snap)
        ≡ false
  unfolding record_all
  record_all-should_run [] st id i = absurd i
  record_all-should_run (j ∷ ids) st id (inl e) =
      record_rest ids (record_seen_with st j (channel_versions snap)) id
        (record_one st j id (inl e))
  record_all-should_run (j ∷ ids) st id (inr i) =
      record_all-should_run ids (record_seen_with st j (channel_versions snap)) id i
