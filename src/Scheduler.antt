-- ===== src/Scheduler.antt =====
-- src/schedulers/scheduler.rs: version gating and the superstep. A node is its `run`, a function of
-- the snapshot and the context; `debug` is the derived `Debug` of a kind; `unordered` is
-- `buffer_unordered`, which hands over the results of the tasks in the order in which they complete.
pub mod Gate
pub mod Superstep
pub mod Outcome
pub mod Again
use weavegraph.Base.{
  ℕ, String, String-key, ℕ-key, Bool, true, false, Option, none, some, List, [], ◌∷◌, ◌++◌, map,
  find, not, if◌then◌else◌, ltb, ◌==◌,
}
use weavegraph.Base.Map.{Map, get, put, contains_key}
use weavegraph.Base.Result.{Result, ok, err, ◌>>=◌}
use weavegraph.Kind.{NodeKind, NodeKind-key, start, end, custom}
use weavegraph.State.{NodePartial, StateSnapshot}

pub record NodeContext : Type 0 where
  pub node_id : String
  pub step : ℕ
  pub invocation_id : Option String

abbrev pub Node : Type 0 → Type 0 → Type 0
Node V E = StateSnapshot V → NodeContext → Result E (NodePartial V)

pub record StepRunResult (V : Type 0) : Type 0 where
  pub ran_nodes : List NodeKind
  pub skipped_nodes : List NodeKind
  pub outputs : List (NodeKind × NodePartial V)

pub record SchedulerState : Type 0 where
  pub versions_seen : Map String (Map String ℕ)

pub record Scheduler : Type 0 where
  pub concurrency_limit : ℕ

-- The error of a join has no place here: no task is spawned.
pub data SchedulerError (E : Type 0) : Type 0 where
  node_not_found : NodeKind → ℕ → SchedulerError E
  node_run : NodeKind → ℕ → E → SchedulerError E

unfoldable pub new : ℕ → Scheduler
new concurrency_limit = record {
  concurrency_limit = if concurrency_limit == 0 then 1 else concurrency_limit;
}

abbrev pub default_state : SchedulerState
default_state = record { versions_seen = [] }

unfoldable pub channel_versions : {V : Type 0} → StateSnapshot V → Map String ℕ
channel_versions snap = ("messages", snap.messages_version) ∷ ("extra", snap.extra_version) ∷ []

abbrev pub or_zero : Option ℕ → ℕ
or_zero none = 0
or_zero (some v) = v

unfoldable pub some_newer : Map String ℕ → Map String ℕ → Bool
some_newer seen [] = false
some_newer seen ((name, ver) ∷ channels) =
    if ltb (or_zero (get name seen)) ver then true else some_newer seen channels

unfoldable pub should_run_with : SchedulerState → String → Map String ℕ → Bool
should_run_with state node_id channels = elim (get node_id state.versions_seen) [
  | none ↦ true
  | some seen ↦ some_newer seen channels
]

unfoldable pub should_run : {V : Type 0} → SchedulerState → String → StateSnapshot V → Bool
should_run state node_id snap = should_run_with state node_id (channel_versions snap)

unfoldable pub put_versions : Map String ℕ → Map String ℕ → Map String ℕ
put_versions [] entry = entry
put_versions ((name, ver) ∷ channels) entry = put_versions channels (put name ver entry)

abbrev pub or_empty : Option (Map String ℕ) → Map String ℕ
or_empty none = []
or_empty (some entry) = entry

unfoldable pub record_seen_with : SchedulerState → String → Map String ℕ → SchedulerState
record_seen_with state node_id channels = record state {
  versions_seen =
      put node_id (put_versions channels (or_empty (get node_id state.versions_seen)))
        state.versions_seen;
}

unfoldable pub record_seen :
    {V : Type 0} → SchedulerState → String → StateSnapshot V → SchedulerState
record_seen state node_id snap = record_seen_with state node_id (channel_versions snap)

unfoldable pub record_all : List String → Map String ℕ → SchedulerState → SchedulerState
record_all [] channels state = state
record_all (id ∷ ids) channels state = record_all ids channels (record_seen_with state id channels)

-- `skip_predicate`.
abbrev pub is_virtual : NodeKind → Bool
is_virtual start = true
is_virtual end = true
is_virtual (custom name) = false

module _ (debug : NodeKind → String) where
  -- The kinds to run and those to skip, in the order of the frontier.
  unfoldable pub partition :
      SchedulerState → Map String ℕ → List NodeKind → List NodeKind × List NodeKind
  partition state channels [] = ([], [])
  partition state channels (k ∷ frontier) =
      let (to_run, skipped) = partition state channels frontier in
      if is_virtual k
      then (to_run, k ∷ skipped)
      else if should_run_with state (debug k) channels
      then (k ∷ to_run, skipped)
      else (to_run, k ∷ skipped)

module _ {V E : Type 0} where
  -- The first result that is an error ends the step.
  unfoldable pub collect :
      ℕ
      → List (NodeKind × Result E (NodePartial V))
      → Result (SchedulerError E) (List (NodeKind × NodePartial V))
  collect step [] = ok []
  collect step ((kind, ok part) ∷ results) =
      collect step results >>= λ outputs. ok ((kind, part) ∷ outputs)
  collect step ((kind, err e) ∷ results) = err (node_run kind step e)

  unfoldable pub run_node :
      (NodeKind → String)
      → Map NodeKind (Node V E)
      → StateSnapshot V
      → ℕ
      → Option String
      → NodeKind
      → List (NodeKind × Result E (NodePartial V))
  run_node debug nodes snap step invocation_id kind = elim (get kind nodes) [
    | none ↦ []
    | some run ↦
        (
          kind,
          run snap (record { node_id = debug kind; step = step; invocation_id = invocation_id }),
        )
        ∷ []
  ]

  unfoldable pub tasks :
      (NodeKind → String)
      → Map NodeKind (Node V E)
      → StateSnapshot V
      → ℕ
      → Option String
      → List NodeKind
      → List (NodeKind × Result E (NodePartial V))
  tasks debug nodes snap step invocation_id [] = []
  tasks debug nodes snap step invocation_id (kind ∷ kinds) =
      run_node debug nodes snap step invocation_id kind
      ++ tasks debug nodes snap step invocation_id kinds

  -- A kind without a node fails the step before any task runs; so does the first task that
  -- fails. Else the versions are recorded for the kinds that ran.
  abbrev pub finish :
      (NodeKind → String)
      → SchedulerState
      → Map String ℕ
      → ℕ
      → List NodeKind × List NodeKind
      → Option NodeKind
      → Result (SchedulerError E) (List (NodeKind × NodePartial V))
      → SchedulerState × Result (SchedulerError E) (StepRunResult V)
  finish debug state channels step (to_run, skipped) (some kind) collected =
      (state, err (node_not_found kind step))
  finish debug state channels step (to_run, skipped) none (err e) = (state, err e)
  finish debug state channels step (to_run, skipped) none (ok outputs) = (
    record_all (map debug to_run) channels state,
    ok (record { ran_nodes = to_run; skipped_nodes = skipped; outputs = outputs }),
  )

  -- The first kind that has no node.
  unfoldable pub find_missing : Map NodeKind (Node V E) → List NodeKind → Option NodeKind
  find_missing nodes [] = none
  find_missing nodes (kind ∷ kinds) =
      if contains_key kind nodes then find_missing nodes kinds else some kind

  unfoldable pub superstep :
      (NodeKind → String)
      → (ℕ
          → List (NodeKind × Result E (NodePartial V))
          → List (NodeKind × Result E (NodePartial V)))
      → Scheduler
      → SchedulerState
      → Map NodeKind (Node V E)
      → List NodeKind
      → StateSnapshot V
      → ℕ
      → Option String
      → SchedulerState × Result (SchedulerError E) (StepRunResult V)
  superstep debug unordered scheduler state nodes frontier snap step invocation_id =
      let channels = channel_versions snap in
      let parts = partition debug state channels frontier in
      finish debug state channels step parts (find_missing nodes parts.0) (
        collect step (
          unordered scheduler.concurrency_limit
            (tasks debug nodes snap step invocation_id parts.0)))
