-- ===== src/Runner.antt =====
-- src/runtimes/runner.rs: sessions, the steps of a session and its checkpoints. Observers, events
-- and traces are left out.
pub mod Step
pub mod Partials
pub mod Sound
pub mod Invariants
pub mod Errors
pub mod Recorded
pub mod Start
pub mod Resume
pub mod Ends
pub mod Complete
pub mod Advance
pub mod Moves
pub mod Liveness
pub mod Life
use Prim.Native.String.{◌++◌ as then_text}
use weavegraph.Base.{
  ℕ, ◌+◌, ◌%◌, ◌^◌, String, String-key, ℕ-key, Bool, true, false, ◌||◌, ◌&&◌, Option, none, some,
  List, [], ◌∷◌, map, all, find, contains, is_empty, if◌then◌else◌, ◌==◌,
}
use weavegraph.Base.Map.{Map, get, put, remove, contains_key}
use weavegraph.Base.Result.{Result, ok, err, map_err, ◌>>=◌}
use weavegraph.Kind.{NodeKind, NodeKind-key, start, end, custom, encode}
use weavegraph.State.{
  Json, ErrorEvent, ErrorScope, WeaveError, root, VersionedState, StateSnapshot, NodePartial,
  snapshot, empty_partial, with_errors,
}
use weavegraph.Reducers.{ReducerRegistry, ReducerError}
use weavegraph.Barrier.{BarrierOutcome, apply_barrier}
use weavegraph.Graph.Edges.{targets}
use weavegraph.Graph.Builder.{App}
use weavegraph.Scheduler.{
  Node, SchedulerError, node_not_found, node_run, StepRunResult, new, default_state, superstep,
}
use weavegraph.Frontier.{EdgePredicate, compute_next_frontier}
use weavegraph.Session.{
  SessionState, SessionInit, fresh, resumed, StepReport, StepOptions, PausedReason, before_node,
  after_node, after_step, StepResult, SchedulerOutcome, versions_of,
}
use weavegraph.Session
use weavegraph.Checkpoint.{Checkpoint, Checkpointer, from_session, restore_session_state}

-- The errors that the modelled operations return; `X` is the type of a checkpointer's errors.
pub data RunnerError (E X : Type 0) : Type 0 where
  session_not_found : String → RunnerError E X
  no_start_nodes : RunnerError E X
  invalid_iterative_entry : NodeKind → RunnerError E X
  unexpected_pause : RunnerError E X
  checkpointer : X → RunnerError E X
  app_barrier : ReducerError → RunnerError E X
  scheduler : SchedulerError E → RunnerError E X

-- What the runner takes from its surroundings: the derived `Debug` of a kind, the stream of tasks,
-- the parallelism of the machine, the clock, the texts of errors, and the checkpointer.
pub record Outside (V E S X : Type 0) : Type 0 where
  pub debug : NodeKind → String
  pub unordered :
      ℕ → List (NodeKind × Result E (NodePartial V)) → List (NodeKind × Result E (NodePartial V))
  pub available_parallelism : ℕ
  pub now : ℕ
  pub display_node_error : E → String
  pub display_error : RunnerError E X → String
  pub store : Checkpointer V S X

abbrev pub AppOf : Type 0 → Type 0 → Type 0 → Type 0
AppOf V E C = App (Node V E) (EdgePredicate V) C (ReducerRegistry V)

pub record AppRunner (V E C S : Type 0) : Type 0 where
  pub app : AppOf V E C
  pub sessions : Map String (SessionState V)
  pub checkpointer : Option S
  pub autosave : Bool

-- `frontier.is_empty() || frontier.iter().all(|n| *n == NodeKind::End)`.
unfoldable pub is_terminal : List NodeKind → Bool
is_terminal frontier = is_empty frontier || all (λ n. n == end) frontier

unfoldable pub is_session_complete : {V : Type 0} → SessionState V → Bool
unfolding is_terminal
is_session_complete session_state = is_terminal session_state.frontier

module _ {V : Type 0} where
  unfoldable pub by_kind :
      List (NodeKind × NodePartial V) → Map NodeKind (NodePartial V) → Map NodeKind (NodePartial V)
  by_kind [] m = m
  by_kind ((k, partial) ∷ outputs) m = by_kind outputs (put k partial m)

  -- `filter_map(|k| partials_by_kind.remove(&k))`.
  unfoldable pub take_partials : List NodeKind → Map NodeKind (NodePartial V) → List (NodePartial V)
  take_partials [] m = []
  take_partials (k ∷ ks) m =
      let rest = take_partials ks (remove k m) in
      elim (get k m) [ none ↦ rest | some partial ↦ partial ∷ rest ]

  abbrev pub normalize : StepRunResult V → SchedulerOutcome V
  normalize result = record {
    ran_nodes = result.ran_nodes;
    skipped_nodes = result.skipped_nodes;
    partials = take_partials result.ran_nodes (by_kind result.outputs []);
  }

module _ {V E C S X : Type 0} (outside : Outside V E S X) where
  -- The scheduler's state is the session's own, changed in place.
  unfoldable pub schedule_step :
      AppOf V E C
      → String
      → SessionState V
      → ℕ
      → SessionState V × Result (RunnerError E X) (SchedulerOutcome V)
  schedule_step app session_id session_state step =
      let (scheduler_state, result) =
        superstep outside.debug outside.unordered session_state.scheduler
          session_state.scheduler_state app.nodes session_state.frontier
          (snapshot session_state.state) step (some session_id) in
      (
        record session_state { scheduler_state = scheduler_state },
        map_err scheduler result >>= λ r. ok (normalize r),
      )

module _ {V E X : Type 0} where
  -- The state is replaced only when the barrier succeeds.
  abbrev pub update_session :
      SessionState V
      → VersionedState V × Result ReducerError (BarrierOutcome V)
      → SessionState V × Result (RunnerError E X) (BarrierOutcome V)
  update_session session_state (update_state, ok outcome) =
      (record session_state { state = update_state }, ok outcome)
  update_session session_state (update_state, err e) = (session_state, err (app_barrier e))

module _ {V : Type 0} ⦃json : Json V⦄ {E C X : Type 0} where
  unfoldable pub apply_barrier_and_update :
      AppOf V E C
      → SessionState V
      → List NodeKind
      → List (NodePartial V)
      → SessionState V × Result (RunnerError E X) (BarrierOutcome V)
  apply_barrier_and_update app session_state ran partials =
      update_session session_state
        (apply_barrier app.reducer_registry session_state.state ran partials)

  -- What follows the barrier of a step.
  unfoldable pub conclude_step :
      AppOf V E C
      → ℕ
      → SchedulerOutcome V
      → SessionState V × Result (RunnerError E X) (BarrierOutcome V)
      → SessionState V × Result (RunnerError E X) (StepReport V)
  conclude_step app step scheduled (session_state, err e) = (session_state, err e)
  conclude_step app step scheduled (session_state, ok outcome) =
      let next_frontier =
        compute_next_frontier app.nodes app.edges app.conditional_edges
          (snapshot session_state.state) scheduled.ran_nodes outcome.frontier_commands in
      (
        record session_state { frontier = next_frontier },
        ok (record {
          step = step;
          ran_nodes = scheduled.ran_nodes;
          skipped_nodes = scheduled.skipped_nodes;
          barrier_outcome = outcome;
          next_frontier = next_frontier;
          state_versions = versions_of session_state.state;
          completed = is_terminal next_frontier;
        }),
      )

  -- What follows the scheduler.
  unfoldable pub merge_step :
      AppOf V E C
      → ℕ
      → SessionState V × Result (RunnerError E X) (SchedulerOutcome V)
      → SessionState V × Result (RunnerError E X) (StepReport V)
  merge_step app step (session_state, err e) = (session_state, err e)
  merge_step app step (session_state, ok scheduled) =
      conclude_step app step scheduled
        (apply_barrier_and_update app session_state scheduled.ran_nodes scheduled.partials)

module _ {V : Type 0} ⦃json : Json V⦄ {E C S X : Type 0} where
  -- The step counter is a `u64`, and stays raised when the step fails.
  unfoldable pub run_one_superstep :
      Outside V E S X
      → AppOf V E C
      → String
      → SessionState V
      → SessionState V × Result (RunnerError E X) (StepReport V)
  run_one_superstep outside app session_id session_state =
      let step = (session_state.step + 1) % 2 ^ 64 in
      merge_step app step
        (schedule_step outside app session_id (record session_state { step = step }) step)

module _ {V E S X : Type 0} where
  unfoldable pub autosaved :
      Outside V E S X → String → Bool → Option S → Option (SessionState V) → Option S
  autosaved outside session_id true (some cp) (some session_state) =
      some (outside.store.save (from_session outside.now session_id session_state) cp).0
  autosaved outside session_id true (some cp) none = some cp
  autosaved outside session_id true none session_state = none
  autosaved outside session_id false cp session_state = cp

module _ {V E C S X : Type 0} where
  -- Only with autosave, a checkpointer and the session there is a save; one that fails is ignored.
  unfoldable pub maybe_checkpoint : Outside V E S X → String → AppRunner V E C S → AppRunner V E C S
  unfolding autosaved
  maybe_checkpoint outside session_id runner = record runner {
    checkpointer =
        autosaved outside session_id runner.autosave runner.checkpointer
          (get session_id runner.sessions);
  }

module _ {V : Type 0} ⦃json : Json V⦄ {E S X : Type 0} where
  -- The event that an error of a step leaves in the errors channel.
  unfoldable pub error_event :
      Outside V E S X → String → SessionState V → RunnerError E X → ErrorEvent V
  error_event outside session_id session_state e = elim e as (λ _. ErrorEvent V) [
    | scheduler source ↦ elim source as (λ _. ErrorEvent V) [
      | node_not_found kind step ↦ record {
        when = outside.now;
        scope = ErrorScope.scheduler step;
        error =
            root (then_text "node " (then_text (outside.debug kind) " not found in registry"))
              json.null;
        tags = "scheduler" ∷ "node_not_found" ∷ [];
        context = json.object (("kind", json.text (encode kind)) ∷ []);
      }
      | node_run kind step error ↦ record {
        when = outside.now;
        scope = ErrorScope.node (encode kind) step;
        error = root (outside.display_node_error error) json.null;
        tags = "node" ∷ [];
        context = json.object [];
      }
    ]
    | _ ↦ record {
      when = outside.now;
      scope = ErrorScope.runner session_id session_state.step;
      error = root (outside.display_error e) json.null;
      tags = "runner" ∷ [];
      context =
          json.object (
            ("frontier", json.array (map (λ k. json.text (encode k)) session_state.frontier)) ∷ []);
    }
  ]
