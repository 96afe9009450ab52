-- ===== src/Session.antt =====
-- src/runtimes/session.rs and src/runtimes/execution.rs: what a session holds, and the reports of
-- its steps.
use weavegraph.Base.{ℕ, Bool, List}
use weavegraph.Kind.{NodeKind}
use weavegraph.State.{VersionedState, NodePartial}
use weavegraph.Barrier.{BarrierOutcome}
use weavegraph.Scheduler.{Scheduler, SchedulerState}

pub record SessionState (V : Type 0) : Type 0 where
  pub state : VersionedState V
  pub step : ℕ
  pub frontier : List NodeKind
  pub scheduler : Scheduler
  pub scheduler_state : SchedulerState

pub data SessionInit : Type 0 where
  fresh : SessionInit
  resumed : ℕ → SessionInit

pub record StateVersions : Type 0 where
  pub messages_version : ℕ
  pub extra_version : ℕ

pub record StepReport (V : Type 0) : Type 0 where
  pub step : ℕ
  pub ran_nodes : List NodeKind
  pub skipped_nodes : List NodeKind
  pub barrier_outcome : BarrierOutcome V
  pub next_frontier : List NodeKind
  pub state_versions : StateVersions
  pub completed : Bool

pub record StepOptions : Type 0 where
  pub interrupt_before : List NodeKind
  pub interrupt_after : List NodeKind
  pub interrupt_each_step : Bool

pub data PausedReason : Type 0 where
  before_node after_node : NodeKind → PausedReason
  after_step : ℕ → PausedReason

pub record PausedReport (V : Type 0) : Type 0 where
  pub session_state : SessionState V
  pub reason : PausedReason

pub data StepResult (V : Type 0) : Type 0 where
  completed : StepReport V → StepResult V
  paused : PausedReport V → StepResult V

pub record SchedulerOutcome (V : Type 0) : Type 0 where
  pub ran_nodes : List NodeKind
  pub skipped_nodes : List NodeKind
  pub partials : List (NodePartial V)

-- `StateVersions` of a state.
unfoldable pub versions_of : {V : Type 0} → VersionedState V → StateVersions
versions_of s = record { messages_version = s.messages.version; extra_version = s.extra.version }
