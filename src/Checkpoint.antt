-- ===== src/Checkpoint.antt =====
-- src/runtimes/checkpointer.rs: checkpoints, the checkpointer in memory and the interface that the
-- runner uses. `now` is the time of the clock.
use weavegraph.Base.{ℕ, ◌≤◌, ◌≡◌, ap, Option, some, List, [], String, String-key, ℕ-key, arith}
use weavegraph.Base.Map.{Map, get, put, keys, get-put_self, get-put_other}
use weavegraph.Base.Result.{Result, ok}
use weavegraph.Kind.{NodeKind}
use weavegraph.State.{VersionedState}
use weavegraph.Scheduler.{Scheduler, new}
use weavegraph.Session.{SessionState, StepReport}

pub record Checkpoint (V : Type 0) : Type 0 where
  pub session_id : String
  pub step : ℕ
  pub state : VersionedState V
  pub frontier : List NodeKind
  pub versions_seen : Map String (Map String ℕ)
  pub concurrency_limit : ℕ
  pub created_at : ℕ
  pub ran_nodes : List NodeKind
  pub skipped_nodes : List NodeKind
  pub updated_channels : List String

module _ {V : Type 0} where
  unfoldable pub from_session : ℕ → String → SessionState V → Checkpoint V
  from_session now session_id session = record {
    session_id = session_id;
    step = session.step;
    state = session.state;
    frontier = session.frontier;
    versions_seen = session.scheduler_state.versions_seen;
    concurrency_limit = session.scheduler.concurrency_limit;
    created_at = now;
    ran_nodes = [];
    skipped_nodes = [];
    updated_channels = [];
  }

  unfoldable pub from_step_report : ℕ → String → SessionState V → StepReport V → Checkpoint V
  from_step_report now session_id session_state report = record {
    session_id = session_id;
    step = session_state.step;
    state = session_state.state;
    frontier = session_state.frontier;
    versions_seen = session_state.scheduler_state.versions_seen;
    concurrency_limit = session_state.scheduler.concurrency_limit;
    created_at = now;
    ran_nodes = report.ran_nodes;
    skipped_nodes = report.skipped_nodes;
    updated_channels = report.barrier_outcome.updated_channels;
  }

  unfoldable pub restore_session_state : Checkpoint V → SessionState V
  unfolding new
  restore_session_state cp = record {
    state = cp.state;
    step = cp.step;
    frontier = cp.frontier;
    scheduler = new cp.concurrency_limit;
    scheduler_state = record { versions_seen = cp.versions_seen };
  }

-- The trait `Checkpointer`, over the state `S` of its implementation and its errors `X`.
pub record Checkpointer (V S X : Type 0) : Type 0 where
  pub save : Checkpoint V → S → S × Result X (Unit {0})
  pub load_latest : String → S → Result X (Option (Checkpoint V))
  pub list_sessions : S → Result X (List String)

-- What the trait documents of the two: the latest checkpoint that was saved is loaded.
pub record IsLawful {V S X : Type 0} (cp : Checkpointer V S X) : Type 0 where
  pub load-save :
      (c : Checkpoint V) (s : S)
      → (cp.save c s).1 ≡ ok tt
      → cp.load_latest c.session_id (cp.save c s).0 ≡ ok (some c)
  pub load-save_other :
      (c : Checkpoint V) (s : S) (id : String)
      → ¬ (c.session_id ≡ id)
      → cp.load_latest id (cp.save c s).0 ≡ cp.load_latest id s

module _ {V X : Type 0} where
  -- `InMemoryCheckpointer`: the last checkpoint of each session.
  unfoldable pub save :
      Checkpoint V → Map String (Checkpoint V) → Map String (Checkpoint V) × Result X (Unit {0})
  save checkpoint inner = (put checkpoint.session_id checkpoint inner, ok tt)

  unfoldable pub load_latest : String → Map String (Checkpoint V) → Result X (Option (Checkpoint V))
  load_latest session_id inner = ok (get session_id inner)

  unfoldable pub list_sessions : Map String (Checkpoint V) → Result X (List String)
  list_sessions inner = ok (keys inner)

  abbrev pub in_memory : Checkpointer V (Map String (Checkpoint V)) X
  in_memory = record { save = save; load_latest = load_latest; list_sessions = list_sessions }

  -- The checkpointer in memory keeps what the trait documents: a session's latest checkpoint is the
  -- one that was saved last, and a save changes nothing for the other sessions.
  pub in_memory-IsLawful : IsLawful in_memory
  unfolding save load_latest
  in_memory-IsLawful = record {
    load-save = λ c s h. ap ok (get-put_self c.session_id c s);
    load-save_other = λ c s id other. ap ok (get-put_other c.session_id id c s other);
  }

new-limit : (limit : ℕ) → 1 ≤ limit → new limit ≡ record { concurrency_limit = limit }
unfolding new
new-limit limit h = ground arith

-- A session comes back unchanged from its checkpoint if its limit of concurrency is at least 1.
pub restore_session_state-from_session :
    {V : Type 0} (now : ℕ) (session_id : String) (session : SessionState V)
    → 1 ≤ session.scheduler.concurrency_limit
    → restore_session_state (from_session now session_id session) ≡ session
unfolding restore_session_state from_session
restore_session_state-from_session now session_id session h =
    ap (λ (scheduler : Scheduler). record session { scheduler = scheduler })
      (new-limit session.scheduler.concurrency_limit h)
