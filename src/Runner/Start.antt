-- ===== src/Runner/Start.antt =====
-- The frontiers that sessions begin with.
use weavegraph.Base.{
  ◌≡◌, refl, sym, ap, subst, inl, inr, Bool, true, false, Option, none, some, List, String,
  String-key, In, IsDistinct, is_empty, if◌then◌else◌,
}
use weavegraph.Base.Map.{Map, get, put, keys, IsMap, in-get, get-put_cases, contains_key}
use weavegraph.Base.Result.{Result, ok, err, ◌>>◌, ok-injective}
use weavegraph.Kind.{NodeKind, NodeKind-key, start, end, custom}
use weavegraph.State.{VersionedState}
use weavegraph.Graph.Edges.{Edges, targets}
use weavegraph.Graph.Builder.{GraphBuilder, App, from_parts}
use weavegraph.Graph.Cycle.Decides.{Covers}
use weavegraph.Graph.Compile.{GraphCompileError, validate, compile}
use weavegraph.Graph.Compile.Known.{IsKnown}
use weavegraph.Graph.Compile.Valid.{validate-IsWellFormed}
use weavegraph.Scheduler.{Node}
use weavegraph.Reducers.{ReducerRegistry}
use weavegraph.Frontier.{EdgePredicate, is_valid_target}
use weavegraph.Session.{SessionState, SessionInit, fresh}
use weavegraph.Checkpoint.{Checkpoint, restore_session_state}
use weavegraph.Runner.{RunnerError, no_start_nodes, Outside, AppRunner}
use weavegraph.Runner.Life.{
  load_checkpoint, create_session, init_session, fresh_session, save_checkpoint,
}
use weavegraph.Runner.Sound.{IsSoundFrontier}
use weavegraph.Runner.Invariants.{IsSound}

module _ {N : Type 0} (nodes : Map NodeKind N) where
  known_valid : (k : NodeKind) → IsKnown (keys nodes) k → is_valid_target nodes k ≡ true
  unfolding is_valid_target contains_key
  known_valid start h = refl
  known_valid end h = refl
  known_valid (custom name) h =
      let (n, found) = in-get (custom name) nodes h in rw (found, contains_key)

module _ {N P C R : Type 0} (order : List NodeKind → List NodeKind) (b : GraphBuilder N P C R)
    (app : App N P C R) where
  pub compiled :
      compile order b ≡ ok app
      → (validate order b ≡ ok tt)
        × (app.nodes ≡ b.nodes)
        × (app.edges ≡ b.edges)
        × (app.conditional_edges ≡ b.conditional_edges)
  unfolding compile from_parts
  compiled h = split (validate order b) refl h
    where
      whole : App N P C R
      whole = from_parts b.nodes b.edges b.conditional_edges b.runtime_config b.reducer_registry

      split :
          (r : Result GraphCompileError (Unit {0}))
          → validate order b ≡ r
          → (r >> ok whole) ≡ ok app
          → (validate order b ≡ ok tt)
            × (app.nodes ≡ b.nodes)
            × (app.edges ≡ b.edges)
            × (app.conditional_edges ≡ b.conditional_edges)
      split (ok u) e k =
          let same = ok-injective GraphCompileError k in
          (
            e,
            sym (ap (λ (a : App N P C R). a.nodes) same),
            sym (ap (λ (a : App N P C R). a.edges) same),
            sym (ap (λ (a : App N P C R). a.conditional_edges) same),
          )
      split (err x) e k = absurd cc

  -- In an application that `compile` makes of a builder whose edges are a map, and with an order
  -- that lists the keys it is given, the targets of Start, with which a session begins, hold no
  -- kind twice, and each is virtual or registered.
  pub compile-IsDistinct :
      Covers order
      → IsMap b.edges
      → compile order b ≡ ok app
      → IsDistinct (targets app.edges start)
        × ((k : NodeKind) → In k (targets app.edges start) → is_valid_target app.nodes k ≡ true)
  compile-IsDistinct covers is_map h =
      let (valid, same_nodes, same_edges, same_conditional) = compiled h in
      let formed = (validate-IsWellFormed order b covers is_map).0 valid in
      (
        subst (λ (es : Edges). IsDistinct (targets es start)) (sym same_edges)
            (formed.distinct start),
        λ k i.
            subst (λ (ns : Map NodeKind N). is_valid_target ns k ≡ true) (sym same_nodes)
              (known_valid b.nodes k (
                formed.known.targets start k
                  (subst (λ (es : Edges). In k (targets es start)) same_edges i))),
      )

module _ {V : Type 0} {E C S X : Type 0} (outside : Outside V E S X) (session_id : String)
    (initial_state : VersionedState V) (runner : AppRunner V E C S) where
  put-IsSound :
      (s : SessionState V)
      → IsSound runner
      → IsSoundFrontier runner.app s.frontier
      → (id : String) (t : SessionState V) → get id (put session_id s runner.sessions) ≡ some t
      → IsSoundFrontier runner.app t.frontier
  put-IsSound s sound fits id t h = elim (get-put_cases session_id id s t runner.sessions h) [
    | inl same ↦ subst (λ (u : SessionState V). IsSoundFrontier runner.app u.frontier) same.1 fits
    | inr older ↦ sound id t older
  ]

  either-IsSound :
      (b : Bool) (o p : AppRunner V E C S × Result (RunnerError E X) SessionInit)
      → IsSound o.0
      → IsSound p.0
      → IsSound (if b then o else p).0
  either-IsSound true o p first second = first
  either-IsSound false o p first second = second

  init_session-IsSound :
      (loaded : Result (RunnerError E X) (Option (Checkpoint V)))
      → IsSound runner
      → IsSoundFrontier runner.app (targets runner.app.edges start)
      → ((c : Checkpoint V) → loaded ≡ ok (some c) → IsSoundFrontier runner.app c.frontier)
      → IsSound (init_session outside session_id initial_state runner loaded).0
  unfolding init_session restore_session_state
  init_session-IsSound (err e) sound first stored = sound
  init_session-IsSound (ok (some c)) sound first stored =
      put-IsSound (restore_session_state c) sound (stored c refl)
  init_session-IsSound (ok none) sound first stored =
      either-IsSound (is_empty (targets runner.app.edges start)) (runner, err no_start_nodes)
        (
          record runner {
            sessions = put session_id begun runner.sessions;
            checkpointer = save_checkpoint outside session_id begun runner.checkpointer;
          },
          ok fresh,
        )
        sound (put-IsSound begun sound first)
    where
      begun : SessionState V
      begun = fresh_session outside initial_state (targets runner.app.edges start)

  -- The frontiers of an application that `compile` makes of a builder whose edges are a map, with
  -- an order that lists the keys it is given: if those of the runner's sessions and that of the
  -- checkpoint that is stored for this name, if any, hold no kind twice and only virtual and
  -- registered ones, so do all of them after a session is created or resumed.
  pub create_session-IsSound :
      (order : List NodeKind → List NodeKind)
      (b : GraphBuilder (Node V E) (EdgePredicate V) C (ReducerRegistry V))
      → Covers order
      → IsMap b.edges
      → compile order b ≡ ok runner.app
      → IsSound runner
      → ((c : Checkpoint V)
          → load_checkpoint outside session_id runner.checkpointer ≡ ok (some c)
          → IsSoundFrontier runner.app c.frontier)
      → IsSound (create_session outside session_id initial_state runner).0
  unfolding create_session
  create_session-IsSound order b covers is_map h sound stored =
      init_session-IsSound (load_checkpoint outside session_id runner.checkpointer) sound
        (compile-IsDistinct order b runner.app covers is_map h) stored
