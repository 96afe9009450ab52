-- ===== src/Lib.antt =====
-- Weavegraph: a model of the library's core, and the theorems on it.
--
-- Weavegraph runs a graph of nodes over a versioned state, in supersteps. `GraphBuilder`
-- collects nodes, edges and conditional edges; `compile` validates them and makes an `App`. A
-- session starts with the targets of the edges of Start as its frontier. In each superstep the
-- scheduler runs the nodes of the frontier that have a channel newer than their last run, on one
-- snapshot of the state; the barrier merges the partials that they return into the state through
-- the reducers; and the runner computes the next frontier from the commands of the nodes, the
-- edges and the predicates of the conditional edges. Sessions are saved to a checkpointer and
-- restored from it.
--
-- The files, each with the code that it models:
--   Kind: src/types.rs and src/control.rs, the kinds of nodes, channels and commands, with
--     their encodings in Codec.
--   State: src/state.rs, src/message.rs, src/channels and the updates of src/node.rs; Slots
--     holds the typed keys of the extras.
--   Graph/Builder: src/graphs/builder.rs and src/graphs/edges.rs, with chains of its calls in
--     Graph/Made.
--   Graph/Edges: the edges as a map, and walks and cycles as data types.
--   Graph/Cycle: `detect_cycle` of src/graphs/compilation.rs, a depth-first search in three
--     colours, with the proof of its answer in the files below it.
--   Graph/Reach: the two breadth-first searches of src/graphs/compilation.rs.
--   Graph/Topological: `topological_sort` of src/graphs/iteration.rs.
--   Graph/Compile: `validate` and `compile` of src/graphs/compilation.rs.
--   Reducers: src/reducers, the reducers and the registry (Registry).
--   Barrier: `App::apply_barrier` of src/app.rs; Default, Effect, Writes and Extra hold what it
--     does under the default registry, Sorted the order of its errors, and Total what it does
--     under any.
--   Scheduler: src/schedulers/scheduler.rs, version gating (Gate) and the superstep (Superstep,
--     Outcome, Again).
--   Frontier: `compute_next_frontier` of src/runtimes/runner.rs.
--   Session: src/runtimes/session.rs and src/runtimes/execution.rs.
--   Checkpoint: src/runtimes/checkpointer.rs.
--   Runner: src/runtimes/runner.rs; Step is `run_step`, Life the creation of sessions, iterative
--     sessions and the loop to completion; Partials, Sound, Invariants, Errors, Recorded, Start,
--     Resume, Ends, Complete, Advance, Moves and Liveness hold proofs.
--   Persistence: src/runtimes/persistence.rs, the stored form of checkpoints.
--   Sqlite: src/runtimes/checkpointer_sqlite.rs over the tables of migrations/0001_init.sql: Rows
--     the session's row, Latest `load_latest`, Checked `save_with_concurrency_check`, Query
--     `query_steps`.
--   Postgres: src/runtimes/checkpointer_postgres.rs over the tables of
--     migrations/postgres/0001_init.sql: Rows the session's row, Latest `load_latest`, Newest the
--     order of the steps, Query `query_steps`.
--   Replay: src/runtimes/replay.rs; Match the events, Profile the states under a profile.
--   Config: src/runtimes/runtime_config.rs, with the capacities (Capacity) with which
--     src/event_bus/bus.rs builds a bus, and the hash (Hash).
--   Utils/Json: src/utils/json_ext.rs, merging (Merge, Agrees) and access by paths (Paths);
--     Equal is the equality of values.
--   Utils/Collections: src/utils/collections.rs.
--   Utils/Rng: src/utils/deterministic_rng.rs, the draws (Bounds) and the registry (Registry).
--   Base: lists over the native numbers, maps as association lists, sorting, comparisons (Order),
--     results, UTF-8.
--   Tests: concrete values, and each theorem applied to some.
--
-- How state and effects are written: an operation that changes an object takes it as an argument
-- and returns it, beside its `Result`, so that what an error leaves behind is visible. A hash map
-- is a list of pairs; `IsMap` says that a key stands once. Where the source iterates over a hash
-- map and the order could matter, the order is the list's, or an argument (`order` in
-- `detect_cycle`). A node, a predicate and a reducer are functions, since their code is the
-- user's. `buffer_unordered` of the futures library is the argument `unordered`, with the
-- hypothesis `Delivers`: each task's result is handed over, in some order. The derived `Debug` of
-- a kind, the clock, the parallelism of the machine, the texts of errors and the checkpointer are
-- the fields of `Outside`. A JSON value is what the interface `Json` says of it.
--
-- Numbers: versions of channels are `u32` and are raised by `saturating_add`; the step counter is
-- a `u64` and wraps in the model, as in a release build. The databases hold steps as `i64`, and
-- compare them in that order by `leb_i64`: from 2^63 on a step is negative there. The theorems that
-- depend on that order ask for steps below 2^63.
--
-- Fuel: `detect_cycle` gives its depth-first search one more than the number of nodes, and the
-- breadth-first searches get one more round than there are endpoints of edges; the theorems show
-- that both suffice. The topological sort gets one more round than there are nodes, and a theorem
-- shows that it suffices. `run_until_complete` takes fuel, since a graph with conditional edges or
-- commands need not come to an end, and returns none where the fuel runs out; without them a
-- theorem gives fuel that suffices.
--
-- Not modelled: the event bus beyond its capacities, streams of events, telemetry and traces,
-- observers, which only report; the adapters of language models; the hashes of graphs; the
-- iterators over a graph and its petgraph view; and the utilities for clocks and identifiers. The
-- generator of the crate rand, the texts of times of chrono and SQLite, what Postgres makes of a
-- text cast to jsonb, and the texts and numbers of serde_json are parameters.
pub mod Base
pub mod Kind
pub mod State
pub mod Graph
pub mod Reducers
pub mod Barrier
pub mod Scheduler
pub mod Frontier
pub mod Session
pub mod Checkpoint
pub mod Runner
pub mod Persistence
pub mod Replay
pub mod Sqlite
pub mod Postgres
pub mod Config
pub mod Utils
pub mod Tests
