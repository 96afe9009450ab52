-- ===== src/Tests.antt =====
-- Concrete graphs, states and nodes, and the theorems applied to them.
pub mod Values
mod OfGraph
mod OfJson
mod OfBarrier
mod OfScheduler
mod OfFrontier
mod OfRunner
mod OfSessions
mod OfLoop
mod OfOrder
mod OfRng
mod OfSqlite
mod OfPostgres
mod OfReplay
mod OfConfig
mod OfPersistence
