-- ===== src/JobLock.antt =====
-- pg/joblock.go over pg/postgres/queries.sql.go: processes that agree through a table of Postgres
-- on which of them runs a job. `Table` is the table and its statements, `Lock` the lock's record
-- and the calls it makes, `Loop` the polling loop, `Fleet` many processes over one table, `Runner`
-- the goroutines of RunWithContext, and `Jobs` many processes that call it. `Lease` is the abstract
-- view of the table. The other children hold the proofs.
pub mod Table
pub mod Lock
pub mod Loop
pub mod Options
pub mod Queries
pub mod Outcomes
pub mod Attempts
pub mod Lifecycle
pub mod Lease
pub mod Refinement
pub mod Takeover
pub mod Fleet
pub mod Runner
pub mod Jobs
pub mod Exclusion
mod Tests
