-- ===== src/Coordination.antt =====
-- crates/brain-coordination: the store that keeps coding agents out of each other's way. Each
-- function of the store takes the state of the database and returns the new one beside its
-- result; an error has no state, since its transaction rolls back.
pub mod Model
pub mod Task
pub mod Lease
pub mod Claims
pub mod Invariant
pub mod Steps
mod Tests
