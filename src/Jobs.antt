-- ===== src/Jobs.antt =====
-- crates/brain-store/src/jobs.rs: the queue of consolidation jobs over a project's event ledger.
-- `Window` decides which events a job spans, `Enqueue` puts jobs into the queue, `Queue` leases,
-- completes, fails, defers and revives them, `Overview` has the reads, and `Redactions` lists what
-- was redacted of a job's evidence. The other modules are proofs: `Manifests` about these lists,
-- `Picking` and `Leasing` about which job a lease is on, `Progress` that one is found,
-- `Owners` about who may end a lease, `Validity` and `Calls` about the table after any calls, and
-- `Terminal` about completed jobs.
pub mod Model
pub mod Window
pub mod Queue
pub mod Enqueue
pub mod Picking
pub mod Validity
pub mod Calls
pub mod Terminal
pub mod Leasing
pub mod Progress
pub mod Owners
pub mod Overview
pub mod Redactions
pub mod Manifests
mod Tests
mod RedactionTests
