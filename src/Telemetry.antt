-- ===== src/Telemetry.antt =====
-- The telemetry of crates/brain-store/src/lifecycle.rs: what hooks and servers saw, and what retrieval
-- decided. `TelemetryApi` stands for `serde_json` and the equality of its values.
mod Names
pub mod Folds
pub mod Tally
pub mod Store
pub mod Decisions
pub mod Replay
pub mod Accounts
mod Tests
pub use Names.*
