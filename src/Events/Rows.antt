-- ===== src/Events/Rows.antt =====
-- The tables of the event ledger, in crates/brain-store/src/migrations.rs and ledger.rs. `EventApi`
-- stands for `serde_json`. Hashes are numbers of 32 bytes, so the CHECK clauses on their lengths hold.
use agent_knowledge_base_cod.Common.{ℕ, Option, List, Text, Time, ℤ, TimeError, Result, ok, err}
use agent_knowledge_base_cod.Domain.Memory.{Uuid}
use agent_knowledge_base_cod.Domain.Event.{SourceCursor}

pub record EventApi (Json : Type 0) : Type 0 where
  pub to_string : Json → Text
  pub from_str : Text → Option Json
  pub cursor_to_string : SourceCursor Json → Text
  pub cursor_from_str : Text → Option (SourceCursor Json)

-- A row of `events`. The table is in the order of its rowids.
pub record EventRow : Type 0 where
  pub event_id : Uuid
  pub project_id : Uuid
  pub worktree_id : Uuid
  pub task_id : Option Uuid
  pub harness : Text
  pub native_session_id : Text
  pub native_turn_id : Option Text
  pub event_type : Text
  pub occurred_at_ns : Time
  pub observed_at_ns : Time
  pub source_locator : Text
  pub source_offset : ℤ
  pub source_schema : Text
  pub raw_hash : ℕ
  pub idempotency_key : ℕ
  pub git_head : Option Text
  pub git_branch : Option Text
  pub payload_json : Text
  pub raw_json : Text

pub record QuarantineRow : Type 0 where
  pub source_id : Text
  pub source_locator : Text
  pub source_offset : ℤ
  pub raw_hash : ℕ
  pub error : Text
  pub observed_at_ns : Time

pub record GapRow : Type 0 where
  pub source_id : Text
  pub expected_cursor_json : Text
  pub observed_cursor_json : Option Text
  pub reason : Text
  pub observed_at_ns : Time
  pub resolved_at_ns : Option Time

pub record CursorRow : Type 0 where
  pub source_id : Text
  pub cursor_json : Text
  pub updated_at_ns : Time

pub record DriftRow : Type 0 where
  pub diagnostic_id : Uuid
  pub source_id : Text
  pub expected_fingerprint : Text
  pub observed_fingerprint : Text
  pub cursor_json : Text
  pub sample_hash : ℕ
  pub reason : Text
  pub observed_at_ns : Time
  pub resolved_at_ns : Option Time

-- A row of `context_deliveries`, less its id, which nothing reads.
pub record DeliveryRow : Type 0 where
  pub project_id : Uuid
  pub harness : Text
  pub native_session_id : Option Text
  pub event_name : Text
  pub delivered_at_ns : Time
  pub total_tokens : ℕ
  pub memory_tokens : ℕ
  pub coordination_tokens : ℕ
  pub citation_count : ℕ

pub record EventStore : Type 0 where
  pub project_scope : Uuid
  pub events : List EventRow
  pub quarantine : List QuarantineRow
  pub capture_gaps : List GapRow
  pub source_cursors : List CursorRow
  pub schema_drifts : List DriftRow
  pub context_deliveries : List DeliveryRow
  -- The queries whose results are cached.
  pub search_cache : List Text

pub record AppendResult : Type 0 where
  pub inserted : ℕ
  pub quarantined : ℕ
  pub capture_gaps : ℕ

pub data EventError : Type 0 where
  -- a batch or a query of another project
  foreign_project : EventError
  -- a PRIMARY KEY or UNIQUE clause of the schema
  constraint : EventError
  cursor_invalid event_missing stored_invalid : EventError
  -- `i64::try_from` of a count, and a `SUM` that leaves SQLite's integers
  count_range sum_range : EventError
  time : TimeError → EventError

abbrev pub lift_time {ℓ} : {A : Type ℓ} → Result TimeError A → Result EventError A
lift_time (ok a) = ok a
lift_time (err e) = err (time e)
