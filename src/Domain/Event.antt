-- ===== src/Domain/Event.antt =====
-- The events of crates/brain-domain/src/event.rs, and the cursors and batches that carry them.
use agent_knowledge_base_cod.Common.{
  ℕ, ◌≡◌, refl, Option, some, none, List, Text, codes, text_eq, if◌then◌else◌, Time, ℤ,
}
use agent_knowledge_base_cod.Domain.Harness.{Harness}
use agent_knowledge_base_cod.Domain.Memory.{Uuid}

pub data EventType : Type 0 where
  session_started session_resumed session_compacted session_ended session_relocated user_prompted
        agent_responded tool_requested tool_completed tool_failed file_read file_created
        file_modified file_deleted command_started command_completed test_completed
        git_commit_observed git_branch_changed deployment_observed system_observed
        attachment_observed queue_operation_observed mode_changed task_claimed task_released
        task_completed checkpoint_authored opaque_evidence schema_unknown capture_gap :
      EventType

unfoldable pub event_type_as_str : EventType → Text
event_type_as_str session_started = codes "session.started"
event_type_as_str session_resumed = codes "session.resumed"
event_type_as_str session_compacted = codes "session.compacted"
event_type_as_str session_ended = codes "session.ended"
event_type_as_str session_relocated = codes "session.relocated"
event_type_as_str user_prompted = codes "user.prompted"
event_type_as_str agent_responded = codes "agent.responded"
event_type_as_str tool_requested = codes "tool.requested"
event_type_as_str tool_completed = codes "tool.completed"
event_type_as_str tool_failed = codes "tool.failed"
event_type_as_str file_read = codes "file.read"
event_type_as_str file_created = codes "file.created"
event_type_as_str file_modified = codes "file.modified"
event_type_as_str file_deleted = codes "file.deleted"
event_type_as_str command_started = codes "command.started"
event_type_as_str command_completed = codes "command.completed"
event_type_as_str test_completed = codes "test.completed"
event_type_as_str git_commit_observed = codes "git.commit_observed"
event_type_as_str git_branch_changed = codes "git.branch_changed"
event_type_as_str deployment_observed = codes "deployment.observed"
event_type_as_str system_observed = codes "system.observed"
event_type_as_str attachment_observed = codes "attachment.observed"
event_type_as_str queue_operation_observed = codes "queue.operation_observed"
event_type_as_str mode_changed = codes "mode.changed"
event_type_as_str task_claimed = codes "task.claimed"
event_type_as_str task_released = codes "task.released"
event_type_as_str task_completed = codes "task.completed"
event_type_as_str checkpoint_authored = codes "checkpoint.authored"
event_type_as_str opaque_evidence = codes "evidence.opaque"
event_type_as_str schema_unknown = codes "schema.unknown"
event_type_as_str capture_gap = codes "capture.gap"

unfoldable pub event_type_from_name : Text → Option EventType
event_type_from_name value =
    if text_eq value (codes "session.started")
    then some session_started
    else if text_eq value (codes "session.resumed")
    then some session_resumed
    else if text_eq value (codes "session.compacted")
    then some session_compacted
    else if text_eq value (codes "session.ended")
    then some session_ended
    else if text_eq value (codes "session.relocated")
    then some session_relocated
    else if text_eq value (codes "user.prompted")
    then some user_prompted
    else if text_eq value (codes "agent.responded")
    then some agent_responded
    else if text_eq value (codes "tool.requested")
    then some tool_requested
    else if text_eq value (codes "tool.completed")
    then some tool_completed
    else if text_eq value (codes "tool.failed")
    then some tool_failed
    else if text_eq value (codes "file.read")
    then some file_read
    else if text_eq value (codes "file.created")
    then some file_created
    else if text_eq value (codes "file.modified")
    then some file_modified
    else if text_eq value (codes "file.deleted")
    then some file_deleted
    else if text_eq value (codes "command.started")
    then some command_started
    else if text_eq value (codes "command.completed")
    then some command_completed
    else if text_eq value (codes "test.completed")
    then some test_completed
    else if text_eq value (codes "git.commit_observed")
    then some git_commit_observed
    else if text_eq value (codes "git.branch_changed")
    then some git_branch_changed
    else if text_eq value (codes "deployment.observed")
    then some deployment_observed
    else if text_eq value (codes "system.observed")
    then some system_observed
    else if text_eq value (codes "attachment.observed")
    then some attachment_observed
    else if text_eq value (codes "queue.operation_observed")
    then some queue_operation_observed
    else if text_eq value (codes "mode.changed")
    then some mode_changed
    else if text_eq value (codes "task.claimed")
    then some task_claimed
    else if text_eq value (codes "task.released")
    then some task_released
    else if text_eq value (codes "task.completed")
    then some task_completed
    else if text_eq value (codes "checkpoint.authored")
    then some checkpoint_authored
    else if text_eq value (codes "evidence.opaque")
    then some opaque_evidence
    else if text_eq value (codes "schema.unknown")
    then some schema_unknown
    else if text_eq value (codes "capture.gap")
    then some capture_gap
    else none

pub record SourceCursor (Json : Type 0) : Type 0 where
  pub byte_offset : ℕ
  pub file_identity : Option Text
  pub native_position : Option Json

-- `SourceCursor::start`
abbrev pub cursor_start : {Json : Type 0} → SourceCursor Json
cursor_start = record { byte_offset = 0; file_identity = none; native_position = none }

-- `SourceCursor::for_file`
abbrev pub for_file : {Json : Type 0} → ℕ → Text → SourceCursor Json
for_file offset identity = record {
  byte_offset = offset;
  file_identity = some identity;
  native_position = none;
}

-- Hashes are numbers.
pub record NormalizedEvent (Json : Type 0) : Type 0 where
  pub event_id : Uuid
  pub project_id : Uuid
  pub worktree_id : Uuid
  pub task_id : Option Uuid
  pub harness : Harness
  pub native_session_id : Text
  pub native_turn_id : Option Text
  pub event_type : EventType
  pub occurred_at : Time
  pub observed_at : Time
  pub source_locator : Text
  pub source_offset : ℤ
  pub source_schema : Text
  pub raw_hash : ℕ
  pub idempotency_key : ℕ
  pub git_head : Option Text
  pub git_branch : Option Text
  pub payload : Json
  pub raw : Json

pub record QuarantinedRecord : Type 0 where
  pub source_locator : Text
  pub source_offset : ℤ
  pub raw_hash : ℕ
  pub error : Text
  pub observed_at : Time

pub record CaptureGapRecord (Json : Type 0) : Type 0 where
  pub expected_cursor : SourceCursor Json
  pub observed_cursor : Option (SourceCursor Json)
  pub reason : Text
  pub observed_at : Time

pub record EventBatch (Json : Type 0) : Type 0 where
  pub source_id : Text
  pub events : List (NormalizedEvent Json)
  pub quarantined : List QuarantinedRecord
  pub capture_gaps : List (CaptureGapRecord Json)
  pub next_cursor : SourceCursor Json

pub record SchemaDriftRecord (Json : Type 0) : Type 0 where
  pub diagnostic_id : Uuid
  pub source_id : Text
  pub expected_fingerprint : Text
  pub observed_fingerprint : Text
  pub cursor : SourceCursor Json
  pub sample_hash : ℕ
  pub reason : Text
  pub observed_at : Time
  pub resolved_at : Option Time

pub event_type_from_name-as_str :
    (v : EventType) → event_type_from_name (event_type_as_str v) ≡ some v
unfolding event_type_from_name event_type_as_str
event_type_from_name-as_str session_started = refl
event_type_from_name-as_str session_resumed = refl
event_type_from_name-as_str session_compacted = refl
event_type_from_name-as_str session_ended = refl
event_type_from_name-as_str session_relocated = refl
event_type_from_name-as_str user_prompted = refl
event_type_from_name-as_str agent_responded = refl
event_type_from_name-as_str tool_requested = refl
event_type_from_name-as_str tool_completed = refl
event_type_from_name-as_str tool_failed = refl
event_type_from_name-as_str file_read = refl
event_type_from_name-as_str file_created = refl
event_type_from_name-as_str file_modified = refl
event_type_from_name-as_str file_deleted = refl
event_type_from_name-as_str command_started = refl
event_type_from_name-as_str command_completed = refl
event_type_from_name-as_str test_completed = refl
event_type_from_name-as_str git_commit_observed = refl
event_type_from_name-as_str git_branch_changed = refl
event_type_from_name-as_str deployment_observed = refl
event_type_from_name-as_str system_observed = refl
event_type_from_name-as_str attachment_observed = refl
event_type_from_name-as_str queue_operation_observed = refl
event_type_from_name-as_str mode_changed = refl
event_type_from_name-as_str task_claimed = refl
event_type_from_name-as_str task_released = refl
event_type_from_name-as_str task_completed = refl
event_type_from_name-as_str checkpoint_authored = refl
event_type_from_name-as_str opaque_evidence = refl
event_type_from_name-as_str schema_unknown = refl
event_type_from_name-as_str capture_gap = refl
