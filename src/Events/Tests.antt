-- ===== src/Events/Tests.antt =====
-- A batch of one event, appended twice.
use agent_knowledge_base_cod.Common.{
  ◌+◌, ◌*◌, ◌≡◌, refl, none, some, [], ◌∷◌, Text, codes, Time, ns_per_day, unix_epoch, pos,
  timestamp_ns, ok, arith, unix_epoch,
}
use agent_knowledge_base_cod.Domain.Harness.{claude_code}
use agent_knowledge_base_cod.Domain.Event.{
  cursor_start, NormalizedEvent, EventBatch, SchemaDriftRecord, user_prompted,
}
use agent_knowledge_base_cod.Events.{
  EventApi, EventStore, append_batch, insert_event, save_cursor, stored_row,
}
use agent_knowledge_base_cod.Events.Drift.{drift_row, record_schema_drift}
use agent_knowledge_base_cod.Events.Resolved.{IsOpenUntil, record_schema_drift-IsOpenUntil}
use agent_knowledge_base_cod.Events.Replay.{StoredOnce, append_batch-StoredOnce}

-- Every text is read as the one cursor.
abbrev pub texts : EventApi Text
texts = record {
  to_string = λ j. j;
  from_str = λ s. some s;
  cursor_to_string = λ c. [];
  cursor_from_str = λ s. some cursor_start;
}

abbrev pub noon : Time
noon = unix_epoch + 20000 * ns_per_day

abbrev pub prompt : NormalizedEvent Text
prompt = record {
  event_id = 1;
  project_id = 7;
  worktree_id = 3;
  task_id = none;
  harness = claude_code;
  native_session_id = codes "s";
  native_turn_id = none;
  event_type = user_prompted;
  occurred_at = unix_epoch;
  observed_at = noon;
  source_locator = codes "t.jsonl";
  source_offset = pos 0;
  source_schema = codes "v1";
  raw_hash = 5;
  idempotency_key = 9;
  git_head = none;
  git_branch = none;
  payload = codes "{}";
  raw = codes "{}";
}

abbrev pub batch : EventBatch Text
batch = record {
  source_id = codes "file";
  events = prompt ∷ [];
  quarantined = [];
  capture_gaps = [];
  next_cursor = cursor_start;
}

abbrev pub no_events : EventStore
no_events = record {
  project_scope = 7;
  events = [];
  quarantine = [];
  capture_gaps = [];
  source_cursors = [];
  schema_drifts = [];
  context_deliveries = [];
  search_cache = [];
}

-- The event that has no date is dated by its observation.
abbrev pub one_event : EventStore
one_event = record no_events {
  events = stored_row texts prompt noon noon ∷ [];
  source_cursors = record { source_id = codes "file"; cursor_json = []; updated_at_ns = noon } ∷ [];
}

stored :
    append_batch texts noon batch no_events
    ≡ ok (record { inserted = 1; quarantined = 0; capture_gaps = 0 }, one_event)
unfolding append_batch insert_event save_cursor timestamp_ns
stored = refl

append_batch-StoredOnce_example : StoredOnce texts batch (noon + 1) one_event
append_batch-StoredOnce_example =
    append_batch-StoredOnce texts noon (noon + 1) batch no_events one_event
      (record { inserted = 1; quarantined = 0; capture_gaps = 0 }) stored (omega arith) refl

abbrev drift : SchemaDriftRecord Text
drift = record {
  diagnostic_id = 2;
  source_id = codes "file";
  expected_fingerprint = codes "a";
  observed_fingerprint = codes "b";
  cursor = cursor_start;
  sample_hash = 6;
  reason = codes "unknown field";
  observed_at = noon;
  resolved_at = none;
}

abbrev one_drift : EventStore
one_drift = record no_events { schema_drifts = drift_row texts drift noon ∷ [] }

drifted : record_schema_drift texts drift no_events ≡ ok one_drift
unfolding record_schema_drift timestamp_ns
drifted = refl

record_schema_drift-IsOpenUntil_example : IsOpenUntil texts drift (noon + 1) no_events one_drift
record_schema_drift-IsOpenUntil_example =
    record_schema_drift-IsOpenUntil texts drift (noon + 1) no_events one_drift (λ source. tt) refl
      (omega arith) drifted
