-- ===== src/Memory/Append.antt =====
-- `append_memory` of crates/brain-store/src/memory.rs. Its transaction commits as a whole, so an
-- error leaves the ledger as it was.
use agent_knowledge_base_cod.Common.{
  ℕ, ◌+◌, ◌==◌, ◌&&◌, ◌>>◌, ◌>>=◌, not, Bool, true, Option, none, some, List, [], ◌∷◌, ◌++◌,
  text_eq, is_blank, byte_len, Time, timestamp_ns, Result, ok, err, ensure, find?, any, is_nil, leb,
  ltb,
}
use agent_knowledge_base_cod.Domain.Memory.{
  Uuid, MemoryRecord, MemoryScope, project, global_preferences, is_confidence, kind_as_str,
  authority_as_str, status_as_str,
}
use agent_knowledge_base_cod.Domain.Slug.{PathApi, projection_path}
use agent_knowledge_base_cod.Memory.{
  EventRow, MemoryRow, VersionRow, Edge, Ledger, MemoryError, lift_time, has_memory, has_version,
  max_version, joined, title_empty, content_empty, title_long, content_long, confidence_range,
  interval_empty, global_scope, wrong_project, version_collision, no_evidence, identity_changed,
  constraint, foreign_evidence, superseded_missing,
}

abbrev ends_after : Time → Option Time → Bool
ends_after valid_from none = true
ends_after valid_from (some valid_to) = ltb valid_from valid_to

unfoldable pub validate_record : MemoryRecord → Result MemoryError (Unit {0})
validate_record memory = do
  ensure (not (is_blank memory.title)) title_empty
  ensure (not (is_blank memory.content)) content_empty
  ensure (leb (byte_len memory.title) 300) title_long
  ensure (leb (byte_len memory.content) 20000) content_long
  ensure (is_confidence memory.confidence) confidence_range
  ensure (ends_after memory.valid_from memory.valid_to) interval_empty

abbrev pub project_of : MemoryScope → Result MemoryError Uuid
project_of (project project_id) = ok project_id
project_of global_preferences = err global_scope

-- Every id is of an event of the project.
abbrev pub check_evidence : Ledger → Uuid → List Uuid → Result MemoryError (Unit {0})
check_evidence ledger project_id [] = ok tt
check_evidence ledger project_id (id ∷ ids) = do
  ensure (any (λ (e : EventRow). e.event_id == id && e.project_id == project_id) ledger.events)
      (foreign_evidence id)
  check_evidence ledger project_id ids

abbrev pub check_superseded : Ledger → List Uuid → Result MemoryError (Unit {0})
check_superseded ledger [] = ok tt
check_superseded ledger (id ∷ ids) = do
  ensure (any (has_version id) ledger.memory_versions) (superseded_missing id)
  check_superseded ledger ids

abbrev pub optional_ns : Option Time → Result MemoryError (Option Time)
optional_ns none = ok none
optional_ns (some t) = do ns ← lift_time (timestamp_ns t); ok (some ns)

-- The primary key of both tables of edges is the pair.
abbrev pub insert_edges : Uuid → List Uuid → List Edge → Result MemoryError (List Edge)
insert_edges version_id [] edges = ok edges
insert_edges version_id (id ∷ ids) edges = do
  ensure (not (any (λ (e : Edge). e.version_id == version_id && e.other == id) edges)) constraint
  insert_edges version_id ids (edges ++ (record { version_id = version_id; other = id } ∷ []))

abbrev pub version_row : MemoryRecord → ℕ → Time → Option Time → Time → VersionRow
version_row memory number valid_from valid_to recorded_at = record {
  version_id = memory.version_id;
  memory_id = memory.id;
  version_number = number;
  worktree_id = memory.worktree_id;
  task_id = memory.task_id;
  title = memory.title;
  content = memory.content;
  valid_from_ns = valid_from;
  valid_to_ns = valid_to;
  recorded_at_ns = recorded_at;
  confidence = memory.confidence;
  authority = authority_as_str memory.authority;
  status = status_as_str memory.status;
}

-- The number is one more than the memory's largest, so `UNIQUE(memory_id, version_number)` holds.
abbrev pub insert_version : MemoryRecord → List VersionRow → Result MemoryError (List VersionRow)
insert_version memory rows = do
  valid_from ← lift_time (timestamp_ns memory.valid_from)
  valid_to ← optional_ns memory.valid_to
  recorded_at ← lift_time (timestamp_ns memory.recorded_at)
  ensure (not (any (has_version memory.version_id) rows)) constraint
  ok (
      rows
      ++ (version_row memory (max_version memory.id rows + 1) valid_from valid_to recorded_at ∷ []))

-- The row that a version id already has.
abbrev pub replay_of : Ledger → Uuid → Option (VersionRow × MemoryRow)
replay_of ledger version_id =
    find? (λ (row : VersionRow × MemoryRow). row.0.version_id == version_id) (joined ledger)

module _ (api : PathApi) where
  abbrev pub record_row : MemoryRecord → Uuid → Time → MemoryRow
  record_row memory project_id created = record {
    memory_id = memory.id;
    project_id = project_id;
    kind = kind_as_str memory.kind;
    projection_path = projection_path api memory;
    created_at_ns = created;
  }

  abbrev pub keep_or_insert_record :
      MemoryRecord → Uuid → List MemoryRow → Option MemoryRow → Result MemoryError (List MemoryRow)
  keep_or_insert_record memory project_id rows (some row) = do
    ensure (row.project_id == project_id && text_eq row.kind (kind_as_str memory.kind))
        identity_changed
    ok rows
  keep_or_insert_record memory project_id rows none = do
    created ← lift_time (timestamp_ns memory.recorded_at)
    ensure
        (not (any (λ (r : MemoryRow). text_eq r.projection_path (projection_path api memory)) rows))
        constraint
    ok (rows ++ (record_row memory project_id created ∷ []))

  -- The transaction.
  unfoldable pub insert_memory : MemoryRecord → Uuid → Ledger → Result MemoryError Ledger
  insert_memory memory project_id ledger = do
    ensure (not (is_nil memory.evidence_ids)) no_evidence
    check_evidence ledger project_id memory.evidence_ids
    records ←
        keep_or_insert_record memory project_id ledger.memory_records
          (find? (has_memory memory.id) ledger.memory_records)
    check_superseded ledger memory.supersedes
    versions ← insert_version memory ledger.memory_versions
    evidence ← insert_edges memory.version_id memory.evidence_ids ledger.memory_evidence
    supersession ← insert_edges memory.version_id memory.supersedes ledger.memory_supersession
    ok (record ledger {
      memory_records = records;
      memory_versions = versions;
      memory_evidence = evidence;
      memory_supersession = supersession;
      search_cache = [];
    })

  abbrev pub replay_or_insert :
      MemoryRecord → Uuid → Ledger → Option (VersionRow × MemoryRow) → Result MemoryError Ledger
  replay_or_insert memory project_id ledger (some (v, r)) = do
    ensure
        (v.memory_id == memory.id
          && text_eq v.title memory.title
          && text_eq v.content memory.content
          && r.project_id == project_id)
        version_collision
    ok ledger
  replay_or_insert memory project_id ledger none = insert_memory memory project_id ledger

  unfoldable pub append_memory : MemoryRecord → Ledger → Result MemoryError Ledger
  append_memory memory ledger = do
    validate_record memory
    project_id ← project_of memory.scope
    ensure (project_id == ledger.project_scope) wrong_project
    replay_or_insert memory project_id ledger (replay_of ledger memory.version_id)
