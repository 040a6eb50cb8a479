-- ===== src/Memory/Reads.antt =====
-- The reads of crates/brain-store/src/memory.rs: a memory's versions, and the memories that stand.
use agent_knowledge_base_cod.Common.{
  ◌==◌, ◌&&◌, ◌>>=◌, not, Bool, Option, none, some, List, [], ◌∷◌, map, text_eq, codes, Result, ok,
  filter, find?, sort_by, ltb, if◌then◌else◌,
}
use agent_knowledge_base_cod.Domain.Memory.{
  Uuid, MemoryRecord, project, is_readable, kind_from_name, authority_from_name, status_from_name,
}
use agent_knowledge_base_cod.Domain.Slug.{PathApi, projection_path}
use agent_knowledge_base_cod.Memory.{
  MemoryRow, VersionRow, Tombstone, Ledger, MemoryError, named, has_version, of_memory, joined,
  in_scope, is_latest, load_ids, is_superseded, is_withdrawn, stored_kind, stored_authority,
  stored_status,
}

-- `parse_without_edges`, and the edges that `parse` fills in.
unfoldable pub parse : Ledger → VersionRow × MemoryRow → Result MemoryError MemoryRecord
parse ledger (v, r) = do
  kind ← named (kind_from_name r.kind) stored_kind
  authority ← named (authority_from_name v.authority) stored_authority
  status ← named (status_from_name v.status) stored_status
  ok (record {
    id = v.memory_id;
    version_id = v.version_id;
    scope = project ledger.project_scope;
    worktree_id = v.worktree_id;
    task_id = v.task_id;
    kind = kind;
    title = v.title;
    content = v.content;
    valid_from = v.valid_from_ns;
    valid_to = v.valid_to_ns;
    recorded_at = v.recorded_at_ns;
    confidence = v.confidence;
    authority = authority;
    evidence_ids = load_ids v.version_id ledger.memory_evidence;
    supersedes = load_ids v.version_id ledger.memory_supersession;
    status = status;
  })

abbrev pub parse_all :
    Ledger → List (VersionRow × MemoryRow) → Result MemoryError (List MemoryRecord)
parse_all ledger [] = ok []
parse_all ledger (row ∷ rows) = do
  memory ← parse ledger row
  memories ← parse_all ledger rows
  ok (memory ∷ memories)

abbrev by_number : VersionRow × MemoryRow → VersionRow × MemoryRow → Bool
by_number (v, r) (w, s) = ltb v.version_number w.version_number

-- `load_project_versions`
unfoldable pub memory_versions : Uuid → Ledger → Result MemoryError (List MemoryRecord)
memory_versions id ledger = parse_all ledger (
    sort_by by_number (
      filter (λ (row : VersionRow × MemoryRow). of_memory id row.0 && in_scope ledger row)
        (joined ledger)))

abbrev pub tombstone : Uuid → Ledger → Option Tombstone
tombstone id ledger =
    find? (λ (t : Tombstone). t.memory_id == id && t.project_id == ledger.project_scope)
      ledger.memory_tombstones

-- `Vec::pop`
abbrev pub pop : List MemoryRecord → Option MemoryRecord
pop [] = none
pop (m ∷ []) = some m
pop (m ∷ n ∷ ms) = pop (n ∷ ms)

abbrev pub unless_withdrawn :
    Option Tombstone
    → Result MemoryError (List MemoryRecord)
    → Result MemoryError (Option MemoryRecord)
unless_withdrawn (some t) versions = ok none
unless_withdrawn none versions = do memories ← versions; ok (pop memories)

unfoldable pub current_memory : Uuid → Ledger → Result MemoryError (Option MemoryRecord)
current_memory id ledger = unless_withdrawn (tombstone id ledger) (memory_versions id ledger)

abbrev pub version_among :
    Uuid → Ledger → Option (VersionRow × MemoryRow) → Result MemoryError (Option MemoryRecord)
version_among version_id ledger none = ok none
version_among version_id ledger (some (v, r)) = do
  memories ← memory_versions v.memory_id ledger
  ok (find? (λ (m : MemoryRecord). m.version_id == version_id) memories)

unfoldable pub memory_version : Uuid → Ledger → Result MemoryError (Option MemoryRecord)
memory_version version_id ledger = version_among version_id ledger (
    find? (λ (row : VersionRow × MemoryRow). has_version version_id row.0 && in_scope ledger row)
      (joined ledger))

abbrev by_recorded : VersionRow × MemoryRow → VersionRow × MemoryRow → Bool
by_recorded (v, r) (w, s) = ltb v.recorded_at_ns w.recorded_at_ns

unfoldable pub proposed_memory_ids : Ledger → List Uuid
proposed_memory_ids ledger =
    filter (λ (id : Uuid). not (is_withdrawn ledger id))
      (map (λ (row : VersionRow × MemoryRow). row.0.memory_id)
        (sort_by by_recorded (
          filter
            (λ (row : VersionRow × MemoryRow).
              in_scope ledger row
              && text_eq row.0.status (codes "proposed")
              && is_latest ledger row)
            (joined ledger))))

-- The loop of `current_project_memories`.
abbrev pub standing :
    Ledger → List (VersionRow × MemoryRow) → Result MemoryError (List MemoryRecord)
standing ledger [] = ok []
standing ledger (row ∷ rows) =
    let rest = standing ledger rows in
    if is_withdrawn ledger row.0.memory_id then rest else (do
      memory ← parse ledger row
      memories ← rest
      ok (if is_readable memory.status then memory ∷ memories else memories))

-- The rows of the query.
abbrev pub is_kept : Ledger → VersionRow × MemoryRow → Bool
is_kept ledger row =
    in_scope ledger row && is_latest ledger row && not (is_superseded ledger row.0.version_id)

module _ (api : PathApi) where
  abbrev pub by_path : MemoryRecord → MemoryRecord → Bool
  by_path m n = api.path_before (projection_path api m) (projection_path api n)

  unfoldable pub current_project_memories : Ledger → Result MemoryError (List MemoryRecord)
  current_project_memories ledger = do
    memories ← standing ledger (filter (is_kept ledger) (joined ledger))
    ok (sort_by by_path memories)
