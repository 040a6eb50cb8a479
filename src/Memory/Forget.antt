-- ===== src/Memory/Forget.antt =====
-- Withdrawing a memory, in crates/brain-store/src/tombstone.rs.
use agent_knowledge_base_cod.Common.{
  ◌==◌, ◌&&◌, ◌>>◌, not, Bool, List, [], ◌∷◌, ◌++◌, Text, is_blank, trim, Time, timestamp_ns,
  Result, ok, err, ensure, any, filter, sort_by, ltb, if◌then◌else◌,
}
use agent_knowledge_base_cod.Domain.Memory.{Uuid}
use agent_knowledge_base_cod.Memory.{
  MemoryRow, Tombstone, Ledger, MemoryError, lift_time, named, has_memory, Outcome, no_reason,
  memory_missing, tombstone_vanished,
}
use agent_knowledge_base_cod.Memory.Reads.{tombstone}

-- `ON CONFLICT(memory_id) DO NOTHING`
abbrev pub insert_tombstone : Tombstone → List Tombstone → List Tombstone
insert_tombstone t rows =
    if any (λ (u : Tombstone). u.memory_id == t.memory_id) rows then rows else rows ++ (t ∷ [])

abbrev pub in_project : Ledger → Uuid → Bool
in_project ledger id =
    any (λ (r : MemoryRow). has_memory id r && r.project_id == ledger.project_scope)
      ledger.memory_records

abbrev pub withdraw : Uuid → Text → Text → Time → Ledger → Ledger
withdraw id reason redacted_by ns ledger = record ledger {
  memory_tombstones =
      insert_tombstone
        (record {
          memory_id = id;
          project_id = ledger.project_scope;
          reason = trim reason;
          redacted_by = redacted_by;
          redacted_at_ns = ns;
        })
        ledger.memory_tombstones;
  search_cache = [];
}

abbrev pub checked : Uuid → Text → Time → Ledger → Result MemoryError Time
checked id reason now ledger = do
  ensure (not (is_blank reason)) no_reason
  ensure (in_project ledger id) memory_missing
  lift_time (timestamp_ns now)

abbrev pub read_back : Uuid → Ledger → Outcome Tombstone
read_back id ledger = (named (tombstone id ledger) tombstone_vanished, ledger)

abbrev pub withdraw_checked :
    Uuid → Text → Text → Ledger → Result MemoryError Time → Outcome Tombstone
withdraw_checked id reason redacted_by ledger (err e) = (err e, ledger)
withdraw_checked id reason redacted_by ledger (ok ns) =
    read_back id (withdraw id reason redacted_by ns ledger)

unfoldable pub forget_memory : Uuid → Text → Text → Time → Ledger → Outcome Tombstone
forget_memory id reason redacted_by now ledger =
    withdraw_checked id reason redacted_by ledger (checked id reason now ledger)

abbrev newest : Tombstone → Tombstone → Bool
newest t u = ltb u.redacted_at_ns t.redacted_at_ns

unfoldable pub tombstones : Ledger → List Tombstone
tombstones ledger =
    sort_by newest
      (filter (λ (t : Tombstone). t.project_id == ledger.project_scope) ledger.memory_tombstones)
