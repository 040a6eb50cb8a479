-- ===== src/Memory/Replay.antt =====
-- `append_memory` of crates/brain-store/src/memory.rs is safe to repeat.
mod Insertion
pub use Insertion.*
use agent_knowledge_base_cod.Common.{
  ◌+◌, ◌==◌, ◌≡◌, ◌⊎◌, ◌&&◌, bind-eq-ok, ensure-eq-ok, ok-injective, refl, sym, subst, inl, inr,
  arith, Bool, true, Option, none, some, text_eq, Result, ok, text_eq_self,
}
use agent_knowledge_base_cod.Domain.Memory.{Uuid, MemoryRecord}
use agent_knowledge_base_cod.Domain.Slug.{PathApi}
use agent_knowledge_base_cod.Memory.{
  MemoryRow, VersionRow, Ledger, MemoryError, max_version, wrong_project, version_collision,
}
use agent_knowledge_base_cod.Memory.Append.{
  validate_record, project_of, version_row, replay_of, replay_or_insert, append_memory,
}

same_content : MemoryRecord → Uuid → VersionRow × MemoryRow → Bool
same_content memory project_id (v, r) =
    v.memory_id == memory.id
    && text_eq v.title memory.title
    && text_eq v.content memory.content
    && r.project_id == project_id

-- What was inserted is found, and is what is given.
replayed_row :
    (memory : MemoryRecord) (project_id : Uuid) (before after : Ledger)
    → Inserted memory project_id before after
    → (row : VersionRow × MemoryRow) × (replay_of after memory.version_id ≡ some row)
      × (same_content memory project_id row ≡ true)
unfolding same_content
replayed_row memory project_id before after (from, to, at, same, fresh, _, r, found, owned) = (
  (v, r),
  rw same (
      find?-join_last memory.version_id after.memory_records before.memory_versions v r fresh
        (ground arith) found),
  rw (text_eq_self memory.title, text_eq_self memory.content, owned) (ground arith),
)
  where
    v : VersionRow
    v = version_row memory (max_version memory.id before.memory_versions + 1) from to at

accepted :
    (api : PathApi) (memory : MemoryRecord) (project_id : Uuid) (ledger : Ledger)
    (row : VersionRow × MemoryRow)
    → same_content memory project_id row ≡ true
    → replay_or_insert api memory project_id ledger (some row) ≡ ok ledger
unfolding same_content
accepted api memory project_id ledger (v, r) same = rw same refl

collided_not :
    (api : PathApi) (memory : MemoryRecord) (project_id : Uuid) (before : Ledger) {after : Ledger}
    (row : VersionRow × MemoryRow)
    → replay_or_insert api memory project_id before (some row) ≡ ok after
    → (same_content memory project_id row ≡ true)
      × (◌≡◌ {A = Result MemoryError Ledger} (ok before) (ok after))
unfolding same_content
collided_not api memory project_id before (v, r) h =
    ensure-eq-ok (same_content memory project_id (v, r)) version_collision (ok before) h

replay_or_insert-replayed :
    (api : PathApi) (memory : MemoryRecord) (project_id : Uuid) (before : Ledger)
    (found : Option (VersionRow × MemoryRow)) {after : Ledger}
    → replay_of before memory.version_id ≡ found
    → replay_or_insert api memory project_id before found ≡ ok after
    → (after.project_scope ≡ before.project_scope)
      × (replay_or_insert api memory project_id after (replay_of after memory.version_id)
          ≡ ok after)
replay_or_insert-replayed api memory project_id before (some row) {after} hit done =
    let (same, end) = collided_not api memory project_id before row done in
    subst
      (λ (l : Ledger).
        (l.project_scope ≡ before.project_scope)
        × (replay_or_insert api memory project_id l (replay_of l memory.version_id) ≡ ok l))
      (ok-injective end) (refl, rw hit (accepted api memory project_id before row same))
replay_or_insert-replayed api memory project_id before none {after} miss done =
    let change = insert_memory-Inserted api memory project_id before done in
    let (row, hit, same) = replayed_row memory project_id before after change in
    (scoped change, rw hit (accepted api memory project_id after row same))
  where
    scoped : Inserted memory project_id before after → after.project_scope ≡ before.project_scope
    scoped (_, _, _, _, _, same, _, _, _) = same

run_again :
    (api : PathApi) (memory : MemoryRecord) (ledger : Ledger) (project_id : Uuid)
    {checked : Unit {0}}
    → validate_record memory ≡ ok checked
    → project_of memory.scope ≡ ok project_id
    → (project_id == ledger.project_scope) ≡ true
    → replay_or_insert api memory project_id ledger (replay_of ledger memory.version_id) ≡ ok ledger
    → append_memory api memory ledger ≡ ok ledger
unfolding append_memory
run_again api memory ledger project_id valid scoped own replayed = rw (valid, scoped, own) replayed

-- An append is a replay, which changes nothing, or an insertion.
pub append_memory-cases :
    (api : PathApi) (memory : MemoryRecord) (before : Ledger) {after : Ledger}
    → append_memory api memory before ≡ ok after
    → (after ≡ before) ⊎ ((project_id : Uuid) × Inserted memory project_id before after)
unfolding append_memory
append_memory-cases api memory before {after} done =
    let (_, _, a) = bind-eq-ok (validate_record memory) _ done in
    let (project_id, _, b) = bind-eq-ok (project_of memory.scope) _ a in
    let (_, c) = ensure-eq-ok (project_id == before.project_scope) wrong_project _ b in
    of_replay project_id (replay_of before memory.version_id) c
  where
    of_replay :
        (project_id : Uuid) (found : Option (VersionRow × MemoryRow))
        → replay_or_insert api memory project_id before found ≡ ok after
        → (after ≡ before) ⊎ ((project_id : Uuid) × Inserted memory project_id before after)
    of_replay project_id (some row) h =
        inl (sym (ok-injective (collided_not api memory project_id before row h).1))
    of_replay project_id none h =
        inr (project_id, insert_memory-Inserted api memory project_id before h)

-- A memory that was appended is appended again to no effect.
pub append_memory-append_memory :
    (api : PathApi) (memory : MemoryRecord) (before after : Ledger)
    → append_memory api memory before ≡ ok after
    → append_memory api memory after ≡ ok after
unfolding append_memory
append_memory-append_memory api memory before after done =
    let (_, valid, a) = bind-eq-ok (validate_record memory) _ done in
    let (project_id, scoped, b) = bind-eq-ok (project_of memory.scope) _ a in
    let (own, c) = ensure-eq-ok (project_id == before.project_scope) wrong_project _ b in
    let (kept, replayed) =
      replay_or_insert-replayed api memory project_id before (replay_of before memory.version_id)
        refl c in
    run_again api memory after project_id valid scoped
      (subst (λ (scope : Uuid). (project_id == scope) ≡ true) (sym kept) own) replayed
