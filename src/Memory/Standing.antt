-- ===== src/Memory/Standing.antt =====
-- What the reads of crates/brain-store/src/memory.rs never return, and what withdrawing a memory in
-- crates/brain-store/src/tombstone.rs changes.
use agent_knowledge_base_cod.Common.{
  ◌==◌, ◌≡◌, ◌&&◌, bind-eq-ok, ensure-eq-ok, ok-injective, refl, sym, ap, subst, ◌∙◌, inl, inr,
  Bool-cases, arith, not, Bool, true, false, Option, none, some, List, [], ◌∷◌, Text, is_blank,
  Time, InRange, timestamp_ns_fits, Result, ok, err, find?, any, All, All-sort_by, filter,
  filter-All, if◌then◌else◌,
}
use agent_knowledge_base_cod.Domain.Memory.{
  Uuid, MemoryRecord, is_readable, kind_from_name, authority_from_name, status_from_name,
}
use agent_knowledge_base_cod.Domain.Slug.{PathApi}
use agent_knowledge_base_cod.Memory.{
  MemoryRow, VersionRow, Tombstone, Ledger, MemoryError, named, joined, is_superseded,
  has_tombstone, is_withdrawn, Outcome, stored_kind, stored_authority, stored_status, no_reason,
  memory_missing, tombstone_vanished,
}
use agent_knowledge_base_cod.Memory.Reads.{
  parse, standing, tombstone, is_kept, by_path, current_memory, current_project_memories,
}
use agent_knowledge_base_cod.Memory.Forget.{
  in_project, withdraw, checked, read_back, withdraw_checked, forget_memory,
}

-- What a reader may see.
abbrev pub IsServed : Ledger → MemoryRecord → Type 0
IsServed ledger memory =
    (is_withdrawn ledger memory.id ≡ false)
    × (is_readable memory.status ≡ true)
    × (is_superseded ledger memory.version_id ≡ false)

parse_ids :
    (ledger : Ledger) (row : VersionRow × MemoryRow) {memory : MemoryRecord}
    → parse ledger row ≡ ok memory
    → (memory.id ≡ row.0.memory_id) × (memory.version_id ≡ row.0.version_id)
unfolding parse
parse_ids ledger (v, r) done =
    let (_, _, a) = bind-eq-ok (named (kind_from_name r.kind) stored_kind) _ done in
    let (_, _, b) = bind-eq-ok (named (authority_from_name v.authority) stored_authority) _ a in
    let (_, _, c) = bind-eq-ok (named (status_from_name v.status) stored_status) _ b in
    let same = ok-injective c in
    (ap (λ (m : MemoryRecord). m.id) (sym same), ap (λ (m : MemoryRecord). m.version_id) (sym same))

module _ (ledger : Ledger) where
  standing-IsServed :
      (rows : List (VersionRow × MemoryRow)) {memories : List MemoryRecord}
      → All (λ (row : VersionRow × MemoryRow). is_superseded ledger row.0.version_id ≡ false) rows
      → standing ledger rows ≡ ok memories
      → All (IsServed ledger) memories
  standing-IsServed [] {memories} kept done = subst (All (IsServed ledger)) (ok-injective done) tt
  standing-IsServed (row ∷ rows) {memories} kept done =
      elim (Bool-cases (is_withdrawn ledger row.0.memory_id)) [
        | inl withdrawn ↦ standing-IsServed rows kept.1 (rw withdrawn at done)
        | inr here ↦
            let (memory, parsed, a) = bind-eq-ok (parse ledger row) _ (rw here at done) in
            let (rest, more, b) = bind-eq-ok (standing ledger rows) _ a in
            subst (All (IsServed ledger)) (ok-injective b) (
              with_memory memory rest
                (λ (readable : is_readable memory.status ≡ true).
                  served memory (parse_ids ledger row parsed) here readable)
                (standing-IsServed rows kept.1 more))
      ]
    where
      served :
          (memory : MemoryRecord)
          → (memory.id ≡ row.0.memory_id) × (memory.version_id ≡ row.0.version_id)
          → is_withdrawn ledger row.0.memory_id ≡ false
          → is_readable memory.status ≡ true
          → IsServed ledger memory
      served memory (same_id, same_version) here readable = (
        subst (λ (id : Uuid). is_withdrawn ledger id ≡ false) (sym same_id) here,
        readable,
        subst (λ (id : Uuid). is_superseded ledger id ≡ false) (sym same_version) kept.0,
      )

      with_memory :
          (memory : MemoryRecord) (rest : List MemoryRecord)
          → (is_readable memory.status ≡ true → IsServed ledger memory)
          → All (IsServed ledger) rest
          → All (IsServed ledger) (if is_readable memory.status then memory ∷ rest else rest)
      with_memory memory rest one h = elim (Bool-cases (is_readable memory.status)) [
        | inl readable ↦ rw readable (one readable, h)
        | inr hidden ↦ rw hidden h
      ]

  not_superseded :
      (rows : List (VersionRow × MemoryRow))
      → All (λ (row : VersionRow × MemoryRow). is_kept ledger row ≡ true) rows
      → All (λ (row : VersionRow × MemoryRow). is_superseded ledger row.0.version_id ≡ false) rows
  not_superseded [] h = tt
  not_superseded (row ∷ rows) h = (ground (arith, h.0), not_superseded rows h.1)

-- The memories of a project are none that is withdrawn, superseded, proposed or invalid.
pub current_project_memories-IsServed :
    (api : PathApi) (ledger : Ledger) (memories : List MemoryRecord)
    → current_project_memories api ledger ≡ ok memories
    → All (IsServed ledger) memories
unfolding current_project_memories
current_project_memories-IsServed api ledger memories done =
    let (found, stood, a) =
      bind-eq-ok (standing ledger (filter (is_kept ledger) (joined ledger))) _ done in
    subst (All (IsServed ledger)) (ok-injective a) (
      All-sort_by (IsServed ledger) (by_path api) found (
        standing-IsServed ledger (filter (is_kept ledger) (joined ledger))
          (not_superseded ledger (filter (is_kept ledger) (joined ledger))
            (filter-All (is_kept ledger) (joined ledger)))
          stood))

any-find? :
    {A : Type 0} (p : A → Bool) (xs : List A) {x : A} → find? p xs ≡ some x → any p xs ≡ true
any-find? p [] h = cc
any-find? p (y ∷ xs) {x} h = ground (arith, any-find? p xs {x = x})

any_weaker :
    {A : Type 0} (p q : A → Bool) (xs : List A)
    → ((x : A) → p x ≡ true → q x ≡ true)
    → any p xs ≡ true
    → any q xs ≡ true
any_weaker p q [] sub h = cc
any_weaker p q (x ∷ xs) sub h = ground (arith, sub x, any_weaker p q xs sub)

named-eq-ok :
    {A : Type 0} (found : Option A) (e : MemoryError) {a : A}
    → named found e ≡ ok a
    → found ≡ some a
named-eq-ok none e h = cc
named-eq-ok (some b) e h = ap some (ok-injective h)

-- What a withdrawal that succeeded did.
pub forgotten :
    (id : Uuid) (reason by : Text) (before : Ledger) (r : Result MemoryError Time) {t : Tombstone}
    {after : Ledger}
    → withdraw_checked id reason by before r ≡ (ok t, after)
    → (ns : Time) × (r ≡ ok ns)
      × (withdraw id reason by ns before ≡ after)
      × (tombstone id (withdraw id reason by ns before) ≡ some t)
forgotten id reason by before (err e) {t} {after} h =
    absurd (not_done (ap (λ (p : Outcome Tombstone). p.0) h))
  where
    not_done : ◌≡◌ {A = Result MemoryError Tombstone} (err e) (ok t) → ⊥
    not_done same = cc
forgotten id reason by before (ok ns) {t} {after} h = (
  ns,
  refl,
  ap (λ (p : Outcome Tombstone). p.1) h,
  named-eq-ok (tombstone id (withdraw id reason by ns before)) tombstone_vanished
      (ap (λ (p : Outcome Tombstone). p.0) h),
)

-- A memory that has a withdrawal keeps it.
withdraw_again :
    (id : Uuid) (reason by : Text) (ns : Time) (ledger : Ledger)
    → has_tombstone ledger id ≡ true
    → ledger.search_cache ≡ []
    → withdraw id reason by ns ledger ≡ ledger
withdraw_again id reason by ns ledger h clear =
    rw h (ap (λ (cached : List Text). record ledger { search_cache = cached }) (sym clear))

-- Once a memory is forgotten it has no current version and is withdrawn. To forget it again, with a
-- reason and at an instant that a column holds, gives the first withdrawal and changes nothing.
pub forget_memory-forget_memory :
    (id : Uuid) (reason again by by_again : Text) (now later : Time) (t : Tombstone)
    (before after : Ledger)
    → forget_memory id reason by now before ≡ (ok t, after)
    → is_blank again ≡ false
    → InRange later
    → (current_memory id after ≡ ok none)
      × (is_withdrawn after id ≡ true)
      × (forget_memory id again by_again later after ≡ (ok t, after))
unfolding forget_memory current_memory
forget_memory-forget_memory id reason again by by_again now later t before after done given ranged =
    let (ns, passed, same, found) =
      forgotten id reason by before (checked id reason now before) done in
    let (_, a) = ensure-eq-ok (not (is_blank reason)) no_reason _ passed in
    let (exists, _) = ensure-eq-ok (in_project before id) memory_missing _ a in
    subst
      (λ (l : Ledger).
        (current_memory id l ≡ ok none)
        × (is_withdrawn l id ≡ true)
        × (forget_memory id again by_again later l ≡ (ok t, l)))
      same (settled (withdraw id reason by ns before) exists found refl)
  where
    settled :
        (l : Ledger)
        → in_project l id ≡ true
        → tombstone id l ≡ some t
        → l.search_cache ≡ []
        → (current_memory id l ≡ ok none)
          × (is_withdrawn l id ≡ true)
          × (forget_memory id again by_again later l ≡ (ok t, l))
    settled l exists found clear = (
      rw found refl,
      any-find? (λ (u : Tombstone). u.memory_id == id && u.project_id == l.project_scope)
          l.memory_tombstones found,
      ap (withdraw_checked id again by_again l) passes
          ∙ subst (λ (w : Ledger). read_back id w ≡ (ok t, l))
              (sym (withdraw_again id again by_again later l (withdrawn l found) clear))
              (rw found refl),
    )
      where
        passes : checked id again later l ≡ ok later
        passes = rw (given, exists, timestamp_ns_fits later ranged) refl

        withdrawn : (m : Ledger) → tombstone id m ≡ some t → has_tombstone m id ≡ true
        withdrawn m h =
            any_weaker (λ (u : Tombstone). u.memory_id == id && u.project_id == m.project_scope)
              (λ (u : Tombstone). u.memory_id == id) m.memory_tombstones (λ u both. ground arith)
              (any-find? (λ (u : Tombstone). u.memory_id == id && u.project_id == m.project_scope)
                m.memory_tombstones h)
