-- ===== src/Memory/Replay/Insertion.antt =====
-- What the insertions of crates/brain-store/src/memory.rs leave to be found.
use agent_knowledge_base_cod.Common.{
  ◌+◌, ◌==◌, ◌≡◌, ◌&&◌, bind-eq-ok, ensure-eq-ok, ok-injective, refl, sym, subst, ◌∙◌, arith, not,
  Bool, true, false, Option, none, some, List, [], ◌∷◌, ◌++◌, text_eq, Time, timestamp_ns, ok,
  find?, any, is_nil,
}
use agent_knowledge_base_cod.Domain.Memory.{Uuid, MemoryRecord, kind_as_str}
use agent_knowledge_base_cod.Domain.Slug.{PathApi, projection_path}
use agent_knowledge_base_cod.Memory.{
  MemoryRow, VersionRow, Ledger, lift_time, has_memory, has_version, max_version, pair_with,
  join_rows, no_evidence, identity_changed, constraint,
}
use agent_knowledge_base_cod.Memory.Append.{
  check_evidence, check_superseded, optional_ns, insert_edges, keep_or_insert_record, version_row,
  insert_version, insert_memory, record_row,
}

-- What a query finds behind rows that it does not match.
find?-last :
    {A : Type 0} (p : A → Bool) (xs : List A) (x : A)
    → find? p xs ≡ none
    → p x ≡ true
    → find? p (xs ++ (x ∷ [])) ≡ some x
find?-last p [] x miss hit = ground arith
find?-last p (y ∷ xs) x miss hit = ground (arith, find?-last p xs x)

module _ (version_id : Uuid) where
  abbrev is_version : VersionRow × MemoryRow → Bool
  is_version row = row.0.version_id == version_id

  skip_pair :
      (v : VersionRow) (found : Option MemoryRow) (rest : List (VersionRow × MemoryRow))
      → has_version version_id v ≡ false
      → find? is_version (pair_with v found rest) ≡ find? is_version rest
  skip_pair v none rest other = refl
  skip_pair v (some r) rest other = rw other refl

  -- The join of a version that comes last.
  pub find?-join_last :
      (records : List MemoryRow) (rows : List VersionRow) (v : VersionRow) (r : MemoryRow)
      → any (has_version version_id) rows ≡ false
      → has_version version_id v ≡ true
      → find? (has_memory v.memory_id) records ≡ some r
      → find? is_version (join_rows records (rows ++ (v ∷ []))) ≡ some (v, r)
  find?-join_last records [] v r others same found = rw (found, same) refl
  find?-join_last records (w ∷ rows) v r others same found =
      skip_pair w (find? (has_memory w.memory_id) records) (join_rows records (rows ++ (v ∷ [])))
        (ground arith)
      ∙ find?-join_last records rows v r (ground arith) same found

-- The rows that an insertion adds.
pub last_version :
    (memory : MemoryRecord) (rows : List VersionRow) {after : List VersionRow}
    → insert_version memory rows ≡ ok after
    → (valid_from : Time) × (valid_to : Option Time) × (recorded_at : Time) × (after
        ≡ rows
          ++ (version_row memory (max_version memory.id rows + 1) valid_from valid_to recorded_at
              ∷ []))
      × (any (has_version memory.version_id) rows ≡ false)
last_version memory rows done =
    let (from, _, a) = bind-eq-ok (lift_time (timestamp_ns memory.valid_from)) _ done in
    let (to, _, b) = bind-eq-ok (optional_ns memory.valid_to) _ a in
    let (at, _, c) = bind-eq-ok (lift_time (timestamp_ns memory.recorded_at)) _ b in
    let (fresh, e) = ensure-eq-ok (not (any (has_version memory.version_id) rows)) constraint _ c in
    (from, to, at, sym (ok-injective e), ground arith)

module _ (api : PathApi) (memory : MemoryRecord) (project_id : Uuid) where
  -- The record that the memory has after the insertion.
  kept_record :
      (rows : List MemoryRow) (found : Option MemoryRow) {after : List MemoryRow}
      → find? (has_memory memory.id) rows ≡ found
      → keep_or_insert_record api memory project_id rows found ≡ ok after
      → (r : MemoryRow) × (find? (has_memory memory.id) after ≡ some r)
        × ((r.project_id == project_id) ≡ true)
  kept_record rows (some row) hit h =
      let (same, end) =
        ensure-eq-ok (row.project_id == project_id && text_eq row.kind (kind_as_str memory.kind))
          identity_changed (ok rows) h in
      (
        row,
        subst (λ (rs : List MemoryRow). find? (has_memory memory.id) rs ≡ some row)
            (ok-injective end) hit,
        ground arith,
      )
  kept_record rows none miss h =
      let (created, _, a) = bind-eq-ok (lift_time (timestamp_ns memory.recorded_at)) _ h in
      let (_, end) =
        ensure-eq-ok
          (not
            (any (λ (r : MemoryRow). text_eq r.projection_path (projection_path api memory)) rows))
          constraint _ a in
      (
        record_row api memory project_id created,
        subst
            (λ (rs : List MemoryRow).
              find? (has_memory memory.id) rs ≡ some (record_row api memory project_id created))
            (ok-injective end)
            (find?-last (has_memory memory.id) rows (record_row api memory project_id created) miss
              (ground arith)),
        ground arith,
      )

-- What an insertion changes.
abbrev pub Inserted : MemoryRecord → Uuid → Ledger → Ledger → Type 0
Inserted memory project_id before after =
    (valid_from : Time) × (valid_to : Option Time) × (recorded_at : Time) × (after.memory_versions
      ≡ before.memory_versions
        ++ (version_row memory (max_version memory.id before.memory_versions + 1) valid_from
              valid_to recorded_at
            ∷ []))
    × (any (has_version memory.version_id) before.memory_versions ≡ false)
    × (after.project_scope ≡ before.project_scope)
    × (r : MemoryRow) × (find? (has_memory memory.id) after.memory_records ≡ some r)
    × ((r.project_id == project_id) ≡ true)

pub insert_memory-Inserted :
    (api : PathApi) (memory : MemoryRecord) (project_id : Uuid) (before : Ledger) {after : Ledger}
    → insert_memory api memory project_id before ≡ ok after
    → Inserted memory project_id before after
unfolding insert_memory
insert_memory-Inserted api memory project_id before done =
    let (_, a) = ensure-eq-ok (not (is_nil memory.evidence_ids)) no_evidence _ done in
    let (_, _, b) = bind-eq-ok (check_evidence before project_id memory.evidence_ids) _ a in
    let (records, kept, c) =
      bind-eq-ok
        (keep_or_insert_record api memory project_id before.memory_records
          (find? (has_memory memory.id) before.memory_records))
        _ b in
    let (_, _, d) = bind-eq-ok (check_superseded before memory.supersedes) _ c in
    let (versions, inserted, e) = bind-eq-ok (insert_version memory before.memory_versions) _ d in
    let (evidence, _, f) =
      bind-eq-ok (insert_edges memory.version_id memory.evidence_ids before.memory_evidence) _ e in
    let (supersession, _, g) =
      bind-eq-ok (insert_edges memory.version_id memory.supersedes before.memory_supersession) _
        f in
    let (from, to, at, same, fresh) = last_version memory before.memory_versions inserted in
    let (r, found, owned) =
      kept_record api memory project_id before.memory_records
        (find? (has_memory memory.id) before.memory_records) refl kept in
    subst (Inserted memory project_id before) (ok-injective g)
      (from, to, at, same, fresh, refl, r, found, owned)
