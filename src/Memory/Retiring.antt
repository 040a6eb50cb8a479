-- ===== src/Memory/Retiring.antt =====
-- What `apply_eviction` of crates/brain-store/src/evict.rs leaves alone.
use agent_knowledge_base_cod.Common.{
  ℕ, ◌+◌, ◌==◌, ◌≡◌, ◌||◌, Result-cases, refl, sym, subst, ◌∙◌, inl, inr, Bool-cases, arith, not,
  Bool, true, false, List, [], ◌∷◌, ◌++◌, map, Text, Time, Result, ok, err, find?, any, all, All,
  All-sort_by, All-filter, filter, filter-All, sub_time, timestamp_ns, ltb, leb,
}
use agent_knowledge_base_cod.Domain.Memory.{Uuid}
use agent_knowledge_base_cod.Memory.{
  MemoryRow, VersionRow, Tombstone, Ledger, MemoryError, lift_time, of_memory, joined, has_access,
  Outcome,
}
use agent_knowledge_base_cod.Memory.Reads.{tombstone}
use agent_knowledge_base_cod.Memory.Forget.{
  insert_tombstone, checked, withdraw_checked, forget_memory,
}
use agent_knowledge_base_cod.Memory.Eviction.{
  EvictionCandidate, minimum_observation, quiet_for, is_human, is_stale, stale_rows, candidate_of,
  plan_eviction, after_forget, retire_all, apply_eviction, oldest,
}

-- All of a ledger but its withdrawals and the cache.
abbrev pub without_withdrawals : Ledger → Ledger
without_withdrawals ledger = record ledger { memory_tombstones = []; search_cache = [] }

-- The ledger has the withdrawals of a memory, and all else, that it had.
abbrev pub IsSpared : Uuid → Ledger → Ledger → Type 0
IsSpared id before after =
    (tombstone id after ≡ tombstone id before)
    × (without_withdrawals after ≡ without_withdrawals before)

find?-snoc_miss :
    {A : Type 0} (p : A → Bool) (xs : List A) (x : A)
    → p x ≡ false
    → find? p (xs ++ (x ∷ [])) ≡ find? p xs
find?-snoc_miss p [] x miss = rw miss refl
find?-snoc_miss p (y ∷ xs) x miss = ground (arith, find?-snoc_miss p xs x)

find?-insert_tombstone :
    (p : Tombstone → Bool) (t : Tombstone) (rows : List Tombstone)
    → p t ≡ false
    → find? p (insert_tombstone t rows) ≡ find? p rows
find?-insert_tombstone p t rows miss =
    elim (Bool-cases (any (λ (u : Tombstone). u.memory_id == t.memory_id) rows)) [
      | inl had ↦ rw had refl
      | inr new ↦ rw new (find?-snoc_miss p rows t miss)
    ]

-- Whether it succeeds or not.
withdraw_checked-IsSpared :
    (id other : Uuid) (reason by : Text) (ledger : Ledger) (r : Result MemoryError Time)
    → (other == id) ≡ false
    → IsSpared id ledger (withdraw_checked other reason by ledger r).1
withdraw_checked-IsSpared id other reason by ledger (err e) differs = (refl, refl)
withdraw_checked-IsSpared id other reason by ledger (ok ns) differs =
    (find?-insert_tombstone _ _ ledger.memory_tombstones (rw differs refl), refl)

after_forget-IsSpared :
    (id : Uuid) (before : Ledger) (result : Outcome Tombstone) (next : Ledger → Outcome ℕ)
    → IsSpared id before result.1
    → ((l : Ledger) → IsSpared id l (next l).1)
    → IsSpared id before (after_forget result next).1
after_forget-IsSpared id before (err e, l) next one more = one
after_forget-IsSpared id before (ok t, l) next one more = ((more l).0 ∙ one.0, (more l).1 ∙ one.1)

abbrev IsOther : Uuid → EvictionCandidate → Type 0
IsOther id c = (c.memory_id == id) ≡ false

retire_all-IsSpared :
    (now : Time) (by : Text) (id : Uuid) (cs : List EvictionCandidate) (retired : ℕ)
    (ledger : Ledger)
    → All (IsOther id) cs
    → IsSpared id ledger (retire_all now by cs retired ledger).1
unfolding forget_memory
retire_all-IsSpared now by id [] retired ledger h = (refl, refl)
retire_all-IsSpared now by id (c ∷ cs) retired ledger h =
    after_forget-IsSpared id ledger (forget_memory c.memory_id c.reason by now ledger)
      (retire_all now by cs (retired + 1))
      (withdraw_checked-IsSpared id c.memory_id c.reason by ledger
        (checked c.memory_id c.reason now ledger) h.0)
      (λ l. retire_all-IsSpared now by id cs (retired + 1) l h.1)

-- A memory that eviction has to leave: the counting is too young, it was retrieved, or each of its
-- versions is what a human said.
abbrev pub is_spared : Time → Ledger → Uuid → Bool
is_spared now ledger id =
    ltb now (ledger.access_epoch + minimum_observation)
    || has_access ledger id
    || all (λ (row : VersionRow × MemoryRow). not (of_memory id row.0) || is_human row)
        (joined ledger)

pub All-map-filter :
    (p : VersionRow × MemoryRow → Bool) (f : VersionRow × MemoryRow → EvictionCandidate)
    (P : EvictionCandidate → Type 0) (rows : List (VersionRow × MemoryRow))
    → All (λ (row : VersionRow × MemoryRow). p row ≡ true → P (f row)) rows
    → All P (map f (filter p rows))
All-map-filter p f P [] h = tt
All-map-filter p f P (row ∷ rows) h = elim (Bool-cases (p row)) [
  | inl kept ↦ rw kept (h.0 kept, All-map-filter p f P rows h.1)
  | inr left ↦ rw left (All-map-filter p f P rows h.1)
]

pub All-imp :
    {A : Type 0} (P Q : A → Type 0) (xs : List A) → ((x : A) → P x → Q x) → All P xs → All Q xs
All-imp P Q [] sub h = tt
All-imp P Q (x ∷ xs) sub h = (sub x h.0, All-imp P Q xs sub h.1)

all-All :
    {A : Type 0} (p : A → Bool) (xs : List A) → all p xs ≡ true → All (λ (x : A). p x ≡ true) xs
all-All p [] h = tt
all-All p (x ∷ xs) h = (ground arith, all-All p xs (ground arith))

module _ (show : ℕ → Text) (now cutoff : Time) (ledger : Ledger) (id : Uuid) where
  abbrev candidates : List EvictionCandidate
  candidates =
      map (candidate_of show now)
        (filter (λ (row : VersionRow × MemoryRow). not (is_human row)) (stale_rows cutoff ledger))

  abbrev NotCandidate : VersionRow × MemoryRow → Type 0
  NotCandidate row = not (is_human row) ≡ true → (row.0.memory_id == id) ≡ false

  of_rows : All NotCandidate (stale_rows cutoff ledger) → All (IsOther id) candidates
  of_rows h =
      All-map-filter (λ (row : VersionRow × MemoryRow). not (is_human row)) (candidate_of show now)
        (IsOther id) (stale_rows cutoff ledger) h

  retrieved_row :
      has_access ledger id ≡ true
      → (row : VersionRow × MemoryRow) → is_stale cutoff ledger row ≡ true
      → NotCandidate row
  retrieved_row used row stale _ = elim (Bool-cases (row.0.memory_id == id)) [
    | inl same ↦ absurd (used_not (ground arith) (ground arith))
    | inr differs ↦ differs
  ]
    where
      used_not : row.0.memory_id ≡ id → has_access ledger row.0.memory_id ≡ false → ⊥
      used_not same unused =
          let still = subst (λ (i : Uuid). has_access ledger i ≡ true) (sym same) used in cc

  spared_rows :
      is_spared now ledger id ≡ true
      → ltb now (ledger.access_epoch + minimum_observation) ≡ false
      → All NotCandidate (stale_rows cutoff ledger)
  spared_rows spared old = elim (Bool-cases (has_access ledger id)) [
    | inl used ↦ All-sort_by NotCandidate oldest (filter (is_stale cutoff ledger) (joined ledger)) (
        All-imp (λ (row : VersionRow × MemoryRow). is_stale cutoff ledger row ≡ true) NotCandidate
          (filter (is_stale cutoff ledger) (joined ledger)) (retrieved_row used)
          (filter-All (is_stale cutoff ledger) (joined ledger)))
    | inr unused ↦
        All-sort_by NotCandidate oldest (filter (is_stale cutoff ledger) (joined ledger)) (
          All-filter NotCandidate (is_stale cutoff ledger) (joined ledger) (
            All-imp
              (λ (row : VersionRow × MemoryRow). (not (of_memory id row.0) || is_human row) ≡ true)
              NotCandidate (joined ledger) (λ row said not_human. ground arith)
              (all-All (λ (row : VersionRow × MemoryRow). not (of_memory id row.0) || is_human row)
                (joined ledger) (ground arith))))
  ]

-- Whatever eviction does, it does not withdraw a memory that was retrieved or that only humans wrote,
-- it withdraws none before its thirty days, and it changes nothing but withdrawals and the cache.
pub apply_eviction-IsSpared :
    (show : ℕ → Text) (now : Time) (by : Text) (ledger : Ledger) (id : Uuid)
    → is_spared now ledger id ≡ true
    → IsSpared id ledger (apply_eviction show now by ledger).1
unfolding apply_eviction plan_eviction
apply_eviction-IsSpared show now by ledger id spared =
    elim (Result-cases (lift_time (sub_time now quiet_for))) [
      | inl (e, early) ↦ rw early (refl, refl)
      | inr (start, found) ↦ elim (Result-cases (lift_time (timestamp_ns start))) [
        | inl (e, outside) ↦ rw (found, outside) (refl, refl)
        | inr (cutoff, ranged) ↦
            elim (Bool-cases (leb (ledger.access_epoch + minimum_observation) now)) [
              | inl old ↦
                  rw (found, ranged, old)
                    (retire_all-IsSpared now by id (candidates show now cutoff ledger id) 0 ledger (
                      of_rows show now cutoff ledger id
                        (spared_rows show now cutoff ledger id spared (ground arith))))
              | inr early ↦ rw (found, ranged, early) (refl, refl)
            ]
      ]
    ]
