-- ===== src/Memory/Retired/Withdrawals.antt =====
-- What `retire_all` of crates/brain-store/src/evict.rs withdraws.
use agent_knowledge_base_cod.Common.{
  ℕ, ◌+◌, ◌==◌, ◌≡◌, ◌&&◌, refl, sym, ap, subst, ◌∙◌, inl, inr, Bool-cases, arith, Bool, true,
  false, some, List, [], ◌∷◌, ◌++◌, length, Text, is_blank, trim, is_whitespace-letter,
  is_blank-cons, codes, Time, InRange, timestamp_ns_fits, Result, ok, find?, any, any-append, All,
  All-append, All-find?-some,
}
use agent_knowledge_base_cod.Domain.Memory.{Uuid}
use agent_knowledge_base_cod.Memory.{Tombstone, Ledger, MemoryError, is_withdrawn, Outcome}
use mathlib.Core.Option.{some-injective}
use agent_knowledge_base_cod.Memory.Forget.{
  in_project, withdraw, checked, withdraw_checked, forget_memory,
}
use agent_knowledge_base_cod.Memory.Eviction.{
  EvictionCandidate, reason_of, after_forget, retire_all,
}

-- The withdrawals are of the ledger's own project.
abbrev pub IsOwn : Ledger → Type 0
IsOwn ledger =
    All (λ (t : Tombstone). (t.project_id == ledger.project_scope) ≡ true) ledger.memory_tombstones

any_both :
    {A : Type 0} (p q : A → Bool) (xs : List A)
    → All (λ (x : A). q x ≡ true) xs
    → any p xs ≡ true
    → any (λ (x : A). p x && q x) xs ≡ true
any_both p q [] own h = cc
any_both p q (x ∷ xs) own h = ground (arith, own.0, any_both p q xs own.1)

pub any_found :
    {A : Type 0} (p q : A → Bool) (xs : List A) {x : A}
    → find? p xs ≡ some x
    → q x ≡ true
    → any (λ (y : A). p y && q y) xs ≡ true
any_found p q [] h hx = cc
any_found {A = A} p q (y ∷ xs) {x} h hx = elim (Bool-cases (p y)) [
  | inl hit ↦
      rw (hit, subst (λ (z : A). q z ≡ true) (sym (some-injective y x (rw hit at h))) hx) refl
  | inr miss ↦ rw miss (any_found p q xs {x = x} (rw miss at h) hx)
]

abbrev pub IsReady : Ledger → EvictionCandidate → Type 0
IsReady l c = (in_project l c.memory_id ≡ true) × (is_blank c.reason ≡ false)

module _ (by : Text) (now : Time) (ranged : InRange now) where
  abbrev tomb : Uuid → Text → Ledger → Tombstone
  tomb id reason l = record {
    memory_id = id;
    project_id = l.project_scope;
    reason = trim reason;
    redacted_by = by;
    redacted_at_ns = now;
  }

  insert-IsOwn :
      (id : Uuid) (reason : Text) (l : Ledger) → IsOwn l → IsOwn (withdraw id reason by now l)
  insert-IsOwn id reason l own =
      elim (Bool-cases (any (λ (u : Tombstone). u.memory_id == id) l.memory_tombstones)) [
        | inl had ↦ rw had own
        | inr new ↦ rw new (
            All-append (λ (t : Tombstone). (t.project_id == l.project_scope) ≡ true)
              l.memory_tombstones (tomb id reason l ∷ []) own (ground arith, tt))
      ]

  withdrawn_now :
      (id : Uuid) (reason : Text) (l : Ledger)
      → IsOwn l
      → is_withdrawn (withdraw id reason by now l) id ≡ true
  withdrawn_now id reason l own =
      elim (Bool-cases (any (λ (u : Tombstone). u.memory_id == id) l.memory_tombstones)) [
        | inl had ↦ rw had (
            any_both (λ (u : Tombstone). u.memory_id == id)
              (λ (u : Tombstone). u.project_id == l.project_scope) l.memory_tombstones own had)
        | inr new ↦ rw new (
            any-append (λ (u : Tombstone). u.memory_id == id && u.project_id == l.project_scope)
              l.memory_tombstones (tomb id reason l ∷ [])
            ∙ ground arith)
      ]

  still_withdrawn :
      (id other : Uuid) (reason : Text) (l : Ledger)
      → is_withdrawn l id ≡ true
      → is_withdrawn (withdraw other reason by now l) id ≡ true
  still_withdrawn id other reason l h =
      elim (Bool-cases (any (λ (u : Tombstone). u.memory_id == other) l.memory_tombstones)) [
        | inl had ↦ rw had h
        | inr new ↦ rw new (
            any-append (λ (u : Tombstone). u.memory_id == id && u.project_id == l.project_scope)
              l.memory_tombstones (tomb other reason l ∷ [])
            ∙ rw h refl)
      ]

  forget_succeeds :
      (id : Uuid) (reason : Text) (l : Ledger)
      → IsOwn l
      → in_project l id ≡ true
      → is_blank reason ≡ false
      → (t : Tombstone) × (forget_memory id reason by now l ≡ (ok t, withdraw id reason by now l))
  unfolding forget_memory
  forget_succeeds id reason l own exists given =
      let (t, found) =
        All-find?-some (λ (u : Tombstone). u.memory_id == id && u.project_id == l.project_scope)
          (withdraw id reason by now l).memory_tombstones (withdrawn_now id reason l own) in
      (t, ap (withdraw_checked id reason by l) passes ∙ rw found refl)
    where
      passes : checked id reason now l ≡ ok now
      passes = rw (given, exists, timestamp_ns_fits now ranged) refl

  -- Each candidate is withdrawn, and a withdrawal that there was stays.
  abbrev AllRetired : List EvictionCandidate → ℕ → Ledger → Outcome ℕ → Type 0
  AllRetired cs retired before result =
      (result.0 ≡ ok (retired + length cs))
      × ((id : Uuid) → is_withdrawn before id ≡ true → is_withdrawn result.1 id ≡ true)
      × All (λ (c : EvictionCandidate). is_withdrawn result.1 c.memory_id ≡ true) cs

  pub retire_all-AllRetired :
      (cs : List EvictionCandidate) (retired : ℕ) (l : Ledger)
      → IsOwn l
      → All (IsReady l) cs
      → AllRetired cs retired l (retire_all now by cs retired l)
  retire_all-AllRetired [] retired l own ready = (ap ok (omega arith), λ id h. h, tt)
  retire_all-AllRetired (c ∷ cs) retired l own ready =
      let (t, done) = forget_succeeds c.memory_id c.reason l own ready.0.0 ready.0.1 in
      let (counted, kept, rest) =
        retire_all-AllRetired cs (retired + 1) (withdraw c.memory_id c.reason by now l)
          (insert-IsOwn c.memory_id c.reason l own) ready.1 in
      subst
        (λ (r : Result MemoryError Tombstone × Ledger).
          AllRetired (c ∷ cs) retired l (after_forget r (retire_all now by cs (retired + 1))))
        (sym done)
        (
          counted ∙ ap ok (omega arith),
          λ id h. kept id (still_withdrawn id c.memory_id c.reason l h),
          (kept c.memory_id (withdrawn_now c.memory_id c.reason l own), rest),
        )

-- A reason starts with a letter.
pub reason_of-not_blank : (show : ℕ → Text) (n : ℕ) → is_blank (reason_of show n) ≡ false
reason_of-not_blank show n =
    is_blank-cons 110 (codes "ever retrieved in " ++ show n ++ codes " days")
      (is_whitespace-letter 110 (omega arith) (omega arith))
