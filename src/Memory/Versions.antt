-- ===== src/Memory/Versions.antt =====
-- The version numbers that `append_memory` of crates/brain-store/src/memory.rs gives.
use agent_knowledge_base_cod.Common.{
  count_where-append, ℕ, suc, ◌+◌, ◌≡◌, ◌<◌, ◌⊎◌, refl, sym, subst, inl, inr, Bool-cases, arith,
  Bool, true, false, List, [], ◌∷◌, ◌++◌, ok, count_where, leb, if◌then◌else◌,
}
use agent_knowledge_base_cod.Domain.Memory.{Uuid, MemoryRecord}
use agent_knowledge_base_cod.Domain.Slug.{PathApi}
use agent_knowledge_base_cod.Memory.{VersionRow, Ledger, of_memory, max_version}
use agent_knowledge_base_cod.Memory.Append.{version_row, append_memory}
use agent_knowledge_base_cod.Memory.Replay.{append_memory-cases}

-- Each version has the number that is next for its memory: one, two, three, …
abbrev pub NumberedAfter : List VersionRow → List VersionRow → Type 0
NumberedAfter earlier [] = Unit
NumberedAfter earlier (v ∷ vs) =
    (v.version_number ≡ count_where (of_memory v.memory_id) earlier + 1)
    × NumberedAfter (earlier ++ (v ∷ [])) vs

abbrev pub IsNumbered : List VersionRow → Type 0
IsNumbered rows = NumberedAfter [] rows

snoc-NumberedAfter :
    (earlier rows : List VersionRow) (v : VersionRow)
    → NumberedAfter earlier rows
    → v.version_number
      ≡ count_where (of_memory v.memory_id) earlier + count_where (of_memory v.memory_id) rows + 1
    → NumberedAfter earlier (rows ++ (v ∷ []))
snoc-NumberedAfter earlier [] v h next = (omega (arith, next), tt)
snoc-NumberedAfter earlier (w ∷ rows) v h next = (
  h.0,
  snoc-NumberedAfter (earlier ++ (w ∷ [])) rows v h.1
      (ground (arith, count_where-append (of_memory v.memory_id) earlier (w ∷ []))),
)

-- The largest number among rows that come after `before` others of the memory.
abbrev MaxIs : ℕ → ℕ → ℕ → Type 0
MaxIs before count largest =
    ((count ≡ 0) × (largest ≡ 0)) ⊎ ((0 < count) × (largest ≡ before + count))

first_max :
    (before count number largest : ℕ)
    → MaxIs (before + 1) count largest
    → number ≡ before + 1
    → MaxIs before (suc count) (if leb largest number then number else largest)
first_max before count number largest (inl (no_more, nothing)) next = inr (ground arith)
first_max before count number largest (inr (more, last)) next = inr (ground arith)

count_snoc_hit :
    (p : VersionRow → Bool) (xs : List VersionRow) (v : VersionRow)
    → p v ≡ true
    → count_where p (xs ++ (v ∷ [])) ≡ count_where p xs + 1
count_snoc_hit p xs v hit = ground (arith, count_where-append p xs (v ∷ []))

count_snoc_miss :
    (p : VersionRow → Bool) (xs : List VersionRow) (v : VersionRow)
    → p v ≡ false
    → count_where p (xs ++ (v ∷ [])) ≡ count_where p xs
count_snoc_miss p xs v miss = ground (arith, count_where-append p xs (v ∷ []))

max_of_numbered :
    (id : Uuid) (earlier rows : List VersionRow)
    → NumberedAfter earlier rows
    → MaxIs
        (count_where (of_memory id) earlier)
        (count_where (of_memory id) rows)
        (max_version id rows)
max_of_numbered id earlier [] h = inl (refl, refl)
max_of_numbered id earlier (v ∷ vs) h = elim (Bool-cases (of_memory id v)) [
  | inl same ↦ rw same (
      first_max (count_where (of_memory id) earlier) (count_where (of_memory id) vs)
        v.version_number (max_version id vs)
        (subst (λ (n : ℕ). MaxIs n (count_where (of_memory id) vs) (max_version id vs))
          (count_snoc_hit (of_memory id) earlier v same)
          (max_of_numbered id (earlier ++ (v ∷ [])) vs h.1))
        (subst (λ (n : ℕ). v.version_number ≡ count_where (of_memory n) earlier + 1) (ground arith)
          h.0))
  | inr other ↦ rw other (
      subst (λ (n : ℕ). MaxIs n (count_where (of_memory id) vs) (max_version id vs))
        (count_snoc_miss (of_memory id) earlier v other)
        (max_of_numbered id (earlier ++ (v ∷ [])) vs h.1))
]

-- The largest number is how many versions there are.
pub max_version-IsNumbered :
    (id : Uuid) (rows : List VersionRow)
    → IsNumbered rows
    → max_version id rows ≡ count_where (of_memory id) rows
max_version-IsNumbered id rows h = elim (max_of_numbered id [] rows h) [
  | inl (no_more, nothing) ↦ omega arith
  | inr (more, last) ↦ omega arith
]

-- A successful append keeps the versions of each memory numbered one, two, three and so on.
pub append_memory-IsNumbered :
    (api : PathApi) (memory : MemoryRecord) (before after : Ledger)
    → append_memory api memory before ≡ ok after
    → IsNumbered before.memory_versions
    → IsNumbered after.memory_versions
append_memory-IsNumbered api memory before after done h =
    elim (append_memory-cases api memory before done) [
      | inl same ↦ subst (λ (l : Ledger). IsNumbered l.memory_versions) (sym same) h
      | inr (project_id, (from, to, at, same, _, _, _, _, _)) ↦ subst IsNumbered (sym same) (
          snoc-NumberedAfter [] before.memory_versions
            (version_row memory (max_version memory.id before.memory_versions + 1) from to at) h
            (omega (arith, max_version-IsNumbered memory.id before.memory_versions h)))
    ]
