-- ===== src/Memory.antt =====
-- The tables that hold a project's memories (crates/brain-store/src/migrations.rs), the errors of the
-- functions on them, and the queries that they share. Ids are compared as numbers, which is the
-- order of their hyphenated texts.
pub mod Append
pub mod Reads
pub mod Forget
pub mod Eviction
pub mod Replay
pub mod Versions
pub mod Standing
pub mod Retiring
pub mod Retired
mod Tests
use agent_knowledge_base_cod.Common.{
  ℕ, ◌==◌, ◌&&◌, Bool, Option, none, some, List, [], ◌∷◌, map, Text, codes, text_eq, Time,
  TimeError, Result, ok, err, find?, filter, any, sort_by, ltb, leb, if◌then◌else◌,
}
use agent_knowledge_base_cod.Domain.Memory.{Uuid}

-- The columns of an event that memories read.
pub record EventRow : Type 0 where
  pub event_id : Uuid
  pub project_id : Uuid

pub record MemoryRow : Type 0 where
  pub memory_id : Uuid
  pub project_id : Uuid
  pub kind : Text
  pub projection_path : Text
  pub created_at_ns : Time

pub record VersionRow : Type 0 where
  pub version_id : Uuid
  pub memory_id : Uuid
  pub version_number : ℕ
  pub worktree_id : Option Uuid
  pub task_id : Option Uuid
  pub title : Text
  pub content : Text
  pub valid_from_ns : Time
  pub valid_to_ns : Option Time
  pub recorded_at_ns : Time
  pub confidence : ℕ
  pub authority : Text
  pub status : Text

-- A row of `memory_evidence` or of `memory_supersession`.
pub record Edge : Type 0 where
  pub version_id : Uuid
  pub other : Uuid

pub record Tombstone : Type 0 where
  pub memory_id : Uuid
  pub project_id : Uuid
  pub reason : Text
  pub redacted_by : Text
  pub redacted_at_ns : Time

pub record AccessRow : Type 0 where
  pub memory_id : Uuid
  pub project_id : Uuid
  pub retrieved_count : ℕ
  pub last_retrieved_at_ns : Time

pub record Ledger : Type 0 where
  pub project_scope : Uuid
  pub events : List EventRow
  pub memory_records : List MemoryRow
  pub memory_versions : List VersionRow
  pub memory_evidence : List Edge
  pub memory_supersession : List Edge
  pub memory_tombstones : List Tombstone
  pub memory_access : List AccessRow
  pub access_epoch : Time
  -- The queries whose results are cached.
  pub search_cache : List Text

pub data MemoryError : Type 0 where
  title_empty content_empty title_long content_long confidence_range interval_empty : MemoryError
  global_scope wrong_project version_collision no_evidence identity_changed constraint : MemoryError
  foreign_evidence superseded_missing : Uuid → MemoryError
  stored_kind stored_authority stored_status : MemoryError
  no_reason memory_missing tombstone_vanished : MemoryError
  -- The days that were counted, and those that remain.
  too_young : ℕ → ℕ → MemoryError
  time : TimeError → MemoryError

abbrev pub lift_time {ℓ} : {A : Type ℓ} → Result TimeError A → Result MemoryError A
lift_time (ok a) = ok a
lift_time (err e) = err (time e)

abbrev pub named {ℓ} : {A : Type ℓ} → Option A → MemoryError → Result MemoryError A
named (some a) e = ok a
named none e = err e

abbrev pub has_memory : Uuid → MemoryRow → Bool
has_memory id row = row.memory_id == id

abbrev pub has_version : Uuid → VersionRow → Bool
has_version version_id row = row.version_id == version_id

abbrev pub of_memory : Uuid → VersionRow → Bool
of_memory id row = row.memory_id == id

-- `COALESCE(MAX(version_number), 0)` of a memory
abbrev pub max_version : Uuid → List VersionRow → ℕ
max_version id [] = 0
max_version id (v ∷ vs) =
    let later = max_version id vs in
    if of_memory id v
    then (if leb later v.version_number then v.version_number else later)
    else later

-- `memory_versions v JOIN memory_records r ON r.memory_id = v.memory_id`
abbrev pub pair_with :
    VersionRow → Option MemoryRow → List (VersionRow × MemoryRow) → List (VersionRow × MemoryRow)
pair_with v none rest = rest
pair_with v (some r) rest = (v, r) ∷ rest

abbrev pub join_rows : List MemoryRow → List VersionRow → List (VersionRow × MemoryRow)
join_rows records [] = []
join_rows records (v ∷ vs) =
    pair_with v (find? (has_memory v.memory_id) records) (join_rows records vs)

abbrev pub joined : Ledger → List (VersionRow × MemoryRow)
joined ledger = join_rows ledger.memory_records ledger.memory_versions

abbrev pub in_scope : Ledger → VersionRow × MemoryRow → Bool
in_scope ledger (v, r) = r.project_id == ledger.project_scope

abbrev pub is_latest : Ledger → VersionRow × MemoryRow → Bool
is_latest ledger (v, r) = v.version_number == max_version v.memory_id ledger.memory_versions

-- `CURRENT_CLAIM`
abbrev pub is_current_claim : Ledger → VersionRow × MemoryRow → Bool
is_current_claim ledger (v, r) = text_eq v.status (codes "current") && is_latest ledger (v, r)

-- `SELECT other … WHERE version_id = ?1 ORDER BY other`
abbrev pub load_ids : Uuid → List Edge → List Uuid
load_ids version_id edges =
    sort_by ltb
      (map (λ (e : Edge). e.other) (filter (λ (e : Edge). e.version_id == version_id) edges))

-- `EXISTS (SELECT 1 FROM memory_supersession s WHERE s.superseded_version_id = …)`
abbrev pub is_superseded : Ledger → Uuid → Bool
is_superseded ledger version_id =
    any (λ (e : Edge). e.other == version_id) ledger.memory_supersession

-- A row of `memory_tombstones` for the memory, of any project.
abbrev pub has_tombstone : Ledger → Uuid → Bool
has_tombstone ledger id = any (λ (t : Tombstone). t.memory_id == id) ledger.memory_tombstones

-- `tombstoned_ids().contains`
abbrev pub is_withdrawn : Ledger → Uuid → Bool
is_withdrawn ledger id =
    any (λ (t : Tombstone). t.memory_id == id && t.project_id == ledger.project_scope)
      ledger.memory_tombstones

-- `EXISTS (SELECT 1 FROM memory_access a WHERE a.memory_id = …)`
abbrev pub has_access : Ledger → Uuid → Bool
has_access ledger id = any (λ (a : AccessRow). a.memory_id == id) ledger.memory_access

-- What a function returns, and the ledger that it leaves.
abbrev pub Outcome : Type 0 → Type 0
Outcome A = Result MemoryError A × Ledger
