-- ===== src/Memory/Eviction.antt =====
-- Counting what retrieval returns, in crates/brain-store/src/access.rs, and retiring what it never
-- returned, in crates/brain-store/src/evict.rs. `show` is the decimal form that `format!` writes.
use agent_knowledge_base_cod.Common.{
  ℕ, ◌+◌, ◌-◌, ◌*◌, ◌/◌, ◌==◌, ◌&&◌, ◌>>=◌, not, Bool, List, [], ◌∷◌, ◌++◌, map, Text, codes,
  text_eq, Time, ns_per_day, sub_time, timestamp_ns, Result, ok, err, any, filter, sort_by,
  count_where, update_where, is_nil, ltb, leb, if◌then◌else◌,
}
use agent_knowledge_base_cod.Domain.Memory.{Uuid, human_correction, authority_as_str}
use agent_knowledge_base_cod.Memory.{
  MemoryRow, VersionRow, AccessRow, Ledger, MemoryError, lift_time, joined, in_scope,
  is_current_claim, has_tombstone, has_access, Outcome, too_young,
}
use agent_knowledge_base_cod.Memory.Forget.{forget_memory}

-- `INSERT … ON CONFLICT(memory_id) DO UPDATE`
abbrev pub touched : Time → AccessRow → AccessRow
touched at row = record row { retrieved_count = row.retrieved_count + 1; last_retrieved_at_ns = at }

abbrev pub upsert_access : Uuid → Time → Uuid → List AccessRow → List AccessRow
upsert_access project_id at id rows =
    if any (λ (a : AccessRow). a.memory_id == id) rows
    then update_where (λ (a : AccessRow). a.memory_id == id) (touched at) rows
    else rows
      ++ (record {
        memory_id = id;
        project_id = project_id;
        retrieved_count = 1;
        last_retrieved_at_ns = at;
      }
          ∷ [])

abbrev pub upsert_all : Uuid → Time → List Uuid → List AccessRow → List AccessRow
upsert_all project_id at [] rows = rows
upsert_all project_id at (id ∷ ids) rows =
    upsert_all project_id at ids (upsert_access project_id at id rows)

abbrev pub with_access : List AccessRow → Ledger → Ledger
with_access rows ledger = record ledger { memory_access = rows }

unfoldable pub record_memory_access : List Uuid → Time → Ledger → Result MemoryError Ledger
record_memory_access ids now ledger = if is_nil ids then ok ledger else (do
  at ← lift_time (timestamp_ns now)
  ok (with_access (upsert_all ledger.project_scope at ids ledger.memory_access) ledger))

-- A current claim of the project that is not withdrawn.
abbrev pub is_live : Ledger → VersionRow × MemoryRow → Bool
is_live ledger row =
    in_scope ledger row && is_current_claim ledger row && not (has_tombstone ledger row.0.memory_id)

unfoldable pub never_retrieved_memory_count : Ledger → ℕ
never_retrieved_memory_count ledger =
    count_where
      (λ (row : VersionRow × MemoryRow).
        is_live ledger row && not (has_access ledger row.0.memory_id))
      (joined ledger)

-- Current claims from before the cutoff that nothing has retrieved.
abbrev pub is_stale : Time → Ledger → VersionRow × MemoryRow → Bool
is_stale cutoff ledger row =
    is_live ledger row && ltb row.0.valid_from_ns cutoff && not (has_access ledger row.0.memory_id)

unfoldable pub stale_memory_ids : Time → ℕ → Ledger → Result MemoryError (List Uuid)
stale_memory_ids now quiet_for ledger = do
  start ← lift_time (sub_time now quiet_for)
  cutoff ← lift_time (timestamp_ns start)
  ok (
      map (λ (row : VersionRow × MemoryRow). row.0.memory_id)
        (filter (is_stale cutoff ledger) (joined ledger)))

abbrev pub minimum_observation : ℕ
minimum_observation = 30 * ns_per_day

abbrev pub quiet_for : ℕ
quiet_for = 90 * ns_per_day

pub data EvictionGate : Type 0 where
  opened : EvictionGate
  -- The days that remain.
  young : ℕ → EvictionGate

pub record EvictionCandidate : Type 0 where
  pub memory_id : Uuid
  pub title : Text
  pub valid_from : Time
  pub age_days : ℕ
  pub reason : Text

pub record EvictionPlan : Type 0 where
  pub observed_days : ℕ
  pub gate : EvictionGate
  pub candidates : List EvictionCandidate
  pub protected : ℕ
  pub total_current : ℕ

abbrev at_least_one : ℕ → ℕ
at_least_one n = if leb 1 n then n else 1

abbrev pub gate_at : Time → Time → EvictionGate
gate_at epoch now =
    if leb (epoch + minimum_observation) now
    then opened
    else young (at_least_one ((epoch + minimum_observation - now) / ns_per_day))

abbrev pub is_human : VersionRow × MemoryRow → Bool
is_human row = text_eq row.0.authority (authority_as_str human_correction)

abbrev pub oldest : VersionRow × MemoryRow → VersionRow × MemoryRow → Bool
oldest (v, r) (w, s) = ltb v.valid_from_ns w.valid_from_ns

-- The rows of the query.
abbrev pub stale_rows : Time → Ledger → List (VersionRow × MemoryRow)
stale_rows cutoff ledger = sort_by oldest (filter (is_stale cutoff ledger) (joined ledger))

module _ (show : ℕ → Text) where
  abbrev pub reason_of : ℕ → Text
  reason_of age_days = codes "never retrieved in " ++ show age_days ++ codes " days"

  abbrev pub candidate_of : Time → VersionRow × MemoryRow → EvictionCandidate
  candidate_of now (v, r) = record {
    memory_id = v.memory_id;
    title = v.title;
    valid_from = v.valid_from_ns;
    age_days = (now - v.valid_from_ns) / ns_per_day;
    reason = reason_of ((now - v.valid_from_ns) / ns_per_day);
  }

  unfoldable pub plan_eviction : Time → Ledger → Result MemoryError EvictionPlan
  plan_eviction now ledger = do
    start ← lift_time (sub_time now quiet_for)
    cutoff ← lift_time (timestamp_ns start)
    ok (record {
      observed_days = (now - ledger.access_epoch) / ns_per_day;
      gate = gate_at ledger.access_epoch now;
      candidates = map (candidate_of now) (
          filter (λ (row : VersionRow × MemoryRow). not (is_human row)) (stale_rows cutoff ledger));
      protected = count_where is_human (stale_rows cutoff ledger);
      total_current = count_where (is_live ledger) (joined ledger);
    })

-- The loop of `apply_eviction`: what was forgotten before an error stays forgotten.
abbrev pub after_forget {ℓ} :
    {A : Type ℓ} → Result MemoryError A × Ledger → (Ledger → Outcome ℕ) → Outcome ℕ
after_forget (err e, ledger) next = (err e, ledger)
after_forget (ok t, ledger) next = next ledger

abbrev pub retire_all : Time → Text → List EvictionCandidate → ℕ → Ledger → Outcome ℕ
retire_all now evicted_by [] retired ledger = (ok retired, ledger)
retire_all now evicted_by (c ∷ cs) retired ledger =
    after_forget (forget_memory c.memory_id c.reason evicted_by now ledger)
      (retire_all now evicted_by cs (retired + 1))

abbrev pub apply_plan : Time → Text → Ledger → EvictionPlan → EvictionGate → Outcome ℕ
apply_plan now evicted_by ledger plan opened = retire_all now evicted_by plan.candidates 0 ledger
apply_plan now evicted_by ledger plan (young days_remaining) =
    (err (too_young plan.observed_days days_remaining), ledger)

abbrev pub apply_planned : Time → Text → Ledger → Result MemoryError EvictionPlan → Outcome ℕ
apply_planned now evicted_by ledger (err e) = (err e, ledger)
apply_planned now evicted_by ledger (ok plan) = apply_plan now evicted_by ledger plan plan.gate

-- It plans again.
unfoldable pub apply_eviction : (ℕ → Text) → Time → Text → Ledger → Outcome ℕ
apply_eviction show now evicted_by ledger =
    apply_planned now evicted_by ledger (plan_eviction show now ledger)
