-- ===== src/Memory/Retired.antt =====
-- What `apply_eviction` of crates/brain-store/src/evict.rs retires once its gate is open.
mod Withdrawals
pub use Withdrawals.*
use agent_knowledge_base_cod.Common.{
  ℕ, ◌+◌, ◌≤◌, le→leb, ◌==◌, ◌≡◌, bind-eq-ok, ok-injective, refl, sym, ap, subst, ◌∙◌, arith, not,
  true, Option, none, some, List, [], ◌∷◌, map, length, Text, Time, InRange, ok, find?, All,
  All-sort_by, All-filter, filter, filter-All, sub_time, timestamp_ns,
}
use agent_knowledge_base_cod.Memory.{
  MemoryRow, VersionRow, Ledger, lift_time, has_memory, pair_with, join_rows, joined, is_withdrawn,
  Outcome,
}
use agent_knowledge_base_cod.Memory.Forget.{in_project}
use agent_knowledge_base_cod.Memory.Eviction.{
  opened, EvictionCandidate, EvictionPlan, minimum_observation, quiet_for, gate_at, is_human,
  is_stale, stale_rows, candidate_of, plan_eviction, apply_plan, apply_planned, apply_eviction,
  oldest,
}
use agent_knowledge_base_cod.Memory.Retiring.{All-map-filter}

All-both_imp :
    {A : Type 0} (P Q R : A → Type 0) (xs : List A)
    → ((x : A) → P x → Q x → R x)
    → All P xs
    → All Q xs
    → All R xs
All-both_imp P Q R [] sub hp hq = tt
All-both_imp P Q R (x ∷ xs) sub hp hq = (sub x hp.0 hq.0, All-both_imp P Q R xs sub hp.1 hq.1)

join-find? :
    (records : List MemoryRow) (rows : List VersionRow)
    → All
        (λ (row : VersionRow × MemoryRow). find? (has_memory row.0.memory_id) records ≡ some row.1)
        (join_rows records rows)
join-find? records [] = tt
join-find? records (v ∷ rows) =
    paired (find? (has_memory v.memory_id) records) refl (join-find? records rows)
  where
    paired :
        (found : Option MemoryRow)
        → find? (has_memory v.memory_id) records ≡ found
        → All
            (λ (row : VersionRow × MemoryRow).
              find? (has_memory row.0.memory_id) records ≡ some row.1)
            (join_rows records rows)
        → All
            (λ (row : VersionRow × MemoryRow).
              find? (has_memory row.0.memory_id) records ≡ some row.1)
            (pair_with v found (join_rows records rows))
    paired none e rest = rest
    paired (some r) e rest = (e, rest)

module _ (show : ℕ → Text) (now cutoff : Time) (ledger : Ledger) where
  abbrev IsJoined : VersionRow × MemoryRow → Type 0
  IsJoined row = find? (has_memory row.0.memory_id) ledger.memory_records ≡ some row.1

  stale_in_project :
      (row : VersionRow × MemoryRow)
      → IsJoined row
      → is_stale cutoff ledger row ≡ true
      → in_project ledger row.0.memory_id ≡ true
  stale_in_project row found stale =
      any_found (has_memory row.0.memory_id)
        (λ (r : MemoryRow). r.project_id == ledger.project_scope) ledger.memory_records {x = row.1}
        found (ground arith)

  abbrev candidates : List EvictionCandidate
  candidates =
      map (candidate_of show now)
        (filter (λ (row : VersionRow × MemoryRow). not (is_human row)) (stale_rows cutoff ledger))

  abbrev ReadyRow : VersionRow × MemoryRow → Type 0
  ReadyRow row = not (is_human row) ≡ true → IsReady ledger (candidate_of show now row)

  candidates-IsReady : All (IsReady ledger) (
      map
        (candidate_of show now)
        (filter (λ (row : VersionRow × MemoryRow). not (is_human row)) (stale_rows cutoff ledger)))
  candidates-IsReady =
      All-map-filter (λ (row : VersionRow × MemoryRow). not (is_human row)) (candidate_of show now)
        (IsReady ledger) (stale_rows cutoff ledger)
        (All-sort_by ReadyRow oldest (filter (is_stale cutoff ledger) (joined ledger)) (
          All-both_imp IsJoined
            (λ (row : VersionRow × MemoryRow). is_stale cutoff ledger row ≡ true) ReadyRow
            (filter (is_stale cutoff ledger) (joined ledger))
            (λ row found stale _. (stale_in_project row found stale, reason_of-not_blank show _))
            (All-filter IsJoined (is_stale cutoff ledger) (joined ledger)
              (join-find? ledger.memory_records ledger.memory_versions))
            (filter-All (is_stale cutoff ledger) (joined ledger))))

plan-IsReady :
    (show : ℕ → Text) (now : Time) (ledger : Ledger) {plan : EvictionPlan}
    → plan_eviction show now ledger ≡ ok plan
    → (plan.gate ≡ gate_at ledger.access_epoch now) × All (IsReady ledger) plan.candidates
unfolding plan_eviction
plan-IsReady show now ledger planned =
    let (start, _, a) = bind-eq-ok (lift_time (sub_time now quiet_for)) _ planned in
    let (cutoff, _, b) = bind-eq-ok (lift_time (timestamp_ns start)) _ a in
    subst
      (λ (p : EvictionPlan).
        (p.gate ≡ gate_at ledger.access_epoch now) × All (IsReady ledger) p.candidates)
      (ok-injective b) (refl, candidates-IsReady show now cutoff ledger)

gate_opens : (epoch now : Time) → epoch + minimum_observation ≤ now → gate_at epoch now ≡ opened
gate_opens epoch now old = rw (le→leb (epoch + minimum_observation) now old) refl

-- Once access was counted for thirty days, eviction withdraws each candidate of its plan and gives
-- their number, where a column holds the instant and the withdrawals there are of the ledger's own
-- project.
pub apply_eviction-retires :
    (show : ℕ → Text) (now : Time) (by : Text) (ledger : Ledger) (plan : EvictionPlan)
    → plan_eviction show now ledger ≡ ok plan
    → ledger.access_epoch + minimum_observation ≤ now
    → InRange now
    → IsOwn ledger
    → ((apply_eviction show now by ledger).0 ≡ ok (length plan.candidates))
      × All
          (λ (c : EvictionCandidate).
            is_withdrawn (apply_eviction show now by ledger).1 c.memory_id ≡ true)
          plan.candidates
unfolding apply_eviction
apply_eviction-retires show now by ledger plan planned old ranged own =
    let (gate, ready) = plan-IsReady show now ledger planned in
    let (counted, _, all_withdrawn) =
      retire_all-AllRetired by now ranged plan.candidates 0 ledger own ready in
    subst
      (λ (result : Outcome ℕ).
        (result.0 ≡ ok (length plan.candidates))
        × All (λ (c : EvictionCandidate). is_withdrawn result.1 c.memory_id ≡ true) plan.candidates)
      (sym (
        ap (apply_planned now by ledger) planned
        ∙ ap (apply_plan now by ledger plan) (gate ∙ gate_opens ledger.access_epoch now old)))
      (counted ∙ ap ok (omega arith), all_withdrawn)
