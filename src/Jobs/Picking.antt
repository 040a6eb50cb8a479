-- ===== src/Jobs/Picking.antt =====
-- Which job `lease_consolidation_job` of crates/brain-store/src/jobs.rs takes.
use agent_knowledge_base_cod.Common.{
  ◌≡◌, refl, subst, inl, inr, Bool, true, false, Bool-cases, none, some, List, [], ◌∷◌, arith, ◌==◌,
  ==_self, ==_iff, find?-none, sym, any, find?, filter, sort_by, insert_by, All, All-filter,
  All-sort_by, filter-All, Distinct, if◌then◌else◌, Option-cases, Time,
}
use mathlib.Core.Option.{some-injective}
use agent_knowledge_base_cod.Jobs.Model.{JobRow, EventLedger}
use agent_knowledge_base_cod.Jobs.Queue.{is_eligible, comes_first, first_row, next_job, has_id}

first_row-All :
    (P : JobRow → Type 0) (rows : List JobRow) {row : JobRow}
    → All P rows
    → first_row rows ≡ some row
    → P row
first_row-All P [] h e = cc
first_row-All P (r ∷ rows) {row} h e = subst P (some-injective r row e) h.0

All-weaken :
    (P Q : JobRow → Type 0) (rows : List JobRow)
    → ((r : JobRow) → P r → Q r)
    → All P rows
    → All Q rows
All-weaken P Q [] weaker h = tt
All-weaken P Q (r ∷ rows) weaker h = (weaker r h.0, All-weaken P Q rows weaker h.1)

find?-behind :
    (r x : JobRow) (rows : List JobRow)
    → any (has_id r.job_id) rows ≡ false
    → find? (has_id x.job_id) rows ≡ some x
    → find? (has_id x.job_id) (r ∷ rows) ≡ some x
find?-behind r x rows fresh found = elim (Bool-cases (r.job_id == x.job_id)) [
  | inl same ↦ cc (
    found,
    find?-none (has_id x.job_id) (has_id x.job_id) rows (λ y e. e)
        (subst (λ n. any (has_id n) rows ≡ false) ((==_iff r.job_id x.job_id).0 same) fresh),
  )
  | inr other ↦ rw other found
]

-- A row is found by its id.
pub Distinct-find? :
    (rows : List JobRow)
    → Distinct (λ r. r.job_id) rows
    → All (λ r. find? (has_id r.job_id) rows ≡ some r) rows
Distinct-find? [] d = tt
Distinct-find? (r ∷ rows) d = (
  rw (==_self r.job_id) refl,
  All-weaken _ _ rows (λ x. find?-behind r x rows d.0) (Distinct-find? rows d.1),
)

comes_first_trans :
    (a b c : JobRow) → comes_first a b ≡ false → comes_first b c ≡ false → comes_first a c ≡ false
comes_first_trans a b c h k = ground arith

first-insert :
    (row : JobRow) (rows : List JobRow)
    → first_row (insert_by comes_first row rows) ≡ elim (first_row rows) [
      | none ↦ some row
      | some r ↦ if comes_first r row then some r else some row
    ]
first-insert row [] = refl
first-insert row (r ∷ rows) = ground arith

first-sort : (rows : List JobRow) → first_row (sort_by comes_first rows) ≡ none → rows ≡ []
first-sort [] h = refl
first-sort (r ∷ rows) h = ground (arith, first-insert r (sort_by comes_first rows))

comes_first_self : (r : JobRow) → comes_first r r ≡ false
comes_first_self r = ground arith

comes_first_asym : (a b : JobRow) → comes_first a b ≡ true → comes_first b a ≡ false
comes_first_asym a b h = ground arith

-- No row comes before the first of the sorted rows.
first-least :
    (rows : List JobRow) {row : JobRow}
    → first_row (sort_by comes_first rows) ≡ some row
    → All (λ r. comes_first r row ≡ false) rows
first-least [] h = tt
first-least (r ∷ rows) {row} h = elim (Option-cases (first_row (sort_by comes_first rows))) [
  | inl empty ↦
      subst (λ rs. All (λ x. comes_first x row ≡ false) (r ∷ rs)) (sym (first-sort rows empty))
        (
          subst (λ x. comes_first r x ≡ false)
              (some-injective r row (rw (first-insert r (sort_by comes_first rows), empty) at h))
              (comes_first_self r),
          tt,
        )
  | inr (least, is) ↦ elim (Bool-cases (comes_first least r)) [
    | inl before ↦
        subst (λ x. All (λ y. comes_first y x ≡ false) (r ∷ rows))
          (some-injective least row
            (rw (first-insert r (sort_by comes_first rows), is, before) at h))
          (comes_first_asym least r before, first-least rows is)
    | inr not_before ↦
        subst (λ x. All (λ y. comes_first y x ≡ false) (r ∷ rows))
          (some-injective r row
            (rw (first-insert r (sort_by comes_first rows), is, not_before) at h))
          (
            comes_first_self r,
            All-weaken _ _ rows (λ x k. comes_first_trans x least r k not_before)
                (first-least rows is),
          )
  ]
]

-- The job that is picked is eligible, stands in the table, and no eligible job comes before it.
abbrev pub Picked : Time → EventLedger → JobRow → Type 0
Picked now ledger row =
    (is_eligible ledger.project_scope now row ≡ true)
    × (find? (has_id row.job_id) ledger.jobs ≡ some row)
    × All (λ r. comes_first r row ≡ false)
        (filter (is_eligible ledger.project_scope now) ledger.jobs)

pub next_job-Picked :
    (now : Time) (ledger : EventLedger) {row : JobRow}
    → Distinct (λ r. r.job_id) ledger.jobs
    → next_job now ledger ≡ some row
    → Picked now ledger row
unfolding next_job
next_job-Picked now ledger {row} d h =
    let eligible = is_eligible ledger.project_scope now in
    let rows = filter eligible ledger.jobs in
    (
      first_row-All (λ r. eligible r ≡ true) (sort_by comes_first rows)
          (All-sort_by _ comes_first rows (filter-All eligible ledger.jobs)) h,
      first_row-All (λ r. find? (has_id r.job_id) ledger.jobs ≡ some r) (sort_by comes_first rows)
          (All-sort_by _ comes_first rows
            (All-filter _ eligible ledger.jobs (Distinct-find? ledger.jobs d)))
          h,
      first-least rows h,
    )

filter-none : (p : JobRow → Bool) (rows : List JobRow) → filter p rows ≡ [] → any p rows ≡ false
filter-none p [] h = refl
filter-none p (r ∷ rows) h = ground (arith, filter-none p rows)

-- Where no job is picked, none is eligible.
pub next_job-none :
    (now : Time) (ledger : EventLedger)
    → next_job now ledger ≡ none
    → any (is_eligible ledger.project_scope now) ledger.jobs ≡ false
unfolding next_job
next_job-none now ledger h = filter-none _ ledger.jobs (first-sort _ h)
