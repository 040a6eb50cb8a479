-- ===== src/Jobs/Overview.antt =====
-- The reads of crates/brain-store/src/jobs.rs: the queue at a glance.
use agent_knowledge_base_cod.Common.{
  ℕ, ◌+◌, ◌≡◌, refl, ◌⊎◌, inl, inr, Bool, true, false, Option, none, some, List, [], ◌∷◌, arith,
  Text, Result, ok, ◌>>=◌, leb, ltb, ◌==◌, ◌&&◌, ◌||◌, if◌then◌else◌, count_where, filter, sort_by,
  take, i64_max,
}
use agent_knowledge_base_cod.Jobs.Model.{
  Uuid, JobRow, JobStatus, pending, leased, completed, dead_letter, EventLedger, JobError,
  ConsolidationJob, ConsolidationQueue, is_pending, is_leased, is_completed, is_dead_letter,
}
use agent_knowledge_base_cod.Jobs.Queue.{parse_job_record, first_row}

abbrev pub of_project : Uuid → JobRow → Bool
of_project project row = row.project_id == project

-- `WHERE project_id = ?1 AND status = ?2`
abbrev pub in_status : (JobStatus → Bool) → Uuid → JobRow → Bool
in_status is_status project row = row.project_id == project && is_status row.status

-- `ORDER BY created_at_ns DESC`
abbrev pub is_newer : JobRow → JobRow → Bool
is_newer a b = ltb b.created_at_ns a.created_at_ns

abbrev pub error_of : Option JobRow → Option Text
error_of none = none
error_of (some row) = row.last_error

unfoldable pub consolidation_queue : EventLedger → ConsolidationQueue
consolidation_queue ledger = record {
  pending_jobs = count_where (in_status is_pending ledger.project_scope) ledger.jobs;
  leased_jobs = count_where (in_status is_leased ledger.project_scope) ledger.jobs;
  completed_jobs = count_where (in_status is_completed ledger.project_scope) ledger.jobs;
  dead_letters = count_where (in_status is_dead_letter ledger.project_scope) ledger.jobs;
  last_dead_letter = error_of (
      first_row
        (sort_by is_newer (filter (in_status is_dead_letter ledger.project_scope) ledger.jobs)));
}

unfoldable pub is_draining : ConsolidationQueue → Bool
is_draining queue = ltb 0 queue.pending_jobs || ltb 0 queue.leased_jobs

unfoldable pub consolidation_job_count : EventLedger → ℕ
consolidation_job_count ledger = count_where (of_project ledger.project_scope) ledger.jobs

-- `.map(parse_job_record).collect()`
abbrev pub parse_all : List JobRow → Result JobError (List ConsolidationJob)
parse_all [] = ok []
parse_all (row ∷ rows) = do job ← parse_job_record row; jobs ← parse_all rows; ok (job ∷ jobs)

unfoldable pub consolidation_jobs_with_status :
    (JobStatus → Bool) → ℕ → EventLedger → Result JobError (List ConsolidationJob)
consolidation_jobs_with_status is_status limit ledger = parse_all (
    take (if leb limit i64_max then limit else i64_max)
      (sort_by is_newer (filter (in_status is_status ledger.project_scope) ledger.jobs)))

-- A job has one of the four statuses.
abbrev IsOne : JobStatus → (Bool × Bool × Bool × Bool) → Type 0
IsOne status (a, b, c, d) =
    (is_pending status ≡ a)
    × (is_leased status ≡ b)
    × (is_completed status ≡ c)
    × (is_dead_letter status ≡ d)

status-cases :
    (status : JobStatus)
    → IsOne status (true, false, false, false)
      ⊎ IsOne status (false, true, false, false)
      ⊎ IsOne status (false, false, true, false)
      ⊎ IsOne status (false, false, false, true)
status-cases pending = inl (refl, refl, refl, refl)
status-cases leased = inr (inl (refl, refl, refl, refl))
status-cases completed = inr (inr (inl (refl, refl, refl, refl)))
status-cases dead_letter = inr (inr (inr (refl, refl, refl, refl)))

statuses-count :
    (project : Uuid) (rows : List JobRow)
    → count_where (in_status is_pending project) rows
        + count_where (in_status is_leased project) rows
        + count_where (in_status is_completed project) rows
        + count_where (in_status is_dead_letter project) rows
      ≡ count_where (of_project project) rows
statuses-count project [] = refl
statuses-count project (row ∷ rows) =
    ground (arith, status-cases row.status, statuses-count project rows)

-- The four numbers of the overview add up to the number of the project's jobs.
queue-count :
    (ledger : EventLedger)
    → (consolidation_queue ledger).pending_jobs
        + (consolidation_queue ledger).leased_jobs
        + (consolidation_queue ledger).completed_jobs
        + (consolidation_queue ledger).dead_letters
      ≡ consolidation_job_count ledger
unfolding consolidation_queue consolidation_job_count
queue-count ledger = statuses-count ledger.project_scope ledger.jobs
