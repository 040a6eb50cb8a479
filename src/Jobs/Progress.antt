-- ===== src/Jobs/Progress.antt =====
-- `lease_consolidation_job` of crates/brain-store/src/jobs.rs finds a job where there is one.
use agent_knowledge_base_cod.Common.{
  ◌≡◌, ◌<◌, refl, ap, ◌∙◌, inl, inr, true, false, Option, some, arith, any, All, All-find?, Result,
  ok, Text, Time, Duration, Option-cases, is_blank, is_positive, InRange, add_time,
  timestamp_ns_fits, le→leb, leb,
}
use agent_knowledge_base_cod.Jobs.Model.{JobRow, EventLedger, ConsolidationJob, JobError}
use agent_knowledge_base_cod.Jobs.Queue.{
  then_run, u32_max, has_id, leased_row, pick_job, next_job, commit_lease, lease_consolidation_job,
  is_eligible, job_of_row, parse_job_record,
}
use agent_knowledge_base_cod.Jobs.Picking.{next_job-Picked, next_job-none}
use agent_knowledge_base_cod.Jobs.Validity.{LedgerIsValid}

parse-ok :
    (row : JobRow)
    → leb row.attempt u32_max ≡ true
    → (job : ConsolidationJob) × (parse_job_record row ≡ ok job)
unfolding parse_job_record
parse-ok row h = (job_of_row row, rw h refl)

module _ (worker : Text) (now : Time) (duration : Duration) (ledger : EventLedger)
    (valid : LedgerIsValid ledger) {end : Time} (named : is_blank worker ≡ false)
    (positive : is_positive duration ≡ true) (now_fits : InRange now)
    (is_end : add_time now duration ≡ ok end) (end_fits : InRange end)
    (few : All (λ r. r.attempt < u32_max) ledger.jobs) where
  pick_job-ok :
      {row : JobRow}
      → next_job now ledger ≡ some row
      → pick_job worker now duration ledger ≡ ok (some (row, end))
  unfolding pick_job
  pick_job-ok {row} next =
      rw
        (
          named,
          positive,
          timestamp_ns_fits now now_fits,
          next,
          is_end,
          timestamp_ns_fits end end_fits,
        )
        refl

  commit-ok :
      (row : JobRow)
      → row.attempt < u32_max
      → (job : ConsolidationJob) × ((commit_lease worker ledger (some (row, end))).0
          ≡ ok (some job))
  commit-ok row small =
      let (job, read) = parse-ok (leased_row worker end row) (le→leb _ _ (omega (arith, small))) in
      (job, rw read refl)

  -- Where the arguments are proper, the instants fit their columns and no attempt is at the end of
  -- its type, a job is leased as soon as one is due or has a lease that is over.
  pub lease-finds :
      any (is_eligible ledger.project_scope now) ledger.jobs ≡ true
      → (job : ConsolidationJob) × ((lease_consolidation_job worker now duration ledger).0
          ≡ ok (some job))
  unfolding lease_consolidation_job
  lease-finds due = elim (Option-cases (next_job now ledger)) [
    | inl nothing ↦ cc (next_job-none now ledger nothing, due)
    | inr (row, next) ↦
        let (_, found, _) = next_job-Picked now ledger valid.0 next in
        let (job, read) =
          commit-ok row
            (All-find? (λ r. r.attempt < u32_max) (has_id row.job_id) ledger.jobs few found) in
        (
          job,
          ap
                (λ (r : Result JobError (Option (JobRow × Time))).
                  (then_run ledger r (commit_lease worker ledger)).0)
                (pick_job-ok next)
              ∙ read,
        )
  ]
