-- ===== src/Jobs/Validity.antt =====
-- What holds of the table of crates/brain-store/src/jobs.rs after any calls.
use agent_knowledge_base_cod.Common.{
  ℕ, ◌≡◌, ◌≤◌, refl, inl, inr, Bool, true, false, Bool-cases, Option, none, some, arith,
  update_where, All, All-update_where, Distinct, Distinct-update, Result, ok, err, Text, Time,
  Duration, subst, bind-eq-ok, ensure-eq-ok, ok_or, ok-injective, seconds, ◌^◌, timestamp_ns, leb,
  add_time,
}
use agent_knowledge_base_cod.Jobs.Model.{
  Uuid, JobRow, JobStatus, EventLedger, is_leased, JobError, lift_time, job_missing,
  lease_not_owned,
}
use agent_knowledge_base_cod.Jobs.Queue.{
  Outcome, then_run, commit_lease, is_owned, consolidation_job, has_id, leased_row, pick_job,
  lease_consolidation_job, is_held, completed_row, complete_consolidation_job, failed_row,
  after_failure, failure, fail_consolidation_job, deferred_row, defer_consolidation_job,
  bounded_error, is_dead, revived_row, retry_dead_letter_jobs, set_jobs,
}

-- A leased job has an owner, an end and an attempt that counts it. No other job has a lease.
abbrev pub JobIsValid : JobRow → Type 0
JobIsValid row =
    (is_leased row.status ≡ true
      → ((worker : Text) × (row.lease_owner ≡ some worker))
        × ((until : Time) × (row.lease_until_ns ≡ some until))
        × (1 ≤ row.attempt))
    × (is_leased row.status ≡ false → (row.lease_owner ≡ none) × (row.lease_until_ns ≡ none))

abbrev pub LedgerIsValid : EventLedger → Type 0
LedgerIsValid ledger =
    Distinct (λ r. r.job_id) ledger.jobs
    × Distinct (λ r. r.idempotency_key) ledger.jobs
    × All JobIsValid ledger.jobs

set_jobs-LedgerIsValid :
    (p : JobRow → Bool) (f : JobRow → JobRow) (ledger : EventLedger)
    → ((r : JobRow) → (f r).job_id ≡ r.job_id)
    → ((r : JobRow) → (f r).idempotency_key ≡ r.idempotency_key)
    → ((r : JobRow) → JobIsValid (f r))
    → LedgerIsValid ledger
    → LedgerIsValid (set_jobs (update_where p f ledger.jobs) ledger)
set_jobs-LedgerIsValid p f ledger same_id same_key fits (ids, keys, rows) = (
  Distinct-update _ p f ledger.jobs same_id ids,
  Distinct-update _ p f ledger.jobs same_key keys,
  All-update_where JobIsValid p f ledger.jobs (λ r _ _. fits r) rows,
)

pub not_leased :
    (row : JobRow)
    → is_leased row.status ≡ false
    → row.lease_owner ≡ none
    → row.lease_until_ns ≡ none
    → JobIsValid row
not_leased row h o u = (λ e. cc (e, h), λ _. (o, u))

-- What the ledger before has and every ledger after has, the call's ledger has.
pub then_run-keep {ℓ κ} :
    {X : Type ℓ} {A : Type κ} (P : EventLedger → Type 0) (ledger : EventLedger)
    (r : Result JobError X) (next : X → Outcome A)
    → P ledger
    → ((x : X) → r ≡ ok x → P (next x).1)
    → P (then_run ledger r next).1
then_run-keep P ledger (err e) next h after = h
then_run-keep P ledger (ok x) next h after = after x refl

after_failure-not_leased :
    (attempt : ℕ) (now : Time) {next : JobStatus × Time}
    → after_failure attempt now ≡ ok next
    → is_leased next.0 ≡ false
unfolding after_failure
after_failure-not_leased attempt now {next} h = elim (Bool-cases (leb 5 attempt)) [
  | inl last ↦
      subst (λ (n : JobStatus × Time). is_leased n.0 ≡ false) (ok-injective (rw last at h)) refl
  | inr more ↦
      let (at, _, h1) =
        bind-eq-ok (lift_time (add_time now (seconds (2 ^ attempt)))) _ (rw more at h) in
      subst (λ (n : JobStatus × Time). is_leased n.0 ≡ false) (ok-injective h1) refl
]

module _ (ledger : EventLedger) (valid : LedgerIsValid ledger) where
  commit_lease-LedgerIsValid :
      (worker : Text) (picked : Option (JobRow × Time))
      → LedgerIsValid (commit_lease worker ledger picked).1
  commit_lease-LedgerIsValid worker none = valid
  commit_lease-LedgerIsValid worker (some (row, until)) =
      set_jobs-LedgerIsValid (has_id row.job_id) (leased_row worker until) ledger (λ r. refl)
        (λ r. refl) (λ r. (λ _. ((worker, refl), (until, refl), omega arith), λ e. cc e)) valid

  pub lease-LedgerIsValid :
      (worker : Text) (now : Time) (duration : Duration)
      → LedgerIsValid (lease_consolidation_job worker now duration ledger).1
  unfolding lease_consolidation_job
  lease-LedgerIsValid worker now duration =
      then_run-keep LedgerIsValid ledger (pick_job worker now duration ledger)
        (commit_lease worker ledger) valid (λ picked _. commit_lease-LedgerIsValid worker picked)

  pub complete-LedgerIsValid :
      (job_id : Uuid) (worker : Text) (now : Time)
      → LedgerIsValid (complete_consolidation_job job_id worker now ledger).1
  unfolding complete_consolidation_job
  complete-LedgerIsValid job_id worker now = then_run-keep LedgerIsValid ledger _ _ valid (λ at _.
      set_jobs-LedgerIsValid (is_held job_id worker) (completed_row at) ledger (λ r. refl)
        (λ r. refl) (λ r. not_leased (completed_row at r) refl refl refl) valid)

  pub defer-LedgerIsValid :
      (job_id : Uuid) (worker error : Text) (available : Time)
      → LedgerIsValid (defer_consolidation_job job_id worker error available ledger).1
  unfolding defer_consolidation_job
  defer-LedgerIsValid job_id worker error available =
      then_run-keep LedgerIsValid ledger _ _ valid (λ at _.
        set_jobs-LedgerIsValid (is_held job_id worker) (deferred_row at (bounded_error error))
          ledger (λ r. refl) (λ r. refl)
          (λ r. not_leased (deferred_row at (bounded_error error) r) refl refl refl) valid)

  pub retry-LedgerIsValid : (now : Time) → LedgerIsValid (retry_dead_letter_jobs now ledger).1
  unfolding retry_dead_letter_jobs
  retry-LedgerIsValid now = then_run-keep LedgerIsValid ledger _ _ valid (λ at _.
      set_jobs-LedgerIsValid (is_dead ledger.project_scope) (revived_row at) ledger (λ r. refl)
        (λ r. refl) (λ r. not_leased (revived_row at r) refl refl refl) valid)

  -- After a failure the job is not leased.
  failure-not_leased :
      (job_id : Uuid) (worker : Text) (now : Time) {next : JobStatus × Time}
      → failure job_id worker now ledger ≡ ok next
      → is_leased next.0 ≡ false
  unfolding failure
  failure-not_leased job_id worker now {next} h =
      let (found, _, h1) = bind-eq-ok (consolidation_job job_id ledger) _ h in
      let (job, _, h2) = bind-eq-ok (ok_or found job_missing) _ h1 in
      let (_, h3) = ensure-eq-ok _ lease_not_owned _ h2 in
      let (after, e4, h4) = bind-eq-ok (after_failure job.attempt now) _ h3 in
      let (at, _, h5) = bind-eq-ok (lift_time (timestamp_ns after.1)) _ h4 in
      subst (λ (n : JobStatus × Time). is_leased n.0 ≡ false) (ok-injective h5)
        (after_failure-not_leased job.attempt now e4)

  pub fail-LedgerIsValid :
      (job_id : Uuid) (worker error : Text) (now : Time)
      → LedgerIsValid (fail_consolidation_job job_id worker error now ledger).1
  unfolding fail_consolidation_job
  fail-LedgerIsValid job_id worker error now =
      then_run-keep LedgerIsValid ledger (failure job_id worker now ledger) _ valid (λ next is.
        set_jobs-LedgerIsValid (is_owned job_id worker)
          (failed_row next.0 next.1 (bounded_error error)) ledger (λ r. refl) (λ r. refl)
          (λ r.
            not_leased (failed_row next.0 next.1 (bounded_error error) r)
              (failure-not_leased job_id worker now is) refl refl)
          valid)
