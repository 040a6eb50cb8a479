-- ===== src/Jobs/Queue.antt =====
-- How crates/brain-store/src/jobs.rs leases a job, and completes, fails, defers or revives it.
-- A statement that ran stays, also when a later step fails, so each function gives its result and
-- the ledger it leaves. `attempt` does not reach the end of SQLite's integers.
use agent_knowledge_base_cod.Common.{
  ℕ, ◌+◌, ◌-◌, ◌^◌, ◌&&◌, ◌||◌, not, Bool, false, Option, none, some, List, [], ◌∷◌, Text, text_eq,
  is_blank, take, find?, filter, update_where, count_where, sort_by, Time, Duration, add_time,
  timestamp_ns, is_positive, seconds, Result, ok, err, ◌>>=◌, ◌>>◌, ensure, ok_or, leb, ltb, ◌==◌,
  if◌then◌else◌,
}
use agent_knowledge_base_cod.Jobs.Model.{
  Uuid, JobStatus, pending, leased, completed, dead_letter, is_pending, is_leased, is_dead_letter,
  JobRow, ConsolidationJob, EventLedger, JobError, attempt_range, job_missing, worker_empty,
  duration_not_positive, lease_not_owned, lift_time,
}

-- The row's `attempt` as a `u32`.
abbrev pub u32_max : ℕ
u32_max = 2 ^ 32 - 1

abbrev pub job_of_row : JobRow → ConsolidationJob
job_of_row row = record {
  id = row.job_id;
  project_id = row.project_id;
  first_event_id = row.first_event_id;
  last_event_id = row.last_event_id;
  reason = row.reason;
  status = row.status;
  attempt = row.attempt;
  available_at = row.available_at_ns;
  lease_owner = row.lease_owner;
  lease_until = row.lease_until_ns;
  last_error = row.last_error;
}

-- `parse_job_record`, on a row whose texts were written by this file.
unfoldable pub parse_job_record : JobRow → Result JobError ConsolidationJob
parse_job_record row = do ensure (leb row.attempt u32_max) attempt_range; ok (job_of_row row)

abbrev pub is_job : Uuid → Uuid → JobRow → Bool
is_job project job_id row = row.job_id == job_id && row.project_id == project

-- `.optional()?.map(parse_job_record).transpose()`
unfoldable pub parse_found : Option JobRow → Result JobError (Option ConsolidationJob)
unfolding parse_job_record
parse_found none = ok none
parse_found (some row) = do job ← parse_job_record row; ok (some job)

unfoldable pub consolidation_job : Uuid → EventLedger → Result JobError (Option ConsolidationJob)
unfolding parse_found
consolidation_job job_id ledger =
    parse_found (find? (is_job ledger.project_scope job_id) ledger.jobs)

-- `bounded_error`
unfoldable pub bounded_error : Text → Text
bounded_error error = take 2000 error

-- A function's result, and the ledger that it leaves.
abbrev pub Outcome {ℓ} : Type ℓ → Type ℓ
Outcome A = Result JobError A × EventLedger

-- A `?` before the statement that changes the ledger.
abbrev pub then_run {ℓ κ} :
    {X : Type ℓ} {A : Type κ} → EventLedger → Result JobError X → (X → Outcome A) → Outcome A
then_run ledger (err e) next = (err e, ledger)
then_run ledger (ok x) next = next x

abbrev pub until_over : Time → JobRow → Bool
until_over now row = elim row.lease_until_ns [ none ↦ false | some until ↦ leb until now ]

-- `WHERE project_id = ?1 AND (…)`
abbrev pub is_eligible : Uuid → Time → JobRow → Bool
is_eligible project now row =
    row.project_id == project
    && (is_pending row.status && leb row.available_at_ns now
        || is_leased row.status && until_over now row)

-- `ORDER BY available_at_ns ASC, created_at_ns ASC, job_id ASC`
abbrev pub comes_first : JobRow → JobRow → Bool
comes_first a b =
    ltb a.available_at_ns b.available_at_ns
    || a.available_at_ns == b.available_at_ns
      && (ltb a.created_at_ns b.created_at_ns
          || a.created_at_ns == b.created_at_ns && ltb a.job_id b.job_id)

abbrev pub first_row : List JobRow → Option JobRow
first_row [] = none
first_row (row ∷ rows) = some row

unfoldable pub next_job : Time → EventLedger → Option JobRow
next_job now ledger =
    first_row (sort_by comes_first (filter (is_eligible ledger.project_scope now) ledger.jobs))

abbrev pub has_id : Uuid → JobRow → Bool
has_id job_id row = row.job_id == job_id

-- The `UPDATE` of `lease_consolidation_job`.
abbrev pub leased_row : Text → Time → JobRow → JobRow
leased_row worker until row = record row {
  status = leased;
  attempt = row.attempt + 1;
  lease_owner = some worker;
  lease_until_ns = some until;
  last_error = none;
}

abbrev pub set_jobs : List JobRow → EventLedger → EventLedger
set_jobs rows ledger = record ledger { jobs = rows }

abbrev pub with_end : Time → Duration → Option JobRow → Result JobError (Option (JobRow × Time))
with_end now lease_duration none = ok none
with_end now lease_duration (some row) = do
  end ← lift_time (add_time now lease_duration)
  until ← lift_time (timestamp_ns end)
  ok (some (row, until))

-- The transaction: the row that the lease is on, if there is one, and the lease's end.
unfoldable pub pick_job :
    Text → Time → Duration → EventLedger → Result JobError (Option (JobRow × Time))
unfolding next_job
pick_job worker now lease_duration ledger = do
  ensure (not (is_blank worker)) worker_empty
  ensure (is_positive lease_duration) duration_not_positive
  now_ns ← lift_time (timestamp_ns now)
  with_end now lease_duration (next_job now_ns ledger)

abbrev pub commit_lease :
    Text → EventLedger → Option (JobRow × Time) → Outcome (Option ConsolidationJob)
commit_lease worker ledger none = (ok none, ledger)
commit_lease worker ledger (some (row, until)) = (
  (do job ← parse_job_record (leased_row worker until row); ok (some job)),
  set_jobs (update_where (has_id row.job_id) (leased_row worker until) ledger.jobs) ledger,
)

unfoldable pub lease_consolidation_job :
    Text → Time → Duration → EventLedger → Outcome (Option ConsolidationJob)
unfolding pick_job parse_job_record
lease_consolidation_job worker now lease_duration ledger =
    then_run ledger (pick_job worker now lease_duration ledger) (commit_lease worker ledger)

-- `lease_owner = ?2`
abbrev pub is_owner : Text → Option Text → Bool
is_owner worker none = false
is_owner worker (some owner) = text_eq owner worker

-- `WHERE job_id = ?1 AND lease_owner = ?2 AND status = 'leased'`
abbrev pub is_held : Uuid → Text → JobRow → Bool
is_held job_id worker row =
    has_id job_id row && is_owner worker row.lease_owner && is_leased row.status

-- The statement, and the check that it changed one row.
abbrev pub change_held : Uuid → Text → (JobRow → JobRow) → EventLedger → Outcome (Unit {0})
change_held job_id worker change ledger = (
  ensure (count_where (is_held job_id worker) ledger.jobs == 1) lease_not_owned,
  set_jobs (update_where (is_held job_id worker) change ledger.jobs) ledger,
)

abbrev pub completed_row : Time → JobRow → JobRow
completed_row now row = record row {
  status = completed;
  completed_at_ns = some now;
  lease_owner = none;
  lease_until_ns = none;
  last_error = none;
}

unfoldable pub complete_consolidation_job : Uuid → Text → Time → EventLedger → Outcome (Unit {0})
complete_consolidation_job job_id worker now ledger =
    then_run ledger (lift_time (timestamp_ns now))
      (λ at. change_held job_id worker (completed_row at) ledger)

abbrev pub failed_row : JobStatus → Time → Text → JobRow → JobRow
failed_row status available error row = record row {
  status = status;
  available_at_ns = available;
  lease_owner = none;
  lease_until_ns = none;
  last_error = some error;
}

-- `job.attempt >= 5`: the status that follows and when the job is available again.
unfoldable pub after_failure : ℕ → Time → Result JobError (JobStatus × Time)
after_failure attempt now =
    if leb 5 attempt
    then ok (dead_letter, now)
    else (do at ← lift_time (add_time now (seconds (2 ^ attempt))); ok (pending, at))

unfoldable pub failure : Uuid → Text → Time → EventLedger → Result JobError (JobStatus × Time)
unfolding consolidation_job after_failure
failure job_id worker now ledger = do
  found ← consolidation_job job_id ledger
  job ← ok_or found job_missing
  ensure (is_leased job.status && is_owner worker job.lease_owner) lease_not_owned
  next ← after_failure job.attempt now
  at ← lift_time (timestamp_ns next.1)
  ok (next.0, at)

-- `WHERE job_id = ?1 AND lease_owner = ?2`
abbrev pub is_owned : Uuid → Text → JobRow → Bool
is_owned job_id worker row = has_id job_id row && is_owner worker row.lease_owner

abbrev pub record_failure : Uuid → Text → Text → EventLedger → JobStatus × Time → Outcome (Unit {0})
record_failure job_id worker error ledger next = (
  ok tt,
  set_jobs (update_where (is_owned job_id worker) (failed_row next.0 next.1 error) ledger.jobs)
      ledger,
)

unfoldable pub fail_consolidation_job : Uuid → Text → Text → Time → EventLedger → Outcome (Unit {0})
unfolding failure bounded_error
fail_consolidation_job job_id worker error now ledger =
    then_run ledger (failure job_id worker now ledger)
      (record_failure job_id worker (bounded_error error) ledger)

-- `MAX(attempt - 1, 0)`
abbrev pub deferred_row : Time → Text → JobRow → JobRow
deferred_row available error row = record row {
  status = pending;
  attempt = row.attempt - 1;
  available_at_ns = available;
  lease_owner = none;
  lease_until_ns = none;
  last_error = some error;
}

unfoldable pub defer_consolidation_job :
    Uuid → Text → Text → Time → EventLedger → Outcome (Unit {0})
unfolding bounded_error
defer_consolidation_job job_id worker error available ledger =
    then_run ledger (lift_time (timestamp_ns available))
      (λ at. change_held job_id worker (deferred_row at (bounded_error error)) ledger)

abbrev pub is_dead : Uuid → JobRow → Bool
is_dead project row = row.project_id == project && is_dead_letter row.status

abbrev pub revived_row : Time → JobRow → JobRow
revived_row now row = record row {
  status = pending;
  attempt = 0;
  available_at_ns = now;
  lease_owner = none;
  lease_until_ns = none;
}

unfoldable pub retry_dead_letter_jobs : Time → EventLedger → Outcome ℕ
retry_dead_letter_jobs now ledger = then_run ledger (lift_time (timestamp_ns now)) (λ at. (
  ok (count_where (is_dead ledger.project_scope) ledger.jobs),
  set_jobs (update_where (is_dead ledger.project_scope) (revived_row at) ledger.jobs) ledger,
))
