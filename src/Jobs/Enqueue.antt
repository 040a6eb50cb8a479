-- ===== src/Jobs/Enqueue.antt =====
-- What `enqueue_…` of crates/brain-store/src/jobs.rs put into the queue. `sha256` stands for the
-- `sha2` crate, and gives the digest of what the job spans as a number of 256 bits. `now` is what
-- `OffsetDateTime::now_utc` gives. A statement that ran stays, also when a later one fails, so each
-- function gives its result and the ledger it leaves.
use agent_knowledge_base_cod.Common.{
  ℕ, ◌/◌, ◌^◌, ◌&&◌, Bool, Option, none, some, [], ◌∷◌, ◌++◌, Text, any, find?, Time, Duration,
  TimeError, pos, negsuc, suc, add_time, sub_time, timestamp_ns, is_positive, Result, ok, err,
  ◌>>=◌, ◌>>◌, ensure, ok_or, leb, ltb, ◌==◌, if◌then◌else◌,
}
use agent_knowledge_base_cod.Jobs.Model.{
  Uuid, ConsolidationReason, event_threshold, inactivity, reason_as_str, pending, EventRow, JobRow,
  ConsolidationJob, EventLedger, JobError, constraint, event_outside, job_missing, threshold_zero,
  inactivity_not_positive, event_missing, lift_time,
}
use agent_knowledge_base_cod.Jobs.Queue.{Outcome, then_run, consolidation_job}
use agent_knowledge_base_cod.Jobs.Window.{
  EventRange, unqueued_event_range, last_covered_row, is_uncovered,
}

-- `deterministic_uuid`: the first 16 of the digest's 32 bytes.
unfoldable pub deterministic_uuid : ℕ → Uuid
deterministic_uuid hash = hash / 2 ^ 128

abbrev pub has_event : EventLedger → Uuid → EventRow → Bool
has_event ledger event_id e = e.event_id == event_id && e.project_id == ledger.project_scope

-- `OffsetDateTime - Duration`
unfoldable pub before : Time → Duration → Result TimeError Time
unfolding sub_time add_time
before t (pos n) = sub_time t n
before t (negsuc n) = add_time t (pos (suc n))

-- `.map(Some)`
abbrev pub some_job : Outcome ConsolidationJob → Outcome (Option ConsolidationJob)
some_job (err e, ledger) = (err e, ledger)
some_job (ok job, ledger) = (ok (some job), ledger)

module _ (sha256 : Uuid → Uuid → Uuid → Text → ℕ) where
  unfoldable pub job_key : Uuid → Uuid → Uuid → ConsolidationReason → ℕ
  unfolding reason_as_str
  job_key project first last reason = sha256 project first last (reason_as_str reason)

  unfoldable pub new_job : Uuid → Uuid → Uuid → ConsolidationReason → Time → JobRow
  unfolding job_key deterministic_uuid
  new_job project first last reason now = record {
    job_id = deterministic_uuid (job_key project first last reason);
    project_id = project;
    first_event_id = first;
    last_event_id = last;
    reason = reason;
    idempotency_key = job_key project first last reason;
    status = pending;
    attempt = 0;
    available_at_ns = now;
    lease_owner = none;
    lease_until_ns = none;
    last_error = none;
    created_at_ns = now;
    completed_at_ns = none;
  }

  -- `INSERT … ON CONFLICT(idempotency_key) DO NOTHING`, where a taken `job_id` is an error.
  unfoldable pub insert_job : JobRow → EventLedger → Result JobError EventLedger
  insert_job row ledger =
      if any (λ j. j.idempotency_key == row.idempotency_key) ledger.jobs
      then ok ledger
      else if any (λ j. j.job_id == row.job_id) ledger.jobs
      then err constraint
      else ok (record ledger { jobs = ledger.jobs ++ row ∷ [] })

  -- The two checks and the statement, which changes the ledger only if it succeeds.
  unfoldable pub put_job :
      Uuid → Uuid → ConsolidationReason → Time → EventLedger → Result JobError EventLedger
  unfolding new_job insert_job
  put_job first last reason now ledger = do
    ensure (any (has_event ledger first) ledger.events) event_outside
    ensure (any (has_event ledger last) ledger.events) event_outside
    at ← lift_time (timestamp_ns now)
    insert_job (new_job ledger.project_scope first last reason at) ledger

  unfoldable pub enqueue_consolidation_job :
      Uuid → Uuid → ConsolidationReason → Time → EventLedger → Outcome ConsolidationJob
  unfolding put_job deterministic_uuid job_key consolidation_job
  enqueue_consolidation_job first last reason now ledger =
      then_run ledger (put_job first last reason now ledger) (λ after. (
        (do
          job ←
              consolidation_job
                (deterministic_uuid (job_key ledger.project_scope first last reason)) after
          ok_or job job_missing),
        after,
      ))

  -- The range that is due, if there is one.
  unfoldable pub due_by_count : ℕ → EventLedger → Result JobError (Option EventRange)
  due_by_count threshold ledger = do
    ensure (ltb 0 threshold) threshold_zero
    ok (elim (unqueued_event_range ledger) [
      | none ↦ none
      | some range ↦ if ltb range.count threshold then none else some range
    ])

  abbrev pub enqueue_range :
      ConsolidationReason
      → Time
      → EventLedger
      → Option EventRange
      → Outcome (Option ConsolidationJob)
  enqueue_range reason now ledger none = (ok none, ledger)
  enqueue_range reason now ledger (some range) =
      some_job (enqueue_consolidation_job range.first range.last reason now ledger)

  unfoldable pub enqueue_event_threshold_job :
      ℕ → Time → EventLedger → Outcome (Option ConsolidationJob)
  unfolding due_by_count enqueue_consolidation_job
  enqueue_event_threshold_job threshold now ledger =
      then_run ledger (due_by_count threshold ledger) (enqueue_range event_threshold now ledger)

  -- The first event after the last covered one, up to the given one.
  unfoldable pub through_event : Uuid → EventLedger → Result JobError (Option Uuid)
  unfolding last_covered_row
  through_event last_event_id ledger = do
    last ← ok_or (find? (has_event ledger last_event_id) ledger.events) event_missing
    (if leb last.rowid (last_covered_row ledger) then ok none else do
      first ←
          ok_or
            (find?
              (λ e.
                is_uncovered ledger.project_scope (last_covered_row ledger) e
                && leb e.rowid last.rowid)
              ledger.events)
            event_missing
      ok (some first.event_id))

  abbrev pub enqueue_from :
      Uuid
      → ConsolidationReason
      → Time
      → EventLedger
      → Option Uuid
      → Outcome (Option ConsolidationJob)
  enqueue_from last_event_id reason now ledger none = (ok none, ledger)
  enqueue_from last_event_id reason now ledger (some first) =
      some_job (enqueue_consolidation_job first last_event_id reason now ledger)

  unfoldable pub enqueue_through_event_job :
      Uuid → ConsolidationReason → Time → EventLedger → Outcome (Option ConsolidationJob)
  unfolding through_event enqueue_consolidation_job
  enqueue_through_event_job last_event_id reason now ledger =
      then_run ledger (through_event last_event_id ledger)
        (enqueue_from last_event_id reason now ledger)

  unfoldable pub due_by_idleness :
      Time → Duration → EventLedger → Result JobError (Option EventRange)
  unfolding before
  due_by_idleness now idle ledger = do
    ensure (is_positive idle) inactivity_not_positive
    elim (unqueued_event_range ledger) [
      | none ↦ ok none
      | some range ↦ do
        cutoff ← lift_time (before now idle)
        ok (if ltb cutoff range.latest_observed then none else some range)
    ]

  -- `clock` is what `now_utc` gives to the call of `enqueue_consolidation_job`.
  unfoldable pub enqueue_inactivity_job :
      Time → Duration → Time → EventLedger → Outcome (Option ConsolidationJob)
  unfolding due_by_idleness enqueue_consolidation_job
  enqueue_inactivity_job now idle clock ledger =
      then_run ledger (due_by_idleness now idle ledger) (enqueue_range inactivity clock ledger)
