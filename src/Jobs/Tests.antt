-- ===== src/Jobs/Tests.antt =====
-- Runs of the functions of crates/brain-store/src/jobs.rs on concrete inputs.
use agent_knowledge_base_cod.Common.{
  All, ◌≤◌, ℕ, ◌+◌, ◌*◌, ◌^◌, ◌≡◌, refl, false, none, some, List, [], ◌∷◌, arith, Text, codes, Time,
  unix_epoch, minutes, ok, find?, any, is_blank, timestamp_ns, add_time, trim,
}
use agent_knowledge_base_cod.Jobs.Model.{
  Uuid, session_stopped, pending, completed, EventRow, JobRow, ConsolidationJob, EventLedger,
}
use agent_knowledge_base_cod.Jobs.Window.{uncovered, unqueued_event_range}
use agent_knowledge_base_cod.Jobs.Window.Bounds.{RangeOfWindow, unqueued_event_range-IsWindow}
use agent_knowledge_base_cod.Jobs.Queue.{
  has_id, is_held, pick_job, next_job, parse_job_record, failure, consolidation_job, parse_found,
  after_failure, leased_row, job_of_row, lease_consolidation_job, complete_consolidation_job,
  fail_consolidation_job, defer_consolidation_job,
}
use agent_knowledge_base_cod.Jobs.Leasing.{Granted, lease-Granted}
use agent_knowledge_base_cod.Jobs.Progress.{lease-finds}
use agent_knowledge_base_cod.Jobs.Owners.{Refused, not_held-Refused, Failed, fail-Failed}
use agent_knowledge_base_cod.Jobs.Validity.{LedgerIsValid}
use agent_knowledge_base_cod.Jobs.Calls.{
  QueueCall, enqueue_threshold, lease_next, fail, retry, after_calls, after_calls-LedgerIsValid,
}
use agent_knowledge_base_cod.Jobs.Terminal.{completed-after_calls}

abbrev test_hash : Uuid → Uuid → Uuid → Text → ℕ
test_hash project first last reason = (project * 10000 + first * 100 + last) * 2 ^ 128

abbrev test_event : ℕ → EventRow
test_event n = record {
  rowid = n;
  event_id = 10 + n;
  project_id = 1;
  payload_json = codes "{}";
  raw_json = codes "{\"n\":1}";
  observed_at_ns = unix_epoch + n;
}

abbrev test_job : JobRow
test_job = record {
  job_id = 7;
  project_id = 1;
  first_event_id = 11;
  last_event_id = 12;
  reason = session_stopped;
  idempotency_key = 70;
  status = pending;
  attempt = 2;
  available_at_ns = unix_epoch;
  lease_owner = none;
  lease_until_ns = none;
  last_error = some (codes "timeout");
  created_at_ns = unix_epoch;
  completed_at_ns = none;
}

abbrev pub test_ledger : List JobRow → EventLedger
test_ledger jobs = record {
  project_scope = 1;
  events = test_event 1 ∷ test_event 2 ∷ test_event 3 ∷ [];
  jobs = jobs;
  redactions = [];
}

abbrev test_now : Time
test_now = unix_epoch + 1000

abbrev test_until : Time
test_until = test_now + 60000000000

abbrev worker_a : Text
worker_a = codes "worker-a"

abbrev pub leased_job : JobRow
leased_job = leased_row worker_a test_until test_job

abbrev done_job : JobRow
done_job = record test_job { status = completed; completed_at_ns = some test_now }

ascii : All (λ (c : ℕ). c ≤ 0x7F) (codes "{}") × All (λ (c : ℕ). c ≤ 0x7F) (codes "{\"n\":1}")
ascii = (
  (omega arith, (omega arith, tt)),
  (
    omega arith,
    (omega arith, (omega arith, (omega arith, (omega arith, (omega arith, (omega arith, tt)))))),
  ),
)

unqueued_event_range-IsWindow_example :
    RangeOfWindow
      (uncovered (test_ledger (test_job ∷ [])))
      (unqueued_event_range (test_ledger (test_job ∷ [])))
unqueued_event_range-IsWindow_example =
    unqueued_event_range-IsWindow (test_ledger (test_job ∷ []))
      (omega arith, (omega arith, (omega arith, tt))) (ascii, (ascii, (ascii, tt)))

test_valid : LedgerIsValid (test_ledger (test_job ∷ []))
test_valid = ((refl, tt), (refl, tt), ((λ e. cc e, λ _. (refl, refl)), tt))

done_valid : LedgerIsValid (test_ledger (done_job ∷ []))
done_valid = ((refl, tt), (refl, tt), ((λ e. cc e, λ _. (refl, refl)), tt))

named : is_blank worker_a ≡ false
unfolding trim
named = refl

ends : add_time test_now (minutes 1) ≡ ok test_until
unfolding add_time
ends = refl

not_held : any (is_held 7 (codes "worker-b")) (leased_job ∷ []) ≡ false
not_held = refl

fail_run :
    (fail_consolidation_job 7 worker_a (codes "late") test_now (test_ledger (leased_job ∷ []))).0
    ≡ ok tt
unfolding fail_consolidation_job failure consolidation_job parse_found parse_job_record
    after_failure timestamp_ns add_time
fail_run = refl

abbrev test_calls : List QueueCall
test_calls =
    enqueue_threshold 2 test_now
    ∷ lease_next worker_a test_now (minutes 1)
    ∷ fail 1 worker_a (codes "timeout") test_now
    ∷ retry test_now
    ∷ []

after_calls-LedgerIsValid_example :
    LedgerIsValid (after_calls test_hash test_calls (test_ledger []))
after_calls-LedgerIsValid_example =
    after_calls-LedgerIsValid test_hash test_calls (test_ledger []) (tt, tt, tt)

completed-after_calls_example :
    find? (has_id 7) (after_calls test_hash test_calls (test_ledger (done_job ∷ []))).jobs
    ≡ some done_job
completed-after_calls_example =
    completed-after_calls 7 done_job refl test_hash test_calls (test_ledger (done_job ∷ []))
      done_valid refl

lease_run :
    lease_consolidation_job worker_a test_now (minutes 1) (test_ledger (test_job ∷ []))
    ≡ (ok (some (job_of_row leased_job)), test_ledger (leased_job ∷ []))
unfolding lease_consolidation_job pick_job next_job parse_job_record timestamp_ns add_time trim
lease_run = refl

lease-Granted_example :
    Granted worker_a test_now
      (test_ledger (test_job ∷ []))
      (job_of_row leased_job)
      (test_ledger (leased_job ∷ []))
lease-Granted_example =
    lease-Granted worker_a test_now (minutes 1) (test_ledger (test_job ∷ [])) test_valid lease_run

lease-finds_example :
    (job : ConsolidationJob) × ((lease_consolidation_job worker_a test_now
        (minutes 1)
        (test_ledger (test_job ∷ []))).0
      ≡ ok (some job))
lease-finds_example =
    lease-finds worker_a test_now (minutes 1) (test_ledger (test_job ∷ [])) test_valid
      {end = test_until} named refl (omega arith, omega arith) ends (omega arith, omega arith)
      (omega arith, tt) refl

not_held-Refused_example :
    Refused
      (complete_consolidation_job 7 (codes "worker-b") test_now (test_ledger (leased_job ∷ [])))
      (test_ledger (leased_job ∷ []))
    × Refused
        (fail_consolidation_job 7
          (codes "worker-b")
          (codes "late")
          test_now
          (test_ledger (leased_job ∷ [])))
        (test_ledger (leased_job ∷ []))
    × Refused
        (defer_consolidation_job 7
          (codes "worker-b")
          (codes "late")
          test_now
          (test_ledger (leased_job ∷ [])))
        (test_ledger (leased_job ∷ []))
not_held-Refused_example =
    not_held-Refused 7 (codes "worker-b") (test_ledger (leased_job ∷ [])) not_held (codes "late")
      test_now

fail-Failed_example :
    Failed 7 worker_a
      (codes "late")
      test_now
      (test_ledger (leased_job ∷ []))
      (fail_consolidation_job 7 worker_a (codes "late") test_now (test_ledger (leased_job ∷ [])))
fail-Failed_example =
    fail-Failed 7 worker_a (codes "late") test_now (test_ledger (leased_job ∷ [])) fail_run
