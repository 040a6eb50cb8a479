-- ===== src/Jobs/Terminal.antt =====
-- No function of crates/brain-store/src/jobs.rs changes a completed job.
use agent_knowledge_base_cod.Common.{
  ℕ, ◌≡◌, refl, sym, subst, ap, ◌∙◌, inl, inr, Bool, true, false, Bool-cases, Option, none, some,
  List, [], ◌∷◌, ◌++◌, arith, any, find?, find?-sound, All-find?, add_time, find?-update_where,
  update_where, ok, Text, Time, Duration, ◌==◌, ==_iff, ◌&&◌, bind-eq-ok, ensure-eq-ok,
  timestamp_ns, ok-injective, is_blank, not, is_positive,
}
use mathlib.Core.Option.{some-injective}
use agent_knowledge_base_cod.Jobs.Model.{
  Uuid, JobRow, JobStatus, pending, leased, completed, dead_letter, EventLedger, is_completed,
  is_leased, is_pending, is_dead_letter, lift_time, worker_empty, duration_not_positive,
}
use agent_knowledge_base_cod.Jobs.Queue.{
  has_id, leased_row, pick_job, next_job, with_end, commit_lease, lease_consolidation_job, is_held,
  is_owned, completed_row, complete_consolidation_job, failed_row, failure, fail_consolidation_job,
  deferred_row, bounded_error, is_eligible, defer_consolidation_job, is_dead, revived_row,
  retry_dead_letter_jobs, set_jobs,
}
use agent_knowledge_base_cod.Jobs.Picking.{Picked, next_job-Picked}
use agent_knowledge_base_cod.Jobs.Validity.{JobIsValid, LedgerIsValid, then_run-keep}
use agent_knowledge_base_cod.Jobs.Calls.{
  QueueCall, enqueue_events, enqueue_threshold, enqueue_through, enqueue_idle, lease_next, complete,
  fail, defer, retry, after_call, after_calls, enqueue-keep, threshold-keep, through-keep,
  idle-keep, after_call-LedgerIsValid,
}

find?-append :
    (p : JobRow → Bool) (xs ys : List JobRow) {row : JobRow}
    → find? p xs ≡ some row
    → find? p (xs ++ ys) ≡ some row
find?-append p [] ys h = cc
find?-append p (x ∷ xs) ys {row} h = ground (arith, find?-append p xs ys {row = row})

with_end-row :
    (now : Time) (duration : Duration) (found : Option JobRow) {row : JobRow} {until : Time}
    → with_end now duration found ≡ ok (some (row, until))
    → found ≡ some row
with_end-row now duration none h = cc
with_end-row now duration (some r) {row} {until} h =
    let (end, _, h1) = bind-eq-ok (lift_time (add_time now duration)) _ h in
    let (at, _, h2) = bind-eq-ok (lift_time (timestamp_ns end)) _ h1 in
    ap some (ap (λ (pair : JobRow × Time). pair.0) (some-injective _ _ (ok-injective h2)))

-- What `pick_job` gives is what `next_job` gave.
pub pick_job-Picked :
    (worker : Text) (now : Time) (duration : Duration) (l : EventLedger) {row : JobRow}
    {until : Time}
    → LedgerIsValid l
    → pick_job worker now duration l ≡ ok (some (row, until))
    → (at : Time) × (lift_time (timestamp_ns now) ≡ ok at) × Picked at l row
unfolding pick_job
pick_job-Picked worker now duration l {row} {until} valid h =
    let (_, h1) = ensure-eq-ok (not (is_blank worker)) worker_empty _ h in
    let (_, h2) = ensure-eq-ok (is_positive duration) duration_not_positive _ h1 in
    let (at, is, h3) = bind-eq-ok (lift_time (timestamp_ns now)) _ h2 in
    (at, is, next_job-Picked at l valid.0 (with_end-row now duration (next_job at l) h3))

and_false : (b : Bool) → (b && false) ≡ false
and_false b = ground arith

completed-status :
    (status : JobStatus)
    → is_completed status ≡ true
    → (is_leased status ≡ false) × (is_pending status ≡ false) × (is_dead_letter status ≡ false)
completed-status pending h = cc
completed-status leased h = cc
completed-status completed h = (refl, refl, refl)
completed-status dead_letter h = cc

same_id-row :
    (id : Uuid) (jobs : List JobRow) (row r : JobRow)
    → find? (has_id id) jobs ≡ some row
    → find? (has_id r.job_id) jobs ≡ some r
    → has_id r.job_id row ≡ true
    → r ≡ row
same_id-row id jobs row r found found_r same = some-injective r row (
    sym found_r
    ∙ ap (λ (n : ℕ). find? (has_id n) jobs)
        (sym ((==_iff row.job_id r.job_id).0 same)
          ∙ (==_iff row.job_id id).0 (find?-sound (has_id id) jobs found))
    ∙ found)

module _ (id : Uuid) (row : JobRow) (done : is_completed row.status ≡ true) where
  abbrev Stays : EventLedger → Type 0
  Stays l = find? (has_id id) l.jobs ≡ some row

  update-Stays :
      (p : JobRow → Bool) (f : JobRow → JobRow) (l : EventLedger)
      → ((r : JobRow) → (f r).job_id ≡ r.job_id)
      → p row ≡ false
      → Stays l
      → Stays (set_jobs (update_where p f l.jobs) l)
  update-Stays p f l same out h =
      find?-update_where p (has_id id) f l.jobs (λ r. ap (λ (n : ℕ). n == id) (same r)) h out

  module _ (l : EventLedger) (valid : LedgerIsValid l) (stays : Stays l) where
    not_eligible : (at : Time) → is_eligible l.project_scope at row ≡ false
    not_eligible at = ground (arith, completed-status row.status done)

    not_held : (job_id : Uuid) (worker : Text) → is_held job_id worker row ≡ false
    not_held job_id worker = ground (arith, completed-status row.status done)

    not_dead : is_dead l.project_scope row ≡ false
    not_dead = ground (arith, completed-status row.status done)

    not_owned : (job_id : Uuid) (worker : Text) → is_owned job_id worker row ≡ false
    not_owned job_id worker =
        let (_, _, rows) = valid in
        let fits = All-find? JobIsValid (has_id id) l.jobs rows stays in
        rw (fits.1 (completed-status row.status done).0).0 (and_false (has_id job_id row))

    commit-Stays :
        (worker : Text) (now : Time) (duration : Duration) (picked : Option (JobRow × Time))
        → pick_job worker now duration l ≡ ok picked
        → Stays (commit_lease worker l picked).1
    commit-Stays worker now duration none is = stays
    commit-Stays worker now duration (some (r, until)) is =
        elim (Bool-cases (has_id r.job_id row)) [
          | inl same ↦
              let (at, _, (eligible, found, _)) = pick_job-Picked worker now duration l valid is in
              let same_row = same_id-row id l.jobs row r stays found same in
              cc (
                subst (λ x. is_eligible l.project_scope at x ≡ true) same_row eligible,
                not_eligible at,
              )
          | inr other ↦
              update-Stays (has_id r.job_id) (leased_row worker until) l (λ x. refl) other stays
        ]

    lease-Stays :
        (worker : Text) (now : Time) (duration : Duration)
        → Stays (lease_consolidation_job worker now duration l).1
    unfolding lease_consolidation_job
    lease-Stays worker now duration =
        then_run-keep Stays l (pick_job worker now duration l) (commit_lease worker l) stays
          (λ picked is. commit-Stays worker now duration picked is)

    complete-Stays :
        (job_id : Uuid) (worker : Text) (now : Time)
        → Stays (complete_consolidation_job job_id worker now l).1
    unfolding complete_consolidation_job
    complete-Stays job_id worker now = then_run-keep Stays l _ _ stays (λ at _.
        update-Stays (is_held job_id worker) (completed_row at) l (λ r. refl)
          (not_held job_id worker) stays)

    defer-Stays :
        (job_id : Uuid) (worker error : Text) (available : Time)
        → Stays (defer_consolidation_job job_id worker error available l).1
    unfolding defer_consolidation_job
    defer-Stays job_id worker error available = then_run-keep Stays l _ _ stays (λ at _.
        update-Stays (is_held job_id worker) (deferred_row at (bounded_error error)) l (λ r. refl)
          (not_held job_id worker) stays)

    retry-Stays : (now : Time) → Stays (retry_dead_letter_jobs now l).1
    unfolding retry_dead_letter_jobs
    retry-Stays now = then_run-keep Stays l _ _ stays (λ at _.
        update-Stays (is_dead l.project_scope) (revived_row at) l (λ r. refl) not_dead stays)

    fail-Stays :
        (job_id : Uuid) (worker error : Text) (now : Time)
        → Stays (fail_consolidation_job job_id worker error now l).1
    unfolding fail_consolidation_job
    fail-Stays job_id worker error now =
        then_run-keep Stays l (failure job_id worker now l) _ stays (λ next _.
          update-Stays (is_owned job_id worker) (failed_row next.0 next.1 (bounded_error error)) l
            (λ r. refl) (not_owned job_id worker) stays)

  -- The calls of a history, one after the other.
  module _ (sha256 : Uuid → Uuid → Uuid → Text → ℕ) where
    add-Stays :
        (l : EventLedger)
        → Stays l
        → (r : JobRow) → is_pending r.status ≡ true
        → (r.lease_owner ≡ none) × (r.lease_until_ns ≡ none)
        → any (λ j. j.idempotency_key == r.idempotency_key) l.jobs ≡ false
        → any (λ j. j.job_id == r.job_id) l.jobs ≡ false
        → Stays (record l { jobs = l.jobs ++ r ∷ [] })
    add-Stays l stays r _ _ _ _ = find?-append (has_id id) l.jobs (r ∷ []) stays

    after_call-Stays :
        (call : QueueCall) (l : EventLedger)
        → LedgerIsValid l
        → Stays l
        → Stays (after_call sha256 call l)
    unfolding after_call
    after_call-Stays (enqueue_events first last reason now) l v h =
        enqueue-keep sha256 Stays l h (add-Stays l h) first last reason now
    after_call-Stays (enqueue_threshold threshold now) l v h =
        threshold-keep sha256 Stays l h (add-Stays l h) threshold now
    after_call-Stays (enqueue_through last reason now) l v h =
        through-keep sha256 Stays l h (add-Stays l h) last reason now
    after_call-Stays (enqueue_idle now idle clock) l v h =
        idle-keep sha256 Stays l h (add-Stays l h) now idle clock
    after_call-Stays (lease_next worker now duration) l v h = lease-Stays l v h worker now duration
    after_call-Stays (complete job_id worker now) l v h = complete-Stays l v h job_id worker now
    after_call-Stays (fail job_id worker error now) l v h = fail-Stays l v h job_id worker error now
    after_call-Stays (defer job_id worker error available) l v h =
        defer-Stays l v h job_id worker error available
    after_call-Stays (retry now) l v h = retry-Stays l v h now

    -- In a valid table a completed job stays as it is, whatever calls follow.
    pub completed-after_calls :
        (calls : List QueueCall) (l : EventLedger)
        → LedgerIsValid l
        → find? (has_id id) l.jobs ≡ some row
        → find? (has_id id) (after_calls sha256 calls l).jobs ≡ some row
    unfolding after_calls
    completed-after_calls [] l v h = h
    completed-after_calls (call ∷ calls) l v h =
        completed-after_calls calls (after_call sha256 call l)
          (after_call-LedgerIsValid sha256 call l v) (after_call-Stays call l v h)
