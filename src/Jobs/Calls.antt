-- ===== src/Jobs/Calls.antt =====
-- Sequences of calls of the functions of crates/brain-store/src/jobs.rs, in any order.
use agent_knowledge_base_cod.Common.{
  ℕ, ◌≡◌, refl, inl, inr, true, false, Bool-cases, Option, none, some, List, [], ◌∷◌, ◌++◌, any,
  All-append, Distinct-append, ok, err, Text, Time, Duration, ◌==◌, bind-eq-ok, ensure-eq-ok,
  timestamp_ns, subst, sym, ok-injective,
}
use agent_knowledge_base_cod.Jobs.Model.{
  Uuid, ConsolidationReason, ConsolidationJob, JobRow, EventLedger, lift_time, event_outside,
  JobStatus, pending, leased, completed, dead_letter, is_pending, is_leased, event_threshold,
  inactivity,
}
use agent_knowledge_base_cod.Jobs.Queue.{
  Outcome, lease_consolidation_job, complete_consolidation_job, fail_consolidation_job,
  defer_consolidation_job, retry_dead_letter_jobs,
}
use agent_knowledge_base_cod.Jobs.Enqueue.{
  has_event, due_by_count, through_event, due_by_idleness, new_job, insert_job, put_job, some_job,
  enqueue_consolidation_job, enqueue_event_threshold_job, enqueue_through_event_job,
  enqueue_inactivity_job, enqueue_range, enqueue_from,
}
use agent_knowledge_base_cod.Jobs.Window.{EventRange}
use agent_knowledge_base_cod.Jobs.Validity.{
  JobIsValid, LedgerIsValid, not_leased, then_run-keep, lease-LedgerIsValid, complete-LedgerIsValid,
  defer-LedgerIsValid, retry-LedgerIsValid, fail-LedgerIsValid,
}

-- A call of one of the functions that change the queue, with its arguments.
pub data QueueCall : Type 0 where
  enqueue_events : Uuid → Uuid → ConsolidationReason → Time → QueueCall
  enqueue_threshold : ℕ → Time → QueueCall
  enqueue_through : Uuid → ConsolidationReason → Time → QueueCall
  enqueue_idle : Time → Duration → Time → QueueCall
  lease_next : Text → Time → Duration → QueueCall
  complete : Uuid → Text → Time → QueueCall
  fail : Uuid → Text → Text → Time → QueueCall
  defer : Uuid → Text → Text → Time → QueueCall
  retry : Time → QueueCall

pending-not_leased : (status : JobStatus) → is_pending status ≡ true → is_leased status ≡ false
pending-not_leased pending h = refl
pending-not_leased leased h = cc
pending-not_leased completed h = cc
pending-not_leased dead_letter h = cc

some_job-ledger : (r : Outcome ConsolidationJob) → (some_job r).1 ≡ r.1
some_job-ledger (err e, ledger) = refl
some_job-ledger (ok job, ledger) = refl

module _ (sha256 : Uuid → Uuid → Uuid → Text → ℕ) where
  unfoldable pub after_call : QueueCall → EventLedger → EventLedger
  after_call (enqueue_events first last reason now) l =
      (enqueue_consolidation_job sha256 first last reason now l).1
  after_call (enqueue_threshold threshold now) l =
      (enqueue_event_threshold_job sha256 threshold now l).1
  after_call (enqueue_through last_event_id reason now) l =
      (enqueue_through_event_job sha256 last_event_id reason now l).1
  after_call (enqueue_idle now idle clock) l = (enqueue_inactivity_job sha256 now idle clock l).1
  after_call (lease_next worker now duration) l = (lease_consolidation_job worker now duration l).1
  after_call (complete job_id worker now) l = (complete_consolidation_job job_id worker now l).1
  after_call (fail job_id worker error now) l = (fail_consolidation_job job_id worker error now l).1
  after_call (defer job_id worker error available) l =
      (defer_consolidation_job job_id worker error available l).1
  after_call (retry now) l = (retry_dead_letter_jobs now l).1

  unfoldable pub after_calls : List QueueCall → EventLedger → EventLedger
  unfolding after_call
  after_calls [] l = l
  after_calls (call ∷ calls) l = after_calls calls (after_call call l)

  -- What an added job keeps, an enqueueing function keeps.
  module _ (P : EventLedger → Type 0) (l : EventLedger) (valid : P l)
      (adds : (row : JobRow)
        → is_pending row.status ≡ true
        → (row.lease_owner ≡ none) × (row.lease_until_ns ≡ none)
        → any (λ j. j.idempotency_key == row.idempotency_key) l.jobs ≡ false
        → any (λ j. j.job_id == row.job_id) l.jobs ≡ false
        → P (record l { jobs = l.jobs ++ row ∷ [] })) where
    insert-keep :
        (row : JobRow) {out : EventLedger}
        → is_pending row.status ≡ true
        → (row.lease_owner ≡ none) × (row.lease_until_ns ≡ none)
        → insert_job sha256 row l ≡ ok out
        → P out
    unfolding insert_job
    insert-keep row {out} new free h =
        elim (Bool-cases (any (λ j. j.idempotency_key == row.idempotency_key) l.jobs)) [
          | inl known ↦ subst P (ok-injective (rw known at h)) valid
          | inr fresh_key ↦ elim (Bool-cases (any (λ j. j.job_id == row.job_id) l.jobs)) [
            | inl clash ↦ cc (rw (fresh_key, clash) at h)
            | inr fresh_id ↦
                subst P (ok-injective (rw (fresh_key, fresh_id) at h))
                  (adds row new free fresh_key fresh_id)
          ]
        ]

    put-keep :
        (first last : Uuid) (reason : ConsolidationReason) (now : Time) {out : EventLedger}
        → put_job sha256 first last reason now l ≡ ok out
        → P out
    unfolding put_job new_job
    put-keep first last reason now {out} h =
        let (_, h1) = ensure-eq-ok (any (has_event l first) l.events) event_outside _ h in
        let (_, h2) = ensure-eq-ok (any (has_event l last) l.events) event_outside _ h1 in
        let (at, _, h3) = bind-eq-ok (lift_time (timestamp_ns now)) _ h2 in
        insert-keep (new_job sha256 l.project_scope first last reason at) refl (refl, refl) h3

    pub enqueue-keep :
        (first last : Uuid) (reason : ConsolidationReason) (now : Time)
        → P (enqueue_consolidation_job sha256 first last reason now l).1
    unfolding enqueue_consolidation_job
    enqueue-keep first last reason now =
        then_run-keep P l (put_job sha256 first last reason now l) _ valid
          (λ out h. put-keep first last reason now h)

    some-keep :
        (first last : Uuid) (reason : ConsolidationReason) (now : Time)
        → P (some_job (enqueue_consolidation_job sha256 first last reason now l)).1
    some-keep first last reason now =
        subst P (sym (some_job-ledger (enqueue_consolidation_job sha256 first last reason now l)))
          (enqueue-keep first last reason now)

    range-keep :
        (reason : ConsolidationReason) (now : Time) (range : Option EventRange)
        → P (enqueue_range sha256 reason now l range).1
    range-keep reason now none = valid
    range-keep reason now (some range) = some-keep range.first range.last reason now

    from-keep :
        (last : Uuid) (reason : ConsolidationReason) (now : Time) (first : Option Uuid)
        → P (enqueue_from sha256 last reason now l first).1
    from-keep last reason now none = valid
    from-keep last reason now (some first) = some-keep first last reason now

    pub threshold-keep :
        (threshold : ℕ) (now : Time) → P (enqueue_event_threshold_job sha256 threshold now l).1
    unfolding enqueue_event_threshold_job
    threshold-keep threshold now =
        then_run-keep P l (due_by_count sha256 threshold l) _ valid
          (λ range _. range-keep event_threshold now range)

    pub through-keep :
        (last : Uuid) (reason : ConsolidationReason) (now : Time)
        → P (enqueue_through_event_job sha256 last reason now l).1
    unfolding enqueue_through_event_job
    through-keep last reason now =
        then_run-keep P l (through_event sha256 last l) _ valid
          (λ first _. from-keep last reason now first)

    pub idle-keep :
        (now : Time) (idle : Duration) (clock : Time)
        → P (enqueue_inactivity_job sha256 now idle clock l).1
    unfolding enqueue_inactivity_job
    idle-keep now idle clock =
        then_run-keep P l (due_by_idleness sha256 now idle l) _ valid
          (λ range _. range-keep inactivity clock range)

  add-LedgerIsValid :
      (l : EventLedger)
      → LedgerIsValid l
      → (row : JobRow) → is_pending row.status ≡ true
      → (row.lease_owner ≡ none) × (row.lease_until_ns ≡ none)
      → any (λ j. j.idempotency_key == row.idempotency_key) l.jobs ≡ false
      → any (λ j. j.job_id == row.job_id) l.jobs ≡ false
      → LedgerIsValid (record l { jobs = l.jobs ++ row ∷ [] })
  add-LedgerIsValid l (ids, keys, rows) row new free fresh_key fresh_id = (
    Distinct-append _ l.jobs row fresh_id ids,
    Distinct-append _ l.jobs row fresh_key keys,
    All-append JobIsValid l.jobs (row ∷ []) rows
        (not_leased row (pending-not_leased row.status new) free.0 free.1, tt),
  )

  pub after_call-LedgerIsValid :
      (call : QueueCall) (l : EventLedger) → LedgerIsValid l → LedgerIsValid (after_call call l)
  unfolding after_call
  after_call-LedgerIsValid (enqueue_events first last reason now) l v =
      enqueue-keep LedgerIsValid l v (add-LedgerIsValid l v) first last reason now
  after_call-LedgerIsValid (enqueue_threshold threshold now) l v =
      threshold-keep LedgerIsValid l v (add-LedgerIsValid l v) threshold now
  after_call-LedgerIsValid (enqueue_through last reason now) l v =
      through-keep LedgerIsValid l v (add-LedgerIsValid l v) last reason now
  after_call-LedgerIsValid (enqueue_idle now idle clock) l v =
      idle-keep LedgerIsValid l v (add-LedgerIsValid l v) now idle clock
  after_call-LedgerIsValid (lease_next worker now duration) l v =
      lease-LedgerIsValid l v worker now duration
  after_call-LedgerIsValid (complete job_id worker now) l v =
      complete-LedgerIsValid l v job_id worker now
  after_call-LedgerIsValid (fail job_id worker error now) l v =
      fail-LedgerIsValid l v job_id worker error now
  after_call-LedgerIsValid (defer job_id worker error available) l v =
      defer-LedgerIsValid l v job_id worker error available
  after_call-LedgerIsValid (retry now) l v = retry-LedgerIsValid l v now

  -- Any calls keep the table valid: a job id and a key stand in one row at most, a leased job has
  -- an owner, an end and a counted attempt, and no other job has a lease.
  pub after_calls-LedgerIsValid :
      (calls : List QueueCall) (l : EventLedger)
      → LedgerIsValid l
      → LedgerIsValid (after_calls calls l)
  unfolding after_calls
  after_calls-LedgerIsValid [] l v = v
  after_calls-LedgerIsValid (call ∷ calls) l v =
      after_calls-LedgerIsValid calls (after_call call l) (after_call-LedgerIsValid call l v)
