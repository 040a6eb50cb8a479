-- ===== src/Jobs/Owners.antt =====
-- What the functions of crates/brain-store/src/jobs.rs that end a lease do for its owner, and that
-- they do nothing for anybody else.
use agent_knowledge_base_cod.Common.{
  ℕ, ◌+◌, ◌*◌, ◌^◌, ◌⊎◌, leb→le, ◌≡◌, ◌≤◌, ◌<◌, ◌≢◌, refl, sym, ap, subst, ◌∙◌, inl, inr, Bool,
  true, false, Bool-cases, Option, none, some, List, [], ◌∷◌, arith, any, &&-true,
  timestamp_ns-eq-ok, find?, find?-sound, count_where, update_where, update_where-none, Result, ok,
  err, ok_or, Text, Time, timestamp_ns, leb, ◌&&◌, bind-eq-ok, ensure-eq-ok, add_time, add_time-pos,
  ns_per_second, seconds, ok-injective,
}
use mathlib.Core.Option.{some-injective}
use agent_knowledge_base_cod.Jobs.Model.{
  Uuid, JobRow, JobStatus, EventLedger, ConsolidationJob, is_leased, lift_time, lift_time-eq-ok,
  job_missing, lease_not_owned, JobError, dead_letter, pending, attempt_range,
}
use agent_knowledge_base_cod.Jobs.Queue.{
  Outcome, then_run, u32_max, is_job, is_owner, is_held, is_owned, change_held, consolidation_job,
  parse_found, parse_job_record, completed_row, complete_consolidation_job, failed_row,
  record_failure, after_failure, failure, fail_consolidation_job, deferred_row, bounded_error,
  defer_consolidation_job,
}

count_where-none :
    (p : JobRow → Bool) (rows : List JobRow) → any p rows ≡ false → count_where p rows ≡ 0
count_where-none p [] h = refl
count_where-none p (r ∷ rows) h = ground (arith, count_where-none p rows)

any-find? :
    (p q : JobRow → Bool) (rows : List JobRow) {row : JobRow}
    → any p rows ≡ false
    → find? q rows ≡ some row
    → p row ≡ false
any-find? p q [] none_p found = cc
any-find? p q (r ∷ rows) {row} none_p found = elim (Bool-cases (q r)) [
  | inl hit ↦ subst (λ x. p x ≡ false) (some-injective r row (rw hit at found)) (ground arith)
  | inr miss ↦ any-find? p q rows (ground arith) (rw miss at found)
]

-- The call is an error and changes nothing.
abbrev pub Refused : Outcome (Unit {0}) → EventLedger → Type 0
Refused outcome ledger = (outcome.0 ≢ ok tt) × (outcome.1.jobs ≡ ledger.jobs)

parse-fields :
    (row : JobRow) {job : ConsolidationJob}
    → parse_job_record row ≡ ok job
    → (job.status ≡ row.status) × (job.lease_owner ≡ row.lease_owner) × (job.attempt ≡ row.attempt)
unfolding parse_job_record
parse-fields row {job} h =
    let (_, h1) = ensure-eq-ok (leb row.attempt u32_max) attempt_range _ h in
    let same = sym (ok-injective h1) in
    (
      ap (λ (j : ConsolidationJob). j.status) same,
      ap (λ (j : ConsolidationJob). j.lease_owner) same,
      ap (λ (j : ConsolidationJob). j.attempt) same,
    )

parse_found-some :
    (found : Option JobRow) {job : ConsolidationJob}
    → parse_found found ≡ ok (some job)
    → (row : JobRow) × (found ≡ some row) × (parse_job_record row ≡ ok job)
unfolding parse_found
parse_found-some none h = cc
parse_found-some (some row) {job} h =
    let (read, e, h1) = bind-eq-ok (parse_job_record row) _ h in
    (row, refl, e ∙ ap ok (some-injective read job (ok-injective h1)))

ok_or-eq-ok :
    (found : Option ConsolidationJob) {job : ConsolidationJob}
    → ok_or found job_missing ≡ ok job
    → found ≡ some job
ok_or-eq-ok none h = cc
ok_or-eq-ok (some j) h = ap some (ok-injective h)

-- The row that a failure is recorded on, and what is recorded.
pub failure-row :
    (job_id : Uuid) (worker : Text) (now : Time) (ledger : EventLedger) {next : JobStatus × Time}
    → failure job_id worker now ledger ≡ ok next
    → (row : JobRow) × (find? (is_job ledger.project_scope job_id) ledger.jobs ≡ some row)
      × (is_leased row.status ≡ true)
      × (is_owner worker row.lease_owner ≡ true)
      × (after_failure row.attempt now ≡ ok next)
unfolding failure consolidation_job
failure-row job_id worker now ledger {next} h =
    let (found, e1, h1) = bind-eq-ok (consolidation_job job_id ledger) _ h in
    let (job, e2, h2) = bind-eq-ok (ok_or found job_missing) _ h1 in
    let (held, h3) =
      ensure-eq-ok (is_leased job.status && is_owner worker job.lease_owner) lease_not_owned _ h2 in
    let (after, e4, h4) = bind-eq-ok (after_failure job.attempt now) _ h3 in
    let (at, e5, h5) = bind-eq-ok (lift_time (timestamp_ns after.1)) _ h4 in
    let (row, is_row, read) =
      parse_found-some (find? (is_job ledger.project_scope job_id) ledger.jobs)
        (e1 ∙ ap ok (ok_or-eq-ok found e2)) in
    let (status, owner, attempt) = parse-fields row read in
    let both = &&-true _ _ held in
    (
      row,
      is_row,
      ap is_leased (sym status) ∙ both.0,
      ap (is_owner worker) (sym owner) ∙ both.1,
      ap (λ (n : ℕ). after_failure n now) (sym attempt)
          ∙ e4
          ∙ ap ok (
              ap (λ (t : Time). (after.0, t)) (sym (timestamp_ns-eq-ok _ (lift_time-eq-ok _ e5)).0)
              ∙ ok-injective h5),
    )

module _ (job_id : Uuid) (worker : Text) (ledger : EventLedger)
    (nobody : any (is_held job_id worker) ledger.jobs ≡ false) where
  change-Refused :
      (change : JobRow → JobRow) → Refused (change_held job_id worker change ledger) ledger
  change-Refused change = (
    rw (count_where-none (is_held job_id worker) ledger.jobs nobody) (λ done. cc done),
    update_where-none (is_held job_id worker) change ledger.jobs nobody,
  )

  then_run-Refused {ℓ} :
      {X : Type ℓ} (r : Result JobError X) (next : X → Outcome (Unit {0}))
      → ((x : X) → r ≡ ok x → Refused (next x) ledger)
      → Refused (then_run ledger r next) ledger
  then_run-Refused (err e) next h = (λ done. cc done, refl)
  then_run-Refused (ok x) next h = h x refl

  failure-refused :
      (now : Time) {next : JobStatus × Time} → failure job_id worker now ledger ≢ ok next
  failure-refused now h =
      let (row, found, status, owner, _) = failure-row job_id worker now ledger h in
      let is = find?-sound (is_job ledger.project_scope job_id) ledger.jobs found in
      let not_held = any-find? (is_held job_id worker) _ ledger.jobs nobody found in
      ground (arith, is, not_held, status, owner)

  -- Where the worker does not hold the job's lease, none of the functions that end a lease
  -- succeeds or changes a job.
  pub not_held-Refused :
      (error : Text) (now : Time)
      → Refused (complete_consolidation_job job_id worker now ledger) ledger
        × Refused (fail_consolidation_job job_id worker error now ledger) ledger
        × Refused (defer_consolidation_job job_id worker error now ledger) ledger
  unfolding complete_consolidation_job fail_consolidation_job defer_consolidation_job
  not_held-Refused error now = (
    then_run-Refused _ _ (λ at _. change-Refused (completed_row at)),
    then_run-Refused (failure job_id worker now ledger) _
        (λ next is. elim (failure-refused now is) [ ]),
    then_run-Refused _ _ (λ at _. change-Refused (deferred_row at (bounded_error error))),
  )

find?-update_where-at :
    (p q : JobRow → Bool) (f : JobRow → JobRow) (rows : List JobRow) {row : JobRow}
    → ((r : JobRow) → q (f r) ≡ q r)
    → find? q rows ≡ some row
    → p row ≡ true
    → find? q (update_where p f rows) ≡ some (f row)
find?-update_where-at p q f [] same found hit = cc
find?-update_where-at p q f (r ∷ rows) {row} same found hit = elim (Bool-cases (q r)) [
  | inl here ↦
      let is = some-injective r row (rw here at found) in
      let hit_r = subst (λ x. p x ≡ true) (sym is) hit in
      rw (hit_r, same r, here) (ap (λ (x : JobRow). some (f x)) is)
  | inr later ↦ elim (Bool-cases (p r)) [
    | inl changed ↦
        rw (changed, same r, later) (find?-update_where-at p q f rows same (rw later at found) hit)
    | inr left ↦ rw (left, later) (find?-update_where-at p q f rows same (rw later at found) hit)
  ]
]

-- The fate of a job after a failed attempt.
abbrev pub Fate : Time → JobRow → JobRow → Type 0
Fate now row after =
    ((5 ≤ row.attempt) × (after.status ≡ dead_letter) × (after.available_at_ns ≡ now))
    ⊎ ((row.attempt < 5)
        × (after.status ≡ pending)
        × (after.available_at_ns ≡ now + 2 ^ row.attempt * 1000000000))

after_failure-Fate :
    (now : Time) (error : Text) (row : JobRow) {next : JobStatus × Time}
    → after_failure row.attempt now ≡ ok next
    → Fate now row (failed_row next.0 next.1 error row)
unfolding after_failure
after_failure-Fate now error row {next} h = elim (Bool-cases (leb 5 row.attempt)) [
  | inl last ↦
      let is = ok-injective (rw last at h) in
      inl (
        leb→le _ _ last,
        sym (ap (λ (n : JobStatus × Time). n.0) is),
        sym (ap (λ (n : JobStatus × Time). n.1) is),
      )
  | inr more ↦
      let (at, e, h1) =
        bind-eq-ok (lift_time (add_time now (seconds (2 ^ row.attempt)))) _ (rw more at h) in
      let is = ok-injective h1 in
      let sum = add_time-pos now (2 ^ row.attempt * ns_per_second) (lift_time-eq-ok _ e) in
      inr (
        ground (arith, more),
        sym (ap (λ (n : JobStatus × Time). n.0) is),
        sym (ap (λ (n : JobStatus × Time). n.1) is) ∙ sum,
      )
]

module _ (job_id : Uuid) (worker error : Text) (now : Time) (ledger : EventLedger) where
  abbrev pub Failed : Outcome (Unit {0}) → Type 0
  Failed outcome =
      (row : JobRow) × (after : JobRow) × (find? (is_job ledger.project_scope job_id) ledger.jobs
        ≡ some row)
      × (find? (is_job ledger.project_scope job_id) outcome.1.jobs ≡ some after)
      × (is_leased row.status ≡ true)
      × (is_owner worker row.lease_owner ≡ true)
      × (after.attempt ≡ row.attempt)
      × (after.lease_owner ≡ none)
      × Fate now row after

  from_failure :
      (text : Text) (r : Result JobError (JobStatus × Time))
      → failure job_id worker now ledger ≡ r
      → (then_run ledger r (record_failure job_id worker text ledger)).0 ≡ ok tt
      → Failed (then_run ledger r (record_failure job_id worker text ledger))
  from_failure text (err e) is h = cc
  from_failure text (ok next) is h =
      let (row, found, status, owner, fate) = failure-row job_id worker now ledger is in
      let here = find?-sound (is_job ledger.project_scope job_id) ledger.jobs found in
      (
        row,
        failed_row next.0 next.1 text row,
        found,
        find?-update_where-at (is_owned job_id worker) (is_job ledger.project_scope job_id)
            (failed_row next.0 next.1 text) ledger.jobs (λ r. refl) found
            (ground (arith, here, owner)),
        status,
        owner,
        refl,
        refl,
        after_failure-Fate now text row fate,
      )

  -- A failure that is recorded was of a lease that the worker held, and ends it. From the fifth
  -- attempt on the job is a dead letter, before that it is due again after 2 to the power of its
  -- attempt in seconds.
  pub fail-Failed :
      (fail_consolidation_job job_id worker error now ledger).0 ≡ ok tt
      → Failed (fail_consolidation_job job_id worker error now ledger)
  unfolding fail_consolidation_job
  fail-Failed = from_failure (bounded_error error) (failure job_id worker now ledger) refl
