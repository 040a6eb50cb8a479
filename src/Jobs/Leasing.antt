-- ===== src/Jobs/Leasing.antt =====
-- Which lease `lease_consolidation_job` of crates/brain-store/src/jobs.rs grants, and that it
-- grants one where it can.
use agent_knowledge_base_cod.Common.{
  ℕ, ◌≡◌, ◌<◌, refl, sym, subst, ap, ◌∙◌, inl, inr, true, false, Bool-cases, Option, none, some,
  List, [], ◌∷◌, arith, find?, filter, All, update_where, Result, ok, err, Text, Time, Duration,
  ◌==◌, bind-eq-ok, ensure-eq-ok, timestamp_ns, ok-injective, is_blank, not, is_positive, add_time,
  timestamp_ns-eq-ok, add_time-lt, leb, ◌⊎◌, leb→le, &&-true, ==_iff, ◌&&◌, ◌≤◌, ◌+◌,
}
use mathlib.Core.Option.{some-injective}
use agent_knowledge_base_cod.Jobs.Model.{
  is_pending, is_leased, Uuid, JobRow, EventLedger, ConsolidationJob, lift_time, lift_time-eq-ok,
  attempt_range, JobError, worker_empty, duration_not_positive,
}
use agent_knowledge_base_cod.Jobs.Queue.{
  then_run, u32_max, has_id, leased_row, pick_job, next_job, with_end, commit_lease,
  lease_consolidation_job, is_eligible, parse_job_record, comes_first, Outcome,
}
use agent_knowledge_base_cod.Jobs.Terminal.{pick_job-Picked}
use agent_knowledge_base_cod.Jobs.Validity.{LedgerIsValid}

-- The project's job waits and is due, or is leased and its lease is over.
abbrev pub IsFree : Uuid → Time → JobRow → Type 0
IsFree project now row =
    (row.project_id ≡ project)
    × (((is_pending row.status ≡ true) × (row.available_at_ns ≤ now))
        ⊎ ((is_leased row.status ≡ true)
            × ((until : Time) × (row.lease_until_ns ≡ some until) × (until ≤ now))))

until_over-le :
    (now : Time) (end : Option Time)
    → elim end [ none ↦ false | some until ↦ leb until now ] ≡ true
    → (until : Time) × (end ≡ some until) × (until ≤ now)
until_over-le now none h = cc
until_over-le now (some until) h = (until, refl, leb→le until now h)

eligible-IsFree :
    (project : Uuid) (now : Time) (row : JobRow)
    → is_eligible project now row ≡ true
    → IsFree project now row
eligible-IsFree project now row h =
    let (here, free) = &&-true _ _ h in
    (
      (==_iff row.project_id project).0 here,
      elim (Bool-cases (is_pending row.status && leb row.available_at_ns now)) [
        | inl due ↦ let (waits, since) = &&-true _ _ due in inl (waits, leb→le _ _ since)
        | inr not_due ↦
            let (held, over) = &&-true _ _ (rw not_due at free) in
            inr (held, until_over-le now row.lease_until_ns over)
      ],
    )

-- The job before the call, and what the table has of it after the call.
abbrev pub Granted : Text → Time → EventLedger → ConsolidationJob → EventLedger → Type 0
Granted worker now ledger job after =
    (row : JobRow) × (held : JobRow) × (until : Time) × IsFree ledger.project_scope now row
    × All (λ r. comes_first r row ≡ false)
        (filter (is_eligible ledger.project_scope now) ledger.jobs)
    × (find? (has_id job.id) ledger.jobs ≡ some row)
    × (find? (has_id job.id) after.jobs ≡ some held)
    × (is_leased held.status ≡ true)
    × (held.lease_owner ≡ some worker)
    × (held.lease_until_ns ≡ some until)
    × (now < until)
    × (held.attempt ≡ row.attempt + 1)

find?-update_where-hit :
    (id : Uuid) (f : JobRow → JobRow) (rows : List JobRow) {row : JobRow}
    → ((r : JobRow) → (f r).job_id ≡ r.job_id)
    → find? (has_id id) rows ≡ some row
    → find? (has_id id) (update_where (has_id id) f rows) ≡ some (f row)
find?-update_where-hit id f [] same h = cc
find?-update_where-hit id f (r ∷ rows) {row} same h = elim (Bool-cases (r.job_id == id)) [
  | inl hit ↦
      rw (hit, ap (λ (n : ℕ). n == id) (same r) ∙ hit)
        (ap (λ (x : JobRow). some (f x)) (some-injective r row (rw hit at h)))
  | inr miss ↦ rw (miss, miss) (find?-update_where-hit id f rows same (rw miss at h))
]

with_end-later :
    (now : Time) (duration : Duration) (found : Option JobRow) {row : JobRow} {until : Time}
    → is_positive duration ≡ true
    → with_end now duration found ≡ ok (some (row, until))
    → now < until
with_end-later now duration none p h = cc
with_end-later now duration (some r) {row} {until} p h =
    let (end, e1, h1) = bind-eq-ok (lift_time (add_time now duration)) _ h in
    let (at, e2, h2) = bind-eq-ok (lift_time (timestamp_ns end)) _ h1 in
    let is_until = ap (λ (pair : JobRow × Time). pair.1) (some-injective _ _ (ok-injective h2)) in
    let is_end = timestamp_ns-eq-ok end (lift_time-eq-ok (timestamp_ns end) e2) in
    let later = add_time-lt now duration p (lift_time-eq-ok (add_time now duration) e1) in
    omega (arith, later, is_end.0, is_until)

pick_job-later :
    (worker : Text) (now : Time) (duration : Duration) (l : EventLedger) {row : JobRow}
    {until : Time}
    → pick_job worker now duration l ≡ ok (some (row, until))
    → now < until
unfolding pick_job
pick_job-later worker now duration l {row} {until} h =
    let (_, h1) = ensure-eq-ok (not (is_blank worker)) worker_empty _ h in
    let (positive, h2) = ensure-eq-ok (is_positive duration) duration_not_positive _ h1 in
    let (at, _, h3) = bind-eq-ok (lift_time (timestamp_ns now)) _ h2 in
    with_end-later now duration (next_job at l) positive h3

parse-id :
    (row : JobRow) {job : ConsolidationJob} → parse_job_record row ≡ ok job → job.id ≡ row.job_id
unfolding parse_job_record
parse-id row {job} h =
    let (_, h1) = ensure-eq-ok (leb row.attempt u32_max) attempt_range _ h in
    sym (ap (λ (j : ConsolidationJob). j.id) (ok-injective h1))

module _ (worker : Text) (now : Time) (duration : Duration) (ledger : EventLedger)
    (valid : LedgerIsValid ledger) where
  from_pick :
      (r : Result JobError (Option (JobRow × Time))) {job : ConsolidationJob} {after : EventLedger}
      → pick_job worker now duration ledger ≡ r
      → then_run ledger r (commit_lease worker ledger) ≡ (ok (some job), after)
      → Granted worker now ledger job after
  from_pick (err e) is h = cc
  from_pick (ok none) is h = cc
  from_pick (ok (some (row, until))) {job} {after} is h =
      let (at, is_now, (eligible, found, least)) =
        pick_job-Picked worker now duration ledger valid is in
      let at_now = (timestamp_ns-eq-ok now (lift_time-eq-ok (timestamp_ns now) is_now)).0 in
      let (read, e1, h1) =
        bind-eq-ok (parse_job_record (leased_row worker until row)) _
          (ap (λ (o : Outcome (Option ConsolidationJob)). o.0) h) in
      let id_row =
        ap (λ (j : ConsolidationJob). j.id) (sym (some-injective _ _ (ok-injective h1)))
        ∙ parse-id (leased_row worker until row) e1 in
      (
        row,
        leased_row worker until row,
        until,
        eligible-IsFree ledger.project_scope now row
            (subst (λ t. is_eligible ledger.project_scope t row ≡ true) at_now eligible),
        subst
            (λ t.
              All (λ r. comes_first r row ≡ false)
                (filter (is_eligible ledger.project_scope t) ledger.jobs))
            at_now least,
        subst (λ (n : ℕ). find? (has_id n) ledger.jobs ≡ some row) (sym id_row) found,
        subst
            (λ (l : EventLedger). find? (has_id job.id) l.jobs ≡ some (leased_row worker until row))
            (ap (λ (o : Outcome (Option ConsolidationJob)). o.1) h)
            (subst
              (λ (n : ℕ).
                find? (has_id n)
                  (update_where (has_id row.job_id) (leased_row worker until) ledger.jobs)
                ≡ some (leased_row worker until row))
              (sym id_row)
              (find?-update_where-hit row.job_id (leased_row worker until) ledger.jobs (λ r. refl)
                found)),
        refl,
        refl,
        refl,
        pick_job-later worker now duration ledger is,
        refl,
      )

  -- In a valid table, a lease is granted on a pending job that is due or on one whose lease is
  -- over, before which no other such job comes. Afterwards it is the worker's, past `now`, and
  -- its attempt is counted.
  pub lease-Granted :
      {job : ConsolidationJob} {after : EventLedger}
      → lease_consolidation_job worker now duration ledger ≡ (ok (some job), after)
      → Granted worker now ledger job after
  unfolding lease_consolidation_job
  lease-Granted h = from_pick (pick_job worker now duration ledger) refl h
