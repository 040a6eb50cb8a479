-- ===== src/Jobs/Model.antt =====
-- The rows of `events` and `consolidation_jobs` (crates/brain-store/src/migrations.rs) and the
-- types of crates/brain-store/src/jobs.rs. `events` is kept in the order of its rowids.
use agent_knowledge_base_cod.Common.{
  ℕ, ◌+◌, ◌≡◌, Bool, true, false, Option, List, Text, codes, length, Time, TimeError, Result, ok,
  err, ok-injective, ap,
}

abbrev pub Uuid : Type 0
Uuid = ℕ

abbrev pub max_job_events : ℕ
max_job_events = 200

abbrev pub max_job_payload_bytes : ℕ
max_job_payload_bytes = 150000

pub data ConsolidationReason : Type 0 where
  session_stopped session_compacted explicit_checkpoint inactivity event_threshold :
      ConsolidationReason

unfoldable pub reason_as_str : ConsolidationReason → Text
reason_as_str session_stopped = codes "session_stopped"
reason_as_str session_compacted = codes "session_compacted"
reason_as_str explicit_checkpoint = codes "explicit_checkpoint"
reason_as_str inactivity = codes "inactivity"
reason_as_str event_threshold = codes "event_threshold"

pub data JobStatus : Type 0 where
  pending leased completed dead_letter : JobStatus

abbrev pub is_pending : JobStatus → Bool
is_pending pending = true
is_pending _ = false

abbrev pub is_leased : JobStatus → Bool
is_leased leased = true
is_leased _ = false

abbrev pub is_completed : JobStatus → Bool
is_completed completed = true
is_completed _ = false

abbrev pub is_dead_letter : JobStatus → Bool
is_dead_letter dead_letter = true
is_dead_letter _ = false

-- The columns of an event that the queue reads.
pub record EventRow : Type 0 where
  pub rowid : ℕ
  pub event_id : Uuid
  pub project_id : Uuid
  pub payload_json : Text
  pub raw_json : Text
  pub observed_at_ns : Time

-- `LENGTH(payload_json) + LENGTH(raw_json)`: on text, SQLite's `LENGTH` counts characters.
abbrev pub evidence_len : EventRow → ℕ
evidence_len e = length e.payload_json + length e.raw_json

pub record JobRow : Type 0 where
  pub job_id : Uuid
  pub project_id : Uuid
  pub first_event_id : Uuid
  pub last_event_id : Uuid
  pub reason : ConsolidationReason
  pub idempotency_key : ℕ
  pub status : JobStatus
  pub attempt : ℕ
  pub available_at_ns : Time
  pub lease_owner : Option Text
  pub lease_until_ns : Option Time
  pub last_error : Option Text
  pub created_at_ns : Time
  pub completed_at_ns : Option Time

pub record ConsolidationJob : Type 0 where
  pub id : Uuid
  pub project_id : Uuid
  pub first_event_id : Uuid
  pub last_event_id : Uuid
  pub reason : ConsolidationReason
  pub status : JobStatus
  pub attempt : ℕ
  pub available_at : Time
  pub lease_owner : Option Text
  pub lease_until : Option Time
  pub last_error : Option Text

pub record ConsolidationQueue : Type 0 where
  pub pending_jobs : ℕ
  pub leased_jobs : ℕ
  pub completed_jobs : ℕ
  pub dead_letters : ℕ
  pub last_dead_letter : Option Text

-- A row of `redaction_manifests`. The hash is a number of 32 bytes, so its CHECK clause holds.
pub record RedactionRow : Type 0 where
  pub job_id : Uuid
  pub category : Text
  pub token_hash : ℕ

-- The part of `EventLedger` that the queue reads and writes.
pub record EventLedger : Type 0 where
  pub project_scope : Uuid
  pub events : List EventRow
  pub jobs : List JobRow
  pub redactions : List RedactionRow

pub data JobError : Type 0 where
  time : TimeError → JobError
  -- `u32::try_from(attempt)`
  attempt_range : JobError
  -- a PRIMARY KEY or UNIQUE clause of the schema
  constraint : JobError
  -- a REFERENCES clause
  foreign_key : JobError
  event_outside job_missing threshold_zero inactivity_not_positive event_missing : JobError
  worker_empty duration_not_positive lease_not_owned : JobError

abbrev pub lift_time {ℓ} : {A : Type ℓ} → Result TimeError A → Result JobError A
lift_time (ok a) = ok a
lift_time (err e) = err (time e)

pub lift_time-eq-ok {ℓ} :
    {A : Type ℓ} (r : Result TimeError A) {a : A} → lift_time r ≡ ok a → r ≡ ok a
lift_time-eq-ok (ok b) h = ap ok (ok-injective h)
lift_time-eq-ok (err e) h = cc
