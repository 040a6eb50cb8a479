-- ===== src/Jobs/Window.antt =====
-- `unqueued_event_range` of crates/brain-store/src/jobs.rs: the events that the next job spans.
pub mod Bounds
use Prim.Native.Nat.{max}
use agent_knowledge_base_cod.Common.{
  ℕ, ◌+◌, ◌&&◌, Bool, Option, none, some, List, [], ◌∷◌, Time, leb, ltb, ◌==◌, if◌then◌else◌, any,
  filter, take, length,
}
use agent_knowledge_base_cod.Jobs.Model.{
  Uuid, EventRow, EventLedger, evidence_len, max_job_events, max_job_payload_bytes,
}

-- A job of this project ends at the event: the `JOIN` on `last_event_id`.
abbrev pub is_covered_end : EventLedger → EventRow → Bool
is_covered_end ledger e =
    any (λ j. j.project_id == ledger.project_scope && j.last_event_id == e.event_id) ledger.jobs

abbrev pub max_rowid : List EventRow → ℕ
max_rowid [] = 0
max_rowid (e ∷ es) = max e.rowid (max_rowid es)

-- `SELECT COALESCE(MAX(e.rowid), 0) FROM consolidation_jobs j JOIN events e …`
unfoldable pub last_covered_row : EventLedger → ℕ
last_covered_row ledger = max_rowid (filter (is_covered_end ledger) ledger.events)

-- `WHERE project_id = ?1 AND rowid > ?2`
abbrev pub is_uncovered : Uuid → ℕ → EventRow → Bool
is_uncovered project covered e = e.project_id == project && ltb covered e.rowid

-- The rows whose running sum is within the limit, from a sum already reached.
abbrev pub within : ℕ → List EventRow → List EventRow
within running [] = []
within running (e ∷ es) =
    let rest = within (running + evidence_len e) es in
    if leb (running + evidence_len e) max_job_payload_bytes then e ∷ rest else rest

-- `WHERE position = 1 OR running_bytes <= ?4`
abbrev pub window : List EventRow → List EventRow
window [] = []
window (e ∷ es) = e ∷ within (evidence_len e) es

-- `MAX(rowid)` over the window, where `NULL` is an empty window.
abbrev pub last_row : List EventRow → Option ℕ
last_row [] = none
last_row (e ∷ es) = some (max_rowid (e ∷ es))

pub record EventRange : Type 0 where
  pub first : Uuid
  pub last : Uuid
  pub count : ℕ
  pub latest_observed : Time

abbrev pub last_id : EventRow → List EventRow → Uuid
last_id e [] = e.event_id
last_id e (f ∷ fs) = last_id f fs

abbrev pub max_observed : List EventRow → Time
max_observed [] = 0
max_observed (e ∷ es) = max e.observed_at_ns (max_observed es)

-- `HAVING COUNT(*) > 0`
abbrev pub range_of : List EventRow → Option EventRange
range_of [] = none
range_of (e ∷ es) = some (record {
  first = e.event_id;
  last = last_id e es;
  count = length (e ∷ es);
  latest_observed = max_observed (e ∷ es);
})

unfoldable pub uncovered : EventLedger → List EventRow
unfolding last_covered_row
uncovered ledger =
    filter (is_uncovered ledger.project_scope (last_covered_row ledger)) ledger.events

-- The events that the second statement ranges over.
abbrev pub up_to : Option ℕ → List EventRow → List EventRow
up_to none rows = []
up_to (some row) rows = filter (λ e. leb e.rowid row) rows

unfoldable pub spanned : EventLedger → List EventRow
unfolding uncovered
spanned ledger =
    up_to (last_row (window (take max_job_events (uncovered ledger)))) (uncovered ledger)

unfoldable pub unqueued_event_range : EventLedger → Option EventRange
unfolding spanned
unqueued_event_range ledger = range_of (spanned ledger)
