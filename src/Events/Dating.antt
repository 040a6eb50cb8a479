-- ===== src/Events/Dating.antt =====
-- Events are dated by their observation where they have no date of their own: when they are stored,
-- by crates/brain-store/src/ledger.rs, or later, by `repair_epoch_event_dates` of memory.rs.
use agent_knowledge_base_cod.Common.{
  true, ◌⊎◌, ◌<◌, ◌==◌, ◌&&◌, Bool, if◌then◌else◌, ltb, leb, unix_epoch, map, ℕ, ◌≡◌, refl, ap,
  subst, inl, inr, Bool-cases, false, List, [], ◌∷◌, arith, All, All-append, update_where,
  count_where, Time, timestamp_ns, ok, bind-eq-ok, ensure-eq-ok, ok-injective,
}
use agent_knowledge_base_cod.Domain.Memory.{Uuid}
use agent_knowledge_base_cod.Domain.Event.{NormalizedEvent, EventBatch}
use agent_knowledge_base_cod.Events.{
  EventApi, EventRow, EventStore, AppendResult, foreign_project, lift_time, undated_before,
  occurred_or_observed, stored_row, insert_event, insert_events, quarantine_rows, gap_rows,
  save_cursor, append_batch,
}
use agent_knowledge_base_cod.Events.Inserts.{put_event-cases}

-- `WHERE project_id = ?1 AND …`
abbrev pub is_undated : Uuid → EventRow → Bool
is_undated project row =
    row.project_id == project
    && ltb row.occurred_at_ns undated_before
    && leb undated_before row.observed_at_ns

abbrev pub dated_row : EventRow → EventRow
dated_row row = record row { occurred_at_ns = row.observed_at_ns }

-- The number of rows that change, and the ledger.
unfoldable pub repair_epoch_event_dates : EventStore → ℕ × EventStore
repair_epoch_event_dates store = (
  count_where (is_undated store.project_scope) store.events,
  record store { events = update_where (is_undated store.project_scope) dated_row store.events },
)

-- A row of the project that stands at the epoch beside a real observation.
abbrev pub is_at_epoch : Uuid → EventRow → Bool
is_at_epoch project row =
    row.project_id == project
    && row.occurred_at_ns == unix_epoch
    && leb undated_before row.observed_at_ns

-- The row, from the moment that capture saw it if it stands at the epoch.
abbrev pub from_observation : Uuid → EventRow → EventRow
from_observation project row =
    if is_at_epoch project row then record row { occurred_at_ns = row.observed_at_ns } else row

-- No row has a date within a year of the epoch but the epoch itself.
abbrev pub AllMeasured : List EventRow → Type 0
AllMeasured rows =
    All
      (λ (row : EventRow).
        (row.occurred_at_ns ≡ unix_epoch) ⊎ (undated_before < row.occurred_at_ns))
      rows

abbrev pub NoneAtEpoch : Uuid → List EventRow → Type 0
NoneAtEpoch project rows = All (λ (row : EventRow). is_at_epoch project row ≡ false) rows

same_test :
    (project : Uuid) (row : EventRow)
    → (row.occurred_at_ns ≡ unix_epoch) ⊎ (undated_before < row.occurred_at_ns)
    → is_undated project row ≡ is_at_epoch project row
same_test project row h = ground (arith, h)

repaired_rows :
    (project : Uuid) (rows : List EventRow)
    → AllMeasured rows
    → (count_where (is_undated project) rows ≡ count_where (is_at_epoch project) rows)
      × (update_where (is_undated project) dated_row rows ≡ map (from_observation project) rows)
repaired_rows project [] h = (refl, refl)
repaired_rows project (row ∷ rows) h =
    let (counts, same) = repaired_rows project rows h.1 in
    let test = same_test project row h.0 in
    elim (Bool-cases (is_at_epoch project row)) [
      | inl moved ↦ rw (test, moved, counts, same) (refl, refl)
      | inr kept ↦ rw (test, kept, counts, same) (refl, refl)
    ]

-- What is repaired is not at the epoch and is not moved again.
dated_row-at_epoch :
    (project : Uuid) (row : EventRow)
    → is_undated project row ≡ true
    → (is_at_epoch project (dated_row row) ≡ false) × (is_undated project (dated_row row) ≡ false)
dated_row-at_epoch project row h = (ground arith, ground arith)

kept-at_epoch :
    (project : Uuid) (row : EventRow)
    → is_undated project row ≡ false
    → is_at_epoch project row ≡ false
kept-at_epoch project row h = ground arith

repaired_again :
    (project : Uuid) (rows : List EventRow)
    → let after = update_where (is_undated project) dated_row rows in
      NoneAtEpoch project after
      × (count_where (is_undated project) after ≡ 0)
      × (update_where (is_undated project) dated_row after ≡ after)
repaired_again project [] = (tt, refl, refl)
repaired_again project (row ∷ rows) =
    let (none_left, none_counted, same) = repaired_again project rows in
    elim (Bool-cases (is_undated project row)) [
      | inl undated ↦
          let (off_epoch, dated) = dated_row-at_epoch project row undated in
          rw (undated, dated, none_counted, same) ((off_epoch, none_left), refl, refl)
      | inr dated ↦
          rw (dated, dated, none_counted, same)
            ((kept-at_epoch project row dated, none_left), refl, refl)
    ]

stored_row-at_epoch :
    {Json : Type 0} (api : EventApi Json) (e : NormalizedEvent Json) (raw observed project : ℕ)
    → is_at_epoch project (stored_row api e (occurred_or_observed raw observed) observed) ≡ false
stored_row-at_epoch api e raw observed project = ground arith

module _ {Json : Type 0} (api : EventApi Json) (project : Uuid) where
  insert_event-NoneAtEpoch :
      (e : NormalizedEvent Json) (rows : List EventRow) {r : ℕ × List EventRow}
      → insert_event api e rows ≡ ok r
      → NoneAtEpoch project rows
      → NoneAtEpoch project r.1
  unfolding insert_event
  insert_event-NoneAtEpoch e rows done h =
      let (observed, seen, a) = bind-eq-ok (lift_time (timestamp_ns e.observed_at)) _ done in
      let (raw, dated, b) = bind-eq-ok (lift_time (timestamp_ns e.occurred_at)) _ a in
      let row = stored_row api e (occurred_or_observed raw observed) observed in
      elim (put_event-cases row rows b) [
        | inl (had, same) ↦ subst (NoneAtEpoch project) same h
        | inr (new, same) ↦
            subst (NoneAtEpoch project) same
              (All-append _ rows (row ∷ []) h (stored_row-at_epoch api e raw observed project, tt))
      ]

  insert_events-NoneAtEpoch :
      (es : List (NormalizedEvent Json)) (rows : List EventRow) {r : ℕ × List EventRow}
      → insert_events api es rows ≡ ok r
      → NoneAtEpoch project rows
      → NoneAtEpoch project r.1
  insert_events-NoneAtEpoch [] rows done h =
      subst (NoneAtEpoch project) (ap (λ (r : ℕ × List EventRow). r.1) (ok-injective done)) h
  insert_events-NoneAtEpoch (e ∷ es) rows done h =
      let (first, one, a) = bind-eq-ok (insert_event api e rows) _ done in
      let (others, more, b) = bind-eq-ok (insert_events api es first.1) _ a in
      subst (NoneAtEpoch project) (ap (λ (r : ℕ × List EventRow). r.1) (ok-injective b))
        (insert_events-NoneAtEpoch es first.1 more (insert_event-NoneAtEpoch e rows one h))

append_batch-NoneAtEpoch :
    {Json : Type 0} (api : EventApi Json) (now : Time) (batch : EventBatch Json) (project : Uuid)
    (store after : EventStore) (result : AppendResult)
    → append_batch api now batch store ≡ ok (result, after)
    → NoneAtEpoch project store.events
    → NoneAtEpoch project after.events
unfolding append_batch
append_batch-NoneAtEpoch api now batch project store after result done h =
    let (own, a) = ensure-eq-ok _ foreign_project _ done in
    let (stored, inserted, b) = bind-eq-ok (insert_events api batch.events store.events) _ a in
    let (bad, _, c) = bind-eq-ok (quarantine_rows batch.source_id batch.quarantined) _ b in
    let (gaps, _, d) = bind-eq-ok (gap_rows api batch.source_id batch.capture_gaps) _ c in
    let (cursors, _, e) =
      bind-eq-ok (save_cursor api batch.source_id batch.next_cursor now store.source_cursors) _ d in
    subst (λ (s : EventStore). NoneAtEpoch project s.events)
      (ap (λ (r : AppendResult × EventStore). r.1) (ok-injective e))
      (insert_events-NoneAtEpoch api project batch.events store.events inserted h)

-- Where each event that is not dated at the epoch itself is dated more than a year after it, the
-- repair gives the number of the project's events that stand at the epoch beside an observation a
-- year later or more, dates just these by their observation and changes nothing else. A second
-- repair finds nothing, and after a batch that is appended to the repaired ledger the project has
-- no such event either.
pub repair_epoch_event_dates-IsRepair :
    {Json : Type 0} (api : EventApi Json) (now : Time) (batch : EventBatch Json)
    (store after : EventStore) (result : AppendResult)
    → AllMeasured store.events
    → append_batch api now batch (repair_epoch_event_dates store).1 ≡ ok (result, after)
    → (repair_epoch_event_dates store ≡ (
      count_where (is_at_epoch store.project_scope) store.events,
      record store { events = map (from_observation store.project_scope) store.events },
    ))
      × (repair_epoch_event_dates (repair_epoch_event_dates store).1
          ≡ (0, (repair_epoch_event_dates store).1))
      × NoneAtEpoch store.project_scope after.events
unfolding repair_epoch_event_dates
repair_epoch_event_dates-IsRepair api now batch store after result measured done =
    let project = store.project_scope in
    let (counts, same) = repaired_rows project store.events measured in
    let (none_left, none_counted, again) = repaired_again project store.events in
    (
      rw (counts, same) refl,
      rw (none_counted, again) refl,
      append_batch-NoneAtEpoch api now batch project (repair_epoch_event_dates store).1 after result
          done none_left,
    )
