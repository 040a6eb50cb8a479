-- ===== src/Events.antt =====
-- The event ledger of crates/brain-store/src/ledger.rs and cursor.rs: its tables, and the batches that
-- capture appends to them.
mod Rows
pub mod Cursor
pub mod Drift
pub mod Deliveries
pub mod Channels
pub mod Reads
pub mod Sessions
pub mod Pages
pub mod Inserts
pub mod Dating
pub mod Replay
pub mod Resolved
mod Tests
mod ReadTests
pub use Rows.*
use agent_knowledge_base_cod.Common.{
  ℕ, ◌+◌, ◌*◌, ◌==◌, ◌&&◌, not, Bool, Option, none, some, List, [], ◌∷◌, ◌++◌, length, Text,
  text_eq, Time, timestamp_ns, unix_epoch, Result, ok, err, ◌>>=◌, ◌>>◌, ensure, any, find?,
  update_where, ltb, leb, if◌then◌else◌,
}
use agent_knowledge_base_cod.Domain.Harness.{as_str}
use agent_knowledge_base_cod.Domain.Memory.{Uuid}
use agent_knowledge_base_cod.Events.Rows.{
  EventApi, EventRow, QuarantineRow, GapRow, CursorRow, EventStore, AppendResult, EventError,
  foreign_project, constraint, cursor_invalid, lift_time,
}
use agent_knowledge_base_cod.Domain.Event.{
  SourceCursor, cursor_start, NormalizedEvent, QuarantinedRecord, CaptureGapRecord, EventBatch,
  event_type_as_str,
}

-- `UNDATED_BEFORE_NS`: one year after the epoch.
abbrev pub undated_before : Time
undated_before = unix_epoch + 31536000 * 1000000000

-- An event that has no date takes that of its observation.
abbrev pub occurred_or_observed : Time → Time → Time
occurred_or_observed raw observed =
    if ltb raw undated_before && leb undated_before observed then observed else raw

abbrev pub has_key : ℕ → EventRow → Bool
has_key key row = row.idempotency_key == key

abbrev pub has_event_id : Uuid → EventRow → Bool
has_event_id id row = row.event_id == id

-- `INSERT … ON CONFLICT(idempotency_key) DO NOTHING`: the conflict is looked for first.
abbrev pub put_event : EventRow → List EventRow → Result EventError (ℕ × List EventRow)
put_event row rows =
    if any (has_key row.idempotency_key) rows
    then ok (0, rows)
    else if any (has_event_id row.event_id) rows
    then err constraint
    else ok (1, rows ++ (row ∷ []))

abbrev pub quarantine_row : Text → QuarantinedRecord → Result EventError QuarantineRow
quarantine_row source_id r = do
  observed ← lift_time (timestamp_ns r.observed_at)
  ok (record {
    source_id = source_id;
    source_locator = r.source_locator;
    source_offset = r.source_offset;
    raw_hash = r.raw_hash;
    error = r.error;
    observed_at_ns = observed;
  })

-- The rows that the loop over `quarantined` inserts.
abbrev pub quarantine_rows : Text → List QuarantinedRecord → Result EventError (List QuarantineRow)
quarantine_rows source_id [] = ok []
quarantine_rows source_id (r ∷ rs) = do
  row ← quarantine_row source_id r
  rows ← quarantine_rows source_id rs
  ok (row ∷ rows)

abbrev pub upsert_cursor : CursorRow → List CursorRow → List CursorRow
upsert_cursor row rows =
    if any (λ (c : CursorRow). text_eq c.source_id row.source_id) rows
    then update_where (λ (c : CursorRow). text_eq c.source_id row.source_id)
        (λ (c : CursorRow). record c {
          cursor_json = row.cursor_json;
          updated_at_ns = row.updated_at_ns;
        })
        rows
    else rows ++ (row ∷ [])

module _ {Json : Type 0} (api : EventApi Json) where
  abbrev pub stored_row : NormalizedEvent Json → Time → Time → EventRow
  stored_row e occurred observed = record {
    event_id = e.event_id;
    project_id = e.project_id;
    worktree_id = e.worktree_id;
    task_id = e.task_id;
    harness = as_str e.harness;
    native_session_id = e.native_session_id;
    native_turn_id = e.native_turn_id;
    event_type = event_type_as_str e.event_type;
    occurred_at_ns = occurred;
    observed_at_ns = observed;
    source_locator = e.source_locator;
    source_offset = e.source_offset;
    source_schema = e.source_schema;
    raw_hash = e.raw_hash;
    idempotency_key = e.idempotency_key;
    git_head = e.git_head;
    git_branch = e.git_branch;
    payload_json = api.to_string e.payload;
    raw_json = api.to_string e.raw;
  }

  unfoldable pub insert_event :
      NormalizedEvent Json → List EventRow → Result EventError (ℕ × List EventRow)
  insert_event e rows = do
    observed ← lift_time (timestamp_ns e.observed_at)
    raw ← lift_time (timestamp_ns e.occurred_at)
    put_event (stored_row e (occurred_or_observed raw observed) observed) rows

  -- The loop over `events`: how many rows are inserted, and the table.
  abbrev pub insert_events :
      List (NormalizedEvent Json) → List EventRow → Result EventError (ℕ × List EventRow)
  insert_events [] rows = ok (0, rows)
  insert_events (e ∷ es) rows = do
    first ← insert_event e rows
    others ← insert_events es first.1
    ok (first.0 + others.0, others.1)

  abbrev pub optional_cursor : Option (SourceCursor Json) → Option Text
  optional_cursor none = none
  optional_cursor (some cursor) = some (api.cursor_to_string cursor)

  abbrev pub gap_row : Text → CaptureGapRecord Json → Result EventError GapRow
  gap_row source_id g = do
    observed ← lift_time (timestamp_ns g.observed_at)
    ok (record {
      source_id = source_id;
      expected_cursor_json = api.cursor_to_string g.expected_cursor;
      observed_cursor_json = optional_cursor g.observed_cursor;
      reason = g.reason;
      observed_at_ns = observed;
      resolved_at_ns = none;
    })

  abbrev pub gap_rows : Text → List (CaptureGapRecord Json) → Result EventError (List GapRow)
  gap_rows source_id [] = ok []
  gap_rows source_id (g ∷ gs) = do
    row ← gap_row source_id g
    rows ← gap_rows source_id gs
    ok (row ∷ rows)

  unfoldable pub save_cursor :
      Text → SourceCursor Json → Time → List CursorRow → Result EventError (List CursorRow)
  save_cursor source_id cursor now rows = do
    updated ← lift_time (timestamp_ns now)
    ok (
        upsert_cursor
          (record {
            source_id = source_id;
            cursor_json = api.cursor_to_string cursor;
            updated_at_ns = updated;
          })
          rows)

  abbrev parsed_cursor : Option (SourceCursor Json) → Result EventError (SourceCursor Json)
  parsed_cursor (some cursor) = ok cursor
  parsed_cursor none = err cursor_invalid

  abbrev cursor_of_row : Option CursorRow → Result EventError (SourceCursor Json)
  cursor_of_row none = ok cursor_start
  cursor_of_row (some row) = parsed_cursor (api.cursor_from_str row.cursor_json)

  unfoldable pub load_cursor : List CursorRow → Text → Result EventError (SourceCursor Json)
  load_cursor rows source_id =
      cursor_of_row (find? (λ (c : CursorRow). text_eq c.source_id source_id) rows)

  -- `EventLedger::cursor`
  abbrev pub cursor : Text → EventStore → Result EventError (SourceCursor Json)
  cursor source_id store = load_cursor store.source_cursors source_id

  -- The transaction commits as a whole. `now` is the clock that `save_cursor` reads.
  unfoldable pub append_batch :
      Time → EventBatch Json → EventStore → Result EventError (AppendResult × EventStore)
  append_batch now batch store = do
    ensure
        (not (
          any (λ (e : NormalizedEvent Json). not (e.project_id == store.project_scope))
            batch.events))
        foreign_project
    stored ← insert_events batch.events store.events
    bad ← quarantine_rows batch.source_id batch.quarantined
    gaps ← gap_rows batch.source_id batch.capture_gaps
    cursors ← save_cursor batch.source_id batch.next_cursor now store.source_cursors
    ok (
      record { inserted = stored.0; quarantined = length bad; capture_gaps = length gaps },
      record store {
        events = stored.1;
        quarantine = store.quarantine ++ bad;
        capture_gaps = store.capture_gaps ++ gaps;
        source_cursors = cursors;
        search_cache = [];
      },
    )
