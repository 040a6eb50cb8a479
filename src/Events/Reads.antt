-- ===== src/Events/Reads.antt =====
-- The reads of events in crates/brain-store/src/ledger.rs. `usize` has 64 bits.
use Prim.Native.Nat.{min}
use agent_knowledge_base_cod.Common.{
  ℕ, suc, ◌-◌, ◌==◌, ◌&&◌, ◌||◌, Bool, true, false, Option, none, some, List, [], ◌∷◌, Text,
  text_eq, Time, ℤ, pos, negsuc, i64_max, timestamp_ns, Result, ok, ◌>>=◌, ◌>>◌, ensure, find?,
  filter, take, drop, sort_by, count_where, ltb, leb, if◌then◌else◌, ok_or,
}
use agent_knowledge_base_cod.Domain.Harness.{Harness, parse_harness}
use agent_knowledge_base_cod.Domain.Memory.{Uuid}
use agent_knowledge_base_cod.Domain.Event.{EventType, event_type_from_name}
use agent_knowledge_base_cod.Events.{
  EventApi, EventRow, EventStore, EventError, lift_time, has_event_id, foreign_project,
  event_missing,
}

pub record StoredEvent (Json : Type 0) : Type 0 where
  pub event_id : Uuid
  pub project_id : Uuid
  pub worktree_id : Uuid
  pub task_id : Option Uuid
  pub harness : Harness
  pub native_session_id : Text
  pub event_type : EventType
  pub occurred_at : Time
  pub observed_at : Time
  pub source_locator : Text
  pub source_offset : ℤ
  pub git_head : Option Text
  pub git_branch : Option Text
  pub payload : Json
  pub raw : Json

abbrev pub of_project : EventStore → EventRow → Bool
of_project store row = row.project_id == store.project_scope

abbrev pub lt_offset : ℤ → ℤ → Bool
lt_offset (pos a) (pos b) = ltb a b
lt_offset (negsuc a) (negsuc b) = ltb b a
lt_offset (negsuc a) (pos b) = true
lt_offset (pos a) (negsuc b) = false

-- `ORDER BY occurred_at_ns, observed_at_ns, source_offset`
abbrev pub is_earlier : EventRow → EventRow → Bool
is_earlier a b =
    ltb a.occurred_at_ns b.occurred_at_ns
    || (a.occurred_at_ns == b.occurred_at_ns
        && (ltb a.observed_at_ns b.observed_at_ns
            || (a.observed_at_ns == b.observed_at_ns && lt_offset a.source_offset b.source_offset)))

abbrev pub is_later : EventRow → EventRow → Bool
is_later a b = is_earlier b a

abbrev next_row : Option ℕ → Option ℕ
next_row none = none
next_row (some n) = some (suc n)

-- The rowid of an event of the project, counted from 0.
abbrev pub rowid_of : EventStore → Uuid → List EventRow → Option ℕ
rowid_of store id [] = none
rowid_of store id (row ∷ rows) =
    let later = next_row (rowid_of store id rows) in
    if has_event_id id row && of_project store row then some 0 else later

-- `rowid BETWEEN start AND end`
abbrev pub rows_between : ℕ → ℕ → List EventRow → List EventRow
rows_between start end rows = take (suc end - start) (drop start rows)

-- `MAX(occurred_at_ns)`
abbrev later_of : Option Time → Time → Time
later_of none t = t
later_of (some u) t = if leb u t then t else u

abbrev max_occurred : List EventRow → Option Time
max_occurred [] = none
max_occurred (row ∷ rows) = some (later_of (max_occurred rows) row.occurred_at_ns)

unfoldable pub latest_event_at : EventStore → Option Time
latest_event_at store = max_occurred (filter (of_project store) store.events)

abbrev pub of_session : EventStore → Text → EventRow → Bool
of_session store native_session_id row =
    of_project store row && text_eq row.native_session_id native_session_id

-- `i64::try_from(…).unwrap_or(…)`
abbrev pub bounded_limit : ℕ → ℕ
bounded_limit limit = if leb limit i64_max then limit else i64_max

abbrev pub bounded_offset : ℕ → ℕ
bounded_offset offset = if leb offset i64_max then offset else 0

unfoldable pub session_event_count : Text → EventStore → ℕ
session_event_count native_session_id store =
    count_where
      (λ (row : EventRow). of_project store row && text_eq row.native_session_id native_session_id)
      store.events

module _ {Json : Type 0} (api : EventApi Json) where
  -- `RawStoredEvent::parse`
  abbrev with_parts :
      EventRow → Uuid → Option EventType → Option Json → Option Json → Option (StoredEvent Json)
  with_parts row project_id (some event_type) (some payload) (some raw) = some (record {
    event_id = row.event_id;
    project_id = project_id;
    worktree_id = row.worktree_id;
    task_id = row.task_id;
    harness = parse_harness row.harness;
    native_session_id = row.native_session_id;
    event_type = event_type;
    occurred_at = row.occurred_at_ns;
    observed_at = row.observed_at_ns;
    source_locator = row.source_locator;
    source_offset = row.source_offset;
    git_head = row.git_head;
    git_branch = row.git_branch;
    payload = payload;
    raw = raw;
  })
  with_parts row project_id _ _ _ = none

  unfoldable pub parse_event : Uuid → EventRow → Option (StoredEvent Json)
  parse_event project_id row =
      with_parts row project_id (event_type_from_name row.event_type)
        (api.from_str row.payload_json) (api.from_str row.raw_json)

  -- `for row in rows`: a row that does not parse is passed over.
  abbrev pub push_parsed :
      Option (StoredEvent Json) → List (StoredEvent Json) → List (StoredEvent Json)
  push_parsed none rest = rest
  push_parsed (some e) rest = e ∷ rest

  abbrev pub parse_events : Uuid → List EventRow → List (StoredEvent Json)
  parse_events project_id [] = []
  parse_events project_id (row ∷ rows) =
      push_parsed (parse_event project_id row) (parse_events project_id rows)

  unfoldable pub recent_events : Uuid → ℕ → EventStore → Result EventError (List (StoredEvent Json))
  recent_events project_id limit store = do
    ensure (project_id == store.project_scope) foreign_project
    ok (
        if limit == 0
        then []
        else parse_events project_id
            (take (min limit 500) (sort_by is_later (filter (of_project store) store.events))))

  abbrev pub before_cutoff : EventStore → Time → EventRow → Bool
  before_cutoff store cutoff row = of_project store row && leb row.occurred_at_ns cutoff

  unfoldable pub recent_events_as_of :
      Uuid → Time → ℕ → EventStore → Result EventError (List (StoredEvent Json))
  recent_events_as_of project_id as_of limit store = do
    ensure (project_id == store.project_scope) foreign_project
    if limit == 0 then ok [] else (do
      cutoff ← lift_time (timestamp_ns as_of)
      ok (
          parse_events project_id (
            take (min limit 500)
              (sort_by is_later (filter (before_cutoff store cutoff) store.events)))))

  abbrev parse_found_event : Uuid → Option EventRow → Option (StoredEvent Json)
  parse_found_event project_id none = none
  parse_found_event project_id (some row) = parse_event project_id row

  unfoldable pub event : Uuid → EventStore → Option (StoredEvent Json)
  event id store =
      parse_found_event store.project_scope
        (find? (λ (row : EventRow). of_project store row && has_event_id id row) store.events)

  unfoldable pub events_between :
      Uuid → Uuid → EventStore → Result EventError (List (StoredEvent Json))
  events_between first_event_id last_event_id store = do
    first ← ok_or (rowid_of store first_event_id store.events) event_missing
    last ← ok_or (rowid_of store last_event_id store.events) event_missing
    ok (
        parse_events store.project_scope (
          filter (of_project store) (
            if leb first last
            then rows_between first last store.events
            else rows_between last first store.events)))

  -- `order` is the order in which SQLite reads the rows of this call. The ORDER BY is on columns that
  -- are not unique, and rows that tie come in any order.
  unfoldable pub session_events_page :
      (List EventRow → List EventRow)
      → Uuid
      → Text
      → ℕ
      → ℕ
      → EventStore
      → Result EventError (List (StoredEvent Json))
  session_events_page order project_id native_session_id limit offset store = do
    ensure (project_id == store.project_scope) foreign_project
    ok (
        parse_events project_id (
          take (bounded_limit limit) (
            drop (bounded_offset offset)
              (order (filter (of_session store native_session_id) store.events)))))
