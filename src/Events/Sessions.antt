-- ===== src/Events/Sessions.antt =====
-- The counts and the lists of sessions of crates/brain-store/src/ledger.rs.
use agent_knowledge_base_cod.Common.{
  ℕ, ◌==◌, ◌&&◌, ◌||◌, Bool, true, false, Option, none, some, List, [], ◌∷◌, any, filter, take, map,
  sort_by, length, count_where, Group, group_by, rows_of, largest, Text, codes, text_eq,
  strip_prefix, Time, ℤ, timestamp_ns, u64_max, ltb, leb, Result, ok, ensure, ◌>>=◌, ◌>>◌,
  if◌then◌else◌,
}
use agent_knowledge_base_cod.Domain.Harness.{Harness, claude_code, codex, as_str}
use agent_knowledge_base_cod.Domain.Memory.{Uuid}
use agent_knowledge_base_cod.Events.{
  EventApi, EventRow, QuarantineRow, GapRow, EventStore, EventError, foreign_project, lift_time,
}
use agent_knowledge_base_cod.Events.Reads.{
  StoredEvent, of_project, lt_offset, session_events_page, bounded_limit,
}

abbrev pub event_count : EventStore → ℕ
event_count store = length store.events

abbrev pub event_count_by_harness : Harness → EventStore → ℕ
event_count_by_harness harness store =
    count_where (λ (row : EventRow). text_eq row.harness (as_str harness)) store.events

abbrev pub quarantine_count : Text → EventStore → ℕ
quarantine_count source_id store =
    count_where (λ (row : QuarantineRow). text_eq row.source_id source_id) store.quarantine

abbrev is_unresolved : Option Time → Bool
is_unresolved none = true
is_unresolved (some t) = false

abbrev pub unresolved_capture_gap_count : Text → EventStore → ℕ
unresolved_capture_gap_count source_id store =
    count_where
      (λ (row : GapRow). text_eq row.source_id source_id && is_unresolved row.resolved_at_ns)
      store.capture_gaps

-- `instr(s, needle) > 0`
abbrev starts_with : Text → Text → Bool
starts_with needle s = elim (strip_prefix needle s) [ none ↦ false | some rest ↦ true ]

abbrev pub instr : Text → Text → Bool
instr [] needle = starts_with needle []
instr (c ∷ s) needle = starts_with needle (c ∷ s) || instr s needle

unfoldable pub raw_contains : Text → EventStore → Bool
raw_contains needle store = any (λ (row : EventRow). instr row.raw_json needle) store.events

-- `MIN(…)` of a group
abbrev pub earliest : (EventRow → Time) → Group EventRow → Time
earliest w (row, []) = w row
earliest w (row, next ∷ rows) =
    let rest = earliest w (next, rows) in if leb (w row) rest then w row else rest

abbrev pub latest_of : (EventRow → Time) → Group EventRow → Time
latest_of w group = largest w (rows_of group)

abbrev pub same_session : EventRow → EventRow → Bool
same_session a b = text_eq a.native_session_id b.native_session_id

abbrev occurred : EventRow → Time
occurred row = row.occurred_at_ns

abbrev observed : EventRow → Time
observed row = row.observed_at_ns

unfoldable pub captured_sessions : ℕ → EventStore → List (Text × ℕ × Time)
captured_sessions limit store =
    map (λ (g : Group EventRow). (g.0.native_session_id, length (rows_of g), latest_of occurred g))
      (take (bounded_limit limit) (
        sort_by (λ g h. ltb (latest_of occurred h) (latest_of occurred g))
          (group_by same_session (filter (of_project store) store.events))))

abbrev pub same_activity : EventRow → EventRow → Bool
same_activity a b = text_eq a.harness b.harness && text_eq a.native_session_id b.native_session_id

unfoldable pub captured_session_activity : ℕ → EventStore → List (Text × Text × Time × Time)
captured_session_activity limit store =
    map
      (λ (g : Group EventRow).
        (g.0.harness, g.0.native_session_id, earliest occurred g, latest_of observed g))
      (take (bounded_limit limit) (
        sort_by (λ g h. ltb (latest_of observed h) (latest_of observed g))
          (group_by same_activity (filter (of_project store) store.events))))

pub record NativeUsageEvent (Json : Type 0) : Type 0 where
  pub harness : Harness
  pub native_session_id : Text
  pub occurred_at : Time
  pub source_locator : Text
  pub source_offset : ℤ
  pub raw : Json

-- `WHERE …` of the usage records
abbrev pub is_usage : EventStore → Time → EventRow → Bool
is_usage store since row =
    of_project store row
    && leb since row.occurred_at_ns
    && (text_eq row.harness (codes "claude-code") || text_eq row.harness (codes "codex"))
    && (instr row.raw_json (codes "\"usage\"") || instr row.raw_json (codes "\"token_count\""))

abbrev usage_before : EventRow → EventRow → Bool
usage_before a b =
    ltb a.occurred_at_ns b.occurred_at_ns
    || (a.occurred_at_ns == b.occurred_at_ns && lt_offset a.source_offset b.source_offset)

-- `match harness.as_str()`
abbrev usage_harness : Text → Option Harness
usage_harness name =
    if text_eq name (codes "claude-code")
    then some claude_code
    else if text_eq name (codes "codex")
    then some codex
    else none

module _ {Json : Type 0} (api : EventApi Json) where
  abbrev pub session_events :
      (List EventRow → List EventRow)
      → Uuid
      → Text
      → EventStore
      → Result EventError (List (StoredEvent Json))
  session_events order project_id native_session_id store =
      session_events_page api order project_id native_session_id u64_max 0 store

  -- The loop's body: what does not read is passed over.
  abbrev push_usage :
      EventRow
      → Option Harness
      → Option Json
      → List (NativeUsageEvent Json)
      → List (NativeUsageEvent Json)
  push_usage row (some harness) (some raw) rest =
      record {
        harness = harness;
        native_session_id = row.native_session_id;
        occurred_at = row.occurred_at_ns;
        source_locator = row.source_locator;
        source_offset = row.source_offset;
        raw = raw;
      }
      ∷ rest
  push_usage row _ _ rest = rest

  abbrev usage_events : List EventRow → List (NativeUsageEvent Json)
  usage_events [] = []
  usage_events (row ∷ rows) =
      push_usage row (usage_harness row.harness) (api.from_str row.raw_json) (usage_events rows)

  unfoldable pub native_usage_events :
      Uuid → Time → EventStore → Result EventError (List (NativeUsageEvent Json))
  native_usage_events project_id since store = do
    ensure (project_id == store.project_scope) foreign_project
    from ← lift_time (timestamp_ns since)
    ok (usage_events (sort_by usage_before (filter (is_usage store from) store.events)))
