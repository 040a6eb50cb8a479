-- ===== src/Telemetry/Store.antt =====
-- The tables `lifecycle_events` and `retrieval_decisions` and the functions on them, in
-- crates/brain-store/src/lifecycle.rs. The triggers forbid other changes of the tables.
use Prim.Native.Nat.{min}
use agent_knowledge_base_cod.Common.{
  ℕ, ◌+◌, ◌==◌, ◌&&◌, ◌||◌, Bool, true, false, Option, some, none, List, [], ◌∷◌, ◌++◌, Text,
  text_eq, byte_len, Time, TimeError, timestamp_ns, Result, ok, err, ◌>>=◌, ◌>>◌, ensure, ok_or,
  any, all, find?, filter, take, sort_by, ltb, leb, if◌then◌else◌,
}
use agent_knowledge_base_cod.Domain.Harness.{as_str, parse_harness, harness_eq}
use agent_knowledge_base_cod.Domain.Memory.{Uuid}
use agent_knowledge_base_cod.Telemetry.Names.{
  channel_as_str, channel_from_str, channel_place, stage_as_str, stage_from_str, stage_place,
  outcome_place, reason_place, SessionAttribution, LifecycleEvent, RetrievalDecision,
  TelemetryError, foreign_project, id_conflict, row_vanished, range_inverted, limit_invalid,
  stored_invalid, time, validate_session, attribution_value, session_value, from_database,
  validate_correlation, session_eq, option_eq,
}

pub record TelemetryApi (Json : Type 0) : Type 0 where
  pub to_string : Json → Text
  pub from_str : Text → Option Json
  pub json_eq : Json → Json → Bool
  pub ids_to_string : List Text → Text
  pub ids_from_str : Text → Option (List Text)

pub record LifecycleRow : Type 0 where
  pub event_id : Uuid
  pub project_id : Uuid
  pub harness : Text
  pub session_attribution : Text
  pub native_session_id : Option Text
  pub correlation_id : Option Text
  pub channel : Text
  pub stage : Text
  pub occurred_at_ns : Time
  pub detail_json : Text

pub record RetrievalRow : Type 0 where
  pub decision_id : Uuid
  pub project_id : Uuid
  pub harness : Text
  pub session_attribution : Text
  pub native_session_id : Option Text
  pub correlation_id : Option Text
  pub channel : Text
  pub outcome : Text
  pub reason_code : Text
  pub candidate_count : ℕ
  pub selected_count : ℕ
  pub dropped_count : ℕ
  pub token_count : ℕ
  pub latency_ms : ℕ
  pub query_sha256 : Text
  pub selected_evidence_json : Text
  pub occurred_at_ns : Time

pub record TelemetryStore : Type 0 where
  pub project_scope : Uuid
  pub lifecycle_events : List LifecycleRow
  pub retrieval_decisions : List RetrievalRow

pub record TelemetryQuery : Type 0 where
  pub project_id : Uuid
  pub session : Option SessionAttribution
  pub start : Time
  pub end : Time
  pub limit : ℕ

abbrev pub lift_time {ℓ} : {A : Type ℓ} → Result TimeError A → Result TelemetryError A
lift_time (ok a) = ok a
lift_time (err e) = err (time e)

abbrev pub u32_max : ℕ
u32_max = 4294967295

abbrev pub ensure_project : TelemetryStore → Uuid → Result TelemetryError (Unit {0})
ensure_project store project_id = ensure (project_id == store.project_scope) foreign_project

abbrev pub texts_eq : List Text → List Text → Bool
texts_eq [] [] = true
texts_eq (s ∷ ss) (t ∷ ts) = text_eq s t && texts_eq ss ts
texts_eq _ _ = false

-- A lowercase hexadecimal digit. All bytes of a text are such digits if all its characters are.
abbrev pub is_lower_hex : ℕ → Bool
is_lower_hex c = (leb 48 c && leb c 57) || (leb 97 c && leb c 102)

abbrev pub is_sha256 : Text → Bool
is_sha256 s = byte_len s == 64 && all is_lower_hex s

-- `u32::saturating_add`
abbrev pub saturating_add : ℕ → ℕ → ℕ
saturating_add a b = min (a + b) u32_max

-- The derived `PartialEq`.
abbrev pub decision_eq : RetrievalDecision → RetrievalDecision → Bool
decision_eq a b =
    a.decision_id == b.decision_id
    && a.project_id == b.project_id
    && harness_eq a.harness b.harness
    && session_eq a.session b.session
    && option_eq a.correlation_id b.correlation_id
    && channel_place a.channel == channel_place b.channel
    && outcome_place a.outcome == outcome_place b.outcome
    && reason_place a.reason_code == reason_place b.reason_code
    && a.candidate_count == b.candidate_count
    && a.selected_count == b.selected_count
    && a.dropped_count == b.dropped_count
    && a.token_count == b.token_count
    && a.latency_ms == b.latency_ms
    && text_eq a.query_sha256 b.query_sha256
    && texts_eq a.selected_evidence_ids b.selected_evidence_ids
    && a.occurred_at == b.occurred_at

abbrev pub has_event : Uuid → LifecycleRow → Bool
has_event id row = row.event_id == id

abbrev pub has_decision : Uuid → RetrievalRow → Bool
has_decision id row = row.decision_id == id

-- `validate_query`
abbrev pub validate_query : TelemetryStore → TelemetryQuery → Result TelemetryError (Unit {0})
validate_query store query = do
  ensure_project store query.project_id
  ensure (leb query.start query.end) range_inverted
  ensure (leb 1 query.limit && leb query.limit 10000) limit_invalid
  elim query.session [ none ↦ ok tt | some session ↦ validate_session session ]

-- `(?4 IS NULL OR session_attribution = ?4) AND (?5 IS NULL OR native_session_id = ?5)`
abbrev pub of_native : Option Text → Option Text → Bool
of_native none stored = true
of_native (some id) none = false
of_native (some id) (some stored) = text_eq stored id

abbrev pub of_session : Option SessionAttribution → Text → Option Text → Bool
of_session none attribution native = true
of_session (some session) attribution native =
    text_eq attribution (attribution_value session) && of_native (session_value session) native

module _ {Json : Type 0} (api : TelemetryApi Json) where
  abbrev pub event_eq : LifecycleEvent Json → LifecycleEvent Json → Bool
  event_eq a b =
      a.event_id == b.event_id
      && a.project_id == b.project_id
      && harness_eq a.harness b.harness
      && session_eq a.session b.session
      && option_eq a.correlation_id b.correlation_id
      && channel_place a.channel == channel_place b.channel
      && stage_place a.stage == stage_place b.stage
      && a.occurred_at == b.occurred_at
      && api.json_eq a.detail b.detail

  abbrev pub lifecycle_row : LifecycleEvent Json → Time → LifecycleRow
  lifecycle_row e occurred = record {
    event_id = e.event_id;
    project_id = e.project_id;
    harness = as_str e.harness;
    session_attribution = attribution_value e.session;
    native_session_id = session_value e.session;
    correlation_id = e.correlation_id;
    channel = channel_as_str e.channel;
    stage = stage_as_str e.stage;
    occurred_at_ns = occurred;
    detail_json = api.to_string e.detail;
  }

  unfoldable pub parse_lifecycle_row : LifecycleRow → Result TelemetryError (LifecycleEvent Json)
  parse_lifecycle_row raw = do
    session ← from_database raw.session_attribution raw.native_session_id
    channel ← ok_or (channel_from_str raw.channel) stored_invalid
    stage ← ok_or (stage_from_str raw.stage) stored_invalid
    detail ← ok_or (api.from_str raw.detail_json) stored_invalid
    ok (record {
      event_id = raw.event_id;
      project_id = raw.project_id;
      harness = parse_harness raw.harness;
      session = session;
      correlation_id = raw.correlation_id;
      channel = channel;
      stage = stage;
      occurred_at = raw.occurred_at_ns;
      detail = detail;
    })

  abbrev pub parse_found_event :
      Option LifecycleRow → Result TelemetryError (Option (LifecycleEvent Json))
  parse_found_event none = ok none
  parse_found_event (some row) = do e ← parse_lifecycle_row row; ok (some e)

  unfoldable pub lifecycle_event_by_id :
      Uuid → List LifecycleRow → Result TelemetryError (Option (LifecycleEvent Json))
  lifecycle_event_by_id id rows = parse_found_event (find? (has_event id) rows)

  -- The rows that `INSERT OR IGNORE` leaves, and what the function then returns.
  abbrev pub put_lifecycle :
      LifecycleEvent Json
      → LifecycleRow
      → List LifecycleRow
      → Result TelemetryError (Bool × List LifecycleRow)
  put_lifecycle e row rows =
      if any (has_event e.event_id) rows
      then (do
        found ← lifecycle_event_by_id e.event_id rows
        existing ← ok_or found row_vanished
        ensure (event_eq existing e) id_conflict
        ok (false, rows))
      else ok (true, rows ++ (row ∷ []))

  unfoldable pub record_lifecycle_event :
      LifecycleEvent Json → TelemetryStore → Result TelemetryError (Bool × TelemetryStore)
  record_lifecycle_event e store = do
    ensure_project store e.project_id
    validate_session e.session
    validate_correlation e.correlation_id
    occurred ← lift_time (timestamp_ns e.occurred_at)
    result ← put_lifecycle e (lifecycle_row e occurred) store.lifecycle_events
    ok (result.0, record store { lifecycle_events = result.1 })

  abbrev parse_lifecycle_rows :
      List LifecycleRow → Result TelemetryError (List (LifecycleEvent Json))
  parse_lifecycle_rows [] = ok []
  parse_lifecycle_rows (row ∷ rows) = do
    e ← parse_lifecycle_row row
    es ← parse_lifecycle_rows rows
    ok (e ∷ es)

  abbrev is_asked : TelemetryQuery → Time → Time → LifecycleRow → Bool
  is_asked query start end row =
      row.project_id == query.project_id
      && leb start row.occurred_at_ns
      && leb row.occurred_at_ns end
      && of_session query.session row.session_attribution row.native_session_id

  abbrev is_earlier : LifecycleRow → LifecycleRow → Bool
  is_earlier a b =
      ltb a.occurred_at_ns b.occurred_at_ns
      || (a.occurred_at_ns == b.occurred_at_ns && ltb a.event_id b.event_id)

  unfoldable pub lifecycle_events :
      TelemetryQuery → TelemetryStore → Result TelemetryError (List (LifecycleEvent Json))
  lifecycle_events query store = do
    validate_query store query
    start ← lift_time (timestamp_ns query.start)
    end ← lift_time (timestamp_ns query.end)
    parse_lifecycle_rows (
        take query.limit
          (sort_by is_earlier (filter (is_asked query start end) store.lifecycle_events)))
