-- ===== src/Telemetry/Decisions.antt =====
-- The table `retrieval_decisions` and the functions on it, in crates/brain-store/src/lifecycle.rs.
use agent_knowledge_base_cod.Common.{
  ℕ, ◌==◌, ◌&&◌, ◌||◌, Bool, true, false, Option, some, none, List, [], ◌∷◌, ◌++◌, Time,
  timestamp_ns, Result, ok, ◌>>=◌, ◌>>◌, ensure, ok_or, any, find?, filter, take, sort_by, ltb, leb,
  if◌then◌else◌, i64_max,
}
use agent_knowledge_base_cod.Domain.Harness.{as_str, parse_harness}
use agent_knowledge_base_cod.Domain.Memory.{Uuid}
use agent_knowledge_base_cod.Telemetry.Names.{
  channel_as_str, channel_from_str, outcome_as_str, outcome_from_str, reason_as_str,
  reason_from_str, RetrievalDecision, TelemetryError, id_conflict, row_vanished, counts_exceed,
  hash_malformed, latency_range, stored_invalid, validate_session, attribution_value, session_value,
  from_database, validate_correlation,
}
use agent_knowledge_base_cod.Telemetry.Store.{
  TelemetryApi, RetrievalRow, TelemetryStore, TelemetryQuery, lift_time, u32_max, ensure_project,
  is_sha256, saturating_add, decision_eq, has_decision, validate_query, of_session,
}

-- `u32::try_from` of a stored count. Counts are stored from values that are not negative.
abbrev pub count_column : ℕ → Result TelemetryError ℕ
count_column n = do ensure (leb n u32_max) stored_invalid; ok n

-- `i64::try_from(decision.latency_ms)`
abbrev pub latency_column : ℕ → Result TelemetryError ℕ
latency_column n = do ensure (leb n i64_max) latency_range; ok n

module _ {Json : Type 0} (api : TelemetryApi Json) where
  abbrev pub retrieval_row : RetrievalDecision → ℕ → Time → RetrievalRow
  retrieval_row d latency occurred = record {
    decision_id = d.decision_id;
    project_id = d.project_id;
    harness = as_str d.harness;
    session_attribution = attribution_value d.session;
    native_session_id = session_value d.session;
    correlation_id = d.correlation_id;
    channel = channel_as_str d.channel;
    outcome = outcome_as_str d.outcome;
    reason_code = reason_as_str d.reason_code;
    candidate_count = d.candidate_count;
    selected_count = d.selected_count;
    dropped_count = d.dropped_count;
    token_count = d.token_count;
    latency_ms = latency;
    query_sha256 = d.query_sha256;
    selected_evidence_json = api.ids_to_string d.selected_evidence_ids;
    occurred_at_ns = occurred;
  }

  unfoldable pub parse_retrieval_row : RetrievalRow → Result TelemetryError RetrievalDecision
  parse_retrieval_row raw = do
    session ← from_database raw.session_attribution raw.native_session_id
    channel ← ok_or (channel_from_str raw.channel) stored_invalid
    outcome ← ok_or (outcome_from_str raw.outcome) stored_invalid
    reason ← ok_or (reason_from_str raw.reason_code) stored_invalid
    candidates ← count_column raw.candidate_count
    selected ← count_column raw.selected_count
    dropped ← count_column raw.dropped_count
    tokens ← count_column raw.token_count
    ids ← ok_or (api.ids_from_str raw.selected_evidence_json) stored_invalid
    ok (record {
      decision_id = raw.decision_id;
      project_id = raw.project_id;
      harness = parse_harness raw.harness;
      session = session;
      correlation_id = raw.correlation_id;
      channel = channel;
      outcome = outcome;
      reason_code = reason;
      candidate_count = candidates;
      selected_count = selected;
      dropped_count = dropped;
      token_count = tokens;
      latency_ms = raw.latency_ms;
      query_sha256 = raw.query_sha256;
      selected_evidence_ids = ids;
      occurred_at = raw.occurred_at_ns;
    })

  abbrev parse_found_decision :
      Option RetrievalRow → Result TelemetryError (Option RetrievalDecision)
  parse_found_decision none = ok none
  parse_found_decision (some row) = do d ← parse_retrieval_row row; ok (some d)

  unfoldable pub retrieval_decision_by_id :
      Uuid → List RetrievalRow → Result TelemetryError (Option RetrievalDecision)
  retrieval_decision_by_id id rows = parse_found_decision (find? (has_decision id) rows)

  abbrev pub put_decision :
      RetrievalDecision
      → RetrievalRow
      → List RetrievalRow
      → Result TelemetryError (Bool × List RetrievalRow)
  put_decision d row rows =
      if any (has_decision d.decision_id) rows
      then (do
        found ← retrieval_decision_by_id d.decision_id rows
        existing ← ok_or found row_vanished
        ensure (decision_eq existing d) id_conflict
        ok (false, rows))
      else ok (true, rows ++ (row ∷ []))

  unfoldable pub record_retrieval_decision :
      RetrievalDecision → TelemetryStore → Result TelemetryError (Bool × TelemetryStore)
  record_retrieval_decision d store = do
    ensure_project store d.project_id
    validate_session d.session
    validate_correlation d.correlation_id
    ensure (leb (saturating_add d.selected_count d.dropped_count) d.candidate_count) counts_exceed
    ensure (is_sha256 d.query_sha256) hash_malformed
    latency ← latency_column d.latency_ms
    occurred ← lift_time (timestamp_ns d.occurred_at)
    result ← put_decision d (retrieval_row d latency occurred) store.retrieval_decisions
    ok (result.0, record store { retrieval_decisions = result.1 })

  abbrev parse_retrieval_rows : List RetrievalRow → Result TelemetryError (List RetrievalDecision)
  parse_retrieval_rows [] = ok []
  parse_retrieval_rows (row ∷ rows) = do
    d ← parse_retrieval_row row
    ds ← parse_retrieval_rows rows
    ok (d ∷ ds)

  abbrev is_asked : TelemetryQuery → Time → Time → RetrievalRow → Bool
  is_asked query start end row =
      row.project_id == query.project_id
      && leb start row.occurred_at_ns
      && leb row.occurred_at_ns end
      && of_session query.session row.session_attribution row.native_session_id

  abbrev is_earlier : RetrievalRow → RetrievalRow → Bool
  is_earlier a b =
      ltb a.occurred_at_ns b.occurred_at_ns
      || (a.occurred_at_ns == b.occurred_at_ns && ltb a.decision_id b.decision_id)

  unfoldable pub retrieval_decisions :
      TelemetryQuery → TelemetryStore → Result TelemetryError (List RetrievalDecision)
  retrieval_decisions query store = do
    validate_query store query
    start ← lift_time (timestamp_ns query.start)
    end ← lift_time (timestamp_ns query.end)
    parse_retrieval_rows (
        take query.limit
          (sort_by is_earlier (filter (is_asked query start end) store.retrieval_decisions)))
