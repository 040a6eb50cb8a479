-- ===== src/Events/Drift.antt =====
-- The schema drifts of crates/brain-store/src/ledger.rs: at most one of them is open for a source.
use agent_knowledge_base_cod.Common.{
  ◌==◌, ◌&&◌, ◌||◌, Bool, true, false, Option, none, some, List, [], ◌∷◌, ◌++◌, Text, text_eq, Time,
  timestamp_ns, Result, ok, err, ◌>>=◌, any, find?, update_where, sort_by, count_where, ltb,
  if◌then◌else◌, ℕ,
}
use agent_knowledge_base_cod.Domain.Event.{SourceCursor, SchemaDriftRecord}
use agent_knowledge_base_cod.Events.{
  EventApi, DriftRow, EventStore, EventError, lift_time, constraint, cursor_invalid,
}

abbrev pub is_open_row : DriftRow → Bool
is_open_row row = elim row.resolved_at_ns [ none ↦ true | some t ↦ false ]

abbrev pub is_active : Text → DriftRow → Bool
is_active source_id row = text_eq row.source_id source_id && is_open_row row

-- `UPDATE schema_drifts SET …`
abbrev pub refreshed : DriftRow → DriftRow → DriftRow
refreshed new row = record row {
  expected_fingerprint = new.expected_fingerprint;
  observed_fingerprint = new.observed_fingerprint;
  cursor_json = new.cursor_json;
  sample_hash = new.sample_hash;
  reason = new.reason;
  observed_at_ns = new.observed_at_ns;
}

-- The row of the source that is open is refreshed, or there is none and one is inserted.
abbrev pub put_drift : DriftRow → List DriftRow → Result EventError (List DriftRow)
put_drift new rows =
    if any (is_active new.source_id) rows
    then ok (update_where (is_active new.source_id) (refreshed new) rows)
    else if any (λ (row : DriftRow). row.diagnostic_id == new.diagnostic_id) rows
    then err constraint
    else ok (rows ++ (new ∷ []))

abbrev pub with_drifts : EventStore → List DriftRow → EventStore
with_drifts store rows = record store { schema_drifts = rows }

unfoldable pub resolve_schema_drift :
    Text → Time → EventStore → Result EventError (Bool × EventStore)
resolve_schema_drift source_id resolved_at store = do
  at ← lift_time (timestamp_ns resolved_at)
  ok (
    any (is_active source_id) store.schema_drifts,
    with_drifts store (
        update_where (is_active source_id)
          (λ (row : DriftRow). record row { resolved_at_ns = some at }) store.schema_drifts),
  )

unfoldable pub active_schema_drift_count : EventStore → ℕ
active_schema_drift_count store = count_where is_open_row store.schema_drifts

-- `ORDER BY observed_at_ns DESC, diagnostic_id DESC`
abbrev is_newer_drift : DriftRow → DriftRow → Bool
is_newer_drift a b =
    ltb b.observed_at_ns a.observed_at_ns
    || (a.observed_at_ns == b.observed_at_ns && ltb b.diagnostic_id a.diagnostic_id)

module _ {Json : Type 0} (api : EventApi Json) where
  abbrev pub drift_row : SchemaDriftRecord Json → Time → DriftRow
  drift_row d observed = record {
    diagnostic_id = d.diagnostic_id;
    source_id = d.source_id;
    expected_fingerprint = d.expected_fingerprint;
    observed_fingerprint = d.observed_fingerprint;
    cursor_json = api.cursor_to_string d.cursor;
    sample_hash = d.sample_hash;
    reason = d.reason;
    observed_at_ns = observed;
    resolved_at_ns = none;
  }

  unfoldable pub record_schema_drift :
      SchemaDriftRecord Json → EventStore → Result EventError EventStore
  record_schema_drift d store = do
    observed ← lift_time (timestamp_ns d.observed_at)
    rows ← put_drift (drift_row d observed) store.schema_drifts
    ok (with_drifts store rows)

  abbrev with_cursor :
      DriftRow → Option (SourceCursor Json) → Result EventError (SchemaDriftRecord Json)
  with_cursor row none = err cursor_invalid
  with_cursor row (some cursor) = ok (record {
    diagnostic_id = row.diagnostic_id;
    source_id = row.source_id;
    expected_fingerprint = row.expected_fingerprint;
    observed_fingerprint = row.observed_fingerprint;
    cursor = cursor;
    sample_hash = row.sample_hash;
    reason = row.reason;
    observed_at = row.observed_at_ns;
    resolved_at = row.resolved_at_ns;
  })

  abbrev pub parse_schema_drift_record : DriftRow → Result EventError (SchemaDriftRecord Json)
  parse_schema_drift_record row = with_cursor row (api.cursor_from_str row.cursor_json)

  abbrev parse_found_drift : Option DriftRow → Result EventError (Option (SchemaDriftRecord Json))
  parse_found_drift none = ok none
  parse_found_drift (some row) = do d ← parse_schema_drift_record row; ok (some d)

  unfoldable pub active_schema_drift :
      Text → EventStore → Result EventError (Option (SchemaDriftRecord Json))
  active_schema_drift source_id store =
      parse_found_drift (find? (is_active source_id) store.schema_drifts)

  abbrev parse_all_drifts : List DriftRow → Result EventError (List (SchemaDriftRecord Json))
  parse_all_drifts [] = ok []
  parse_all_drifts (row ∷ rows) = do
    d ← parse_schema_drift_record row
    ds ← parse_all_drifts rows
    ok (d ∷ ds)

  unfoldable pub schema_drifts : EventStore → Result EventError (List (SchemaDriftRecord Json))
  schema_drifts store = parse_all_drifts (sort_by is_newer_drift store.schema_drifts)
