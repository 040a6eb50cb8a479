-- ===== src/Events/Resolved.antt =====
-- A schema drift of crates/brain-store/src/ledger.rs is open from its record to its resolution.
mod Recording
pub use Recording.*
use agent_knowledge_base_cod.Common.{
  find?, ◌≡◌, refl, ap, subst, Bool, true, false, ◌&&◌, none, some, arith, any, find?-none,
  update_where, Text, text_eq, Time, TimeError, InRange, timestamp_ns, timestamp_ns-eq-ok,
  timestamp_ns_fits, Result, ok, err, bind-eq-ok, ok-injective,
}
use agent_knowledge_base_cod.Domain.Event.{SchemaDriftRecord}
use agent_knowledge_base_cod.Domain.Memory.{Uuid}
use agent_knowledge_base_cod.Events.{EventApi, EventStore, DriftRow, lift_time}
use agent_knowledge_base_cod.Events.Drift.{
  is_active, put_drift, with_drifts, drift_row, record_schema_drift, resolve_schema_drift,
  active_schema_drift,
}

module _ {Json : Type 0} (api : EventApi Json) where
  -- The source has no open drift any more.
  abbrev IsResolved : Text → Time → EventStore → Type 0
  IsResolved source later store =
      (after : EventStore) × (resolve_schema_drift source later store ≡ ok (true, after))
      × (active_schema_drift api source after ≡ ok none)
      × OneOpen after

  -- The drift that was recorded is the open one of its source, until it is resolved. It has the id of
  -- the one that was open before, or its own.
  abbrev pub IsOpenUntil : SchemaDriftRecord Json → Time → EventStore → EventStore → Type 0
  IsOpenUntil drift later before store =
      OneOpen store
      × (active_schema_drift api drift.source_id store
          ≡ ok (
              some (record drift {
                diagnostic_id =
                    id_of drift.diagnostic_id
                      (find? (is_active drift.source_id) before.schema_drifts);
                resolved_at = none;
              })))
      × IsResolved drift.source_id later store

  resolve-IsResolved :
      (source : Text) (later : Time) (store : EventStore)
      → InRange later
      → OneOpen store
      → any (is_active source) store.schema_drifts ≡ true
      → IsResolved source later store
  unfolding resolve_schema_drift active_schema_drift
  resolve-IsResolved source later store ranged once has =
      let ended : DriftRow → DriftRow = λ row. record row { resolved_at_ns = some later } in
      let rows = update_where (is_active source) ended store.schema_drifts in
      (
        with_drifts store rows,
        rw (timestamp_ns_fits later ranged, has) refl,
        rw
            (find?-none (is_active source) (is_active source) rows (λ x holds. holds)
              (any-ended (is_active source) ended store.schema_drifts
                (λ row. and-false (text_eq row.source_id source))))
            refl,
        λ other.
            AtMostOne-update_where (is_active source) (is_active other) ended store.schema_drifts
              (λ row holds. absurd (never (text_eq row.source_id other) holds)) (once other),
      )
    where
      and-false : (b : Bool) → (b && false) ≡ false
      and-false b = ground arith

      never : (b : Bool) → (b && false) ≡ true → ⊥
      never b h = ground arith

  lift_time-eq-ok : (r : Result TimeError Time) {t : Time} → lift_time r ≡ ok t → r ≡ ok t
  lift_time-eq-ok (ok t) h = ap ok (ok-injective h)
  lift_time-eq-ok (err e) h = cc

  read-IsRecorded :
      (drift : SchemaDriftRecord Json) (id : Uuid) (store : EventStore)
      → api.cursor_from_str (api.cursor_to_string drift.cursor) ≡ some drift.cursor
      → find? (is_active drift.source_id) store.schema_drifts
        ≡ some (record (drift_row api drift drift.observed_at) { diagnostic_id = id })
      → active_schema_drift api drift.source_id store
        ≡ ok (some (record drift { diagnostic_id = id; resolved_at = none }))
  unfolding active_schema_drift
  read-IsRecorded drift id store reads found = rw (found, reads) refl

  -- Where the open drifts of a source are one at most and `from_str` reads the cursor back, a drift
  -- that was recorded is the open one of its source, under the id of the drift that was open before
  -- or, where none was, under its own. To resolve it, at an instant that a column holds, succeeds, and leaves the source
  -- with none. Both keep the open drifts of each source one at most.
  pub record_schema_drift-IsOpenUntil :
      (drift : SchemaDriftRecord Json) (later : Time) (before store : EventStore)
      → OneOpen before
      → api.cursor_from_str (api.cursor_to_string drift.cursor) ≡ some drift.cursor
      → InRange later
      → record_schema_drift api drift before ≡ ok store
      → IsOpenUntil drift later before store
  unfolding record_schema_drift
  record_schema_drift-IsOpenUntil drift later before store once reads ranged done =
      let (observed, dated, a) = bind-eq-ok (lift_time (timestamp_ns drift.observed_at)) _ done in
      let (is_observed, _) = timestamp_ns-eq-ok drift.observed_at (lift_time-eq-ok _ dated) in
      let (rows, put, b) =
        bind-eq-ok (put_drift (drift_row api drift observed) before.schema_drifts) _ a in
      let (all_once, recorded) =
        put_drift-IsRecorded (drift_row api drift drift.observed_at) before.schema_drifts refl once
          (rw is_observed at put) in
      subst (IsOpenUntil drift later before) {x = with_drifts before rows} (ok-injective b) (
        all_once,
        read-IsRecorded drift
            (recorded_id (drift_row api drift drift.observed_at) before.schema_drifts)
            (with_drifts before rows) reads recorded,
        resolve-IsResolved drift.source_id later (with_drifts before rows) ranged all_once
            (find?-any (is_active drift.source_id) rows recorded),
      )
