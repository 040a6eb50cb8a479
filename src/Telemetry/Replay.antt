-- ===== src/Telemetry/Replay.antt =====
-- A lifecycle event that crates/brain-store/src/lifecycle.rs has recorded may be recorded again.
use agent_knowledge_base_cod.Common.{
  find?-last, any-last, ==_self, ◌≡◌, refl, ap, subst, ◌∙◌, inl, inr, Bool, Bool-cases, true, false,
  Option, none, some, List, arith, Text, text_eq_self, is_blank, Time, timestamp_ns,
  timestamp_ns-eq-ok, Result, ok, err, bind-eq-ok, ensure-eq-ok, ok-injective, any, ok_or,
}
use agent_knowledge_base_cod.Domain.Harness.{harness_eq_self, IsCanonical}
use agent_knowledge_base_cod.Telemetry.Names.{
  channel_from_str-as_str, stage_from_str-as_str, SessionAttribution, attributed, unattributed,
  LifecycleEvent, TelemetryError, session_empty, row_vanished, id_conflict, validate_session,
  attribution_value, session_value, from_database, validate_correlation, session_eq, option_eq,
}
use agent_knowledge_base_cod.Telemetry.Store.{
  TelemetryApi, LifecycleRow, TelemetryStore, lift_time, ensure_project, has_event, event_eq,
  lifecycle_row, parse_lifecycle_row, lifecycle_event_by_id, put_lifecycle, record_lifecycle_event,
}

lift_time-eq-ok : (r : Result _ Time) {t : Time} → lift_time r ≡ ok t → r ≡ ok t
lift_time-eq-ok (ok t) h = ap ok (ok-injective h)
lift_time-eq-ok (err e) h = cc

pub from_database-validate_session :
    (s : SessionAttribution)
    → validate_session s ≡ ok tt
    → from_database (attribution_value s) (session_value s) ≡ ok s
from_database-validate_session (attributed id) valid = elim (Bool-cases (is_blank id)) [
  | inl blank ↦ absurd (refused (rw blank at valid))
  | inr filled ↦ rw filled refl
]
  where
    refused : ◌≡◌ {A = Result TelemetryError (Unit {0})} (err session_empty) (ok tt) → ⊥
    refused e = cc
from_database-validate_session unattributed valid = refl

session_eq_self : (s : SessionAttribution) → session_eq s s ≡ true
session_eq_self (attributed id) = text_eq_self id
session_eq_self unattributed = refl

option_eq_self : (s : Option Text) → option_eq s s ≡ true
option_eq_self none = refl
option_eq_self (some s) = text_eq_self s

module _ {Json : Type 0} (api : TelemetryApi Json) where
  event_eq_self :
      (e : LifecycleEvent Json) → api.json_eq e.detail e.detail ≡ true → event_eq api e e ≡ true
  event_eq_self e same =
      rw
        (
          ==_self e.event_id,
          ==_self e.project_id,
          harness_eq_self e.harness,
          session_eq_self e.session,
          option_eq_self e.correlation_id,
          ==_self e.occurred_at,
          same,
        )
        (ground arith)

  -- What a row says is what was written.
  parse_lifecycle_row-lifecycle_row :
      (e : LifecycleEvent Json)
      → IsCanonical e.harness
      → api.from_str (api.to_string e.detail) ≡ some e.detail
      → validate_session e.session ≡ ok tt
      → parse_lifecycle_row api (lifecycle_row api e e.occurred_at) ≡ ok e
  unfolding parse_lifecycle_row
  parse_lifecycle_row-lifecycle_row e canonical reads valid =
      rw
        (
          from_database-validate_session e.session valid,
          channel_from_str-as_str e.channel,
          stage_from_str-as_str e.stage,
          reads,
          canonical,
        )
        refl

  -- The event of an id that a table has, as it is read.
  abbrev pub IsStored : LifecycleEvent Json → List LifecycleRow → Type 0
  IsStored e rows =
      (found : LifecycleEvent Json) × (lifecycle_event_by_id api e.event_id rows ≡ ok (some found))
      × (event_eq api found e ≡ true)

  -- A table in which an event stands leaves it as it is.
  put_lifecycle_again :
      (e : LifecycleEvent Json) (row : LifecycleRow) (rows : List LifecycleRow)
      → any (has_event e.event_id) rows ≡ true
      → IsStored e rows
      → put_lifecycle api e row rows ≡ ok (false, rows)
  put_lifecycle_again e row rows has (found, read, same) = rw (has, read, same) refl

  abbrev pub IsReplayed : LifecycleEvent Json → List LifecycleRow → Type 0
  IsReplayed e rows = (any (has_event e.event_id) rows ≡ true) × IsStored e rows

  put_lifecycle-IsReplayed :
      (e : LifecycleEvent Json) (rows : List LifecycleRow) {out : Bool × List LifecycleRow}
      → IsCanonical e.harness
      → api.from_str (api.to_string e.detail) ≡ some e.detail
      → api.json_eq e.detail e.detail ≡ true
      → validate_session e.session ≡ ok tt
      → put_lifecycle api e (lifecycle_row api e e.occurred_at) rows ≡ ok out
      → IsReplayed e out.1
  unfolding lifecycle_event_by_id
  put_lifecycle-IsReplayed e rows {out} canonical reads same valid done =
      let row = lifecycle_row api e e.occurred_at in
      elim (Bool-cases (any (has_event e.event_id) rows)) [
        | inl had ↦
            let (found, read, a) =
              bind-eq-ok (lifecycle_event_by_id api e.event_id rows) _ (rw had at done) in
            let (existing, is_some, b) = bind-eq-ok (ok_or found row_vanished) _ a in
            let (equal, c) = ensure-eq-ok (event_eq api existing e) id_conflict _ b in
            subst (λ (o : Bool × List LifecycleRow). IsReplayed e o.1) (ok-injective c)
              (had, (existing, read ∙ ap ok (ok_or-some found is_some), equal))
        | inr new ↦
            subst (λ (o : Bool × List LifecycleRow). IsReplayed e o.1)
              (ok-injective (rw new at done))
              (
                any-last (has_event e.event_id) rows row (==_self e.event_id),
                (
                  e,
                  rw
                      (
                        find?-last (has_event e.event_id) rows row new (==_self e.event_id),
                        parse_lifecycle_row-lifecycle_row e canonical reads valid,
                      )
                      refl,
                  event_eq_self e same,
                ),
              )
      ]
    where
      ok_or-some :
          (o : Option (LifecycleEvent Json)) {x : LifecycleEvent Json}
          → ok_or o row_vanished ≡ ok x
          → o ≡ some x
      ok_or-some (some x) h = ap some (ok-injective h)
      ok_or-some none h = cc

  -- An event whose parts succeed.
  run_event :
      (e : LifecycleEvent Json) (store : TelemetryStore) {t : Time} {out : Bool × List LifecycleRow}
      → ensure_project store e.project_id ≡ ok tt
      → validate_session e.session ≡ ok tt
      → validate_correlation e.correlation_id ≡ ok tt
      → lift_time (timestamp_ns e.occurred_at) ≡ ok t
      → put_lifecycle api e (lifecycle_row api e t) store.lifecycle_events ≡ ok out
      → record_lifecycle_event api e store ≡ ok (out.0, record store { lifecycle_events = out.1 })
  unfolding record_lifecycle_event
  run_event e store own session correlation dated put =
      rw (own, session, correlation, dated, put) refl

  -- What the table of lifecycle events has of an event, and what recording it again does.
  abbrev pub RecordedOnce : LifecycleEvent Json → TelemetryStore → Type 0
  RecordedOnce e store =
      IsStored e store.lifecycle_events × (record_lifecycle_event api e store ≡ ok (false, store))

  -- An event that has been recorded is read back by its id as an event equal to it, and recording
  -- it again gives `false` and changes nothing, also where it had been there before. The harness
  -- is one that a column gives back, and the detail's JSON text reads as the detail, which is
  -- equal to itself.
  pub record_lifecycle_event-RecordedOnce :
      (e : LifecycleEvent Json) (before store : TelemetryStore) (fresh : Bool)
      → IsCanonical e.harness
      → api.from_str (api.to_string e.detail) ≡ some e.detail
      → api.json_eq e.detail e.detail ≡ true
      → record_lifecycle_event api e before ≡ ok (fresh, store)
      → RecordedOnce e store
  unfolding record_lifecycle_event
  record_lifecycle_event-RecordedOnce e before store fresh canonical reads same done =
      let (_, own, a) = bind-eq-ok (ensure_project before e.project_id) _ done in
      let (_, session, b) = bind-eq-ok (validate_session e.session) _ a in
      let (_, correlation, c) = bind-eq-ok (validate_correlation e.correlation_id) _ b in
      let (t, dated, d) = bind-eq-ok (lift_time (timestamp_ns e.occurred_at)) _ c in
      let (is_t, _) = timestamp_ns-eq-ok e.occurred_at (lift_time-eq-ok _ dated) in
      let (out, put, f) =
        bind-eq-ok (put_lifecycle api e (lifecycle_row api e t) before.lifecycle_events) _ d in
      let (has, stored) =
        put_lifecycle-IsReplayed e before.lifecycle_events canonical reads same session
          (rw is_t at put) in
      subst (RecordedOnce e) {x = record before { lifecycle_events = out.1 }}
        (ap (λ (r : Bool × TelemetryStore). r.1) (ok-injective f))
        (
          stored,
          run_event e (record before { lifecycle_events = out.1 }) own session correlation dated
              (put_lifecycle_again e (lifecycle_row api e t) out.1 has stored),
        )
