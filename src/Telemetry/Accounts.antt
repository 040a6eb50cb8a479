-- ===== src/Telemetry/Accounts.antt =====
-- The retrieval decisions that crates/brain-store/src/lifecycle.rs stores add up.
use agent_knowledge_base_cod.Common.{
  ℕ, ◌+◌, ◌≤◌, ◌==◌, ◌≡◌, ◌⊎◌, sym, ap, subst, inl, inr, Bool, Bool-cases, true, List, [], ◌∷◌,
  arith, timestamp_ns, i64_max, ok, bind-eq-ok, ensure-eq-ok, ok-injective, any, All, All-append,
  leb, ok_or,
}
use agent_knowledge_base_cod.Domain.Memory.{Uuid}
use agent_knowledge_base_cod.Telemetry.Names.{
  RetrievalDecision, foreign_project, counts_exceed, hash_malformed, latency_range, row_vanished,
  id_conflict, validate_session, validate_correlation, SessionAttribution, from_database,
}
use agent_knowledge_base_cod.Telemetry.Replay.{from_database-validate_session}
use agent_knowledge_base_cod.Telemetry.Store.{
  TelemetryApi, RetrievalRow, TelemetryStore, lift_time, u32_max, is_sha256, saturating_add,
  decision_eq, has_decision,
}
use agent_knowledge_base_cod.Telemetry.Decisions.{
  latency_column, retrieval_row, retrieval_decision_by_id, put_decision, record_retrieval_decision,
}

-- The counts add up where the number of candidates is not the largest of a `u32`.
abbrev pub AddsUp : RetrievalRow → Type 0
AddsUp row =
    (row.selected_count + row.dropped_count ≤ row.candidate_count) ⊎ (u32_max ≤ row.candidate_count)

abbrev pub IsAccounted : Uuid → RetrievalRow → Type 0
IsAccounted scope row =
    (row.project_id ≡ scope)
    × AddsUp row
    × (is_sha256 row.query_sha256 ≡ true)
    × (row.latency_ms ≤ i64_max)
    × ((session : SessionAttribution) × (from_database row.session_attribution row.native_session_id
          ≡ ok session))

abbrev pub AllAccounted : TelemetryStore → Type 0
AllAccounted store = All (IsAccounted store.project_scope) store.retrieval_decisions

adds_up :
    (selected dropped candidates : ℕ)
    → leb (saturating_add selected dropped) candidates ≡ true
    → (selected + dropped ≤ candidates) ⊎ (u32_max ≤ candidates)
adds_up selected dropped candidates h = ground arith

module _ {Json : Type 0} (api : TelemetryApi Json) where
  put_decision-All :
      (P : RetrievalRow → Type 0) (d : RetrievalDecision) (row : RetrievalRow)
      (rows : List RetrievalRow) {out : Bool × List RetrievalRow}
      → P row
      → All P rows
      → put_decision api d row rows ≡ ok out
      → All P out.1
  put_decision-All P d row rows {out} new olds done =
      elim (Bool-cases (any (has_decision d.decision_id) rows)) [
        | inl had ↦
            let (found, _, a) =
              bind-eq-ok (retrieval_decision_by_id api d.decision_id rows) _ (rw had at done) in
            let (existing, _, b) = bind-eq-ok (ok_or found row_vanished) _ a in
            let (_, c) = ensure-eq-ok (decision_eq existing d) id_conflict _ b in
            subst (λ (o : Bool × List RetrievalRow). All P o.1) (ok-injective c) olds
        | inr fresh ↦
            subst (λ (o : Bool × List RetrievalRow). All P o.1) (ok-injective (rw fresh at done))
              (All-append P rows (row ∷ []) olds (new, tt))
      ]

  -- Every stored decision is of the ledger's project, its counts of selected and of dropped
  -- candidates add up to no more than its count of candidates unless that is the largest of a
  -- `u32`, its query hash is 64 lowercase hexadecimal digits, its latency fits its column and its
  -- session reads back: recording a decision keeps this.
  pub record_retrieval_decision-AllAccounted :
      (d : RetrievalDecision) (before after : TelemetryStore) (fresh : Bool)
      → AllAccounted before
      → record_retrieval_decision api d before ≡ ok (fresh, after)
      → AllAccounted after
  unfolding record_retrieval_decision
  record_retrieval_decision-AllAccounted d before after fresh olds done =
      let (own, a) = ensure-eq-ok (d.project_id == before.project_scope) foreign_project _ done in
      let (_, session, b) = bind-eq-ok (validate_session d.session) _ a in
      let (_, _, c) = bind-eq-ok (validate_correlation d.correlation_id) _ b in
      let (counts, e) =
        ensure-eq-ok (leb (saturating_add d.selected_count d.dropped_count) d.candidate_count)
          counts_exceed _ c in
      let (hash, f) = ensure-eq-ok (is_sha256 d.query_sha256) hash_malformed _ e in
      let (latency, measured, g) = bind-eq-ok (latency_column d.latency_ms) _ f in
      let (fits, is_latency) = ensure-eq-ok (leb d.latency_ms i64_max) latency_range _ measured in
      let (t, dated, h) = bind-eq-ok (lift_time (timestamp_ns d.occurred_at)) _ g in
      let row = retrieval_row api d latency t in
      let (out, put, k) = bind-eq-ok (put_decision api d row before.retrieval_decisions) _ h in
      subst AllAccounted {x = record before { retrieval_decisions = out.1 }}
        (ap (λ (r : Bool × TelemetryStore). r.1) (ok-injective k))
        (put_decision-All (IsAccounted before.project_scope) d row before.retrieval_decisions
          (
            ground arith,
            adds_up d.selected_count d.dropped_count d.candidate_count counts,
            hash,
            rw (sym (ok-injective is_latency)) (ground arith),
            (d.session, from_database-validate_session d.session session),
          )
          olds put)
