-- ===== src/Telemetry/Tests.antt =====
-- An event and a decision that are recorded, and decisions that are folded.
use agent_knowledge_base_cod.Common.{
  ◌≡◌, refl, true, none, some, [], ◌∷◌, Text, codes, text_eq, trim, ok, unix_epoch, timestamp_ns,
  arith,
}
use agent_knowledge_base_cod.Domain.Harness.{claude_code, as_str, parse_harness}
use agent_knowledge_base_cod.Telemetry.Names.{
  attributed, user_prompt_submit, hook_received, delivered, healthy_silence, selected,
  no_relevant_candidate, LifecycleEvent, RetrievalDecision,
}
use agent_knowledge_base_cod.Telemetry.Folds.{fold_retrieval_decisions}
use agent_knowledge_base_cod.Telemetry.Tally.{IsTally, fold_retrieval_decisions-IsTally}
use agent_knowledge_base_cod.Telemetry.Store.{
  TelemetryApi, TelemetryStore, lifecycle_row, record_lifecycle_event,
}
use agent_knowledge_base_cod.Telemetry.Decisions.{retrieval_row, record_retrieval_decision}
use agent_knowledge_base_cod.Telemetry.Replay.{RecordedOnce, record_lifecycle_event-RecordedOnce}
use agent_knowledge_base_cod.Telemetry.Accounts.{
  AllAccounted, record_retrieval_decision-AllAccounted,
}

abbrev texts : TelemetryApi Text
texts = record {
  to_string = λ j. j;
  from_str = λ s. some s;
  json_eq = text_eq;
  ids_to_string = λ ids. [];
  ids_from_str = λ s. some [];
}

abbrev no_rows : TelemetryStore
no_rows = record { project_scope = 7; lifecycle_events = []; retrieval_decisions = [] }

abbrev received : LifecycleEvent Text
received = record {
  event_id = 1;
  project_id = 7;
  harness = claude_code;
  session = attributed (codes "s");
  correlation_id = none;
  channel = user_prompt_submit;
  stage = hook_received;
  occurred_at = unix_epoch;
  detail = codes "{}";
}

abbrev one_event : TelemetryStore
one_event = record no_rows { lifecycle_events = lifecycle_row texts received unix_epoch ∷ [] }

recorded : record_lifecycle_event texts received no_rows ≡ ok (true, one_event)
unfolding record_lifecycle_event timestamp_ns trim
recorded = refl

canonical : parse_harness (as_str claude_code) ≡ claude_code
unfolding parse_harness as_str
canonical = refl

record_lifecycle_event-RecordedOnce_example : RecordedOnce texts received one_event
record_lifecycle_event-RecordedOnce_example =
    record_lifecycle_event-RecordedOnce texts received no_rows one_event true canonical refl refl
      recorded

abbrev answered : RetrievalDecision
answered = record {
  decision_id = 2;
  project_id = 7;
  harness = claude_code;
  session = attributed (codes "s");
  correlation_id = none;
  channel = user_prompt_submit;
  outcome = delivered;
  reason_code = selected;
  candidate_count = 3;
  selected_count = 2;
  dropped_count = 1;
  token_count = 90;
  latency_ms = 12;
  query_sha256 = codes "aaaaaaaaaaaaaaaaaaaaaaaaaaaaaaaaaaaaaaaaaaaaaaaaaaaaaaaaaaaaaaaa";
  selected_evidence_ids = [];
  occurred_at = unix_epoch;
}

abbrev silent : RetrievalDecision
silent = record answered {
  decision_id = 3;
  outcome = healthy_silence;
  reason_code = no_relevant_candidate;
  selected_count = 0;
  dropped_count = 0;
}

abbrev one_decision : TelemetryStore
one_decision = record no_rows {
  retrieval_decisions = retrieval_row texts answered 12 unix_epoch ∷ [];
}

decided : record_retrieval_decision texts answered no_rows ≡ ok (true, one_decision)
unfolding record_retrieval_decision timestamp_ns trim
decided = refl

record_retrieval_decision-AllAccounted_example : AllAccounted one_decision
record_retrieval_decision-AllAccounted_example =
    record_retrieval_decision-AllAccounted texts answered no_rows one_decision true tt decided

fold_retrieval_decisions-IsTally_example :
    IsTally
      (answered ∷ silent ∷ answered ∷ [])
      (fold_retrieval_decisions (answered ∷ silent ∷ answered ∷ []))
fold_retrieval_decisions-IsTally_example =
    fold_retrieval_decisions-IsTally (answered ∷ silent ∷ answered ∷ []) (omega arith)
