-- ===== src/Telemetry/Names.antt =====
-- The types of crates/brain-store/src/lifecycle.rs, and the names that columns keep of them.
mod Stages
unfoldable pub use Stages.*
use agent_knowledge_base_cod.Common.{
  ℕ, ◌≡◌, ◌&&◌, not, refl, Bool, true, false, Option, some, none, List, Text, codes, text_eq,
  is_blank, Time, Result, ok, err, ensure, if◌then◌else◌, TimeError,
}
use agent_knowledge_base_cod.Domain.Harness.{Harness}
use agent_knowledge_base_cod.Domain.Memory.{Uuid}

pub data RetrievalOutcome : Type 0 where
  delivered healthy_silence dropped failed not_requested : RetrievalOutcome

unfoldable pub outcome_as_str : RetrievalOutcome → Text
outcome_as_str delivered = codes "delivered"
outcome_as_str healthy_silence = codes "healthy_silence"
outcome_as_str dropped = codes "dropped"
outcome_as_str failed = codes "failed"
outcome_as_str not_requested = codes "not_requested"

unfoldable pub outcome_from_str : Text → Option RetrievalOutcome
outcome_from_str value =
    if text_eq value (codes "delivered")
    then some delivered
    else if text_eq value (codes "healthy_silence")
    then some healthy_silence
    else if text_eq value (codes "dropped")
    then some dropped
    else if text_eq value (codes "failed")
    then some failed
    else if text_eq value (codes "not_requested")
    then some not_requested
    else none

pub outcome_from_str-as_str : (v : RetrievalOutcome) → outcome_from_str (outcome_as_str v) ≡ some v
unfolding outcome_from_str outcome_as_str
outcome_from_str-as_str delivered = refl
outcome_from_str-as_str healthy_silence = refl
outcome_from_str-as_str dropped = refl
outcome_from_str-as_str failed = refl
outcome_from_str-as_str not_requested = refl

-- The derived `Ord` has the order of declaration, and `PartialEq` is equality of places.
abbrev pub outcome_place : RetrievalOutcome → ℕ
outcome_place delivered = 0
outcome_place healthy_silence = 1
outcome_place dropped = 2
outcome_place failed = 3
outcome_place not_requested = 4

pub data RetrievalReasonCode : Type 0 where
  selected short_prompt missing_session_id session_memory_cap no_relevant_candidate budget_drop
        retrieval_error timeout no_request :
      RetrievalReasonCode

unfoldable pub reason_as_str : RetrievalReasonCode → Text
reason_as_str selected = codes "selected"
reason_as_str short_prompt = codes "short_prompt"
reason_as_str missing_session_id = codes "missing_session_id"
reason_as_str session_memory_cap = codes "session_memory_cap"
reason_as_str no_relevant_candidate = codes "no_relevant_candidate"
reason_as_str budget_drop = codes "budget_drop"
reason_as_str retrieval_error = codes "retrieval_error"
reason_as_str timeout = codes "timeout"
reason_as_str no_request = codes "not_requested"

unfoldable pub reason_from_str : Text → Option RetrievalReasonCode
reason_from_str value =
    if text_eq value (codes "selected")
    then some selected
    else if text_eq value (codes "short_prompt")
    then some short_prompt
    else if text_eq value (codes "missing_session_id")
    then some missing_session_id
    else if text_eq value (codes "session_memory_cap")
    then some session_memory_cap
    else if text_eq value (codes "no_relevant_candidate")
    then some no_relevant_candidate
    else if text_eq value (codes "budget_drop")
    then some budget_drop
    else if text_eq value (codes "retrieval_error")
    then some retrieval_error
    else if text_eq value (codes "timeout")
    then some timeout
    else if text_eq value (codes "not_requested")
    then some no_request
    else none

pub reason_from_str-as_str : (v : RetrievalReasonCode) → reason_from_str (reason_as_str v) ≡ some v
unfolding reason_from_str reason_as_str
reason_from_str-as_str selected = refl
reason_from_str-as_str short_prompt = refl
reason_from_str-as_str missing_session_id = refl
reason_from_str-as_str session_memory_cap = refl
reason_from_str-as_str no_relevant_candidate = refl
reason_from_str-as_str budget_drop = refl
reason_from_str-as_str retrieval_error = refl
reason_from_str-as_str timeout = refl
reason_from_str-as_str no_request = refl

-- The derived `Ord` has the order of declaration, and `PartialEq` is equality of places.
abbrev pub reason_place : RetrievalReasonCode → ℕ
reason_place selected = 0
reason_place short_prompt = 1
reason_place missing_session_id = 2
reason_place session_memory_cap = 3
reason_place no_relevant_candidate = 4
reason_place budget_drop = 5
reason_place retrieval_error = 6
reason_place timeout = 7
reason_place no_request = 8

pub data SessionAttribution : Type 0 where
  attributed : Text → SessionAttribution
  unattributed : SessionAttribution

pub record LifecycleEvent (Json : Type 0) : Type 0 where
  pub event_id : Uuid
  pub project_id : Uuid
  pub harness : Harness
  pub session : SessionAttribution
  pub correlation_id : Option Text
  pub channel : LifecycleChannel
  pub stage : LifecycleStage
  pub occurred_at : Time
  pub detail : Json

pub record RetrievalDecision : Type 0 where
  pub decision_id : Uuid
  pub project_id : Uuid
  pub harness : Harness
  pub session : SessionAttribution
  pub correlation_id : Option Text
  pub channel : LifecycleChannel
  pub outcome : RetrievalOutcome
  pub reason_code : RetrievalReasonCode
  pub candidate_count : ℕ
  pub selected_count : ℕ
  pub dropped_count : ℕ
  pub token_count : ℕ
  pub latency_ms : ℕ
  pub query_sha256 : Text
  pub selected_evidence_ids : List Text
  pub occurred_at : Time

pub data TelemetryError : Type 0 where
  foreign_project session_empty correlation_empty id_conflict row_vanished : TelemetryError
  counts_exceed hash_malformed latency_range : TelemetryError
  range_inverted limit_invalid : TelemetryError
  -- a stored name, count or JSON text that does not read
  stored_invalid : TelemetryError
  time : TimeError → TelemetryError

-- `SessionAttribution::validate`
abbrev pub validate_session : SessionAttribution → Result TelemetryError (Unit {0})
validate_session (attributed session_id) = ensure (not (is_blank session_id)) session_empty
validate_session unattributed = ok tt

-- `SessionAttribution::database_values`
abbrev pub attribution_value : SessionAttribution → Text
attribution_value (attributed session_id) = codes "attributed"
attribution_value unattributed = codes "unattributed"

abbrev pub session_value : SessionAttribution → Option Text
session_value (attributed session_id) = some session_id
session_value unattributed = none

-- `SessionAttribution::from_database`
abbrev pub from_database : Text → Option Text → Result TelemetryError SessionAttribution
from_database state (some session_id) =
    if text_eq state (codes "attributed") && not (is_blank session_id)
    then ok (attributed session_id)
    else err stored_invalid
from_database state none =
    if text_eq state (codes "unattributed") then ok unattributed else err stored_invalid

abbrev pub validate_correlation : Option Text → Result TelemetryError (Unit {0})
validate_correlation none = ok tt
validate_correlation (some correlation_id) =
    ensure (not (is_blank correlation_id)) correlation_empty

abbrev pub session_eq : SessionAttribution → SessionAttribution → Bool
session_eq (attributed s) (attributed t) = text_eq s t
session_eq unattributed unattributed = true
session_eq _ _ = false

abbrev pub option_eq : Option Text → Option Text → Bool
option_eq none none = true
option_eq (some s) (some t) = text_eq s t
option_eq _ _ = false
