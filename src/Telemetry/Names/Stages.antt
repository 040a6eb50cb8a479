-- ===== src/Telemetry/Names/Stages.antt =====
-- The channels and the stages of lifecycle events in crates/brain-store/src/lifecycle.rs.
use agent_knowledge_base_cod.Common.{
  ℕ, ◌≡◌, refl, Option, some, none, Text, codes, text_eq, if◌then◌else◌,
}

pub data LifecycleChannel : Type 0 where
  session_start user_prompt_submit session_end brain_mcp capture : LifecycleChannel

unfoldable pub channel_as_str : LifecycleChannel → Text
channel_as_str session_start = codes "session_start"
channel_as_str user_prompt_submit = codes "user_prompt_submit"
channel_as_str session_end = codes "session_end"
channel_as_str brain_mcp = codes "brain_mcp"
channel_as_str capture = codes "capture"

unfoldable pub channel_from_str : Text → Option LifecycleChannel
channel_from_str value =
    if text_eq value (codes "session_start")
    then some session_start
    else if text_eq value (codes "user_prompt_submit")
    then some user_prompt_submit
    else if text_eq value (codes "session_end")
    then some session_end
    else if text_eq value (codes "brain_mcp")
    then some brain_mcp
    else if text_eq value (codes "capture")
    then some capture
    else none

pub channel_from_str-as_str : (v : LifecycleChannel) → channel_from_str (channel_as_str v) ≡ some v
unfolding channel_from_str channel_as_str
channel_from_str-as_str session_start = refl
channel_from_str-as_str user_prompt_submit = refl
channel_from_str-as_str session_end = refl
channel_from_str-as_str brain_mcp = refl
channel_from_str-as_str capture = refl

-- The derived `Ord` has the order of declaration, and `PartialEq` is equality of places.
abbrev pub channel_place : LifecycleChannel → ℕ
channel_place session_start = 0
channel_place user_prompt_submit = 1
channel_place session_end = 2
channel_place brain_mcp = 3
channel_place capture = 4

pub data LifecycleStage : Type 0 where
  hook_received retrieval_decided reply_flushed mcp_request mcp_succeeded mcp_failed
        session_end_persisted capture_caught_up :
      LifecycleStage

unfoldable pub stage_as_str : LifecycleStage → Text
stage_as_str hook_received = codes "hook_received"
stage_as_str retrieval_decided = codes "retrieval_decided"
stage_as_str reply_flushed = codes "reply_flushed"
stage_as_str mcp_request = codes "mcp_request"
stage_as_str mcp_succeeded = codes "mcp_succeeded"
stage_as_str mcp_failed = codes "mcp_failed"
stage_as_str session_end_persisted = codes "session_end_persisted"
stage_as_str capture_caught_up = codes "capture_caught_up"

unfoldable pub stage_from_str : Text → Option LifecycleStage
stage_from_str value =
    if text_eq value (codes "hook_received")
    then some hook_received
    else if text_eq value (codes "retrieval_decided")
    then some retrieval_decided
    else if text_eq value (codes "reply_flushed")
    then some reply_flushed
    else if text_eq value (codes "mcp_request")
    then some mcp_request
    else if text_eq value (codes "mcp_succeeded")
    then some mcp_succeeded
    else if text_eq value (codes "mcp_failed")
    then some mcp_failed
    else if text_eq value (codes "session_end_persisted")
    then some session_end_persisted
    else if text_eq value (codes "capture_caught_up")
    then some capture_caught_up
    else none

pub stage_from_str-as_str : (v : LifecycleStage) → stage_from_str (stage_as_str v) ≡ some v
unfolding stage_from_str stage_as_str
stage_from_str-as_str hook_received = refl
stage_from_str-as_str retrieval_decided = refl
stage_from_str-as_str reply_flushed = refl
stage_from_str-as_str mcp_request = refl
stage_from_str-as_str mcp_succeeded = refl
stage_from_str-as_str mcp_failed = refl
stage_from_str-as_str session_end_persisted = refl
stage_from_str-as_str capture_caught_up = refl

-- The derived `Ord` has the order of declaration, and `PartialEq` is equality of places.
abbrev pub stage_place : LifecycleStage → ℕ
stage_place hook_received = 0
stage_place retrieval_decided = 1
stage_place reply_flushed = 2
stage_place mcp_request = 3
stage_place mcp_succeeded = 4
stage_place mcp_failed = 5
stage_place session_end_persisted = 6
stage_place capture_caught_up = 7
