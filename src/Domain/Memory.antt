-- ===== src/Domain/Memory.antt =====
-- The types of crates/brain-domain/src/memory.rs, and the names that columns keep of them.
use agent_knowledge_base_cod.Common.{
  ℕ, ◌≡◌, ◌↔◌, ◌==◌, ◌||◌, refl, sym, Bool, true, false, Option, none, some, arith, List, Text,
  codes, text_eq, text_eq→≡, if◌then◌else◌, Time, leb,
}

abbrev pub Uuid : Type 0
Uuid = ℕ

pub data MemoryKind : Type 0 where
  checkpoint decision fact investigation procedure deployment timeline preference task : MemoryKind

unfoldable pub kind_as_str : MemoryKind → Text
kind_as_str checkpoint = codes "checkpoint"
kind_as_str decision = codes "decision"
kind_as_str fact = codes "fact"
kind_as_str investigation = codes "investigation"
kind_as_str procedure = codes "procedure"
kind_as_str deployment = codes "deployment"
kind_as_str timeline = codes "timeline"
kind_as_str preference = codes "preference"
kind_as_str task = codes "task"

unfoldable pub kind_from_name : Text → Option MemoryKind
kind_from_name value =
    if text_eq value (codes "checkpoint")
    then some checkpoint
    else if text_eq value (codes "decision")
    then some decision
    else if text_eq value (codes "fact")
    then some fact
    else if text_eq value (codes "investigation")
    then some investigation
    else if text_eq value (codes "procedure")
    then some procedure
    else if text_eq value (codes "deployment")
    then some deployment
    else if text_eq value (codes "timeline")
    then some timeline
    else if text_eq value (codes "preference")
    then some preference
    else if text_eq value (codes "task")
    then some task
    else none

pub data MemoryScope : Type 0 where
  project : Uuid → MemoryScope
  global_preferences : MemoryScope

pub data Authority : Type 0 where
  external_document derived_memory agent_checkpoint human_correction raw_mechanical_evidence
        live_state :
      Authority

unfoldable pub authority_as_str : Authority → Text
authority_as_str external_document = codes "external_document"
authority_as_str derived_memory = codes "derived_memory"
authority_as_str agent_checkpoint = codes "agent_checkpoint"
authority_as_str human_correction = codes "human_correction"
authority_as_str raw_mechanical_evidence = codes "raw_mechanical_evidence"
authority_as_str live_state = codes "live_state"

unfoldable pub authority_from_name : Text → Option Authority
authority_from_name value =
    if text_eq value (codes "external_document")
    then some external_document
    else if text_eq value (codes "derived_memory")
    then some derived_memory
    else if text_eq value (codes "agent_checkpoint")
    then some agent_checkpoint
    else if text_eq value (codes "human_correction")
    then some human_correction
    else if text_eq value (codes "raw_mechanical_evidence")
    then some raw_mechanical_evidence
    else if text_eq value (codes "live_state")
    then some live_state
    else none

pub data MemoryStatus : Type 0 where
  proposed current superseded conflict invalid : MemoryStatus

abbrev pub is_readable : MemoryStatus → Bool
is_readable current = true
is_readable conflict = true
is_readable _ = false

unfoldable pub status_as_str : MemoryStatus → Text
status_as_str proposed = codes "proposed"
status_as_str current = codes "current"
status_as_str superseded = codes "superseded"
status_as_str conflict = codes "conflict"
status_as_str invalid = codes "invalid"

unfoldable pub status_from_name : Text → Option MemoryStatus
status_from_name value =
    if text_eq value (codes "proposed")
    then some proposed
    else if text_eq value (codes "current")
    then some current
    else if text_eq value (codes "superseded")
    then some superseded
    else if text_eq value (codes "conflict")
    then some conflict
    else if text_eq value (codes "invalid")
    then some invalid
    else none

pub record MemoryRecord : Type 0 where
  pub id : Uuid
  pub version_id : Uuid
  pub scope : MemoryScope
  pub worktree_id : Option Uuid
  pub task_id : Option Uuid
  pub kind : MemoryKind
  pub title : Text
  pub content : Text
  pub valid_from : Time
  pub valid_to : Option Time
  pub recorded_at : Time
  -- The bits of the `f32`.
  pub confidence : ℕ
  pub authority : Authority
  pub evidence_ids : List Uuid
  pub supersedes : List Uuid
  pub status : MemoryStatus

-- `is_finite()` and `(0.0..=1.0).contains`: up to the bits of 1.0, or those of -0.0.
abbrev pub is_confidence : ℕ → Bool
is_confidence bits = leb bits 0x3F800000 || (bits == 0x80000000)

pub kind_from_name-as_str : (v : MemoryKind) → kind_from_name (kind_as_str v) ≡ some v
unfolding kind_from_name kind_as_str
kind_from_name-as_str checkpoint = refl
kind_from_name-as_str decision = refl
kind_from_name-as_str fact = refl
kind_from_name-as_str investigation = refl
kind_from_name-as_str procedure = refl
kind_from_name-as_str deployment = refl
kind_from_name-as_str timeline = refl
kind_from_name-as_str preference = refl
kind_from_name-as_str task = refl

pub authority_from_name-as_str : (v : Authority) → authority_from_name (authority_as_str v) ≡ some v
unfolding authority_from_name authority_as_str
authority_from_name-as_str external_document = refl
authority_from_name-as_str derived_memory = refl
authority_from_name-as_str agent_checkpoint = refl
authority_from_name-as_str human_correction = refl
authority_from_name-as_str raw_mechanical_evidence = refl
authority_from_name-as_str live_state = refl

pub status_from_name-as_str : (v : MemoryStatus) → status_from_name (status_as_str v) ≡ some v
unfolding status_from_name status_as_str
status_from_name-as_str proposed = refl
status_from_name-as_str current = refl
status_from_name-as_str superseded = refl
status_from_name-as_str conflict = refl
status_from_name-as_str invalid = refl

kind_as_str-from_name :
    (value : Text) {v : MemoryKind} → kind_from_name value ≡ some v → kind_as_str v ≡ value
unfolding kind_from_name kind_as_str
kind_as_str-from_name value {v} h = ground (
  arith,
  text_eq→≡ value (codes "checkpoint"),
  text_eq→≡ value (codes "decision"),
  text_eq→≡ value (codes "fact"),
  text_eq→≡ value (codes "investigation"),
  text_eq→≡ value (codes "procedure"),
  text_eq→≡ value (codes "deployment"),
  text_eq→≡ value (codes "timeline"),
  text_eq→≡ value (codes "preference"),
  text_eq→≡ value (codes "task"),
)

authority_as_str-from_name :
    (value : Text) {v : Authority} → authority_from_name value ≡ some v → authority_as_str v ≡ value
unfolding authority_from_name authority_as_str
authority_as_str-from_name value {v} h = ground (
  arith,
  text_eq→≡ value (codes "external_document"),
  text_eq→≡ value (codes "derived_memory"),
  text_eq→≡ value (codes "agent_checkpoint"),
  text_eq→≡ value (codes "human_correction"),
  text_eq→≡ value (codes "raw_mechanical_evidence"),
  text_eq→≡ value (codes "live_state"),
)

status_as_str-from_name :
    (value : Text) {v : MemoryStatus} → status_from_name value ≡ some v → status_as_str v ≡ value
unfolding status_from_name status_as_str
status_as_str-from_name value {v} h = ground (
  arith,
  text_eq→≡ value (codes "proposed"),
  text_eq→≡ value (codes "current"),
  text_eq→≡ value (codes "superseded"),
  text_eq→≡ value (codes "conflict"),
  text_eq→≡ value (codes "invalid"),
)

-- A kind, an authority and a status are read from their own names only.
from_name-as_str :
    (value : Text) (k : MemoryKind) (a : Authority) (s : MemoryStatus)
    → ((kind_from_name value ≡ some k) ↔ (kind_as_str k ≡ value))
      × ((authority_from_name value ≡ some a) ↔ (authority_as_str a ≡ value))
      × ((status_from_name value ≡ some s) ↔ (status_as_str s ≡ value))
from_name-as_str value k a s = (
  (kind_as_str-from_name value {v = k}, λ e. rw (sym e) (kind_from_name-as_str k)),
  (authority_as_str-from_name value {v = a}, λ e. rw (sym e) (authority_from_name-as_str a)),
  (status_as_str-from_name value {v = s}, λ e. rw (sym e) (status_from_name-as_str s)),
)
