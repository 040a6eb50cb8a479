-- ===== src/Coordination/Model.antt =====
-- The tables of crates/brain-coordination/src/lib.rs and the records that the store's functions
-- take and give (task.rs, lease.rs, claims.rs). Ids are 128-bit numbers, compared as numbers, which
-- is the order of their text. A column that holds an enum's name holds the enum.
use agent_knowledge_base_cod.Common.{
  ℕ, ◌≡◌, ◌&&◌, Bool, true, false, Option, none, some, List, Text, text_eq, text_eq_self, text_eq→≡,
  Time, TimeError, Duration, minutes, arith, Result, ok, err, codes, if◌then◌else◌,
}
use agent_knowledge_base_cod.Domain.Harness.{Harness, harness_eq, harness_eq_self, harness_eq→≡}

abbrev pub Uuid : Type 0
Uuid = ℕ

pub data TaskStatus : Type 0 where
  active completed abandoned : TaskStatus

abbrev pub is_active : TaskStatus → Bool
is_active active = true
is_active _ = false

pub record TaskRecord : Type 0 where
  pub id : Uuid
  pub project_id : Uuid
  pub worktree_id : Uuid
  pub title : Text
  pub worktree_path : Option Text
  pub branch : Option Text
  pub status : TaskStatus
  pub created_at : Time
  pub closed_at : Option Time

pub record SessionIdentity : Type 0 where
  pub harness : Harness
  pub native_session_id : Text

unfoldable pub session_eq : SessionIdentity → SessionIdentity → Bool
session_eq a b = harness_eq a.harness b.harness && text_eq a.native_session_id b.native_session_id

pub record WriterLease : Type 0 where
  pub task_id : Uuid
  pub worktree_id : Uuid
  pub owner : SessionIdentity
  pub acquired_at : Time
  pub renewed_at : Time
  pub expires_at : Time
  pub generation : ℕ

-- A row of `writer_leases`.
pub record LeaseRow : Type 0 where
  pub task_id : Uuid
  pub project_id : Uuid
  pub worktree_id : Uuid
  pub owner_harness : Text
  pub owner_session : Text
  pub acquired_at_ns : Time
  pub renewed_at_ns : Time
  pub expires_at_ns : Time
  pub generation : ℕ

pub data Action : Type 0 where
  acquire renew takeover release handoff : Action

-- A row of `coordination_events`.
pub record CoordinationEvent : Type 0 where
  pub id : Uuid
  pub project_id : Uuid
  pub task_id : Uuid
  pub worktree_id : Uuid
  pub action : Action
  pub owner_harness : Text
  pub owner_session : Text
  pub prior_owner_harness : Option Text
  pub prior_owner_session : Option Text
  pub generation : ℕ
  pub occurred_at : Time

pub data ClaimKind : Type 0 where
  file directory glob symbol : ClaimKind

pub record PathClaim : Type 0 where
  pub id : Uuid
  pub project_id : Uuid
  pub task_id : Uuid
  pub worktree_id : Uuid
  pub kind : ClaimKind
  pub normalized_value : Text
  pub display_value : Text
  pub symbol : Option Text
  pub created_at : Time
  pub released_at : Option Time

-- The store: the open project and the four tables of the file behind it.
pub record CoordinationStore : Type 0 where
  pub project_id : Uuid
  pub tasks : List TaskRecord
  pub leases : List LeaseRow
  pub events : List CoordinationEvent
  pub claims : List PathClaim

-- What `anyhow` carries out of the store.
pub data StoreError : Type 0 where
  time : TimeError → StoreError
  -- `i64::try_from(generation)`
  generation_range : StoreError
  -- a PRIMARY KEY, UNIQUE, CHECK or REFERENCES clause of the schema
  constraint : StoreError
  project_scope title_empty title_too_long closing_status task_absent task_missing : StoreError
  no_claims too_many_claims task_inactive symbol_required claim_absent claim_missing : StoreError
  path_empty path_absolute path_stream path_escapes : StoreError

pub data LeaseError : Type 0 where
  already_held : Text → Text → Time → LeaseError
  wrong_owner generation_changed task_unavailable invalid_duration : LeaseError
  store : StoreError → LeaseError

abbrev pub default_lease_duration : Duration
default_lease_duration = minutes 30

abbrev pub lift_time {ℓ} : {A : Type ℓ} → Result TimeError A → Result StoreError A
lift_time (ok a) = ok a
lift_time (err e) = err (time e)

-- `#[from] anyhow::Error`
abbrev pub lift_store {ℓ} : {A : Type ℓ} → Result StoreError A → Result LeaseError A
lift_store (ok a) = ok a
lift_store (err e) = err (store e)

unfoldable pub task_status_as_str : TaskStatus → Text
task_status_as_str active = codes "active"
task_status_as_str completed = codes "completed"
task_status_as_str abandoned = codes "abandoned"

unfoldable pub task_status_from_name : Text → Option TaskStatus
task_status_from_name value =
    if text_eq value (codes "active")
    then some active
    else if text_eq value (codes "completed")
    then some completed
    else if text_eq value (codes "abandoned")
    then some abandoned
    else none

unfoldable pub claim_kind_as_str : ClaimKind → Text
claim_kind_as_str file = codes "file"
claim_kind_as_str directory = codes "directory"
claim_kind_as_str glob = codes "glob"
claim_kind_as_str symbol = codes "symbol"

unfoldable pub claim_kind_from_name : Text → Option ClaimKind
claim_kind_from_name value =
    if text_eq value (codes "file")
    then some file
    else if text_eq value (codes "directory")
    then some directory
    else if text_eq value (codes "glob")
    then some glob
    else if text_eq value (codes "symbol")
    then some symbol
    else none

pub session_eq→≡ : (a b : SessionIdentity) → session_eq a b ≡ true → a ≡ b
unfolding session_eq
session_eq→≡ a b h =
    ground
      (arith, harness_eq→≡ a.harness b.harness, text_eq→≡ a.native_session_id b.native_session_id)

pub session_eq_self : (a : SessionIdentity) → session_eq a a ≡ true
unfolding session_eq
session_eq_self a = ground (arith, harness_eq_self a.harness, text_eq_self a.native_session_id)
