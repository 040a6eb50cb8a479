-- ===== src/Coordination/Lease.antt =====
-- crates/brain-coordination/src/lease.rs: the writer lease of a task. Every function runs in one
-- immediate transaction, so its result is the state after the commit, or an error and no change.
-- `event_id` is what `Uuid::now_v7` gives for the event that the function appends.
pub mod Exclusion
pub mod ReadBack
pub mod Fencing
pub mod Grants
use Prim.Native.Nat.{max, min}
use agent_knowledge_base_cod.Common.{
  ℕ, ◌+◌, ◌&&◌, ◌||◌, Bool, not, Option, none, some, List, [], ◌∷◌, ◌++◌, map, Time, Duration,
  add_time, timestamp_ns, is_positive, i64_max, u64_max, Result, ok, err, ◌>>=◌, ◌>>◌, ensure,
  ok_or, leb, ltb, ◌==◌, if◌then◌else◌, any, filter, find?, sort_by, update_where, delete_where,
}
use mathlib.Core.Option
use agent_knowledge_base_cod.Domain.Harness.{as_str, parse_harness}
use agent_knowledge_base_cod.Coordination.Model.{
  Uuid, is_active, SessionIdentity, session_eq, WriterLease, LeaseRow, Action, acquire, renew,
  takeover, release, handoff, CoordinationStore, CoordinationEvent, StoreError, constraint,
  generation_range, LeaseError, already_held, wrong_owner, generation_changed, task_unavailable,
  invalid_duration, default_lease_duration, lift_time, lift_store,
}
use agent_knowledge_base_cod.Coordination.Task.{is_task}

-- `parse_lease_record`
unfoldable pub parse_lease_record : LeaseRow → WriterLease
parse_lease_record row = record {
  task_id = row.task_id;
  worktree_id = row.worktree_id;
  owner = record {
    harness = parse_harness row.owner_harness;
    native_session_id = row.owner_session;
  };
  acquired_at = row.acquired_at_ns;
  renewed_at = row.renewed_at_ns;
  expires_at = row.expires_at_ns;
  generation = row.generation;
}

abbrev pub is_lease : Uuid → Uuid → LeaseRow → Bool
is_lease project task_id row = row.project_id == project && row.task_id == task_id

unfoldable pub load_lease : Uuid → CoordinationStore → Option WriterLease
unfolding parse_lease_record
load_lease task_id s =
    Option.map parse_lease_record (find? (is_lease s.project_id task_id) s.leases)

unfoldable pub active_task_worktree : Uuid → CoordinationStore → Result LeaseError Uuid
active_task_worktree task_id s = do
  t ←
      ok_or (find? (λ t. is_task s.project_id task_id t && is_active t.status) s.tasks)
        task_unavailable
  ok t.worktree_id

abbrev pub generation_column : ℕ → Result StoreError ℕ
generation_column g = if leb g i64_max then ok g else err generation_range

-- The values of the statement's parameters.
unfoldable pub lease_row : Uuid → WriterLease → Result StoreError LeaseRow
lease_row project lease = do
  acquired_at ← lift_time (timestamp_ns lease.acquired_at)
  renewed_at ← lift_time (timestamp_ns lease.renewed_at)
  expires_at ← lift_time (timestamp_ns lease.expires_at)
  generation ← generation_column lease.generation
  ok (record {
    task_id = lease.task_id;
    project_id = project;
    worktree_id = lease.worktree_id;
    owner_harness = as_str lease.owner.harness;
    owner_session = lease.owner.native_session_id;
    acquired_at_ns = acquired_at;
    renewed_at_ns = renewed_at;
    expires_at_ns = expires_at;
    generation = generation;
  })

-- `ON CONFLICT(task_id) DO UPDATE SET …`: the row keeps its task and its project.
abbrev pub overwrite : LeaseRow → LeaseRow → LeaseRow
overwrite row old = record row { task_id = old.task_id; project_id = old.project_id }

abbrev pub row_of_task : LeaseRow → LeaseRow → Bool
row_of_task row old = old.task_id == row.task_id

abbrev pub other_of_worktree : LeaseRow → LeaseRow → Bool
other_of_worktree row old = old.worktree_id == row.worktree_id && not (row_of_task row old)

-- The schema asks for a positive generation, one row for each worktree, and a task that exists.
unfoldable pub upsert_lease : LeaseRow → CoordinationStore → Result StoreError CoordinationStore
upsert_lease row s = do
  ensure (ltb 0 row.generation) constraint
  ensure (not (any (other_of_worktree row) s.leases)) constraint
  (if any (row_of_task row) s.leases
      then ok (record s { leases = update_where (row_of_task row) (overwrite row) s.leases })
      else do
        ensure (any (λ t. t.id == row.task_id) s.tasks) constraint
        ok (record s { leases = s.leases ++ row ∷ [] }))

unfoldable pub store_lease : WriterLease → CoordinationStore → Result LeaseError CoordinationStore
unfolding lease_row upsert_lease
store_lease lease s = lift_store (do row ← lease_row s.project_id lease; upsert_lease row s)

-- The values of the statement's parameters, in the order of the columns.
abbrev pub event_row :
    Uuid → Uuid → Action → WriterLease → Option SessionIdentity → ℕ → Time → CoordinationEvent
event_row event_id project action lease prior_owner generation occurred_at = record {
  id = event_id;
  project_id = project;
  task_id = lease.task_id;
  worktree_id = lease.worktree_id;
  action = action;
  owner_harness = as_str lease.owner.harness;
  owner_session = lease.owner.native_session_id;
  prior_owner_harness = Option.map (λ o. as_str o.harness) prior_owner;
  prior_owner_session = Option.map (λ o. o.native_session_id) prior_owner;
  generation = generation;
  occurred_at = occurred_at;
}

unfoldable pub append_event :
    Uuid
    → Action
    → WriterLease
    → Option SessionIdentity
    → Time
    → CoordinationStore
    → Result LeaseError CoordinationStore
append_event event_id action lease prior_owner now s = lift_store (do
  generation ← generation_column lease.generation
  at ← lift_time (timestamp_ns now)
  ensure (not (any (λ e. e.id == event_id) s.events)) constraint
  ok (record s {
    events =
        s.events ++ event_row event_id s.project_id action lease prior_owner generation at ∷ [];
  }))

-- The two statements that a change of a lease makes.
unfoldable pub write_lease :
    Uuid
    → Action
    → WriterLease
    → Option SessionIdentity
    → Time
    → CoordinationStore
    → Result LeaseError (WriterLease × CoordinationStore)
write_lease event_id action lease prior_owner now s = do
  stored ← store_lease lease s
  logged ← append_event event_id action lease prior_owner now stored
  ok (lease, logged)

abbrev pub plus : Time → Duration → Result LeaseError Time
plus t d = lift_store (lift_time (add_time t d))

abbrev pub saturating_succ : ℕ → ℕ
saturating_succ g = min (g + 1) u64_max

abbrev pub get_duration : Option Duration → Duration
get_duration none = default_lease_duration
get_duration (some d) = d

-- A lease that starts now: the arms `Some(existing)`, when it has expired, and `None`.
unfoldable pub new_lease :
    Uuid → Uuid → SessionIdentity → Time → Duration → ℕ → Result LeaseError WriterLease
new_lease task_id worktree_id owner now duration generation = do
  expires_at ← plus now duration
  ok (record {
    task_id = task_id;
    worktree_id = worktree_id;
    owner = owner;
    acquired_at = now;
    renewed_at = now;
    expires_at = expires_at;
    generation = generation;
  })

unfoldable pub renewed_lease : Time → Duration → WriterLease → Result LeaseError WriterLease
renewed_lease now duration existing = do
  let renewed_at = max now existing.renewed_at
  expires_at ← plus renewed_at duration
  ok (record existing { renewed_at = renewed_at; expires_at = expires_at })

-- The `match existing` of `acquire_lease`.
unfoldable pub acquire_over :
    Uuid
    → Uuid
    → Uuid
    → SessionIdentity
    → Time
    → Duration
    → Option WriterLease
    → CoordinationStore
    → Result LeaseError (WriterLease × CoordinationStore)
acquire_over event_id task_id worktree_id owner now duration none s = do
  lease ← new_lease task_id worktree_id owner now duration 1
  write_lease event_id acquire lease none now s
acquire_over event_id task_id worktree_id owner now duration (some existing) s =
    if ltb now existing.expires_at && not (session_eq existing.owner owner)
    then err (
        already_held (as_str existing.owner.harness) existing.owner.native_session_id
          existing.expires_at)
    else if ltb now existing.expires_at
    then (do
      renewed ← renewed_lease now duration existing
      write_lease event_id renew renewed none now s)
    else do
      lease ← new_lease task_id worktree_id owner now duration (saturating_succ existing.generation)
      write_lease event_id takeover lease (some existing.owner) now s

unfoldable pub acquire_lease :
    Uuid
    → Uuid
    → SessionIdentity
    → Time
    → Option Duration
    → CoordinationStore
    → Result LeaseError (WriterLease × CoordinationStore)
acquire_lease event_id task_id owner now duration s = do
  ensure (is_positive (get_duration duration)) invalid_duration
  worktree_id ← active_task_worktree task_id s
  acquire_over event_id task_id worktree_id owner now (get_duration duration) (load_lease task_id s)
      s

-- The guards that `renew_lease`, `release_lease` and `handoff_lease` begin with.
unfoldable pub held_lease :
    Uuid → SessionIdentity → ℕ → CoordinationStore → Result LeaseError WriterLease
held_lease task_id owner generation s = do
  existing ← ok_or (load_lease task_id s) task_unavailable
  ensure (session_eq existing.owner owner) wrong_owner
  ensure (existing.generation == generation) generation_changed
  ok existing

unfoldable pub renew_lease :
    Uuid
    → Uuid
    → SessionIdentity
    → ℕ
    → Time
    → Option Duration
    → CoordinationStore
    → Result LeaseError (WriterLease × CoordinationStore)
renew_lease event_id task_id owner generation now duration s = do
  ensure (is_positive (get_duration duration)) invalid_duration
  existing ← held_lease task_id owner generation s
  renewed ← renewed_lease now (get_duration duration) existing
  write_lease event_id renew renewed none now s

unfoldable pub release_lease :
    Uuid
    → Uuid
    → SessionIdentity
    → ℕ
    → Time
    → CoordinationStore
    → Result LeaseError CoordinationStore
release_lease event_id task_id owner generation now s = do
  existing ← held_lease task_id owner generation s
  g ← lift_store (generation_column generation)
  let deleted = record s {
    leases =
        delete_where (λ row. is_lease s.project_id task_id row && row.generation == g) s.leases;
  }
  append_event event_id release existing none now deleted

unfoldable pub handoff_lease :
    Uuid
    → Uuid
    → SessionIdentity
    → ℕ
    → SessionIdentity
    → Time
    → CoordinationStore
    → Result LeaseError (WriterLease × CoordinationStore)
handoff_lease event_id task_id current_owner generation next_owner now s = do
  existing ← held_lease task_id current_owner generation s
  expires_at ← plus now default_lease_duration
  let lease = record existing {
    owner = next_owner;
    acquired_at = now;
    renewed_at = now;
    expires_at = expires_at;
    generation = saturating_succ generation;
  }
  write_lease event_id handoff lease (some existing.owner) now s

-- `ORDER BY expires_at_ns ASC, task_id ASC`
abbrev soonest_first : LeaseRow → LeaseRow → Bool
soonest_first a b =
    ltb a.expires_at_ns b.expires_at_ns
    || (a.expires_at_ns == b.expires_at_ns && leb a.task_id b.task_id)

unfoldable pub active_leases : Time → CoordinationStore → Result StoreError (List WriterLease)
active_leases now s = do
  at ← lift_time (timestamp_ns now)
  ok (
      map parse_lease_record (
        sort_by soonest_first
          (filter (λ row. row.project_id == s.project_id && ltb at row.expires_at_ns) s.leases)))
