-- ===== src/Coordination/Invariant/Preserved.antt =====
-- Each statement that changes a table keeps the invariant.
use mathlib.Core.Path.{subst}
use agent_knowledge_base_cod.Common.{
  ◌≤◌, ◌<◌, ◌≡◌, ◌⊎◌, refl, true, false, inl, inr, some, Option, arith, Time, InRange, timestamp_ns,
  i64_max, Result, ok, err, bind-eq-ok, List, [], ◌∷◌, ◌++◌, any, All, All-append, All-update_where,
  Distinct, Distinct-append, Distinct-update, Distinct-overwrite, Distinct-AtMostOne, update_where,
  ◌==◌,
}
use agent_knowledge_base_cod.Domain.Harness.{as_str}
use agent_knowledge_base_cod.Coordination.Model.{
  Uuid, TaskRecord, WriterLease, LeaseRow, Action, SessionIdentity, CoordinationStore, StoreError,
  lift_store,
}
use agent_knowledge_base_cod.Coordination.Lease.{
  row_of_task, other_of_worktree, overwrite, upsert_lease, lease_row, store_lease, append_event,
  write_lease, event_row,
}
use agent_knowledge_base_cod.Coordination.Invariant.{project_of, RowIsValid, StoreIsValid}

-- A successful upsert overwrites the task's row, or adds one to a free worktree.
pub upsert_cases :
    (row : LeaseRow) (s : CoordinationStore) {s' : CoordinationStore}
    → upsert_lease row s ≡ ok s'
    → (any (other_of_worktree row) s.leases ≡ false)
      × ((any (row_of_task row) s.leases ≡ true)
            × (s' ≡ record s { leases = update_where (row_of_task row) (overwrite row) s.leases })
          ⊎ (any (row_of_task row) s.leases ≡ false)
            × (s' ≡ record s { leases = s.leases ++ row ∷ [] }))
unfolding upsert_lease
upsert_cases row s h = ground arith

pub with_leases-StoreIsValid :
    (s : CoordinationStore) (rows : List LeaseRow)
    → StoreIsValid s
    → Distinct (λ r. r.task_id) rows
    → Distinct (λ r. r.worktree_id) rows
    → All (RowIsValid s.tasks) rows
    → StoreIsValid (record s { leases = rows })
with_leases-StoreIsValid s rows v t w a = record {
  task_ids = v.task_ids;
  event_ids = v.event_ids;
  claim_ids = v.claim_ids;
  lease_tasks = t;
  lease_worktrees = w;
  rows = a;
}

-- No row keeps the worktree when the task has none and no other task has it.
worktree_free :
    (row : LeaseRow) (rows : List LeaseRow)
    → any (other_of_worktree row) rows ≡ false
    → any (row_of_task row) rows ≡ false
    → any (λ r. r.worktree_id == row.worktree_id) rows ≡ false
worktree_free row [] h e = refl
worktree_free row (r ∷ rs) h e = ground (arith, worktree_free row rs)

overwrite-RowIsValid :
    (tasks : List TaskRecord) (row old : LeaseRow)
    → RowIsValid tasks row
    → RowIsValid tasks old
    → RowIsValid tasks (overwrite row old)
overwrite-RowIsValid tasks row old r o = record {
  numbered = r.numbered;
  bounded = r.bounded;
  ordered = r.ordered;
  running = r.running;
  stored = r.stored;
  owned = o.owned;
}

upsert_lease-StoreIsValid :
    (row : LeaseRow) (s : CoordinationStore) {s' : CoordinationStore}
    → StoreIsValid s
    → RowIsValid s.tasks row
    → upsert_lease row s ≡ ok s'
    → StoreIsValid s'
upsert_lease-StoreIsValid row s {s'} v r h = elim (upsert_cases row s h).1 [
  | inl (held, e) ↦ rw e (
      with_leases-StoreIsValid s (update_where (row_of_task row) (overwrite row) s.leases) v
        (Distinct-update _ _ _ s.leases (λ x. refl) v.lease_tasks)
        (Distinct-overwrite _ row.worktree_id _ _ (λ x. refl) s.leases (upsert_cases row s h).0
          (Distinct-AtMostOne _ row.task_id s.leases v.lease_tasks) v.lease_worktrees)
        (All-update_where _ _ _ s.leases (λ x _ o. overwrite-RowIsValid s.tasks row x r o) v.rows))
  | inr (fresh, e) ↦ rw e (
      with_leases-StoreIsValid s (s.leases ++ row ∷ []) v
        (Distinct-append _ s.leases row fresh v.lease_tasks)
        (Distinct-append _ s.leases row (worktree_free row s.leases (upsert_cases row s h).0 fresh)
          v.lease_worktrees)
        (All-append _ s.leases (row ∷ []) v.rows (r, tt)))
]

-- A successful append adds one event under an id of its own.
pub append_cases :
    (event_id : Uuid) (a : Action) (l : WriterLease) (p : Option SessionIdentity) (now : Time)
    (s : CoordinationStore) {s' : CoordinationStore}
    → append_event event_id a l p now s ≡ ok s'
    → (any (λ e. e.id == event_id) s.events ≡ false)
      × (s' ≡ record s {
        events = s.events ++ event_row event_id s.project_id a l p l.generation now ∷ [];
      })
unfolding append_event timestamp_ns
append_cases event_id a l p now s h = ground arith

pub append_event-StoreIsValid :
    (event_id : Uuid) (a : Action) (l : WriterLease) (p : Option SessionIdentity) (now : Time)
    (s : CoordinationStore) {s' : CoordinationStore}
    → StoreIsValid s
    → append_event event_id a l p now s ≡ ok s'
    → StoreIsValid s'
append_event-StoreIsValid event_id a l p now s {s'} v h =
    let (fresh, e) = append_cases event_id a l p now s h in
    rw e (record {
      task_ids = v.task_ids;
      event_ids =
          Distinct-append _ s.events (event_row event_id s.project_id a l p l.generation now) fresh
            v.event_ids;
      claim_ids = v.claim_ids;
      lease_tasks = v.lease_tasks;
      lease_worktrees = v.lease_worktrees;
      rows = v.rows;
    })

-- What a lease has to be for its row to be valid.
pub record LeaseIsValid (s : CoordinationStore) (l : WriterLease) : Type 0 where
  pub numbered : 0 < l.generation
  pub ordered : l.acquired_at ≤ l.renewed_at
  pub running : l.renewed_at < l.expires_at
  pub owned : project_of l.task_id s.tasks ≡ some s.project_id

-- The row of a lease holds the lease's own values.
abbrev pub row_value : Uuid → WriterLease → LeaseRow
row_value project l = record {
  task_id = l.task_id;
  project_id = project;
  worktree_id = l.worktree_id;
  owner_harness = as_str l.owner.harness;
  owner_session = l.owner.native_session_id;
  acquired_at_ns = l.acquired_at;
  renewed_at_ns = l.renewed_at;
  expires_at_ns = l.expires_at;
  generation = l.generation;
}

pub lease_row-eq-ok :
    (project : Uuid) (l : WriterLease) {row : LeaseRow}
    → lease_row project l ≡ ok row
    → (row ≡ row_value project l) × (l.generation ≤ i64_max) × InRange l.expires_at
unfolding lease_row timestamp_ns
lease_row-eq-ok project l h = ground arith

lease_row-RowIsValid :
    (s : CoordinationStore) (l : WriterLease) {row : LeaseRow}
    → LeaseIsValid s l
    → lease_row s.project_id l ≡ ok row
    → RowIsValid s.tasks row
lease_row-RowIsValid s l {row} v h =
    let (e, bounded, stored) = lease_row-eq-ok s.project_id l h in
    rw e (record {
      numbered = v.numbered;
      bounded = bounded;
      ordered = v.ordered;
      running = v.running;
      stored = stored;
      owned = v.owned;
    })

lift_store-eq-ok :
    (m : Result StoreError CoordinationStore) {t : CoordinationStore}
    → lift_store m ≡ ok t
    → m ≡ ok t
lift_store-eq-ok (ok x) h = ground arith
lift_store-eq-ok (err e) h = cc

-- The statements of `write_lease`, one after the other.
pub write_lease_steps :
    (event_id : Uuid) (a : Action) (l : WriterLease) (p : Option SessionIdentity) (now : Time)
    (s : CoordinationStore) {l' : WriterLease} {s' : CoordinationStore}
    → write_lease event_id a l p now s ≡ ok (l', s')
    → (row : LeaseRow) × (t : CoordinationStore) × (lease_row s.project_id l ≡ ok row)
      × (upsert_lease row s ≡ ok t)
      × (append_event event_id a l p now t ≡ ok s')
unfolding write_lease store_lease
write_lease_steps event_id a l p now s {s'} h =
    let (t, stored, rest) = bind-eq-ok (store_lease l s) _ h in
    let (u, logged, last) = bind-eq-ok (append_event event_id a l p now t) _ rest in
    let (row, made, put) =
      bind-eq-ok (lease_row s.project_id l) (λ r. upsert_lease r s) (lift_store-eq-ok _ stored) in
    (row, t, made, put, subst (λ x. append_event event_id a l p now t ≡ ok x) (ground arith) logged)

pub write_lease-StoreIsValid :
    (event_id : Uuid) (a : Action) (l : WriterLease) (p : Option SessionIdentity) (now : Time)
    (s : CoordinationStore) {l' : WriterLease} {s' : CoordinationStore}
    → StoreIsValid s
    → LeaseIsValid s l
    → write_lease event_id a l p now s ≡ ok (l', s')
    → StoreIsValid s'
write_lease-StoreIsValid event_id a l p now s v lv h =
    let (row, t, made, put, logged) = write_lease_steps event_id a l p now s h in
    append_event-StoreIsValid event_id a l p now t
      (upsert_lease-StoreIsValid row s v (lease_row-RowIsValid s l lv made) put) logged
