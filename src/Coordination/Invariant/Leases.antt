-- ===== src/Coordination/Invariant/Leases.antt =====
-- Every function of lease.rs keeps the invariant.
mod Rows
pub use Rows.*
use mathlib.Core.Path.{subst}
use agent_knowledge_base_cod.Common.{
  ℕ, ◌≡◌, ◌<◌, refl, sym, ◌&&◌, inl, inr, true, Bool-cases, Option-cases, Option, none, some, arith,
  Time, Duration, is_positive, add_time-lt, ok, bind-eq-ok, ensure-eq-ok, ok_or, All-delete_where,
  find?, Distinct-delete, delete_where, ltb, ◌==◌,
}
use agent_knowledge_base_cod.Coordination.Model.{
  Uuid, SessionIdentity, session_eq, session_eq→≡, lift_store, default_lease_duration, WriterLease,
  LeaseRow, TaskRecord, is_active, CoordinationStore, acquire, renew, takeover, release, handoff,
  invalid_duration, task_unavailable,
}
use agent_knowledge_base_cod.Coordination.Task.{is_task}
use agent_knowledge_base_cod.Coordination.Lease.{
  generation_column, is_lease, load_lease, active_task_worktree, get_duration, acquire_over,
  acquire_lease, held_lease, renew_lease, release_lease, handoff_lease, saturating_succ,
  write_lease, plus,
}
use agent_knowledge_base_cod.Coordination.Lease.Exclusion.{written, write_lease-lease}
use agent_knowledge_base_cod.Coordination.Invariant.{project_of, RowIsValid, StoreIsValid}
use agent_knowledge_base_cod.Coordination.Invariant.Preserved.{
  LeaseIsValid, write_lease-StoreIsValid, with_leases-StoreIsValid, append_event-StoreIsValid,
}

acquire_over-StoreIsValid :
    (event_id task_id w : Uuid) (owner : SessionIdentity) (now : Time) (d : Duration)
    (existing : Option WriterLease) (s : CoordinationStore) {l : WriterLease}
    {s' : CoordinationStore}
    → StoreIsValid s
    → project_of task_id s.tasks ≡ some s.project_id
    → is_positive d ≡ true
    → ((e : WriterLease) → existing ≡ some e → LeaseIsValid s e)
    → acquire_over event_id task_id w owner now d existing s ≡ ok (l, s')
    → StoreIsValid s'
unfolding acquire_over
acquire_over-StoreIsValid event_id task_id w owner now d none s {l} v o p held h =
    let (made, put) = written _ event_id acquire none now s h in
    write_lease-StoreIsValid event_id acquire l none now s v
      (new_lease-LeaseIsValid s task_id w owner now d 1 o p (omega arith) made) put
acquire_over-StoreIsValid event_id task_id w owner now d (some e) s {l} v o p held h =
    elim (Bool-cases (ltb now e.expires_at)) [
      | inl live ↦ elim (Bool-cases (session_eq e.owner owner)) [
        | inl mine ↦
            let (made, put) = written _ event_id renew none now s (rw (live, mine) at h) in
            write_lease-StoreIsValid event_id renew l none now s v
              (renewed_lease-LeaseIsValid s now d e p (held e refl) made) put
        | inr theirs ↦ absurd (ground arith)
      ]
      | inr over ↦
          let (made, put) = written _ event_id takeover (some e.owner) now s (rw over at h) in
          write_lease-StoreIsValid event_id takeover l (some e.owner) now s v
            (new_lease-LeaseIsValid s task_id w owner now d (saturating_succ e.generation) o p
              (saturating_succ_pos e.generation) made)
            put
    ]

pub active_task_worktree-project_of :
    (task_id : Uuid) (s : CoordinationStore) {w : Uuid}
    → StoreIsValid s
    → active_task_worktree task_id s ≡ ok w
    → project_of task_id s.tasks ≡ some s.project_id
unfolding active_task_worktree
active_task_worktree-project_of task_id s v h =
    let test = λ (t : TaskRecord). is_task s.project_id task_id t && is_active t.status in
    elim (Option-cases (find? test s.tasks)) [
      | inl missing ↦ absurd (ground arith)
      | inr (t, found) ↦ task-project_of s task_id s.tasks v.task_ids found
    ]

pub acquire_lease-StoreIsValid :
    (event_id task_id : Uuid) (owner : SessionIdentity) (now : Time) (duration : Option Duration)
    (s : CoordinationStore) {l : WriterLease} {s' : CoordinationStore}
    → StoreIsValid s
    → acquire_lease event_id task_id owner now duration s ≡ ok (l, s')
    → StoreIsValid s'
unfolding acquire_lease
acquire_lease-StoreIsValid event_id task_id owner now duration s v h =
    let (p, h1) = ensure-eq-ok (is_positive (get_duration duration)) invalid_duration _ h in
    let (w, found, h2) = bind-eq-ok (active_task_worktree task_id s) _ h1 in
    acquire_over-StoreIsValid event_id task_id w owner now (get_duration duration)
      (load_lease task_id s) s v (active_task_worktree-project_of task_id s v found) p
      (λ e k. load_lease-LeaseIsValid task_id s v k) h2

plus-lt : (t : Time) (d : Duration) {u : Time} → is_positive d ≡ true → plus t d ≡ ok u → t < u
plus-lt t d {u} p h = ground (arith, add_time-lt t d {u = u})

-- What the guards have checked of the lease that they return.
pub held_lease-eq-ok :
    (task_id : Uuid) (owner : SessionIdentity) (generation : ℕ) (s : CoordinationStore)
    {e : WriterLease}
    → held_lease task_id owner generation s ≡ ok e
    → (load_lease task_id s ≡ some e) × (e.owner ≡ owner) × (e.generation ≡ generation)
unfolding held_lease
held_lease-eq-ok task_id owner generation s {e} h =
    let (x, found, h1) = bind-eq-ok (ok_or (load_lease task_id s) task_unavailable) _ h in
    ground (arith, session_eq→≡ x.owner owner)

pub renew_lease-StoreIsValid :
    (event_id task_id : Uuid) (owner : SessionIdentity) (generation : ℕ) (now : Time)
    (duration : Option Duration) (s : CoordinationStore) {l : WriterLease} {s' : CoordinationStore}
    → StoreIsValid s
    → renew_lease event_id task_id owner generation now duration s ≡ ok (l, s')
    → StoreIsValid s'
unfolding renew_lease
renew_lease-StoreIsValid event_id task_id owner generation now duration s {l} v h =
    let (p, h1) = ensure-eq-ok (is_positive (get_duration duration)) invalid_duration _ h in
    let (e, held, h2) = bind-eq-ok (held_lease task_id owner generation s) _ h1 in
    let (found, _, _) = held_lease-eq-ok task_id owner generation s held in
    let (made, put) = written _ event_id renew none now s h2 in
    write_lease-StoreIsValid event_id renew l none now s v
      (renewed_lease-LeaseIsValid s now (get_duration duration) e p
        (load_lease-LeaseIsValid task_id s v found) made)
      put

pub release_lease-StoreIsValid :
    (event_id task_id : Uuid) (owner : SessionIdentity) (generation : ℕ) (now : Time)
    (s : CoordinationStore) {s' : CoordinationStore}
    → StoreIsValid s
    → release_lease event_id task_id owner generation now s ≡ ok s'
    → StoreIsValid s'
unfolding release_lease
release_lease-StoreIsValid event_id task_id owner generation now s v h =
    let (e, held, h1) = bind-eq-ok (held_lease task_id owner generation s) _ h in
    let (g, _, h2) = bind-eq-ok (lift_store (generation_column generation)) _ h1 in
    let gone = λ (row : LeaseRow). is_lease s.project_id task_id row && row.generation == g in
    append_event-StoreIsValid event_id release e none now
      (record s { leases = delete_where gone s.leases })
      (with_leases-StoreIsValid s (delete_where gone s.leases) v
        (Distinct-delete (λ r. r.task_id) gone s.leases v.lease_tasks)
        (Distinct-delete (λ r. r.worktree_id) gone s.leases v.lease_worktrees)
        (All-delete_where (RowIsValid s.tasks) gone s.leases v.rows))
      h2

-- The statements of a hand-over: a valid lease of the next generation is written.
pub handoff-steps :
    (event_id task_id : Uuid) (owner : SessionIdentity) (generation : ℕ) (next : SessionIdentity)
    (now : Time) (s : CoordinationStore) {l : WriterLease} {s' : CoordinationStore}
    → StoreIsValid s
    → handoff_lease event_id task_id owner generation next now s ≡ ok (l, s')
    → (e : WriterLease) × (load_lease task_id s ≡ some e)
      × (e.generation ≡ generation)
      × LeaseIsValid s l
      × ((l.task_id ≡ task_id) × (l.owner ≡ next) × (l.generation ≡ saturating_succ generation))
      × (write_lease event_id handoff l (some e.owner) now s ≡ ok (l, s'))
unfolding handoff_lease
handoff-steps event_id task_id owner generation next now s {l} {s'} v h =
    let (e, held, h1) = bind-eq-ok (held_lease task_id owner generation s) _ h in
    let (found, _, g) = held_lease-eq-ok task_id owner generation s held in
    let old = load_lease-LeaseIsValid task_id s v found in
    let (until, sum, h2) = bind-eq-ok (plus now default_lease_duration) _ h1 in
    let given : WriterLease = record e {
      owner = next;
      acquired_at = now;
      renewed_at = now;
      expires_at = until;
      generation = saturating_succ generation;
    } in
    let valid : LeaseIsValid s given = record {
      numbered = saturating_succ_pos generation;
      ordered = omega arith;
      running = plus-lt now default_lease_duration refl sum;
      owned = old.owned;
    } in
    let same = write_lease-lease event_id handoff given (some e.owner) now s h2 in
    (
      e,
      found,
      g,
      subst (LeaseIsValid s) (sym same) valid,
      rw same (load_lease-task_id task_id s found, refl, refl),
      subst (λ x. write_lease event_id handoff x (some e.owner) now s ≡ ok (l, s')) (sym same) h2,
    )

pub handoff_lease-StoreIsValid :
    (event_id task_id : Uuid) (owner : SessionIdentity) (generation : ℕ) (next : SessionIdentity)
    (now : Time) (s : CoordinationStore) {l : WriterLease} {s' : CoordinationStore}
    → StoreIsValid s
    → handoff_lease event_id task_id owner generation next now s ≡ ok (l, s')
    → StoreIsValid s'
handoff_lease-StoreIsValid event_id task_id owner generation next now s {l} v h =
    let (e, _, _, valid, _, put) = handoff-steps event_id task_id owner generation next now s v h in
    write_lease-StoreIsValid event_id handoff l (some e.owner) now s v valid put
