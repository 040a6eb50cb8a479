-- ===== src/Coordination/Invariant/Leases/Rows.antt =====
-- Leases that crates/brain-coordination/src/lease.rs reads, makes and renews are valid.
use Prim.Native.Nat.{max}
use agent_knowledge_base_cod.Common.{
  ℕ, ◌≡◌, ◌<◌, ap, ◌∙◌, ◌&&◌, inl, inr, true, Bool-cases, Option-cases, some, List, [], ◌∷◌, arith,
  Time, Duration, is_positive, add_time-lt, ok, All-find?, find?, find?-sound, find?-none, Distinct,
  Distinct-AtMostOne, ==_iff, &&-true, ◌==◌,
}
use agent_knowledge_base_cod.Coordination.Model.{
  Uuid, SessionIdentity, WriterLease, LeaseRow, TaskRecord, is_active, CoordinationStore,
}
use agent_knowledge_base_cod.Coordination.Task.{is_task}
use agent_knowledge_base_cod.Coordination.Lease.{
  parse_lease_record, is_lease, load_lease, new_lease, renewed_lease, saturating_succ,
}
use agent_knowledge_base_cod.Coordination.Invariant.{project_of, RowIsValid, StoreIsValid}
use agent_knowledge_base_cod.Coordination.Invariant.Preserved.{LeaseIsValid}

-- The row that a loaded lease was read from.
pub load_lease-row :
    (task_id : Uuid) (s : CoordinationStore) {e : WriterLease}
    → load_lease task_id s ≡ some e
    → (row : LeaseRow) × (find? (is_lease s.project_id task_id) s.leases ≡ some row)
      × (e ≡ parse_lease_record row)
unfolding load_lease
load_lease-row task_id s h = elim (Option-cases (find? (is_lease s.project_id task_id) s.leases)) [
  | inl missing ↦ absurd (ground arith)
  | inr (row, found) ↦ (row, found, ground arith)
]

pub load_lease-task_id :
    (task_id : Uuid) (s : CoordinationStore) {e : WriterLease}
    → load_lease task_id s ≡ some e
    → e.task_id ≡ task_id
unfolding parse_lease_record
load_lease-task_id task_id s {e} h =
    let (row, found, is) = load_lease-row task_id s h in
    ap (λ (l : WriterLease). l.task_id) is
    ∙ (==_iff row.task_id task_id).0
        (&&-true _ _ (find?-sound (is_lease s.project_id task_id) s.leases found)).1

pub load_lease-LeaseIsValid :
    (task_id : Uuid) (s : CoordinationStore) {e : WriterLease}
    → StoreIsValid s
    → load_lease task_id s ≡ some e
    → LeaseIsValid s e
unfolding parse_lease_record
load_lease-LeaseIsValid task_id s {e} v h =
    let (row, found, is) = load_lease-row task_id s h in
    let r = All-find? (RowIsValid s.tasks) (is_lease s.project_id task_id) s.leases v.rows found in
    let here =
      (==_iff row.project_id s.project_id).0
        (&&-true _ _ (find?-sound (is_lease s.project_id task_id) s.leases found)).0 in
    rw is (record {
      numbered = r.numbered;
      ordered = r.ordered;
      running = r.running;
      owned = r.owned ∙ ap some here;
    })

-- The primary key finds the task that the condition finds.
pub task-project_of :
    (s : CoordinationStore) (task_id : Uuid) (tasks : List TaskRecord) {t : TaskRecord}
    → Distinct (λ x. x.id) tasks
    → find? (λ x. is_task s.project_id task_id x && is_active x.status) tasks ≡ some t
    → project_of task_id tasks ≡ some s.project_id
task-project_of s task_id [] d h = cc
task-project_of s task_id (x ∷ xs) {t} d h = elim (Bool-cases (x.id == task_id)) [
  | inl same ↦
      let gone =
        find?-none (λ y. y.id == task_id)
          (λ y. is_task s.project_id task_id y && is_active y.status) xs (λ y k. ground arith)
          ((Distinct-AtMostOne (λ y. y.id) task_id (x ∷ xs) d).0 same) in
      ground (arith, gone)
  | inr differ ↦ ground (arith, task-project_of s task_id xs {t = t} d.1)
]

pub new_lease-LeaseIsValid :
    (s : CoordinationStore) (task_id w : Uuid) (owner : SessionIdentity) (now : Time) (d : Duration)
    (g : ℕ) {l : WriterLease}
    → project_of task_id s.tasks ≡ some s.project_id
    → is_positive d ≡ true
    → 0 < g
    → new_lease task_id w owner now d g ≡ ok l
    → LeaseIsValid s l
unfolding new_lease
new_lease-LeaseIsValid s task_id w owner now d g {l} o p n h =
    ground (arith, add_time-lt now d {u = l.expires_at})

pub renewed_lease-LeaseIsValid :
    (s : CoordinationStore) (now : Time) (d : Duration) (e : WriterLease) {l : WriterLease}
    → is_positive d ≡ true
    → LeaseIsValid s e
    → renewed_lease now d e ≡ ok l
    → LeaseIsValid s l
unfolding renewed_lease
renewed_lease-LeaseIsValid s now d e {l} p v h =
    ground (arith, add_time-lt (max now e.renewed_at) d {u = l.expires_at})

pub saturating_succ_pos : (g : ℕ) → 0 < saturating_succ g
saturating_succ_pos g = omega arith
