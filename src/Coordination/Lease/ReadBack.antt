-- ===== src/Coordination/Lease/ReadBack.antt =====
-- A lease that was written is the one that the next call loads.
use mathlib.Core.Path.{subst}
use mathlib.Core.Option.{some-injective}
use agent_knowledge_base_cod.Common.{
  ◌≡◌, refl, sym, ap, ◌∙◌, inl, inr, true, false, Bool-cases, Option, some, List, [], ◌∷◌, ◌++◌,
  arith, Time, ok, All, find?, any, update_where, ==_self, ==_iff, ◌==◌,
}
use agent_knowledge_base_cod.Domain.Harness.{as_str, parse_harness}
use agent_knowledge_base_cod.Coordination.Model.{
  Uuid, SessionIdentity, WriterLease, LeaseRow, TaskRecord, Action, CoordinationStore,
}
use agent_knowledge_base_cod.Coordination.Lease.{
  is_lease, load_lease, row_of_task, overwrite, upsert_lease, write_lease, append_event,
}
use agent_knowledge_base_cod.Coordination.Invariant.{project_of, RowIsValid, StoreIsValid}
use agent_knowledge_base_cod.Coordination.Invariant.Preserved.{
  LeaseIsValid, row_value, upsert_cases, append_cases, lease_row-eq-ok, write_lease_steps,
}

-- The rows of a task belong to the project of that task.
same_project :
    (tasks : List TaskRecord) (row old : LeaseRow)
    → project_of row.task_id tasks ≡ some row.project_id
    → RowIsValid tasks old
    → old.task_id ≡ row.task_id
    → old.project_id ≡ row.project_id
same_project tasks row old o v e =
    some-injective old.project_id row.project_id
      (sym v.owned ∙ ap (λ (k : Uuid). project_of k tasks) e ∙ o)

find?-overwritten :
    (tasks : List TaskRecord) (row : LeaseRow) (rows : List LeaseRow)
    → project_of row.task_id tasks ≡ some row.project_id
    → All (RowIsValid tasks) rows
    → any (row_of_task row) rows ≡ true
    → find?
        (is_lease row.project_id row.task_id)
        (update_where (row_of_task row) (overwrite row) rows)
      ≡ some row
find?-overwritten tasks row [] o v h = cc
find?-overwritten tasks row (x ∷ xs) o v h = elim (Bool-cases (x.task_id == row.task_id)) [
  | inl same ↦
      let t = (==_iff x.task_id row.task_id).0 same in
      let p = same_project tasks row x o v.0 t in
      rw (same, p, t, ==_self row.project_id, ==_self row.task_id) refl
  | inr differ ↦ ground (arith, find?-overwritten tasks row xs o v.1)
]

find?-appended :
    (row : LeaseRow) (rows : List LeaseRow)
    → any (row_of_task row) rows ≡ false
    → find? (is_lease row.project_id row.task_id) (rows ++ row ∷ []) ≡ some row
find?-appended row [] h = ground (arith, ==_self row.project_id, ==_self row.task_id)
find?-appended row (x ∷ xs) h = ground (arith, find?-appended row xs)

upsert-find? :
    (row : LeaseRow) (s : CoordinationStore) {s' : CoordinationStore}
    → StoreIsValid s
    → project_of row.task_id s.tasks ≡ some row.project_id
    → upsert_lease row s ≡ ok s'
    → (find? (is_lease row.project_id row.task_id) s'.leases ≡ some row)
      × (s'.project_id ≡ s.project_id)
upsert-find? row s v o h = elim (upsert_cases row s h).1 [
  | inl (held, e) ↦ rw e (find?-overwritten s.tasks row s.leases o v.rows held, refl)
  | inr (fresh, e) ↦ rw e (find?-appended row s.leases fresh, refl)
]

append-leases :
    (event_id : Uuid) (a : Action) (l : WriterLease) (p : Option SessionIdentity) (now : Time)
    (s : CoordinationStore) {s' : CoordinationStore}
    → append_event event_id a l p now s ≡ ok s'
    → (s'.leases ≡ s.leases) × (s'.project_id ≡ s.project_id)
append-leases event_id a l p now s h = rw (append_cases event_id a l p now s h).1 (refl, refl)

-- The lease that a column pair gives back to its owner.
abbrev pub stored_lease : WriterLease → WriterLease
stored_lease l = record l {
  owner = record l.owner { harness = parse_harness (as_str l.owner.harness) };
}

pub write_lease-load :
    (event_id : Uuid) (a : Action) (l : WriterLease) (p : Option SessionIdentity) (now : Time)
    (s : CoordinationStore) {l' : WriterLease} {s' : CoordinationStore}
    → StoreIsValid s
    → LeaseIsValid s l
    → write_lease event_id a l p now s ≡ ok (l', s')
    → load_lease l.task_id s' ≡ some (stored_lease l)
unfolding load_lease
write_lease-load event_id a l p now s {s'} v lv h =
    let (row, t, made, put, logged) = write_lease_steps event_id a l p now s h in
    let (e, _, _) = lease_row-eq-ok s.project_id l made in
    let put' : upsert_lease (row_value s.project_id l) s ≡ ok t =
      subst (λ r. upsert_lease r s ≡ ok t) e put in
    let (found, project) = upsert-find? (row_value s.project_id l) s v lv.owned put' in
    let (leases, project') = append-leases event_id a l p now t logged in
    simp (leases, project', project, found)
