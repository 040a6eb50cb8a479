-- ===== src/Coordination/Invariant/Tables.antt =====
-- The functions of task.rs and claims.rs keep the invariant.
use mathlib.Core.Path.{subst}
use agent_knowledge_base_cod.Common.{
  ◌≡◌, refl, ap, ◌∙◌, ◌&&◌, inl, inr, Bool, false, Bool-cases, not, some, List, [], ◌∷◌, ◌++◌, map,
  arith, Text, is_blank, leb, Time, timestamp_ns, ok, bind-eq-ok, ensure-eq-ok, ok_or, ok-injective,
  All, find?, any, length, ltb, Distinct, Distinct-append, Distinct-update, update_where,
  count_where, ◌==◌,
}
use agent_knowledge_base_cod.Coordination.Model.{
  Uuid, TaskRecord, TaskStatus, is_active, LeaseRow, PathClaim, CoordinationStore, no_claims,
  too_many_claims, task_missing, task_inactive, lift_time, claim_absent, claim_missing,
  closing_status, task_absent,
}
use agent_knowledge_base_cod.Coordination.Task.{create_task, close_task, is_task, task}
use agent_knowledge_base_cod.Coordination.Claims.{
  PathClaimInput, ClaimResult, active_claims, is_none, insert_claim, make_claim, warnings_against,
  claim_each, claim_paths, release_claim,
}
use agent_knowledge_base_cod.Coordination.Invariant.{project_of, RowIsValid, StoreIsValid}

project_of-append :
    (k : Uuid) (ts us : List TaskRecord) {p : Uuid}
    → project_of k ts ≡ some p
    → project_of k (ts ++ us) ≡ some p
project_of-append k [] us h = cc
project_of-append k (t ∷ ts) us {p} h = ground (arith, project_of-append k ts us {p = p})

project_of-update :
    (k : Uuid) (q : TaskRecord → Bool) (f : TaskRecord → TaskRecord) (ts : List TaskRecord)
    → ((t : TaskRecord) → (f t).id ≡ t.id)
    → ((t : TaskRecord) → (f t).project_id ≡ t.project_id)
    → project_of k (update_where q f ts) ≡ project_of k ts
project_of-update k q f [] i p = refl
project_of-update k q f (t ∷ ts) i p = ground (arith, i t, p t, project_of-update k q f ts i p)

-- New tasks that still own what the old ones did leave the rows valid.
rows-owned :
    (ts us : List TaskRecord) (rows : List LeaseRow)
    → ((k p : Uuid) → project_of k ts ≡ some p → project_of k us ≡ some p)
    → All (RowIsValid ts) rows
    → All (RowIsValid us) rows
rows-owned ts us [] keep h = tt
rows-owned ts us (r ∷ rs) keep h = (
  record {
    numbered = h.0.numbered;
    bounded = h.0.bounded;
    ordered = h.0.ordered;
    running = h.0.running;
    stored = h.0.stored;
    owned = keep r.task_id r.project_id h.0.owned;
  },
  rows-owned ts us rs keep h.1,
)

with_tasks-StoreIsValid :
    (s : CoordinationStore) (ts : List TaskRecord)
    → StoreIsValid s
    → Distinct (λ t. t.id) ts
    → ((k p : Uuid) → project_of k s.tasks ≡ some p → project_of k ts ≡ some p)
    → StoreIsValid (record s { tasks = ts })
with_tasks-StoreIsValid s ts v d keep = record {
  task_ids = d;
  event_ids = v.event_ids;
  claim_ids = v.claim_ids;
  lease_tasks = v.lease_tasks;
  lease_worktrees = v.lease_worktrees;
  rows = rows-owned s.tasks ts s.leases keep v.rows;
}

with_claims-StoreIsValid :
    (s : CoordinationStore) (cs : List PathClaim)
    → StoreIsValid s
    → Distinct (λ c. c.id) cs
    → StoreIsValid (record s { claims = cs })
with_claims-StoreIsValid s cs v d = record {
  task_ids = v.task_ids;
  event_ids = v.event_ids;
  claim_ids = d;
  lease_tasks = v.lease_tasks;
  lease_worktrees = v.lease_worktrees;
  rows = v.rows;
}

-- A created task is the given one, under an id of its own.
pub create_task_cases :
    (t : TaskRecord) (s : CoordinationStore) {s' : CoordinationStore}
    → create_task t s ≡ ok s'
    → (any (λ x. x.id == t.id) s.tasks ≡ false)
      × (t.project_id ≡ s.project_id)
      × (is_blank t.title ≡ false)
      × (s' ≡ record s { tasks = s.tasks ++ t ∷ [] })
unfolding create_task timestamp_ns
create_task_cases t s h = ground arith

pub create_task-StoreIsValid :
    (t : TaskRecord) (s : CoordinationStore) {s' : CoordinationStore}
    → StoreIsValid s
    → create_task t s ≡ ok s'
    → StoreIsValid s'
create_task-StoreIsValid t s v h =
    let (fresh, _, _, e) = create_task_cases t s h in
    rw e (
      with_tasks-StoreIsValid s (s.tasks ++ t ∷ []) v
        (Distinct-append (λ x. x.id) s.tasks t fresh v.task_ids)
        (λ k p o. project_of-append k s.tasks (t ∷ []) o))

pub close_task-StoreIsValid :
    (task_id : Uuid) (status : TaskStatus) (closed_at : Time) (s : CoordinationStore)
    {t : TaskRecord} {s' : CoordinationStore}
    → StoreIsValid s
    → close_task task_id status closed_at s ≡ ok (t, s')
    → StoreIsValid s'
unfolding close_task
close_task-StoreIsValid task_id status closed_at s {t} {s'} v h =
    let (_, h1) = ensure-eq-ok (not (is_active status)) closing_status _ h in
    let (at, _, h2) = bind-eq-ok (lift_time (timestamp_ns closed_at)) _ h1 in
    let open_task = λ (x : TaskRecord). is_task s.project_id task_id x && is_active x.status in
    let f = λ (x : TaskRecord). record x { status = status; closed_at = some at } in
    let (_, h3) = ensure-eq-ok (count_where open_task s.tasks == 1) task_absent _ h2 in
    let (u, _, h4) =
      bind-eq-ok
        (ok_or (task task_id (record s { tasks = update_where open_task f s.tasks })) task_missing)
        _ h3 in
    subst StoreIsValid (ap (λ (x : TaskRecord × CoordinationStore). x.1) (ok-injective h4)) (
      with_tasks-StoreIsValid s (update_where open_task f s.tasks) v
        (Distinct-update (λ x. x.id) open_task f s.tasks (λ x. refl) v.task_ids)
        (λ k p o. project_of-update k open_task f s.tasks (λ x. refl) (λ x. refl) ∙ o))

insert_claim-StoreIsValid :
    (c : PathClaim) (s : CoordinationStore) {s' : CoordinationStore}
    → StoreIsValid s
    → insert_claim c s ≡ ok s'
    → StoreIsValid s'
unfolding insert_claim
insert_claim-StoreIsValid c s {s'} v h =
    let (at, _, h1) = bind-eq-ok (lift_time (timestamp_ns c.created_at)) _ h in
    elim (Bool-cases (any (λ x. x.id == c.id) s.claims)) [
      | inl clash ↦ absurd (ground arith)
      | inr fresh ↦
          let put = record c { created_at = at } in
          let e : record s { claims = s.claims ++ put ∷ [] } ≡ s' = ground arith in
          subst StoreIsValid e (
            with_claims-StoreIsValid s (s.claims ++ put ∷ []) v
              (Distinct-append (λ x. x.id) s.claims put fresh v.claim_ids))
    ]

module _ (lowercase : Text → Text) where
  claim_each-StoreIsValid :
      (task_id worktree_id : Uuid) (now : Time) (existing : List PathClaim)
      (done : List ClaimResult) (inputs : List (Uuid × PathClaimInput)) (s : CoordinationStore)
      {results : List ClaimResult} {s' : CoordinationStore}
      → StoreIsValid s
      → claim_each lowercase task_id worktree_id now existing done inputs s ≡ ok (results, s')
      → StoreIsValid s'
  unfolding claim_each
  claim_each-StoreIsValid task_id worktree_id now existing done [] s v h =
      subst StoreIsValid (ap (λ (x : List ClaimResult × CoordinationStore). x.1) (ok-injective h)) v
  claim_each-StoreIsValid task_id worktree_id now existing done ((claim_id, input) ∷ inputs) s v h =
      let (claim, _, h1) =
        bind-eq-ok (make_claim lowercase claim_id s.project_id task_id worktree_id now input) _ h in
      let (t, inserted, h2) = bind-eq-ok (insert_claim claim s) _ h1 in
      claim_each-StoreIsValid task_id worktree_id now existing
        (done
          ++ record {
            claim = claim;
            warnings = warnings_against task_id claim (existing ++ map (λ r. r.claim) done);
          }
            ∷ [])
        inputs t (insert_claim-StoreIsValid claim s v inserted) h2

  pub claim_paths-StoreIsValid :
      (task_id : Uuid) (inputs : List (Uuid × PathClaimInput)) (now : Time) (s : CoordinationStore)
      {results : List ClaimResult} {s' : CoordinationStore}
      → StoreIsValid s
      → claim_paths lowercase task_id inputs now s ≡ ok (results, s')
      → StoreIsValid s'
  unfolding claim_paths
  claim_paths-StoreIsValid task_id inputs now s v h =
      let (_, h1) = ensure-eq-ok (ltb 0 (length inputs)) no_claims _ h in
      let (_, h2) = ensure-eq-ok (leb (length inputs) 100) too_many_claims _ h1 in
      let (t, _, h3) = bind-eq-ok (ok_or (task task_id s) task_missing) _ h2 in
      let (_, h4) = ensure-eq-ok (is_active t.status) task_inactive _ h3 in
      claim_each-StoreIsValid task_id t.worktree_id now (active_claims s) [] inputs s v h4

pub release_claim-StoreIsValid :
    (claim_id task_id : Uuid) (now : Time) (s : CoordinationStore) {c : PathClaim}
    {s' : CoordinationStore}
    → StoreIsValid s
    → release_claim claim_id task_id now s ≡ ok (c, s')
    → StoreIsValid s'
unfolding release_claim
release_claim-StoreIsValid claim_id task_id now s v h =
    let (at, _, h1) = bind-eq-ok (lift_time (timestamp_ns now)) _ h in
    let held = λ (c : PathClaim).
      c.project_id == s.project_id
      && c.id == claim_id
      && c.task_id == task_id
      && is_none c.released_at in
    let f = λ (c : PathClaim). record c { released_at = some at } in
    let (_, h2) = ensure-eq-ok (count_where held s.claims == 1) claim_absent _ h1 in
    let (u, _, h3) =
      bind-eq-ok
        (ok_or
          (find? (λ c. c.project_id == s.project_id && c.id == claim_id)
            (update_where held f s.claims))
          claim_missing)
        _ h2 in
    subst StoreIsValid (ap (λ (x : PathClaim × CoordinationStore). x.1) (ok-injective h3)) (
      with_claims-StoreIsValid s (update_where held f s.claims) v
        (Distinct-update (λ c. c.id) held f s.claims (λ c. refl) v.claim_ids))
