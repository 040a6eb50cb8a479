-- ===== src/Coordination/Steps.antt =====
-- The store as its clients drive it: a sequence of calls, each of which may fail.
use agent_knowledge_base_cod.Common.{
  ℕ, ◌≡◌, refl, Option, List, [], ◌∷◌, Text, Time, Duration, Result, ok, err,
}
use agent_knowledge_base_cod.Coordination.Model.{
  Uuid, TaskRecord, TaskStatus, SessionIdentity, CoordinationStore,
}
use agent_knowledge_base_cod.Coordination.Task.{create_task, close_task}
use agent_knowledge_base_cod.Coordination.Lease.{
  acquire_lease, renew_lease, release_lease, handoff_lease,
}
use agent_knowledge_base_cod.Coordination.Claims.{PathClaimInput, claim_paths, release_claim}
use agent_knowledge_base_cod.Coordination.Invariant.{StoreIsValid}
use agent_knowledge_base_cod.Coordination.Invariant.Leases.{
  acquire_lease-StoreIsValid, renew_lease-StoreIsValid, release_lease-StoreIsValid,
  handoff_lease-StoreIsValid,
}
use agent_knowledge_base_cod.Coordination.Invariant.Tables.{
  create_task-StoreIsValid, close_task-StoreIsValid, claim_paths-StoreIsValid,
  release_claim-StoreIsValid,
}

-- The calls that change the store, with their arguments. An event's id comes first.
pub data Call : Type 0 where
  creates : TaskRecord → Call
  closes : Uuid → TaskStatus → Time → Call
  acquires : Uuid → Uuid → SessionIdentity → Time → Option Duration → Call
  renews : Uuid → Uuid → SessionIdentity → ℕ → Time → Option Duration → Call
  releases : Uuid → Uuid → SessionIdentity → ℕ → Time → Call
  hands_off : Uuid → Uuid → SessionIdentity → ℕ → SessionIdentity → Time → Call
  claims : Uuid → List (Uuid × PathClaimInput) → Time → Call
  unclaims : Uuid → Uuid → Time → Call

-- A failed call leaves the store as it was: its transaction is rolled back.
abbrev pub after {ℓ} :
    {E : Type ℓ} → CoordinationStore → Result E CoordinationStore → CoordinationStore
after s (ok s') = s'
after s (err e) = s

abbrev pub after_with {ℓ} :
    {E A : Type ℓ} → CoordinationStore → Result E (A × CoordinationStore) → CoordinationStore
after_with s (ok (a, s')) = s'
after_with s (err e) = s

abbrev pub empty : Uuid → CoordinationStore
empty project = record { project_id = project; tasks = []; leases = []; events = []; claims = [] }

module _ (lowercase : Text → Text) where
  unfoldable pub step : CoordinationStore → Call → CoordinationStore
  step s (creates task) = after s (create_task task s)
  step s (closes task_id status at) = after_with s (close_task task_id status at s)
  step s (acquires event task_id owner now d) =
      after_with s (acquire_lease event task_id owner now d s)
  step s (renews event task_id owner g now d) =
      after_with s (renew_lease event task_id owner g now d s)
  step s (releases event task_id owner g now) = after s (release_lease event task_id owner g now s)
  step s (hands_off event task_id owner g next now) =
      after_with s (handoff_lease event task_id owner g next now s)
  step s (claims task_id inputs now) = after_with s (claim_paths lowercase task_id inputs now s)
  step s (unclaims claim_id task_id now) = after_with s (release_claim claim_id task_id now s)

  unfoldable pub run : CoordinationStore → List Call → CoordinationStore
  unfolding step
  run s [] = s
  run s (c ∷ cs) = run (step s c) cs

  after-StoreIsValid {ℓ} :
      {E : Type ℓ} (s : CoordinationStore) (r : Result E CoordinationStore)
      → StoreIsValid s
      → ((s' : CoordinationStore) → r ≡ ok s' → StoreIsValid s')
      → StoreIsValid (after s r)
  after-StoreIsValid s (ok s') v keep = keep s' refl
  after-StoreIsValid s (err e) v keep = v

  after_with-StoreIsValid {ℓ} :
      {E A : Type ℓ} (s : CoordinationStore) (r : Result E (A × CoordinationStore))
      → StoreIsValid s
      → ((a : A) (s' : CoordinationStore) → r ≡ ok (a, s') → StoreIsValid s')
      → StoreIsValid (after_with s r)
  after_with-StoreIsValid s (ok (a, s')) v keep = keep a s' refl
  after_with-StoreIsValid s (err e) v keep = v

  pub step-StoreIsValid :
      (s : CoordinationStore) (c : Call) → StoreIsValid s → StoreIsValid (step s c)
  unfolding step
  step-StoreIsValid s (creates task) v =
      after-StoreIsValid s _ v (λ s' h. create_task-StoreIsValid task s v h)
  step-StoreIsValid s (closes task_id status at) v =
      after_with-StoreIsValid s _ v (λ a s' h. close_task-StoreIsValid task_id status at s v h)
  step-StoreIsValid s (acquires event task_id owner now d) v =
      after_with-StoreIsValid s _ v
        (λ a s' h. acquire_lease-StoreIsValid event task_id owner now d s v h)
  step-StoreIsValid s (renews event task_id owner g now d) v =
      after_with-StoreIsValid s _ v
        (λ a s' h. renew_lease-StoreIsValid event task_id owner g now d s v h)
  step-StoreIsValid s (releases event task_id owner g now) v =
      after-StoreIsValid s _ v (λ s' h. release_lease-StoreIsValid event task_id owner g now s v h)
  step-StoreIsValid s (hands_off event task_id owner g next now) v =
      after_with-StoreIsValid s _ v
        (λ a s' h. handoff_lease-StoreIsValid event task_id owner g next now s v h)
  step-StoreIsValid s (claims task_id inputs now) v =
      after_with-StoreIsValid s _ v
        (λ a s' h. claim_paths-StoreIsValid lowercase task_id inputs now s v h)
  step-StoreIsValid s (unclaims claim_id task_id now) v =
      after_with-StoreIsValid s _ v
        (λ a s' h. release_claim-StoreIsValid claim_id task_id now s v h)

  -- After any calls, from an empty store, the ids are unique, a task and a worktree have one lease
  -- at most, and every lease is numbered, ordered in time and owned by the project of its task.
  pub run-StoreIsValid : (project : Uuid) (cs : List Call) → StoreIsValid (run (empty project) cs)
  unfolding run
  run-StoreIsValid project cs = from (empty project) cs (record {
    task_ids = tt;
    event_ids = tt;
    claim_ids = tt;
    lease_tasks = tt;
    lease_worktrees = tt;
    rows = tt;
  })
    where
      from : (s : CoordinationStore) (rest : List Call) → StoreIsValid s → StoreIsValid (run s rest)
      from s [] v = v
      from s (c ∷ rest) v = from (step s c) rest (step-StoreIsValid s c v)
