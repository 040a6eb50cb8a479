-- ===== src/Coordination/Lease/Fencing.antt =====
-- Generations: what an old holder can still do after the lease has changed hands.
use mathlib.Core.Path.{subst}
use agent_knowledge_base_cod.Common.{
  ℕ, ◌+◌, ◌≡◌, ◌≤◌, ◌∙◌, ◌⊎◌, inl, inr, true, false, Bool-cases, Option, some, arith, Time,
  Duration, is_positive, i64_max, Result, ok, err, All-find?, ◌==◌,
}
use agent_knowledge_base_cod.Coordination.Model.{
  Uuid, SessionIdentity, session_eq, WriterLease, handoff, CoordinationStore, LeaseError,
  wrong_owner, generation_changed,
}
use agent_knowledge_base_cod.Coordination.Lease.{
  parse_lease_record, is_lease, load_lease, get_duration, held_lease, renew_lease, release_lease,
  handoff_lease, saturating_succ,
}
use agent_knowledge_base_cod.Coordination.Lease.ReadBack.{stored_lease, write_lease-load}
use agent_knowledge_base_cod.Coordination.Invariant.{RowIsValid, StoreIsValid}
use agent_knowledge_base_cod.Coordination.Invariant.Leases.{load_lease-row, handoff-steps}

-- The credentials are refused by each function that asks for them.
abbrev pub IsRefused : {A : Type 0} → Result LeaseError A → Type 0
IsRefused r = (r ≡ err wrong_owner) ⊎ (r ≡ err generation_changed)

abbrev pub IsFenced : Uuid → SessionIdentity → ℕ → CoordinationStore → Type 0
IsFenced task_id owner g s =
    ((event : Uuid) (now : Time) (d : Option Duration)
      → is_positive (get_duration d) ≡ true
      → IsRefused (renew_lease event task_id owner g now d s))
    × ((event : Uuid) (now : Time) → IsRefused (release_lease event task_id owner g now s))
    × ((event : Uuid) (next : SessionIdentity) (now : Time)
        → IsRefused (handoff_lease event task_id owner g next now s))

pub held_lease-IsRefused :
    (task_id : Uuid) (owner : SessionIdentity) (g : ℕ) (s : CoordinationStore) (e : WriterLease)
    → load_lease task_id s ≡ some e
    → (e.generation == g) ≡ false
    → IsRefused (held_lease task_id owner g s)
unfolding held_lease
held_lease-IsRefused task_id owner g s e h differ = elim (Bool-cases (session_eq e.owner owner)) [
  | inl mine ↦ inr (simp (h, mine, differ))
  | inr theirs ↦ inl (simp (h, theirs))
]

pub fenced :
    (task_id : Uuid) (owner : SessionIdentity) (g : ℕ) (s : CoordinationStore) (e : WriterLease)
    → load_lease task_id s ≡ some e
    → (e.generation == g) ≡ false
    → IsFenced task_id owner g s
unfolding renew_lease release_lease handoff_lease
fenced task_id owner g s e h differ = elim (held_lease-IsRefused task_id owner g s e h differ) [
  | inl r ↦ (
    λ event now d p. inl (simp (p, r)),
    λ event now. inl (simp r),
    λ event next now. inl (simp r),
  )
  | inr r ↦ (
    λ event now d p. inr (simp (p, r)),
    λ event now. inr (simp r),
    λ event next now. inr (simp r),
  )
]

pub load_lease-bounded :
    (task_id : Uuid) (s : CoordinationStore) {e : WriterLease}
    → StoreIsValid s
    → load_lease task_id s ≡ some e
    → e.generation ≤ i64_max
unfolding parse_lease_record
load_lease-bounded task_id s v h =
    let (row, found, is) = load_lease-row task_id s h in
    rw is
      (All-find? (RowIsValid s.tasks) (is_lease s.project_id task_id) s.leases v.rows found).bounded

pub succ_differs : (g : ℕ) → g ≤ i64_max → (saturating_succ g == g) ≡ false
succ_differs g h = ground arith

-- After a hand-over nobody can renew, release or hand over with the generation that was handed
-- over, the new owner included, and that generation is one below the new one.
pub handoff_fences :
    (event task_id : Uuid) (owner : SessionIdentity) (g : ℕ) (next : SessionIdentity) (now : Time)
    (s : CoordinationStore) {l : WriterLease} {s' : CoordinationStore}
    → StoreIsValid s
    → handoff_lease event task_id owner g next now s ≡ ok (l, s')
    → (l.generation ≡ g + 1) × ((who : SessionIdentity) → IsFenced task_id who g s')
handoff_fences event task_id owner g next now s {l} {s'} v h =
    let (e, found, same, valid, (task, _, next_g), put) =
      handoff-steps event task_id owner g next now s v h in
    let fits : g ≤ i64_max =
      subst (λ (n : ℕ). n ≤ i64_max) same (load_lease-bounded task_id s v found) in
    let loaded =
      subst (λ (k : Uuid). load_lease k s' ≡ some (stored_lease l)) task
        (write_lease-load event handoff l (some e.owner) now s v valid put) in
    (
      next_g ∙ omega arith,
      λ who. fenced task_id who g s' (stored_lease l) loaded (rw next_g (succ_differs g fits)),
    )
