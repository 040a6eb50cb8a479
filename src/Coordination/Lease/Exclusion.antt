-- ===== src/Coordination/Lease/Exclusion.antt =====
-- Who may write: what `acquire_lease` grants and refuses.
use Prim.Native.Nat.{max}
use mathlib.Core.Path.{subst}
use agent_knowledge_base_cod.Common.{
  ℕ, sym, inl, inr, Bool-cases, ◌<◌, ◌≤◌, ◌≡◌, refl, ◌⊎◌, true, Option, none, some, arith, Time,
  Duration, is_positive, add_time-lt, Result, ok, err, ◌>>=◌, ltb,
}
use agent_knowledge_base_cod.Coordination.Model.{
  Uuid, SessionIdentity, session_eq, session_eq→≡, WriterLease, Action, acquire, renew, takeover,
  CoordinationStore, LeaseError,
}
use agent_knowledge_base_cod.Coordination.Lease.{
  write_lease, new_lease, renewed_lease, acquire_over, saturating_succ,
}

pub write_lease-lease :
    (event_id : Uuid) (a : Action) (l : WriterLease) (p : Option SessionIdentity) (now : Time)
    (s : CoordinationStore) {l' : WriterLease} {s' : CoordinationStore}
    → write_lease event_id a l p now s ≡ ok (l', s')
    → l' ≡ l
unfolding write_lease
write_lease-lease event_id a l p now s h = ground arith

-- What a grant at `now` to `owner` is.
abbrev pub IsGrant : Uuid → SessionIdentity → Time → WriterLease → Type 0
IsGrant task_id owner now l =
    (l.task_id ≡ task_id) × (l.owner ≡ owner) × (now < l.expires_at) × (now ≤ l.renewed_at)

new_lease-IsGrant :
    (task_id w : Uuid) (owner : SessionIdentity) (now : Time) (d : Duration) (g : ℕ)
    {l : WriterLease}
    → is_positive d ≡ true
    → new_lease task_id w owner now d g ≡ ok l
    → IsGrant task_id owner now l
unfolding new_lease
new_lease-IsGrant task_id w owner now d g {l} p h =
    ground (arith, add_time-lt now d {u = l.expires_at})

renewed_lease-IsGrant :
    (now : Time) (d : Duration) (e : WriterLease) {l : WriterLease}
    → is_positive d ≡ true
    → renewed_lease now d e ≡ ok l
    → IsGrant e.task_id e.owner now l
unfolding renewed_lease
renewed_lease-IsGrant now d e {l} p h =
    ground (arith, add_time-lt (max now e.renewed_at) d {u = l.expires_at})

-- A written lease is the one that was made.
pub written :
    (m : Result LeaseError WriterLease) (event_id : Uuid) (a : Action) (p : Option SessionIdentity)
    (now : Time) (s : CoordinationStore) {l : WriterLease} {s' : CoordinationStore}
    → (m >>= λ lease. write_lease event_id a lease p now s) ≡ ok (l, s')
    → (m ≡ ok l) × (write_lease event_id a l p now s ≡ ok (l, s'))
written (ok l') event_id a p now s {l} {s'} h =
    let e = write_lease-lease event_id a l' p now s h in
    (rw e, subst (λ x. write_lease event_id a x p now s ≡ ok (l, s')) (sym e) h)
written (err x) event_id a p now s h = cc

-- The lease that stood before does not stop `owner` at `now`.
abbrev pub Yields : SessionIdentity → Time → Option WriterLease → Type 0
Yields owner now none = Unit
Yields owner now (some e) = (e.owner ≡ owner) ⊎ (e.expires_at ≤ now)

pub acquire_over-IsGrant :
    (event_id task_id w : Uuid) (owner : SessionIdentity) (now : Time) (d : Duration)
    (existing : Option WriterLease) (s : CoordinationStore) {l : WriterLease}
    {s' : CoordinationStore}
    → is_positive d ≡ true
    → ((e : WriterLease) → existing ≡ some e → e.task_id ≡ task_id)
    → acquire_over event_id task_id w owner now d existing s ≡ ok (l, s')
    → IsGrant task_id owner now l × Yields owner now existing
unfolding acquire_over
acquire_over-IsGrant event_id task_id w owner now d none s p same h =
    (new_lease-IsGrant task_id w owner now d 1 p (written _ event_id acquire none now s h).0, tt)
acquire_over-IsGrant event_id task_id w owner now d (some e) s {l} {s'} p same h =
    elim (Bool-cases (ltb now e.expires_at)) [
      | inl live ↦ elim (Bool-cases (session_eq e.owner owner)) [
        | inl mine ↦
            let kept =
              renewed_lease-IsGrant now d e p
                (written _ event_id renew none now s (rw (live, mine) at h)).0 in
            ground (arith, kept, same e refl, session_eq→≡ e.owner owner)
        | inr theirs ↦ absurd (ground arith)
      ]
      | inr over ↦ (
        new_lease-IsGrant task_id w owner now d (saturating_succ e.generation) p
            (written _ event_id takeover (some e.owner) now s (rw over at h)).0,
        inr (ground arith),
      )
    ]
