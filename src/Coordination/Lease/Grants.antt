-- ===== src/Coordination/Lease/Grants.antt =====
-- `acquire_lease`: whom it serves, and what a takeover leaves to the old holder.
use mathlib.Core.Path.{subst}
use agent_knowledge_base_cod.Common.{
  ◌+◌, ◌≡◌, ◌≢◌, ◌∙◌, inl, inr, false, Bool-cases, Option, some, arith, Time, Duration, is_positive,
  ok, bind-eq-ok, ensure-eq-ok, ltb,
}
use agent_knowledge_base_cod.Coordination.Model.{
  Uuid, SessionIdentity, session_eq, session_eq→≡, WriterLease, takeover, CoordinationStore,
  invalid_duration,
}
use agent_knowledge_base_cod.Coordination.Lease.{
  load_lease, active_task_worktree, get_duration, new_lease, acquire_over, acquire_lease,
  saturating_succ, write_lease,
}
use agent_knowledge_base_cod.Coordination.Lease.Exclusion.{
  written, IsGrant, Yields, acquire_over-IsGrant,
}
use agent_knowledge_base_cod.Coordination.Lease.ReadBack.{stored_lease, write_lease-load}
use agent_knowledge_base_cod.Coordination.Lease.Fencing.{
  IsFenced, fenced, load_lease-bounded, succ_differs,
}
use agent_knowledge_base_cod.Coordination.Invariant.{StoreIsValid}
use agent_knowledge_base_cod.Coordination.Invariant.Preserved.{LeaseIsValid}
use agent_knowledge_base_cod.Coordination.Invariant.Leases.{
  load_lease-task_id, active_task_worktree-project_of, new_lease-LeaseIsValid, saturating_succ_pos,
}

module _ (event task_id : Uuid) (owner : SessionIdentity) (now : Time) (duration : Option Duration)
    (s : CoordinationStore) where
  -- A granted lease is the caller's, for the task asked for, and runs past `now`. The lease that
  -- stood before, if there was one, was the caller's own or had expired by `now`.
  pub acquire_exclusive :
      {l : WriterLease} {s' : CoordinationStore}
      → acquire_lease event task_id owner now duration s ≡ ok (l, s')
      → IsGrant task_id owner now l × Yields owner now (load_lease task_id s)
  unfolding acquire_lease
  acquire_exclusive h =
      let (p, h1) = ensure-eq-ok (is_positive (get_duration duration)) invalid_duration _ h in
      let (w, _, h2) = bind-eq-ok (active_task_worktree task_id s) _ h1 in
      acquire_over-IsGrant event task_id w owner now (get_duration duration) (load_lease task_id s)
        s p (λ e k. load_lease-task_id task_id s k) h2

  takeover-steps :
      (e : WriterLease) {l : WriterLease} {s' : CoordinationStore}
      → StoreIsValid s
      → load_lease task_id s ≡ some e
      → session_eq e.owner owner ≡ false
      → acquire_lease event task_id owner now duration s ≡ ok (l, s')
      → LeaseIsValid s l
        × ((l.task_id ≡ task_id) × (l.generation ≡ saturating_succ e.generation))
        × (write_lease event takeover l (some e.owner) now s ≡ ok (l, s'))
  unfolding acquire_lease acquire_over new_lease
  takeover-steps e {l} {s'} v found theirs h =
      let (p, h1) = ensure-eq-ok (is_positive (get_duration duration)) invalid_duration _ h in
      let (w, a, h2) = bind-eq-ok (active_task_worktree task_id s) _ h1 in
      let h3 : acquire_over event task_id w owner now (get_duration duration) (some e) s
          ≡ ok (l, s') =
        subst (λ x. acquire_over event task_id w owner now (get_duration duration) x s ≡ ok (l, s'))
          found h2 in
      elim (Bool-cases (ltb now e.expires_at)) [
        | inl live ↦ absurd (ground arith)
        | inr over ↦
            let (made, put) =
              written
                (new_lease task_id w owner now (get_duration duration)
                  (saturating_succ e.generation))
                event takeover (some e.owner) now s (rw over at h3) in
            (
              new_lease-LeaseIsValid s task_id w owner now (get_duration duration)
                  (saturating_succ e.generation) (active_task_worktree-project_of task_id s v a) p
                  (saturating_succ_pos e.generation) made,
              ground arith,
              put,
            )
      ]

  -- After a takeover nobody can renew, release or hand over with the old generation, and the new
  -- lease has the next one.
  pub takeover_fences :
      (e : WriterLease) {l : WriterLease} {s' : CoordinationStore}
      → StoreIsValid s
      → load_lease task_id s ≡ some e
      → e.owner ≢ owner
      → acquire_lease event task_id owner now duration s ≡ ok (l, s')
      → (l.generation ≡ e.generation + 1)
        × ((who : SessionIdentity) → IsFenced task_id who e.generation s')
  takeover_fences e {l} {s'} v found other h = elim (Bool-cases (session_eq e.owner owner)) [
    | inl mine ↦ absurd (other (session_eq→≡ e.owner owner mine))
    | inr theirs ↦
        let (valid, (task, next_g), put) = takeover-steps e v found theirs h in
        let fits = load_lease-bounded task_id s v found in
        let loaded =
          subst (λ (k : Uuid). load_lease k s' ≡ some (stored_lease l)) task
            (write_lease-load event takeover l (some e.owner) now s v valid put) in
        (
          next_g ∙ omega arith,
          λ who.
              fenced task_id who e.generation s' (stored_lease l) loaded
                (rw next_g (succ_differs e.generation fits)),
        )
  ]
