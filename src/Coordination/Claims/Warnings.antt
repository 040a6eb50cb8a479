-- ===== src/Coordination/Claims/Warnings.antt =====
-- What `claim_paths` writes and whom it warns about.
use mathlib.Core.Path.{subst}
use mathlib.Core.List.{append-nil, append_assoc}
use agent_knowledge_base_cod.Common.{
  ◌≡◌, refl, sym, ap, ◌∙◌, inl, inr, true, false, Bool-cases, not, ◌&&◌, none, List, [], ◌∷◌, ◌++◌,
  map, Memᴰ, mem-All, mem-filter, mem-sort_by, All, All-append, arith, Text, Time, timestamp_ns, ok,
  bind-eq-ok, ensure-eq-ok, ok-injective, length, ltb, leb, ok_or, ◌==◌,
}
use agent_knowledge_base_cod.Coordination.Model.{
  Uuid, PathClaim, CoordinationStore, is_active, no_claims, too_many_claims, task_missing,
  task_inactive,
}
use agent_knowledge_base_cod.Coordination.Task.{task}
use agent_knowledge_base_cod.Coordination.Claims.Overlap.{level_lt, no_overlap, overlap}
use agent_knowledge_base_cod.Coordination.Claims.{
  PathClaimInput, ClaimResult, is_active_claim, active_claims, warnings_against, insert_claim,
  make_claim, claim_each, claim_paths,
}

-- The task's own claims make no warnings.
warnings_against-append :
    (task_id : Uuid) (claim : PathClaim) (xs ys : List PathClaim)
    → All (λ c. c.task_id ≡ task_id) ys
    → warnings_against task_id claim (xs ++ ys) ≡ warnings_against task_id claim xs
warnings_against-append task_id claim [] [] h = refl
warnings_against-append task_id claim [] (y ∷ ys) h =
    ground (arith, warnings_against-append task_id claim [] ys h.1, h.0)
warnings_against-append task_id claim (x ∷ xs) ys h =
    rw (warnings_against-append task_id claim xs ys h)

-- Every other task's claim that overlaps is warned about, with its level.
warnings_against-mem :
    (task_id : Uuid) (claim o : PathClaim) {xs : List PathClaim}
    → (o.task_id == task_id) ≡ false
    → level_lt no_overlap (overlap claim o) ≡ true
    → Memᴰ o xs
    → Memᴰ (record { level = overlap claim o; other = o }) (warnings_against task_id claim xs)
warnings_against-mem task_id claim o other over (Memᴰ.head {xs = xs} e) =
    subst
      (λ (x : PathClaim).
        Memᴰ (record { level = overlap claim o; other = o })
          (warnings_against task_id claim (x ∷ xs)))
      e (rw (other, over) (Memᴰ.head refl))
warnings_against-mem task_id claim o other over (Memᴰ.tail {x = x} {xs = xs} m) =
    elim (Bool-cases (not (x.task_id == task_id) && level_lt no_overlap (overlap claim x))) [
      | inl hit ↦ rw hit (Memᴰ.tail (warnings_against-mem task_id claim o other over m))
      | inr miss ↦ rw miss (warnings_against-mem task_id claim o other over m)
    ]

-- What one input's result says, against the claims that stood before the call.
abbrev pub IsReported : Uuid → Time → List PathClaim → ClaimResult → Type 0
IsReported task_id now existing r =
    (r.claim.task_id ≡ task_id)
    × (r.claim.created_at ≡ now)
    × (r.claim.released_at ≡ none)
    × (r.warnings ≡ warnings_against task_id r.claim existing)

extend :
    (s t s' : CoordinationStore) (claim : PathClaim) (rows : List PathClaim)
    → t ≡ record s { claims = s.claims ++ claim ∷ [] }
    → s' ≡ record t { claims = t.claims ++ rows }
    → s' ≡ record s { claims = s.claims ++ claim ∷ rows }
extend s t s' claim rows e f =
    f
    ∙ ap (λ (u : CoordinationStore). record u { claims = u.claims ++ rows }) e
    ∙ ap (λ (cs : List PathClaim). record s { claims = cs })
        (append_assoc s.claims (claim ∷ []) rows)

module _ (lowercase : Text → Text) where
  make_claim-fields :
      (claim_id project_id task_id worktree_id : Uuid) (now : Time) (input : PathClaimInput)
      {claim : PathClaim}
      → make_claim lowercase claim_id project_id task_id worktree_id now input ≡ ok claim
      → (claim.task_id ≡ task_id) × (claim.created_at ≡ now) × (claim.released_at ≡ none)
  unfolding make_claim
  make_claim-fields claim_id project_id task_id worktree_id now input h = ground arith

  insert_claim-eq-ok :
      (claim : PathClaim) (s : CoordinationStore) {s' : CoordinationStore}
      → insert_claim claim s ≡ ok s'
      → s' ≡ record s { claims = s.claims ++ claim ∷ [] }
  unfolding insert_claim timestamp_ns
  insert_claim-eq-ok claim s h = ground arith

  -- The results that a run of the loop adds, and the rows that it writes.
  pub record Reports (task_id : Uuid) (now : Time) (existing : List PathClaim)
      (done results : List ClaimResult) (s s' : CoordinationStore) : Type 0 where
    pub added : List ClaimResult
    pub results_are : results ≡ done ++ added
    pub claims_are : s' ≡ record s { claims = s.claims ++ map (λ r. r.claim) added }
    pub reported : All (IsReported task_id now existing) added

  own_claims :
      (task_id : Uuid) (now : Time) (existing : List PathClaim) (done : List ClaimResult)
      → All (IsReported task_id now existing) done
      → All (λ c. c.task_id ≡ task_id) (map (λ r. r.claim) done)
  own_claims task_id now existing [] h = tt
  own_claims task_id now existing (r ∷ rs) h = (h.0.0, own_claims task_id now existing rs h.1)

  claim_each-Reports :
      (task_id worktree_id : Uuid) (now : Time) (existing : List PathClaim)
      (done : List ClaimResult) (inputs : List (Uuid × PathClaimInput)) (s : CoordinationStore)
      {results : List ClaimResult} {s' : CoordinationStore}
      → All (IsReported task_id now existing) done
      → claim_each lowercase task_id worktree_id now existing done inputs s ≡ ok (results, s')
      → Reports task_id now existing done results s s'
  unfolding claim_each
  claim_each-Reports task_id worktree_id now existing done [] s own h = record {
    added = [];
    results_are = rw append-nil (sym (ap (λ p. p.0) (ok-injective h)));
    claims_are = rw append-nil (sym (ap (λ p. p.1) (ok-injective h)));
    reported = tt;
  }
  claim_each-Reports task_id worktree_id now existing done ((claim_id, input) ∷ inputs) s {results}
        {s'} own h =
      let (claim, made, h1) =
        bind-eq-ok (make_claim lowercase claim_id s.project_id task_id worktree_id now input) _ h in
      let (t, inserted, h2) = bind-eq-ok (insert_claim claim s) _ h1 in
      let (own_task, at, open_claim) =
        make_claim-fields claim_id s.project_id task_id worktree_id now input made in
      let r : ClaimResult = record {
        claim = claim;
        warnings = warnings_against task_id claim (existing ++ map (λ x. x.claim) done);
      } in
      let fair : IsReported task_id now existing r = (
        own_task,
        at,
        open_claim,
        warnings_against-append task_id claim existing (map (λ x. x.claim) done)
            (own_claims task_id now existing done own),
      ) in
      let rest =
        claim_each-Reports task_id worktree_id now existing (done ++ r ∷ []) inputs t
          (All-append _ done (r ∷ []) own (fair, tt)) h2 in
      record {
        added = r ∷ rest.added;
        results_are = rest.results_are ∙ append_assoc done (r ∷ []) rest.added;
        claims_are =
            extend s t s' claim (map (λ x. x.claim) rest.added)
              (insert_claim-eq-ok claim s inserted) rest.claims_are;
        reported = (fair, rest.reported);
      }

  claim_paths-Reports :
      (task_id : Uuid) (inputs : List (Uuid × PathClaimInput)) (now : Time) (s : CoordinationStore)
      {results : List ClaimResult} {s' : CoordinationStore}
      → claim_paths lowercase task_id inputs now s ≡ ok (results, s')
      → Reports task_id now (active_claims s) [] results s s'
  unfolding claim_paths
  claim_paths-Reports task_id inputs now s h =
      let (_, h1) = ensure-eq-ok (ltb 0 (length inputs)) no_claims _ h in
      let (_, h2) = ensure-eq-ok (leb (length inputs) 100) too_many_claims _ h1 in
      let (t, found, h3) = bind-eq-ok (ok_or (task task_id s) task_missing) _ h2 in
      let (_, h4) = ensure-eq-ok (is_active t.status) task_inactive _ h3 in
      claim_each-Reports task_id t.worktree_id now (active_claims s) [] inputs s tt h4

  -- A successful call writes one open claim of the task for each result and nothing else. No
  -- result is silent about an active claim of another task that overlaps it.
  pub claim_paths-warns :
      (task_id : Uuid) (inputs : List (Uuid × PathClaimInput)) (now : Time) (s : CoordinationStore)
      {results : List ClaimResult} {s' : CoordinationStore}
      → claim_paths lowercase task_id inputs now s ≡ ok (results, s')
      → (s' ≡ record s { claims = s.claims ++ map (λ r. r.claim) results })
        × All (λ r. (r.claim.task_id ≡ task_id) × (r.claim.released_at ≡ none)) results
        × ((r : ClaimResult) (o : PathClaim)
            → Memᴰ r results
            → Memᴰ o s.claims
            → is_active_claim s o ≡ true
            → (o.task_id == task_id) ≡ false
            → level_lt no_overlap (overlap r.claim o) ≡ true
            → Memᴰ (record { level = overlap r.claim o; other = o }) r.warnings)
  unfolding active_claims
  claim_paths-warns task_id inputs now s {results} h =
      let w = claim_paths-Reports task_id inputs now s h in
      let all_reported =
        subst (All (IsReported task_id now (active_claims s))) (sym w.results_are) w.reported in
      (
        w.claims_are
            ∙ ap
                (λ (rs : List ClaimResult). record s { claims = s.claims ++ map (λ r. r.claim) rs })
                (sym w.results_are),
        All-weaken results all_reported,
        λ r o m n live other over.
            subst (Memᴰ (record { level = overlap r.claim o; other = o }))
              (sym (mem-All (IsReported task_id now (active_claims s)) all_reported m).3)
              (warnings_against-mem task_id r.claim o other over
                (mem-sort_by _ (mem-filter (is_active_claim s) live n))),
      )
    where
      All-weaken :
          (rs : List ClaimResult)
          → All (IsReported task_id now (active_claims s)) rs
          → All (λ r. (r.claim.task_id ≡ task_id) × (r.claim.released_at ≡ none)) rs
      All-weaken [] a = tt
      All-weaken (r ∷ rs) a = ((a.0.0, a.0.2), All-weaken rs a.1)
