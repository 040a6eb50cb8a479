-- ===== src/Coordination/Tests.antt =====
-- Runs of the coordination store, and the theorems about it at concrete inputs.
use mathlib.Core.List.{Memᴰ}
use agent_knowledge_base_cod.Common.{
  ◌+◌, ◌≡◌, ◌≢◌, refl, ◌*◌, true, false, none, some, List, [], ◌∷◌, ◌++◌, map, Text, codes, trim,
  split, Time, unix_epoch, ns_per_second, add_time, timestamp_ns, All, Result, ok, err, ◌↔◌, ◌⊎◌,
  ◌==◌,
}
use agent_knowledge_base_cod.Domain.Harness.{claude_code, codex, as_str, parse_harness, harness_eq}
use agent_knowledge_base_cod.Coordination.Model.{
  Uuid, active, TaskRecord, SessionIdentity, session_eq, WriterLease, directory, PathClaim,
  CoordinationStore, LeaseError, StoreError,
}
use agent_knowledge_base_cod.Coordination.Task.{create_task, task}
use agent_knowledge_base_cod.Coordination.Lease.{
  load_lease, acquire_lease, acquire_over, new_lease, write_lease, store_lease, append_event,
  handoff_lease, held_lease, active_task_worktree,
}
use agent_knowledge_base_cod.Coordination.Lease.Exclusion.{IsGrant, Yields}
use agent_knowledge_base_cod.Coordination.Lease.Fencing.{IsFenced, handoff_fences}
use agent_knowledge_base_cod.Coordination.Lease.Grants.{acquire_exclusive, takeover_fences}
use agent_knowledge_base_cod.Coordination.Claims.{
  PathClaimInput, ClaimResult, claim_paths, is_active_claim, active_claims, insert_claim,
  make_claim, claim_each,
}
use agent_knowledge_base_cod.Coordination.Claims.Paths.{
  slash, components, normalize, child_of, ignored,
}
use agent_knowledge_base_cod.Coordination.Claims.Paths.Canonical.{
  IsPlain, kept_components, normalize-IsPlain,
}
use agent_knowledge_base_cod.Coordination.Claims.Overlap.{definite, no_overlap, overlap, level_lt}
use agent_knowledge_base_cod.Coordination.Claims.Overlap.Coverage.{
  covers, IsPlainPair, definite-covers,
}
use agent_knowledge_base_cod.Coordination.Claims.Warnings.{claim_paths-warns}
use agent_knowledge_base_cod.Coordination.Invariant.{StoreIsValid}
use agent_knowledge_base_cod.Coordination.Steps.{
  Call, creates, acquires, claims, empty, step, run, run-StoreIsValid,
}

abbrev same_case : Text → Text
same_case s = s

abbrev start : Time
start = unix_epoch + 1000000000 * ns_per_second

abbrev later : Time
later = start + 7200 * ns_per_second

abbrev alice : SessionIdentity
alice = record { harness = claude_code; native_session_id = codes "a" }

abbrev bob : SessionIdentity
bob = record { harness = codex; native_session_id = codes "b" }

abbrev a_task : Uuid → TaskRecord
a_task id = record {
  id = id;
  project_id = 7;
  worktree_id = 100 + id;
  title = codes "t";
  worktree_path = none;
  branch = none;
  status = active;
  created_at = start;
  closed_at = none;
}

abbrev opening : List Call
opening = creates (a_task 1) ∷ creates (a_task 2) ∷ acquires 50 1 alice start none ∷ []

held : CoordinationStore
held = run same_case (empty 7) opening

run-StoreIsValid_example : StoreIsValid (run same_case (empty 7) opening)
run-StoreIsValid_example = run-StoreIsValid same_case 7 opening

held-StoreIsValid : StoreIsValid held
unfolding held
held-StoreIsValid = run-StoreIsValid same_case 7 opening

abbrev alices_lease : WriterLease
alices_lease = record {
  task_id = 1;
  worktree_id = 101;
  owner = alice;
  acquired_at = start;
  renewed_at = start;
  expires_at = start + 1800 * ns_per_second;
  generation = 1;
}

loaded : load_lease 1 held ≡ some alices_lease
unfolding held run create_task trim timestamp_ns acquire_lease active_task_worktree acquire_over
    new_lease write_lease store_lease append_event add_time load_lease as_str parse_harness
loaded = refl

-- The lease and the store of a success, or those given.
abbrev lease_of : WriterLease → Result LeaseError (WriterLease × CoordinationStore) → WriterLease
lease_of l (ok (l', s)) = l'
lease_of l (err e) = l

abbrev store_of :
    CoordinationStore → Result LeaseError (WriterLease × CoordinationStore) → CoordinationStore
store_of s (ok (l, s')) = s'
store_of s (err e) = s

takes_over : Result LeaseError (WriterLease × CoordinationStore)
takes_over = acquire_lease 51 1 bob later none held

taken : WriterLease
taken = lease_of alices_lease takes_over

taken_store : CoordinationStore
taken_store = store_of held takes_over

takes_over_ok : takes_over ≡ ok (taken, taken_store)
unfolding takes_over taken taken_store held run create_task trim timestamp_ns acquire_lease
    active_task_worktree acquire_over new_lease write_lease store_lease append_event add_time
    load_lease as_str parse_harness session_eq harness_eq
takes_over_ok = refl

bob_waits : alice ≢ bob
bob_waits e = cc

acquire_exclusive_example : IsGrant 1 bob later taken × Yields bob later (load_lease 1 held)
unfolding takes_over
acquire_exclusive_example = acquire_exclusive 51 1 bob later none held takes_over_ok

active_worktree : active_task_worktree 1 held ≡ ok 101
unfolding held run create_task trim timestamp_ns acquire_lease active_task_worktree acquire_over
    new_lease write_lease store_lease append_event add_time load_lease as_str
active_worktree = refl

takeover_fences_example :
    (taken.generation ≡ 2) × ((who : SessionIdentity) → IsFenced 1 who 1 taken_store)
unfolding takes_over
takeover_fences_example =
    takeover_fences 51 1 bob later none held alices_lease held-StoreIsValid loaded bob_waits
      takes_over_ok

hands_over : Result LeaseError (WriterLease × CoordinationStore)
hands_over = handoff_lease 52 1 alice 1 bob (start + 5) held

handed : WriterLease
handed = lease_of alices_lease hands_over

handed_store : CoordinationStore
handed_store = store_of held hands_over

hands_over_ok : hands_over ≡ ok (handed, handed_store)
unfolding hands_over handed handed_store held run create_task trim timestamp_ns acquire_lease
    active_task_worktree acquire_over new_lease write_lease store_lease append_event add_time
    load_lease as_str parse_harness session_eq harness_eq handoff_lease held_lease
hands_over_ok = refl

handoff_fences_example :
    (handed.generation ≡ 2) × ((who : SessionIdentity) → IsFenced 1 who 1 handed_store)
unfolding hands_over
handoff_fences_example =
    handoff_fences 52 1 alice 1 bob (start + 5) held held-StoreIsValid hands_over_ok

abbrev a_claim : Uuid → Uuid → Text → PathClaim
a_claim id task_id path = record {
  id = id;
  project_id = 7;
  task_id = task_id;
  worktree_id = 101;
  kind = directory;
  normalized_value = path;
  display_value = path;
  symbol = none;
  created_at = start;
  released_at = none;
}

plain_pair : IsPlainPair (a_claim 1 1 (codes "src")) (a_claim 2 2 (codes "src/a"))
unfolding ignored
plain_pair = record {
  left_kept = refl;
  right_kept = refl;
  one_project = refl;
  left_path = refl;
  right_path = refl;
}

definite-covers_example :
    ((overlap (a_claim 1 1 (codes "src")) (a_claim 2 2 (codes "src/a")) ≡ definite) ↔ (
      (p : Text) × (covers (a_claim 1 1 (codes "src")) p ≡ true)
      × (covers (a_claim 2 2 (codes "src/a")) p ≡ true)))
    × ((overlap (a_claim 1 1 (codes "src")) (a_claim 2 2 (codes "src/a")) ≡ definite)
        ⊎ (overlap (a_claim 1 1 (codes "src")) (a_claim 2 2 (codes "src/a")) ≡ no_overlap))
definite-covers_example =
    definite-covers (a_claim 1 1 (codes "src")) (a_claim 2 2 (codes "src/a")) plain_pair

normalized : normalize same_case (codes " src\\.//a/ ") ≡ ok (codes "src/a")
unfolding normalize components trim
normalized = refl

normalize-IsPlain_example :
    (split slash (codes "src/a") ≡ map same_case (kept_components (codes " src\\.//a/ ")))
    × All IsPlain (split slash (codes "src/a"))
normalize-IsPlain_example =
    normalize-IsPlain same_case (codes " src\\.//a/ ") (codes "src/a") (λ s h. h) (λ s h. h)
      normalized

abbrev an_input : Text → PathClaimInput
an_input path = record { kind = directory; value = path; symbol = none }

claimed : CoordinationStore
claimed = step same_case held (claims 1 ((60, an_input (codes "src")) ∷ []) start)

claims_more : Result StoreError (List ClaimResult × CoordinationStore)
claims_more = claim_paths same_case 2 ((61, an_input (codes "src/a")) ∷ []) later claimed

abbrev results_of : Result StoreError (List ClaimResult × CoordinationStore) → List ClaimResult
results_of (ok (rs, s)) = rs
results_of (err e) = []

abbrev claims_store :
    CoordinationStore → Result StoreError (List ClaimResult × CoordinationStore) → CoordinationStore
claims_store s (ok (rs, s')) = s'
claims_store s (err e) = s

more_results : List ClaimResult
more_results = results_of claims_more

more_store : CoordinationStore
more_store = claims_store claimed claims_more

claims_more_ok : claims_more ≡ ok (more_results, more_store)
unfolding claims_more more_results more_store claimed held run create_task trim timestamp_ns
    acquire_lease active_task_worktree acquire_over new_lease write_lease store_lease append_event
    add_time load_lease as_str claim_paths make_claim claim_each task normalize components
    active_claims insert_claim overlap ignored child_of
claims_more_ok = refl

claim_paths-warns_example :
    (more_store ≡ record claimed { claims = claimed.claims ++ map (λ r. r.claim) more_results })
    × All (λ r. (r.claim.task_id ≡ 2) × (r.claim.released_at ≡ none)) more_results
    × ((r : ClaimResult) (o : PathClaim)
        → Memᴰ r more_results
        → Memᴰ o claimed.claims
        → is_active_claim claimed o ≡ true
        → (o.task_id == 2) ≡ false
        → level_lt no_overlap (overlap r.claim o) ≡ true
        → Memᴰ (record { level = overlap r.claim o; other = o }) r.warnings)
unfolding claims_more
claim_paths-warns_example =
    claim_paths-warns same_case 2 ((61, an_input (codes "src/a")) ∷ []) later claimed claims_more_ok
