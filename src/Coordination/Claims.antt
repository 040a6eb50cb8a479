-- ===== src/Coordination/Claims.antt =====
-- crates/brain-coordination/src/claims.rs: the paths that a task says it will touch.
-- `Paths` reads a claimed path, `Overlap` compares two claims, and this file has the functions of
-- the store. `lowercase` is `str::to_lowercase`.
pub mod Paths
pub mod Overlap
pub mod Warnings
use agent_knowledge_base_cod.Common.{
  ◌&&◌, ◌||◌, Bool, true, false, not, Option, none, some, List, [], ◌∷◌, ◌++◌, map, Text, is_blank,
  trim, Time, timestamp_ns, Result, ok, ◌>>=◌, ◌>>◌, ensure, ok_or, leb, ltb, ◌==◌, if◌then◌else◌,
  any, length, filter, find?, sort_by, count_where, update_where,
}
use mathlib.Core.Option
use agent_knowledge_base_cod.Coordination.Model.{
  Uuid, is_active, ClaimKind, PathClaim, CoordinationStore, StoreError, constraint, no_claims,
  too_many_claims, task_missing, task_inactive, symbol_required, claim_absent, claim_missing,
  lift_time,
}
use agent_knowledge_base_cod.Coordination.Task.{task}
use Paths.{normalize}
use Overlap.{Level, level_lt, no_overlap, overlap, is_symbol}

pub record PathClaimInput : Type 0 where
  pub kind : ClaimKind
  pub value : Text
  pub symbol : Option Text

pub record ClaimWarning : Type 0 where
  pub level : Level
  pub other : PathClaim

pub record ClaimResult : Type 0 where
  pub claim : PathClaim
  pub warnings : List ClaimWarning

-- `ORDER BY c.created_at_ns ASC, c.claim_id ASC`
abbrev oldest_first : PathClaim → PathClaim → Bool
oldest_first a b = ltb a.created_at b.created_at || (a.created_at == b.created_at && leb a.id b.id)

abbrev pub is_none {ℓ} : {A : Type ℓ} → Option A → Bool
is_none none = true
is_none (some a) = false

-- The rows of `path_claims` joined to their tasks, by the condition of `active_claims`.
abbrev pub is_active_claim : CoordinationStore → PathClaim → Bool
is_active_claim s c =
    c.project_id == s.project_id
    && is_none c.released_at
    && any (λ t. t.id == c.task_id && is_active t.status) s.tasks

unfoldable pub active_claims : CoordinationStore → List PathClaim
active_claims s = sort_by oldest_first (filter (is_active_claim s) s.claims)

-- The `filter` and the `filter_map` that make a claim's warnings.
abbrev pub warnings_against : Uuid → PathClaim → List PathClaim → List ClaimWarning
warnings_against task_id claim [] = []
warnings_against task_id claim (other ∷ others) =
    let rest = warnings_against task_id claim others in
    if not (other.task_id == task_id) && level_lt no_overlap (overlap claim other)
    then record { level = overlap claim other; other = other } ∷ rest
    else rest

abbrev pub has_symbol : Option Text → Bool
has_symbol none = false
has_symbol (some s) = not (is_blank s)

-- `INSERT INTO path_claims`
unfoldable pub insert_claim : PathClaim → CoordinationStore → Result StoreError CoordinationStore
insert_claim claim s = do
  created_at ← lift_time (timestamp_ns claim.created_at)
  ensure (not (any (λ c. c.id == claim.id) s.claims)) constraint
  ok (record s { claims = s.claims ++ record claim { created_at = created_at } ∷ [] })

module _ (lowercase : Text → Text) where
  -- The claim that one input makes. `claim_id` is what `Uuid::now_v7` gives for it.
  unfoldable pub make_claim :
      Uuid → Uuid → Uuid → Uuid → Time → PathClaimInput → Result StoreError PathClaim
  make_claim claim_id project_id task_id worktree_id now input = do
    normalized_value ← normalize lowercase input.value
    ensure (not (is_symbol input.kind) || has_symbol input.symbol) symbol_required
    ok (record {
      id = claim_id;
      project_id = project_id;
      task_id = task_id;
      worktree_id = worktree_id;
      kind = input.kind;
      normalized_value = normalized_value;
      display_value = input.value;
      symbol = Option.map (λ s. lowercase (trim s)) input.symbol;
      created_at = now;
      released_at = none;
    })

  -- The loop over the inputs. `done` are the results so far.
  unfoldable pub claim_each :
      Uuid
      → Uuid
      → Time
      → List PathClaim
      → List ClaimResult
      → List (Uuid × PathClaimInput)
      → CoordinationStore
      → Result StoreError (List ClaimResult × CoordinationStore)
  claim_each task_id worktree_id now existing done [] s = ok (done, s)
  claim_each task_id worktree_id now existing done ((claim_id, input) ∷ inputs) s = do
    claim ← make_claim claim_id s.project_id task_id worktree_id now input
    let warnings = warnings_against task_id claim (existing ++ map (λ r. r.claim) done)
    inserted ← insert_claim claim s
    claim_each task_id worktree_id now existing
        (done ++ record { claim = claim; warnings = warnings } ∷ []) inputs inserted

  unfoldable pub claim_paths :
      Uuid
      → List (Uuid × PathClaimInput)
      → Time
      → CoordinationStore
      → Result StoreError (List ClaimResult × CoordinationStore)
  claim_paths task_id inputs now s = do
    ensure (ltb 0 (length inputs)) no_claims
    ensure (leb (length inputs) 100) too_many_claims
    t ← ok_or (task task_id s) task_missing
    ensure (is_active t.status) task_inactive
    claim_each task_id t.worktree_id now (active_claims s) [] inputs s

unfoldable pub release_claim :
    Uuid → Uuid → Time → CoordinationStore → Result StoreError (PathClaim × CoordinationStore)
release_claim claim_id task_id now s = do
  at ← lift_time (timestamp_ns now)
  let held = λ (c : PathClaim).
      c.project_id == s.project_id
      && c.id == claim_id
      && c.task_id == task_id
      && is_none c.released_at
  let s' = record s {
    claims = update_where held (λ c. record c { released_at = some at }) s.claims;
  }
  ensure (count_where held s.claims == 1) claim_absent
  claim ←
      ok_or (find? (λ c. c.project_id == s.project_id && c.id == claim_id) s'.claims) claim_missing
  ok (claim, s')
