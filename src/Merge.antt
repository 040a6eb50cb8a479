-- ===== src/Merge.antt =====
-- crates/brain-context/src/merge.rs: which proposals of a language model may replace two claims.
-- The provider's answer is the argument; its JSON is not read here.
pub mod Soundness
mod Tests
use agent_knowledge_base_cod.Common.{
  ℕ, ◌+◌, ◌==◌, Bool, true, false, not, List, [], ◌∷◌, Text, trim, length, any, filter, sort_by,
  ltb, Result, ok, err, ◌>>=◌, ◌>>◌, ensure, if◌then◌else◌,
}

abbrev pub Uuid : Type 0
Uuid = ℕ

pub record ProposedMerge : Type 0 where
  pub title : Text
  pub content : Text
  pub evidence_ids : List Uuid

pub record ValidatedMerge : Type 0 where
  pub title : Text
  pub content : Text
  pub evidence_ids : List Uuid

pub data MergeRejection : Type 0 where
  empty_title empty_content uncited : MergeRejection
  foreign_citation : Uuid → MergeRejection
  -- The lengths of the merged claim and of the two claims.
  not_shorter : ℕ → ℕ → MergeRejection
  lost_new_evidence : List Uuid → MergeRejection

pub record MergeInputs : Type 0 where
  pub older_content : Text
  pub newer_content : Text
  pub allowed_evidence : List Uuid
  pub unseen_evidence : List Uuid

abbrev pub is_empty {ℓ} : {A : Type ℓ} → List A → Bool
is_empty [] = true
is_empty (x ∷ xs) = false

-- `HashSet::contains` of the set that the list was collected into.
abbrev pub contains : List Uuid → Uuid → Bool
contains ids id = any (λ x. x == id) ids

-- The loop over the citations: the first that is not allowed.
abbrev pub check_citations : List Uuid → List Uuid → Result MergeRejection (Unit {0})
check_citations allowed [] = ok tt
check_citations allowed (id ∷ ids) =
    let rest = check_citations allowed ids in
    if not (contains allowed id) then err (foreign_citation id) else rest

abbrev pub missing_from : List Uuid → List Uuid → List Uuid
missing_from cited unseen = filter (λ id. not (contains cited id)) unseen

-- `dedup`: of equal neighbours the first stays.
abbrev pub dedup_from : Uuid → List Uuid → List Uuid
dedup_from x [] = x ∷ []
dedup_from x (y ∷ ys) =
    let same = dedup_from x ys in let next = dedup_from y ys in if x == y then same else x ∷ next

abbrev pub dedup : List Uuid → List Uuid
dedup [] = []
dedup (x ∷ xs) = dedup_from x xs

abbrev pub inputs_length : MergeInputs → ℕ
inputs_length inputs = length (trim inputs.older_content) + length (trim inputs.newer_content)

unfoldable pub validate_merge : ProposedMerge → MergeInputs → Result MergeRejection ValidatedMerge
validate_merge proposed inputs = do
  ensure (not (is_empty (trim proposed.title))) empty_title
  ensure (not (is_empty (trim proposed.content))) empty_content
  ensure (not (is_empty proposed.evidence_ids)) uncited
  check_citations inputs.allowed_evidence proposed.evidence_ids >> (do
    ensure (ltb (length (trim proposed.content)) (inputs_length inputs))
        (not_shorter (length (trim proposed.content)) (inputs_length inputs))
    ensure (is_empty (missing_from proposed.evidence_ids inputs.unseen_evidence))
        (lost_new_evidence (missing_from proposed.evidence_ids inputs.unseen_evidence))
    ok (record {
      title = trim proposed.title;
      content = trim proposed.content;
      evidence_ids = dedup (sort_by ltb proposed.evidence_ids);
    }))
