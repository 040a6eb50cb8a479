-- ===== src/Merge/Tests.antt =====
-- A run of crates/brain-context/src/merge.rs.
use agent_knowledge_base_cod.Common.{◌≡◌, refl, [], ◌∷◌, codes, ok, trim}
use agent_knowledge_base_cod.Merge.{ProposedMerge, MergeInputs, ValidatedMerge, validate_merge}
use agent_knowledge_base_cod.Merge.Soundness.{IsSound, validate_merge-IsSound}

abbrev test_proposed : ProposedMerge
test_proposed = record {
  title = codes " deploys ";
  content = codes "commits deploy";
  evidence_ids = 3 ∷ 1 ∷ 3 ∷ [];
}

abbrev test_inputs : MergeInputs
test_inputs = record {
  older_content = codes "the hook runs";
  newer_content = codes "the hook deploys";
  allowed_evidence = 1 ∷ 2 ∷ 3 ∷ [];
  unseen_evidence = 3 ∷ [];
}

abbrev test_merged : ValidatedMerge
test_merged = record {
  title = codes "deploys";
  content = codes "commits deploy";
  evidence_ids = 1 ∷ 3 ∷ [];
}

merge_run : validate_merge test_proposed test_inputs ≡ ok test_merged
unfolding validate_merge trim
merge_run = refl

validate_merge-IsSound_example : IsSound test_proposed test_inputs test_merged
validate_merge-IsSound_example = validate_merge-IsSound test_proposed test_inputs merge_run
