-- ===== src/ProviderCache/Tests.antt =====
-- Runs of crates/brain-store/src/provider_cache.rs.
use agent_knowledge_base_cod.Common.{
  ◌≡◌, refl, sym, ◌+◌, false, true, none, some, [], ◌∷◌, Text, codes, ok, arith, unix_epoch, trim,
  timestamp_ns,
}
use agent_knowledge_base_cod.Domain.Harness.{claude_code, as_str}
use agent_knowledge_base_cod.ProviderCache.{
  ProviderCacheEntry, ProviderCacheStore, put, get, row_of, claim_first_prompt,
}
use agent_knowledge_base_cod.ProviderCache.Freshness.{get-put, claim_first_prompt-once}

abbrev test_entry : ProviderCacheEntry Text
test_entry = record {
  provider = codes "codegraph";
  project_id = 1;
  task_id = none;
  query_sha256 = 5;
  config_sha256 = 6;
  source_version = codes "v1";
  fetched_at = unix_epoch;
  expires_at = unix_epoch + 100;
  items = codes "[]";
}

abbrev empty_store : ProviderCacheStore
empty_store = record { project_id = 1; rows = []; prompts = [] }

abbrev test_store : ProviderCacheStore
test_store = record empty_store {
  rows = row_of Text some some test_entry unix_epoch (unix_epoch + 100) (codes "[]") ∷ [];
}

put_run : put Text some some test_entry empty_store ≡ ok test_store
unfolding put timestamp_ns trim
put_run = refl

get-put_example :
    get Text some some (codes "codegraph") 5 6 (codes "v1") (unix_epoch + 50) test_store
    ≡ ok (some test_entry)
get-put_example =
    get-put Text some some test_entry (unix_epoch + 50) empty_store (λ text e. sym e)
      (omega arith, omega arith) (omega arith) put_run

abbrev claimed_store : ProviderCacheStore
claimed_store = record empty_store {
  prompts =
      record {
        project_id = 1;
        harness = as_str claude_code;
        native_session_id = codes "s1";
        prompt_sha256 = 9;
        claimed_at_ns = unix_epoch;
      }
      ∷ [];
}

claim_run :
    claim_first_prompt claude_code (codes "s1") 9 unix_epoch empty_store ≡ ok (true, claimed_store)
unfolding claim_first_prompt timestamp_ns trim
claim_run = refl

claim_first_prompt-once_example :
    claim_first_prompt claude_code (codes "s1") 8 (unix_epoch + 1) claimed_store
    ≡ ok (false, claimed_store)
claim_first_prompt-once_example =
    claim_first_prompt-once claude_code (codes "s1") 9 8 unix_epoch (unix_epoch + 1) empty_store
      (omega arith, omega arith) claim_run
