-- ===== src/Context/Tests.antt =====
-- Memories on two subjects, and a context of two blocks.
use agent_knowledge_base_cod.Common.{
  ◌≡◌, refl, true, none, some, [], ◌∷◌, All, codes, unix_epoch, ◌+◌, count_where, is_whitespace,
}
use agent_knowledge_base_cod.Domain.Memory.{
  MemoryRecord, project, decision, derived_memory, human_correction, current, kind_as_str,
}
use agent_knowledge_base_cod.Context.{
  Lowercase, resolve_candidates, rendered_warning, standing, scoped,
}
use agent_knowledge_base_cod.Context.Compile.{
  token_count, ContextQuery, ContextBlock, CompiledContext, compile_blocks,
}
use agent_knowledge_base_cod.Context.Budget.{IsCompiled, compile_blocks-IsCompiled}
use agent_knowledge_base_cod.Context.Winners.{IsWinner, resolve_candidates-IsWinner}
use agent_knowledge_base_cod.Context.Partition.{count_found, resolve_candidates-count}

abbrev as_is : Lowercase
as_is s = s

abbrev derived : MemoryRecord
derived = record {
  id = 1;
  version_id = 11;
  scope = project 7;
  worktree_id = none;
  task_id = none;
  kind = decision;
  title = codes "use  wal";
  content = codes "off";
  valid_from = unix_epoch;
  valid_to = none;
  recorded_at = unix_epoch + 1;
  confidence = 0;
  authority = derived_memory;
  evidence_ids = [];
  supersedes = [];
  status = current;
}

abbrev corrected : MemoryRecord
corrected = record derived {
  id = 2;
  version_id = 12;
  title = codes "use wal";
  content = codes "on";
  recorded_at = unix_epoch;
  authority = human_correction;
}

abbrev ended : MemoryRecord
ended = record derived { id = 3; version_id = 13; valid_to = some (unix_epoch + 2) }

abbrev rival : MemoryRecord
rival = record derived { id = 4; version_id = 14; title = codes "port"; content = codes "80" }

abbrev other_rival : MemoryRecord
other_rival = record rival { id = 5; version_id = 15; content = codes "90" }

resolved :
    resolve_candidates as_is 7
      (unix_epoch + 5)
      (derived ∷ rival ∷ ended ∷ corrected ∷ other_rival ∷ [])
    ≡ record {
      current = corrected ∷ [];
      historical = ended ∷ derived ∷ [];
      conflicts =
          record { subject = codes "decision:port"; records = other_rival ∷ rival ∷ [] } ∷ [];
    }
unfolding resolve_candidates is_whitespace kind_as_str
resolved = refl

warned :
    rendered_warning (record {
      current = corrected ∷ [];
      historical = derived ∷ [];
      conflicts = record { subject = codes "decision:port"; records = rival ∷ [] } ∷ [];
    })
    ≡ codes "unresolved conflict for decision:port: 80; historical or lower-authority memory: off"
unfolding rendered_warning
warned = refl

resolve_candidates-IsWinner_example :
    All
      (IsWinner as_is (standing 7 (unix_epoch + 5) (derived ∷ corrected ∷ ended ∷ [])))
      (resolve_candidates as_is 7 (unix_epoch + 5) (derived ∷ corrected ∷ ended ∷ [])).current
resolve_candidates-IsWinner_example =
    resolve_candidates-IsWinner as_is 7 (unix_epoch + 5) (derived ∷ corrected ∷ ended ∷ [])

resolve_candidates-count_example :
    count_found
      (λ r. true)
      (resolve_candidates as_is 7 (unix_epoch + 5) (derived ∷ corrected ∷ ended ∷ []))
    ≡ count_where (λ r. true) (scoped 7 (derived ∷ corrected ∷ ended ∷ []))
resolve_candidates-count_example =
    resolve_candidates-count (λ r. true) as_is 7 (unix_epoch + 5) (derived ∷ corrected ∷ ended ∷ [])

counted : token_count (codes "one two_three\n\n: é") ≡ 7
unfolding token_count is_whitespace
counted = refl

abbrev asked : ContextQuery
asked = record {
  project_id = 7;
  worktree_id = 3;
  native_session_id = none;
  prompt = none;
  paths = [];
  as_of = none;
  max_tokens = 60;
}

abbrev short_block : ContextBlock
short_block = record {
  section = codes "Now";
  content = codes "wal is on";
  citations = record { key = codes "event:1"; detail = codes "codex" } ∷ [];
  event_ids = 1 ∷ 1 ∷ [];
  memory_version_ids = [];
}

abbrev long_block : ContextBlock
long_block = record short_block {
  content =
      codes
        "one two three four five six seven eight nine ten one two three four five six seven eight nine ten";
  event_ids = 2 ∷ [];
}

-- The long block does not fit, and the index of citations does.
abbrev compiled : CompiledContext
compiled = compile_blocks (λ id. codes "p") asked (long_block ∷ short_block ∷ [])

one_credited : compiled.evidence_ids ≡ 1 ∷ []
unfolding compile_blocks token_count is_whitespace
one_credited = refl

one_truncated : compiled.truncated ≡ true
unfolding compile_blocks token_count is_whitespace
one_truncated = refl

compile_blocks-IsCompiled_example :
    IsCompiled (λ id. codes "p") asked (long_block ∷ short_block ∷ []) compiled
compile_blocks-IsCompiled_example =
    compile_blocks-IsCompiled (λ id. codes "p") asked (long_block ∷ short_block ∷ [])
