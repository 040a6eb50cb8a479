-- ===== src/Memory/Tests.antt =====
-- A ledger that gets a memory, forgets it and evicts another, in crates/brain-store/src.
use agent_knowledge_base_cod.Common.{
  ℕ, ◌+◌, ◌*◌, ◌≡◌, refl, true, none, [], ◌∷◌, ◌++◌, length, codes, Time, ns_per_day, unix_epoch,
  timestamp_ns, sub_time, trim, ok, ltb, All, arith, is_blank, false,
}
use agent_knowledge_base_cod.Domain.Memory.{
  MemoryRecord, project, decision, derived_memory, current, authority_as_str, status_as_str,
  kind_as_str, authority_from_name, status_from_name, kind_from_name,
}
use agent_knowledge_base_cod.Domain.Slug.{PathApi, projection_path, projection_file_name, slugify}
use agent_knowledge_base_cod.Memory.{VersionRow, Ledger, is_withdrawn, Tombstone}
use agent_knowledge_base_cod.Memory.Append.{append_memory, insert_memory, validate_record}
use agent_knowledge_base_cod.Memory.Reads.{current_project_memories, current_memory, parse}
use agent_knowledge_base_cod.Memory.Forget.{forget_memory}
use agent_knowledge_base_cod.Memory.Eviction.{EvictionPlan, plan_eviction, apply_eviction, opened}
use agent_knowledge_base_cod.Memory.Replay.{append_memory-append_memory}
use agent_knowledge_base_cod.Memory.Versions.{IsNumbered, append_memory-IsNumbered}
use agent_knowledge_base_cod.Memory.Standing.{
  IsServed, current_project_memories-IsServed, forget_memory-forget_memory,
}
use agent_knowledge_base_cod.Memory.Retiring.{IsSpared, is_spared, apply_eviction-IsSpared}
use agent_knowledge_base_cod.Memory.Retired.{apply_eviction-retires}

abbrev plain_paths : PathApi
plain_paths = record {
  simple = λ id. codes "0123456789";
  hyphenated = λ id. codes "0123-4567";
  timestamp = λ id. none;
  year = λ t. codes "1970";
  month = λ t. codes "01";
  path_before = λ p q. ltb (length p) (length q);
}

-- The day with a number, counted from the Unix epoch.
abbrev day : ℕ → Time
day n = unix_epoch + n * ns_per_day

abbrev lesson : MemoryRecord
lesson = record {
  id = 5;
  version_id = 50;
  scope = project 7;
  worktree_id = none;
  task_id = none;
  kind = decision;
  title = codes "Use SQLite";
  content = codes "One file for each project.";
  valid_from = day 1;
  valid_to = none;
  recorded_at = day 1;
  confidence = 0x3F000000;
  authority = derived_memory;
  evidence_ids = 1 ∷ [];
  supersedes = [];
  status = current;
}

abbrev empty_ledger : Ledger
empty_ledger = record {
  project_scope = 7;
  events = record { event_id = 1; project_id = 7 } ∷ [];
  memory_records = [];
  memory_versions = [];
  memory_evidence = [];
  memory_supersession = [];
  memory_tombstones = [];
  memory_access = [];
  access_epoch = day 0;
  search_cache = [];
}

abbrev lesson_version : VersionRow
lesson_version = record {
  version_id = 50;
  memory_id = 5;
  version_number = 1;
  worktree_id = none;
  task_id = none;
  title = codes "Use SQLite";
  content = codes "One file for each project.";
  valid_from_ns = day 1;
  valid_to_ns = none;
  recorded_at_ns = day 1;
  confidence = 0x3F000000;
  authority = codes "derived_memory";
  status = codes "current";
}

abbrev ledger_with_lesson : Ledger
ledger_with_lesson = record empty_ledger {
  memory_records =
      record {
        memory_id = 5;
        project_id = 7;
        kind = codes "decision";
        projection_path =
            codes "projects/0123-4567/generated/decision/1970/01/use-sqlite-01234567.md";
        created_at_ns = day 1;
      }
      ∷ [];
  memory_versions = lesson_version ∷ [];
  memory_evidence = record { version_id = 50; other = 1 } ∷ [];
}

appended : append_memory plain_paths lesson empty_ledger ≡ ok ledger_with_lesson
unfolding append_memory validate_record insert_memory trim timestamp_ns projection_path
    projection_file_name slugify kind_as_str authority_as_str status_as_str
appended = refl

append_memory-append_memory_example :
    append_memory plain_paths lesson ledger_with_lesson ≡ ok ledger_with_lesson
append_memory-append_memory_example =
    append_memory-append_memory plain_paths lesson empty_ledger ledger_with_lesson appended

append_memory-IsNumbered_example : IsNumbered (lesson_version ∷ [])
append_memory-IsNumbered_example =
    append_memory-IsNumbered plain_paths lesson empty_ledger ledger_with_lesson appended tt

stands : current_project_memories plain_paths ledger_with_lesson ≡ ok (lesson ∷ [])
unfolding current_project_memories parse kind_from_name authority_from_name status_from_name
stands = refl

current_project_memories-IsServed_example : All (IsServed ledger_with_lesson) (lesson ∷ [])
current_project_memories-IsServed_example =
    current_project_memories-IsServed plain_paths ledger_with_lesson (lesson ∷ []) stands

abbrev withdrawal : Tombstone
withdrawal = record {
  memory_id = 5;
  project_id = 7;
  reason = codes "wrong";
  redacted_by = codes "ann";
  redacted_at_ns = day 2;
}

abbrev ledger_without_lesson : Ledger
ledger_without_lesson = record ledger_with_lesson { memory_tombstones = withdrawal ∷ [] }

forgot :
    forget_memory 5 (codes " wrong ") (codes "ann") (day 2) ledger_with_lesson
    ≡ (ok withdrawal, ledger_without_lesson)
unfolding forget_memory trim timestamp_ns
forgot = refl

reason_given : is_blank (codes "again") ≡ false
unfolding trim
reason_given = refl

forget_memory-forget_memory_example :
    (current_memory 5 ledger_without_lesson ≡ ok none)
    × (is_withdrawn ledger_without_lesson 5 ≡ true)
    × (forget_memory 5 (codes "again") (codes "bob") (day 3) ledger_without_lesson
        ≡ (ok withdrawal, ledger_without_lesson))
forget_memory-forget_memory_example =
    forget_memory-forget_memory 5 (codes " wrong ") (codes "again") (codes "ann") (codes "bob")
      (day 2) (day 3) withdrawal ledger_with_lesson ledger_without_lesson forgot reason_given
      (omega arith)

-- A memory that a person wrote.
abbrev ledger_with_correction : Ledger
ledger_with_correction = record ledger_with_lesson {
  memory_versions = record lesson_version { authority = codes "human_correction" } ∷ [];
}

spared : is_spared (day 400) ledger_with_correction 5 ≡ true
unfolding authority_as_str
spared = refl

apply_eviction-IsSpared_example :
    IsSpared 5 ledger_with_correction
      (apply_eviction (λ n. []) (day 400) (codes "policy") ledger_with_correction).1
apply_eviction-IsSpared_example =
    apply_eviction-IsSpared (λ n. []) (day 400) (codes "policy") ledger_with_correction 5 spared

abbrev lesson_plan : EvictionPlan
lesson_plan = record {
  observed_days = 400;
  gate = opened;
  candidates =
      record {
        memory_id = 5;
        title = codes "Use SQLite";
        valid_from = day 1;
        age_days = 399;
        reason = codes "never retrieved in " ++ codes " days";
      }
      ∷ [];
  protected = 0;
  total_current = 1;
}

planned : plan_eviction (λ n. []) (day 400) ledger_with_lesson ≡ ok lesson_plan
unfolding plan_eviction sub_time timestamp_ns authority_as_str
planned = refl

apply_eviction-retires_example :
    ((apply_eviction (λ n. []) (day 400) (codes "policy") ledger_with_lesson).0 ≡ ok 1)
    × ((is_withdrawn (apply_eviction (λ n. []) (day 400) (codes "policy") ledger_with_lesson).1 5
          ≡ true)
        × Unit {0})
apply_eviction-retires_example =
    apply_eviction-retires (λ n. []) (day 400) (codes "policy") ledger_with_lesson lesson_plan
      planned (omega arith) (omega arith) tt
