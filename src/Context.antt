-- ===== src/Context.antt =====
-- What crates/brain-context/src/supersession.rs makes of the memories that a query found: for each
-- subject the current one, a conflict, or history. The ranks are those of authority.rs beside it.
-- `Lowercase` stands for `str::to_lowercase`. A BTreeMap is an association list that is sorted by its
-- keys when it is read. `Compile` is the writing of a context.
pub mod Groups
pub mod Ranked
pub mod Winners
pub mod Partition
pub mod Compile
pub mod Budget
mod Tests
use agent_knowledge_base_cod.Common.{
  ℕ, ◌+◌, ◌-◌, ◌^◌, ◌==◌, ◌&&◌, ◌||◌, not, Bool, true, false, Option, none, some, List, [], ◌∷◌,
  ◌++◌, length, map, filter, any, is_nil, drop, sort_by, ltb, leb, if◌then◌else◌, Text, codes,
  text_eq, text_lt, is_whitespace, Time,
}
use agent_knowledge_base_cod.Domain.Memory.{
  Uuid, kind_as_str, MemoryScope, project, global_preferences, Authority, external_document,
  derived_memory, agent_checkpoint, human_correction, raw_mechanical_evidence, live_state,
  is_readable, MemoryRecord,
}

abbrev pub Lowercase : Type 0
Lowercase = Text → Text

abbrev pub authority_rank : Authority → ℕ
authority_rank external_document = 0
authority_rank derived_memory = 1
authority_rank agent_checkpoint = 2
authority_rank human_correction = 3
authority_rank raw_mechanical_evidence = 4
authority_rank live_state = 5

abbrev pub rank : MemoryRecord → ℕ
rank record_ = authority_rank record_.authority

pub record MemoryConflict : Type 0 where
  pub subject : Text
  pub records : List MemoryRecord

pub record ResolvedMemorySet : Type 0 where
  pub current : List MemoryRecord
  pub historical : List MemoryRecord
  pub conflicts : List MemoryConflict

-- `str::split_whitespace`: the pieces that are not empty. The first argument is the piece begun.
abbrev words_from : Text → Text → List Text
words_from begun [] = if is_nil begun then [] else begun ∷ []
words_from begun (c ∷ s) =
    let next = words_from [] s in
    let more = words_from (begun ++ (c ∷ [])) s in
    if is_whitespace c then (if is_nil begun then next else begun ∷ next) else more

abbrev pub split_whitespace : Text → List Text
split_whitespace s = words_from [] s

-- `[String]::join`
abbrev pub join_with : Text → List Text → Text
join_with separator [] = []
join_with separator (piece ∷ []) = piece
join_with separator (piece ∷ next ∷ pieces) =
    piece ++ separator ++ join_with separator (next ∷ pieces)

-- `f32::total_cmp` on the bits: a set sign is below, the larger magnitude first.
abbrev pub total_order : ℕ → ℕ
total_order bits = if ltb bits (2 ^ 31) then bits + 2 ^ 31 else 2 ^ 32 - 1 - bits

-- `compare_priority` is `Less`.
abbrev pub is_prior : MemoryRecord → MemoryRecord → Bool
is_prior left right =
    ltb (rank right) (rank left)
    || (rank right == rank left
        && (ltb right.recorded_at left.recorded_at
            || (right.recorded_at == left.recorded_at
                && (ltb (total_order right.confidence) (total_order left.confidence)
                    || (total_order right.confidence == total_order left.confidence
                        && ltb right.version_id left.version_id)))))

abbrev pub in_scope : Uuid → MemoryScope → Bool
in_scope project_id (project id) = id == project_id
in_scope project_id global_preferences = false

abbrev pub is_open : Time → Option Time → Bool
is_open as_of none = true
is_open as_of (some valid_to) = ltb as_of valid_to

abbrev pub is_valid : Time → MemoryRecord → Bool
is_valid as_of record_ =
    leb record_.valid_from as_of && is_open as_of record_.valid_to && is_readable record_.status

abbrev pub is_superseded : List MemoryRecord → MemoryRecord → Bool
is_superseded active record_ =
    any (λ (r : MemoryRecord). any (λ (id : Uuid). id == record_.version_id) r.supersedes) active

-- The candidates of the project, those of them that are valid, and those that none of these supersedes.
abbrev pub scoped : Uuid → List MemoryRecord → List MemoryRecord
scoped project_id candidates = filter (λ (r : MemoryRecord). in_scope project_id r.scope) candidates

abbrev pub active : Uuid → Time → List MemoryRecord → List MemoryRecord
active project_id as_of candidates = filter (is_valid as_of) (scoped project_id candidates)

abbrev pub standing : Uuid → Time → List MemoryRecord → List MemoryRecord
standing project_id as_of candidates =
    let valid = active project_id as_of candidates in
    filter (λ r. not (is_superseded valid r)) valid

abbrev pub Groups : Type 0
Groups = List (Text × List MemoryRecord)

-- `groups.entry(key).or_default().push(record)`
abbrev pub push_group : Text → MemoryRecord → Groups → Groups
push_group key record_ [] = (key, record_ ∷ []) ∷ []
push_group key record_ ((other, records) ∷ groups) =
    let rest = push_group key record_ groups in
    if text_eq other key
    then (other, records ++ (record_ ∷ [])) ∷ groups
    else (other, records) ∷ rest

abbrev pub take_while {ℓ} : {A : Type ℓ} → (A → Bool) → List A → List A
take_while p [] = []
take_while p (x ∷ xs) = let rest = take_while p xs in if p x then x ∷ rest else []

abbrev pub highest_rank : List MemoryRecord → ℕ
highest_rank [] = 0
highest_rank (first ∷ rest) = rank first

-- The contents that a HashSet keeps.
abbrev pub distinct : List Text → List Text
distinct [] = []
distinct (s ∷ ss) =
    let rest = distinct ss in if any (λ (t : Text). text_eq s t) ss then rest else s ∷ rest

abbrev pub is_before : Text × List MemoryRecord → Text × List MemoryRecord → Bool
is_before a b = text_lt a.0 b.0

-- The order of `historical`: the later recorded first.
abbrev pub is_later : MemoryRecord → MemoryRecord → Bool
is_later left right =
    ltb right.recorded_at left.recorded_at
    || (right.recorded_at == left.recorded_at && ltb right.version_id left.version_id)

-- The one of `contenders` that is current, where they do not disagree, and what is history then.
abbrev pub settle : List MemoryRecord → List MemoryRecord → ResolvedMemorySet → ResolvedMemorySet
settle [] rest found = record found { historical = found.historical ++ rest }
settle (winner ∷ others) rest found = record found {
  current = found.current ++ (winner ∷ []);
  historical = (found.historical ++ others) ++ rest;
}

module _ (lowercase : Lowercase) where
  abbrev pub normalize_content : Text → Text
  normalize_content content = lowercase (join_with (codes " ") (split_whitespace content))

  abbrev pub subject_key : MemoryRecord → Text
  subject_key record_ = kind_as_str record_.kind ++ codes ":" ++ normalize_content record_.title

  -- The loop over `active`.
  abbrev pub group_all : List MemoryRecord → Groups → Groups
  group_all [] groups = groups
  group_all (r ∷ rs) groups = group_all rs (push_group (subject_key r) r groups)

  abbrev pub disagree : List MemoryRecord → Bool
  disagree contenders =
      ltb 1 (length (distinct (map (λ (r : MemoryRecord). normalize_content r.content) contenders)))

  -- The body of the loop over `groups`, for sorted records.
  abbrev pub resolve_sorted : Text → List MemoryRecord → ResolvedMemorySet → ResolvedMemorySet
  resolve_sorted subject records found =
      let contenders = take_while (λ r. rank r == highest_rank records) records in
      let rest = drop (length contenders) records in
      if disagree contenders
      then record found {
        conflicts = found.conflicts ++ (record { subject = subject; records = contenders } ∷ []);
        historical = found.historical ++ rest;
      }
      else settle contenders rest found

  abbrev pub resolve_groups : Groups → ResolvedMemorySet → ResolvedMemorySet
  resolve_groups [] found = found
  resolve_groups ((subject, records) ∷ groups) found =
      resolve_groups groups (resolve_sorted subject (sort_by is_prior records) found)

  abbrev pub sort_found : ResolvedMemorySet → ResolvedMemorySet
  sort_found found = record {
    current = sort_by (λ a b. text_lt (subject_key a) (subject_key b)) found.current;
    historical = sort_by is_later found.historical;
    conflicts = sort_by (λ (a b : MemoryConflict). text_lt a.subject b.subject) found.conflicts;
  }

  unfoldable pub resolve_candidates : Uuid → Time → List MemoryRecord → ResolvedMemorySet
  resolve_candidates project_id as_of candidates =
      let valid = active project_id as_of candidates in
      let historical =
        filter (λ r. not (is_valid as_of r)) (scoped project_id candidates)
        ++ filter (is_superseded valid) valid in
      sort_found (
        resolve_groups (sort_by is_before (group_all (standing project_id as_of candidates) []))
          (record { current = []; historical = historical; conflicts = [] }))

-- `ResolvedMemorySet::rendered_warning`
abbrev contents : List MemoryRecord → Text
contents records = join_with (codes " | ") (map (λ (r : MemoryRecord). r.content) records)

abbrev conflict_warning : MemoryConflict → Text
conflict_warning conflict =
    codes "unresolved conflict for " ++ conflict.subject ++ codes ": " ++ contents conflict.records

unfoldable pub rendered_warning : ResolvedMemorySet → Text
rendered_warning resolved = join_with (codes "; ") (
    map conflict_warning resolved.conflicts
    ++ (if is_nil resolved.historical
        then []
        else (codes "historical or lower-authority memory: " ++ contents resolved.historical) ∷ []))
