-- ===== src/Domain/Slug.antt =====
-- The names of the projected notes, in crates/brain-domain/src/memory.rs.
use agent_knowledge_base_cod.Common.{
  ℕ, ◌+◌, ◌≡◌, ◌==◌, ◌≤◌, ◌<◌, ◌||◌, ◌&&◌, not, refl, Bool, Bool-cases, true, false, arith, [], ◌∷◌,
  ◌++◌, length, length-append, is_nil, is_empty, All, All-append, Text, codes, inl, inr,
  if◌then◌else◌, leb, trim_start, trim_end, take, join, Time, Option, some, none,
}
use agent_knowledge_base_cod.Domain.Memory.{
  Uuid, MemoryRecord, MemoryScope, project, global_preferences, kind_as_str,
}

abbrev dash : ℕ
dash = 45

abbrev is_ascii_lower : ℕ → Bool
is_ascii_lower c = leb 97 c && leb c 122

abbrev is_ascii_digit : ℕ → Bool
is_ascii_digit c = leb 48 c && leb c 57

abbrev is_ascii_upper : ℕ → Bool
is_ascii_upper c = leb 65 c && leb c 90

abbrev pub is_ascii_alphanumeric : ℕ → Bool
is_ascii_alphanumeric c = is_ascii_lower c || is_ascii_upper c || is_ascii_digit c

-- `char::to_lowercase` of an ASCII letter or digit.
abbrev pub to_lowercase : ℕ → ℕ
to_lowercase c = if is_ascii_upper c then c + 32 else c

-- The slug once a letter or digit is pushed, after the dash that is due.
abbrev pub push_character : Bool → Text → ℕ → Text
push_character pending_dash slug c =
    (if pending_dash && not (is_nil slug) then slug ++ (dash ∷ []) else slug)
    ++ (to_lowercase c ∷ [])

-- `for character in title.chars()`
abbrev pub slug_loop : Text → Bool → Text → Text
slug_loop [] pending_dash slug = slug
slug_loop (c ∷ cs) pending_dash slug =
    let pushed = slug_loop cs false (push_character pending_dash slug c) in
    let skipped = slug_loop cs true slug in
    if is_ascii_alphanumeric c
    then (if leb 80 (length (push_character pending_dash slug c))
        then push_character pending_dash slug c
        else pushed)
    else skipped

-- `trim_matches('-')`
abbrev pub trim_dashes : Text → Text
trim_dashes s = trim_end (λ (c : ℕ). c == dash) (trim_start (λ (c : ℕ). c == dash) s)

unfoldable pub slugify : Text → Text
slugify title = trim_dashes (slug_loop title false [])

-- `projection_file_name`: the slug, a dash and the first eight digits of the id.
unfoldable pub projection_file_name : Text → Text → Text
unfolding slugify
projection_file_name title simple_id =
    if is_nil (slugify title)
    then take 8 simple_id ++ codes ".md"
    else slugify title ++ (dash ∷ []) ++ take 8 simple_id ++ codes ".md"

-- The `uuid` and `time` crates' part of a note's path, and the order of `PathBuf`.
pub record PathApi : Type 0 where
  pub simple : Uuid → Text
  pub hyphenated : Uuid → Text
  -- The instant that `get_timestamp` gives, where the id carries one that is a date.
  pub timestamp : Uuid → Option Time
  -- `{:04}` of the year, `{:02}` of the month
  pub year : Time → Text
  pub month : Time → Text
  pub path_before : Text → Text → Bool

abbrev slash : ℕ
slash = 47

abbrev partition_time : PathApi → MemoryRecord → Time
partition_time api memory = elim (api.timestamp memory.id) [ some t ↦ t | none ↦ memory.valid_from ]

abbrev root : PathApi → MemoryScope → Text
root api (project project_id) = codes "projects" ++ (slash ∷ []) ++ api.hyphenated project_id
root api global_preferences = codes "global-preferences"

unfoldable pub projection_path : PathApi → MemoryRecord → Text
unfolding projection_file_name
projection_path api memory = join slash (
    root api memory.scope
    ∷ codes "generated"
    ∷ kind_as_str memory.kind
    ∷ api.year (partition_time api memory)
    ∷ api.month (partition_time api memory)
    ∷ projection_file_name memory.title (api.simple memory.id)
    ∷ [])

abbrev is_slug_char : ℕ → Bool
is_slug_char c = is_ascii_lower c || is_ascii_digit c || (c == dash)

abbrev IsSlug : Text → Type 0
IsSlug s = (length s ≤ 81) × All (λ (c : ℕ). is_slug_char c ≡ true) s

module _ (p : ℕ → Bool) where
  length-trim_start : (s : Text) → length (trim_start p s) ≤ length s
  length-trim_start [] = omega arith
  length-trim_start (c ∷ s) = ground (arith, length-trim_start s)

  length-trim_end : (s : Text) → length (trim_end p s) ≤ length s
  length-trim_end [] = omega arith
  length-trim_end (c ∷ s) = ground (arith, length-trim_end s)

  module _ {κ} (P : ℕ → Type κ) where
    All-trim_start : (s : Text) → All P s → All P (trim_start p s)
    All-trim_start [] h = h
    All-trim_start (c ∷ s) h = ground (arith, All-trim_start s h.1)

    All-trim_end : (s : Text) → All P s → All P (trim_end p s)
    All-trim_end [] h = h
    All-trim_end (c ∷ s) h = elim (Bool-cases (is_empty (trim_end p s) && p c)) [
      | inl gone ↦ rw gone tt
      | inr kept ↦ rw kept (h.0, All-trim_end s h.1)
    ]

lowercase-is_slug_char :
    (c : ℕ) → is_ascii_alphanumeric c ≡ true → is_slug_char (to_lowercase c) ≡ true
lowercase-is_slug_char c h = ground arith

append-IsSlug :
    (slug : Text) (c : ℕ)
    → is_ascii_alphanumeric c ≡ true
    → length slug ≤ 80
    → All (λ (d : ℕ). is_slug_char d ≡ true) slug
    → IsSlug (slug ++ (to_lowercase c ∷ []))
append-IsSlug slug c letter short chars = (
  omega (arith, short, length-append slug (to_lowercase c ∷ [])),
  All-append (λ (d : ℕ). is_slug_char d ≡ true) slug (to_lowercase c ∷ []) chars
      (lowercase-is_slug_char c letter, tt),
)

push-IsSlug :
    (pending_dash : Bool) (slug : Text) (c : ℕ)
    → is_ascii_alphanumeric c ≡ true
    → length slug < 80
    → All (λ (d : ℕ). is_slug_char d ≡ true) slug
    → IsSlug (push_character pending_dash slug c)
push-IsSlug pending_dash slug c letter short chars =
    elim (Bool-cases (pending_dash && not (is_nil slug))) [
      | inl due ↦ rw due (
          append-IsSlug (slug ++ (dash ∷ [])) c letter
            (omega (arith, short, length-append slug (dash ∷ [])))
            (All-append (λ (d : ℕ). is_slug_char d ≡ true) slug (dash ∷ []) chars (refl, tt)))
      | inr none_due ↦ rw none_due (append-IsSlug slug c letter (omega (arith, short)) chars)
    ]

slug_loop-IsSlug :
    (title : Text) (pending_dash : Bool) (slug : Text)
    → length slug < 80
    → All (λ (d : ℕ). is_slug_char d ≡ true) slug
    → IsSlug (slug_loop title pending_dash slug)
slug_loop-IsSlug [] pending_dash slug short chars = (omega arith, chars)
slug_loop-IsSlug (c ∷ cs) pending_dash slug short chars =
    elim (Bool-cases (is_ascii_alphanumeric c)) [
      | inl letter ↦ elim (Bool-cases (leb 80 (length (push_character pending_dash slug c)))) [
        | inl full ↦ rw (letter, full) (push-IsSlug pending_dash slug c letter short chars)
        | inr room ↦
            rw (letter, room)
              (slug_loop-IsSlug cs false (push_character pending_dash slug c) (ground arith)
                (push-IsSlug pending_dash slug c letter short chars).1)
      ]
      | inr skipped ↦ rw skipped (slug_loop-IsSlug cs true slug short chars)
    ]

-- A slug has at most 81 characters, each a lower-case ASCII letter, a digit or a dash.
slugify-IsSlug : (title : Text) → IsSlug (slugify title)
unfolding slugify
slugify-IsSlug title = (
  omega (
    arith,
    length-trim_end is_dash (trim_start is_dash whole),
    length-trim_start is_dash whole,
    looped.0,
  ),
  All-trim_end is_dash (λ (c : ℕ). is_slug_char c ≡ true) (trim_start is_dash whole)
      (All-trim_start is_dash (λ (c : ℕ). is_slug_char c ≡ true) whole looped.1),
)
  where
    is_dash : ℕ → Bool
    is_dash c = c == dash

    whole : Text
    whole = slug_loop title false []

    looped : IsSlug whole
    looped = slug_loop-IsSlug title false [] (omega arith) tt
