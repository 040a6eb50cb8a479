-- ===== src/Domain/Harness.antt =====
-- `Harness` of crates/brain-domain/src/event.rs, and the function that reads one back from a
-- column, which crates/brain-coordination/src/lease.rs and crates/brain-store/src/lifecycle.rs
-- both have.
use agent_knowledge_base_cod.Common.{
  ◌≡◌, refl, ap, Bool, true, false, arith, Text, codes, text_eq, text_eq_self, text_eq→≡,
  if◌then◌else◌,
}

pub data Harness : Type 0 where
  claude_code codex hermes : Harness
  other : Text → Harness

unfoldable pub as_str : Harness → Text
as_str claude_code = codes "claude-code"
as_str codex = codes "codex"
as_str hermes = codes "hermes"
as_str (other name) = name

-- `harness` in lease.rs, `parse_harness` in lifecycle.rs
unfoldable pub parse_harness : Text → Harness
parse_harness value =
    if text_eq value (codes "claude-code")
    then claude_code
    else if text_eq value (codes "codex")
    then codex
    else if text_eq value (codes "hermes")
    then hermes
    else other value

-- The derived `PartialEq`.
unfoldable pub harness_eq : Harness → Harness → Bool
harness_eq claude_code claude_code = true
harness_eq codex codex = true
harness_eq hermes hermes = true
harness_eq (other s) (other t) = text_eq s t
harness_eq _ _ = false

-- A harness that a column gives back: `other` does not carry one of the three known names.
abbrev pub IsCanonical : Harness → Type 0
IsCanonical h = parse_harness (as_str h) ≡ h

-- Every column value reads as some harness that is written back as the same text.
pub as_str-parse_harness : (value : Text) → as_str (parse_harness value) ≡ value
unfolding as_str parse_harness
as_str-parse_harness value = ground (
  arith,
  text_eq→≡ value (codes "claude-code"),
  text_eq→≡ value (codes "codex"),
  text_eq→≡ value (codes "hermes"),
)

-- What is read from a column is canonical.
pub parse_harness-IsCanonical : (value : Text) → IsCanonical (parse_harness value)
parse_harness-IsCanonical value = ap parse_harness (as_str-parse_harness value)

pub harness_eq→≡ : (g h : Harness) → harness_eq g h ≡ true → g ≡ h
unfolding harness_eq
harness_eq→≡ (other s) (other t) e = ap other (text_eq→≡ s t e)
harness_eq→≡ claude_code h e = ground arith
harness_eq→≡ codex h e = ground arith
harness_eq→≡ hermes h e = ground arith
harness_eq→≡ (other s) h e = ground arith

pub harness_eq_self : (h : Harness) → harness_eq h h ≡ true
unfolding harness_eq
harness_eq_self (other s) = text_eq_self s
harness_eq_self _ = refl
