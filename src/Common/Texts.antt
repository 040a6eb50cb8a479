-- ===== src/Common/Texts.antt =====
-- Rust's `str`, as the list of its Unicode scalar values, and the methods that the program calls.
use Prim.Native.Nat.{ℕ, ◌+◌, ◌≤◌}
use Prim.Native.Char.{code}
use Prim.Native.String.{String}
use mathlib.Core.Path.{◌≡◌, refl}
use mathlib.Core.Logic.{◌↔◌}
use mathlib.Core.Bool.{Bool, true, false, ◌&&◌, ◌||◌}
use mathlib.Core.List.{List, [], ◌∷◌, ◌++◌}
use mathlib.Core.Option.{Option, none, some}
use native.Mathlib.Omega.{arith}
use agent_knowledge_base_cod.Common.Tests.{leb, ltb, ◌==◌, if◌then◌else◌}

abbrev pub Text : Type 0
Text = List ℕ

abbrev pub codes : String → Text
codes String.[] = []
codes (String.◌∷◌ c s) = code c ∷ codes s

abbrev pub text_eq : Text → Text → Bool
text_eq [] [] = true
text_eq (a ∷ s) (b ∷ t) = a == b && text_eq s t
text_eq _ _ = false

pub text_eq→≡ : (s t : Text) → text_eq s t ≡ true → s ≡ t
text_eq→≡ [] [] h = refl
text_eq→≡ [] (b ∷ t) h = cc
text_eq→≡ (a ∷ s) [] h = cc
text_eq→≡ (a ∷ s) (b ∷ t) h = ground (arith, text_eq→≡ s t)

pub text_eq_self : (s : Text) → text_eq s s ≡ true
text_eq_self [] = refl
text_eq_self (a ∷ s) = ground (arith, text_eq_self s)

pub text_eq_iff : (s t : Text) → (text_eq s t ≡ true) ↔ (s ≡ t)
text_eq_iff s t = (text_eq→≡ s t, λ e. rw e (text_eq_self t))

pub text_eq_comm : (s t : Text) → text_eq s t ≡ text_eq t s
text_eq_comm [] [] = refl
text_eq_comm [] (b ∷ t) = refl
text_eq_comm (a ∷ s) [] = refl
text_eq_comm (a ∷ s) (b ∷ t) = ground (arith, text_eq_comm s t)

-- The order of `String`, whose bytes are in the order of the characters.
abbrev pub text_lt : Text → Text → Bool
text_lt [] [] = false
text_lt [] (b ∷ t) = true
text_lt (a ∷ s) [] = false
text_lt (a ∷ s) (b ∷ t) = ltb a b || (a == b && text_lt s t)

pub text_lt-irreflexive : (s : Text) → text_lt s s ≡ false
text_lt-irreflexive [] = refl
text_lt-irreflexive (a ∷ s) = ground (arith, text_lt-irreflexive s)

pub text_lt-transitive :
    (s t u : Text) → text_lt s t ≡ true → text_lt t u ≡ true → text_lt s u ≡ true
text_lt-transitive [] [] u h k = cc
text_lt-transitive [] (b ∷ t) [] h k = cc
text_lt-transitive [] (b ∷ t) (c ∷ u) h k = refl
text_lt-transitive (a ∷ s) [] u h k = cc
text_lt-transitive (a ∷ s) (b ∷ t) [] h k = cc
text_lt-transitive (a ∷ s) (b ∷ t) (c ∷ u) h k = ground (arith, text_lt-transitive s t u)

pub text_lt-connected :
    (s t : Text) → text_lt s t ≡ false → text_lt t s ≡ false → text_eq s t ≡ true
text_lt-connected [] [] h k = refl
text_lt-connected [] (b ∷ t) h k = cc
text_lt-connected (a ∷ s) [] h k = cc
text_lt-connected (a ∷ s) (b ∷ t) h k = ground (arith, text_lt-connected s t)

abbrev pub is_empty : Text → Bool
is_empty [] = true
is_empty (c ∷ s) = false

-- `char::is_whitespace`: the characters with the property White_Space.
unfoldable pub is_whitespace : ℕ → Bool
is_whitespace c =
    (leb 9 c && leb c 13)
    || (c == 32)
    || (c == 0x85)
    || (c == 0xA0)
    || (c == 0x1680)
    || (leb 0x2000 c && leb c 0x200A)
    || (c == 0x2028)
    || (c == 0x2029)
    || (c == 0x202F)
    || (c == 0x205F)
    || (c == 0x3000)

abbrev pub trim_start : (ℕ → Bool) → Text → Text
trim_start p [] = []
trim_start p (c ∷ s) = if p c then trim_start p s else c ∷ s

-- From the right: a character goes when all that follows it has gone.
abbrev pub trim_end : (ℕ → Bool) → Text → Text
trim_end p [] = []
trim_end p (c ∷ s) = let rest = trim_end p s in if is_empty rest && p c then [] else c ∷ rest

-- `str::trim`
unfoldable pub trim : Text → Text
unfolding is_whitespace
trim s = trim_end is_whitespace (trim_start is_whitespace s)

-- `s.trim().is_empty()`
abbrev pub is_blank : Text → Bool
is_blank s = is_empty (trim s)

-- The bytes of a character's UTF-8 form, counted.
abbrev pub utf8_len : ℕ → ℕ
utf8_len c = if leb c 0x7F then 1 else if leb c 0x7FF then 2 else if leb c 0xFFFF then 3 else 4

-- `str::len`
abbrev pub byte_len : Text → ℕ
byte_len [] = 0
byte_len (c ∷ s) = utf8_len c + byte_len s

-- `str::strip_prefix`
abbrev pub strip_prefix : Text → Text → Option Text
strip_prefix [] s = some s
strip_prefix (p ∷ ps) [] = none
strip_prefix (p ∷ ps) (c ∷ s) = if c == p then strip_prefix ps s else none

trimmed : trim (codes "  a b ") ≡ codes "a b"
unfolding trim
trimmed = refl

blank : is_blank (codes "   ") ≡ true
unfolding trim
blank = refl

-- `str::split` on one character: there is always a first piece.
abbrev pub prepend : ℕ → List Text → List Text
prepend c [] = (c ∷ []) ∷ []
prepend c (piece ∷ pieces) = (c ∷ piece) ∷ pieces

abbrev pub split : ℕ → Text → List Text
split sep [] = [] ∷ []
split sep (c ∷ s) = let rest = split sep s in if c == sep then [] ∷ rest else prepend c rest

-- `[&str]::join` with one character
abbrev pub join : ℕ → List Text → Text
join sep [] = []
join sep (piece ∷ []) = piece
join sep (piece ∷ next ∷ pieces) = piece ++ sep ∷ join sep (next ∷ pieces)

split_three : split b'/' (codes "a//b") ≡ codes "a" ∷ [] ∷ codes "b" ∷ []
split_three = refl

pub is_whitespace-letter : (c : ℕ) → 97 ≤ c → c ≤ 122 → is_whitespace c ≡ false
unfolding is_whitespace
is_whitespace-letter c low high = ground arith

-- What starts with something else than white space is not blank.
pub is_blank-cons : (c : ℕ) (s : Text) → is_whitespace c ≡ false → is_blank (c ∷ s) ≡ false
unfolding trim
is_blank-cons c s first = rw first (ground arith)
