-- ===== src/Coordination/Claims/Paths.antt =====
-- The functions of crates/brain-coordination/src/claims.rs on the text of a path.
pub mod Canonical
use agent_knowledge_base_cod.Common.{
  ℕ, ◌||◌, Bool, true, false, not, none, some, List, [], ◌∷◌, map, Text, codes, text_eq, is_empty,
  trim, trim_end, strip_prefix, split, join, Result, ok, err, ◌>>=◌, ◌>>◌, ensure, any, ◌==◌,
  if◌then◌else◌, refl, ◌≡◌,
}
use agent_knowledge_base_cod.Coordination.Model.{
  StoreError, path_empty, path_absolute, path_stream, path_escapes,
}

abbrev pub slash : ℕ
slash = b'/'

abbrev pub ignored_roots : List Text
ignored_roots =
    codes ".git"
    ∷ codes ".next"
    ∷ codes "build"
    ∷ codes "coverage"
    ∷ codes "dist"
    ∷ codes "node_modules"
    ∷ codes "target"
    ∷ codes "vendor"
    ∷ codes ".venv"
    ∷ codes "venv"
    ∷ []

abbrev pub starts_with_slash : Text → Bool
starts_with_slash [] = false
starts_with_slash (c ∷ s) = c == slash

-- `replace('\\', "/")`
abbrev pub forward : ℕ → ℕ
forward c = if c == b'\\' then slash else c

-- The `match component` of `normalize`.
abbrev pub is_skipped : Text → Bool
is_skipped component = is_empty component || text_eq component (codes ".")

abbrev pub is_parent : Text → Bool
is_parent component = text_eq component (codes "..")

module _ (lowercase : Text → Text) where
  unfoldable pub components : List Text → Result StoreError (List Text)
  components [] = ok []
  components (component ∷ rest) =
      let more = components rest in
      if is_skipped component
      then more
      else if is_parent component
      then err path_escapes
      else do cs ← more; ok (lowercase component ∷ cs)

  unfoldable pub normalize : Text → Result StoreError Text
  normalize value = do
    let replaced = map forward (trim value)
    ensure (not (is_empty replaced)) path_empty
    ensure (not (starts_with_slash replaced)) path_absolute
    ensure (not (any (λ c. c == b':') replaced)) path_stream
    cs ← components (split slash replaced)
    ensure (any (λ _. true) cs) path_empty
    ok (join slash cs)

abbrev pub first_piece : List Text → Text
first_piece [] = []
first_piece (piece ∷ pieces) = piece

unfoldable pub ignored : Text → Bool
ignored path = any (text_eq (first_piece (split slash path))) ignored_roots

unfoldable pub child_of : Text → Text → Bool
child_of candidate parent = elim (strip_prefix parent candidate) [
  | none ↦ false
  | some suffix ↦ starts_with_slash suffix
]

unfoldable pub related : Text → Text → Bool
related left right = text_eq left right || child_of left right || child_of right left

abbrev pub is_wildcard : ℕ → Bool
is_wildcard c = c == b'*' || c == b'?' || c == b'[' || c == b'{'

-- `&value[..boundary]`
abbrev pub before_wildcard : Text → Text
before_wildcard [] = []
before_wildcard (c ∷ s) = if is_wildcard c then [] else c ∷ before_wildcard s

unfoldable pub static_prefix : Text → Text
static_prefix value = trim_end (λ c. c == slash) (before_wildcard value)

normal : normalize (λ s. s) (codes " src\\.//a/ ") ≡ ok (codes "src/a")
unfolding normalize components trim
normal = refl

globbed : static_prefix (codes "src/*.rs") ≡ codes "src"
unfolding static_prefix
globbed = refl
