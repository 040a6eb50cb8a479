-- ===== src/Coordination/Claims/Overlap.antt =====
-- `overlap` of crates/brain-coordination/src/claims.rs.
pub mod Symmetry
pub mod Coverage
use agent_knowledge_base_cod.Common.{
  ℕ, ◌&&◌, ◌||◌, Bool, true, false, not, Option, some, Text, text_eq, is_empty, ltb, ◌==◌,
  if◌then◌else◌,
}
use agent_knowledge_base_cod.Coordination.Model.{ClaimKind, directory, glob, symbol, PathClaim}
use agent_knowledge_base_cod.Coordination.Claims.Paths.{ignored, related, child_of, static_prefix}

-- The enum `Overlap`; `no_overlap` is its `None`.
pub data Level : Type 0 where
  is_ignored no_overlap possible probable definite : Level

-- The derived order is that of the declaration.
abbrev pub rank : Level → ℕ
rank is_ignored = 0
rank no_overlap = 1
rank possible = 2
rank probable = 3
rank definite = 4

abbrev pub level_lt : Level → Level → Bool
level_lt a b = ltb (rank a) (rank b)

abbrev pub is_symbol : ClaimKind → Bool
is_symbol symbol = true
is_symbol _ = false

abbrev pub is_glob : ClaimKind → Bool
is_glob glob = true
is_glob _ = false

abbrev pub is_directory : ClaimKind → Bool
is_directory directory = true
is_directory _ = false

-- `left.symbol.is_some() && left.symbol == right.symbol`
abbrev pub same_symbol : Option Text → Option Text → Bool
same_symbol (some a) (some b) = text_eq a b
same_symbol _ _ = false

abbrev pub overlap_symbols : PathClaim → PathClaim → Level
overlap_symbols left right =
    if text_eq left.normalized_value right.normalized_value && same_symbol left.symbol right.symbol
    then definite
    else if related left.normalized_value right.normalized_value
    then possible
    else no_overlap

abbrev pub overlap_globs : PathClaim → PathClaim → Level
overlap_globs left right =
    let left_prefix = static_prefix left.normalized_value in
    let right_prefix = static_prefix right.normalized_value in
    if is_empty left_prefix || is_empty right_prefix
    then possible
    else if related left_prefix right_prefix
    then probable
    else no_overlap

abbrev pub overlap_paths : PathClaim → PathClaim → Level
overlap_paths left right =
    if text_eq left.normalized_value right.normalized_value
    then definite
    else if is_directory left.kind && child_of right.normalized_value left.normalized_value
    then definite
    else if is_directory right.kind && child_of left.normalized_value right.normalized_value
    then definite
    else no_overlap

unfoldable pub overlap : PathClaim → PathClaim → Level
overlap left right =
    if ignored left.normalized_value || ignored right.normalized_value
    then is_ignored
    else if not (left.project_id == right.project_id)
    then no_overlap
    else if is_symbol left.kind || is_symbol right.kind
    then overlap_symbols left right
    else if is_glob left.kind || is_glob right.kind
    then overlap_globs left right
    else overlap_paths left right
