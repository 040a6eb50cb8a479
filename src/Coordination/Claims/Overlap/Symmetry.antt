-- ===== src/Coordination/Claims/Overlap/Symmetry.antt =====
-- Which of two claims is asked first does not matter.
use agent_knowledge_base_cod.Common.{◌≡◌, refl, Option, none, some, arith, text_eq_comm, Text}
use agent_knowledge_base_cod.Coordination.Model.{PathClaim}
use agent_knowledge_base_cod.Coordination.Claims.Paths.{related, static_prefix}
use agent_knowledge_base_cod.Coordination.Claims.Overlap.{
  overlap, overlap_symbols, overlap_globs, overlap_paths, same_symbol,
}

related_comm : (a b : Text) → related a b ≡ related b a
unfolding related
related_comm a b = ground (arith, text_eq_comm a b)

same_symbol_comm : (a b : Option Text) → same_symbol a b ≡ same_symbol b a
same_symbol_comm none none = refl
same_symbol_comm none (some b) = refl
same_symbol_comm (some a) none = refl
same_symbol_comm (some a) (some b) = text_eq_comm a b

module _ (l r : PathClaim) where
  overlap_symbols_comm : overlap_symbols l r ≡ overlap_symbols r l
  overlap_symbols_comm = ground (
    arith,
    text_eq_comm l.normalized_value r.normalized_value,
    same_symbol_comm l.symbol r.symbol,
    related_comm l.normalized_value r.normalized_value,
  )

  overlap_globs_comm : overlap_globs l r ≡ overlap_globs r l
  overlap_globs_comm =
      ground
        (arith, related_comm (static_prefix l.normalized_value) (static_prefix r.normalized_value))

  overlap_paths_comm : overlap_paths l r ≡ overlap_paths r l
  overlap_paths_comm = ground (arith, text_eq_comm l.normalized_value r.normalized_value)

  -- Two claims have the same overlap whichever of them is on the left.
  overlap_comm : overlap l r ≡ overlap r l
  unfolding overlap
  overlap_comm = ground (arith, overlap_symbols_comm, overlap_globs_comm, overlap_paths_comm)
