-- ===== src/Common/Pieces.antt =====
-- Splitting a text and joining the pieces again.
use Prim.Native.Nat.{ℕ}
use mathlib.Core.Path.{◌≡◌, refl, ap}
use mathlib.Core.Logic.{inl, inr}
use mathlib.Core.Bool.{false}
use mathlib.Core.List.{List, [], ◌∷◌, ◌++◌}
use native.Mathlib.Omega.{arith}
use agent_knowledge_base_cod.Common.Tests.{◌==◌, Bool-cases}
use agent_knowledge_base_cod.Common.Lists.{any, All}
use agent_knowledge_base_cod.Common.Texts.{Text, prepend, split, join}

abbrev pub Lacks : ℕ → Text → Type 0
Lacks sep s = any (λ c. c == sep) s ≡ false

module _ (sep : ℕ) where
  prepend-Lacks :
      (c : ℕ) (pieces : List Text)
      → (c == sep) ≡ false
      → All (Lacks sep) pieces
      → All (Lacks sep) (prepend c pieces)
  prepend-Lacks c [] ne h = (ground arith, tt)
  prepend-Lacks c (p ∷ ps) ne h = (ground arith, h.1)

  pub split-Lacks : (s : Text) → All (Lacks sep) (split sep s)
  split-Lacks [] = (refl, tt)
  split-Lacks (c ∷ s) = elim (Bool-cases (c == sep)) [
    | inl hit ↦ rw hit (refl, split-Lacks s)
    | inr miss ↦ rw miss (prepend-Lacks c (split sep s) miss (split-Lacks s))
  ]

  split_piece : (s : Text) → Lacks sep s → split sep s ≡ s ∷ []
  split_piece [] h = refl
  split_piece (c ∷ s) h = ground (arith, split_piece s)

  split_next : (s t : Text) → Lacks sep s → split sep (s ++ sep ∷ t) ≡ s ∷ split sep t
  split_next [] t h = ground arith
  split_next (c ∷ s) t h = ground (arith, split_next s t)

  -- Pieces without the separator come back from the text that they are joined to.
  pub split-join :
      (piece : Text) (pieces : List Text)
      → All (Lacks sep) (piece ∷ pieces)
      → split sep (join sep (piece ∷ pieces)) ≡ piece ∷ pieces
  split-join piece [] h = split_piece piece h.0
  split-join piece (next ∷ pieces) h =
      rw (split_next piece (join sep (next ∷ pieces)) h.0)
        (ap (λ ps. piece ∷ ps) (split-join next pieces h.1))
