-- ===== src/Coordination/Claims/Overlap/Coverage.antt =====
-- What a definite overlap of two files or directories means for the paths that they cover.
use agent_knowledge_base_cod.Common.{
  ℕ, ◌≡◌, refl, ◌⊎◌, inl, inr, ◌↔◌, ◌&&◌, ◌||◌, Bool, true, false, Bool-cases, [], ◌∷◌, arith, Text,
  text_eq, text_eq→≡, text_eq_self,
}
use agent_knowledge_base_cod.Coordination.Model.{PathClaim}
use agent_knowledge_base_cod.Coordination.Claims.Paths.{ignored, child_of}
use agent_knowledge_base_cod.Coordination.Claims.Overlap.{
  definite, no_overlap, is_symbol, is_glob, is_directory, overlap, overlap_paths,
}

child_of-cons :
    (c d : ℕ) (p a : Text) → child_of (c ∷ p) (d ∷ a) ≡ true → (c ≡ d) × (child_of p a ≡ true)
unfolding child_of
child_of-cons c d p a h = ground arith

child_of_next : (c : ℕ) (p a : Text) → child_of p a ≡ child_of (c ∷ p) (c ∷ a)
unfolding child_of
child_of_next c p a = ground arith

-- Two paths above one path are the same path, or one of them is above the other.
comparable :
    (a b p : Text)
    → child_of p a ≡ true
    → child_of p b ≡ true
    → (a ≡ b) ⊎ ((child_of a b ≡ true) ⊎ (child_of b a ≡ true))
unfolding child_of
comparable [] [] p h k = inl refl
comparable [] (d ∷ b) [] h k = cc
comparable [] (d ∷ b) (c ∷ p) h k = inr (inr (ground arith))
comparable (x ∷ a) [] [] h k = cc
comparable (x ∷ a) [] (c ∷ p) h k = inr (inl (ground arith))
comparable (x ∷ a) (y ∷ b) [] h k = cc
comparable (x ∷ a) (y ∷ b) (c ∷ p) h k =
    ground (arith, child_of-cons c x p a, child_of-cons c y p b, comparable a b p)

-- The paths that a claim of a file or of a directory covers.
abbrev pub covers : PathClaim → Text → Bool
covers claim path =
    text_eq claim.normalized_value path
    || (is_directory claim.kind && child_of path claim.normalized_value)

-- Both claims name a file or a directory of one project, outside the ignored roots.
pub record IsPlainPair (l r : PathClaim) : Type 0 where
  pub left_kept : ignored l.normalized_value ≡ false
  pub right_kept : ignored r.normalized_value ≡ false
  pub one_project : l.project_id ≡ r.project_id
  pub left_path : (is_symbol l.kind || is_glob l.kind) ≡ false
  pub right_path : (is_symbol r.kind || is_glob r.kind) ≡ false

module _ (l r : PathClaim) where
  overlap_plain : IsPlainPair l r → overlap l r ≡ overlap_paths l r
  unfolding overlap
  overlap_plain h = ground arith

  shared : overlap_paths l r ≡ definite → (p : Text) × (covers l p ≡ true) × (covers r p ≡ true)
  shared h = elim (Bool-cases (text_eq l.normalized_value r.normalized_value)) [
    | inl same ↦ (r.normalized_value, ground arith, ground (arith, text_eq_self r.normalized_value))
    | inr differ ↦
        elim (Bool-cases (is_directory l.kind && child_of r.normalized_value l.normalized_value)) [
          | inl under ↦
              (r.normalized_value, ground arith, ground (arith, text_eq_self r.normalized_value))
          | inr over ↦
              (l.normalized_value, ground (arith, text_eq_self l.normalized_value), ground arith)
        ]
  ]

  meets : (p : Text) → covers l p ≡ true → covers r p ≡ true → overlap_paths l r ≡ definite
  meets p h k = ground (
    arith,
    text_eq→≡ l.normalized_value p,
    text_eq→≡ r.normalized_value p,
    text_eq_self p,
    text_eq_self l.normalized_value,
    comparable l.normalized_value r.normalized_value p,
  )

  either : (overlap_paths l r ≡ definite) ⊎ (overlap_paths l r ≡ no_overlap)
  either = ground arith

  -- Two claims of files or directories, of one project and with paths outside the ignored roots,
  -- overlap definitely exactly when some path is covered by both, and have no overlap otherwise.
  pub definite-covers :
      IsPlainPair l r
      → ((overlap l r ≡ definite) ↔ ((p : Text) × (covers l p ≡ true) × (covers r p ≡ true)))
        × ((overlap l r ≡ definite) ⊎ (overlap l r ≡ no_overlap))
  definite-covers h = rw (overlap_plain h) ((shared, λ (p, a, b). meets p a b), either)
