-- ===== src/Common/Sets.antt =====
-- Lists of ids that stand for sets, with what a `HashSet` tells of them.
use Prim.Native.Nat.{ℕ}
use mathlib.Core.Path.{◌≡◌, refl, subst, ◌∙◌}
use mathlib.Core.Logic.{inl, inr}
use mathlib.Core.Bool.{Bool, true, false, ◌||◌}
use mathlib.Core.List.{List, [], ◌∷◌, ◌++◌}
use native.Mathlib.Omega.{arith}
use agent_knowledge_base_cod.Common.Tests.{◌==◌, ==_iff, Bool-cases, if◌then◌else◌}
use agent_knowledge_base_cod.Common.Lists.{any, any-append}

abbrev pub contains : List ℕ → ℕ → Bool
contains ids id = any (λ (other : ℕ). other == id) ids

-- An id at most once.
abbrev pub AreDistinct : List ℕ → Type 0
AreDistinct [] = Unit
AreDistinct (id ∷ ids) = (contains ids id ≡ false) × AreDistinct ids

-- `HashSet::insert`, and all of a list.
abbrev pub add : ℕ → List ℕ → List ℕ
add id ids = if contains ids id then ids else ids ++ (id ∷ [])

abbrev pub add_all : List ℕ → List ℕ → List ℕ
add_all [] ids = ids
add_all (id ∷ more) ids = add_all more (add id ids)

contains-add :
    (id other : ℕ) (ids : List ℕ)
    → contains (add id ids) other ≡ (contains ids other || (id == other))
contains-add id other ids = elim (Bool-cases (contains ids id)) [
  | inl had ↦ rw had (elim (Bool-cases (id == other)) [
    | inl same ↦ rw (subst (λ (x : ℕ). contains ids x ≡ true) ((==_iff id other).0 same) had) refl
    | inr apart ↦ rw apart (ground arith)
  ])
  | inr new ↦ rw (new, any-append (λ (x : ℕ). x == other) ids (id ∷ [])) (ground arith)
]

pub contains-add_all :
    (more ids : List ℕ) (other : ℕ)
    → contains (add_all more ids) other ≡ (contains ids other || contains more other)
contains-add_all [] ids other = ground arith
contains-add_all (id ∷ more) ids other =
    ground (arith, contains-add_all more (add id ids) other, contains-add id other ids)

append-AreDistinct :
    (ids : List ℕ) (id : ℕ)
    → AreDistinct ids
    → contains ids id ≡ false
    → AreDistinct (ids ++ (id ∷ []))
append-AreDistinct [] id h new = (refl, tt)
append-AreDistinct (x ∷ ids) id h new = (
  any-append (λ (y : ℕ). y == x) ids (id ∷ []) ∙ last (contains ids x) h.0 new,
  append-AreDistinct ids id h.1 (ground arith),
)
  where
    last :
        (b : Bool)
        → b ≡ false
        → contains (x ∷ ids) id ≡ false
        → (b || any (λ (y : ℕ). y == x) (id ∷ [])) ≡ false
    last b h new = ground arith

pub add_all-AreDistinct : (more ids : List ℕ) → AreDistinct ids → AreDistinct (add_all more ids)
add_all-AreDistinct [] ids h = h
add_all-AreDistinct (id ∷ more) ids h =
    add_all-AreDistinct more (add id ids) (elim (Bool-cases (contains ids id)) [
      | inl had ↦ rw had h
      | inr new ↦ rw new (append-AreDistinct ids id h new)
    ])
