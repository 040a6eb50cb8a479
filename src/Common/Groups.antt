-- ===== src/Common/Groups.antt =====
-- `GROUP BY`, and what sums and maxima over groups come to.
use Prim.Native.Nat.{ℕ, ◌+◌, ◌≤◌, max}
use mathlib.Core.Path.{◌≡◌, refl}
use mathlib.Core.Logic.{inl, inr}
use mathlib.Core.Bool.{Bool}
use mathlib.Core.List.{List, [], ◌∷◌, ◌++◌}
use native.Mathlib.Omega.{arith}
use agent_knowledge_base_cod.Common.Tests.{if◌then◌else◌, Bool-cases}
use agent_knowledge_base_cod.Common.Lists.{insert_by, sort_by, All}

-- A group is its first row and the others.
abbrev pub Group {ℓ} : Type ℓ → Type ℓ
Group A = A × List A

module _ {ℓ} {A : Type ℓ} where
  abbrev pub join_group : (A → A → Bool) → A → List (Group A) → List (Group A)
  join_group same x [] = (x, []) ∷ []
  join_group same x ((y, ys) ∷ groups) =
      let rest = join_group same x groups in
      if same y x then (y, ys ++ (x ∷ [])) ∷ groups else (y, ys) ∷ rest

  abbrev pub group_onto : (A → A → Bool) → List A → List (Group A) → List (Group A)
  group_onto same [] groups = groups
  group_onto same (x ∷ xs) groups = group_onto same xs (join_group same x groups)

  -- The groups in the order of their first rows.
  abbrev pub group_by : (A → A → Bool) → List A → List (Group A)
  group_by same xs = group_onto same xs []

  abbrev pub rows_of : Group A → List A
  rows_of group = group.0 ∷ group.1

  -- `COALESCE(SUM(…), 0)`
  abbrev pub total : (A → ℕ) → List A → ℕ
  total w [] = 0
  total w (x ∷ xs) = w x + total w xs

  -- `COALESCE(MAX(…), 0)`
  abbrev pub largest : (A → ℕ) → List A → ℕ
  largest w [] = 0
  largest w (x ∷ xs) = max (w x) (largest w xs)

  total-append : (w : A → ℕ) (xs ys : List A) → total w (xs ++ ys) ≡ total w xs + total w ys
  total-append w [] ys = omega arith
  total-append w (x ∷ xs) ys = omega (arith, total-append w xs ys)

  largest-append :
      (w : A → ℕ) (xs ys : List A) → largest w (xs ++ ys) ≡ max (largest w xs) (largest w ys)
  largest-append w [] ys = omega arith
  largest-append w (x ∷ xs) ys = omega (arith, largest-append w xs ys)

  total-insert_by :
      (w : A → ℕ) (before : A → A → Bool) (x : A) (xs : List A)
      → total w (insert_by before x xs) ≡ w x + total w xs
  total-insert_by w before x [] = refl
  total-insert_by w before x (y ∷ ys) = ground (arith, total-insert_by w before x ys)

  pub total-sort_by :
      (w : A → ℕ) (before : A → A → Bool) (xs : List A) → total w (sort_by before xs) ≡ total w xs
  total-sort_by w before [] = refl
  total-sort_by w before (x ∷ xs) =
      omega (arith, total-insert_by w before x (sort_by before xs), total-sort_by w before xs)

  largest-insert_by :
      (w : A → ℕ) (before : A → A → Bool) (x : A) (xs : List A)
      → largest w (insert_by before x xs) ≡ max (w x) (largest w xs)
  largest-insert_by w before x [] = refl
  largest-insert_by w before x (y ∷ ys) = elim (Bool-cases (before y x)) [
    | inl first ↦ rw (first, largest-insert_by w before x ys) (omega arith)
    | inr last ↦ rw last refl
  ]

  pub largest-sort_by :
      (w : A → ℕ) (before : A → A → Bool) (xs : List A)
      → largest w (sort_by before xs) ≡ largest w xs
  largest-sort_by w before [] = refl
  largest-sort_by w before (x ∷ xs) =
      omega (arith, largest-insert_by w before x (sort_by before xs), largest-sort_by w before xs)

  -- A part is no more than the whole.
  pub All-le-total : (w : A → ℕ) (xs : List A) → All (λ x. w x ≤ total w xs) xs
  All-le-total w [] = tt
  All-le-total w (x ∷ xs) = (omega arith, weaken xs (All-le-total w xs))
    where
      weaken : (ys : List A) → All (λ y. w y ≤ total w xs) ys → All (λ y. w y ≤ w x + total w xs) ys
      weaken [] h = tt
      weaken (y ∷ ys) h = (omega (arith, h.0), weaken ys h.1)

-- Sums and maxima over groups are those over the rows.
module _ {ℓ} {A : Type ℓ} (w : A → ℕ) (same : A → A → Bool) where
  total-join_group :
      (x : A) (groups : List (Group A))
      → total (λ g. total w (rows_of g)) (join_group same x groups)
        ≡ w x + total (λ g. total w (rows_of g)) groups
  total-join_group x [] = omega arith
  total-join_group x ((y, ys) ∷ groups) = elim (Bool-cases (same y x)) [
    | inl hit ↦ rw (hit, total-append w ys (x ∷ [])) (omega arith)
    | inr miss ↦ rw (miss, total-join_group x groups) (omega arith)
  ]

  total-group_onto :
      (xs : List A) (groups : List (Group A))
      → total (λ g. total w (rows_of g)) (group_onto same xs groups)
        ≡ total w xs + total (λ g. total w (rows_of g)) groups
  total-group_onto [] groups = omega arith
  total-group_onto (x ∷ xs) groups =
      omega (arith, total-group_onto xs (join_group same x groups), total-join_group x groups)

  pub total-group_by :
      (xs : List A) → total (λ g. total w (rows_of g)) (group_by same xs) ≡ total w xs
  total-group_by xs = omega (arith, total-group_onto xs [])

  largest-join_group :
      (x : A) (groups : List (Group A))
      → largest (λ g. largest w (rows_of g)) (join_group same x groups)
        ≡ max (w x) (largest (λ g. largest w (rows_of g)) groups)
  largest-join_group x [] = omega arith
  largest-join_group x ((y, ys) ∷ groups) = elim (Bool-cases (same y x)) [
    | inl hit ↦ rw (hit, largest-append w ys (x ∷ [])) (omega arith)
    | inr miss ↦ rw (miss, largest-join_group x groups) (omega arith)
  ]

  largest-group_onto :
      (xs : List A) (groups : List (Group A))
      → largest (λ g. largest w (rows_of g)) (group_onto same xs groups)
        ≡ max (largest w xs) (largest (λ g. largest w (rows_of g)) groups)
  largest-group_onto [] groups = omega arith
  largest-group_onto (x ∷ xs) groups =
      omega (arith, largest-group_onto xs (join_group same x groups), largest-join_group x groups)

  pub largest-group_by :
      (xs : List A) → largest (λ g. largest w (rows_of g)) (group_by same xs) ≡ largest w xs
  largest-group_by xs = omega (arith, largest-group_onto xs [])
