-- ===== src/Common/Counts.antt =====
-- How many rows a query counts, and what one finds behind the rows that it does not match.
use Prim.Native.Nat.{suc, ◌+◌}
use mathlib.Core.Path.{◌≡◌, refl, ap, ◌∙◌}
use mathlib.Core.Bool.{Bool, true, false, not}
use mathlib.Core.List.{List, [], ◌∷◌, ◌++◌}
use mathlib.Core.Option.{some}
use native.Mathlib.Omega.{arith}
use agent_knowledge_base_cod.Common.Lists.{
  length, any, find?, filter, count_where, insert_by, sort_by,
}

module _ {ℓ} {A : Type ℓ} where
  pub count_where-append :
      (p : A → Bool) (xs ys : List A)
      → count_where p (xs ++ ys) ≡ count_where p xs + count_where p ys
  count_where-append p [] ys = omega arith
  count_where-append p (x ∷ xs) ys = ground (arith, count_where-append p xs ys)

  count_where-insert_by :
      (p : A → Bool) (before : A → A → Bool) (x : A) (xs : List A)
      → count_where p (insert_by before x xs) ≡ count_where p (x ∷ xs)
  count_where-insert_by p before x [] = refl
  count_where-insert_by p before x (y ∷ ys) = ground (arith, count_where-insert_by p before x ys)

  pub count_where-sort_by :
      (p : A → Bool) (before : A → A → Bool) (xs : List A)
      → count_where p (sort_by before xs) ≡ count_where p xs
  count_where-sort_by p before [] = refl
  count_where-sort_by p before (x ∷ xs) =
      ground (
        arith,
        count_where-insert_by p before x (sort_by before xs),
        count_where-sort_by p before xs,
      )

  -- What a test keeps and what it drops.
  pub count_where-filter :
      (p q : A → Bool) (xs : List A)
      → count_where p (filter q xs) + count_where p (filter (λ x. not (q x)) xs) ≡ count_where p xs
  count_where-filter p q [] = omega arith
  count_where-filter p q (x ∷ xs) = ground (arith, count_where-filter p q xs)

  length-insert_by :
      (before : A → A → Bool) (x : A) (xs : List A)
      → length (insert_by before x xs) ≡ suc (length xs)
  length-insert_by before x [] = refl
  length-insert_by before x (y ∷ ys) = ground (arith, length-insert_by before x ys)

  pub length-sort_by :
      (before : A → A → Bool) (xs : List A) → length (sort_by before xs) ≡ length xs
  length-sort_by before [] = refl
  length-sort_by before (x ∷ xs) =
      length-insert_by before x (sort_by before xs) ∙ ap suc (length-sort_by before xs)

  pub length-filter : (p : A → Bool) (xs : List A) → length (filter p xs) ≡ count_where p xs
  length-filter p [] = refl
  length-filter p (x ∷ xs) = ground (arith, length-filter p xs)

  -- A narrower query finds the row that comes behind those that the wider one does not match.
  pub find?-appended :
      (p q : A → Bool) (xs : List A) (x : A)
      → q x ≡ true
      → ((y : A) → p y ≡ false → q y ≡ false)
      → any p xs ≡ false
      → find? q (xs ++ (x ∷ [])) ≡ some x
  find?-appended p q [] x hit miss h = rw hit refl
  find?-appended p q (y ∷ ys) x hit miss h =
      ground (arith, miss y, find?-appended p q ys x hit miss)

  pub find?-last :
      (p : A → Bool) (xs : List A) (x : A)
      → any p xs ≡ false
      → p x ≡ true
      → find? p (xs ++ (x ∷ [])) ≡ some x
  find?-last p xs x h hit = find?-appended p p xs x hit (λ y other. other) h

  pub any-last : (p : A → Bool) (xs : List A) (x : A) → p x ≡ true → any p (xs ++ (x ∷ [])) ≡ true
  any-last p [] x has = rw has refl
  any-last p (y ∷ ys) x has = ground (arith, any-last p ys x)
