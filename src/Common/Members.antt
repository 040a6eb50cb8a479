-- ===== src/Common/Members.antt =====
-- Membership of a row in a list, and what searches, changes and sorts keep of it.
use mathlib.Core.Path.{◌≡◌, refl, sym, subst}
use mathlib.Core.Logic.{inl, inr}
use mathlib.Core.Bool.{Bool, true}
use mathlib.Core.List.{List, [], ◌∷◌, ◌++◌, Memᴰ}
use agent_knowledge_base_cod.Common.Tests.{Bool-cases}
use agent_knowledge_base_cod.Common.Lists.{filter, insert_by, sort_by, All}

module _ {ℓ} {A : Type ℓ} where
  pub mem-All {κ} : (P : A → Type κ) {a : A} {xs : List A} → All P xs → Memᴰ a xs → P a
  mem-All P h (Memᴰ.head e) = subst P (sym e) h.0
  mem-All P h (Memᴰ.tail m) = mem-All P h.1 m

  pub mem-append_left : {a : A} {xs : List A} (ys : List A) → Memᴰ a xs → Memᴰ a (xs ++ ys)
  mem-append_left ys (Memᴰ.head e) = Memᴰ.head e
  mem-append_left ys (Memᴰ.tail m) = Memᴰ.tail (mem-append_left ys m)

  pub mem-append_right : {a : A} (xs : List A) {ys : List A} → Memᴰ a ys → Memᴰ a (xs ++ ys)
  mem-append_right [] m = m
  mem-append_right (x ∷ xs) m = Memᴰ.tail (mem-append_right xs m)

  pub mem-filter :
      (p : A → Bool) {a : A} {xs : List A} → p a ≡ true → Memᴰ a xs → Memᴰ a (filter p xs)
  mem-filter p {a} h (Memᴰ.head e) = rw (subst (λ (y : A). p y ≡ true) e h) (Memᴰ.head e)
  mem-filter p {a} h (Memᴰ.tail {x = x} m) = elim (Bool-cases (p x)) [
    | inl hit ↦ rw hit (Memᴰ.tail (mem-filter p h m))
    | inr miss ↦ rw miss (mem-filter p h m)
  ]

  pub mem_of-filter :
      (p : A → Bool) {a : A} (xs : List A) → Memᴰ a (filter p xs) → (p a ≡ true) × Memᴰ a xs
  mem_of-filter p [] m = elim m [ ]
  mem_of-filter p {a} (x ∷ xs) m = elim (Bool-cases (p x)) [
    | inl hit ↦ kept x xs hit (rw hit at m) (mem_of-filter p xs)
    | inr miss ↦ let (h, n) = mem_of-filter p xs (rw miss at m) in (h, Memᴰ.tail n)
  ]
    where
      kept :
          (y : A) (ys : List A)
          → p y ≡ true
          → Memᴰ a (y ∷ filter p ys)
          → (Memᴰ a (filter p ys) → (p a ≡ true) × Memᴰ a ys)
          → (p a ≡ true) × Memᴰ a (y ∷ ys)
      kept y ys hit (Memᴰ.head e) more = (subst (λ (z : A). p z ≡ true) (sym e) hit, Memᴰ.head e)
      kept y ys hit (Memᴰ.tail n) more = let (h, k) = more n in (h, Memᴰ.tail k)

  module _ (before : A → A → Bool) where
    mem-insert_self : (x : A) (xs : List A) → Memᴰ x (insert_by before x xs)
    mem-insert_self x [] = Memᴰ.head refl
    mem-insert_self x (y ∷ ys) = elim (Bool-cases (before y x)) [
      | inl later ↦ rw later (Memᴰ.tail (mem-insert_self x ys))
      | inr here ↦ rw here (Memᴰ.head refl)
    ]

    mem-insert : {a : A} (x : A) {xs : List A} → Memᴰ a xs → Memᴰ a (insert_by before x xs)
    mem-insert x (Memᴰ.head {x = y} e) = elim (Bool-cases (before y x)) [
      | inl later ↦ rw later (Memᴰ.head e)
      | inr here ↦ rw here (Memᴰ.tail (Memᴰ.head e))
    ]
    mem-insert x (Memᴰ.tail {x = y} m) = elim (Bool-cases (before y x)) [
      | inl later ↦ rw later (Memᴰ.tail (mem-insert x m))
      | inr here ↦ rw here (Memᴰ.tail (Memᴰ.tail m))
    ]

    pub mem-sort_by : {a : A} {xs : List A} → Memᴰ a xs → Memᴰ a (sort_by before xs)
    mem-sort_by (Memᴰ.head {x = x} {xs = xs} e) =
        subst (λ (y : A). Memᴰ y (sort_by before (x ∷ xs))) (sym e)
          (mem-insert_self x (sort_by before xs))
    mem-sort_by (Memᴰ.tail {x = x} m) = mem-insert x (mem-sort_by m)
