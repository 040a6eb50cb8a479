-- ===== src/Common/Unique.antt =====
-- Columns that a schema keeps unique: PRIMARY KEY and UNIQUE.
use Prim.Native.Nat.{ℕ}
use mathlib.Core.Path.{◌≡◌, refl, subst}
use mathlib.Core.Logic.{inl, inr}
use mathlib.Core.Bool.{Bool, true, false, not, ◌&&◌}
use mathlib.Core.List.{List, [], ◌∷◌, ◌++◌}
use native.Mathlib.Omega.{arith}
use agent_knowledge_base_cod.Common.Tests.{◌==◌, Bool-cases, ==_iff}
use agent_knowledge_base_cod.Common.Lists.{any, any-append, update_where, delete_where}

module _ {ℓ} {A : Type ℓ} where
  abbrev pub Distinct : (A → ℕ) → List A → Type 0
  Distinct key [] = Unit
  Distinct key (x ∷ xs) = (any (λ y. key y == key x) xs ≡ false) × Distinct key xs

  -- At most one row passes the test.
  abbrev pub AtMostOne : (A → Bool) → List A → Type 0
  AtMostOne p [] = Unit
  AtMostOne p (x ∷ xs) = (p x ≡ true → any p xs ≡ false) × AtMostOne p xs

  pub Distinct-AtMostOne :
      (key : A → ℕ) (k : ℕ) (xs : List A) → Distinct key xs → AtMostOne (λ x. key x == k) xs
  Distinct-AtMostOne key k [] d = tt
  Distinct-AtMostOne key k (x ∷ xs) d = (
    λ e. subst (λ (n : ℕ). any (λ y. key y == n) xs ≡ false) ((==_iff _ _).0 e) d.0,
    Distinct-AtMostOne key k xs d.1,
  )

  any-update_key :
      (key : A → ℕ) (p : A → Bool) (f : A → A) (k : ℕ) (xs : List A)
      → ((x : A) → key (f x) ≡ key x)
      → any (λ y. key y == k) (update_where p f xs) ≡ any (λ y. key y == k) xs
  any-update_key key p f k [] same = refl
  any-update_key key p f k (x ∷ xs) same = ground (arith, same x, any-update_key key p f k xs same)

  any-delete : (q p : A → Bool) (xs : List A) → any q xs ≡ false → any q (delete_where p xs) ≡ false
  any-delete q p [] h = refl
  any-delete q p (x ∷ xs) h = ground (arith, any-delete q p xs)

  pub Distinct-append :
      (key : A → ℕ) (xs : List A) (x : A)
      → any (λ y. key y == key x) xs ≡ false
      → Distinct key xs
      → Distinct key (xs ++ x ∷ [])
  Distinct-append key [] x h d = (refl, tt)
  Distinct-append key (y ∷ ys) x h d = (
    ground (arith, any-append (λ z. key z == key y) ys (x ∷ [])),
    Distinct-append key ys x (ground arith) d.1,
  )

  pub Distinct-update :
      (key : A → ℕ) (p : A → Bool) (f : A → A) (xs : List A)
      → ((x : A) → key (f x) ≡ key x)
      → Distinct key xs
      → Distinct key (update_where p f xs)
  Distinct-update key p f [] same d = tt
  Distinct-update key p f (x ∷ xs) same d = (
    ground (arith, same x, any-update_key key p f (key x) xs same),
    Distinct-update key p f xs same d.1,
  )

  pub Distinct-delete :
      (key : A → ℕ) (p : A → Bool) (xs : List A)
      → Distinct key xs
      → Distinct key (delete_where p xs)
  Distinct-delete key p [] d = tt
  Distinct-delete key p (x ∷ xs) d =
      ground (arith, any-delete (λ y. key y == key x) p xs d.0, Distinct-delete key p xs d.1)

  pub update_where-none :
      (p : A → Bool) (f : A → A) (xs : List A) → any p xs ≡ false → update_where p f xs ≡ xs
  update_where-none p f [] h = refl
  update_where-none p f (x ∷ xs) h = ground (arith, update_where-none p f xs)

  -- The rows that change take a value that the others do not have.
  module _ (key : A → ℕ) (v : ℕ) (p : A → Bool) (f : A → A) (sets : (x : A) → key (f x) ≡ v) where
    any-overwrite :
        (k : ℕ) (xs : List A)
        → (k == v) ≡ false
        → any (λ y. key y == k) xs ≡ false
        → any (λ y. key y == k) (update_where p f xs) ≡ false
    any-overwrite k [] ne h = refl
    any-overwrite k (x ∷ xs) ne h = ground (arith, sets x, any-overwrite k xs)

    others_differ :
        (xs : List A)
        → any (λ x. key x == v && not (p x)) xs ≡ false
        → any p xs ≡ false
        → any (λ y. key y == v) xs ≡ false
    others_differ [] h e = refl
    others_differ (x ∷ xs) h e = ground (arith, others_differ xs)

    pub Distinct-overwrite :
        (xs : List A)
        → any (λ x. key x == v && not (p x)) xs ≡ false
        → AtMostOne p xs
        → Distinct key xs
        → Distinct key (update_where p f xs)
    Distinct-overwrite [] h one d = tt
    Distinct-overwrite (x ∷ xs) h one d = elim (Bool-cases (p x)) [
      | inl hit ↦
          rw (hit, sets x, update_where-none p f xs (one.0 hit))
            (others_differ xs (ground arith) (one.0 hit), d.1)
      | inr miss ↦ rw miss (
        any-overwrite (key x) xs (ground arith) d.0,
        Distinct-overwrite xs (ground arith) one.1 d.1,
      )
    ]
