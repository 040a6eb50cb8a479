-- ===== src/Common/Results.antt =====
-- Rust's `Result` with an error type of the component's own, its `?` and `ensure!`.
use mathlib.Core.Path.{◌≡◌, refl}
use mathlib.Core.Logic.{◌⊎◌, inl, inr}
use mathlib.Core.Bool.{Bool, true, false}
use mathlib.Core.Option.{Option, none, some}

pub data Result {ℓ κ} (E : Type ℓ) (A : Type κ) : Type (ℓ ⊔ κ) where
  err : E → Result E A
  ok : A → Result E A

module _ {ℓ κ μ} {E : Type ℓ} {A : Type κ} {B : Type μ} where
  infixl 8 ◌>>=◌
  -- `?`: an error ends the function.
  abbrev pub ◌>>=◌ : Result E A → (A → Result E B) → Result E B
  err failure >>= next = err failure
  ok value >>= next = next value

  -- A function that succeeded has passed its `?`.
  pub bind-eq-ok :
      (r : Result E A) (next : A → Result E B) {out : B}
      → (r >>= next) ≡ ok out
      → (value : A) × (r ≡ ok value) × (next value ≡ ok out)
  bind-eq-ok (err failure) next done = cc
  bind-eq-ok (ok value) next done = (value, refl, done)

module _ {ℓ κ} {E : Type ℓ} {B : Type κ} where
  infixl 8 ◌>>◌
  abbrev pub ◌>>◌ : Result E (Unit {0}) → Result E B → Result E B
  checked >> next = checked >>= λ _. next

module _ {ℓ} {E : Type ℓ} where
  -- `ensure!`
  abbrev pub ensure : Bool → E → Result E (Unit {0})
  ensure holds failure = elim holds [ true ↦ ok tt | false ↦ err failure ]

  pub ensure-eq-ok {κ} :
      {B : Type κ} (holds : Bool) (failure : E) (next : Result E B) {out : B}
      → (ensure holds failure >> next) ≡ ok out
      → (holds ≡ true) × (next ≡ ok out)
  ensure-eq-ok false failure next done = cc
  ensure-eq-ok true failure next done = (refl, done)

module _ {ℓ κ} {E : Type ℓ} {A : Type κ} where
  -- `Option::ok_or`, `Context::context`
  abbrev pub ok_or : Option A → E → Result E A
  ok_or found failure = elim found [ some value ↦ ok value | none ↦ err failure ]

  pub ok-injective : {a b : A} → ◌≡◌ {A = Result E A} (ok a) (ok b) → a ≡ b
  ok-injective same = cc

  pub Result-cases : (r : Result E A) → ((e : E) × (r ≡ err e)) ⊎ ((a : A) × (r ≡ ok a))
  Result-cases (err e) = inl (e, refl)
  Result-cases (ok a) = inr (a, refl)
