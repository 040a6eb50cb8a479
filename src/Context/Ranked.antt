-- ===== src/Context/Ranked.antt =====
-- Records in the order of crates/brain-context/src/supersession.rs have falling ranks, and those of the
-- highest rank are in front.
use agent_knowledge_base_cod.Common.{
  ℕ, suc, ◌≤◌, ◌==◌, ◌≡◌, refl, sym, ◌∙◌, inl, inr, Bool, Bool-cases, true, false, ◌||◌, ◌&&◌, List,
  [], ◌∷◌, arith, length, any, All, All-insert_by, filter, insert_by, sort_by, ltb, Text, text_eq,
  text_eq→≡,
}
use agent_knowledge_base_cod.Domain.Memory.{MemoryRecord}
use agent_knowledge_base_cod.Context.{rank, is_prior, take_while, distinct}
use agent_knowledge_base_cod.Context.Groups.{All_weaken}

abbrev pub Descending : List MemoryRecord → Type 0
Descending [] = Unit
Descending (r ∷ rs) = All (λ s. rank s ≤ rank r) rs × Descending rs

test-le : (a b : ℕ) (more : Bool) → (ltb a b || (a == b && more)) ≡ true → a ≤ b
test-le a b more h = ground arith

test-ge : (a b : ℕ) (more : Bool) → (ltb a b || (a == b && more)) ≡ false → b ≤ a
test-ge a b more h = ground arith

is_prior-le : (l r : MemoryRecord) → is_prior l r ≡ true → rank r ≤ rank l
is_prior-le l r h = test-le (rank r) (rank l) _ h

is_prior-ge : (l r : MemoryRecord) → is_prior l r ≡ false → rank l ≤ rank r
is_prior-ge l r h = test-ge (rank r) (rank l) _ h

insert_by-Descending :
    (x : MemoryRecord) (xs : List MemoryRecord)
    → Descending xs
    → Descending (insert_by is_prior x xs)
insert_by-Descending x [] h = (tt, tt)
insert_by-Descending x (y ∷ ys) h = elim (Bool-cases (is_prior y x)) [
  | inl first ↦ rw first (
    All-insert_by (λ s. rank s ≤ rank y) is_prior x ys (is_prior-le y x first) h.0,
    insert_by-Descending x ys h.1,
  )
  | inr last ↦ rw last (
    (
      is_prior-ge y x last,
      All_weaken (λ s below. omega (arith, below, is_prior-ge y x last)) ys h.0,
    ),
    h,
  )
]

pub sort_by-Descending : (xs : List MemoryRecord) → Descending (sort_by is_prior xs)
sort_by-Descending [] = tt
sort_by-Descending (x ∷ xs) = insert_by-Descending x (sort_by is_prior xs) (sort_by-Descending xs)

-- What holds of the records in front that have the rank `h` holds of all that have it.
pub take_while-All :
    (P : MemoryRecord → Type 0) (h : ℕ) (rs : List MemoryRecord)
    → Descending rs
    → All (λ r. rank r ≤ h) rs
    → All P (take_while (λ r. rank r == h) rs)
    → All (λ r. rank r ≡ h → P r) rs
take_while-All P h [] down below top = tt
take_while-All P h (r ∷ rs) down below top = elim (Bool-cases (rank r == h)) [
  | inl same ↦
      let (one, more) = rw same at top in (λ _. one, take_while-All P h rs down.1 below.1 more)
  | inr other ↦ (
    λ same. absurd (apart same other),
    All_weaken (λ s lower same. absurd (under s lower same other)) rs down.0,
  )
]
  where
    apart : rank r ≡ h → (rank r == h) ≡ false → ⊥
    apart same other = ground arith

    under : (s : MemoryRecord) → rank s ≤ rank r → rank s ≡ h → (rank r == h) ≡ false → ⊥
    under s lower same other = ground (arith, below.0)

pub All-take_while :
    {A : Type 0} (P : A → Type 0) (p : A → Bool) (xs : List A) → All P xs → All P (take_while p xs)
All-take_while P p [] h = tt
All-take_while P p (x ∷ xs) h = elim (Bool-cases (p x)) [
  | inl holds ↦ rw holds (h.0, All-take_while P p xs h.1)
  | inr ends ↦ rw ends tt
]

-- What holds of a sorted list holds of the list.
insert_by-All :
    {A : Type 0} (P : A → Type 0) (before : A → A → Bool) (x : A) (xs : List A)
    → All P (insert_by before x xs)
    → P x × All P xs
insert_by-All P before x [] h = h
insert_by-All P before x (y ∷ ys) h = elim (Bool-cases (before y x)) [
  | inl first ↦
      let (one, more) = rw first at h in
      let (new, others) = insert_by-All P before x ys more in (new, (one, others))
  | inr last ↦ rw last at h
]

pub sort_by-All :
    {A : Type 0} (P : A → Type 0) (before : A → A → Bool) (xs : List A)
    → All P (sort_by before xs)
    → All P xs
sort_by-All P before [] h = tt
sort_by-All P before (x ∷ xs) h =
    let (one, more) = insert_by-All P before x (sort_by before xs) h in
    (one, sort_by-All P before xs more)

pub filter-All_where :
    {A : Type 0} (P : A → Type 0) (p : A → Bool) (xs : List A)
    → All P (filter p xs)
    → All (λ x. p x ≡ true → P x) xs
filter-All_where P p [] h = tt
filter-All_where P p (x ∷ xs) h = elim (Bool-cases (p x)) [
  | inl kept ↦ let (one, more) = rw kept at h in (λ _. one, filter-All_where P p xs more)
  | inr left ↦ (λ kept. absurd (both kept left), filter-All_where P p xs (rw left at h))
]
  where
    both : p x ≡ true → p x ≡ false → ⊥
    both a b = cc

-- Texts of which a set keeps one at most are all the same.
distinct-nonempty : (s : Text) (ss : List Text) → 1 ≤ length (distinct (s ∷ ss))
distinct-nonempty s [] = omega arith
distinct-nonempty s (t ∷ ss) = ground (arith, distinct-nonempty t ss)

any-same :
    (s t : Text) (ss : List Text)
    → All (λ u. u ≡ t) ss
    → any (λ (u : Text). text_eq s u) ss ≡ true
    → s ≡ t
any-same s t [] h found = cc
any-same s t (u ∷ ss) h found = elim (Bool-cases (text_eq s u)) [
  | inl hit ↦ text_eq→≡ s u hit ∙ h.0
  | inr miss ↦ any-same s t ss h.1 (rw miss at found)
]

pub distinct-same :
    (s : Text) (ss : List Text) → ltb 1 (length (distinct (s ∷ ss))) ≡ false → All (λ t. t ≡ s) ss
distinct-same s [] h = tt
distinct-same s (t ∷ ss) h = elim (Bool-cases (any (λ (u : Text). text_eq s u) (t ∷ ss))) [
  | inl again ↦
      let others = distinct-same t ss (rw again at h) in
      let same = any-same s t (t ∷ ss) (refl, others) again in
      (sym same, All_weaken (λ u is_t. is_t ∙ sym same) ss others)
  | inr new ↦ absurd (two (rw new at h) (distinct-nonempty t ss))
]
  where
    two : {n : ℕ} → ltb 1 (suc n) ≡ false → 1 ≤ n → ⊥
    two h k = ground arith
