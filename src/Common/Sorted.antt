-- ===== src/Common/Sorted.antt =====
-- Lists in the order of a strict test: a set of elements has one such list.
use mathlib.Core.Path.{◌≡◌, refl, sym, subst, ap, ◌∙◌}
use mathlib.Core.Logic.{◌≢◌, ◌⊎◌, inl, inr}
use mathlib.Core.Bool.{Bool, true, false}
use mathlib.Core.List.{List, [], ◌∷◌, ◌++◌, Memᴰ}
use agent_knowledge_base_cod.Common.Tests.{Bool-cases}
use agent_knowledge_base_cod.Common.Lists.{insert_by, sort_by, All, All-insert_by}
use agent_knowledge_base_cod.Common.Members.{mem-All}

module _ {ℓ} {A : Type ℓ} where
  -- No element stands twice.
  abbrev pub NoneTwice : List A → Type ℓ
  NoneTwice [] = Unit
  NoneTwice (x ∷ xs) = All (λ y. x ≢ y) xs × NoneTwice xs

  pub NoneTwice-append :
      (xs : List A) (x : A) → NoneTwice xs → (Memᴰ x xs → ⊥) → NoneTwice (xs ++ (x ∷ []))
  NoneTwice-append [] x h new = (tt, tt)
  NoneTwice-append (y ∷ ys) x h new = (
    others ys h.0 (λ e. new (Memᴰ.head (sym e))),
    NoneTwice-append ys x h.1 (λ m. new (Memᴰ.tail m)),
  )
    where
      others : (zs : List A) → All (λ z. y ≢ z) zs → y ≢ x → All (λ z. y ≢ z) (zs ++ (x ∷ []))
      others [] h apart = (apart, tt)
      others (z ∷ zs) h apart = (h.0, others zs h.1 apart)

  pub mem_of-append : {a : A} (xs : List A) {x : A} → Memᴰ a (xs ++ (x ∷ [])) → Memᴰ a xs ⊎ (a ≡ x)
  mem_of-append [] (Memᴰ.head e) = inr e
  mem_of-append [] (Memᴰ.tail m) = elim m [ ]
  mem_of-append (y ∷ ys) (Memᴰ.head e) = inl (Memᴰ.head e)
  mem_of-append (y ∷ ys) (Memᴰ.tail m) = elim (mem_of-append ys m) [
    | inl n ↦ inl (Memᴰ.tail n)
    | inr e ↦ inr e
  ]

  mem-cons :
      {a : A} (x : A) {xs ys : List A} → (Memᴰ a xs → Memᴰ a ys) → Memᴰ a (x ∷ xs) → Memᴰ a (x ∷ ys)
  mem-cons x f (Memᴰ.head e) = Memᴰ.head e
  mem-cons x f (Memᴰ.tail m) = Memᴰ.tail (f m)

  mem-swap : {a : A} (x y : A) {xs : List A} → Memᴰ a (x ∷ y ∷ xs) → Memᴰ a (y ∷ x ∷ xs)
  mem-swap x y (Memᴰ.head e) = Memᴰ.tail (Memᴰ.head e)
  mem-swap x y (Memᴰ.tail (Memᴰ.head e)) = Memᴰ.head e
  mem-swap x y (Memᴰ.tail (Memᴰ.tail m)) = Memᴰ.tail (Memᴰ.tail m)

  module _ (before : A → A → Bool) where
    mem_of-insert_by :
        {a : A} (x : A) (xs : List A) → Memᴰ a (insert_by before x xs) → Memᴰ a (x ∷ xs)
    mem_of-insert_by x [] m = m
    mem_of-insert_by {a} x (y ∷ ys) m = elim (Bool-cases (before y x)) [
      | inl first ↦ mem-swap y x (mem-cons y (mem_of-insert_by x ys) (rw first at m))
      | inr last ↦ rw last at m
    ]

    pub mem_of-sort_by : {a : A} (xs : List A) → Memᴰ a (sort_by before xs) → Memᴰ a xs
    mem_of-sort_by [] m = m
    mem_of-sort_by (x ∷ xs) m =
        mem-cons x (mem_of-sort_by xs) (mem_of-insert_by x (sort_by before xs) m)

    abbrev pub Ascending : List A → Type ℓ
    Ascending [] = Unit
    Ascending (x ∷ xs) = All (λ y. before x y ≡ true) xs × Ascending xs

    pub record IsStrictOrder : Type ℓ where
      pub irreflexive : (x : A) → before x x ≡ false
      pub transitive : (x y z : A) → before x y ≡ true → before y z ≡ true → before x z ≡ true

    -- Only what is the same is tied.
    abbrev pub IsConnected : Type ℓ
    IsConnected = (x y : A) → before x y ≡ false → before y x ≡ false → x ≡ y

    -- Being tied is transitive, as in an `ORDER BY` on some columns.
    abbrev pub IsWeak : Type ℓ
    IsWeak = (x y z : A) → before x y ≡ false → before y z ≡ false → before x z ≡ false

    -- What an `ORDER BY` says of its rows: none is before one that it follows.
    abbrev pub InOrder : List A → Type ℓ
    InOrder [] = Unit
    InOrder (x ∷ xs) = All (λ y. before y x ≡ false) xs × InOrder xs

    module _ (order : IsStrictOrder) where
      before_all :
          (y : A) {x : A} (xs : List A)
          → before y x ≡ true
          → All (λ z. before x z ≡ true) xs
          → All (λ z. before y z ≡ true) xs
      before_all y [] first h = tt
      before_all y {x} (z ∷ zs) first h =
          (order.transitive y x z first h.0, before_all y zs first h.1)

      insert_by-Ascending :
          IsConnected
          → (x : A) (xs : List A) → All (λ y. x ≢ y) xs
          → Ascending xs
          → Ascending (insert_by before x xs)
      insert_by-Ascending connected x [] new h = (tt, tt)
      insert_by-Ascending connected x (y ∷ ys) new h = elim (Bool-cases (before y x)) [
        | inl first ↦ rw first (
          All-insert_by (λ z. before y z ≡ true) before x ys first h.0,
          insert_by-Ascending connected x ys new.1 h.1,
        )
        | inr last ↦ elim (Bool-cases (before x y)) [
          | inl here ↦ rw last ((here, before_all x ys here h.0), h)
          | inr tied ↦ absurd (new.0 (connected x y tied last))
        ]
      ]

      apart-sort_by :
          (x : A) (xs : List A) → All (λ y. x ≢ y) xs → All (λ y. x ≢ y) (sort_by before xs)
      apart-sort_by x [] h = tt
      apart-sort_by x (y ∷ ys) h =
          All-insert_by (λ z. x ≢ z) before y (sort_by before ys) h.0 (apart-sort_by x ys h.1)

      pub sort_by-Ascending :
          IsConnected → (xs : List A) → NoneTwice xs → Ascending (sort_by before xs)
      sort_by-Ascending connected [] h = tt
      sort_by-Ascending connected (x ∷ xs) h =
          insert_by-Ascending connected x (sort_by before xs) (apart-sort_by x xs h.0)
            (sort_by-Ascending connected xs h.1)

      not_before_self : (x : A) → before x x ≡ true → ⊥
      not_before_self x h = let no = order.irreflexive x in cc

      -- The first of two ascending lists of the same elements.
      same_first :
          (x y : A) (xs ys : List A)
          → Ascending (x ∷ xs)
          → Ascending (y ∷ ys)
          → Memᴰ x (y ∷ ys)
          → Memᴰ y (x ∷ xs)
          → x ≡ y
      same_first x y xs ys h k (Memᴰ.head e) n = e
      same_first x y xs ys h k (Memᴰ.tail m) (Memᴰ.head e) = sym e
      same_first x y xs ys h k (Memᴰ.tail m) (Memᴰ.tail n) = absurd (
          not_before_self x (
            order.transitive x y x (mem-All (λ z. before x z ≡ true) h.0 n)
              (mem-All (λ z. before y z ≡ true) k.0 m)))

      in_rest :
          (x : A) {a : A} (xs : List A) {ys : List A}
          → All (λ z. before x z ≡ true) xs
          → Memᴰ a xs
          → Memᴰ a (x ∷ ys)
          → Memᴰ a ys
      in_rest x xs h m (Memᴰ.head e) = absurd (
          not_before_self x
            (subst (λ z. before x z ≡ true) e (mem-All (λ z. before x z ≡ true) h m)))
      in_rest x xs h m (Memᴰ.tail n) = n

      pub same-Ascending :
          (xs ys : List A)
          → Ascending xs
          → Ascending ys
          → ((a : A) → Memᴰ a xs → Memᴰ a ys)
          → ((a : A) → Memᴰ a ys → Memᴰ a xs)
          → xs ≡ ys
      same-Ascending [] [] h k sub sup = refl
      same-Ascending [] (y ∷ ys) h k sub sup = elim (sup y (Memᴰ.head refl)) [ ]
      same-Ascending (x ∷ xs) [] h k sub sup = elim (sub x (Memᴰ.head refl)) [ ]
      same-Ascending (x ∷ xs) (y ∷ ys) h k sub sup =
          let e = same_first x y xs ys h k (sub x (Memᴰ.head refl)) (sup y (Memᴰ.head refl)) in
          ap (λ z. z ∷ xs) e
          ∙ ap (λ zs. y ∷ zs)
              (same-Ascending xs ys h.1 k.1
                (λ a m.
                  in_rest x xs h.0 m (subst (λ z. Memᴰ a (z ∷ ys)) (sym e) (sub a (Memᴰ.tail m))))
                (λ a m. in_rest y ys k.0 m (subst (λ z. Memᴰ a (z ∷ xs)) e (sup a (Memᴰ.tail m)))))
