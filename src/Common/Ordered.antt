-- ===== src/Common/Ordered.antt =====
-- `ORDER BY` as SQLite gives it: rows that tie come in any order.
use mathlib.Core.Path.{◌≡◌, refl, sym, subst}
use mathlib.Core.Logic.{◌≢◌, ◌⊎◌, inl, inr}
use mathlib.Core.Bool.{Bool, true, false}
use mathlib.Core.List.{List, [], ◌∷◌, Memᴰ}
use agent_knowledge_base_cod.Common.Tests.{Bool-cases}
use agent_knowledge_base_cod.Common.Lists.{
  filter, insert_by, sort_by, All, All-filter, All-insert_by, All-sort_by,
}
use agent_knowledge_base_cod.Common.Members.{mem-All, mem-sort_by}
use agent_knowledge_base_cod.Common.Sorted.{
  NoneTwice, Ascending, InOrder, IsStrictOrder, IsWeak, mem_of-sort_by, same-Ascending,
}

module _ {ℓ} {A : Type ℓ} where
  pub NoneTwice-filter : (p : A → Bool) (xs : List A) → NoneTwice xs → NoneTwice (filter p xs)
  NoneTwice-filter p [] h = tt
  NoneTwice-filter p (x ∷ xs) h = elim (Bool-cases (p x)) [
    | inl kept ↦ rw kept (All-filter (λ y. x ≢ y) p xs h.0, NoneTwice-filter p xs h.1)
    | inr left ↦ rw left (NoneTwice-filter p xs h.1)
  ]

  module _ (before : A → A → Bool) where
    -- The rows of a query, each of them once where no row is twice in the table, none before one
    -- that the ORDER BY puts in front of it.
    pub record IsOrderBy (order : List A → List A) : Type ℓ where
      pub in_order : (xs : List A) → InOrder before (order xs)
      pub once : (xs : List A) → NoneTwice xs → NoneTwice (order xs)
      pub keeps : (a : A) (xs : List A) → Memᴰ a xs → Memᴰ a (order xs)
      pub only : (a : A) (xs : List A) → Memᴰ a (order xs) → Memᴰ a xs

    compares :
        {x y : A} (ys : List A)
        → Ascending before ys
        → Memᴰ x ys
        → Memᴰ y ys
        → x ≢ y
        → (before x y ≡ true) ⊎ (before y x ≡ true)
    compares [] h m n apart = elim m [ ]
    compares {x} {y} (z ∷ zs) h (Memᴰ.head e) (Memᴰ.head f) apart = absurd (apart (cc (e, f)))
    compares {x} {y} (z ∷ zs) h (Memᴰ.head e) (Memᴰ.tail n) apart =
        inl (subst (λ (w : A). before w y ≡ true) (sym e) (mem-All (λ w. before z w ≡ true) h.0 n))
    compares {x} {y} (z ∷ zs) h (Memᴰ.tail m) (Memᴰ.head f) apart =
        inr (subst (λ (w : A). before w x ≡ true) (sym f) (mem-All (λ w. before z w ≡ true) h.0 m))
    compares (z ∷ zs) h (Memᴰ.tail m) (Memᴰ.tail n) apart = compares zs h.1 m n apart

    -- The rows in front of which nothing of an ascending list comes.
    first_before :
        (x : A) (xs ys : List A)
        → Ascending before ys
        → Memᴰ x ys
        → All (λ y. before y x ≡ false) xs
        → All (λ y. x ≢ y) xs
        → ((a : A) → Memᴰ a xs → Memᴰ a ys)
        → All (λ y. before x y ≡ true) xs
    first_before x [] ys h m late apart sub = tt
    first_before x (z ∷ zs) ys h m late apart sub = (
      elim (compares ys h m (sub z (Memᴰ.head refl)) apart.0) [
        | inl less ↦ less
        | inr more ↦ absurd (never late.0 more)
      ],
      first_before x zs ys h m late.1 apart.1 (λ a n. sub a (Memᴰ.tail n)),
    )
      where
        never : before z x ≡ false → before z x ≡ true → ⊥
        never e f = cc

    InOrder-Ascending :
        (xs ys : List A)
        → InOrder before xs
        → NoneTwice xs
        → Ascending before ys
        → ((a : A) → Memᴰ a xs → Memᴰ a ys)
        → Ascending before xs
    InOrder-Ascending [] ys late apart h sub = tt
    InOrder-Ascending (x ∷ xs) ys late apart h sub = (
      first_before x xs ys h (sub x (Memᴰ.head refl)) late.0 apart.0 (λ a n. sub a (Memᴰ.tail n)),
      InOrder-Ascending xs ys late.1 apart.1 h (λ a n. sub a (Memᴰ.tail n)),
    )

    module _ (order : IsStrictOrder before) where
      -- Where nothing ties, there is one order.
      pub IsOrderBy-Ascending :
          (order_by : List A → List A) (xs ys : List A)
          → IsOrderBy order_by
          → NoneTwice xs
          → Ascending before ys
          → ((a : A) → Memᴰ a ys → Memᴰ a xs)
          → ((a : A) → Memᴰ a xs → Memᴰ a ys)
          → order_by xs ≡ ys
      IsOrderBy-Ascending order_by xs ys is apart h sub sup =
          same-Ascending before order (order_by xs) ys
            (InOrder-Ascending (order_by xs) ys (is.in_order xs) (is.once xs apart) h
              (λ a m. sup a (is.only a xs m)))
            h (λ a m. sup a (is.only a xs m)) (λ a m. is.keeps a xs (sub a m))

      insert_by-InOrder :
          IsWeak before
          → (x : A) (xs : List A) → InOrder before xs
          → InOrder before (insert_by before x xs)
      insert_by-InOrder weak x [] h = (tt, tt)
      insert_by-InOrder weak x (y ∷ ys) h = elim (Bool-cases (before y x)) [
        | inl first ↦ rw first (
          All-insert_by (λ z. before z y ≡ false) before x ys (asymmetric first) h.0,
          insert_by-InOrder weak x ys h.1,
        )
        | inr last ↦ rw last ((last, behind ys h.0 last), h)
      ]
        where
          asymmetric : before y x ≡ true → before x y ≡ false
          asymmetric first = elim (Bool-cases (before x y)) [
            | inl back ↦ absurd (never (order.transitive x y x back first) (order.irreflexive x))
            | inr after ↦ after
          ]
            where
              never : before x x ≡ true → before x x ≡ false → ⊥
              never e f = cc

          behind :
              (zs : List A)
              → All (λ z. before z y ≡ false) zs
              → before y x ≡ false
              → All (λ z. before z x ≡ false) zs
          behind [] k last = tt
          behind (z ∷ zs) k last = (weak z y x k.0 last, behind zs k.1 last)

      sort_by-InOrder : IsWeak before → (xs : List A) → InOrder before (sort_by before xs)
      sort_by-InOrder weak [] = tt
      sort_by-InOrder weak (x ∷ xs) =
          insert_by-InOrder weak x (sort_by before xs) (sort_by-InOrder weak xs)

      insert_by-NoneTwice :
          (x : A) (xs : List A)
          → All (λ y. x ≢ y) xs
          → NoneTwice xs
          → NoneTwice (insert_by before x xs)
      insert_by-NoneTwice x [] apart h = (tt, tt)
      insert_by-NoneTwice x (y ∷ ys) apart h = elim (Bool-cases (before y x)) [
        | inl first ↦ rw first (
          All-insert_by (λ z. y ≢ z) before x ys (λ e. apart.0 (sym e)) h.0,
          insert_by-NoneTwice x ys apart.1 h.1,
        )
        | inr last ↦ rw last (apart, h)
      ]

      sort_by-NoneTwice : (xs : List A) → NoneTwice xs → NoneTwice (sort_by before xs)
      sort_by-NoneTwice [] h = tt
      sort_by-NoneTwice (x ∷ xs) h =
          insert_by-NoneTwice x (sort_by before xs) (All-sort_by (λ y. x ≢ y) before xs h.0)
            (sort_by-NoneTwice xs h.1)

      -- The stable sort is such an order.
      pub sort_by-IsOrderBy : IsWeak before → IsOrderBy (sort_by before)
      sort_by-IsOrderBy weak = record {
        in_order = sort_by-InOrder weak;
        once = sort_by-NoneTwice;
        keeps = λ a xs m. mem-sort_by before m;
        only = λ a xs m. mem_of-sort_by before xs m;
      }
