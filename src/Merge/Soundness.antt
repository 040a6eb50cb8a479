-- ===== src/Merge/Soundness.antt =====
-- What an accepted merge of crates/brain-context/src/merge.rs is.
use agent_knowledge_base_cod.Common.{
  ℕ, ◌+◌, ◌==◌, ==_iff, ◌≡◌, ◌≤◌, ◌<◌, refl, sym, ◌∙◌, inl, inr, Bool, Bool-cases, true, false, not,
  List, [], ◌∷◌, ◌||◌, trim, length, sort_by, insert_by, ltb, ltb→lt, arith, ok, bind-eq-ok,
  ensure-eq-ok, ok-injective, subst,
}
use agent_knowledge_base_cod.Merge.{
  Uuid, ProposedMerge, ValidatedMerge, MergeInputs, empty_title, empty_content, uncited,
  not_shorter, lost_new_evidence, is_empty, contains, check_citations, missing_from, dedup_from,
  dedup, inputs_length, validate_merge,
}

-- Each id is above the one before it, the first is at least `from`.
abbrev pub StrictFrom : ℕ → List Uuid → Type 0
StrictFrom from [] = Unit
StrictFrom from (x ∷ xs) = (from ≤ x) × StrictFrom (x + 1) xs

abbrev SortedFrom : ℕ → List Uuid → Type 0
SortedFrom from [] = Unit
SortedFrom from (x ∷ xs) = (from ≤ x) × SortedFrom x xs

insert_by-SortedFrom :
    (from x : ℕ) (ys : List Uuid)
    → from ≤ x
    → SortedFrom from ys
    → SortedFrom from (insert_by ltb x ys)
insert_by-SortedFrom from x [] h s = (h, tt)
insert_by-SortedFrom from x (y ∷ ys) h s = elim (Bool-cases (ltb y x)) [
  | inl above ↦ rw above (s.0, insert_by-SortedFrom y x ys (ground (arith, above)) s.1)
  | inr not_above ↦ rw not_above (h, (ground (arith, not_above), s.1))
]

sort_by-SortedFrom : (xs : List Uuid) → SortedFrom 0 (sort_by ltb xs)
sort_by-SortedFrom [] = tt
sort_by-SortedFrom (x ∷ xs) =
    insert_by-SortedFrom 0 x (sort_by ltb xs) (omega arith) (sort_by-SortedFrom xs)

dedup-StrictFrom :
    (from x : ℕ) (xs : List Uuid) → from ≤ x → SortedFrom x xs → StrictFrom from (dedup_from x xs)
dedup-StrictFrom from x [] h s = (h, tt)
dedup-StrictFrom from x (y ∷ ys) h s = elim (Bool-cases (x == y)) [
  | inl same ↦ rw same (
      dedup-StrictFrom from x ys h
        (subst (λ (n : ℕ). SortedFrom n ys) (sym ((==_iff x y).0 same)) s.1))
  | inr other ↦ rw other (h, dedup-StrictFrom (x + 1) y ys (ground (arith, other, s.0)) s.1)
]

dedup_sort-StrictFrom : (xs : List Uuid) → SortedFrom 0 xs → StrictFrom 0 (dedup xs)
dedup_sort-StrictFrom [] s = tt
dedup_sort-StrictFrom (x ∷ xs) s = dedup-StrictFrom 0 x xs s.0 s.1

contains-insert_by :
    (id x : Uuid) (ys : List Uuid) → contains (insert_by ltb x ys) id ≡ (x == id || contains ys id)
contains-insert_by id x [] = refl
contains-insert_by id x (y ∷ ys) = ground (arith, contains-insert_by id x ys)

contains-sort_by : (id : Uuid) (xs : List Uuid) → contains (sort_by ltb xs) id ≡ contains xs id
contains-sort_by id [] = refl
contains-sort_by id (x ∷ xs) =
    ground (arith, contains-insert_by id x (sort_by ltb xs), contains-sort_by id xs)

contains-dedup_from :
    (id x : Uuid) (xs : List Uuid) → contains (dedup_from x xs) id ≡ (x == id || contains xs id)
contains-dedup_from id x [] = refl
contains-dedup_from id x (y ∷ ys) =
    ground (arith, contains-dedup_from id x ys, contains-dedup_from id y ys)

contains-dedup : (id : Uuid) (xs : List Uuid) → contains (dedup xs) id ≡ contains xs id
contains-dedup id [] = refl
contains-dedup id (x ∷ xs) = contains-dedup_from id x xs

check_citations-allowed :
    (allowed ids : List Uuid)
    → check_citations allowed ids ≡ ok tt
    → (id : Uuid) → contains ids id ≡ true
    → contains allowed id ≡ true
check_citations-allowed allowed [] h id c = cc
check_citations-allowed allowed (x ∷ xs) h id c = elim (Bool-cases (contains allowed x)) [
  | inl known ↦ elim (Bool-cases (x == id)) [
    | inl same ↦ subst (λ (n : ℕ). contains allowed n ≡ true) ((==_iff x id).0 same) known
    | inr other ↦ check_citations-allowed allowed xs (rw known at h) id (rw other at c)
  ]
  | inr foreign ↦ cc (rw foreign at h)
]

missing_from-none :
    (cited unseen : List Uuid)
    → is_empty (missing_from cited unseen) ≡ true
    → (id : Uuid) → contains unseen id ≡ true
    → contains cited id ≡ true
missing_from-none cited [] h id c = cc
missing_from-none cited (x ∷ xs) h id c = elim (Bool-cases (contains cited x)) [
  | inl known ↦ elim (Bool-cases (x == id)) [
    | inl same ↦ subst (λ (n : ℕ). contains cited n ≡ true) ((==_iff x id).0 same) known
    | inr other ↦ missing_from-none cited xs (rw known at h) id (rw other at c)
  ]
  | inr lost ↦ cc (rw lost at h)
]

-- What makes a merge safe to append.
abbrev pub IsSound : ProposedMerge → MergeInputs → ValidatedMerge → Type 0
IsSound proposed inputs merged =
    (is_empty merged.title ≡ false)
    × (is_empty merged.content ≡ false)
    × (length merged.content < inputs_length inputs)
    × StrictFrom 0 merged.evidence_ids
    × ((id : Uuid) → contains merged.evidence_ids id ≡ contains proposed.evidence_ids id)
    × ((id : Uuid)
        → contains merged.evidence_ids id ≡ true
        → contains inputs.allowed_evidence id ≡ true)
    × ((id : Uuid)
        → contains inputs.unseen_evidence id ≡ true
        → contains merged.evidence_ids id ≡ true)

not-true : (b : Bool) → not b ≡ true → b ≡ false
not-true true h = cc
not-true false h = refl

-- An accepted merge has a title and a content, is shorter than the two claims, and lists in rising
-- order, each once, just the events that the proposal cites. All of them are allowed, and none
-- that only the newer claim saw is missing.
pub validate_merge-IsSound :
    (proposed : ProposedMerge) (inputs : MergeInputs) {merged : ValidatedMerge}
    → validate_merge proposed inputs ≡ ok merged
    → IsSound proposed inputs merged
unfolding validate_merge
validate_merge-IsSound proposed inputs {merged} h =
    let cited = proposed.evidence_ids in
    let (titled, h1) = ensure-eq-ok (not (is_empty (trim proposed.title))) empty_title _ h in
    let (filled, h2) = ensure-eq-ok (not (is_empty (trim proposed.content))) empty_content _ h1 in
    let (_, h3) = ensure-eq-ok (not (is_empty cited)) uncited _ h2 in
    let (_, allowed, h4) = bind-eq-ok (check_citations inputs.allowed_evidence cited) _ h3 in
    let (shorter, h5) =
      ensure-eq-ok (ltb (length (trim proposed.content)) (inputs_length inputs))
        (not_shorter (length (trim proposed.content)) (inputs_length inputs)) _ h4 in
    let (kept, h6) =
      ensure-eq-ok (is_empty (missing_from cited inputs.unseen_evidence))
        (lost_new_evidence (missing_from cited inputs.unseen_evidence)) _ h5 in
    let same = (λ (id : Uuid). contains-dedup id (sort_by ltb cited) ∙ contains-sort_by id cited) in
    subst (IsSound proposed inputs) (ok-injective h6) (
      not-true _ titled,
      not-true _ filled,
      ltb→lt _ _ shorter,
      dedup_sort-StrictFrom (sort_by ltb cited) (sort_by-SortedFrom cited),
      same,
      (λ id c.
          check_citations-allowed inputs.allowed_evidence cited allowed id (sym (same id) ∙ c)),
      (λ id c. same id ∙ missing_from-none cited inputs.unseen_evidence kept id c),
    )
