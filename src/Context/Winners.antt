-- ===== src/Context/Winners.antt =====
-- The current memories of crates/brain-context/src/supersession.rs outrank all others of their subject.
use agent_knowledge_base_cod.Common.{
  text_lt, ◌≤◌, ◌==◌, ==_self, ◌≡◌, refl, sym, subst, inl, inr, Bool-cases, true, false, List, [],
  ◌∷◌, arith, map, All, All-append, All-filter, All-sort_by, filter, filter-All, sort_by, Text,
  text_eq, text_eq→≡, Time, Memᴰ,
}
use agent_knowledge_base_cod.Domain.Memory.{Uuid, MemoryRecord}
use agent_knowledge_base_cod.Context.{
  Lowercase, rank, is_prior, take_while, disagree, normalize_content, subject_key, Groups,
  group_all, is_before, ResolvedMemorySet, resolve_sorted, resolve_groups, standing,
  resolve_candidates,
}
use agent_knowledge_base_cod.Context.Groups.{All_weaken, IsWhole, has_subject, group_all-IsWhole}
use agent_knowledge_base_cod.Context.Ranked.{
  Descending, sort_by-Descending, take_while-All, sort_by-All, filter-All_where, distinct-same,
}

module _ (lowercase : Lowercase) where
  -- A record of the same subject has no higher rank, and at the same rank says the same.
  abbrev pub Yields : MemoryRecord → MemoryRecord → Type 0
  Yields winner r =
      (rank r ≤ rank winner)
      × (rank r ≡ rank winner
          → normalize_content lowercase r.content ≡ normalize_content lowercase winner.content)

  abbrev pub IsWinner : List MemoryRecord → MemoryRecord → Type 0
  IsWinner rivals winner =
      Memᴰ winner rivals
      × All
          (λ r.
            text_eq (subject_key lowercase r) (subject_key lowercase winner) ≡ true
            → Yields winner r)
          rivals

  same_content :
      (w : MemoryRecord) (others : List MemoryRecord)
      → disagree lowercase (w ∷ others) ≡ false
      → All
          (λ r. normalize_content lowercase r.content ≡ normalize_content lowercase w.content)
          (w ∷ others)
  same_content w others agreed = (
    refl,
    unmapped others (
        distinct-same (normalize_content lowercase w.content)
          (map (λ (r : MemoryRecord). normalize_content lowercase r.content) others) agreed),
  )
    where
      unmapped :
          (rs : List MemoryRecord)
          → All
              (λ t. t ≡ normalize_content lowercase w.content)
              (map (λ (r : MemoryRecord). normalize_content lowercase r.content) rs)
          → All
              (λ r. normalize_content lowercase r.content ≡ normalize_content lowercase w.content)
              rs
      unmapped [] h = tt
      unmapped (r ∷ rs) h = (h.0, unmapped rs h.1)

  take_while-first :
      (w : MemoryRecord) (rs : List MemoryRecord)
      → take_while (λ r. rank r == rank w) (w ∷ rs) ≡ w ∷ take_while (λ r. rank r == rank w) rs
  take_while-first w rs = rw (==_self (rank w)) refl

  -- The first of sorted records that do not disagree outranks them all.
  all_yield :
      (w : MemoryRecord) (rs : List MemoryRecord)
      → Descending (w ∷ rs)
      → disagree lowercase (w ∷ take_while (λ r. rank r == rank w) rs) ≡ false
      → All (Yields w) (w ∷ rs)
  all_yield w rs down agreed =
      let below : All (λ r. rank r ≤ rank w) (w ∷ rs) = (omega arith, down.0) in
      All_both (λ r. rank r ≤ rank w) _ (w ∷ rs) below
        (take_while-All
          (λ r. normalize_content lowercase r.content ≡ normalize_content lowercase w.content)
          (rank w) (w ∷ rs) down below
          (subst
            (All
              (λ r. normalize_content lowercase r.content ≡ normalize_content lowercase w.content))
            (sym (take_while-first w rs))
            (same_content w (take_while (λ r. rank r == rank w) rs) agreed)))
    where
      All_both :
          (P Q : MemoryRecord → Type 0) (xs : List MemoryRecord)
          → All P xs
          → All Q xs
          → All (λ r. P r × Q r) xs
      All_both P Q [] h k = tt
      All_both P Q (x ∷ xs) h k = ((h.0, k.0), All_both P Q xs h.1 k.1)

  -- What holds of the records of a subject holds of all rivals of that subject.
  abbrev Covers : List MemoryRecord → Text → List MemoryRecord → Type 1
  Covers rivals subject records =
      (Q : MemoryRecord → Type 0)
      → All Q records
      → All (λ r. text_eq (subject_key lowercase r) subject ≡ true → Q r) rivals

  resolve_sorted-IsWinner :
      (rivals : List MemoryRecord) (subject : Text) (records : List MemoryRecord)
      (found : ResolvedMemorySet)
      → Descending records
      → All (λ r. Memᴰ r rivals) records
      → All (λ r. text_eq (subject_key lowercase r) subject ≡ true) records
      → Covers rivals subject records
      → All (IsWinner rivals) found.current
      → All (IsWinner rivals) (resolve_sorted lowercase subject records found).current
  resolve_sorted-IsWinner rivals subject [] found down members same covers h = h
  resolve_sorted-IsWinner rivals subject (w ∷ rs) found down members same covers h =
      rw (take_while-first w rs)
        (elim (Bool-cases (disagree lowercase (w ∷ take_while (λ r. rank r == rank w) rs))) [
          | inl disagreed ↦ rw disagreed h
          | inr agreed ↦ rw agreed (
              All-append (IsWinner rivals) found.current (w ∷ []) h (
                (
                  members.0,
                  subst
                      (λ (t : Text).
                        All (λ r. text_eq (subject_key lowercase r) t ≡ true → Yields w r) rivals)
                      (sym (text_eq→≡ (subject_key lowercase w) subject same.0))
                      (covers (Yields w) (all_yield w rs down agreed)),
                ),
                tt,
              ))
        ])

  All_Memᴰ : (xs : List MemoryRecord) → All (λ r. Memᴰ r xs) xs
  All_Memᴰ [] = tt
  All_Memᴰ (x ∷ xs) = (Memᴰ.head refl, All_weaken (λ r m. Memᴰ.tail m) xs (All_Memᴰ xs))

  -- A whole group, sorted.
  resolve_whole :
      (rivals : List MemoryRecord) (subject : Text) (records : List MemoryRecord)
      (found : ResolvedMemorySet)
      → records ≡ filter (has_subject lowercase subject) rivals
      → All (IsWinner rivals) found.current
      → All
          (IsWinner rivals)
          (resolve_sorted lowercase subject (sort_by is_prior records) found).current
  resolve_whole rivals subject records found whole h =
      resolve_sorted-IsWinner rivals subject (sort_by is_prior records) found
        (sort_by-Descending records)
        (All-sort_by (λ r. Memᴰ r rivals) is_prior records
          (subst (All (λ r. Memᴰ r rivals)) (sym whole) (
            All-filter (λ r. Memᴰ r rivals) (has_subject lowercase subject) rivals
              (All_Memᴰ rivals))))
        (All-sort_by (λ r. has_subject lowercase subject r ≡ true) is_prior records
          (subst (All (λ r. has_subject lowercase subject r ≡ true)) (sym whole)
            (filter-All (has_subject lowercase subject) rivals)))
        (λ Q all.
          filter-All_where Q (has_subject lowercase subject) rivals
            (subst (All Q) whole (sort_by-All Q is_prior records all)))
        h

  resolve_groups-IsWinner :
      (rivals : List MemoryRecord) (groups : Groups) (found : ResolvedMemorySet)
      → All (IsWhole lowercase rivals) groups
      → All (IsWinner rivals) found.current
      → All (IsWinner rivals) (resolve_groups lowercase groups found).current
  resolve_groups-IsWinner rivals [] found whole h = h
  resolve_groups-IsWinner rivals ((subject, records) ∷ groups) found whole h =
      resolve_groups-IsWinner rivals groups
        (resolve_sorted lowercase subject (sort_by is_prior records) found) whole.1
        (resolve_whole rivals subject records found whole.0 h)

  -- Each memory that is current for a project at an instant is one of the standing candidates: the
  -- valid ones of the project that no valid one supersedes. No standing candidate of its subject
  -- has a higher rank, and those of its rank say the same.
  pub resolve_candidates-IsWinner :
      (project_id : Uuid) (as_of : Time) (candidates : List MemoryRecord)
      → All
          (IsWinner (standing project_id as_of candidates))
          (resolve_candidates lowercase project_id as_of candidates).current
  unfolding resolve_candidates
  resolve_candidates-IsWinner project_id as_of candidates =
      let rivals = standing project_id as_of candidates in
      All-sort_by (IsWinner rivals)
        (λ a b. text_lt (subject_key lowercase a) (subject_key lowercase b)) _
        (resolve_groups-IsWinner rivals (sort_by is_before (group_all lowercase rivals [])) _
          (All-sort_by (IsWhole lowercase rivals) is_before (group_all lowercase rivals [])
            (group_all-IsWhole lowercase rivals))
          tt)
