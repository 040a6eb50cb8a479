-- ===== src/Context/Partition.antt =====
-- Each candidate of a project lands once in what crates/brain-context/src/supersession.rs resolves.
use agent_knowledge_base_cod.Common.{
  count_where-append, count_where-sort_by, count_where-filter, ℕ, ◌+◌, ◌≡◌, refl, ◌∙◌, inl, inr,
  Bool, Bool-cases, not, List, [], ◌∷◌, ◌++◌, arith, ◌==◌, length, drop, filter, insert_by, sort_by,
  count_where, Text, text_eq, Time,
}
use agent_knowledge_base_cod.Domain.Memory.{Uuid, MemoryRecord}
use agent_knowledge_base_cod.Context.{
  Lowercase, rank, is_prior, take_while, highest_rank, disagree, subject_key, Groups, push_group,
  group_all, is_before, ResolvedMemorySet, MemoryConflict, settle, resolve_sorted, resolve_groups,
  sort_found, scoped, active, standing, is_valid, is_superseded, is_later, resolve_candidates,
}

-- The records in front, and those that follow.
count_where-take_while :
    {A : Type 0} (p q : A → Bool) (xs : List A)
    → count_where p (take_while q xs) + count_where p (drop (length (take_while q xs)) xs)
      ≡ count_where p xs
count_where-take_while p q [] = omega arith
count_where-take_while p q (x ∷ xs) = elim (Bool-cases (q x)) [
  | inl holds ↦ rw holds (ground (arith, count_where-take_while p q xs))
  | inr ends ↦ rw ends (ground arith)
]

module _ (p : MemoryRecord → Bool) where
  abbrev count_groups : Groups → ℕ
  count_groups [] = 0
  count_groups (g ∷ gs) = count_where p g.1 + count_groups gs

  abbrev pub count_conflicts : List MemoryConflict → ℕ
  count_conflicts [] = 0
  count_conflicts (c ∷ cs) = count_where p c.records + count_conflicts cs

  -- The records of all three lists that pass the test.
  abbrev pub count_found : ResolvedMemorySet → ℕ
  count_found found =
      count_where p found.current + count_where p found.historical + count_conflicts found.conflicts

  count_groups-push_group :
      (key : Text) (r : MemoryRecord) (groups : Groups)
      → count_groups (push_group key r groups) ≡ count_where p (r ∷ []) + count_groups groups
  count_groups-push_group key r [] = ground arith
  count_groups-push_group key r ((other, records) ∷ groups) =
      elim (Bool-cases (text_eq other key)) [
        | inl same ↦ rw (same, count_where-append p records (r ∷ [])) (omega arith)
        | inr different ↦ rw (different, count_groups-push_group key r groups) (omega arith)
      ]

  count_groups-insert_by :
      (g : Text × List MemoryRecord) (groups : Groups)
      → count_groups (insert_by is_before g groups) ≡ count_where p g.1 + count_groups groups
  count_groups-insert_by g [] = omega arith
  count_groups-insert_by g (h ∷ groups) = elim (Bool-cases (is_before h g)) [
    | inl first ↦ rw (first, count_groups-insert_by g groups) (omega arith)
    | inr last ↦ rw last (omega arith)
  ]

  count_groups-sort_by :
      (groups : Groups) → count_groups (sort_by is_before groups) ≡ count_groups groups
  count_groups-sort_by [] = refl
  count_groups-sort_by (g ∷ groups) =
      rw (count_groups-insert_by g (sort_by is_before groups), count_groups-sort_by groups) refl

  count_conflicts-append :
      (cs ds : List MemoryConflict)
      → count_conflicts (cs ++ ds) ≡ count_conflicts cs + count_conflicts ds
  count_conflicts-append [] ds = omega arith
  count_conflicts-append (c ∷ cs) ds = rw (count_conflicts-append cs ds) (omega arith)

  count_conflicts-insert_by :
      (before : MemoryConflict → MemoryConflict → Bool) (c : MemoryConflict)
      (cs : List MemoryConflict)
      → count_conflicts (insert_by before c cs) ≡ count_where p c.records + count_conflicts cs
  count_conflicts-insert_by before c [] = omega arith
  count_conflicts-insert_by before c (d ∷ cs) = elim (Bool-cases (before d c)) [
    | inl first ↦ rw (first, count_conflicts-insert_by before c cs) (omega arith)
    | inr last ↦ rw last (omega arith)
  ]

  count_conflicts-sort_by :
      (before : MemoryConflict → MemoryConflict → Bool) (cs : List MemoryConflict)
      → count_conflicts (sort_by before cs) ≡ count_conflicts cs
  count_conflicts-sort_by before [] = refl
  count_conflicts-sort_by before (c ∷ cs) =
      rw (count_conflicts-insert_by before c (sort_by before cs), count_conflicts-sort_by before cs)
        refl

  count_settle :
      (contenders rest : List MemoryRecord) (found : ResolvedMemorySet)
      → count_found (settle contenders rest found)
        ≡ count_found found + count_where p contenders + count_where p rest
  count_settle [] rest found = rw (count_where-append p found.historical rest) (omega arith)
  count_settle (winner ∷ others) rest found =
      rw
        (
          count_where-append p (found.historical ++ others) rest,
          count_where-append p found.historical others,
          count_where-append p found.current (winner ∷ []),
        )
        (ground arith)

  module _ (lowercase : Lowercase) where
    count_resolve_sorted :
        (subject : Text) (records : List MemoryRecord) (found : ResolvedMemorySet)
        → count_found (resolve_sorted lowercase subject records found)
          ≡ count_found found + count_where p records
    count_resolve_sorted subject records found =
        let contenders = take_while (λ r. rank r == highest_rank records) records in
        let rest = drop (length contenders) records in
        let split = count_where-take_while p (λ r. rank r == highest_rank records) records in
        elim (Bool-cases (disagree lowercase contenders)) [
          | inl disagreed ↦
              rw
                (
                  disagreed,
                  count_where-append p found.historical rest,
                  count_conflicts-append found.conflicts
                      (record { subject = subject; records = contenders } ∷ []),
                )
                (omega (arith, split))
          | inr agreed ↦ rw (agreed, count_settle contenders rest found) (omega (arith, split))
        ]

    count_resolve_groups :
        (groups : Groups) (found : ResolvedMemorySet)
        → count_found (resolve_groups lowercase groups found)
          ≡ count_found found + count_groups groups
    count_resolve_groups [] found = omega arith
    count_resolve_groups ((subject, records) ∷ groups) found =
        let sorted = sort_by is_prior records in
        omega (
          arith,
          count_resolve_groups groups (resolve_sorted lowercase subject sorted found),
          count_resolve_sorted subject sorted found,
          count_where-sort_by p is_prior records,
        )

    count_group_all :
        (rs : List MemoryRecord) (groups : Groups)
        → count_groups (group_all lowercase rs groups) ≡ count_where p rs + count_groups groups
    count_group_all [] groups = omega arith
    count_group_all (r ∷ rs) groups = ground (
      arith,
      count_group_all rs (push_group (subject_key lowercase r) r groups),
      count_groups-push_group (subject_key lowercase r) r groups,
    )

    count_sort_found :
        (found : ResolvedMemorySet) → count_found (sort_found lowercase found) ≡ count_found found
    count_sort_found found =
        rw
          (
            count_where-sort_by p _ found.current,
            count_where-sort_by p is_later found.historical,
            count_conflicts-sort_by _ found.conflicts,
          )
          refl

    -- Of the records that pass a test, whichever it is, as many are among the current, the
    -- historical and the conflicting ones as among the candidates of the project: resolving them
    -- neither loses a record nor gives one twice.
    pub resolve_candidates-count :
        (project_id : Uuid) (as_of : Time) (candidates : List MemoryRecord)
        → count_found (resolve_candidates lowercase project_id as_of candidates)
          ≡ count_where p (scoped project_id candidates)
    unfolding resolve_candidates
    resolve_candidates-count project_id as_of candidates =
        let all = scoped project_id candidates in
        let valid = active project_id as_of candidates in
        let rivals = standing project_id as_of candidates in
        let groups = sort_by is_before (group_all lowercase rivals []) in
        let before : ResolvedMemorySet = record {
          current = [];
          historical =
              filter (λ r. not (is_valid as_of r)) all ++ filter (is_superseded valid) valid;
          conflicts = [];
        } in
        count_sort_found (resolve_groups lowercase groups before)
        ∙ omega (
          arith,
          count_resolve_groups groups before,
          count_groups-sort_by (group_all lowercase rivals []),
          count_group_all rivals [],
          count_where-append p (filter (λ r. not (is_valid as_of r)) all)
              (filter (is_superseded valid) valid),
          count_where-filter p (is_superseded valid) valid,
          count_where-filter p (is_valid as_of) all,
        )
