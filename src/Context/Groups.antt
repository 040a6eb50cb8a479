-- ===== src/Context/Groups.antt =====
-- The groups of crates/brain-context/src/supersession.rs: one for each subject, of all its records.
use agent_knowledge_base_cod.Common.{
  append_nil, append_assoc, ◌≡◌, refl, sym, ap, ◌∙◌, inl, inr, Bool, Bool-cases, false, ◌||◌, List,
  [], ◌∷◌, ◌++◌, arith, filter, any, All, Text, text_eq, text_eq→≡, text_eq_self, text_eq_comm,
  if◌then◌else◌,
}
use agent_knowledge_base_cod.Domain.Memory.{MemoryRecord}
use agent_knowledge_base_cod.Context.{Lowercase, Groups, push_group, subject_key, group_all}

-- The records of a subject.
abbrev pub lookup : Text → Groups → List MemoryRecord
lookup key [] = []
lookup key ((other, records) ∷ groups) = if text_eq other key then records else lookup key groups

abbrev pub has_group : Text → Text × List MemoryRecord → Bool
has_group key group = text_eq group.0 key

abbrev pub HasOnce : Groups → Type 0
HasOnce [] = Unit
HasOnce ((key, records) ∷ groups) = (any (has_group key) groups ≡ false) × HasOnce groups

-- What a record adds to the records of a key.
abbrev added : Text → Text → MemoryRecord → List MemoryRecord
added subject key r = if text_eq subject key then r ∷ [] else []

lookup-push_group :
    (subject key : Text) (r : MemoryRecord) (groups : Groups)
    → lookup key (push_group subject r groups) ≡ lookup key groups ++ added subject key r
lookup-push_group subject key r [] = refl
lookup-push_group subject key r ((other, records) ∷ groups) =
    elim (Bool-cases (text_eq other subject)) [
      | inl same ↦
          let agree = ap (λ t. text_eq t key) (text_eq→≡ other subject same) in
          elim (Bool-cases (text_eq other key)) [
            | inl hit ↦ rw (same, hit, sym agree ∙ hit) refl
            | inr miss ↦ rw (same, miss, sym agree ∙ miss) (sym (append_nil (lookup key groups)))
          ]
      | inr different ↦ elim (Bool-cases (text_eq other key)) [
        | inl hit ↦
            let other_key =
              sym (text_eq_comm key subject)
              ∙ ap (λ t. text_eq t subject) (sym (text_eq→≡ other key hit))
              ∙ different in
            rw (different, hit, other_key) (sym (append_nil records))
        | inr miss ↦ rw (different, miss) (lookup-push_group subject key r groups)
      ]
    ]

has_group-push_group :
    (subject key : Text) (r : MemoryRecord) (groups : Groups)
    → any (has_group key) (push_group subject r groups)
      ≡ (any (has_group key) groups || text_eq subject key)
has_group-push_group subject key r [] = ground arith
has_group-push_group subject key r ((other, records) ∷ groups) =
    elim (Bool-cases (text_eq other subject)) [
      | inl same ↦ rw (text_eq→≡ other subject same, text_eq_self subject) (ground arith)
      | inr different ↦ rw different (ground (arith, has_group-push_group subject key r groups))
    ]

push_group-HasOnce :
    (subject : Text) (r : MemoryRecord) (groups : Groups)
    → HasOnce groups
    → HasOnce (push_group subject r groups)
push_group-HasOnce subject r [] h = (refl, tt)
push_group-HasOnce subject r ((other, records) ∷ groups) h =
    elim (Bool-cases (text_eq other subject)) [
      | inl same ↦ rw same h
      | inr different ↦ rw different (
        rw (has_group-push_group subject other r groups, h.0, text_eq_comm subject other) different,
        push_group-HasOnce subject r groups h.1,
      )
    ]

All_skip :
    (key : Text) (records : List MemoryRecord) (groups gs : Groups)
    → any (has_group key) gs ≡ false
    → All (λ (g : Text × List MemoryRecord). lookup g.0 groups ≡ g.1) gs
    → All (λ (g : Text × List MemoryRecord). lookup g.0 ((key, records) ∷ groups) ≡ g.1) gs
All_skip key records groups [] new h = tt
All_skip key records groups (g ∷ gs) new h =
    let (other, others) = ||-false (text_eq g.0 key) (any (has_group key) gs) new in
    (rw (text_eq_comm key g.0, other) h.0, All_skip key records groups gs others h.1)
  where
    ||-false : (a b : Bool) → (a || b) ≡ false → (a ≡ false) × (b ≡ false)
    ||-false a b h = ground arith

All_lookup :
    (groups : Groups)
    → HasOnce groups
    → All (λ (g : Text × List MemoryRecord). lookup g.0 groups ≡ g.1) groups
All_lookup [] h = tt
All_lookup ((key, records) ∷ groups) h =
    (rw (text_eq_self key) refl, All_skip key records groups groups h.0 (All_lookup groups h.1))

pub All_weaken :
    {A : Type 0} {P Q : A → Type 0} (f : (x : A) → P x → Q x) (xs : List A) → All P xs → All Q xs
All_weaken f [] h = tt
All_weaken f (x ∷ xs) h = (f x h.0, All_weaken f xs h.1)

module _ (lowercase : Lowercase) where
  abbrev pub has_subject : Text → MemoryRecord → Bool
  has_subject key r = text_eq (subject_key lowercase r) key

  lookup-group_all :
      (key : Text) (rs : List MemoryRecord) (groups : Groups)
      → lookup key (group_all lowercase rs groups)
        ≡ lookup key groups ++ filter (has_subject key) rs
  lookup-group_all key [] groups = sym (append_nil (lookup key groups))
  lookup-group_all key (r ∷ rs) groups =
      lookup-group_all key rs (push_group (subject_key lowercase r) r groups)
      ∙ ap (λ found. found ++ filter (has_subject key) rs)
          (lookup-push_group (subject_key lowercase r) key r groups)
      ∙ append_assoc (lookup key groups) _ _
      ∙ ap (λ rest. lookup key groups ++ rest) (ground arith)

  group_all-HasOnce :
      (rs : List MemoryRecord) (groups : Groups)
      → HasOnce groups
      → HasOnce (group_all lowercase rs groups)
  group_all-HasOnce [] groups h = h
  group_all-HasOnce (r ∷ rs) groups h =
      group_all-HasOnce rs (push_group (subject_key lowercase r) r groups)
        (push_group-HasOnce (subject_key lowercase r) r groups h)

  -- A group has the records of its subject, in their order.
  abbrev pub IsWhole : List MemoryRecord → Text × List MemoryRecord → Type 0
  IsWhole rs group = group.1 ≡ filter (has_subject group.0) rs

  pub group_all-IsWhole : (rs : List MemoryRecord) → All (IsWhole rs) (group_all lowercase rs [])
  group_all-IsWhole rs =
      All_weaken (λ g whole. sym whole ∙ lookup-group_all g.0 rs []) (group_all lowercase rs [])
        (All_lookup (group_all lowercase rs []) (group_all-HasOnce rs [] tt))
