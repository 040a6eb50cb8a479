-- ===== src/Jobs/Manifests/Entries.antt =====
-- The entries of crates/brain-store/src/jobs.rs: their order, and those of a job in the table.
use agent_knowledge_base_cod.Common.{
  ℕ, ◌==◌, ==_iff, ==_self, ◌&&◌, ◌||◌, ◌≡◌, refl, sym, ap, subst, ◌∙◌, inl, inr, Bool, Bool-cases,
  true, false, List, [], ◌∷◌, ◌++◌, Memᴰ, arith, append_nil, any, Text, text_eq, text_eq→≡,
  text_eq_self, text_lt, text_lt-irreflexive, text_lt-transitive, text_lt-connected, ltb,
  if◌then◌else◌, IsStrictOrder, IsConnected,
}
use agent_knowledge_base_cod.Jobs.Model.{Uuid, RedactionRow}
use agent_knowledge_base_cod.Jobs.Redactions.{
  RedactionManifestEntry, redaction_row, has_key, entries_of, entry_before,
}

abbrev pub same_entry : RedactionManifestEntry → RedactionManifestEntry → Bool
same_entry a b = text_eq a.category b.category && a.token_hash == b.token_hash

same_record :
    (a b : RedactionManifestEntry) → a.category ≡ b.category → a.token_hash ≡ b.token_hash → a ≡ b
same_record a b categories hashes =
    let with_category : Text → RedactionManifestEntry =
      λ c. record { category = c; token_hash = a.token_hash } in
    let with_hash : ℕ → RedactionManifestEntry =
      λ n. record { category = b.category; token_hash = n } in
    ap with_category categories ∙ ap with_hash hashes

same_entry→≡ : (a b : RedactionManifestEntry) → same_entry a b ≡ true → a ≡ b
same_entry→≡ a b h =
    let categories = text_eq→≡ a.category b.category (ground arith) in
    let hashes = (==_iff a.token_hash b.token_hash).0 (ground arith) in
    same_record a b categories hashes

same_entry_self : (a : RedactionManifestEntry) → same_entry a a ≡ true
same_entry_self a = ground (arith, text_eq_self a.category)

-- `entry_before` of two categories and two hashes.
abbrev is_before : Text → Text → ℕ → ℕ → Bool
is_before s t m n = text_lt s t || (text_eq s t && ltb m n)

is_before-transitive :
    (s t u : Text) (m n o : ℕ)
    → is_before s t m n ≡ true
    → is_before t u n o ≡ true
    → is_before s u m o ≡ true
is_before-transitive s t u m n o h k = elim (Bool-cases (text_eq s t)) [
  | inl same ↦
      let e = text_eq→≡ s t same in
      let from_s = subst (λ (x : Text). is_before x u n o ≡ true) (sym e) k in
      let not_less = subst (λ (x : Text). text_lt s x ≡ false) e (text_lt-irreflexive s) in
      ground (arith, from_s, not_less)
  | inr apart ↦ elim (Bool-cases (text_eq t u)) [
    | inl same ↦
        let less = subst (λ (x : Text). text_lt s x ≡ true) (text_eq→≡ t u same) (ground arith) in
        ground (arith, less)
    | inr further ↦
        let less = text_lt-transitive s t u (ground arith) (ground arith) in ground (arith, less)
  ]
]

pub entry_order : IsStrictOrder entry_before
entry_order = record {
  irreflexive = λ a. ground (arith, text_lt-irreflexive a.category);
  transitive = λ a b c h k.
      is_before-transitive a.category b.category c.category a.token_hash b.token_hash c.token_hash h
        k;
}

pub entry_connected : IsConnected entry_before
entry_connected a b h k =
    let same = text_lt-connected a.category b.category (ground arith) (ground arith) in
    let back = text_lt-connected b.category a.category (ground arith) (ground arith) in
    same_record a b (text_eq→≡ a.category b.category same)
      ((==_iff a.token_hash b.token_hash).0 (ground (arith, same, back)))

-- Membership as `has_key` tests it.
pub mem-any :
    (a : RedactionManifestEntry) (xs : List RedactionManifestEntry)
    → Memᴰ a xs
    → any (λ b. same_entry b a) xs ≡ true
mem-any a [] m = elim m [ ]
mem-any a (x ∷ xs) (Memᴰ.head e) =
    subst (λ (b : RedactionManifestEntry). any (λ c. same_entry c b) (x ∷ xs) ≡ true) (sym e)
      (rw (same_entry_self x) refl)
mem-any a (x ∷ xs) (Memᴰ.tail m) = ground (arith, mem-any a xs m)

pub any-mem :
    (a : RedactionManifestEntry) (xs : List RedactionManifestEntry)
    → any (λ b. same_entry b a) xs ≡ true
    → Memᴰ a xs
any-mem a [] h = cc
any-mem a (x ∷ xs) h = elim (Bool-cases (same_entry x a)) [
  | inl same ↦ Memᴰ.head (sym (same_entry→≡ x a same))
  | inr other ↦ Memᴰ.tail (any-mem a xs (rw other at h))
]

pub any-entries_of :
    (job : Uuid) (a : RedactionManifestEntry) (rows : List RedactionRow)
    → any (has_key job a) rows ≡ any (λ b. same_entry b a) (entries_of job rows)
any-entries_of job a [] = refl
any-entries_of job a (row ∷ rows) = elim (Bool-cases (row.job_id == job)) [
  | inl own ↦ rw (own, any-entries_of job a rows) refl
  | inr other ↦ rw (other, any-entries_of job a rows) refl
]

entries_of-append :
    (job other : Uuid) (a : RedactionManifestEntry) (rows : List RedactionRow)
    → entries_of other (rows ++ (redaction_row job a ∷ []))
      ≡ entries_of other rows ++ (if job == other then a ∷ [] else [])
entries_of-append job other a [] = elim (Bool-cases (job == other)) [
  | inl own ↦ rw own refl
  | inr apart ↦ rw apart refl
]
entries_of-append job other a (row ∷ rows) = elim (Bool-cases (row.job_id == other)) [
  | inl own ↦ rw (own, entries_of-append job other a rows) refl
  | inr apart ↦ rw (apart, entries_of-append job other a rows) refl
]

pub entries_of-append_self :
    (job : Uuid) (a : RedactionManifestEntry) (rows : List RedactionRow)
    → entries_of job (rows ++ (redaction_row job a ∷ [])) ≡ entries_of job rows ++ (a ∷ [])
entries_of-append_self job a rows =
    entries_of-append job job a rows
    ∙ ap (λ (b : Bool). entries_of job rows ++ (if b then a ∷ [] else [])) (==_self job)

pub entries_of-append_other :
    (job other : Uuid) (a : RedactionManifestEntry) (rows : List RedactionRow)
    → (job == other) ≡ false
    → entries_of other (rows ++ (redaction_row job a ∷ [])) ≡ entries_of other rows
entries_of-append_other job other a rows apart =
    entries_of-append job other a rows
    ∙ ap (λ (b : Bool). entries_of other rows ++ (if b then a ∷ [] else [])) apart
    ∙ append_nil (entries_of other rows)
