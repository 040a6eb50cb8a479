-- ===== src/Context/Budget/Citing.antt =====
-- What `compile_blocks` of crates/brain-context/src/compiler.rs cites of the blocks that it writes.
use agent_knowledge_base_cod.Common.{
  ◌≡◌, refl, subst, ◌∙◌, inl, inr, Bool, Bool-cases, true, false, ◌||◌, ◌&&◌, not, List, [], ◌∷◌,
  ◌++◌, arith, any, any-append, is_nil, Text, text_eq, text_eq→≡, text_eq_comm, if◌then◌else◌,
}
use agent_knowledge_base_cod.Context.Compile.{ContextBlock, Citation, add_citations}

-- The citations of blocks behind others.
abbrev pub cites_of : List ContextBlock → List Citation → List Citation
cites_of [] cited = cited
cites_of (b ∷ blocks) cited = cites_of blocks (add_citations b.citations cited)

abbrev pub has_cited : Text → List Citation → Bool
has_cited key cited = any (λ (c : Citation). text_eq c.key key) cited

-- A key at most once.
abbrev pub CitesOnce : List Citation → Type 0
CitesOnce [] = Unit
CitesOnce (c ∷ cs) = (has_cited c.key cs ≡ false) × CitesOnce cs

abbrev add_citation : Citation → List Citation → List Citation
add_citation c cited = if has_cited c.key cited then cited else cited ++ (c ∷ [])

has_cited-add_citation :
    (key : Text) (c : Citation) (cited : List Citation)
    → has_cited key (add_citation c cited) ≡ (has_cited key cited || text_eq c.key key)
has_cited-add_citation key c cited = elim (Bool-cases (has_cited c.key cited)) [
  | inl had ↦ rw had (elim (Bool-cases (text_eq c.key key)) [
    | inl same ↦
        rw (subst (λ (k : Text). has_cited k cited ≡ true) (text_eq→≡ c.key key same) had) refl
    | inr apart ↦ rw apart (ground arith)
  ])
  | inr new ↦
      rw (new, any-append (λ (d : Citation). text_eq d.key key) cited (c ∷ [])) (ground arith)
]

has_cited-add_citations :
    (key : Text) (cs cited : List Citation)
    → has_cited key (add_citations cs cited) ≡ (has_cited key cited || has_cited key cs)
has_cited-add_citations key [] cited = ground arith
has_cited-add_citations key (c ∷ cs) cited = ground (
  arith,
  has_cited-add_citations key cs (add_citation c cited),
  has_cited-add_citation key c cited,
)

pub has_cited-cites_of :
    (key : Text) (blocks : List ContextBlock) (cited : List Citation)
    → has_cited key (cites_of blocks cited)
      ≡ (has_cited key cited || any (λ b. has_cited key b.citations) blocks)
has_cited-cites_of key [] cited = ground arith
has_cited-cites_of key (b ∷ blocks) cited = ground (
  arith,
  has_cited-cites_of key blocks (add_citations b.citations cited),
  has_cited-add_citations key b.citations cited,
)

append-CitesOnce :
    (cited : List Citation) (c : Citation)
    → CitesOnce cited
    → has_cited c.key cited ≡ false
    → CitesOnce (cited ++ (c ∷ []))
append-CitesOnce [] c h new = (refl, tt)
append-CitesOnce (d ∷ cited) c h new = (
  any-append (λ (e : Citation). text_eq e.key d.key) cited (c ∷ [])
      ∙ last (has_cited d.key cited) h.0
          (text_eq_comm c.key d.key ∙ first (text_eq d.key c.key) (has_cited c.key cited) new),
  append-CitesOnce cited c h.1 (second (text_eq d.key c.key) (has_cited c.key cited) new),
)
  where
    last : (b : Bool) {s : Bool} → b ≡ false → s ≡ false → (b || (s || false)) ≡ false
    last b h k = ground arith

    first : (a b : Bool) → (a || b) ≡ false → a ≡ false
    first a b h = ground arith

    second : (a b : Bool) → (a || b) ≡ false → b ≡ false
    second a b h = ground arith

add_citations-CitesOnce :
    (cs cited : List Citation) → CitesOnce cited → CitesOnce (add_citations cs cited)
add_citations-CitesOnce [] cited h = h
add_citations-CitesOnce (c ∷ cs) cited h =
    add_citations-CitesOnce cs (add_citation c cited) (elim (Bool-cases (has_cited c.key cited)) [
      | inl had ↦ rw had h
      | inr new ↦ rw new (append-CitesOnce cited c h new)
    ])

pub cites_of-CitesOnce :
    (blocks : List ContextBlock) (cited : List Citation)
    → CitesOnce cited
    → CitesOnce (cites_of blocks cited)
cites_of-CitesOnce [] cited h = h
cites_of-CitesOnce (b ∷ blocks) cited h =
    cites_of-CitesOnce blocks (add_citations b.citations cited)
      (add_citations-CitesOnce b.citations cited h)

-- Some block cites something.
abbrev pub is_cited : List ContextBlock → Bool
is_cited blocks = any (λ (b : ContextBlock). not (is_nil b.citations)) blocks

is_nil-add_citation : (c : Citation) (cited : List Citation) → is_nil (add_citation c cited) ≡ false
is_nil-add_citation c [] = refl
is_nil-add_citation c (d ∷ cited) = elim (Bool-cases (has_cited c.key (d ∷ cited))) [
  | inl had ↦ rw had refl
  | inr new ↦ rw new refl
]

is_nil-add_citations :
    (cs cited : List Citation) → is_nil (add_citations cs cited) ≡ (is_nil cited && is_nil cs)
is_nil-add_citations [] cited = ground arith
is_nil-add_citations (c ∷ cs) cited =
    ground (arith, is_nil-add_citations cs (add_citation c cited), is_nil-add_citation c cited)

pub is_nil-cites_of :
    (blocks : List ContextBlock) (cited : List Citation)
    → is_nil (cites_of blocks cited) ≡ (is_nil cited && not (is_cited blocks))
is_nil-cites_of [] cited = ground arith
is_nil-cites_of (b ∷ blocks) cited = ground (
  arith,
  is_nil-cites_of blocks (add_citations b.citations cited),
  is_nil-add_citations b.citations cited,
)
