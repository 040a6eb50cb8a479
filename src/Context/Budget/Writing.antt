-- ===== src/Context/Budget/Writing.antt =====
-- How `compile_blocks` of crates/brain-context/src/compiler.rs writes blocks while they fit.
use agent_knowledge_base_cod.Common.{
  ℕ, suc, ◌≤◌, ◌<◌, ◌≡◌, refl, sym, ap, subst, ◌∙◌, inl, inr, Bool, Bool-cases, true, false, ◌||◌,
  List, [], ◌∷◌, arith, any, contains, AreDistinct, add_all, contains-add_all, add_all-AreDistinct,
  length, ltb, Text,
}
use agent_knowledge_base_cod.Domain.Memory.{Uuid}
use agent_knowledge_base_cod.Context.Budget.Citing.{cites_of}
use agent_knowledge_base_cod.Context.Compile.{
  token_count, ContextBlock, render, Written, paragraph, include_block, write_block, write_blocks,
}

-- The blocks that are kept behind a text: each in its turn, if it fits behind the text and those
-- that were kept before it.
pub data Kept (max_tokens : ℕ) : Text → List ContextBlock → List ContextBlock → Type 0 where
  done : {text : Text} → Kept max_tokens text [] []
  keep :
      (b : ContextBlock) {text : Text} {kept blocks : List ContextBlock}
      → token_count (paragraph text (render b)) ≤ max_tokens
      → Kept max_tokens (paragraph text (render b)) kept blocks
      → Kept max_tokens text (b ∷ kept) (b ∷ blocks)
  skip :
      (b : ContextBlock) {text : Text} {kept blocks : List ContextBlock}
      → max_tokens < token_count (paragraph text (render b))
      → Kept max_tokens text kept blocks
      → Kept max_tokens text kept (b ∷ blocks)

Kept-length :
    (max_tokens : ℕ) {text : Text} {kept blocks : List ContextBlock}
    → Kept max_tokens text kept blocks
    → length kept ≤ length blocks
Kept-length max_tokens done = omega arith
Kept-length max_tokens (keep b fits more) = omega (arith, Kept-length max_tokens more)
Kept-length max_tokens (skip b long more) = omega (arith, Kept-length max_tokens more)

-- A text with paragraphs for blocks.
abbrev pub body : Text → List ContextBlock → Text
body text [] = text
body text (b ∷ blocks) = body (paragraph text (render b)) blocks

-- The ids of blocks, each once.
abbrev pub ids_of : (ContextBlock → List Uuid) → List ContextBlock → List Uuid → List Uuid
ids_of f [] ids = ids
ids_of f (b ∷ blocks) ids = ids_of f blocks (add_all (f b) ids)

pub contains-ids_of :
    (f : ContextBlock → List Uuid) (blocks : List ContextBlock) (ids : List Uuid) (id : Uuid)
    → contains (ids_of f blocks ids) id ≡ (contains ids id || any (λ b. contains (f b) id) blocks)
contains-ids_of f [] ids id = ground arith
contains-ids_of f (b ∷ blocks) ids id =
    ground (arith, contains-ids_of f blocks (add_all (f b) ids) id, contains-add_all (f b) ids id)

pub ids_of-AreDistinct :
    (f : ContextBlock → List Uuid) (blocks : List ContextBlock) (ids : List Uuid)
    → AreDistinct ids
    → AreDistinct (ids_of f blocks ids)
ids_of-AreDistinct f [] ids h = h
ids_of-AreDistinct f (b ∷ blocks) ids h =
    ids_of-AreDistinct f blocks (add_all (f b) ids) (add_all-AreDistinct (f b) ids h)

-- What the loop has written of the blocks that it kept.
pub record HasWritten (max_tokens : ℕ) (before : Written) (blocks kept : List ContextBlock)
    (after : Written) : Type 0 where
  pub part : Kept max_tokens before.text kept blocks
  pub text : after.text ≡ body before.text kept
  pub events : after.evidence_ids ≡ ids_of (λ b. b.event_ids) kept before.evidence_ids
  pub memories :
      after.memory_version_ids ≡ ids_of (λ b. b.memory_version_ids) kept before.memory_version_ids
  pub cites : after.citations ≡ cites_of kept before.citations
  pub cut : after.truncated ≡ (before.truncated || ltb (length kept) (length blocks))

after_block :
    (max_tokens : ℕ) (written next : Written) (b : ContextBlock) (blocks : List ContextBlock)
    → write_block max_tokens written b ≡ next
    → (kept : List ContextBlock) × HasWritten max_tokens written
        (b ∷ blocks)
        kept
        (write_blocks max_tokens next blocks)
    → (kept : List ContextBlock) × HasWritten max_tokens written
        (b ∷ blocks)
        kept
        (write_blocks max_tokens written (b ∷ blocks))
after_block max_tokens written next b blocks same h =
    subst
      (λ (w : Written).
        (kept : List ContextBlock) × HasWritten max_tokens written (b ∷ blocks) kept
          (write_blocks max_tokens w blocks))
      (sym same) h

pub write_blocks-HasWritten :
    (max_tokens : ℕ) (written : Written) (blocks : List ContextBlock)
    → (kept : List ContextBlock) × HasWritten max_tokens written blocks kept
        (write_blocks max_tokens written blocks)
write_blocks-HasWritten max_tokens written [] = (
  [],
  record {
    part = done;
    text = refl;
    events = refl;
    memories = refl;
    cites = refl;
    cut = ground arith;
  },
)
write_blocks-HasWritten max_tokens written (b ∷ blocks) =
    let size = token_count (paragraph written.text (render b)) in
    elim (Bool-cases (ltb max_tokens size)) [
      | inl long ↦
          let (kept, w) =
            write_blocks-HasWritten max_tokens (record written { truncated = true }) blocks in
          after_block max_tokens written (record written { truncated = true }) b blocks
            (rw long refl)
            (
              kept,
              record {
                part = skip b (too_long max_tokens size long) w.part;
                text = w.text;
                events = w.events;
                memories = w.memories;
                cites = w.cites;
                cut =
                    w.cut
                    ∙ shorter written.truncated (length kept) (length blocks)
                        (Kept-length max_tokens w.part);
              },
            )
      | inr short ↦
          let (kept, w) = write_blocks-HasWritten max_tokens (include_block written b) blocks in
          after_block max_tokens written (include_block written b) b blocks (rw short refl) (
            b ∷ kept,
            record {
              part = keep b (not_long size max_tokens short) w.part;
              text = w.text;
              events = w.events;
              memories = w.memories;
              cites = w.cites;
              cut = w.cut ∙ ap (λ t. written.truncated || t) (both (length kept) (length blocks));
            },
          )
    ]
  where
    too_long : (m n : ℕ) → ltb m n ≡ true → m < n
    too_long m n h = ground arith

    not_long : (n m : ℕ) → ltb m n ≡ false → n ≤ m
    not_long n m h = ground arith

    shorter : (t : Bool) (m n : ℕ) → m ≤ n → (true || ltb m n) ≡ (t || ltb m (suc n))
    shorter t m n h = ground arith

    both : (m n : ℕ) → ltb m n ≡ ltb (suc m) (suc n)
    both m n = ground arith

-- The last text fits where the first does.
pub body-fits :
    (max_tokens : ℕ) {text : Text} {kept blocks : List ContextBlock}
    → token_count text ≤ max_tokens
    → Kept max_tokens text kept blocks
    → token_count (body text kept) ≤ max_tokens
body-fits max_tokens fits done = fits
body-fits max_tokens fits (keep b short more) = body-fits max_tokens short more
body-fits max_tokens fits (skip b long more) = body-fits max_tokens fits more
