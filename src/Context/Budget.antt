-- ===== src/Context/Budget.antt =====
-- What a context of crates/brain-context/src/compiler.rs says, and that it fits its budget of tokens.
mod Citing
mod Writing
pub use Citing.*
pub use Writing.*
use Prim.Native.Nat.{min}
use agent_knowledge_base_cod.Common.{
  ℕ, ◌≤◌, ◌<◌, ◌≡◌, ◌⊎◌, refl, sym, ap, subst, ◌∙◌, inl, inr, Bool, Bool-cases, true, false, ◌||◌,
  not, List, [], ◌∷◌, arith, any, contains, AreDistinct, is_nil, length, ltb, leb, leb→le, Text,
}
use agent_knowledge_base_cod.Domain.Memory.{Uuid}
use agent_knowledge_base_cod.Context.Compile.{
  token_count, hard_max_tokens, ContextQuery, effective_max_tokens, ContextBlock, CompiledContext,
  no_history_message, no_history, Written, paragraph, citation_index, finish, is_some, header,
  start, compile_blocks,
}

module _ (show : Uuid → Text) where
  -- The blocks that are kept behind the header.
  abbrev IsKept : ContextQuery → List ContextBlock → List ContextBlock → Type 0
  IsKept query kept blocks = Kept (effective_max_tokens query) (header show query) kept blocks

  -- Nothing is known: the header does not fit, or no block that is kept cites anything.
  abbrev IsNothing : ContextQuery → List ContextBlock → CompiledContext → Type 0
  IsNothing query blocks c =
      (c ≡ no_history (effective_max_tokens query) (is_some query.prompt))
      × ((effective_max_tokens query < token_count (header show query))
          ⊎ ((kept : List ContextBlock) × IsKept query kept blocks × (is_cited kept ≡ false)))

  -- The text with the index and the text without it.
  abbrev indexed : ContextQuery → List ContextBlock → CompiledContext → Text
  indexed query kept c = paragraph (body (header show query) kept) (citation_index c.citations)

  -- The header and the blocks, with the index of citations exactly where it fits. What is truncated
  -- lacks a block or the index.
  abbrev IsText : ContextQuery → List ContextBlock → List ContextBlock → CompiledContext → Type 0
  IsText query blocks kept c =
      ((token_count (indexed query kept c) ≤ effective_max_tokens query)
        × (c.text ≡ indexed query kept c)
        × (c.truncated ≡ ltb (length kept) (length blocks)))
      ⊎ ((effective_max_tokens query < token_count (indexed query kept c))
          × (c.text ≡ body (header show query) kept)
          × (c.truncated ≡ true))

  -- The ids and the citations are those of the blocks that the text has, each once.
  abbrev Credits : List ContextBlock → CompiledContext → Type 0
  Credits kept c =
      ((id : Uuid)
        → contains c.evidence_ids id ≡ any (λ (b : ContextBlock). contains b.event_ids id) kept)
      × ((id : Uuid)
          → contains c.memory_version_ids id
            ≡ any (λ (b : ContextBlock). contains b.memory_version_ids id) kept)
      × ((key : Text)
          → has_cited key c.citations ≡ any (λ (b : ContextBlock). has_cited key b.citations) kept)
      × AreDistinct c.evidence_ids
      × AreDistinct c.memory_version_ids
      × CitesOnce c.citations

  abbrev IsBody : ContextQuery → List ContextBlock → CompiledContext → Type 0
  IsBody query blocks c =
      (token_count (header show query) ≤ effective_max_tokens query)
      × ((kept : List ContextBlock) × IsKept query kept blocks
          × (is_cited kept ≡ true)
          × Credits kept c
          × IsText query blocks kept c)

  abbrev pub IsCompiled : ContextQuery → List ContextBlock → CompiledContext → Type 0
  IsCompiled query blocks c =
      (c.token_count ≡ token_count c.text)
      × (c.token_count ≤ query.max_tokens)
      × (c.token_count ≤ hard_max_tokens)
      × (IsNothing query blocks c ⊎ IsBody query blocks c)

  min-le : (a b n : ℕ) → n ≤ min a b → (n ≤ a) × (n ≤ b)
  min-le a b n h = (omega arith, omega arith)

  no_history-fits : (n : ℕ) (prompted : Bool) → token_count (no_history n prompted).text ≤ n
  unfolding token_count
  no_history-fits n prompted =
      elim (Bool-cases (leb (token_count (no_history_message prompted)) n)) [
        | inl fits ↦ rw fits (leb→le (token_count (no_history_message prompted)) n fits)
        | inr long ↦ rw long (omega arith)
      ]

  no_history-IsCompiled :
      (query : ContextQuery) (blocks : List ContextBlock)
      → (effective_max_tokens query < token_count (header show query))
        ⊎ ((kept : List ContextBlock) × IsKept query kept blocks × (is_cited kept ≡ false))
      → IsCompiled query blocks (no_history (effective_max_tokens query) (is_some query.prompt))
  no_history-IsCompiled query blocks why =
      let fits =
        min-le query.max_tokens hard_max_tokens _
          (no_history-fits (effective_max_tokens query) (is_some query.prompt)) in
      (refl, fits.0, fits.1, inl (refl, why))

  finish-fits :
      (n : ℕ) (written : Written)
      → token_count written.text ≤ n
      → token_count (finish n written).text ≤ n
  finish-fits n written h =
      elim (Bool-cases
        (leb (token_count (paragraph written.text (citation_index written.citations))) n)) [
          | inl fits ↦ rw fits (leb→le _ n fits)
          | inr long ↦ rw long h
        ]

  finish-IsText :
      (query : ContextQuery) (blocks kept : List ContextBlock) (written : Written)
      → HasWritten (effective_max_tokens query) (start show query) blocks kept written
      → IsText query blocks kept (finish (effective_max_tokens query) written)
  finish-IsText query blocks kept written w =
      let n = effective_max_tokens query in
      let index = citation_index written.citations in
      let text = ap (λ t. paragraph t index) w.text in
      elim (Bool-cases (leb (token_count (paragraph written.text index)) n)) [
        | inl fits ↦ rw fits (
            inl (
              subst (λ (t : Text). token_count t ≤ n) text (leb→le _ n fits),
              text,
              w.cut ∙ none_before (ltb (length kept) (length blocks)),
            ))
        | inr long ↦
            rw long
              (inr (subst (λ (t : Text). n < token_count t) text (over _ n long), w.text, refl))
      ]
    where
      over : (m n : ℕ) → leb m n ≡ false → n < m
      over m n h = ground arith

      none_before : (b : Bool) → (false || b) ≡ b
      none_before b = ground arith

  written-Credits :
      (query : ContextQuery) (n : ℕ) (blocks kept : List ContextBlock) (written : Written)
      → HasWritten n (start show query) blocks kept written
      → Credits kept (finish n written)
  written-Credits query n blocks kept written w =
      let event_ids : ContextBlock → List Uuid = λ b. b.event_ids in
      let versions : ContextBlock → List Uuid = λ b. b.memory_version_ids in
      (
        λ id. ap (λ ids. contains ids id) w.events ∙ contains-ids_of event_ids kept [] id,
        λ id. ap (λ ids. contains ids id) w.memories ∙ contains-ids_of versions kept [] id,
        λ key. ap (has_cited key) w.cites ∙ has_cited-cites_of key kept [],
        subst AreDistinct (sym w.events) (ids_of-AreDistinct event_ids kept [] tt),
        subst AreDistinct (sym w.memories) (ids_of-AreDistinct versions kept [] tt),
        subst CitesOnce (sym w.cites) (cites_of-CitesOnce kept [] tt),
      )

  written-IsCompiled :
      (query : ContextQuery) (blocks kept : List ContextBlock) (written : Written)
      → token_count (header show query) ≤ effective_max_tokens query
      → HasWritten (effective_max_tokens query) (start show query) blocks kept written
      → is_cited kept ≡ true
      → IsCompiled query blocks (finish (effective_max_tokens query) written)
  written-IsCompiled query blocks kept written short w cited =
      let n = effective_max_tokens query in
      let below = subst (λ (t : Text). token_count t ≤ n) (sym w.text) (body-fits n short w.part) in
      let fits = min-le query.max_tokens hard_max_tokens _ (finish-fits n written below) in
      (
        refl,
        fits.0,
        fits.1,
        inr (
          short,
          (
            kept,
            w.part,
            cited,
            written-Credits query n blocks kept written w,
            finish-IsText query blocks kept written w,
          ),
        ),
      )

  -- A context has as many tokens as it says, no more than the query asks for and no more than 3000.
  -- It keeps each block in its turn that fits behind the header and the blocks kept before it. It
  -- says that nothing is known exactly where the header does not fit or no block that is kept cites
  -- anything. Otherwise it is the header, the blocks that are kept and, exactly where that fits, the
  -- index of citations; its ids and citations are just those of these blocks, each once, and it is
  -- truncated exactly where a block or the index is left out.
  pub compile_blocks-IsCompiled :
      (query : ContextQuery) (blocks : List ContextBlock)
      → IsCompiled query blocks (compile_blocks show query blocks)
  unfolding compile_blocks
  compile_blocks-IsCompiled query [] = no_history-IsCompiled query [] (inr ([], done, refl))
  compile_blocks-IsCompiled query (b ∷ bs) =
      let n = effective_max_tokens query in
      let blocks = b ∷ bs in
      elim (Bool-cases (ltb n (token_count (header show query)))) [
        | inl long ↦ rw long (no_history-IsCompiled query blocks (inl (less n _ long)))
        | inr short ↦
            let (kept, w) = write_blocks-HasWritten n (start show query) blocks in
            let cited = ap is_nil w.cites ∙ is_nil-cites_of kept [] in
            elim (Bool-cases (is_cited kept)) [
              | inl some_cited ↦
                  rw (short, cited ∙ ap not some_cited)
                    (written-IsCompiled query blocks kept _ (not_less n _ short) w some_cited)
              | inr uncited ↦
                  rw (short, cited ∙ ap not uncited)
                    (no_history-IsCompiled query blocks (inr (kept, w.part, uncited)))
            ]
      ]
    where
      less : (m n : ℕ) → ltb m n ≡ true → m < n
      less m n h = ground arith

      not_less : (m n : ℕ) → ltb m n ≡ false → n ≤ m
      not_less m n h = ground arith
