-- ===== src/Jsonl/Loop.antt =====
-- The loop of crates/brain-adapters/src/jsonl.rs ends, and gives a record for each complete line.
use agent_knowledge_base_cod.Common.{
  ℕ, zero, suc, ◌+◌, ◌≡◌, ◌<◌, ap, inl, inr, Bool-cases, some, List, [], ◌∷◌, length, is_nil, arith,
}
use agent_knowledge_base_cod.Jsonl.{
  Bytes, Decoder, SourceDescriptor, RawRecord, read_until, raw_record, read_records,
}
use agent_knowledge_base_cod.Jsonl.Lines.{lines_of, total, read_until-FirstLine}

module _ {Json : Type 0} (decoder : Decoder Json) (source : SourceDescriptor) where
  -- A record for each line, each at the offset where the one before it ends.
  abbrev pub records_from : ℕ → List Bytes → List (RawRecord Json)
  records_from offset [] = []
  records_from offset (line ∷ lines) =
      raw_record decoder source offset line ∷ records_from (offset + length line) lines

  -- With more fuel than bytes the loop ends, with a record for each complete line, and commits
  -- what these lines take.
  pub read_records_lem :
      (fuel offset : ℕ) (bytes : Bytes)
      → length bytes < fuel
      → read_records decoder source fuel offset bytes
        ≡ some (records_from offset (lines_of bytes), offset + total (lines_of bytes))
  unfolding read_records
  read_records_lem zero offset bytes h = elim h [ ]
  read_records_lem (suc fuel) offset bytes h = elim (read_until-FirstLine bytes) [
    | inl (open_end, none_of) ↦ elim (Bool-cases (is_nil (read_until bytes).0)) [
      | inl empty ↦ rw (empty, none_of) (ap (λ (n : ℕ). some ([], n)) (omega arith))
      | inr filled ↦ rw (filled, open_end, none_of) (ap (λ (n : ℕ). some ([], n)) (omega arith))
    ]
    | inr (closed, filled, first, less) ↦
        rw
          (
            filled,
            closed,
            first,
            read_records_lem fuel (offset + length (read_until bytes).0) (read_until bytes).1
                (omega (arith, less, h)),
          )
          (ap
            (λ (n : ℕ).
              some (records_from offset ((read_until bytes).0 ∷ lines_of (read_until bytes).1), n))
            (omega arith))
  ]
