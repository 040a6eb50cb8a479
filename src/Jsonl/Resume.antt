-- ===== src/Jsonl/Resume.antt =====
-- Reading in increments, in crates/brain-adapters/src/jsonl.rs, loses no record and repeats none.
use mathlib.Core.Option.{Option}
use mathlib.Core.Option
use mathlib.Core.List.{append_assoc}
use agent_knowledge_base_cod.Common.{
  length-drop, length-drop_add, drop-append, drop-add, drop-length, ℕ, suc, ◌+◌, ◌≡◌, ◌≤◌, refl,
  sym, ap, subst, ◌∙◌, false, none, some, List, [], ◌∷◌, ◌++◌, length, length-append, drop, arith,
  Text, text_eq_self,
}
use agent_knowledge_base_cod.Jsonl.{
  Bytes, Decoder, SourceDescriptor, SourceCursor, RawRecord, ReadOutcome, batch, FileState,
  is_other, is_rotated, outcome_of, raw_record, read_jsonl_increment,
}
use agent_knowledge_base_cod.Jsonl.Lines.{
  lines_of, tail_of, flatten, total, flatten-lines_of, lines_of-append, total-flatten,
}
use agent_knowledge_base_cod.Jsonl.Loop.{records_from, read_records_lem}

past_lines : (bs cs : Bytes) → drop (total (lines_of bs)) (bs ++ cs) ≡ tail_of bs ++ cs
past_lines bs cs =
    ap (λ (n : ℕ). drop n (bs ++ cs)) (sym (total-flatten (lines_of bs)))
    ∙ ap (λ (xs : Bytes). drop (length (flatten (lines_of bs))) (xs ++ cs))
        (sym (flatten-lines_of bs))
    ∙ ap (drop (length (flatten (lines_of bs))))
        (append_assoc (flatten (lines_of bs)) (tail_of bs) cs)
    ∙ drop-length (flatten (lines_of bs)) (tail_of bs ++ cs)

-- What is left after a first call is the rest that it did not take and what was appended.
left_after :
    (offset : ℕ) (before appended : Bytes)
    → offset ≤ length before
    → drop (offset + total (lines_of (drop offset before))) (before ++ appended)
      ≡ tail_of (drop offset before) ++ appended
left_after offset before appended within =
    drop-add offset (total (lines_of (drop offset before))) (before ++ appended)
    ∙ ap (drop (total (lines_of (drop offset before)))) (drop-append offset before appended within)
    ∙ past_lines (drop offset before) appended

total-lines_of : (bs : Bytes) → total (lines_of bs) ≤ length bs
total-lines_of bs =
    subst (λ (n : ℕ). total (lines_of bs) ≤ n) (ap length (flatten-lines_of bs))
      (omega
        (arith, length-append (flatten (lines_of bs)) (tail_of bs), total-flatten (lines_of bs)))

total-append : (xs ys : List Bytes) → total (xs ++ ys) ≡ total xs + total ys
total-append [] ys = omega arith
total-append (x ∷ xs) ys = omega (arith, total-append xs ys)

-- A file whose size and bytes are read at the same time.
abbrev pub file_of : Text → Bytes → FileState
file_of identity content = record { identity = identity; size = length content; content = content }

module _ {Json : Type 0} where
  abbrev pub records_of : ReadOutcome Json → List (RawRecord Json)
  records_of (batch b) = b.records
  records_of _ = []

  -- Where the next call starts.
  abbrev pub cursor_after : SourceCursor Json → ReadOutcome Json → SourceCursor Json
  cursor_after cursor (batch b) = b.next_cursor
  cursor_after cursor _ = cursor

module _ {Json : Type 0} (decoder : Decoder Json) (source : SourceDescriptor) where
  records_from-append :
      (offset : ℕ) (xs ys : List Bytes)
      → records_from decoder source offset (xs ++ ys)
        ≡ records_from decoder source offset xs
          ++ records_from decoder source (offset + total xs) ys
  records_from-append offset [] ys = ap (λ (n : ℕ). records_from decoder source n ys) (omega arith)
  records_from-append offset (x ∷ xs) ys =
      ap (λ (rs : List (RawRecord Json)). raw_record decoder source offset x ∷ rs)
        (records_from-append (offset + length x) xs ys
          ∙ ap
              (λ (n : ℕ).
                records_from decoder source (offset + length x) xs
                ++ records_from decoder source n ys)
              (omega arith))

  -- What the lines from an offset on add to records.
  from_line : ℕ → Bytes → List (RawRecord Json) → List (RawRecord Json) × ℕ
  from_line offset content records = (
    records ++ records_from decoder source offset (lines_of (drop offset content)),
    offset + total (lines_of (drop offset content)),
  )

  -- The lines that a call finds.
  abbrev new_lines : SourceCursor Json → FileState → List Bytes
  new_lines cursor file = lines_of (drop cursor.byte_offset file.content)

  of_lines : SourceCursor Json → FileState → List Bytes → ReadOutcome Json
  of_lines cursor file lines =
      outcome_of decoder source file none
        (records_from decoder source cursor.byte_offset lines, cursor.byte_offset + total lines)

  read_unrotated :
      (cursor : SourceCursor Json) (file : FileState)
      → is_rotated decoder source cursor file ≡ false
      → read_jsonl_increment decoder source cursor file
        ≡ some (of_lines cursor file (new_lines cursor file))
  unfolding read_jsonl_increment of_lines
  read_unrotated cursor file same = rw same (
      ap (Option.map (outcome_of decoder source file none)) (
        read_records_lem decoder source (suc (length file.content)) cursor.byte_offset
          (drop cursor.byte_offset file.content)
          (omega (arith, length-drop cursor.byte_offset file.content))))

  -- The records of the complete lines, and the offset after them.
  abbrev pub complete : SourceCursor Json → FileState → List (RawRecord Json) × ℕ
  complete cursor file = (
    records_from decoder source cursor.byte_offset (new_lines cursor file),
    cursor.byte_offset + total (new_lines cursor file),
  )

  abbrev seen : SourceCursor Json → ReadOutcome Json → List (RawRecord Json) × ℕ
  seen cursor read = (records_of read, (cursor_after cursor read).byte_offset)

  abbrev pub read_once : SourceCursor Json → FileState → Option (List (RawRecord Json) × ℕ)
  read_once cursor file = Option.map (seen cursor) (read_jsonl_increment decoder source cursor file)

  abbrev and_then :
      SourceCursor Json → FileState → Option (ReadOutcome Json) → Option (List (RawRecord Json) × ℕ)
  and_then cursor file none = none
  and_then cursor file (some read) =
      Option.map (λ (later : List (RawRecord Json) × ℕ). (records_of read ++ later.0, later.1))
        (read_once (cursor_after cursor read) file)

  -- Two calls, the second from the cursor that the first leaves.
  abbrev pub read_twice :
      SourceCursor Json → FileState → FileState → Option (List (RawRecord Json) × ℕ)
  read_twice cursor before after =
      and_then cursor after (read_jsonl_increment decoder source cursor before)

  seen_lines :
      (cursor : SourceCursor Json) (file : FileState) (lines : List Bytes)
      → seen cursor (of_lines cursor file lines)
        ≡ (records_from decoder source cursor.byte_offset lines, cursor.byte_offset + total lines)
  unfolding of_lines
  seen_lines cursor file [] = ap (λ (n : ℕ). ([], n)) (omega arith)
  seen_lines cursor file (line ∷ lines) = refl

  same_file :
      (cursor : SourceCursor Json) (file : FileState) (lines : List Bytes)
      → is_other decoder source cursor.file_identity file.identity ≡ false
      → is_other decoder source
          (cursor_after cursor (of_lines cursor file lines)).file_identity
          file.identity
        ≡ false
  unfolding of_lines
  same_file cursor file [] h = h
  same_file cursor file (line ∷ lines) h = rw (text_eq_self file.identity) refl

  not_rotated :
      (cursor : SourceCursor Json) (file : FileState)
      → is_other decoder source cursor.file_identity file.identity ≡ false
      → cursor.byte_offset ≤ file.size
      → is_rotated decoder source cursor file ≡ false
  not_rotated cursor file same within = rw same (ground arith)

  read_once_lem :
      (cursor : SourceCursor Json) (file : FileState)
      → is_other decoder source cursor.file_identity file.identity ≡ false
      → cursor.byte_offset ≤ file.size
      → read_once cursor file ≡ some (complete cursor file)
  read_once_lem cursor file same within =
      rw (read_unrotated cursor file (not_rotated cursor file same within))
        (ap some (seen_lines cursor file (new_lines cursor file)))

  joined :
      (offset : ℕ) (before appended : Bytes)
      → offset ≤ length before
      → from_line
          (offset + total (lines_of (drop offset before)))
          (before ++ appended)
          (records_from decoder source offset (lines_of (drop offset before)))
        ≡ from_line offset (before ++ appended) []
  unfolding from_line
  joined offset before appended within =
      rw
        (
          left_after offset before appended within,
          drop-append offset before appended within,
          lines_of-append (drop offset before) appended,
          records_from-append offset (lines_of (drop offset before))
              (lines_of (tail_of (drop offset before) ++ appended)),
          total-append (lines_of (drop offset before))
              (lines_of (tail_of (drop offset before) ++ appended)),
        )
        (ap
          (λ (n : ℕ). (
            records_from decoder source offset (lines_of (drop offset before))
                ++ records_from decoder source (offset + total (lines_of (drop offset before)))
                    (lines_of (tail_of (drop offset before) ++ appended)),
            n,
          ))
          (omega arith))

  -- Where a file keeps its identity and only grows, and the cursor is within it, a call in between
  -- changes neither the records nor the offset that is reached: each complete line from the cursor
  -- on is a record, once.
  pub read-resumes :
      (cursor : SourceCursor Json) (identity : Text) (before appended : Bytes)
      → is_other decoder source cursor.file_identity identity ≡ false
      → cursor.byte_offset ≤ length before
      → (read_once cursor (file_of identity (before ++ appended))
          ≡ some (complete cursor (file_of identity (before ++ appended))))
        × (read_twice cursor (file_of identity before) (file_of identity (before ++ appended))
            ≡ some (complete cursor (file_of identity (before ++ appended))))
  unfolding from_line
  read-resumes cursor identity before appended same within = (
    read_once_lem cursor after same longer,
    ap (and_then cursor after) (read_unrotated cursor first (not_rotated cursor first same within))
        ∙ ap
            (Option.map
              (λ (later : List (RawRecord Json) × ℕ). (records_of read ++ later.0, later.1)))
            (read_once_lem (cursor_after cursor read) after (same_file cursor first lines same)
              reached)
        ∙ ap (λ (p : List (RawRecord Json) × ℕ). some (from_line p.1 (before ++ appended) p.0))
            (seen_lines cursor first lines)
        ∙ ap some (joined cursor.byte_offset before appended within),
  )
    where
      first : FileState
      first = file_of identity before

      after : FileState
      after = file_of identity (before ++ appended)

      lines : List Bytes
      lines = lines_of (drop cursor.byte_offset before)

      read : ReadOutcome Json
      read = of_lines cursor first lines

      longer : cursor.byte_offset ≤ length (before ++ appended)
      longer = omega (arith, length-append before appended, within)

      reached : (cursor_after cursor read).byte_offset ≤ length (before ++ appended)
      reached =
          subst (λ (n : ℕ). n ≤ length (before ++ appended))
            (sym (ap (λ (p : List (RawRecord Json) × ℕ). p.1) (seen_lines cursor first lines)))
            (omega (
              arith,
              total-lines_of (drop cursor.byte_offset before),
              length-drop_add cursor.byte_offset before within,
              length-append before appended,
            ))
