-- ===== src/Jsonl/Tests.antt =====
-- The reading of crates/brain-adapters/src/jsonl.rs at a small file that grows.
use mathlib.Core.Option
use agent_knowledge_base_cod.Common.{
  ℕ, ◌≡◌, ◌+◌, refl, codes, List, [], ◌∷◌, length, ok, some, arith,
}
use agent_knowledge_base_cod.Jsonl.{
  Bytes, Decoder, SourceDescriptor, SourceCursor, RawRecord, for_file, read_records,
  read_jsonl_increment,
}
use agent_knowledge_base_cod.Jsonl.Lines.{lines_of, total}
use agent_knowledge_base_cod.Jsonl.Loop.{records_from, read_records_lem}
use agent_knowledge_base_cod.Jsonl.Resume.{file_of, complete, read_once, read_twice, read-resumes}

abbrev counter : Decoder ℕ
counter = record {
  from_slice = λ (bs : Bytes). ok (length bs);
  from_utf8_lossy = λ (bs : Bytes). [];
  sha256 = λ (bs : Bytes). length bs;
}

abbrev transcript : SourceDescriptor
transcript = record { source_id = codes "codex"; path = codes "session.jsonl" }

abbrev start : SourceCursor ℕ
start = for_file 0 (codes "inode 7")

-- A line, and the first half of another.
abbrev first_part : Bytes
first_part = 123 ∷ 125 ∷ 13 ∷ 10 ∷ 123 ∷ []

abbrev second_part : Bytes
second_part = 49 ∷ 125 ∷ 10 ∷ []

read_records_example :
    read_records counter transcript 6 0 first_part
    ≡ some
        (records_from counter transcript 0 (lines_of first_part), 0 + total (lines_of first_part))
read_records_example = read_records_lem counter transcript 6 0 first_part (omega arith)

read-resumes_example :
    (read_once counter transcript start
        (file_of (codes "inode 7") (123 ∷ 125 ∷ 13 ∷ 10 ∷ 123 ∷ 49 ∷ 125 ∷ 10 ∷ []))
      ≡ some (
          complete counter transcript start
            (file_of (codes "inode 7") (123 ∷ 125 ∷ 13 ∷ 10 ∷ 123 ∷ 49 ∷ 125 ∷ 10 ∷ []))))
    × (read_twice counter transcript start
          (file_of (codes "inode 7") first_part)
          (file_of (codes "inode 7") (123 ∷ 125 ∷ 13 ∷ 10 ∷ 123 ∷ 49 ∷ 125 ∷ 10 ∷ []))
        ≡ some (
            complete counter transcript start
              (file_of (codes "inode 7") (123 ∷ 125 ∷ 13 ∷ 10 ∷ 123 ∷ 49 ∷ 125 ∷ 10 ∷ []))))
read-resumes_example =
    read-resumes counter transcript start (codes "inode 7") first_part second_part refl
      (omega arith)

two_records :
    Option.map {B = ℕ × ℕ}
      (λ (found : List (RawRecord ℕ) × ℕ). (length found.0, found.1))
      (read_twice counter transcript start
        (file_of (codes "inode 7") first_part)
        (file_of (codes "inode 7") (123 ∷ 125 ∷ 13 ∷ 10 ∷ 123 ∷ 49 ∷ 125 ∷ 10 ∷ [])))
    ≡ some (2, 8)
unfolding read_jsonl_increment read_records
two_records = refl
