-- ===== src/Jsonl.antt =====
-- crates/brain-adapters/src/jsonl.rs: reading what was appended to a transcript since the cursor.
-- A file is seen twice: its identity and size first, its bytes when they are read. `Decoder` stands
-- for `serde_json::from_slice`, `String::from_utf8_lossy` and the `sha2` crate. Errors of the file
-- system are left out.
pub mod Lines
pub mod Loop
pub mod Resume
mod Tests
use mathlib.Core.Option.{Option}
use agent_knowledge_base_cod.Common.{
  ℕ, zero, suc, ◌+◌, ◌==◌, ◌||◌, ◌&&◌, not, Bool, true, false, none, some, List, [], ◌∷◌, Text,
  text_eq, length, is_nil, drop, ltb, if◌then◌else◌, Result, ok, err,
}
use mathlib.Core.Option
pub use agent_knowledge_base_cod.Domain.Event.{SourceCursor, for_file}

-- Bytes of a file.
abbrev pub Bytes : Type 0
Bytes = List ℕ

abbrev pub newline : ℕ
newline = 10

abbrev pub carriage_return : ℕ
carriage_return = 13

pub record Decoder (Json : Type 0) : Type 0 where
  pub from_slice : Bytes → Result Text Json
  pub from_utf8_lossy : Bytes → Text
  pub sha256 : Bytes → ℕ

pub record SourceDescriptor : Type 0 where
  pub source_id : Text
  pub path : Text

pub record RawRecord (Json : Type 0) : Type 0 where
  pub source_id : Text
  pub source_locator : Text
  pub byte_offset : ℕ
  pub next_byte_offset : ℕ
  pub value : Option Json
  pub raw_text : Text
  pub parse_error : Option Text
  pub raw_hash : ℕ

pub record FileRotation : Type 0 where
  pub previous_identity : Option Text
  pub current_identity : Text
  pub previous_offset : ℕ
  pub current_size : ℕ

pub record RawRecordBatch (Json : Type 0) : Type 0 where
  pub records : List (RawRecord Json)
  pub next_cursor : SourceCursor Json
  pub file_identity : Text
  pub last_complete_newline : ℕ
  pub rotation : Option FileRotation

pub record SchemaDrift : Type 0 where
  pub source_id : Text
  pub expected : Text
  pub observed : Text
  pub sample_hash : ℕ

pub record SourceUnavailable : Type 0 where
  pub source_id : Text
  pub reason : Text

-- Adapters give the last two, `read_jsonl_increment` never does.
pub data ReadOutcome (Json : Type 0) : Type 0 where
  batch : RawRecordBatch Json → ReadOutcome Json
  no_change : ReadOutcome Json
  schema_drift : SchemaDrift → ReadOutcome Json
  source_unavailable : SourceUnavailable → ReadOutcome Json

-- The file at the time of the call.
pub record FileState : Type 0 where
  pub identity : Text
  pub size : ℕ
  pub content : Bytes

-- `read_until(b'\n')`: the bytes up to the first newline, and those left.
abbrev pub read_until : Bytes → Bytes × Bytes
read_until [] = ([], [])
read_until (b ∷ bs) =
    let (line, rest) = read_until bs in if b == newline then (b ∷ [], bs) else (b ∷ line, rest)

-- `bytes.last() == Some(&b)`
abbrev pub ends_with : ℕ → Bytes → Bool
ends_with c [] = false
ends_with c (b ∷ []) = b == c
ends_with c (b ∷ d ∷ bs) = ends_with c (d ∷ bs)

abbrev pub pop : Bytes → Bytes
pop [] = []
pop (b ∷ []) = []
pop (b ∷ d ∷ bs) = b ∷ pop (d ∷ bs)

-- The line without its newline, and without a carriage return before it.
abbrev pub strip_line : Bytes → Bytes
strip_line line = if ends_with carriage_return (pop line) then pop (pop line) else pop line

abbrev pub value_of : {Json : Type 0} → Result Text Json → Option Json
value_of (ok v) = some v
value_of (err e) = none

abbrev pub error_of : {Json : Type 0} → Result Text Json → Option Text
error_of (ok v) = none
error_of (err e) = some e

module _ {Json : Type 0} (decoder : Decoder Json) (source : SourceDescriptor) where
  abbrev pub raw_record : ℕ → Bytes → RawRecord Json
  raw_record offset line = record {
    source_id = source.source_id;
    source_locator = source.path;
    byte_offset = offset;
    next_byte_offset = offset + length line;
    value = value_of (decoder.from_slice (strip_line line));
    raw_text = decoder.from_utf8_lossy (strip_line line);
    parse_error = error_of (decoder.from_slice (strip_line line));
    raw_hash = decoder.sha256 (strip_line line);
  }

  abbrev push_record :
      RawRecord Json → Option (List (RawRecord Json) × ℕ) → Option (List (RawRecord Json) × ℕ)
  push_record r none = none
  push_record r (some (rs, offset)) = some (r ∷ rs, offset)

  -- `loop { … }`: the records and the committed offset, or `none` where the fuel runs out.
  unfoldable pub read_records : ℕ → ℕ → Bytes → Option (List (RawRecord Json) × ℕ)
  read_records zero offset bytes = none
  read_records (suc fuel) offset bytes =
      let (line, rest) = read_until bytes in
      let more =
        push_record (raw_record offset line) (read_records fuel (offset + length line) rest) in
      if is_nil line
      then some ([], offset)
      else if not (ends_with newline line)
      then some ([], offset)
      else more

  abbrev pub is_other : Option Text → Text → Bool
  is_other none identity = false
  is_other (some previous) identity = not (text_eq previous identity)

  abbrev pub is_rotated : SourceCursor Json → FileState → Bool
  is_rotated cursor file =
      is_other cursor.file_identity file.identity || ltb file.size cursor.byte_offset

  abbrev pub rotation_of : SourceCursor Json → FileState → Option FileRotation
  rotation_of cursor file =
      if is_rotated cursor file
      then some (record {
        previous_identity = cursor.file_identity;
        current_identity = file.identity;
        previous_offset = cursor.byte_offset;
        current_size = file.size;
      })
      else none

  abbrev pub start_offset : SourceCursor Json → FileState → ℕ
  start_offset cursor file = if is_rotated cursor file then 0 else cursor.byte_offset

  abbrev pub is_none {ℓ} : {A : Type ℓ} → Option A → Bool
  is_none none = true
  is_none (some a) = false

  abbrev pub outcome_of :
      FileState → Option FileRotation → List (RawRecord Json) × ℕ → ReadOutcome Json
  outcome_of file rotation (records, committed) =
      if is_nil records && is_none rotation
      then no_change
      else batch (record {
        records = records;
        next_cursor = for_file committed file.identity;
        file_identity = file.identity;
        last_complete_newline = committed;
        rotation = rotation;
      })

  -- The fuel is one more than the bytes that are read.
  unfoldable pub read_jsonl_increment : SourceCursor Json → FileState → Option (ReadOutcome Json)
  read_jsonl_increment cursor file = Option.map (outcome_of file (rotation_of cursor file)) (
      read_records (suc (length file.content)) (start_offset cursor file)
        (drop (start_offset cursor file) file.content))
