-- ===== src/Jsonl/Lines.antt =====
-- The complete lines of a file's bytes, each with its newline, and what follows the last of them.
use agent_knowledge_base_cod.Common.{
  ℕ, ◌+◌, ◌==◌, ◌≡◌, ◌<◌, refl, ap, subst, ◌∙◌, ◌⊎◌, inl, inr, Bool-cases, true, false, List, [],
  ◌∷◌, ◌++◌, length, length-append, is_nil, arith, if◌then◌else◌,
}
use agent_knowledge_base_cod.Jsonl.{Bytes, newline, read_until, ends_with}

-- A byte in front of the first line, or of bytes that have no complete line.
abbrev pub push_byte : ℕ → List Bytes → List Bytes
push_byte b [] = []
push_byte b (line ∷ lines) = (b ∷ line) ∷ lines

abbrev pub lines_of : Bytes → List Bytes
lines_of [] = []
lines_of (b ∷ bs) =
    let lines = lines_of bs in if b == newline then (b ∷ []) ∷ lines else push_byte b lines

abbrev pub keep_byte : ℕ → List Bytes → Bytes → Bytes
keep_byte b [] partial = b ∷ partial
keep_byte b (line ∷ lines) partial = partial

abbrev pub tail_of : Bytes → Bytes
tail_of [] = []
tail_of (b ∷ bs) =
    let partial = tail_of bs in if b == newline then partial else keep_byte b (lines_of bs) partial

abbrev pub flatten : List Bytes → Bytes
flatten [] = []
flatten (line ∷ lines) = line ++ flatten lines

abbrev pub total : List Bytes → ℕ
total [] = 0
total (line ∷ lines) = length line + total lines

push-flatten :
    (b : ℕ) (lines : List Bytes) (partial : Bytes)
    → flatten (push_byte b lines) ++ keep_byte b lines partial ≡ b ∷ (flatten lines ++ partial)
push-flatten b [] partial = refl
push-flatten b (line ∷ lines) partial = refl

-- Nothing is lost: the lines and the rest are the bytes.
pub flatten-lines_of : (bs : Bytes) → flatten (lines_of bs) ++ tail_of bs ≡ bs
flatten-lines_of [] = refl
flatten-lines_of (b ∷ bs) = elim (Bool-cases (b == newline)) [
  | inl nl ↦ rw nl (ap (λ (x : Bytes). b ∷ x) (flatten-lines_of bs))
  | inr other ↦
      rw other (
        push-flatten b (lines_of bs) (tail_of bs) ∙ ap (λ (x : Bytes). b ∷ x) (flatten-lines_of bs))
]

push-append :
    (b : ℕ) (lines : List Bytes) (partial cs : Bytes)
    → (b == newline) ≡ false
    → push_byte b (lines ++ lines_of (partial ++ cs))
      ≡ push_byte b lines ++ lines_of (keep_byte b lines partial ++ cs)
push-append b [] partial cs other = rw other refl
push-append b (line ∷ lines) partial cs other = refl

-- More bytes complete the rest, and leave the lines before it.
pub lines_of-append :
    (bs cs : Bytes) → lines_of (bs ++ cs) ≡ lines_of bs ++ lines_of (tail_of bs ++ cs)
lines_of-append [] cs = refl
lines_of-append (b ∷ bs) cs = elim (Bool-cases (b == newline)) [
  | inl nl ↦ rw nl (ap (λ (x : List Bytes). (b ∷ []) ∷ x) (lines_of-append bs cs))
  | inr other ↦
      rw other (
        ap (push_byte b) (lines_of-append bs cs)
        ∙ push-append b (lines_of bs) (tail_of bs) cs other)
]

pub total-flatten : (lines : List Bytes) → length (flatten lines) ≡ total lines
total-flatten [] = refl
total-flatten (line ∷ lines) =
    omega (arith, length-append line (flatten lines), total-flatten lines)

push-nil : (b : ℕ) (lines : List Bytes) → push_byte b lines ≡ [] → lines ≡ []
push-nil b [] h = refl
push-nil b (line ∷ lines) h = cc

-- What `read_until` gives is the first line, or it is the rest and has no newline at its end.
abbrev pub FirstLine : Bytes → Bytes → Bytes → Type 0
FirstLine bs line rest =
    ((ends_with newline line ≡ false) × (lines_of bs ≡ []))
    ⊎ ((ends_with newline line ≡ true)
        × (is_nil line ≡ false)
        × (lines_of bs ≡ line ∷ lines_of rest)
        × (length rest < length bs))

ends_with-cons :
    (c b : ℕ) (line : Bytes) → is_nil line ≡ false → ends_with c (b ∷ line) ≡ ends_with c line
ends_with-cons c b [] h = cc
ends_with-cons c b (d ∷ line) h = refl

cons_line :
    (b : ℕ) (bs line rest : Bytes)
    → (b == newline) ≡ false
    → FirstLine bs line rest
    → FirstLine (b ∷ bs) (b ∷ line) rest
cons_line b bs [] rest other (inl (open_end, none_of)) = inl (other, rw (other, none_of) refl)
cons_line b bs (d ∷ line) rest other (inl (open_end, none_of)) =
    inl (open_end, rw (other, none_of) refl)
cons_line b bs line rest other (inr (closed, filled, first, less)) = inr (
  ends_with-cons newline b line filled ∙ closed,
  refl,
  rw (other, first) refl,
  omega (arith, less),
)

pub read_until-FirstLine : (bs : Bytes) → FirstLine bs (read_until bs).0 (read_until bs).1
read_until-FirstLine [] = inl (refl, refl)
read_until-FirstLine (b ∷ bs) = elim (Bool-cases (b == newline)) [
  | inl nl ↦ rw nl (inr (rw nl refl, refl, refl, omega arith))
  | inr other ↦
      subst (λ (p : Bytes × Bytes). FirstLine (b ∷ bs) p.0 p.1) (read_other other)
        (cons_line b bs (read_until bs).0 (read_until bs).1 other (read_until-FirstLine bs))
]
  where
    read_other :
        (b == newline) ≡ false → (b ∷ (read_until bs).0, (read_until bs).1) ≡ read_until (b ∷ bs)
    read_other h = rw h refl
