-- ===== src/Jobs/Window/Bounds.antt =====
-- How much one job spans, and that it starts where the last one ended.
mod Prefix
pub use Prefix.*
use Prim.Native.Nat.{max}
use agent_knowledge_base_cod.Common.{
  All, All-filter, byte_len, Text, ℕ, ◌+◌, ◌≤◌, ◌<◌, ◌≡◌, ◌≢◌, refl, sym, subst, ap, ◌∙◌, leb→le,
  ◌⊎◌, inl, inr, Bool, Bool-cases, Option, none, List, [], ◌∷◌, arith, zero, suc, leb, filter, take,
  length, length-take,
}
use agent_knowledge_base_cod.Jobs.Model.{
  EventRow, EventLedger, evidence_len, max_job_events, max_job_payload_bytes,
}
use agent_knowledge_base_cod.Jobs.Window.{
  EventRange, max_rowid, is_uncovered, window, last_row, up_to, uncovered, spanned,
  last_covered_row, range_of, unqueued_event_range,
}

none_up_to :
    (limit from : ℕ) (es : List EventRow)
    → limit ≤ from
    → Rising from es
    → filter (λ e. leb e.rowid limit) es ≡ []
none_up_to limit from [] h r = refl
none_up_to limit from (e ∷ es) h r = ground (arith, none_up_to limit e.rowid es)

-- The rows up to the last one of a prefix are the prefix.
up_to-take :
    (from k limit : ℕ) (es : List EventRow)
    → Rising from es
    → limit ≡ max from (max_rowid (take k es))
    → filter (λ e. leb e.rowid limit) es ≡ take k es
up_to-take from zero limit es r h = none_up_to limit from es (omega arith) r
up_to-take from (suc k) limit [] r h = refl
up_to-take from (suc k) limit (e ∷ es) r h =
    ground (arith, up_to-take e.rowid k limit es r.1 (omega (arith, r.0)))

window-take :
    (n : ℕ) (e : EventRow) (es : List EventRow)
    → (k : ℕ) × (window (take (suc n) (e ∷ es)) ≡ take (suc k) (e ∷ es))
      × IsLongest 0 (suc n) (suc k) (e ∷ es)
window-take n e es =
    let (k, same, longest) = within-take (evidence_len e) n es in
    (
      k,
      ap (λ fs. e ∷ fs) same,
      elim longest [
        | inl all_rows ↦ inl (ap (λ fs. e ∷ fs) all_rows)
        | inr (inl full) ↦ inr (inl (ap suc full))
        | inr (inr over) ↦ inr (inr (omega (arith, over)))
      ],
    )

up_to-window :
    (n : ℕ) (rows : List EventRow)
    → Rising 0 rows
    → up_to (last_row (window (take (suc n) rows))) rows ≡ window (take (suc n) rows)
up_to-window n [] r = refl
up_to-window n (e ∷ es) r =
    let (k, same, _) = window-take n e es in
    subst (λ span. up_to (last_row span) (e ∷ es) ≡ span) (sym same)
      (up_to-take 0 (suc k) (max_rowid (take (suc k) (e ∷ es))) (e ∷ es) r (omega arith))

window_fits :
    (n : ℕ) (e : EventRow) (es : List EventRow)
    → (length (window (take (suc n) (e ∷ es))) ≡ 1)
      ⊎ (total_len (window (take (suc n) (e ∷ es))) ≤ max_job_payload_bytes)
window_fits n e es = elim (Bool-cases (leb (evidence_len e) max_job_payload_bytes)) [
  | inl fits ↦ inr (within-len (evidence_len e) (take n es) (leb→le _ _ fits))
  | inr over ↦
      inl (ap length (ap (λ fs. e ∷ fs) (within-none (evidence_len e) (take n es) (ground arith))))
]

window-length : (n : ℕ) (rows : List EventRow) → length (window (take n rows)) ≤ n
window-length zero rows = omega arith
window-length (suc n) [] = omega arith
window-length (suc n) (e ∷ es) =
    omega (arith, within-length (evidence_len e) (take n es), length-take n es)

Rising-weaken : (a b : ℕ) (es : List EventRow) → a ≤ b → Rising b es → Rising a es
Rising-weaken a b [] h r = tt
Rising-weaken a b (e ∷ es) h r = (omega (arith, r.0), r.1)

Rising-filter :
    (p : EventRow → Bool) (a : ℕ) (es : List EventRow) → Rising a es → Rising a (filter p es)
Rising-filter p a [] r = tt
Rising-filter p a (e ∷ es) r = elim (Bool-cases (p e)) [
  | inl kept ↦ rw kept (r.0, Rising-filter p e.rowid es r.1)
  | inr left ↦ rw left (Rising-filter p a es (Rising-weaken a e.rowid es (omega (arith, r.0)) r.1))
]

-- The bytes of UTF-8 that a job sends of an event, which are its characters where all are ASCII.
abbrev pub evidence_bytes : EventRow → ℕ
evidence_bytes e = byte_len e.payload_json + byte_len e.raw_json

abbrev pub total_bytes : List EventRow → ℕ
total_bytes [] = 0
total_bytes (e ∷ es) = evidence_bytes e + total_bytes es

abbrev pub IsAscii : EventRow → Type 0
IsAscii e = All (λ (c : ℕ). c ≤ 0x7F) e.payload_json × All (λ (c : ℕ). c ≤ 0x7F) e.raw_json

byte_len-ascii : (s : Text) → All (λ (c : ℕ). c ≤ 0x7F) s → byte_len s ≡ length s
byte_len-ascii [] h = refl
byte_len-ascii (c ∷ s) h = ground (arith, h.0, byte_len-ascii s h.1)

total_bytes-ascii :
    (k : ℕ) (rows : List EventRow)
    → All IsAscii rows
    → total_bytes (take k rows) ≡ total_len (take k rows)
total_bytes-ascii zero rows h = refl
total_bytes-ascii (suc k) [] h = refl
total_bytes-ascii (suc k) (e ∷ es) h = omega (
  arith,
  byte_len-ascii e.payload_json h.0.0,
  byte_len-ascii e.raw_json h.0.1,
  total_bytes-ascii k es h.1,
)

-- What a job spans: the first rows, as many as both limits allow, and one at least, which may be
-- over the second.
abbrev pub IsWindow : List EventRow → List EventRow → Type 0
IsWindow rows span =
    (k : ℕ) × (span ≡ take (suc k) rows)
    × (length span ≤ max_job_events)
    × ((length span ≡ 1) ⊎ (total_bytes span ≤ max_job_payload_bytes))
    × ((span ≡ rows)
        ⊎ ((suc k ≡ max_job_events)
            ⊎ (max_job_payload_bytes < total_bytes (take (suc (suc k)) rows))))

abbrev pub RangeOfWindow : List EventRow → Option EventRange → Type 0
RangeOfWindow rows range =
    ((rows ≡ []) × (range ≡ none))
    ⊎ ((span : List EventRow) × IsWindow rows span × (range ≡ range_of span) × (range ≢ none))

window-IsWindow :
    (e : EventRow) (es : List EventRow)
    → All IsAscii (e ∷ es)
    → IsWindow (e ∷ es) (window (take max_job_events (e ∷ es)))
window-IsWindow e es ascii =
    let rows = e ∷ es in
    let span = window (take max_job_events rows) in
    let (k, same, longest) = window-take 199 e es in
    (
      k,
      same,
      window-length max_job_events rows,
      elim (window_fits 199 e es) [
        | inl one ↦ inl one
        | inr fits ↦
            let bytes =
              ap total_bytes same
              ∙ total_bytes-ascii (suc k) rows ascii
              ∙ sym (ap total_len same) in
            inr (omega (arith, fits, bytes))
      ],
      elim longest [
        | inl all_rows ↦ inl (same ∙ all_rows)
        | inr (inl full) ↦ inr (inl full)
        | inr (inr over) ↦
            inr (inr (omega (arith, over, total_bytes-ascii (suc (suc k)) rows ascii)))
      ],
    )

range_of_window :
    (rows : List EventRow)
    → Rising 0 rows
    → All IsAscii rows
    → RangeOfWindow rows (range_of (up_to (last_row (window (take max_job_events rows))) rows))
range_of_window [] r ascii = inl (refl, refl)
range_of_window (e ∷ es) r ascii =
    let same = ap range_of (up_to-window 199 (e ∷ es) r) in
    inr (
      window (take max_job_events (e ∷ es)),
      window-IsWindow e es ascii,
      same,
      λ empty. cc (empty, same),
    )

-- Where rowids rise and the texts of events are ASCII, there is no range only if no event is
-- uncovered. Otherwise the range is that of the first uncovered events, as many as have at most 150000
-- bytes and are at most 200, but one at least.
pub unqueued_event_range-IsWindow :
    (ledger : EventLedger)
    → Rising 0 ledger.events
    → All IsAscii ledger.events
    → RangeOfWindow (uncovered ledger) (unqueued_event_range ledger)
unfolding unqueued_event_range spanned uncovered
unqueued_event_range-IsWindow ledger rising ascii =
    let in_range = is_uncovered ledger.project_scope (last_covered_row ledger) in
    range_of_window (uncovered ledger) (Rising-filter in_range 0 ledger.events rising)
      (All-filter IsAscii in_range ledger.events ascii)
