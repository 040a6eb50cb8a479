-- ===== src/Jobs/Window/Bounds/Prefix.antt =====
-- The longest prefix of the uncovered events that is within the limit of crates/brain-store/src/jobs.rs.
use agent_knowledge_base_cod.Common.{
  false, ℕ, ◌+◌, ◌≤◌, ◌<◌, ◌≡◌, refl, ap, ◌⊎◌, inl, inr, Bool-cases, List, [], ◌∷◌, arith, zero,
  suc, leb, take, length,
}
use agent_knowledge_base_cod.Jobs.Model.{EventRow, evidence_len, max_job_payload_bytes}
use agent_knowledge_base_cod.Jobs.Window.{within}

-- Rowids rise along the table, from a row on.
abbrev pub Rising : ℕ → List EventRow → Type 0
Rising from [] = Unit
Rising from (e ∷ es) = (from < e.rowid) × Rising e.rowid es

abbrev pub total_len : List EventRow → ℕ
total_len [] = 0
total_len (e ∷ es) = evidence_len e + total_len es

-- Past the limit nothing is within it.
pub within-none :
    (running : ℕ) (es : List EventRow) → max_job_payload_bytes < running → within running es ≡ []
within-none running [] h = refl
within-none running (e ∷ es) h = ground (arith, within-none (running + evidence_len e) es)

pub within-len :
    (running : ℕ) (es : List EventRow)
    → running ≤ max_job_payload_bytes
    → running + total_len (within running es) ≤ max_job_payload_bytes
within-len running [] h = omega arith
within-len running (e ∷ es) h =
    elim (Bool-cases (leb (running + evidence_len e) max_job_payload_bytes)) [
      | inl fits ↦ rw fits (ground (arith, within-len (running + evidence_len e) es))
      | inr over ↦ rw (over, within-none (running + evidence_len e) es (ground arith)) (omega arith)
    ]

pub within-length : (running : ℕ) (es : List EventRow) → length (within running es) ≤ length es
within-length running [] = omega arith
within-length running (e ∷ es) = ground (arith, within-length (running + evidence_len e) es)

-- A prefix that ends where the rows do, at the limit of rows, or before the row that goes past the
-- limit of characters.
abbrev pub IsLongest : ℕ → ℕ → ℕ → List EventRow → Type 0
IsLongest running n k es =
    (take k es ≡ es) ⊎ ((k ≡ n) ⊎ (max_job_payload_bytes < running + total_len (take (suc k) es)))

-- What is within the limit is such a prefix.
pub within-take :
    (running n : ℕ) (es : List EventRow)
    → (k : ℕ) × (within running (take n es) ≡ take k es) × IsLongest running n k es
within-take running zero es = (0, refl, inr (inl refl))
within-take running (suc n) [] = (0, refl, inl refl)
within-take running (suc n) (e ∷ es) =
    elim (Bool-cases (leb (running + evidence_len e) max_job_payload_bytes)) [
      | inl fits ↦
          let (k, same, longest) = within-take (running + evidence_len e) n es in
          (
            suc k,
            rw fits (ap (λ fs. e ∷ fs) same),
            elim longest [
              | inl all_rows ↦ inl (ap (λ fs. e ∷ fs) all_rows)
              | inr (inl full) ↦ inr (inl (ap suc full))
              | inr (inr over) ↦ inr (inr (omega (arith, over)))
            ],
          )
      | inr over ↦ (
        0,
        rw (over, within-none (running + evidence_len e) (take n es) (ground arith)) refl,
        inr (inr (omega (arith, past (running + evidence_len e) over))),
      )
    ]
  where
    past : (m : ℕ) → leb m max_job_payload_bytes ≡ false → max_job_payload_bytes < m
    past m h = ground arith
