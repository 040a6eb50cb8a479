-- ===== src/Jobs/Redactions.antt =====
-- What was redacted of the evidence that a job sends out: crates/brain-store/src/jobs.rs.
use agent_knowledge_base_cod.Common.{
  ℕ, ◌==◌, ◌&&◌, ◌||◌, Bool, List, [], ◌∷◌, ◌++◌, any, filter, map, sort_by, Text, text_eq, text_lt,
  ltb, Result, ok, err, ◌>>=◌, if◌then◌else◌,
}
use agent_knowledge_base_cod.Jobs.Model.{
  Uuid, JobRow, RedactionRow, EventLedger, JobError, foreign_key,
}

pub record RedactionManifestEntry : Type 0 where
  pub category : Text
  pub token_hash : ℕ

abbrev pub redaction_row : Uuid → RedactionManifestEntry → RedactionRow
redaction_row job_id entry = record {
  job_id = job_id;
  category = entry.category;
  token_hash = entry.token_hash;
}

-- The row that `PRIMARY KEY(job_id, category, token_hash)` allows once.
abbrev pub has_key : Uuid → RedactionManifestEntry → RedactionRow → Bool
has_key job_id entry row =
    row.job_id == job_id
    && (text_eq row.category entry.category && row.token_hash == entry.token_hash)

-- `INSERT OR IGNORE`, which ignores a key that is there but not a job that is not.
abbrev pub put_redaction :
    List JobRow
    → Uuid
    → RedactionManifestEntry
    → List RedactionRow
    → Result JobError (List RedactionRow)
put_redaction jobs job_id entry rows =
    if any (has_key job_id entry) rows
    then ok rows
    else if any (λ (job : JobRow). job.job_id == job_id) jobs
    then ok (rows ++ (redaction_row job_id entry ∷ []))
    else err foreign_key

-- The loop over `entries`.
abbrev pub put_redactions :
    List JobRow
    → Uuid
    → List RedactionManifestEntry
    → List RedactionRow
    → Result JobError (List RedactionRow)
put_redactions jobs job_id [] rows = ok rows
put_redactions jobs job_id (entry ∷ entries) rows = do
  first ← put_redaction jobs job_id entry rows
  put_redactions jobs job_id entries first

unfoldable pub record_redaction_manifest :
    Uuid → List RedactionManifestEntry → EventLedger → Result JobError EventLedger
record_redaction_manifest job_id entries ledger = do
  rows ← put_redactions ledger.jobs job_id entries ledger.redactions
  ok (record ledger { redactions = rows })

abbrev pub entry_of : RedactionRow → RedactionManifestEntry
entry_of row = record { category = row.category; token_hash = row.token_hash }

-- The entries of a job, in the order of the table.
abbrev pub entries_of : Uuid → List RedactionRow → List RedactionManifestEntry
entries_of job_id rows = map entry_of (filter (λ (row : RedactionRow). row.job_id == job_id) rows)

-- `ORDER BY category, token_hash`, in the order of their bytes
abbrev pub entry_before : RedactionManifestEntry → RedactionManifestEntry → Bool
entry_before a b =
    text_lt a.category b.category
    || (text_eq a.category b.category && ltb a.token_hash b.token_hash)

unfoldable pub redaction_manifest : Uuid → EventLedger → List RedactionManifestEntry
redaction_manifest job_id ledger = sort_by entry_before (entries_of job_id ledger.redactions)
