-- ===== src/Jobs/Manifests.antt =====
-- The manifest of a job depends on which entries were recorded, not on their order or number:
-- crates/brain-store/src/jobs.rs.
mod Entries
mod Growth
use agent_knowledge_base_cod.Common.{
  ◌==◌, ==_iff, ◌≡◌, ◌⊎◌, ◌↔◌, refl, sym, ap, subst, inl, inr, Bool-cases, false, List, Memᴰ, any,
  sort_by, ok, bind-eq-ok, ok-injective, NoneTwice, mem_of-sort_by, mem-sort_by, sort_by-Ascending,
  same-Ascending,
}
use agent_knowledge_base_cod.Jobs.Model.{Uuid, RedactionRow, EventLedger}
use agent_knowledge_base_cod.Jobs.Redactions.{
  RedactionManifestEntry, put_redactions, record_redaction_manifest, entries_of, entry_before,
  redaction_manifest,
}
use agent_knowledge_base_cod.Jobs.Manifests.Entries.{entry_order, entry_connected}
use agent_knowledge_base_cod.Jobs.Manifests.Growth.{
  Grown, put_redactions-Grown, put_redactions_again, put_same_entries, Grown-sub,
}

-- The PRIMARY KEY clause.
abbrev pub IsKeyed : List RedactionRow → Type 0
IsKeyed rows = (job : Uuid) → NoneTwice (entries_of job rows)

Grown-IsKeyed :
    (job : Uuid) (es : List RedactionManifestEntry) (before after : List RedactionRow)
    → Grown job es before after
    → IsKeyed before
    → IsKeyed after
Grown-IsKeyed job es before after grown keyed other = elim (Bool-cases (job == other)) [
  | inl own ↦
      subst (λ (j : Uuid). NoneTwice (entries_of j after)) ((==_iff job other).0 own)
        (grown.once (keyed job))
  | inr apart ↦ subst NoneTwice (sym (grown.others other apart)) (keyed other)
]

abbrev manifest_of : Uuid → List RedactionRow → List RedactionManifestEntry
manifest_of job rows = sort_by entry_before (entries_of job rows)

same_manifest :
    (job : Uuid) (rows others : List RedactionRow)
    → IsKeyed rows
    → IsKeyed others
    → ((a : RedactionManifestEntry) → Memᴰ a (entries_of job rows) → Memᴰ a (entries_of job others))
    → ((a : RedactionManifestEntry) → Memᴰ a (entries_of job others) → Memᴰ a (entries_of job rows))
    → manifest_of job rows ≡ manifest_of job others
same_manifest job rows others keyed also sub sup =
    same-Ascending entry_before entry_order (manifest_of job rows) (manifest_of job others)
      (sort_by-Ascending entry_before entry_order entry_connected (entries_of job rows) (keyed job))
      (sort_by-Ascending entry_before entry_order entry_connected (entries_of job others)
        (also job))
      (λ a m. mem-sort_by entry_before (sub a (mem_of-sort_by entry_before _ m)))
      (λ a m. mem-sort_by entry_before (sup a (mem_of-sort_by entry_before _ m)))

-- What recording entries of a job leaves, with `others` the entries in another order and number.
abbrev pub Recorded :
    Uuid
    → Uuid
    → List RedactionManifestEntry
    → List RedactionManifestEntry
    → EventLedger
    → EventLedger
    → Type 0
Recorded job other entries others ledger after =
    ((again : EventLedger) × (record_redaction_manifest job others ledger ≡ ok again)
      × (redaction_manifest job after ≡ redaction_manifest job again))
    × ((a : RedactionManifestEntry)
        → Memᴰ a (redaction_manifest job after)
          ↔ (Memᴰ a (redaction_manifest job ledger) ⊎ Memᴰ a entries))
    × (record_redaction_manifest job entries after ≡ ok after)
    × (redaction_manifest other after ≡ redaction_manifest other ledger)
    × IsKeyed after.redactions

-- The manifest of a job is that of the set of its entries. Where the key of the table stands and
-- the entries are recorded, so are any others that are the same up to order and repetition, with
-- the same manifest. The manifest then has what it had and the entries, and nothing else. Recording
-- them again changes nothing, the manifest of another job is what it was, and the key still stands.
pub record_redaction_manifest-IsSet :
    (job other : Uuid) (entries others : List RedactionManifestEntry) (ledger after : EventLedger)
    → IsKeyed ledger.redactions
    → (job == other) ≡ false
    → ((a : RedactionManifestEntry) → Memᴰ a entries ↔ Memᴰ a others)
    → record_redaction_manifest job entries ledger ≡ ok after
    → Recorded job other entries others ledger after
unfolding record_redaction_manifest redaction_manifest
record_redaction_manifest-IsSet job other entries others ledger after keyed apart same done =
    let before = ledger.redactions in
    let (rows, put, is_after) = bind-eq-ok (put_redactions ledger.jobs job entries before) _ done in
    let grown = put_redactions-Grown ledger.jobs job entries before put in
    let (again, put_again) =
      put_same_entries ledger.jobs job entries others before put (λ a m. (same a).1 m) in
    let also = put_redactions-Grown ledger.jobs job others before put_again in
    let keyed_after = Grown-IsKeyed job entries before rows grown keyed in
    subst (Recorded job other entries others ledger) (ok-injective is_after) (
      (
        record ledger { redactions = again },
        rw put_again refl,
        same_manifest job rows again keyed_after (Grown-IsKeyed job others before again also keyed)
            (λ a. Grown-sub job entries others before rows again grown also (λ m. (same a).0 m))
            (λ a. Grown-sub job others entries before again rows also grown (λ m. (same a).1 m)),
      ),
      λ a. (
        λ m. elim (grown.origin a (mem_of-sort_by entry_before _ m)) [
          | inl had ↦ inl (mem-sort_by entry_before had)
          | inr new ↦ inr new
        ],
        λ m. elim m [
          | inl had ↦ mem-sort_by entry_before (grown.keeps a (mem_of-sort_by entry_before _ had))
          | inr new ↦ mem-sort_by entry_before (grown.has a new)
        ],
      ),
      rw (put_redactions_again ledger.jobs job entries rows grown.has) refl,
      ap (sort_by entry_before) (grown.others other apart),
      keyed_after,
    )
