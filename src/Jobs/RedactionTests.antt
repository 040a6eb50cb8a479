-- ===== src/Jobs/RedactionTests.antt =====
-- Two redactions of a job, recorded in one order and in another.
use agent_knowledge_base_cod.Common.{◌≡◌, refl, ◌↔◌, [], ◌∷◌, Memᴰ, codes, ok, err}
use agent_knowledge_base_cod.Jobs.Model.{EventLedger, foreign_key}
use agent_knowledge_base_cod.Jobs.Redactions.{
  RedactionManifestEntry, redaction_row, record_redaction_manifest, redaction_manifest,
}
use agent_knowledge_base_cod.Jobs.Manifests.{Recorded, record_redaction_manifest-IsSet}
use agent_knowledge_base_cod.Jobs.Tests.{test_ledger, leased_job}

abbrev email : RedactionManifestEntry
email = record { category = codes "email"; token_hash = 9 }

abbrev api_key : RedactionManifestEntry
api_key = record { category = codes "api_key"; token_hash = 4 }

abbrev before : EventLedger
before = test_ledger (leased_job ∷ [])

abbrev after : EventLedger
after = record before { redactions = redaction_row 7 email ∷ redaction_row 7 api_key ∷ [] }

recorded : record_redaction_manifest 7 (email ∷ api_key ∷ []) before ≡ ok after
unfolding record_redaction_manifest
recorded = refl

-- Where there is no such job, nothing is recorded.
no_job : record_redaction_manifest 8 (email ∷ []) before ≡ err foreign_key
unfolding record_redaction_manifest
no_job = refl

listed : redaction_manifest 7 after ≡ api_key ∷ email ∷ []
unfolding redaction_manifest
listed = refl

same_entries :
    (a : RedactionManifestEntry)
    → Memᴰ a (email ∷ api_key ∷ []) ↔ Memᴰ a (api_key ∷ email ∷ api_key ∷ [])
same_entries a = (there, back)
  where
    there : Memᴰ a (email ∷ api_key ∷ []) → Memᴰ a (api_key ∷ email ∷ api_key ∷ [])
    there m = Memᴰ.tail m

    back : Memᴰ a (api_key ∷ email ∷ api_key ∷ []) → Memᴰ a (email ∷ api_key ∷ [])
    back (Memᴰ.head e) = Memᴰ.tail (Memᴰ.head e)
    back (Memᴰ.tail m) = m

record_redaction_manifest-IsSet_example :
    Recorded 7 8 (email ∷ api_key ∷ []) (api_key ∷ email ∷ api_key ∷ []) before after
record_redaction_manifest-IsSet_example =
    record_redaction_manifest-IsSet 7 8 (email ∷ api_key ∷ []) (api_key ∷ email ∷ api_key ∷ [])
      before after (λ job. tt) refl same_entries recorded
