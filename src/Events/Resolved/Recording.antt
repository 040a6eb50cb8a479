-- ===== src/Events/Resolved/Recording.antt =====
-- The open drift that crates/brain-store/src/ledger.rs records of a source.
use agent_knowledge_base_cod.Common.{
  find?-none, find?-last, Option, ◌≡◌, refl, ap, subst, inl, inr, ◌⊎◌, Bool, Bool-cases, true,
  false, &&-true, Option, none, some, List, [], ◌∷◌, ◌++◌, arith, any, any-append, AtMostOne, find?,
  update_where, Text, text_eq, text_eq→≡, text_eq_self, Time, Result, ok, err, ok-injective,
  if◌then◌else◌, ◌==◌,
}
use agent_knowledge_base_cod.Domain.Memory.{Uuid}
use agent_knowledge_base_cod.Events.{EventStore, DriftRow, EventError, constraint}
use agent_knowledge_base_cod.Events.Drift.{is_open_row, is_active, refreshed, put_drift}

-- The unique index: a source has one open drift at most.
abbrev pub OneOpen : EventStore → Type 0
OneOpen store = (source : Text) → AtMostOne (is_active source) store.schema_drifts

module _ {A : Type 0} (p q : A → Bool) (f : A → A) where
  any-update_where :
      (xs : List A)
      → ((x : A) → q (f x) ≡ true → q x ≡ true)
      → any q xs ≡ false
      → any q (update_where p f xs) ≡ false
  any-update_where [] keeps h = refl
  any-update_where (x ∷ xs) keeps h = ground (arith, keeps x, any-update_where xs keeps)

  pub AtMostOne-update_where :
      (xs : List A)
      → ((x : A) → q (f x) ≡ true → q x ≡ true)
      → AtMostOne q xs
      → AtMostOne q (update_where p f xs)
  AtMostOne-update_where [] keeps h = tt
  AtMostOne-update_where (x ∷ xs) keeps h = (
    λ holds. any-update_where xs keeps (h.0 (held (Bool-cases (p x)) holds)),
    AtMostOne-update_where xs keeps h.1,
  )
    where
      held : ((p x ≡ true) ⊎ (p x ≡ false)) → q (if p x then f x else x) ≡ true → q x ≡ true
      held (inl passed) holds = keeps x (rw passed at holds)
      held (inr failed) holds = rw failed at holds

module _ {A : Type 0} (q : A → Bool) where
  AtMostOne-append :
      (xs : List A) (x : A)
      → (q x ≡ true → any q xs ≡ false)
      → AtMostOne q xs
      → AtMostOne q (xs ++ (x ∷ []))
  AtMostOne-append [] x new h = (λ _. refl, tt)
  AtMostOne-append (y ∷ ys) x new h = (
    λ holds. ground (arith, any-append q ys (x ∷ []), h.0),
    AtMostOne-append ys x (ground (arith, new)) h.1,
  )

  -- A change that ends the test's hold leaves no row that it holds of.
  pub any-ended :
      (f : A → A) (xs : List A) → ((x : A) → q (f x) ≡ false) → any q (update_where q f xs) ≡ false
  any-ended f [] ends = refl
  any-ended f (x ∷ xs) ends = ground (arith, ends x, any-ended f xs ends)

  pub find?-any : (xs : List A) {x : A} → find? q xs ≡ some x → any q xs ≡ true
  find?-any [] h = cc
  find?-any (y ∷ ys) {x} h = ground (arith, find?-any ys {x = x})

-- The id under which a source's open drift is recorded: that of the drift that was open before, and
-- the new one's own where there was none.
abbrev pub id_of : Uuid → Option DriftRow → Uuid
id_of id none = id
id_of id (some row) = row.diagnostic_id

abbrev pub recorded_id : DriftRow → List DriftRow → Uuid
recorded_id new before = id_of new.diagnostic_id (find? (is_active new.source_id) before)

-- The row that is found after a record.
abbrev pub IsRecorded : DriftRow → List DriftRow → List DriftRow → Type 0
IsRecorded new before rows =
    find? (is_active new.source_id) rows
    ≡ some (record new { diagnostic_id = recorded_id new before })

is_active_self : (row : DriftRow) → row.resolved_at_ns ≡ none → is_active row.source_id row ≡ true
is_active_self row open_ = rw (text_eq_self row.source_id, open_) refl

open-none : (o : Option Time) → elim o [ none ↦ true | some t ↦ false ] ≡ true → o ≡ none
open-none none h = refl
open-none (some t) h = cc

refreshed-eq :
    (new row : DriftRow)
    → row.source_id ≡ new.source_id
    → row.resolved_at_ns ≡ none
    → new.resolved_at_ns ≡ none
    → refreshed new row ≡ record new { diagnostic_id = row.diagnostic_id }
refreshed-eq new row same closed open_ = rw (same, closed, open_) refl

find?-refreshed :
    (new : DriftRow) (rows : List DriftRow)
    → new.resolved_at_ns ≡ none
    → any (is_active new.source_id) rows ≡ true
    → IsRecorded new rows (update_where (is_active new.source_id) (refreshed new) rows)
find?-refreshed new [] open_ h = cc
find?-refreshed new (row ∷ rows) open_ h = elim (Bool-cases (is_active new.source_id row)) [
  | inl hit ↦
      let (same, closed) = &&-true (text_eq row.source_id new.source_id) (is_open_row row) hit in
      rw (hit, hit)
        (ap some (
          refreshed-eq new row (text_eq→≡ row.source_id new.source_id same)
            (open-none row.resolved_at_ns closed) open_))
  | inr miss ↦ rw (miss, miss) (find?-refreshed new rows open_ (rw miss at h))
]

find?-inserted :
    (new : DriftRow) (rows : List DriftRow)
    → new.resolved_at_ns ≡ none
    → any (is_active new.source_id) rows ≡ false
    → IsRecorded new rows (rows ++ (new ∷ []))
find?-inserted new rows open_ h =
    rw (find?-none (is_active new.source_id) (is_active new.source_id) rows (λ x holds. holds) h)
      (find?-last (is_active new.source_id) rows new h (is_active_self new open_))

abbrev pub AllOneOpen : List DriftRow → Type 0
AllOneOpen rows = (source : Text) → AtMostOne (is_active source) rows

pub put_drift-IsRecorded :
    (new : DriftRow) (rows : List DriftRow) {after : List DriftRow}
    → new.resolved_at_ns ≡ none
    → AllOneOpen rows
    → put_drift new rows ≡ ok after
    → AllOneOpen after × IsRecorded new rows after
put_drift-IsRecorded new rows {after} open_ once done =
    elim (Bool-cases (any (is_active new.source_id) rows)) [
      | inl had ↦
          subst (λ (out : List DriftRow). AllOneOpen out × IsRecorded new rows out)
            (ok-injective (rw had at done))
            (
              λ source.
                  AtMostOne-update_where (is_active new.source_id) (is_active source)
                    (refreshed new) rows (λ x holds. holds) (once source),
              find?-refreshed new rows open_ had,
            )
      | inr fresh ↦
          elim (Bool-cases
            (any (λ (row : DriftRow). row.diagnostic_id == new.diagnostic_id) rows)) [
              | inl clash ↦ absurd (refused (rw (fresh, clash) at done))
              | inr unused ↦
                  subst (λ (out : List DriftRow). AllOneOpen out × IsRecorded new rows out)
                    (ok-injective (rw (fresh, unused) at done))
                    (
                      λ source.
                          AtMostOne-append (is_active source) rows new
                            (λ holds.
                              subst (λ (s : Text). any (is_active s) rows ≡ false)
                                (text_eq→≡ new.source_id source
                                  (&&-true (text_eq new.source_id source) (is_open_row new)
                                    holds).0)
                                fresh)
                            (once source),
                      find?-inserted new rows open_ fresh,
                    )
            ]
    ]
  where
    refused : ◌≡◌ {A = Result EventError (List DriftRow)} (err constraint) (ok after) → ⊥
    refused e = cc
