-- ===== src/Jobs/Manifests/Growth.antt =====
-- What the redactions that crates/brain-store/src/jobs.rs records do to the table.
use agent_knowledge_base_cod.Common.{
  ◌==◌, ◌≡◌, ◌⊎◌, refl, sym, subst, ◌∙◌, inl, inr, Bool-cases, true, false, List, [], ◌∷◌, ◌++◌,
  Memᴰ, any, Result, ok, err, bind-eq-ok, ok-injective, NoneTwice, NoneTwice-append, mem_of-append,
  mem-append_left, mem-append_right,
}
use agent_knowledge_base_cod.Jobs.Model.{Uuid, JobRow, RedactionRow, JobError, foreign_key}
use agent_knowledge_base_cod.Jobs.Redactions.{
  RedactionManifestEntry, redaction_row, has_key, put_redaction, put_redactions, entries_of,
}
use agent_knowledge_base_cod.Jobs.Manifests.Entries.{
  same_entry, mem-any, any-mem, any-entries_of, entries_of-append_self, entries_of-append_other,
}

-- What putting the entries of a job does to the table.
pub record Grown (job : Uuid) (es : List RedactionManifestEntry) (before after : List RedactionRow)
    : Type 0 where
  pub origin :
      (a : RedactionManifestEntry)
      → Memᴰ a (entries_of job after)
      → Memᴰ a (entries_of job before) ⊎ Memᴰ a es
  pub keeps :
      (a : RedactionManifestEntry) → Memᴰ a (entries_of job before) → Memᴰ a (entries_of job after)
  pub has : (a : RedactionManifestEntry) → Memᴰ a es → Memᴰ a (entries_of job after)
  pub once : NoneTwice (entries_of job before) → NoneTwice (entries_of job after)
  pub others :
      (other : Uuid) → (job == other) ≡ false → entries_of other after ≡ entries_of other before

only : (e a : RedactionManifestEntry) → Memᴰ a (e ∷ []) → a ≡ e
only e a (Memᴰ.head same) = same
only e a (Memᴰ.tail m) = elim m [ ]

Grown-kept :
    (job : Uuid) (e : RedactionManifestEntry) (rows : List RedactionRow)
    → Memᴰ e (entries_of job rows)
    → Grown job (e ∷ []) rows rows
Grown-kept job e rows had = record {
  origin = λ a m. inl m;
  keeps = λ a m. m;
  has = λ a m.
      subst (λ (b : RedactionManifestEntry). Memᴰ b (entries_of job rows)) (sym (only e a m)) had;
  once = λ h. h;
  others = λ other apart. refl;
}

Grown-append :
    (job : Uuid) (e : RedactionManifestEntry) (rows : List RedactionRow)
    → (Memᴰ e (entries_of job rows) → ⊥)
    → Grown job (e ∷ []) rows (rows ++ (redaction_row job e ∷ []))
Grown-append job e rows new =
    let same = sym (entries_of-append_self job e rows) in
    let xs = entries_of job rows in
    record {
      origin = λ a m.
          elim (mem_of-append xs
            (subst (λ (ys : List RedactionManifestEntry). Memᴰ a ys) (sym same) m)) [
              | inl n ↦ inl n
              | inr is_new ↦ inr (Memᴰ.head is_new)
            ];
      keeps = λ a m.
          subst (λ (ys : List RedactionManifestEntry). Memᴰ a ys) same (mem-append_left (e ∷ []) m);
      has = λ a m.
          subst (λ (ys : List RedactionManifestEntry). Memᴰ a ys) same (mem-append_right xs m);
      once = λ h. subst NoneTwice same (NoneTwice-append xs e h new);
      others = λ other apart. entries_of-append_other job other e rows apart;
    }

Grown-then :
    (job : Uuid) (e : RedactionManifestEntry) (es : List RedactionManifestEntry)
    (before between after : List RedactionRow)
    → Grown job (e ∷ []) before between
    → Grown job es between after
    → Grown job (e ∷ es) before after
Grown-then job e es before between after g k = record {
  origin = λ a m. elim (k.origin a m) [
    | inr n ↦ inr (Memᴰ.tail n)
    | inl n ↦ elim (g.origin a n) [ inl o ↦ inl o | inr o ↦ inr (Memᴰ.head (only e a o)) ]
  ];
  keeps = λ a m. k.keeps a (g.keeps a m);
  has = λ a m. each a m;
  once = λ h. k.once (g.once h);
  others = λ other apart. k.others other apart ∙ g.others other apart;
}
  where
    each : (a : RedactionManifestEntry) → Memᴰ a (e ∷ es) → Memᴰ a (entries_of job after)
    each a (Memᴰ.head same) = k.keeps a (g.has a (Memᴰ.head same))
    each a (Memᴰ.tail m) = k.has a m

-- Two tables that grew by the same entries.
pub Grown-sub :
    (job : Uuid) (es others : List RedactionManifestEntry) (before rows again : List RedactionRow)
    {a : RedactionManifestEntry}
    → Grown job es before rows
    → Grown job others before again
    → (Memᴰ a es → Memᴰ a others)
    → Memᴰ a (entries_of job rows)
    → Memᴰ a (entries_of job again)
Grown-sub job es others before rows again {a} g k sub m = elim (g.origin a m) [
  | inl had ↦ k.keeps a had
  | inr new ↦ k.has a (sub new)
]

module _ (jobs : List JobRow) (job : Uuid) where
  put_redaction-Grown :
      (e : RedactionManifestEntry) (before : List RedactionRow) {after : List RedactionRow}
      → put_redaction jobs job e before ≡ ok after
      → Grown job (e ∷ []) before after
  put_redaction-Grown e before {after} done = elim (Bool-cases (any (has_key job e) before)) [
    | inl had ↦ subst (Grown job (e ∷ []) before) (ok-injective (rw had at done)) (
        Grown-kept job e before
          (any-mem e (entries_of job before) (sym (any-entries_of job e before) ∙ had)))
    | inr new ↦ elim (Bool-cases (any (λ (j : JobRow). j.job_id == job) jobs)) [
      | inl there ↦
          subst (Grown job (e ∷ []) before) (ok-injective (rw (new, there) at done))
            (Grown-append job e before (λ m. is_new new (mem-any e (entries_of job before) m)))
      | inr missing ↦ absurd (refused (rw (new, missing) at done))
    ]
  ]
    where
      refused : ◌≡◌ {A = Result JobError (List RedactionRow)} (err foreign_key) (ok after) → ⊥
      refused h = cc

      is_new :
          any (has_key job e) before ≡ false
          → any (λ b. same_entry b e) (entries_of job before) ≡ true
          → ⊥
      is_new new h = let k = any-entries_of job e before in cc

  pub put_redactions-Grown :
      (es : List RedactionManifestEntry) (before : List RedactionRow) {after : List RedactionRow}
      → put_redactions jobs job es before ≡ ok after
      → Grown job es before after
  put_redactions-Grown [] before done = subst (Grown job [] before) (ok-injective done) (record {
    origin = λ a m. inl m;
    keeps = λ a m. m;
    has = λ a m. elim m [ ];
    once = λ h. h;
    others = λ other apart. refl;
  })
  put_redactions-Grown (e ∷ es) before {after} done =
      let (between, one, more) = bind-eq-ok (put_redaction jobs job e before) _ done in
      Grown-then job e es before between after (put_redaction-Grown e before one)
        (put_redactions-Grown es between more)

  -- Entries that are there are put once more to no effect.
  pub put_redactions_again :
      (es : List RedactionManifestEntry) (rows : List RedactionRow)
      → ((a : RedactionManifestEntry) → Memᴰ a es → Memᴰ a (entries_of job rows))
      → put_redactions jobs job es rows ≡ ok rows
  put_redactions_again [] rows has = refl
  put_redactions_again (e ∷ es) rows has =
      rw
        (
          any-entries_of job e rows ∙ mem-any e (entries_of job rows) (has e (Memᴰ.head refl)),
          put_redactions_again es rows (λ a m. has a (Memᴰ.tail m)),
        )
        refl

  put_redactions_succeeds :
      any (λ (j : JobRow). j.job_id == job) jobs ≡ true
      → (es : List RedactionManifestEntry) (rows : List RedactionRow)
      → (after : List RedactionRow) × (put_redactions jobs job es rows ≡ ok after)
  put_redactions_succeeds there [] rows = (rows, refl)
  put_redactions_succeeds there (e ∷ es) rows = elim (Bool-cases (any (has_key job e) rows)) [
    | inl had ↦ rw had (put_redactions_succeeds there es rows)
    | inr new ↦
        rw (new, there) (put_redactions_succeeds there es (rows ++ (redaction_row job e ∷ [])))
  ]

  -- Without the job, only entries that are there can be put.
  put_redactions_missing :
      any (λ (j : JobRow). j.job_id == job) jobs ≡ false
      → (es : List RedactionManifestEntry) (rows : List RedactionRow) {after : List RedactionRow}
      → put_redactions jobs job es rows ≡ ok after
      → rows ≡ after
  put_redactions_missing missing [] rows done = ok-injective done
  put_redactions_missing missing (e ∷ es) rows {after} done =
      elim (Bool-cases (any (has_key job e) rows)) [
        | inl had ↦ put_redactions_missing missing es rows (rw had at done)
        | inr new ↦ absurd (refused (rw (new, missing) at done))
      ]
    where
      refused : ◌≡◌ {A = Result JobError (List RedactionRow)} (err foreign_key) (ok after) → ⊥
      refused h = cc

  pub put_same_entries :
      (es others : List RedactionManifestEntry) (rows : List RedactionRow)
      {after : List RedactionRow}
      → put_redactions jobs job es rows ≡ ok after
      → ((a : RedactionManifestEntry) → Memᴰ a others → Memᴰ a es)
      → (again : List RedactionRow) × (put_redactions jobs job others rows ≡ ok again)
  put_same_entries es others rows done sub =
      elim (Bool-cases (any (λ (j : JobRow). j.job_id == job) jobs)) [
        | inl there ↦ put_redactions_succeeds there others rows
        | inr missing ↦ (
          rows,
          put_redactions_again others rows (λ a m.
              subst (λ (ys : List RedactionRow). Memᴰ a (entries_of job ys))
                (sym (put_redactions_missing missing es rows done))
                ((put_redactions-Grown es rows done).has a (sub a m))),
        )
      ]
