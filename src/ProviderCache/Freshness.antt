-- ===== src/ProviderCache/Freshness.antt =====
-- What `get` and `claim_first_prompt` of crates/brain-store/src/provider_cache.rs give after a write.
use agent_knowledge_base_cod.Common.{
  find?-appended, ℕ, ◌==◌, ==_self, ◌&&◌, ◌≡◌, ◌<◌, refl, sym, ap, ◌∙◌, subst, inl, inr, Bool,
  Bool-cases, true, false, not, Option, none, some, List, [], ◌∷◌, ◌++◌, Text, text_eq_self,
  is_blank, Time, TimeError, timestamp_ns-eq-ok, timestamp_ns_fits, InRange, any, any-append, find?,
  update_where, ltb, lt→ltb, &&-true, text_eq→≡, ==_iff, arith, Result, ok, err, ok_or, bind-eq-ok,
  ensure-eq-ok, ok-injective,
}
use agent_knowledge_base_cod.Domain.Harness.{Harness, as_str}
use agent_knowledge_base_cod.ProviderCache.{
  ProviderCacheEntry, CacheRow, PromptRow, ProviderCacheStore, CacheError, wrong_project,
  provider_empty, expiry_invalid, session_empty, json, lift_time, timestamp, is_key, key_of,
  refresh, upsert, is_session, claim_first_prompt, row_of, put, get,
}

timestamp_fits : (t : Time) → InRange t → timestamp t ≡ ok t
timestamp_fits t h = ap lift_time (timestamp_ns_fits t h)

claimed :
    (p : PromptRow → Bool) (rows : List PromptRow) (row : PromptRow)
    → p row ≡ true
    → any p (rows ++ row ∷ []) ≡ true
claimed p rows row h = ground (arith, any-append p rows (row ∷ []))

already_claimed :
    (harness : Harness) (session : Text) (prompt : ℕ) (now : Time) (s : ProviderCacheStore)
    → not (is_blank session) ≡ true
    → InRange now
    → any (is_session s.project_id (as_str harness) session) s.prompts ≡ true
    → claim_first_prompt harness session prompt now s ≡ ok (false, s)
unfolding claim_first_prompt
already_claimed harness session prompt now s named fits taken =
    rw (named, timestamp_ns_fits now fits, taken) refl

-- After a claim, no prompt of the session is the first one, whatever the claim gave.
pub claim_first_prompt-once :
    (harness : Harness) (session : Text) (prompt later : ℕ) (now again : Time)
    (s : ProviderCacheStore) {first : Bool} {after : ProviderCacheStore}
    → InRange again
    → claim_first_prompt harness session prompt now s ≡ ok (first, after)
    → claim_first_prompt harness session later again after ≡ ok (false, after)
unfolding claim_first_prompt
claim_first_prompt-once harness session prompt later now again s {first} {after} fits h =
    let (named, h1) = ensure-eq-ok (not (is_blank session)) session_empty _ h in
    let (at, _, h2) = bind-eq-ok (timestamp now) _ h1 in
    let Denied = (λ (r : Bool × ProviderCacheStore).
      claim_first_prompt harness session later again r.1 ≡ ok (false, r.1)) in
    elim (Bool-cases (any (is_session s.project_id (as_str harness) session) s.prompts)) [
      | inl taken ↦
          subst Denied (ok-injective (rw taken at h2))
            (already_claimed harness session later again s named fits taken)
      | inr free ↦ subst Denied (ok-injective (rw free at h2)) (
          already_claimed harness session later again _ named fits (
            claimed (is_session s.project_id (as_str harness) session) s.prompts _ (
              rw (==_self s.project_id, text_eq_self (as_str harness), text_eq_self session) refl)))
    ]

find?-updated :
    (p q : CacheRow → Bool) (f : CacheRow → CacheRow) (rows : List CacheRow)
    → ((r : CacheRow) → p r ≡ true → q (f r) ≡ true)
    → ((r : CacheRow) → p r ≡ false → q r ≡ false)
    → any p rows ≡ true
    → (r : CacheRow) × (p r ≡ true) × (find? q (update_where p f rows) ≡ some (f r))
find?-updated p q f [] hit miss h = cc
find?-updated p q f (x ∷ xs) hit miss h = elim (Bool-cases (p x)) [
  | inl here ↦ (x, here, rw (here, hit x here) refl)
  | inr later ↦ rw (later, miss x later) (find?-updated p q f xs hit miss (rw later at h))
]

refreshed : (row r : CacheRow) → key_of row r ≡ true → refresh row r ≡ row
refreshed row r h =
    let (provider, h1) = &&-true _ _ h in
    let (project, h2) = &&-true _ _ h1 in
    let (query, h3) = &&-true _ _ h2 in
    let (config, source) = &&-true _ _ h3 in
    rw
      (
        text_eq→≡ r.provider row.provider provider,
        (==_iff r.project_id row.project_id).0 project,
        (==_iff r.query_sha256 row.query_sha256).0 query,
        (==_iff r.config_sha256 row.config_sha256).0 config,
        text_eq→≡ r.source_version row.source_version source,
      )
      refl

key_of_self : (row : CacheRow) → key_of row row ≡ true
key_of_self row =
    rw
      (
        text_eq_self row.provider,
        ==_self row.project_id,
        ==_self row.query_sha256,
        ==_self row.config_sha256,
        text_eq_self row.source_version,
      )
      refl

find?-upsert :
    (row : CacheRow) (now : Time) (rows : List CacheRow)
    → ltb now row.expires_at_ns ≡ true
    → find? (λ r. key_of row r && ltb now r.expires_at_ns) (upsert row rows) ≡ some row
find?-upsert row now rows fresh = elim (Bool-cases (any (key_of row) rows)) [
  | inl known ↦
      let (r, same, found) =
        find?-updated (key_of row) (λ x. key_of row x && ltb now x.expires_at_ns) (refresh row) rows
          (λ x k.
            subst (λ y. (key_of row y && ltb now y.expires_at_ns) ≡ true) (sym (refreshed row x k))
              (rw (key_of_self row, fresh) refl))
          (λ x k. rw k refl) known in
      rw known (found ∙ ap some (refreshed row r same))
  | inr new ↦ rw new (
      find?-appended (key_of row) (λ x. key_of row x && ltb now x.expires_at_ns) rows row
        (rw (key_of_self row, fresh) refl) (λ x k. rw k refl) new)
]

lift_time-ok : (r : Result TimeError Time) {at : Time} → lift_time r ≡ ok at → r ≡ ok at
lift_time-ok (ok u) h = ap ok (ok-injective h)
lift_time-ok (err e) h = cc

ok_or-some {ℓ} :
    {A : Type ℓ} (o : Option A) (e : CacheError) {a : A} → ok_or o e ≡ ok a → o ≡ some a
ok_or-some none e h = cc
ok_or-some (some x) e h = ap some (ok-injective h)

module _ (Json : Type 0) (to_string : Json → Option Text) (from_str : Text → Option Json) where
  get-reads :
      (row : CacheRow) (items : Json) (now : Time) (s : ProviderCacheStore)
      → InRange now
      → find?
          (λ r.
            is_key row.provider s.project_id row.query_sha256 row.config_sha256 row.source_version r
            && ltb now r.expires_at_ns)
          s.rows
        ≡ some row
      → from_str row.items_json ≡ some items
      → get Json to_string from_str row.provider row.query_sha256 row.config_sha256
          row.source_version now s
        ≡ ok (
            some (record {
              provider = row.provider;
              project_id = row.project_id;
              task_id = row.task_id;
              query_sha256 = row.query_sha256;
              config_sha256 = row.config_sha256;
              source_version = row.source_version;
              fetched_at = row.fetched_at_ns;
              expires_at = row.expires_at_ns;
              items = items;
            }))
  unfolding get
  get-reads row items now s fits found read = rw (timestamp_ns_fits now fits, found, read) refl

  -- Where `from_str` reads back what `to_string` writes of an entry's items, the entry that was put
  -- is what `get` gives for its key, at any instant that a column holds until it expires.
  pub get-put :
      (entry : ProviderCacheEntry Json) (now : Time) (s : ProviderCacheStore)
      {after : ProviderCacheStore}
      → ((text : Text) → to_string entry.items ≡ some text → from_str text ≡ some entry.items)
      → InRange now
      → now < entry.expires_at
      → put Json to_string from_str entry s ≡ ok after
      → get Json to_string from_str entry.provider entry.query_sha256 entry.config_sha256
          entry.source_version now after
        ≡ ok (some entry)
  unfolding put get
  get-put entry now s {after} round_trip fits early h =
      let (mine, h1) = ensure-eq-ok (entry.project_id == s.project_id) wrong_project _ h in
      let (_, h2) = ensure-eq-ok (not (is_blank entry.provider)) provider_empty _ h1 in
      let (_, h3) = ensure-eq-ok (ltb entry.fetched_at entry.expires_at) expiry_invalid _ h2 in
      let (fetched, e4, h4) = bind-eq-ok (timestamp entry.fetched_at) _ h3 in
      let (expires, e5, h5) = bind-eq-ok (timestamp entry.expires_at) _ h4 in
      let (text, e6, h6) = bind-eq-ok (ok_or (to_string entry.items) json) _ h5 in
      let is_fetched = (timestamp_ns-eq-ok entry.fetched_at (lift_time-ok _ e4)).0 in
      let is_expires = (timestamp_ns-eq-ok entry.expires_at (lift_time-ok _ e5)).0 in
      let row = row_of Json to_string from_str entry fetched expires text in
      let found =
        find?-upsert row now s.rows (lt→ltb now expires (omega (arith, early, is_expires))) in
      let read = round_trip text (ok_or-some (to_string entry.items) json e6) in
      subst
        (λ (a : ProviderCacheStore).
          get Json to_string from_str entry.provider entry.query_sha256 entry.config_sha256
            entry.source_version now a
          ≡ ok (some entry))
        (ok-injective h6)
        (get-reads row entry.items now (record s { rows = upsert row s.rows }) fits
            (subst
              (λ (n : ℕ).
                find?
                  (λ r.
                    is_key row.provider n row.query_sha256 row.config_sha256 row.source_version r
                    && ltb now r.expires_at_ns)
                  (upsert row s.rows)
                ≡ some row)
              ((==_iff entry.project_id s.project_id).0 mine) found)
            read
          ∙ rw (is_fetched, is_expires) refl)
