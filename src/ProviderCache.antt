-- ===== src/ProviderCache.antt =====
-- crates/brain-store/src/provider_cache.rs: answers of context providers that are kept for a time,
-- and which prompt of a session came first. `Json`, `to_string` and `from_str` stand for the
-- values of the `serde_json` crate and its two functions; `none` is their error.
pub mod Freshness
mod Tests
use agent_knowledge_base_cod.Common.{
  ℕ, ◌==◌, ◌&&◌, Bool, true, false, not, Option, none, some, List, [], ◌∷◌, ◌++◌, Text, text_eq,
  is_blank, Time, TimeError, timestamp_ns, any, find?, filter, delete_where, count_where,
  update_where, sort_by, ltb, Result, ok, err, ◌>>=◌, ◌>>◌, ensure, ok_or, if◌then◌else◌,
}
use agent_knowledge_base_cod.Domain.Harness.{Harness, as_str}

abbrev pub Uuid : Type 0
Uuid = ℕ

pub record ProviderCacheEntry (Json : Type 0) : Type 0 where
  pub provider : Text
  pub project_id : Uuid
  pub task_id : Option Uuid
  pub query_sha256 : ℕ
  pub config_sha256 : ℕ
  pub source_version : Text
  pub fetched_at : Time
  pub expires_at : Time
  pub items : Json

-- `provider_cache`
pub record CacheRow : Type 0 where
  pub provider : Text
  pub project_id : Uuid
  pub task_id : Option Uuid
  pub query_sha256 : ℕ
  pub config_sha256 : ℕ
  pub source_version : Text
  pub fetched_at_ns : Time
  pub expires_at_ns : Time
  pub items_json : Text

-- `provider_prompt_state`
pub record PromptRow : Type 0 where
  pub project_id : Uuid
  pub harness : Text
  pub native_session_id : Text
  pub prompt_sha256 : ℕ
  pub claimed_at_ns : Time

pub record ProviderCacheStore : Type 0 where
  pub project_id : Uuid
  pub rows : List CacheRow
  pub prompts : List PromptRow

pub data CacheError : Type 0 where
  wrong_project provider_empty expiry_invalid session_empty json : CacheError
  time : TimeError → CacheError

abbrev pub lift_time : Result TimeError Time → Result CacheError Time
lift_time (ok at) = ok at
lift_time (err e) = err (time e)

-- `timestamp`
abbrev pub timestamp : Time → Result CacheError Time
timestamp t = lift_time (timestamp_ns t)

-- The columns of the primary key.
abbrev pub is_key : Text → Uuid → ℕ → ℕ → Text → CacheRow → Bool
is_key provider project query config source row =
    text_eq row.provider provider
    && (row.project_id == project
        && (row.query_sha256 == query
            && (row.config_sha256 == config && text_eq row.source_version source)))

abbrev pub key_of : CacheRow → CacheRow → Bool
key_of row =
    is_key row.provider row.project_id row.query_sha256 row.config_sha256 row.source_version

-- `DO UPDATE SET …`
abbrev pub refresh : CacheRow → CacheRow → CacheRow
refresh row old = record old {
  task_id = row.task_id;
  fetched_at_ns = row.fetched_at_ns;
  expires_at_ns = row.expires_at_ns;
  items_json = row.items_json;
}

abbrev pub upsert : CacheRow → List CacheRow → List CacheRow
upsert row rows =
    if any (key_of row) rows then update_where (key_of row) (refresh row) rows else rows ++ row ∷ []

-- `harness`, `native_session_id` of the project
abbrev pub is_session : Uuid → Text → Text → PromptRow → Bool
is_session project harness session row =
    row.project_id == project
    && (text_eq row.harness harness && text_eq row.native_session_id session)

-- `INSERT OR IGNORE`: whether a row was written, and the store.
unfoldable pub claim_first_prompt :
    Harness → Text → ℕ → Time → ProviderCacheStore → Result CacheError (Bool × ProviderCacheStore)
claim_first_prompt harness session prompt now s = do
  ensure (not (is_blank session)) session_empty
  at ← timestamp now
  (if any (is_session s.project_id (as_str harness) session) s.prompts
      then ok (false, s)
      else ok (
        true,
        record s {
          prompts =
              s.prompts
              ++ record {
                project_id = s.project_id;
                harness = as_str harness;
                native_session_id = session;
                prompt_sha256 = prompt;
                claimed_at_ns = at;
              }
                ∷ [];
        },
      ))

abbrev pub is_provider : Uuid → Text → CacheRow → Bool
is_provider project provider row = row.project_id == project && text_eq row.provider provider

unfoldable pub remove_provider_cache : Text → ProviderCacheStore → ℕ × ProviderCacheStore
remove_provider_cache provider s = (
  count_where (is_provider s.project_id provider) s.rows,
  record s { rows = delete_where (is_provider s.project_id provider) s.rows },
)

module _ (Json : Type 0) (to_string : Json → Option Text) (from_str : Text → Option Json) where
  abbrev pub row_of : ProviderCacheEntry Json → Time → Time → Text → CacheRow
  row_of entry fetched expires text = record {
    provider = entry.provider;
    project_id = entry.project_id;
    task_id = entry.task_id;
    query_sha256 = entry.query_sha256;
    config_sha256 = entry.config_sha256;
    source_version = entry.source_version;
    fetched_at_ns = fetched;
    expires_at_ns = expires;
    items_json = text;
  }

  unfoldable pub put :
      ProviderCacheEntry Json → ProviderCacheStore → Result CacheError ProviderCacheStore
  put entry s = do
    ensure (entry.project_id == s.project_id) wrong_project
    ensure (not (is_blank entry.provider)) provider_empty
    ensure (ltb entry.fetched_at entry.expires_at) expiry_invalid
    fetched ← timestamp entry.fetched_at
    expires ← timestamp entry.expires_at
    text ← ok_or (to_string entry.items) json
    ok (record s { rows = upsert (row_of entry fetched expires text) s.rows })

  -- The closure of `raw.map`, `transpose`. The columns that a query fixes equal its arguments, so
  -- they are read from the row here.
  abbrev pub entry_of : Option CacheRow → Result CacheError (Option (ProviderCacheEntry Json))
  entry_of none = ok none
  entry_of (some row) = do
    items ← ok_or (from_str row.items_json) json
    ok (
        some (record {
          provider = row.provider;
          project_id = row.project_id;
          task_id = row.task_id;
          query_sha256 = row.query_sha256;
          config_sha256 = row.config_sha256;
          source_version = row.source_version;
          fetched_at = row.fetched_at_ns;
          expires_at = row.expires_at_ns;
          items = items;
        }))

  abbrev pub is_fresh : Time → CacheRow → Bool
  is_fresh now row = ltb now row.expires_at_ns

  unfoldable pub get :
      Text
      → ℕ
      → ℕ
      → Text
      → Time
      → ProviderCacheStore
      → Result CacheError (Option (ProviderCacheEntry Json))
  get provider query config source now s = do
    at ← timestamp now
    entry_of (
        find? (λ row. is_key provider s.project_id query config source row && is_fresh at row)
          s.rows)

  -- `WHERE provider = ?1 AND project_id = ?2 AND config_sha256 = ?3 AND expires_at_ns > ?4`
  abbrev pub is_recent : Text → Uuid → ℕ → Time → CacheRow → Bool
  is_recent provider project config now row =
      is_provider project provider row && (row.config_sha256 == config && is_fresh now row)

  abbrev pub newest : List CacheRow → Option CacheRow
  newest [] = none
  newest (row ∷ rows) = some row

  unfoldable pub latest :
      Text → ℕ → Time → ProviderCacheStore → Result CacheError (Option (ProviderCacheEntry Json))
  latest provider config now s = do
    at ← timestamp now
    entry_of (
        newest (
          sort_by (λ a b. ltb b.fetched_at_ns a.fetched_at_ns)
            (filter (is_recent provider s.project_id config at) s.rows)))
