-- ===== src/Events/Replay.antt =====
-- A batch that crates/brain-store/src/ledger.rs has stored may be appended again.
use agent_knowledge_base_cod.Common.{
  ℕ, ◌==◌, ◌≡◌, refl, ap, subst, inl, inr, true, not, some, List, [], ◌∷◌, ◌++◌, arith, length,
  Time, InRange, timestamp_ns, ok, bind-eq-ok, ensure-eq-ok, ok-injective, any, any-append, All,
}
use agent_knowledge_base_cod.Domain.Event.{NormalizedEvent, EventBatch}
use agent_knowledge_base_cod.Events.{
  EventApi, EventRow, QuarantineRow, GapRow, CursorRow, EventStore, AppendResult, lift_time,
  has_key, put_event, occurred_or_observed, stored_row, insert_event, insert_events,
  quarantine_rows, gap_rows, save_cursor, cursor, append_batch, foreign_project,
}
use agent_knowledge_base_cod.Events.Cursor.{load_cursor-save_cursor, save_cursor_succeeds}
use agent_knowledge_base_cod.Events.Inserts.{put_event-cases}

-- The keys that a table has.
abbrev pub HasKey : ℕ → List EventRow → Type 0
HasKey key rows = any (has_key key) rows ≡ true

abbrev KeepsKeys : List EventRow → List EventRow → Type 0
KeepsKeys before after = (key : ℕ) → HasKey key before → HasKey key after

put_event-HasKey :
    (row : EventRow) (rows : List EventRow) {n : ℕ} {after : List EventRow}
    → put_event row rows ≡ ok (n, after)
    → HasKey row.idempotency_key after × KeepsKeys rows after
put_event-HasKey row rows done = elim (put_event-cases row rows done) [
  | inl (had, same) ↦
      (subst (HasKey row.idempotency_key) same had, λ key h. subst (HasKey key) same h)
  | inr (new, same) ↦ (
    subst (HasKey row.idempotency_key) same
        (ground (arith, any-append (has_key row.idempotency_key) rows (row ∷ []))),
    λ key h. subst (HasKey key) same (ground (arith, any-append (has_key key) rows (row ∷ []))),
  )
]

module _ {Json : Type 0} (api : EventApi Json) where
  -- An event that was inserted is inserted nowhere again where its key stands.
  abbrev IsReplayed : NormalizedEvent Json → Type 0
  IsReplayed e =
      (rows : List EventRow)
      → HasKey e.idempotency_key rows
      → insert_event api e rows ≡ ok (0, rows)

  insert_event-HasKey :
      (e : NormalizedEvent Json) (rows : List EventRow) {r : ℕ × List EventRow}
      → insert_event api e rows ≡ ok r
      → HasKey e.idempotency_key r.1 × KeepsKeys rows r.1 × IsReplayed e
  unfolding insert_event
  insert_event-HasKey e rows done =
      let (observed, seen, a) = bind-eq-ok (lift_time (timestamp_ns e.observed_at)) _ done in
      let (raw, dated, b) = bind-eq-ok (lift_time (timestamp_ns e.occurred_at)) _ a in
      let (has, keeps) =
        put_event-HasKey (stored_row api e (occurred_or_observed raw observed) observed) rows b in
      (has, keeps, λ others had. rw (seen, dated, had) refl)

  abbrev AllReplayed : List (NormalizedEvent Json) → List EventRow → Type 0
  AllReplayed es rows =
      All (λ (e : NormalizedEvent Json). HasKey e.idempotency_key rows × IsReplayed e) es

  insert_events-AllReplayed :
      (es : List (NormalizedEvent Json)) (rows : List EventRow) {r : ℕ × List EventRow}
      → insert_events api es rows ≡ ok r
      → AllReplayed es r.1 × KeepsKeys rows r.1
  insert_events-AllReplayed [] rows done =
      (tt, λ key h. subst (HasKey key) (ap (λ (r : ℕ × List EventRow). r.1) (ok-injective done)) h)
  insert_events-AllReplayed (e ∷ es) rows {r} done =
      let (first, one, a) = bind-eq-ok (insert_event api e rows) _ done in
      let (others, more, b) = bind-eq-ok (insert_events api es first.1) _ a in
      let (has, keeps, again) = insert_event-HasKey e rows one in
      let (all_has, all_keep) = insert_events-AllReplayed es first.1 more in
      let same = ap (λ (r : ℕ × List EventRow). r.1) (ok-injective b) in
      subst (λ (out : List EventRow). AllReplayed (e ∷ es) out × KeepsKeys rows out) same
        (((all_keep e.idempotency_key has, again), all_has), λ key h. all_keep key (keeps key h))

  insert_events_again :
      (es : List (NormalizedEvent Json)) (rows : List EventRow)
      → AllReplayed es rows
      → insert_events api es rows ≡ ok (0, rows)
  insert_events_again [] rows h = refl
  insert_events_again (e ∷ es) rows h = rw (h.0.1 rows h.0.0, insert_events_again es rows h.1) refl

  all_stored :
      (es : List (NormalizedEvent Json)) (rows : List EventRow)
      → AllReplayed es rows
      → All (λ (e : NormalizedEvent Json). HasKey e.idempotency_key rows) es
  all_stored [] rows h = tt
  all_stored (e ∷ es) rows h = (h.0.0, all_stored es rows h.1)

  -- A batch whose parts succeed.
  run_batch :
      (now : Time) (batch : EventBatch Json) (store : EventStore) {stored : ℕ × List EventRow}
      {bad : List QuarantineRow} {gaps : List GapRow} {cursors : List CursorRow}
      → not (
          any
            (λ (e : NormalizedEvent Json). not (e.project_id == store.project_scope))
            batch.events)
        ≡ true
      → insert_events api batch.events store.events ≡ ok stored
      → quarantine_rows batch.source_id batch.quarantined ≡ ok bad
      → gap_rows api batch.source_id batch.capture_gaps ≡ ok gaps
      → save_cursor api batch.source_id batch.next_cursor now store.source_cursors ≡ ok cursors
      → append_batch api now batch store
        ≡ ok (
          record { inserted = stored.0; quarantined = length bad; capture_gaps = length gaps },
          record store {
            events = stored.1;
            quarantine = store.quarantine ++ bad;
            capture_gaps = store.capture_gaps ++ gaps;
            source_cursors = cursors;
            search_cache = [];
          },
        )
  unfolding append_batch
  run_batch now batch store own inserted quarantined gapped saved =
      rw (own, inserted, quarantined, gapped, saved) refl

  -- What the ledger has after a batch, and what the batch does to it once more.
  abbrev pub StoredOnce : EventBatch Json → Time → EventStore → Type 0
  StoredOnce batch later store =
      All (λ (e : NormalizedEvent Json). HasKey e.idempotency_key store.events) batch.events
      × (cursor api batch.source_id store ≡ ok batch.next_cursor)
      × ((again : AppendResult) × (after : EventStore) × (append_batch api later batch store
            ≡ ok (again, after))
          × (again.inserted ≡ 0)
          × (after.events ≡ store.events)
          × (cursor api batch.source_id after ≡ ok batch.next_cursor))

  -- After a batch the ledger has a row with the key of each of its events, and the source's cursor is
  -- the batch's, where `from_str` reads it back. To append the batch again, at an instant that a
  -- column holds, succeeds, inserts no event and leaves the events and the cursor.
  pub append_batch-StoredOnce :
      (now later : Time) (batch : EventBatch Json) (before store : EventStore)
      (result : AppendResult)
      → append_batch api now batch before ≡ ok (result, store)
      → InRange later
      → api.cursor_from_str (api.cursor_to_string batch.next_cursor) ≡ some batch.next_cursor
      → StoredOnce batch later store
  unfolding append_batch
  append_batch-StoredOnce now later batch before store result done ranged parses =
      let (own, a) =
        ensure-eq-ok
          (not (
            any (λ (e : NormalizedEvent Json). not (e.project_id == before.project_scope))
              batch.events))
          foreign_project _ done in
      let (stored, inserted, b) = bind-eq-ok (insert_events api batch.events before.events) _ a in
      let (bad, quarantined, c) =
        bind-eq-ok (quarantine_rows batch.source_id batch.quarantined) _ b in
      let (gaps, gapped, d) = bind-eq-ok (gap_rows api batch.source_id batch.capture_gaps) _ c in
      let (cursors, saved, e) =
        bind-eq-ok (save_cursor api batch.source_id batch.next_cursor now before.source_cursors) _
          d in
      let (replayed, _) = insert_events-AllReplayed batch.events before.events inserted in
      let (newer, saved_again) =
        save_cursor_succeeds api batch.source_id batch.next_cursor later cursors ranged in
      subst (StoredOnce batch later) (ap (λ (p : AppendResult × EventStore). p.1) (ok-injective e))
        (
          all_stored batch.events stored.1 replayed,
          load_cursor-save_cursor api batch.source_id batch.next_cursor now before.source_cursors
              parses saved,
          (
            record { inserted = 0; quarantined = length bad; capture_gaps = length gaps },
            record before {
              events = stored.1;
              quarantine = (before.quarantine ++ bad) ++ bad;
              capture_gaps = (before.capture_gaps ++ gaps) ++ gaps;
              source_cursors = newer;
              search_cache = [];
            },
            run_batch later batch
                (record before {
                  events = stored.1;
                  quarantine = before.quarantine ++ bad;
                  capture_gaps = before.capture_gaps ++ gaps;
                  source_cursors = cursors;
                  search_cache = [];
                })
                own (insert_events_again batch.events stored.1 replayed) quarantined gapped
                saved_again,
            refl,
            refl,
            load_cursor-save_cursor api batch.source_id batch.next_cursor later cursors parses
                saved_again,
          ),
        )
