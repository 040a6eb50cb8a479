-- ===== src/Events/Pages.antt =====
-- The pages of a session are slices of its events in their order: crates/brain-store/src/ledger.rs.
use agent_knowledge_base_cod.Common.{
  ℕ, ◌≤◌, ==_self, ◌≡◌, ◌↔◌, refl, sym, ap, ◌∙◌, true, false, List, Memᴰ, arith, filter, take,
  take_all, drop, sort_by, length, length-sort_by, length-filter, NoneTwice, NoneTwice-filter,
  Ascending, IsStrictOrder, IsWeak, IsOrderBy, IsOrderBy-Ascending, sort_by-IsOrderBy, Text, ℤ, pos,
  negsuc, i64_max, le→leb, ok,
}
use agent_knowledge_base_cod.Events.{EventApi, EventRow, EventStore}
use agent_knowledge_base_cod.Events.Reads.{
  lt_offset, of_session, is_earlier, bounded_limit, bounded_offset, parse_events,
  session_event_count, session_events_page,
}
use agent_knowledge_base_cod.Events.Sessions.{session_events}

lt_offset-irreflexive : (a : ℤ) → lt_offset a a ≡ false
lt_offset-irreflexive (pos a) = ground arith
lt_offset-irreflexive (negsuc a) = ground arith

lt_offset-transitive :
    (a b c : ℤ) → lt_offset a b ≡ true → lt_offset b c ≡ true → lt_offset a c ≡ true
lt_offset-transitive (pos a) (pos b) (pos c) h k = ground arith
lt_offset-transitive (pos a) (pos b) (negsuc c) h k = cc
lt_offset-transitive (pos a) (negsuc b) c h k = cc
lt_offset-transitive (negsuc a) b (pos c) h k = refl
lt_offset-transitive (negsuc a) (pos b) (negsuc c) h k = cc
lt_offset-transitive (negsuc a) (negsuc b) (negsuc c) h k = ground arith

lt_offset-weak : (a b c : ℤ) → lt_offset a b ≡ false → lt_offset b c ≡ false → lt_offset a c ≡ false
lt_offset-weak (pos a) (pos b) (pos c) h k = ground arith
lt_offset-weak (pos a) b (negsuc c) h k = refl
lt_offset-weak (pos a) (negsuc b) (pos c) h k = cc
lt_offset-weak (negsuc a) (pos b) c h k = cc
lt_offset-weak (negsuc a) (negsuc b) (pos c) h k = cc
lt_offset-weak (negsuc a) (negsuc b) (negsuc c) h k = ground arith

earlier_order : IsStrictOrder is_earlier
earlier_order = record {
  irreflexive = λ a. ground (arith, lt_offset-irreflexive a.source_offset);
  transitive = λ a b c h k.
      ground (arith, lt_offset-transitive a.source_offset b.source_offset c.source_offset);
}

earlier_weak : IsWeak is_earlier
earlier_weak a b c h k =
    ground (arith, lt_offset-weak a.source_offset b.source_offset c.source_offset)

bounded_limit-le : (n : ℕ) → n ≤ i64_max → bounded_limit n ≡ n
bounded_limit-le n h = rw (le→leb n i64_max h) refl

bounded_offset-le : (n : ℕ) → n ≤ i64_max → bounded_offset n ≡ n
bounded_offset-le n h = rw (le→leb n i64_max h) refl

-- The rows of a session, of which one is earlier than the next.
pub record IsSession (session : Text) (store : EventStore) (rows : List EventRow) : Type 0 where
  pub once : NoneTwice store.events
  pub ascending : Ascending is_earlier rows
  pub same :
      (row : EventRow) → Memᴰ row rows ↔ Memᴰ row (filter (of_session store session) store.events)

ordered_rows :
    (order : List EventRow → List EventRow) (session : Text) (store : EventStore)
    (rows : List EventRow)
    → IsOrderBy is_earlier order
    → IsSession session store rows
    → order (filter (of_session store session) store.events) ≡ rows
ordered_rows order session store rows is h =
    let found = filter (of_session store session) store.events in
    IsOrderBy-Ascending is_earlier earlier_order order found rows is
      (NoneTwice-filter (of_session store session) store.events h.once) h.ascending
      (λ row. (h.same row).0) (λ row. (h.same row).1)

-- The stable sort is an order that SQLite may read rows in.
pub stable : IsOrderBy is_earlier (sort_by is_earlier)
stable = sort_by-IsOrderBy is_earlier earlier_order earlier_weak

module _ {Json : Type 0} (api : EventApi Json) where
  count_rows :
      (session : Text) (store : EventStore) (rows : List EventRow)
      → IsSession session store rows
      → session_event_count session store ≡ length rows
  unfolding session_event_count
  count_rows session store rows h =
      let found = filter (of_session store session) store.events in
      sym (length-filter (of_session store session) store.events)
      ∙ sym (length-sort_by is_earlier found)
      ∙ ap length (ordered_rows (sort_by is_earlier) session store rows stable h)

  -- Where no row stands twice in the table and the events of a session of the ledger's own project
  -- are given by rows of which each is earlier than the next, so that none tie, a page is the events
  -- of these rows from the offset on, as many rows as the limit says, in any order that keeps to the
  -- ORDER BY. The whole session is the events of all the rows, and its count is their number. The
  -- limit, the offset and the number fit SQLite's integers.
  pub session_events_page-take :
      (order : List EventRow → List EventRow) (session : Text) (limit offset : ℕ)
      (store : EventStore) (rows : List EventRow)
      → IsOrderBy is_earlier order
      → IsSession session store rows
      → limit ≤ i64_max
      → offset ≤ i64_max
      → length rows ≤ i64_max
      → (session_events_page api order store.project_scope session limit offset store
          ≡ ok (parse_events api store.project_scope (take limit (drop offset rows))))
        × (session_events api order store.project_scope session store
            ≡ ok (parse_events api store.project_scope rows))
        × (session_event_count session store ≡ length rows)
  unfolding session_events_page
  session_events_page-take order session limit offset store rows is h k m fits =
      let ordered = ordered_rows order session store rows is h in
      (
        rw
            (
              ==_self store.project_scope,
              bounded_limit-le limit k,
              bounded_offset-le offset m,
              ordered,
            )
            refl,
        rw (==_self store.project_scope, ordered)
            (ap (λ ys. ok (parse_events api store.project_scope ys)) (take_all i64_max rows fits)),
        count_rows session store rows h,
      )
