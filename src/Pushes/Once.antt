-- ===== src/Pushes/Once.antt =====
-- Each memory reaches a session once at most: crates/brain-store/src/push.rs.
use agent_knowledge_base_cod.Common.{
  append_nil, contains, AreDistinct, add, add_all, contains-add_all, add_all-AreDistinct, InRange,
  timestamp_ns_fits, ◌≡◌, ==_self, ◌||◌, refl, sym, ap, subst, ◌∙◌, inl, inr, Bool-cases, false,
  List, [], ◌∷◌, ◌++◌, any, All, All-append, filter, map, length, count_where, Text, text_eq,
  text_eq_self, is_blank, Time, ok,
}
use agent_knowledge_base_cod.Domain.Memory.{Uuid}
use agent_knowledge_base_cod.Pushes.{
  PushRow, PushStore, has_push, insert_push, push_row, insert_pushes, record_session_push, is_of,
  session_pushed_ids, session_push_count,
}

-- The rows are of the ledger's project.
abbrev pub IsOwned : PushStore → Type 0
IsOwned store = All (λ (row : PushRow). row.project_id ≡ store.project_scope) store.session_pushes

pushed : Text → Uuid → List PushRow → List Uuid
pushed session project rows =
    map (λ (row : PushRow). row.memory_id) (filter (is_of session project) rows)

AllOwned : Uuid → List PushRow → Type 0
AllOwned project rows = All (λ (row : PushRow). row.project_id ≡ project) rows

any-has_push :
    (session : Text) (project id : Uuid) (rows : List PushRow)
    → AllOwned project rows
    → any (has_push session id) rows ≡ contains (pushed session project rows) id
unfolding AllOwned pushed
any-has_push session project id [] h = refl
any-has_push session project id (row ∷ rows) h =
    elim (Bool-cases (text_eq row.native_session_id session)) [
      | inl own ↦ rw (own, h.0, ==_self project, any-has_push session project id rows h.1) refl
      | inr other ↦ rw (other, any-has_push session project id rows h.1) refl
    ]

pushed-append :
    (session : Text) (project : Uuid) (rows : List PushRow) (row : PushRow)
    → pushed session project (rows ++ (row ∷ []))
      ≡ pushed session project rows ++ pushed session project (row ∷ [])
unfolding pushed
pushed-append session project [] row = refl
pushed-append session project (r ∷ rows) row = elim (Bool-cases (is_of session project r)) [
  | inl own ↦ rw (own, pushed-append session project rows row) refl
  | inr other ↦ rw (other, pushed-append session project rows row) refl
]

-- One row more is the insertion of its memory in its session's set.
pushed-insert_push :
    (session : Text) (project id : Uuid) (at : Time) (rows : List PushRow)
    → AllOwned project rows
    → pushed session project (insert_push (push_row session project at id) rows)
      ≡ add id (pushed session project rows)
unfolding pushed
pushed-insert_push session project id at rows h =
    let same = any-has_push session project id rows h in
    elim (Bool-cases (any (has_push session id) rows)) [
      | inl had ↦ rw (had, sym same ∙ had) refl
      | inr new ↦
          rw
            (
              new,
              sym same ∙ new,
              pushed-append session project rows (push_row session project at id),
              text_eq_self session,
              ==_self project,
            )
            refl
    ]

insert_push-AllOwned :
    (session : Text) (project id : Uuid) (at : Time) (rows : List PushRow)
    → AllOwned project rows
    → AllOwned project (insert_push (push_row session project at id) rows)
unfolding AllOwned
insert_push-AllOwned session project id at rows h =
    elim (Bool-cases (any (has_push session id) rows)) [
      | inl had ↦ rw had h
      | inr new ↦ rw new (All-append _ rows (push_row session project at id ∷ []) h (refl, tt))
    ]

-- It is in no other session's.
pushed-insert_push_other :
    (session other : Text) (project id : Uuid) (at : Time) (rows : List PushRow)
    → text_eq session other ≡ false
    → pushed other project (insert_push (push_row session project at id) rows)
      ≡ pushed other project rows
unfolding pushed
pushed-insert_push_other session other project id at rows apart =
    elim (Bool-cases (any (has_push session id) rows)) [
      | inl had ↦ rw had refl
      | inr new ↦
          rw (new, pushed-append other project rows (push_row session project at id), apart)
            (append_nil (pushed other project rows))
    ]

pushed-insert_pushes :
    (session : Text) (project : Uuid) (at : Time) (ids : List Uuid) (rows : List PushRow)
    → AllOwned project rows
    → (pushed session project (insert_pushes session project at ids rows)
        ≡ add_all ids (pushed session project rows))
      × AllOwned project (insert_pushes session project at ids rows)
pushed-insert_pushes session project at [] rows h = (refl, h)
pushed-insert_pushes session project at (id ∷ ids) rows h =
    let (same, owned) =
      pushed-insert_pushes session project at ids
        (insert_push (push_row session project at id) rows)
        (insert_push-AllOwned session project id at rows h) in
    (same ∙ ap (add_all ids) (pushed-insert_push session project id at rows h), owned)

pushed-insert_pushes_other :
    (session other : Text) (project : Uuid) (at : Time) (ids : List Uuid) (rows : List PushRow)
    → text_eq session other ≡ false
    → pushed other project (insert_pushes session project at ids rows) ≡ pushed other project rows
pushed-insert_pushes_other session other project at [] rows apart = refl
pushed-insert_pushes_other session other project at (id ∷ ids) rows apart =
    pushed-insert_pushes_other session other project at ids
      (insert_push (push_row session project at id) rows) apart
    ∙ pushed-insert_push_other session other project id at rows apart

count-pushed :
    (session : Text) (project : Uuid) (rows : List PushRow)
    → count_where (is_of session project) rows ≡ length (pushed session project rows)
unfolding pushed
count-pushed session project [] = refl
count-pushed session project (row ∷ rows) = elim (Bool-cases (is_of session project row)) [
  | inl own ↦ rw (own, count-pushed session project rows) refl
  | inr other ↦ rw (other, count-pushed session project rows) refl
]

-- What a push does to the memories that sessions have been handed.
abbrev pub HasPushed : Text → List Uuid → PushStore → PushStore → Type 0
HasPushed session memories before after =
    IsOwned after
    × ((id : Uuid)
        → contains (session_pushed_ids session after) id
          ≡ (contains (session_pushed_ids session before) id || contains memories id))
    × AreDistinct (session_pushed_ids session after)
    × (session_push_count session after ≡ length (session_pushed_ids session after))
    × ((other : Text)
        → text_eq session other ≡ false
        → session_pushed_ids other after ≡ session_pushed_ids other before)

run_push :
    (session : Text) (memories : List Uuid) (now : Time) (store : PushStore)
    → is_blank session ≡ false
    → InRange now
    → record_session_push session memories now store
      ≡ ok (record store {
        session_pushes =
            insert_pushes session store.project_scope now memories store.session_pushes;
      })
unfolding record_session_push
run_push session [] now store named ranged = refl
run_push session (id ∷ memories) now store named ranged =
    rw (named, timestamp_ns_fits now ranged) refl

-- A push to a session that has a name, at an instant that a column holds, succeeds. The session has
-- then been handed what it had been handed before and the memories of the push, each of them once,
-- its count is their number, and other sessions have what they had. Before, the rows of the table
-- are the project's and name no memory twice for the session.
pub record_session_push-HasPushed :
    (session : Text) (memories : List Uuid) (now : Time) (before : PushStore)
    → is_blank session ≡ false
    → InRange now
    → IsOwned before
    → AreDistinct (session_pushed_ids session before)
    → (after : PushStore) × (record_session_push session memories now before ≡ ok after)
      × HasPushed session memories before after
unfolding session_pushed_ids session_push_count pushed AllOwned
record_session_push-HasPushed session memories now before named ranged owned apart =
    let project = before.project_scope in
    let had = pushed session project before.session_pushes in
    let once : AreDistinct had = rw named at apart in
    let (adds, all_owned) =
      pushed-insert_pushes session project now memories before.session_pushes owned in
    (
      record before {
        session_pushes = insert_pushes session project now memories before.session_pushes;
      },
      run_push session memories now before named ranged,
      (
        all_owned,
        λ id. rw named (ap (λ ids. contains ids id) adds ∙ contains-add_all memories had id),
        rw named (subst AreDistinct (sym adds) (add_all-AreDistinct memories had once)),
        rw named (
            count-pushed session project
              (insert_pushes session project now memories before.session_pushes)),
        λ other differs. elim (Bool-cases (is_blank other)) [
          | inl blank ↦ rw blank refl
          | inr filled ↦ rw filled (
              pushed-insert_pushes_other session other project now memories before.session_pushes
                differs)
        ],
      ),
    )
