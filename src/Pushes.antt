-- ===== src/Pushes.antt =====
-- The memories that a session has been handed, in crates/brain-store/src/push.rs.
pub mod Once
mod Tests
use agent_knowledge_base_cod.Common.{
  ℕ, ◌==◌, ◌&&◌, ◌||◌, Bool, List, [], ◌∷◌, ◌++◌, any, filter, map, is_nil, count_where, Text,
  text_eq, is_blank, Time, TimeError, timestamp_ns, Result, ok, ◌>>=◌, if◌then◌else◌,
}
use agent_knowledge_base_cod.Domain.Memory.{Uuid}

pub record PushRow : Type 0 where
  pub native_session_id : Text
  pub memory_id : Uuid
  pub project_id : Uuid
  pub pushed_at_ns : Time

-- The table `session_pushes`, of a ledger that is open for one project.
pub record PushStore : Type 0 where
  pub project_scope : Uuid
  pub session_pushes : List PushRow

-- The primary key.
abbrev pub has_push : Text → Uuid → PushRow → Bool
has_push session memory row = text_eq row.native_session_id session && (row.memory_id == memory)

-- `INSERT … ON CONFLICT(native_session_id, memory_id) DO NOTHING`
abbrev pub insert_push : PushRow → List PushRow → List PushRow
insert_push row rows =
    if any (has_push row.native_session_id row.memory_id) rows then rows else rows ++ (row ∷ [])

abbrev pub push_row : Text → Uuid → Time → Uuid → PushRow
push_row session project at memory = record {
  native_session_id = session;
  memory_id = memory;
  project_id = project;
  pushed_at_ns = at;
}

abbrev pub insert_pushes : Text → Uuid → Time → List Uuid → List PushRow → List PushRow
insert_pushes session project at [] rows = rows
insert_pushes session project at (memory ∷ memories) rows =
    insert_pushes session project at memories
      (insert_push (push_row session project at memory) rows)

unfoldable pub record_session_push :
    Text → List Uuid → Time → PushStore → Result TimeError PushStore
record_session_push session memories now store =
    if is_nil memories || is_blank session then ok store else (do
      at ← timestamp_ns now
      ok (record store {
        session_pushes = insert_pushes session store.project_scope at memories store.session_pushes;
      }))

abbrev pub is_of : Text → Uuid → PushRow → Bool
is_of session project row = text_eq row.native_session_id session && (row.project_id == project)

unfoldable pub session_pushed_ids : Text → PushStore → List Uuid
session_pushed_ids session store =
    if is_blank session
    then []
    else map (λ (row : PushRow). row.memory_id)
        (filter (is_of session store.project_scope) store.session_pushes)

unfoldable pub session_push_count : Text → PushStore → ℕ
session_push_count session store =
    count_where (is_of session store.project_scope) store.session_pushes
