-- ===== src/Coordination/Task.antt =====
-- crates/brain-coordination/src/task.rs: the tasks that leases and claims belong to.
use agent_knowledge_base_cod.Common.{
  ◌&&◌, ◌||◌, Bool, not, Option, none, some, List, [], ◌∷◌, ◌++◌, is_blank, byte_len, Time,
  timestamp_ns, Result, ok, ◌>>=◌, ◌>>◌, ensure, ok_or, leb, ltb, ◌==◌, any, count_where, filter,
  find?, sort_by, update_where,
}
use agent_knowledge_base_cod.Coordination.Model.{
  Uuid, TaskStatus, is_active, TaskRecord, CoordinationStore, StoreError, constraint, project_scope,
  title_empty, title_too_long, closing_status, task_absent, task_missing, lift_time,
}

-- `closed_at.map(timestamp_ns).transpose()?`
abbrev optional_ns : Option Time → Result StoreError (Option Time)
optional_ns none = ok none
optional_ns (some t) = do at ← lift_time (timestamp_ns t); ok (some at)

unfoldable pub create_task : TaskRecord → CoordinationStore → Result StoreError CoordinationStore
create_task task s = do
  ensure (task.project_id == s.project_id) project_scope
  ensure (not (is_blank task.title)) title_empty
  ensure (leb (byte_len task.title) 300) title_too_long
  created_at ← lift_time (timestamp_ns task.created_at)
  closed_at ← optional_ns task.closed_at
  ensure (not (any (λ t. t.id == task.id) s.tasks)) constraint
  ok (record s {
    tasks = s.tasks ++ record task { created_at = created_at; closed_at = closed_at } ∷ [];
  })

abbrev pub is_task : Uuid → Uuid → TaskRecord → Bool
is_task project_id task_id t = t.project_id == project_id && t.id == task_id

unfoldable pub task : Uuid → CoordinationStore → Option TaskRecord
task task_id s = find? (is_task s.project_id task_id) s.tasks

-- `ORDER BY created_at_ns DESC, task_id DESC`
abbrev newest_first : TaskRecord → TaskRecord → Bool
newest_first a b = ltb b.created_at a.created_at || (a.created_at == b.created_at && leb b.id a.id)

unfoldable pub tasks : Bool → CoordinationStore → List TaskRecord
tasks include_closed s =
    sort_by newest_first
      (filter (λ t. t.project_id == s.project_id && (include_closed || is_active t.status)) s.tasks)

unfoldable pub close_task :
    Uuid
    → TaskStatus
    → Time
    → CoordinationStore
    → Result StoreError (TaskRecord × CoordinationStore)
unfolding task
close_task task_id status closed_at s = do
  ensure (not (is_active status)) closing_status
  at ← lift_time (timestamp_ns closed_at)
  let open_task = λ (t : TaskRecord). is_task s.project_id task_id t && is_active t.status
  let s' = record s {
    tasks = update_where open_task (λ t. record t { status = status; closed_at = some at }) s.tasks;
  }
  ensure (count_where open_task s.tasks == 1) task_absent
  closed ← ok_or (task task_id s') task_missing
  ok (closed, s')
