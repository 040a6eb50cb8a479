-- ===== src/Coordination/Invariant.antt =====
-- What holds of the coordination tables between two calls of the store.
pub mod Preserved
pub mod Leases
pub mod Tables
use mathlib.Core.Option
use agent_knowledge_base_cod.Common.{
  ◌≤◌, ◌<◌, ◌≡◌, some, Option, i64_max, InRange, List, find?, All, Distinct, ◌==◌,
}
use agent_knowledge_base_cod.Coordination.Model.{Uuid, TaskRecord, LeaseRow, CoordinationStore}

-- The project of the task with this id, as the primary key finds it.
abbrev pub project_of : Uuid → List TaskRecord → Option Uuid
project_of task_id tasks = Option.map (λ t. t.project_id) (find? (λ t. t.id == task_id) tasks)

pub record RowIsValid (tasks : List TaskRecord) (row : LeaseRow) : Type 0 where
  pub numbered : 0 < row.generation
  pub bounded : row.generation ≤ i64_max
  pub ordered : row.acquired_at_ns ≤ row.renewed_at_ns
  pub running : row.renewed_at_ns < row.expires_at_ns
  pub stored : InRange row.expires_at_ns
  pub owned : project_of row.task_id tasks ≡ some row.project_id

pub record StoreIsValid (s : CoordinationStore) : Type 0 where
  pub task_ids : Distinct (λ t. t.id) s.tasks
  pub event_ids : Distinct (λ e. e.id) s.events
  pub claim_ids : Distinct (λ c. c.id) s.claims
  -- a task has one lease at most, and so has a worktree
  pub lease_tasks : Distinct (λ r. r.task_id) s.leases
  pub lease_worktrees : Distinct (λ r. r.worktree_id) s.leases
  pub rows : All (RowIsValid s.tasks) s.leases
