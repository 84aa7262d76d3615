-- ===== src/Orchestrator/Refresh.antt =====
-- The status of a task from its commands, and the number of active tasks of a project.
use wherecode.Prelude.{
  String, ◌||◌, Option, none, some, List, any, is_empty, keep, length, if◌then◌else◌,
}
use wherecode.Dict.{get, get_list}
use wherecode.Py.{returned, ◌>>=◌, ◌>>◌, pure, reads}
use wherecode.Models.Hierarchy.{
  Command, Task, Project, TaskStatus, is_queued, is_running, is_success, is_failed, is_waiting,
  is_dropped, is_active,
}
use wherecode.Scheduler.State.{deref_all}
use wherecode.Orchestrator.State.{
  Setting, Action, persist_project, persist_task, modify_project, modify_task, read_clock,
}

unfoldable pub derive_status : List Command → TaskStatus
derive_status commands =
    if is_empty commands
    then TaskStatus.todo
    else if any (λ c. is_waiting c.status) commands
    then TaskStatus.waiting_approval
    else if any (λ c. is_running c.status) commands || any (λ c. is_queued c.status) commands
    then TaskStatus.in_progress
    else if any (λ c. is_failed c.status) commands
    then TaskStatus.failed
    else if any (λ c. is_success c.status) commands
    then TaskStatus.done
    else if any (λ c. is_dropped c.status) commands
    then TaskStatus.canceled
    else TaskStatus.todo

unfoldable pub derive_task_status : String → Action TaskStatus
derive_task_status task_id = do
  commands ← reads (λ s. deref_all s.commands (get_list s.task_commands task_id))
  pure (derive_status commands)

module _ (w : Setting) where
  unfoldable pub recompute_found : String → Option Project → Action Unit
  recompute_found project_id none = pure tt
  recompute_found project_id (some project) = do
    tasks ← reads (λ s. deref_all s.tasks (get_list s.project_tasks project_id))
    now ← read_clock w
    modify_project project_id λ p. record p {
      active_task_count = length (keep (λ (t : Task). is_active t.status) tasks);
      updated_at = now;
    }
    persist_project project_id

  unfoldable pub recompute_project_active_count : String → Action Unit
  recompute_project_active_count project_id = do
    project ← reads (λ s. returned (get s.projects project_id))
    recompute_found project_id project

  unfoldable pub refresh_found : String → Option Task → Action Unit
  refresh_found task_id none = pure tt
  refresh_found task_id (some task) = do
    status ← derive_task_status task_id
    now ← read_clock w
    modify_task task_id (λ t. record t { status = status; updated_at = now })
    persist_task task_id
    recompute_project_active_count task.project_id

  unfoldable pub refresh_task_and_project_state : String → Action Unit
  refresh_task_and_project_state task_id = do
    task ← reads (λ s. returned (get s.tasks task_id))
    refresh_found task_id task
