-- ===== src/Orchestrator/Handlers.antt =====
-- The public methods of InMemoryOrchestrator.
use wherecode.Prelude.{ℕ, suc, String, Option, none, some, List, [], ◌∷◌, or_else, if◌then◌else◌}
use wherecode.Dict.{get, put, get_list, values}
use wherecode.Py.{
  Outcome, returned, raised, ◌>>=◌, ◌>>◌, pure, reads, guard, assign, invalid_model, http_error,
}
use wherecode.Models.Hierarchy.{
  Command, Task, Project, CommandStatus, TaskStatus, ProjectStatus, CreateProjectRequest,
  CreateTaskRequest, CreateCommandRequest, accepts_command, accepts_task, accepts_project,
  is_waiting,
}
use wherecode.Scheduler.State.{append_to, deref_all}
use wherecode.Orchestrator.State.{
  Setting, Action, persist_project, persist_task, persist_command, modify_project, modify_task,
  modify_command, read_clock, issue_id,
}
use wherecode.Orchestrator.Refresh.{refresh_task_and_project_state}
use wherecode.Orchestrator.Advance.{advance_command, advance_task_commands, advance_all_commands}

abbrev or_404 : {A : Type 0} → Option A → String → Outcome A
or_404 none detail = raised (http_error 404 detail)
or_404 (some a) detail = returned a

unfoldable pub find_project : String → Action Project
unfolding reads
find_project id = reads (λ s. or_404 (get s.projects id) "project not found")

unfoldable pub find_task : String → Action Task
unfolding reads
find_task id = reads (λ s. or_404 (get s.tasks id) "task not found")

unfoldable pub find_command : String → Action Command
unfolding reads
find_command id = reads (λ s. or_404 (get s.commands id) "command not found")

-- the assignments of `create_command`, to the dictionaries and to the task
unfoldable pub store_command : String → Command → Action Unit
store_command task_id command = do
  assign λ s. record s {
    commands = put s.commands command.id command;
    task_commands = append_to s.task_commands task_id command.id;
  }
  modify_task task_id
      λ t. record t { command_count = suc t.command_count; last_command_id = some command.id }

module _ (w : Setting) where
  unfoldable pub create_project : CreateProjectRequest → Action Project
  create_project payload = do
    created_at ← read_clock w
    updated_at ← read_clock w
    id ← issue_id w "proj"
    let project : Project = record {
      id = id;
      name = payload.name;
      description = payload.description;
      status = ProjectStatus.active;
      owner = payload.owner;
      task_count = 0;
      active_task_count = 0;
      tags = payload.tags;
      created_at = created_at;
      updated_at = updated_at;
      metadata = [];
    }
    guard (accepts_project project) (invalid_model "Project")
    assign (λ s. record s { projects = put s.projects id project })
    persist_project id
    pure project

  abbrev pub new_task : String → CreateTaskRequest → String → ℕ → ℕ → Task
  new_task project_id payload id created_at updated_at = record {
    id = id;
    project_id = project_id;
    title = payload.title;
    description = payload.description;
    status = TaskStatus.todo;
    priority = payload.priority;
    assignee_agent = payload.assignee_agent;
    command_count = 0;
    success_count = 0;
    failed_count = 0;
    last_command_id = none;
    created_at = created_at;
    updated_at = updated_at;
    metadata = [];
  }

  unfoldable pub create_task : String → CreateTaskRequest → Action Task
  create_task project_id payload = do
    find_project project_id
    created_at ← read_clock w
    updated_at ← read_clock w
    id ← issue_id w "task"
    let task : Task = new_task project_id payload id created_at updated_at
    guard (accepts_task task) (invalid_model "Task")
    assign λ s. record s {
      tasks = put s.tasks id task;
      project_tasks = append_to s.project_tasks project_id id;
    }
    modify_project project_id (λ p. record p { task_count = suc p.task_count })
    persist_task id
    persist_project project_id
    refresh_task_and_project_state w id
    find_task id

  abbrev pub new_command : String → Task → CreateCommandRequest → ℕ → String → ℕ → ℕ → Command
  new_command task_id task payload sequence id created_at updated_at = record {
    id = id;
    project_id = task.project_id;
    task_id = task_id;
    sequence = sequence;
    text = payload.text;
    source = payload.source;
    status =
        if payload.requires_approval then CommandStatus.waiting_approval else CommandStatus.queued;
    output_summary = none;
    error_message = none;
    requested_by = payload.requested_by;
    requires_approval = payload.requires_approval;
    approved_by = none;
    executor_agent = none;
    trace_id = none;
    started_at = none;
    finished_at = none;
    created_at = created_at;
    updated_at = updated_at;
    metadata = [];
  }

  unfoldable pub create_command : String → CreateCommandRequest → Action Command
  create_command task_id payload = do
    task ← find_task task_id
    assign λ s. record s {
      task_sequence = put s.task_sequence task_id (suc (or_else (get s.task_sequence task_id) 0));
    }
    sequence ← reads (λ s. returned (or_else (get s.task_sequence task_id) 0))
    created_at ← read_clock w
    updated_at ← read_clock w
    id ← issue_id w "cmd"
    let command : Command = new_command task_id task payload sequence id created_at updated_at
    guard (accepts_command command) (invalid_model "Command")
    store_command task_id command
    persist_command id
    persist_task task_id
    refresh_task_and_project_state w task_id
    find_command id

  unfoldable pub approve_command : String → String → Action Command
  approve_command command_id approved_by = do
    command ← find_command command_id
    guard command.requires_approval (http_error 409 "command does not require approval")
    guard (is_waiting command.status) (http_error 409 "command is not waiting approval")
    updated ← read_clock w
    modify_command command_id λ c. record c {
      approved_by = some approved_by;
      status = CommandStatus.queued;
      updated_at = updated;
    }
    persist_command command_id
    refresh_task_and_project_state w command.task_id
    find_command command_id

  unfoldable pub list_projects : Action (List Project)
  list_projects = do advance_all_commands w; reads (λ s. returned (values s.projects))

  -- for task_id in ids: await self._advance_task_commands_locked(task_id)
  unfoldable pub advance_tasks : List String → Action Unit
  advance_tasks [] = pure tt
  advance_tasks (id ∷ ids) = do advance_task_commands w id; advance_tasks ids

  unfoldable pub list_tasks : String → Action (List Task)
  list_tasks project_id = do
    find_project project_id
    ids ← reads (λ s. returned (get_list s.project_tasks project_id))
    advance_tasks ids
    reads (λ s. deref_all s.tasks (get_list s.project_tasks project_id))

  unfoldable pub get_task : String → Action Task
  get_task task_id = do find_task task_id; advance_task_commands w task_id; find_task task_id

  unfoldable pub list_commands : String → Action (List Command)
  list_commands task_id = do
    find_task task_id
    advance_task_commands w task_id
    reads (λ s. deref_all s.commands (get_list s.task_commands task_id))

  unfoldable pub get_command : String → Action Command
  get_command command_id = do
    find_command command_id
    advance_command w command_id
    find_command command_id
