-- ===== src/Orchestrator/Detail.antt =====
-- `get_project_detail` and `reset` of InMemoryOrchestrator, with TaskDetail and ProjectDetail of
-- control_center/models/hierarchy.py.
use wherecode.Prelude.{String, ◌==◌, Bool, ◌&&◌, none, some, List, [], ◌∷◌, all}
use wherecode.Dict.{get, get_list}
use wherecode.Py.{
  returned, raised, ◌>>=◌, ◌>>◌, pure, reads, guard, assign, invalid_model, missing_key,
}
use wherecode.Models.Hierarchy.{Command, Task, Project, accepts_task, accepts_project}
use wherecode.Scheduler.State.{deref_all}
use wherecode.Orchestrator.State.{Setting, Tables, Action, on_tables}
use wherecode.Orchestrator.Handlers.{find_project, advance_tasks}

pub record TaskDetail : Type 0 where
  pub task : Task
  pub commands : List Command

pub record ProjectDetail : Type 0 where
  pub project : Project
  pub tasks : List TaskDetail

unfoldable pub accepts_task_detail : TaskDetail → Bool
accepts_task_detail detail =
    accepts_task detail.task
    && all
        (λ (c : Command). (c.task_id == detail.task.id) && (c.project_id == detail.task.project_id))
        detail.commands

unfoldable pub accepts_project_detail : ProjectDetail → Bool
accepts_project_detail detail =
    accepts_project detail.project
    && all (λ (t : TaskDetail). t.task.project_id == detail.project.id) detail.tasks

-- self._tasks[task_id]
unfoldable pub stored_task : String → Action Task
stored_task task_id =
    reads
      λ s. elim (get s.tasks task_id) [ none ↦ raised (missing_key task_id) | some t ↦ returned t ]

unfoldable pub task_detail : String → Action TaskDetail
task_detail task_id = do
  task ← stored_task task_id
  commands ← reads (λ s. deref_all s.commands (get_list s.task_commands task_id))
  let detail : TaskDetail = record { task = task; commands = commands }
  guard (accepts_task_detail detail) (invalid_model "TaskDetail")
  pure detail

-- for task_id in ids: ... task_details.append(...)
unfoldable pub task_details : List String → Action (List TaskDetail)
task_details [] = pure []
task_details (id ∷ ids) = do
  detail ← task_detail id
  details ← task_details ids
  pure (detail ∷ details)

-- SQLiteStateStore.clear
abbrev pub no_rows : Tables → Tables
no_rows d = record { project = []; task = []; command = [] }

unfoldable pub reset : Action Unit
reset = assign λ s. record s {
  projects = [];
  tasks = [];
  commands = [];
  project_tasks = [];
  task_commands = [];
  task_sequence = [];
  state_store = on_tables no_rows s.state_store;
}

module _ (w : Setting) where
  unfoldable pub get_project_detail : String → Action ProjectDetail
  get_project_detail project_id = do
    find_project project_id
    ids ← reads (λ s. returned (get_list s.project_tasks project_id))
    advance_tasks w ids
    details ← task_details ids
    project ← find_project project_id
    let detail : ProjectDetail = record { project = project; tasks = details }
    guard (accepts_project_detail detail) (invalid_model "ProjectDetail")
    pure detail
