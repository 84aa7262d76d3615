-- ===== src/Models/Hierarchy.antt =====
-- The entities of control_center/models/hierarchy.py, and the requests of models/api.py.
use wherecode.Prelude.{ℕ, ◌+◌, String, Bool, true, false, ◌&&◌, Option, List, leb}
use wherecode.Text.{is_truthy}
use wherecode.Value.{Metadata}
use wherecode.Models.Validate.{is_ordered}

pub data ProjectStatus : Type 0 where
  active paused archived : ProjectStatus

pub data TaskStatus : Type 0 where
  todo in_progress waiting_approval blocked done failed canceled : TaskStatus

pub data CommandStatus : Type 0 where
  queued running success failed waiting_approval canceled : CommandStatus

pub data CommandSource : Type 0 where
  user agent automation system : CommandSource

pub record Command : Type 0 where
  pub id : String
  pub project_id : String
  pub task_id : String
  pub sequence : ℕ
  pub text : String
  pub source : CommandSource
  pub status : CommandStatus
  pub output_summary : Option String
  pub error_message : Option String
  pub requested_by : Option String
  pub requires_approval : Bool
  pub approved_by : Option String
  pub executor_agent : Option String
  pub trace_id : Option String
  pub started_at : Option ℕ
  pub finished_at : Option ℕ
  pub created_at : ℕ
  pub updated_at : ℕ
  pub metadata : Metadata

pub record Task : Type 0 where
  pub id : String
  pub project_id : String
  pub title : String
  pub description : Option String
  pub status : TaskStatus
  pub priority : ℕ
  pub assignee_agent : String
  pub command_count : ℕ
  pub success_count : ℕ
  pub failed_count : ℕ
  pub last_command_id : Option String
  pub created_at : ℕ
  pub updated_at : ℕ
  pub metadata : Metadata

pub record Project : Type 0 where
  pub id : String
  pub name : String
  pub description : Option String
  pub status : ProjectStatus
  pub owner : Option String
  pub task_count : ℕ
  pub active_task_count : ℕ
  pub tags : List String
  pub created_at : ℕ
  pub updated_at : ℕ
  pub metadata : Metadata

unfoldable pub accepts_command : Command → Bool
accepts_command command =
    leb 1 command.sequence
    && is_truthy command.text
    && is_ordered command.started_at command.finished_at

unfoldable pub accepts_task : Task → Bool
accepts_task task =
    is_truthy task.title
    && leb 1 task.priority
    && leb task.priority 5
    && leb (task.success_count + task.failed_count) task.command_count

unfoldable pub accepts_project : Project → Bool
accepts_project project = is_truthy project.name && leb project.active_task_count project.task_count

pub record CreateProjectRequest : Type 0 where
  pub name : String
  pub description : Option String
  pub owner : Option String
  pub tags : List String

pub record CreateTaskRequest : Type 0 where
  pub title : String
  pub description : Option String
  pub priority : ℕ
  pub assignee_agent : String

pub record CreateCommandRequest : Type 0 where
  pub text : String
  pub source : CommandSource
  pub requested_by : Option String
  pub requires_approval : Bool

-- The fields of ActionExecuteResponse that the orchestrator reads.
pub record ActionExecuteResponse : Type 0 where
  pub status : String
  pub summary : String
  pub agent : String
  pub trace_id : String

-- status in {SUCCESS, FAILED, CANCELED, WAITING_APPROVAL} of a command
abbrev pub is_at_rest : CommandStatus → Bool
is_at_rest CommandStatus.success = true
is_at_rest CommandStatus.failed = true
is_at_rest CommandStatus.canceled = true
is_at_rest CommandStatus.waiting_approval = true
is_at_rest _ = false

abbrev pub is_queued : CommandStatus → Bool
is_queued CommandStatus.queued = true
is_queued _ = false

abbrev pub is_running : CommandStatus → Bool
is_running CommandStatus.running = true
is_running _ = false

abbrev pub is_success : CommandStatus → Bool
is_success CommandStatus.success = true
is_success _ = false

abbrev pub is_failed : CommandStatus → Bool
is_failed CommandStatus.failed = true
is_failed _ = false

abbrev pub is_waiting : CommandStatus → Bool
is_waiting CommandStatus.waiting_approval = true
is_waiting _ = false

abbrev pub is_dropped : CommandStatus → Bool
is_dropped CommandStatus.canceled = true
is_dropped _ = false

-- status in {TODO, IN_PROGRESS, WAITING_APPROVAL} of a task
abbrev pub is_active : TaskStatus → Bool
is_active TaskStatus.todo = true
is_active TaskStatus.in_progress = true
is_active TaskStatus.waiting_approval = true
is_active _ = false
