-- ===== src/Orchestrator/State.antt =====
-- The fields of InMemoryOrchestrator and the primitive actions of its methods. Each public method
-- runs under the lock from its first line to its last, so it is one step.
use wherecode.Prelude.{ℕ, suc, String, Option, none, some, List}
use wherecode.Dict.{Dict, modify}
use wherecode.Value.{Metadata}
use wherecode.Py.{Py, returned, assign}
use wherecode.Models.Hierarchy.{Command, Task, Project, ActionExecuteResponse}
use wherecode.Scheduler.State.{upsert_from}

-- What a call of the action executor ends in.
pub data Attempt : Type 0 where
  failed_with : String → Attempt
  answered : ActionExecuteResponse → Attempt

-- The action executor, which the constructor is given: at the n-th reading of the clock, for a
-- command and its task, the metadata that it leaves on the command and how the call ends.
abbrev pub ActionExecutor : Type 0
ActionExecutor = ℕ → Command → Task → Metadata × Attempt

-- The clock, the identifiers and the executor.
pub record Setting : Type 0 where
  pub now : ℕ → ℕ
  pub new_id : String → ℕ → String
  pub action_executor : Option ActionExecutor

-- The rows of SQLiteStateStore, a table for each entity type.
pub record Tables : Type 0 where
  pub project : Dict Project
  pub task : Dict Task
  pub command : Dict Command

pub record Orchestrator : Type 0 where
  pub projects : Dict Project
  pub tasks : Dict Task
  pub commands : Dict Command
  pub project_tasks : Dict (List String)
  pub task_commands : Dict (List String)
  pub task_sequence : Dict ℕ
  pub state_store : Option Tables
  pub clock_reads : ℕ
  pub issued_ids : ℕ

abbrev pub Action : Type 0 → Type 0
Action A = Py Orchestrator A

abbrev pub on_tables : (Tables → Tables) → Option Tables → Option Tables
on_tables f none = none
on_tables f (some d) = some (f d)

unfoldable pub persist_project : String → Action Unit
unfolding assign
persist_project id = assign λ s. record s {
  state_store =
      on_tables (λ d. record d { project = upsert_from s.projects id d.project }) s.state_store;
}

unfoldable pub persist_task : String → Action Unit
unfolding assign
persist_task id = assign λ s. record s {
  state_store = on_tables (λ d. record d { task = upsert_from s.tasks id d.task }) s.state_store;
}

unfoldable pub persist_command : String → Action Unit
unfolding assign
persist_command id = assign λ s. record s {
  state_store =
      on_tables (λ d. record d { command = upsert_from s.commands id d.command }) s.state_store;
}

unfoldable pub modify_project : String → (Project → Project) → Action Unit
unfolding assign
modify_project id f = assign (λ s. record s { projects = modify s.projects id f })

unfoldable pub modify_task : String → (Task → Task) → Action Unit
unfolding assign
modify_task id f = assign (λ s. record s { tasks = modify s.tasks id f })

unfoldable pub modify_command : String → (Command → Command) → Action Unit
unfolding assign
modify_command id f = assign (λ s. record s { commands = modify s.commands id f })

unfoldable pub read_clock : Setting → Action ℕ
read_clock w s = (returned (w.now s.clock_reads), record s { clock_reads = suc s.clock_reads })

unfoldable pub issue_id : Setting → String → Action String
issue_id w prefix s =
    (returned (w.new_id prefix s.issued_ids), record s { issued_ids = suc s.issued_ids })
