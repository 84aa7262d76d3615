-- ===== src/Orchestrator/Advance.antt =====
-- How a command moves: started, and finished by the action executor or by the mock.
use wherecode.Prelude.{
  ℕ, suc, ◌+◌, String, ◌==◌, ◌||◌, Option, none, some, List, [], ◌∷◌, map, ltb, if◌then◌else◌,
}
use Prim.Native.String.{◌++◌}
use wherecode.Text.{mentions}
use wherecode.Dict.{get, get_list}
use wherecode.Value.{Metadata}
use wherecode.Py.{returned, ◌>>=◌, ◌>>◌, pure, reads}
use wherecode.Models.Hierarchy.{
  Command, Task, CommandStatus, ActionExecuteResponse, is_at_rest, is_queued,
}
use wherecode.Orchestrator.State.{
  Attempt, ActionExecutor, Setting, Action, failed_with, answered, persist_command, modify_task,
  modify_command, read_clock,
}
use wherecode.Orchestrator.Refresh.{refresh_task_and_project_state}

-- task.success_count += 1, and task.failed_count += 1
abbrev one_more_success : Task → Task
one_more_success t = record t { success_count = suc t.success_count }

abbrev one_more_failure : Task → Task
one_more_failure t = record t { failed_count = suc t.failed_count }

-- the assignments to a command and to its task with which an execution ends
unfoldable pub settle : Command → (Command → Command) → (Task → Task) → Action Unit
settle command f g = do modify_command command.id f; modify_task command.task_id g

abbrev pub mock_failed : Command → Command
mock_failed c = record c {
  status = CommandStatus.failed;
  error_message = some "mock execution failed by command content";
}

abbrev pub mock_completed : Command → Command
mock_completed c = record c {
  status = CommandStatus.success;
  output_summary = some "mock execution completed";
}

unfoldable pub apply_mock_execution : Command → Action Unit
apply_mock_execution command =
    if mentions command.text "fail" || mentions command.text "error"
    then settle command mock_failed one_more_failure
    else settle command mock_completed one_more_success

abbrev pub attempt_failed : Metadata → String → Command → Command
attempt_failed metadata problem c = record c {
  status = CommandStatus.failed;
  error_message = some ("execution failed: " ++ problem);
  metadata = metadata;
}

abbrev pub answered_success : Metadata → ActionExecuteResponse → Command → Command
answered_success metadata result c = record c {
  executor_agent = some result.agent;
  trace_id = some result.trace_id;
  output_summary = some result.summary;
  error_message = none;
  status = CommandStatus.success;
  metadata = metadata;
}

abbrev pub answered_failure : Metadata → ActionExecuteResponse → Command → Command
answered_failure metadata result c = record c {
  executor_agent = some result.agent;
  trace_id = some result.trace_id;
  output_summary = none;
  error_message = some result.summary;
  status = CommandStatus.failed;
  metadata = metadata;
}

-- What the answer of the executor does to the command and the task.
unfoldable pub apply_attempt : Command → Metadata → Attempt → Action Unit
apply_attempt command metadata (failed_with problem) =
    settle command (attempt_failed metadata problem) one_more_failure
apply_attempt command metadata (answered result) =
    if result.status == "success"
    then settle command (answered_success metadata result) one_more_success
    else settle command (answered_failure metadata result) one_more_failure

unfoldable pub complete_command_execution : Option ActionExecutor → Command → Task → Action Unit
complete_command_execution none command task = do
  apply_mock_execution command
  persist_command command.id
complete_command_execution (some execute) command task = do
  attempt ← reads (λ s. returned (execute s.clock_reads command task))
  apply_attempt command attempt.0 attempt.1
  persist_command command.id

module _ (w : Setting) where
  -- command.started_at or now_utc()
  unfoldable pub started_or_now : Option ℕ → Action ℕ
  started_or_now none = read_clock w
  started_or_now (some t) = pure t

  unfoldable pub finish_command : Command → Option Task → Action Unit
  finish_command command none = pure tt
  finish_command command (some task) = do
    complete_command_execution w.action_executor command task
    finished ← read_clock w
    updated ← read_clock w
    modify_command command.id λ c. record c { finished_at = some finished; updated_at = updated }
    persist_command command.id
    refresh_task_and_project_state w task.id

  unfoldable pub begin_command : Command → Action Unit
  begin_command command = do
    started ← read_clock w
    updated ← read_clock w
    modify_command command.id λ c. record c {
      status = CommandStatus.running;
      started_at = some started;
      updated_at = updated;
    }
    persist_command command.id
    refresh_task_and_project_state w command.task_id

  -- a running command, which takes 200 milliseconds at least
  unfoldable pub continue_command : Command → Action Unit
  continue_command command = do
    started ← started_or_now command.started_at
    now ← read_clock w
    if ltb now (started + 200000) then pure tt else do
      task ← reads (λ s. returned (get s.tasks command.task_id))
      finish_command command task

  unfoldable pub advance_found : Option Command → Action Unit
  advance_found none = pure tt
  advance_found (some command) =
      if is_at_rest command.status
      then pure tt
      else if is_queued command.status
      then begin_command command
      else continue_command command

  unfoldable pub advance_command : String → Action Unit
  advance_command command_id = do
    command ← reads (λ s. returned (get s.commands command_id))
    advance_found command

  -- for command_id in ids: await self._advance_command_locked(command_id)
  unfoldable pub advance_each : List String → Action Unit
  advance_each [] = pure tt
  advance_each (id ∷ ids) = do advance_command id; advance_each ids

  unfoldable pub advance_task_commands : String → Action Unit
  advance_task_commands task_id = do
    ids ← reads (λ s. returned (get_list s.task_commands task_id))
    advance_each ids

  unfoldable pub advance_all_commands : Action Unit
  advance_all_commands = do
    ids ← reads (λ s. returned (map (λ e. e.0) s.commands))
    advance_each ids
