-- ===== src/Orchestrator/Approval/Execution.antt =====
-- The execution of commands keeps the approval of commands.
use wherecode.Prelude.{
  ℕ, String, ◌≡◌, refl, ap, ◌∙◌, inl, inr, false, Option, none, some, List, [], ◌∷◌, arith,
  Bool-cases,
}
use wherecode.Dict.{get}
use wherecode.Value.{Metadata}
use wherecode.Py.{◌>>=◌, pure, reads}
use wherecode.Py.Keeps.{Keeps-pure, Keeps-bind}
use wherecode.Models.Hierarchy.{Command, Task, is_at_rest, is_waiting}
use wherecode.Orchestrator.State.{
  Setting, Orchestrator, Action, Attempt, ActionExecutor, failed_with, answered,
}
use wherecode.Orchestrator.Advance.{
  settle, apply_mock_execution, apply_attempt, complete_command_execution, started_or_now,
  finish_command, begin_command, continue_command, advance_found, advance_command, advance_each,
  advance_task_commands, advance_all_commands, mock_failed, mock_completed, attempt_failed,
  answered_success, answered_failure,
}
use wherecode.Orchestrator.Approval.{
  IsCleared, IsSafe, Keeping, persist_command-Keeping, modify_task-Keeping, read_clock-Keeping,
  modify_command-Keeping, Knows, Knows-Keeping, Knows-if, Knows-clock, Knows-bind, Knows-reads,
  Knows-modify, safe_rules, refresh_task_and_project_state-Keeping,
}

-- an execution ends a command that does not wait
settle-Knows :
    (command : Command) (f : Command → Command) (g : Task → Task)
    → (f command).id ≡ command.id
    → IsCleared (f command)
    → Knows command (settle command f g)
unfolding settle
settle-Knows command f g same good =
    Knows-bind (Knows-modify command f same good) (λ _. modify_task-Keeping command.task_id g)

abbrev IsBusy : Command → Type 0
IsBusy command = IsCleared command × (is_waiting command.status ≡ false)

apply_mock_execution-Knows :
    (command : Command) → IsBusy command → Knows command (apply_mock_execution command)
unfolding apply_mock_execution
apply_mock_execution-Knows command busy =
    Knows-if _ (settle-Knows command mock_failed _ refl (λ r _. busy.0 r busy.1))
      (settle-Knows command mock_completed _ refl (λ r _. busy.0 r busy.1))

apply_attempt-Knows :
    (command : Command) (metadata : Metadata) (attempt : Attempt)
    → IsBusy command
    → Knows command (apply_attempt command metadata attempt)
unfolding apply_attempt
apply_attempt-Knows command metadata (failed_with problem) busy =
    settle-Knows command (attempt_failed metadata problem) _ refl (λ r _. busy.0 r busy.1)
apply_attempt-Knows command metadata (answered result) busy =
    Knows-if _
      (settle-Knows command (answered_success metadata result) _ refl (λ r _. busy.0 r busy.1))
      (settle-Knows command (answered_failure metadata result) _ refl (λ r _. busy.0 r busy.1))

complete_command_execution-Knows :
    (executor : Option ActionExecutor) (command : Command) (task : Task)
    → IsBusy command
    → Knows command (complete_command_execution executor command task)
unfolding complete_command_execution
complete_command_execution-Knows none command task busy =
    Knows-bind (apply_mock_execution-Knows command busy) (λ _. persist_command-Keeping command.id)
complete_command_execution-Knows (some execute) command task busy = Knows-reads _ λ attempt.
    Knows-bind (apply_attempt-Knows command attempt.0 attempt.1 busy)
      (λ _. persist_command-Keeping command.id)

module _ (w : Setting) where
  finish_command-Knows :
      (command : Command) (task : Option Task)
      → IsBusy command
      → Knows command (finish_command w command task)
  unfolding finish_command
  finish_command-Knows command none busy = Knows-Keeping (Keeps-pure tt)
  finish_command-Knows command (some task) busy =
      Knows-bind (complete_command_execution-Knows w.action_executor command task busy) λ _.
        Keeps-bind (read_clock-Keeping w) λ finished. Keeps-bind (read_clock-Keeping w) λ updated.
          Keeps-bind (modify_command-Keeping command.id _ (λ c. refl) (λ c good. good)) λ _.
            Keeps-bind (persist_command-Keeping command.id)
              λ _. refresh_task_and_project_state-Keeping w task.id

  begin_command-Knows :
      (command : Command) → IsBusy command → Knows command (begin_command w command)
  unfolding begin_command
  begin_command-Knows command busy = Knows-clock w λ started. Knows-clock w λ updated.
      Knows-bind (Knows-modify command _ refl (λ r _. busy.0 r busy.1)) λ _.
        Keeps-bind (persist_command-Keeping command.id)
          λ _. refresh_task_and_project_state-Keeping w command.task_id

  started_or_now-Knows :
      {command : Command} (o : Option ℕ) {B : Type 0} {k : ℕ → Action B}
      → ((n : ℕ) → Knows command (k n))
      → Knows command (started_or_now w o >>= k)
  unfolding started_or_now ◌>>=◌ pure
  started_or_now-Knows none l = Knows-clock w l
  started_or_now-Knows (some t) l = record { at = λ s h e. (l t).at s h e }

  continue_command-Knows :
      (command : Command) → IsBusy command → Knows command (continue_command w command)
  unfolding continue_command
  continue_command-Knows command busy = started_or_now-Knows command.started_at λ started.
      Knows-clock w λ now.
        Knows-if _ (Knows-Keeping (Keeps-pure tt))
          (Knows-reads _ λ task. finish_command-Knows command task busy)

  not_waiting :
      (command : Command) → is_at_rest command.status ≡ false → is_waiting command.status ≡ false
  not_waiting command h = ground arith

  advance_found-Knows :
      (command : Command) → IsCleared command → Knows command (advance_found w (some command))
  unfolding advance_found
  advance_found-Knows command clear = elim (Bool-cases (is_at_rest command.status)) [
    | inl resting ↦ rw resting (Knows-Keeping (Keeps-pure tt))
    | inr moving ↦
        let busy : IsBusy command = (clear, not_waiting command moving) in
        rw moving
          (Knows-if _ (begin_command-Knows command busy) (continue_command-Knows command busy))
  ]

  advance_at :
      (id : String) (s : Orchestrator) (o : Option Command)
      → IsSafe s
      → get s.commands id ≡ o
      → IsSafe (advance_found w o s).1
  unfolding advance_found pure
  advance_at id s none h e = h
  advance_at id s (some command) h e =
      (advance_found-Knows command (h.cleared id command e)).at s h
        (ap (get s.commands) (h.keyed id command e) ∙ e)

  pub advance_command-Keeping : (id : String) → Keeping (advance_command w id)
  unfolding advance_command ◌>>=◌ reads
  advance_command-Keeping id = record { at = λ s h. advance_at id s _ h refl }

  advance_each-Keeping : (ids : List String) → Keeping (advance_each w ids)
  unfolding advance_each
  advance_each-Keeping [] = Keeps-pure tt
  advance_each-Keeping (id ∷ ids) =
      Keeps-bind (advance_command-Keeping id) (λ _. advance_each-Keeping ids)

  pub advance_task_commands-Keeping : (id : String) → Keeping (advance_task_commands w id)
  unfolding advance_task_commands
  advance_task_commands-Keeping id = search (safe_rules, advance_each-Keeping)

  pub advance_all_commands-Keeping : Keeping (advance_all_commands w)
  unfolding advance_all_commands
  advance_all_commands-Keeping = search (safe_rules, advance_each-Keeping)
