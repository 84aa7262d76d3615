-- ===== src/Orchestrator/Requests.antt =====
-- Any sequence of calls of InMemoryOrchestrator's methods, and the approval of commands.
use wherecode.Prelude.{
  ℕ, String, refl, inl, inr, ◌==◌, eq_iff, ap, sym, ◌∙◌, List, [], ◌∷◌, arith, Bool-cases,
}
use mathlib.Core.Option.{some-injective}
use wherecode.Dict.{get, get-put}
use wherecode.Py.Keeps.{Keeps-pure, Keeps-reads, Keeps-bind, Keeps-guard, Keeps-assign}
use wherecode.Models.Hierarchy.{
  Command, Task, CreateProjectRequest, CreateTaskRequest, CreateCommandRequest,
}
use wherecode.Orchestrator.State.{Setting, Orchestrator}
use wherecode.Orchestrator.Handlers.{
  find_project, find_task, find_command, create_project, create_task, store_command, create_command,
  approve_command, new_command, list_projects, advance_tasks, list_tasks, get_task, list_commands,
  get_command,
}
use wherecode.Orchestrator.Detail.{
  stored_task, task_detail, task_details, get_project_detail, reset,
}
use wherecode.Orchestrator.Summary.{get_metrics_summary}
use wherecode.Orchestrator.Approval.{
  IsCleared, IsSafe, Keeping, assign-Keeping, modify_command-Keeping, modify_task-Keeping,
  safe_rules, persist_command-Keeping, persist_task-Keeping, read_clock-Keeping, issue_id-Keeping,
  refresh_task_and_project_state-Keeping,
}
use wherecode.Orchestrator.Approval.Execution.{
  advance_command-Keeping, advance_task_commands-Keeping, advance_all_commands-Keeping,
}

find_project-Keeping : (id : String) → Keeping (find_project id)
unfolding find_project
find_project-Keeping id = record { at = λ s h. h }

find_task-Keeping : (id : String) → Keeping (find_task id)
unfolding find_task
find_task-Keeping id = record { at = λ s h. h }

find_command-Keeping : (id : String) → Keeping (find_command id)
unfolding find_command
find_command-Keeping id = record { at = λ s h. h }

-- A command that is stored is new, and waits if it requires approval.
store_command-Keeping :
    (task_id : String) (command : Command)
    → IsCleared command
    → Keeping (store_command task_id command)
unfolding store_command
store_command-Keeping task_id command clear =
    Keeps-bind
      (Keeps-assign _ λ s h. record {
        keyed = λ id c found. elim (Bool-cases (command.id == id)) [
          | inr other ↦ h.keyed id c (rw (get-put, other) at found)
          | inl hit ↦
              ap (λ (x : Command). x.id)
                (sym (some-injective command c (rw (get-put, hit) at found)))
              ∙ (eq_iff command.id id).0 hit
        ];
        cleared = λ id c found. elim (Bool-cases (command.id == id)) [
          | inr other ↦ h.cleared id c (rw (get-put, other) at found)
          | inl hit ↦ rw (← some-injective command c (rw (get-put, hit) at found)) clear
        ];
      })
      (λ _. modify_task-Keeping task_id _)

-- A call of a public method.
pub data Request : Type 0 where
  new_project : CreateProjectRequest → Request
  new_task : String → CreateTaskRequest → Request
  submit : String → CreateCommandRequest → Request
  approve : String → String → Request
  see_projects : Request
  see_tasks : String → Request
  see_task : String → Request
  see_commands : String → Request
  see_command : String → Request
  see_project : String → Request
  see_metrics : Request
  start_over : Request

module _ (w : Setting) where
  ruleset handler_rules = (
    safe_rules, find_project-Keeping, find_task-Keeping, find_command-Keeping,
    refresh_task_and_project_state-Keeping, advance_command-Keeping, advance_task_commands-Keeping,
    advance_all_commands-Keeping,
  )

  create_project-Keeping : (payload : CreateProjectRequest) → Keeping (create_project w payload)
  unfolding create_project
  create_project-Keeping payload = search (handler_rules, assign-Keeping) depth 14

  create_task-Keeping :
      (id : String) (payload : CreateTaskRequest) → Keeping (create_task w id payload)
  unfolding create_task
  create_task-Keeping id payload = search (handler_rules, assign-Keeping) depth 18

  new-IsCleared :
      (task_id : String) (task : Task) (payload : CreateCommandRequest) (sequence : ℕ) (id : String)
      (created updated : ℕ)
      → IsCleared (new_command w task_id task payload sequence id created updated)
  new-IsCleared task_id task payload sequence id created updated r k = ground (arith, r, k)

  create_command-Keeping :
      (id : String) (payload : CreateCommandRequest) → Keeping (create_command w id payload)
  unfolding create_command
  create_command-Keeping id payload = Keeps-bind (find_task-Keeping id) λ task.
      Keeps-bind (assign-Keeping _ (λ s. refl)) λ _. Keeps-bind (Keeps-reads _) λ sequence.
        Keeps-bind (read_clock-Keeping w) λ created. Keeps-bind (read_clock-Keeping w) λ updated.
          Keeps-bind (issue_id-Keeping w "cmd") λ key. Keeps-bind (Keeps-guard _ _) λ _.
            Keeps-bind
              (store_command-Keeping id _
                (new-IsCleared id task payload sequence key created updated))
              λ _. Keeps-bind (persist_command-Keeping key) λ _.
                Keeps-bind (persist_task-Keeping id) λ _.
                  Keeps-bind (refresh_task_and_project_state-Keeping w id)
                    λ _. find_command-Keeping key

  approve_command-Keeping : (id by : String) → Keeping (approve_command w id by)
  unfolding approve_command
  approve_command-Keeping id by = Keeps-bind (find_command-Keeping id) λ command.
      Keeps-bind (Keeps-guard _ _) λ _. Keeps-bind (Keeps-guard _ _) λ _.
        Keeps-bind (read_clock-Keeping w) λ updated.
          Keeps-bind (modify_command-Keeping id _ (λ c. refl) (λ c clear r k. refl)) λ _.
            Keeps-bind (persist_command-Keeping id) λ _.
              Keeps-bind (refresh_task_and_project_state-Keeping w command.task_id)
                λ _. find_command-Keeping id

  advance_tasks-Keeping : (ids : List String) → Keeping (advance_tasks w ids)
  unfolding advance_tasks
  advance_tasks-Keeping [] = Keeps-pure tt
  advance_tasks-Keeping (id ∷ ids) =
      Keeps-bind (advance_task_commands-Keeping w id) (λ _. advance_tasks-Keeping ids)

  list_projects-Keeping : Keeping (list_projects w)
  unfolding list_projects
  list_projects-Keeping = search handler_rules

  list_tasks-Keeping : (id : String) → Keeping (list_tasks w id)
  unfolding list_tasks
  list_tasks-Keeping id = search (handler_rules, advance_tasks-Keeping) depth 10

  get_task-Keeping : (id : String) → Keeping (get_task w id)
  unfolding get_task
  get_task-Keeping id = search handler_rules depth 10

  list_commands-Keeping : (id : String) → Keeping (list_commands w id)
  unfolding list_commands
  list_commands-Keeping id = search handler_rules depth 10

  get_command-Keeping : (id : String) → Keeping (get_command w id)
  unfolding get_command
  get_command-Keeping id = search handler_rules depth 10

  task_detail-Keeping : (id : String) → Keeping (task_detail id)
  unfolding task_detail stored_task
  task_detail-Keeping id = Keeps-bind (Keeps-reads _) λ task.
      Keeps-bind (Keeps-reads _) (λ commands. Keeps-bind (Keeps-guard _ _) (λ u. Keeps-pure _))

  task_details-Keeping : (ids : List String) → Keeping (task_details ids)
  unfolding task_details
  task_details-Keeping [] = Keeps-pure []
  task_details-Keeping (id ∷ ids) =
      Keeps-bind (task_detail-Keeping id)
        λ detail. Keeps-bind (task_details-Keeping ids) (λ details. Keeps-pure _)

  get_project_detail-Keeping : (id : String) → Keeping (get_project_detail w id)
  unfolding get_project_detail
  get_project_detail-Keeping id =
      search (handler_rules, advance_tasks-Keeping, task_details-Keeping) depth 14

  get_metrics_summary-Keeping : Keeping (get_metrics_summary w)
  unfolding get_metrics_summary
  get_metrics_summary-Keeping = search handler_rules depth 10

  reset-Keeping : Keeping reset
  unfolding reset get
  reset-Keeping =
      Keeps-assign _
        λ s h. record { keyed = λ id c found. ground arith; cleared = λ id c found. ground arith }

  unfoldable pub serve : Request → Orchestrator → Orchestrator
  serve (new_project p) s = (create_project w p s).1
  serve (new_task id p) s = (create_task w id p s).1
  serve (submit id p) s = (create_command w id p s).1
  serve (approve id by) s = (approve_command w id by s).1
  serve see_projects s = (list_projects w s).1
  serve (see_tasks id) s = (list_tasks w id s).1
  serve (see_task id) s = (get_task w id s).1
  serve (see_commands id) s = (list_commands w id s).1
  serve (see_command id) s = (get_command w id s).1
  serve (see_project id) s = (get_project_detail w id s).1
  serve see_metrics s = (get_metrics_summary w s).1
  serve start_over s = (reset s).1

  unfoldable pub serve_all : List Request → Orchestrator → Orchestrator
  serve_all [] s = s
  serve_all (r ∷ rs) s = serve_all rs (serve r s)

  serve-IsSafe : (r : Request) (s : Orchestrator) → IsSafe s → IsSafe (serve r s)
  unfolding serve
  serve-IsSafe (new_project p) s h = (create_project-Keeping p).at s h
  serve-IsSafe (new_task id p) s h = (create_task-Keeping id p).at s h
  serve-IsSafe (submit id p) s h = (create_command-Keeping id p).at s h
  serve-IsSafe (approve id by) s h = (approve_command-Keeping id by).at s h
  serve-IsSafe see_projects s h = list_projects-Keeping.at s h
  serve-IsSafe (see_tasks id) s h = (list_tasks-Keeping id).at s h
  serve-IsSafe (see_task id) s h = (get_task-Keeping id).at s h
  serve-IsSafe (see_commands id) s h = (list_commands-Keeping id).at s h
  serve-IsSafe (see_command id) s h = (get_command-Keeping id).at s h
  serve-IsSafe (see_project id) s h = (get_project_detail-Keeping id).at s h
  serve-IsSafe see_metrics s h = get_metrics_summary-Keeping.at s h
  serve-IsSafe start_over s h = reset-Keeping.at s h

  -- From a safe state, every sequence of calls of the public methods of the orchestrator, `reset`
  -- among them, one after the other, failing calls included, and whatever the action executor
  -- answers, leads to a safe state: each command stands under its own identifier, and a command that
  -- requires approval and is not waiting for it has an approver.
  pub serve_all-IsSafe : (rs : List Request) (s : Orchestrator) → IsSafe s → IsSafe (serve_all rs s)
  unfolding serve_all
  serve_all-IsSafe [] s h = h
  serve_all-IsSafe (r ∷ rs) s h = serve_all-IsSafe rs (serve r s) (serve-IsSafe r s h)
