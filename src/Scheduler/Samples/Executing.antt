-- ===== src/Scheduler/Samples/Executing.antt =====
-- The theorems about the engine at a session: a run is created, bootstrapped and executed, and
-- interrupted by another task while the engine waits for the agent.
use wherecode.Prelude.{
  String, ◌==◌, if◌then◌else◌, ◌≡◌, refl, true, false, none, some, List, [], ◌∷◌,
}
use wherecode.Value.{Fields, end, field, text, boolean, array, nil, cons}
use wherecode.Py.{returned}
use wherecode.Py.Triple.{Ends}
use wherecode.Scheduler.State.{Scheduler}
use wherecode.Scheduler.History.{new_run, interrupt}
use wherecode.Scheduler.Invariant.{IsSound}
use wherecode.Scheduler.Canceled.{IsStopped}
use wherecode.Engine.State.{Setting, ActionResult, replied}
use wherecode.Engine.State.{get_field}
use wherecode.Engine.Run.{execute_until_blocked}
use wherecode.Engine.Counts.{Within, Anything, execute_until_blocked-Within}
use wherecode.Engine.Spec.{ItemSpec, build_task_package_item_spec}
use wherecode.Engine.Spec.Bounds.{IsUsable, build_task_package_item_spec-IsUsable}
use wherecode.Text.{strip, lstrip, rstrip}
use wherecode.Dict.{put}
use wherecode.Engine.Safe.{
  Request, schedule, bootstrap, execute, session, session-IsSound, session-IsStopped,
}
use wherecode.Scheduler.Samples.{
  clockwork, clockwork-IsUnique, empty_scheduler, empty_scheduler-IsSound, sample_run,
  stopped_state, stopped_state-IsStopped,
}

abbrev answer : ActionResult
answer = record {
  status = "success";
  summary = "done";
  agent = "coding-agent";
  trace_id = "t";
  metadata = field "tokens" (text "9") end;
  discussion = none;
}

-- Another task interrupts the run while the agent works.
abbrev setting : Setting
setting = record {
  world = clockwork;
  action_executor = λ s id agent. (interrupt "wfr" (some "ann") none true ∷ [], replied answer);
  executor_service = none;
  resolve_strategy = λ role. returned "native";
  agents = ("module-dev", "coding-agent") ∷ ("doc-manager", "doc-agent") ∷ [];
  str_of = λ v. "";
  repr = λ t. t;
  lower = λ t. t;
  int_of_text = λ t. returned 0;
  max_module_reflows = 1;
  release_requires_approval = true;
}

abbrev package_items : List Fields
package_items =
    field "role" (text "module-dev") (field "routing" (boolean true) end)
    ∷ field "role" (text "doc-manager") (field "depends_on_roles" (text "module-dev") end)
    ∷ []

abbrev requests : List Request
requests =
    schedule (new_run sample_run)
    ∷ bootstrap "wfr" ("core" ∷ " doc-fail " ∷ []) (("core", package_items) ∷ [])
    ∷ execute "wfr" 20
    ∷ []

session-IsSound_example : IsSound clockwork (session setting requests empty_scheduler)
session-IsSound_example =
    session-IsSound setting requests empty_scheduler clockwork-IsUnique empty_scheduler-IsSound

session-IsStopped_example : IsStopped clockwork "wfr" (session setting requests stopped_state)
session-IsStopped_example =
    session-IsStopped setting "wfr" requests stopped_state clockwork-IsUnique
      stopped_state-IsStopped

abbrev document_item : Fields
document_item = field "role" (text "doc-manager") (field "depends_on_roles" (text "module-dev") end)

abbrev document_spec : ItemSpec
document_spec = record {
  role = "doc-manager";
  depends_on_roles = "module-dev" ∷ [];
  priority = 3;
  metadata =
      ("task_source", text "chief_decomposition")
      ∷ ("task_depends_on_roles", array (cons (text "module-dev") nil))
      ∷ [];
  requires_approval = false;
}

document_item_built : build_task_package_item_spec setting document_item ≡ returned document_spec
unfolding build_task_package_item_spec get_field strip lstrip rstrip put
document_item_built = refl

build_task_package_item_spec-IsUsable_example : IsUsable document_spec
build_task_package_item_spec-IsUsable_example =
    build_task_package_item_spec-IsUsable setting document_item document_spec document_item_built

-- The run and its work items, before any of them is executed.
abbrev planned : Scheduler
planned =
    session setting
      (schedule (new_run sample_run)
        ∷ bootstrap "wfr" ("core" ∷ []) (("core", package_items) ∷ [])
        ∷ [])
      empty_scheduler

-- The agent for documents fails.
abbrev reply_of : String → ActionResult
reply_of agent = if agent == "doc-agent" then record answer { status = "failed" } else answer

abbrev calm : Setting
calm = record setting { action_executor = λ s id agent. ([], replied (reply_of agent)) }

execute_until_blocked-Within_example :
    Ends
      (λ r t. Within r.failed_workitem_ids r.executed_workitem_ids)
      Anything
      (execute_until_blocked calm "wfr" 20 planned).0
      (execute_until_blocked calm "wfr" 20 planned).1
execute_until_blocked-Within_example = execute_until_blocked-Within calm "wfr" 20 planned
