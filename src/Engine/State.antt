-- ===== src/Engine/State.antt =====
-- What WorkflowEngine (control_center/services/workflow_engine.py) is built from, and its actions on
-- the scheduler.
use wherecode.Prelude.{ℕ, String, ◌==◌, Bool, Option, none, some, List, if◌then◌else◌}
use wherecode.Dict.{Dict, put}
use wherecode.Value.{Value, object, Fields, end, field}
use wherecode.Py.{Outcome, assign}
use wherecode.Models.{GateType, RequirementStatus, SddStage}
use wherecode.Scheduler.State.{World, Scheduler, Method, modify_workitem, modify_run}
use wherecode.Scheduler.Discussion.{Prompt}
use wherecode.Scheduler.History.{Call, history}

pub record ExecutionError : Type 0 where
  pub code : String
  pub retryable : Bool
  pub message : String

pub data ExecutionStatus : Type 0 where
  success failed needs_discussion : ExecutionStatus

pub record ExecutionResult : Type 0 where
  pub status : ExecutionStatus
  pub summary : String
  pub trace_id : String
  pub error : Option ExecutionError
  pub raw_ref : String

-- ActionExecuteResponse, as far as the engine reads it
pub record ActionResult : Type 0 where
  pub status : String
  pub summary : String
  pub agent : String
  pub trace_id : String
  pub metadata : Fields
  pub discussion : Option Prompt

-- What comes of awaiting the action executor: a response, or the text of an exception.
pub data Reply : Type 0 where
  replied : ActionResult → Reply
  broke : String → Reply

-- The executors are given the object and the keys that the request is made from. While the engine
-- waits for one, other tasks may call the scheduler: these calls come first. `str_of` is `str` of a
-- value that is no text, `repr` that of a text, and
-- `lower` is `str.lower`.
pub record Setting : Type 0 where
  pub world : World
  pub action_executor : Scheduler → String → String → List Call × Reply
  pub executor_service : Option (Scheduler → String → List Call × Outcome ExecutionResult)
  pub resolve_strategy : String → Outcome String
  pub agents : Dict String
  pub str_of : Value → String
  pub repr : String → String
  pub lower : String → String
  pub int_of_text : String → Outcome ℕ
  pub max_module_reflows : ℕ
  pub release_requires_approval : Bool

-- workitem.metadata[key] = value
unfoldable pub note : String → String → Value → Method Unit
unfolding modify_workitem
note id key value = modify_workitem id (λ i. record i { metadata = put i.metadata key value })

-- run.metadata[key] = value
unfoldable pub note_run : String → String → Value → Method Unit
unfolding modify_run
note_run run_id key value =
    modify_run run_id (λ r. record r { metadata = put r.metadata key value })

-- the fields of the run that the end of the bootstrap sets
unfoldable pub plan_run : String → Method Unit
unfolding modify_run
plan_run run_id = modify_run run_id λ r. record r {
  requirement_status = RequirementStatus.confirmed;
  current_stage = SddStage.tasks;
  blocked_reason = none;
  next_action_hint = some "execute_workflow_run";
}

-- What other tasks call while the engine waits.
unfoldable pub others : World → List Call → Method Unit
unfolding assign
others w calls = assign (history w calls)

abbrev pub gate_type_value : GateType → String
gate_type_value GateType.doc = "doc"
gate_type_value GateType.test = "test"
gate_type_value GateType.security = "security"
gate_type_value GateType.acceptance = "acceptance"
gate_type_value GateType.release = "release"

-- value if isinstance(value, dict) else {}
abbrev pub fields_of : Option Value → Fields
fields_of (some (object fs)) = fs
fields_of _ = end

-- fs.get(key)
unfoldable pub get_field : Fields → String → Option Value
get_field end key = none
get_field (field k v fs) key = if k == key then some v else get_field fs key

-- fs[key] = value
unfoldable pub put_field : Fields → String → Value → Fields
put_field end key value = field key value end
put_field (field k v fs) key value =
    if k == key then field k value fs else field k v (put_field fs key value)
