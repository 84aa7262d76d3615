-- ===== src/Engine/Execute.antt =====
-- `_execute_one_workitem` of WorkflowEngine.
use wherecode.Prelude.{
  String, ◌==◌, Bool, true, false, Option, none, some, List, [], or_else, if◌then◌else◌,
}
use wherecode.Text.{strip, is_truthy}
use Prim.Native.String.{◌++◌}
use wherecode.Dict.{get}
use wherecode.Value.{Value, boolean, text, object, Fields, end, field}
use wherecode.Py.{Outcome, returned, raised, ◌>>=◌, ◌>>◌, pure, reads, value_error}
use wherecode.Models.{WorkItem, DiscussionStatus}
use wherecode.Scheduler.State.{Scheduler, Method, get_run, get_workitem}
use wherecode.Scheduler.Discussion.{Prompt, mark_needs_discussion}
use wherecode.Scheduler.History.{Call}
use wherecode.Engine.State.{
  ExecutionError, ExecutionStatus, ExecutionResult, ActionResult, Reply, replied, broke, Setting,
  note, others,
}

abbrev is_open : DiscussionStatus → Bool
is_open DiscussionStatus.opened = true
is_open _ = false

module _ (w : Setting) where
  -- asks, and tells whether the discussion is open
  unfoldable pub ask_about : String → Prompt → Method ExecutionStatus
  ask_about id prompt = do
    discussion ← mark_needs_discussion w.world id prompt
    pure (
        if is_open discussion.status
        then ExecutionStatus.needs_discussion
        else ExecutionStatus.failed)

  unfoldable pub note_error : String → Option ExecutionError → Method ExecutionStatus
  note_error id none = pure ExecutionStatus.failed
  note_error id (some error) = do
    note id "execution_error" (text error.message)
    note id "execution_error_code" (text error.code)
    note id "execution_error_retryable" (boolean error.retryable)
    pure ExecutionStatus.failed

  abbrev pub service_prompt : ExecutionResult → Prompt
  service_prompt result = record {
    question = if is_truthy result.summary then result.summary else "need clarification";
    options = some [];
    recommendation = none;
    impact = none;
    fingerprint = some ("exec:" ++ result.trace_id);
  }

  unfoldable pub judge_service : String → ExecutionResult → ExecutionStatus → Method ExecutionStatus
  judge_service id result ExecutionStatus.needs_discussion = ask_about id (service_prompt result)
  judge_service id result ExecutionStatus.success = pure ExecutionStatus.success
  judge_service id result ExecutionStatus.failed = note_error id result.error

  unfoldable pub execute_by_service :
      (Scheduler → String → List Call × Outcome ExecutionResult) → String → Method ExecutionStatus
  execute_by_service service id = do
    answer ← reads (λ s. returned (service s id))
    others w.world answer.0
    result ← reads (λ s. answer.1)
    item ← get_workitem id
    note id "executor" (text "opencode")
    strategy ← reads (λ s. w.resolve_strategy item.role)
    note id "executor_strategy" (text strategy)
    note id "trace_id" (text result.trace_id)
    note id "execution_summary" (text result.summary)
    note id "execution_raw_ref" (text result.raw_ref)
    judge_service id result result.status

  -- str(metadata.get("task_routing_executor", "")).strip()
  abbrev routed_executor : Option Value → String
  routed_executor none = ""
  routed_executor (some (text t)) = strip t
  routed_executor (some value) = strip (w.str_of value)

  -- AgentRegistry.resolve; `none` for an unknown role
  unfoldable pub resolve : String → Outcome (Option String)
  resolve role =
      let normalized = w.lower (strip role) in
      if is_truthy normalized
      then returned (get w.agents normalized)
      else raised (value_error "role must be a non-empty string")

  abbrev pub choose_agent : WorkItem → Outcome (Option String)
  choose_agent item =
      let routed = routed_executor (get item.metadata "task_routing_executor") in
      if is_truthy routed then returned (some routed) else resolve item.role

  abbrev pub default_prompt : Prompt
  default_prompt = record {
    question = "Need architecture decision";
    options = some [];
    recommendation = none;
    impact = none;
    fingerprint = none;
  }

  unfoldable pub note_metadata : String → Fields → Method Unit
  note_metadata id end = pure tt
  note_metadata id (field k v fs) = note id "execution_metadata" (object (field k v fs))

  unfoldable pub judge_response : String → ActionResult → Method ExecutionStatus
  judge_response id result =
      if result.status == "needs_discussion"
      then ask_about id (or_else result.discussion default_prompt)
      else if result.status == "success"
      then pure ExecutionStatus.success
      else pure ExecutionStatus.failed

  unfoldable pub take_reply : String → String → Reply → Method ExecutionStatus
  take_reply id agent (broke reason) = do
    note id "execution_error" (text reason)
    note id "executor_agent" (text agent)
    pure ExecutionStatus.failed
  take_reply id agent (replied result) = do
    note id "executor_agent" (text result.agent)
    note id "trace_id" (text result.trace_id)
    note id "execution_summary" (text result.summary)
    note_metadata id result.metadata
    judge_response id result

  unfoldable pub execute_by_agent : String → String → Option String → Method ExecutionStatus
  execute_by_agent id role none = do
    note id "execution_error" (text (w.repr ("unknown agent role: " ++ w.lower (strip role))))
    pure ExecutionStatus.failed
  execute_by_agent id role (some agent) = do
    answer ← reads (λ s. returned (w.action_executor s id agent))
    others w.world answer.0
    take_reply id agent answer.1

  unfoldable pub execute_by :
      Option (Scheduler → String → List Call × Outcome ExecutionResult)
      → WorkItem
      → Method ExecutionStatus
  execute_by (some service) item = execute_by_service service item.id
  execute_by none item = do
    agent ← reads (λ s. choose_agent item)
    execute_by_agent item.id item.role agent

  unfoldable pub execute_one_workitem : String → Method ExecutionStatus
  execute_one_workitem id = do
    item ← get_workitem id
    get_run item.workflow_run_id
    execute_by w.executor_service item
