-- ===== src/Engine/Run.antt =====
-- `execute_until_blocked` of WorkflowEngine.
use wherecode.Prelude.{
  ℕ, zero, suc, String, true, false, not, List, [], ◌∷◌, ◌++◌, keep, is_empty, nat_eq,
  if◌then◌else◌,
}
use wherecode.Prelude.Sort.{sorted}
use wherecode.Py.{◌>>=◌, ◌>>◌, pure, guard, value_error}
use wherecode.Models.{WorkItem, WorkItemStatus, is_status, is_canceled}
use wherecode.Scheduler.State.{Method, get_run, get_workitem, list_workitems}
use wherecode.Scheduler.Items.{
  is_before, tick, start_workitem, complete_workitem, mark_workitem_skipped,
}
use wherecode.Engine.State.{ExecutionStatus, Setting}
use wherecode.Engine.Execute.{execute_one_workitem}
use wherecode.Engine.Reflow.{GateOutcome, apply_gate_and_reflow}
use wherecode.Engine.Reports.{
  emit_default_artifacts, ExecuteWorkflowRunResponse, build_execute_response,
}

-- The local lists `executed` and `failed`.
pub record Tally : Type 0 where
  pub executed : List String
  pub failed : List String

abbrev pub with_executed : String → Tally → Tally
with_executed id t = record t { executed = t.executed ++ id ∷ [] }

abbrev pub with_failed : String → Tally → Tally
with_failed id t = record t { failed = t.failed ++ id ∷ [] }

module _ (w : Setting) where
  unfoldable pub fail_item : String → Tally → Method Tally
  fail_item id t = do complete_workitem w.world id false; pure (with_failed id t)

  unfoldable pub finish_gated : String → Tally → GateOutcome → Method Tally
  finish_gated id t GateOutcome.success = do
    complete_workitem w.world id true
    item ← get_workitem id
    emit_default_artifacts w.world item
    pure t
  finish_gated id t GateOutcome.reflowed = do
    mark_workitem_skipped w.world id "gate_failed_reflow"
    pure t
  finish_gated id t GateOutcome.failed = fail_item id t

  unfoldable pub pass_gate : String → Tally → Method Tally
  pass_gate id t = do gated ← apply_gate_and_reflow w id; finish_gated id t gated

  unfoldable pub finish_item : String → Tally → ExecutionStatus → Method Tally
  finish_item id t ExecutionStatus.success = pass_gate id t
  finish_item id t ExecutionStatus.needs_discussion = pure t
  finish_item id t ExecutionStatus.failed = fail_item id t

  -- the body of the inner loop, past the test for a canceled run
  unfoldable pub run_item : String → Tally → Method Tally
  run_item id t = do
    start_workitem w.world id
    execution_status ← execute_one_workitem w id
    refreshed ← get_workitem id
    if not (is_status refreshed.status WorkItemStatus.running)
        then pure t
        else do finish_item id (with_executed id t) execution_status

  -- for workitem in ready: ...
  unfoldable pub run_items : String → List WorkItem → Tally → Method Tally
  run_items run_id [] t = pure t
  run_items run_id (item ∷ items) t = do
    run ← get_run run_id
    if is_canceled run.status
        then pure t
        else do after ← run_item item.id t; run_items run_id items after

  unfoldable pub tick_if : String → List WorkItem → Method (List WorkItem)
  tick_if run_id [] = tick w.world run_id
  tick_if run_id (item ∷ items) = pure (item ∷ items)

  -- what one round executes, in order
  unfoldable pub ready_items : String → Method (List WorkItem)
  ready_items run_id = do
    items ← list_workitems run_id
    ready ← tick_if run_id (keep (λ (i : WorkItem). is_status i.status WorkItemStatus.ready) items)
    pure (sorted is_before ready)

  -- for _ in range(max_loops): ...
  unfoldable pub run_rounds : ℕ → String → Tally → Method Tally
  run_rounds zero run_id t = pure t
  run_rounds (suc n) run_id t = do
    run ← get_run run_id
    if is_canceled run.status then pure t else do
      ready ← ready_items run_id
      if is_empty ready
          then pure t
          else do after ← run_items run_id ready t; run_rounds n run_id after

  unfoldable pub execute_until_blocked : String → ℕ → Method ExecuteWorkflowRunResponse
  execute_until_blocked run_id max_loops = do
    guard (not (nat_eq max_loops 0)) (value_error "max_loops must be >= 1")
    t ← run_rounds max_loops run_id (record { executed = []; failed = [] })
    build_execute_response run_id t.executed t.failed
