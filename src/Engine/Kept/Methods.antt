-- ===== src/Engine/Kept/Methods.antt =====
-- The methods of the engine keep what the scheduler's methods keep.
use wherecode.Prelude.{
  ℕ, zero, suc, String, refl, Bool, true, false, Option, none, some, List, [], ◌∷◌, is_empty,
}
use wherecode.Value.{Fields, end, field}
use wherecode.Py.{Outcome}
use wherecode.Py.Keeps.{Keeps-pure, Keeps-if, Keeps-guard, Keeps-bind}
use wherecode.Models.{WorkItem, WorkItemStatus, is_canceled}
use wherecode.Scheduler.State.{Scheduler, Method}
use wherecode.Scheduler.Discussion.{Prompt}
use wherecode.Scheduler.History.{Call}
use wherecode.Engine.State.{
  ExecutionError, ExecutionStatus, ExecutionResult, ActionResult, Reply, replied, broke, Setting,
}
use wherecode.Engine.Execute.{
  ask_about, note_error, judge_service, execute_by_service, note_metadata, judge_response,
  take_reply, execute_by_agent, execute_by, execute_one_workitem,
}
use wherecode.Engine.Gates.{GateDecision}
use wherecode.Engine.Reflow.{
  GateOutcome, skip_each, add_chain, rewire_item, rewire_each, rewire_integration_dependencies,
  reflow_module, refuse_reflow, attempt_reflow, apply_module_reflow, after_reflow, reflow_failed,
  record_gate, apply_gate_and_reflow, when_changed,
}
use wherecode.Engine.Reports.{
  emit_release_artifacts, emit_acceptance_artifact, emit_default_artifacts, build_execute_response,
}
use wherecode.Scheduler.Items.{list_workitem_ids_by_status}
use wherecode.Engine.Run.{
  Tally, fail_item, finish_gated, pass_gate, finish_item, run_item, run_items, tick_if, ready_items,
  run_rounds, execute_until_blocked,
}
use wherecode.Engine.Kept.{
  IsKept, Keeping, note-Keeping, get_run-Keeping, add-Keeping, skip-Keeping, tick-Keeping,
  client_rules,
}

module _ (w : Setting) {I : Scheduler → Type 0} (k : IsKept w.world I) where
  ask_about-Keeping : (id : String) (prompt : Prompt) → Keeping k (ask_about w id prompt)
  unfolding ask_about
  ask_about-Keeping id prompt = search client_rules

  note_error-Keeping :
      (id : String) (error : Option ExecutionError) → Keeping k (note_error w id error)
  unfolding note_error
  note_error-Keeping id none = Keeps-pure _
  note_error-Keeping id (some error) = search (client_rules, note-Keeping) depth 12

  judge_service-Keeping :
      (id : String) (result : ExecutionResult) (status : ExecutionStatus)
      → Keeping k (judge_service w id result status)
  unfolding judge_service
  judge_service-Keeping id result ExecutionStatus.needs_discussion = ask_about-Keeping id _
  judge_service-Keeping id result ExecutionStatus.success = Keeps-pure _
  judge_service-Keeping id result ExecutionStatus.failed = note_error-Keeping id result.error

  execute_by_service-Keeping :
      (service : Scheduler → String → List Call × Outcome ExecutionResult) (id : String)
      → Keeping k (execute_by_service w service id)
  unfolding execute_by_service
  execute_by_service-Keeping service id =
      search (client_rules, note-Keeping, judge_service-Keeping) depth 24

  note_metadata-Keeping : (id : String) (fields : Fields) → Keeping k (note_metadata w id fields)
  unfolding note_metadata
  note_metadata-Keeping id end = Keeps-pure tt
  note_metadata-Keeping id (field key v fs) = note-Keeping k id "execution_metadata" _ refl

  judge_response-Keeping :
      (id : String) (result : ActionResult) → Keeping k (judge_response w id result)
  unfolding judge_response
  judge_response-Keeping id result = search (client_rules, ask_about-Keeping)

  take_reply-Keeping : (id agent : String) (reply : Reply) → Keeping k (take_reply w id agent reply)
  unfolding take_reply
  take_reply-Keeping id agent (broke reason) = search (client_rules, note-Keeping) depth 10
  take_reply-Keeping id agent (replied result) =
      search (client_rules, note-Keeping, note_metadata-Keeping, judge_response-Keeping) depth 16

  execute_by_agent-Keeping :
      (id role : String) (agent : Option String) → Keeping k (execute_by_agent w id role agent)
  unfolding execute_by_agent
  execute_by_agent-Keeping id role none = search (client_rules, note-Keeping)
  execute_by_agent-Keeping id role (some agent) = search (client_rules, take_reply-Keeping) depth 10

  execute_by-Keeping :
      (service : Option (Scheduler → String → List Call × Outcome ExecutionResult))
      (item : WorkItem)
      → Keeping k (execute_by w service item)
  unfolding execute_by
  execute_by-Keeping (some service) item = execute_by_service-Keeping service item.id
  execute_by-Keeping none item = search (client_rules, execute_by_agent-Keeping)

  execute_one_workitem-Keeping : (id : String) → Keeping k (execute_one_workitem w id)
  unfolding execute_one_workitem
  execute_one_workitem-Keeping id = search (client_rules, execute_by-Keeping) depth 10

  skip_each-Keeping : (items : List WorkItem) → Keeping k (skip_each w items)
  unfolding skip_each
  skip_each-Keeping [] = Keeps-pure tt
  skip_each-Keeping (item ∷ items) = Keeps-bind (skip-Keeping k _ _) (λ _. skip_each-Keeping items)

  add_chain-Keeping :
      (run_id module_key : String) (attempt : ℕ) (roles depends_on : List String) (last : String)
      → Keeping k (add_chain w run_id module_key attempt roles depends_on last)
  unfolding add_chain
  add_chain-Keeping run_id module_key attempt [] depends_on last = Keeps-pure last
  add_chain-Keeping run_id module_key attempt (role ∷ roles) depends_on last =
      Keeps-bind (add-Keeping k run_id _)
        λ created. add_chain-Keeping run_id module_key attempt roles _ _

  when_changed-Keeping :
      (same : Bool) {m : Method Unit} → Keeping k m → Keeping k (when_changed w same m)
  when_changed-Keeping true h = Keeps-pure tt
  when_changed-Keeping false h = h

  rewire_item-Keeping :
      (item : WorkItem) (old new : String) → Keeping k (rewire_item w item old new)
  unfolding rewire_item
  rewire_item-Keeping item old new = search (client_rules, when_changed-Keeping)

  rewire_each-Keeping :
      (items : List WorkItem) (old new : String) → Keeping k (rewire_each w items old new)
  unfolding rewire_each
  rewire_each-Keeping [] old new = Keeps-pure tt
  rewire_each-Keeping (item ∷ items) old new =
      Keeps-bind (when_changed-Keeping _ (rewire_item-Keeping item old new))
        λ _. rewire_each-Keeping items old new

  rewire_integration-Keeping :
      (run_id : String) (old : Option String) (new : String)
      → Keeping k (rewire_integration_dependencies w run_id old new)
  unfolding rewire_integration_dependencies
  rewire_integration-Keeping run_id none new = Keeps-pure tt
  rewire_integration-Keeping run_id (some old) new = search (client_rules, rewire_each-Keeping)

  reflow_module-Keeping :
      (id run_id module_key : String) (attempt : ℕ)
      → Keeping k (reflow_module w id run_id module_key attempt)
  unfolding reflow_module
  reflow_module-Keeping id run_id module_key attempt =
      search (client_rules, skip_each-Keeping, add_chain-Keeping, rewire_integration-Keeping) depth
        24

  refuse_reflow-Keeping : (id : String) → Keeping k (refuse_reflow w id)
  unfolding refuse_reflow
  refuse_reflow-Keeping id = search (client_rules, note-Keeping)

  attempt_reflow-Keeping :
      (id run_id module_key : String) → Keeping k (attempt_reflow w id run_id module_key)
  unfolding attempt_reflow
  attempt_reflow-Keeping id run_id module_key =
      search (client_rules, refuse_reflow-Keeping, reflow_module-Keeping) depth 16

  apply_module_reflow-Keeping : (item : WorkItem) → Keeping k (apply_module_reflow w item)
  unfolding apply_module_reflow
  apply_module_reflow-Keeping item = search (client_rules, attempt_reflow-Keeping)

  after_reflow-Keeping : (id : String) (applied : Bool) → Keeping k (after_reflow w id applied)
  unfolding after_reflow
  after_reflow-Keeping id true = search (client_rules, note-Keeping)
  after_reflow-Keeping id false = Keeps-pure _

  reflow_failed-Keeping : (item : WorkItem) → Keeping k (reflow_failed w item)
  unfolding reflow_failed
  reflow_failed-Keeping item =
      search (client_rules, apply_module_reflow-Keeping, after_reflow-Keeping)

  record_gate-Keeping :
      (item : WorkItem) (decision : Option GateDecision) → Keeping k (record_gate w item decision)
  unfolding record_gate
  record_gate-Keeping item none = Keeps-pure _
  record_gate-Keeping item (some decision) =
      search (client_rules, note-Keeping, reflow_failed-Keeping) depth 16

  apply_gate-Keeping : (id : String) → Keeping k (apply_gate_and_reflow w id)
  unfolding apply_gate_and_reflow
  apply_gate-Keeping id = search (client_rules, record_gate-Keeping)

  emit-Keeping : (item : WorkItem) → Keeping k (emit_default_artifacts w.world item)
  unfolding emit_default_artifacts emit_release_artifacts emit_acceptance_artifact
  emit-Keeping item = search client_rules depth 12

  fail_item-Keeping : (id : String) (t : Tally) → Keeping k (fail_item w id t)
  unfolding fail_item
  fail_item-Keeping id t = search client_rules

  finish_gated-Keeping :
      (id : String) (t : Tally) (gated : GateOutcome) → Keeping k (finish_gated w id t gated)
  unfolding finish_gated
  finish_gated-Keeping id t GateOutcome.success = search (client_rules, emit-Keeping) depth 10
  finish_gated-Keeping id t GateOutcome.reflowed = search client_rules
  finish_gated-Keeping id t GateOutcome.failed = fail_item-Keeping id t

  pass_gate-Keeping : (id : String) (t : Tally) → Keeping k (pass_gate w id t)
  unfolding pass_gate
  pass_gate-Keeping id t = search (client_rules, apply_gate-Keeping, finish_gated-Keeping)

  finish_item-Keeping :
      (id : String) (t : Tally) (status : ExecutionStatus) → Keeping k (finish_item w id t status)
  unfolding finish_item
  finish_item-Keeping id t ExecutionStatus.success = pass_gate-Keeping id t
  finish_item-Keeping id t ExecutionStatus.needs_discussion = Keeps-pure t
  finish_item-Keeping id t ExecutionStatus.failed = fail_item-Keeping id t

  run_item-Keeping : (id : String) (t : Tally) → Keeping k (run_item w id t)
  unfolding run_item
  run_item-Keeping id t =
      search (client_rules, execute_one_workitem-Keeping, finish_item-Keeping) depth 12

  run_items-Keeping :
      (run_id : String) (items : List WorkItem) (t : Tally) → Keeping k (run_items w run_id items t)
  unfolding run_items
  run_items-Keeping run_id [] t = Keeps-pure t
  run_items-Keeping run_id (item ∷ items) t = Keeps-bind (get_run-Keeping k run_id) λ run.
      Keeps-if _ (λ e. Keeps-pure t)
        (λ e.
          Keeps-bind (run_item-Keeping item.id t) (λ after. run_items-Keeping run_id items after))

  tick_if-Keeping : (run_id : String) (items : List WorkItem) → Keeping k (tick_if w run_id items)
  unfolding tick_if
  tick_if-Keeping run_id [] = tick-Keeping k run_id
  tick_if-Keeping run_id (item ∷ items) = Keeps-pure _

  ready_items-Keeping : (run_id : String) → Keeping k (ready_items w run_id)
  unfolding ready_items
  ready_items-Keeping run_id = search (client_rules, tick_if-Keeping)

  run_rounds-Keeping : (n : ℕ) (run_id : String) (t : Tally) → Keeping k (run_rounds w n run_id t)
  unfolding run_rounds
  run_rounds-Keeping zero run_id t = Keeps-pure t
  run_rounds-Keeping (suc n) run_id t = Keeps-bind (get_run-Keeping k run_id) λ run.
      Keeps-if (is_canceled run.status) (λ e. Keeps-pure t)
        λ e. Keeps-bind (ready_items-Keeping run_id) λ ready.
          Keeps-if (is_empty ready) (λ e. Keeps-pure t)
            (λ e.
              Keeps-bind (run_items-Keeping run_id ready t)
                (λ after. run_rounds-Keeping n run_id after))

  list_ids-Keeping :
      (run_id : String) (status : WorkItemStatus)
      → Keeping k (list_workitem_ids_by_status run_id status)
  unfolding list_workitem_ids_by_status
  list_ids-Keeping run_id status = search client_rules

  response-Keeping :
      (run_id : String) (executed failed : List String)
      → Keeping k (build_execute_response run_id executed failed)
  unfolding build_execute_response
  response-Keeping run_id executed failed = search (client_rules, list_ids-Keeping) depth 12

  -- What the scheduler's methods keep, and the metadata that the engine writes does not touch, a run
  -- of the engine keeps.
  pub execute_until_blocked-Keeping :
      (run_id : String) (max_loops : ℕ) → Keeping k (execute_until_blocked w run_id max_loops)
  unfolding execute_until_blocked
  execute_until_blocked-Keeping run_id max_loops =
      Keeps-bind (Keeps-guard _ _)
        λ _. Keeps-bind (run_rounds-Keeping max_loops run_id _) λ t. response-Keeping run_id _ _
