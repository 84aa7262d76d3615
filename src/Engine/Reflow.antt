-- ===== src/Engine/Reflow.antt =====
-- The gates and the reflow of WorkflowEngine: `_apply_gate_and_reflow_if_needed`,
-- `_apply_module_reflow` and `_rewire_integration_dependencies`.
use wherecode.Prelude.{
  ℕ, suc, String, ◌==◌, Bool, true, false, not, ◌||◌, Option, none, some, List, [], ◌∷◌, ltb,
  or_else, if◌then◌else◌,
}
use wherecode.Text.{strip, is_truthy}
use wherecode.Dict.{get}
use wherecode.Value.{Value, boolean, number, text, object}
use wherecode.Py.{◌>>=◌, ◌>>◌, pure, reads}
use wherecode.Models.{WorkItem}
use wherecode.Scheduler.State.{Method, get_run, get_workitem, list_workitems}
use wherecode.Scheduler.Create.{
  NewWorkItem, NewGateCheck, add_workitem, create_gate_check, persist_run,
}
use wherecode.Scheduler.Items.{mark_workitem_skipped, update_workitem_dependencies}
use wherecode.Engine.Helpers.{Search, find_module_descendants, rewrite_integration_dependencies}
use wherecode.Engine.Gates.{GateDecision, int_of, evaluate}
use wherecode.Engine.State.{
  Setting, note, note_run, gate_type_value, fields_of, get_field, put_field,
}

abbrev pub module_stages : List String
module_stages = "module-dev" ∷ "doc-manager" ∷ "qa-test" ∷ "security-review" ∷ []

-- The strings that `_apply_gate_and_reflow_if_needed` returns.
pub data GateOutcome : Type 0 where
  success reflowed failed : GateOutcome

-- The search always ends: see the module of the descendants.
abbrev pub found_descendants : Option Search → List WorkItem
found_descendants none = []
found_descendants (some st) = st.descendants

abbrev pub same_ids : List String → List String → Bool
same_ids [] [] = true
same_ids [] (y ∷ ys) = false
same_ids (x ∷ xs) [] = false
same_ids (x ∷ xs) (y ∷ ys) = if x == y then same_ids xs ys else false

-- an item of the chain of a reflow
abbrev pub reflow_item : String → String → List String → ℕ → NewWorkItem
reflow_item role module_key depends_on attempt = record {
  role = role;
  module_key = some module_key;
  assignee_agent = "auto-agent";
  depends_on = some depends_on;
  priority = 3;
  requires_approval = false;
  discussion_budget = 2;
  discussion_timeout_seconds = 120;
  metadata = some (("reflow_attempt", number attempt) ∷ []);
}

-- isinstance(value, str) and value
abbrev pub filled_text : Option Value → Option String
filled_text (some (text t)) = if is_truthy t then some t else none
filled_text _ = none

module _ (w : Setting) where
  -- for item in obsolete: ...
  unfoldable pub skip_each : List WorkItem → Method Unit
  skip_each [] = pure tt
  skip_each (item ∷ items) = do
    mark_workitem_skipped w.world item.id "obsolete_after_reflow"
    skip_each items

  -- The chain of new items, each behind the one before; gives the last identifier.
  unfoldable pub add_chain :
      String → String → ℕ → List String → List String → String → Method String
  add_chain run_id module_key attempt [] depends_on last = pure last
  add_chain run_id module_key attempt (role ∷ roles) depends_on last = do
    created ← add_workitem w.world run_id (reflow_item role module_key depends_on attempt)
    add_chain run_id module_key attempt roles (created.id ∷ []) created.id

  abbrev pub when_changed : Bool → Method Unit → Method Unit
  when_changed same m = if same then pure tt else m

  unfoldable pub rewire_item : WorkItem → String → String → Method Unit
  rewire_item item old_terminal_id new_terminal_id =
      let updated =
        rewrite_integration_dependencies item.depends_on old_terminal_id new_terminal_id in
      when_changed (same_ids updated item.depends_on)
        (update_workitem_dependencies w.world item.id updated >> pure tt)

  unfoldable pub rewire_each : List WorkItem → String → String → Method Unit
  rewire_each [] old_terminal_id new_terminal_id = pure tt
  rewire_each (item ∷ items) old_terminal_id new_terminal_id = do
    when_changed (not (item.role == "integration-test"))
        (rewire_item item old_terminal_id new_terminal_id)
    rewire_each items old_terminal_id new_terminal_id

  unfoldable pub rewire_integration_dependencies : String → Option String → String → Method Unit
  rewire_integration_dependencies run_id none new_terminal_id = pure tt
  rewire_integration_dependencies run_id (some old_terminal_id) new_terminal_id = do
    items ← list_workitems run_id
    rewire_each items old_terminal_id new_terminal_id

  -- past the budget
  unfoldable pub reflow_module : String → String → String → ℕ → Method Bool
  reflow_module id run_id module_key attempt = do
    failed_workitem ← get_workitem id
    items ← list_workitems run_id
    skip_each (found_descendants (find_module_descendants items failed_workitem))
    new_terminal ← add_chain run_id module_key attempt module_stages failed_workitem.depends_on ""
    run ← get_run run_id
    let terminals = fields_of (get run.metadata "module_terminal_workitems")
    note_run run_id "module_terminal_workitems"
        (object (put_field terminals module_key (text new_terminal)))
    persist_run w.world run_id
    rewire_integration_dependencies run_id (filled_text (get_field terminals module_key))
        new_terminal
    pure true

  unfoldable pub refuse_reflow : String → Method Bool
  refuse_reflow id = do note id "reflow_error" (text "reflow_budget_exhausted"); pure false

  unfoldable pub attempt_reflow : String → String → String → Method Bool
  attempt_reflow id run_id module_key = do
    run ← get_run run_id
    let attempts = fields_of (get run.metadata "reflow_attempts")
    earlier ← reads (λ s. int_of w.int_of_text (get_field attempts module_key))
    note_run run_id "reflow_attempts"
        (object (put_field attempts module_key (number (suc earlier))))
    persist_run w.world run_id
    if ltb w.max_module_reflows (suc earlier)
        then refuse_reflow id
        else do reflow_module id run_id module_key (suc earlier)

  unfoldable pub apply_module_reflow : WorkItem → Method Bool
  apply_module_reflow failed_workitem =
      let module_key = strip (or_else failed_workitem.module_key "") in
      if not (is_truthy module_key) || (module_key == "global")
      then pure false
      else attempt_reflow failed_workitem.id failed_workitem.workflow_run_id module_key

  unfoldable pub after_reflow : String → Bool → Method GateOutcome
  after_reflow id false = pure GateOutcome.failed
  after_reflow id true = do note id "reflow_applied" (boolean true); pure GateOutcome.reflowed

  unfoldable pub reflow_failed : WorkItem → Method GateOutcome
  reflow_failed item = do applied ← apply_module_reflow item; after_reflow item.id applied

  abbrev gate_request : GateDecision → NewGateCheck
  gate_request decision = record {
    gate_type = decision.gate_type;
    passed = decision.passed;
    summary = decision.summary;
    executed_by = decision.executed_by;
    evidence_artifact_ids = none;
  }

  unfoldable pub record_gate : WorkItem → Option GateDecision → Method GateOutcome
  record_gate item none = pure GateOutcome.success
  record_gate item (some decision) = do
    gate ← create_gate_check w.world item.id (gate_request decision)
    note item.id "gate_check_id" (text gate.id)
    note item.id "gate_type" (text (gate_type_value decision.gate_type))
    note item.id "gate_summary" (text decision.summary)
    if decision.passed then pure GateOutcome.success else do reflow_failed item

  unfoldable pub apply_gate_and_reflow : String → Method GateOutcome
  apply_gate_and_reflow id = do
    item ← get_workitem id
    decision ← reads (λ s. evaluate w.int_of_text item)
    record_gate item decision
