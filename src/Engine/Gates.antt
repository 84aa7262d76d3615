-- ===== src/Engine/Gates.antt =====
-- control_center/services/gatekeeper.py and the gates beside it.
use wherecode.Prelude.{
  ℕ, String, ◌==◌, Bool, true, false, not, ◌&&◌, ◌||◌, Option, none, some, or_else, nat_eq,
  if◌then◌else◌,
}
use wherecode.Text.{mentions}
use wherecode.Dict.{get}
use wherecode.Value.{Value, null, boolean, number, text, array, object}
use wherecode.Py.{Outcome, returned, raised, not_a_number}
use wherecode.Models.{WorkItem, GateType}

pub record GateEvalResult : Type 0 where
  pub passed : Bool
  pub summary : String

pub record GateDecision : Type 0 where
  pub gate_type : GateType
  pub passed : Bool
  pub summary : String
  pub executed_by : String

abbrev module_text : WorkItem → String
module_text workitem = or_else workitem.module_key ""

-- `int` of a text is the argument.
unfoldable pub int_of : (String → Outcome ℕ) → Option Value → Outcome ℕ
int_of int_of_text none = returned 0
int_of int_of_text (some (number n)) = returned n
int_of int_of_text (some (boolean true)) = returned 1
int_of int_of_text (some (boolean false)) = returned 0
int_of int_of_text (some (text t)) = int_of_text t
int_of int_of_text (some null) = raised not_a_number
int_of int_of_text (some (array xs)) = raised not_a_number
int_of int_of_text (some (object fs)) = raised not_a_number

-- DocGate.evaluate, past the conversion
abbrev pub doc_result : String → ℕ → GateEvalResult
doc_result name reflow_attempt =
    if mentions name "doc-reflow-once" && nat_eq reflow_attempt 0
    then record { passed = false; summary = "doc gate failed on first attempt; requires reflow" }
    else if mentions name "doc-fail" && not (mentions name "doc-reflow-once")
    then record { passed = false; summary = "doc gate failed by module marker" }
    else record { passed = true; summary = "doc gate passed" }

abbrev pub test_result : String → GateEvalResult
test_result name =
    if mentions name "test-fail"
    then record { passed = false; summary = "test gate failed by module marker" }
    else record { passed = true; summary = "test gate passed" }

abbrev pub security_result : String → GateEvalResult
security_result name =
    if mentions name "security-fail" || mentions name "risk"
    then record { passed = false; summary = "security gate failed by risk marker" }
    else record { passed = true; summary = "security gate passed" }

abbrev decision : GateType → String → GateEvalResult → GateDecision
decision gate_type executed_by result = record {
  gate_type = gate_type;
  passed = result.passed;
  summary = result.summary;
  executed_by = executed_by;
}

abbrev doc_decision : String → Outcome ℕ → Outcome (Option GateDecision)
doc_decision name (raised e) = raised e
doc_decision name (returned n) =
    returned (some (decision GateType.doc "doc-gate" (doc_result name n)))

-- Gatekeeper.evaluate
unfoldable pub evaluate : (String → Outcome ℕ) → WorkItem → Outcome (Option GateDecision)
evaluate int_of_text workitem =
    if workitem.role == "doc-manager"
    then doc_decision (module_text workitem)
        (int_of int_of_text (get workitem.metadata "reflow_attempt"))
    else if workitem.role == "qa-test" || workitem.role == "integration-test"
    then returned (some (decision GateType.test "test-gate" (test_result (module_text workitem))))
    else if workitem.role == "security-review"
    then returned
        (some (decision GateType.security "security-gate" (security_result (module_text workitem))))
    else returned none
