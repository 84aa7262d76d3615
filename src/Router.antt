-- ===== src/Router.antt =====
-- The agent router, control_center/services/agent_router.py: the routing of a command by the
-- keywords of the rules. `lower` is Python's `str.lower`.
pub mod Routed
pub mod Samples
use Prim.Native.Char.{code}
use Prim.Native.String.{[], ◌∷◌}
use wherecode.Prelude.{
  ℕ, String, ◌==◌, Bool, true, false, ◌&&◌, ◌||◌, Option, none, some, List, nat_eq, if◌then◌else◌,
}
use mathlib.Core.List
use wherecode.Text.{strip, is_truthy}

pub data ℤ : Type 0 where
  pos : ℕ → ℤ
  negsuc : ℕ → ℤ

pub record AgentRoutingDecision : Type 0 where
  pub agent : String
  pub reason : String
  pub matched_keyword : Option String
  pub rule_id : Option String

pub record AgentRule : Type 0 where
  pub rule_id : String
  pub agent : String
  pub keywords : List String
  pub priority : ℤ
  pub enabled : Bool

pub record AgentRouter : Type 0 where
  pub default_agent : String
  pub rules : List AgentRule

-- What _set_default_rules assigns.
abbrev pub default_router : AgentRouter
default_router = record {
  default_agent = "coding-agent";
  rules =
      List.◌∷◌
        (record {
          rule_id = "rule_test_keywords";
          agent = "test-agent";
          keywords = List.◌∷◌ "pytest" (
              List.◌∷◌ "unit test" (
                List.◌∷◌ "run tests"
                  (List.◌∷◌ "integration test" (List.◌∷◌ "coverage" (List.◌∷◌ "test" List.[])))));
          priority = pos 10;
          enabled = true;
        })
        (List.◌∷◌
          (record {
            rule_id = "rule_review_keywords";
            agent = "review-agent";
            keywords =
                List.◌∷◌ "review"
                  (List.◌∷◌ "security" (List.◌∷◌ "audit" (List.◌∷◌ "risk" List.[])));
            priority = pos 20;
            enabled = true;
          })
          List.[]);
}

-- text.startswith(word)
unfoldable pub starts_with : String → String → Bool
starts_with text [] = true
starts_with [] (d ∷ word) = false
starts_with (c ∷ text) (d ∷ word) = nat_eq (code c) (code d) && starts_with text word

-- word in text
unfoldable pub occurs : String → String → Bool
occurs word [] = starts_with [] word
occurs word (c ∷ text) = starts_with (c ∷ text) word || occurs word text

-- for keyword in rule.keywords: if keyword in lowered: ...
unfoldable pub first_keyword : String → List String → Option String
first_keyword lowered List.[] = none
first_keyword lowered (List.◌∷◌ keyword keywords) =
    if occurs keyword lowered then some keyword else first_keyword lowered keywords

abbrev pub decision_of : AgentRule → String → AgentRoutingDecision
decision_of rule keyword = record {
  agent = rule.agent;
  reason = "keyword_rule";
  matched_keyword = some keyword;
  rule_id = some rule.rule_id;
}

abbrev pub default_decision : String → AgentRoutingDecision
default_decision agent = record {
  agent = agent;
  reason = "default_agent";
  matched_keyword = none;
  rule_id = none;
}

abbrev pub explicit_decision : String → AgentRoutingDecision
explicit_decision agent = record {
  agent = agent;
  reason = "explicit_assignee";
  matched_keyword = none;
  rule_id = none;
}

-- The keyword by which a rule takes a command, if it does.
unfoldable pub take_by : String → AgentRule → Option String
take_by lowered rule = if rule.enabled then first_keyword lowered rule.keywords else none

-- for rule in self._rules: ...
unfoldable pub route_rules : String → String → List AgentRule → AgentRoutingDecision
route_rules default_agent lowered List.[] = default_decision default_agent
route_rules default_agent lowered (List.◌∷◌ rule rules) = elim (take_by lowered rule) [
  | none ↦ route_rules default_agent lowered rules
  | some keyword ↦ decision_of rule keyword
]

-- assignee and assignee not in {"auto", "auto-agent"}
unfoldable pub is_explicit : String → Bool
is_explicit assignee =
    is_truthy assignee
    && (if assignee == "auto" then false else if assignee == "auto-agent" then false else true)

module _ (lower : String → String) where
  unfoldable pub route : AgentRouter → String → String → AgentRoutingDecision
  route r task_assignee_agent command_text =
      if is_explicit (lower (strip task_assignee_agent))
      then explicit_decision task_assignee_agent
      else route_rules r.default_agent (lower command_text) r.rules

  unfoldable pub select_agent : AgentRouter → String → String → String
  select_agent r task_assignee_agent command_text = (route r task_assignee_agent command_text).agent
