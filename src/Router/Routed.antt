-- ===== src/Router/Routed.antt =====
-- The decision of the agent router, by what it promises instead of by its loops.
use wherecode.Prelude.{
  String, ◌≡◌, refl, ap, inl, inr, Bool, true, false, Option, none, some, List, [], ◌∷◌, ◌++◌, All,
  Bool-cases, if◌then◌else◌,
}
use wherecode.Text.{strip}
use wherecode.Router.{
  AgentRule, AgentRouter, AgentRoutingDecision, occurs, first_keyword, take_by, route_rules,
  is_explicit, route, decision_of, default_decision, explicit_decision,
}

-- The keyword is one of the list that occurs in the text, and none before it does.
pub record IsFirstKeyword (lowered keyword : String) (keywords : List String) : Type 0 where
  pub before : List String
  pub after : List String
  pub listed : keywords ≡ before ++ keyword ∷ after
  pub there : occurs keyword lowered ≡ true
  pub others : All (λ k. occurs k lowered ≡ false) before

-- The rule is disabled, or none of its keywords occurs in the text.
pub data IsSilent (lowered : String) (rule : AgentRule) : Type 0 where
  disabled : rule.enabled ≡ false → IsSilent lowered rule
  absent : All (λ k. occurs k lowered ≡ false) rule.keywords → IsSilent lowered rule

-- Either an enabled rule takes the command by its first keyword that occurs, and the rules before
-- it are silent; or all rules are silent, and the command goes to the default agent.
pub data IsRouted (default_agent lowered : String) (rules : List AgentRule)
    (d : AgentRoutingDecision) : Type 0 where
  by_rule :
      (before after : List AgentRule) (rule : AgentRule) (keyword : String)
      → rules ≡ before ++ rule ∷ after
      → All (IsSilent lowered) before
      → rule.enabled ≡ true
      → IsFirstKeyword lowered keyword rule.keywords
      → d ≡ decision_of rule keyword
      → IsRouted default_agent lowered rules d
  by_default :
      All (IsSilent lowered) rules
      → d ≡ default_decision default_agent
      → IsRouted default_agent lowered rules d

-- What one rule does with a command.
data IsTaken (lowered : String) (rule : AgentRule) : Option String → Type 0 where
  silent : IsSilent lowered rule → IsTaken lowered rule none
  taken :
      {keyword : String}
      → rule.enabled ≡ true
      → IsFirstKeyword lowered keyword rule.keywords
      → IsTaken lowered rule (some keyword)

data IsFound (lowered : String) (keywords : List String) : Option String → Type 0 where
  missing : All (λ k. occurs k lowered ≡ false) keywords → IsFound lowered keywords none
  found :
      {keyword : String}
      → IsFirstKeyword lowered keyword keywords
      → IsFound lowered keywords (some keyword)

IsFound-cons :
    (lowered k : String) (ks : List String) (o : Option String)
    → occurs k lowered ≡ false
    → IsFound lowered ks o
    → IsFound lowered (k ∷ ks) o
IsFound-cons lowered k ks none e (missing h) = missing (e, h)
IsFound-cons lowered k ks (some keyword) e (found h) = found (record {
  before = k ∷ h.before;
  after = h.after;
  listed = ap (λ xs. k ∷ xs) h.listed;
  there = h.there;
  others = (e, h.others);
})

first_keyword-IsFound :
    (lowered : String) (ks : List String) → IsFound lowered ks (first_keyword lowered ks)
unfolding first_keyword
first_keyword-IsFound lowered [] = missing tt
first_keyword-IsFound lowered (k ∷ ks) = elim (Bool-cases (occurs k lowered)) [
  | inl hit ↦
      rw hit (found (record { before = []; after = ks; listed = refl; there = hit; others = tt }))
  | inr other ↦ rw other (IsFound-cons lowered k ks _ other (first_keyword-IsFound lowered ks))
]

IsTaken-of :
    (lowered : String) (rule : AgentRule) (o : Option String)
    → rule.enabled ≡ true
    → IsFound lowered rule.keywords o
    → IsTaken lowered rule o
IsTaken-of lowered rule none e (missing h) = silent (absent h)
IsTaken-of lowered rule (some keyword) e (found h) = taken e h

IsTaken-if :
    (lowered : String) (rule : AgentRule) (b : Bool)
    → rule.enabled ≡ b
    → IsTaken lowered rule (if b then first_keyword lowered rule.keywords else none)
IsTaken-if lowered rule true on =
    IsTaken-of lowered rule _ on (first_keyword-IsFound lowered rule.keywords)
IsTaken-if lowered rule false off = silent (disabled off)

take_by-IsTaken :
    (lowered : String) (rule : AgentRule) → IsTaken lowered rule (take_by lowered rule)
unfolding take_by
take_by-IsTaken lowered rule = IsTaken-if lowered rule rule.enabled refl

IsRouted-cons :
    (default_agent lowered : String) (rule : AgentRule) (rules : List AgentRule)
    (d : AgentRoutingDecision)
    → IsSilent lowered rule
    → IsRouted default_agent lowered rules d
    → IsRouted default_agent lowered (rule ∷ rules) d
IsRouted-cons default_agent lowered rule rules d h (by_rule before after r k e hs on first is) =
    by_rule (rule ∷ before) after r k (ap (λ xs. rule ∷ xs) e) (h, hs) on first is
IsRouted-cons default_agent lowered rule rules d h (by_default hs is) = by_default (h, hs) is

route_step-IsRouted :
    (default_agent lowered : String) (rule : AgentRule) (rules : List AgentRule) (o : Option String)
    → IsTaken lowered rule o
    → IsRouted default_agent lowered rules (route_rules default_agent lowered rules)
    → IsRouted default_agent lowered (rule ∷ rules) (elim o [
      | none ↦ route_rules default_agent lowered rules
      | some keyword ↦ decision_of rule keyword
    ])
route_step-IsRouted default_agent lowered rule rules none (silent h) k =
    IsRouted-cons default_agent lowered rule rules _ h k
route_step-IsRouted default_agent lowered rule rules (some keyword) (taken on h) k =
    by_rule [] rules rule keyword refl tt on h refl

route_rules-IsRouted :
    (default_agent lowered : String) (rules : List AgentRule)
    → IsRouted default_agent lowered rules (route_rules default_agent lowered rules)
unfolding route_rules
route_rules-IsRouted default_agent lowered [] = by_default tt refl
route_rules-IsRouted default_agent lowered (rule ∷ rules) =
    route_step-IsRouted default_agent lowered rule rules (take_by lowered rule)
      (take_by-IsTaken lowered rule) (route_rules-IsRouted default_agent lowered rules)

-- The decision for a task and a command: a task with an assignee other than "auto" and "auto-agent"
-- keeps it.
pub data IsDecided (lower : String → String) (r : AgentRouter) (assignee command_text : String)
    (d : AgentRoutingDecision) : Type 0 where
  explicit :
      is_explicit (lower (strip assignee)) ≡ true
      → d ≡ explicit_decision assignee
      → IsDecided lower r assignee command_text d
  routed :
      is_explicit (lower (strip assignee)) ≡ false
      → IsRouted r.default_agent (lower command_text) r.rules d
      → IsDecided lower r assignee command_text d

-- A command of a task that names an assignee, other than "auto" and "auto-agent", goes to the
-- assignee as it is written. Any other command goes to the agent of a rule that is enabled, by the
-- first of its keywords that occurs in the command, where the rules before it are disabled or have
-- no keyword that occurs; or, where all rules are so, to the default agent.
pub route-IsDecided :
    (lower : String → String) (r : AgentRouter) (assignee command_text : String)
    → IsDecided lower r assignee command_text (route lower r assignee command_text)
unfolding route
route-IsDecided lower r assignee command_text =
    elim (Bool-cases (is_explicit (lower (strip assignee)))) [
      | inl named ↦ rw named (explicit named refl)
      | inr unnamed ↦
          rw unnamed
            (routed unnamed (route_rules-IsRouted r.default_agent (lower command_text) r.rules))
    ]
