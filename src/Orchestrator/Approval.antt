-- ===== src/Orchestrator/Approval.antt =====
-- Commands that require an approval: a command that no longer waits for one was approved. Here are
-- the rules for the actions; the execution of a command follows in the module below.
pub mod Execution
use wherecode.Prelude.{
  ℕ, String, ◌≡◌, refl, sym, ap, ◌∙◌, ◌⊎◌, inl, inr, ◌==◌, eq_iff, Bool, true, false, Option, none,
  some, List, [], ◌∷◌, arith, is_some, Bool-cases, Option-cases, if◌then◌else◌,
}
use mathlib.Core.Option.{some-injective}
use wherecode.Dict.{Dict, get, modify, get-modify, get-modify_self}
use wherecode.Value.{Metadata}
use wherecode.Py.{Outcome, returned, raised, ◌>>=◌, pure, reads, assign, resume}
use wherecode.Py.Keeps.{
  Keeps, Keeps-pure, Keeps-reads, Keeps-if, Keeps-guard, Keeps-bind, Keeps-assign, keeps_rules,
}
use wherecode.Models.Hierarchy.{Command, Task, Project, is_at_rest, is_waiting}
use wherecode.Orchestrator.State.{
  Setting, Orchestrator, Action, Attempt, ActionExecutor, failed_with, answered, persist_project,
  persist_task, persist_command, modify_project, modify_task, modify_command, read_clock, issue_id,
}
use wherecode.Orchestrator.Refresh.{
  derive_task_status, recompute_found, recompute_project_active_count, refresh_found,
  refresh_task_and_project_state,
}
use wherecode.Orchestrator.Advance.{
  settle, apply_mock_execution, apply_attempt, complete_command_execution, started_or_now,
  finish_command, begin_command, continue_command, advance_found, advance_command, advance_each,
  advance_task_commands, advance_all_commands, mock_failed, mock_completed, attempt_failed,
  answered_success, answered_failure,
}

-- A command that requires approval and does not wait for it has an approver.
abbrev pub IsCleared : Command → Type 0
IsCleared c =
    c.requires_approval ≡ true → is_waiting c.status ≡ false → is_some c.approved_by ≡ true

-- Each command stands under its own identifier and is cleared.
pub record IsSafe (s : Orchestrator) : Type 0 where
  pub keyed : (id : String) (c : Command) → get s.commands id ≡ some c → c.id ≡ id
  pub cleared : (id : String) (c : Command) → get s.commands id ≡ some c → IsCleared c

abbrev pub Keeping : {A : Type 0} → Action A → Type 0
Keeping m = Keeps IsSafe m

pub assign-Keeping :
    (f : Orchestrator → Orchestrator)
    → ((s : Orchestrator) → (f s).commands ≡ s.commands)
    → Keeping (assign f)
assign-Keeping f same = Keeps-assign f λ s h. record {
  keyed = λ id c found. h.keyed id c (rw (same s) at found);
  cleared = λ id c found. h.cleared id c (rw (same s) at found);
}

pub persist_project-Keeping : (id : String) → Keeping (persist_project id)
unfolding persist_project
persist_project-Keeping id = assign-Keeping _ (λ s. refl)

pub persist_task-Keeping : (id : String) → Keeping (persist_task id)
unfolding persist_task
persist_task-Keeping id = assign-Keeping _ (λ s. refl)

pub persist_command-Keeping : (id : String) → Keeping (persist_command id)
unfolding persist_command
persist_command-Keeping id = assign-Keeping _ (λ s. refl)

pub modify_project-Keeping : (id : String) (f : Project → Project) → Keeping (modify_project id f)
unfolding modify_project
modify_project-Keeping id f = assign-Keeping _ (λ s. refl)

pub modify_task-Keeping : (id : String) (f : Task → Task) → Keeping (modify_task id f)
unfolding modify_task
modify_task-Keeping id f = assign-Keeping _ (λ s. refl)

pub read_clock-Keeping : (w : Setting) → Keeping (read_clock w)
unfolding read_clock
read_clock-Keeping w = record { at = λ s h. record { keyed = h.keyed; cleared = h.cleared } }

pub issue_id-Keeping : (w : Setting) (prefix : String) → Keeping (issue_id w prefix)
unfolding issue_id
issue_id-Keeping w prefix = record { at = λ s h. record { keyed = h.keyed; cleared = h.cleared } }

modify-cases :
    (d : Dict Command) (k id : String) (f : Command → Command) (c : Command)
    → get (modify d k f) id ≡ some c
    → ((a : Command) × (k ≡ id) × (get d k ≡ some a) × (c ≡ f a)) ⊎ (get d id ≡ some c)
modify-cases d k id f c found = elim (Bool-cases (k == id)) [
  | inr other ↦ inr (rw (get-modify, other) at found)
  | inl hit ↦
      let p : k ≡ id = (eq_iff k id).0 hit in
      elim (Option-cases (get d k)) [
        | inl e ↦ ground (arith, get-modify d k id f, hit, e, p, found)
        | inr (a, e) ↦ inl (
          a,
          p,
          e,
          some-injective c (f a)
              (sym found ∙ ap (get (modify d k f)) (sym p) ∙ get-modify_self d k f e),
        )
      ]
]

-- A change of the command under a key, where the command that is there is known.
IsSafe-modify :
    (s : Orchestrator) (k : String) (f : Command → Command)
    → ((c : Command) → get s.commands k ≡ some c → ((f c).id ≡ c.id) × IsCleared (f c))
    → IsSafe s
    → IsSafe (record s { commands = modify s.commands k f })
IsSafe-modify s k f good h = record {
  keyed = λ id c found. elim (modify-cases s.commands k id f c found) [
    | inr old ↦ h.keyed id c old
    | inl (a, p, e, q) ↦ ap (λ (x : Command). x.id) q ∙ (good a e).0 ∙ h.keyed k a e ∙ p
  ];
  cleared = λ id c found. elim (modify-cases s.commands k id f c found) [
    | inr old ↦ h.cleared id c old
    | inl (a, p, e, q) ↦ rw q (good a e).1
  ];
}

pub modify_command-Keeping :
    (k : String) (f : Command → Command)
    → ((c : Command) → (f c).id ≡ c.id)
    → ((c : Command) → IsCleared c → IsCleared (f c))
    → Keeping (modify_command k f)
unfolding modify_command assign
modify_command-Keeping k f same good = record {
  at = λ s h. IsSafe-modify s k f (λ c e. (same c, good c (h.cleared k c e))) h;
}

-- From a safe state in which the command stands in the table, the action ends in a safe state.
pub record Knows (command : Command) {A : Type 0} (m : Action A) : Type 0 where
  pub at : (s : Orchestrator) → IsSafe s → get s.commands command.id ≡ some command → IsSafe (m s).1

module _ {command : Command} {A : Type 0} where
  pub Knows-Keeping : {m : Action A} → Keeping m → Knows command m
  Knows-Keeping k = record { at = λ s h e. k.at s h }

  pub Knows-if :
      (b : Bool) {m n : Action A}
      → Knows command m
      → Knows command n
      → Knows command (if b then m else n)
  Knows-if true k l = k
  Knows-if false k l = l

  pub Knows-clock :
      (w : Setting) {k : ℕ → Action A}
      → ((n : ℕ) → Knows command (k n))
      → Knows command (read_clock w >>= k)
  unfolding ◌>>=◌ read_clock
  Knows-clock w l = record {
    at =
        λ s h e. (l (w.now s.clock_reads)).at _ (record { keyed = h.keyed; cleared = h.cleared }) e;
  }

module _ {A B : Type 0} where
  resume-IsSafe :
      (r : Outcome A) (f : A → Action B) (t : Orchestrator)
      → IsSafe t
      → ((a : A) → Keeping (f a))
      → IsSafe (resume r f t).1
  resume-IsSafe (returned a) f t h k = (k a).at t h
  resume-IsSafe (raised e) f t h k = h

module _ {command : Command} {A B : Type 0} where
  pub Knows-bind :
      {m : Action A} {f : A → Action B}
      → Knows command m
      → ((a : A) → Keeping (f a))
      → Knows command (m >>= f)
  unfolding ◌>>=◌
  Knows-bind {m} {f} k l = record { at = λ s h e. resume-IsSafe (m s).0 f (m s).1 (k.at s h e) l }

  resume-Knows :
      (r : Outcome A) (f : A → Action B) (t : Orchestrator)
      → IsSafe t
      → get t.commands command.id ≡ some command
      → ((a : A) → Knows command (f a))
      → IsSafe (resume r f t).1
  resume-Knows (returned a) f t h e k = (k a).at t h e
  resume-Knows (raised x) f t h e k = h

  pub Knows-reads :
      (g : Orchestrator → Outcome A) {f : A → Action B}
      → ((a : A) → Knows command (f a))
      → Knows command (reads g >>= f)
  unfolding ◌>>=◌ reads
  Knows-reads g {f} l = record { at = λ s h e. resume-Knows (g s) f s h e l }

pub Knows-modify :
    (command : Command) (f : Command → Command)
    → (f command).id ≡ command.id
    → IsCleared (f command)
    → Knows command (modify_command command.id f)
unfolding modify_command assign
Knows-modify command f same good = record {
  at = λ s h e.
      IsSafe-modify s command.id f
        (λ c found.
          let q : command ≡ c = some-injective command c (sym e ∙ found) in rw (← q) (same, good))
        h;
}

pub ruleset safe_rules = (
  keeps_rules, persist_project-Keeping, persist_task-Keeping, persist_command-Keeping,
  modify_project-Keeping, modify_task-Keeping, read_clock-Keeping, issue_id-Keeping,
)

derive_task_status-Keeping : (id : String) → Keeping (derive_task_status id)
unfolding derive_task_status
derive_task_status-Keeping id = search safe_rules

module _ (w : Setting) where
  recompute_found-Keeping : (id : String) (p : Option Project) → Keeping (recompute_found w id p)
  unfolding recompute_found
  recompute_found-Keeping id none = Keeps-pure tt
  recompute_found-Keeping id (some p) = search safe_rules depth 10

  recompute_project_active_count-Keeping :
      (id : String) → Keeping (recompute_project_active_count w id)
  unfolding recompute_project_active_count
  recompute_project_active_count-Keeping id = search (safe_rules, recompute_found-Keeping) depth 10

  refresh_found-Keeping : (id : String) (t : Option Task) → Keeping (refresh_found w id t)
  unfolding refresh_found
  refresh_found-Keeping id none = Keeps-pure tt
  refresh_found-Keeping id (some t) =
      search (safe_rules, derive_task_status-Keeping, recompute_project_active_count-Keeping) depth
        12

  pub refresh_task_and_project_state-Keeping :
      (id : String) → Keeping (refresh_task_and_project_state w id)
  unfolding refresh_task_and_project_state
  refresh_task_and_project_state-Keeping id = search (safe_rules, refresh_found-Keeping) depth 10
