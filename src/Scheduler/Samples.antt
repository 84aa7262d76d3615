-- ===== src/Scheduler/Samples.antt =====
-- A concrete world, concrete calls, and the theorems about the scheduler applied to them.
mod Waiting
mod Executing
use Prim.Native.String.count
use Prim.Native.String.{◌++◌, count}
use mathlib.Core.Option.{some-injective}
use text.Mathlib.TextLemmas.{append_cancel_left}
use wherecode.Value.{object, end}
use wherecode.Prelude.{
  or_else, ◌==◌, eq_iff, Bool-cases, inl, inr, ◌⊎◌, ◌↔◌, all, is_empty, is_some, keep, ℕ, zero, suc,
  String, ◌≡◌, ap, refl, Bool, true, false, Option, none, some, List, [], ◌∷◌, arith,
}
use wherecode.Dict.{get, put, modify}
use wherecode.Py.{returned, raised, invalid_model, ◌>>=◌, guard, assign, reads, pure}
use wherecode.Prelude.Sort.{sorted, insert_sorted}
use wherecode.Text.{strip, lstrip, rstrip}
use wherecode.Models.{
  workitem_status_value, WorkItem, WorkItemStatus, WorkflowRun, WorkflowRunStatus,
  RequirementStatus, SddStage, accepts_workitem, accepts_run, accepts_session, is_satisfied,
}
use wherecode.Scheduler.State.{
  World, IsUnique, Store, Scheduler, get_run, get_workitem, run_id_of, now_utc, fresh_id,
  modify_workitem, modify_run, persist_run_row, persist_workitem, persist_discussion,
  list_workitems, list_discussions,
}
use wherecode.Scheduler.Dependencies.{
  validate_dependency_ids, dependencies_satisfied, select_next, select_pending_ready_for_transition,
}
use wherecode.Scheduler.Status.{derive_run_status}
use wherecode.Scheduler.Items.{
  tick, start_workitem, complete_workitem, approve_workitem, active_run_of, refresh_run_status,
  release, release_all, ensure_started,
}
use wherecode.Scheduler.Control.{
  interrupt_run, interrupt_item, interrupt_items, skip_items, interrupt_metadata, interrupt_record,
}
use wherecode.Scheduler.Create.{NewRun, NewWorkItem, create_run, add_workitem}
use wherecode.Scheduler.Discussion.{
  Prompt, mark_needs_discussion, resolve_discussion, known_fingerprints, first_open,
  get_open_discussion, save_discussion, modify_discussion, new_session, refresh_run_of,
  fail_discussion, open_discussion, time_out_discussion, settle_discussion,
}
use wherecode.Scheduler.Lives.{Continues}
use wherecode.Scheduler.Moves.{Evolves, Adds}
use wherecode.Scheduler.History.{perform-Evolves}
use wherecode.Prelude.Select.{IsSelection}
use wherecode.Scheduler.Due.{IsDue, select_pending_ready_for_transition-IsSelection}
use wherecode.Scheduler.Metrics.{build_scheduler_metrics}
use wherecode.Scheduler.Counts.{items_with, build_scheduler_metrics-get}
use wherecode.Scheduler.Verdict.{derive_run_status-succeeded}
use wherecode.Scheduler.History.{
  Call, new_run, add, advance, start, complete, approve, ask, answer, interrupt, perform, history,
}
use wherecode.Scheduler.Invariant.{IsSound, history-IsSound, history-Continues}
use wherecode.Scheduler.Durable.{Agrees, IsDurable}
use wherecode.Scheduler.Durable.Methods.{history-IsDurable}
use wherecode.Scheduler.Canceled.{IsStopped}
use wherecode.Scheduler.Canceled.Methods.{history-IsStopped}

abbrev marks : ℕ → String
marks zero = ""
marks (suc n) = String.◌∷◌ "i" (marks n)

-- The n-th identifier ends in n marks, and time passes by one at each reading.
abbrev pub clockwork : World
clockwork = record { now = λ n. n; new_id = λ prefix n. prefix ++ marks n }

count-marks : (n : ℕ) → count (marks n) ≡ n
count-marks zero = count.nil
count-marks (suc n) = rw (count.cons, count-marks n) refl

marks-Injective : (m n : ℕ) → marks m ≡ marks n → m ≡ n
marks-Injective m n e = omega (arith, count-marks m, count-marks n, ap count e)

pub clockwork-IsUnique : IsUnique clockwork
clockwork-IsUnique prefix m n e =
    marks-Injective m n (append_cancel_left prefix (marks m) (marks n) e)

abbrev pub empty_store : Store
empty_store = record {
  workflow_run = [];
  workitem = [];
  discussion_session = [];
  gate_check = [];
  artifact = [];
}

-- WorkflowScheduler(store), on an empty store
abbrev pub empty_scheduler : Scheduler
empty_scheduler = record {
  runs = [];
  workitems = [];
  run_workitems = [];
  workitem_run = [];
  discussions = [];
  workitem_discussions = [];
  gate_checks = [];
  run_gate_checks = [];
  workitem_gate_checks = [];
  artifacts = [];
  run_artifacts = [];
  workitem_artifacts = [];
  state_store = some empty_store;
  clock_reads = 0;
  issued_ids = 0;
}

abbrev sample_run : NewRun
sample_run = record {
  project_id = "p";
  task_id = none;
  template_id = none;
  requested_by = some "ann";
  summary = none;
}

abbrev sample_item : List String → Bool → NewWorkItem
sample_item depends_on requires_approval = record {
  role = "coder";
  module_key = none;
  assignee_agent = "auto-agent";
  depends_on = some depends_on;
  priority = 3;
  requires_approval = requires_approval;
  discussion_budget = 2;
  discussion_timeout_seconds = 120;
  metadata = none;
}

abbrev sample_prompt : Prompt
sample_prompt = record {
  question = "which?";
  options = some ("a" ∷ "b" ∷ []);
  recommendation = none;
  impact = none;
  fingerprint = some "f";
}

-- A run with two items, the second of which waits for the first and for an approval.
abbrev first_calls : List Call
first_calls = new_run sample_run ∷ add "wfr" (sample_item [] false) ∷ []

abbrev later_calls : List Call
later_calls =
    add "wfr" (sample_item ("wii" ∷ []) true)
    ∷ advance "wfr"
    ∷ start "wii"
    ∷ ask "wii" sample_prompt
    ∷ answer "wii" "a" "chief" none
    ∷ complete "wii" true
    ∷ advance "wfr"
    ∷ approve "wiii" "bob"
    ∷ []

-- the item that the first calls add
abbrev first_item : WorkItem
first_item = record {
  id = "wii";
  workflow_run_id = "wfr";
  module_key = none;
  role = "coder";
  assignee_agent = "auto-agent";
  depends_on = [];
  status = WorkItemStatus.pending;
  priority = 3;
  discussion_budget = 2;
  discussion_used = 0;
  discussion_timeout_seconds = 120;
  loop_guard_fingerprint = none;
  requires_approval = false;
  started_at = none;
  finished_at = none;
  created_at = 2;
  updated_at = 3;
  metadata = [];
}

-- Every function that a run of a sample computes with.
program : Unit {0}
unfolding perform history ◌>>=◌ guard assign reads pure get put modify create_run add_workitem tick
    start_workitem mark_needs_discussion resolve_discussion complete_workitem approve_workitem
    interrupt_run get_run get_workitem run_id_of now_utc fresh_id modify_workitem modify_run
    persist_run_row persist_workitem persist_discussion list_workitems list_discussions
    validate_dependency_ids dependencies_satisfied select_next select_pending_ready_for_transition
    derive_run_status active_run_of refresh_run_status release release_all ensure_started
    known_fingerprints first_open get_open_discussion save_discussion modify_discussion new_session
    refresh_run_of fail_discussion open_discussion time_out_discussion settle_discussion
    interrupt_item interrupt_items skip_items interrupt_metadata accepts_workitem accepts_run
    accepts_session strip lstrip rstrip sorted insert_sorted
program = tt

abbrev first_state : Scheduler
first_state = history clockwork first_calls empty_scheduler

abbrev last_state : Scheduler
last_state = history clockwork later_calls first_state

abbrev status_of : Option WorkItem → Option WorkItemStatus
status_of none = none
status_of (some item) = some item.status

abbrev run_status_of : Option WorkflowRun → Option WorkflowRunStatus
run_status_of none = none
run_status_of (some run) = some run.status

first_state-item : get first_state.workitems "wii" ≡ some first_item
unfolding program
first_state-item = refl

last_state-statuses :
    (status_of (get last_state.workitems "wii") ≡ some WorkItemStatus.succeeded)
    × (status_of (get last_state.workitems "wiii") ≡ some WorkItemStatus.ready)
    × (run_status_of (get last_state.runs "wfr") ≡ some WorkflowRunStatus.running)
unfolding program
last_state-statuses = (refl, refl, refl)

empty_scheduler-IsSound : IsSound clockwork empty_scheduler
unfolding get
empty_scheduler-IsSound = record {
  keyed = λ id item found. ground arith;
  legal = λ id item found. ground arith;
  free = λ n later. refl;
}

nothing-Agrees : {A : Type 0} → Agrees {A = A} [] [] none
unfolding get
nothing-Agrees = record { row = λ j other. refl; absent = λ j gone. refl }

empty_scheduler-IsDurable : IsDurable empty_scheduler
unfolding get
empty_scheduler-IsDurable = record {
  runs = λ d e. rw (← some-injective empty_store d e) nothing-Agrees;
  workitems = λ d e. rw (← some-injective empty_store d e) nothing-Agrees;
  discussions = λ d e. rw (← some-injective empty_store d e) nothing-Agrees;
  gate_checks = λ d e. rw (← some-injective empty_store d e) nothing-Agrees;
  artifacts = λ d e. rw (← some-injective empty_store d e) nothing-Agrees;
}

first_state-IsSound : IsSound clockwork first_state
first_state-IsSound =
    history-IsSound clockwork first_calls empty_scheduler clockwork-IsUnique empty_scheduler-IsSound

-- The theorems at the sample.
history-IsSound_example : IsSound clockwork last_state
history-IsSound_example =
    history-IsSound clockwork later_calls first_state clockwork-IsUnique first_state-IsSound

history-Continues_example :
    (b : WorkItem) × (get last_state.workitems "wii" ≡ some b) × Continues first_item b
history-Continues_example =
    history-Continues clockwork later_calls first_state "wii" first_item clockwork-IsUnique
      first_state-IsSound first_state-item

history-IsDurable_example : IsDurable last_state
history-IsDurable_example =
    history-IsDurable clockwork later_calls first_state
      (history-IsDurable clockwork first_calls empty_scheduler empty_scheduler-IsDurable)

-- The run is interrupted after the first calls.
abbrev stopped_state : Scheduler
stopped_state = history clockwork (interrupt "wfr" (some "ann") none true ∷ []) first_state

abbrev stopped_run : WorkflowRun
stopped_run = record {
  id = "wfr";
  project_id = "p";
  task_id = none;
  template_id = none;
  status = WorkflowRunStatus.canceled;
  requirement_status = RequirementStatus.draft;
  clarification_rounds = 0;
  assumption_used = false;
  current_stage = SddStage.intent;
  next_action_hint = some "start_intent_stage";
  blocked_reason = none;
  accepted = false;
  requested_by = some "ann";
  summary = none;
  created_at = 0;
  updated_at = 8;
  metadata =
      ("sdd_stage_artifacts", object end)
      ∷ ("interrupt", interrupt_record (some "ann") none true ("wii" ∷ []))
      ∷ [];
}

stopped_state-IsStopped : IsStopped clockwork "wfr" stopped_state
unfolding program
stopped_state-IsStopped = record {
  run = stopped_run;
  found = refl;
  canceled = refl;
  free = λ n later. elim (Bool-cases ("wfr" == "wfr" ++ marks n)) [
    | inr other ↦ rw other refl
    | inl hit ↦
        absurd
          (omega (arith, clockwork-IsUnique "wfr" 0 n ((eq_iff "wfr" ("wfr" ++ marks n)).0 hit)))
  ];
}

history-IsStopped_example : IsStopped clockwork "wfr" (history clockwork later_calls stopped_state)
history-IsStopped_example =
    history-IsStopped clockwork later_calls stopped_state "wfr" clockwork-IsUnique
      stopped_state-IsStopped

perform-Evolves_example :
    Evolves first_state (perform clockwork (advance "wfr") first_state)
    ⊎ Adds clockwork first_state (perform clockwork (advance "wfr") first_state)
perform-Evolves_example = perform-Evolves clockwork (advance "wfr") first_state

first_state-known : is_some (get first_state.workitems "wii") ≡ true
unfolding program
first_state-known = refl

select_pending_ready_for_transition-IsSelection_example :
    (chosen : List String) × (select_pending_ready_for_transition ("wii" ∷ []) first_state.workitems
      ≡ returned chosen)
    × IsSelection (IsDue first_state.workitems) ("wii" ∷ []) chosen
select_pending_ready_for_transition-IsSelection_example =
    select_pending_ready_for_transition-IsSelection ("wii" ∷ []) first_state.workitems
      (first_state-known, tt)

abbrev finished_item : WorkItem
finished_item = record first_item { status = WorkItemStatus.skipped }

derive_run_status-succeeded_example :
    (derive_run_status (finished_item ∷ []) ≡ WorkflowRunStatus.succeeded)
    ↔ (is_empty (finished_item ∷ []) ≡ false)
      × (all (λ (item : WorkItem). is_satisfied item.status) (finished_item ∷ []) ≡ true)
derive_run_status-succeeded_example = derive_run_status-succeeded (finished_item ∷ [])

build_scheduler_metrics-get_example :
    or_else
      (get
        (build_scheduler_metrics [] (("wii", first_item) ∷ []) [] []).workitem_status_counts
        (workitem_status_value WorkItemStatus.pending))
      0
    ≡ items_with WorkItemStatus.pending (("wii", first_item) ∷ [])
build_scheduler_metrics-get_example =
    build_scheduler_metrics-get [] (("wii", first_item) ∷ []) [] [] WorkItemStatus.pending
