-- ===== src/Engine/Kept.antt =====
-- What the engine keeps of the scheduler, as a client of it: an invariant that the scheduler's methods
-- keep, and that says nothing of the metadata which the engine writes.
pub mod Methods
pub mod Bootstrap
use wherecode.Prelude.{
  String, ◌≡◌, refl, ◌==◌, Bool, true, false, Option, none, some, List, [], ◌∷◌, if◌then◌else◌,
}
use wherecode.Value.{Value}
use wherecode.Py.{Outcome, returned, reads, assign, ◌>>=◌, pure}
use wherecode.Py.Keeps.{
  Keeps, Keeps-pure, Keeps-reads, Keeps-if, Keeps-guard, Keeps-bind, keeps_rules,
}
use wherecode.Models.{WorkItem}
use wherecode.Scheduler.State.{World, Scheduler, Method, get_run, get_workitem, list_workitems}
use wherecode.Scheduler.Create.{
  NewWorkItem, NewGateCheck, NewArtifact, add_workitem, create_gate_check, create_artifact,
  create_run_artifact, persist_run,
}
use wherecode.Scheduler.Items.{
  tick, start_workitem, complete_workitem, update_workitem_dependencies, mark_workitem_skipped,
}
use wherecode.Scheduler.Discussion.{Prompt, mark_needs_discussion}
use wherecode.Scheduler.History.{
  Call, touch_run, add, gate, artifact, run_artifact, advance, start, complete, rewire, skip, ask,
  perform, history,
}
use wherecode.Engine.State.{note, note_run, plan_run, others}

-- The keys that the engine writes into the metadata of an item are others than that of the approver.
pub record IsKept (w : World) (I : Scheduler → Type 0) : Type 0 where
  pub call : (c : Call) (s : Scheduler) → I s → I (perform w c s)
  pub noted :
      (id key : String) (value : Value)
      → (key == "approved_by") ≡ false
      → (s : Scheduler) → I s
      → I (note id key value s).1
  pub planned : (id : String) (s : Scheduler) → I s → I (plan_run id s).1
  pub run_noted :
      (id key : String) (value : Value) (s : Scheduler) → I s → I (note_run id key value s).1

module _ {w : World} {I : Scheduler → Type 0} (k : IsKept w I) where
  abbrev pub Keeping : {A : Type 0} → Method A → Type 0
  Keeping m = Keeps I m

  pub note-Keeping :
      (id key : String) (value : Value)
      → (key == "approved_by") ≡ false
      → Keeping (note id key value)
  note-Keeping id key value other = record { at = k.noted id key value other }

  pub note_run-Keeping : (id key : String) (value : Value) → Keeping (note_run id key value)
  note_run-Keeping id key value = record { at = k.run_noted id key value }

  pub plan_run-Keeping : (id : String) → Keeping (plan_run id)
  plan_run-Keeping id = record { at = k.planned id }

  history-kept : (calls : List Call) (s : Scheduler) → I s → I (history w calls s)
  unfolding history
  history-kept [] s h = h
  history-kept (c ∷ calls) s h = history-kept calls (perform w c s) (k.call c s h)

  pub others-Keeping : (calls : List Call) → Keeping (others w calls)
  unfolding others
  others-Keeping calls = record { at = history-kept calls }

  pub get_run-Keeping : (id : String) → Keeping (get_run id)
  unfolding get_run
  get_run-Keeping id = Keeps-reads _

  pub get_workitem-Keeping : (id : String) → Keeping (get_workitem id)
  unfolding get_workitem
  get_workitem-Keeping id = Keeps-reads _

  pub list_workitems-Keeping : (id : String) → Keeping (list_workitems id)
  unfolding list_workitems get_run
  list_workitems-Keeping id = search keeps_rules

  pub ask-Keeping : (id : String) (prompt : Prompt) → Keeping (mark_needs_discussion w id prompt)
  unfolding perform
  ask-Keeping id prompt = record { at = k.call (ask id prompt) }

  pub add-Keeping : (id : String) (new : NewWorkItem) → Keeping (add_workitem w id new)
  unfolding perform
  add-Keeping id new = record { at = k.call (add id new) }

  pub skip-Keeping : (id reason : String) → Keeping (mark_workitem_skipped w id reason)
  unfolding perform
  skip-Keeping id reason = record { at = k.call (skip id reason) }

  pub rewire-Keeping :
      (id : String) (ids : List String) → Keeping (update_workitem_dependencies w id ids)
  unfolding perform
  rewire-Keeping id ids = record { at = k.call (rewire id ids) }

  pub gate-Keeping : (id : String) (new : NewGateCheck) → Keeping (create_gate_check w id new)
  unfolding perform
  gate-Keeping id new = record { at = k.call (gate id new) }

  pub artifact-Keeping : (id : String) (new : NewArtifact) → Keeping (create_artifact w id new)
  unfolding perform
  artifact-Keeping id new = record { at = k.call (artifact id new) }

  pub run_artifact-Keeping :
      (id : String) (new : NewArtifact) → Keeping (create_run_artifact w id new)
  unfolding perform
  run_artifact-Keeping id new = record { at = k.call (run_artifact id new) }

  pub persist_run-Keeping : (id : String) → Keeping (persist_run w id)
  unfolding perform
  persist_run-Keeping id = record { at = k.call (touch_run id) }

  pub tick-Keeping : (id : String) → Keeping (tick w id)
  unfolding perform
  tick-Keeping id = record { at = k.call (advance id) }

  pub start-Keeping : (id : String) → Keeping (start_workitem w id)
  unfolding perform
  start-Keeping id = record { at = k.call (start id) }

  pub complete-Keeping : (id : String) (success : Bool) → Keeping (complete_workitem w id success)
  unfolding perform
  complete-Keeping id success = record { at = k.call (complete id success) }

pub ruleset client_rules = (
  keeps_rules, others-Keeping, get_run-Keeping, get_workitem-Keeping, list_workitems-Keeping,
  ask-Keeping, add-Keeping, skip-Keeping, rewire-Keeping, gate-Keeping, artifact-Keeping,
  persist_run-Keeping, tick-Keeping, start-Keeping, complete-Keeping, note_run-Keeping,
  plan_run-Keeping, run_artifact-Keeping,
)
