-- ===== src/Scheduler/History.antt =====
-- Any sequence of calls of WorkflowScheduler's methods, and what it keeps.
use wherecode.Prelude.{String, ◌⊎◌, inl, Bool, Option, List, [], ◌∷◌}
use wherecode.Scheduler.State.{World, Scheduler}
use wherecode.Scheduler.Create.{
  NewRun, NewWorkItem, NewGateCheck, NewArtifact, persist_run, create_run, add_workitem,
  create_gate_check, create_artifact, create_run_artifact,
}
use wherecode.Scheduler.Items.{
  tick, start_workitem, complete_workitem, approve_workitem, update_workitem_dependencies,
  mark_workitem_skipped,
}
use wherecode.Scheduler.Discussion.{Prompt, mark_needs_discussion, resolve_discussion}
use wherecode.Scheduler.Control.{interrupt_run, restart_run}
use wherecode.Scheduler.Moves.{Evolves, Adds}
use wherecode.Scheduler.Rules.{Does-Quiet}
use wherecode.Scheduler.Quiet.{
  persist_run-Quiet, create_run-Quiet, create_gate_check-Quiet, create_artifact-Quiet,
  create_run_artifact-Quiet,
}
use wherecode.Scheduler.Steps.{
  start_workitem-Does, complete_workitem-Does, approve_workitem-Does,
  update_workitem_dependencies-Does, mark_workitem_skipped-Does, mark_needs_discussion-Does,
  resolve_discussion-Does, interrupt_run-Does, restart_run-Does,
}
use wherecode.Scheduler.Release.{tick-Does}
use wherecode.Scheduler.Add.{add_workitem-Evolves}

-- A call of a public method that changes the state.
pub data Call : Type 0 where
  touch_run : String → Call
  new_run : NewRun → Call
  add : String → NewWorkItem → Call
  gate : String → NewGateCheck → Call
  artifact : String → NewArtifact → Call
  run_artifact : String → NewArtifact → Call
  advance : String → Call
  start : String → Call
  complete : String → Bool → Call
  approve : String → String → Call
  rewire : String → List String → Call
  skip : String → String → Call
  ask : String → Prompt → Call
  answer : String → String → String → Option String → Call
  interrupt : String → Option String → Option String → Bool → Call
  restart : String → Option String → Option String → Bool → Call

module _ (w : World) where
  -- The object after a call. An exception leaves it as far as the method came.
  unfoldable pub perform : Call → Scheduler → Scheduler
  perform (touch_run r) s = (persist_run w r s).1
  perform (new_run n) s = (create_run w n s).1
  perform (add r n) s = (add_workitem w r n s).1
  perform (gate i n) s = (create_gate_check w i n s).1
  perform (artifact i n) s = (create_artifact w i n s).1
  perform (run_artifact r n) s = (create_run_artifact w r n s).1
  perform (advance r) s = (tick w r s).1
  perform (start i) s = (start_workitem w i s).1
  perform (complete i b) s = (complete_workitem w i b s).1
  perform (approve i by) s = (approve_workitem w i by s).1
  perform (rewire i ids) s = (update_workitem_dependencies w i ids s).1
  perform (skip i reason) s = (mark_workitem_skipped w i reason s).1
  perform (ask i p) s = (mark_needs_discussion w i p s).1
  perform (answer i d r k) s = (resolve_discussion w i d r k s).1
  perform (interrupt r by reason all) s = (interrupt_run w r by reason all s).1
  perform (restart r by reason copy) s = (restart_run w r by reason copy s).1

  unfoldable pub history : List Call → Scheduler → Scheduler
  history [] s = s
  history (c ∷ cs) s = history cs (perform c s)

  -- Every call moves items along the status diagram, or adds one new item.
  pub perform-Evolves :
      (c : Call) (s : Scheduler) → Evolves s (perform c s) ⊎ Adds w s (perform c s)
  unfolding perform
  perform-Evolves (touch_run r) s = inl ((Does-Quiet (persist_run-Quiet w r)).at s)
  perform-Evolves (new_run n) s = inl ((Does-Quiet (create_run-Quiet w n)).at s)
  perform-Evolves (add r n) s = add_workitem-Evolves w r n s
  perform-Evolves (gate i n) s = inl ((Does-Quiet (create_gate_check-Quiet w i n)).at s)
  perform-Evolves (artifact i n) s = inl ((Does-Quiet (create_artifact-Quiet w i n)).at s)
  perform-Evolves (run_artifact r n) s = inl ((Does-Quiet (create_run_artifact-Quiet w r n)).at s)
  perform-Evolves (advance r) s = inl ((tick-Does w r).at s)
  perform-Evolves (start i) s = inl ((start_workitem-Does w i).at s)
  perform-Evolves (complete i b) s = inl ((complete_workitem-Does w i b).at s)
  perform-Evolves (approve i by) s = inl ((approve_workitem-Does w i by).at s)
  perform-Evolves (rewire i ids) s = inl ((update_workitem_dependencies-Does w i ids).at s)
  perform-Evolves (skip i reason) s = inl ((mark_workitem_skipped-Does w i reason).at s)
  perform-Evolves (ask i p) s = inl ((mark_needs_discussion-Does w i p).at s)
  perform-Evolves (answer i d r k) s = inl ((resolve_discussion-Does w i d r k).at s)
  perform-Evolves (interrupt r by reason all) s = inl ((interrupt_run-Does w r by reason all).at s)
  perform-Evolves (restart r by reason copy) s = inl ((restart_run-Does w r by reason copy).at s)
