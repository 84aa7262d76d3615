-- ===== src/Scheduler/Quiet.antt =====
-- The actions that leave the table of work items alone.
use wherecode.Prelude.{String, ◌≤◌, ◌≡◌, refl, Bool, true, false, Option, arith}
use wherecode.Py.{Outcome, Error, pure, reads, guard, assign}
use wherecode.Models.{WorkflowRun, WorkItem, DiscussionSession, DiscussionStatus, is_canceled}
use wherecode.Scheduler.State.{
  World, Scheduler, get_run, get_workitem, run_id_of, now_utc, fresh_id, modify_run,
  persist_run_row, persist_workitem, persist_discussion, persist_gate, persist_artifact,
  list_workitems, list_discussions,
}
use wherecode.Scheduler.Rules.{Quiet, Quiet-bind, Quiet-if}
use wherecode.Scheduler.Create.{
  NewRun, NewGateCheck, NewArtifact, create_run, persist_run, create_gate_check, create_artifact,
  create_run_artifact,
}
use wherecode.Scheduler.Items.{refresh_run_status, active_run_of}
use wherecode.Scheduler.Discussion.{
  Prompt, get_open_discussion, save_discussion, new_session, refresh_run_of, modify_discussion,
}

module _ {A : Type 0} where
  pub pure-Quiet : (a : A) → Quiet (pure a)
  unfolding pure
  pure-Quiet a = record { table = λ s. refl; issued = λ s. omega arith }

  pub reads-Quiet : (f : Scheduler → Outcome A) → Quiet (reads f)
  unfolding reads
  reads-Quiet f = record { table = λ s. refl; issued = λ s. omega arith }

assign-Quiet :
    (f : Scheduler → Scheduler)
    → ((s : Scheduler) → (f s).workitems ≡ s.workitems)
    → ((s : Scheduler) → s.issued_ids ≤ (f s).issued_ids)
    → Quiet (assign f)
unfolding assign
assign-Quiet f table issued = record { table = table; issued = issued }

pub guard-Quiet : (b : Bool) (e : Error) → Quiet (guard b e)
unfolding guard
guard-Quiet true e = record { table = λ s. refl; issued = λ s. omega arith }
guard-Quiet false e = record { table = λ s. refl; issued = λ s. omega arith }

module _ (id : String) where
  pub get_run-Quiet : Quiet (get_run id)
  unfolding get_run
  get_run-Quiet = record { table = λ s. refl; issued = λ s. omega arith }

  pub get_workitem-Quiet : Quiet (get_workitem id)
  unfolding get_workitem
  get_workitem-Quiet = record { table = λ s. refl; issued = λ s. omega arith }

  pub run_id_of-Quiet : Quiet (run_id_of id)
  unfolding run_id_of
  run_id_of-Quiet = record { table = λ s. refl; issued = λ s. omega arith }

  pub modify_run-Quiet : (f : WorkflowRun → WorkflowRun) → Quiet (modify_run id f)
  unfolding modify_run
  modify_run-Quiet f = record { table = λ s. refl; issued = λ s. omega arith }

  pub modify_discussion-Quiet :
      (f : DiscussionSession → DiscussionSession) → Quiet (modify_discussion id f)
  unfolding modify_discussion
  modify_discussion-Quiet f = record { table = λ s. refl; issued = λ s. omega arith }

  pub persist_run_row-Quiet : Quiet (persist_run_row id)
  unfolding persist_run_row
  persist_run_row-Quiet = record { table = λ s. refl; issued = λ s. omega arith }

  pub persist_workitem-Quiet : Quiet (persist_workitem id)
  unfolding persist_workitem
  persist_workitem-Quiet = record { table = λ s. refl; issued = λ s. omega arith }

  pub persist_discussion-Quiet : Quiet (persist_discussion id)
  unfolding persist_discussion
  persist_discussion-Quiet = record { table = λ s. refl; issued = λ s. omega arith }

  pub persist_gate-Quiet : Quiet (persist_gate id)
  unfolding persist_gate
  persist_gate-Quiet = record { table = λ s. refl; issued = λ s. omega arith }

  pub persist_artifact-Quiet : Quiet (persist_artifact id)
  unfolding persist_artifact
  persist_artifact-Quiet = record { table = λ s. refl; issued = λ s. omega arith }

  pub list_workitems-Quiet : Quiet (list_workitems id)
  unfolding list_workitems
  list_workitems-Quiet = Quiet-bind get_run-Quiet λ _. reads-Quiet _

  pub list_discussions-Quiet : Quiet (list_discussions id)
  unfolding list_discussions
  list_discussions-Quiet = Quiet-bind get_workitem-Quiet λ _. reads-Quiet _

pub active_run_of-Quiet : (id : String) → Quiet (active_run_of id)
unfolding active_run_of
active_run_of-Quiet id = Quiet-bind (run_id_of-Quiet id) λ run_id.
    Quiet-bind (get_run-Quiet run_id) λ run. Quiet-bind (guard-Quiet _ _) λ _. pure-Quiet run

pub get_open_discussion-Quiet : (id : String) (d : Option String) → Quiet (get_open_discussion id d)
unfolding get_open_discussion
get_open_discussion-Quiet id d =
    Quiet-bind (list_discussions-Quiet id) λ _. Quiet-bind (guard-Quiet _ _) λ _. reads-Quiet _

pub save_discussion-Quiet : (session : DiscussionSession) → Quiet (save_discussion session)
unfolding save_discussion
save_discussion-Quiet session =
    Quiet-bind (assign-Quiet _ (λ s. refl) (λ s. omega arith))
      λ _. persist_discussion-Quiet session.id

module _ (w : World) where
  pub now_utc-Quiet : Quiet (now_utc w)
  unfolding now_utc
  now_utc-Quiet = record { table = λ s. refl; issued = λ s. omega arith }

  pub fresh_id-Quiet : (prefix : String) → Quiet (fresh_id w prefix)
  unfolding fresh_id
  fresh_id-Quiet prefix = record { table = λ s. refl; issued = λ s. omega arith }

  pub refresh_run_status-Quiet : (id : String) → Quiet (refresh_run_status w id)
  unfolding refresh_run_status
  refresh_run_status-Quiet id = Quiet-bind (get_run-Quiet id) λ run.
      Quiet-if (is_canceled run.status) (persist_run_row-Quiet id) (
        Quiet-bind (list_workitems-Quiet run.id) λ items.
          Quiet-bind now_utc-Quiet
            λ now. Quiet-bind (modify_run-Quiet id _) λ _. persist_run_row-Quiet id)

  pub refresh_run_of-Quiet : (id : String) → Quiet (refresh_run_of w id)
  unfolding refresh_run_of
  refresh_run_of-Quiet id =
      Quiet-bind (run_id_of-Quiet id)
        λ run_id. Quiet-bind (get_run-Quiet run_id) λ run. refresh_run_status-Quiet run.id

  pub new_session-Quiet :
      (item : WorkItem) (status : DiscussionStatus) (round : _) (prompt : Prompt)
      → Quiet (new_session w item status round prompt)
  unfolding new_session
  new_session-Quiet item status round prompt = Quiet-bind (fresh_id-Quiet "disc") λ id.
      Quiet-bind now_utc-Quiet λ created_at.
        Quiet-bind now_utc-Quiet λ updated_at. Quiet-bind (guard-Quiet _ _) λ _. pure-Quiet _

  pub persist_run-Quiet : (id : String) → Quiet (persist_run w id)
  unfolding persist_run
  persist_run-Quiet id = Quiet-bind (get_run-Quiet id) λ _. Quiet-bind now_utc-Quiet λ now.
      Quiet-bind (modify_run-Quiet id _)
        λ _. Quiet-bind (persist_run_row-Quiet id) λ _. get_run-Quiet id

  pub create_run-Quiet : (new : NewRun) → Quiet (create_run w new)
  unfolding create_run
  create_run-Quiet new = Quiet-bind now_utc-Quiet λ created_at.
      Quiet-bind now_utc-Quiet λ updated_at. Quiet-bind (fresh_id-Quiet "wfr") λ id.
        Quiet-bind (guard-Quiet _ _) λ _.
          Quiet-bind (assign-Quiet _ (λ s. refl) (λ s. omega arith))
            λ _. Quiet-bind (persist_run_row-Quiet id) λ _. pure-Quiet _

  pub create_gate_check-Quiet :
      (id : String) (new : NewGateCheck) → Quiet (create_gate_check w id new)
  unfolding create_gate_check
  create_gate_check-Quiet id new = Quiet-bind (get_workitem-Quiet id) λ item.
      Quiet-bind (reads-Quiet _) λ earlier. Quiet-bind (fresh_id-Quiet "gate") λ gate_id.
        Quiet-bind now_utc-Quiet λ created_at. Quiet-bind (guard-Quiet _ _) λ _.
          Quiet-bind (assign-Quiet _ (λ s. refl) (λ s. omega arith))
            λ _. Quiet-bind (persist_gate-Quiet gate_id) λ _. pure-Quiet _

  pub create_artifact-Quiet : (id : String) (new : NewArtifact) → Quiet (create_artifact w id new)
  unfolding create_artifact
  create_artifact-Quiet id new = Quiet-bind (get_workitem-Quiet id) λ item.
      Quiet-bind (fresh_id-Quiet "art") λ artifact_id. Quiet-bind now_utc-Quiet λ created_at.
        Quiet-bind (guard-Quiet _ _) λ _.
          Quiet-bind (assign-Quiet _ (λ s. refl) (λ s. omega arith))
            λ _. Quiet-bind (persist_artifact-Quiet artifact_id) λ _. pure-Quiet _

  pub create_run_artifact-Quiet :
      (id : String) (new : NewArtifact) → Quiet (create_run_artifact w id new)
  unfolding create_run_artifact
  create_run_artifact-Quiet id new = Quiet-bind (get_run-Quiet id) λ _.
      Quiet-bind (fresh_id-Quiet "art") λ artifact_id. Quiet-bind now_utc-Quiet λ created_at.
        Quiet-bind (guard-Quiet _ _) λ _.
          Quiet-bind (assign-Quiet _ (λ s. refl) (λ s. omega arith))
            λ _. Quiet-bind (persist_artifact-Quiet artifact_id) λ _. pure-Quiet _
