-- ===== src/Scheduler/Steps.antt =====
-- Every method of WorkflowScheduler but `add_workitem` and `tick` makes only moves of the status
-- diagram, also where it raises half-way.
use wherecode.Prelude.{
  ℕ, suc, ◌≤◌, ◌+◌, ltb, String, ◌≡◌, Bool, true, false, Option, none, some, List, [], ◌∷◌, arith,
}
use wherecode.Dict.{put, get-put_self, get-put}
use wherecode.Value.{Metadata, text, boolean, array, text_items}
use wherecode.Py.{◌>>=◌, bind_assoc}
use wherecode.Models.{
  WorkItem, WorkItemStatus, DiscussionSession, is_terminal, is_finished, is_status, is_executable,
}
use wherecode.Scheduler.State.{World, Method}
use wherecode.Scheduler.Items.{
  ensure_started, start_workitem, complete_workitem, approve_workitem, update_workitem_dependencies,
  mark_workitem_skipped,
}
use wherecode.Scheduler.Discussion.{
  Prompt, is_repeated, seconds, with_fingerprint, fail_discussion, open_discussion,
  mark_needs_discussion, time_out_discussion, settle_discussion, resolve_discussion,
}
use wherecode.Scheduler.Control.{
  interrupt_metadata-approved, interrupt_item, interrupt_items, skip_items, interrupt_run,
  restart_run,
}
use wherecode.Scheduler.Moves.{Moves}
use wherecode.Scheduler.Rules.{
  Does, DoesAt, Does-Quiet, DoesAt-Does, DoesAt-if, Does-if, Does-bind, DoesAt-Quiet, DoesAt-write,
  DoesAt-guard, Does-get,
}
use wherecode.Scheduler.Quiet.{
  pure-Quiet, guard-Quiet, reads-Quiet, get_run-Quiet, get_workitem-Quiet, run_id_of-Quiet,
  modify_run-Quiet, modify_discussion-Quiet, persist_run_row-Quiet, persist_workitem-Quiet,
  persist_discussion-Quiet, list_workitems-Quiet, active_run_of-Quiet, get_open_discussion-Quiet,
  save_discussion-Quiet, now_utc-Quiet, refresh_run_status-Quiet, refresh_run_of-Quiet,
  new_session-Quiet, create_run-Quiet,
}

started-Moves : (n : ℕ) (item : WorkItem) → Moves item (record item { started_at = some n })
started-Moves n item = ground arith

module _ (w : World) (id : String) {B : Type 0} where
  -- `ensure_started` gives the item a start time, or leaves it alone.
  DoesAt-started :
      (item : WorkItem) (started : Option ℕ) {f : Unit {0} → Method B}
      → ((t : Option ℕ) (u : Unit {0}) → DoesAt id (record item { started_at = t }) (f u))
      → DoesAt id item (ensure_started w id started >>= f)
  unfolding ensure_started
  DoesAt-started item none {f} k =
      rw bind_assoc
        (DoesAt-Quiet (now_utc-Quiet w) λ n. DoesAt-write _ (started-Moves n item) (k (some n)))
  DoesAt-started item (some n) k = DoesAt-Quiet (pure-Quiet tt) (k item.started_at)

module _ (w : World) (id : String) where
  pub start_workitem-Does : Does (start_workitem w id)
  unfolding start_workitem
  start_workitem-Does = Does-get λ item. DoesAt-Quiet (active_run_of-Quiet id) λ run.
      DoesAt-guard _ _ λ _ is_ready. DoesAt-Quiet (now_utc-Quiet w) λ started.
        DoesAt-Quiet (now_utc-Quiet w) λ updated. DoesAt-write _ (ground arith) λ _.
          DoesAt-Quiet (persist_workitem-Quiet id) λ _.
            DoesAt-Quiet (refresh_run_status-Quiet w run.id)
              λ _. DoesAt-Does (Does-Quiet (get_workitem-Quiet id))

  pub approve_workitem-Does : (by : String) → Does (approve_workitem w id by)
  unfolding approve_workitem
  approve_workitem-Does by = Does-get λ item. DoesAt-Quiet (active_run_of-Quiet id) λ run.
      DoesAt-guard _ _ λ _ needs_approval. DoesAt-guard _ _ λ _ is_waiting.
        DoesAt-Quiet (now_utc-Quiet w) λ updated.
          DoesAt-write _ (ground (arith, get-put_self item.metadata "approved_by" (text by))) λ _.
            DoesAt-Quiet (persist_workitem-Quiet id) λ _.
              DoesAt-Quiet (refresh_run_status-Quiet w run.id)
                λ _. DoesAt-Does (Does-Quiet (get_workitem-Quiet id))

  pub update_workitem_dependencies-Does :
      (ids : List String) → Does (update_workitem_dependencies w id ids)
  unfolding update_workitem_dependencies
  update_workitem_dependencies-Does ids = Does-get λ item.
      DoesAt-Quiet (active_run_of-Quiet id) λ run. DoesAt-Quiet (reads-Quiet _) λ _.
        DoesAt-Quiet (reads-Quiet _) λ normalized. DoesAt-Quiet (now_utc-Quiet w) λ updated.
          DoesAt-write _ (ground arith) λ _. DoesAt-Quiet (persist_workitem-Quiet id) λ _.
            DoesAt-Quiet (refresh_run_status-Quiet w run.id)
              λ _. DoesAt-Does (Does-Quiet (get_workitem-Quiet id))

  pub complete_workitem-Does : (success : Bool) → Does (complete_workitem w id success)
  unfolding complete_workitem
  complete_workitem-Does success = Does-get λ item. DoesAt-Quiet (active_run_of-Quiet id) λ run.
      DoesAt-guard _ _ λ _ is_executing. DoesAt-started w id item item.started_at λ t _.
        DoesAt-Quiet (now_utc-Quiet w) λ finished. DoesAt-Quiet (now_utc-Quiet w) λ updated.
          DoesAt-write _ (ground arith) λ _. DoesAt-Quiet (persist_workitem-Quiet id) λ _.
            DoesAt-Quiet (refresh_run_status-Quiet w run.id)
              λ _. DoesAt-Does (Does-Quiet (get_workitem-Quiet id))

  pub mark_workitem_skipped-Does : (reason : String) → Does (mark_workitem_skipped w id reason)
  unfolding mark_workitem_skipped
  mark_workitem_skipped-Does reason = Does-get λ item.
      DoesAt-if (is_terminal item.status) (λ _. DoesAt-Does (Does-Quiet (pure-Quiet item)))
        λ is_live. DoesAt-started w id item item.started_at λ t _.
          DoesAt-Quiet (now_utc-Quiet w) λ finished. DoesAt-Quiet (now_utc-Quiet w) λ updated.
            DoesAt-write _
              (ground (arith, get-put item.metadata "skip_reason" "approved_by" (text reason)))
              λ _. DoesAt-Quiet (persist_workitem-Quiet id) λ _.
                DoesAt-Quiet (run_id_of-Quiet id) λ run_id.
                  DoesAt-Quiet (get_run-Quiet run_id) λ run.
                    DoesAt-Quiet (refresh_run_status-Quiet w run.id)
                      λ _. DoesAt-Does (Does-Quiet (get_workitem-Quiet id))

  -- the tail of both ways to end `mark_needs_discussion`
  fail_discussion-DoesAt :
      (item : WorkItem) (problem : String) (prompt : Prompt)
      → is_executable item.status ≡ true
      → DoesAt id item (fail_discussion w item id problem prompt)
  unfolding fail_discussion
  fail_discussion-DoesAt item problem prompt h = DoesAt-Quiet (now_utc-Quiet w) λ now.
      DoesAt-write _
        (ground (arith, get-put item.metadata "discussion_error" "approved_by" (text problem)))
        λ _. DoesAt-Quiet (persist_workitem-Quiet id) λ _.
          DoesAt-Quiet (new_session-Quiet w item _ _ prompt) λ session.
            DoesAt-Quiet (save_discussion-Quiet session) λ _.
              DoesAt-Quiet (refresh_run_of-Quiet w id)
                λ _. DoesAt-Does (Does-Quiet (pure-Quiet session))

  open_discussion-DoesAt :
      (item : WorkItem) (fingerprints : List String) (prompt : Prompt)
      → is_executable item.status ≡ true
      → suc item.discussion_used ≤ item.discussion_budget
      → DoesAt id item (open_discussion w item id fingerprints prompt)
  unfolding open_discussion
  open_discussion-DoesAt item fingerprints prompt h room = DoesAt-Quiet (now_utc-Quiet w) λ now.
      DoesAt-write _
        (ground (
          arith,
          get-put item.metadata "discussion_fingerprints" "approved_by"
              (array (text_items (with_fingerprint prompt.fingerprint fingerprints))),
        ))
        λ _. DoesAt-Quiet (persist_workitem-Quiet id) λ _.
          DoesAt-Quiet (new_session-Quiet w item _ _ prompt) λ session.
            DoesAt-Quiet (save_discussion-Quiet session) λ _.
              DoesAt-Quiet (refresh_run_of-Quiet w id)
                λ _. DoesAt-Does (Does-Quiet (pure-Quiet session))

  pub mark_needs_discussion-Does : (prompt : Prompt) → Does (mark_needs_discussion w id prompt)
  unfolding mark_needs_discussion
  mark_needs_discussion-Does prompt = Does-get λ item. DoesAt-guard _ _ λ _ is_executing.
      DoesAt-if (ltb item.discussion_budget (suc item.discussion_used))
        (λ _. fail_discussion-DoesAt item _ prompt is_executing)
        λ room. DoesAt-Quiet (reads-Quiet _) λ fingerprints.
          DoesAt-if (is_repeated prompt.fingerprint fingerprints)
            (λ _. fail_discussion-DoesAt item _ prompt is_executing)
            λ _. open_discussion-DoesAt item fingerprints prompt is_executing (ground arith)

  time_out_discussion-DoesAt :
      (item : WorkItem) (session : DiscussionSession) (now : ℕ)
      → is_status item.status WorkItemStatus.needs_discussion ≡ true
      → DoesAt id item (time_out_discussion w id session now)
  unfolding time_out_discussion
  time_out_discussion-DoesAt item session now h =
      DoesAt-Quiet (modify_discussion-Quiet session.id _) λ _.
        DoesAt-write _
          (ground (
            arith,
            get-put item.metadata "discussion_error" "approved_by" (text "discussion_timeout"),
          ))
          λ _. DoesAt-Quiet (persist_discussion-Quiet session.id) λ _.
            DoesAt-Quiet (persist_workitem-Quiet id) λ _.
              DoesAt-Quiet (refresh_run_of-Quiet w id) λ _. DoesAt-Does (Does-Quiet (pure-Quiet _))

  settle_discussion-DoesAt :
      (item : WorkItem) (session : DiscussionSession) (now : ℕ) (decision role : String)
      → is_status item.status WorkItemStatus.needs_discussion ≡ true
      → DoesAt id item (settle_discussion w id session now decision role)
  unfolding settle_discussion
  settle_discussion-DoesAt item session now decision role h =
      let m : Metadata = put item.metadata "discussion_decision" (text decision) in
      DoesAt-Quiet (modify_discussion-Quiet session.id _) λ _.
        DoesAt-write _
          (ground (
            arith,
            get-put item.metadata "discussion_decision" "approved_by" (text decision),
            get-put m "discussion_resolved_by" "approved_by" (text role),
            get-put (put m "discussion_resolved_by" (text role)) "discussion_resolved" "approved_by"
                (boolean true),
          ))
          λ _. DoesAt-Quiet (persist_discussion-Quiet session.id) λ _.
            DoesAt-Quiet (persist_workitem-Quiet id) λ _.
              DoesAt-Quiet (refresh_run_of-Quiet w id) λ _. DoesAt-Does (Does-Quiet (pure-Quiet _))

  pub resolve_discussion-Does :
      (decision role : String) (discussion_id : Option String)
      → Does (resolve_discussion w id decision role discussion_id)
  unfolding resolve_discussion
  resolve_discussion-Does decision role discussion_id = Does-get λ item.
      DoesAt-guard _ _ λ _ is_waiting.
        DoesAt-Quiet (get_open_discussion-Quiet id discussion_id) λ session.
          DoesAt-Quiet (now_utc-Quiet w) λ now.
            DoesAt-if (ltb (session.created_at + seconds item.discussion_timeout_seconds) now)
              (λ _. time_out_discussion-DoesAt item session now is_waiting)
              (λ _. settle_discussion-DoesAt item session now decision role is_waiting)

module _ (w : World) where
  interrupt_item-Does :
      (item : WorkItem) (requested_by reason : Option String) {rest : Method (List String)}
      → Does rest
      → Does (interrupt_item w requested_by reason item rest)
  unfolding interrupt_item
  interrupt_item-Does item requested_by reason {rest} d = Does-get λ live.
      DoesAt-if (is_terminal live.status) (λ _. DoesAt-Does d)
        λ is_live. DoesAt-started w item.id live live.started_at λ t _.
          DoesAt-Quiet (now_utc-Quiet w) λ finished. DoesAt-Quiet (now_utc-Quiet w) λ updated.
            DoesAt-write _
              (ground (arith, interrupt_metadata-approved live.metadata requested_by reason))
              λ _.
                DoesAt-Quiet (persist_workitem-Quiet item.id)
                  λ _. DoesAt-Does (Does-bind d λ skipped. Does-Quiet (pure-Quiet _))

  interrupt_items-Does :
      (requested_by reason : Option String) (items : List WorkItem)
      → Does (interrupt_items w requested_by reason items)
  unfolding interrupt_items
  interrupt_items-Does requested_by reason [] = Does-Quiet (pure-Quiet [])
  interrupt_items-Does requested_by reason (item ∷ items) =
      interrupt_item-Does item requested_by reason (interrupt_items-Does requested_by reason items)

  skip_items-Does :
      (all : Bool) (run_id : String) (requested_by reason : Option String)
      → Does (skip_items w all run_id requested_by reason)
  unfolding skip_items
  skip_items-Does false run_id requested_by reason = Does-Quiet (pure-Quiet [])
  skip_items-Does true run_id requested_by reason =
      Does-bind (Does-Quiet (list_workitems-Quiet run_id))
        (interrupt_items-Does requested_by reason)

  pub interrupt_run-Does :
      (run_id : String) (requested_by reason : Option String) (all : Bool)
      → Does (interrupt_run w run_id requested_by reason all)
  unfolding interrupt_run
  interrupt_run-Does run_id requested_by reason all =
      Does-bind (Does-Quiet (get_run-Quiet run_id)) λ run.
        Does-if (is_finished run.status) (Does-Quiet (pure-Quiet _)) (
          Does-bind (skip_items-Does all run_id requested_by reason) λ skipped.
            Does-bind (Does-Quiet (now_utc-Quiet w)) λ now.
              Does-bind (Does-Quiet (modify_run-Quiet run_id _)) λ _.
                Does-bind (Does-Quiet (persist_run_row-Quiet run_id))
                  λ _. Does-Quiet (pure-Quiet _))

  pub restart_run-Does :
      (run_id : String) (requested_by reason : Option String) (copy : Bool)
      → Does (restart_run w run_id requested_by reason copy)
  unfolding restart_run
  restart_run-Does run_id requested_by reason copy =
      Does-bind (Does-Quiet (get_run-Quiet run_id)) λ source.
        Does-bind (Does-Quiet (guard-Quiet _ _)) λ _.
          Does-bind (Does-Quiet (create_run-Quiet w _)) λ created.
            Does-bind (Does-Quiet (modify_run-Quiet created.id _)) λ _.
              Does-bind (Does-Quiet (persist_run_row-Quiet created.id)) λ _.
                Does-bind (Does-Quiet (get_run-Quiet created.id))
                  λ restarted. Does-Quiet (pure-Quiet _)
