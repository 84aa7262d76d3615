-- ===== src/Scheduler/Items.antt =====
-- The methods of WorkflowScheduler that move a work item through its life.
use wherecode.Prelude.{
  ℕ, String, Bool, not, ◌&&◌, ◌||◌, Option, none, some, List, [], ◌∷◌, ltb, leb, nat_eq, keep, map,
  length, if◌then◌else◌,
}
use wherecode.Prelude.Sort.{sorted}
use wherecode.Dict.{put, get_list}
use wherecode.Value.{text}
use wherecode.Py.{
  ◌>>=◌, ◌>>◌, pure, reads, guard, run_canceled, not_ready, not_running, no_approval_needed,
  not_waiting_approval,
}
use wherecode.Models.{
  WorkflowRun, WorkItem, WorkItemStatus, is_status, is_canceled, is_terminal, is_executable,
}
use wherecode.Scheduler.State.{
  World, Method, get_run, get_workitem, run_id_of, now_utc, modify_workitem, modify_run,
  persist_run_row, persist_workitem, list_workitems, deref_all,
}
use wherecode.Scheduler.Status.{derive_run_status}
use wherecode.Scheduler.Dependencies.{
  validate_dependency_ids, normalize_dependency_update_ids, select_pending_ready_for_transition,
}

-- What a pending item with satisfied dependencies becomes.
abbrev pub released_status : WorkItem → WorkItemStatus
released_status item =
    if item.requires_approval then WorkItemStatus.waiting_approval else WorkItemStatus.ready

-- (a.priority, a.created_at) <= (b.priority, b.created_at)
abbrev pub is_before : WorkItem → WorkItem → Bool
is_before a b =
    ltb a.priority b.priority || nat_eq a.priority b.priority && leb a.created_at b.created_at

-- run = self.get_run(self._workitem_run[workitem_id]), and the test that it is not canceled
unfoldable pub active_run_of : String → Method WorkflowRun
active_run_of workitem_id = do
  run_id ← run_id_of workitem_id
  run ← get_run run_id
  guard (not (is_canceled run.status)) (run_canceled run.id)
  pure run

module _ (w : World) where
  unfoldable pub refresh_run_status : String → Method Unit
  refresh_run_status run_id = do
    run ← get_run run_id
    if is_canceled run.status then persist_run_row run_id else do
      items ← list_workitems run.id
      now ← now_utc w
      modify_run run_id (λ r. record r { status = derive_run_status items; updated_at = now })
      persist_run_row run_id

  -- The body of the loop of `tick`, which returns the item as it was.
  unfoldable pub release : String → Method WorkItem
  release id = do
    item ← get_workitem id
    now ← now_utc w
    modify_workitem id (λ i. record i { status = released_status item; updated_at = now })
    persist_workitem id
    pure item

  -- The loop of `tick`. It returns the keys of the list `ready`.
  unfoldable pub release_all : List String → Method (List String)
  release_all [] = pure []
  release_all (id ∷ ids) = do
    item ← release id
    rest ← release_all ids
    pure (if is_status (released_status item) WorkItemStatus.ready then id ∷ rest else rest)

  unfoldable pub tick : String → Method (List WorkItem)
  tick run_id = do
    run ← get_run run_id
    if is_canceled run.status then pure [] else do
      pending_ready ←
          reads
            λ s. select_pending_ready_for_transition (get_list s.run_workitems run_id) s.workitems
      ready ← release_all pending_ready
      refresh_run_status run_id
      items ← reads (λ s. deref_all s.workitems ready)
      pure (sorted is_before items)

  unfoldable pub start_workitem : String → Method WorkItem
  start_workitem workitem_id = do
    item ← get_workitem workitem_id
    run ← active_run_of workitem_id
    guard (is_status item.status WorkItemStatus.ready) (not_ready workitem_id)
    started ← now_utc w
    updated ← now_utc w
    modify_workitem workitem_id λ i. record i {
      status = WorkItemStatus.running;
      started_at = some started;
      updated_at = updated;
    }
    persist_workitem workitem_id
    refresh_run_status run.id
    get_workitem workitem_id

  -- if item.started_at is None: item.started_at = now_utc()
  unfoldable pub ensure_started : String → Option ℕ → Method Unit
  ensure_started workitem_id (some started) = pure tt
  ensure_started workitem_id none = do
    started ← now_utc w
    modify_workitem workitem_id (λ i. record i { started_at = some started })

  unfoldable pub complete_workitem : String → Bool → Method WorkItem
  complete_workitem workitem_id success = do
    item ← get_workitem workitem_id
    run ← active_run_of workitem_id
    guard (is_executable item.status) (not_running workitem_id)
    ensure_started workitem_id item.started_at
    finished ← now_utc w
    updated ← now_utc w
    modify_workitem workitem_id λ i. record i {
      status = if success then WorkItemStatus.succeeded else WorkItemStatus.failed;
      finished_at = some finished;
      updated_at = updated;
    }
    persist_workitem workitem_id
    refresh_run_status run.id
    get_workitem workitem_id

  unfoldable pub approve_workitem : String → String → Method WorkItem
  approve_workitem workitem_id approved_by = do
    item ← get_workitem workitem_id
    run ← active_run_of workitem_id
    guard item.requires_approval (no_approval_needed workitem_id)
    guard (is_status item.status WorkItemStatus.waiting_approval) (not_waiting_approval workitem_id)
    updated ← now_utc w
    modify_workitem workitem_id λ i. record i {
      status = WorkItemStatus.ready;
      updated_at = updated;
      metadata = put i.metadata "approved_by" (text approved_by);
    }
    persist_workitem workitem_id
    refresh_run_status run.id
    get_workitem workitem_id

  unfoldable pub update_workitem_dependencies : String → List String → Method WorkItem
  update_workitem_dependencies workitem_id dependency_ids = do
    item ← get_workitem workitem_id
    run ← active_run_of workitem_id
    reads (λ s. validate_dependency_ids run.id dependency_ids s.workitems s.workitem_run)
    normalized ← reads (λ s. normalize_dependency_update_ids item.id dependency_ids)
    updated ← now_utc w
    modify_workitem workitem_id (λ i. record i { depends_on = normalized; updated_at = updated })
    persist_workitem workitem_id
    refresh_run_status run.id
    get_workitem workitem_id

  unfoldable pub mark_workitem_skipped : String → String → Method WorkItem
  mark_workitem_skipped workitem_id reason = do
    item ← get_workitem workitem_id
    if is_terminal item.status then pure item else do
      ensure_started workitem_id item.started_at
      finished ← now_utc w
      updated ← now_utc w
      modify_workitem workitem_id λ i. record i {
        status = WorkItemStatus.skipped;
        finished_at = some finished;
        updated_at = updated;
        metadata = put i.metadata "skip_reason" (text reason);
      }
      persist_workitem workitem_id
      run_id ← run_id_of workitem_id
      run ← get_run run_id
      refresh_run_status run.id
      get_workitem workitem_id

unfoldable pub count_workitems_by_status : String → WorkItemStatus → Method ℕ
count_workitems_by_status run_id status = do
  items ← list_workitems run_id
  pure (length (keep (λ item. is_status item.status status) items))

unfoldable pub list_workitem_ids_by_status : String → WorkItemStatus → Method (List String)
list_workitem_ids_by_status run_id status = do
  items ← list_workitems run_id
  pure (map (λ (i : WorkItem). i.id) (keep (λ item. is_status item.status status) items))
