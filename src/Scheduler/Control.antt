-- ===== src/Scheduler/Control.antt =====
-- `interrupt_run` and `restart_run` of WorkflowScheduler.
use wherecode.Prelude.{
  String, ◌≡◌, refl, ◌==◌, arith, Bool, true, false, Option, none, some, List, [], ◌∷◌,
  if◌then◌else◌,
}
use wherecode.Text.{is_truthy}
use wherecode.Dict.{put, get, get-put}
use wherecode.Value.{
  Value, Metadata, boolean, text, array, object, end, field, text_items, optional_text,
}
use wherecode.Py.{◌>>=◌, ◌>>◌, pure, guard, restart_of_active}
use wherecode.Models.{
  WorkflowRun, WorkItem, WorkItemStatus, WorkflowRunStatus, is_terminal, is_finished,
}
use wherecode.Scheduler.State.{
  World, Method, get_run, get_workitem, now_utc, modify_workitem, modify_run, persist_run_row,
  persist_workitem, list_workitems,
}
use wherecode.Scheduler.Create.{create_run}
use wherecode.Scheduler.Items.{ensure_started}

-- if value: metadata[key] = value
abbrev put_given : Metadata → String → Option String → Metadata
put_given metadata key none = metadata
put_given metadata key (some value) =
    if is_truthy value then put metadata key (text value) else metadata

-- what the loop of `interrupt_run` writes into the metadata of an item
unfoldable pub interrupt_metadata : Metadata → Option String → Option String → Metadata
interrupt_metadata metadata requested_by reason =
    put_given
      (put_given (put metadata "skip_reason" (text "workflow_run_interrupted"))
        "interrupt_requested_by" requested_by)
      "interrupt_reason" reason

put_given-get :
    (metadata : Metadata) (key j : String) (value : Option String)
    → (key == j) ≡ false
    → get (put_given metadata key value) j ≡ get metadata j
put_given-get metadata key j none h = refl
put_given-get metadata key j (some value) h = ground (arith, get-put metadata key j (text value))

-- The name of an approver stays.
pub interrupt_metadata-approved :
    (metadata : Metadata) (requested_by reason : Option String)
    → get (interrupt_metadata metadata requested_by reason) "approved_by"
      ≡ get metadata "approved_by"
unfolding interrupt_metadata
interrupt_metadata-approved metadata requested_by reason = simp (put_given-get, get-put)

-- requested_by or fallback
abbrev or_text : Option String → Option String → Option String
or_text none fallback = fallback
or_text (some value) fallback = if is_truthy value then some value else fallback

-- The values of the tuple that `interrupt_run` returns.
pub record Interrupted : Type 0 where
  pub previous_status : WorkflowRunStatus
  pub status : WorkflowRunStatus
  pub applied : Bool
  pub skipped_workitem_ids : List String

abbrev pub interrupt_record : Option String → Option String → Bool → List String → Value
interrupt_record requested_by reason skip_all skipped = object (
    field "requested_by" (optional_text requested_by) (
      field "reason" (optional_text reason) (
        field "applied" (boolean true) (
          field "skip_non_terminal_workitems" (boolean skip_all)
            (field "skipped_workitem_ids" (array (text_items skipped)) end)))))

abbrev restart_record : WorkflowRun → Option String → Option String → Bool → Value
restart_record source requested_by reason copied = object (
    field "source_run_id" (text source.id) (
      field "requested_by" (optional_text requested_by) (
        field "reason" (optional_text reason) (field "copied_decomposition" (boolean copied) end))))

-- source_run.metadata.get("chief_decomposition"), where it is a dict
abbrev dict_only : Option Value → Option Value
dict_only (some (object fields)) = some (object fields)
dict_only _ = none

abbrev decomposition_to_copy : Bool → WorkflowRun → Option Value
decomposition_to_copy false source = none
decomposition_to_copy true source = dict_only (get source.metadata "chief_decomposition")

abbrev put_decomposition : Option Value → Metadata → Metadata
put_decomposition none metadata = metadata
put_decomposition (some v) metadata = put metadata "chief_decomposition" v

abbrev is_copied : Option Value → Bool
is_copied none = false
is_copied (some v) = true

module _ (w : World) where
  -- The body of the loop of `interrupt_run`, in front of the rest of the loop.
  unfoldable pub interrupt_item :
      Option String → Option String → WorkItem → Method (List String) → Method (List String)
  interrupt_item requested_by reason item rest = do
    live ← get_workitem item.id
    if is_terminal live.status then rest else do
      ensure_started w item.id live.started_at
      finished ← now_utc w
      updated ← now_utc w
      modify_workitem item.id λ i. record i {
        status = WorkItemStatus.skipped;
        finished_at = some finished;
        updated_at = updated;
        metadata = interrupt_metadata i.metadata requested_by reason;
      }
      persist_workitem item.id
      skipped ← rest
      pure (item.id ∷ skipped)

  -- The loop of `interrupt_run` over the items of the run: the keys that it skipped.
  unfoldable pub interrupt_items :
      Option String → Option String → List WorkItem → Method (List String)
  interrupt_items requested_by reason [] = pure []
  interrupt_items requested_by reason (item ∷ items) =
      interrupt_item requested_by reason item (interrupt_items requested_by reason items)

  -- `list_workitems` and the loop, where the flag asks for it
  unfoldable pub skip_items : Bool → String → Option String → Option String → Method (List String)
  skip_items false run_id requested_by reason = pure []
  skip_items true run_id requested_by reason = do
    items ← list_workitems run_id
    interrupt_items requested_by reason items

  unfoldable pub interrupt_run : String → Option String → Option String → Bool → Method Interrupted
  interrupt_run run_id requested_by reason skip_all = do
    run ← get_run run_id
    if is_finished run.status
        then pure (record {
          previous_status = run.status;
          status = run.status;
          applied = false;
          skipped_workitem_ids = [];
        })
        else do
          skipped ← skip_items skip_all run_id requested_by reason
          now ← now_utc w
          modify_run run_id λ r. record r {
            status = WorkflowRunStatus.canceled;
            updated_at = now;
            metadata =
                put r.metadata "interrupt" (interrupt_record requested_by reason skip_all skipped);
          }
          persist_run_row run_id
          pure (record {
            previous_status = run.status;
            status = WorkflowRunStatus.canceled;
            applied = true;
            skipped_workitem_ids = skipped;
          })

  unfoldable pub restart_run :
      String → Option String → Option String → Bool → Method (WorkflowRun × Bool)
  restart_run run_id requested_by reason copy = do
    source ← get_run run_id
    guard (is_finished source.status) restart_of_active
    created ← create_run w (record {
      project_id = source.project_id;
      task_id = source.task_id;
      template_id = source.template_id;
      requested_by = or_text requested_by source.requested_by;
      summary = source.summary;
    })
    let copied : Option Value = decomposition_to_copy copy source
    modify_run created.id λ r. record r {
      metadata =
          put (put_decomposition copied r.metadata) "restart"
            (restart_record source requested_by reason (is_copied copied));
    }
    persist_run_row created.id
    restarted ← get_run created.id
    pure (restarted, is_copied copied)
