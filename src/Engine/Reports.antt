-- ===== src/Engine/Reports.antt =====
-- `emit_default_artifacts` and `build_execute_response` of
-- control_center/services/workflow_engine_runtime_helpers.py.
use Prim.Native.String.{◌++◌}
use wherecode.Prelude.{ℕ, String, ◌==◌, Option, none, some, List, keep, length, if◌then◌else◌}
use wherecode.Text.{is_truthy}
use wherecode.Py.{◌>>=◌, ◌>>◌, pure}
use wherecode.Models.{WorkItem, WorkItemStatus, WorkflowRunStatus, ArtifactType, is_status}
use wherecode.Scheduler.State.{World, Method, get_run, list_workitems}
use wherecode.Scheduler.Create.{NewArtifact, create_artifact}
use wherecode.Scheduler.Items.{list_workitem_ids_by_status}

-- module_key or "global"
abbrev module_label : Option String → String
module_label none = "global"
module_label (some m) = if is_truthy m then m else "global"

abbrev report : ArtifactType → String → String → String → NewArtifact
report artifact_type title uri_or_path created_by = record {
  artifact_type = artifact_type;
  title = title;
  uri_or_path = uri_or_path;
  created_by = created_by;
  checksum = none;
}

unfoldable pub emit_release_artifacts : World → WorkItem → Method Unit
emit_release_artifacts w workitem = do
  create_artifact w workitem.id (
      report ArtifactType.release_note "Release note"
        ("artifacts/" ++ workitem.id ++ "/release-note.md") workitem.role)
  create_artifact w workitem.id (
      report ArtifactType.rollback_plan "Rollback plan"
        ("artifacts/" ++ workitem.id ++ "/rollback-plan.md") workitem.role)
  pure tt

unfoldable pub emit_acceptance_artifact : World → WorkItem → Method Unit
emit_acceptance_artifact w workitem = do
  create_artifact w workitem.id (
      report ArtifactType.acceptance_report
        ("Acceptance report for " ++ module_label workitem.module_key)
        ("artifacts/" ++ workitem.id ++ "/acceptance-report.md") workitem.role)
  pure tt

unfoldable pub emit_default_artifacts : World → WorkItem → Method Unit
emit_default_artifacts w workitem =
    if workitem.role == "acceptance"
    then emit_acceptance_artifact w workitem
    else if workitem.role == "release-manager"
    then emit_release_artifacts w workitem
    else pure tt

pub record ExecuteWorkflowRunResponse : Type 0 where
  pub run_id : String
  pub run_status : WorkflowRunStatus
  pub executed_count : ℕ
  pub failed_count : ℕ
  pub remaining_ready_count : ℕ
  pub remaining_pending_count : ℕ
  pub waiting_discussion_count : ℕ
  pub waiting_approval_count : ℕ
  pub executed_workitem_ids : List String
  pub failed_workitem_ids : List String
  pub waiting_discussion_workitem_ids : List String
  pub waiting_approval_workitem_ids : List String

abbrev count_status : WorkItemStatus → List WorkItem → ℕ
count_status status items = length (keep (λ (i : WorkItem). is_status i.status status) items)

unfoldable pub build_execute_response :
    String → List String → List String → Method ExecuteWorkflowRunResponse
build_execute_response run_id executed failed = do
  run ← get_run run_id
  all_workitems ← list_workitems run_id
  discussion_ids ← list_workitem_ids_by_status run_id WorkItemStatus.needs_discussion
  approval_ids ← list_workitem_ids_by_status run_id WorkItemStatus.waiting_approval
  pure (record {
    run_id = run.id;
    run_status = run.status;
    executed_count = length executed;
    failed_count = length failed;
    remaining_ready_count = count_status WorkItemStatus.ready all_workitems;
    remaining_pending_count = count_status WorkItemStatus.pending all_workitems;
    waiting_discussion_count = length discussion_ids;
    waiting_approval_count = length approval_ids;
    executed_workitem_ids = executed;
    failed_workitem_ids = failed;
    waiting_discussion_workitem_ids = discussion_ids;
    waiting_approval_workitem_ids = approval_ids;
  })
