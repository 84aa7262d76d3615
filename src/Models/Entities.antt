-- ===== src/Models/Entities.antt =====
-- The entities of v3_workflow.py. A time is a number of microseconds since a fixed origin.
use wherecode.Prelude.{ℕ, String, Bool, Option, List}
use wherecode.Value.{Metadata}
use wherecode.Models.Status.{
  WorkflowRunStatus, RequirementStatus, SddStage, WorkItemStatus, GateStatus, DiscussionStatus,
  GateType, ArtifactOwnerType, ArtifactType,
}

pub record WorkflowRun : Type 0 where
  pub id : String
  pub project_id : String
  pub task_id : Option String
  pub template_id : Option String
  pub status : WorkflowRunStatus
  pub requirement_status : RequirementStatus
  pub clarification_rounds : ℕ
  pub assumption_used : Bool
  pub current_stage : SddStage
  pub next_action_hint : Option String
  pub blocked_reason : Option String
  pub accepted : Bool
  pub requested_by : Option String
  pub summary : Option String
  pub created_at : ℕ
  pub updated_at : ℕ
  pub metadata : Metadata

pub record WorkItem : Type 0 where
  pub id : String
  pub workflow_run_id : String
  pub module_key : Option String
  pub role : String
  pub assignee_agent : String
  pub depends_on : List String
  pub status : WorkItemStatus
  pub priority : ℕ
  pub discussion_budget : ℕ
  pub discussion_used : ℕ
  pub discussion_timeout_seconds : ℕ
  pub loop_guard_fingerprint : Option String
  pub requires_approval : Bool
  pub started_at : Option ℕ
  pub finished_at : Option ℕ
  pub created_at : ℕ
  pub updated_at : ℕ
  pub metadata : Metadata

pub record GateCheck : Type 0 where
  pub id : String
  pub workflow_run_id : String
  pub workitem_id : String
  pub gate_type : GateType
  pub status : GateStatus
  pub summary : Option String
  pub evidence_artifact_ids : List String
  pub attempt : ℕ
  pub executed_by : Option String
  pub created_at : ℕ

pub record DiscussionSession : Type 0 where
  pub id : String
  pub workflow_run_id : String
  pub workitem_id : String
  pub status : DiscussionStatus
  pub question : String
  pub options : List String
  pub recommendation : Option String
  pub impact : Option String
  pub decision : Option String
  pub round : ℕ
  pub budget : ℕ
  pub fingerprint : Option String
  pub opened_by_role : String
  pub resolved_by_role : Option String
  pub created_at : ℕ
  pub updated_at : ℕ

pub record Artifact : Type 0 where
  pub id : String
  pub owner_type : ArtifactOwnerType
  pub owner_id : String
  pub artifact_type : ArtifactType
  pub title : String
  pub uri_or_path : String
  pub checksum : Option String
  pub created_by : String
  pub created_at : ℕ
