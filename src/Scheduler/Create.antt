-- ===== src/Scheduler/Create.antt =====
-- The methods of WorkflowScheduler that create entities.
use wherecode.Prelude.{
  ℕ, suc, String, Bool, false, Option, none, some, List, [], ◌∷◌, length, or_else, if◌then◌else◌,
}
use wherecode.Dict.{put, get_list}
use wherecode.Value.{Metadata, object, end}
use wherecode.Py.{returned, ◌>>=◌, ◌>>◌, pure, reads, guard, assign, invalid_model}
use wherecode.Models.{
  WorkflowRun, WorkItem, GateCheck, Artifact, WorkflowRunStatus, RequirementStatus, SddStage,
  WorkItemStatus, GateStatus, GateType, ArtifactOwnerType, ArtifactType, strip_ids, accepts_run,
  accepts_workitem, accepts_gate, accepts_artifact,
}
use wherecode.Scheduler.State.{
  World, Scheduler, Method, append_to, get_run, get_workitem, now_utc, fresh_id, modify_run,
  persist_run_row, persist_workitem, persist_gate, persist_artifact,
}
use wherecode.Scheduler.Dependencies.{validate_dependency_ids}

pub record NewRun : Type 0 where
  pub project_id : String
  pub task_id : Option String
  pub template_id : Option String
  pub requested_by : Option String
  pub summary : Option String

pub record NewWorkItem : Type 0 where
  pub role : String
  pub module_key : Option String
  pub assignee_agent : String
  pub depends_on : Option (List String)
  pub priority : ℕ
  pub requires_approval : Bool
  pub discussion_budget : ℕ
  pub discussion_timeout_seconds : ℕ
  pub metadata : Option Metadata

pub record NewGateCheck : Type 0 where
  pub gate_type : GateType
  pub passed : Bool
  pub summary : String
  pub executed_by : String
  pub evidence_artifact_ids : Option (List String)

pub record NewArtifact : Type 0 where
  pub artifact_type : ArtifactType
  pub title : String
  pub uri_or_path : String
  pub created_by : String
  pub checksum : Option String

module _ (w : World) where
  -- touches and writes out a run
  unfoldable pub persist_run : String → Method WorkflowRun
  persist_run run_id = do
    get_run run_id
    now ← now_utc w
    modify_run run_id (λ run. record run { updated_at = now })
    persist_run_row run_id
    get_run run_id

  unfoldable pub create_run : NewRun → Method WorkflowRun
  create_run new = do
    created_at ← now_utc w
    updated_at ← now_utc w
    id ← fresh_id w "wfr"
    let run : WorkflowRun = record {
      id = id;
      project_id = new.project_id;
      task_id = new.task_id;
      template_id = new.template_id;
      status = WorkflowRunStatus.running;
      requirement_status = RequirementStatus.draft;
      clarification_rounds = 0;
      assumption_used = false;
      current_stage = SddStage.intent;
      next_action_hint = some "start_intent_stage";
      blocked_reason = none;
      accepted = false;
      requested_by = new.requested_by;
      summary = new.summary;
      created_at = created_at;
      updated_at = updated_at;
      metadata = ("sdd_stage_artifacts", object end) ∷ [];
    }
    guard (accepts_run run) (invalid_model "WorkflowRun")
    assign (λ s. record s { runs = put s.runs id run })
    persist_run_row id
    pure run

  -- The constructor call of `add_workitem`; the validator strips the dependency ids.
  abbrev pub pending_workitem : WorkflowRun → NewWorkItem → String → ℕ → ℕ → WorkItem
  pending_workitem run new id created_at updated_at = record {
    id = id;
    workflow_run_id = run.id;
    module_key = new.module_key;
    role = new.role;
    assignee_agent = new.assignee_agent;
    depends_on = strip_ids (or_else new.depends_on []);
    status = WorkItemStatus.pending;
    priority = new.priority;
    discussion_budget = new.discussion_budget;
    discussion_used = 0;
    discussion_timeout_seconds = new.discussion_timeout_seconds;
    loop_guard_fingerprint = none;
    requires_approval = new.requires_approval;
    started_at = none;
    finished_at = none;
    created_at = created_at;
    updated_at = updated_at;
    metadata = or_else new.metadata [];
  }

  -- the dictionaries after `add_workitem`
  abbrev pub store_workitem : WorkItem → Scheduler → Scheduler
  store_workitem item s = record s {
    workitems = put s.workitems item.id item;
    run_workitems = append_to s.run_workitems item.workflow_run_id item.id;
    workitem_run = put s.workitem_run item.id item.workflow_run_id;
  }

  unfoldable pub add_workitem : String → NewWorkItem → Method WorkItem
  add_workitem run_id new = do
    run ← get_run run_id
    reads
        (λ s. validate_dependency_ids run.id (or_else new.depends_on []) s.workitems s.workitem_run)
    created_at ← now_utc w
    updated_at ← now_utc w
    id ← fresh_id w "wi"
    let item : WorkItem = pending_workitem run new id created_at updated_at
    guard (accepts_workitem item) (invalid_model "WorkItem")
    assign (store_workitem item)
    now ← now_utc w
    modify_run run_id (λ r. record r { updated_at = now })
    persist_workitem id
    persist_run_row run_id
    pure item

  unfoldable pub create_gate_check : String → NewGateCheck → Method GateCheck
  create_gate_check workitem_id new = do
    item ← get_workitem workitem_id
    earlier ← reads (λ s. returned (get_list s.workitem_gate_checks workitem_id))
    id ← fresh_id w "gate"
    created_at ← now_utc w
    let gate : GateCheck = record {
      id = id;
      workflow_run_id = item.workflow_run_id;
      workitem_id = workitem_id;
      gate_type = new.gate_type;
      status = if new.passed then GateStatus.passed else GateStatus.failed;
      summary = some new.summary;
      evidence_artifact_ids = or_else new.evidence_artifact_ids [];
      attempt = suc (length earlier);
      executed_by = some new.executed_by;
      created_at = created_at;
    }
    guard (accepts_gate gate) (invalid_model "GateCheck")
    assign λ s. record s {
      gate_checks = put s.gate_checks id gate;
      run_gate_checks = append_to s.run_gate_checks item.workflow_run_id id;
      workitem_gate_checks = append_to s.workitem_gate_checks workitem_id id;
    }
    persist_gate id
    pure gate

  abbrev new_artifact : ArtifactOwnerType → String → NewArtifact → String → ℕ → Artifact
  new_artifact owner_type owner_id new id created_at = record {
    id = id;
    owner_type = owner_type;
    owner_id = owner_id;
    artifact_type = new.artifact_type;
    title = new.title;
    uri_or_path = new.uri_or_path;
    checksum = new.checksum;
    created_by = new.created_by;
    created_at = created_at;
  }

  unfoldable pub create_artifact : String → NewArtifact → Method Artifact
  create_artifact workitem_id new = do
    item ← get_workitem workitem_id
    id ← fresh_id w "art"
    created_at ← now_utc w
    let artifact : Artifact = new_artifact ArtifactOwnerType.workitem workitem_id new id created_at
    guard (accepts_artifact artifact) (invalid_model "Artifact")
    assign λ s. record s {
      artifacts = put s.artifacts id artifact;
      run_artifacts = append_to s.run_artifacts item.workflow_run_id id;
      workitem_artifacts = append_to s.workitem_artifacts workitem_id id;
    }
    persist_artifact id
    pure artifact

  unfoldable pub create_run_artifact : String → NewArtifact → Method Artifact
  create_run_artifact run_id new = do
    get_run run_id
    id ← fresh_id w "art"
    created_at ← now_utc w
    let artifact : Artifact = new_artifact ArtifactOwnerType.workflow_run run_id new id created_at
    guard (accepts_artifact artifact) (invalid_model "Artifact")
    assign λ s. record s {
      artifacts = put s.artifacts id artifact;
      run_artifacts = append_to s.run_artifacts run_id id;
    }
    persist_artifact id
    pure artifact
