-- ===== src/Models/Status.antt =====
-- The enumerations of v3_workflow.py, and the tests on them that the services make.
use wherecode.Prelude.{Bool, true, false, String}

pub data WorkflowRunStatus : Type 0 where
  planning running waiting_approval blocked failed succeeded canceled : WorkflowRunStatus

pub data RequirementStatus : Type 0 where
  draft clarifying confirmed blocked : RequirementStatus

pub data SddStage : Type 0 where
  intent spec design tasks implement verify accept : SddStage

pub data WorkItemStatus : Type 0 where
  pending ready running needs_discussion waiting_approval failed succeeded skipped : WorkItemStatus

pub data GateStatus : Type 0 where
  not_started running passed failed waived : GateStatus

pub data DiscussionStatus : Type 0 where
  opened resolved exhausted timeout : DiscussionStatus

pub data GateType : Type 0 where
  doc test security acceptance release : GateType

pub data ArtifactOwnerType : Type 0 where
  workitem task command workflow_run : ArtifactOwnerType

pub data ArtifactType : Type 0 where
  plan diff_summary test_report doc_update : ArtifactType
  security_report acceptance_report release_note rollback_plan : ArtifactType

-- The number of a status, to compare two of them.
abbrev pub workitem_rank : WorkItemStatus → Bool × Bool × Bool
workitem_rank pending = (false, false, false)
workitem_rank ready = (false, false, true)
workitem_rank running = (false, true, false)
workitem_rank needs_discussion = (false, true, true)
workitem_rank waiting_approval = (true, false, false)
workitem_rank failed = (true, false, true)
workitem_rank succeeded = (true, true, false)
workitem_rank skipped = (true, true, true)

abbrev same_bit : Bool → Bool → Bool
same_bit true b = b
same_bit false true = false
same_bit false false = true

abbrev both : Bool → Bool → Bool
both true b = b
both false b = false

-- a == b
abbrev pub is_status : WorkItemStatus → WorkItemStatus → Bool
is_status a b =
    let (x, y, z) = workitem_rank a in
    let (u, v, w) = workitem_rank b in both (same_bit x u) (both (same_bit y v) (same_bit z w))

abbrev pub is_canceled : WorkflowRunStatus → Bool
is_canceled canceled = true
is_canceled _ = false

-- status in {SUCCEEDED, FAILED, CANCELED} of a run
abbrev pub is_finished : WorkflowRunStatus → Bool
is_finished succeeded = true
is_finished failed = true
is_finished canceled = true
is_finished _ = false

-- status in {SUCCEEDED, FAILED, SKIPPED} of a work item
abbrev pub is_terminal : WorkItemStatus → Bool
is_terminal succeeded = true
is_terminal failed = true
is_terminal skipped = true
is_terminal _ = false

-- status in {SUCCEEDED, SKIPPED}
abbrev pub is_satisfied : WorkItemStatus → Bool
is_satisfied succeeded = true
is_satisfied skipped = true
is_satisfied _ = false

-- status in {RUNNING, READY}
abbrev pub is_executable : WorkItemStatus → Bool
is_executable running = true
is_executable ready = true
is_executable _ = false

abbrev pub is_open : DiscussionStatus → Bool
is_open opened = true
is_open _ = false

abbrev pub is_exhausted : DiscussionStatus → Bool
is_exhausted exhausted = true
is_exhausted _ = false

-- status.value, the text of a member of the enumeration
abbrev pub run_status_value : WorkflowRunStatus → String
run_status_value planning = "planning"
run_status_value WorkflowRunStatus.running = "running"
run_status_value WorkflowRunStatus.waiting_approval = "waiting_approval"
run_status_value WorkflowRunStatus.blocked = "blocked"
run_status_value WorkflowRunStatus.failed = "failed"
run_status_value WorkflowRunStatus.succeeded = "succeeded"
run_status_value canceled = "canceled"

abbrev pub workitem_status_value : WorkItemStatus → String
workitem_status_value pending = "pending"
workitem_status_value ready = "ready"
workitem_status_value WorkItemStatus.running = "running"
workitem_status_value needs_discussion = "needs_discussion"
workitem_status_value WorkItemStatus.waiting_approval = "waiting_approval"
workitem_status_value WorkItemStatus.failed = "failed"
workitem_status_value WorkItemStatus.succeeded = "succeeded"
workitem_status_value skipped = "skipped"

abbrev pub gate_status_value : GateStatus → String
gate_status_value not_started = "not_started"
gate_status_value GateStatus.running = "running"
gate_status_value passed = "passed"
gate_status_value GateStatus.failed = "failed"
gate_status_value waived = "waived"

abbrev pub artifact_type_value : ArtifactType → String
artifact_type_value plan = "plan"
artifact_type_value diff_summary = "diff_summary"
artifact_type_value test_report = "test_report"
artifact_type_value doc_update = "doc_update"
artifact_type_value security_report = "security_report"
artifact_type_value acceptance_report = "acceptance_report"
artifact_type_value release_note = "release_note"
artifact_type_value rollback_plan = "rollback_plan"
