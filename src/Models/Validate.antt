-- ===== src/Models/Validate.antt =====
-- The field constraints and the `validate_constraints` methods of v3_workflow.py: what a
-- constructor call accepts. A number that the source declares `ge=0` is a natural.
use wherecode.Prelude.{
  ℕ, String, Bool, true, false, not, ◌&&◌, ◌||◌, Option, none, some, List, map, length, keep,
  contains, is_distinct, leb,
}
use wherecode.Text.{strip, is_truthy}
use wherecode.Models.Status.{DiscussionStatus, resolved, is_exhausted}
use wherecode.Models.Entities.{WorkflowRun, WorkItem, DiscussionSession, GateCheck, Artifact}

-- started_at and finished_at and started_at > finished_at, negated
abbrev pub is_ordered : Option ℕ → Option ℕ → Bool
is_ordered (some a) (some b) = leb a b
is_ordered (some a) none = true
is_ordered none finished = true

-- [item.strip() for item in ids if item.strip()]
abbrev pub strip_ids : List String → List String
strip_ids ids = keep is_truthy (map strip ids)

unfoldable pub accepts_workitem : WorkItem → Bool
accepts_workitem item =
    is_truthy item.workflow_run_id
    && is_truthy item.role
    && is_truthy item.assignee_agent
    && leb 1 item.priority
    && leb item.priority 5
    && leb 1 item.discussion_timeout_seconds
    && leb item.discussion_used item.discussion_budget
    && is_ordered item.started_at item.finished_at
    && is_distinct (strip_ids item.depends_on)
    && not (contains (strip_ids item.depends_on) item.id)

unfoldable pub accepts_run : WorkflowRun → Bool
accepts_run run = is_truthy run.project_id

abbrev is_resolved : DiscussionStatus → Bool
is_resolved resolved = true
is_resolved _ = false

abbrev has_text : Option String → Bool
has_text none = false
has_text (some t) = is_truthy t

unfoldable pub accepts_session : DiscussionSession → Bool
accepts_session session =
    is_truthy session.workflow_run_id
    && is_truthy session.workitem_id
    && is_truthy session.question
    && is_truthy session.opened_by_role
    && leb 1 session.round
    && leb (length session.options) 3
    && (leb session.round session.budget || is_exhausted session.status)
    && (not (is_resolved session.status) || has_text session.decision)

unfoldable pub accepts_gate : GateCheck → Bool
accepts_gate gate =
    is_truthy gate.workflow_run_id && is_truthy gate.workitem_id && leb 1 gate.attempt

unfoldable pub accepts_artifact : Artifact → Bool
accepts_artifact artifact =
    is_truthy artifact.owner_id
    && is_truthy artifact.title
    && is_truthy artifact.uri_or_path
    && is_truthy artifact.created_by
