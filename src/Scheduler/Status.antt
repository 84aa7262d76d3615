-- ===== src/Scheduler/Status.antt =====
-- control_center/services/workflow_scheduler_status.py: the status of a run from its work items.
use wherecode.Prelude.{Bool, List, any, all, is_empty, if◌then◌else◌}
use wherecode.Models.{WorkItem, WorkItemStatus, WorkflowRunStatus, is_status, is_satisfied}

-- status in {item.status for item in items}
abbrev pub some_item_is : WorkItemStatus → List WorkItem → Bool
some_item_is status items = any (λ item. is_status item.status status) items

unfoldable pub derive_run_status : List WorkItem → WorkflowRunStatus
derive_run_status items =
    if is_empty items
    then WorkflowRunStatus.planning
    else if some_item_is WorkItemStatus.failed items
    then WorkflowRunStatus.failed
    else if some_item_is WorkItemStatus.needs_discussion items
    then WorkflowRunStatus.blocked
    else if some_item_is WorkItemStatus.waiting_approval items
    then WorkflowRunStatus.waiting_approval
    else if all (λ item. is_satisfied item.status) items
    then WorkflowRunStatus.succeeded
    else WorkflowRunStatus.running
