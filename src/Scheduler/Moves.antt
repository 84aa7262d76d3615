-- ===== src/Scheduler/Moves.antt =====
-- The life of one work item: which statuses follow which, what a method may change of an item,
-- and how the table of work items evolves.
use wherecode.Prelude.{suc, ◌≤◌, String, ◌≡◌, ◌⊎◌, Bool, true, false, not, some, arith, is_some}
use wherecode.Dict.{Dict, get, put, modify}
use wherecode.Models.{WorkItem, WorkItemStatus, is_terminal}
use wherecode.Scheduler.State.{World, Scheduler}

-- The status diagram. A status may also stay as it is.
abbrev pub is_edge : WorkItemStatus → WorkItemStatus → Bool
is_edge WorkItemStatus.pending WorkItemStatus.pending = true
is_edge WorkItemStatus.pending WorkItemStatus.ready = true
is_edge WorkItemStatus.pending WorkItemStatus.waiting_approval = true
is_edge WorkItemStatus.waiting_approval WorkItemStatus.waiting_approval = true
is_edge WorkItemStatus.waiting_approval WorkItemStatus.ready = true
is_edge WorkItemStatus.ready WorkItemStatus.ready = true
is_edge WorkItemStatus.ready WorkItemStatus.running = true
is_edge WorkItemStatus.ready WorkItemStatus.needs_discussion = true
is_edge WorkItemStatus.ready WorkItemStatus.failed = true
is_edge WorkItemStatus.ready WorkItemStatus.succeeded = true
is_edge WorkItemStatus.running WorkItemStatus.running = true
is_edge WorkItemStatus.running WorkItemStatus.needs_discussion = true
is_edge WorkItemStatus.running WorkItemStatus.failed = true
is_edge WorkItemStatus.running WorkItemStatus.succeeded = true
is_edge WorkItemStatus.needs_discussion WorkItemStatus.needs_discussion = true
is_edge WorkItemStatus.needs_discussion WorkItemStatus.ready = true
is_edge WorkItemStatus.needs_discussion WorkItemStatus.failed = true
is_edge WorkItemStatus.failed WorkItemStatus.failed = true
is_edge WorkItemStatus.succeeded WorkItemStatus.succeeded = true
is_edge WorkItemStatus.skipped WorkItemStatus.skipped = true
is_edge a WorkItemStatus.skipped = not (is_terminal a)
is_edge _ _ = false

-- The statuses that an item which requires approval has only after it was approved.
abbrev pub is_past_approval : WorkItemStatus → Bool
is_past_approval WorkItemStatus.ready = true
is_past_approval WorkItemStatus.running = true
is_past_approval WorkItemStatus.needs_discussion = true
is_past_approval WorkItemStatus.succeeded = true
is_past_approval _ = false

-- The item carries the name of its approver.
abbrev pub is_approved : WorkItem → Bool
is_approved item = is_some (get item.metadata "approved_by")

-- What a method may do to one item.
pub record Moves (a b : WorkItem) : Type 0 where
  pub edge : is_edge a.status b.status ≡ true
  pub same_id : b.id ≡ a.id
  pub same_run : b.workflow_run_id ≡ a.workflow_run_id
  pub same_approval : b.requires_approval ≡ a.requires_approval
  pub same_budget : b.discussion_budget ≡ a.discussion_budget
  pub budget : a.discussion_used ≤ a.discussion_budget → b.discussion_used ≤ b.discussion_budget
  pub approved : is_approved a ≡ true → is_approved b ≡ true
  pub cleared :
      is_past_approval b.status ≡ true
      → (is_past_approval a.status ≡ true) ⊎ (b.requires_approval ≡ false) ⊎ (is_approved b ≡ true)

-- A new item: pending, under its own key, with no discussion used.
pub record IsNew (id : String) (item : WorkItem) : Type 0 where
  pub named : item.id ≡ id
  pub waits : item.status ≡ WorkItemStatus.pending
  pub unused : item.discussion_used ≡ 0

-- How the methods change items that are there: any number of moves under keys of the table.
pub data Change (t : Dict WorkItem) : Dict WorkItem → Type 0 where
  same : Change t t
  write :
      {u : Dict WorkItem} (id : String) (f : WorkItem → WorkItem) (item : WorkItem)
      → Change t u
      → get u id ≡ some item
      → Moves item (f item)
      → Change t (modify u id f)

pub Change-trans : {t u v : Dict WorkItem} → Change t u → Change u v → Change t v
Change-trans c same = c
Change-trans c (write id f item d e m) = write id f item (Change-trans c d) e m

-- The step of the whole object that a method makes.
pub record Evolves (s t : Scheduler) : Type 0 where
  pub table : Change s.workitems t.workitems
  pub issued : s.issued_ids ≤ t.issued_ids

pub Evolves-refl : (s : Scheduler) → Evolves s s
Evolves-refl s = record { table = same; issued = omega arith }

pub Evolves-trans : {s t u : Scheduler} → Evolves s t → Evolves t u → Evolves s u
Evolves-trans a b = record { table = Change-trans a.table b.table; issued = omega arith }

-- The step of `add_workitem`: one new item under the identifier that was issued.
pub record Adds (w : World) (s t : Scheduler) : Type 0 where
  pub item : WorkItem
  pub new : IsNew (w.new_id "wi" s.issued_ids) item
  pub table : t.workitems ≡ put s.workitems (w.new_id "wi" s.issued_ids) item
  pub issued : t.issued_ids ≡ suc s.issued_ids
