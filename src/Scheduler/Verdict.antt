-- ===== src/Scheduler/Verdict.antt =====
-- What the derived status of a run says of its work items.
use wherecode.Prelude.{◌≡◌, ◌↔◌, refl, Bool, true, false, List, [], ◌∷◌, all, is_empty, arith}
use wherecode.Models.{WorkItem, WorkItemStatus, WorkflowRunStatus, is_status, is_satisfied}
use wherecode.Scheduler.Status.{some_item_is, derive_run_status}

is_status-excludes :
    (a b : WorkItemStatus) → is_satisfied a ≡ true → is_satisfied b ≡ false → is_status a b ≡ false
is_status-excludes a b h k = ground arith

abbrev is_done : WorkItem → Bool
is_done item = is_satisfied item.status

none-is :
    (b : WorkItemStatus) (items : List WorkItem)
    → all is_done items ≡ true
    → is_satisfied b ≡ false
    → some_item_is b items ≡ false
none-is b [] h k = refl
none-is b (i ∷ is) h k = ground (arith, is_status-excludes i.status b, none-is b is)

-- The status is `succeeded` exactly where there are items and every one succeeded or was skipped.
pub derive_run_status-succeeded :
    (items : List WorkItem)
    → (derive_run_status items ≡ WorkflowRunStatus.succeeded)
      ↔ (is_empty items ≡ false) × (all (λ item. is_satisfied item.status) items ≡ true)
unfolding derive_run_status
derive_run_status-succeeded items = (
  λ h. ground arith,
  λ k.
      rw
        (
          k.0,
          none-is WorkItemStatus.failed items k.1 refl,
          none-is WorkItemStatus.needs_discussion items k.1 refl,
          none-is WorkItemStatus.waiting_approval items k.1 refl,
          k.1,
        )
        refl,
)
