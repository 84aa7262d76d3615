-- ===== src/Scheduler/Counts.antt =====
-- The counts in the metrics of the scheduler.
use wherecode.Prelude.{
  ℕ, suc, ◌+◌, String, ◌==◌, eq_iff, ◌≡◌, refl, List, [], ◌∷◌, map, keep, length, or_else, arith,
}
use wherecode.Dict.{Dict, get, put, values, get-put}
use wherecode.Models.{
  WorkflowRun, WorkItem, WorkItemStatus, GateCheck, Artifact, workitem_status_value,
}
use wherecode.Scheduler.Metrics.{count_keys, build_scheduler_metrics}

-- How often a key occurs.
abbrev occurrences : String → List String → ℕ
occurrences j keys = length (keep (λ key. key == j) keys)

count_keys-get :
    (keys : List String) (counts : Dict ℕ) (j : String)
    → or_else (get (count_keys keys counts) j) 0 ≡ or_else (get counts j) 0 + occurrences j keys
unfolding count_keys
count_keys-get [] counts j = omega arith
count_keys-get (key ∷ keys) counts j = ground (
  arith,
  count_keys-get keys (put counts key (suc (or_else (get counts key) 0))) j,
  get-put counts key j (suc (or_else (get counts key) 0)),
  eq_iff key j,
)

abbrev pub items_with : WorkItemStatus → Dict WorkItem → ℕ
items_with status workitems = length (
    keep (λ (i : WorkItem). workitem_status_value i.status == workitem_status_value status)
      (values workitems))

occurrences-map :
    (j : String) (items : List WorkItem)
    → occurrences j (map (λ (i : WorkItem). workitem_status_value i.status) items)
      ≡ length (keep (λ (i : WorkItem). workitem_status_value i.status == j) items)
occurrences-map j [] = refl
occurrences-map j (i ∷ is) = ground (arith, occurrences-map j is)

-- In the metrics, the number that stands under a status of work items, or 0 where none stands
-- there, is the number of work items with that status.
pub build_scheduler_metrics-get :
    (runs : Dict WorkflowRun) (workitems : Dict WorkItem) (gate_checks : Dict GateCheck)
    (artifacts : Dict Artifact) (status : WorkItemStatus)
    → or_else
        (get
          (build_scheduler_metrics runs workitems gate_checks artifacts).workitem_status_counts
          (workitem_status_value status))
        0
      ≡ items_with status workitems
unfolding build_scheduler_metrics get
build_scheduler_metrics-get runs workitems gate_checks artifacts status = omega (
  arith,
  count_keys-get (map (λ (i : WorkItem). workitem_status_value i.status) (values workitems)) []
      (workitem_status_value status),
  occurrences-map (workitem_status_value status) (values workitems),
)
