-- ===== src/Scheduler/Dependencies.antt =====
-- control_center/services/workflow_scheduler_dependencies.py
use wherecode.Prelude.{
  String, ◌==◌, Bool, true, false, not, Option, none, some, List, [], ◌∷◌, all, contains,
  is_distinct, if◌then◌else◌, is_some,
}
use wherecode.Dict.{Dict, get}
use wherecode.Py.{
  Outcome, returned, raised, dependency_not_found, dependency_elsewhere, missing_key,
  self_dependency, duplicate_dependency,
}
use wherecode.Models.{WorkItem, WorkItemStatus, is_status, is_satisfied, strip_ids}

-- dependency_run_id != run_id
abbrev is_elsewhere : Option String → String → Bool
is_elsewhere none run_id = true
is_elsewhere (some r) run_id = not (r == run_id)

unfoldable pub validate_dependency_ids :
    String → List String → Dict WorkItem → Dict String → Outcome (Unit {0})
validate_dependency_ids run_id [] workitems workitem_run = returned tt
validate_dependency_ids run_id (d ∷ ds) workitems workitem_run =
    let rest = validate_dependency_ids run_id ds workitems workitem_run in
    if not (is_some (get workitems d))
    then raised (dependency_not_found d)
    else if is_elsewhere (get workitem_run d) run_id
    then raised (dependency_elsewhere d)
    else rest

-- The body of the loop of `dependencies_satisfied`: whether it goes on.
abbrev pub is_dependency_done : Dict WorkItem → String → Bool
is_dependency_done workitems dependency_id = elim (get workitems dependency_id) [
  | none ↦ false
  | some d ↦ is_satisfied d.status
]

unfoldable pub dependencies_satisfied : WorkItem → Dict WorkItem → Bool
dependencies_satisfied item workitems = all (is_dependency_done workitems) item.depends_on

-- The body of the loop of `select_pending_ready_for_transition`, in front of what the rest of the
-- loop selects.
unfoldable pub select_next :
    Dict WorkItem → String → WorkItem → Outcome (List String) → Outcome (List String)
unfolding dependencies_satisfied
select_next workitems id item (raised e) = raised e
select_next workitems id item (returned rest) =
    if not (is_status item.status WorkItemStatus.pending)
    then returned rest
    else if dependencies_satisfied item workitems
    then returned (id ∷ rest)
    else returned rest

-- The keys of the selected items; `raised` is the KeyError of `workitems[item_id]`.
unfoldable pub select_pending_ready_for_transition :
    List String → Dict WorkItem → Outcome (List String)
unfolding select_next
select_pending_ready_for_transition [] workitems = returned []
select_pending_ready_for_transition (id ∷ ids) workitems =
    let rest = select_pending_ready_for_transition ids workitems in
    elim (get workitems id) [
      | none ↦ raised (missing_key id)
      | some item ↦ select_next workitems id item rest
    ]

unfoldable pub normalize_dependency_update_ids : String → List String → Outcome (List String)
normalize_dependency_update_ids workitem_id dependency_ids =
    let normalized = strip_ids dependency_ids in
    if contains normalized workitem_id
    then raised self_dependency
    else if not (is_distinct normalized)
    then raised duplicate_dependency
    else returned normalized
