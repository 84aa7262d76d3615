-- ===== src/Engine/Helpers.antt =====
-- control_center/services/workflow_engine_bootstrap_helpers.py, and the graph functions of
-- workflow_engine_runtime_helpers.py.
use wherecode.Prelude.{
  ℕ, zero, suc, String, ◌==◌, Bool, true, false, not, ◌&&◌, Option, none, some, List, [], ◌∷◌, ◌++◌,
  map, keep, any, contains, is_empty, length, if◌then◌else◌,
}
use wherecode.Py.{Outcome, returned, raised, no_modules}
use wherecode.Models.{WorkItem, WorkItemStatus, strip_ids}

-- list(dict.fromkeys(values)): the first occurrence of each
abbrev pub unique_from : List String → List String → List String
unique_from seen [] = []
unique_from seen (x ∷ xs) =
    let skipped = unique_from seen xs in
    let taken = unique_from (x ∷ seen) xs in if contains seen x then skipped else x ∷ taken

unfoldable pub normalize_modules : List String → Outcome (List String)
normalize_modules modules =
    let unique_modules = unique_from [] (strip_ids modules) in
    if is_empty unique_modules then raised no_modules else returned unique_modules

unfoldable pub rewrite_integration_dependencies : List String → String → String → List String
rewrite_integration_dependencies [] old_terminal_id new_terminal_id = []
rewrite_integration_dependencies (d ∷ ds) old_terminal_id new_terminal_id =
    (if d == old_terminal_id then new_terminal_id else d)
    ∷ rewrite_integration_dependencies ds old_terminal_id new_terminal_id

abbrev pub last_or_none : List String → List String
last_or_none [] = []
last_or_none (x ∷ []) = x ∷ []
last_or_none (x ∷ y ∷ xs) = last_or_none (y ∷ xs)

-- item_id in internal_referenced
abbrev pub is_referenced : List WorkItem → String → Bool
is_referenced created id = any (λ (item : WorkItem). contains item.depends_on id) created

unfoldable pub derive_terminal_ids : List WorkItem → List String
derive_terminal_ids created =
    let created_ids = map (λ (item : WorkItem). item.id) created in
    let terminal_ids = keep (λ id. not (is_referenced created id)) created_ids in
    if is_empty terminal_ids then last_or_none created_ids else terminal_ids

-- item.status in pending_like
abbrev is_pending_like : WorkItemStatus → Bool
is_pending_like WorkItemStatus.pending = true
is_pending_like WorkItemStatus.ready = true
is_pending_like WorkItemStatus.needs_discussion = true
is_pending_like WorkItemStatus.running = true
is_pending_like _ = false

-- item.module_key == target_module
abbrev same_module : Option String → Option String → Bool
same_module none none = true
same_module none (some m) = false
same_module (some k) none = false
same_module (some k) (some m) = k == m

-- The local variables of the search. The top of the frontier stands first.
pub record Search : Type 0 where
  pub frontier : List String
  pub visited : List String
  pub descendants : List WorkItem

-- The item depends on the current one and is of the same module and unfinished.
abbrev pub follows : String → Option String → WorkItem → Bool
follows current target_module item =
    contains item.depends_on current
    && same_module item.module_key target_module
    && is_pending_like item.status

abbrev pub visit : WorkItem → Search → Search
visit item st = record {
  frontier = item.id ∷ st.frontier;
  visited = item.id ∷ st.visited;
  descendants = st.descendants ++ item ∷ [];
}

-- the body of the inner loop
unfoldable pub visit_item : String → Option String → WorkItem → Search → Search
visit_item current target_module item st =
    if contains st.visited item.id
    then st
    else if follows current target_module item
    then visit item st
    else st

unfoldable pub visit_each : String → Option String → List WorkItem → Search → Search
visit_each current target_module [] st = st
visit_each current target_module (item ∷ items) st =
    visit_each current target_module items (visit_item current target_module item st)

-- while frontier: a number of rounds bounds the loop
unfoldable pub search_on : ℕ → Option String → List WorkItem → Search → Option Search
search_on zero target_module run_items st = if is_empty st.frontier then some st else none
search_on (suc n) target_module run_items st = elim st.frontier [
  | [] ↦ some st
  | current ∷ rest ↦
      search_on n target_module run_items
        (visit_each current target_module run_items (record st { frontier = rest }))
]

abbrev pub start_search : WorkItem → Search
start_search failed_workitem = record {
  frontier = failed_workitem.id ∷ [];
  visited = [];
  descendants = [];
}

-- one round for the failed item, and one for each item of the run
unfoldable pub find_module_descendants : List WorkItem → WorkItem → Option Search
find_module_descendants run_items failed_workitem =
    search_on (suc (length run_items)) failed_workitem.module_key run_items
      (start_search failed_workitem)
