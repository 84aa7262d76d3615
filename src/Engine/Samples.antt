-- ===== src/Engine/Samples.antt =====
-- The theorems about the engine's helpers at concrete work items.
use wherecode.Prelude.{String, ◌≡◌, none, some, false, List, [], ◌∷◌, All}
use wherecode.Models.{WorkItem, WorkItemStatus}
use wherecode.Engine.Helpers.{Search, find_module_descendants, derive_terminal_ids}
use wherecode.Engine.Descendants.{IsDescendant, find_module_descendants-IsDescendant}
use wherecode.Engine.Terminals.{IsTerminals, derive_terminal_ids-IsTerminals}

abbrev sample : String → List String → WorkItem
sample id depends_on = record {
  id = id;
  workflow_run_id = "r";
  module_key = some "m";
  role = "coder";
  assignee_agent = "auto-agent";
  depends_on = depends_on;
  status = WorkItemStatus.pending;
  priority = 3;
  discussion_budget = 2;
  discussion_used = 0;
  discussion_timeout_seconds = 120;
  loop_guard_fingerprint = none;
  requires_approval = false;
  started_at = none;
  finished_at = none;
  created_at = 0;
  updated_at = 0;
  metadata = [];
}

-- a chain of three
abbrev chain : List WorkItem
chain = sample "a" [] ∷ sample "b" ("a" ∷ []) ∷ sample "c" ("b" ∷ []) ∷ []

find_module_descendants-IsDescendant_example :
    (end : Search) × (find_module_descendants chain (sample "a" []) ≡ some end)
    × All (IsDescendant (some "m") chain "a") end.descendants
find_module_descendants-IsDescendant_example =
    find_module_descendants-IsDescendant chain (sample "a" [])

derive_terminal_ids-IsTerminals_example : IsTerminals chain (derive_terminal_ids chain)
derive_terminal_ids-IsTerminals_example = derive_terminal_ids-IsTerminals chain
