-- ===== src/Engine/Bootstrap.antt =====
-- `bootstrap_standard_pipeline` of WorkflowEngine.
use Prim.Native.String.{◌++◌}
use mathlib.Core.List
use wherecode.Prelude.{
  String, ◌==◌, Bool, true, false, not, ◌&&◌, Option, none, some, List, [], ◌∷◌, is_empty,
  if◌then◌else◌,
}
use wherecode.Text.{strip, is_truthy}
use wherecode.Dict.{Dict, get, put, get_list}
use wherecode.Value.{Value, text, array, object, Fields, end, field, text_items}
use wherecode.Py.{◌>>=◌, ◌>>◌, pure, reads, guard, value_error}
use wherecode.Models.{WorkItem, ArtifactType}
use wherecode.Scheduler.State.{Method, get_run, list_workitems}
use wherecode.Scheduler.Create.{
  NewWorkItem, NewArtifact, add_workitem, create_run_artifact, persist_run,
}
use wherecode.Engine.Helpers.{unique_from, normalize_modules, derive_terminal_ids}
use wherecode.Engine.State.{Setting, note_run, plan_run, get_field, put_field}
use wherecode.Engine.Spec.{ItemSpec, build_task_package_item_spec}
use wherecode.Engine.Reflow.{module_stages}

abbrev global_stages : List String
global_stages = "integration-test" ∷ "acceptance" ∷ "release-manager" ∷ []

abbrev pub default_package : String → List String → List Fields
default_package module_key [] = []
default_package module_key (role ∷ roles) =
    field "role" (text role)
      (field "objective" (text ("execute " ++ role ++ " stage for module " ++ module_key)) end)
    ∷ default_package module_key roles

-- the identifiers of the latest items with the roles
abbrev pub latest_ids : Dict String → List String → List String
latest_ids latest [] = []
latest_ids latest (role ∷ roles) =
    let rest = latest_ids latest roles in
    elim (get latest role) [ none ↦ rest | some id ↦ if is_truthy id then id ∷ rest else rest ]

abbrev pub last_id : List WorkItem → List String
last_id [] = []
last_id (item ∷ []) = item.id ∷ []
last_id (item ∷ other ∷ items) = last_id (other ∷ items)

abbrev pub or_last : List String → List WorkItem → List String
or_last [] created = last_id created
or_last (id ∷ ids) created = id ∷ ids

abbrev pub package_item : String → ItemSpec → List String → NewWorkItem
package_item module_key spec depends_on = record {
  role = spec.role;
  module_key = some module_key;
  assignee_agent = "auto-agent";
  depends_on = some depends_on;
  priority = spec.priority;
  requires_approval = spec.requires_approval;
  discussion_budget = 2;
  discussion_timeout_seconds = 120;
  metadata = some spec.metadata;
}

abbrev pub global_item : String → List String → Bool → NewWorkItem
global_item role depends_on requires_approval = record {
  role = role;
  module_key = some "global";
  assignee_agent = "auto-agent";
  depends_on = some depends_on;
  priority = 3;
  requires_approval = requires_approval;
  discussion_budget = 2;
  discussion_timeout_seconds = 120;
  metadata = some (
      ("task_source", text "chief_decomposition")
      ∷ ("task_objective", text ("execute " ++ role ++ " stage for global"))
      ∷ []);
}

-- The local variables that the loop over the modules fills.
pub record Pipeline : Type 0 where
  pub created : List WorkItem
  pub terminal_ids : List String
  pub terminal_id_map : Fields
  pub terminal_ids_map : Fields

abbrev pub last_text : List String → String
last_text [] = ""
last_text (x ∷ []) = x
last_text (x ∷ y ∷ xs) = last_text (y ∷ xs)

abbrev pub with_module : String → List WorkItem → Pipeline → Pipeline
with_module module_key items p =
    let terminal_ids = derive_terminal_ids items in
    record {
      created = List.◌++◌ p.created items;
      terminal_ids = List.◌++◌ p.terminal_ids terminal_ids;
      terminal_id_map = put_field p.terminal_id_map module_key (text (last_text terminal_ids));
      terminal_ids_map = put_field p.terminal_ids_map module_key (array (text_items terminal_ids));
    }

abbrev pub sdd_artifact : String → String → NewArtifact
sdd_artifact run_id stage = record {
  artifact_type = ArtifactType.plan;
  title = "SDD " ++ stage;
  uri_or_path = "artifacts/" ++ run_id ++ "/sdd/" ++ stage ++ ".md";
  created_by = "chief-architect";
  checksum = none;
}

abbrev pub names_artifact : Option Value → Bool
names_artifact (some (text t)) = is_truthy (strip t)
names_artifact _ = false

module _ (w : Setting) where
  unfoldable pub bootstrap_items :
      String → String → List Fields → List WorkItem → Dict String → Method (List WorkItem)
  bootstrap_items run_id module_key [] created latest = pure created
  bootstrap_items run_id module_key (item ∷ items) created latest = do
    spec ← reads (λ s. build_task_package_item_spec w item)
    let depends_on = or_last (latest_ids latest spec.depends_on_roles) created
    workitem ← add_workitem w.world run_id (package_item module_key spec depends_on)
    bootstrap_items run_id module_key items (List.◌++◌ created (workitem ∷ []))
        (put latest spec.role workitem.id)

  unfoldable pub bootstrap_module_workitems : String → String → List Fields → Method (List WorkItem)
  bootstrap_module_workitems run_id module_key task_package = do
    created ← bootstrap_items run_id module_key task_package [] []
    guard (not (is_empty created)) (value_error "module task package is empty")
    pure created

  abbrev package_of : Dict (List Fields) → String → List Fields
  package_of packages module_key = elim (get_list packages module_key) [
    | [] ↦ default_package module_key module_stages
    | item ∷ items ↦ item ∷ items
  ]

  unfoldable pub bootstrap_modules :
      String → Dict (List Fields) → List String → Pipeline → Method Pipeline
  bootstrap_modules run_id packages [] p = pure p
  bootstrap_modules run_id packages (module_key ∷ keys) p = do
    items ← bootstrap_module_workitems run_id module_key (package_of packages module_key)
    bootstrap_modules run_id packages keys (with_module module_key items p)

  unfoldable pub bootstrap_stages :
      String → List String → List String → List WorkItem → Method (List WorkItem)
  bootstrap_stages run_id [] depends_on created = pure created
  bootstrap_stages run_id (role ∷ roles) depends_on created = do
    workitem ←
        add_workitem w.world run_id
          (global_item role depends_on ((role == "release-manager") && w.release_requires_approval))
    bootstrap_stages run_id roles (workitem.id ∷ []) (List.◌++◌ created (workitem ∷ []))

  abbrev pub note_stages : Bool → String → Fields → Method Unit
  note_stages true run_id fs = note_run run_id "sdd_stage_artifacts" (object fs)
  note_stages false run_id fs = pure tt

  unfoldable pub add_stage_artifact : Bool → String → String → Fields → Method Fields
  add_stage_artifact shared run_id stage fs = do
    artifact ← create_run_artifact w.world run_id (sdd_artifact run_id stage)
    let after = put_field fs stage (text artifact.id)
    note_stages shared run_id after
    pure after

  -- for stage in ("intent", "spec", "design", "tasks"): a dictionary that stands in the metadata is
  -- written in place
  unfoldable pub stage_artifacts : Bool → String → List String → Fields → Method Fields
  stage_artifacts shared run_id [] fs = pure fs
  stage_artifacts shared run_id (stage ∷ stages) fs = do
    after ←
        if names_artifact (get_field fs stage)
        then pure fs
        else add_stage_artifact shared run_id stage fs
    stage_artifacts shared run_id stages after

  unfoldable pub finish_bootstrap : String → Option Value → Method Unit
  finish_bootstrap run_id (some (object fs)) = do
    after ← stage_artifacts true run_id ("intent" ∷ "spec" ∷ "design" ∷ "tasks" ∷ []) fs
    note_run run_id "sdd_stage_artifacts" (object after)
  finish_bootstrap run_id _ = do
    after ← stage_artifacts false run_id ("intent" ∷ "spec" ∷ "design" ∷ "tasks" ∷ []) end
    note_run run_id "sdd_stage_artifacts" (object after)

  -- without packages, or with an empty one for a module, the standard stages
  unfoldable pub bootstrap_standard_pipeline :
      String → List String → Dict (List Fields) → Method (List WorkItem)
  bootstrap_standard_pipeline run_id modules packages = do
    items ← list_workitems run_id
    guard (is_empty items) (value_error "workflow already has workitems")
    keys ← reads (λ s. normalize_modules modules)
    p ←
        bootstrap_modules run_id packages keys (record {
          created = [];
          terminal_ids = [];
          terminal_id_map = end;
          terminal_ids_map = end;
        })
    created ← bootstrap_stages run_id global_stages (unique_from [] p.terminal_ids) p.created
    note_run run_id "module_terminal_workitems" (object p.terminal_id_map)
    note_run run_id "module_terminal_workitem_ids" (object p.terminal_ids_map)
    note_run run_id "reflow_attempts" (object end)
    plan_run run_id
    run ← get_run run_id
    finish_bootstrap run_id (get run.metadata "sdd_stage_artifacts")
    persist_run w.world run_id
    pure created
