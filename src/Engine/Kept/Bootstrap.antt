-- ===== src/Engine/Kept/Bootstrap.antt =====
-- The bootstrap of a run keeps what the scheduler's methods keep.
use wherecode.Prelude.{String, Bool, true, false, Option, none, some, List, [], ◌∷◌}
use wherecode.Dict.{Dict}
use wherecode.Value.{Value, null, boolean, number, text, array, object, Fields}
use wherecode.Py.Keeps.{Keeps-pure, Keeps-reads, Keeps-if, Keeps-guard, Keeps-bind}
use wherecode.Models.{WorkItem}
use wherecode.Scheduler.State.{Scheduler}
use wherecode.Engine.State.{Setting}
use wherecode.Engine.Bootstrap.{
  Pipeline, bootstrap_items, bootstrap_module_workitems, bootstrap_modules, bootstrap_stages,
  note_stages, add_stage_artifact, stage_artifacts, finish_bootstrap, bootstrap_standard_pipeline,
}
use wherecode.Engine.Kept.{
  IsKept, Keeping, note_run-Keeping, add-Keeping, run_artifact-Keeping, client_rules,
}

module _ (w : Setting) {I : Scheduler → Type 0} (k : IsKept w.world I) where
  items-Keeping :
      (run_id module_key : String) (items : List Fields) (created : List WorkItem)
      (latest : Dict String)
      → Keeping k (bootstrap_items w run_id module_key items created latest)
  unfolding bootstrap_items
  items-Keeping run_id module_key [] created latest = Keeps-pure created
  items-Keeping run_id module_key (item ∷ items) created latest = Keeps-bind (Keeps-reads _) λ spec.
      Keeps-bind (add-Keeping k run_id _) λ workitem. items-Keeping run_id module_key items _ _

  module_workitems-Keeping :
      (run_id module_key : String) (task_package : List Fields)
      → Keeping k (bootstrap_module_workitems w run_id module_key task_package)
  unfolding bootstrap_module_workitems
  module_workitems-Keeping run_id module_key task_package =
      Keeps-bind (items-Keeping run_id module_key task_package [] [])
        λ created. Keeps-bind (Keeps-guard _ _) λ _. Keeps-pure created

  modules-Keeping :
      (run_id : String) (packages : Dict (List Fields)) (keys : List String) (p : Pipeline)
      → Keeping k (bootstrap_modules w run_id packages keys p)
  unfolding bootstrap_modules
  modules-Keeping run_id packages [] p = Keeps-pure p
  modules-Keeping run_id packages (key ∷ keys) p =
      Keeps-bind (module_workitems-Keeping run_id key _)
        λ items. modules-Keeping run_id packages keys _

  stages-Keeping :
      (run_id : String) (roles depends_on : List String) (created : List WorkItem)
      → Keeping k (bootstrap_stages w run_id roles depends_on created)
  unfolding bootstrap_stages
  stages-Keeping run_id [] depends_on created = Keeps-pure created
  stages-Keeping run_id (role ∷ roles) depends_on created =
      Keeps-bind (add-Keeping k run_id _) λ workitem. stages-Keeping run_id roles _ _

  note_stages-Keeping :
      (shared : Bool) (run_id : String) (fs : Fields) → Keeping k (note_stages w shared run_id fs)
  note_stages-Keeping true run_id fs = note_run-Keeping k run_id "sdd_stage_artifacts" _
  note_stages-Keeping false run_id fs = Keeps-pure tt

  add_stage-Keeping :
      (shared : Bool) (run_id stage : String) (fs : Fields)
      → Keeping k (add_stage_artifact w shared run_id stage fs)
  unfolding add_stage_artifact
  add_stage-Keeping shared run_id stage fs =
      Keeps-bind (run_artifact-Keeping k run_id _)
        λ artifact. Keeps-bind (note_stages-Keeping shared run_id _) λ _. Keeps-pure _

  artifacts-Keeping :
      (shared : Bool) (run_id : String) (stages : List String) (fs : Fields)
      → Keeping k (stage_artifacts w shared run_id stages fs)
  unfolding stage_artifacts
  artifacts-Keeping shared run_id [] fs = Keeps-pure fs
  artifacts-Keeping shared run_id (stage ∷ stages) fs =
      Keeps-bind (Keeps-if _ (λ e. Keeps-pure fs) (λ e. add_stage-Keeping shared run_id stage fs))
        λ after. artifacts-Keeping shared run_id stages after

  finish-Keeping : (run_id : String) (v : Option Value) → Keeping k (finish_bootstrap w run_id v)
  unfolding finish_bootstrap
  finish-Keeping run_id (some (object fs)) = search (client_rules, artifacts-Keeping)
  finish-Keeping run_id none = search (client_rules, artifacts-Keeping)
  finish-Keeping run_id (some null) = search (client_rules, artifacts-Keeping)
  finish-Keeping run_id (some (boolean b)) = search (client_rules, artifacts-Keeping)
  finish-Keeping run_id (some (number n)) = search (client_rules, artifacts-Keeping)
  finish-Keeping run_id (some (text t)) = search (client_rules, artifacts-Keeping)
  finish-Keeping run_id (some (array xs)) = search (client_rules, artifacts-Keeping)

  pub bootstrap-Keeping :
      (run_id : String) (modules : List String) (packages : Dict (List Fields))
      → Keeping k (bootstrap_standard_pipeline w run_id modules packages)
  unfolding bootstrap_standard_pipeline
  bootstrap-Keeping run_id modules packages =
      search (client_rules, modules-Keeping, stages-Keeping, finish-Keeping) depth 30
