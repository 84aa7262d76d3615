-- ===== src/Scheduler/Metrics.antt =====
-- `build_scheduler_metrics` of control_center/services/workflow_scheduler_status.py.
use wherecode.Prelude.{ℕ, suc, String, List, [], ◌∷◌, length, map, or_else}
use wherecode.Dict.{Dict, get, put, values}
use wherecode.Py.{returned, reads}
use wherecode.Models.{
  WorkflowRun, WorkItem, GateCheck, Artifact, run_status_value, workitem_status_value,
  gate_status_value, artifact_type_value,
}
use wherecode.Scheduler.State.{Method}

-- counts[key] = counts.get(key, 0) + 1, for each key
unfoldable pub count_keys : List String → Dict ℕ → Dict ℕ
count_keys [] counts = counts
count_keys (key ∷ keys) counts = count_keys keys (put counts key (suc (or_else (get counts key) 0)))

pub record SchedulerMetrics : Type 0 where
  pub total_runs : ℕ
  pub run_status_counts : Dict ℕ
  pub total_workitems : ℕ
  pub workitem_status_counts : Dict ℕ
  pub total_gate_checks : ℕ
  pub gate_status_counts : Dict ℕ
  pub total_artifacts : ℕ
  pub artifact_type_counts : Dict ℕ

unfoldable pub build_scheduler_metrics :
    Dict WorkflowRun → Dict WorkItem → Dict GateCheck → Dict Artifact → SchedulerMetrics
build_scheduler_metrics runs workitems gate_checks artifacts = record {
  total_runs = length runs;
  run_status_counts =
      count_keys (map (λ (r : WorkflowRun). run_status_value r.status) (values runs)) [];
  total_workitems = length workitems;
  workitem_status_counts =
      count_keys (map (λ (i : WorkItem). workitem_status_value i.status) (values workitems)) [];
  total_gate_checks = length gate_checks;
  gate_status_counts =
      count_keys (map (λ (g : GateCheck). gate_status_value g.status) (values gate_checks)) [];
  total_artifacts = length artifacts;
  artifact_type_counts =
      count_keys (map (λ (a : Artifact). artifact_type_value a.artifact_type) (values artifacts))
        [];
}

unfoldable pub get_metrics : Method SchedulerMetrics
get_metrics =
    reads (λ s. returned (build_scheduler_metrics s.runs s.workitems s.gate_checks s.artifacts))
