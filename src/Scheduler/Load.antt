-- ===== src/Scheduler/Load.antt =====
-- control_center/services/workflow_scheduler_indexes.py, and the restart of WorkflowScheduler on a
-- state store.
use wherecode.Prelude.{
  ℕ, String, ◌==◌, Bool, ◌&&◌, ◌||◌, Option, none, some, List, [], ◌∷◌, leb, ltb, nat_eq,
}
use text.Mathlib.Text.{is_lt}
use Prim.Native.String.{compare}
use wherecode.Prelude.Sort.{sorted}
use wherecode.Dict.{Dict, get, put, values}
use wherecode.Models.{
  WorkflowRun, WorkItem, DiscussionSession, GateCheck, Artifact, ArtifactOwnerType,
}
use wherecode.Scheduler.State.{Store, Scheduler, append_to}

-- The order of the pairs (a, b, c) <= (x, y, z) of a text and two numbers.
abbrev triple_leb : String → ℕ → ℕ → String → ℕ → ℕ → Bool
triple_leb a b c x y z = is_lt (compare a x) || a == x && (ltb b y || nat_eq b y && leb c z)

abbrev index_workitems :
    List WorkItem → Dict (List String) × Dict String → Dict (List String) × Dict String
index_workitems [] indexes = indexes
index_workitems (item ∷ items) (run_workitems, workitem_run) = index_workitems items (
  append_to run_workitems item.workflow_run_id item.id,
  put workitem_run item.id item.workflow_run_id,
)

unfoldable pub build_workitem_indexes : Dict WorkItem → Dict (List String) × Dict String
build_workitem_indexes workitems =
    index_workitems (sorted (λ a b. leb a.created_at b.created_at) (values workitems)) ([], [])

abbrev index_discussions : List DiscussionSession → Dict (List String) → Dict (List String)
index_discussions [] index = index
index_discussions (session ∷ rest) index =
    index_discussions rest (append_to index session.workitem_id session.id)

unfoldable pub build_discussion_indexes : Dict DiscussionSession → Dict (List String)
build_discussion_indexes discussions =
    index_discussions
      (sorted
        (λ a b. triple_leb a.workitem_id a.round a.created_at b.workitem_id b.round b.created_at)
        (values discussions))
      []

abbrev index_gates :
    List GateCheck
    → Dict (List String) × Dict (List String)
    → Dict (List String) × Dict (List String)
index_gates [] indexes = indexes
index_gates (gate ∷ rest) (run_gate_checks, workitem_gate_checks) = index_gates rest (
  append_to run_gate_checks gate.workflow_run_id gate.id,
  append_to workitem_gate_checks gate.workitem_id gate.id,
)

unfoldable pub build_gate_indexes : Dict GateCheck → Dict (List String) × Dict (List String)
build_gate_indexes gate_checks =
    index_gates
      (sorted
        (λ a b.
          triple_leb a.workitem_id a.attempt a.created_at b.workitem_id b.attempt b.created_at)
        (values gate_checks))
      ([], [])

-- the run that an artifact belongs to, if there is one
abbrev run_of_artifact : Dict String → Artifact → ArtifactOwnerType → Option String
run_of_artifact workitem_run artifact ArtifactOwnerType.workitem =
    get workitem_run artifact.owner_id
run_of_artifact workitem_run artifact ArtifactOwnerType.workflow_run = some artifact.owner_id
run_of_artifact workitem_run artifact _ = none

abbrev append_if : Dict (List String) → Option String → String → Dict (List String)
append_if index none id = index
append_if index (some run_id) id = append_to index run_id id

abbrev owned_by_item : ArtifactOwnerType → Artifact → Dict (List String) → Dict (List String)
owned_by_item ArtifactOwnerType.workitem artifact index =
    append_to index artifact.owner_id artifact.id
owned_by_item _ artifact index = index

abbrev index_artifacts :
    Dict String
    → List Artifact
    → Dict (List String) × Dict (List String)
    → Dict (List String) × Dict (List String)
index_artifacts workitem_run [] indexes = indexes
index_artifacts workitem_run (artifact ∷ rest) (run_artifacts, workitem_artifacts) =
    index_artifacts workitem_run rest (
      append_if run_artifacts (run_of_artifact workitem_run artifact artifact.owner_type)
          artifact.id,
      owned_by_item artifact.owner_type artifact workitem_artifacts,
    )

unfoldable pub build_artifact_indexes :
    Dict Artifact → Dict String → Dict (List String) × Dict (List String)
build_artifact_indexes artifacts workitem_run =
    index_artifacts workitem_run (sorted (λ a b. leb a.created_at b.created_at) (values artifacts))
      ([], [])

-- {item.id: item for item in rows}
abbrev by_key : {A : Type 0} → (A → String) → List A → Dict A → Dict A
by_key key [] d = d
by_key key (a ∷ rows) d = by_key key rows (put d (key a) a)

-- self._rebuild_indexes()
unfoldable pub rebuild_indexes : Scheduler → Scheduler
rebuild_indexes s =
    let (run_workitems, workitem_run) = build_workitem_indexes s.workitems in
    let (run_gate_checks, workitem_gate_checks) = build_gate_indexes s.gate_checks in
    let (run_artifacts, workitem_artifacts) = build_artifact_indexes s.artifacts workitem_run in
    record s {
      run_workitems = run_workitems;
      workitem_run = workitem_run;
      workitem_discussions = build_discussion_indexes s.discussions;
      run_gate_checks = run_gate_checks;
      workitem_gate_checks = workitem_gate_checks;
      run_artifacts = run_artifacts;
      workitem_artifacts = workitem_artifacts;
    }

abbrev blank_scheduler : Option Store → ℕ → ℕ → Scheduler
blank_scheduler state_store clock_reads issued_ids = record {
  runs = [];
  workitems = [];
  run_workitems = [];
  workitem_run = [];
  discussions = [];
  workitem_discussions = [];
  gate_checks = [];
  run_gate_checks = [];
  workitem_gate_checks = [];
  artifacts = [];
  run_artifacts = [];
  workitem_artifacts = [];
  state_store = state_store;
  clock_reads = clock_reads;
  issued_ids = issued_ids;
}

-- WorkflowScheduler(state_store). SQLite lists the rows of a type in an order of its own, which is
-- the argument.
unfoldable pub load_state : ((A : Type 0) → Dict A → List A) → Option Store → ℕ → ℕ → Scheduler
load_state list_rows none clock_reads issued_ids = blank_scheduler none clock_reads issued_ids
load_state list_rows (some store) clock_reads issued_ids =
    rebuild_indexes (record (blank_scheduler (some store) clock_reads issued_ids) {
      runs = by_key (λ (r : WorkflowRun). r.id) (list_rows WorkflowRun store.workflow_run) [];
      workitems = by_key (λ (i : WorkItem). i.id) (list_rows WorkItem store.workitem) [];
      discussions =
          by_key (λ (d : DiscussionSession). d.id)
            (list_rows DiscussionSession store.discussion_session) [];
      gate_checks = by_key (λ (g : GateCheck). g.id) (list_rows GateCheck store.gate_check) [];
      artifacts = by_key (λ (a : Artifact). a.id) (list_rows Artifact store.artifact) [];
    })
