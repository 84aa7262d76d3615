-- ===== src/Orchestrator/Samples.antt =====
-- The theorem about the orchestrator at concrete requests.
use Prim.Native.String.{◌++◌}
use wherecode.Prelude.{ℕ, zero, suc, ◌*◌, String, true, none, some, List, [], ◌∷◌, arith}
use wherecode.Dict.{get}
use wherecode.Models.Hierarchy.{CommandSource}
use wherecode.Orchestrator.State.{Setting, Orchestrator, answered}
use wherecode.Orchestrator.Approval.{IsSafe}
use wherecode.Orchestrator.Requests.{
  Request, new_project, new_task, submit, approve, see_command, see_project, see_metrics, serve_all,
  serve_all-IsSafe,
}

abbrev marks : ℕ → String
marks zero = ""
marks (suc n) = String.◌∷◌ "i" (marks n)

-- Time passes by a second at each reading, and every command succeeds.
abbrev setting : Setting
setting = record {
  now = λ n. 1000000 * n;
  new_id = λ prefix n. prefix ++ marks n;
  action_executor = some λ n command task. (
    command.metadata,
    answered
        (record { status = "success"; summary = "done"; agent = "coding-agent"; trace_id = "t" }),
  );
}

abbrev nothing_yet : Orchestrator
nothing_yet = record {
  projects = [];
  tasks = [];
  commands = [];
  project_tasks = [];
  task_commands = [];
  task_sequence = [];
  state_store = none;
  clock_reads = 0;
  issued_ids = 0;
}

nothing_yet-IsSafe : IsSafe nothing_yet
unfolding get
nothing_yet-IsSafe = record {
  keyed = λ id c found. ground arith;
  cleared = λ id c found. ground arith;
}

abbrev requests : List Request
requests =
    new_project (record { name = "p"; description = none; owner = none; tags = [] })
    ∷ new_task "proj"
        (record { title = "t"; description = none; priority = 3; assignee_agent = "auto-agent" })
    ∷ submit "taski" (record {
      text = "build";
      source = CommandSource.user;
      requested_by = none;
      requires_approval = true;
    })
    ∷ approve "cmdii" "bob"
    ∷ see_command "cmdii"
    ∷ see_project "proj"
    ∷ see_metrics
    ∷ []

serve_all-IsSafe_example : IsSafe (serve_all setting requests nothing_yet)
serve_all-IsSafe_example = serve_all-IsSafe setting requests nothing_yet nothing_yet-IsSafe
