-- ===== src/Orchestrator/Summary.antt =====
-- `get_metrics_summary` of InMemoryOrchestrator, with MetricsSummaryResponse and
-- MetricsWindowSummary of control_center/models/api.py.
use wherecode.Prelude.{
  ℕ, ◌+◌, ◌*◌, String, Bool, false, ◌&&◌, ◌||◌, Option, none, some, List, [], ◌∷◌, ◌++◌, map, keep,
  is_empty, length, leb, nat_eq, if◌then◌else◌,
}
use wherecode.Text.{is_truthy}
use wherecode.Value.{Value, text}
use wherecode.Dict.{Dict, get, values}
use wherecode.Py.{returned, ◌>>=◌, ◌>>◌, reads}
use wherecode.Models.Hierarchy.{Command, is_success, is_failed, is_waiting, is_queued, is_running}
use wherecode.Scheduler.Metrics.{count_keys}
use wherecode.Orchestrator.State.{Setting, Action, read_clock}
use wherecode.Orchestrator.Advance.{advance_all_commands}

-- A float of the summary, as the expression that gives it: 0.0; `round(part / whole, 4)`; or
-- `round(sum(durations) / len(durations), 2)`, where a duration is that between two times, in
-- milliseconds.
pub data Rounded : Type 0 where
  zero_float : Rounded
  rate : ℕ → ℕ → Rounded
  average : List (ℕ × ℕ) → Rounded

pub record MetricsWindowSummary : Type 0 where
  pub window_minutes : ℕ
  pub total_commands : ℕ
  pub success_count : ℕ
  pub failed_count : ℕ
  pub success_rate : Rounded
  pub average_duration_ms : Rounded

pub record MetricsSummaryResponse : Type 0 where
  pub total_projects : ℕ
  pub total_tasks : ℕ
  pub total_commands : ℕ
  pub in_flight_command_count : ℕ
  pub waiting_approval_count : ℕ
  pub success_count : ℕ
  pub failed_count : ℕ
  pub success_rate : Rounded
  pub average_duration_ms : Rounded
  pub executor_agent_counts : Dict ℕ
  pub routing_reason_counts : Dict ℕ
  pub routing_keyword_counts : Dict ℕ
  pub routing_rule_counts : Dict ℕ
  pub recent_windows : List MetricsWindowSummary

-- sum(1 for command in commands if ...)
abbrev pub count_commands : (Command → Bool) → List Command → ℕ
count_commands p commands = length (keep p commands)

abbrev pub in_flight : Command → Bool
in_flight c = is_queued c.status || is_running c.status

abbrev pub succeeded : Command → Bool
succeeded c = is_success c.status

abbrev pub has_failed : Command → Bool
has_failed c = is_failed c.status

unfoldable pub rate_of : ℕ → ℕ → Rounded
rate_of part whole = if nat_eq whole 0 then zero_float else rate part whole

abbrev span : Option ℕ → Option ℕ → List (ℕ × ℕ)
span (some started) (some finished) = (started, finished) ∷ []
span (some started) none = []
span none finished = []

-- the commands with both times
unfoldable pub durations : List Command → List (ℕ × ℕ)
durations [] = []
durations (c ∷ commands) = span c.started_at c.finished_at ++ durations commands

unfoldable pub average_of : List (ℕ × ℕ) → Rounded
average_of spans = if is_empty spans then zero_float else average spans

abbrev filled : String → List String
filled key = if is_truthy key then key ∷ [] else []

abbrev pub agent_key : Option String → List String
agent_key none = []
agent_key (some agent) = filled agent

-- isinstance(value, str) and value
abbrev pub text_key : Option Value → List String
text_key (some (text key)) = filled key
text_key (some _) = []
text_key none = []

-- the keys that the loop over the commands counts
unfoldable pub collect_keys : (Command → List String) → List Command → List String
collect_keys f [] = []
collect_keys f (c ∷ commands) = f c ++ collect_keys f commands

unfoldable pub count_by : (Command → List String) → List Command → Dict ℕ
count_by f commands = count_keys (collect_keys f commands) []

abbrev pub metadata_key : String → Command → List String
metadata_key key c = text_key (get c.metadata key)

-- t >= now - timedelta(minutes=minutes)
abbrev pub within : ℕ → ℕ → ℕ → Bool
within now minutes t = leb now (t + minutes * 60000000)

abbrev pub finished_within : ℕ → ℕ → Option ℕ → Bool
finished_within now minutes none = false
finished_within now minutes (some t) = within now minutes t

unfoldable pub window_summary : ℕ → List Command → ℕ → MetricsWindowSummary
window_summary now commands minutes =
    let recent = keep (λ (c : Command). within now minutes c.created_at) commands in
    let success =
      keep (λ (c : Command). succeeded c && finished_within now minutes c.finished_at) commands in
    let failed =
      keep (λ (c : Command). has_failed c && finished_within now minutes c.finished_at) commands in
    record {
      window_minutes = minutes;
      total_commands = length recent;
      success_count = length success;
      failed_count = length failed;
      success_rate = rate_of (length success) (length success + length failed);
      average_duration_ms = average_of (durations (success ++ failed));
    }

unfoldable pub summarise : ℕ → ℕ → ℕ → List Command → MetricsSummaryResponse
summarise now projects tasks commands =
    let success = count_commands succeeded commands in
    let failed = count_commands has_failed commands in
    record {
      total_projects = projects;
      total_tasks = tasks;
      total_commands = length commands;
      in_flight_command_count = count_commands in_flight commands;
      waiting_approval_count = count_commands (λ (c : Command). is_waiting c.status) commands;
      success_count = success;
      failed_count = failed;
      success_rate = rate_of success (success + failed);
      average_duration_ms =
          average_of (durations (keep (λ (c : Command). succeeded c || has_failed c) commands));
      executor_agent_counts = count_by (λ (c : Command). agent_key c.executor_agent) commands;
      routing_reason_counts = count_by (metadata_key "routing_reason") commands;
      routing_keyword_counts = count_by (metadata_key "routing_keyword") commands;
      routing_rule_counts = count_by (metadata_key "routing_rule_id") commands;
      recent_windows = map (window_summary now commands) (5 ∷ 15 ∷ 60 ∷ []);
    }

module _ (w : Setting) where
  unfoldable pub get_metrics_summary : Action MetricsSummaryResponse
  get_metrics_summary = do
    advance_all_commands w
    commands ← reads (λ s. returned (values s.commands))
    now ← read_clock w
    reads (λ s. returned (summarise now (length s.projects) (length s.tasks) commands))
