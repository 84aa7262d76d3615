-- ===== src/Policy/Normalize.antt =====
-- `normalize_policy` of control_center/services/metrics_alert_policy_store_policy.py, and a policy as
-- it is written to a file.
use wherecode.Prelude.{
  ℕ, String, ◌≡◌, refl, Bool, true, false, ◌&&◌, nat_eq, Option, none, some, [], ◌∷◌, if◌then◌else◌,
}
use wherecode.Text.{strip, is_truthy}
use wherecode.Dict.{get}
use wherecode.Policy.State.{
  Signed, nonneg, negative, Raw, whole, float, flag, words, unusable, Payload, Policy,
}

unfoldable pub default_policy : Policy
default_policy = record {
  failed_run_delta_gt = 0;
  failed_run_count_gte = 1;
  blocked_run_count_gte = 2;
  waiting_approval_count_gte = 10;
  in_flight_command_count_gte = 50;
}

-- max(value, 0)
abbrev pub clip : Signed → ℕ
clip (nonneg n) = n
clip (negative n) = 0

abbrev int_or : Option Signed → ℕ → ℕ
int_or none default = default
int_or (some value) default = clip value

-- the number for a key: a value that cannot be used gives the default
unfoldable pub normalized : (String → Option Signed) → Option Raw → ℕ → ℕ
normalized int_of_text none default = default
normalized int_of_text (some (whole value)) default = clip value
normalized int_of_text (some (float value)) default = clip value
normalized int_of_text (some (flag true)) default = 1
normalized int_of_text (some (flag false)) default = 0
normalized int_of_text (some (words raw)) default =
    let cleaned = strip raw in
    if is_truthy cleaned then int_or (int_of_text cleaned) default else default
normalized int_of_text (some unusable) default = default

unfoldable pub normalize_policy : (String → Option Signed) → Payload → Policy
unfolding default_policy normalized
normalize_policy int_of_text payload = record {
  failed_run_delta_gt =
      normalized int_of_text (get payload "failed_run_delta_gt") default_policy.failed_run_delta_gt;
  failed_run_count_gte =
      normalized int_of_text (get payload "failed_run_count_gte")
        default_policy.failed_run_count_gte;
  blocked_run_count_gte =
      normalized int_of_text (get payload "blocked_run_count_gte")
        default_policy.blocked_run_count_gte;
  waiting_approval_count_gte =
      normalized int_of_text (get payload "waiting_approval_count_gte")
        default_policy.waiting_approval_count_gte;
  in_flight_command_count_gte =
      normalized int_of_text (get payload "in_flight_command_count_gte")
        default_policy.in_flight_command_count_gte;
}

-- dict(self._policy)
abbrev pub to_payload : Policy → Payload
to_payload policy =
    ("failed_run_delta_gt", whole (nonneg policy.failed_run_delta_gt))
    ∷ ("failed_run_count_gte", whole (nonneg policy.failed_run_count_gte))
    ∷ ("blocked_run_count_gte", whole (nonneg policy.blocked_run_count_gte))
    ∷ ("waiting_approval_count_gte", whole (nonneg policy.waiting_approval_count_gte))
    ∷ ("in_flight_command_count_gte", whole (nonneg policy.in_flight_command_count_gte))
    ∷ []

-- A policy that is written and read again is the same policy.
pub normalize_policy-to_payload :
    (int_of_text : String → Option Signed) (policy : Policy)
    → normalize_policy int_of_text (to_payload policy) ≡ policy
unfolding normalize_policy get
normalize_policy-to_payload int_of_text policy = refl

-- normalized == store._policy
unfoldable pub same_policy : Policy → Policy → Bool
same_policy p q =
    nat_eq p.failed_run_delta_gt q.failed_run_delta_gt
    && nat_eq p.failed_run_count_gte q.failed_run_count_gte
    && nat_eq p.blocked_run_count_gte q.blocked_run_count_gte
    && nat_eq p.waiting_approval_count_gte q.waiting_approval_count_gte
    && nat_eq p.in_flight_command_count_gte q.in_flight_command_count_gte
