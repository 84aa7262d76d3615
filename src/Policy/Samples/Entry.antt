-- ===== src/Policy/Samples/Entry.antt =====
-- The theorem about who is let through, at a request of an operator.
use wherecode.Prelude.{◌≡◌, ◌↔◌, ◌==◌, true, none, some, [], ◌∷◌, if◌then◌else◌}
use wherecode.Py.{returned}
use wherecode.Policy.Authorization.{
  Access, Headers, authorize_metrics_policy_update, authorize_metrics_rollback_approval, IsGranted,
  authorize-IsGranted,
}

abbrev access : Access
access = record {
  auth_enabled = true;
  metrics_policy_update_roles = "ops-admin" ∷ [];
  metrics_rollback_approver_roles = "release-manager" ∷ [];
  lower = λ t. t;
}

abbrev headers : Headers
headers = λ key. if key == "X-WhereCode-Role" then some "ops-admin" else none

authorize-IsGranted_example :
    (authorize_metrics_policy_update access headers "ops-admin" ≡ returned "ops-admin"
      ↔ IsGranted access access.metrics_policy_update_roles headers "ops-admin" "ops-admin")
    × (authorize_metrics_rollback_approval access headers "ops-admin" ≡ returned "ops-admin"
        ↔ IsGranted access access.metrics_rollback_approver_roles headers "ops-admin" "ops-admin")
authorize-IsGranted_example = authorize-IsGranted access headers "ops-admin" "ops-admin"
