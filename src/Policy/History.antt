-- ===== src/Policy/History.antt =====
-- Any sequence of calls of MetricsAlertPolicyStore's methods on policies, approvals and purges, with
-- restarts between them.
use wherecode.Prelude.{String, Bool, Option, List, [], ◌∷◌}
use wherecode.Policy.State.{Signed, Payload, Host, PolicyStore}
use wherecode.Policy.Approvals.{
  create_rollback_approval, approve_rollback_approval, consume_rollback_approval,
  list_rollback_approvals, get_rollback_approval_stats,
}
use wherecode.Policy.Cleanup.{purge_rollback_approvals, purge_rollback_approval_purge_audits}
use wherecode.Policy.Rollback.{update_policy, rollback_to_audit}
use wherecode.Policy.Restart.{restart}

-- A call, with the method's arguments in their order. The methods that only read are left out.
pub data Call : Type 0 where
  update : Payload → String → Option String → Call
  rollback : String → String → Option String → Bool → Option String → Option String → Call
  create_approval : String → String → Option String → Call
  approve : String → String → Call
  consume : String → String → String → Call
  see_approvals : Signed → Option String → Call
  see_stats : Call
  purge : Bool → Bool → Bool → Option Signed → Option String → Call
  collect_audits : Bool → Option Signed → Signed → Option String → Call
  start_again : Signed → Call

module _ (w : Host) where
  -- The state that a call leaves, also where it raises.
  unfoldable pub perform : Call → PolicyStore → PolicyStore
  perform (update policy by reason) s = (update_policy w policy by reason s).1
  perform (rollback audit_id by reason dry_run key approval_id) s =
      (rollback_to_audit w audit_id by reason dry_run key approval_id s).1
  perform (create_approval audit_id by reason) s =
      (create_rollback_approval w audit_id by reason s).1
  perform (approve approval_id by) s = (approve_rollback_approval w approval_id by s).1
  perform (consume approval_id audit_id by) s =
      (consume_rollback_approval w approval_id audit_id by s).1
  perform (see_approvals limit status) s = (list_rollback_approvals w limit status s).1
  perform see_stats s = (get_rollback_approval_stats w s).1
  perform (purge remove_used remove_expired dry_run older by) s =
      (purge_rollback_approvals w remove_used remove_expired dry_run older by s).1
  perform (collect_audits dry_run older keep_latest by) s =
      (purge_rollback_approval_purge_audits w dry_run older keep_latest by s).1
  perform (start_again ttl) s = (restart w ttl s).1

  unfoldable pub history : List Call → PolicyStore → PolicyStore
  unfolding perform
  history [] s = s
  history (call ∷ calls) s = history calls (perform call s)
