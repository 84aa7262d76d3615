-- ===== src/Policy/Cleanup.antt =====
-- The purges of control_center/services/metrics_alert_policy_store_mutations.py: of approvals that are
-- used or expired, and of the entries that purges leave.
use wherecode.Prelude.{
  ℕ, ◌+◌, String, Bool, not, ◌&&◌, Option, none, some, List, nat_eq, length, or_else, if◌then◌else◌,
}
use wherecode.Text.{strip, is_truthy}
use wherecode.Py.{returned, ◌>>=◌, ◌>>◌, pure, reads, assign}
use wherecode.Policy.State.{
  Signed, stamped, PurgeAudit, PurgeEvent, approval_purge, purge_audit_gc, Host, Step, policy_now,
  policy_id, persist_rollback_approvals, persist_rollback_approval_purge_audits, record_purge_audit,
}
use wherecode.Policy.Purge.{
  compute_rollback_approval_purge_result, compute_rollback_approval_purge_audit_gc_result,
  filter_rollback_approval_purge_audits,
}
use wherecode.Policy.Approvals.{when_given, latest, refresh_rollback_approval_statuses}

-- The results of the purges; the identifier is that of the entry, where one was written.
pub record ApprovalPurge : Type 0 where
  pub removed_used : ℕ
  pub removed_expired : ℕ
  pub removed_total : ℕ
  pub remaining_total : ℕ
  pub purge_audit_id : Option String

pub record AuditPurge : Type 0 where
  pub removed_total : ℕ
  pub remaining_total : ℕ
  pub purge_audit_gc_id : Option String

module _ (w : Host) where
  -- reads the clock if a retention is given
  unfoldable pub now_if : Option Signed → Step ℕ
  now_if none = pure 0
  now_if (some seconds) = policy_now w

  unfoldable pub write_purge_audit :
      PurgeEvent → String → Bool → Option Signed → ℕ → ℕ → Step (Option String)
  write_purge_audit event actor dry_run older_than_seconds removed_total remaining_total = do
    id ← policy_id w "rpg"
    now ← policy_now w
    record_purge_audit record {
      id = id;
      event_type = event;
      requested_by = actor;
      dry_run = dry_run;
      older_than_seconds = older_than_seconds;
      removed_total = removed_total;
      remaining_total = remaining_total;
      created_at = stamped now;
    }
    pure (some id)

  -- the entry of a purge, where an actor is named
  unfoldable pub audit_purge :
      PurgeEvent → Option String → Bool → Option Signed → ℕ → ℕ → Step (Option String)
  audit_purge event requested_by dry_run older_than_seconds removed_total remaining_total =
      let actor = strip (or_else requested_by "") in
      if is_truthy actor
      then write_purge_audit event actor dry_run older_than_seconds removed_total remaining_total
      else pure none

  unfoldable pub purge_rollback_approvals :
      Bool → Bool → Bool → Option Signed → Option String → Step ApprovalPurge
  purge_rollback_approvals remove_used remove_expired dry_run older_than_seconds requested_by = do
    refresh_rollback_approval_statuses w (not dry_run)
    now ← now_if older_than_seconds
    result ← reads λ s. returned (
        compute_rollback_approval_purge_result remove_used remove_expired older_than_seconds now
          s.rollback_approvals)
    let total = result.removed_used + result.removed_expired
    when_given (not dry_run) (assign (λ s. record s { rollback_approvals = result.kept }))
    when_given (not dry_run && not (nat_eq total 0)) persist_rollback_approvals
    id ←
        audit_purge
          (approval_purge remove_used remove_expired result.removed_used result.removed_expired)
          requested_by dry_run older_than_seconds total (length result.kept)
    pure record {
      removed_used = result.removed_used;
      removed_expired = result.removed_expired;
      removed_total = total;
      remaining_total = length result.kept;
      purge_audit_id = id;
    }

  unfoldable pub list_rollback_approval_purge_audits :
      Signed → Option String → Option ℕ → Option ℕ → Step (List PurgeAudit)
  list_rollback_approval_purge_audits limit event_type created_after created_before = reads λ s.
      returned (
        latest limit (
          filter_rollback_approval_purge_audits s.rollback_approval_purge_audits event_type
            created_after created_before))

  unfoldable pub purge_rollback_approval_purge_audits :
      Bool → Option Signed → Signed → Option String → Step AuditPurge
  purge_rollback_approval_purge_audits dry_run older_than_seconds keep_latest requested_by = do
    now ← now_if older_than_seconds
    result ← reads λ s. returned (
        compute_rollback_approval_purge_audit_gc_result s.rollback_approval_purge_audits
          older_than_seconds keep_latest now)
    when_given (not dry_run) (assign (λ s. record s { rollback_approval_purge_audits = result.0 }))
    when_given (not dry_run && not (nat_eq result.1 0)) persist_rollback_approval_purge_audits
    id ←
        audit_purge (purge_audit_gc result.2) requested_by dry_run older_than_seconds result.1
          (length result.0)
    pure record {
      removed_total = result.1;
      remaining_total = length result.0;
      purge_audit_gc_id = id;
    }
