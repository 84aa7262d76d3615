-- ===== src/Policy/Effects/Quiet.antt =====
-- The methods of the approvals and the purges leave the policy and the audit entries alone.
use wherecode.Prelude.{ℕ, String, ◌≡◌, refl, Bool, Option, none, some}
use wherecode.Py.{raise, assign}
use wherecode.Py.Keeps.{Keeps-pure, Keeps-reads, Keeps-bind, keeps_rules}
use wherecode.Policy.State.{
  Signed, Audit, Approval, PurgeEvent, PurgeAudit, Host, PolicyStore, policy_id, record_purge_audit,
  persist_rollback_approval_purge_audits,
}
use wherecode.Policy.Approvals.{
  found_audit, approve_pending, approve_found, create_rollback_approval, approve_rollback_approval,
  list_rollback_approvals, get_rollback_approval_stats,
}
use wherecode.Policy.Cleanup.{
  now_if, write_purge_audit, audit_purge, purge_rollback_approvals,
  purge_rollback_approval_purge_audits,
}
use wherecode.Policy.Effects.Actions.{
  Untouching, assign-Untouching, now-Untouching, refresh-Untouching, persist-Untouching,
  set-Untouching, found-Untouching, given-Untouching,
}

module _ (w : Host) (s : PolicyStore) where
  id-Untouching : (prefix : String) → Untouching w s (policy_id w prefix)
  unfolding policy_id
  id-Untouching prefix = record {
    at = λ t h. record {
      policy = h.policy;
      audits = h.audits;
      policy_file = h.policy_file;
      audit_file = h.audit_file;
    };
  }

  same-Untouching :
      (f : PolicyStore → PolicyStore)
      → ((t : PolicyStore) → (f t).policy ≡ t.policy)
      → ((t : PolicyStore) → (f t).audit_entries ≡ t.audit_entries)
      → ((t : PolicyStore) → (f t).files.policy_file ≡ t.files.policy_file)
      → ((t : PolicyStore) → (f t).files.audit_file ≡ t.files.audit_file)
      → Untouching w s (assign f)
  same-Untouching f k l m n =
      assign-Untouching w s f
        λ t. record { policy = k t; audits = l t; policy_file = m t; audit_file = n t }

  ruleset quiet_rules = (
    keeps_rules, id-Untouching, now-Untouching, refresh-Untouching, persist-Untouching,
    set-Untouching, found-Untouching, given-Untouching,
  )

  audit-Untouching : (id : String) (a : Option Audit) → Untouching w s (found_audit w id a)
  unfolding found_audit raise
  audit-Untouching id none = record { at = λ t h. h }
  audit-Untouching id (some a) = Keeps-pure a

  pub create-Untouching :
      (audit_id by : String) (reason : Option String)
      → Untouching w s (create_rollback_approval w audit_id by reason)
  unfolding create_rollback_approval
  create-Untouching audit_id by reason = Keeps-bind (Keeps-reads _) λ target.
      Keeps-bind (audit-Untouching audit_id target) λ audit. Keeps-bind (now-Untouching w s) λ now.
        Keeps-bind (Keeps-reads _) λ ttl. Keeps-bind (id-Untouching "rap") λ id.
          Keeps-bind (same-Untouching _ (λ t. refl) (λ t. refl) (λ t. refl) (λ t. refl))
            λ u. Keeps-bind (persist-Untouching w s) λ v. Keeps-pure _

  pending-Untouching : (id by : String) (a : Approval) → Untouching w s (approve_pending w id by a)
  unfolding approve_pending
  pending-Untouching id by a = search quiet_rules depth 16

  approve_found-Untouching :
      (id by : String) (a : Approval) → Untouching w s (approve_found w id by a)
  unfolding approve_found
  approve_found-Untouching id by a = search (quiet_rules, pending-Untouching)

  pub approve-Untouching : (id by : String) → Untouching w s (approve_rollback_approval w id by)
  unfolding approve_rollback_approval
  approve-Untouching id by = search (quiet_rules, approve_found-Untouching) depth 12

  pub list-Untouching :
      (limit : Signed) (status : Option String)
      → Untouching w s (list_rollback_approvals w limit status)
  unfolding list_rollback_approvals
  list-Untouching limit status = search quiet_rules

  pub stats-Untouching : Untouching w s (get_rollback_approval_stats w)
  unfolding get_rollback_approval_stats
  stats-Untouching = search quiet_rules

  now_if-Untouching : (older : Option Signed) → Untouching w s (now_if w older)
  unfolding now_if
  now_if-Untouching none = Keeps-pure 0
  now_if-Untouching (some seconds) = now-Untouching w s

  record-Untouching : (entry : PurgeAudit) → Untouching w s (record_purge_audit entry)
  unfolding record_purge_audit
  record-Untouching entry = same-Untouching _ (λ t. refl) (λ t. refl) (λ t. refl) (λ t. refl)

  audits-Untouching : Untouching w s persist_rollback_approval_purge_audits
  unfolding persist_rollback_approval_purge_audits
  audits-Untouching = same-Untouching _ (λ t. refl) (λ t. refl) (λ t. refl) (λ t. refl)

  write-Untouching :
      (event : PurgeEvent) (actor : String) (dry_run : Bool) (older : Option Signed) (m n : ℕ)
      → Untouching w s (write_purge_audit w event actor dry_run older m n)
  unfolding write_purge_audit
  write-Untouching event actor dry_run older m n = search (quiet_rules, record-Untouching) depth 12

  audit_purge-Untouching :
      (event : PurgeEvent) (by : Option String) (dry_run : Bool) (older : Option Signed) (m n : ℕ)
      → Untouching w s (audit_purge w event by dry_run older m n)
  unfolding audit_purge
  audit_purge-Untouching event by dry_run older m n = search (quiet_rules, write-Untouching)

  pub purge-Untouching :
      (remove_used remove_expired dry_run : Bool) (older : Option Signed) (by : Option String)
      → Untouching w s (purge_rollback_approvals w remove_used remove_expired dry_run older by)
  unfolding purge_rollback_approvals
  purge-Untouching remove_used remove_expired dry_run older by =
      Keeps-bind (refresh-Untouching w s _) λ n. Keeps-bind (now_if-Untouching older) λ now.
        Keeps-bind (Keeps-reads _) λ result.
          Keeps-bind
            (given-Untouching w s _
              (same-Untouching _ (λ t. refl) (λ t. refl) (λ t. refl) (λ t. refl)))
            λ u.
              Keeps-bind (given-Untouching w s _ (persist-Untouching w s))
                λ v. Keeps-bind (audit_purge-Untouching _ by dry_run older _ _) λ id. Keeps-pure _

  pub gc-Untouching :
      (dry_run : Bool) (older : Option Signed) (keep_latest : Signed) (by : Option String)
      → Untouching w s (purge_rollback_approval_purge_audits w dry_run older keep_latest by)
  unfolding purge_rollback_approval_purge_audits
  gc-Untouching dry_run older keep_latest by = Keeps-bind (now_if-Untouching older) λ now.
      Keeps-bind (Keeps-reads _) λ result.
        Keeps-bind
          (given-Untouching w s _
            (same-Untouching _ (λ t. refl) (λ t. refl) (λ t. refl) (λ t. refl)))
          λ u.
            Keeps-bind (given-Untouching w s _ audits-Untouching)
              λ v. Keeps-bind (audit_purge-Untouching _ by dry_run older _ _) λ id. Keeps-pure _
