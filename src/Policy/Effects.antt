-- ===== src/Policy/Effects.antt =====
-- What `rollback_to_audit` does to the policy and its audit entries, on every path. The proofs are in
-- the modules below.
pub mod Actions
pub mod Rolling
pub mod Quiet
use wherecode.Prelude.{
  ℕ, String, ◌≡◌, refl, sym, ap, ◌∙◌, Bool, true, false, not, ◌&&◌, ◌||◌, Option, none, some, List,
  [], ◌∷◌, ◌++◌, arith, length, or_else, map, Bool-cases, if◌then◌else◌,
}
use wherecode.Text.{strip, is_truthy}
use wherecode.Py.{Outcome, returned, raised, ◌>>=◌, pure, raise, reads, guard, assign}
use wherecode.Py.Keeps.{
  Keeps, Keeps-pure, Keeps-reads, Keeps-bind, Keeps-guard, Keeps-if, Keeps-assign, keeps_rules,
}
use wherecode.Py.Triple.{
  Ends, Triple, Triple-pure, Triple-raise, Triple-reads, Triple-if, Triple-Keeps, Triple-guarded,
  Triple-assign, Triple-bind, Triple-before,
}
use wherecode.Policy.State.{
  Signed, Audit, Approval, Policy, Payload, Host, Files, PolicyStore, Step, policy_now, policy_id,
  record_audit, persist_rollback_approvals,
}
use wherecode.Policy.Normalize.{normalize_policy, to_payload}
use wherecode.Policy.Purge.{is_approved}
use wherecode.Policy.Approvals.{
  get_audit, found_audit, found_approval, when_given, set_approval, use_approval,
  refresh_rollback_approval_statuses, consume_rollback_approval,
}
use wherecode.Policy.Rollback.{
  RollbackResult, stored_request, write_policy, rollback_entry, payload_of, replay_rollback,
  use_given_approval, write_rollback, report_dry_run, apply_rollback, replay_or_apply,
  rollback_to_audit,
}
use wherecode.Policy.Paths.{is_new}

-- Policy, audit entries and their files are those of `s`.
pub record IsUntouched (s t : PolicyStore) : Type 0 where
  pub policy : t.policy ≡ s.policy
  pub audits : t.audit_entries ≡ s.audit_entries
  pub policy_file : t.files.policy_file ≡ s.files.policy_file
  pub audit_file : t.files.audit_file ≡ s.files.audit_file

-- The policy of the target holds, in memory and in the file, and there is one more audit entry.
pub record IsRestored (w : Host) (audit_id : String) (key : Option String) (s t : PolicyStore)
    (r : RollbackResult) : Type 0 where
  pub target : Audit
  pub payload : Payload
  pub entry : Audit
  pub found : get_audit s.audit_entries audit_id ≡ some target
  pub given : target.policy ≡ some payload
  pub policy : t.policy ≡ normalize_policy w.int_of_text payload
  pub policy_file : t.files.policy_file ≡ some (to_payload t.policy)
  pub audits : t.audit_entries ≡ s.audit_entries ++ entry ∷ []
  pub audit_file : t.files.audit_file ≡ s.files.audit_file ++ entry ∷ []
  pub source : entry.rollback_from_audit_id ≡ some audit_id
  pub keyed : entry.rollback_request_id ≡ stored_request (strip (or_else key ""))
  pub result : entry.policy ≡ some (to_payload t.policy)
  pub answer : r.policy ≡ t.policy

abbrev pub HasEffect :
    Host → String → Option String → PolicyStore → RollbackResult → PolicyStore → Type 0
HasEffect w audit_id key s r t = if is_new r then IsRestored w audit_id key s t r else t ≡ s
