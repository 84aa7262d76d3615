-- ===== src/Policy/Effects/Rolling.antt =====
-- The effect of a rollback.
use wherecode.Prelude.{String, ◌≡◌, refl, sym, ap, ◌∙◌, Bool, false, Option, some, or_else}
use wherecode.Text.{strip}
use wherecode.Py.{reads}
use wherecode.Py.Triple.{Ends, Triple, Triple-Keeps, Triple-bind, Triple-before}
use wherecode.Policy.State.{Policy, Host, PolicyStore}
use wherecode.Policy.Normalize.{to_payload}
use wherecode.Policy.Rollback.{RollbackResult, rollback_entry, write_rollback, rollback_to_audit}
use wherecode.Policy.Paths.{IsTarget, rollback_paths, is_new}
use wherecode.Policy.Effects.{IsUntouched, HasEffect}
use wherecode.Policy.Effects.Actions.{
  bound-Untouching, now-Untouching, untouched, write-IsWritten, id-IsWritten, record-IsRecorded,
}

module _ (w : Host) (s : PolicyStore) (audit_id : String) where
  write_rollback-Effecting :
      (by : String) (reason key : Option String) (approval : Option String) (policy : Policy)
      → IsTarget w s audit_id policy
      → Triple
          (λ t. t ≡ s)
          (write_rollback w audit_id by reason (strip (or_else key "")) approval policy)
          (HasEffect w audit_id key s)
          (IsUntouched s)
  unfolding write_rollback reads
  write_rollback-Effecting by reason key approval policy (target, payload, found, given, e) =
      Triple-before (λ t p. untouched w s p)
        (Triple-bind (Triple-Keeps (bound-Untouching w s audit_id by approval)) λ used.
          Triple-bind (Triple-Keeps (now-Untouching w s)) λ now.
            Triple-bind (write-IsWritten w s policy now) λ u.
              Triple-bind (id-IsWritten w s policy) λ id.
                Triple-bind
                  (record-IsRecorded w s policy
                    (rollback_entry id now by reason audit_id (strip (or_else key "")) used policy))
                  λ v. record {
                    at = λ t h. record {
                      target = target;
                      payload = payload;
                      entry =
                          rollback_entry id now by reason audit_id (strip (or_else key "")) used
                            policy;
                      keyed = refl;
                      found = found;
                      given = given;
                      policy = h.now ∙ sym e;
                      policy_file = h.file ∙ ap (λ (p : Policy). some (to_payload p)) (sym h.now);
                      audits = h.audits;
                      audit_file = h.audit_file;
                      source = refl;
                      result = ap (λ (p : Policy). some (to_payload p)) (sym h.now);
                      answer = sym h.now;
                    };
                  })

unchanged_effect :
    (w : Host) (s : PolicyStore) (audit_id : String) (key : Option String) (r : RollbackResult)
    (t : PolicyStore)
    → is_new r ≡ false
    → t ≡ s
    → HasEffect w audit_id key s r t
unchanged_effect w s audit_id key r t old e = rw old e

-- A rollback that raises leaves the policy, the audit entries and their files as they are. Where it
-- returns and says that it was applied and is no replay, the policy in memory and in the file is that
-- of the target, normalised, and one audit entry was added in memory and in the file, which names the
-- target, holds that policy, and carries the key without the spaces around it, or None where that is
-- empty. Where it returns otherwise, for a dry run or a replay, nothing of the
-- state has changed.
pub rollback_to_audit-HasEffect :
    (w : Host) (s : PolicyStore) (audit_id by : String) (reason : Option String) (dry_run : Bool)
    (key approval_id : Option String)
    → Ends
        (HasEffect w audit_id key s)
        (IsUntouched s)
        (rollback_to_audit w audit_id by reason dry_run key approval_id s).0
        (rollback_to_audit w audit_id by reason dry_run key approval_id s).1
rollback_to_audit-HasEffect w s audit_id by reason dry_run key approval_id =
    rollback_paths w s audit_id (HasEffect w audit_id key s) (IsUntouched s)
      (λ t e. untouched w s e) (unchanged_effect w s audit_id key) by reason dry_run key approval_id
      λ policy target wet.
        write_rollback-Effecting w s audit_id by reason key approval_id policy target
