-- ===== src/Policy/Paths.antt =====
-- The paths through `rollback_to_audit`: what holds of a run that writes, and of one that changes
-- nothing, holds of each run.
use wherecode.Prelude.{String, ◌≡◌, refl, ap, Bool, false, not, ◌&&◌, Option, none, some, or_else}
use wherecode.Text.{strip}
use wherecode.Py.{returned, ◌>>=◌, raise, reads}
use wherecode.Py.Triple.{Ends, Triple, Triple-if, Triple-guarded, Triple-bind}
use wherecode.Policy.State.{Audit, Policy, Payload, Host, PolicyStore, Step}
use wherecode.Policy.Normalize.{normalize_policy}
use wherecode.Policy.Approvals.{get_audit, found_audit}
use wherecode.Policy.Rollback.{
  RollbackResult, payload_of, replay_rollback, write_rollback, report_dry_run, apply_rollback,
  replay_or_apply, rollback_to_audit,
}

-- A result that says that the rollback was applied, now.
abbrev pub is_new : RollbackResult → Bool
is_new r = r.applied && not r.idempotent_replay

module _ (w : Host) (s : PolicyStore) (audit_id : String) where
  -- The target of the rollback, with its policy.
  abbrev pub IsTarget : Policy → Type 0
  IsTarget policy =
      (target : Audit) × (payload : Payload) × (get_audit s.audit_entries audit_id ≡ some target)
      × (target.policy ≡ some payload)
      × (normalize_policy w.int_of_text payload ≡ policy)

module _ (w : Host) (s : PolicyStore) (audit_id : String)
    (Q : RollbackResult → PolicyStore → Type 0) (E : PolicyStore → Type 0)
    (fails : (t : PolicyStore) → t ≡ s → E t)
    (quiet : (r : RollbackResult) (t : PolicyStore) → is_new r ≡ false → t ≡ s → Q r t) where
  abbrev From : Step RollbackResult → Type 0
  From m = Triple (λ t. t ≡ s) m Q E

  apply-From :
      (by : String) (reason : Option String) (dry_run : Bool) (request_id : String)
      (approval : Option String) (policy : Policy)
      → (dry_run ≡ false → From (write_rollback w audit_id by reason request_id approval policy))
      → From (apply_rollback w audit_id by reason dry_run request_id approval policy)
  unfolding apply_rollback report_dry_run reads
  apply-From by reason dry_run request_id approval policy writes =
      Triple-bind {Q = λ c t. t ≡ s} (record { at = λ t e. e })
        λ current.
          Triple-guarded _ _ fails
            λ pass. Triple-if dry_run (λ dry. record { at = λ t e. quiet _ t refl e }) writes

  replay-From :
      (by : String) (reason : Option String) (dry_run : Bool) (request_id : String)
      (approval : Option String) (policy : Policy) (replay : Option Audit)
      → (dry_run ≡ false → From (write_rollback w audit_id by reason request_id approval policy))
      → From (replay_or_apply w audit_id by reason dry_run request_id approval policy replay)
  unfolding replay_or_apply replay_rollback reads
  replay-From by reason dry_run request_id approval policy none writes =
      apply-From by reason dry_run request_id approval policy writes
  replay-From by reason dry_run request_id approval policy (some replay) writes =
      Triple-guarded _ _ fails (λ pass. record { at = λ t e. quiet _ t refl e })

  payload-From :
      (target : Audit) (p : Option Payload) (k : Payload → Step RollbackResult)
      → target.policy ≡ p
      → ((payload : Payload) → target.policy ≡ some payload → From (k payload))
      → From (payload_of w audit_id p >>= k)
  unfolding ◌>>=◌ payload_of raise
  payload-From target none k e l = record { at = fails }
  payload-From target (some payload) k e l = record { at = (l payload e).at }

  found-From :
      (target : Option Audit) (k : Audit → Step RollbackResult)
      → get_audit s.audit_entries audit_id ≡ target
      → ((audit : Audit) → get_audit s.audit_entries audit_id ≡ some audit → From (k audit))
      → From (found_audit w audit_id target >>= k)
  unfolding ◌>>=◌ found_audit raise
  found-From none k e l = record { at = fails }
  found-From (some audit) k e l = record { at = (l audit e).at }

  read-From :
      {A : Type 0} (g : PolicyStore → A) (k : A → Step RollbackResult)
      → From (k (g s))
      → From (reads (λ t. returned (g t)) >>= k)
  unfolding ◌>>=◌ reads
  read-From g k l = record { at = λ t e. rw (ap (λ (u : PolicyStore). g u) e) (l.at t e) }

  pub rollback_paths :
      (by : String) (reason : Option String) (dry_run : Bool) (key approval : Option String)
      → ((policy : Policy)
          → IsTarget w s audit_id policy
          → dry_run ≡ false
          → From (write_rollback w audit_id by reason (strip (or_else key "")) approval policy))
      → Ends Q E
          (rollback_to_audit w audit_id by reason dry_run key approval s).0
          (rollback_to_audit w audit_id by reason dry_run key approval s).1
  unfolding rollback_to_audit
  rollback_paths by reason dry_run key approval writes =
      (read-From _ _ (
          found-From _ _ refl λ audit found. payload-From audit audit.policy _ refl λ payload given.
            read-From _ _ (
              replay-From by reason dry_run _ approval _ _
                (writes _ (audit, payload, found, given, refl))))).at
        s refl
