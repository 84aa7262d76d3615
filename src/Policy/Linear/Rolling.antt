-- ===== src/Policy/Linear/Rolling.antt =====
-- Rollbacks and restarts keep the bound on approvals, and so does every history of calls.
use wherecode.Prelude.{
  ℕ, String, ◌≡◌, refl, sym, eq_iff, inl, inr, Bool, Option, none, some, List, [], ◌∷◌, all, arith,
  Bool-cases,
}
use mathlib.Core.List.{append-nil}
use wherecode.Text.{strip}
use wherecode.Py.{raise}
use wherecode.Py.Keeps.{Keeps-pure, Keeps-reads, Keeps-bind, Keeps-guard, Keeps-if, Keeps-assign}
use wherecode.Py.Triple.{
  Triple, Triple-pure, Triple-Keeps, Keeps-Triple, Triple-guarded, Triple-assign, Triple-bind,
}
use wherecode.Policy.State.{
  Signed, Audit, Approval, Policy, Payload, Host, PolicyStore, policy_now, policy_id, record_audit,
}
use wherecode.Policy.Rollback.{
  write_policy, rollback_entry, payload_of, replay_rollback, use_given_approval, write_rollback,
  report_dry_run, apply_rollback, replay_or_apply, rollback_to_audit,
}
use wherecode.Policy.Purge.{tally}
use wherecode.Policy.Rows.{audit_fits, approval_fits, read_rows}
use wherecode.Policy.Restart.{load_policy, load_lists, restart}
use wherecode.Policy.History.{
  Call, update, rollback, create_approval, approve, consume, see_approvals, see_stats, purge,
  collect_audits, start_again, perform, history,
}
use wherecode.Policy.Linear.{IsFresh, IsBounded, IsLinear, IsPart, claims}
use wherecode.Policy.Linear.Steps.{
  Linearly, policy_now-Linearly, policy_id-Linearly, found_audit-Linearly, list-Linearly,
  stats-Linearly,
}
use wherecode.Policy.Linear.Approving.{
  IsSpent, consume-IsSpent, consume-Linearly, create-Linearly, approve-Linearly,
}
use wherecode.Policy.Linear.Using.{
  record_audit-Linearly, purge-Linearly, gc-Linearly, update-Linearly,
}

module _ (w : Host) where
  -- After the approval of a rollback, if it has one, was used up.
  abbrev IsClear : Option String → PolicyStore → Type 0
  IsClear none s = IsLinear w s
  IsClear (some id) s = IsSpent w id s

  IsClear-IsLinear : (used : Option String) (s : PolicyStore) → IsClear used s → IsLinear w s
  IsClear-IsLinear none s h = h
  IsClear-IsLinear (some id) s h = h.linear

  now-IsClear :
      (used : Option String) → Triple (IsClear used) (policy_now w) (λ n. IsClear used) (IsLinear w)
  unfolding policy_now
  now-IsClear none = record { at = policy_now-Linearly.at }
  now-IsClear (some id) = record {
    at = λ s h. record {
      linear = policy_now-Linearly.at s h.linear;
      memory = h.memory;
      written = h.written;
      gone = h.gone;
    };
  }

  id-IsClear :
      (used : Option String)
      → Triple (IsClear used) (policy_id w "map") (λ n. IsClear used) (IsLinear w)
  unfolding policy_id
  id-IsClear none = record { at = (policy_id-Linearly "map").at }
  id-IsClear (some id) = record {
    at = λ s h. record {
      linear = (policy_id-Linearly "map").at s h.linear;
      memory = h.memory;
      written = h.written;
      gone = λ k le. h.gone k (omega arith);
    };
  }

  write-IsClear :
      (used : Option String) (policy : Policy) (now : ℕ)
      → Triple (IsClear used) (write_policy policy now) (λ u. IsClear used) (IsLinear w)
  unfolding write_policy
  write-IsClear none policy now =
      Triple-assign _ λ s h. record { memory = h.memory; written = h.written; same = h.same }
  write-IsClear (some id) policy now = Triple-assign _ λ s h. record {
    linear = record { memory = h.linear.memory; written = h.linear.written; same = h.linear.same };
    memory = h.memory;
    written = h.written;
    gone = h.gone;
  }

  given-IsClear :
      (audit_id by : String) (approval_id : Option String)
      → Triple (IsLinear w) (use_given_approval w audit_id by approval_id) IsClear (IsLinear w)
  unfolding use_given_approval
  given-IsClear audit_id by none = Triple-pure none (λ s h. h)
  given-IsClear audit_id by (some approval_id) =
      Triple-guarded _ _ (λ s h. h)
        λ filled.
          Triple-bind (consume-IsSpent w (strip approval_id) audit_id (strip by))
            λ a. Triple-pure (some (strip approval_id)) (λ s h. h)

  entry-Linearly :
      (used : Option String) (id : String) (now : ℕ) (by : String) (reason : Option String)
      (audit_id request_id : String) (policy : Policy)
      → Triple
          (IsClear used)
          (record_audit (rollback_entry id now by reason audit_id request_id used policy))
          (λ u. IsLinear w)
          (IsLinear w)
  entry-Linearly none id now by reason audit_id request_id policy =
      record_audit-Linearly (IsLinear w) _ (λ s h. h) (λ s h i hit. cc hit) (λ s h k le. refl)
  entry-Linearly (some used) id now by reason audit_id request_id policy =
      record_audit-Linearly (IsSpent w used) _ (λ s h. h.linear)
        (λ s h i hit. let p : used ≡ i = (eq_iff used i).0 hit in rw (← p) (h.memory, h.written))
        (λ s h k le. h.gone k le)

  write_rollback-Linearly :
      (audit_id by : String) (reason : Option String) (request_id : String)
      (approval_id : Option String) (policy : Policy)
      → Linearly w (write_rollback w audit_id by reason request_id approval_id policy)
  unfolding write_rollback
  write_rollback-Linearly audit_id by reason request_id approval_id policy = Keeps-Triple (
      Triple-bind (given-IsClear audit_id by approval_id) λ used.
        Triple-bind (now-IsClear used) λ now. Triple-bind (write-IsClear used policy now) λ u.
          Triple-bind (id-IsClear used) λ id.
            Triple-bind (entry-Linearly used id now by reason audit_id request_id policy)
              λ v. Triple-Keeps (Keeps-reads _))

  apply-Linearly :
      (audit_id by : String) (reason : Option String) (dry_run : Bool) (request_id : String)
      (approval_id : Option String) (policy : Policy)
      → Linearly w (apply_rollback w audit_id by reason dry_run request_id approval_id policy)
  unfolding apply_rollback report_dry_run
  apply-Linearly audit_id by reason dry_run request_id approval_id policy =
      Keeps-bind (Keeps-reads _) λ current. Keeps-bind (Keeps-guard _ _) λ u.
        Keeps-if dry_run (λ e. Keeps-reads _)
          (λ e. write_rollback-Linearly audit_id by reason request_id approval_id policy)

  replay-Linearly :
      (audit_id by : String) (reason : Option String) (dry_run : Bool) (request_id : String)
      (approval_id : Option String) (policy : Policy) (replay : Option Audit)
      → Linearly w
          (replay_or_apply w audit_id by reason dry_run request_id approval_id policy replay)
  unfolding replay_or_apply replay_rollback
  replay-Linearly audit_id by reason dry_run request_id approval_id policy none =
      apply-Linearly audit_id by reason dry_run request_id approval_id policy
  replay-Linearly audit_id by reason dry_run request_id approval_id policy (some replay) =
      Keeps-bind (Keeps-guard _ _) (λ u. Keeps-reads _)

  payload-Linearly : (id : String) (p : Option Payload) → Linearly w (payload_of w id p)
  unfolding payload_of raise
  payload-Linearly id none = record { at = λ s h. h }
  payload-Linearly id (some p) = Keeps-pure p

  rollback-Linearly :
      (audit_id by : String) (reason : Option String) (dry_run : Bool)
      (key approval_id : Option String)
      → Linearly w (rollback_to_audit w audit_id by reason dry_run key approval_id)
  unfolding rollback_to_audit
  rollback-Linearly audit_id by reason dry_run key approval_id =
      Keeps-bind (Keeps-reads _) λ target.
        Keeps-bind (found_audit-Linearly audit_id target) λ audit.
          Keeps-bind (payload-Linearly audit_id audit.policy) λ payload.
            Keeps-bind (Keeps-reads _)
              λ replay. replay-Linearly audit_id by reason dry_run _ approval_id _ replay

  load-IsLinear :
      (p : Option Payload) (now : ℕ) (s : PolicyStore)
      → IsLinear w s
      → IsLinear w (load_policy w p now s)
  unfolding load_policy
  load-IsLinear none now s h = record { memory = h.memory; written = h.written; same = h.same }
  load-IsLinear (some p) now s h = record { memory = h.memory; written = h.written; same = h.same }

  no-approvals :
      (n : ℕ) (entries : List Audit) (approvals : List Approval)
      → IsBounded w n entries approvals
      → IsBounded w n entries []
  unfolding claims tally
  no-approvals n entries approvals h = record {
    once = λ id. omega (arith, h.once id);
    unissued = λ k le. omega (arith, h.unissued k le);
  }

  read-IsBounded :
      (n : ℕ) (entries : List Audit) (approvals : List Approval)
      → IsBounded w n entries approvals
      → IsBounded w n entries (read_rows approval_fits approvals)
  unfolding read_rows
  read-IsBounded n entries approvals h = elim (Bool-cases (all approval_fits approvals)) [
    | inl readable ↦ rw readable h
    | inr broken ↦ rw broken (no-approvals n entries approvals h)
  ]

  read-IsPart : (file : List Audit) → IsPart file (read_rows audit_fits file)
  unfolding read_rows
  read-IsPart file = elim (Bool-cases (all audit_fits file)) [
    | inl readable ↦ rw readable (record { lost = []; split = refl })
    | inr broken ↦ rw broken (record { lost = file; split = sym (append-nil file) })
  ]

  lists-IsLinear : (s : PolicyStore) → IsLinear w s → IsLinear w (load_lists w s)
  unfolding load_lists
  lists-IsLinear s h = record {
    memory = read-IsBounded s.issued_ids s.files.audit_file s.files.approval_file h.written;
    written = h.written;
    same = read-IsPart s.files.audit_file;
  }

  restart-Linearly : (ttl : Signed) → Linearly w (restart w ttl)
  unfolding restart
  restart-Linearly ttl = Keeps-bind policy_now-Linearly λ now.
      Keeps-bind (Keeps-assign _ (λ s h. load-IsLinear s.files.policy_file now s h)) λ u.
        Keeps-bind (Keeps-assign _ lists-IsLinear) λ v.
          Keeps-assign _ λ s h. record { memory = h.memory; written = h.written; same = h.same }

  perform-IsLinear :
      IsFresh w → (call : Call) (s : PolicyStore) → IsLinear w s → IsLinear w (perform w call s)
  unfolding perform
  perform-IsLinear fresh (update p by reason) s h = (update-Linearly p by reason).at s h
  perform-IsLinear fresh (rollback id by reason dry key approval) s h =
      (rollback-Linearly id by reason dry key approval).at s h
  perform-IsLinear fresh (create_approval id by reason) s h =
      (create-Linearly w fresh id by reason).at s h
  perform-IsLinear fresh (approve id by) s h = (approve-Linearly w id by).at s h
  perform-IsLinear fresh (consume id audit_id by) s h = (consume-Linearly w id audit_id by).at s h
  perform-IsLinear fresh (see_approvals limit status) s h = (list-Linearly limit status).at s h
  perform-IsLinear fresh see_stats s h = stats-Linearly.at s h
  perform-IsLinear fresh (purge used expired dry older by) s h =
      (purge-Linearly used expired dry older by).at s h
  perform-IsLinear fresh (collect_audits dry older n by) s h = (gc-Linearly dry older n by).at s h
  perform-IsLinear fresh (start_again ttl) s h = (restart-Linearly ttl).at s h

  -- Where no identifier is issued twice, also without the spaces around it, every history of calls
  -- and restarts, failing calls included, keeps this: for each identifier, the audit entries of the
  -- file that name an approval and the approvals of that identifier that are not used are at most one
  -- together, with the approvals in memory and with those in the file; and the audit entries in memory
  -- are the last ones of the file. So an approval carries one rollback at most, also across restarts,
  -- those included that cannot read a file.
  pub history-IsLinear :
      (calls : List Call) (s : PolicyStore)
      → IsFresh w
      → IsLinear w s
      → IsLinear w (history w calls s)
  unfolding history
  history-IsLinear [] s fresh h = h
  history-IsLinear (call ∷ calls) s fresh h =
      history-IsLinear calls (perform w call s) fresh (perform-IsLinear fresh call s h)
