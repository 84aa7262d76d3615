-- ===== src/Policy/Linear/Using.antt =====
-- Purges, updates, rollbacks and a restart keep the bound on approvals.
use wherecode.Prelude.{
  ℕ, ◌≤◌, String, ◌≡◌, refl, ap, ◌∙◌, inl, inr, Bool, true, false, Option, none, some, List, [],
  ◌∷◌, ◌++◌, arith, or_else, Bool-cases,
}
use mathlib.Core.List.{append_assoc}
use wherecode.Text.{strip, is_truthy}
use wherecode.Py.{assign}
use wherecode.Py.Keeps.{Keeps-pure, Keeps-reads, Keeps-bind, Keeps-if, Keeps-assign, keeps_rules}
use wherecode.Py.Triple.{
  Triple, Triple-pure, Triple-reads, Triple-Keeps, Keeps-Triple, Triple-assign, Triple-bind,
}
use wherecode.Policy.State.{
  Signed, Audit, Approval, Policy, Payload, PurgeEvent, PurgeAudit, Host, PolicyStore, record_audit,
  record_purge_audit, persist_rollback_approval_purge_audits,
}
use wherecode.Policy.Purge.{tally, Purged, compute_rollback_approval_purge_result}
use wherecode.Policy.Approvals.{when_given}
use wherecode.Policy.Cleanup.{
  now_if, write_purge_audit, audit_purge, purge_rollback_approvals,
  purge_rollback_approval_purge_audits,
}
use wherecode.Policy.Rollback.{get_policy, write_policy, update_policy}
use wherecode.Policy.Linear.{IsPart, names, claims, IsBounded, IsLinear, tally-append, tally-purge}
use wherecode.Policy.Linear.Steps.{
  Linearly, IsBounded-le, policy_now-Linearly, policy_id-Linearly, persist-Linearly,
  refresh-Linearly, when_given-Linearly,
}

IsPart-append :
    (file entries : List Audit) (e : Audit)
    → IsPart file entries
    → IsPart (file ++ e ∷ []) (entries ++ e ∷ [])
IsPart-append file entries e h = record {
  lost = h.lost;
  split = ap (λ (l : List Audit). l ++ e ∷ []) h.split ∙ append_assoc h.lost entries (e ∷ []);
}

module _ {w : Host} where
  now_if-Linearly : (older : Option Signed) → Linearly w (now_if w older)
  unfolding now_if
  now_if-Linearly none = Keeps-pure 0
  now_if-Linearly (some seconds) = policy_now-Linearly

  record_purge_audit-Linearly : (entry : PurgeAudit) → Linearly w (record_purge_audit entry)
  unfolding record_purge_audit
  record_purge_audit-Linearly entry =
      Keeps-assign _ λ s h. record { memory = h.memory; written = h.written; same = h.same }

  persist_audits-Linearly : Linearly w persist_rollback_approval_purge_audits
  unfolding persist_rollback_approval_purge_audits
  persist_audits-Linearly =
      Keeps-assign _ λ s h. record { memory = h.memory; written = h.written; same = h.same }

  write_purge_audit-Linearly :
      (event : PurgeEvent) (actor : String) (dry_run : Bool) (older : Option Signed) (m n : ℕ)
      → Linearly w (write_purge_audit w event actor dry_run older m n)
  unfolding write_purge_audit
  write_purge_audit-Linearly event actor dry_run older m n =
      search (keeps_rules, policy_id-Linearly, policy_now-Linearly, record_purge_audit-Linearly)
        depth 12

  audit_purge-Linearly :
      (event : PurgeEvent) (by : Option String) (dry_run : Bool) (older : Option Signed) (m n : ℕ)
      → Linearly w (audit_purge w event by dry_run older m n)
  unfolding audit_purge
  audit_purge-Linearly event by dry_run older m n =
      let actor = strip (or_else by "") in
      Keeps-if (is_truthy actor) (λ e. write_purge_audit-Linearly event actor dry_run older m n)
        (λ e. Keeps-pure none)

  keep_purged :
      (dry_run remove_used remove_expired : Bool) (older : Option Signed) (now : ℕ)
      (result : Purged)
      → Triple
          (λ (s : PolicyStore).
            IsLinear w s
            × (compute_rollback_approval_purge_result remove_used remove_expired older now
                  s.rollback_approvals
                ≡ result))
          (when_given dry_run (assign (λ s. record s { rollback_approvals = result.kept })))
          (λ u. IsLinear w)
          (IsLinear w)
  keep_purged false remove_used remove_expired older now result = Triple-pure tt (λ s h. h.0)
  keep_purged true remove_used remove_expired older now result = Triple-assign _ λ s h. record {
    memory =
        IsBounded-le result.kept
          (λ i.
            rw (← h.1) (tally-purge i remove_used remove_expired older now s.rollback_approvals))
          h.0.memory;
    written = h.0.written;
    same = h.0.same;
  }

  pub purge-Linearly :
      (remove_used remove_expired dry_run : Bool) (older : Option Signed) (by : Option String)
      → Linearly w (purge_rollback_approvals w remove_used remove_expired dry_run older by)
  unfolding purge_rollback_approvals
  purge-Linearly remove_used remove_expired dry_run older by = Keeps-bind (refresh-Linearly _) λ n.
      Keeps-bind (now_if-Linearly older) λ now. Keeps-Triple (
        Triple-bind (Triple-reads _) λ result.
          Triple-bind (keep_purged _ remove_used remove_expired older now result) λ u.
            Triple-Keeps (
              Keeps-bind (when_given-Linearly _ persist-Linearly)
                λ v. Keeps-bind (audit_purge-Linearly _ by dry_run older _ _) λ id. Keeps-pure _))

  keep_audits-Linearly :
      (entries : List PurgeAudit)
      → Linearly w
          (assign (λ (s : PolicyStore). record s { rollback_approval_purge_audits = entries }))
  keep_audits-Linearly entries =
      Keeps-assign _ λ s h. record { memory = h.memory; written = h.written; same = h.same }

  pub gc-Linearly :
      (dry_run : Bool) (older : Option Signed) (keep_latest : Signed) (by : Option String)
      → Linearly w (purge_rollback_approval_purge_audits w dry_run older keep_latest by)
  unfolding purge_rollback_approval_purge_audits
  gc-Linearly dry_run older keep_latest by = Keeps-bind (now_if-Linearly older) λ now.
      Keeps-bind (Keeps-reads _) λ result.
        Keeps-bind (when_given-Linearly _ (keep_audits-Linearly result.0)) λ u.
          Keeps-bind (when_given-Linearly _ persist_audits-Linearly)
            λ v. Keeps-bind (audit_purge-Linearly _ by dry_run older _ _) λ id. Keeps-pure _

  pub get_policy-Linearly : Linearly w get_policy
  unfolding get_policy
  get_policy-Linearly = Keeps-reads _

  pub write_policy-Linearly : (policy : Policy) (now : ℕ) → Linearly w (write_policy policy now)
  unfolding write_policy
  write_policy-Linearly policy now =
      Keeps-assign _ λ s h. record { memory = h.memory; written = h.written; same = h.same }

  -- A new audit entry: no claim, or the claim of an approval that was used up.
  entry-IsBounded :
      (n : ℕ) (entries : List Audit) (approvals : List Approval) (e : Audit)
      → ((id : String) → names id e ≡ true → claims id entries approvals ≡ 0)
      → ((k : ℕ) → n ≤ k → names (strip (w.new_id "rap" k)) e ≡ false)
      → IsBounded w n entries approvals
      → IsBounded w n (entries ++ e ∷ []) approvals
  unfolding claims tally
  entry-IsBounded n entries approvals e free gone h = record {
    once = λ id. elim (Bool-cases (names id e)) [
      | inl hit ↦ rw (tally-append, hit) (omega (arith, free id hit))
      | inr other ↦ rw (tally-append, other) (omega (arith, h.once id))
    ];
    unissued = λ k le. rw (tally-append, gone k le) (omega (arith, h.unissued k le));
  }

  pub record_audit-Linearly :
      (P : PolicyStore → Type 0) (e : Audit)
      → ((s : PolicyStore) → P s → IsLinear w s)
      → ((s : PolicyStore)
          → P s
          → (id : String) → names id e ≡ true
          → (claims id s.files.audit_file s.rollback_approvals ≡ 0)
            × (claims id s.files.audit_file s.files.approval_file ≡ 0))
      → ((s : PolicyStore)
          → P s
          → (k : ℕ) → s.issued_ids ≤ k
          → names (strip (w.new_id "rap" k)) e ≡ false)
      → Triple P (record_audit e) (λ u. IsLinear w) (IsLinear w)
  unfolding record_audit
  record_audit-Linearly P e linear free gone = Triple-assign _ λ s h. record {
    memory =
        entry-IsBounded s.issued_ids s.files.audit_file s.rollback_approvals e
          (λ id hit. (free s h id hit).0) (gone s h) (linear s h).memory;
    written =
        entry-IsBounded s.issued_ids s.files.audit_file s.files.approval_file e
          (λ id hit. (free s h id hit).1) (gone s h) (linear s h).written;
    same = IsPart-append s.files.audit_file s.audit_entries e (linear s h).same;
  }

  -- An entry that names no approval.
  record_unbound-Linearly :
      (e : Audit) → ((id : String) → names id e ≡ false) → Linearly w (record_audit e)
  record_unbound-Linearly e none_named = Keeps-Triple (
      record_audit-Linearly (IsLinear w) e (λ s h. h) (λ s h id hit. cc (none_named id))
        (λ s h k le. none_named _))

  pub update-Linearly :
      (payload : Payload) (by : String) (reason : Option String)
      → Linearly w (update_policy w payload by reason)
  unfolding update_policy
  update-Linearly payload by reason = Keeps-bind policy_now-Linearly λ now.
      Keeps-bind (write_policy-Linearly _ now) λ u.
        Keeps-bind (policy_id-Linearly "map")
          λ id. Keeps-bind (record_unbound-Linearly _ (λ i. refl)) λ v. get_policy-Linearly
