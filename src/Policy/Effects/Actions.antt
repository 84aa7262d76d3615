-- ===== src/Policy/Effects/Actions.antt =====
-- The actions of a rollback leave the policy and the audit entries alone, but for the two that write
-- them.
use wherecode.Prelude.{
  ℕ, String, ◌≡◌, refl, ap, ◌∙◌, Bool, true, false, Option, none, some, List, [], ◌∷◌, ◌++◌,
}
use wherecode.Py.{raise, assign}
use wherecode.Py.Keeps.{
  Keeps, Keeps-pure, Keeps-reads, Keeps-bind, Keeps-guard, Keeps-assign, keeps_rules,
}
use wherecode.Py.Triple.{Triple, Triple-assign}
use wherecode.Policy.State.{
  Audit, Approval, Policy, Host, PolicyStore, Step, policy_now, policy_id, record_audit,
  persist_rollback_approvals,
}
use wherecode.Policy.Normalize.{to_payload}
use wherecode.Policy.Approvals.{
  found_approval, when_given, set_approval, use_approval, refresh_rollback_approval_statuses,
  consume_rollback_approval,
}
use wherecode.Policy.Rollback.{write_policy, use_given_approval}
use wherecode.Policy.Effects.{IsUntouched}

module _ (w : Host) (s : PolicyStore) where
  abbrev pub Untouching : {A : Type 0} → Step A → Type 0
  Untouching m = Keeps (IsUntouched s) m

  pub assign-Untouching :
      (f : PolicyStore → PolicyStore)
      → ((t : PolicyStore) → IsUntouched t (f t))
      → Untouching (assign f)
  assign-Untouching f k = Keeps-assign f λ t h. record {
    policy = (k t).policy ∙ h.policy;
    audits = (k t).audits ∙ h.audits;
    policy_file = (k t).policy_file ∙ h.policy_file;
    audit_file = (k t).audit_file ∙ h.audit_file;
  }

  pub now-Untouching : Untouching (policy_now w)
  unfolding policy_now
  now-Untouching = record {
    at = λ t h. record {
      policy = h.policy;
      audits = h.audits;
      policy_file = h.policy_file;
      audit_file = h.audit_file;
    };
  }

  pub persist-Untouching : Untouching persist_rollback_approvals
  unfolding persist_rollback_approvals
  persist-Untouching =
      assign-Untouching _
        λ t. record { policy = refl; audits = refl; policy_file = refl; audit_file = refl }

  pub set-Untouching : (id : String) (a : Approval) → Untouching (set_approval id a)
  unfolding set_approval
  set-Untouching id a =
      assign-Untouching _
        λ t. record { policy = refl; audits = refl; policy_file = refl; audit_file = refl }

  pub given-Untouching : (b : Bool) {m : Step Unit} → Untouching m → Untouching (when_given b m)
  given-Untouching true k = k
  given-Untouching false k = Keeps-pure tt

  pub refresh-Untouching :
      (persist : Bool) → Untouching (refresh_rollback_approval_statuses w persist)
  unfolding refresh_rollback_approval_statuses
  refresh-Untouching persist = Keeps-bind now-Untouching λ now.
      Keeps-bind (Keeps-reads _) λ changed.
        Keeps-bind
          (assign-Untouching _
            (λ t. record { policy = refl; audits = refl; policy_file = refl; audit_file = refl }))
          λ u. Keeps-bind (given-Untouching _ persist-Untouching) λ v. Keeps-pure changed

  pub found-Untouching : (id : String) (a : Option Approval) → Untouching (found_approval w id a)
  unfolding found_approval raise
  found-Untouching id none = record { at = λ t h. h }
  found-Untouching id (some a) = Keeps-pure a

  use-Untouching :
      (id audit_id by : String) (a : Approval) → Untouching (use_approval w id audit_id by a)
  unfolding use_approval
  use-Untouching id audit_id by a =
      search (keeps_rules, now-Untouching, persist-Untouching, set-Untouching) depth 20

  pub consume-Untouching :
      (id audit_id by : String) → Untouching (consume_rollback_approval w id audit_id by)
  unfolding consume_rollback_approval
  consume-Untouching id audit_id by =
      search (keeps_rules, refresh-Untouching, found-Untouching, use-Untouching) depth 16

  pub bound-Untouching :
      (audit_id by : String) (approval : Option String)
      → Untouching (use_given_approval w audit_id by approval)
  unfolding use_given_approval
  bound-Untouching audit_id by none = Keeps-pure none
  bound-Untouching audit_id by (some approval) =
      Keeps-bind (Keeps-guard _ _)
        λ u. Keeps-bind (consume-Untouching _ audit_id _) λ a. Keeps-pure _

  -- The policy is written, and the audit entries are as before.
  pub record IsWritten (policy : Policy) (t : PolicyStore) : Type 0 where
    pub now : t.policy ≡ policy
    pub file : t.files.policy_file ≡ some (to_payload policy)
    pub audits : t.audit_entries ≡ s.audit_entries
    pub audit_file : t.files.audit_file ≡ s.files.audit_file

  -- The entry is recorded too.
  pub record IsRecorded (policy : Policy) (entry : Audit) (t : PolicyStore) : Type 0 where
    pub now : t.policy ≡ policy
    pub file : t.files.policy_file ≡ some (to_payload policy)
    pub audits : t.audit_entries ≡ s.audit_entries ++ entry ∷ []
    pub audit_file : t.files.audit_file ≡ s.files.audit_file ++ entry ∷ []

  pub write-IsWritten :
      (policy : Policy) (now : ℕ)
      → Triple (IsUntouched s) (write_policy policy now) (λ u. IsWritten policy) (IsUntouched s)
  unfolding write_policy
  write-IsWritten policy now =
      Triple-assign _
        λ t h. record { now = refl; file = refl; audits = h.audits; audit_file = h.audit_file }

  pub id-IsWritten :
      (policy : Policy)
      → Triple (IsWritten policy) (policy_id w "map") (λ id. IsWritten policy) (IsUntouched s)
  unfolding policy_id
  id-IsWritten policy = record {
    at = λ t h. record { now = h.now; file = h.file; audits = h.audits; audit_file = h.audit_file };
  }

  pub record-IsRecorded :
      (policy : Policy) (entry : Audit)
      → Triple
          (IsWritten policy)
          (record_audit entry)
          (λ u. IsRecorded policy entry)
          (IsUntouched s)
  unfolding record_audit
  record-IsRecorded policy entry = Triple-assign _ λ t h. record {
    now = h.now;
    file = h.file;
    audits = ap (λ (l : List Audit). l ++ entry ∷ []) h.audits;
    audit_file = ap (λ (l : List Audit). l ++ entry ∷ []) h.audit_file;
  }

  pub untouched : {t : PolicyStore} → t ≡ s → IsUntouched s t
  untouched e = record {
    policy = ap (λ (t : PolicyStore). t.policy) e;
    audits = ap (λ (t : PolicyStore). t.audit_entries) e;
    policy_file = ap (λ (t : PolicyStore). t.files.policy_file) e;
    audit_file = ap (λ (t : PolicyStore). t.files.audit_file) e;
  }
