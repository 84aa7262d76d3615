-- ===== src/Policy/Linear/Approving.antt =====
-- Creating, approving and using an approval keeps the bound; after a use nothing is left to claim.
use wherecode.Prelude.{
  ℕ, ◌+◌, ◌≤◌, String, ◌≡◌, refl, ap, ◌==◌, eq_iff, inl, inr, true, false, Option, none, some, [],
  ◌∷◌, ◌++◌, arith, Bool-cases,
}
use wherecode.Text.{strip}
use wherecode.Py.Keeps.{Keeps-pure, Keeps-reads, Keeps-bind}
use wherecode.Py.Triple.{
  Triple, Triple-pure, Triple-raise, Triple-reads, Triple-if, Triple-Keeps, Keeps-Triple,
  Triple-guarded, Triple-assign, Triple-bind, Triple-after,
}
use wherecode.Policy.State.{
  Approval, ApprovalStatus, pending, approved, rejected, used, expired, Host, PolicyStore,
  policy_now, policy_id, persist_rollback_approvals,
}
use wherecode.Policy.Purge.{is_used, is_approved, is_pending, tally}
use wherecode.Policy.Approvals.{
  find_rollback_approval, put_approval, found_approval, new_approval, create_rollback_approval,
  approve_pending, approve_found, approve_rollback_approval, use_approval,
  consume_rollback_approval, refresh_rollback_approval_statuses, set_approval, approved_now,
  used_now,
}
use wherecode.Policy.Linear.{
  is_live, IsFresh, claims, IsBounded, IsLinear, tally-append, tally-put, find-id, one_if,
}
use wherecode.Policy.Linear.Steps.{
  Linearly, IsBounded-le, policy_now-Linearly, policy_id-Linearly, persist-Linearly,
  refresh-Linearly, found_audit-Linearly,
}

pending_not_used : (status : ApprovalStatus) → is_pending status ≡ true → is_used status ≡ false
pending_not_used pending h = refl
pending_not_used approved h = cc
pending_not_used rejected h = cc
pending_not_used used h = cc
pending_not_used expired h = cc

approved_not_used : (status : ApprovalStatus) → is_approved status ≡ true → is_used status ≡ false
approved_not_used pending h = cc
approved_not_used approved h = refl
approved_not_used rejected h = cc
approved_not_used used h = cc
approved_not_used expired h = cc

module _ (w : Host) where
  -- An identifier that was just issued: nothing goes by it, and it is not issued again.
  record IsReserved (id : String) (s : PolicyStore) : Type 0 where
    linear : IsLinear w s
    free : claims (strip id) s.files.audit_file s.rollback_approvals ≡ 0
    gone : (k : ℕ) → s.issued_ids ≤ k → (strip id == strip (w.new_id "rap" k)) ≡ false

  policy_id-IsReserved : IsFresh w → Triple (IsLinear w) (policy_id w "rap") IsReserved (IsLinear w)
  unfolding policy_id
  policy_id-IsReserved fresh = record {
    at = λ s h. record {
      linear = (policy_id-Linearly "rap").at s h;
      free = h.memory.unissued s.issued_ids (omega arith);
      gone = λ k le.
          elim (Bool-cases (strip (w.new_id "rap" s.issued_ids) == strip (w.new_id "rap" k))) [
            | inr other ↦ other
            | inl hit ↦
                let e : s.issued_ids ≡ k = fresh "rap" s.issued_ids k ((eq_iff _ _).0 hit) in
                absurd (omega arith)
          ];
    };
  }

  append-IsBounded :
      (s : PolicyStore) (e : Approval)
      → is_used e.status ≡ false
      → IsReserved e.id s
      → IsBounded w s.issued_ids s.files.audit_file (s.rollback_approvals ++ e ∷ [])
  unfolding claims tally
  append-IsBounded s e live h = record {
    once = λ id. elim (Bool-cases (strip e.id == id)) [
      | inr other ↦ rw (tally-append, other) (omega (arith, h.linear.memory.once id))
      | inl hit ↦
          let p : strip e.id ≡ id = (eq_iff _ _).0 hit in
          rw (tally-append, hit, live)
            (omega (
              arith,
              h.free,
              ap (λ (i : String). claims i s.files.audit_file s.rollback_approvals) p,
            ))
    ];
    unissued =
        λ k le. rw (tally-append, h.gone k le) (omega (arith, h.linear.memory.unissued k le));
  }

  pub create-Linearly :
      IsFresh w
      → (audit_id requested_by : String) (reason : Option String)
      → Linearly w (create_rollback_approval w audit_id requested_by reason)
  unfolding create_rollback_approval
  create-Linearly fresh audit_id requested_by reason = Keeps-bind (Keeps-reads _) λ target.
      Keeps-bind (found_audit-Linearly audit_id target) λ audit.
        Keeps-bind policy_now-Linearly λ now. Keeps-bind (Keeps-reads _) λ ttl. Keeps-Triple (
          Triple-bind (policy_id-IsReserved fresh) λ id.
            Triple-bind
              (Triple-assign _ {Q = λ u. IsLinear w} (λ s h. record {
                memory =
                    append-IsBounded s (new_approval id audit_id requested_by reason now ttl) refl
                      h;
                written = h.linear.written;
                same = h.linear.same;
              }))
              λ u. Triple-Keeps (Keeps-bind persist-Linearly (λ _. Keeps-pure _)))

  -- The approval that is found under an identifier.
  record IsFound (id : String) (a : Approval) (s : PolicyStore) : Type 0 where
    linear : IsLinear w s
    found : find_rollback_approval s.rollback_approvals id ≡ some a

  set-Linearly :
      (id : String) (a b : Approval) (P : PolicyStore → Type 0)
      → ((s : PolicyStore) → P s → IsFound id a s)
      → ((i : String) → one_if (is_live i b) ≤ one_if (is_live i a))
      → Triple P (set_approval id b) (λ u. IsLinear w) (IsLinear w)
  unfolding set_approval
  set-Linearly id a b P there less = Triple-assign _ λ s h.
      let f : IsFound id a s = there s h in
      record {
        memory =
            IsBounded-le (put_approval s.rollback_approvals id b)
              (λ i.
                omega (arith, less i, tally-put (is_live i) s.rollback_approvals id a b f.found))
              f.linear.memory;
        written = f.linear.written;
        same = f.linear.same;
      }

  now-IsFound :
      (id : String) (a : Approval)
      → Triple (IsFound id a) (policy_now w) (λ n. IsFound id a) (IsLinear w)
  unfolding policy_now
  now-IsFound id a = record {
    at = λ s h. record { linear = policy_now-Linearly.at s h.linear; found = h.found };
  }

  -- The value that is found, or an exception.
  found_approval-IsFound :
      (id : String) (a : Option Approval)
      → Triple
          (λ s. IsLinear w s × (find_rollback_approval s.rollback_approvals id ≡ a))
          (found_approval w id a)
          (λ b. IsFound id b)
          (IsLinear w)
  unfolding found_approval
  found_approval-IsFound id none = Triple-raise _ (λ s h. h.0)
  found_approval-IsFound id (some a) = Triple-pure a (λ s h. record { linear = h.0; found = h.1 })

  refresh-Triple :
      Triple (IsLinear w) (refresh_rollback_approval_statuses w true) (λ n. IsLinear w) (IsLinear w)
  refresh-Triple = Triple-Keeps (refresh-Linearly true)

  pending-IsFound :
      (id approved_by : String) (a : Approval)
      → Triple (IsFound id a) (approve_pending w id approved_by a) (λ b. IsLinear w) (IsLinear w)
  unfolding approve_pending
  pending-IsFound id approved_by a =
      Triple-guarded _ _ (λ s h. h.linear)
        λ current.
          Triple-guarded _ _ (λ s h. h.linear)
            λ waits. Triple-bind (now-IsFound id a) λ now.
              Triple-bind
                (set-Linearly id a (approved_now approved_by now a) _ (λ s h. h)
                  (λ i. ground (arith, pending_not_used a.status waits)))
                λ u. Triple-Keeps (Keeps-bind persist-Linearly (λ _. Keeps-pure _))

  approve-IsFound :
      (id approved_by : String) (a : Approval)
      → Triple (IsFound id a) (approve_found w id approved_by a) (λ b. IsLinear w) (IsLinear w)
  unfolding approve_found
  approve-IsFound id approved_by a =
      Triple-if (is_approved a.status) (λ done. Triple-pure a (λ s h. h.linear))
        (λ other. pending-IsFound id approved_by a)

  pub approve-Linearly :
      (id approved_by : String) → Linearly w (approve_rollback_approval w id approved_by)
  unfolding approve_rollback_approval
  approve-Linearly id approved_by = Keeps-Triple (
      Triple-bind refresh-Triple λ n.
        Triple-bind (Triple-reads _)
          λ a. Triple-bind (found_approval-IsFound id a) (approve-IsFound id approved_by))

  -- An approval that was used up: nothing claims it any more, and its identifier was issued before.
  pub record IsSpent (id : String) (s : PolicyStore) : Type 0 where
    pub linear : IsLinear w s
    pub memory : claims id s.files.audit_file s.rollback_approvals ≡ 0
    pub written : claims id s.files.audit_file s.files.approval_file ≡ 0
    pub gone : (k : ℕ) → s.issued_ids ≤ k → (id == strip (w.new_id "rap" k)) ≡ false

  -- The same, where the file still has the approval.
  record IsUsedUp (id : String) (s : PolicyStore) : Type 0 where
    linear : IsLinear w s
    memory : claims id s.files.audit_file s.rollback_approvals ≡ 0
    gone : (k : ℕ) → s.issued_ids ≤ k → (id == strip (w.new_id "rap" k)) ≡ false

  set-IsUsedUp :
      (id used_by : String) (now : ℕ) (a : Approval)
      → is_approved a.status ≡ true
      → Triple
          (IsFound id a)
          (set_approval id (used_now used_by now a))
          (λ u. IsUsedUp id)
          (IsLinear w)
  unfolding set_approval claims
  set-IsUsedUp id used_by now a good = Triple-assign _ λ s f.
      let live : is_used a.status ≡ false = approved_not_used a.status good in
      let here : (strip a.id == id) ≡ true = find-id s.rollback_approvals id a f.found in
      let b : Approval = used_now used_by now a in
      let moved : (i : String)
          → tally (is_live i) (put_approval s.rollback_approvals id b) + one_if (strip a.id == i)
            ≡ tally (is_live i) s.rollback_approvals =
        λ i. ground (arith, live, tally-put (is_live i) s.rollback_approvals id a b f.found) in
      record {
        linear = record {
          memory =
              IsBounded-le (put_approval s.rollback_approvals id b) (λ i. omega (arith, moved i))
                f.linear.memory;
          written = f.linear.written;
          same = f.linear.same;
        };
        memory = ground (arith, here, moved id, f.linear.memory.once id);
        gone = λ k le. elim (Bool-cases (id == strip (w.new_id "rap" k))) [
          | inr other ↦ other
          | inl hit ↦
              let p : id ≡ strip (w.new_id "rap" k) = (eq_iff _ _).0 hit in
              absurd (ground (arith, here, moved id, (rw (← p) at (f.linear.memory.unissued k le))))
        ];
      }

  persist-IsSpent :
      (id : String) → Triple (IsUsedUp id) persist_rollback_approvals (λ u. IsSpent id) (IsLinear w)
  unfolding persist_rollback_approvals
  persist-IsSpent id = Triple-assign _ λ s h. record {
    linear = record { memory = h.linear.memory; written = h.linear.memory; same = h.linear.same };
    memory = h.memory;
    written = h.memory;
    gone = h.gone;
  }

  use-IsSpent :
      (id audit_id used_by : String) (a : Approval)
      → Triple (IsFound id a) (use_approval w id audit_id used_by a) (λ b. IsSpent id) (IsLinear w)
  unfolding use_approval
  use-IsSpent id audit_id used_by a =
      Triple-guarded _ _ (λ s h. h.linear)
        λ bound.
          Triple-guarded _ _ (λ s h. h.linear)
            λ unused.
              Triple-guarded _ _ (λ s h. h.linear)
                λ lasting.
                  Triple-guarded _ _ (λ s h. h.linear)
                    λ good. Triple-bind (now-IsFound id a) λ now.
                      Triple-bind (set-IsUsedUp id used_by now a good)
                        λ u. Triple-bind (persist-IsSpent id) λ v. Triple-pure _ (λ s h. h)

  pub consume-IsSpent :
      (id audit_id used_by : String)
      → Triple
          (IsLinear w)
          (consume_rollback_approval w id audit_id used_by)
          (λ b. IsSpent id)
          (IsLinear w)
  unfolding consume_rollback_approval
  consume-IsSpent id audit_id used_by = Triple-bind refresh-Triple λ n.
      Triple-bind (Triple-reads _)
        λ a. Triple-bind (found_approval-IsFound id a) (use-IsSpent id audit_id used_by)

  pub consume-Linearly :
      (id audit_id used_by : String) → Linearly w (consume_rollback_approval w id audit_id used_by)
  consume-Linearly id audit_id used_by = Keeps-Triple (
      Triple-after (λ a. IsSpent id) (λ a. IsLinear w) (IsLinear w) (λ a s h. h.linear)
        (consume-IsSpent id audit_id used_by))
