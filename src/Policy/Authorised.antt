-- ===== src/Policy/Authorised.antt =====
-- A rollback that is given an approval is carried out only with one that holds: approved, bound to
-- the target and not expired. The approval is used up by it.
pub mod Rolling
use wherecode.Prelude.{
  ℕ, String, ◌≡◌, refl, sym, ap, ◌∙◌, inl, inr, ◌==◌, eq_iff, Bool, true, false, not, ◌&&◌, ◌||◌,
  Option, none, some, List, [], ◌∷◌, arith, map, or_else, Bool-cases, if◌then◌else◌,
}
use mathlib.Core.Option.{some-injective}
use wherecode.Text.{strip, is_truthy}
use wherecode.Py.{returned, ◌>>=◌, pure, reads, guard, assign}
use wherecode.Py.Keeps.{Keeps, Keeps-pure, Keeps-reads, Keeps-bind, Keeps-assign}
use wherecode.Py.Triple.{
  Ends, Triple, Triple-pure, Triple-raise, Triple-guarded, Triple-assign, Triple-bind,
  Triple-before, Triple-of, Triple-after, Triple-reads,
}
use wherecode.Policy.State.{
  Audit, Approval, ApprovalStatus, pending, approved, rejected, used, expired, Policy, Host,
  PolicyStore, Step, policy_now, policy_id, record_audit, persist_rollback_approvals,
}
use wherecode.Policy.Purge.{is_approved, is_pending}
use wherecode.Policy.Approvals.{
  find_rollback_approval, put_approval, found_approval, refresh_entry, is_due, has_expired,
  used_now, set_approval, use_approval, refresh_rollback_approval_statuses,
  consume_rollback_approval, when_given,
}
use wherecode.Policy.Rollback.{
  RollbackResult, write_policy, rollback_entry, use_given_approval, write_rollback,
  rollback_to_audit,
}
use wherecode.Policy.Paths.{is_new, rollback_paths}

-- The approval that `s` has under the identifier holds, and `t` has it as used.
pub record IsAuthorised (w : Host) (audit_id id : String) (s t : PolicyStore) : Type 0 where
  pub approval : Approval
  pub now : ℕ
  pub by : String
  pub found : find_rollback_approval s.rollback_approvals id ≡ some approval
  pub good : is_approved approval.status ≡ true
  pub bound : strip approval.audit_id ≡ audit_id
  pub lasting : has_expired approval.expires_at (w.now s.clock_reads) ≡ false
  pub spent : find_rollback_approval t.rollback_approvals id ≡ some (used_now by now approval)

-- What an approval that is still approved after the refresh was before it.
pub refresh-approved :
    (now : ℕ) (a : Approval)
    → is_approved (refresh_entry now a).status ≡ true
    → (refresh_entry now a ≡ a) × (has_expired a.expires_at now ≡ false)
unfolding refresh_entry is_due
refresh-approved now a good = elim (Bool-cases (is_due now a)) [
  | inl due ↦ absurd_status (rw due at good)
  | inr rests ↦ (rw rests refl, not_expired a.status (rw rests at good) rests)
]
  where
    absurd_status : {A : Type 0} → is_approved expired ≡ true → A
    absurd_status h = cc

    not_expired :
        (status : ApprovalStatus)
        → is_approved status ≡ true
        → ((is_pending status || is_approved status) && has_expired a.expires_at now) ≡ false
        → has_expired a.expires_at now ≡ false
    not_expired approved h k = k
    not_expired pending h k = cc
    not_expired rejected h k = cc
    not_expired used h k = cc
    not_expired expired h k = cc

refresh-id : (now : ℕ) (a : Approval) → (refresh_entry now a).id ≡ a.id
unfolding refresh_entry
refresh-id now a = elim (Bool-cases (is_due now a)) [
  | inl due ↦ rw due refl
  | inr rests ↦ rw rests refl
]

pub find-refresh :
    (now : ℕ) (approvals : List Approval) (id : String) (b : Approval)
    → find_rollback_approval (map (refresh_entry now) approvals) id ≡ some b
    → (a : Approval) × (find_rollback_approval approvals id ≡ some a) × (refresh_entry now a ≡ b)
unfolding find_rollback_approval refresh_entry
find-refresh now [] id b found = cc
find-refresh now (x ∷ approvals) id b found = elim (Bool-cases (strip x.id == id)) [
  | inl hit ↦
      (x, rw hit refl, some-injective (refresh_entry now x) b (rw (refresh-id, hit) at found))
  | inr other ↦
      let (a, e, q) = find-refresh now approvals id b (rw (refresh-id, other) at found) in
      (a, rw other e, q)
]

pub find-put_self :
    (approvals : List Approval) (id : String) (a b : Approval)
    → find_rollback_approval approvals id ≡ some a
    → b.id ≡ a.id
    → find_rollback_approval (put_approval approvals id b) id ≡ some b
unfolding find_rollback_approval put_approval
find-put_self [] id a b found same = cc
find-put_self (x ∷ approvals) id a b found same = elim (Bool-cases (strip x.id == id)) [
  | inl hit ↦
      let e : b.id ≡ x.id =
        same ∙ ap (λ (y : Approval). y.id) (sym (some-injective x a (rw hit at found))) in
      rw hit (rw (e, hit) refl)
  | inr other ↦ rw (other, other) (find-put_self approvals id a b (rw other at found) same)
]
