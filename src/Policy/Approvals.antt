-- ===== src/Policy/Approvals.antt =====
-- The approvals of control_center/services/metrics_alert_policy_store_mutations.py and
-- metrics_alert_policy_store_rollback.py: a rollback may be bound to an approval, which expires, and
-- which a rollback uses up.
use wherecode.Prelude.{
  ℕ, ◌+◌, ◌*◌, String, Bool, true, false, not, ◌&&◌, ◌||◌, Option, none, some, List, [], ◌∷◌, ◌++◌,
  ◌==◌, leb, map, nat_eq, reverse, if◌then◌else◌,
}
use wherecode.Text.{strip}
use wherecode.Py.{
  returned, ◌>>=◌, ◌>>◌, pure, raise, reads, guard, assign, audit_not_found, approval_not_found,
  rollback_conflict, rollback_refused,
}
use wherecode.Policy.State.{
  Signed, Stamp, missing, unread, stamped, Audit, Approval, pending, approved, used, expired, Host,
  Step, policy_now, policy_id, persist_rollback_approvals,
}
use wherecode.Policy.Normalize.{clip}
use wherecode.Policy.Purge.{
  is_pending, is_approved, is_used, is_expired, tally, ApprovalStats, build_rollback_approval_stats,
  filter_rollback_approvals_by_status, last_items,
}

-- the last entry with the identifier
abbrev pub last_audit : List Audit → String → Option Audit
last_audit [] audit_id = none
last_audit (entry ∷ entries) audit_id =
    let rest = last_audit entries audit_id in
    elim rest [
      | some later ↦ some later
      | none ↦ if strip entry.id == audit_id then some entry else none
    ]

unfoldable pub get_audit : List Audit → String → Option Audit
get_audit entries audit_id = last_audit entries audit_id

unfoldable pub find_rollback_approval : List Approval → String → Option Approval
find_rollback_approval [] approval_id = none
find_rollback_approval (entry ∷ approvals) approval_id =
    if strip entry.id == approval_id
    then some entry
    else find_rollback_approval approvals approval_id

-- What assigning to attributes of the entry that is found does to the list.
unfoldable pub put_approval : List Approval → String → Approval → List Approval
put_approval [] approval_id approval = []
put_approval (entry ∷ approvals) approval_id approval =
    if strip entry.id == approval_id
    then approval ∷ approvals
    else entry ∷ put_approval approvals approval_id approval

abbrev pub has_expired : Stamp → ℕ → Bool
has_expired missing now = false
has_expired unread now = false
has_expired (stamped t) now = leb t now

unfoldable pub is_due : ℕ → Approval → Bool
is_due now entry =
    (is_pending entry.status || is_approved entry.status) && has_expired entry.expires_at now

unfoldable pub refresh_entry : ℕ → Approval → Approval
unfolding is_due
refresh_entry now entry =
    if is_due now entry then record entry { status = expired; updated_at = stamped now } else entry

unfoldable pub set_approval : String → Approval → Step Unit
unfolding assign put_approval
set_approval approval_id approval =
    assign
      λ s. record s { rollback_approvals = put_approval s.rollback_approvals approval_id approval }

abbrev pub when_given : Bool → Step Unit → Step Unit
when_given test m = if test then m else pure tt

-- list(reversed(xs[-limit:]))
abbrev pub latest {ℓ} : {A : Type ℓ} → Signed → List A → List A
latest limit xs = if nat_eq (clip limit) 0 then [] else reverse (last_items (clip limit) xs)

abbrev pub new_approval : String → String → String → Option String → ℕ → ℕ → Approval
new_approval id audit_id requested_by reason now ttl = record {
  id = id;
  audit_id = audit_id;
  status = pending;
  requested_by = strip requested_by;
  approved_by = none;
  used_by = none;
  reason = reason;
  created_at = stamped now;
  updated_at = stamped now;
  expires_at = stamped (now + ttl * 1000000);
}

abbrev pub approved_now : String → ℕ → Approval → Approval
approved_now approved_by now approval = record approval {
  status = approved;
  approved_by = some (strip approved_by);
  updated_at = stamped now;
}

abbrev pub used_now : String → ℕ → Approval → Approval
used_now used_by now approval = record approval {
  status = used;
  used_by = some (strip used_by);
  updated_at = stamped now;
}

module _ (w : Host) where
  unfoldable pub refresh_rollback_approval_statuses : Bool → Step ℕ
  refresh_rollback_approval_statuses persist = do
    now ← policy_now w
    changed ← reads (λ s. returned (tally (is_due now) s.rollback_approvals))
    assign (λ s. record s { rollback_approvals = map (refresh_entry now) s.rollback_approvals })
    when_given (not (nat_eq changed 0) && persist) persist_rollback_approvals
    pure changed

  unfoldable pub found_audit : String → Option Audit → Step Audit
  found_audit audit_id none = raise (audit_not_found audit_id)
  found_audit audit_id (some audit) = pure audit

  unfoldable pub found_approval : String → Option Approval → Step Approval
  found_approval approval_id none = raise (approval_not_found approval_id)
  found_approval approval_id (some approval) = pure approval

  unfoldable pub create_rollback_approval : String → String → Option String → Step Approval
  create_rollback_approval audit_id requested_by reason = do
    target ← reads (λ s. returned (get_audit s.audit_entries audit_id))
    audit ← found_audit audit_id target
    now ← policy_now w
    ttl ← reads (λ s. returned s.rollback_approval_ttl_seconds)
    id ← policy_id w "rap"
    let entry = new_approval id audit_id requested_by reason now ttl
    assign (λ s. record s { rollback_approvals = s.rollback_approvals ++ entry ∷ [] })
    persist_rollback_approvals
    pure entry

  unfoldable pub approve_pending : String → String → Approval → Step Approval
  approve_pending approval_id approved_by approval = do
    guard (not (is_expired approval.status)) (rollback_refused "expired")
    guard (is_pending approval.status) (rollback_refused "not pending")
    now ← policy_now w
    let after = approved_now approved_by now approval
    set_approval approval_id after
    persist_rollback_approvals
    pure after

  unfoldable pub approve_found : String → String → Approval → Step Approval
  approve_found approval_id approved_by approval =
      if is_approved approval.status
      then pure approval
      else approve_pending approval_id approved_by approval

  unfoldable pub approve_rollback_approval : String → String → Step Approval
  approve_rollback_approval approval_id approved_by = do
    refresh_rollback_approval_statuses true
    target ← reads (λ s. returned (find_rollback_approval s.rollback_approvals approval_id))
    approval ← found_approval approval_id target
    approve_found approval_id approved_by approval

  unfoldable pub use_approval : String → String → String → Approval → Step Approval
  use_approval approval_id audit_id used_by approval = do
    guard (strip approval.audit_id == audit_id) (rollback_refused "bound to another audit id")
    guard (not (is_used approval.status)) (rollback_conflict "already used")
    guard (not (is_expired approval.status)) (rollback_refused "expired")
    guard (is_approved approval.status) (rollback_refused "not approved")
    now ← policy_now w
    let after = used_now used_by now approval
    set_approval approval_id after
    persist_rollback_approvals
    pure after

  unfoldable pub consume_rollback_approval : String → String → String → Step Approval
  consume_rollback_approval approval_id audit_id used_by = do
    refresh_rollback_approval_statuses true
    target ← reads (λ s. returned (find_rollback_approval s.rollback_approvals approval_id))
    approval ← found_approval approval_id target
    use_approval approval_id audit_id used_by approval

  unfoldable pub list_rollback_approvals : Signed → Option String → Step (List Approval)
  list_rollback_approvals limit status = do
    refresh_rollback_approval_statuses true
    reads λ s.
        returned (latest limit (filter_rollback_approvals_by_status s.rollback_approvals status))

  unfoldable pub get_rollback_approval_stats : Step ApprovalStats
  get_rollback_approval_stats = do
    refresh_rollback_approval_statuses true
    reads (λ s. returned (build_rollback_approval_stats s.rollback_approvals))
