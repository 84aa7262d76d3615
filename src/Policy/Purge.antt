-- ===== src/Policy/Purge.antt =====
-- The filters, counts and purges of control_center/services/metrics_alert_policy_store_policy.py and
-- the time tests of metrics_alert_policy_store_rollback.py: functions on lists of rows. What the
-- purges keep is in the module below.
pub mod Kept
use wherecode.Prelude.{
  ℕ, suc, ◌+◌, ◌-◌, ◌*◌, String, Bool, true, false, ◌&&◌, Option, none, some, List, [], ◌∷◌, leb,
  map, nat_eq, length, drop, keep, contains, or_else, if◌then◌else◌,
}
use wherecode.Text.{strip, is_truthy, lowers_to}
use wherecode.Policy.State.{
  Signed, Stamp, missing, unread, stamped, Approval, ApprovalStatus, pending, approved, rejected,
  used, expired, PurgeAudit, PurgeEvent, approval_purge, purge_audit_gc,
}
use wherecode.Policy.Normalize.{clip}

-- entry.get("updated_at") or entry.get("created_at")
abbrev first_stamp : Stamp → Stamp → Stamp
first_stamp missing created_at = created_at
first_stamp unread created_at = unread
first_stamp (stamped t) created_at = stamped t

abbrev reached : Stamp → ℕ → ℕ → Bool
reached missing seconds now = false
reached unread seconds now = false
reached (stamped t) seconds now = leb (t + seconds * 1000000) now

-- the stamps are those of the entry
unfoldable pub is_older_than : Stamp → Stamp → ℕ → ℕ → Bool
is_older_than updated_at created_at seconds now =
    if nat_eq seconds 0 then true else reached (first_stamp updated_at created_at) seconds now

unfoldable pub is_timestamp_after : Stamp → ℕ → Bool
is_timestamp_after missing threshold = false
is_timestamp_after unread threshold = false
is_timestamp_after (stamped t) threshold = leb threshold t

unfoldable pub is_timestamp_before : Stamp → ℕ → Bool
is_timestamp_before missing threshold = false
is_timestamp_before unread threshold = false
is_timestamp_before (stamped t) threshold = leb t threshold

abbrev pub status_text : ApprovalStatus → String
status_text pending = "pending"
status_text approved = "approved"
status_text rejected = "rejected"
status_text used = "used"
status_text expired = "expired"

abbrev pub is_pending : ApprovalStatus → Bool
is_pending pending = true
is_pending approved = false
is_pending rejected = false
is_pending used = false
is_pending expired = false

abbrev pub is_approved : ApprovalStatus → Bool
is_approved pending = false
is_approved approved = true
is_approved rejected = false
is_approved used = false
is_approved expired = false

abbrev pub is_rejected : ApprovalStatus → Bool
is_rejected pending = false
is_rejected approved = false
is_rejected rejected = true
is_rejected used = false
is_rejected expired = false

abbrev pub is_used : ApprovalStatus → Bool
is_used pending = false
is_used approved = false
is_used rejected = false
is_used used = true
is_used expired = false

abbrev pub is_expired : ApprovalStatus → Bool
is_expired pending = false
is_expired approved = false
is_expired rejected = false
is_expired used = false
is_expired expired = true

-- sum(1 for x in xs if p(x))
unfoldable pub tally {ℓ} : {A : Type ℓ} → (A → Bool) → List A → ℕ
tally p [] = 0
tally p (x ∷ xs) = let rest = tally p xs in if p x then suc rest else rest

pub record ApprovalStats : Type 0 where
  pub total : ℕ
  pub pending : ℕ
  pub approved : ℕ
  pub rejected : ℕ
  pub used : ℕ
  pub expired : ℕ

unfoldable pub build_rollback_approval_stats : List Approval → ApprovalStats
unfolding tally
build_rollback_approval_stats approvals = record {
  total = length approvals;
  pending = tally (λ (a : Approval). is_pending a.status) approvals;
  approved = tally (λ (a : Approval). is_approved a.status) approvals;
  rejected = tally (λ (a : Approval). is_rejected a.status) approvals;
  used = tally (λ (a : Approval). is_used a.status) approvals;
  expired = tally (λ (a : Approval). is_expired a.status) approvals;
}

unfoldable pub filter_rollback_approvals_by_status : List Approval → Option String → List Approval
filter_rollback_approvals_by_status approvals none = approvals
filter_rollback_approvals_by_status approvals (some status) =
    keep (λ a. lowers_to (strip status) (status_text a.status)) approvals

-- `retention_seconds is not None` and the entry is not old enough
abbrev pub is_recent : Option Signed → ℕ → Stamp → Stamp → Bool
is_recent none now updated_at created_at = false
is_recent (some seconds) now updated_at created_at =
    if is_older_than updated_at created_at (clip seconds) now then false else true

pub record Purged : Type 0 where
  pub kept : List Approval
  pub removed_used : ℕ
  pub removed_expired : ℕ

unfoldable pub purge_entry : Bool → Bool → Option Signed → ℕ → Approval → Purged → Purged
purge_entry remove_used remove_expired older_than_seconds now entry rest =
    if is_recent older_than_seconds now entry.updated_at entry.created_at
    then record rest { kept = entry ∷ rest.kept }
    else if is_used entry.status && remove_used
    then record rest { removed_used = suc rest.removed_used }
    else if is_expired entry.status && remove_expired
    then record rest { removed_expired = suc rest.removed_expired }
    else record rest { kept = entry ∷ rest.kept }

-- `now` counts only where `older_than_seconds` is given
unfoldable pub compute_rollback_approval_purge_result :
    Bool → Bool → Option Signed → ℕ → List Approval → Purged
compute_rollback_approval_purge_result remove_used remove_expired older_than_seconds now [] =
    record { kept = []; removed_used = 0; removed_expired = 0 }
compute_rollback_approval_purge_result remove_used remove_expired older_than_seconds now
      (entry ∷ approvals) =
    purge_entry remove_used remove_expired older_than_seconds now entry (
      compute_rollback_approval_purge_result remove_used remove_expired older_than_seconds now
        approvals)

abbrev event_text : PurgeEvent → String
event_text (approval_purge remove_used remove_expired removed_used removed_expired) =
    "approval_purge"
event_text (purge_audit_gc keep_latest) = "purge_audit_gc"

abbrev keep_event : String → List PurgeAudit → List PurgeAudit
keep_event event_type records =
    if is_truthy event_type
    then keep (λ item. lowers_to event_type (event_text item.event_type)) records
    else records

abbrev keep_after : Option ℕ → List PurgeAudit → List PurgeAudit
keep_after none records = records
keep_after (some t) records = keep (λ item. is_timestamp_after item.created_at t) records

abbrev keep_before : Option ℕ → List PurgeAudit → List PurgeAudit
keep_before none records = records
keep_before (some t) records = keep (λ item. is_timestamp_before item.created_at t) records

unfoldable pub filter_rollback_approval_purge_audits :
    List PurgeAudit → Option String → Option ℕ → Option ℕ → List PurgeAudit
filter_rollback_approval_purge_audits records event_type created_after created_before =
    keep_before created_before
      (keep_after created_after (keep_event (strip (or_else event_type "")) records))

-- xs[-n:]
abbrev pub last_items {ℓ} : {A : Type ℓ} → ℕ → List A → List A
last_items n xs = if nat_eq n 0 then xs else drop (length xs - n) xs

-- the identifiers of the latest entries, without the empty ones
unfoldable pub protected_ids : ℕ → List PurgeAudit → List String
protected_ids latest_to_keep entries =
    if nat_eq latest_to_keep 0
    then []
    else keep is_truthy (map (λ (e : PurgeAudit). strip e.id) (last_items latest_to_keep entries))

unfoldable pub is_protected : List String → PurgeAudit → Bool
is_protected ids entry = is_truthy (strip entry.id) && contains ids (strip entry.id)

unfoldable pub collect : List String → Option Signed → ℕ → List PurgeAudit → List PurgeAudit × ℕ
collect ids older_than_seconds now [] = ([], 0)
collect ids older_than_seconds now (entry ∷ entries) =
    let (kept, removed) = collect ids older_than_seconds now entries in
    if is_protected ids entry
    then (entry ∷ kept, removed)
    else if is_recent older_than_seconds now missing entry.created_at
    then (entry ∷ kept, removed)
    else (kept, suc removed)

-- the rows kept, the number of rows removed, and the number of latest rows to keep
unfoldable pub compute_rollback_approval_purge_audit_gc_result :
    List PurgeAudit → Option Signed → Signed → ℕ → List PurgeAudit × ℕ × ℕ
unfolding collect protected_ids
compute_rollback_approval_purge_audit_gc_result entries older_than_seconds keep_latest now =
    let (kept, removed) =
      collect (protected_ids (clip keep_latest) entries) older_than_seconds now entries in
    (kept, removed, clip keep_latest)
