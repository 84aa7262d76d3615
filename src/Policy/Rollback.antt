-- ===== src/Policy/Rollback.antt =====
-- The policy of control_center/services/metrics_alert_policy_store.py: its update, its audit entries,
-- and `rollback_to_audit` of metrics_alert_policy_store_mutations.py.
use wherecode.Prelude.{
  ℕ, String, ◌==◌, Bool, true, false, not, ◌&&◌, ◌||◌, Option, none, some, List, [], ◌∷◌, length,
  or_else, if◌then◌else◌,
}
use wherecode.Text.{strip, is_truthy}
use wherecode.Py.{
  returned, ◌>>=◌, ◌>>◌, pure, raise, reads, guard, assign, no_policy_payload, rollback_conflict,
  rollback_refused,
}
use wherecode.Policy.State.{
  Signed, stamped, RequestId, absent, null, request, Payload, Policy, Audit, Host, PolicyStore,
  Step, policy_now, policy_id, record_audit,
}
use wherecode.Policy.Normalize.{normalize_policy, to_payload, same_policy}
use wherecode.Policy.Approvals.{latest, get_audit, found_audit, consume_rollback_approval}

pub record PolicyView : Type 0 where
  pub policy : Policy
  pub updated_at : ℕ
  pub audit_count : ℕ

pub record RollbackResult : Type 0 where
  pub source_audit_id : String
  pub dry_run : Bool
  pub applied : Bool
  pub idempotent_replay : Bool
  pub policy : Policy
  pub audit_count : ℕ

-- str(entry.get("rollback_request_id", "")): the text of None is "None"
unfoldable pub request_text : RequestId → String
request_text absent = ""
request_text null = "None"
request_text (request key) = key

-- the last entry with the key
unfoldable pub find_rollback_by_request_id : List Audit → String → Option Audit
unfolding request_text
find_rollback_by_request_id [] request_id = none
find_rollback_by_request_id (entry ∷ entries) request_id =
    let rest = find_rollback_by_request_id entries request_id in
    elim rest [
      | some later ↦ some later
      | none ↦
          if strip (request_text entry.rollback_request_id) == request_id then some entry else none
    ]

-- request_id or None
abbrev pub stored_request : String → RequestId
stored_request request_id = if is_truthy request_id then request request_id else null

unfoldable pub get_policy : Step PolicyView
unfolding reads
get_policy = reads λ s.
    returned
      record { policy = s.policy; updated_at = s.updated_at; audit_count = length s.audit_entries }

-- store._policy = normalized, with the time and the file
unfoldable pub write_policy : Policy → ℕ → Step Unit
unfolding assign
write_policy policy now = assign λ s. record s {
  policy = policy;
  updated_at = now;
  files = record s.files { policy_file = some (to_payload policy) };
}

unfoldable pub list_audits : Signed → Step (List Audit)
unfolding reads
list_audits limit = reads (λ s. returned (latest limit s.audit_entries))

abbrev rollback_result : String → Bool → Bool → Bool → Policy → PolicyStore → RollbackResult
rollback_result audit_id dry_run applied replay policy s = record {
  source_audit_id = audit_id;
  dry_run = dry_run;
  applied = applied;
  idempotent_replay = replay;
  policy = policy;
  audit_count = length s.audit_entries;
}

abbrev pub update_entry : String → ℕ → String → Option String → Policy → Audit
update_entry id now updated_by reason policy = record {
  id = id;
  updated_at = stamped now;
  updated_by = strip updated_by;
  reason = reason;
  rollback_from_audit_id = none;
  rollback_request_id = absent;
  rollback_approval_id = none;
  policy = some (to_payload policy);
}

abbrev pub rollback_entry :
    String → ℕ → String → Option String → String → String → Option String → Policy → Audit
rollback_entry id now updated_by reason audit_id request_id approval_id policy = record {
  id = id;
  updated_at = stamped now;
  updated_by = strip updated_by;
  reason = reason;
  rollback_from_audit_id = some audit_id;
  rollback_request_id = stored_request request_id;
  rollback_approval_id = approval_id;
  policy = some (to_payload policy);
}

-- `str(replay.get("rollback_from_audit_id", "")).strip()` is not empty and another target
abbrev pub is_elsewhere : Option String → String → Bool
is_elsewhere none audit_id = false
is_elsewhere (some source) audit_id = is_truthy (strip source) && not (strip source == audit_id)

module _ (w : Host) where
  unfoldable pub update_policy : Payload → String → Option String → Step PolicyView
  update_policy payload updated_by reason = do
    let policy = normalize_policy w.int_of_text payload
    now ← policy_now w
    write_policy policy now
    id ← policy_id w "map"
    record_audit (update_entry id now updated_by reason policy)
    get_policy

  unfoldable pub payload_of : String → Option Payload → Step Payload
  payload_of audit_id none = raise (no_policy_payload audit_id)
  payload_of audit_id (some payload) = pure payload

  unfoldable pub replay_rollback : String → Bool → Audit → Step RollbackResult
  replay_rollback audit_id dry_run replay = do
    guard (not (is_elsewhere replay.rollback_from_audit_id audit_id))
        (rollback_conflict "idempotency key already used by another rollback target")
    reads λ s. returned (
        rollback_result audit_id dry_run true true
          (normalize_policy w.int_of_text (or_else replay.policy [])) s)

  -- the approval to use, without spaces around it
  unfoldable pub use_given_approval : String → String → Option String → Step (Option String)
  use_given_approval audit_id updated_by none = pure none
  use_given_approval audit_id updated_by (some approval_id) = do
    let id = strip approval_id
    guard (is_truthy id) (rollback_refused "rollback approval id is empty")
    consume_rollback_approval w id audit_id (strip updated_by)
    pure (some id)

  unfoldable pub write_rollback :
      String → String → Option String → String → Option String → Policy → Step RollbackResult
  write_rollback audit_id updated_by reason request_id approval_id policy = do
    used ← use_given_approval audit_id updated_by approval_id
    now ← policy_now w
    write_policy policy now
    id ← policy_id w "map"
    record_audit (rollback_entry id now updated_by reason audit_id request_id used policy)
    reads (λ s. returned (rollback_result audit_id false true false policy s))

  unfoldable pub report_dry_run : String → Policy → Step RollbackResult
  report_dry_run audit_id policy =
      reads (λ s. returned (rollback_result audit_id true false false policy s))

  unfoldable pub apply_rollback :
      String → String → Option String → Bool → String → Option String → Policy → Step RollbackResult
  apply_rollback audit_id updated_by reason dry_run request_id approval_id policy = do
    current ← reads (λ s. returned s.policy)
    guard (dry_run || not (same_policy policy current))
        (rollback_conflict "policy already matches rollback target")
    if dry_run
        then report_dry_run audit_id policy
        else write_rollback audit_id updated_by reason request_id approval_id policy

  abbrev replay_of : String → List Audit → Option Audit
  replay_of request_id entries =
      if is_truthy request_id then find_rollback_by_request_id entries request_id else none

  unfoldable pub replay_or_apply :
      String
      → String
      → Option String
      → Bool
      → String
      → Option String
      → Policy
      → Option Audit
      → Step RollbackResult
  replay_or_apply audit_id updated_by reason dry_run request_id approval_id policy (some replay) =
      replay_rollback audit_id dry_run replay
  replay_or_apply audit_id updated_by reason dry_run request_id approval_id policy none =
      apply_rollback audit_id updated_by reason dry_run request_id approval_id policy

  unfoldable pub rollback_to_audit :
      String → String → Option String → Bool → Option String → Option String → Step RollbackResult
  rollback_to_audit audit_id updated_by reason dry_run idempotency_key approval_id = do
    target ← reads (λ s. returned (get_audit s.audit_entries audit_id))
    audit ← found_audit w audit_id target
    payload ← payload_of audit_id audit.policy
    let policy = normalize_policy w.int_of_text payload
    let request_id = strip (or_else idempotency_key "")
    replay ← reads (λ s. returned (replay_of request_id s.audit_entries))
    replay_or_apply audit_id updated_by reason dry_run request_id approval_id policy replay
