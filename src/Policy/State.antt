-- ===== src/Policy/State.antt =====
-- The fields of MetricsAlertPolicyStore with the files behind them, and the rows of its lists. The
-- rows are those that the program writes: a file with rows of another shape is not modelled, but
-- for time stamps and policies that cannot be read.
use wherecode.Prelude.{ℕ, suc, String, Bool, Option, List, [], ◌∷◌, ◌++◌}
use wherecode.Dict.{Dict}
use wherecode.Py.{Py, returned, assign}

-- An integer: n, or -(n + 1).
pub data Signed : Type 0 where
  nonneg : ℕ → Signed
  negative : ℕ → Signed

-- A value in the payload of a policy. A float stands for its integral part.
pub data Raw : Type 0 where
  whole : Signed → Raw
  float : Signed → Raw
  flag : Bool → Raw
  words : String → Raw
  unusable : Raw

abbrev pub Payload : Type 0
Payload = Dict Raw

pub record Policy : Type 0 where
  pub failed_run_delta_gt : ℕ
  pub failed_run_count_gte : ℕ
  pub blocked_run_count_gte : ℕ
  pub waiting_approval_count_gte : ℕ
  pub in_flight_command_count_gte : ℕ

-- What stands under the key of a time in a row: nothing or an empty text, another text that is no
-- time and stays on its line, or a time. Times are in microseconds.
pub data Stamp : Type 0 where
  missing unread : Stamp
  stamped : ℕ → Stamp

-- What stands under `rollback_request_id` in a row: nothing, None, or a text.
pub data RequestId : Type 0 where
  absent null : RequestId
  request : String → RequestId

pub record Audit : Type 0 where
  pub id : String
  pub updated_at : Stamp
  pub updated_by : String
  pub reason : Option String
  pub rollback_from_audit_id : Option String
  pub rollback_request_id : RequestId
  pub rollback_approval_id : Option String
  -- `none` where the policy is no object
  pub policy : Option Payload

pub data ApprovalStatus : Type 0 where
  pending approved rejected used expired : ApprovalStatus

pub record Approval : Type 0 where
  pub id : String
  pub audit_id : String
  pub status : ApprovalStatus
  pub requested_by : String
  pub approved_by : Option String
  pub used_by : Option String
  pub reason : Option String
  pub created_at : Stamp
  pub updated_at : Stamp
  pub expires_at : Stamp

-- The event of a purge: the flags and the counts, or the number of entries to keep.
pub data PurgeEvent : Type 0 where
  approval_purge : Bool → Bool → ℕ → ℕ → PurgeEvent
  purge_audit_gc : ℕ → PurgeEvent

pub record PurgeAudit : Type 0 where
  pub id : String
  pub event_type : PurgeEvent
  pub requested_by : String
  pub dry_run : Bool
  pub older_than_seconds : Option Signed
  pub removed_total : ℕ
  pub remaining_total : ℕ
  pub created_at : Stamp

-- The files, as what was written: the policy, `none` where there is no file or its content is no
-- object, and the rows, each followed by a line feed. How rows are read back is in Policy/Rows.
pub record Files : Type 0 where
  pub policy_file : Option Payload
  pub audit_file : List Audit
  pub approval_file : List Approval
  pub purge_audit_file : List PurgeAudit

-- now_utc, new_id and int of a text.
pub record Host : Type 0 where
  pub now : ℕ → ℕ
  pub new_id : String → ℕ → String
  pub int_of_text : String → Option Signed

pub record PolicyStore : Type 0 where
  pub policy : Policy
  pub updated_at : ℕ
  pub audit_entries : List Audit
  pub rollback_approvals : List Approval
  pub rollback_approval_purge_audits : List PurgeAudit
  pub rollback_approval_ttl_seconds : ℕ
  pub files : Files
  pub clock_reads : ℕ
  pub issued_ids : ℕ

abbrev pub Step : Type 0 → Type 0
Step A = Py PolicyStore A

unfoldable pub policy_now : Host → Step ℕ
policy_now w s = (returned (w.now s.clock_reads), record s { clock_reads = suc s.clock_reads })

unfoldable pub policy_id : Host → String → Step String
policy_id w prefix s =
    (returned (w.new_id prefix s.issued_ids), record s { issued_ids = suc s.issued_ids })

-- self._persist_rollback_approvals()
unfoldable pub persist_rollback_approvals : Step Unit
unfolding assign
persist_rollback_approvals =
    assign λ s. record s { files = record s.files { approval_file = s.rollback_approvals } }

-- self._persist_rollback_approval_purge_audits()
unfoldable pub persist_rollback_approval_purge_audits : Step Unit
unfolding assign
persist_rollback_approval_purge_audits =
    assign λ s. record s {
      files = record s.files { purge_audit_file = s.rollback_approval_purge_audits };
    }

-- The new entry stands last in the list and in the file.
unfoldable pub record_purge_audit : PurgeAudit → Step Unit
unfolding assign
record_purge_audit entry = assign λ s. record s {
  rollback_approval_purge_audits = s.rollback_approval_purge_audits ++ entry ∷ [];
  files = record s.files { purge_audit_file = s.files.purge_audit_file ++ entry ∷ [] };
}

unfoldable pub record_audit : Audit → Step Unit
unfolding assign
record_audit entry = assign λ s. record s {
  audit_entries = s.audit_entries ++ entry ∷ [];
  files = record s.files { audit_file = s.files.audit_file ++ entry ∷ [] };
}
