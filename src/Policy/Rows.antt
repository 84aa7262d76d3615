-- ===== src/Policy/Rows.antt =====
-- How the rows of a file are read back: `load_audits` of
-- control_center/services/metrics_alert_policy_store_io.py, and `load_rollback_approvals` and
-- `load_rollback_approval_purge_audits` of metrics_alert_policy_store_rollback.py.
--
-- A row is written by `json.dumps` with `ensure_ascii=False`, which escapes the control characters
-- below U+0020 and no other line boundary, and read by `str.splitlines`. So a row stays on its line
-- where none of its texts has U+0085, U+2028 or U+2029. Where one has, the first part of the row is
-- an object that does not end, `json.loads` raises, and the function returns no rows at all. The
-- tests for an object and for the keys "id" and "audit_id" pass on every row that is written.
use Prim.Native.Char.{Char, code}
use wherecode.Prelude.{
  String, Bool, true, not, ◌&&◌, ◌||◌, nat_eq, Option, none, some, List, [], all, if◌then◌else◌,
}
use wherecode.Policy.State.{Raw, words, Payload, RequestId, request, Audit, Approval, PurgeAudit}

-- a character that `str.splitlines` splits at and `json.dumps` does not escape
abbrev pub is_boundary : Char → Bool
is_boundary ch = let c = code ch in nat_eq c 133 || nat_eq c 8232 || nat_eq c 8233

unfoldable pub fits_line : String → Bool
fits_line String.[] = true
fits_line (String.◌∷◌ c text) = not (is_boundary c) && fits_line text

abbrev pub optional_fits : Option String → Bool
optional_fits none = true
optional_fits (some text) = fits_line text

abbrev pub raw_fits : Raw → Bool
raw_fits (words text) = fits_line text
raw_fits _ = true

abbrev pub payload_fits : Option Payload → Bool
payload_fits none = true
payload_fits (some payload) = all (λ (e : String × Raw). fits_line e.0 && raw_fits e.1) payload

abbrev pub request_fits : RequestId → Bool
request_fits (request key) = fits_line key
request_fits _ = true

unfoldable pub audit_fits : Audit → Bool
audit_fits entry =
    fits_line entry.id
    && fits_line entry.updated_by
    && optional_fits entry.reason
    && optional_fits entry.rollback_from_audit_id
    && request_fits entry.rollback_request_id
    && optional_fits entry.rollback_approval_id
    && payload_fits entry.policy

unfoldable pub approval_fits : Approval → Bool
approval_fits entry =
    fits_line entry.id
    && fits_line entry.audit_id
    && fits_line entry.requested_by
    && optional_fits entry.approved_by
    && optional_fits entry.used_by
    && optional_fits entry.reason

unfoldable pub purge_audit_fits : PurgeAudit → Bool
purge_audit_fits entry = fits_line entry.id && fits_line entry.requested_by

-- The rows that are read: all of them, or none.
unfoldable pub read_rows : {A : Type 0} → (A → Bool) → List A → List A
read_rows fits rows = if all fits rows then rows else []
