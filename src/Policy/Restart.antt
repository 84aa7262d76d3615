-- ===== src/Policy/Restart.antt =====
-- The constructor of MetricsAlertPolicyStore on the files that are there, with
-- control_center/services/metrics_alert_policy_store_io.py and metrics_alert_policy_store_rollback.py:
-- a restart.
use wherecode.Prelude.{ℕ, Option, none, some, leb, if◌then◌else◌}
use wherecode.Py.{◌>>=◌, ◌>>◌, reads, assign}
use wherecode.Policy.State.{Signed, Payload, Host, PolicyStore, Step, policy_now}
use wherecode.Policy.Rows.{audit_fits, approval_fits, purge_audit_fits, read_rows}
use wherecode.Policy.Normalize.{clip, default_policy, normalize_policy, to_payload}

-- max(1, int(value))
abbrev pub at_least_one : ℕ → ℕ
at_least_one n = if leb 1 n then n else 1

module _ (w : Host) where
  unfoldable pub load_policy : Option Payload → ℕ → PolicyStore → PolicyStore
  unfolding default_policy
  load_policy (some payload) now s = record s {
    policy = normalize_policy w.int_of_text payload;
    updated_at = now;
  }
  -- `persist_default_policy`
  load_policy none now s = record s {
    policy = default_policy;
    updated_at = now;
    files = record s.files { policy_file = some (to_payload default_policy) };
  }

  unfoldable pub load_lists : PolicyStore → PolicyStore
  load_lists s = record s {
    audit_entries = read_rows audit_fits s.files.audit_file;
    rollback_approvals = read_rows approval_fits s.files.approval_file;
    rollback_approval_purge_audits = read_rows purge_audit_fits s.files.purge_audit_file;
  }

  -- A store on the same files takes the place of this one.
  unfoldable pub restart : Signed → Step Unit
  unfolding assign reads
  restart rollback_approval_ttl_seconds = do
    now ← policy_now w
    assign (λ s. load_policy s.files.policy_file now s)
    assign load_lists
    assign λ s. record s {
      rollback_approval_ttl_seconds = at_least_one (clip rollback_approval_ttl_seconds);
    }
