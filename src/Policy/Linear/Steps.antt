-- ===== src/Policy/Linear/Steps.antt =====
-- The actions of methods keep the bound on approvals, and so do the methods that use none up.
use wherecode.Prelude.{ℕ, ◌≤◌, String, Bool, true, false, Option, none, some, List, map, arith}
use wherecode.Text.{strip}
use wherecode.Py.{raise, assign}
use wherecode.Py.Keeps.{Keeps, Keeps-pure, Keeps-reads, Keeps-bind, Keeps-assign}
use wherecode.Policy.State.{
  Signed, Audit, Approval, Host, PolicyStore, Step, policy_now, policy_id,
  persist_rollback_approvals,
}
use wherecode.Policy.Purge.{tally}
use wherecode.Policy.Approvals.{
  refresh_entry, refresh_rollback_approval_statuses, found_audit, when_given,
  list_rollback_approvals, get_rollback_approval_stats,
}
use wherecode.Policy.Linear.{is_live, claims, IsBounded, IsLinear, tally-refresh}

-- Approvals with no more live ones.
pub IsBounded-le :
    {w : Host} {n : ℕ} {entries : List Audit} {before : List Approval} (after : List Approval)
    → ((id : String) → tally (is_live id) after ≤ tally (is_live id) before)
    → IsBounded w n entries before
    → IsBounded w n entries after
unfolding claims
IsBounded-le {w} after less h = record {
  once = λ id. omega (arith, less id, h.once id);
  unissued = λ k le. omega (arith, less (strip (w.new_id "rap" k)), h.unissued k le);
}

abbrev pub Linearly : Host → {A : Type 0} → Step A → Type 0
Linearly w m = Keeps (IsLinear w) m

module _ {w : Host} where
  pub policy_now-Linearly : Linearly w (policy_now w)
  unfolding policy_now
  policy_now-Linearly = record {
    at = λ s h. record { memory = h.memory; written = h.written; same = h.same };
  }

  -- An identifier of another prefix, or one that is not used.
  pub policy_id-Linearly : (prefix : String) → Linearly w (policy_id w prefix)
  unfolding policy_id
  policy_id-Linearly prefix = record {
    at = λ s h. record {
      memory = record {
        once = h.memory.once;
        unissued = λ k le. h.memory.unissued k (omega arith);
      };
      written = record {
        once = h.written.once;
        unissued = λ k le. h.written.unissued k (omega arith);
      };
      same = h.same;
    };
  }

  pub persist-Linearly : Linearly w persist_rollback_approvals
  unfolding persist_rollback_approvals
  persist-Linearly =
      Keeps-assign _ λ s h. record { memory = h.memory; written = h.memory; same = h.same }

  pub when_given-Linearly : (b : Bool) {m : Step Unit} → Linearly w m → Linearly w (when_given b m)
  when_given-Linearly true k = k
  when_given-Linearly false k = Keeps-pure tt

  pub approvals-Linearly :
      (f : List Approval → List Approval)
      → ((approvals : List Approval) (id : String)
          → tally (is_live id) (f approvals) ≤ tally (is_live id) approvals)
      → Linearly w
          (assign (λ (s : PolicyStore). record s { rollback_approvals = f s.rollback_approvals }))
  approvals-Linearly f less = Keeps-assign _ λ s h. record {
    memory = IsBounded-le (f s.rollback_approvals) (less s.rollback_approvals) h.memory;
    written = h.written;
    same = h.same;
  }

  pub refresh-Linearly :
      (persist : Bool) → Linearly w (refresh_rollback_approval_statuses w persist)
  unfolding refresh_rollback_approval_statuses
  refresh-Linearly persist = Keeps-bind policy_now-Linearly λ now.
      Keeps-bind (Keeps-reads _) λ changed.
        Keeps-bind
          (approvals-Linearly (map (refresh_entry now))
            (λ approvals id. omega (arith, tally-refresh id now approvals)))
          λ _. Keeps-bind (when_given-Linearly _ persist-Linearly) λ _. Keeps-pure changed

  pub found_audit-Linearly :
      (id : String) (audit : Option Audit) → Linearly w (found_audit w id audit)
  unfolding found_audit raise
  found_audit-Linearly id none = record { at = λ s h. h }
  found_audit-Linearly id (some audit) = Keeps-pure audit

  pub list-Linearly :
      (limit : Signed) (status : Option String)
      → Linearly w (list_rollback_approvals w limit status)
  unfolding list_rollback_approvals
  list-Linearly limit status = Keeps-bind (refresh-Linearly true) (λ _. Keeps-reads _)

  pub stats-Linearly : Linearly w (get_rollback_approval_stats w)
  unfolding get_rollback_approval_stats
  stats-Linearly = Keeps-bind (refresh-Linearly true) (λ _. Keeps-reads _)
