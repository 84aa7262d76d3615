-- ===== src/Policy/Samples.antt =====
-- The theorems about the policy store at concrete calls.
mod Entry
use Prim.Native.String.count
use Prim.Native.String.{count}
use wherecode.Prelude.{
  inl, length, ℕ, zero, suc, ◌+◌, ◌*◌, String, ◌≡◌, refl, sym, ap, ◌∙◌, true, false, none, some,
  List, [], ◌∷◌, ◌++◌, arith, length, keep,
}
use wherecode.Text.{lstrip, rstrip, strip, is_truthy}
use wherecode.Dict.{get}
use wherecode.Py.{returned, ◌>>=◌, pure, raise, reads, guard, assign}
use wherecode.Py.Triple.{Ends}
use wherecode.Policy.State.{
  nonneg, whole, stamped, Host, PolicyStore, PurgeAudit, purge_audit_gc, policy_now, policy_id,
  record_audit, persist_rollback_approvals,
}
use wherecode.Policy.Normalize.{
  default_policy, to_payload, normalize_policy, normalized, same_policy,
}
use wherecode.Policy.Purge.{
  tally, compute_rollback_approval_purge_result, compute_rollback_approval_purge_audit_gc_result,
}
use wherecode.Policy.Purge.Kept.{
  is_unsettled, compute_rollback_approval_purge_result-account,
  compute_rollback_approval_purge_audit_gc_result-latest,
}
use wherecode.Policy.Approvals.{
  get_audit, find_rollback_approval, put_approval, is_due, refresh_entry, set_approval,
  refresh_rollback_approval_statuses, found_audit, found_approval, create_rollback_approval,
  approve_pending, approve_found, approve_rollback_approval, use_approval,
  consume_rollback_approval,
}
use wherecode.Policy.Rollback.{
  RollbackResult, request_text, find_rollback_by_request_id, get_policy, write_policy,
  update_policy, payload_of, replay_rollback, use_given_approval, write_rollback, report_dry_run,
  apply_rollback, replay_or_apply, rollback_to_audit,
}
use wherecode.Policy.Restart.{restart}
use wherecode.Policy.History.{
  Call, update, rollback, create_approval, approve, purge, start_again, perform, history,
}
use wherecode.Policy.Linear.{claims, IsFresh, IsLinear}
use wherecode.Policy.Linear.Rolling.{history-IsLinear}
use wherecode.Policy.Paths.{is_new}
use wherecode.Policy.Effects.{IsUntouched, HasEffect}
use wherecode.Policy.Effects.Rolling.{rollback_to_audit-HasEffect}
use wherecode.Policy.Authorised.{IsAuthorised}
use wherecode.Policy.Authorised.Rolling.{rollback_to_audit-IsAuthorised}
use wherecode.Policy.Replay.{replay_answer, rollback_to_audit-again, rollback_to_audit-IsMistaken}
use wherecode.Policy.Rows.{fits_line}
use wherecode.Policy.Saved.{IsSaved, IsReloaded, history-restart, update_policy-IsLost}

abbrev marks : ℕ → String
marks zero = ""
marks (suc n) = String.◌∷◌ "i" (marks n)

count-marks : (n : ℕ) → count (marks n) ≡ n
count-marks zero = count.nil
count-marks (suc n) = rw (count.cons, count-marks n) refl

rstrip-marks : (n : ℕ) → rstrip (marks n) ≡ marks n
unfolding rstrip
rstrip-marks zero = refl
rstrip-marks (suc zero) = refl
rstrip-marks (suc (suc n)) = rw (rstrip-marks (suc n)) refl

strip-marks : (n : ℕ) → strip (marks (suc n)) ≡ marks (suc n)
unfolding strip
strip-marks n = rstrip-marks (suc n)

-- The n-th identifier has n + 1 marks, time passes by a second at each reading, and no text is read
-- as a number.
abbrev host : Host
host = record {
  now = λ n. 1000000 * n;
  new_id = λ prefix n. marks (suc n);
  int_of_text = λ t. none;
}

host-IsFresh : IsFresh host
host-IsFresh prefix m n e = omega (
  arith,
  count-marks (suc m),
  count-marks (suc n),
  ap count (sym (strip-marks m) ∙ e ∙ strip-marks n),
)

abbrev start : PolicyStore
start = record {
  policy = default_policy;
  updated_at = 0;
  audit_entries = [];
  rollback_approvals = [];
  rollback_approval_purge_audits = [];
  rollback_approval_ttl_seconds = 86400;
  files = record {
    policy_file = some (to_payload default_policy);
    audit_file = [];
    approval_file = [];
    purge_audit_file = [];
  };
  clock_reads = 0;
  issued_ids = 0;
}

start-IsLinear : IsLinear host start
unfolding claims tally
start-IsLinear = record {
  memory = record { once = λ id. omega arith; unissued = λ k le. refl };
  written = record { once = λ id. omega arith; unissued = λ k le. refl };
  same = record { lost = []; split = refl };
}

start-IsSaved : IsSaved start
start-IsSaved = record { policy = refl; audits = inl refl }

-- Two policies, and an approval to go back to the first, which is approved.
abbrev first_calls : List Call
first_calls =
    update (("failed_run_count_gte", whole (nonneg 5)) ∷ []) "ann" none
    ∷ update (("failed_run_count_gte", whole (nonneg 7)) ∷ []) "ann" none
    ∷ create_approval "i" "bob" none
    ∷ approve "iii" "eve"
    ∷ []

abbrev later_calls : List Call
later_calls =
    rollback "i" "ann" none false (some "k") (some " iii ")
    ∷ rollback "ii" "ann" none false none (some "iii")
    ∷ start_again (nonneg 60)
    ∷ purge true true false none (some "ann")
    ∷ []

abbrev ready : PolicyStore
ready = history host first_calls start

ready-IsLinear : IsLinear host ready
ready-IsLinear = history-IsLinear host first_calls start host-IsFresh start-IsLinear

history-IsLinear_example : IsLinear host (history host later_calls ready)
history-IsLinear_example = history-IsLinear host later_calls ready host-IsFresh ready-IsLinear

history-restart_example :
    IsReloaded
      (history host first_calls start)
      (restart host (nonneg 60) (history host first_calls start)).1
history-restart_example = history-restart host first_calls (nonneg 60) start start-IsSaved

-- U+2028, the line separator
abbrev two_lines : String
two_lines = "first\u{2028}second"

update_policy-IsLost_example :
    ((restart host
        (nonneg 60)
        (update_policy host [] "ann" (some two_lines) ready).1).1.audit_entries
      ≡ [])
    × (length
          (restart host
            (nonneg 60)
            (update_policy host [] "ann" (some two_lines) ready).1).1.files.audit_file
        ≡ suc (length ready.files.audit_file))
unfolding fits_line
update_policy-IsLost_example = update_policy-IsLost host [] "ann" two_lines (nonneg 60) ready refl

rollback_to_audit-HasEffect_example :
    Ends
      (HasEffect host "i" (some "k") ready)
      (IsUntouched ready)
      (rollback_to_audit host "i" "ann" none false (some "k") (some " iii ") ready).0
      (rollback_to_audit host "i" "ann" none false (some "k") (some " iii ") ready).1
rollback_to_audit-HasEffect_example =
    rollback_to_audit-HasEffect host ready "i" "ann" none false (some "k") (some " iii ")

rollback_to_audit-IsAuthorised_example :
    Ends
      (λ r t. is_new r ≡ true → IsAuthorised host "i" (strip " iii ") ready t)
      (λ t. Unit {0})
      (rollback_to_audit host "i" "ann" none false (some "k") (some " iii ") ready).0
      (rollback_to_audit host "i" "ann" none false (some "k") (some " iii ") ready).1
rollback_to_audit-IsAuthorised_example =
    rollback_to_audit-IsAuthorised host ready "i" "ann" none false (some "k") " iii "

abbrev applied : RollbackResult
applied = record {
  source_audit_id = "i";
  dry_run = false;
  applied = true;
  idempotent_replay = false;
  policy = record default_policy { failed_run_count_gte = 5 };
  audit_count = 3;
}

-- Everything that a call runs.
program : Unit {0}
unfolding history perform update_policy write_policy policy_now policy_id record_audit get_policy
    reads guard pure raise assign ◌>>=◌ normalize_policy normalized get default_policy
    create_rollback_approval found_audit get_audit strip lstrip rstrip persist_rollback_approvals
    approve_rollback_approval refresh_rollback_approval_statuses tally is_due refresh_entry
    find_rollback_approval found_approval approve_found approve_pending set_approval put_approval
    rollback_to_audit payload_of replay_or_apply replay_rollback find_rollback_by_request_id
    request_text apply_rollback same_policy report_dry_run write_rollback use_given_approval
    consume_rollback_approval use_approval
program = tt

abbrev rolled_back : PolicyStore
rolled_back = (rollback_to_audit host "i" "ann" none false (some "k") (some " iii ") ready).1

ran :
    rollback_to_audit host "i" "ann" none false (some "k") (some " iii ") ready
    ≡ (returned applied, rolled_back)
unfolding program
ran = refl

filled : is_truthy (strip "k") ≡ true
unfolding program
filled = refl

rollback_to_audit-again_example :
    rollback_to_audit host "i" "joe" none true (some "k") none rolled_back
    ≡ (returned (replay_answer "i" true applied.policy rolled_back), rolled_back)
rollback_to_audit-again_example =
    rollback_to_audit-again host ready rolled_back "i" (some "k") applied "ann" none false
      (some " iii ") ran refl "joe" none true none filled

-- The same without a key: afterwards the key "None" is taken.
abbrev unkeyed : PolicyStore
unkeyed = (rollback_to_audit host "i" "ann" none false none (some " iii ") ready).1

ran_unkeyed :
    rollback_to_audit host "i" "ann" none false none (some " iii ") ready
    ≡ (returned applied, unkeyed)
unfolding program
ran_unkeyed = refl

blank : is_truthy (strip "") ≡ false
unfolding program
blank = refl

rollback_to_audit-IsMistaken_example :
    rollback_to_audit host "i" "joe" none false (some "None") none unkeyed
    ≡ (returned (replay_answer "i" false applied.policy unkeyed), unkeyed)
rollback_to_audit-IsMistaken_example =
    rollback_to_audit-IsMistaken host ready unkeyed "i" none applied "ann" none false (some " iii ")
      ran_unkeyed refl "joe" none false none blank

abbrev purge_row : String → ℕ → PurgeAudit
purge_row id created = record {
  id = id;
  event_type = purge_audit_gc 0;
  requested_by = "ann";
  dry_run = false;
  older_than_seconds = none;
  removed_total = 0;
  remaining_total = 0;
  created_at = stamped created;
}

abbrev purge_rows : List PurgeAudit
purge_rows = purge_row "a" 1 ∷ purge_row "b" 2 ∷ purge_row "c" 3 ∷ []

rows-IsNamed : (is_truthy (strip "b") ≡ true) × ((is_truthy (strip "c") ≡ true) × Unit {0})
unfolding program
rows-IsNamed = (refl, (refl, tt))

compute_rollback_approval_purge_audit_gc_result-latest_example :
    (front : List PurgeAudit) × ((compute_rollback_approval_purge_audit_gc_result purge_rows none
        (nonneg 2)
        9).0
      ≡ front ++ purge_row "b" 2 ∷ purge_row "c" 3 ∷ [])
compute_rollback_approval_purge_audit_gc_result-latest_example =
    compute_rollback_approval_purge_audit_gc_result-latest purge_rows none (nonneg 2) 9 rows-IsNamed

compute_rollback_approval_purge_result-account_example :
    let result =
      compute_rollback_approval_purge_result true true
        (some (nonneg 60))
        9000000
        ready.rollback_approvals in
    (length result.kept + result.removed_used + result.removed_expired
      ≡ length ready.rollback_approvals)
    × (keep is_unsettled result.kept ≡ keep is_unsettled ready.rollback_approvals)
compute_rollback_approval_purge_result-account_example =
    compute_rollback_approval_purge_result-account true true (some (nonneg 60)) 9000000
      ready.rollback_approvals
