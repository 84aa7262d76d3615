-- ===== src/Policy/Linear.antt =====
-- Approvals are used at most once: the audit entries that name an approval, and the approvals with
-- its identifier that are not used yet, are at most one together. The methods follow in the module
-- below.
pub mod Steps
pub mod Approving
pub mod Using
pub mod Rolling
use wherecode.Prelude.{
  ℕ, suc, ◌+◌, ◌≤◌, String, ◌≡◌, refl, inl, inr, sym, ap, ◌∙◌, ◌==◌, eq_iff, eq_refl, Bool, true,
  false, not, ◌&&◌, Option, none, some, List, [], ◌∷◌, ◌++◌, map, arith, Bool-cases, if◌then◌else◌,
}
use mathlib.Core.Option.{some-injective}
use wherecode.Text.{strip}
use wherecode.Policy.State.{
  Signed, Stamp, stamped, Audit, Approval, ApprovalStatus, pending, approved, rejected, used,
  expired, Host, Files, PolicyStore,
}
use wherecode.Policy.Purge.{
  is_used, is_pending, is_approved, tally, Purged, purge_entry, is_recent, is_expired,
  compute_rollback_approval_purge_result,
}
use wherecode.Policy.Approvals.{
  find_rollback_approval, put_approval, refresh_entry, is_due, has_expired,
}

abbrev pub names : String → Audit → Bool
names id entry = elim entry.rollback_approval_id [ none ↦ false | some name ↦ name == id ]

abbrev pub is_live : String → Approval → Bool
is_live id entry = (strip entry.id == id) && not (is_used entry.status)

-- No identifier is issued twice, also without the spaces around it.
abbrev pub IsFresh : Host → Type 0
IsFresh w =
    (prefix : String) (m n : ℕ) → strip (w.new_id prefix m) ≡ strip (w.new_id prefix n) → m ≡ n

-- The audit entries that name an approval and the approvals that can still be used.
unfoldable pub claims : String → List Audit → List Approval → ℕ
claims id entries approvals = tally (names id) entries + tally (is_live id) approvals

pub record IsBounded (w : Host) (issued : ℕ) (entries : List Audit) (approvals : List Approval)
    : Type 0 where
  pub once : (id : String) → claims id entries approvals ≤ 1
  pub unissued : (k : ℕ) → issued ≤ k → claims (strip (w.new_id "rap" k)) entries approvals ≡ 0

-- The entries in memory are the last ones of the file: a restart that cannot read the file starts
-- without the entries in it.
pub record IsPart (file entries : List Audit) : Type 0 where
  pub lost : List Audit
  pub split : file ≡ lost ++ entries

-- The bound holds of the audit entries in the file, which has those in memory, with the approvals in
-- memory, and with those in the file, which may lag behind.
pub record IsLinear (w : Host) (s : PolicyStore) : Type 0 where
  pub memory : IsBounded w s.issued_ids s.files.audit_file s.rollback_approvals
  pub written : IsBounded w s.issued_ids s.files.audit_file s.files.approval_file
  pub same : IsPart s.files.audit_file s.audit_entries

module _ {A : Type 0} where
  pub tally-append : (p : A → Bool) (xs ys : List A) → tally p (xs ++ ys) ≡ tally p xs + tally p ys
  unfolding tally
  tally-append p [] ys = omega arith
  tally-append p (x ∷ xs) ys = ground (arith, tally-append p xs ys)

  pub tally-map :
      (p : A → Bool) (f : A → A) (xs : List A)
      → ((x : A) → p (f x) ≡ p x)
      → tally p (map f xs) ≡ tally p xs
  unfolding tally
  tally-map p f [] same = refl
  tally-map p f (x ∷ xs) same = ground (arith, same x, tally-map p f xs same)

-- An approval that expires was not used, and is not used then.
refresh-live :
    (id : String) (now : ℕ) (a : Approval) → is_live id (refresh_entry now a) ≡ is_live id a
unfolding refresh_entry is_due
refresh-live id now a = live_of_status a.status refl
  where
    live_of_status :
        (status : ApprovalStatus)
        → a.status ≡ status
        → is_live id (refresh_entry now a) ≡ is_live id a
    live_of_status status e = ground (arith, e)

pub tally-refresh :
    (id : String) (now : ℕ) (approvals : List Approval)
    → tally (is_live id) (map (refresh_entry now) approvals) ≡ tally (is_live id) approvals
tally-refresh id now approvals =
    tally-map (is_live id) (refresh_entry now) approvals (refresh-live id now)

purge_entry-le :
    (id : String) (remove_used remove_expired : Bool) (older : Option Signed) (now : ℕ)
    (a : Approval) (rest : Purged) (n : ℕ)
    → tally (is_live id) rest.kept ≤ n
    → tally (is_live id) (purge_entry remove_used remove_expired older now a rest).kept
      ≤ (if is_live id a then suc n else n)
unfolding purge_entry tally
purge_entry-le id remove_used remove_expired older now a rest n h =
    elim (Bool-cases (is_recent older now a.updated_at a.created_at)) [
      | inl recent ↦ rw recent (ground arith)
      | inr old ↦ rw old (ground arith)
    ]

pub tally-purge :
    (id : String) (remove_used remove_expired : Bool) (older : Option Signed) (now : ℕ)
    (approvals : List Approval)
    → tally
        (is_live id)
        (compute_rollback_approval_purge_result remove_used remove_expired older now approvals).kept
      ≤ tally (is_live id) approvals
unfolding compute_rollback_approval_purge_result tally
tally-purge id remove_used remove_expired older now [] = omega arith
tally-purge id remove_used remove_expired older now (a ∷ approvals) =
    purge_entry-le id remove_used remove_expired older now a _ (tally (is_live id) approvals)
      (tally-purge id remove_used remove_expired older now approvals)

abbrev pub one_if : Bool → ℕ
one_if b = if b then 1 else 0

pub find-id :
    (approvals : List Approval) (id : String) (a : Approval)
    → find_rollback_approval approvals id ≡ some a
    → (strip a.id == id) ≡ true
unfolding find_rollback_approval
find-id [] id a found = cc
find-id (x ∷ approvals) id a found = elim (Bool-cases (strip x.id == id)) [
  | inl hit ↦ rw (← some-injective x a (rw hit at found)) hit
  | inr other ↦ find-id approvals id a (rw other at found)
]

-- An entry that takes the place of the one that is found.
pub tally-put :
    (p : Approval → Bool) (approvals : List Approval) (id : String) (a b : Approval)
    → find_rollback_approval approvals id ≡ some a
    → tally p (put_approval approvals id b) + one_if (p a) ≡ tally p approvals + one_if (p b)
unfolding find_rollback_approval put_approval tally
tally-put p [] id a b found = cc
tally-put p (x ∷ approvals) id a b found = elim (Bool-cases (strip x.id == id)) [
  | inl hit ↦ rw hit (rw (← some-injective x a (rw hit at found)) (ground arith))
  | inr other ↦ rw other (ground (arith, tally-put p approvals id a b (rw other at found)))
]
