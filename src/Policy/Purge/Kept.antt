-- ===== src/Policy/Purge/Kept.antt =====
-- What the purges keep.
use wherecode.Prelude.{
  ℕ, zero, suc, ◌+◌, ◌-◌, ◌≤◌, String, ◌≡◌, refl, sym, ap, subst, inl, inr, eq_refl, Bool, true,
  not, ◌&&◌, ◌||◌, Option, List, [], ◌∷◌, ◌++◌, map, arith, length, drop, take, keep, nat_eq, All,
  Bool-cases,
}
use mathlib.Core.List.{append-nil}
use wherecode.Text.{strip, is_truthy}
use wherecode.Policy.State.{Signed, Approval, PurgeAudit, missing}
use wherecode.Policy.Normalize.{clip}
use wherecode.Policy.Purge.{
  is_used, is_expired, is_recent, Purged, purge_entry, compute_rollback_approval_purge_result,
  protected_ids, is_protected, collect, compute_rollback_approval_purge_audit_gc_result,
}

-- Neither used nor expired.
abbrev pub is_unsettled : Approval → Bool
is_unsettled a = not (is_used a.status) && not (is_expired a.status)

record IsAccounted (before : List Approval) (result : Purged) : Type 0 where
  total : length result.kept + result.removed_used + result.removed_expired ≡ length before
  same : keep is_unsettled result.kept ≡ keep is_unsettled before

purge_entry-IsAccounted :
    (remove_used remove_expired : Bool) (older : Option Signed) (now : ℕ) (a : Approval)
    (before : List Approval) (rest : Purged)
    → IsAccounted before rest
    → IsAccounted (a ∷ before) (purge_entry remove_used remove_expired older now a rest)
unfolding purge_entry
purge_entry-IsAccounted remove_used remove_expired older now a before rest h =
    elim (Bool-cases (is_recent older now a.updated_at a.created_at)) [
      | inl recent ↦ rw recent record { total = omega (arith, h.total); same = rw h.same refl }
      | inr old ↦ rw old (elim (Bool-cases (is_used a.status && remove_used)) [
        | inl goes ↦ rw goes record { total = omega (arith, h.total); same = ground arith }
        | inr stays ↦ rw stays (elim (Bool-cases (is_expired a.status && remove_expired)) [
          | inl goes ↦ rw goes record { total = omega (arith, h.total); same = ground arith }
          | inr kept ↦ rw kept record { total = omega (arith, h.total); same = rw h.same refl }
        ])
      ])
    ]

purge-IsAccounted :
    (remove_used remove_expired : Bool) (older : Option Signed) (now : ℕ)
    (approvals : List Approval)
    → IsAccounted approvals
        (compute_rollback_approval_purge_result remove_used remove_expired older now approvals)
unfolding compute_rollback_approval_purge_result
purge-IsAccounted remove_used remove_expired older now [] = record { total = refl; same = refl }
purge-IsAccounted remove_used remove_expired older now (a ∷ approvals) =
    purge_entry-IsAccounted remove_used remove_expired older now a approvals _
      (purge-IsAccounted remove_used remove_expired older now approvals)

-- A purge of approvals loses none: those it keeps and the two counts of those it removes add up to
-- all. It keeps every approval that is neither used nor expired, in order.
pub compute_rollback_approval_purge_result-account :
    (remove_used remove_expired : Bool) (older : Option Signed) (now : ℕ)
    (approvals : List Approval)
    → let result =
        compute_rollback_approval_purge_result remove_used remove_expired older now approvals in
      (length result.kept + result.removed_used + result.removed_expired ≡ length approvals)
      × (keep is_unsettled result.kept ≡ keep is_unsettled approvals)
compute_rollback_approval_purge_result-account remove_used remove_expired older now approvals =
    let h = purge-IsAccounted remove_used remove_expired older now approvals in (h.total, h.same)

abbrev IsNamed : PurgeAudit → Type 0
IsNamed e = is_truthy (strip e.id) ≡ true

protected-cons :
    (ids : List String) (id : String) (entries : List PurgeAudit)
    → All (λ e. is_protected ids e ≡ true) entries
    → All (λ e. is_protected (id ∷ ids) e ≡ true) entries
unfolding is_protected
protected-cons ids id [] h = tt
protected-cons ids id (e ∷ entries) (h, hs) = (ground (arith, h), protected-cons ids id entries hs)

-- Entries are protected by their own identifiers.
protected_self :
    (entries : List PurgeAudit)
    → All IsNamed entries
    → All
        (λ e. is_protected (keep is_truthy (map (λ (e : PurgeAudit). strip e.id) entries)) e ≡ true)
        entries
unfolding is_protected
protected_self [] h = tt
protected_self (e ∷ entries) (h, hs) =
    let rest = keep is_truthy (map (λ (e : PurgeAudit). strip e.id) entries) in
    let q : keep is_truthy (map (λ (e : PurgeAudit). strip e.id) (e ∷ entries))
        ≡ strip e.id ∷ rest =
      rw h refl in
    subst (λ (l : List String). All (λ x. is_protected l x ≡ true) (e ∷ entries)) (sym q)
      (
        ground (arith, h, eq_refl (strip e.id)),
        protected-cons rest (strip e.id) entries (protected_self entries hs),
      )

-- Entries that are protected stay, at the end of what is kept.
collect-protected :
    (ids : List String) (older : Option Signed) (now : ℕ) (entries : List PurgeAudit)
    → All (λ e. is_protected ids e ≡ true) entries
    → (collect ids older now entries).0 ≡ entries
unfolding collect
collect-protected ids older now [] h = refl
collect-protected ids older now (e ∷ entries) (h, hs) =
    rw h (rw (collect-protected ids older now entries hs) refl)

collect-append :
    (ids : List String) (older : Option Signed) (now : ℕ) (front entries : List PurgeAudit)
    → All (λ e. is_protected ids e ≡ true) entries
    → (kept : List PurgeAudit) × ((collect ids older now (front ++ entries)).0 ≡ kept ++ entries)
unfolding collect
collect-append ids older now [] entries h = ([], collect-protected ids older now entries h)
collect-append ids older now (e ∷ front) entries h =
    let (kept, q) = collect-append ids older now front entries h in
    elim (Bool-cases (is_protected ids e || is_recent older now missing e.created_at)) [
      | inl stays ↦ (e ∷ kept, ground (arith, q))
      | inr goes ↦ (kept, ground (arith, q))
    ]

module _ {A : Type 0} where
  take-drop : (n : ℕ) (xs : List A) → take n xs ++ drop n xs ≡ xs
  take-drop zero xs = refl
  take-drop (suc n) [] = refl
  take-drop (suc n) (x ∷ xs) = ap (λ (l : List A). x ∷ l) (take-drop n xs)

  drop-all : (xs : List A) (n : ℕ) → length xs ≤ n → drop n xs ≡ []
  drop-all [] zero h = refl
  drop-all [] (suc n) h = refl
  drop-all (x ∷ xs) zero h = absurd (omega arith)
  drop-all (x ∷ xs) (suc n) h = drop-all xs n (omega arith)

nat_eq→eq : (m n : ℕ) → nat_eq m n ≡ true → m ≡ n
nat_eq→eq m n h = ground arith

-- Collecting the entries of purges keeps the latest ones, as many as asked for, or all of them where
-- there are fewer, whatever their age: they stand at the end of what is kept, in order. This is so
-- where the latest ones have identifiers that are not blank.
pub compute_rollback_approval_purge_audit_gc_result-latest :
    (entries : List PurgeAudit) (older : Option Signed) (keep_latest : Signed) (now : ℕ)
    → All IsNamed (drop (length entries - clip keep_latest) entries)
    → (front : List PurgeAudit) × ((compute_rollback_approval_purge_audit_gc_result entries older
          keep_latest now).0
        ≡ front ++ drop (length entries - clip keep_latest) entries)
unfolding compute_rollback_approval_purge_audit_gc_result protected_ids
compute_rollback_approval_purge_audit_gc_result-latest entries older keep_latest now named =
    let k = length entries - clip keep_latest in
    elim (Bool-cases (nat_eq (clip keep_latest) 0)) [
      | inl zero_kept ↦ (
        (collect (protected_ids (clip keep_latest) entries) older now entries).0,
        rw (drop-all entries k (omega (arith, nat_eq→eq _ _ zero_kept))) (sym (append-nil _)),
      )
      | inr some_kept ↦
          let (front, q) =
            collect-append (protected_ids (clip keep_latest) entries) older now (take k entries)
              (drop k entries) (rw some_kept (protected_self (drop k entries) named)) in
          (front, rw (take-drop k entries) at q)
    ]
