-- ===== src/Policy/Authorised/Rolling.antt =====
-- An approval that holds, from the refresh of the approvals to the end of a rollback.
use wherecode.Prelude.{
  ℕ, String, ◌≡◌, refl, sym, ap, ◌∙◌, ◌==◌, eq_iff, Bool, true, false, Option, none, some, List,
  map, or_else,
}
use wherecode.Text.{strip}
use wherecode.Py.Keeps.{Keeps, Keeps-pure, Keeps-reads, Keeps-bind, Keeps-assign}
use wherecode.Py.Triple.{
  Ends, Triple, Triple-pure, Triple-raise, Triple-guarded, Triple-assign, Triple-bind, Triple-of,
  Triple-after, Triple-reads,
}
use wherecode.Policy.State.{
  Audit, Approval, Policy, Host, PolicyStore, Step, policy_now, policy_id, record_audit,
  persist_rollback_approvals,
}
use wherecode.Policy.Purge.{is_approved}
use wherecode.Policy.Approvals.{
  find_rollback_approval, put_approval, found_approval, refresh_entry, used_now, set_approval,
  use_approval, refresh_rollback_approval_statuses, consume_rollback_approval, when_given,
}
use wherecode.Policy.Rollback.{write_policy, use_given_approval, write_rollback, rollback_to_audit}
use wherecode.Policy.Paths.{is_new, rollback_paths}
use wherecode.Policy.Authorised.{IsAuthorised, refresh-approved, find-refresh, find-put_self}

-- Actions that leave the approvals alone.
abbrev Sparing : List Approval → {A : Type 0} → Step A → Type 0
Sparing approvals m = Keeps (λ (t : PolicyStore). t.rollback_approvals ≡ approvals) m

module _ (w : Host) {approvals : List Approval} where
  now-Sparing : Sparing approvals (policy_now w)
  unfolding policy_now
  now-Sparing = record { at = λ t h. h }

  persist-Sparing : (b : Bool) → Sparing approvals (when_given b persist_rollback_approvals)
  unfolding persist_rollback_approvals
  persist-Sparing true = Keeps-assign _ (λ t h. h)
  persist-Sparing false = Keeps-pure tt

  write-Sparing : (policy : Policy) (now : ℕ) → Sparing approvals (write_policy policy now)
  unfolding write_policy
  write-Sparing policy now = Keeps-assign _ (λ t h. h)

  id-Sparing : (prefix : String) → Sparing approvals (policy_id w prefix)
  unfolding policy_id
  id-Sparing prefix = record { at = λ t h. h }

  record-Sparing : (entry : Audit) → Sparing approvals (record_audit entry)
  unfolding record_audit
  record-Sparing entry = Keeps-assign _ (λ t h. h)

module _ (w : Host) (s : PolicyStore) where
  abbrev Anything : PolicyStore → Type 0
  Anything t = Unit {0}

  abbrev refreshed : List Approval
  refreshed = map (refresh_entry (w.now s.clock_reads)) s.rollback_approvals

  now-from :
      Triple
        (λ t. t ≡ s)
        (policy_now w)
        (λ n t. (t.rollback_approvals ≡ s.rollback_approvals) × (w.now s.clock_reads ≡ n))
        Anything
  unfolding policy_now
  now-from = record {
    at = λ t e. (
      ap (λ (u : PolicyStore). u.rollback_approvals) e,
      ap (λ (u : PolicyStore). w.now u.clock_reads) (sym e),
    );
  }

  refresh-from :
      Triple
        (λ t. t ≡ s)
        (refresh_rollback_approval_statuses w true)
        (λ n t. t.rollback_approvals ≡ refreshed)
        Anything
  unfolding refresh_rollback_approval_statuses
  refresh-from = Triple-bind now-from λ now.
      Triple-bind
        {Q = λ c t. (t.rollback_approvals ≡ s.rollback_approvals) × (w.now s.clock_reads ≡ now)}
        (Triple-of (Keeps-reads _))
        λ changed.
          Triple-bind
            (Triple-assign _ {Q = λ u t. t.rollback_approvals ≡ refreshed}
              (λ t h. rw (h.0, h.1) refl))
            λ u.
              Triple-bind {Q = λ v t. t.rollback_approvals ≡ refreshed}
                (Triple-of (persist-Sparing w _)) λ v. Triple-pure changed (λ t h. h)

  module _ (audit_id id by : String) where
    -- The approval that is found, after the refresh.
    abbrev IsThere : Approval → PolicyStore → Type 0
    IsThere a t =
        (find_rollback_approval refreshed id ≡ some a)
        × (find_rollback_approval t.rollback_approvals id ≡ some a)

    now-IsThere : (a : Approval) → Triple (IsThere a) (policy_now w) (λ n. IsThere a) Anything
    unfolding policy_now
    now-IsThere a = record { at = λ t h. h }

    authorised :
        (a : Approval) (now : ℕ) (t : PolicyStore)
        → is_approved a.status ≡ true
        → (strip a.audit_id == audit_id) ≡ true
        → IsThere a t
        → IsAuthorised w audit_id id s (record t {
          rollback_approvals = put_approval t.rollback_approvals id (used_now by now a);
        })
    authorised a now t good bound (there, here) =
        let (a', e, q) = find-refresh (w.now s.clock_reads) s.rollback_approvals id a there in
        let still : is_approved (refresh_entry (w.now s.clock_reads) a').status ≡ true =
          rw q good in
        let (p, lasts) = refresh-approved (w.now s.clock_reads) a' still in
        let same : a' ≡ a = sym p ∙ q in
        record {
          approval = a;
          now = now;
          by = by;
          found = e ∙ ap (λ (x : Approval). some x) same;
          good = good;
          bound = (eq_iff (strip a.audit_id) audit_id).0 bound;
          lasting = rw (← same) lasts;
          spent = find-put_self t.rollback_approvals id a (used_now by now a) here refl;
        }

    set-IsAuthorised :
        (a : Approval) (now : ℕ)
        → is_approved a.status ≡ true
        → (strip a.audit_id == audit_id) ≡ true
        → Triple
            (IsThere a)
            (set_approval id (used_now by now a))
            (λ u. IsAuthorised w audit_id id s)
            Anything
    unfolding set_approval
    set-IsAuthorised a now good bound = Triple-assign _ (λ t h. authorised a now t good bound h)

  -- What is known of the approvals stays known, where the approvals are left alone.
  keep-IsAuthorised :
      (audit_id id : String) {A : Type 0} (m : Step A)
      → ((approvals : List Approval) → Sparing approvals m)
      → Keeps (IsAuthorised w audit_id id s) m
  keep-IsAuthorised audit_id id m spares = record {
    at = λ t h. record {
      approval = h.approval;
      now = h.now;
      by = h.by;
      found = h.found;
      good = h.good;
      bound = h.bound;
      lasting = h.lasting;
      spent = rw ((spares t.rollback_approvals).at t refl) h.spent;
    };
  }

  module _ (audit_id id : String) where
    now-IsAuthorised : Keeps (IsAuthorised w audit_id id s) (policy_now w)
    now-IsAuthorised = keep-IsAuthorised audit_id id (policy_now w) (λ l. now-Sparing w)

    use-IsAuthorised :
        (by : String) (a : Approval)
        → Triple
            (IsThere audit_id id by a)
            (use_approval w id audit_id by a)
            (λ b. IsAuthorised w audit_id id s)
            Anything
    unfolding use_approval
    use-IsAuthorised by a =
        Triple-guarded _ _ (λ t h. tt)
          λ bound.
            Triple-guarded _ _ (λ t h. tt)
              λ unused.
                Triple-guarded _ _ (λ t h. tt)
                  λ lasts.
                    Triple-guarded _ _ (λ t h. tt)
                      λ good. Triple-bind (now-IsThere audit_id id by a) λ now.
                        Triple-bind (set-IsAuthorised audit_id id by a now good bound) λ u.
                          Triple-of (
                            Keeps-bind
                              (keep-IsAuthorised audit_id id persist_rollback_approvals
                                (λ l. persist-Sparing w true))
                              λ v. Keeps-pure _)

    found-IsThere :
        (by : String) (a : Option Approval)
        → Triple
            (λ t.
              (t.rollback_approvals ≡ refreshed)
              × (find_rollback_approval t.rollback_approvals id ≡ a))
            (found_approval w id a)
            (λ b. IsThere audit_id id by b)
            Anything
    unfolding found_approval
    found-IsThere by none = Triple-raise _ (λ t h. tt)
    found-IsThere by (some a) = Triple-pure a (λ t h. (rw (← h.0) h.1, h.1))

    consume-IsAuthorised :
        (by : String)
        → Triple
            (λ t. t ≡ s)
            (consume_rollback_approval w id audit_id by)
            (λ b. IsAuthorised w audit_id id s)
            Anything
    unfolding consume_rollback_approval
    consume-IsAuthorised by = Triple-bind refresh-from λ n.
        Triple-bind (Triple-reads _) λ a. Triple-bind (found-IsThere by a) (use-IsAuthorised by)

  given-IsAuthorised :
      (audit_id by approval_id : String)
      → Triple
          (λ t. t ≡ s)
          (use_given_approval w audit_id by (some approval_id))
          (λ u. IsAuthorised w audit_id (strip approval_id) s)
          Anything
  unfolding use_given_approval
  given-IsAuthorised audit_id by approval_id =
      Triple-guarded _ _ (λ t h. tt)
        λ filled.
          Triple-bind (consume-IsAuthorised audit_id (strip approval_id) (strip by))
            λ a. Triple-of (Keeps-pure _)

  write_rollback-IsAuthorised :
      (audit_id by : String) (reason : Option String) (request_id approval_id : String)
      (policy : Policy)
      → Triple
          (λ t. t ≡ s)
          (write_rollback w audit_id by reason request_id (some approval_id) policy)
          (λ r t. is_new r ≡ true → IsAuthorised w audit_id (strip approval_id) s t)
          Anything
  unfolding write_rollback
  write_rollback-IsAuthorised audit_id by reason request_id approval_id policy =
      let id = strip approval_id in
      Triple-after (λ r. IsAuthorised w audit_id id s)
        (λ r t. is_new r ≡ true → IsAuthorised w audit_id id s t) Anything (λ r t h new. h)
        (Triple-bind (given-IsAuthorised audit_id by approval_id) λ used. Triple-of (
          Keeps-bind (now-IsAuthorised audit_id id) λ now.
            Keeps-bind (keep-IsAuthorised audit_id id _ (λ l. write-Sparing w policy now)) λ u.
              Keeps-bind (keep-IsAuthorised audit_id id _ (λ l. id-Sparing w "map")) λ k.
                Keeps-bind (keep-IsAuthorised audit_id id _ (λ l. record-Sparing w _))
                  λ v. Keeps-reads _))

not_both {ℓ} : {A : Type ℓ} (b : Bool) → b ≡ true → b ≡ false → A
not_both true p q = cc
not_both false p q = cc

-- A rollback that is given an approval, and returns that it was applied and is no replay, had an
-- approval under that identifier, without the spaces around it, which was approved, bound to the
-- audit entry of the rollback and not expired when the rollback first read the clock; afterwards this
-- approval is used.
pub rollback_to_audit-IsAuthorised :
    (w : Host) (s : PolicyStore) (audit_id by : String) (reason : Option String) (dry_run : Bool)
    (key : Option String) (approval_id : String)
    → Ends
        (λ r t. is_new r ≡ true → IsAuthorised w audit_id (strip approval_id) s t)
        (λ t. Unit {0})
        (rollback_to_audit w audit_id by reason dry_run key (some approval_id) s).0
        (rollback_to_audit w audit_id by reason dry_run key (some approval_id) s).1
rollback_to_audit-IsAuthorised w s audit_id by reason dry_run key approval_id =
    rollback_paths w s audit_id
      (λ r t. is_new r ≡ true → IsAuthorised w audit_id (strip approval_id) s t) (λ t. Unit {0})
      (λ t e. tt) (λ r t old e new. not_both (is_new r) new old) by reason dry_run key
      (some approval_id)
      λ policy target wet.
        write_rollback-IsAuthorised w s audit_id by reason (strip (or_else key "")) approval_id
          policy
