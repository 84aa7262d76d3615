-- ===== src/Policy/Replay.antt =====
-- A second rollback with the same idempotency key.
use wherecode.Prelude.{
  String, ◌≡◌, refl, sym, ap, ◌∙◌, inl, inr, ◌==◌, eq_iff, eq_refl, Bool, true, false, Option, some,
  List, [], ◌∷◌, ◌++◌, arith, length, or_else, Bool-cases, Option-cases, if◌then◌else◌,
}
use mathlib.Core.Option.{some-injective}
use wherecode.Text.{strip, is_truthy}
use wherecode.Text.Strip.{strip-strip}
use wherecode.Py.{returned, ◌>>=◌, pure, reads, guard}
use wherecode.Policy.State.{Audit, Payload, Policy, Host, PolicyStore}
use wherecode.Policy.Normalize.{normalize_policy, to_payload, normalize_policy-to_payload}
use wherecode.Policy.Approvals.{get_audit, found_audit}
use wherecode.Policy.Rollback.{
  RollbackResult, request_text, stored_request, find_rollback_by_request_id, is_elsewhere,
  payload_of, replay_rollback, replay_or_apply, rollback_to_audit,
}
use wherecode.Policy.Paths.{is_new}
use wherecode.Policy.Effects.{IsRestored}
use wherecode.Policy.Effects.Rolling.{rollback_to_audit-HasEffect}

get_audit-append :
    (entries : List Audit) (e : Audit) (id : String)
    → get_audit (entries ++ e ∷ []) id ≡ (if strip e.id == id then some e else get_audit entries id)
unfolding get_audit
get_audit-append [] e id = ground arith
get_audit-append (x ∷ entries) e id = elim (Bool-cases (strip e.id == id)) [
  | inl hit ↦ rw (get_audit-append entries e id) (rw hit refl)
  | inr other ↦ rw (get_audit-append entries e id) (rw other refl)
]

get_audit-id :
    (entries : List Audit) (id : String) (e : Audit)
    → get_audit entries id ≡ some e
    → strip e.id ≡ id
unfolding get_audit
get_audit-id [] id e found = cc
get_audit-id (x ∷ entries) id e found = elim (Option-cases (get_audit entries id)) [
  | inr (later, q) ↦ get_audit-id entries id e (q ∙ rw (q) at found)
  | inl q ↦ elim (Bool-cases (strip x.id == id)) [
    | inl hit ↦
        ap (λ (a : Audit). strip a.id) (sym (some-injective x e (rw (q, hit) at found)))
        ∙ (eq_iff (strip x.id) id).0 hit
    | inr other ↦ cc (rw (q, other) at found)
  ]
]

find-append :
    (entries : List Audit) (e : Audit) (key : String)
    → (strip (request_text e.rollback_request_id) == key) ≡ true
    → find_rollback_by_request_id (entries ++ e ∷ []) key ≡ some e
unfolding find_rollback_by_request_id
find-append [] e key hit = rw hit refl
find-append (x ∷ entries) e key hit = rw (find-append entries e key hit) refl

module _ (w : Host) (t : PolicyStore) (audit_id by : String) (reason : Option String)
    (dry_run : Bool) (key approval_id : Option String) where
  -- The answer to a key that stands in the last entry.
  replayed :
      (e target : Audit) (payload given : Payload)
      → get_audit t.audit_entries audit_id ≡ some target
      → target.policy ≡ some given
      → is_truthy (strip (or_else key "")) ≡ true
      → find_rollback_by_request_id t.audit_entries (strip (or_else key "")) ≡ some e
      → is_elsewhere e.rollback_from_audit_id audit_id ≡ false
      → e.policy ≡ some payload
      → rollback_to_audit w audit_id by reason dry_run key approval_id t ≡ (
        returned record {
          source_audit_id = audit_id;
          dry_run = dry_run;
          applied = true;
          idempotent_replay = true;
          policy = normalize_policy w.int_of_text payload;
          audit_count = length t.audit_entries;
        },
        t,
      )
  unfolding rollback_to_audit ◌>>=◌ reads found_audit payload_of replay_or_apply replay_rollback
      guard pure
  replayed e target payload given found has filled known here holds =
      rw (found, has, filled, known, here, holds) refl

-- What `rollback_to_audit` answers where it replays an earlier rollback.
abbrev pub replay_answer : String → Bool → Policy → PolicyStore → RollbackResult
replay_answer audit_id dry_run policy t = record {
  source_audit_id = audit_id;
  dry_run = dry_run;
  applied = true;
  idempotent_replay = true;
  policy = policy;
  audit_count = length t.audit_entries;
}

-- A later target is there, with a policy.
target_there :
    (entries : List Audit) (e target : Audit) (id : String) (given result : Payload)
    → get_audit entries id ≡ some target
    → target.policy ≡ some given
    → e.policy ≡ some result
    → (a : Audit) × (p : Payload) × (get_audit (entries ++ e ∷ []) id ≡ some a)
      × (a.policy ≡ some p)
target_there entries e target id given result found has holds =
    elim (Bool-cases (strip e.id == id)) [
      | inl hit ↦ (e, result, rw (get_audit-append entries e id) (rw hit refl), holds)
      | inr other ↦ (target, given, rw (get_audit-append entries e id) (rw other found), has)
    ]

not_elsewhere :
    (source : Option String) (id : String)
    → source ≡ some id
    → strip id ≡ id
    → is_elsewhere source id ≡ false
not_elsewhere source id e p = rw e (rw p (ground (arith, eq_refl id)))

module _ (w : Host) (s t : PolicyStore) (audit_id : String) (key : Option String)
    (r : RollbackResult) where
  -- After a rollback, a key that its entry answers to.
  after_rollback :
      IsRestored w audit_id key s t r
      → (second : Option String) (by : String) (reason : Option String) (dry_run : Bool)
        (approval_id : Option String)
      → is_truthy (strip (or_else second "")) ≡ true
      → strip (request_text (stored_request (strip (or_else key "")))) ≡ strip (or_else second "")
      → rollback_to_audit w audit_id by reason dry_run second approval_id t
        ≡ (returned (replay_answer audit_id dry_run r.policy t), t)
  after_rollback h second by reason dry_run approval_id filled answers =
      let id_stripped : strip audit_id ≡ audit_id =
        let q = get_audit-id s.audit_entries audit_id h.target h.found in
        ap strip (sym q) ∙ strip-strip h.target.id ∙ q in
      let (a, p, found, has) =
        target_there s.audit_entries h.entry h.target audit_id h.payload (to_payload t.policy)
          h.found h.given h.result in
      replayed w t audit_id by reason dry_run second approval_id h.entry a (to_payload t.policy) p
        (rw h.audits found) has filled
        (rw h.audits (
          find-append s.audit_entries h.entry (strip (or_else second ""))
            ((eq_iff _ _).1 (rw h.keyed answers))))
        (not_elsewhere h.entry.rollback_from_audit_id audit_id h.source id_stripped) h.result
      ∙ ap (λ (policy : Policy). (returned (replay_answer audit_id dry_run policy t), t))
          (normalize_policy-to_payload w.int_of_text t.policy ∙ sym h.answer)

  module _ (by : String) (reason : Option String) (dry_run : Bool) (approval_id : Option String)
      (ran : rollback_to_audit w audit_id by reason dry_run key approval_id s ≡ (returned r, t))
      (applied : is_new r ≡ true) where
    restored : IsRestored w audit_id key s t r
    restored =
        rw applied at
          (rw ran at (rollback_to_audit-HasEffect w s audit_id by reason dry_run key approval_id))

    -- A rollback that was applied with a key that is not blank, tried again with this key: the
    -- answer is a replay with the same policy, whatever the other arguments are, an approval among
    -- them, and the state does not change.
    pub rollback_to_audit-again :
        (by' : String) (reason' : Option String) (dry_run' : Bool) (approval_id' : Option String)
        → is_truthy (strip (or_else key "")) ≡ true
        → rollback_to_audit w audit_id by' reason' dry_run' key approval_id' t
          ≡ (returned (replay_answer audit_id dry_run' r.policy t), t)
    unfolding request_text
    rollback_to_audit-again by' reason' dry_run' approval_id' filled =
        after_rollback restored key by' reason' dry_run' approval_id' filled
          (rw filled (strip-strip (or_else key "")))

    -- A rollback that was applied without a key, or with a blank one, takes the key "None" for
    -- itself: a later rollback to the same target with this key is answered as a replay, and changes
    -- nothing.
    pub rollback_to_audit-IsMistaken :
        (by' : String) (reason' : Option String) (dry_run' : Bool) (approval_id' : Option String)
        → is_truthy (strip (or_else key "")) ≡ false
        → rollback_to_audit w audit_id by' reason' dry_run' (some "None") approval_id' t
          ≡ (returned (replay_answer audit_id dry_run' r.policy t), t)
    unfolding request_text strip
    rollback_to_audit-IsMistaken by' reason' dry_run' approval_id' blank =
        after_rollback restored (some "None") by' reason' dry_run' approval_id' refl (rw blank refl)
