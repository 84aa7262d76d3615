-- ===== src/Scheduler/Invariant.antt =====
-- What holds of the table of work items in every state that the methods reach.
use wherecode.Prelude.{
  ℕ, ◌≤◌, String, ◌≡◌, ◌⊎◌, inl, inr, ◌==◌, eq_iff, none, some, List, [], ◌∷◌, arith, Bool-cases,
  if◌then◌else◌,
}
use wherecode.Dict.{get, get-put}
use wherecode.Models.{WorkItem}
use wherecode.Scheduler.State.{World, IsUnique, Scheduler}
use wherecode.Scheduler.Moves.{IsNew, Evolves, Adds}
use wherecode.Scheduler.Lives.{
  rest, Leads-trans, Continues, Leads-Continues, IsLegal, Leads-IsLegal, Later, Change-Later,
  Change-Earlier, Change-none,
}
use wherecode.Scheduler.History.{Call, perform, history, perform-Evolves}

-- Each item stands under its own identifier and is legal, and no identifier that is still to be
-- issued is taken.
pub record IsSound (w : World) (s : Scheduler) : Type 0 where
  pub keyed : (id : String) (item : WorkItem) → get s.workitems id ≡ some item → item.id ≡ id
  pub legal : (id : String) (item : WorkItem) → get s.workitems id ≡ some item → IsLegal item
  pub free : (n : ℕ) → s.issued_ids ≤ n → get s.workitems (w.new_id "wi" n) ≡ none

module _ (w : World) where
  Evolves-IsSound : {s t : Scheduler} → Evolves s t → IsSound w s → IsSound w t
  Evolves-IsSound e h = record {
    keyed = λ id b found.
        let a = Change-Earlier id b e.table found in
        cc ((Leads-Continues a.leads).same_id, h.keyed id a.item a.found);
    legal = λ id b found.
        let a = Change-Earlier id b e.table found in
        Leads-IsLegal a.leads (h.legal id a.item a.found);
    free = λ n later. Change-none _ e.table (h.free n (omega (arith, e.issued)));
  }

  new-IsLegal : {id : String} {item : WorkItem} → IsNew id item → IsLegal item
  new-IsLegal n = ground arith

  -- A lookup after an addition finds the new item, or what was there.
  Adds-get :
      {s t : Scheduler} (a : Adds w s t) (id : String)
      → get t.workitems id
        ≡ (if w.new_id "wi" s.issued_ids == id then some a.item else get s.workitems id)
  Adds-get a id = rw (a.table, get-put)

  Adds-cases :
      {s t : Scheduler} (a : Adds w s t) (id : String) (b : WorkItem)
      → get t.workitems id ≡ some b
      → (w.new_id "wi" s.issued_ids ≡ id) × (b ≡ a.item) ⊎ (get s.workitems id ≡ some b)
  Adds-cases {s} a id b found =
      ground (arith, Adds-get a id, eq_iff (w.new_id "wi" s.issued_ids) id)

  Adds-IsSound : IsUnique w → {s t : Scheduler} → Adds w s t → IsSound w s → IsSound w t
  Adds-IsSound unique {s} {t} a h = record {
    keyed = λ id b found. elim (Adds-cases a id b found) [
      | inl (p, q) ↦ cc (a.new.named)
      | inr old ↦ h.keyed id b old
    ];
    legal = λ id b found. elim (Adds-cases a id b found) [
      | inl (p, q) ↦ rw q (new-IsLegal a.new)
      | inr old ↦ h.legal id b old
    ];
    free = λ n later. elim (Bool-cases (w.new_id "wi" s.issued_ids == w.new_id "wi" n)) [
      | inr other ↦ rw (Adds-get a, other) (h.free n (omega (arith, a.issued)))
      | inl hit ↦ absurd (omega (arith, unique "wi" s.issued_ids n ((eq_iff _ _).0 hit), a.issued))
    ];
  }

  pub perform-IsSound :
      IsUnique w → (c : Call) (s : Scheduler) → IsSound w s → IsSound w (perform w c s)
  perform-IsSound unique c s h = elim (perform-Evolves w c s) [
    | inl e ↦ Evolves-IsSound e h
    | inr a ↦ Adds-IsSound unique a h
  ]

  -- Where no identifier is issued twice, from a sound state, every history of calls, failing ones included, leads to a sound state:
  -- each work item stands under its own identifier, has not used more discussions than its budget
  -- allows, and, if it requires approval and is ready, running, in discussion or succeeded, it
  -- carries the name of an approver.
  pub history-IsSound :
      (cs : List Call) (s : Scheduler) → IsUnique w → IsSound w s → IsSound w (history w cs s)
  unfolding history
  history-IsSound [] s unique h = h
  history-IsSound (c ∷ cs) s unique h =
      history-IsSound cs (perform w c s) unique (perform-IsSound unique c s h)

  perform-Later :
      (c : Call) (s : Scheduler) (id : String) (a : WorkItem)
      → IsSound w s
      → get s.workitems id ≡ some a
      → Later (perform w c s).workitems id a
  perform-Later c s id a h found = elim (perform-Evolves w c s) [
    | inl e ↦ Change-Later id a e.table found
    | inr n ↦ record {
      item = a;
      found = elim (Bool-cases (w.new_id "wi" s.issued_ids == id)) [
        | inr other ↦ rw (Adds-get n, other) found
        | inl hit ↦ cc (found, h.free s.issued_ids (omega arith), (eq_iff _ _).0 hit)
      ];
      leads = rest;
    }
  ]

  history-Later :
      (cs : List Call) (s : Scheduler) (id : String) (a : WorkItem)
      → IsUnique w
      → IsSound w s
      → get s.workitems id ≡ some a
      → Later (history w cs s).workitems id a
  unfolding history
  history-Later [] s id a unique h found = record { item = a; found = found; leads = rest }
  history-Later (c ∷ cs) s id a unique h found =
      let l = perform-Later c s id a h found in
      let m =
        history-Later cs (perform w c s) id l.item unique (perform-IsSound unique c s h) l.found in
      record { item = m.item; found = m.found; leads = Leads-trans l.leads m.leads }

  -- Where no identifier is issued twice, a work item of a sound state is never lost: after any history it stands under its key, with
  -- the same identifier, run, approval requirement and discussion budget, and once it is
  -- succeeded, failed or skipped its status never changes again.
  pub history-Continues :
      (cs : List Call) (s : Scheduler) (id : String) (a : WorkItem)
      → IsUnique w
      → IsSound w s
      → get s.workitems id ≡ some a
      → (b : WorkItem) × (get (history w cs s).workitems id ≡ some b) × Continues a b
  history-Continues cs s id a unique h found =
      let l = history-Later cs s id a unique h found in (l.item, l.found, Leads-Continues l.leads)
