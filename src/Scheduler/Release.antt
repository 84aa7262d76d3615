-- ===== src/Scheduler/Release.antt =====
-- `tick`: which pending items it releases, and that it makes only moves of the status diagram.
use wherecode.Prelude.{
  ℕ, String, ◌≡◌, refl, ◌⊎◌, inl, inr, ◌==◌, eq_iff, true, some, List, [], ◌∷◌, All, arith,
  Option-cases, Bool-cases,
}
use wherecode.Dict.{Dict, get, get_list, modify, get-modify, get-modify_self}
use wherecode.Py.{Outcome, returned, raised, ◌>>=◌, pure, reads, resume}
use wherecode.Models.{WorkItem, WorkItemStatus, is_status, is_canceled}
use wherecode.Scheduler.State.{
  World, Scheduler, Method, get_workitem, now_utc, modify_workitem, persist_workitem,
}
use wherecode.Scheduler.Dependencies.{
  select_next, select_pending_ready_for_transition, dependencies_satisfied,
}
use wherecode.Scheduler.Items.{released_status, release, release_all, tick}
use wherecode.Scheduler.Moves.{Moves, same, write, Evolves, Evolves-refl}
use wherecode.Scheduler.Rules.{Does, Does-Quiet, Does-bind, Does-if, resume-Evolves}
use wherecode.Scheduler.Quiet.{pure-Quiet, get_run-Quiet, reads-Quiet, refresh_run_status-Quiet}

-- The item under a key is pending, or was released by this loop already.
pub record IsReleasable (table : Dict WorkItem) (id : String) : Type 0 where
  pub item : WorkItem
  pub found : get table id ≡ some item
  pub waits : (item.status ≡ WorkItemStatus.pending) ⊎ (item.status ≡ released_status item)

-- The item under a key is pending, and all that it depends on is done.
pub record IsDue (table : Dict WorkItem) (id : String) : Type 0 where
  pub item : WorkItem
  pub found : get table id ≡ some item
  pub waits : item.status ≡ WorkItemStatus.pending
  pub satisfied : dependencies_satisfied item table ≡ true

-- `P` holds of what a method returned, if it returned.
abbrev pub OnReturn : {A : Type 0} → (A → Type 0) → Outcome A → Type 0
OnReturn P (returned a) = P a
OnReturn P (raised e) = Unit

select_next-IsDue :
    (table : Dict WorkItem) (id : String) (item : WorkItem) (rest : Outcome (List String))
    → get table id ≡ some item
    → OnReturn (All (IsDue table)) rest
    → OnReturn (All (IsDue table)) (select_next table id item rest)
unfolding select_next
select_next-IsDue table id item (raised e) found h = tt
select_next-IsDue table id item (returned rest) found h =
    elim (Bool-cases (is_status item.status WorkItemStatus.pending)) [
      | inr other ↦ rw other h
      | inl is_pending ↦ rw is_pending (elim (Bool-cases (dependencies_satisfied item table)) [
        | inr unsatisfied ↦ rw unsatisfied h
        | inl satisfied ↦ rw satisfied (
          (record { item = item; found = found; waits = ground arith; satisfied = satisfied }),
          h,
        )
      ])
    ]

-- Only such items are selected.
pub select-IsDue :
    (ids : List String) (table : Dict WorkItem)
    → OnReturn (All (IsDue table)) (select_pending_ready_for_transition ids table)
unfolding select_pending_ready_for_transition
select-IsDue [] table = tt
select-IsDue (id ∷ ids) table = elim (Option-cases (get table id)) [
  | inl e ↦ rw (e, select_pending_ready_for_transition) tt
  | inr (item, e) ↦
      rw (e, select_pending_ready_for_transition)
        (select_next-IsDue table id item _ e (select-IsDue ids table))
]

All-weaken :
    {P Q : String → Type 0}
    → ((id : String) → P id → Q id)
    → (ids : List String) → All P ids
    → All Q ids
All-weaken f [] a = tt
All-weaken f (id ∷ ids) a = (f id a.0, All-weaken f ids a.1)

IsDue-IsReleasable : {table : Dict WorkItem} {id : String} → IsDue table id → IsReleasable table id
IsDue-IsReleasable d = record { item = d.item; found = d.found; waits = inl d.waits }

abbrev released : ℕ → WorkItem → WorkItem → WorkItem
released now item i = record i { status = released_status item; updated_at = now }

released-Moves :
    (now : ℕ) (item : WorkItem)
    → (item.status ≡ WorkItemStatus.pending) ⊎ (item.status ≡ released_status item)
    → Moves item (released now item item)
released-Moves now item h = ground arith

-- A release leaves every other item as it was, and its own releasable.
IsReleasable-modify :
    (table : Dict WorkItem) (id : String) (item : WorkItem) (now : ℕ) (j : String)
    → get table id ≡ some item
    → IsReleasable table j
    → IsReleasable (modify table id (released now item)) j
IsReleasable-modify table id item now j found r = elim (Bool-cases (id == j)) [
  | inr other ↦ record { item = r.item; found = rw (get-modify, other) r.found; waits = r.waits }
  | inl hit ↦ record {
    item = released now item item;
    found = cc (get-modify_self table id (released now item) found, (eq_iff id j).0 hit);
    waits = inr refl;
  }
]

module _ (w : World) where
  release_lem :
      (id : String) (s : Scheduler) (item : WorkItem)
      → get s.workitems id ≡ some item
      → ((release w id s).0 ≡ returned item)
        × ((release w id s).1.workitems
            ≡ modify s.workitems id (released (w.now s.clock_reads) item))
        × ((release w id s).1.issued_ids ≡ s.issued_ids)
  unfolding release ◌>>=◌ get_workitem now_utc modify_workitem persist_workitem pure
  release_lem id s item e = rw e (refl, refl, refl)

  release_all-Evolves :
      (ids : List String) (s : Scheduler)
      → All (IsReleasable s.workitems) ids
      → Evolves s (release_all w ids s).1
  unfolding release_all ◌>>=◌
  release_all-Evolves [] s a = Evolves-refl s
  release_all-Evolves (id ∷ ids) s a =
      let r = a.0 in
      let (result, table, issued) = release_lem id s r.item r.found in
      resume-Evolves (release w id s).0 _ s (release w id s).1
        (record {
          table = rw table (write id _ r.item same r.found (released-Moves _ r.item r.waits));
          issued = omega (arith, issued);
        })
        (λ item.
          resume-Evolves (release_all w ids (release w id s).1).0 _ _
            (release_all w ids (release w id s).1).1
            (release_all-Evolves ids (release w id s).1 (
              rw table (
                All-weaken
                  (λ j h.
                    IsReleasable-modify s.workitems id r.item (w.now s.clock_reads) j r.found h)
                  ids a.1)))
            (λ rest. Evolves-refl _))

  release_all-after-select :
      (s : Scheduler) (r : Outcome (List String)) {B : Type 0} (f : List String → Method B)
      → OnReturn (All (IsDue s.workitems)) r
      → ((l : List String) → Does (f l))
      → Evolves s (resume r (λ due. release_all w due >>= f) s).1
  unfolding ◌>>=◌
  release_all-after-select s (raised e) f h d = Evolves-refl s
  release_all-after-select s (returned due) f h d =
      resume-Evolves (release_all w due s).0 f s (release_all w due s).1
        (release_all-Evolves due s (All-weaken (λ id. IsDue-IsReleasable) due h)) (λ l. (d l).at _)

  select-Does :
      {B : Type 0} (run_id : String) {f : List String → Method B}
      → ((l : List String) → Does (f l))
      → Does (
          reads
            (λ s. select_pending_ready_for_transition (get_list s.run_workitems run_id) s.workitems)
          >>= λ due. release_all w due >>= f)
  unfolding ◌>>=◌ reads
  select-Does run_id {f} d = record {
    at = λ s.
        release_all-after-select s _ f (select-IsDue (get_list s.run_workitems run_id) s.workitems)
          d;
  }

  pub tick-Does : (run_id : String) → Does (tick w run_id)
  unfolding tick
  tick-Does run_id = Does-bind (Does-Quiet (get_run-Quiet run_id)) λ run.
      Does-if (is_canceled run.status) (Does-Quiet (pure-Quiet [])) (
        select-Does run_id λ ready.
          Does-bind (Does-Quiet (refresh_run_status-Quiet w run_id))
            λ _. Does-bind (Does-Quiet (reads-Quiet _)) λ items. Does-Quiet (pure-Quiet _))
