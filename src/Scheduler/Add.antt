-- ===== src/Scheduler/Add.antt =====
-- `add_workitem`: it adds one pending item under a new identifier, or changes no item.
use wherecode.Prelude.{
  suc, String, ◌≡◌, refl, ◌⊎◌, inl, inr, [], arith, or_else, Option-cases, Bool-cases,
}
use wherecode.Dict.{get}
use wherecode.Py.{Outcome, returned, raised, ◌>>=◌}
use wherecode.Models.{WorkflowRun, WorkItem, accepts_workitem}
use wherecode.Scheduler.State.{
  World, Scheduler, get_run, now_utc, fresh_id, modify_run, persist_run_row, persist_workitem,
}
use wherecode.Scheduler.Dependencies.{validate_dependency_ids}
use wherecode.Scheduler.Create.{NewWorkItem, pending_workitem, add_workitem}
use wherecode.Scheduler.Moves.{Evolves, Evolves-refl, Adds}
use wherecode.Scheduler.Rules.{Evolves-same_items}

Outcome-cases :
    {A : Type 0} (r : Outcome A) → ((e : _) × (r ≡ raised e)) ⊎ ((a : A) × (r ≡ returned a))
Outcome-cases (raised e) = inl (e, refl)
Outcome-cases (returned a) = inr (a, refl)

module _ (w : World) (run_id : String) (new : NewWorkItem) (s : Scheduler) where
  -- the item that the constructor call in `add_workitem` makes
  abbrev built : WorkflowRun → WorkItem
  built run =
      pending_workitem w run new (w.new_id "wi" s.issued_ids) (w.now s.clock_reads)
        (w.now (suc s.clock_reads))

  pub add_workitem-Evolves :
      Evolves s (add_workitem w run_id new s).1 ⊎ Adds w s (add_workitem w run_id new s).1
  unfolding add_workitem ◌>>=◌ get_run now_utc fresh_id modify_run persist_run_row persist_workitem
  add_workitem-Evolves = elim (Option-cases (get s.runs run_id)) [
    | inl e ↦ rw e (inl (Evolves-refl s))
    | inr (run, e) ↦
        rw e
          (elim (Outcome-cases (
            validate_dependency_ids run.id (or_else new.depends_on []) s.workitems
              s.workitem_run)) [
                | inl (x, bad) ↦ rw bad (inl (Evolves-refl s))
                | inr (u, good) ↦ rw good (elim (Bool-cases (accepts_workitem (built run))) [
                  | inl valid ↦ rw valid (
                      inr (record {
                        item = built run;
                        new = record { named = refl; waits = refl; unused = refl };
                        table = refl;
                        issued = refl;
                      }))
                  | inr invalid ↦ rw invalid (inl (Evolves-same_items s _ refl (omega arith)))
                ])
              ])
  ]
