-- ===== src/Engine/Counts.antt =====
-- The items that an execution reports as failed are among those that it reports as executed.
use wherecode.Prelude.{
  ℕ, zero, suc, String, ◌≡◌, refl, inl, inr, ◌==◌, eq_refl, true, List, [], ◌∷◌, ◌++◌, All,
  contains, is_empty, Bool-cases,
}
use wherecode.Py.{◌>>=◌}
use wherecode.Py.Triple.{Ends, Triple, Triple-pure, Triple-bind, Triple-if, Triple-of}
use wherecode.Models.{WorkItem, is_canceled}
use wherecode.Scheduler.State.{Scheduler, Method}
use wherecode.Engine.State.{ExecutionStatus, Setting}
use wherecode.Engine.Reflow.{GateOutcome}
use wherecode.Engine.Reports.{build_execute_response}
use wherecode.Engine.Run.{
  Tally, with_executed, fail_item, finish_gated, pass_gate, finish_item, run_item, run_items,
  run_rounds, execute_until_blocked,
}

-- Each failed item is among those executed.
abbrev pub Within : List String → List String → Type 0
Within failed executed = All (λ id. contains executed id ≡ true) failed

contains-front :
    (xs : List String) (y x : String) → contains xs x ≡ true → contains (xs ++ y ∷ []) x ≡ true
contains-front [] y x h = cc
contains-front (z ∷ xs) y x h = elim (Bool-cases (z == x)) [
  | inl hit ↦ rw hit refl
  | inr other ↦ rw other (contains-front xs y x (rw other at h))
]

contains-last : (xs : List String) (y : String) → contains (xs ++ y ∷ []) y ≡ true
contains-last [] y = rw (eq_refl y) refl
contains-last (z ∷ xs) y = elim (Bool-cases (z == y)) [
  | inl hit ↦ rw hit refl
  | inr other ↦ rw other (contains-last xs y)
]

Within-executed :
    (failed executed : List String) (id : String)
    → Within failed executed
    → Within failed (executed ++ id ∷ [])
Within-executed [] executed id h = tt
Within-executed (f ∷ failed) executed id (h, hs) =
    (contains-front executed id f h, Within-executed failed executed id hs)

Within-failed :
    (failed executed : List String) (id : String)
    → Within failed executed
    → contains executed id ≡ true
    → Within (failed ++ id ∷ []) executed
Within-failed [] executed id h there = (there, tt)
Within-failed (f ∷ failed) executed id (h, hs) there =
    (h, Within-failed failed executed id hs there)

abbrev pub Anything : Scheduler → Type 0
Anything s = Unit {0}

-- The method returns lists in which each failed item is among those executed.
abbrev Counting : Method Tally → Type 0
Counting m = Triple Anything m (λ t s. Within t.failed t.executed) Anything

-- The method does anything to the object.
any_end : {A : Type 0} (m : Method A) → Triple Anything m (λ a. Anything) Anything
any_end m = Triple-of (record { at = λ s h. tt })

module _ (w : Setting) where
  fail_item-Counting :
      (id : String) (t : Tally)
      → Within t.failed t.executed
      → contains t.executed id ≡ true
      → Counting (fail_item w id t)
  unfolding fail_item
  fail_item-Counting id t h there =
      Triple-bind (any_end _)
        λ item. Triple-pure _ (λ s u. Within-failed t.failed t.executed id h there)

  finish_gated-Counting :
      (id : String) (t : Tally) (gated : GateOutcome)
      → Within t.failed t.executed
      → contains t.executed id ≡ true
      → Counting (finish_gated w id t gated)
  unfolding finish_gated
  finish_gated-Counting id t GateOutcome.success h there =
      Triple-bind (any_end _) λ done.
        Triple-bind (any_end _) λ item. Triple-bind (any_end _) λ u. Triple-pure t (λ s k. h)
  finish_gated-Counting id t GateOutcome.reflowed h there =
      Triple-bind (any_end _) (λ item. Triple-pure t (λ s k. h))
  finish_gated-Counting id t GateOutcome.failed h there = fail_item-Counting id t h there

  finish_item-Counting :
      (id : String) (t : Tally) (status : ExecutionStatus)
      → Within t.failed t.executed
      → contains t.executed id ≡ true
      → Counting (finish_item w id t status)
  unfolding finish_item pass_gate
  finish_item-Counting id t ExecutionStatus.success h there =
      Triple-bind (any_end _) (λ gated. finish_gated-Counting id t gated h there)
  finish_item-Counting id t ExecutionStatus.needs_discussion h there = Triple-pure t (λ s k. h)
  finish_item-Counting id t ExecutionStatus.failed h there = fail_item-Counting id t h there

  run_item-Counting :
      (id : String) (t : Tally) → Within t.failed t.executed → Counting (run_item w id t)
  unfolding run_item
  run_item-Counting id t h = Triple-bind (any_end _) λ started. Triple-bind (any_end _) λ status.
      Triple-bind (any_end _) λ refreshed.
        Triple-if _ (λ left. Triple-pure t (λ s k. h))
          λ still.
            finish_item-Counting id (with_executed id t) status
              (Within-executed t.failed t.executed id h) (contains-last t.executed id)

  -- What holds of the lists after a method holds where the next one starts.
  Counting-bind :
      {m : Method Tally} {f : Tally → Method Tally}
      → Counting m
      → ((t : Tally) → Within t.failed t.executed → Counting (f t))
      → Counting (m >>= f)
  Counting-bind k l = Triple-bind k (λ t. record { at = λ s h. (l t h).at s tt })

  run_items-Counting :
      (run_id : String) (items : List WorkItem) (t : Tally)
      → Within t.failed t.executed
      → Counting (run_items w run_id items t)
  unfolding run_items
  run_items-Counting run_id [] t h = Triple-pure t (λ s k. h)
  run_items-Counting run_id (item ∷ items) t h = Triple-bind (any_end _) λ run.
      Triple-if (is_canceled run.status) (λ stop. Triple-pure t (λ s k. h))
        λ on.
          Counting-bind (run_item-Counting item.id t h)
            λ after k. run_items-Counting run_id items after k

  run_rounds-Counting :
      (n : ℕ) (run_id : String) (t : Tally)
      → Within t.failed t.executed
      → Counting (run_rounds w n run_id t)
  unfolding run_rounds
  run_rounds-Counting zero run_id t h = Triple-pure t (λ s k. h)
  run_rounds-Counting (suc n) run_id t h = Triple-bind (any_end _) λ run.
      Triple-if (is_canceled run.status) (λ stop. Triple-pure t (λ s k. h))
        λ on. Triple-bind (any_end _) λ ready.
          Triple-if (is_empty ready) (λ idle. Triple-pure t (λ s k. h))
            λ some_ready.
              Counting-bind (run_items-Counting run_id ready t h)
                λ after k. run_rounds-Counting n run_id after k

build_execute_response-Within :
    (run_id : String) (t : Tally)
    → Triple
        (λ (s : Scheduler). Within t.failed t.executed)
        (build_execute_response run_id t.executed t.failed)
        (λ r s. Within r.failed_workitem_ids r.executed_workitem_ids)
        Anything
unfolding build_execute_response
build_execute_response-Within run_id t = record {
  at = λ s h.
      (Triple-bind (any_end _) λ run. Triple-bind (any_end _) λ items.
          Triple-bind (any_end _)
            λ waiting. Triple-bind (any_end _) λ approvals. Triple-pure _ (λ s' k. h)).at
        s tt;
}

-- Where an execution of a run returns, each work item that it reports as failed is among those that
-- it reports as executed.
pub execute_until_blocked-Within :
    (w : Setting) (run_id : String) (max_loops : ℕ) (s : Scheduler)
    → Ends
        (λ r t. Within r.failed_workitem_ids r.executed_workitem_ids)
        Anything
        (execute_until_blocked w run_id max_loops s).0
        (execute_until_blocked w run_id max_loops s).1
unfolding execute_until_blocked
execute_until_blocked-Within w run_id max_loops s =
    (Triple-bind (any_end _) λ u.
        Triple-bind
          (run_rounds-Counting w max_loops run_id (record { executed = []; failed = [] }) tt)
          λ t. build_execute_response-Within run_id t).at
      s tt
