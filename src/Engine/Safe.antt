-- ===== src/Engine/Safe.antt =====
-- A run of the engine keeps the work items sound, and a canceled run canceled.
use wherecode.Prelude.{
  ℕ, String, ◌≡◌, refl, ◌⊎◌, inl, inr, ap, sym, ◌∙◌, ◌==◌, false, some, List, [], ◌∷◌, arith,
  Bool-cases, Option-cases,
}
use mathlib.Core.Option.{some-injective}
use wherecode.Dict.{Dict, get, put, modify, get-put, get-modify}
use wherecode.Value.{Value, Fields}
use wherecode.Models.{WorkItem}
use wherecode.Scheduler.State.{World, IsUnique, Scheduler}
use wherecode.Scheduler.Lives.{IsLegal}
use wherecode.Scheduler.Invariant.{IsSound, perform-IsSound}
use wherecode.Scheduler.Canceled.{IsStopped, modify_workitem-Stays, modify_run-Stays}
use wherecode.Scheduler.Canceled.Methods.{perform-IsStopped}
use wherecode.Engine.State.{Setting, note, note_run, plan_run}
use wherecode.Engine.Run.{execute_until_blocked}
use wherecode.Engine.Bootstrap.{bootstrap_standard_pipeline}
use wherecode.Engine.Kept.{IsKept}
use wherecode.Engine.Kept.Bootstrap.{bootstrap-Keeping}
use wherecode.Scheduler.History.{Call, perform}
use wherecode.Engine.Kept.Methods.{execute_until_blocked-Keeping}

abbrev noted_item : String → Value → WorkItem → WorkItem
noted_item key value item = record item { metadata = put item.metadata key value }

-- The item that a lookup finds after a note: one with the same fields, but for the metadata.
record IsNoted (t : Dict WorkItem) (i key : String) (value : Value) (b : WorkItem) : Type 0 where
  item : WorkItem
  found : get t i ≡ some item
  after : (b ≡ item) ⊎ (b ≡ noted_item key value item)

modify-IsNoted :
    (t : Dict WorkItem) (id i key : String) (value : Value) (b : WorkItem)
    → get (modify t id (noted_item key value)) i ≡ some b
    → IsNoted t i key value b
modify-IsNoted t id i key value b e = elim (Bool-cases (id == i)) [
  | inr other ↦ record { item = b; found = rw (get-modify, other) at e; after = inl refl }
  | inl hit ↦ elim (Option-cases (get t i)) [
    | inl absent ↦ cc (rw (get-modify, hit, absent) at e)
    | inr (a, found) ↦ record {
      item = a;
      found = found;
      after =
          inr (sym (some-injective (noted_item key value a) b (rw (get-modify, hit, found) at e)));
    }
  ]
]

noted-IsLegal :
    (key : String) (value : Value) (item : WorkItem)
    → (key == "approved_by") ≡ false
    → IsLegal item
    → IsLegal (noted_item key value item)
noted-IsLegal key value item other h = record {
  budget = h.budget;
  approval = λ r p. rw (get-put, other) (h.approval r p);
}

note-IsSound :
    (w : World) (id key : String) (value : Value)
    → (key == "approved_by") ≡ false
    → (s : Scheduler) → IsSound w s
    → IsSound w (note id key value s).1
unfolding note
note-IsSound w id key value other s h = record {
  keyed = λ i b found.
      let n = modify-IsNoted s.workitems id i key value b found in
      elim n.after [
        | inl q ↦ ap (λ (x : WorkItem). x.id) q ∙ h.keyed i n.item n.found
        | inr q ↦ ap (λ (x : WorkItem). x.id) q ∙ h.keyed i n.item n.found
      ];
  legal = λ i b found.
      let n = modify-IsNoted s.workitems id i key value b found in
      elim n.after [
        | inl q ↦ rw q (h.legal i n.item n.found)
        | inr q ↦ rw q (noted-IsLegal key value n.item other (h.legal i n.item n.found))
      ];
  free = λ n later. rw (get-modify, h.free n later) (ground arith);
}

note_run-IsSound :
    (w : World) (id key : String) (value : Value) (s : Scheduler)
    → IsSound w s
    → IsSound w (note_run id key value s).1
unfolding note_run
note_run-IsSound w id key value s h = record { keyed = h.keyed; legal = h.legal; free = h.free }

plan_run-IsSound :
    (w : World) (id : String) (s : Scheduler) → IsSound w s → IsSound w (plan_run id s).1
unfolding plan_run
plan_run-IsSound w id s h = record { keyed = h.keyed; legal = h.legal; free = h.free }

IsSound-IsKept : (w : World) → IsUnique w → IsKept w (IsSound w)
IsSound-IsKept w unique = record {
  call = λ c s h. perform-IsSound w unique c s h;
  noted = note-IsSound w;
  run_noted = note_run-IsSound w;
  planned = plan_run-IsSound w;
}

note-IsStopped :
    (w : World) (run id key : String) (value : Value) (s : Scheduler)
    → IsStopped w run s
    → IsStopped w run (note id key value s).1
unfolding note
note-IsStopped w run id key value s h = (modify_workitem-Stays w run id _).at s h

note_run-IsStopped :
    (w : World) (run id key : String) (value : Value) (s : Scheduler)
    → IsStopped w run s
    → IsStopped w run (note_run id key value s).1
unfolding note_run
note_run-IsStopped w run id key value s h = (modify_run-Stays w run id _ (λ r c. c)).at s h

plan_run-IsStopped :
    (w : World) (run id : String) (s : Scheduler)
    → IsStopped w run s
    → IsStopped w run (plan_run id s).1
unfolding plan_run
plan_run-IsStopped w run id s h = (modify_run-Stays w run id _ (λ r c. c)).at s h

IsStopped-IsKept : (w : World) (run : String) → IsUnique w → IsKept w (IsStopped w run)
IsStopped-IsKept w run unique = record {
  call = λ c s h. perform-IsStopped w c s run unique h;
  noted = λ id key value other s h. note-IsStopped w run id key value s h;
  run_noted = note_run-IsStopped w run;
  planned = plan_run-IsStopped w run;
}

-- A call of the engine, or of the scheduler itself.
pub data Request : Type 0 where
  schedule : Call → Request
  bootstrap : String → List String → Dict (List Fields) → Request
  execute : String → ℕ → Request

module _ (w : Setting) where
  -- The object after a call, also where it raises.
  unfoldable pub serve : Request → Scheduler → Scheduler
  serve (schedule c) s = perform w.world c s
  serve (bootstrap run_id modules packages) s =
      (bootstrap_standard_pipeline w run_id modules packages s).1
  serve (execute run_id max_loops) s = (execute_until_blocked w run_id max_loops s).1

  unfoldable pub session : List Request → Scheduler → Scheduler
  unfolding serve
  session [] s = s
  session (r ∷ rs) s = session rs (serve r s)

  serve-kept :
      {I : Scheduler → Type 0} (k : IsKept w.world I) (r : Request) (s : Scheduler)
      → I s
      → I (serve r s)
  unfolding serve
  serve-kept k (schedule c) s h = k.call c s h
  serve-kept k (bootstrap run_id modules packages) s h =
      (bootstrap-Keeping w k run_id modules packages).at s h
  serve-kept k (execute run_id max_loops) s h =
      (execute_until_blocked-Keeping w k run_id max_loops).at s h

  session-kept :
      {I : Scheduler → Type 0} (k : IsKept w.world I) (rs : List Request) (s : Scheduler)
      → I s
      → I (session rs s)
  unfolding session
  session-kept k [] s h = h
  session-kept k (r ∷ rs) s h = session-kept k rs (serve r s) (serve-kept k r s h)

-- Where no identifier is issued twice, every session of calls of the engine and of the scheduler,
-- failing calls included, leads from a sound state to a sound state: whatever the executors answer,
-- and whatever calls of the scheduler other tasks make while the engine waits for them. So each work
-- item that requires approval and is ready, running, in discussion or succeeded carries the name of
-- an approver, and none has used more discussions than its budget.
pub session-IsSound :
    (w : Setting) (rs : List Request) (s : Scheduler)
    → IsUnique w.world
    → IsSound w.world s
    → IsSound w.world (session w rs s)
session-IsSound w rs s unique h = session-kept w (IsSound-IsKept w.world unique) rs s h

-- Where no identifier is issued twice and none of a run still to be issued is taken, a run that is
-- canceled stays canceled through every session of calls of the engine and of the scheduler, failing
-- calls included, whatever the executors answer and other tasks call meanwhile.
pub session-IsStopped :
    (w : Setting) (canceled : String) (rs : List Request) (s : Scheduler)
    → IsUnique w.world
    → IsStopped w.world canceled s
    → IsStopped w.world canceled (session w rs s)
session-IsStopped w canceled rs s unique h =
    session-kept w (IsStopped-IsKept w.world canceled unique) rs s h
