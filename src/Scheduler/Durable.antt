-- ===== src/Scheduler/Durable.antt =====
-- The state store mirrors the dictionaries in memory. Between an assignment and the write of the
-- row, one entity of a kind may be ahead of its row; `Synced` names it.
pub mod Rules
pub mod Primitives
pub mod Methods
use wherecode.Prelude.{
  String, ◌≡◌, refl, inl, inr, ◌==◌, eq_iff, Bool, true, false, Option, none, some, arith,
  Bool-cases, Option-cases,
}
use wherecode.Dict.{Dict, get, put, modify, get-put, get-modify}
use wherecode.Scheduler.State.{Store, Scheduler, upsert_from}

abbrev pub is_pending_row : Option String → String → Bool
is_pending_row none j = false
is_pending_row (some k) j = k == j

-- Each row is the entity of its key, but for one key, and there are no other rows.
pub record Agrees {A : Type 0} (memory rows : Dict A) (ahead : Option String) : Type 0 where
  pub row : (j : String) → is_pending_row ahead j ≡ false → get rows j ≡ get memory j
  pub absent : (j : String) → get memory j ≡ none → get rows j ≡ none

module _ {A : Type 0} {memory rows : Dict A} where
  pub Agrees-weaken : (k : String) → Agrees memory rows none → Agrees memory rows (some k)
  Agrees-weaken k h = record { row = λ j other. h.row j refl; absent = h.absent }

  pub Agrees-modify :
      (k : String) (f : A → A)
      → Agrees memory rows (some k)
      → Agrees (modify memory k f) rows (some k)
  Agrees-modify k f h = record {
    row = λ j other. rw (get-modify, other) (h.row j other);
    absent = λ j gone. h.absent j (ground (arith, get-modify memory k j f));
  }

  pub Agrees-put :
      (k : String) (a : A) → Agrees memory rows (some k) → Agrees (put memory k a) rows (some k)
  Agrees-put k a h = record {
    row = λ j other. rw (get-put, other) (h.row j other);
    absent = λ j gone. h.absent j (ground (arith, get-put memory k j a));
  }

  pub Agrees-upsert :
      (k : String) → Agrees memory rows (some k) → Agrees memory (upsert_from memory k rows) none
  Agrees-upsert k h = elim (Option-cases (get memory k)) [
    | inl e ↦
        rw (e, upsert_from)
          (record {
            row = λ j _. elim (Bool-cases (k == j)) [
              | inr other ↦ h.row j other
              | inl hit ↦ let p : k ≡ j = (eq_iff k j).0 hit in cc (p, e, h.absent k e)
            ];
            absent = h.absent;
          })
    | inr (a, e) ↦
        rw (e, upsert_from)
          (record {
            row = λ j _. elim (Bool-cases (k == j)) [
              | inr other ↦ rw (get-put, other) (h.row j other)
              | inl hit ↦ rw (get-put, hit) (cc (e, (eq_iff k j).0 hit))
            ];
            absent = λ j gone. elim (Bool-cases (k == j)) [
              | inr other ↦ rw (get-put, other) (h.absent j gone)
              | inl hit ↦ cc (gone, e, (eq_iff k j).0 hit)
            ];
          })
  ]

-- What agrees, with the run, the item, the discussion, the gate check and the artifact that are
-- ahead of their rows.
pub record Synced (r i c g a : Option String) (s : Scheduler) : Type 0 where
  pub runs : (d : Store) → s.state_store ≡ some d → Agrees s.runs d.workflow_run r
  pub workitems : (d : Store) → s.state_store ≡ some d → Agrees s.workitems d.workitem i
  pub discussions :
      (d : Store) → s.state_store ≡ some d → Agrees s.discussions d.discussion_session c
  pub gate_checks : (d : Store) → s.state_store ≡ some d → Agrees s.gate_checks d.gate_check g
  pub artifacts : (d : Store) → s.state_store ≡ some d → Agrees s.artifacts d.artifact a

-- The store and the memory agree on everything.
abbrev pub IsDurable : Scheduler → Type 0
IsDurable s = Synced none none none none none s
