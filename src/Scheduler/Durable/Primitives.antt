-- ===== src/Scheduler/Durable/Primitives.antt =====
-- What reading, asking and writing leaves of the agreement of the state store with the memory.
use wherecode.Prelude.{String, ◌≡◌, refl, Bool, true, false, Option, none, some, if◌then◌else◌}
use wherecode.Py.{Outcome, Error, returned, raised, ◌>>=◌, pure, reads, guard, resume}
use wherecode.Models.{DiscussionSession}
use wherecode.Scheduler.State.{
  World, Scheduler, Method, get_run, get_workitem, run_id_of, fresh_id, persist_run_row,
  persist_discussion, list_workitems, list_discussions,
}
use wherecode.Scheduler.Items.{active_run_of}
use wherecode.Scheduler.Discussion.{get_open_discussion, save_discussion}
use wherecode.Scheduler.Durable.{Agrees, Agrees-weaken, Agrees-upsert, Agrees-put, IsDurable}
use wherecode.Scheduler.Durable.Rules.{
  Rinses, modify_run-Rinses_clean, modify_workitem-Rinses, modify_workitem-Rinses_clean,
  modify_discussion-Rinses_clean, persist_run_row-Rinses, persist_workitem-Rinses,
  persist_discussion-Rinses, persist_gate-Rinses, persist_artifact-Rinses, now_utc-Rinses,
  assign-Rinses, on_store-eq,
}

-- From a durable state, the method ends in one.
abbrev pub Saves : {A : Type 0} → Method A → Type 0
Saves m = Rinses none none none none none m

module _ {A : Type 0} where
  pub Saves-pure : (a : A) → Saves (pure a)
  unfolding pure
  Saves-pure a = record { at = λ s h. h }

  pub Saves-reads : (f : Scheduler → Outcome A) → Saves (reads f)
  unfolding reads
  Saves-reads f = record { at = λ s h. h }

  pub Saves-if :
      (b : Bool) {m n : Method A}
      → (b ≡ true → Saves m)
      → (b ≡ false → Saves n)
      → Saves (if b then m else n)
  Saves-if true k l = k refl
  Saves-if false k l = l refl

pub Saves-guard : (b : Bool) (e : Error) → Saves (guard b e)
unfolding guard
Saves-guard true e = record { at = λ s h. h }
Saves-guard false e = record { at = λ s h. h }

module _ {A B : Type 0} where
  resume-IsDurable :
      (r : Outcome A) (f : A → Method B) (t : Scheduler)
      → IsDurable t
      → ((a : A) → Saves (f a))
      → IsDurable (resume r f t).1
  resume-IsDurable (returned a) f t h k = (k a).at t h
  resume-IsDurable (raised e) f t h k = h

  pub Saves-bind :
      {m : Method A} {f : A → Method B} → Saves m → ((a : A) → Saves (f a)) → Saves (m >>= f)
  unfolding ◌>>=◌
  Saves-bind {m} {f} k l = record { at = λ s h. resume-IsDurable (m s).0 f (m s).1 (k.at s h) l }

pub get_run-Saves : (k : String) → Saves (get_run k)
unfolding get_run
get_run-Saves k = record { at = λ s h. h }

pub get_workitem-Saves : (k : String) → Saves (get_workitem k)
unfolding get_workitem
get_workitem-Saves k = record { at = λ s h. h }

pub run_id_of-Saves : (k : String) → Saves (run_id_of k)
unfolding run_id_of
run_id_of-Saves k = record { at = λ s h. h }

pub fresh_id-Saves : (w : World) (p : String) → Saves (fresh_id w p)
unfolding fresh_id
fresh_id-Saves w p = record {
  at = λ s h. record {
    runs = h.runs;
    workitems = h.workitems;
    discussions = h.discussions;
    gate_checks = h.gate_checks;
    artifacts = h.artifacts;
  };
}

pub persist_run_row-last : (k : String) → Rinses (some k) none none none none (persist_run_row k)
unfolding persist_run_row
persist_run_row-last k = record {
  at = λ s h. record {
    runs = λ d' e'.
        on_store-eq _ s.state_store d' (λ x. Agrees s.runs x.workflow_run none) e'
          (λ d e. Agrees-upsert k (h.runs d e));
    workitems = λ d' e'.
        on_store-eq _ s.state_store d' (λ x. Agrees s.workitems x.workitem none) e'
          (λ d e. h.workitems d e);
    discussions = λ d' e'.
        on_store-eq _ s.state_store d' (λ x. Agrees s.discussions x.discussion_session none) e'
          (λ d e. h.discussions d e);
    gate_checks = λ d' e'.
        on_store-eq _ s.state_store d' (λ x. Agrees s.gate_checks x.gate_check none) e'
          (λ d e. h.gate_checks d e);
    artifacts = λ d' e'.
        on_store-eq _ s.state_store d' (λ x. Agrees s.artifacts x.artifact none) e'
          (λ d e. h.artifacts d e);
  };
}

pub persist_run_row-Saves : (k : String) → Saves (persist_run_row k)
persist_run_row-Saves k = record {
  at = λ s h. (persist_run_row-last k).at s (record {
    runs = λ d e. Agrees-weaken k (h.runs d e);
    workitems = h.workitems;
    discussions = h.discussions;
    gate_checks = h.gate_checks;
    artifacts = h.artifacts;
  });
}

persist_discussion-Saves : (k : String) → Rinses none none (some k) none none (persist_discussion k)
unfolding persist_discussion
persist_discussion-Saves k = record {
  at = λ s h. record {
    runs = λ d' e'.
        on_store-eq _ s.state_store d' (λ x. Agrees s.runs x.workflow_run none) e'
          (λ d e. h.runs d e);
    workitems = λ d' e'.
        on_store-eq _ s.state_store d' (λ x. Agrees s.workitems x.workitem none) e'
          (λ d e. h.workitems d e);
    discussions = λ d' e'.
        on_store-eq _ s.state_store d' (λ x. Agrees s.discussions x.discussion_session none) e'
          (λ d e. Agrees-upsert k (h.discussions d e));
    gate_checks = λ d' e'.
        on_store-eq _ s.state_store d' (λ x. Agrees s.gate_checks x.gate_check none) e'
          (λ d e. h.gate_checks d e);
    artifacts = λ d' e'.
        on_store-eq _ s.state_store d' (λ x. Agrees s.artifacts x.artifact none) e'
          (λ d e. h.artifacts d e);
  };
}

pub ruleset saves_rules = (
  Saves-pure, Saves-reads, Saves-if, Saves-guard, Saves-bind, get_run-Saves, get_workitem-Saves,
  run_id_of-Saves, fresh_id-Saves, modify_run-Rinses_clean, modify_workitem-Rinses_clean,
  modify_workitem-Rinses, persist_run_row-Rinses, persist_workitem-Rinses,
  persist_discussion-Rinses, modify_discussion-Rinses_clean, now_utc-Rinses, persist_run_row-Saves,
  persist_run_row-last,
)

pub list_workitems-Saves : (k : String) → Saves (list_workitems k)
unfolding list_workitems
list_workitems-Saves k = search saves_rules

list_discussions-Saves : (k : String) → Saves (list_discussions k)
unfolding list_discussions
list_discussions-Saves k = search saves_rules

pub active_run_of-Saves : (k : String) → Saves (active_run_of k)
unfolding active_run_of
active_run_of-Saves k = search saves_rules depth 8

pub get_open_discussion-Saves : (k : String) (d : Option String) → Saves (get_open_discussion k d)
unfolding get_open_discussion
get_open_discussion-Saves k d = search (saves_rules, list_discussions-Saves) depth 8

pub save_discussion-Saves : (session : DiscussionSession) → Saves (save_discussion session)
unfolding save_discussion
save_discussion-Saves session =
    assign-Rinses _
      (λ s h. record {
        runs = h.runs;
        workitems = h.workitems;
        discussions =
            λ d e. Agrees-put session.id session (Agrees-weaken session.id (h.discussions d e));
        gate_checks = h.gate_checks;
        artifacts = h.artifacts;
      })
      (λ _. persist_discussion-Saves session.id)
