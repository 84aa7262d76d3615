-- ===== src/Scheduler/Durable/Rules.antt =====
-- Rules to show that a method, from a state where the named entities are ahead of their rows, ends
-- in a durable state, whether it returns or raises.
use wherecode.Prelude.{ℕ, String, ◌≡◌, refl, Option, none, some}
use mathlib.Core.Path.{subst}
use mathlib.Core.Option.{some-injective}
use wherecode.Py.{◌>>=◌, assign}
use wherecode.Models.{WorkflowRun, WorkItem, DiscussionSession}
use wherecode.Scheduler.State.{
  World, Store, Scheduler, Method, on_store, now_utc, modify_workitem, modify_run, persist_run_row,
  persist_workitem, persist_discussion, persist_gate, persist_artifact,
}
use wherecode.Scheduler.Discussion.{modify_discussion}
use wherecode.Scheduler.Durable.{
  Agrees, Agrees-weaken, Agrees-modify, Agrees-upsert, Synced, IsDurable,
}

pub record Rinses (r i c g a : Option String) {A : Type 0} (m : Method A) : Type 0 where
  pub at : (s : Scheduler) → Synced r i c g a s → IsDurable (m s).1

-- The store after a write, taken apart.
pub on_store-eq :
    (f : Store → Store) (o : Option Store) (d' : Store) (P : Store → Type 0)
    → on_store f o ≡ some d'
    → ((d : Store) → o ≡ some d → P (f d))
    → P d'
on_store-eq f none d' P e k = cc
on_store-eq f (some d) d' P e k = subst P (some-injective (f d) d' e) (k d refl)

module _ {i c g a : Option String} {B : Type 0} {k : Unit {0} → Method B} where
  modify_run-Rinses :
      (id : String) (f : WorkflowRun → WorkflowRun)
      → ((u : Unit {0}) → Rinses (some id) i c g a (k u))
      → Rinses (some id) i c g a (modify_run id f >>= k)
  unfolding ◌>>=◌ modify_run
  modify_run-Rinses id f l = record {
    at = λ s h. (l tt).at _ (record {
      runs = λ d e. Agrees-modify id f (h.runs d e);
      workitems = h.workitems;
      discussions = h.discussions;
      gate_checks = h.gate_checks;
      artifacts = h.artifacts;
    });
  }

  pub modify_run-Rinses_clean :
      (id : String) (f : WorkflowRun → WorkflowRun)
      → ((u : Unit {0}) → Rinses (some id) i c g a (k u))
      → Rinses none i c g a (modify_run id f >>= k)
  modify_run-Rinses_clean id f l = record {
    at = λ s h. (modify_run-Rinses id f l).at s (record {
      runs = λ d e. Agrees-weaken id (h.runs d e);
      workitems = h.workitems;
      discussions = h.discussions;
      gate_checks = h.gate_checks;
      artifacts = h.artifacts;
    });
  }

  pub persist_run_row-Rinses :
      (id : String)
      → ((u : Unit {0}) → Rinses none i c g a (k u))
      → Rinses (some id) i c g a (persist_run_row id >>= k)
  unfolding ◌>>=◌ persist_run_row
  persist_run_row-Rinses id l = record {
    at = λ s h. (l tt).at _ (record {
      runs = λ d' e'.
          on_store-eq _ s.state_store d' (λ x. Agrees s.runs x.workflow_run none) e'
            (λ d e. Agrees-upsert id (h.runs d e));
      workitems = λ d' e'.
          on_store-eq _ s.state_store d' (λ x. Agrees s.workitems x.workitem i) e'
            (λ d e. h.workitems d e);
      discussions = λ d' e'.
          on_store-eq _ s.state_store d' (λ x. Agrees s.discussions x.discussion_session c) e'
            (λ d e. h.discussions d e);
      gate_checks = λ d' e'.
          on_store-eq _ s.state_store d' (λ x. Agrees s.gate_checks x.gate_check g) e'
            (λ d e. h.gate_checks d e);
      artifacts = λ d' e'.
          on_store-eq _ s.state_store d' (λ x. Agrees s.artifacts x.artifact a) e'
            (λ d e. h.artifacts d e);
    });
  }

  persist_run_row-Rinses_clean :
      (id : String)
      → ((u : Unit {0}) → Rinses none i c g a (k u))
      → Rinses none i c g a (persist_run_row id >>= k)
  persist_run_row-Rinses_clean id l = record {
    at = λ s h. (persist_run_row-Rinses id l).at s (record {
      runs = λ d e. Agrees-weaken id (h.runs d e);
      workitems = h.workitems;
      discussions = h.discussions;
      gate_checks = h.gate_checks;
      artifacts = h.artifacts;
    });
  }

module _ {r c g a : Option String} {B : Type 0} {k : Unit {0} → Method B} where
  pub modify_workitem-Rinses :
      (id : String) (f : WorkItem → WorkItem)
      → ((u : Unit {0}) → Rinses r (some id) c g a (k u))
      → Rinses r (some id) c g a (modify_workitem id f >>= k)
  unfolding ◌>>=◌ modify_workitem
  modify_workitem-Rinses id f l = record {
    at = λ s h. (l tt).at _ (record {
      runs = h.runs;
      workitems = λ d e. Agrees-modify id f (h.workitems d e);
      discussions = h.discussions;
      gate_checks = h.gate_checks;
      artifacts = h.artifacts;
    });
  }

  pub modify_workitem-Rinses_clean :
      (id : String) (f : WorkItem → WorkItem)
      → ((u : Unit {0}) → Rinses r (some id) c g a (k u))
      → Rinses r none c g a (modify_workitem id f >>= k)
  modify_workitem-Rinses_clean id f l = record {
    at = λ s h. (modify_workitem-Rinses id f l).at s (record {
      runs = h.runs;
      workitems = λ d e. Agrees-weaken id (h.workitems d e);
      discussions = h.discussions;
      gate_checks = h.gate_checks;
      artifacts = h.artifacts;
    });
  }

  pub persist_workitem-Rinses :
      (id : String)
      → ((u : Unit {0}) → Rinses r none c g a (k u))
      → Rinses r (some id) c g a (persist_workitem id >>= k)
  unfolding ◌>>=◌ persist_workitem
  persist_workitem-Rinses id l = record {
    at = λ s h. (l tt).at _ (record {
      runs = λ d' e'.
          on_store-eq _ s.state_store d' (λ x. Agrees s.runs x.workflow_run r) e'
            (λ d e. h.runs d e);
      workitems = λ d' e'.
          on_store-eq _ s.state_store d' (λ x. Agrees s.workitems x.workitem none) e'
            (λ d e. Agrees-upsert id (h.workitems d e));
      discussions = λ d' e'.
          on_store-eq _ s.state_store d' (λ x. Agrees s.discussions x.discussion_session c) e'
            (λ d e. h.discussions d e);
      gate_checks = λ d' e'.
          on_store-eq _ s.state_store d' (λ x. Agrees s.gate_checks x.gate_check g) e'
            (λ d e. h.gate_checks d e);
      artifacts = λ d' e'.
          on_store-eq _ s.state_store d' (λ x. Agrees s.artifacts x.artifact a) e'
            (λ d e. h.artifacts d e);
    });
  }

  persist_workitem-Rinses_clean :
      (id : String)
      → ((u : Unit {0}) → Rinses r none c g a (k u))
      → Rinses r none c g a (persist_workitem id >>= k)
  persist_workitem-Rinses_clean id l = record {
    at = λ s h. (persist_workitem-Rinses id l).at s (record {
      runs = h.runs;
      workitems = λ d e. Agrees-weaken id (h.workitems d e);
      discussions = h.discussions;
      gate_checks = h.gate_checks;
      artifacts = h.artifacts;
    });
  }

module _ {r i g a : Option String} {B : Type 0} {k : Unit {0} → Method B} where
  modify_discussion-Rinses :
      (id : String) (f : DiscussionSession → DiscussionSession)
      → ((u : Unit {0}) → Rinses r i (some id) g a (k u))
      → Rinses r i (some id) g a (modify_discussion id f >>= k)
  unfolding ◌>>=◌ modify_discussion
  modify_discussion-Rinses id f l = record {
    at = λ s h. (l tt).at _ (record {
      runs = h.runs;
      workitems = h.workitems;
      discussions = λ d e. Agrees-modify id f (h.discussions d e);
      gate_checks = h.gate_checks;
      artifacts = h.artifacts;
    });
  }

  pub modify_discussion-Rinses_clean :
      (id : String) (f : DiscussionSession → DiscussionSession)
      → ((u : Unit {0}) → Rinses r i (some id) g a (k u))
      → Rinses r i none g a (modify_discussion id f >>= k)
  modify_discussion-Rinses_clean id f l = record {
    at = λ s h. (modify_discussion-Rinses id f l).at s (record {
      runs = h.runs;
      workitems = h.workitems;
      discussions = λ d e. Agrees-weaken id (h.discussions d e);
      gate_checks = h.gate_checks;
      artifacts = h.artifacts;
    });
  }

  pub persist_discussion-Rinses :
      (id : String)
      → ((u : Unit {0}) → Rinses r i none g a (k u))
      → Rinses r i (some id) g a (persist_discussion id >>= k)
  unfolding ◌>>=◌ persist_discussion
  persist_discussion-Rinses id l = record {
    at = λ s h. (l tt).at _ (record {
      runs = λ d' e'.
          on_store-eq _ s.state_store d' (λ x. Agrees s.runs x.workflow_run r) e'
            (λ d e. h.runs d e);
      workitems = λ d' e'.
          on_store-eq _ s.state_store d' (λ x. Agrees s.workitems x.workitem i) e'
            (λ d e. h.workitems d e);
      discussions = λ d' e'.
          on_store-eq _ s.state_store d' (λ x. Agrees s.discussions x.discussion_session none) e'
            (λ d e. Agrees-upsert id (h.discussions d e));
      gate_checks = λ d' e'.
          on_store-eq _ s.state_store d' (λ x. Agrees s.gate_checks x.gate_check g) e'
            (λ d e. h.gate_checks d e);
      artifacts = λ d' e'.
          on_store-eq _ s.state_store d' (λ x. Agrees s.artifacts x.artifact a) e'
            (λ d e. h.artifacts d e);
    });
  }

  persist_discussion-Rinses_clean :
      (id : String)
      → ((u : Unit {0}) → Rinses r i none g a (k u))
      → Rinses r i none g a (persist_discussion id >>= k)
  persist_discussion-Rinses_clean id l = record {
    at = λ s h. (persist_discussion-Rinses id l).at s (record {
      runs = h.runs;
      workitems = h.workitems;
      discussions = λ d e. Agrees-weaken id (h.discussions d e);
      gate_checks = h.gate_checks;
      artifacts = h.artifacts;
    });
  }

module _ {r i c a : Option String} {B : Type 0} {k : Unit {0} → Method B} where
  pub persist_gate-Rinses :
      (id : String)
      → ((u : Unit {0}) → Rinses r i c none a (k u))
      → Rinses r i c (some id) a (persist_gate id >>= k)
  unfolding ◌>>=◌ persist_gate
  persist_gate-Rinses id l = record {
    at = λ s h. (l tt).at _ (record {
      runs = λ d' e'.
          on_store-eq _ s.state_store d' (λ x. Agrees s.runs x.workflow_run r) e'
            (λ d e. h.runs d e);
      workitems = λ d' e'.
          on_store-eq _ s.state_store d' (λ x. Agrees s.workitems x.workitem i) e'
            (λ d e. h.workitems d e);
      discussions = λ d' e'.
          on_store-eq _ s.state_store d' (λ x. Agrees s.discussions x.discussion_session c) e'
            (λ d e. h.discussions d e);
      gate_checks = λ d' e'.
          on_store-eq _ s.state_store d' (λ x. Agrees s.gate_checks x.gate_check none) e'
            (λ d e. Agrees-upsert id (h.gate_checks d e));
      artifacts = λ d' e'.
          on_store-eq _ s.state_store d' (λ x. Agrees s.artifacts x.artifact a) e'
            (λ d e. h.artifacts d e);
    });
  }

  persist_gate-Rinses_clean :
      (id : String)
      → ((u : Unit {0}) → Rinses r i c none a (k u))
      → Rinses r i c none a (persist_gate id >>= k)
  persist_gate-Rinses_clean id l = record {
    at = λ s h. (persist_gate-Rinses id l).at s (record {
      runs = h.runs;
      workitems = h.workitems;
      discussions = h.discussions;
      gate_checks = λ d e. Agrees-weaken id (h.gate_checks d e);
      artifacts = h.artifacts;
    });
  }

module _ {r i c g : Option String} {B : Type 0} {k : Unit {0} → Method B} where
  pub persist_artifact-Rinses :
      (id : String)
      → ((u : Unit {0}) → Rinses r i c g none (k u))
      → Rinses r i c g (some id) (persist_artifact id >>= k)
  unfolding ◌>>=◌ persist_artifact
  persist_artifact-Rinses id l = record {
    at = λ s h. (l tt).at _ (record {
      runs = λ d' e'.
          on_store-eq _ s.state_store d' (λ x. Agrees s.runs x.workflow_run r) e'
            (λ d e. h.runs d e);
      workitems = λ d' e'.
          on_store-eq _ s.state_store d' (λ x. Agrees s.workitems x.workitem i) e'
            (λ d e. h.workitems d e);
      discussions = λ d' e'.
          on_store-eq _ s.state_store d' (λ x. Agrees s.discussions x.discussion_session c) e'
            (λ d e. h.discussions d e);
      gate_checks = λ d' e'.
          on_store-eq _ s.state_store d' (λ x. Agrees s.gate_checks x.gate_check g) e'
            (λ d e. h.gate_checks d e);
      artifacts = λ d' e'.
          on_store-eq _ s.state_store d' (λ x. Agrees s.artifacts x.artifact none) e'
            (λ d e. Agrees-upsert id (h.artifacts d e));
    });
  }

  persist_artifact-Rinses_clean :
      (id : String)
      → ((u : Unit {0}) → Rinses r i c g none (k u))
      → Rinses r i c g none (persist_artifact id >>= k)
  persist_artifact-Rinses_clean id l = record {
    at = λ s h. (persist_artifact-Rinses id l).at s (record {
      runs = h.runs;
      workitems = h.workitems;
      discussions = h.discussions;
      gate_checks = h.gate_checks;
      artifacts = λ d e. Agrees-weaken id (h.artifacts d e);
    });
  }

-- Reading the clock matters to no row.
pub now_utc-Rinses :
    {r i c g a : Option String} (w : World) {B : Type 0} {k : ℕ → Method B}
    → ((n : ℕ) → Rinses r i c g a (k n))
    → Rinses r i c g a (now_utc w >>= k)
unfolding ◌>>=◌ now_utc
now_utc-Rinses w l = record {
  at = λ s h. (l (w.now s.clock_reads)).at _ (record {
    runs = h.runs;
    workitems = h.workitems;
    discussions = h.discussions;
    gate_checks = h.gate_checks;
    artifacts = h.artifacts;
  });
}

pub assign-Rinses :
    {r i c g a : Option String} (f : Scheduler → Scheduler) {B : Type 0} {k : Unit {0} → Method B}
    → ((s : Scheduler) → IsDurable s → Synced r i c g a (f s))
    → ((u : Unit {0}) → Rinses r i c g a (k u))
    → Rinses none none none none none (assign f >>= k)
unfolding ◌>>=◌ assign
assign-Rinses f step l = record { at = λ s h. (l tt).at (f s) (step s h) }
