-- ===== src/Scheduler/Canceled.antt =====
-- A canceled run stays canceled: the rules for the primitive actions of the scheduler. The methods
-- follow in the modules below.
pub mod Methods
use wherecode.Prelude.{
  ℕ, suc, ◌≤◌, String, ◌≡◌, refl, ◌⊎◌, inl, inr, ◌==◌, eq_iff, Bool, true, false, Option, none,
  some, List, [], ◌∷◌, arith, Bool-cases, Option-cases, if◌then◌else◌,
}
use wherecode.Dict.{Dict, get, put, modify, get-put, get-modify, get-modify_self}
use wherecode.Py.{◌>>=◌, ◌>>◌, reads, guard, assign, pure}
use wherecode.Py.Keeps.{
  Keeps, Keeps-pure, Keeps-reads, Keeps-if, Keeps-guard, Keeps-bind, Keeps-assign, keeps_rules,
}
use wherecode.Models.{
  WorkItem, DiscussionSession, DiscussionStatus, WorkflowRun, WorkflowRunStatus, is_canceled,
  is_finished,
}
use wherecode.Scheduler.State.{
  World, Scheduler, Method, get_run, get_workitem, run_id_of, now_utc, fresh_id, modify_workitem,
  modify_run, persist_run_row, persist_workitem, persist_discussion, persist_gate, persist_artifact,
  list_workitems, list_discussions,
}
use wherecode.Scheduler.Items.{
  refresh_run_status, active_run_of, release, release_all, tick, ensure_started, start_workitem,
  complete_workitem, approve_workitem, update_workitem_dependencies, mark_workitem_skipped,
}
use wherecode.Scheduler.Discussion.{
  Prompt, get_open_discussion, save_discussion, modify_discussion, new_session, refresh_run_of,
  fail_discussion, open_discussion, mark_needs_discussion, time_out_discussion, settle_discussion,
  resolve_discussion,
}

-- The run under a key is canceled, and no identifier of a run still to be issued is taken.
pub record IsStopped (w : World) (id : String) (s : Scheduler) : Type 0 where
  pub run : WorkflowRun
  pub found : get s.runs id ≡ some run
  pub canceled : is_canceled run.status ≡ true
  pub free : (n : ℕ) → s.issued_ids ≤ n → get s.runs (w.new_id "wfr" n) ≡ none

module _ (w : World) (id : String) where
  abbrev pub Stays : {A : Type 0} → Method A → Type 0
  Stays m = Keeps (IsStopped w id) m

  pub same_runs :
      {s t : Scheduler}
      → t.runs ≡ s.runs
      → s.issued_ids ≤ t.issued_ids
      → IsStopped w id s
      → IsStopped w id t
  same_runs e i h = record {
    run = h.run;
    found = rw e h.found;
    canceled = h.canceled;
    free = λ n later. rw e (h.free n (omega arith));
  }

  pub get_run-Stays : (k : String) → Stays (get_run k)
  unfolding get_run
  get_run-Stays k = record { at = λ s h. h }

  pub get_workitem-Stays : (k : String) → Stays (get_workitem k)
  unfolding get_workitem
  get_workitem-Stays k = record { at = λ s h. h }

  pub run_id_of-Stays : (k : String) → Stays (run_id_of k)
  unfolding run_id_of
  run_id_of-Stays k = record { at = λ s h. h }

  pub now_utc-Stays : Stays (now_utc w)
  unfolding now_utc
  now_utc-Stays = record { at = λ s h. same_runs {s = s} refl (omega arith) h }

  pub fresh_id-Stays : (p : String) → Stays (fresh_id w p)
  unfolding fresh_id
  fresh_id-Stays p = record { at = λ s h. same_runs {s = s} refl (omega arith) h }

  pub modify_workitem-Stays : (k : String) (f : _) → Stays (modify_workitem k f)
  unfolding modify_workitem
  modify_workitem-Stays k f = record { at = λ s h. same_runs {s = s} refl (omega arith) h }

  pub modify_run-Stays :
      (k : String) (f : WorkflowRun → WorkflowRun)
      → ((r : WorkflowRun) → is_canceled r.status ≡ true → is_canceled (f r).status ≡ true)
      → Stays (modify_run k f)
  unfolding modify_run
  modify_run-Stays k f keep = record {
    at = λ s h. elim (Bool-cases (k == id)) [
      | inr other ↦ record {
        run = h.run;
        found = rw (get-modify, other) h.found;
        canceled = h.canceled;
        free = λ n later. rw (get-modify, h.free n later) (ground arith);
      }
      | inl hit ↦ record {
        run = f h.run;
        found = cc (get-modify_self s.runs id f h.found, (eq_iff k id).0 hit);
        canceled = keep h.run h.canceled;
        free = λ n later. rw (get-modify, h.free n later) (ground arith);
      }
    ];
  }

  pub persist_run_row-Stays : (k : String) → Stays (persist_run_row k)
  unfolding persist_run_row
  persist_run_row-Stays k = record { at = λ s h. same_runs {s = s} refl (omega arith) h }

  pub persist_workitem-Stays : (k : String) → Stays (persist_workitem k)
  unfolding persist_workitem
  persist_workitem-Stays k = record { at = λ s h. same_runs {s = s} refl (omega arith) h }

  pub persist_discussion-Stays : (k : String) → Stays (persist_discussion k)
  unfolding persist_discussion
  persist_discussion-Stays k = record { at = λ s h. same_runs {s = s} refl (omega arith) h }

  pub persist_gate-Stays : (k : String) → Stays (persist_gate k)
  unfolding persist_gate
  persist_gate-Stays k = record { at = λ s h. same_runs {s = s} refl (omega arith) h }

  pub persist_artifact-Stays : (k : String) → Stays (persist_artifact k)
  unfolding persist_artifact
  persist_artifact-Stays k = record { at = λ s h. same_runs {s = s} refl (omega arith) h }

  pub list_workitems-Stays : (k : String) → Stays (list_workitems k)
  unfolding list_workitems
  list_workitems-Stays k = search (keeps_rules, get_run-Stays)

  pub list_discussions-Stays : (k : String) → Stays (list_discussions k)
  unfolding list_discussions
  list_discussions-Stays k = search (keeps_rules, get_workitem-Stays)

  pub assign-Stays :
      (f : Scheduler → Scheduler)
      → ((s : Scheduler) → (f s).runs ≡ s.runs)
      → ((s : Scheduler) → (f s).issued_ids ≡ s.issued_ids)
      → Stays (assign f)
  assign-Stays f e i = Keeps-assign f λ s h. same_runs (e s) (omega (arith, i s)) h

  -- An assignment to another run.
  pub modify_other-Stays :
      (k : String) (f : WorkflowRun → WorkflowRun) → (k == id) ≡ false → Stays (modify_run k f)
  unfolding modify_run
  modify_other-Stays k f other = record {
    at = λ s h. record {
      run = h.run;
      found = rw (get-modify, other) h.found;
      canceled = h.canceled;
      free = λ n later. rw (get-modify, h.free n later) (ground arith);
    };
  }

  pub refresh_other-Stays : (k : String) → (k == id) ≡ false → Stays (refresh_run_status w k)
  unfolding refresh_run_status
  refresh_other-Stays k other =
      search
        (
          keeps_rules, get_run-Stays, persist_run_row-Stays, list_workitems-Stays, now_utc-Stays,
          modify_other-Stays,
        )
        depth 10

  pub refresh_self-Stays : Stays (refresh_run_status w id)
  unfolding refresh_run_status ◌>>=◌ get_run
  refresh_self-Stays = record {
    at = λ s h. rw (h.found, h.canceled) ((persist_run_row-Stays id).at s h);
  }

  -- The refresh does not touch the status of a canceled run.
  pub refresh_run_status-Stays : (k : String) → Stays (refresh_run_status w k)
  refresh_run_status-Stays k = elim (Bool-cases (k == id)) [
    | inr other ↦ refresh_other-Stays k other
    | inl hit ↦ rw ((eq_iff k id).0 hit) refresh_self-Stays
  ]

  pub ruleset stays_rules = (
    keeps_rules, get_run-Stays, get_workitem-Stays, run_id_of-Stays, now_utc-Stays, fresh_id-Stays,
    modify_workitem-Stays, modify_run-Stays, persist_run_row-Stays, persist_workitem-Stays,
    persist_discussion-Stays, persist_gate-Stays, persist_artifact-Stays, list_workitems-Stays,
    list_discussions-Stays, assign-Stays, refresh_run_status-Stays,
  )
