-- ===== src/Scheduler/Canceled/Methods.antt =====
-- The methods that work on items keep a canceled run canceled.
use wherecode.Prelude.{
  ℕ, suc, String, ◌≡◌, refl, inl, inr, ◌==◌, eq_iff, Bool, true, false, Option, none, some, List,
  [], ◌∷◌, arith, Bool-cases,
}
use wherecode.Dict.{put, get-put}
use wherecode.Py.{◌>>=◌}
use wherecode.Py.Keeps.{Keeps-pure, Keeps-bind}
use wherecode.Models.{WorkItem, DiscussionSession, DiscussionStatus, accepts_run, WorkflowRun}
use wherecode.Scheduler.State.{
  World, IsUnique, Scheduler, Method, now_utc, fresh_id, persist_run_row,
}
use wherecode.Scheduler.Items.{
  active_run_of, release, release_all, tick, ensure_started, start_workitem, complete_workitem,
  approve_workitem, update_workitem_dependencies, mark_workitem_skipped,
}
use wherecode.Scheduler.Discussion.{
  Prompt, get_open_discussion, save_discussion, modify_discussion, new_session, refresh_run_of,
  fail_discussion, open_discussion, mark_needs_discussion, time_out_discussion, settle_discussion,
  resolve_discussion,
}
use wherecode.Text.{is_truthy}
use wherecode.Scheduler.Control.{
  interrupt_item, interrupt_items, skip_items, interrupt_run, restart_run,
}
use wherecode.Scheduler.Create.{
  NewRun, create_run, persist_run, add_workitem, create_gate_check, create_artifact,
  create_run_artifact,
}
use wherecode.Scheduler.History.{
  Call, touch_run, new_run, add, gate, artifact, run_artifact, advance, start, complete, approve,
  rewire, skip, ask, answer, interrupt, restart, perform, history,
}
use wherecode.Scheduler.Canceled.{
  Stays, IsStopped, same_runs, persist_discussion-Stays, assign-Stays, stays_rules,
}

module _ (w : World) (id : String) where
  abbrev Keeping : {A : Type 0} → Method A → Type 0
  Keeping m = Stays w id m

  pub active_run_of-Stays : (k : String) → Keeping (active_run_of k)
  unfolding active_run_of
  active_run_of-Stays k = search stays_rules depth 8

  pub start_workitem-Stays : (k : String) → Keeping (start_workitem w k)
  unfolding start_workitem
  start_workitem-Stays k = search (stays_rules, active_run_of-Stays) depth 20

  pub ensure_started-Stays :
      (k : String) (started : Option ℕ) → Keeping (ensure_started w k started)
  unfolding ensure_started
  ensure_started-Stays k none = search stays_rules depth 8
  ensure_started-Stays k (some t) = Keeps-pure tt

  pub complete_workitem-Stays : (k : String) (b : Bool) → Keeping (complete_workitem w k b)
  unfolding complete_workitem
  complete_workitem-Stays k b =
      search (stays_rules, active_run_of-Stays, ensure_started-Stays) depth 20

  pub approve_workitem-Stays : (k by : String) → Keeping (approve_workitem w k by)
  unfolding approve_workitem
  approve_workitem-Stays k by = search (stays_rules, active_run_of-Stays) depth 20

  pub update_workitem_dependencies-Stays :
      (k : String) (ids : List String) → Keeping (update_workitem_dependencies w k ids)
  unfolding update_workitem_dependencies
  update_workitem_dependencies-Stays k ids = search (stays_rules, active_run_of-Stays) depth 20

  pub mark_workitem_skipped-Stays : (k reason : String) → Keeping (mark_workitem_skipped w k reason)
  unfolding mark_workitem_skipped
  mark_workitem_skipped-Stays k reason = search (stays_rules, ensure_started-Stays) depth 20

  pub release-Stays : (k : String) → Keeping (release w k)
  unfolding release
  release-Stays k = search stays_rules depth 10

  pub release_all-Stays : (ks : List String) → Keeping (release_all w ks)
  unfolding release_all
  release_all-Stays [] = Keeps-pure []
  release_all-Stays (k ∷ ks) =
      Keeps-bind (release-Stays k) λ item. Keeps-bind (release_all-Stays ks) λ rest. Keeps-pure _

  pub tick-Stays : (k : String) → Keeping (tick w k)
  unfolding tick
  tick-Stays k = search (stays_rules, release_all-Stays) depth 12

  pub save_discussion-Stays : (session : DiscussionSession) → Keeping (save_discussion session)
  unfolding save_discussion
  save_discussion-Stays session =
      Keeps-bind (assign-Stays w id _ (λ s. refl) (λ s. refl))
        λ _. persist_discussion-Stays w id session.id

  pub modify_discussion-Stays : (k : String) (f : _) → Keeping (modify_discussion k f)
  unfolding modify_discussion
  modify_discussion-Stays k f = assign-Stays w id _ (λ s. refl) (λ s. refl)

  pub get_open_discussion-Stays :
      (k : String) (d : Option String) → Keeping (get_open_discussion k d)
  unfolding get_open_discussion
  get_open_discussion-Stays k d = search stays_rules depth 8

  pub new_session-Stays :
      (item : WorkItem) (status : DiscussionStatus) (round : ℕ) (prompt : Prompt)
      → Keeping (new_session w item status round prompt)
  unfolding new_session
  new_session-Stays item status round prompt = search stays_rules depth 12

  pub refresh_run_of-Stays : (k : String) → Keeping (refresh_run_of w k)
  unfolding refresh_run_of
  refresh_run_of-Stays k = search stays_rules depth 8

  ruleset talk_rules = (
    stays_rules, save_discussion-Stays, modify_discussion-Stays, get_open_discussion-Stays,
    new_session-Stays, refresh_run_of-Stays,
  )

  pub fail_discussion-Stays :
      (item : WorkItem) (k problem : String) (prompt : Prompt)
      → Keeping (fail_discussion w item k problem prompt)
  unfolding fail_discussion
  fail_discussion-Stays item k problem prompt = search talk_rules depth 12

  pub open_discussion-Stays :
      (item : WorkItem) (k : String) (fs : List String) (prompt : Prompt)
      → Keeping (open_discussion w item k fs prompt)
  unfolding open_discussion
  open_discussion-Stays item k fs prompt = search talk_rules depth 12

  pub mark_needs_discussion-Stays :
      (k : String) (p : Prompt) → Keeping (mark_needs_discussion w k p)
  unfolding mark_needs_discussion
  mark_needs_discussion-Stays k p =
      search (talk_rules, fail_discussion-Stays, open_discussion-Stays) depth 12

  pub time_out_discussion-Stays :
      (k : String) (d : DiscussionSession) (now : ℕ) → Keeping (time_out_discussion w k d now)
  unfolding time_out_discussion
  time_out_discussion-Stays k d now = search talk_rules depth 12

  pub settle_discussion-Stays :
      (k : String) (d : DiscussionSession) (now : ℕ) (decision role : String)
      → Keeping (settle_discussion w k d now decision role)
  unfolding settle_discussion
  settle_discussion-Stays k d now decision role = search talk_rules depth 12

  pub resolve_discussion-Stays :
      (k decision role : String) (d : Option String)
      → Keeping (resolve_discussion w k decision role d)
  unfolding resolve_discussion
  resolve_discussion-Stays k decision role d =
      search (talk_rules, time_out_discussion-Stays, settle_discussion-Stays) depth 12

  interrupt_item-Stays :
      (by reason : Option String) (item : WorkItem) {rest : Method (List String)}
      → Keeping rest
      → Keeping (interrupt_item w by reason item rest)
  unfolding interrupt_item
  interrupt_item-Stays by reason item k = search (stays_rules, ensure_started-Stays) depth 14

  interrupt_items-Stays :
      (by reason : Option String) (items : List WorkItem)
      → Keeping (interrupt_items w by reason items)
  unfolding interrupt_items
  interrupt_items-Stays by reason [] = Keeps-pure []
  interrupt_items-Stays by reason (item ∷ items) =
      interrupt_item-Stays by reason item (interrupt_items-Stays by reason items)

  skip_items-Stays :
      (all : Bool) (k : String) (by reason : Option String) → Keeping (skip_items w all k by reason)
  unfolding skip_items
  skip_items-Stays false k by reason = Keeps-pure []
  skip_items-Stays true k by reason = search (stays_rules, interrupt_items-Stays)

  pub interrupt_run-Stays :
      (k : String) (by reason : Option String) (all : Bool)
      → Keeping (interrupt_run w k by reason all)
  unfolding interrupt_run
  interrupt_run-Stays k by reason all = search (stays_rules, skip_items-Stays) depth 12

  -- A new run stands under a key that was free.
  new_run-IsStopped :
      (s t : Scheduler) (run : WorkflowRun)
      → IsUnique w
      → t.runs ≡ put s.runs (w.new_id "wfr" s.issued_ids) run
      → t.issued_ids ≡ suc s.issued_ids
      → IsStopped w id s
      → IsStopped w id t
  new_run-IsStopped s t run unique e i h =
      let key = w.new_id "wfr" s.issued_ids in
      record {
        run = h.run;
        found = elim (Bool-cases (key == id)) [
          | inr other ↦ rw (e, get-put, other) h.found
          | inl hit ↦ cc (h.found, h.free s.issued_ids (omega arith), (eq_iff key id).0 hit)
        ];
        canceled = h.canceled;
        free = λ n later. elim (Bool-cases (key == w.new_id "wfr" n)) [
          | inr other ↦ rw (e, get-put, other) (h.free n (omega arith))
          | inl hit ↦ absurd (omega (arith, unique "wfr" s.issued_ids n ((eq_iff _ _).0 hit)))
        ];
      }

  pub create_run-Stays : (new : NewRun) → IsUnique w → Keeping (create_run w new)
  unfolding create_run ◌>>=◌ now_utc fresh_id persist_run_row accepts_run
  create_run-Stays new unique = record {
    at = λ s h. elim (Bool-cases (is_truthy new.project_id)) [
      | inl good ↦ rw good (new_run-IsStopped s _ _ unique refl refl h)
      | inr bad ↦ rw bad (same_runs w id {s = s} refl (omega arith) h)
    ];
  }

  pub restart_run-Stays :
      (k : String) (by reason : Option String) (copy : Bool)
      → IsUnique w
      → Keeping (restart_run w k by reason copy)
  unfolding restart_run
  restart_run-Stays k by reason copy unique = search (stays_rules, create_run-Stays) depth 14

  pub persist_run-Stays : (k : String) → Keeping (persist_run w k)
  unfolding persist_run
  persist_run-Stays k = search stays_rules depth 10

  pub create_gate_check-Stays : (k : String) (new : _) → Keeping (create_gate_check w k new)
  unfolding create_gate_check
  create_gate_check-Stays k new = search stays_rules depth 14

  pub create_artifact-Stays : (k : String) (new : _) → Keeping (create_artifact w k new)
  unfolding create_artifact
  create_artifact-Stays k new = search stays_rules depth 14

  pub create_run_artifact-Stays : (k : String) (new : _) → Keeping (create_run_artifact w k new)
  unfolding create_run_artifact
  create_run_artifact-Stays k new = search stays_rules depth 14

  pub add_workitem-Stays : (k : String) (new : _) → Keeping (add_workitem w k new)
  unfolding add_workitem
  add_workitem-Stays k new = search stays_rules depth 18

-- Whatever is called, a canceled run stays canceled.
pub perform-IsStopped :
    (w : World) (c : Call) (s : Scheduler) (id : String)
    → IsUnique w
    → IsStopped w id s
    → IsStopped w id (perform w c s)
unfolding perform
perform-IsStopped w (touch_run r) s id u h = (persist_run-Stays w id r).at s h
perform-IsStopped w (new_run n) s id u h = (create_run-Stays w id n u).at s h
perform-IsStopped w (add r n) s id u h = (add_workitem-Stays w id r n).at s h
perform-IsStopped w (gate i n) s id u h = (create_gate_check-Stays w id i n).at s h
perform-IsStopped w (artifact i n) s id u h = (create_artifact-Stays w id i n).at s h
perform-IsStopped w (run_artifact r n) s id u h = (create_run_artifact-Stays w id r n).at s h
perform-IsStopped w (advance r) s id u h = (tick-Stays w id r).at s h
perform-IsStopped w (start i) s id u h = (start_workitem-Stays w id i).at s h
perform-IsStopped w (complete i b) s id u h = (complete_workitem-Stays w id i b).at s h
perform-IsStopped w (approve i by) s id u h = (approve_workitem-Stays w id i by).at s h
perform-IsStopped w (rewire i ids) s id u h = (update_workitem_dependencies-Stays w id i ids).at s h
perform-IsStopped w (skip i reason) s id u h = (mark_workitem_skipped-Stays w id i reason).at s h
perform-IsStopped w (ask i p) s id u h = (mark_needs_discussion-Stays w id i p).at s h
perform-IsStopped w (answer i d r k) s id u h = (resolve_discussion-Stays w id i d r k).at s h
perform-IsStopped w (interrupt r by reason all) s id u h =
    (interrupt_run-Stays w id r by reason all).at s h
perform-IsStopped w (restart r by reason copy) s id u h =
    (restart_run-Stays w id r by reason copy u).at s h

-- Where no identifier is issued twice and none of a run still to be issued is taken, a run that is
-- canceled stays canceled through every history of calls, also calls that fail, of
-- the scheduler.
pub history-IsStopped :
    (w : World) (cs : List Call) (s : Scheduler) (id : String)
    → IsUnique w
    → IsStopped w id s
    → IsStopped w id (history w cs s)
unfolding history
history-IsStopped w [] s id u h = h
history-IsStopped w (c ∷ cs) s id u h =
    history-IsStopped w cs (perform w c s) id u (perform-IsStopped w c s id u h)
