-- ===== src/Scheduler/Durable/Methods.antt =====
-- Every method of the scheduler leaves the state store in step with the memory.
use wherecode.Prelude.{ℕ, String, Bool, true, false, Option, none, some, List, [], ◌∷◌}
use wherecode.Py.{◌>>=◌, pure}
use wherecode.Models.{WorkItem, DiscussionSession, DiscussionStatus}
use wherecode.Scheduler.State.{World, Scheduler, Method, now_utc, modify_workitem}
use wherecode.Scheduler.Create.{
  NewRun, NewWorkItem, NewGateCheck, NewArtifact, create_run, persist_run, add_workitem,
  create_gate_check, create_artifact, create_run_artifact,
}
use wherecode.Scheduler.Items.{
  refresh_run_status, release, release_all, tick, ensure_started, start_workitem, complete_workitem,
  approve_workitem, update_workitem_dependencies, mark_workitem_skipped,
}
use wherecode.Scheduler.Discussion.{
  Prompt, new_session, refresh_run_of, fail_discussion, open_discussion, mark_needs_discussion,
  time_out_discussion, settle_discussion, resolve_discussion,
}
use wherecode.Scheduler.Control.{
  interrupt_item, interrupt_items, skip_items, interrupt_run, restart_run,
}
use wherecode.Scheduler.History.{
  Call, touch_run, new_run, add, gate, artifact, run_artifact, advance, start, complete, approve,
  rewire, skip, ask, answer, interrupt, restart, perform, history,
}
use wherecode.Scheduler.Durable.{Agrees-weaken, Agrees-modify, Agrees-put, IsDurable}
use wherecode.Scheduler.Durable.Rules.{
  Rinses, modify_run-Rinses_clean, persist_run_row-Rinses, persist_workitem-Rinses,
  persist_gate-Rinses, persist_artifact-Rinses, now_utc-Rinses, assign-Rinses,
}
use wherecode.Scheduler.Durable.Primitives.{
  Saves, Saves-pure, Saves-reads, Saves-guard, Saves-bind, get_run-Saves, get_workitem-Saves,
  fresh_id-Saves, saves_rules, list_workitems-Saves, active_run_of-Saves, get_open_discussion-Saves,
  save_discussion-Saves,
}

module _ (w : World) where
  refresh_run_status-Saves : (k : String) → Saves (refresh_run_status w k)
  unfolding refresh_run_status
  refresh_run_status-Saves k = search (saves_rules, list_workitems-Saves) depth 12

  start_workitem-Saves : (k : String) → Saves (start_workitem w k)
  unfolding start_workitem
  start_workitem-Saves k =
      search (saves_rules, refresh_run_status-Saves, active_run_of-Saves) depth 20

  -- The start of an item is written with what follows.
  ensure_started-Rinses :
      (k : String) (started : Option ℕ) {B : Type 0} {m : Unit {0} → Method B}
      → ((u : Unit {0}) → Rinses none (some k) none none none (m u))
      → Rinses none none none none none (ensure_started w k started >>= m)
  unfolding ensure_started ◌>>=◌ now_utc modify_workitem pure
  ensure_started-Rinses k (some t) l = record {
    at = λ s h. (l tt).at s (record {
      runs = h.runs;
      workitems = λ d e. Agrees-weaken k (h.workitems d e);
      discussions = h.discussions;
      gate_checks = h.gate_checks;
      artifacts = h.artifacts;
    });
  }
  ensure_started-Rinses k none l = record {
    at = λ s h. (l tt).at _ (record {
      runs = h.runs;
      workitems = λ d e. Agrees-modify k _ (Agrees-weaken k (h.workitems d e));
      discussions = h.discussions;
      gate_checks = h.gate_checks;
      artifacts = h.artifacts;
    });
  }

  ruleset item_rules = (
    saves_rules, refresh_run_status-Saves, active_run_of-Saves, ensure_started-Rinses,
    list_workitems-Saves, get_open_discussion-Saves, save_discussion-Saves,
  )

  complete_workitem-Saves : (k : String) (b : Bool) → Saves (complete_workitem w k b)
  unfolding complete_workitem
  complete_workitem-Saves k b = search item_rules depth 20

  approve_workitem-Saves : (k by : String) → Saves (approve_workitem w k by)
  unfolding approve_workitem
  approve_workitem-Saves k by = search item_rules depth 20

  update_workitem_dependencies-Saves :
      (k : String) (ids : List String) → Saves (update_workitem_dependencies w k ids)
  unfolding update_workitem_dependencies
  update_workitem_dependencies-Saves k ids = search item_rules depth 20

  mark_workitem_skipped-Saves : (k reason : String) → Saves (mark_workitem_skipped w k reason)
  unfolding mark_workitem_skipped
  mark_workitem_skipped-Saves k reason = search item_rules depth 20

  release-Saves : (k : String) → Saves (release w k)
  unfolding release
  release-Saves k = search item_rules depth 10

  release_all-Saves : (ks : List String) → Saves (release_all w ks)
  unfolding release_all
  release_all-Saves [] = Saves-pure []
  release_all-Saves (k ∷ ks) =
      Saves-bind (release-Saves k) λ item. Saves-bind (release_all-Saves ks) λ rest. Saves-pure _

  tick-Saves : (k : String) → Saves (tick w k)
  unfolding tick
  tick-Saves k = search (item_rules, release_all-Saves) depth 12

  new_session-Saves :
      (item : WorkItem) (status : DiscussionStatus) (round : ℕ) (prompt : Prompt)
      → Saves (new_session w item status round prompt)
  unfolding new_session
  new_session-Saves item status round prompt = search item_rules depth 12

  refresh_run_of-Saves : (k : String) → Saves (refresh_run_of w k)
  unfolding refresh_run_of
  refresh_run_of-Saves k = search item_rules depth 8

  fail_discussion-Saves :
      (item : WorkItem) (k problem : String) (prompt : Prompt)
      → Saves (fail_discussion w item k problem prompt)
  unfolding fail_discussion
  fail_discussion-Saves item k problem prompt =
      search (item_rules, new_session-Saves, refresh_run_of-Saves) depth 12

  open_discussion-Saves :
      (item : WorkItem) (k : String) (fs : List String) (prompt : Prompt)
      → Saves (open_discussion w item k fs prompt)
  unfolding open_discussion
  open_discussion-Saves item k fs prompt =
      search (item_rules, new_session-Saves, refresh_run_of-Saves) depth 12

  mark_needs_discussion-Saves : (k : String) (p : Prompt) → Saves (mark_needs_discussion w k p)
  unfolding mark_needs_discussion
  mark_needs_discussion-Saves k p =
      search (item_rules, fail_discussion-Saves, open_discussion-Saves) depth 12

  time_out_discussion-Saves :
      (k : String) (d : DiscussionSession) (now : ℕ) → Saves (time_out_discussion w k d now)
  unfolding time_out_discussion
  time_out_discussion-Saves k d now = search (item_rules, refresh_run_of-Saves) depth 12

  settle_discussion-Saves :
      (k : String) (d : DiscussionSession) (now : ℕ) (decision role : String)
      → Saves (settle_discussion w k d now decision role)
  unfolding settle_discussion
  settle_discussion-Saves k d now decision role = search (item_rules, refresh_run_of-Saves) depth 12

  resolve_discussion-Saves :
      (k decision role : String) (d : Option String)
      → Saves (resolve_discussion w k decision role d)
  unfolding resolve_discussion
  resolve_discussion-Saves k decision role d =
      search (item_rules, time_out_discussion-Saves, settle_discussion-Saves) depth 12

  interrupt_item-Saves :
      (by reason : Option String) (item : WorkItem) {rest : Method (List String)}
      → Saves rest
      → Saves (interrupt_item w by reason item rest)
  unfolding interrupt_item
  interrupt_item-Saves by reason item k = search item_rules depth 14

  interrupt_items-Saves :
      (by reason : Option String) (items : List WorkItem)
      → Saves (interrupt_items w by reason items)
  unfolding interrupt_items
  interrupt_items-Saves by reason [] = Saves-pure []
  interrupt_items-Saves by reason (item ∷ items) =
      interrupt_item-Saves by reason item (interrupt_items-Saves by reason items)

  skip_items-Saves :
      (all : Bool) (k : String) (by reason : Option String) → Saves (skip_items w all k by reason)
  unfolding skip_items
  skip_items-Saves false k by reason = Saves-pure []
  skip_items-Saves true k by reason = search (item_rules, interrupt_items-Saves)

  interrupt_run-Saves :
      (k : String) (by reason : Option String) (all : Bool)
      → Saves (interrupt_run w k by reason all)
  unfolding interrupt_run
  interrupt_run-Saves k by reason all = search (item_rules, skip_items-Saves) depth 12

  -- A new entity is assigned under its key, and then written.
  create_run-Saves : (new : NewRun) → Saves (create_run w new)
  unfolding create_run
  create_run-Saves new = now_utc-Rinses w λ created. now_utc-Rinses w λ updated.
      Saves-bind (fresh_id-Saves w "wfr") λ id. Saves-bind (Saves-guard _ _) λ _.
        assign-Rinses {r = some id} _
          (λ s h. record {
            runs = λ d e. Agrees-put id _ (Agrees-weaken id (h.runs d e));
            workitems = h.workitems;
            discussions = h.discussions;
            gate_checks = h.gate_checks;
            artifacts = h.artifacts;
          })
          (λ _. persist_run_row-Rinses id λ _. Saves-pure _)

  persist_run-Saves : (k : String) → Saves (persist_run w k)
  unfolding persist_run
  persist_run-Saves k = search item_rules depth 12

  restart_run-Saves :
      (k : String) (by reason : Option String) (copy : Bool)
      → Saves (restart_run w k by reason copy)
  unfolding restart_run
  restart_run-Saves k by reason copy = search (item_rules, create_run-Saves) depth 14

  add_workitem-Saves : (k : String) (new : NewWorkItem) → Saves (add_workitem w k new)
  unfolding add_workitem
  add_workitem-Saves k new = Saves-bind (get_run-Saves k) λ run. Saves-bind (Saves-reads _) λ _.
      now_utc-Rinses w λ created. now_utc-Rinses w λ updated.
        Saves-bind (fresh_id-Saves w "wi") λ id. Saves-bind (Saves-guard _ _) λ _.
          assign-Rinses {i = some id} _
            (λ s h. record {
              runs = h.runs;
              workitems = λ d e. Agrees-put id _ (Agrees-weaken id (h.workitems d e));
              discussions = h.discussions;
              gate_checks = h.gate_checks;
              artifacts = h.artifacts;
            })
            (λ _. now_utc-Rinses w λ now.
              modify_run-Rinses_clean k _
                λ _. persist_workitem-Rinses id λ _. persist_run_row-Rinses k λ _. Saves-pure _)

  create_gate_check-Saves : (k : String) (new : NewGateCheck) → Saves (create_gate_check w k new)
  unfolding create_gate_check
  create_gate_check-Saves k new = Saves-bind (get_workitem-Saves k) λ item.
      Saves-bind (Saves-reads _) λ earlier. Saves-bind (fresh_id-Saves w "gate") λ id.
        now_utc-Rinses w λ created. Saves-bind (Saves-guard _ _) λ _.
          assign-Rinses {g = some id} _
            (λ s h. record {
              runs = h.runs;
              workitems = h.workitems;
              discussions = h.discussions;
              gate_checks = λ d e. Agrees-put id _ (Agrees-weaken id (h.gate_checks d e));
              artifacts = h.artifacts;
            })
            (λ _. persist_gate-Rinses id λ _. Saves-pure _)

  create_artifact-Saves : (k : String) (new : NewArtifact) → Saves (create_artifact w k new)
  unfolding create_artifact
  create_artifact-Saves k new = Saves-bind (get_workitem-Saves k) λ item.
      Saves-bind (fresh_id-Saves w "art") λ id. now_utc-Rinses w λ created.
        Saves-bind (Saves-guard _ _) λ _.
          assign-Rinses {a = some id} _
            (λ s h. record {
              runs = h.runs;
              workitems = h.workitems;
              discussions = h.discussions;
              gate_checks = h.gate_checks;
              artifacts = λ d e. Agrees-put id _ (Agrees-weaken id (h.artifacts d e));
            })
            (λ _. persist_artifact-Rinses id λ _. Saves-pure _)

  create_run_artifact-Saves : (k : String) (new : NewArtifact) → Saves (create_run_artifact w k new)
  unfolding create_run_artifact
  create_run_artifact-Saves k new = Saves-bind (get_run-Saves k) λ run.
      Saves-bind (fresh_id-Saves w "art") λ id. now_utc-Rinses w λ created.
        Saves-bind (Saves-guard _ _) λ _.
          assign-Rinses {a = some id} _
            (λ s h. record {
              runs = h.runs;
              workitems = h.workitems;
              discussions = h.discussions;
              gate_checks = h.gate_checks;
              artifacts = λ d e. Agrees-put id _ (Agrees-weaken id (h.artifacts d e));
            })
            (λ _. persist_artifact-Rinses id λ _. Saves-pure _)

perform-IsDurable : (w : World) (c : Call) (s : Scheduler) → IsDurable s → IsDurable (perform w c s)
unfolding perform
perform-IsDurable w (touch_run r) s h = (persist_run-Saves w r).at s h
perform-IsDurable w (new_run n) s h = (create_run-Saves w n).at s h
perform-IsDurable w (add r n) s h = (add_workitem-Saves w r n).at s h
perform-IsDurable w (gate i n) s h = (create_gate_check-Saves w i n).at s h
perform-IsDurable w (artifact i n) s h = (create_artifact-Saves w i n).at s h
perform-IsDurable w (run_artifact r n) s h = (create_run_artifact-Saves w r n).at s h
perform-IsDurable w (advance r) s h = (tick-Saves w r).at s h
perform-IsDurable w (start i) s h = (start_workitem-Saves w i).at s h
perform-IsDurable w (complete i b) s h = (complete_workitem-Saves w i b).at s h
perform-IsDurable w (approve i by) s h = (approve_workitem-Saves w i by).at s h
perform-IsDurable w (rewire i ids) s h = (update_workitem_dependencies-Saves w i ids).at s h
perform-IsDurable w (skip i reason) s h = (mark_workitem_skipped-Saves w i reason).at s h
perform-IsDurable w (ask i p) s h = (mark_needs_discussion-Saves w i p).at s h
perform-IsDurable w (answer i d r k) s h = (resolve_discussion-Saves w i d r k).at s h
perform-IsDurable w (interrupt r by reason all) s h = (interrupt_run-Saves w r by reason all).at s h
perform-IsDurable w (restart r by reason copy) s h = (restart_run-Saves w r by reason copy).at s h

-- Where the state store agrees with the memory, for a key that has an entity and for a key that
-- has none, on runs, items, discussions, gate checks and artifacts, it still does so after every
-- history of calls, also calls that fail, of the scheduler.
pub history-IsDurable :
    (w : World) (cs : List Call) (s : Scheduler) → IsDurable s → IsDurable (history w cs s)
unfolding history
history-IsDurable w [] s h = h
history-IsDurable w (c ∷ cs) s h =
    history-IsDurable w cs (perform w c s) (perform-IsDurable w c s h)
