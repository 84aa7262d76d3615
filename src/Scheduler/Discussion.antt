-- ===== src/Scheduler/Discussion.antt =====
-- control_center/services/workflow_scheduler_discussion.py, with `_save_discussion` and
-- `_get_open_discussion` of workflow_scheduler.py.
use wherecode.Prelude.{
  ℕ, suc, ◌+◌, ◌*◌, String, Bool, true, false, not, ◌==◌, ◌&&◌, Option, none, some, List, [], ◌∷◌,
  ◌++◌, reverse, is_empty, ltb, contains, or_else, if◌then◌else◌,
}
use wherecode.Text.{is_truthy}
use wherecode.Dict.{put, get, modify}
use wherecode.Value.{Metadata, boolean, text, array, text_items, texts_of, nil}
use wherecode.Py.{
  Outcome, returned, raised, ◌>>=◌, ◌>>◌, pure, reads, guard, assign, invalid_model, not_executable,
  not_waiting_discussion, no_discussion, discussion_not_found, discussion_not_open,
  no_open_discussion, not_iterable,
}
use wherecode.Models.{
  WorkItem, WorkItemStatus, DiscussionSession, DiscussionStatus, is_status, is_executable, is_open,
  accepts_session,
}
use wherecode.Scheduler.State.{
  World, Method, append_to, get_run, get_workitem, run_id_of, now_utc, fresh_id, modify_workitem,
  persist_workitem, persist_discussion, list_discussions,
}
use wherecode.Scheduler.Items.{refresh_run_status}

pub record Prompt : Type 0 where
  pub question : String
  pub options : Option (List String)
  pub recommendation : Option String
  pub impact : Option String
  pub fingerprint : Option String

-- [value for value in metadata.get("discussion_fingerprints", []) if isinstance(value, str)]
unfoldable pub known_fingerprints : Metadata → Outcome (List String)
known_fingerprints metadata =
    elim (texts_of (or_else (get metadata "discussion_fingerprints") (array nil))) [
      | none ↦ raised not_iterable
      | some l ↦ returned l
    ]

-- fingerprint and fingerprint in fingerprints
abbrev pub is_repeated : Option String → List String → Bool
is_repeated none fingerprints = false
is_repeated (some f) fingerprints = is_truthy f && contains fingerprints f

-- if fingerprint: fingerprints.append(fingerprint)
abbrev pub with_fingerprint : Option String → List String → List String
with_fingerprint none fingerprints = fingerprints
with_fingerprint (some f) fingerprints =
    if is_truthy f then fingerprints ++ f ∷ [] else fingerprints

-- self._get_open_discussion, for a discussion id that is given
abbrev chosen_session : String → String → Option DiscussionSession → Outcome DiscussionSession
chosen_session workitem_id discussion_id none = raised (discussion_not_found discussion_id)
chosen_session workitem_id discussion_id (some session) =
    if not (session.workitem_id == workitem_id)
    then raised (discussion_not_found discussion_id)
    else if not (is_open session.status)
    then raised (discussion_not_open discussion_id)
    else returned session

-- the first open session of a list
unfoldable pub first_open : String → List DiscussionSession → Outcome DiscussionSession
first_open workitem_id [] = raised (no_open_discussion workitem_id)
first_open workitem_id (session ∷ rest) =
    if is_open session.status then returned session else first_open workitem_id rest

unfoldable pub get_open_discussion : String → Option String → Method DiscussionSession
get_open_discussion workitem_id discussion_id = do
  sessions ← list_discussions workitem_id
  guard (not (is_empty sessions)) (no_discussion workitem_id)
  reads λ s. elim discussion_id [
    | some d ↦ chosen_session workitem_id d (get s.discussions d)
    | none ↦ first_open workitem_id (reverse sessions)
  ]

unfoldable pub save_discussion : DiscussionSession → Method Unit
save_discussion session = do
  assign λ s. record s {
    discussions = put s.discussions session.id session;
    workitem_discussions = append_to s.workitem_discussions session.workitem_id session.id;
  }
  persist_discussion session.id

-- timedelta(seconds=n), in microseconds
abbrev pub seconds : ℕ → ℕ
seconds n = 1000000 * n

unfoldable pub modify_discussion : String → (DiscussionSession → DiscussionSession) → Method Unit
unfolding assign
modify_discussion id f = assign (λ s. record s { discussions = modify s.discussions id f })

-- DiscussionSession(...) for a work item
abbrev pub built_session :
    WorkItem → DiscussionStatus → ℕ → Prompt → String → ℕ → ℕ → DiscussionSession
built_session item status round prompt id created_at updated_at = record {
  id = id;
  workflow_run_id = item.workflow_run_id;
  workitem_id = item.id;
  status = status;
  question = prompt.question;
  options = or_else prompt.options [];
  recommendation = prompt.recommendation;
  impact = prompt.impact;
  decision = none;
  round = round;
  budget = item.discussion_budget;
  fingerprint = prompt.fingerprint;
  opened_by_role = item.role;
  resolved_by_role = none;
  created_at = created_at;
  updated_at = updated_at;
}

module _ (w : World) where
  -- the constructor call, with its validation
  unfoldable pub new_session : WorkItem → DiscussionStatus → ℕ → Prompt → Method DiscussionSession
  new_session item status round prompt = do
    id ← fresh_id w "disc"
    created_at ← now_utc w
    updated_at ← now_utc w
    let session : DiscussionSession =
        built_session item status round prompt id created_at updated_at
    guard (accepts_session session) (invalid_model "DiscussionSession")
    pure session

  -- scheduler._refresh_run_status(scheduler.get_run(scheduler._workitem_run[workitem_id]))
  unfoldable pub refresh_run_of : String → Method Unit
  refresh_run_of workitem_id = do
    run_id ← run_id_of workitem_id
    run ← get_run run_id
    refresh_run_status w run.id

  -- The two branches that end in an EXHAUSTED session.
  unfoldable pub fail_discussion : WorkItem → String → String → Prompt → Method DiscussionSession
  fail_discussion item workitem_id problem prompt = do
    now ← now_utc w
    modify_workitem workitem_id λ i. record i {
      status = WorkItemStatus.failed;
      updated_at = now;
      metadata = put i.metadata "discussion_error" (text problem);
    }
    persist_workitem workitem_id
    session ← new_session item DiscussionStatus.exhausted (suc item.discussion_used) prompt
    save_discussion session
    refresh_run_of workitem_id
    pure session

  -- The last branch: the item waits for the discussion.
  unfoldable pub open_discussion :
      WorkItem → String → List String → Prompt → Method DiscussionSession
  open_discussion item workitem_id fingerprints prompt = do
    now ← now_utc w
    modify_workitem workitem_id λ i. record i {
      discussion_used = suc item.discussion_used;
      status = WorkItemStatus.needs_discussion;
      updated_at = now;
      metadata =
          put i.metadata "discussion_fingerprints"
            (array (text_items (with_fingerprint prompt.fingerprint fingerprints)));
    }
    persist_workitem workitem_id
    session ← new_session item DiscussionStatus.opened (suc item.discussion_used) prompt
    save_discussion session
    refresh_run_of workitem_id
    pure session

  unfoldable pub mark_needs_discussion : String → Prompt → Method DiscussionSession
  mark_needs_discussion workitem_id prompt = do
    item ← get_workitem workitem_id
    guard (is_executable item.status) (not_executable workitem_id)
    if ltb item.discussion_budget (suc item.discussion_used)
        then fail_discussion item workitem_id "discussion_budget_exhausted" prompt
        else do
          fingerprints ← reads (λ s. known_fingerprints item.metadata)
          if is_repeated prompt.fingerprint fingerprints
              then fail_discussion item workitem_id "discussion_loop_detected" prompt
              else open_discussion item workitem_id fingerprints prompt

  -- the branch of `resolve_discussion` past the deadline
  unfoldable pub time_out_discussion : String → DiscussionSession → ℕ → Method DiscussionSession
  time_out_discussion workitem_id session now = do
    modify_discussion session.id
        (λ d. record d { status = DiscussionStatus.timeout; updated_at = now })
    modify_workitem workitem_id λ i. record i {
      status = WorkItemStatus.failed;
      updated_at = now;
      metadata = put i.metadata "discussion_error" (text "discussion_timeout");
    }
    persist_discussion session.id
    persist_workitem workitem_id
    refresh_run_of workitem_id
    pure (record session { status = DiscussionStatus.timeout; updated_at = now })

  -- the branch of `resolve_discussion` that takes the decision
  unfoldable pub settle_discussion :
      String → DiscussionSession → ℕ → String → String → Method DiscussionSession
  settle_discussion workitem_id session now decision resolved_by_role = do
    let settled : DiscussionSession = record session {
      status = DiscussionStatus.resolved;
      decision = some decision;
      resolved_by_role = some resolved_by_role;
      updated_at = now;
    }
    modify_discussion session.id (λ d. settled)
    modify_workitem workitem_id λ i. record i {
      status = WorkItemStatus.ready;
      updated_at = now;
      metadata =
          put
            (put (put i.metadata "discussion_decision" (text decision)) "discussion_resolved_by"
              (text resolved_by_role))
            "discussion_resolved" (boolean true);
    }
    persist_discussion session.id
    persist_workitem workitem_id
    refresh_run_of workitem_id
    pure settled

  unfoldable pub resolve_discussion :
      String → String → String → Option String → Method DiscussionSession
  resolve_discussion workitem_id decision resolved_by_role discussion_id = do
    item ← get_workitem workitem_id
    guard (is_status item.status WorkItemStatus.needs_discussion)
        (not_waiting_discussion workitem_id)
    session ← get_open_discussion workitem_id discussion_id
    now ← now_utc w
    if ltb (session.created_at + seconds item.discussion_timeout_seconds) now
        then time_out_discussion workitem_id session now
        else settle_discussion workitem_id session now decision resolved_by_role
