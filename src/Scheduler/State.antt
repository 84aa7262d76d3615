-- ===== src/Scheduler/State.antt =====
-- The fields of WorkflowScheduler, the state store behind it, and the primitive actions that its
-- methods are made of. A work item or a run is referenced by its key: `_workitems[key]` is the
-- one object that every list and every caller shares, so a method that assigns to attributes of
-- an item is `modify_workitem`.
use wherecode.Prelude.{◌≡◌, ℕ, suc, String, Option, none, some, List, [], ◌∷◌, ◌++◌}
use wherecode.Dict.{Dict, get, put, modify, get_list}
use wherecode.Py.{
  Py, Error, Outcome, returned, raised, ◌>>◌, reads, assign, run_not_found, workitem_not_found,
  missing_key,
}
use wherecode.Models.{WorkflowRun, WorkItem, DiscussionSession, GateCheck, Artifact}

-- The clock and the identifiers, as the program meets them: the result of the n-th call of
-- `now_utc` and of the n-th call of `new_id` with a prefix.
pub record World : Type 0 where
  pub now : ℕ → ℕ
  pub new_id : String → ℕ → String

-- `uuid4` gives no identifier twice.
abbrev pub IsUnique : World → Type 0
IsUnique w = (prefix : String) (m n : ℕ) → w.new_id prefix m ≡ w.new_id prefix n → m ≡ n

-- The rows of SQLiteStateStore, a table for each entity type.
pub record Store : Type 0 where
  pub workflow_run : Dict WorkflowRun
  pub workitem : Dict WorkItem
  pub discussion_session : Dict DiscussionSession
  pub gate_check : Dict GateCheck
  pub artifact : Dict Artifact

pub record Scheduler : Type 0 where
  pub runs : Dict WorkflowRun
  pub workitems : Dict WorkItem
  pub run_workitems : Dict (List String)
  pub workitem_run : Dict String
  pub discussions : Dict DiscussionSession
  pub workitem_discussions : Dict (List String)
  pub gate_checks : Dict GateCheck
  pub run_gate_checks : Dict (List String)
  pub workitem_gate_checks : Dict (List String)
  pub artifacts : Dict Artifact
  pub run_artifacts : Dict (List String)
  pub workitem_artifacts : Dict (List String)
  pub state_store : Option Store
  pub clock_reads : ℕ
  pub issued_ids : ℕ

abbrev pub Method : Type 0 → Type 0
Method A = Py Scheduler A

-- `d[k].append(v)` of a defaultdict(list)
abbrev pub append_to : Dict (List String) → String → String → Dict (List String)
append_to d k v = put d k (get_list d k ++ v ∷ [])

abbrev or_raise : {A : Type 0} → Option A → Error → Outcome A
or_raise none e = raised e
or_raise (some a) e = returned a

unfoldable pub get_run : String → Method WorkflowRun
unfolding reads
get_run run_id = reads (λ s. or_raise (get s.runs run_id) (run_not_found run_id))

unfoldable pub get_workitem : String → Method WorkItem
unfolding reads
get_workitem workitem_id =
    reads (λ s. or_raise (get s.workitems workitem_id) (workitem_not_found workitem_id))

-- self._workitem_run[workitem_id]
unfoldable pub run_id_of : String → Method String
unfolding reads
run_id_of workitem_id =
    reads (λ s. or_raise (get s.workitem_run workitem_id) (missing_key workitem_id))

unfoldable pub now_utc : World → Method ℕ
now_utc w s = (returned (w.now s.clock_reads), record s { clock_reads = suc s.clock_reads })

unfoldable pub fresh_id : World → String → Method String
fresh_id w prefix s =
    (returned (w.new_id prefix s.issued_ids), record s { issued_ids = suc s.issued_ids })

-- Assignments to attributes of the work item, and of the run, under a key.
unfoldable pub modify_workitem : String → (WorkItem → WorkItem) → Method Unit
unfolding assign
modify_workitem id f = assign (λ s. record s { workitems = modify s.workitems id f })

unfoldable pub modify_run : String → (WorkflowRun → WorkflowRun) → Method Unit
unfolding assign
modify_run id f = assign (λ s. record s { runs = modify s.runs id f })

-- SQLiteStateStore.upsert of the object under a key; nothing without a store.
abbrev pub upsert_from : {A : Type 0} → Dict A → String → Dict A → Dict A
upsert_from memory id rows = elim (get memory id) [ none ↦ rows | some a ↦ put rows id a ]

abbrev pub on_store : (Store → Store) → Option Store → Option Store
on_store f none = none
on_store f (some store) = some (f store)

unfoldable pub persist_run_row : String → Method Unit
unfolding assign
persist_run_row id = assign λ s. record s {
  state_store =
      on_store (λ d. record d { workflow_run = upsert_from s.runs id d.workflow_run })
        s.state_store;
}

unfoldable pub persist_workitem : String → Method Unit
unfolding assign
persist_workitem id = assign λ s. record s {
  state_store =
      on_store (λ d. record d { workitem = upsert_from s.workitems id d.workitem }) s.state_store;
}

unfoldable pub persist_discussion : String → Method Unit
unfolding assign
persist_discussion id = assign λ s. record s {
  state_store =
      on_store
        (λ d. record d { discussion_session = upsert_from s.discussions id d.discussion_session })
        s.state_store;
}

unfoldable pub persist_gate : String → Method Unit
unfolding assign
persist_gate id = assign λ s. record s {
  state_store =
      on_store (λ d. record d { gate_check = upsert_from s.gate_checks id d.gate_check })
        s.state_store;
}

unfoldable pub persist_artifact : String → Method Unit
unfolding assign
persist_artifact id = assign λ s. record s {
  state_store =
      on_store (λ d. record d { artifact = upsert_from s.artifacts id d.artifact }) s.state_store;
}

-- [table[id] for id in ids]
abbrev pub deref_all : {A : Type 0} → Dict A → List String → Outcome (List A)
deref_all table [] = returned []
deref_all table (id ∷ ids) = elim (get table id) [
  | none ↦ raised (missing_key id)
  | some a ↦ elim (deref_all table ids) [ returned l ↦ returned (a ∷ l) | raised e ↦ raised e ]
]

unfoldable pub list_workitems : String → Method (List WorkItem)
list_workitems run_id = do
  get_run run_id
  reads (λ s. deref_all s.workitems (get_list s.run_workitems run_id))

unfoldable pub list_discussions : String → Method (List DiscussionSession)
list_discussions workitem_id = do
  get_workitem workitem_id
  reads (λ s. deref_all s.discussions (get_list s.workitem_discussions workitem_id))

unfoldable pub list_gate_checks : String → Method (List GateCheck)
list_gate_checks run_id = do
  get_run run_id
  reads (λ s. deref_all s.gate_checks (get_list s.run_gate_checks run_id))

unfoldable pub list_artifacts : String → Method (List Artifact)
list_artifacts run_id = do
  get_run run_id
  reads (λ s. deref_all s.artifacts (get_list s.run_artifacts run_id))
