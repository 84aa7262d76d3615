-- ===== src/Scheduler/Due.antt =====
-- `select_pending_ready_for_transition` as a filter, and what it selects.
use wherecode.Prelude.{
  String, ◌≡◌, refl, ◌⊎◌, inl, inr, all, Bool, true, false, ◌&&◌, Option, none, some, List, [], ◌∷◌,
  All, keep, is_some, arith, if◌then◌else◌, Option-cases, Bool-cases,
}
use wherecode.Prelude.Select.{IsSelection, keep-IsSelection}
use wherecode.Dict.{Dict, get}
use wherecode.Py.{returned}
use wherecode.Models.{WorkItem, WorkItemStatus, is_status, is_satisfied}
use wherecode.Scheduler.Dependencies.{
  select_next, select_pending_ready_for_transition, dependencies_satisfied, is_dependency_done,
}

-- The item of a key is pending, and its dependencies are done.
abbrev pub is_due_item : Dict WorkItem → Option WorkItem → Bool
is_due_item table none = false
is_due_item table (some item) =
    is_status item.status WorkItemStatus.pending && dependencies_satisfied item table

abbrev pub is_due : Dict WorkItem → String → Bool
is_due table id = is_due_item table (get table id)

select_next-keep :
    (table : Dict WorkItem) (id : String) (item : WorkItem) (rest : List String)
    → get table id ≡ some item
    → select_next table id item (returned rest)
      ≡ returned (if is_due table id then id ∷ rest else rest)
unfolding select_next
select_next-keep table id item rest found =
    rw found (elim (Bool-cases (is_status item.status WorkItemStatus.pending)) [
      | inr other ↦ rw other refl
      | inl waits ↦ rw waits (elim (Bool-cases (dependencies_satisfied item table)) [
        | inl done ↦ rw done refl
        | inr unmet ↦ rw unmet refl
      ])
    ])

pub select_pending_ready_for_transition-keep :
    (ids : List String) (table : Dict WorkItem)
    → All (λ id. is_some (get table id) ≡ true) ids
    → select_pending_ready_for_transition ids table ≡ returned (keep (is_due table) ids)
unfolding select_pending_ready_for_transition
select_pending_ready_for_transition-keep [] table known = refl
select_pending_ready_for_transition-keep (id ∷ ids) table known =
    elim (Option-cases (get table id)) [
      | inl absent ↦ ground (arith, known.0, absent)
      | inr (item, found) ↦
          rw (found, select_pending_ready_for_transition)
            (rw (select_pending_ready_for_transition-keep ids table known.1)
              (rw (select_next-keep table id item (keep (is_due table) ids) found) (rw found refl)))
    ]

-- The dependency has an item, which succeeded or was skipped.
abbrev pub IsMet : Dict WorkItem → String → Type 0
IsMet table id =
    (dependency : WorkItem) × (get table id ≡ some dependency)
    × ((dependency.status ≡ WorkItemStatus.succeeded)
        ⊎ (dependency.status ≡ WorkItemStatus.skipped))

-- The key has an item, which is pending, and each of its dependencies is met.
pub record IsDue (table : Dict WorkItem) (id : String) : Type 0 where
  pub item : WorkItem
  pub found : get table id ≡ some item
  pub waits : item.status ≡ WorkItemStatus.pending
  pub met : All (IsMet table) item.depends_on

satisfied-cases :
    (status : WorkItemStatus)
    → is_satisfied status ≡ true
    → (status ≡ WorkItemStatus.succeeded) ⊎ (status ≡ WorkItemStatus.skipped)
satisfied-cases WorkItemStatus.succeeded h = inl refl
satisfied-cases WorkItemStatus.skipped h = inr refl
satisfied-cases _ h = cc

done-IsMet :
    (table : Dict WorkItem) (id : String) → is_dependency_done table id ≡ true → IsMet table id
done-IsMet table id h = elim (Option-cases (get table id)) [
  | inl absent ↦ ground (arith, absent, h)
  | inr (d, found) ↦ (d, found, satisfied-cases d.status (rw (is_dependency_done, found) at h))
]

IsMet-done :
    (table : Dict WorkItem) (id : String) → IsMet table id → is_dependency_done table id ≡ true
IsMet-done table id (d, found, inl e) = rw (is_dependency_done, found) (rw e refl)
IsMet-done table id (d, found, inr e) = rw (is_dependency_done, found) (rw e refl)

all-IsMet :
    (table : Dict WorkItem) (ids : List String)
    → all (is_dependency_done table) ids ≡ true
    → All (IsMet table) ids
all-IsMet table [] h = tt
all-IsMet table (id ∷ ids) h = elim (Bool-cases (is_dependency_done table id)) [
  | inl done ↦ (done-IsMet table id done, all-IsMet table ids (rw done at h))
  | inr unmet ↦ ground (arith, unmet, h)
]

IsMet-all :
    (table : Dict WorkItem) (ids : List String)
    → All (IsMet table) ids
    → all (is_dependency_done table) ids ≡ true
IsMet-all table [] h = refl
IsMet-all table (id ∷ ids) (h, hs) = rw (IsMet-done table id h) (IsMet-all table ids hs)

pending_of :
    (s : WorkItemStatus) → is_status s WorkItemStatus.pending ≡ true → s ≡ WorkItemStatus.pending
pending_of s h = ground arith

is_due_sound : (table : Dict WorkItem) (id : String) → is_due table id ≡ true → IsDue table id
unfolding dependencies_satisfied
is_due_sound table id h = elim (Option-cases (get table id)) [
  | inl absent ↦ ground (arith, absent, h)
  | inr (item, found) ↦
      let both : is_due_item table (some item) ≡ true = rw found at h in
      record {
        item = item;
        found = found;
        waits = pending_of item.status (ground (arith, both));
        met = all-IsMet table item.depends_on (ground (arith, both));
      }
]

is_due_complete : (table : Dict WorkItem) (id : String) → IsDue table id → is_due table id ≡ true
unfolding dependencies_satisfied
is_due_complete table id h = rw h.found (rw h.waits (IsMet-all table h.item.depends_on h.met))

-- For keys that all have an item, the selection returns, and it returns, in their order, the keys of
-- the items that are pending and each of whose dependencies has an item that succeeded or was
-- skipped, and no others.
pub select_pending_ready_for_transition-IsSelection :
    (ids : List String) (table : Dict WorkItem)
    → All (λ id. is_some (get table id) ≡ true) ids
    → (chosen : List String) × (select_pending_ready_for_transition ids table ≡ returned chosen)
      × IsSelection (IsDue table) ids chosen
select_pending_ready_for_transition-IsSelection ids table known = (
  keep (is_due table) ids,
  select_pending_ready_for_transition-keep ids table known,
  keep-IsSelection (is_due table) (is_due_sound table)
      (λ id unmet h. ground (arith, unmet, is_due_complete table id h)) ids,
)
