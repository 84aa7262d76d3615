-- ===== src/Scheduler/Progress.antt =====
-- A run whose items depend on earlier items does not come to a standstill while an item is pending
-- and no other is under way.
use wherecode.Prelude.{
  String, ◌≡◌, refl, inl, inr, ◌==◌, eq_iff, Bool, true, false, ◌||◌, List, [], ◌∷◌, All, any, all,
  keep, contains, is_some, some, Bool-cases,
}
use wherecode.Dict.{Dict, get}
use wherecode.Py.{returned}
use wherecode.Models.{WorkItem, WorkItemStatus, is_status, is_satisfied}
use wherecode.Scheduler.Dependencies.{
  select_pending_ready_for_transition, dependencies_satisfied, is_dependency_done,
}
use wherecode.Scheduler.Due.{is_due, select_pending_ready_for_transition-keep}

-- Each dependency is done or stands among the earlier items.
abbrev pub LooksBack : Dict WorkItem → List String → WorkItem → Type 0
LooksBack table earlier item =
    All (λ d. (contains earlier d || is_dependency_done table d) ≡ true) item.depends_on

-- Each item of the list is there, is pending or done, and depends on earlier items of the list or on
-- items that are done.
abbrev pub IsOrdered : Dict WorkItem → List String → List String → Type 0
IsOrdered table earlier [] = Unit
IsOrdered table earlier (id ∷ ids) =
    ((item : WorkItem) × (get table id ≡ some item)
      × ((is_status item.status WorkItemStatus.pending || is_satisfied item.status) ≡ true)
      × LooksBack table earlier item)
    × IsOrdered table (id ∷ earlier) ids

abbrev pub is_pending_key : Dict WorkItem → String → Bool
is_pending_key table id = elim (get table id) [
  | some item ↦ is_status item.status WorkItemStatus.pending
  | _ ↦ false
]

known :
    (table : Dict WorkItem) (earlier ids : List String)
    → IsOrdered table earlier ids
    → All (λ id. is_some (get table id) ≡ true) ids
known table earlier [] h = tt
known table earlier (id ∷ ids) ((item, found, open_or_done, back), rest) =
    (rw found refl, known table (id ∷ earlier) ids rest)

done_of :
    (table : Dict WorkItem) (earlier : List String) (d : String)
    → All (λ e. is_dependency_done table e ≡ true) earlier
    → (contains earlier d || is_dependency_done table d) ≡ true
    → is_dependency_done table d ≡ true
done_of table [] d h k = k
done_of table (e ∷ earlier) d (h, hs) k = elim (Bool-cases (e == d)) [
  | inl hit ↦ rw (← (eq_iff e d).0 hit) h
  | inr other ↦ done_of table earlier d hs (rw other at k)
]

all_done :
    (table : Dict WorkItem) (earlier deps : List String)
    → All (λ e. is_dependency_done table e ≡ true) earlier
    → All (λ d. (contains earlier d || is_dependency_done table d) ≡ true) deps
    → all (is_dependency_done table) deps ≡ true
all_done table earlier [] h k = refl
all_done table earlier (d ∷ deps) h (k, ks) =
    rw (done_of table earlier d h k) (all_done table earlier deps h ks)

first_due :
    (table : Dict WorkItem) (earlier ids : List String)
    → All (λ e. is_dependency_done table e ≡ true) earlier
    → IsOrdered table earlier ids
    → any (is_pending_key table) ids ≡ true
    → (id : String) × (rest : List String) × (keep (is_due table) ids ≡ id ∷ rest)
unfolding dependencies_satisfied
first_due table earlier [] h k waits = cc
first_due table earlier (id ∷ ids) h ((item, found, known_status, back), rest) waits =
    elim (Bool-cases (is_status item.status WorkItemStatus.pending)) [
      | inl pending ↦ (
        id,
        keep (is_due table) ids,
        rw found (rw pending (rw (all_done table earlier item.depends_on h back) refl)),
      )
      | inr other ↦
          let done : is_dependency_done table id ≡ true =
            rw (found, is_dependency_done) (rw other at known_status) in
          let (j, more, e) =
            first_due table (id ∷ earlier) ids (done, h) rest
              (rw (found, is_pending_key, other) at waits) in
          (j, more, rw found (rw other e))
    ]

-- Where each item of a run is pending or done, and depends on earlier items of the run or on items
-- that are done, and some item is pending, the selection of tick returns at least one item.
pub select_pending_ready_for_transition-progress :
    (ids : List String) (table : Dict WorkItem)
    → IsOrdered table [] ids
    → any (is_pending_key table) ids ≡ true
    → (id : String) × (rest : List String) × (select_pending_ready_for_transition ids table
        ≡ returned (id ∷ rest))
select_pending_ready_for_transition-progress ids table ordered waits =
    let (id, rest, e) = first_due table [] ids tt ordered waits in
    (
      id,
      rest,
      rw (select_pending_ready_for_transition-keep ids table (known table [] ids ordered))
          (rw e refl),
    )
