-- ===== src/Scheduler/Samples/Waiting.antt =====
-- The theorem about the selection of tick at two items, the second of which waits for the first.
use wherecode.Prelude.{String, ◌≡◌, refl, true, List, [], ◌∷◌, any}
use wherecode.Dict.{Dict, get}
use wherecode.Py.{returned}
use wherecode.Models.{WorkItem}
use wherecode.Scheduler.Dependencies.{select_pending_ready_for_transition}
use wherecode.Scheduler.Progress.{
  IsOrdered, is_pending_key, select_pending_ready_for_transition-progress,
}
use wherecode.Scheduler.Samples.{first_item}

abbrev second_item : WorkItem
second_item = record first_item { id = "wiii"; depends_on = "wii" ∷ [] }

abbrev two_items : Dict WorkItem
two_items = ("wii", first_item) ∷ ("wiii", second_item) ∷ []

two_items-IsOrdered : IsOrdered two_items [] ("wii" ∷ "wiii" ∷ [])
unfolding get
two_items-IsOrdered = ((first_item, refl, refl, tt), ((second_item, refl, refl, (refl, tt)), tt))

first_waits : any (is_pending_key two_items) ("wii" ∷ "wiii" ∷ []) ≡ true
unfolding get
first_waits = refl

select_pending_ready_for_transition-progress_example :
    (id : String) × (rest : List String) × (select_pending_ready_for_transition
        ("wii" ∷ "wiii" ∷ [])
        two_items
      ≡ returned (id ∷ rest))
select_pending_ready_for_transition-progress_example =
    select_pending_ready_for_transition-progress ("wii" ∷ "wiii" ∷ []) two_items two_items-IsOrdered
      first_waits
