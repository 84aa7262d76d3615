-- ===== src/Engine/Terminals.antt =====
-- The items that `derive_terminal_ids` gives, of which the engine takes the last without a test.
use wherecode.Prelude.{
  String, ◌≡◌, refl, sym, ap, eq_iff, eq_refl, ◌==◌, inl, inr, true, false, not, List, [], ◌∷◌,
  ◌++◌, All, map, keep, is_empty, contains, arith, Bool-cases,
}
use wherecode.Prelude.Select.{IsSelection, keep-IsSelection}
use mathlib.Core.List.{Memᴰ}
use mathlib.Core.List.Memᴰ.{head, tail}
use wherecode.Models.{WorkItem}
use wherecode.Engine.Helpers.{derive_terminal_ids, is_referenced, last_or_none}

-- A created item depends on the identifier.
pub record IsReferenced (created : List WorkItem) (id : String) : Type 0 where
  pub item : WorkItem
  pub member : Memᴰ item created
  pub depends : Memᴰ id item.depends_on

abbrev pub ids_of : List WorkItem → List String
ids_of created = map (λ (i : WorkItem). i.id) created

-- The terminal items: those that no created item depends on; the last one, where there are items and
-- each is depended on; none, where there are no items.
pub data IsTerminals (created : List WorkItem) : List String → Type 0 where
  unreferenced :
      (id : String) (ids : List String)
      → IsSelection (λ id. IsReferenced created id → ⊥) (ids_of created) (id ∷ ids)
      → IsTerminals created (id ∷ ids)
  cyclic :
      (front : List String) (id : String)
      → All (IsReferenced created) (ids_of created)
      → ids_of created ≡ front ++ id ∷ []
      → IsTerminals created (id ∷ [])
  nothing : created ≡ [] → IsTerminals created []

contains-Mem : (ids : List String) (id : String) → contains ids id ≡ true → Memᴰ id ids
contains-Mem [] id h = cc
contains-Mem (x ∷ xs) id h = elim (Bool-cases (x == id)) [
  | inl hit ↦ head (sym ((eq_iff x id).0 hit))
  | inr other ↦ tail (contains-Mem xs id (rw other at h))
]

Mem-contains : (ids : List String) (id : String) → Memᴰ id ids → contains ids id ≡ true
Mem-contains [] id m = elim m [ ]
Mem-contains (x ∷ xs) id (head e) = rw (← e) (rw (eq_refl id) refl)
Mem-contains (x ∷ xs) id (tail m) = ground (arith, Mem-contains xs id m)

is_referenced_sound :
    (created : List WorkItem) (id : String)
    → is_referenced created id ≡ true
    → IsReferenced created id
is_referenced_sound [] id h = cc
is_referenced_sound (i ∷ is) id h = elim (Bool-cases (contains i.depends_on id)) [
  | inl here ↦ record { item = i; member = head refl; depends = contains-Mem i.depends_on id here }
  | inr other ↦
      let k : IsReferenced is id = is_referenced_sound is id (rw other at h) in
      record { item = k.item; member = tail k.member; depends = k.depends }
]

is_referenced_complete :
    (created : List WorkItem) (item : WorkItem) (id : String)
    → Memᴰ item created
    → Memᴰ id item.depends_on
    → is_referenced created id ≡ true
is_referenced_complete [] item id m d = elim m [ ]
is_referenced_complete (i ∷ is) item id (head e) d =
    rw (← e) (rw (Mem-contains item.depends_on id d) refl)
is_referenced_complete (i ∷ is) item id (tail m) d =
    ground (arith, is_referenced_complete is item id m d)

unreferenced_of :
    (created : List WorkItem) (id : String)
    → not (is_referenced created id) ≡ true
    → IsReferenced created id
    → ⊥
unreferenced_of created id h k =
    ground (arith, h, is_referenced_complete created k.item id k.member k.depends)

-- Where no identifier is kept, each is referenced.
none-kept :
    (created : List WorkItem) (ids : List String)
    → is_empty (keep (λ id. not (is_referenced created id)) ids) ≡ true
    → All (IsReferenced created) ids
none-kept created [] h = tt
none-kept created (id ∷ ids) h = elim (Bool-cases (is_referenced created id)) [
  | inl yes_it_is ↦
      (is_referenced_sound created id yes_it_is, none-kept created ids (rw yes_it_is at h))
  | inr alone ↦ ground (arith, alone, h)
]

-- The last of a list that is not empty.
last-split :
    (x : String) (xs : List String)
    → (front : List String) × (id : String) × (x ∷ xs ≡ front ++ id ∷ [])
      × (last_or_none (x ∷ xs) ≡ id ∷ [])
last-split x [] = ([], x, refl, refl)
last-split x (y ∷ xs) =
    let (front, id, e, last) = last-split y xs in
    (x ∷ front, id, ap (λ (l : List String). x ∷ l) e, last)

last-IsTerminals :
    (created : List WorkItem)
    → All (IsReferenced created) (ids_of created)
    → IsTerminals created (last_or_none (ids_of created))
last-IsTerminals [] h = nothing refl
last-IsTerminals (i ∷ is) h =
    let (front, id, e, last) = last-split i.id (ids_of is) in rw last (cyclic front id h e)

kept-IsTerminals :
    (created : List WorkItem) (kept : List String)
    → is_empty kept ≡ false
    → IsSelection (λ id. IsReferenced created id → ⊥) (ids_of created) kept
    → IsTerminals created kept
kept-IsTerminals created [] h k = cc
kept-IsTerminals created (id ∷ ids) h k = unreferenced id ids k

-- The terminal items of a package are, in their order, the items that no item of it depends on. Where
-- each item is depended on, which a cycle brings about, the last item is the only terminal one; so
-- only a package without items has none.
pub derive_terminal_ids-IsTerminals :
    (created : List WorkItem) → IsTerminals created (derive_terminal_ids created)
unfolding derive_terminal_ids
derive_terminal_ids-IsTerminals created =
    let kept : List String = keep (λ id. not (is_referenced created id)) (ids_of created) in
    elim (Bool-cases (is_empty kept)) [
      | inl empty_kept ↦
          rw empty_kept (last-IsTerminals created (none-kept created (ids_of created) empty_kept))
      | inr some_kept ↦ rw some_kept (
          kept-IsTerminals created kept some_kept (
            keep-IsSelection _ (unreferenced_of created)
              (λ id h k. k (is_referenced_sound created id (ground (arith, h)))) (ids_of created)))
    ]
