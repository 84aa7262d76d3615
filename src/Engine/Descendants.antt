-- ===== src/Engine/Descendants.antt =====
-- The search for the descendants of a failed item: that its loop ends, and what it finds.
use wherecode.Prelude.{
  ℕ, zero, suc, ◌+◌, ◌≤◌, String, eq_refl, ◌≡◌, ap, refl, ◌⊎◌, inl, inr, true, false, not, Option,
  some, List, [], ◌∷◌, ◌++◌, All, keep, contains, length, arith, Bool-cases,
}
use mathlib.Core.List.{Memᴰ}
use mathlib.Core.List.Memᴰ.{head, tail}
use wherecode.Models.{WorkItem}
use wherecode.Engine.Helpers.{
  Search, follows, visit, visit_item, visit_each, search_on, start_search, find_module_descendants,
}

-- the number of items that the search has not visited
abbrev unvisited : List String → List WorkItem → ℕ
unvisited visited items = length (keep (λ (i : WorkItem). not (contains visited i.id)) items)

unvisited-fewer :
    (x : String) (visited : List String) (items : List WorkItem)
    → unvisited (x ∷ visited) items ≤ unvisited visited items
unvisited-fewer x visited [] = omega arith
unvisited-fewer x visited (i ∷ is) = ground (arith, unvisited-fewer x visited is)

unvisited-visit :
    (item : WorkItem) (visited : List String) (items : List WorkItem)
    → Memᴰ item items
    → contains visited item.id ≡ false
    → suc (unvisited (item.id ∷ visited) items) ≤ unvisited visited items
unvisited-visit item visited [] m h = elim m [ ]
unvisited-visit item visited (i ∷ is) (head e) h =
    rw (← e) (rw (h, eq_refl) (ground (arith, unvisited-fewer item.id visited is)))
unvisited-visit item visited (i ∷ is) (tail m) h =
    ground (arith, unvisited-visit item visited is m h)

unvisited-all : (items : List WorkItem) → suc (unvisited [] items) ≤ suc (length items)
unvisited-all [] = omega arith
unvisited-all (i ∷ is) = ground (arith, unvisited-all is)

List-cases : {A : Type 0} (l : List A) → (l ≡ []) ⊎ ((x : A) × (xs : List A) × (l ≡ x ∷ xs))
List-cases [] = inl refl
List-cases (x ∷ xs) = inr (x, xs, refl)

module _ (target_module : Option String) (run_items : List WorkItem) (root_id : String) where
  -- The identifiers that a chain of dependencies connects with the root, through unfinished items
  -- of the module.
  pub data Reached : String → Type 0 where
    root : Reached root_id
    step :
        {current : String} (item : WorkItem)
        → Reached current
        → Memᴰ item run_items
        → follows current target_module item ≡ true
        → Reached item.id

  -- The item is one of the run, and follows an identifier that is reached.
  pub record IsDescendant (item : WorkItem) : Type 0 where
    pub parent : String
    pub reached : Reached parent
    pub member : Memᴰ item run_items
    pub next : follows parent target_module item ≡ true

  -- What holds throughout the search; `n` bounds the rounds that are left.
  record IsOnTrack (n : ℕ) (st : Search) : Type 0 where
    pub rounds : length st.frontier + unvisited st.visited run_items ≤ n
    pub frontier : All Reached st.frontier
    pub found : All IsDescendant st.descendants

  found-append :
      (xs : List WorkItem) (item : WorkItem)
      → All IsDescendant xs
      → IsDescendant item
      → All IsDescendant (xs ++ item ∷ [])
  found-append [] item h k = (k, tt)
  found-append (x ∷ xs) item h k = (h.0, found-append xs item h.1 k)

  visit-IsOnTrack :
      (n : ℕ) (current : String) (item : WorkItem) (st : Search)
      → Reached current
      → Memᴰ item run_items
      → contains st.visited item.id ≡ false
      → follows current target_module item ≡ true
      → IsOnTrack n st
      → IsOnTrack n (visit item st)
  visit-IsOnTrack n current item st r m new f h = record {
    rounds = omega (arith, unvisited-visit item st.visited run_items m new, h.rounds);
    frontier = (step item r m f, h.frontier);
    found =
        found-append st.descendants item h.found
          (record { parent = current; reached = r; member = m; next = f });
  }

  visit_item-IsOnTrack :
      (n : ℕ) (current : String) (item : WorkItem) (st : Search)
      → Reached current
      → Memᴰ item run_items
      → IsOnTrack n st
      → IsOnTrack n (visit_item current target_module item st)
  unfolding visit_item
  visit_item-IsOnTrack n current item st r m h = elim (Bool-cases (contains st.visited item.id)) [
    | inl seen ↦ rw seen h
    | inr new ↦ elim (Bool-cases (follows current target_module item)) [
      | inr other ↦ rw (new, other) h
      | inl f ↦ rw (new, f) (visit-IsOnTrack n current item st r m new f h)
    ]
  ]

  visit_each-IsOnTrack :
      (n : ℕ) (current : String) (items : List WorkItem) (st : Search)
      → Reached current
      → ((item : WorkItem) → Memᴰ item items → Memᴰ item run_items)
      → IsOnTrack n st
      → IsOnTrack n (visit_each current target_module items st)
  unfolding visit_each
  visit_each-IsOnTrack n current [] st r sub h = h
  visit_each-IsOnTrack n current (i ∷ is) st r sub h =
      visit_each-IsOnTrack n current is _ r (λ j m. sub j (tail m))
        (visit_item-IsOnTrack n current i st r (sub i (head refl)) h)

  search_on-IsOnTrack :
      (n : ℕ) (st : Search)
      → IsOnTrack n st
      → (end : Search) × (search_on n target_module run_items st ≡ some end)
        × All IsDescendant end.descendants
  unfolding search_on
  search_on-IsOnTrack zero st h = elim (List-cases st.frontier) [
    | inl e ↦ (st, simp (e, search_on), h.found)
    | inr (current, rest, e) ↦ absurd (omega (arith, ap length e, h.rounds))
  ]
  search_on-IsOnTrack (suc n) st h = elim (List-cases st.frontier) [
    | inl e ↦ (st, simp (e, search_on), h.found)
    | inr (current, rest, e) ↦
        let frontier : All Reached (current ∷ rest) = rw e at h.frontier in
        let popped : IsOnTrack n (record st { frontier = rest }) = record {
          rounds = omega (arith, ap length e, h.rounds);
          frontier = frontier.1;
          found = h.found;
        } in
        let end = search_on-IsOnTrack n _ (
          visit_each-IsOnTrack n current run_items (record st { frontier = rest }) frontier.0
            (λ j m. m) popped) in
        (end.0, rw (e, search_on) end.1, end.2)
  ]

-- The search of the descendants of a failed item ends within its bound, one round for the failed
-- item and one for each item of the run, and every item that it returns is an unfinished item of
-- the run in the module of the failed item, and depends on the failed item or on another item that
-- is reached from it in this way.
pub find_module_descendants-IsDescendant :
    (run_items : List WorkItem) (failed_workitem : WorkItem)
    → (end : Search) × (find_module_descendants run_items failed_workitem ≡ some end)
      × All (IsDescendant failed_workitem.module_key run_items failed_workitem.id) end.descendants
unfolding find_module_descendants
find_module_descendants-IsDescendant run_items failed_workitem =
    search_on-IsOnTrack failed_workitem.module_key run_items failed_workitem.id
      (suc (length run_items)) (start_search failed_workitem)
      (record {
        rounds = omega (arith, unvisited-all run_items);
        frontier = (root, tt);
        found = tt;
      })
