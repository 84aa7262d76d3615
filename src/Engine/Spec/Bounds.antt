-- ===== src/Engine/Spec/Bounds.antt =====
-- What the specification of a task package item always satisfies.
use wherecode.Prelude.{
  ◌≤◌, String, ◌≡◌, refl, subst, inl, inr, ◌==◌, eq_iff, true, false, Option, none, some, List, [],
  ◌∷◌, ◌++◌, contains, is_distinct, arith, All, Bool-cases,
}
use wherecode.Text.{strip, is_truthy}
use wherecode.Value.{Value, null, boolean, number, text, array, object, Items, nil, cons, Fields}
use wherecode.Py.{returned}
use wherecode.Engine.State.{Setting, get_field}
use wherecode.Engine.Spec.{
  ItemSpec, add_word, normalized_priority, collect_words, normalize_depends_on_roles,
  build_task_package_item_spec, str,
}

-- A role, a priority between 1 and 5, and distinct roles to depend on; none of the roles is empty.
pub record IsUsable (spec : ItemSpec) : Type 0 where
  pub role : is_truthy spec.role ≡ true
  pub at_least : 1 ≤ spec.priority
  pub at_most : spec.priority ≤ 5
  pub distinct : is_distinct spec.depends_on_roles ≡ true
  pub filled : All (λ t. is_truthy t ≡ true) spec.depends_on_roles

normalized_priority_bounds :
    (v : Option Value) → (1 ≤ normalized_priority v) × (normalized_priority v ≤ 5)
unfolding normalized_priority
normalized_priority_bounds none = omega arith
normalized_priority_bounds (some (number n)) = ground arith
normalized_priority_bounds (some (boolean true)) = omega arith
normalized_priority_bounds (some (boolean false)) = omega arith
normalized_priority_bounds (some null) = omega arith
normalized_priority_bounds (some (text t)) = omega arith
normalized_priority_bounds (some (array xs)) = omega arith
normalized_priority_bounds (some (object fs)) = omega arith

-- Words, each of them once and none empty.
record AreWords (words : List String) : Type 0 where
  distinct : is_distinct words ≡ true
  filled : All (λ t. is_truthy t ≡ true) words

contains-append :
    (xs : List String) (y x : String)
    → contains xs x ≡ false
    → (y == x) ≡ false
    → contains (xs ++ y ∷ []) x ≡ false
contains-append [] y x h k = rw k refl
contains-append (z ∷ xs) y x h k = elim (Bool-cases (z == x)) [
  | inl hit ↦ cc (rw hit at h)
  | inr other ↦ rw other (contains-append xs y x (rw other at h) k)
]

append-AreWords :
    (xs : List String) (y : String)
    → AreWords xs
    → contains xs y ≡ false
    → is_truthy y ≡ true
    → AreWords (xs ++ y ∷ [])
append-AreWords [] y h k l = record { distinct = refl; filled = (l, tt) }
append-AreWords (x ∷ xs) y h k l = elim (Bool-cases (contains xs x)) [
  | inl twice ↦ cc (rw twice at h.distinct)
  | inr once ↦ elim (Bool-cases (x == y)) [
    | inl hit ↦ cc (rw hit at k)
    | inr other ↦
        let rest =
          append-AreWords xs y (record { distinct = rw once at h.distinct; filled = h.filled.1 })
            (rw other at k) l in
        record {
          distinct =
              rw (contains-append xs y x once (ground (arith, other, eq_iff x y, eq_iff y x)))
                rest.distinct;
          filled = (h.filled.0, rest.filled);
        }
  ]
]

add_word-AreWords : (y : String) (xs : List String) → AreWords xs → AreWords (add_word y xs)
add_word-AreWords y xs h = elim (Bool-cases (is_truthy y)) [
  | inr empty ↦ rw empty h
  | inl full ↦ elim (Bool-cases (contains xs y)) [
    | inl there ↦ rw (full, there) h
    | inr absent ↦ rw (full, absent) (append-AreWords xs y h absent full)
  ]
]

module _ (w : Setting) where
  collect-AreWords :
      (f : String → String) (items : Items) (seen : List String)
      → AreWords seen
      → AreWords (collect_words w f items seen)
  unfolding collect_words
  collect-AreWords f nil seen h = h
  collect-AreWords f (cons value items) seen h =
      collect-AreWords f items _ (add_word-AreWords _ seen h)

  no_words : AreWords []
  no_words = record { distinct = refl; filled = tt }

  roles-AreWords : (v : Option Value) → AreWords (normalize_depends_on_roles w v)
  unfolding normalize_depends_on_roles
  roles-AreWords none = no_words
  roles-AreWords (some (text t)) = collect-AreWords w.lower (cons (text t) nil) [] no_words
  roles-AreWords (some (array items)) = collect-AreWords w.lower items [] no_words
  roles-AreWords (some null) = no_words
  roles-AreWords (some (boolean b)) = no_words
  roles-AreWords (some (number n)) = no_words
  roles-AreWords (some (object fs)) = no_words

  same_spec : (a b : ItemSpec) → returned a ≡ returned b → a ≡ b
  same_spec a b q = cc

  -- A specification that a task package item gives has a role that is not empty, a priority between
  -- 1 and 5, and roles to depend on that are distinct and not empty.
  pub build_task_package_item_spec-IsUsable :
      (item : Fields) (spec : ItemSpec)
      → build_task_package_item_spec w item ≡ returned spec
      → IsUsable spec
  unfolding build_task_package_item_spec
  build_task_package_item_spec-IsUsable item spec e =
      elim (Bool-cases (is_truthy (w.lower (strip (str w (get_field item "role")))))) [
        | inr empty ↦ cc (rw empty at e)
        | inl full ↦
            let priority = normalized_priority_bounds (get_field item "priority") in
            let words = roles-AreWords (get_field item "depends_on_roles") in
            subst IsUsable (same_spec _ spec (rw full at e)) record {
              role = full;
              at_least = priority.0;
              at_most = priority.1;
              distinct = words.distinct;
              filled = words.filled;
            }
      ]
