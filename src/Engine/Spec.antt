-- ===== src/Engine/Spec.antt =====
-- `build_task_package_item_spec` of control_center/services/workflow_engine_bootstrap_helpers.py. A
-- number of a package that is no natural is not modelled.
pub mod Bounds
use wherecode.Prelude.{
  ℕ, String, Bool, true, false, not, ◌||◌, Option, none, some, List, [], ◌∷◌, ◌++◌, contains,
  is_empty, ltb, nat_eq, if◌then◌else◌,
}
use wherecode.Text.{strip, is_truthy}
use wherecode.Dict.{put}
use wherecode.Value.{
  Value, null, boolean, number, text, array, object, Items, nil, cons, Fields, end, field, Metadata,
  text_items,
}
use wherecode.Py.{Outcome, returned, raised, value_error}
use wherecode.Engine.State.{Setting, get_field}

pub record ItemSpec : Type 0 where
  pub role : String
  pub depends_on_roles : List String
  pub priority : ℕ
  pub metadata : Metadata
  pub requires_approval : Bool

-- the words of a list, each once, in order: those that are in `seen` are there already
abbrev pub add_word : String → List String → List String
add_word word seen = if not (is_truthy word) || contains seen word then seen else seen ++ word ∷ []

-- bool(value)
abbrev pub truth : Option Value → Bool
truth none = false
truth (some null) = false
truth (some (boolean b)) = b
truth (some (number n)) = not (nat_eq n 0)
truth (some (text t)) = is_truthy t
truth (some (array nil)) = false
truth (some (array (cons x xs))) = true
truth (some (object end)) = false
truth (some (object (field k v fs))) = true

-- int(priority) if it is one, within 1 and 5, else 3
abbrev in_range : ℕ → ℕ
in_range n = if ltb n 1 || ltb 5 n then 3 else n

unfoldable pub normalized_priority : Option Value → ℕ
normalized_priority (some (number n)) = in_range n
normalized_priority (some (boolean true)) = 1
normalized_priority _ = 3

-- if value: metadata[key] = value
abbrev pub put_text : Metadata → String → String → Metadata
put_text metadata key value = if is_truthy value then put metadata key (text value) else metadata

abbrev pub put_texts : Metadata → String → List String → Metadata
put_texts metadata key words =
    if is_empty words then metadata else put metadata key (array (text_items words))

module _ (w : Setting) where
  -- str(value), where "" stands for a key that is not there
  abbrev pub str : Option Value → String
  str none = ""
  str (some (text t)) = t
  str (some value) = w.str_of value

  unfoldable pub collect_words : (String → String) → Items → List String → List String
  collect_words f nil seen = seen
  collect_words f (cons value items) seen =
      collect_words f items (add_word (f (strip (str (some value)))) seen)

  unfoldable pub normalize_depends_on_roles : Option Value → List String
  unfolding collect_words
  normalize_depends_on_roles (some (text t)) = collect_words w.lower (cons (text t) nil) []
  normalize_depends_on_roles (some (array items)) = collect_words w.lower items []
  normalize_depends_on_roles _ = []

  abbrev put_words : (String → String) → Metadata → String → Option Value → Metadata
  put_words f metadata key (some (array items)) = put_texts metadata key (collect_words f items [])
  put_words f metadata key _ = metadata

  abbrev put_object : Metadata → String → Option Value → Metadata
  put_object metadata key (some (object fs)) = put metadata key (object fs)
  put_object metadata key _ = metadata

  abbrev put_confirmation : Metadata → Bool → Metadata
  put_confirmation metadata true = put metadata "task_requires_human_confirmation" (boolean true)
  put_confirmation metadata false = metadata

  -- what `routing` adds to the metadata, and whether it asks for an approval
  unfoldable pub add_routing : Metadata → Option Value → Metadata × Bool
  unfolding collect_words
  add_routing metadata (some (object fs)) =
      let rule = put_text metadata "task_routing_rule_id" (strip (str (get_field fs "rule_id"))) in
      let capability =
        put_text rule "task_routing_capability_id" (strip (str (get_field fs "capability_id"))) in
      let executor =
        put_text capability "task_routing_executor" (strip (str (get_field fs "executor"))) in
      let checks =
        put_words (λ t. t) executor "task_routing_required_checks"
          (get_field fs "required_checks") in
      let handoffs =
        put_words w.lower checks "task_routing_handoff_roles" (get_field fs "handoff_roles") in
      let signals = put_object handoffs "task_routing_signals" (get_field fs "signals") in
      let confirms = truth (get_field fs "requires_human_confirmation") in
      (put_confirmation signals confirms, confirms)
  add_routing metadata _ = (metadata, false)

  abbrev source_metadata : Metadata
  source_metadata = ("task_source", text "chief_decomposition") ∷ []

  unfoldable pub build_task_package_item_spec : Fields → Outcome ItemSpec
  unfolding add_routing normalize_depends_on_roles normalized_priority
  build_task_package_item_spec item =
      let role = w.lower (strip (str (get_field item "role"))) in
      let roles = normalize_depends_on_roles (get_field item "depends_on_roles") in
      let objective =
        put_text source_metadata "task_objective" (strip (str (get_field item "objective"))) in
      let deliverable =
        put_text objective "task_deliverable" (strip (str (get_field item "deliverable"))) in
      let depends = put_texts deliverable "task_depends_on_roles" roles in
      let (metadata, confirms) = add_routing depends (get_field item "routing") in
      if is_truthy role
      then returned record {
        role = role;
        depends_on_roles = roles;
        priority = normalized_priority (get_field item "priority");
        metadata = metadata;
        requires_approval = confirms;
      }
      else raised (value_error "module task package role is required")
