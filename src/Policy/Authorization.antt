-- ===== src/Policy/Authorization.antt =====
-- control_center/services/metrics_authorization.py: who may update a policy or approve a rollback.
use wherecode.Prelude.{
  String, ◌≡◌, refl, ap, ◌∙◌, ◌↔◌, ◌⊎◌, inl, inr, ◌==◌, eq_iff, eq_refl, Bool, true, false, not,
  Option, none, some, List, contains, or_else, Bool-cases, if◌then◌else◌,
}
use wherecode.Text.{strip, is_truthy}
use wherecode.Py.{Outcome, returned, raised, http_error}

-- What the providers answer, `str.lower`, and a request's headers: `request.headers.get`.
pub record Access : Type 0 where
  pub auth_enabled : Bool
  pub metrics_policy_update_roles : List String
  pub metrics_rollback_approver_roles : List String
  pub lower : String → String

abbrev pub Headers : Type 0
Headers = String → Option String

module _ (w : Access) where
  unfoldable pub extract_request_role : Headers → Option String
  extract_request_role headers =
      let role = w.lower (strip (or_else (headers "X-WhereCode-Role") "")) in
      if is_truthy role then some role else none

  -- The rest of both functions: `allowed` are the roles, `actor` the one named in the request.
  unfoldable pub authorize_role : List String → String → Option String → Outcome String
  authorize_role allowed actor none =
      raised (http_error 403 "missing role header: X-WhereCode-Role")
  authorize_role allowed actor (some role) =
      if not (contains allowed role)
      then raised (http_error 403 "role not allowed")
      else if not (actor == role)
      then raised (http_error 409 "must match authenticated role")
      else returned role

  unfoldable pub authorize : List String → Headers → String → Outcome String
  unfolding authorize_role extract_request_role
  authorize allowed headers actor =
      let normalized = w.lower (strip actor) in
      if not w.auth_enabled
      then returned normalized
      else authorize_role allowed normalized (extract_request_role headers)

  unfoldable pub authorize_metrics_policy_update : Headers → String → Outcome String
  unfolding authorize
  authorize_metrics_policy_update headers updated_by =
      authorize w.metrics_policy_update_roles headers updated_by

  unfoldable pub authorize_metrics_rollback_approval : Headers → String → Outcome String
  unfolding authorize
  authorize_metrics_rollback_approval headers approved_by =
      authorize w.metrics_rollback_approver_roles headers approved_by

  -- The actor goes by the name, and, where authentication is on, the request carries it as its role
  -- and it is allowed.
  pub record IsGranted (allowed : List String) (headers : Headers) (actor name : String)
      : Type 0 where
    pub named : w.lower (strip actor) ≡ name
    pub carried :
        (w.auth_enabled ≡ false)
        ⊎ ((extract_request_role headers ≡ some name) × (contains allowed name ≡ true))

  role-granted :
      (allowed : List String) (actor name : String) (role : Option String)
      → authorize_role allowed actor role ≡ returned name
      → (actor ≡ name) × (role ≡ some name) × (contains allowed name ≡ true)
  unfolding authorize_role
  role-granted allowed actor name none e = cc
  role-granted allowed actor name (some role) e = elim (Bool-cases (contains allowed role)) [
    | inr barred ↦ cc (rw barred at e)
    | inl fine ↦ elim (Bool-cases (actor == role)) [
      | inr other ↦ cc (rw (fine, other) at e)
      | inl hit ↦
          let p : role ≡ name = returned_same role name (rw (fine, hit) at e) in
          ((eq_iff actor role).0 hit ∙ p, ap (λ (r : String). some r) p, rw (← p) fine)
    ]
  ]
    where
      returned_same : (a b : String) → returned a ≡ returned b → a ≡ b
      returned_same a b q = cc

  authorize-grants :
      (allowed : List String) (headers : Headers) (actor name : String)
      → authorize allowed headers actor ≡ returned name
      → IsGranted allowed headers actor name
  unfolding authorize
  authorize-grants allowed headers actor name e = elim (Bool-cases w.auth_enabled) [
    | inr off ↦ record { named = same_name (rw off at e); carried = inl off }
    | inl on ↦
        let (p, q, r) =
          role-granted allowed (w.lower (strip actor)) name (extract_request_role headers)
            (rw on at e) in
        record { named = p; carried = inr (q, r) }
  ]
    where
      same_name : {a : String} → returned a ≡ returned name → a ≡ name
      same_name q = cc

  grant-authorizes :
      (allowed : List String) (headers : Headers) (actor name : String)
      → IsGranted allowed headers actor name
      → authorize allowed headers actor ≡ returned name
  unfolding authorize authorize_role
  grant-authorizes allowed headers actor name g = elim g.carried [
    | inl off ↦ rw off (ap (λ (n : String). returned n) g.named)
    | inr (q, r) ↦ elim (Bool-cases w.auth_enabled) [
      | inr off ↦ rw off (ap (λ (n : String). returned n) g.named)
      | inl on ↦ rw on (rw (q, r) (rw (g.named, eq_refl name) refl))
    ]
  ]

  -- An update of the policy is let through under a name exactly where this is the name of the actor
  -- without the spaces around it and in lower case, and, where authentication is on, the role that
  -- the request carries, which is one of those that may update. The same holds of the approval of a
  -- rollback with the roles that may approve.
  pub authorize-IsGranted :
      (headers : Headers) (actor name : String)
      → (authorize_metrics_policy_update headers actor ≡ returned name
          ↔ IsGranted w.metrics_policy_update_roles headers actor name)
        × (authorize_metrics_rollback_approval headers actor ≡ returned name
            ↔ IsGranted w.metrics_rollback_approver_roles headers actor name)
  unfolding authorize_metrics_policy_update authorize_metrics_rollback_approval
  authorize-IsGranted headers actor name = (
    (authorize-grants _ headers actor name, grant-authorizes _ headers actor name),
    (authorize-grants _ headers actor name, grant-authorizes _ headers actor name),
  )
