-- ===== src/Py.antt =====
-- Methods that mutate an object and may raise. The object outlives an exception: what was written
-- before a raise stays written, so the state comes back beside the error too.
pub mod Keeps
pub mod Triple
use mathlib.Core.Path.{fun_ext}
use wherecode.Prelude.{ℕ, Bool, true, false, String, ◌≡◌, refl}

pub data Error : Type 0 where
  run_not_found workitem_not_found dependency_not_found dependency_elsewhere : String → Error
  run_canceled not_ready not_running no_approval_needed not_waiting_approval : String → Error
  not_executable not_waiting_discussion no_discussion : String → Error
  discussion_not_found discussion_not_open no_open_discussion : String → Error
  missing_key : String → Error
  self_dependency duplicate_dependency restart_of_active not_iterable no_modules not_a_number :
      Error
  invalid_model : String → Error
  http_error : ℕ → String → Error
  audit_not_found approval_not_found no_policy_payload : String → Error
  rollback_conflict rollback_refused value_error : String → Error

pub data Outcome {ℓ} (A : Type ℓ) : Type ℓ where
  returned : A → Outcome A
  raised : Error → Outcome A

abbrev pub Py {ℓ} : Type ℓ → Type ℓ → Type ℓ
Py S A = S → Outcome A × S

module _ {ℓ} {S A : Type ℓ} where
  unfoldable pub pure : A → Py S A
  pure a s = (returned a, s)

  unfoldable pub raise : Error → Py S A
  raise e s = (raised e, s)

  -- reads the object, and may raise
  unfoldable pub reads : (S → Outcome A) → Py S A
  reads f s = (f s, s)

module _ {S : Type 0} where
  -- if not ok: raise e
  unfoldable pub guard : Bool → Error → Py S Unit
  guard true e s = (returned tt, s)
  guard false e s = (raised e, s)

  -- assignments to the object
  unfoldable pub assign : (S → S) → Py S Unit
  assign f s = (returned tt, f s)

module _ {ℓ} {S A B : Type ℓ} where
  abbrev pub resume : Outcome A → (A → Py S B) → S → Outcome B × S
  resume (returned a) f s = f a s
  resume (raised e) f s = (raised e, s)

  infixl 5 ◌>>=◌ ◌>>◌
  unfoldable pub ◌>>=◌ : Py S A → (A → Py S B) → Py S B
  unfolding pure raise reads guard assign
  ◌>>=◌ m f s = let (r, t) = m s in resume r f t

  abbrev pub ◌>>◌ : Py S A → Py S B → Py S B
  m >> n = m >>= λ _. n

module _ {ℓ} {S A B C : Type ℓ} where
  resume-resume :
      (r : Outcome A) (f : A → Py S B) (g : B → Py S C) (s : S)
      → resume (resume r f s).0 g (resume r f s).1 ≡ resume r (λ a. f a >>= g) s
  unfolding ◌>>=◌
  resume-resume (returned a) f g s = refl
  resume-resume (raised e) f g s = refl

  pub bind_assoc :
      (m : Py S A) (f : A → Py S B) (g : B → Py S C) → (m >>= f >>= g) ≡ (m >>= λ a. f a >>= g)
  unfolding ◌>>=◌
  bind_assoc m f g = fun_ext λ s. resume-resume (m s).0 f g (m s).1
