-- ===== src/Prelude/Select.antt =====
-- The elements of a list that have a property, in their order.
use mathlib.Core.Path.{◌≡◌}
use mathlib.Core.Logic.{inl, inr}
use mathlib.Core.Bool.{Bool, true, false}
use mathlib.Core.List.{List, [], ◌∷◌}
use wherecode.Prelude.Tests.{Bool-cases}
use wherecode.Prelude.Lists.{keep}

pub data IsSelection {A : Type 0} (P : A → Type 0) : List A → List A → Type 0 where
  none_left : IsSelection P [] []
  taken : {x : A} {xs ys : List A} → P x → IsSelection P xs ys → IsSelection P (x ∷ xs) (x ∷ ys)
  passed_over :
      {x : A} {xs ys : List A} → (P x → ⊥) → IsSelection P xs ys → IsSelection P (x ∷ xs) ys

pub keep-IsSelection :
    {A : Type 0} {P : A → Type 0} (p : A → Bool)
    → ((x : A) → p x ≡ true → P x)
    → ((x : A) → p x ≡ false → P x → ⊥)
    → (xs : List A) → IsSelection P xs (keep p xs)
keep-IsSelection p yields refuses [] = none_left
keep-IsSelection p yields refuses (x ∷ xs) = elim (Bool-cases (p x)) [
  | inl holds ↦ rw holds (taken (yields x holds) (keep-IsSelection p yields refuses xs))
  | inr fails ↦ rw fails (passed_over (refuses x fails) (keep-IsSelection p yields refuses xs))
]
