-- ===== src/Py/Keeps.antt =====
-- Invariants of methods, one rule for each way to build a method. An invariant holds after a
-- method also where the method raised.
use wherecode.Prelude.{◌≡◌, refl, Bool, true, false, if◌then◌else◌}
use wherecode.Py.{Py, Error, Outcome, returned, raised, ◌>>=◌, pure, reads, guard, assign, resume}

-- From a state with `Inv`, the method ends in a state with `Inv`.
pub record Keeps {S A : Type 0} (Inv : S → Type 0) (m : Py S A) : Type 0 where
  pub at : (s : S) → Inv s → Inv (m s).1

module _ {S A : Type 0} {Inv : S → Type 0} where
  pub Keeps-pure : (a : A) → Keeps Inv (pure a)
  unfolding pure
  Keeps-pure a = record { at = λ s h. h }

  pub Keeps-reads : (f : S → Outcome A) → Keeps Inv (reads f)
  unfolding reads
  Keeps-reads f = record { at = λ s h. h }

  pub Keeps-if :
      (b : Bool) {m n : Py S A}
      → (b ≡ true → Keeps Inv m)
      → (b ≡ false → Keeps Inv n)
      → Keeps Inv (if b then m else n)
  Keeps-if true k l = k refl
  Keeps-if false k l = l refl

module _ {S : Type 0} {Inv : S → Type 0} where
  pub Keeps-guard : (b : Bool) (e : Error) → Keeps Inv (guard b e)
  unfolding guard
  Keeps-guard true e = record { at = λ s h. h }
  Keeps-guard false e = record { at = λ s h. h }

  pub Keeps-assign : (f : S → S) → ((s : S) → Inv s → Inv (f s)) → Keeps Inv (assign f)
  unfolding assign
  Keeps-assign f k = record { at = k }

module _ {S A B : Type 0} {Inv : S → Type 0} where
  resume-keeps :
      (r : Outcome A) (f : A → Py S B) (t : S)
      → Inv t
      → ((a : A) → Keeps Inv (f a))
      → Inv (resume r f t).1
  resume-keeps (returned a) f t h k = (k a).at t h
  resume-keeps (raised e) f t h k = h

  pub Keeps-bind :
      {m : Py S A} {f : A → Py S B}
      → Keeps Inv m
      → ((a : A) → Keeps Inv (f a))
      → Keeps Inv (m >>= f)
  unfolding ◌>>=◌
  Keeps-bind {m} {f} k l = record { at = λ s h. resume-keeps (m s).0 f (m s).1 (k.at s h) l }

pub ruleset keeps_rules = (Keeps-pure, Keeps-reads, Keeps-if, Keeps-guard, Keeps-bind)
