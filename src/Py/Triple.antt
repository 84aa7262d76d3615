-- ===== src/Py/Triple.antt =====
-- What a method promises about its result and the state that it leaves: one postcondition where it
-- returns and one where it raises, with a rule for each way to build a method.
use wherecode.Prelude.{◌≡◌, refl, Bool, true, false, if◌then◌else◌}
use wherecode.Py.{
  Py, Error, Outcome, returned, raised, ◌>>=◌, pure, raise, reads, guard, assign, resume,
}
use wherecode.Py.Keeps.{Keeps}

abbrev pub Ends : {S A : Type 0} → (A → S → Type 0) → (S → Type 0) → Outcome A → S → Type 0
Ends Q E (returned a) t = Q a t
Ends Q E (raised e) t = E t

-- From a state with `P`: `Q` where the method returns, `E` where it raises.
pub record Triple {S A : Type 0} (P : S → Type 0) (m : Py S A) (Q : A → S → Type 0) (E : S → Type 0)
    : Type 0 where
  pub at : (s : S) → P s → Ends Q E (m s).0 (m s).1

module _ {S A : Type 0} {P : S → Type 0} {E : S → Type 0} where
  pub Triple-pure : (a : A) {Q : A → S → Type 0} → ((s : S) → P s → Q a s) → Triple P (pure a) Q E
  unfolding pure
  Triple-pure a k = record { at = k }

  pub Triple-raise :
      (e : Error) {Q : A → S → Type 0} → ((s : S) → P s → E s) → Triple P (raise {A = A} e) Q E
  unfolding raise
  Triple-raise e k = record { at = k }

  pub Triple-reads : (g : S → A) → Triple P (reads (λ s. returned (g s))) (λ a s. P s × (g s ≡ a)) E
  unfolding reads
  Triple-reads g = record { at = λ s h. (h, refl) }

  pub Triple-if :
      (b : Bool) {m n : Py S A} {Q : A → S → Type 0}
      → (b ≡ true → Triple P m Q E)
      → (b ≡ false → Triple P n Q E)
      → Triple P (if b then m else n) Q E
  Triple-if true k l = k refl
  Triple-if false k l = l refl

module _ {S A : Type 0} (Q : A → S → Type 0) (E : S → Type 0) where
  Ends-returned : (r : Outcome A) (t : S) → ((a : A) → Q a t) → E t → Ends Q E r t
  Ends-returned (returned a) t k l = k a
  Ends-returned (raised e) t k l = l

module _ {S A : Type 0} (I : S → Type 0) where
  keeps_ends : (r : Outcome A) (t : S) → Ends (λ (a : A). I) I r t → I t
  keeps_ends (returned a) t h = h
  keeps_ends (raised e) t h = h

module _ {S A : Type 0} {I : S → Type 0} where
  pub Triple-Keeps : {m : Py S A} → Keeps I m → Triple I m (λ a. I) I
  Triple-Keeps {m} k = record {
    at = λ s h. Ends-returned (λ a. I) I (m s).0 (m s).1 (λ a. k.at s h) (k.at s h);
  }

  pub Keeps-Triple : {m : Py S A} → Triple I m (λ a. I) I → Keeps I m
  Keeps-Triple {m} k = record { at = λ s h. keeps_ends I (m s).0 (m s).1 (k.at s h) }

module _ {S : Type 0} {P : S → Type 0} {E : S → Type 0} where
  pub Triple-guard :
      (b : Bool) (e : Error)
      → ((s : S) → P s → E s)
      → Triple P (guard b e) (λ u s. P s × (b ≡ true)) E
  unfolding guard
  Triple-guard true e k = record { at = λ s h. (h, refl) }
  Triple-guard false e k = record { at = k }

  pub Triple-assign :
      (f : S → S) {Q : Unit {0} → S → Type 0}
      → ((s : S) → P s → Q tt (f s))
      → Triple P (assign f) Q E
  unfolding assign
  Triple-assign f k = record { at = k }

module _ {S A B : Type 0} (E : S → Type 0) where
  resume-Ends :
      (Q : A → S → Type 0) (R : B → S → Type 0) (r : Outcome A) (f : A → Py S B) (t : S)
      → Ends Q E r t
      → ((a : A) → Triple (Q a) (f a) R E)
      → Ends R E (resume r f t).0 (resume r f t).1
  resume-Ends Q R (returned a) f t h k = (k a).at t h
  resume-Ends Q R (raised e) f t h k = h

module _ {S A B : Type 0} {P : S → Type 0} {E : S → Type 0} where
  pub Triple-bind :
      {m : Py S A} {f : A → Py S B} {Q : A → S → Type 0} {R : B → S → Type 0}
      → Triple P m Q E
      → ((a : A) → Triple (Q a) (f a) R E)
      → Triple P (m >>= f) R E
  unfolding ◌>>=◌
  Triple-bind {m} {f} {Q} {R} k l = record {
    at = λ s h. resume-Ends E Q R (m s).0 f (m s).1 (k.at s h) l;
  }

module _ {S A : Type 0} {P : S → Type 0} {E : S → Type 0} where
  -- After a guard its test is true.
  pub Triple-guarded :
      (b : Bool) (e : Error) {m : Py S A} {Q : A → S → Type 0}
      → ((s : S) → P s → E s)
      → (b ≡ true → Triple P m Q E)
      → Triple P (guard b e >>= λ u. m) Q E
  unfolding ◌>>=◌ guard
  Triple-guarded true e k l = record { at = (l refl).at }
  Triple-guarded false e k l = record { at = k }

  pub Triple-before :
      {m : Py S A} {P' : S → Type 0} {Q : A → S → Type 0}
      → ((s : S) → P s → P' s)
      → Triple P' m Q E
      → Triple P m Q E
  Triple-before k l = record { at = λ s h. l.at s (k s h) }

module _ {S A : Type 0} (Q R : A → S → Type 0) (E : S → Type 0) where
  Ends-after :
      (r : Outcome A) (t : S) → ((a : A) (s : S) → Q a s → R a s) → Ends Q E r t → Ends R E r t
  Ends-after (returned a) t k h = k a t h
  Ends-after (raised e) t k h = h

  pub Triple-after :
      {P : S → Type 0} {m : Py S A}
      → ((a : A) (s : S) → Q a s → R a s)
      → Triple P m Q E
      → Triple P m R E
  Triple-after {P} {m} k l = record { at = λ s h. Ends-after (m s).0 (m s).1 k (l.at s h) }

module _ {S A : Type 0} {I : S → Type 0} where
  -- An invariant, where a method that raises promises nothing.
  pub Triple-of : {m : Py S A} → Keeps I m → Triple I m (λ a. I) (λ s. Unit {0})
  Triple-of {m} k = record {
    at = λ s h. Ends-returned (λ a. I) (λ t. Unit {0}) (m s).0 (m s).1 (λ a. k.at s h) tt;
  }
