-- ===== src/Scheduler/Rules.antt =====
-- Rules to show what a method does to the table of work items, one for each way to build a method.
use wherecode.Prelude.{
  ◌≤◌, String, ◌≡◌, refl, inl, inr, Bool, true, false, some, arith, if◌then◌else◌, Option-cases,
}
use wherecode.Dict.{get, get-modify_self}
use wherecode.Py.{Outcome, Error, returned, raised, ◌>>=◌, guard, resume}
use wherecode.Models.{WorkItem}
use wherecode.Scheduler.State.{Scheduler, Method, get_workitem, modify_workitem}
use wherecode.Scheduler.Moves.{Moves, same, write, Evolves, Evolves-refl, Evolves-trans}

-- Leaves the table alone.
pub record Quiet {A : Type 0} (m : Method A) : Type 0 where
  pub table : (s : Scheduler) → (m s).1.workitems ≡ s.workitems
  pub issued : (s : Scheduler) → s.issued_ids ≤ (m s).1.issued_ids

-- Makes a step, from every state, whether it returns or raises.
pub record Does {A : Type 0} (m : Method A) : Type 0 where
  pub at : (s : Scheduler) → Evolves s (m s).1

-- Makes a step from every state that has `item` under `id`.
pub record DoesAt (id : String) (item : WorkItem) {A : Type 0} (m : Method A) : Type 0 where
  pub at : (s : Scheduler) → get s.workitems id ≡ some item → Evolves s (m s).1

pub Evolves-same_items :
    (s t : Scheduler) → t.workitems ≡ s.workitems → s.issued_ids ≤ t.issued_ids → Evolves s t
Evolves-same_items s t e h = record { table = rw e same; issued = h }

module _ {A : Type 0} where
  pub Does-Quiet : {m : Method A} → Quiet m → Does m
  Does-Quiet {m} q = record { at = λ s. Evolves-same_items s (m s).1 (q.table s) (q.issued s) }

  pub DoesAt-Does : {id : String} {item : WorkItem} {m : Method A} → Does m → DoesAt id item m
  DoesAt-Does d = record { at = λ s e. d.at s }

  pub DoesAt-if :
      {id : String} {item : WorkItem} (b : Bool) {m n : Method A}
      → (b ≡ true → DoesAt id item m)
      → (b ≡ false → DoesAt id item n)
      → DoesAt id item (if b then m else n)
  DoesAt-if true f g = f refl
  DoesAt-if false f g = g refl

  pub Quiet-if : (b : Bool) {m n : Method A} → Quiet m → Quiet n → Quiet (if b then m else n)
  Quiet-if true f g = f
  Quiet-if false f g = g

  pub Does-if : (b : Bool) {m n : Method A} → Does m → Does n → Does (if b then m else n)
  Does-if true f g = f
  Does-if false f g = g

module _ {A B : Type 0} where
  Quiet-resume :
      (r : Outcome A) (f : A → Method B) (t : Scheduler)
      → ((a : A) → Quiet (f a))
      → ((resume r f t).1.workitems ≡ t.workitems) × (t.issued_ids ≤ (resume r f t).1.issued_ids)
  Quiet-resume (returned a) f t q = ((q a).table t, (q a).issued t)
  Quiet-resume (raised e) f t q = (refl, omega arith)

  pub Quiet-bind :
      {m : Method A} {f : A → Method B} → Quiet m → ((a : A) → Quiet (f a)) → Quiet (m >>= f)
  unfolding ◌>>=◌
  Quiet-bind {m} {f} q r = record {
    table = λ s. cc (q.table s, (Quiet-resume (m s).0 f (m s).1 r).0);
    issued = λ s. omega (arith, q.issued s, (Quiet-resume (m s).0 f (m s).1 r).1);
  }

  pub resume-Evolves :
      (r : Outcome A) (f : A → Method B) (s t : Scheduler)
      → Evolves s t
      → ((a : A) → Evolves t (f a t).1)
      → Evolves s (resume r f t).1
  resume-Evolves (returned a) f s t e k = Evolves-trans e (k a)
  resume-Evolves (raised x) f s t e k = e

  pub Does-bind :
      {m : Method A} {f : A → Method B} → Does m → ((a : A) → Does (f a)) → Does (m >>= f)
  unfolding ◌>>=◌
  Does-bind {m} {f} d k = record {
    at = λ s. resume-Evolves (m s).0 f s (m s).1 (d.at s) (λ a. (k a).at (m s).1);
  }

  pub DoesAt-Quiet :
      {id : String} {item : WorkItem} {m : Method A} {f : A → Method B}
      → Quiet m
      → ((a : A) → DoesAt id item (f a))
      → DoesAt id item (m >>= f)
  unfolding ◌>>=◌
  DoesAt-Quiet {m} {f} q k = record {
    at = λ s e.
        resume-Evolves (m s).0 f s (m s).1 (Evolves-same_items s (m s).1 (q.table s) (q.issued s))
          (λ a. (k a).at (m s).1 (rw (q.table s) e));
  }

module _ {B : Type 0} where
  -- An assignment to the item that is there.
  pub DoesAt-write :
      {id : String} {item : WorkItem} (g : WorkItem → WorkItem) {f : Unit {0} → Method B}
      → Moves item (g item)
      → ((u : Unit {0}) → DoesAt id (g item) (f u))
      → DoesAt id item (modify_workitem id g >>= f)
  unfolding ◌>>=◌ modify_workitem
  DoesAt-write {id} {item} g {f} m k = record {
    at = λ s e.
        Evolves-trans (record { table = write id g item same e m; issued = omega arith })
          ((k tt).at _ (get-modify_self s.workitems id g e));
  }

  pub DoesAt-guard :
      {id : String} {item : WorkItem} (b : Bool) (x : Error) {f : Unit {0} → Method B}
      → ((u : Unit {0}) → b ≡ true → DoesAt id item (f u))
      → DoesAt id item (guard b x >>= f)
  unfolding ◌>>=◌
  DoesAt-guard true x k = record { at = λ s e. (k tt refl).at s e }
  DoesAt-guard false x k = record { at = λ s e. Evolves-refl s }

  -- A method that begins by fetching the item.
  pub Does-get :
      {id : String} {f : WorkItem → Method B}
      → ((item : WorkItem) → DoesAt id item (f item))
      → Does (get_workitem id >>= f)
  unfolding ◌>>=◌ get_workitem
  Does-get {id} {f} k = record {
    at = λ s. elim (Option-cases (get s.workitems id)) [
      | inl e ↦ rw e (Evolves-refl s)
      | inr (item, e) ↦ rw e ((k item).at s e)
    ];
  }
