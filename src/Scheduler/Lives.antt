-- ===== src/Scheduler/Lives.antt =====
-- One work item through a history: a chain of moves, forwards from a state that has the item, and
-- backwards from a state in which it is found.
use wherecode.Prelude.{
  ◌≤◌, String, ◌≡◌, inl, inr, ◌==◌, eq_iff, true, none, some, arith, Bool-cases, Option-cases,
}
use wherecode.Dict.{Dict, get, modify, get-modify, get-modify_self}
use wherecode.Models.{WorkItem, is_terminal}
use wherecode.Scheduler.Moves.{is_approved, is_past_approval, Moves, Change, same, write}

pub data Leads (a : WorkItem) : WorkItem → Type 0 where
  rest : Leads a a
  go : {b c : WorkItem} → Leads a b → Moves b c → Leads a c

pub Leads-trans : {a b c : WorkItem} → Leads a b → Leads b c → Leads a c
Leads-trans p rest = p
Leads-trans p (go q m) = go (Leads-trans p q) m

-- What stays, whatever moves an item makes.
pub record Continues (a b : WorkItem) : Type 0 where
  pub same_id : b.id ≡ a.id
  pub same_run : b.workflow_run_id ≡ a.workflow_run_id
  pub same_approval : b.requires_approval ≡ a.requires_approval
  pub same_budget : b.discussion_budget ≡ a.discussion_budget
  pub ended : is_terminal a.status ≡ true → b.status ≡ a.status

pub Leads-Continues : {a b : WorkItem} → Leads a b → Continues a b
Leads-Continues rest = ground arith
Leads-Continues (go p m) = let c = Leads-Continues p in ground (arith, c, m)

-- What holds of every item, if it holds of the new ones.
pub record IsLegal (item : WorkItem) : Type 0 where
  pub budget : item.discussion_used ≤ item.discussion_budget
  pub approval :
      item.requires_approval ≡ true → is_past_approval item.status ≡ true → is_approved item ≡ true

Moves-IsLegal : {a b : WorkItem} → Moves a b → IsLegal a → IsLegal b
Moves-IsLegal m l = ground arith

pub Leads-IsLegal : {a b : WorkItem} → Leads a b → IsLegal a → IsLegal b
Leads-IsLegal rest l = l
Leads-IsLegal (go p m) l = Moves-IsLegal m (Leads-IsLegal p l)

-- The item under a key of a later table, and the one under a key of an earlier table.
pub record Later (u : Dict WorkItem) (id : String) (a : WorkItem) : Type 0 where
  pub item : WorkItem
  pub found : get u id ≡ some item
  pub leads : Leads a item

pub record Earlier (t : Dict WorkItem) (id : String) (b : WorkItem) : Type 0 where
  pub item : WorkItem
  pub found : get t id ≡ some item
  pub leads : Leads item b

write-Later :
    (u : Dict WorkItem) (k id : String) (f : WorkItem → WorkItem) (x a : WorkItem)
    → get u k ≡ some x
    → Moves x (f x)
    → Later u id a
    → Later (modify u k f) id a
write-Later u k id f x a e m l = elim (Bool-cases (k == id)) [
  | inr other ↦ record { item = l.item; found = rw (get-modify, other) l.found; leads = l.leads }
  | inl hit ↦
      let p : k ≡ id = (eq_iff k id).0 hit in
      let q : l.item ≡ x = cc (l.found, e, p) in
      record {
        item = f x;
        found = rw (← p) (get-modify_self u k f e);
        leads = go (rw q at l.leads) m;
      }
]

pub Change-Later :
    {t u : Dict WorkItem} (id : String) (a : WorkItem)
    → Change t u
    → get t id ≡ some a
    → Later u id a
Change-Later id a same e = record { item = a; found = e; leads = rest }
Change-Later id a (write {u} k f x c g m) e = write-Later u k id f x a g m (Change-Later id a c e)

Earlier-go :
    {t : Dict WorkItem} {id : String} {a b : WorkItem} → Earlier t id a → Moves a b → Earlier t id b
Earlier-go r m = record { item = r.item; found = r.found; leads = go r.leads m }

pub Change-Earlier :
    {t u : Dict WorkItem} (id : String) (b : WorkItem)
    → Change t u
    → get u id ≡ some b
    → Earlier t id b
Change-Earlier id b same e = record { item = b; found = e; leads = rest }
Change-Earlier {t} id b (write {u} k f x c g m) e = elim (Bool-cases (k == id)) [
  | inr other ↦ Change-Earlier id b c (rw (get-modify, other) at e)
  | inl hit ↦
      let p : k ≡ id = (eq_iff k id).0 hit in
      let q : f x ≡ b = cc (get-modify_self u k f g, e, p) in
      rw q at (Earlier-go (Change-Earlier id x c (rw p at g)) m)
]

-- A key that is free stays free.
pub Change-none :
    {t u : Dict WorkItem} (id : String) → Change t u → get t id ≡ none → get u id ≡ none
Change-none {u = u} id c e = elim (Option-cases (get u id)) [
  | inl absent ↦ absent
  | inr (b, present) ↦ cc ((Change-Earlier id b c present).found, e)
]
