-- ===== src/Policy/Logged.antt =====
-- Audit entries and the file of their rows: where the file can be read, it has the entries.
use wherecode.Prelude.{
  String, ◌≡◌, refl, ap, ◌⊎◌, inl, inr, false, all, arith, if◌then◌else◌, some, List, [], ◌∷◌, ◌++◌,
  Bool-cases,
}
use wherecode.Policy.State.{Audit}
use wherecode.Policy.Rows.{fits_line, optional_fits, audit_fits, read_rows}

-- The file has the entries, or some entry in it that does not stay on its line.
abbrev pub IsLogged : List Audit → List Audit → Type 0
IsLogged file entries = (file ≡ entries) ⊎ (all audit_fits file ≡ false)

all-append_false :
    (rows : List Audit) (e : Audit)
    → all audit_fits rows ≡ false
    → all audit_fits (rows ++ e ∷ []) ≡ false
all-append_false [] e h = cc
all-append_false (row ∷ rows) e h = ground (arith, all-append_false rows e)

pub all-append_last :
    (rows : List Audit) (e : Audit) → audit_fits e ≡ false → all audit_fits (rows ++ e ∷ []) ≡ false
all-append_last [] e h = rw h refl
all-append_last (row ∷ rows) e h = ground (arith, all-append_last rows e h)

pub reason-breaks :
    (e : Audit) {reason : String}
    → fits_line reason ≡ false
    → e.reason ≡ some reason
    → audit_fits e ≡ false
unfolding audit_fits
reason-breaks e broken same = ground (arith, ap optional_fits same, broken)

pub append-IsLogged :
    (file entries : List Audit) (e : Audit)
    → IsLogged file entries
    → IsLogged (file ++ e ∷ []) (entries ++ e ∷ [])
append-IsLogged file entries e (inl same) = inl (ap (λ (l : List Audit). l ++ e ∷ []) same)
append-IsLogged file entries e (inr broken) = inr (all-append_false file e broken)

pub read-logged :
    (file entries : List Audit)
    → IsLogged file entries
    → read_rows audit_fits file ≡ (if all audit_fits file then entries else [])
unfolding read_rows
read-logged file entries (inl same) = rw same refl
read-logged file entries (inr broken) = rw broken refl

pub read-IsLogged : (file : List Audit) → IsLogged file (read_rows audit_fits file)
unfolding read_rows
read-IsLogged file = elim (Bool-cases (all audit_fits file)) [
  | inl readable ↦ rw readable (inl refl)
  | inr broken ↦ inr broken
]
