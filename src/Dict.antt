-- ===== src/Dict.antt =====
-- Python's `dict` with text keys: an association list in the order of insertion. Assigning to a
-- key that is present keeps its place, as in Python.
use wherecode.Prelude.{
  String, ◌≡◌, refl, Option, none, some, List, [], ◌∷◌, map, arith, ◌==◌, eq_iff, eq_refl,
  if◌then◌else◌,
}

abbrev pub Dict {ℓ} : Type ℓ → Type ℓ
Dict V = List (String × V)

module _ {ℓ} {V : Type ℓ} where
  -- d.get(k)
  unfoldable pub get : Dict V → String → Option V
  get [] k = none
  get ((j, v) ∷ d) k = if j == k then some v else get d k

  -- d[k] = v
  unfoldable pub put : Dict V → String → V → Dict V
  put [] k v = (k, v) ∷ []
  put ((j, w) ∷ d) k v = if j == k then (j, v) ∷ d else (j, w) ∷ put d k v

  -- What assigning to attributes of the object `d[k]` does to the dictionary.
  unfoldable pub modify : Dict V → String → (V → V) → Dict V
  modify [] k f = []
  modify ((j, w) ∷ d) k f = if j == k then (j, f w) ∷ d else (j, w) ∷ modify d k f

  -- d.values()
  abbrev pub values : Dict V → List V
  values d = map (λ e. e.1) d

  abbrev pub mapped : (V → V) → Option V → Option V
  mapped f none = none
  mapped f (some v) = some (f v)

  pub get-put :
      (d : Dict V) (k j : String) (v : V) → get (put d k v) j ≡ (if k == j then some v else get d j)
  unfolding get put
  get-put [] k j v = refl
  get-put ((i, w) ∷ d) k j v = ground (arith, eq_iff k j, eq_iff i k, eq_iff i j, get-put d k j v)

  pub get-modify :
      (d : Dict V) (k j : String) (f : V → V)
      → get (modify d k f) j ≡ (if k == j then mapped f (get d j) else get d j)
  unfolding get modify
  get-modify [] k j f = ground arith
  get-modify ((i, w) ∷ d) k j f =
      ground (arith, eq_iff k j, eq_iff i k, eq_iff i j, get-modify d k j f)

  pub get-put_self : (d : Dict V) (k : String) (v : V) → get (put d k v) k ≡ some v
  get-put_self d k v = simp (get-put, eq_refl)

  pub get-modify_self :
      (d : Dict V) (k : String) (f : V → V) {v : V}
      → get d k ≡ some v
      → get (modify d k f) k ≡ some (f v)
  get-modify_self d k f e = simp (get-modify, eq_refl, e)

-- d.get(k, []) of a dictionary of lists; also d[k] of a `defaultdict(list)`.
abbrev pub get_list {ℓ} : {A : Type ℓ} → Dict (List A) → String → List A
get_list d k = elim (get d k) [ none ↦ [] | some l ↦ l ]

pub ruleset dict_laws = (get-put, get-modify)
