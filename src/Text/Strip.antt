-- ===== src/Text/Strip.antt =====
-- What `str.strip` gives is stripped already.
use Prim.Native.Char.{Char}
use Prim.Native.String.{[], ◌∷◌}
use wherecode.Prelude.{String, ◌≡◌, refl, inl, inr, false, Bool-cases}
use wherecode.Text.{is_space, drop_space, lstrip, rstrip, strip}

rstrip-drop : (c : Char) (s : String) → rstrip s ≡ s → rstrip (drop_space c s) ≡ drop_space c s
unfolding rstrip
rstrip-drop c [] h = elim (Bool-cases (is_space c)) [
  | inl space ↦ rw space refl
  | inr other ↦ rw other (rw other refl)
]
rstrip-drop c (d ∷ s) h = rw h refl

rstrip-rstrip : (s : String) → rstrip (rstrip s) ≡ rstrip s
unfolding rstrip
rstrip-rstrip [] = refl
rstrip-rstrip (c ∷ s) = rstrip-drop c (rstrip s) (rstrip-rstrip s)

lstrip-drop :
    (c : Char) (s : String) → is_space c ≡ false → lstrip (drop_space c s) ≡ drop_space c s
unfolding lstrip
lstrip-drop c [] other = rw other (rw other refl)
lstrip-drop c (d ∷ s) other = rw other refl

lstrip-strip : (s : String) → lstrip (rstrip (lstrip s)) ≡ rstrip (lstrip s)
unfolding lstrip rstrip
lstrip-strip [] = refl
lstrip-strip (c ∷ s) = elim (Bool-cases (is_space c)) [
  | inl space ↦ rw space (lstrip-strip s)
  | inr other ↦ rw other (lstrip-drop c (rstrip s) other)
]

pub strip-strip : (s : String) → strip (strip s) ≡ strip s
unfolding strip
strip-strip s = rw lstrip-strip (rstrip-rstrip (lstrip s))
