-- ===== src/Text.antt =====
-- Python's `str.strip` and `str.lower`, by recursion over the characters of a text.
pub mod Strip
use Prim.Native.Char.{Char, code}
use Prim.Native.String.{[], ◌∷◌}
use wherecode.Prelude.{ℕ, ◌+◌, String, Bool, true, false, ◌&&◌, ◌||◌, leb, nat_eq, if◌then◌else◌}

-- `str.isspace` of one character
abbrev pub is_space : Char → Bool
is_space ch =
    let c = code ch in
    leb 9 c && leb c 13
    || leb 28 c && leb c 32
    || nat_eq c 133
    || nat_eq c 160
    || nat_eq c 5760
    || leb 8192 c && leb c 8202
    || leb 8232 c && leb c 8233
    || nat_eq c 8239
    || nat_eq c 8287
    || nat_eq c 12288

unfoldable pub lstrip : String → String
lstrip [] = []
lstrip (c ∷ s) = let rest = lstrip s in if is_space c then rest else c ∷ s

abbrev pub drop_space : Char → String → String
drop_space c [] = if is_space c then [] else c ∷ []
drop_space c (d ∷ s) = c ∷ d ∷ s

unfoldable pub rstrip : String → String
rstrip [] = []
rstrip (c ∷ s) = drop_space c (rstrip s)

-- value.strip()
unfoldable pub strip : String → String
unfolding lstrip rstrip
strip s = rstrip (lstrip s)

-- bool(value) of a text
abbrev pub is_truthy : String → Bool
is_truthy [] = false
is_truthy (c ∷ s) = true

-- The code of a letter in lower case, for the letters that a small letter of ASCII is the lower
-- case of: those of ASCII, and the Kelvin sign. `İ` becomes two characters, the second of which is
-- in none of the words below and the first of which ends none of them.
abbrev lower_code : ℕ → ℕ
lower_code c = if leb 65 c && leb c 90 then c + 32 else if nat_eq c 8490 then 107 else c

abbrev starts_lowered : String → String → Bool
starts_lowered text [] = true
starts_lowered [] (d ∷ word) = false
starts_lowered (c ∷ text) (d ∷ word) =
    nat_eq (lower_code (code c)) (code d) && starts_lowered text word

-- `word in text.lower()`, for the words of small letters and dashes that the program looks for
unfoldable pub mentions : String → String → Bool
mentions [] word = starts_lowered [] word
mentions (c ∷ text) word = starts_lowered (c ∷ text) word || mentions text word

-- `text.lower() == word`, for words as above
unfoldable pub lowers_to : String → String → Bool
lowers_to [] [] = true
lowers_to [] (d ∷ word) = false
lowers_to (c ∷ text) [] = false
lowers_to (c ∷ text) (d ∷ word) = nat_eq (lower_code (code c)) (code d) && lowers_to text word
