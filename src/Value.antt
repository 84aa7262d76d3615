-- ===== src/Value.antt =====
-- The values of a metadata dictionary (JSON). The numbers that the modelled code writes into
-- metadata are naturals, so a number is one.
use wherecode.Prelude.{ℕ, String, Bool, Option, none, some, List, [], ◌∷◌}
use wherecode.Dict.{Dict}

mutual
  pub data Value : Type 0 where
    null : Value
    boolean : Bool → Value
    number : ℕ → Value
    text : String → Value
    array : Items → Value
    object : Fields → Value

  pub data Items : Type 0 where
    nil : Items
    cons : Value → Items → Items

  pub data Fields : Type 0 where
    end : Fields
    field : String → Value → Fields → Fields

abbrev pub Metadata : Type 0
Metadata = Dict Value

-- A list of texts as a value.
abbrev pub text_items : List String → Items
text_items [] = nil
text_items (x ∷ xs) = cons (text x) (text_items xs)

abbrev pub optional_text : Option String → Value
optional_text none = null
optional_text (some x) = text x

-- [x for x in items if isinstance(x, str)], for each kind of iterable value
abbrev pub texts_of_items : Items → List String
texts_of_items nil = []
texts_of_items (cons (text x) xs) = x ∷ texts_of_items xs
texts_of_items (cons _ xs) = texts_of_items xs

abbrev pub texts_of_fields : Fields → List String
texts_of_fields end = []
texts_of_fields (field k v fs) = k ∷ texts_of_fields fs

abbrev pub characters : String → List String
characters String.[] = []
characters (String.◌∷◌ c s) = String.◌∷◌ c String.[] ∷ characters s

-- `none` is the TypeError of a loop over a value that is not iterable.
abbrev pub texts_of : Value → Option (List String)
texts_of (array xs) = some (texts_of_items xs)
texts_of (object fs) = some (texts_of_fields fs)
texts_of (text s) = some (characters s)
texts_of null = none
texts_of (boolean _) = none
texts_of (number _) = none
