-- ===== src/Json.antt =====
-- JSON values as the program builds and reads them, between `json.dumps` and `json.loads`.
use night_recon.Prelude.{
  Bool, List, Option, String, [], bool_Eq, if◌then◌else◌, list_Eq, nat_Eq, none, option_Eq, pair_Eq,
  some, string_Eq, subset, ℕ, ◌&&◌, ◌==◌, ◌∷◌,
}

mutual
  pub data Json : Type 0 where
    null : Json
    text : String → Json
    number : ℕ → Json
    boolean : Bool → Json
    array : Items → Json
    object : Fields → Json

  pub data Items : Type 0 where
    done : Items
    item : Json → Items → Items

  pub data Fields : Type 0 where
    closed : Fields
    field : String → Json → Fields → Fields

unfoldable pub fields : List (String × Json) → Fields
fields [] = closed
fields ((k, v) ∷ rest) = field k v (fields rest)

unfoldable pub texts : List String → Items
texts [] = done
texts (s ∷ ss) = item (text s) (texts ss)

unfoldable pub optional_text : Option String → Json
optional_text none = null
optional_text (some s) = text s

unfoldable pub optional_number : Option ℕ → Json
optional_number none = null
optional_number (some n) = number n

unfoldable pub detail_items : List (String × String) → Items
detail_items [] = done
detail_items ((k, v) ∷ rest) = item (array (item (text k) (item (text v) done))) (detail_items rest)

-- the value of a key of an object
unfoldable pub lookup : String → Fields → Option Json
lookup key closed = none
lookup key (field k v rest) = if k == key then some v else lookup key rest

unfoldable pub keys : Fields → List String
keys closed = []
keys (field k v rest) = k ∷ keys rest

-- `isinstance(payload, Mapping) and set(payload) == required`
unfoldable pub has_keys : List String → Json → Option Fields
has_keys required (object fs) =
    if subset (keys fs) required && subset required (keys fs) then some fs else none
has_keys required j = none

abbrev pub as_text : Json → Option String
as_text (text s) = some s
as_text j = none

abbrev pub as_number : Json → Option ℕ
as_number (number n) = some n
as_number j = none

abbrev pub as_array : Json → Option Items
as_array (array xs) = some xs
as_array j = none

-- a text, or null
abbrev pub as_optional_text : Json → Option (Option String)
as_optional_text null = some none
as_optional_text (text s) = some (some s)
as_optional_text j = none
