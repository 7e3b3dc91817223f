-- ===== src/Json.antt =====
-- JSON values as Python holds them: the columns of type JSON, and request and provider payloads.
-- A float is kept as the bit pattern of its double, which the program hands on and never reads here.
use flash_connector.Prelude.{
  ℕ, zero, String, Bool, true, false, not, ◌||◌, List, [], ◌∷◌, Option, none, some, nat_eq,
  is_empty,
}
use flash_connector.Prelude.Dict.{Dict}

-- `negsuc n` is -(n + 1).
pub data ℤ : Type 0 where
  pos : ℕ → ℤ
  negsuc : ℕ → ℤ

mutual
  pub data Json : Type 0 where
    null : Json
    bool : Bool → Json
    int : ℤ → Json
    float : ℕ → Json
    str : String → Json
    arr : Items → Json
    obj : Fields → Json

  pub data Items : Type 0 where
    nil : Items
    cons : Json → Items → Items

  pub data Fields : Type 0 where
    end : Fields
    field : String → Json → Fields → Fields

abbrev pub items : Items → List Json
items nil = []
items (cons j js) = j ∷ items js

abbrev pub to_items : List Json → Items
to_items [] = nil
to_items (j ∷ js) = cons j (to_items js)

abbrev pub fields : Fields → Dict Json
fields end = []
fields (field k v r) = (k, v) ∷ fields r

abbrev pub to_fields : Dict Json → Fields
to_fields [] = end
to_fields ((k, v) ∷ r) = field k v (to_fields r)

abbrev pub object : Dict Json → Json
object d = obj (to_fields d)

-- `x if isinstance(x, str) else None`
abbrev pub as_text : Json → Option String
as_text (str s) = some s
as_text _ = none

-- `x if isinstance(x, dict) else {}`
abbrev pub as_dict : Json → Dict Json
as_dict (obj f) = fields f
as_dict _ = []

-- `x if isinstance(x, list) else []`
abbrev pub as_list : Json → List Json
as_list (arr js) = items js
as_list _ = []

abbrev pub optional_text : Option String → Json
optional_text none = null
optional_text (some s) = str s

-- `bool(x)`: zero, of either sign, and what is empty count as false.
abbrev pub truthy : Json → Bool
truthy null = false
truthy (bool b) = b
truthy (int (pos zero)) = false
truthy (int _) = true
truthy (float bits) = not (nat_eq bits 0 || nat_eq bits 0x8000000000000000)
truthy (str s) = not (is_empty s)
truthy (arr nil) = false
truthy (arr _) = true
truthy (obj end) = false
truthy (obj _) = true
