-- ===== src/Value.antt =====
-- The values that JSON and YAML documents hold, as Python sees them.
use mcp_broker.Prelude.{ℕ, zero, String, Bool, true, false, Option, none, some, List, [], ◌∷◌, Dict}

-- `negsuc n` is -(n + 1).
pub data ℤ : Type 0 where
  pos : ℕ → ℤ
  negsuc : ℕ → ℤ

-- `max(0, z)`
abbrev pub max_zero : ℤ → ℕ
max_zero (pos n) = n
max_zero (negsuc n) = zero

-- A float is kept by its text: no modelled operation computes with it.
mutual
  pub data Value : Type 0 where
    null : Value
    bool : Bool → Value
    int : ℤ → Value
    float : String → Value
    str : String → Value
    list : Items → Value
    dict : Fields → Value

  pub data Items : Type 0 where
    nil : Items
    cons : Value → Items → Items

  pub data Fields : Type 0 where
    end : Fields
    field : String → Value → Fields → Fields

abbrev pub items : Items → List Value
items nil = []
items (cons v vs) = v ∷ items vs

abbrev pub fields : Fields → Dict Value
fields end = []
fields (field k v fs) = (k, v) ∷ fields fs

abbrev pub of_fields : Dict Value → Fields
of_fields [] = end
of_fields ((k, v) ∷ d) = field k v (of_fields d)

abbrev pub of_items : List Value → Items
of_items [] = nil
of_items (v ∷ vs) = cons v (of_items vs)

-- `isinstance(v, dict)`, `isinstance(v, list)` and `isinstance(v, str)`, with what they find
abbrev pub as_dict : Value → Option (Dict Value)
as_dict (dict fs) = some (fields fs)
as_dict _ = none

abbrev pub as_list : Value → Option (List Value)
as_list (list vs) = some (items vs)
as_list _ = none

abbrev pub as_str : Value → Option String
as_str (str s) = some s
as_str _ = none

-- `isinstance(v, int)`; a `bool` is an `int`.
abbrev pub as_int : Value → Option ℤ
as_int (int z) = some z
as_int (bool true) = some (pos 1)
as_int (bool false) = some (pos 0)
as_int _ = none

-- `d.get(k)` followed by one of the tests above: a missing key and `None` both fail it.
abbrev pub got : Option Value → Value
got none = null
got (some v) = v

-- `v is True` and `v is False`
abbrev pub is_true : Value → Bool
is_true (bool true) = true
is_true _ = false

abbrev pub is_false : Value → Bool
is_false (bool false) = true
is_false _ = false

-- A mapping has the key with the value.
pub data HasField : String → Value → Fields → Type 0 where
  first : {k : String} {v : Value} {fs : Fields} → HasField k v (field k v fs)
  later : {k j : String} {v w : Value} {fs : Fields} → HasField k v fs → HasField k v (field j w fs)
