-- ===== src/Layers/Defs.antt =====
-- src/mcp_broker/config_layers.py: `_validate_layer` and the functions below it. The keys of a
-- mapping are texts here, so that `str(key)` is the key.
use mcp_broker.Prelude.{
  ℕ, suc, String, Bool, true, false, ◌&&◌, ◌||◌, Option, none, some, List, [], ◌∷◌, ◌++◌,
  if◌then◌else◌, ◌==◌, lookup, is_blank, show,
}
use mcp_broker.Prelude.Result.{Result, ok, err, ◌>>=◌}
use mcp_broker.Layers.Patterns.{is_secret_key, is_variable}
use mcp_broker.Value.{Value, Items, Fields, dict, list, nil, cons, end, field, fields, as_str}

-- The `ConfigLayerError`s, by the layer and the path that their messages name.
pub data LayerError : Type 0 where
  no_layers : LayerError
  name_required : LayerError
  not_an_object : String → LayerError
  literal_secret : String → List String → LayerError
  not_a_variable : String → List String → LayerError

pub record LayerDocument : Type 0 where
  pub name : String
  pub content : Value

abbrev pub names_variable : Option String → Bool
names_variable none = false
names_variable (some s) = is_variable s

unfoldable pub validate_secret_ref : String → List String → Value → Result LayerError (Unit {0})
validate_secret_ref layer path v =
    if names_variable (as_str v) then ok tt else err (not_a_variable layer path)

abbrev is_text : Option String → Bool
is_text none = false
is_text (some s) = true

-- `_SECRET_KEY_PATTERN.search(str(key)) and isinstance(child, str)`
abbrev pub holds_literal : String → Value → Bool
holds_literal key child = is_secret_key key && is_text (as_str child)

-- `key in value`
abbrev pub has_field : String → Fields → Bool
has_field key end = false
has_field key (field k v fs) = k == key || has_field key fs

-- The mapping's own checks, before the loop over its children.
abbrev pub check_mapping :
    String
    → List String
    → Fields
    → Option Value
    → Result LayerError (Unit {0})
    → Result LayerError (Unit {0})
check_mapping layer path fs (some ref) children =
    if has_field "secret_value" fs
    then err (literal_secret layer path)
    else validate_secret_ref layer path ref
check_mapping layer path fs none children =
    if has_field "secret_value" fs then err (literal_secret layer path) else children

unfoldable mutual
  unfolding validate_secret_ref

  pub validate_secret_references : String → List String → Value → Result LayerError (Unit {0})
  validate_secret_references layer path (dict fs) =
      let children = validate_fields layer path fs in
      check_mapping layer path fs (lookup "secret_ref" (fields fs)) children
  validate_secret_references layer path (list vs) = validate_items layer path 0 vs
  validate_secret_references layer path _ = ok tt

  pub validate_fields : String → List String → Fields → Result LayerError (Unit {0})
  validate_fields layer path end = ok tt
  validate_fields layer path (field key child fs) =
      let first = validate_secret_references layer (path ++ key ∷ []) child in
      let later = validate_fields layer path fs in
      if holds_literal key child
      then err (literal_secret layer (path ++ key ∷ []))
      else (first >>= λ _. later)

  pub validate_items : String → List String → ℕ → Items → Result LayerError (Unit {0})
  validate_items layer path index nil = ok tt
  validate_items layer path index (cons child vs) =
      let first = validate_secret_references layer (path ++ show index ∷ []) child in
      let later = validate_items layer path (suc index) vs in first >>= λ _. later

abbrev validate_object : LayerDocument → Value → Result LayerError (Unit {0})
validate_object layer (dict fs) = validate_secret_references layer.name [] (dict fs)
validate_object layer _ = err (not_an_object layer.name)

unfoldable pub validate_layer : LayerDocument → Result LayerError (Unit {0})
validate_layer layer =
    if is_blank layer.name then err name_required else validate_object layer layer.content
