-- ===== src/Catalog/Projection.antt =====
-- src/mcp_broker/catalog.py: `apply_projection` and the functions around it. `json.dumps` with
-- sorted keys and `json.loads`, whose `ValueError` is `none`, are arguments.
use mcp_broker.Prelude.{
  ℕ, String, Bool, true, false, not, ◌&&◌, ◌||◌, Option, none, some, List, [], ◌∷◌, Dict, is_empty,
  ◌==◌, if◌then◌else◌, lookup, insert,
}
use mcp_broker.Prelude.Result.{Result, ok, err, ◌>>=◌}
use mcp_broker.Value.{
  Value, Items, pos, null, bool, int, str, list, dict, nil, cons, end, field, fields, of_fields,
  as_dict, as_str, got,
}
use mcp_broker.Catalog.Trees.{project_value}

-- The errors by what their messages say; `no_mapping` is the `TypeError` of a `_meta` that takes
-- no key.
pub data ProjectionError : Type 0 where
  unknown_keys paths_not_strings cap_not_natural no_mapping : ProjectionError

pub record Json : Type 0 where
  pub dumps : Value → String
  pub loads : String → Option Value

abbrev is_known : String → Bool
is_known key = key == "paths" || key == "max_array_items"

abbrev all_known : Dict Value → Bool
all_known [] = true
all_known ((key, v) ∷ rest) = is_known key && all_known rest

abbrev add_string : String → Option (List String) → Option (List String)
add_string s none = none
add_string s (some rest) = if is_empty s then some rest else some (s ∷ rest)

abbrev strings : Items → Option (List String)
strings nil = some []
strings (cons (str s) vs) = add_string s (strings vs)
strings (cons _ vs) = none

-- Empty paths are left out.
abbrev clean_paths : Value → Result ProjectionError (List String)
clean_paths null = ok []
clean_paths (list vs) = elim (strings vs) [ none ↦ err paths_not_strings | some ps ↦ ok ps ]
clean_paths _ = err paths_not_strings

abbrev clean_cap : Value → Result ProjectionError (Option ℕ)
clean_cap null = ok none
clean_cap (int (pos n)) = ok (some n)
clean_cap _ = err cap_not_natural

-- `None` and the empty list of paths are one: the callers only ask whether there are any.
unfoldable pub normalize_projection : Dict Value → Result ProjectionError (List String × Option ℕ)
normalize_projection projection = if not (all_known projection) then err unknown_keys else do
  paths ← clean_paths (got (lookup "paths" projection))
  cap ← clean_cap (got (lookup "max_array_items" projection))
  ok (paths, cap)

abbrev pub asks_nothing : List String × Option ℕ → Bool
asks_nothing ([], none) = true
asks_nothing _ = false

abbrev pub text_block : String → Value
text_block text = dict (field "type" (str "text") (field "text" (str text) end))

abbrev is_text_type : Option String → Bool
is_text_type none = false
is_text_type (some s) = s == "text"

-- The text of a block of type `text`.
abbrev block_text : Option (Dict Value) → Option String
block_text none = none
block_text (some block) =
    if is_text_type (as_str (got (lookup "type" block)))
    then as_str (got (lookup "text" block))
    else none

-- `{**block, "text": …}`
abbrev with_text : Value → String → Value
with_text (dict fs) text = dict (of_fields (insert "text" (str text) (fields fs)))
with_text v text = v

abbrev reparsed : Json → Value → List String × Option ℕ → Option Value → Option Value
reparsed j block (paths, cap) none = none
reparsed j block (paths, cap) (some parsed) =
    some (with_text block (j.dumps (project_value parsed paths cap)))

abbrev loaded : Json → Option String → Option Value
loaded j none = none
loaded j (some text) = j.loads text

unfoldable pub project_text_block : Json → List String × Option ℕ → Value → Option Value
project_text_block j asked block = reparsed j block asked (loaded j (block_text (as_dict block)))

abbrev or_block : Value → Option Value → Items → Items
or_block block none rest = cons block rest
or_block block (some pruned) rest = cons pruned rest

abbrev has_value : Option Value → Bool
has_value none = false
has_value (some _) = true

-- The loop over the blocks: whether a block was projected, and the new content.
unfoldable pub project_blocks : Json → List String × Option ℕ → Items → Bool × Items
unfolding project_text_block
project_blocks j asked nil = (false, nil)
project_blocks j asked (cons block blocks) =
    let (applied, rest) = project_blocks j asked blocks in
    (
      has_value (project_text_block j asked block) || applied,
      or_block block (project_text_block j asked block) rest,
    )

abbrev blocks_of : Value → Items
blocks_of (list vs) = vs
blocks_of _ = nil

abbrev replaced : Json → Dict Value → Value → Bool × Dict Value
replaced j response pruned = (
  true,
  insert "content" (list (cons (text_block (j.dumps pruned)) nil))
      (insert "structuredContent" pruned response),
)

-- Whether something was projected, and the response with its content replaced.
abbrev pub project_structured :
    Json → List String × Option ℕ → Dict Value → Value → Bool × Dict Value
project_structured j (paths, cap) response (list vs) =
    replaced j response (project_value (list vs) paths cap)
project_structured j (paths, cap) response (dict fs) =
    replaced j response (project_value (dict fs) paths cap)
project_structured j asked response _ =
    let (applied, content) = project_blocks j asked (blocks_of (got (lookup "content" response))) in
    (applied, insert "content" (list content) response)

abbrev path_items : List String → Items
path_items [] = nil
path_items (p ∷ ps) = cons (str p) (path_items ps)

abbrev cap_value_of : Option ℕ → Value
cap_value_of none = null
cap_value_of (some n) = int (pos n)

abbrev note : Bool → List String × Option ℕ → Value
note applied (paths, cap) = dict (
    field "applied" (bool applied)
      (field "paths" (list (path_items paths)) (field "max_array_items" (cap_value_of cap) end)))

-- `projected.setdefault("_meta", {})["projection"] = …`
abbrev add_note : Dict Value → Value → Option Value → Result ProjectionError (Dict Value)
add_note response remark none = ok (insert "_meta" (dict (field "projection" remark end)) response)
add_note response remark (some (dict fs)) =
    ok (insert "_meta" (dict (of_fields (insert "projection" remark (fields fs)))) response)
add_note response remark (some _) = err no_mapping

abbrev pub noted : List String × Option ℕ → Bool × Dict Value → Result ProjectionError (Dict Value)
noted asked (applied, response) = add_note response (note applied asked) (lookup "_meta" response)

abbrev pub projected :
    Json → Dict Value → List String × Option ℕ → Result ProjectionError (Dict Value)
projected j response asked =
    if asks_nothing asked
    then ok response
    else noted asked
        (project_structured j asked response (got (lookup "structuredContent" response)))

unfoldable pub apply_projection :
    Json → Dict Value → Dict Value → Result ProjectionError (Dict Value)
unfolding project_blocks normalize_projection
apply_projection j response projection = do
  asked ← normalize_projection projection
  projected j response asked
