-- ===== src/Elicitation/Checks.antt =====
-- src/mcp_broker/elicitation.py: the modes that a host supports, and `_valid_reply`.
use mcp_broker.Prelude.{
  String, Bool, true, false, not, ◌&&◌, ◌||◌, Option, none, some, [], ◌∷◌, Dict, ◌==◌, lookup,
}
use mcp_broker.Value.{Value, str, int, dict, end, as_dict, as_str, got}

-- `d.get(k, v)`
abbrev pub get_or : Value → Option Value → Value
get_or v none = v
get_or v (some w) = w

abbrev pub mode_in : Option (Dict Value) → Option String
mode_in none = none
mode_in (some params) = as_str (get_or (str "form") (lookup "mode" params))

-- The mode that the request asks for; `none` is one that is no text.
unfoldable pub mode_of : Dict Value → Option String
mode_of request = mode_in (as_dict (get_or (dict end) (lookup "params" request)))

abbrev pub says : String → Option String → Bool
says text none = false
says text (some s) = s == text

abbrev pub has_dict : String → Dict Value → Bool
has_dict key d = is_there (as_dict (got (lookup key d)))
  where
    is_there : Option (Dict Value) → Bool
    is_there none = false
    is_there (some _) = true

abbrev pub is_empty_dict : Dict Value → Bool
is_empty_dict [] = true
is_empty_dict (_ ∷ _) = false

unfoldable pub supports : Option (Dict Value) → Option String → Bool
supports none mode = false
supports (some c) mode =
    (says "form" mode && (is_empty_dict c || has_dict "form" c))
    || (says "url" mode && has_dict "url" c)

abbrev pub is_present : Option Value → Bool
is_present none = false
is_present (some _) = true

abbrev pub is_int : Value → Bool
is_int (int z) = true
is_int _ = false

abbrev pub is_str : Value → Bool
is_str (str s) = true
is_str _ = false

abbrev pub error_valid : Option (Dict Value) → Bool
error_valid none = false
error_valid (some e) = is_int (got (lookup "code" e)) && is_str (got (lookup "message" e))

abbrev pub is_action : Option String → Bool
is_action a = says "accept" a || says "decline" a || says "cancel" a

abbrev pub result_valid : Option (Dict Value) → Bool
result_valid none = false
result_valid (some r) =
    is_action (as_str (got (lookup "action" r)))
    && (not (is_present (lookup "content" r)) || has_dict "content" r)

abbrev pub outcome_valid : Option Value → Option Value → Bool
outcome_valid (some result) (some error) = false
outcome_valid none none = false
outcome_valid none (some error) = error_valid (as_dict error)
outcome_valid (some result) none = result_valid (as_dict result)

-- `_valid_reply` of a mapping
unfoldable pub valid_reply : Dict Value → String → Bool
valid_reply response request_id =
    says "2.0" (as_str (got (lookup "jsonrpc" response)))
    && says request_id (as_str (got (lookup "id" response)))
    && not (is_present (lookup "method" response))
    && outcome_valid (lookup "result" response) (lookup "error" response)
