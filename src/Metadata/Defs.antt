-- ===== src/Metadata/Defs.antt =====
-- src/mcp_broker/request_metadata.py. The context variables are arguments: the metadata of the call
-- and what the broker adds to it. The keys of a mapping are texts.
use Prim.Native.Char.{code}
use mcp_broker.Prelude.{
  ℕ, String, Bool, true, false, not, ◌&&◌, ◌||◌, Option, none, some, List, [], ◌∷◌, Dict,
  if◌then◌else◌, lookup, insert, contains, leb, nat_eq,
}
use mcp_broker.Prelude.Result.{Result, ok, err, ◌>>=◌}
use mcp_broker.Value.{Value, pos, int, dict, fields, as_dict, as_str}
use mcp_broker.Profile.{ToolExposureProfile}

pub data MetadataError : Type 0 where
  meta_not_object : MetadataError
  not_mapping bad_name bad_source unknown_source : String → MetadataError

abbrev meta_of : Option Value → Result MetadataError (Dict Value)
meta_of none = ok []
meta_of (some (dict fs)) = ok (fields fs)
meta_of (some _) = err meta_not_object

-- The metadata that `request_metadata_scope` sets.
unfoldable pub request_metadata : Value → Result MetadataError (Dict Value)
request_metadata (dict fs) = meta_of (lookup "_meta" (fields fs))
request_metadata _ = ok []

abbrev pub copy : String → Option Value → Dict Value → Dict Value
copy name none out = out
copy name (some v) out = insert name v out

-- The comprehension, from what it has made so far.
unfoldable pub forward_onto : Dict Value → List String → Dict Value → Dict Value
forward_onto out [] metadata = out
forward_onto out (name ∷ names) metadata =
    forward_onto (copy name (lookup name metadata) out) names metadata

unfoldable pub forwarded_request_metadata : List String → Dict Value → Dict Value
unfolding forward_onto
forwarded_request_metadata names metadata = forward_onto [] names metadata

-- `d.update(e)`
unfoldable pub update : Dict Value → Dict Value → Dict Value
update d [] = d
update d ((k, v) ∷ rest) = update (insert k v d) rest

unfoldable pub outbound_request_metadata : List String → Dict Value → Dict Value → Dict Value
unfolding forwarded_request_metadata update
outbound_request_metadata names metadata broker =
    update (forwarded_request_metadata names metadata) broker

abbrev pub result_budget_meta_key : String
result_budget_meta_key = "mcp-broker/result_budget_chars"

abbrev pub budget_field : Option ℕ → Dict Value
budget_field none = []
budget_field (some n) = (result_budget_meta_key, int (pos n)) ∷ []

abbrev pub budget_of : Option ToolExposureProfile → Option ℕ
budget_of none = none
budget_of (some p) = p.result_budget_chars

unfoldable pub result_budget_metadata : Option ToolExposureProfile → Dict Value
result_budget_metadata profile = budget_field (budget_of profile)

abbrev is_letter : ℕ → Bool
is_letter c = (leb b'A' c && leb c b'Z') || (leb b'a' c && leb c b'z')

abbrev is_digit : ℕ → Bool
is_digit c = leb b'0' c && leb c b'9'

abbrev is_mark : ℕ → Bool
is_mark c = nat_eq c b'_' || nat_eq c b'.' || nat_eq c b':' || nat_eq c b'/' || nat_eq c b'-'

unfoldable pub in_meta_name : String → Bool
in_meta_name String.[] = true
in_meta_name (String.◌∷◌ c s) =
    (is_letter (code c) || is_digit (code c) || is_mark (code c)) && in_meta_name s

-- `META_NAME_PATTERN.fullmatch(s)`
unfoldable pub is_meta_name : String → Bool
unfolding in_meta_name
is_meta_name String.[] = false
is_meta_name (String.◌∷◌ c s) = (is_letter (code c) || is_digit (code c)) && in_meta_name s

abbrev is_newline : String → Bool
is_newline String.[] = false
is_newline (String.◌∷◌ c String.[]) = nat_eq (code c) 10
is_newline (String.◌∷◌ c (String.◌∷◌ d s)) = false

-- `$` also matches before a newline at the end.
unfoldable pub in_env_name : String → Bool
in_env_name String.[] = true
in_env_name (String.◌∷◌ c s) =
    is_newline (String.◌∷◌ c s)
    || ((is_letter (code c) || is_digit (code c) || nat_eq (code c) b'_') && in_env_name s)

-- `ENV_NAME_PATTERN.match(s)`
unfoldable pub is_env_name : String → Bool
unfolding in_env_name
is_env_name String.[] = false
is_env_name (String.◌∷◌ c s) = (is_letter (code c) || nat_eq (code c) b'_') && in_env_name s

abbrev check_source : List String → String → Option String → Result MetadataError String
check_source env name none = err (bad_source name)
check_source env name (some source) =
    if not (is_env_name source)
    then err (bad_source name)
    else if contains env source
    then ok source
    else err (unknown_source name)

abbrev pub check_meta : List String → String → Value → Result MetadataError String
check_meta env name v =
    if is_meta_name name then check_source env name (as_str v) else err (bad_name name)

unfoldable pub parse_fields : List String → Dict Value → Result MetadataError (Dict String)
parse_fields env [] = ok []
parse_fields env ((name, v) ∷ rest) = do
  source ← check_meta env name v
  others ← parse_fields env rest
  ok ((name, source) ∷ others)

abbrev mapped : String → List String → Option (Dict Value) → Result MetadataError (Dict String)
mapped path env none = err (not_mapping path)
mapped path env (some d) = parse_fields env d

unfoldable pub parse_request_meta :
    String → Value → List String → Result MetadataError (Dict String)
unfolding parse_fields
parse_request_meta path v configured_env_names = mapped path configured_env_names (as_dict v)
