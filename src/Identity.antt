-- ===== src/Identity.antt =====
-- src/mcp_broker/config_identity.py and `BrokerConfig.identity_status_payload`.
use mcp_broker.Prelude.{
  String, Option, none, some, List, [], ◌∷◌, Dict, is_empty, if◌then◌else◌, lookup, contains,
  sort_texts,
}
use mcp_broker.Prelude.Result.{Result, ok, err, ◌>>=◌}
use mcp_broker.Value.{
  Value, Fields, Items, pos, null, int, str, list, dict, nil, cons, end, field, fields,
}

-- The `ValueError`s by what they say.
pub data IdentityError : Type 0 where
  not_mapping : IdentityError
  unknown_key must_be_text : String → IdentityError

pub record BrokerIdentityConfig : Type 0 where
  pub broker_id : String
  pub environment : String
  pub bundle_version : String

abbrev pub default_identity : BrokerIdentityConfig
default_identity = record {
  broker_id = "mcp-broker-local";
  environment = "local";
  bundle_version = "unbundled";
}

abbrev broker_identity_keys : List String
broker_identity_keys = "broker_id" ∷ "environment" ∷ "bundle_version" ∷ []

unfoldable pub validate_identity_keys : Dict Value → Result IdentityError (Dict Value)
validate_identity_keys [] = ok []
validate_identity_keys ((key, v) ∷ rest) =
    let checked = validate_identity_keys rest in
    if contains broker_identity_keys key
    then (checked >>= λ d. ok ((key, v) ∷ d))
    else err (unknown_key key)

-- `_parse_non_empty_string` of `raw.get(key, default)`
abbrev pub parse_non_empty_string : String → String → Option Value → Result IdentityError String
parse_non_empty_string path default none = ok default
parse_non_empty_string path default (some (str s)) =
    if is_empty s then err (must_be_text path) else ok s
parse_non_empty_string path default (some _) = err (must_be_text path)

abbrev identity_of : Dict Value → Result IdentityError BrokerIdentityConfig
identity_of raw = do
  raw ← validate_identity_keys raw
  broker_id ← parse_non_empty_string "broker_id" default_identity.broker_id (lookup "broker_id" raw)
  environment ←
      parse_non_empty_string "environment" default_identity.environment (lookup "environment" raw)
  bundle_version ←
      parse_non_empty_string "bundle_version" default_identity.bundle_version
        (lookup "bundle_version" raw)
  ok (record { broker_id = broker_id; environment = environment; bundle_version = bundle_version })

-- `BrokerIdentityConfig.from_mapping`
unfoldable pub identity_from_mapping : Value → Result IdentityError BrokerIdentityConfig
unfolding validate_identity_keys
identity_from_mapping null = identity_of []
identity_from_mapping (dict fs) = identity_of (fields fs)
identity_from_mapping _ = err not_mapping

abbrev pub text_or_null : Option String → Value
text_or_null none = null
text_or_null (some s) = str s

abbrev texts : List String → Items
texts [] = nil
texts (s ∷ ss) = cons (str s) (texts ss)

abbrev pub status_payload : BrokerIdentityConfig → Option String → List String → Fields
status_payload i active_profile active_profiles =
    field "active_profile" (text_or_null active_profile) (
      field "active_profiles" (list (texts active_profiles)) (
        field "broker_id" (str i.broker_id) (
          field "bundle_version" (str i.bundle_version)
            (field "environment" (str i.environment) (field "schema_version" (int (pos 1)) end)))))

-- The profiles of the configuration are given by their names.
unfoldable pub identity_status_payload : BrokerIdentityConfig → List String → Option String → Fields
identity_status_payload i profiles active_profile =
    status_payload i active_profile (sort_texts profiles)
