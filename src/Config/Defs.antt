-- ===== src/Config/Defs.antt =====
-- src/mcp_broker/config.py: `BrokerConfig.__post_init__` and the three functions that it calls.
use mcp_broker.Prelude.{
  String, Bool, true, false, not, ◌&&◌, ◌||◌, Option, none, some, List, [], ◌∷◌, Dict, ◌==◌,
  if◌then◌else◌, lookup,
}
use mcp_broker.Prelude.Result.{Result, ok, err, ◌>>=◌}
use mcp_broker.Upstream.{UpstreamConfig, BrokerSettings, is_off, prefix_of}
use mcp_broker.Profile.{ToolExposureProfile, allows_mutating_upstream}

-- The `ValueError`s, by what their messages name; `key_error` is the `KeyError` of `profiles[name]`.
pub data ConfigError : Type 0 where
  duplicate_prefix : String → String → ConfigError
  undefined_profile : String → String → ConfigError
  not_allowlisted : String → String → ConfigError
  key_error : String → ConfigError

pub record BrokerConfig : Type 0 where
  pub broker : BrokerSettings
  pub upstreams : Dict UpstreamConfig
  pub profiles : Dict ToolExposureProfile

-- The keys of the dictionary `seen`: a profile and a prefix. Its values are only tested for `None`.
abbrev pub Seen : Type 0
Seen = List (String × String)

-- `seen.get(key) is not None`
abbrev pub has_seen : Seen → String → String → Bool
has_seen [] profile prefix = false
has_seen ((p, q) ∷ rest) profile prefix =
    (p == profile && q == prefix) || has_seen rest profile prefix

-- The inner loop, over the profiles of one upstream.
unfoldable pub see_profiles : String → List String → Seen → Result ConfigError Seen
see_profiles prefix [] seen = ok seen
see_profiles prefix (profile ∷ rest) seen =
    let add = see_profiles prefix rest ((profile, prefix) ∷ seen) in
    if has_seen seen profile prefix then err (duplicate_prefix profile prefix) else add

unfoldable pub see_upstreams : Dict UpstreamConfig → Seen → Result ConfigError (Unit {0})
unfolding see_profiles
see_upstreams [] seen = ok tt
see_upstreams ((upstream_name, u) ∷ rest) seen =
    let skip = see_upstreams rest seen in
    let add = do seen' ← see_profiles (prefix_of u) u.profiles seen; see_upstreams rest seen'
    in if is_off u then skip else add

unfoldable pub validate_unique_profile_prefixes :
    Dict UpstreamConfig → Result ConfigError (Unit {0})
unfolding see_upstreams
validate_unique_profile_prefixes upstreams = see_upstreams upstreams []

abbrev defined : Option ToolExposureProfile → Bool
defined none = false
defined (some _) = true

unfoldable pub check_references :
    Dict ToolExposureProfile → String → List String → Result ConfigError (Unit {0})
check_references profiles upstream_name [] = ok tt
check_references profiles upstream_name (profile_name ∷ rest) =
    if defined (lookup profile_name profiles)
    then check_references profiles upstream_name rest
    else err (undefined_profile upstream_name profile_name)

unfoldable pub check_upstream_references :
    Dict ToolExposureProfile → Dict UpstreamConfig → Result ConfigError (Unit {0})
unfolding check_references
check_upstream_references profiles [] = ok tt
check_upstream_references profiles ((upstream_name, u) ∷ rest) = do
  _ ← check_references profiles upstream_name u.profiles
  check_upstream_references profiles rest

abbrev has_profiles : Dict ToolExposureProfile → Bool
has_profiles [] = false
has_profiles (_ ∷ _) = true

unfoldable pub validate_upstream_profile_references :
    Dict UpstreamConfig → Dict ToolExposureProfile → Result ConfigError (Unit {0})
unfolding check_upstream_references
validate_upstream_profile_references upstreams profiles =
    if has_profiles profiles then check_upstream_references profiles upstreams else ok tt

abbrev pub check_allowlist :
    String → String → Option ToolExposureProfile → Result ConfigError (Unit {0})
check_allowlist upstream_name profile_name none = err (key_error profile_name)
check_allowlist upstream_name profile_name (some p) =
    if allows_mutating_upstream p upstream_name
    then ok tt
    else err (not_allowlisted upstream_name profile_name)

unfoldable pub check_allowlists :
    Dict ToolExposureProfile → String → List String → Result ConfigError (Unit {0})
check_allowlists profiles upstream_name [] = ok tt
check_allowlists profiles upstream_name (profile_name ∷ rest) = do
  _ ← check_allowlist upstream_name profile_name (lookup profile_name profiles)
  check_allowlists profiles upstream_name rest

unfoldable pub check_mutating :
    Dict ToolExposureProfile → Dict UpstreamConfig → Result ConfigError (Unit {0})
unfolding check_allowlists
check_mutating profiles [] = ok tt
check_mutating profiles ((upstream_name, u) ∷ rest) =
    let skip = check_mutating profiles rest in
    let check = do
      _ ← check_allowlists profiles upstream_name u.profiles
      check_mutating profiles rest
    in if is_off u || not u.mutating then skip else check

unfoldable pub validate_mutating_upstream_allowlists :
    Dict UpstreamConfig → Dict ToolExposureProfile → Result ConfigError (Unit {0})
unfolding check_mutating
validate_mutating_upstream_allowlists upstreams profiles =
    if has_profiles profiles then check_mutating profiles upstreams else ok tt

-- `BrokerConfig(…)`: the configuration is there only if its checks pass.
unfoldable pub new_config :
    BrokerSettings
    → Dict UpstreamConfig
    → Dict ToolExposureProfile
    → Result ConfigError BrokerConfig
new_config broker upstreams profiles = do
  _ ← validate_unique_profile_prefixes upstreams
  _ ← validate_upstream_profile_references upstreams profiles
  _ ← validate_mutating_upstream_allowlists upstreams profiles
  ok (record { broker = broker; upstreams = upstreams; profiles = profiles })
