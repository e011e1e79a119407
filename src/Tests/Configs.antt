-- ===== src/Tests/Configs.antt =====
-- The sample configuration passes its checks.
use mcp_broker.Prelude.{String, ◌≡◌, refl, some, List, [], ◌∷◌, Dict, lookup, All, map}
use mcp_broker.Prelude.Result.{ok}
use mcp_broker.Upstream.{UpstreamConfig, is_off, prefix_of}
use mcp_broker.Profile.{ToolExposureProfile}
use mcp_broker.Namespace.{Tool, Router, new_router, advertise_tools}
use mcp_broker.Namespace.Index.{IsVisible}
use mcp_broker.Config.{
  BrokerConfig, new_config, validate_unique_profile_prefixes, validate_upstream_profile_references,
  validate_mutating_upstream_allowlists,
}
use mcp_broker.Config.Offers.{IsNamed, offered, advertise_tools-total}
use mcp_broker.Tests.Samples.{settings, dev, two_upstreams}

abbrev profiles : Dict ToolExposureProfile
profiles = ("dev", dev) ∷ []

abbrev config : BrokerConfig
config = record { broker = settings; upstreams = two_upstreams; profiles = profiles }

advertise_tools-total_example :
    (r : Router) × (new_router settings two_upstreams (some dev) ≡ ok r)
    × ((key : String) (u : UpstreamConfig) (tools : List Tool)
        → lookup key two_upstreams ≡ some u
        → u.name ≡ key
        → IsVisible (some dev) u
        → All IsNamed tools
        → advertise_tools r key tools ≡ ok (map (offered "__" u) tools))
unfolding new_config validate_unique_profile_prefixes validate_upstream_profile_references
    validate_mutating_upstream_allowlists is_off prefix_of
advertise_tools-total_example =
    advertise_tools-total settings two_upstreams profiles config dev refl refl refl
