-- ===== src/Catalog/Asked.antt =====
-- The guards of the catalog's loop and those of the status report are separate code that agrees.
use mcp_broker.Prelude.{
  String, ◌≡◌, refl, Bool, Option, none, some, [], ◌∷◌, Dict, arith, split_words,
}
use mcp_broker.Upstream.{UpstreamConfig}
use mcp_broker.Profile.{ToolExposureProfile}
use mcp_broker.Catalog.Entries.{
  Texts, keep_upstreams, exposes_upstream, asks_upstream, catalog_upstreams,
  specific_query_can_select_upstream,
}

pub asks-exposes_upstream :
    (profile : Option ToolExposureProfile) (name : String) (u : UpstreamConfig)
    → asks_upstream profile name u ≡ exposes_upstream profile name u
unfolding asks_upstream exposes_upstream
asks-exposes_upstream none name u = ground arith
asks-exposes_upstream (some p) name u = ground arith

-- Two tests that agree keep the same upstreams.
keep_upstreams-same :
    (f g : String → UpstreamConfig → Bool) (d : Dict UpstreamConfig)
    → ((name : String) (u : UpstreamConfig) → f name u ≡ g name u)
    → keep_upstreams f d ≡ keep_upstreams g d
keep_upstreams-same f g [] same = refl
keep_upstreams-same f g ((name, u) ∷ rest) same =
    rw (same name u, keep_upstreams-same f g rest same) refl

-- Without a query and a name, the catalog asks the upstreams that the status says are exposed.
pub catalog_upstreams-all :
    (t : Texts) (profile : Option ToolExposureProfile) (d : Dict UpstreamConfig)
    (separator : String)
    → catalog_upstreams t profile d separator "" "" ≡ keep_upstreams (exposes_upstream profile) d
unfolding catalog_upstreams specific_query_can_select_upstream split_words
catalog_upstreams-all t profile d separator =
    keep_upstreams-same (asks_upstream profile) (exposes_upstream profile) d
      (asks-exposes_upstream profile)
