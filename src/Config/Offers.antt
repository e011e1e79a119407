-- ===== src/Config/Offers.antt =====
-- A configuration that passes its checks offers the tools of every upstream that a profile sees.
use mcp_broker.Prelude.{
  String, ◌≡◌, refl, true, false, some, List, [], ◌∷◌, Dict, lookup, All, arith, is_empty, eq_iff,
  contains, map, ◌++ₛ◌,
}
use mcp_broker.Prelude.Result.{ok}
use mcp_broker.Upstream.{UpstreamConfig, BrokerSettings, is_off, prefix_of}
use mcp_broker.Profile.{ToolExposureProfile, allows_mutating_upstream}
use mcp_broker.Namespace.{
  Tool, tool_name, Router, new_router, may_mutate, enabled_upstream, advertise_loop,
  advertise_tools,
}
use mcp_broker.Namespace.Index.{IsVisible}
use mcp_broker.Namespace.RoundTrip.{new_router-IsBuilt}
use mcp_broker.Config.Defs.{
  BrokerConfig, check_allowlists, check_mutating, new_config, validate_unique_profile_prefixes,
  validate_mutating_upstream_allowlists,
}
use mcp_broker.Config.Prefixes.{new_router-total}

allowlists_sound :
    (profiles : Dict ToolExposureProfile) (key : String) (names : List String) (name : String)
    (p : ToolExposureProfile)
    → check_allowlists profiles key names ≡ ok tt
    → contains names name ≡ true
    → lookup name profiles ≡ some p
    → allows_mutating_upstream p key ≡ true
unfolding check_allowlists
allowlists_sound profiles key [] name p h c found = cc
allowlists_sound profiles key (n ∷ names) name p h c found =
    ground (arith, eq_iff n name, allowlists_sound profiles key names name p)

-- A mutating upstream that is on has the allowlist entry of each of its profiles.
mutating_sound :
    (profiles : Dict ToolExposureProfile) (ups : Dict UpstreamConfig) (key : String)
    (u : UpstreamConfig) (name : String) (p : ToolExposureProfile)
    → check_mutating profiles ups ≡ ok tt
    → lookup key ups ≡ some u
    → is_off u ≡ false
    → u.mutating ≡ true
    → contains u.profiles name ≡ true
    → lookup name profiles ≡ some p
    → allows_mutating_upstream p key ≡ true
unfolding check_mutating
mutating_sound profiles [] key u name p h found on mutates c known = cc
mutating_sound profiles ((k, w) ∷ rest) key u name p h found on mutates c known = ground (
  arith,
  eq_iff k key,
  allowlists_sound profiles k w.profiles name p,
  mutating_sound profiles rest key u name p,
)

-- Each tool has a name.
abbrev pub IsNamed : Tool → Type 0
IsNamed t = is_empty (tool_name t) ≡ false

-- A tool under the name that the broker gives it: prefix, separator, name.
abbrev pub offered : String → UpstreamConfig → Tool → Tool
offered separator u t = record t { name = some (prefix_of u ++ₛ (separator ++ₛ tool_name t)) }

loop_total :
    (r : Router) (u : UpstreamConfig) (key : String) (tools : List Tool)
    → All IsNamed tools
    → advertise_loop r u key tools ≡ ok (map (offered r.separator u) tools)
unfolding advertise_loop
loop_total r u key [] named = refl
loop_total r u key (t ∷ ts) (now, later) = rw (now, loop_total r u key ts later) refl

enabled_complete :
    (r : Router) (key : String) (u : UpstreamConfig)
    → lookup key r.upstreams ≡ some u
    → IsVisible r.profile u
    → enabled_upstream r key ≡ ok u
unfolding enabled_upstream
enabled_complete r key u found seen =
    rw (found, seen.on) (ground (arith, found, seen.exposed, seen.on))

advertise_total :
    (r : Router) (key : String) (u : UpstreamConfig) (tools : List Tool)
    → lookup key r.upstreams ≡ some u
    → IsVisible r.profile u
    → may_mutate r.profile u ≡ true
    → All IsNamed tools
    → advertise_tools r key tools ≡ ok (map (offered r.separator u) tools)
unfolding advertise_tools
advertise_total r key u tools found seen granted named =
    rw (enabled_complete r key u found seen, granted) (loop_total r u key tools named)

record IsChecked (broker : BrokerSettings) (ups : Dict UpstreamConfig)
    (profiles : Dict ToolExposureProfile) : Type 0 where
  unique : validate_unique_profile_prefixes ups ≡ ok tt
  allowlisted : validate_mutating_upstream_allowlists ups profiles ≡ ok tt

new_config-IsChecked :
    (broker : BrokerSettings) (ups : Dict UpstreamConfig) (profiles : Dict ToolExposureProfile)
    (c : BrokerConfig)
    → new_config broker ups profiles ≡ ok c
    → IsChecked broker ups profiles
unfolding new_config
new_config-IsChecked broker ups profiles c h = ground arith

granted :
    (profiles : Dict ToolExposureProfile) (ups : Dict UpstreamConfig) (key : String)
    (u : UpstreamConfig) (p : ToolExposureProfile)
    → validate_mutating_upstream_allowlists ups profiles ≡ ok tt
    → lookup key ups ≡ some u
    → u.name ≡ key
    → lookup p.name profiles ≡ some p
    → IsVisible (some p) u
    → may_mutate (some p) u ≡ true
unfolding validate_mutating_upstream_allowlists
granted [] ups key u p h found named known seen = cc
granted (q ∷ qs) ups key u p h found named known seen =
    ground (arith, named, mutating_sound (q ∷ qs) ups key u p.name p h found seen.on)

-- A configuration that passes its checks, with a separator that is not empty, has a router for each
-- of its profiles. For every upstream that is switched on and exposed to the profile, also for one
-- that is mutating, that router advertises all the tools that the upstream lists, in order, each
-- as it is but for its name, which is the upstream's prefix, the separator and the tool's name;
-- provided that each tool has a name, and that the upstream has its key for a name, as
-- `from_mapping` gives it.
pub advertise_tools-total :
    (broker : BrokerSettings) (ups : Dict UpstreamConfig) (profiles : Dict ToolExposureProfile)
    (c : BrokerConfig) (p : ToolExposureProfile)
    → new_config broker ups profiles ≡ ok c
    → is_empty broker.tool_namespace_separator ≡ false
    → lookup p.name profiles ≡ some p
    → (r : Router) × (new_router broker ups (some p) ≡ ok r)
      × ((key : String) (u : UpstreamConfig) (tools : List Tool)
          → lookup key ups ≡ some u
          → u.name ≡ key
          → IsVisible (some p) u
          → All IsNamed tools
          → advertise_tools r key tools
            ≡ ok (map (offered broker.tool_namespace_separator u) tools))
advertise_tools-total broker ups profiles c p valid separator known =
    let checked = new_config-IsChecked broker ups profiles c valid in
    let (r, built) = new_router-total broker ups p checked.unique separator in
    let b = new_router-IsBuilt broker ups (some p) built in
    (
      r,
      built,
      λ key u tools found named seen all. rw (← b.same_separator) (
          advertise_total r key u tools (rw b.same_upstreams found) (rw b.same_profile seen)
            (rw b.same_profile
              (granted profiles ups key u p checked.allowlisted found named known seen))
            all),
    )
