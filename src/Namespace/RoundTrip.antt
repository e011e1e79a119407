-- ===== src/Namespace/RoundTrip.antt =====
-- Advertised names resolve to the tools that they stand for.
use mcp_broker.Prelude.{
  String, ◌++ₛ◌, ◌≡◌, ap₂, true, false, Option, some, List, [], ◌∷◌, map, Dict, lookup, arith,
  Bool-cases, inl, inr, is_empty, split_once, split_once-join, split_once_sound, Option-cases, ◌⊎◌,
}
use mcp_broker.Prelude.Result.{Result, ok, Result-cases}
use mcp_broker.Upstream.{UpstreamConfig, BrokerSettings, prefix_of}
use mcp_broker.Profile.{ToolExposureProfile}
use mcp_broker.Namespace.Defs.{
  NamespaceError, Tool, Router, ToolRoute, tool_name, namespaced, build_prefix_index, new_router,
  enabled_upstream, advertise_loop, advertise_tools, resolve_tool_name, may_mutate,
}
use mcp_broker.Namespace.Index.{IsVisible, build_complete, build_sound, Source}

-- The separator is first met behind the prefix.
abbrev pub Splits : Router → UpstreamConfig → Type 0
Splits r u = split_once r.separator (prefix_of u ++ₛ r.separator) ≡ some (prefix_of u, "")

-- `ToolNamespaceRouter` keeps what it is given, and its index is the one that the loop builds.
pub record IsBuilt (settings : BrokerSettings) (upstreams : Dict UpstreamConfig)
    (profile : Option ToolExposureProfile) (r : Router) : Type 0 where
  pub same_separator : r.separator ≡ settings.tool_namespace_separator
  pub same_upstreams : r.upstreams ≡ upstreams
  pub same_profile : r.profile ≡ profile
  pub indexed : build_prefix_index upstreams profile [] ≡ ok r.prefix_to_upstream

pub new_router-IsBuilt :
    (settings : BrokerSettings) (upstreams : Dict UpstreamConfig)
    (profile : Option ToolExposureProfile) {r : Router}
    → new_router settings upstreams profile ≡ ok r
    → IsBuilt settings upstreams profile r
unfolding new_router
new_router-IsBuilt settings upstreams profile h = ground arith

-- What the checks of `_enabled_upstream` establish.
pub record IsEnabled (r : Router) (key : String) (u : UpstreamConfig) : Type 0 where
  pub known : lookup key r.upstreams ≡ some u
  pub visible : IsVisible r.profile u

pub IsEnabled-sound :
    (r : Router) (key : String) {u : UpstreamConfig}
    → enabled_upstream r key ≡ ok u
    → IsEnabled r key u
unfolding enabled_upstream
IsEnabled-sound r key h = ground arith

-- What `advertise_tools` has checked when it returns.
pub record Advertised (r : Router) (key : String) (tools out : List Tool) : Type 0 where
  pub upstream : UpstreamConfig
  pub enabled : IsEnabled r key upstream
  pub granted : may_mutate r.profile upstream ≡ true
  pub looped : advertise_loop r upstream key tools ≡ ok out

pub advertise_tools_inv :
    (r : Router) (key : String) (tools : List Tool) {out : List Tool}
    → advertise_tools r key tools ≡ ok out
    → Advertised r key tools out
unfolding advertise_tools
advertise_tools_inv r key tools h = elim (Result-cases (enabled_upstream r key)) [
  | inr (e, failed) ↦ cc
  | inl (u, passed) ↦ elim (Bool-cases (may_mutate r.profile u)) [
    | inr refused ↦ ground arith
    | inl granted ↦ record {
      upstream = u;
      enabled = IsEnabled-sound r key passed;
      granted = granted;
      looped = ground arith;
    }
  ]
]

-- One name: the router's own name for a tool of a visible upstream resolves to that tool.
pub resolve-namespaced :
    (r : Router) (key : String) (u : UpstreamConfig) (name : String)
    → lookup (prefix_of u) r.prefix_to_upstream ≡ some key
    → Splits r u
    → is_empty name ≡ false
    → resolve_tool_name r (namespaced r u name)
      ≡ ok (record { upstream_name = key; upstream_tool_name = name })
unfolding resolve_tool_name
resolve-namespaced r key u name indexed splits named =
    rw (split_once-join r.separator (prefix_of u) name splits, named, indexed)

abbrev pub owned : String → String → Result NamespaceError ToolRoute
owned key name = ok (record { upstream_name = key; upstream_tool_name = name })

abbrev advertised : Router → UpstreamConfig → Tool → Tool
advertised r u t = record t { name = some (namespaced r u (tool_name t)) }

-- What holds of each name that the loop makes holds of its list of tools, in order.
pub map-advertise_loop :
    {A : Type 0} (r : Router) (key : String) (u : UpstreamConfig) (f g : String → A)
    (tools : List Tool) {out : List Tool}
    → ((name : String) → is_empty name ≡ false → f (namespaced r u name) ≡ g name)
    → advertise_loop r u key tools ≡ ok out
    → map (λ t. f (tool_name t)) out ≡ map (λ t. g (tool_name t)) tools
unfolding advertise_loop
map-advertise_loop r key u f g [] same h = ground arith
map-advertise_loop r key u f g (t ∷ ts) {out} same h = elim (Bool-cases (is_empty (tool_name t))) [
  | inl unnamed ↦ ground arith
  | inr named ↦ elim (Result-cases (advertise_loop r u key ts)) [
    | inr (e, failed) ↦ ground arith
    | inl (rest, passed) ↦
        let made : advertised r u t ∷ rest ≡ out = cc (rw (named, passed) at h) in
        rw (← made)
          (ap₂ ◌∷◌ (same (tool_name t) named) (map-advertise_loop r key u f g ts same passed))
  ]
]

-- In a router that was built from a configuration, each tool that `advertise_tools` returns for an
-- upstream resolves, by its advertised name, to that upstream and to the tool's own name there, in
-- order. The separator must be first met behind the upstream's prefix in the prefix followed by it.
pub resolve-advertise_tools :
    (settings : BrokerSettings) (upstreams : Dict UpstreamConfig)
    (profile : Option ToolExposureProfile) (r : Router) (key : String) (u : UpstreamConfig)
    (tools out : List Tool)
    → new_router settings upstreams profile ≡ ok r
    → advertise_tools r key tools ≡ ok out
    → lookup key upstreams ≡ some u
    → Splits r u
    → map (λ t. resolve_tool_name r (tool_name t)) out ≡ map (λ t. owned key (tool_name t)) tools
resolve-advertise_tools settings upstreams profile r key u tools out built adv found splits =
    let b = new_router-IsBuilt settings upstreams profile built in
    let a = advertise_tools_inv r key tools adv in
    let same : a.upstream ≡ u = cc (rw b.same_upstreams at a.enabled.known) in
    let seen = rw (same, b.same_profile) at a.enabled.visible in
    let indexed = build_complete profile upstreams [] key b.indexed found seen in
    map-advertise_loop r key u (resolve_tool_name r) (owned key) tools
      (λ name. resolve-namespaced r key u name indexed splits) (rw same at a.looped)

-- What stands behind a resolved name: an upstream that is switched on and exposed to the profile,
-- whose prefix, joined by the separator to the tool's name, is the advertised name.
pub record Resolution (settings : BrokerSettings) (upstreams : Dict UpstreamConfig)
    (profile : Option ToolExposureProfile) (name : String) (route : ToolRoute) : Type 0 where
  pub prefix : String
  pub source : Source profile prefix route.upstream_name upstreams
  pub joined : name ≡ prefix ++ₛ (settings.tool_namespace_separator ++ₛ route.upstream_tool_name)
  pub named : is_empty route.upstream_tool_name ≡ false

resolve_inv :
    (r : Router) (name : String) (route : ToolRoute)
    → resolve_tool_name r name ≡ ok route
    → (prefix : String) × (split_once r.separator name ≡ some (prefix, route.upstream_tool_name))
      × (lookup prefix r.prefix_to_upstream ≡ some route.upstream_name)
      × (is_empty route.upstream_tool_name ≡ false)
unfolding resolve_tool_name
resolve_inv r name route h = elim (Option-cases (split_once r.separator name)) [
  | inl missing ↦ ground arith
  | inr ((prefix, tool), parts) ↦ (prefix, ground arith, ground arith, ground arith)
]

-- A name that a router built from a configuration resolves is the prefix of an upstream that is
-- switched on and exposed to the profile, the separator and a tool name that is not empty, joined;
-- the route names that upstream and that tool.
pub resolve_sound :
    (settings : BrokerSettings) (upstreams : Dict UpstreamConfig)
    (profile : Option ToolExposureProfile) (r : Router) (name : String) (route : ToolRoute)
    → new_router settings upstreams profile ≡ ok r
    → resolve_tool_name r name ≡ ok route
    → Resolution settings upstreams profile name route
resolve_sound settings upstreams profile r name route built h =
    let b = new_router-IsBuilt settings upstreams profile built in
    let (prefix, parts, indexed, named) = resolve_inv r name route h in
    record {
      prefix = prefix;
      source =
          from_index
            (build_sound profile upstreams [] prefix route.upstream_name b.indexed indexed);
      joined = rw (← b.same_separator) (split_once_sound r.separator name parts);
      named = named;
    }
  where
    from_index :
        {p : String}
        → (lookup p [] ≡ some route.upstream_name) ⊎ Source profile p route.upstream_name upstreams
        → Source profile p route.upstream_name upstreams
    from_index (inl absent) = cc
    from_index (inr s) = s
