-- ===== src/Core/Routes.antt =====
-- Which upstream a call reaches, and how that agrees with the advertised names.
use mcp_broker.Prelude.{
  String, ◌++ₛ◌, ◌≡◌, refl, true, false, some, List, [], ◌∷◌, ◌↔◌, ◌⊎◌, Bool-cases, Option, none,
  map, Dict, lookup, arith, Option-cases, inl, inr, is_empty, split_once, split_once-join,
  split_once_sound, eq_iff,
}
use mcp_broker.Prelude.Result.{ok, err, ◌>>=◌, Result-cases}
use mcp_broker.Upstream.{UpstreamConfig, is_off, prefix_of}
use mcp_broker.Profile.{ToolExposureProfile}
use mcp_broker.Namespace.{
  Router, namespaced, may_mutate, in_profile, resolve_tool_name, tool_name, advertise_tools, Tool,
}
use mcp_broker.Namespace.Index.{IsVisible, build_complete}
use mcp_broker.Namespace.RoundTrip.{
  Splits, new_router-IsBuilt, advertise_tools_inv, resolve-namespaced, map-advertise_loop,
}
use mcp_broker.Core.Defs.{
  BrokerCore, BrokerToolError, disabled_prefix, profile_denied, check_profile, raise_for, router_of,
  allowed_call_route, find_prefix, resolve_call_route,
}

-- The conditions under which the broker calls a tool of an upstream.
pub record IsCallable (c : BrokerCore) (u : UpstreamConfig) : Type 0 where
  pub visible : IsVisible c.profile u
  pub granted : may_mutate c.profile u ≡ true

-- `_allowed_call_route` lets an upstream through exactly when it is switched on, exposed to the
-- profile and, if it is mutating, on the profile's allowlist; it hands on the upstream itself.
pub allowed_call_route_iff :
    (c : BrokerCore) (prefix : String) (u : UpstreamConfig)
    → (allowed_call_route c prefix u ≡ ok u) ↔ IsCallable c u
unfolding allowed_call_route
allowed_call_route_iff c prefix u = (λ h. ground arith, λ k. ground arith)

allowed_same :
    (c : BrokerCore) (prefix : String) (u w : UpstreamConfig)
    → allowed_call_route c prefix u ≡ ok w
    → (w ≡ u) × IsCallable c u
unfolding allowed_call_route
allowed_same c prefix u w h = (ground arith, ground arith)

find_prefix_sound :
    (ups : Dict UpstreamConfig) (prefix : String) {u : UpstreamConfig}
    → find_prefix ups prefix ≡ some u
    → prefix_of u ≡ prefix
unfolding find_prefix
find_prefix_sound [] prefix h = cc
find_prefix_sound ((key, w) ∷ rest) prefix {u} h =
    ground (arith, eq_iff (prefix_of w) prefix, find_prefix_sound rest prefix {u = u})

-- What a resolved call stands for.
pub record IsRoute (c : BrokerCore) (name : String) (u : UpstreamConfig) (tool : String)
    : Type 0 where
  pub callable : IsCallable c u
  pub joined : name ≡ prefix_of u ++ₛ (c.settings.tool_namespace_separator ++ₛ tool)
  pub named : is_empty tool ≡ false
  pub first : find_prefix c.upstreams (prefix_of u) ≡ some u

route_inv :
    (c : BrokerCore) (name : String) (u : UpstreamConfig) (tool : String)
    → resolve_call_route c name ≡ ok (u, tool)
    → (prefix : String) × (w : UpstreamConfig) × (split_once c.settings.tool_namespace_separator
          name
        ≡ some (prefix, tool))
      × (is_empty tool ≡ false)
      × (find_prefix c.upstreams prefix ≡ some w)
      × (allowed_call_route c prefix w ≡ ok u)
unfolding resolve_call_route
route_inv c name u tool h =
    elim (Option-cases (split_once c.settings.tool_namespace_separator name)) [
      | inl missing ↦ ground arith
      | inr ((prefix, t), parts) ↦ elim (Option-cases (find_prefix c.upstreams prefix)) [
        | inl unknown ↦ ground arith
        | inr (w, found) ↦ elim (Result-cases (allowed_call_route c prefix w)) [
          | inr (e, refused) ↦ ground arith
          | inl (v, passed) ↦ (prefix, w, ground arith, ground arith, found, ground arith)
        ]
      ]
    ]

-- A call that `_resolve_call_route` lets through reaches an upstream that is switched on, exposed to
-- the profile and, if it is mutating, on the profile's allowlist. The upstream's prefix, the
-- separator and the tool's name, which is not empty, make up the advertised name, and the upstream
-- is the first of the configuration with that prefix.
pub resolve_call_route_sound :
    (c : BrokerCore) (name : String) (u : UpstreamConfig) (tool : String)
    → resolve_call_route c name ≡ ok (u, tool)
    → IsRoute c name u tool
resolve_call_route_sound c name u tool h =
    let (prefix, w, parts, named, found, passed) = route_inv c name u tool h in
    let (same, callable) = allowed_same c prefix w u passed in
    let prefixed : prefix_of u ≡ prefix = rw same (find_prefix_sound c.upstreams prefix found) in
    record {
      callable = rw same callable;
      joined = rw prefixed (split_once_sound c.settings.tool_namespace_separator name parts);
      named = named;
      first = rw prefixed (rw same found);
    }

-- A name that is made of a prefix, the separator and a tool's name reaches the first upstream with
-- the prefix.
pub resolve_joined :
    (c : BrokerCore) (u w : UpstreamConfig) (name : String)
    → split_once c.settings.tool_namespace_separator
        (prefix_of u ++ₛ c.settings.tool_namespace_separator)
      ≡ some (prefix_of u, "")
    → is_empty name ≡ false
    → find_prefix c.upstreams (prefix_of u) ≡ some w
    → resolve_call_route c (prefix_of u ++ₛ (c.settings.tool_namespace_separator ++ₛ name))
      ≡ (allowed_call_route c (prefix_of u) w >>= λ v. ok (v, name))
unfolding resolve_call_route
resolve_joined c u w name splits named found =
    rw (split_once-join c.settings.tool_namespace_separator (prefix_of u) name splits, named, found)

-- The tools that a router built from the same settings advertises for an upstream can be called by
-- their advertised names, in order: each call goes to that upstream with the tool's own name there.
-- No earlier upstream of the configuration may have the prefix, and the separator must be first met
-- behind the prefix.
pub call-advertise_tools :
    (c : BrokerCore) (r : Router) (key : String) (u : UpstreamConfig) (tools out : List Tool)
    → router_of c ≡ ok r
    → advertise_tools r key tools ≡ ok out
    → lookup key c.upstreams ≡ some u
    → find_prefix c.upstreams (prefix_of u) ≡ some u
    → Splits r u
    → map (λ t. resolve_call_route c (tool_name t)) out ≡ map (λ t. ok (u, tool_name t)) tools
call-advertise_tools c r key u tools out built adv found first splits =
    let b = new_router-IsBuilt c.settings c.upstreams c.profile built in
    let a = advertise_tools_inv r key tools adv in
    let same : a.upstream ≡ u = cc (rw b.same_upstreams at a.enabled.known) in
    let callable : IsCallable c u = record {
      visible = rw (same, b.same_profile) at a.enabled.visible;
      granted = rw (same, b.same_profile) at a.granted;
    } in
    map-advertise_loop r key u (resolve_call_route c) (λ name. ok (u, name)) tools
      (λ name named. rw (
        b.same_separator,
        resolve_joined c u u name (rw b.same_separator at splits) named first,
        (allowed_call_route_iff c (prefix_of u) u).1 callable,
      ))
      (rw same at a.looped)

-- An upstream that the client of the broker's profile does not see.
abbrev pub IsHidden : BrokerCore → UpstreamConfig → Type 0
IsHidden c w = (is_off w ≡ true) ⊎ (in_profile c.profile w ≡ false)

-- What its calls are refused with.
abbrev pub IsHiddenError : BrokerToolError → Type 0
IsHiddenError e = (e.code ≡ disabled_prefix) ⊎ (e.code ≡ profile_denied)

denied :
    (profile : Option ToolExposureProfile) (prefix : String) (w : UpstreamConfig)
    → in_profile profile w ≡ false
    → (e : BrokerToolError) × (check_profile profile prefix w ≡ err e) × IsHiddenError e
denied none prefix w h = cc
denied (some p) prefix w h = (
  raise_for profile_denied ("tool prefix denied for profile " ++ₛ p.name ++ₛ ": " ++ₛ prefix) w,
  rw h,
  inr refl,
)

hidden_refused :
    (c : BrokerCore) (prefix : String) (w : UpstreamConfig)
    → IsHidden c w
    → (e : BrokerToolError) × (allowed_call_route c prefix w ≡ err e) × IsHiddenError e
unfolding allowed_call_route
hidden_refused c prefix w h = elim (Bool-cases (is_off w)) [
  | inl off ↦ (raise_for disabled_prefix ("tool prefix disabled: " ++ₛ prefix) w, rw off, inl refl)
  | inr on ↦ rw on (denied c.profile prefix w (exposed on h))
]
  where
    exposed : is_off w ≡ false → IsHidden c w → in_profile c.profile w ≡ false
    exposed on (inl off) = cc
    exposed on (inr absent) = absent

-- An upstream that is switched off or not exposed to the profile shadows the later ones that share
-- its prefix: a router built from the same settings resolves each advertised name of a later one
-- that is visible, and the call of that name is refused as a call of a disabled prefix or as one
-- that the profile denies. The separator must be first met behind the prefix.
pub shadowed_call :
    (c : BrokerCore) (r : Router) (key : String) (u w : UpstreamConfig) (name : String)
    → router_of c ≡ ok r
    → lookup key c.upstreams ≡ some u
    → IsVisible c.profile u
    → find_prefix c.upstreams (prefix_of u) ≡ some w
    → IsHidden c w
    → Splits r u
    → is_empty name ≡ false
    → (resolve_tool_name r (namespaced r u name)
        ≡ ok (record { upstream_name = key; upstream_tool_name = name }))
      × ((e : BrokerToolError) × (resolve_call_route c (namespaced r u name) ≡ err e)
          × IsHiddenError e)
shadowed_call c r key u w name built found seen first hidden splits named =
    let b = new_router-IsBuilt c.settings c.upstreams c.profile built in
    let indexed = build_complete c.profile c.upstreams [] key b.indexed found seen in
    let (e, refused, code) = hidden_refused c (prefix_of u) w hidden in
    (
      resolve-namespaced r key u name indexed splits named,
      (
        e,
        rw (
          b.same_separator,
          resolve_joined c u w name (rw b.same_separator at splits) named first,
          refused,
        ),
        code,
      ),
    )
