-- ===== src/Namespace/Defs.antt =====
-- src/mcp_broker/tool_namespace.py: `ToolNamespaceRouter` and the functions below it.
use mcp_broker.Prelude.{
  ℕ, String, ◌++ₛ◌, Bool, true, false, not, ◌&&◌, ◌||◌, Option, none, some, List, [], ◌∷◌, ◌++◌,
  Dict, is_empty, ◌==◌, if◌then◌else◌, lookup, insert, contains, length, ltb, split_once, show,
}
use mcp_broker.Prelude.Result.{Result, ok, err, ◌>>=◌}
use mcp_broker.Value.{Value, dict, field, end, int, pos}
use mcp_broker.Upstream.{UpstreamConfig, BrokerSettings, is_off, prefix_of}
use mcp_broker.Profile.{ToolExposureProfile, NameStyle, styled, allows_mutating_upstream}
use mcp_broker.Namespace.Definitions.{Definition, compact_broker_tool_definitions_table}

-- The `ValueError`s of the module, by what their messages say.
pub data NamespaceError : Type 0 where
  empty_separator : NamespaceError
  duplicate_prefix : String → NamespaceError
  unnamed_tool : String → NamespaceError
  duplicate_tool : String → NamespaceError
  over_budget : String → ℕ → ℕ → NamespaceError
  missing_separator : String → NamespaceError
  missing_upstream_tool : String → NamespaceError
  unknown_prefix : String → NamespaceError
  unknown_upstream : String → NamespaceError
  upstream_disabled : String → NamespaceError
  not_exposed : String → NamespaceError
  mutating_not_allowed : String → NamespaceError

-- `str(exc)`
unfoldable pub message : NamespaceError → String
message empty_separator = "broker.tool_namespace_separator cannot be empty"
message (duplicate_prefix p) = "duplicate tool prefix: " ++ₛ p
message (unnamed_tool u) = "upstream tool missing name: " ++ₛ u
message (duplicate_tool t) = "duplicate advertised tool: " ++ₛ t
message (over_budget p count most) =
    ("profile " ++ₛ p ++ₛ " ")
    ++ₛ ("exceeds tool budget" ++ₛ (": " ++ₛ show count ++ₛ " > " ++ₛ show most))
message (missing_separator n) = "missing namespace separator: " ++ₛ n
message (missing_upstream_tool n) = "missing upstream tool name: " ++ₛ n
message (unknown_prefix p) = "unknown tool prefix: " ++ₛ p
message (unknown_upstream u) = "unknown upstream: " ++ₛ u
message (upstream_disabled u) = "upstream disabled: " ++ₛ u
message (not_exposed u) = "upstream not exposed to profile: " ++ₛ u
message (mutating_not_allowed u) = "mutating upstream not allowed for profile: " ++ₛ u

-- An MCP tool: its name, a text by the protocol (`none` if it has no name), and its other fields.
pub record Tool : Type 0 where
  pub name : Option String
  pub others : Dict Value

-- `str(tool.get("name", ""))`
abbrev pub name_or_empty : Option String → String
name_or_empty none = ""
name_or_empty (some n) = n

abbrev pub tool_name : Tool → String
tool_name t = name_or_empty t.name

pub record ToolRoute : Type 0 where
  pub upstream_name : String
  pub upstream_tool_name : String

pub record Router : Type 0 where
  pub separator : String
  pub profile : Option ToolExposureProfile
  pub upstreams : Dict UpstreamConfig
  pub prefix_to_upstream : Dict String

-- `profile is None or profile.name in upstream.profiles`
abbrev pub in_profile : Option ToolExposureProfile → UpstreamConfig → Bool
in_profile none u = true
in_profile (some p) u = contains u.profiles p.name

abbrev pub has_key : Option String → Bool
has_key none = false
has_key (some _) = true

-- The loop of `_build_prefix_index`, from the index built so far.
unfoldable pub build_prefix_index :
    Dict UpstreamConfig
    → Option ToolExposureProfile
    → Dict String
    → Result NamespaceError (Dict String)
build_prefix_index [] profile index = ok index
build_prefix_index ((upstream_name, u) ∷ rest) profile index =
    let skip = build_prefix_index rest profile index in
    let add = build_prefix_index rest profile (insert (prefix_of u) upstream_name index) in
    if is_off u
    then skip
    else if not (in_profile profile u)
    then skip
    else if has_key (lookup (prefix_of u) index)
    then err (duplicate_prefix (prefix_of u))
    else add

-- `ToolNamespaceRouter(broker=…, upstreams=…, profile=…)`
unfoldable pub new_router :
    BrokerSettings → Dict UpstreamConfig → Option ToolExposureProfile → Result NamespaceError Router
new_router settings upstreams profile =
    if is_empty settings.tool_namespace_separator then err empty_separator else do
      index ← build_prefix_index upstreams profile []
      ok (record {
        separator = settings.tool_namespace_separator;
        profile = profile;
        upstreams = upstreams;
        prefix_to_upstream = index;
      })

abbrev allowed : Option ToolExposureProfile → Option UpstreamConfig → Bool
allowed profile none = false
allowed profile (some u) = not (is_off u) && in_profile profile u

unfoldable pub upstream_allowed : Router → String → Bool
upstream_allowed r upstream_name = allowed r.profile (lookup upstream_name r.upstreams)

abbrev check_enabled :
    Router → String → Option UpstreamConfig → Result NamespaceError UpstreamConfig
check_enabled r upstream_name none = err (unknown_upstream upstream_name)
check_enabled r upstream_name (some u) =
    if is_off u
    then err (upstream_disabled upstream_name)
    else if not (upstream_allowed r upstream_name)
    then err (not_exposed upstream_name)
    else ok u

unfoldable pub enabled_upstream : Router → String → Result NamespaceError UpstreamConfig
unfolding upstream_allowed
enabled_upstream r upstream_name = check_enabled r upstream_name (lookup upstream_name r.upstreams)

abbrev pub may_mutate : Option ToolExposureProfile → UpstreamConfig → Bool
may_mutate none u = true
may_mutate (some p) u = not u.mutating || allows_mutating_upstream p u.name

unfoldable pub enforce_mutating_allowlist :
    Router → UpstreamConfig → Result NamespaceError (Unit {0})
enforce_mutating_allowlist r u =
    if may_mutate r.profile u then ok tt else err (mutating_not_allowed u.name)

-- `f"{prefix}{self._separator}{tool_name}"`
abbrev pub namespaced : Router → UpstreamConfig → String → String
namespaced r u name = prefix_of u ++ₛ (r.separator ++ₛ name)

unfoldable pub advertise_loop :
    Router → UpstreamConfig → String → List Tool → Result NamespaceError (List Tool)
advertise_loop r u upstream_name [] = ok []
advertise_loop r u upstream_name (t ∷ ts) =
    if is_empty (tool_name t) then err (unnamed_tool upstream_name) else do
      rest ← advertise_loop r u upstream_name ts
      ok (record t { name = some (namespaced r u (tool_name t)) } ∷ rest)

unfoldable pub advertise_tools : Router → String → List Tool → Result NamespaceError (List Tool)
unfolding enabled_upstream enforce_mutating_allowlist advertise_loop
advertise_tools r upstream_name tools = do
  u ← enabled_upstream r upstream_name
  _ ← enforce_mutating_allowlist r u
  advertise_loop r u upstream_name tools

-- The inner loop of `advertise_all_tools`: the set `names` and the list `advertised` so far.
unfoldable pub collect_tools :
    List Tool → List String × List Tool → Result NamespaceError (List String × List Tool)
collect_tools [] acc = ok acc
collect_tools (t ∷ ts) (names, advertised) =
    let add = collect_tools ts (tool_name t ∷ names, advertised ++ t ∷ []) in
    if contains names (tool_name t) then err (duplicate_tool (tool_name t)) else add

unfoldable pub collect_upstreams :
    Router
    → Dict (List Tool)
    → List String × List Tool
    → Result NamespaceError (List String × List Tool)
unfolding collect_tools advertise_tools upstream_allowed
collect_upstreams r [] acc = ok acc
collect_upstreams r ((upstream_name, tools) ∷ rest) acc =
    let skip = collect_upstreams r rest acc in
    let add = do
      more ← advertise_tools r upstream_name tools
      acc' ← collect_tools more acc
      collect_upstreams r rest acc'
    in if upstream_allowed r upstream_name then add else skip

abbrev within_budget : Option ToolExposureProfile → ℕ → Result NamespaceError (Unit {0})
within_budget none tool_count = ok tt
within_budget (some p) tool_count =
    if ltb p.max_tools tool_count then err (over_budget p.name tool_count p.max_tools) else ok tt

unfoldable pub enforce_profile_budget : Router → ℕ → Result NamespaceError (Unit {0})
enforce_profile_budget r tool_count = within_budget r.profile tool_count

unfoldable pub advertise_all_tools : Router → Dict (List Tool) → Result NamespaceError (List Tool)
unfolding collect_upstreams enforce_profile_budget
advertise_all_tools r upstream_tools = do
  acc ← collect_upstreams r upstream_tools ([], [])
  _ ← enforce_profile_budget r (length acc.1)
  ok acc.1

abbrev route_to : Option String → String → String → Result NamespaceError ToolRoute
route_to none prefix tool = err (unknown_prefix prefix)
route_to (some upstream_name) prefix tool =
    ok (record { upstream_name = upstream_name; upstream_tool_name = tool })

abbrev resolve_parts : Router → String → Option (String × String) → Result NamespaceError ToolRoute
resolve_parts r advertised_name none = err (missing_separator advertised_name)
resolve_parts r advertised_name (some (prefix, tool)) =
    if is_empty tool
    then err (missing_upstream_tool advertised_name)
    else route_to (lookup prefix r.prefix_to_upstream) prefix tool

unfoldable pub resolve_tool_name : Router → String → Result NamespaceError ToolRoute
resolve_tool_name r advertised_name =
    resolve_parts r advertised_name (split_once r.separator advertised_name)

-- `_broker_tool`, with `tool["_meta"]` where the caller sets it
abbrev meta_field : Option ℕ → Bool → Dict Value
meta_field (some n) true =
    ("_meta", dict (field "anthropic/maxResultSizeChars" (int (pos n)) end)) ∷ []
meta_field _ _ = []

unfoldable pub compact_broker_tool_definitions : NameStyle → Option ℕ → Dict Definition → List Tool
compact_broker_tool_definitions style result_size_chars [] = []
compact_broker_tool_definitions style result_size_chars ((canonical_name, d) ∷ rest) =
    record {
      name = some (styled style canonical_name);
      others =
          ("description", Value.str d.description)
          ∷ ("inputSchema", d.input_schema)
          ∷ meta_field result_size_chars (canonical_name == "broker.call_tool");
    }
    ∷ compact_broker_tool_definitions style result_size_chars rest

abbrev compact_for : Option ToolExposureProfile → List Tool
compact_for none = []
compact_for (some p) =
    if p.compact_tools_enabled
    then compact_broker_tool_definitions p.broker_tool_name_style p.result_size_chars
        compact_broker_tool_definitions_table
    else []

unfoldable pub compact_broker_tools : Router → List Tool
unfolding compact_broker_tool_definitions
compact_broker_tools r = compact_for r.profile
