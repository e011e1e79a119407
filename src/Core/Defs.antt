-- ===== src/Core/Defs.antt =====
-- src/mcp_broker/broker.py: `BrokerCore`, with the calls of upstreams and the lock around them as
-- a trace of events.
use mcp_broker.Prelude.{
  ℕ, String, ◌++ₛ◌, Bool, true, false, not, ◌&&◌, Option, none, some, List, [], ◌∷◌, ◌++◌, Dict,
  is_empty, ◌==◌, if◌then◌else◌, lookup, contains, split_once, is_in,
}
use mcp_broker.Prelude.Result.{Result, ok, err, ◌>>=◌}
use mcp_broker.Value.{Value, got, as_dict, as_list}
use mcp_broker.Upstream.{UpstreamConfig, BrokerSettings, is_off, prefix_of, call_timeout_for_tool}
use mcp_broker.Profile.{ToolExposureProfile, allows_mutating_upstream}
use mcp_broker.Namespace.{
  NamespaceError, message, Tool, Router, new_router, advertise_all_tools, compact_broker_tools,
}

pub data Code : Type 0 where
  invalid_arguments invalid_tool_name unknown_tool_prefix disabled_prefix profile_denied : Code
  mutating_not_allowed upstream_timeout upstream_crashed unknown_upstream_tool : Code
  invalid_upstream_response invalid_shared_worker_response : Code
  shared_routing_context_missing shared_routing_quota_invalid : Code

pub record BrokerToolError : Type 0 where
  pub code : Code
  pub message : String
  pub upstream_name : Option String
  pub tool_name : Option String

pub record BrokerCore : Type 0 where
  pub settings : BrokerSettings
  pub upstreams : Dict UpstreamConfig
  pub profile : Option ToolExposureProfile

abbrev pub router_of : BrokerCore → Result NamespaceError Router
router_of c = new_router c.settings c.upstreams c.profile

abbrev compacts : Option ToolExposureProfile → Bool
compacts none = false
compacts (some p) = p.compact_tools_enabled

unfoldable pub can_compact_after_budget_error : BrokerCore → String → Bool
can_compact_after_budget_error c text = compacts c.profile && is_in "exceeds tool budget" text

abbrev pub or_compact :
    BrokerCore → Router → Result NamespaceError (List Tool) → Result NamespaceError (List Tool)
or_compact c r (ok tools) = ok tools
or_compact c r (err e) =
    if can_compact_after_budget_error c (message e) then ok (compact_broker_tools r) else err e

-- The tools under the key `tools` of the answer.
unfoldable pub list_tools : BrokerCore → Dict (List Tool) → Result NamespaceError (List Tool)
list_tools c upstream_tools = do
  r ← router_of c
  or_compact c r (advertise_all_tools r upstream_tools)

unfoldable pub compact_tools : BrokerCore → Result NamespaceError (List Tool)
compact_tools c = do r ← router_of c; ok (compact_broker_tools r)

abbrev pub raise_for : Code → String → UpstreamConfig → BrokerToolError
raise_for code text u = record {
  code = code;
  message = text;
  upstream_name = some u.name;
  tool_name = none;
}

abbrev raise_plain : Code → String → BrokerToolError
raise_plain code text = record {
  code = code;
  message = text;
  upstream_name = none;
  tool_name = none;
}

abbrev pub check_profile :
    Option ToolExposureProfile → String → UpstreamConfig → Result BrokerToolError UpstreamConfig
check_profile none prefix u = ok u
check_profile (some p) prefix u =
    if not (contains u.profiles p.name)
    then err (
        raise_for profile_denied ("tool prefix denied for profile " ++ₛ p.name ++ₛ ": " ++ₛ prefix)
          u)
    else if u.mutating && not (allows_mutating_upstream p u.name)
    then err (
        raise_for mutating_not_allowed
          ("mutating upstream not allowed for profile " ++ₛ p.name ++ₛ ": " ++ₛ u.name) u)
    else ok u

unfoldable pub allowed_call_route :
    BrokerCore → String → UpstreamConfig → Result BrokerToolError UpstreamConfig
allowed_call_route c prefix u =
    if is_off u
    then err (raise_for disabled_prefix ("tool prefix disabled: " ++ₛ prefix) u)
    else check_profile c.profile prefix u

-- The loop over `self.upstreams.values()`: the first upstream with the prefix.
unfoldable pub find_prefix : Dict UpstreamConfig → String → Option UpstreamConfig
find_prefix [] prefix = none
find_prefix ((key, u) ∷ rest) prefix =
    if prefix_of u == prefix then some u else find_prefix rest prefix

abbrev route_call :
    BrokerCore
    → String
    → String
    → Option UpstreamConfig
    → Result BrokerToolError (UpstreamConfig × String)
route_call c prefix tool none =
    err (raise_plain unknown_tool_prefix ("unknown tool prefix: " ++ₛ prefix))
route_call c prefix tool (some u) = do w ← allowed_call_route c prefix u; ok (w, tool)

abbrev call_parts :
    BrokerCore
    → String
    → Option (String × String)
    → Result BrokerToolError (UpstreamConfig × String)
call_parts c advertised_name none =
    err (raise_plain invalid_tool_name ("missing namespace separator: " ++ₛ advertised_name))
call_parts c advertised_name (some (prefix, tool)) =
    if is_empty tool
    then err (raise_plain invalid_tool_name ("missing upstream tool name: " ++ₛ advertised_name))
    else route_call c prefix tool (find_prefix c.upstreams prefix)

unfoldable pub resolve_call_route :
    BrokerCore → String → Result BrokerToolError (UpstreamConfig × String)
resolve_call_route c advertised_name =
    call_parts c advertised_name (split_once c.settings.tool_namespace_separator advertised_name)

-- What the transport answers to one call; `failed` is any other exception.
pub data Reply : Type 0 where
  answered : Value → Reply
  timed_out crashed tool_not_found : Reply
  failed : String → Reply

-- `caller(upstream_name, tool_name, arguments, timeout)`
abbrev pub ToolCaller : Type 0
ToolCaller = String → String → Value → ℕ → Reply

pub data CallError : Type 0 where
  tool_error : BrokerToolError → CallError
  passed_on : String → CallError

pub data Event : Type 0 where
  lock unlock : String → Event
  call : String → String → Value → ℕ → Event

abbrev is_list : Option (List Value) → Bool
is_list none = false
is_list (some _) = true

abbrev content_ok : Option (Dict Value) → Bool
content_ok none = false
content_ok (some d) = is_list (as_list (got (lookup "content" d)))

unfoldable pub validate_tool_response : String → Value → Result CallError Value
validate_tool_response upstream_name response =
    if content_ok (as_dict response)
    then ok response
    else err (
        tool_error (record {
          code = invalid_upstream_response;
          message = "invalid upstream tools/call response from " ++ₛ upstream_name;
          upstream_name = some upstream_name;
          tool_name = none;
        }))

abbrev call_failed : Code → String → UpstreamConfig → String → CallError
call_failed code text u tool =
    tool_error
      (record { code = code; message = text; upstream_name = some u.name; tool_name = some tool })

abbrev outcome : UpstreamConfig → String → Reply → Result CallError Value
outcome u tool (answered response) = validate_tool_response u.name response
outcome u tool timed_out =
    err (call_failed upstream_timeout ("upstream timed out: " ++ₛ u.name) u tool)
outcome u tool crashed = err (call_failed upstream_crashed ("upstream crashed: " ++ₛ u.name) u tool)
outcome u tool tool_not_found = err (
    call_failed unknown_upstream_tool ("upstream tool not found: " ++ₛ u.name ++ₛ "." ++ₛ tool) u
      tool)
outcome u tool (failed text) = err (passed_on text)

-- The events of a call, and its result.
abbrev pub Run : Type 0
Run = List Event × Result CallError Value

unfoldable pub call_resolved_tool : UpstreamConfig → String → Value → ToolCaller → Run
unfolding validate_tool_response
call_resolved_tool u tool arguments caller =
    let timeout = call_timeout_for_tool u tool in
    (call u.name tool arguments timeout ∷ [], outcome u tool (caller u.name tool arguments timeout))

-- `with lock:` lets the lock go whether the body returns or raises.
abbrev with_lock : String → Run → Run
with_lock name (events, r) = (lock name ∷ (events ++ unlock name ∷ []), r)

abbrev call_route : Result BrokerToolError (UpstreamConfig × String) → Value → ToolCaller → Run
call_route (err e) arguments caller = ([], err (tool_error e))
call_route (ok (u, tool)) arguments caller =
    if u.serialize_calls
    then with_lock u.name (call_resolved_tool u tool arguments caller)
    else call_resolved_tool u tool arguments caller

abbrev checked : Option (Dict Value) → Run → Run
checked (some _) run = run
checked none run =
    ([], err (tool_error (raise_plain invalid_arguments "tools/call arguments must be an object")))

unfoldable pub call_tool : BrokerCore → String → Value → ToolCaller → Run
unfolding call_resolved_tool
call_tool c advertised_name arguments caller =
    checked (as_dict arguments) (call_route (resolve_call_route c advertised_name) arguments caller)
