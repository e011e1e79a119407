-- ===== src/Hybrid/Defs.antt =====
-- src/mcp_broker/hybrid_router.py: `HybridToolRouter`.
use mcp_broker.Prelude.{
  String, ◌++ₛ◌, Bool, true, false, not, ◌&&◌, ◌||◌, Option, none, some, List, [], ◌∷◌, Dict, map,
  is_empty, if◌then◌else◌, lookup, contains, any,
}
use mcp_broker.Prelude.Result.{Result, ok, err}
use mcp_broker.Value.{Value, Fields, dict, fields, as_dict, as_str, got, is_true}
use mcp_broker.Upstream.{UpstreamConfig, BrokerSettings, is_shared}
use mcp_broker.Profile.{ToolExposureProfile}
use mcp_broker.Core.{
  BrokerCore, BrokerToolError, CallError, Event, Run, ToolCaller, call_tool, resolve_call_route,
  validate_tool_response, tool_error, passed_on, shared_routing_quota_invalid,
  shared_routing_context_missing, invalid_shared_worker_response,
}
use mcp_broker.SharedPolicy.{IdentifierError, identifier_message}
use mcp_broker.Quota.{Decision, decide_quota, decision_dict}
use mcp_broker.Worker.{WorkerCall, WorkerDecision, WorkerError, decision_fields, worker_message}

-- What the shared worker does with a call: it returns a mapping, or raises a `ValueError`.
pub data WorkerReply : Type 0 where
  returned : Fields → WorkerReply
  raised : String → WorkerReply

abbrev pub SharedWorkerCaller : Type 0
SharedWorkerCaller = WorkerCall → WorkerReply

-- The reply that a `SharedWorkerRuntime` gives.
abbrev pub reply_of : Result WorkerError WorkerDecision → WorkerReply
reply_of (ok d) = returned (decision_fields d)
reply_of (err e) = raised (worker_message e)

pub record HybridRoutingContext : Type 0 where
  pub tenant_context : Option (Dict Value)
  pub team_id : Option String
  pub quota_snapshot : Option (Dict Value)

unfoldable pub from_params : Dict Value → HybridRoutingContext
from_params params = record {
  tenant_context = as_dict (got (lookup "tenant_context" params));
  team_id = as_str (got (lookup "team_id" params));
  quota_snapshot = as_dict (got (lookup "quota_snapshot" params));
}

pub record HybridToolRouter : Type 0 where
  pub settings : Option BrokerSettings
  pub upstreams : Dict UpstreamConfig
  pub profile : Option ToolExposureProfile
  pub shared_worker : SharedWorkerCaller

abbrev or_default : Option BrokerSettings → BrokerSettings
or_default none = record { tool_namespace_separator = "." }
or_default (some s) = s

-- The `BrokerCore` that a call makes; the locks are the trace's.
abbrev pub core_of : HybridToolRouter → BrokerCore
core_of r = record {
  settings = or_default r.settings;
  upstreams = r.upstreams;
  profile = r.profile;
}

abbrev is_given : Option String → Bool
is_given none = false
is_given (some s) = not (is_empty s)

abbrev is_filled {ℓ} : {A : Type ℓ} → List A → Bool
is_filled [] = false
is_filled (_ ∷ _) = true

unfoldable pub requires_local_state : UpstreamConfig → Bool
requires_local_state u =
    is_given u.state_dir
    || is_filled u.env
    || is_filled u.env_files
    || is_filled u.session_env
    || is_filled u.request_meta
    || is_filled u.forward_request_meta
    || u.relay_elicitation

abbrev pub shared_worker_tags : List String
shared_worker_tags = "shared-worker" ∷ "shared_worker" ∷ []

abbrev pub fits_worker : UpstreamConfig → Bool
fits_worker u =
    contains u.tags "stateless"
    && any (contains u.tags) shared_worker_tags
    && is_shared u.mode
    && not u.mutating
    && not (requires_local_state u)

-- The three parts of the context, where all are given.
pub record FullContext : Type 0 where
  pub tenant_context : Dict Value
  pub team_id : String
  pub quota_snapshot : Dict Value

abbrev all_given : Option (Dict Value) → Option String → Option (Dict Value) → Option FullContext
all_given (some t) (some i) (some q) =
    some (record { tenant_context = t; team_id = i; quota_snapshot = q })
all_given _ _ _ = none

abbrev pub full_context : HybridRoutingContext → Option FullContext
full_context x = all_given x.tenant_context x.team_id x.quota_snapshot

abbrev is_full : Option FullContext → Bool
is_full none = false
is_full (some _) = true

unfoldable pub should_try_shared_worker : UpstreamConfig → HybridRoutingContext → Bool
should_try_shared_worker u x = is_full (full_context x) && fits_worker u

abbrev decided :
    FullContext
    → String
    → String
    → Result IdentifierError Decision
    → Result BrokerToolError (FullContext × Decision)
decided x upstream_id name (ok decision) = ok (x, decision)
decided x upstream_id name (err e) = err (record {
  code = shared_routing_quota_invalid;
  message = identifier_message e;
  upstream_name = some upstream_id;
  tool_name = some name;
})

abbrev pub quota_of :
    Option FullContext → String → String → Result BrokerToolError (FullContext × Decision)
quota_of none upstream_id name = err (record {
  code = shared_routing_context_missing;
  message = "shared routing requires tenant_context, team_id, and quota_snapshot";
  upstream_name = some upstream_id;
  tool_name = some name;
})
quota_of (some x) upstream_id name =
    decided x upstream_id name
      (decide_quota x.tenant_context x.team_id upstream_id name x.quota_snapshot)

-- What a call does: events of the broker core at the edge, or a call of the shared worker.
pub data HybridEvent : Type 0 where
  at_edge : Event → HybridEvent
  at_worker : WorkerCall → HybridEvent

abbrev pub HybridRun : Type 0
HybridRun = List HybridEvent × Result CallError Value

abbrev pub at_the_edge : Run → HybridRun
at_the_edge (events, r) = (map at_edge events, r)

abbrev pub worker_call : UpstreamConfig → String → Value → FullContext → Decision → WorkerCall
worker_call u name arguments x decision = record {
  tenant_context = x.tenant_context;
  upstream_id = u.name;
  upstream_class = "stateless";
  allowlisted = true;
  requires_local_state = false;
  tool_name = name;
  arguments = arguments;
  quota_decision = decision_dict decision;
}

abbrev check_result : UpstreamConfig → String → Value → Option (Dict Value) → Result CallError Value
check_result u tool result none = err (
    tool_error (record {
      code = invalid_shared_worker_response;
      message = "invalid shared worker tools/call response from " ++ₛ u.name;
      upstream_name = some u.name;
      tool_name = some tool;
    }))
check_result u tool result (some _) = validate_tool_response u.name result

abbrev pub worker_outcome : UpstreamConfig → String → WorkerReply → Result CallError Value
worker_outcome u tool (raised text) = err (passed_on text)
worker_outcome u tool (returned response) =
    let result = got (lookup "result" (fields response)) in
    if is_true (got (lookup "allowed" (fields response)))
    then check_result u tool result (as_dict result)
    else ok (dict response)

abbrev pub ask_worker :
    HybridToolRouter
    → UpstreamConfig
    → String
    → String
    → Value
    → Result BrokerToolError (FullContext × Decision)
    → HybridRun
ask_worker r u tool name arguments (err e) = ([], err (tool_error e))
ask_worker r u tool name arguments (ok (x, decision)) =
    let w = worker_call u name arguments x decision in
    (at_worker w ∷ [], worker_outcome u tool (r.shared_worker w))

abbrev pub route_hybrid :
    HybridToolRouter
    → HybridRoutingContext
    → String
    → Value
    → ToolCaller
    → Result BrokerToolError (UpstreamConfig × String)
    → HybridRun
route_hybrid r x name arguments edge_caller (err e) = ([], err (tool_error e))
route_hybrid r x name arguments edge_caller (ok (u, tool)) =
    if should_try_shared_worker u x
    then ask_worker r u tool name arguments (quota_of (full_context x) u.name name)
    else at_the_edge (call_tool (core_of r) name arguments edge_caller)

unfoldable pub call_hybrid_tool :
    HybridToolRouter → HybridRoutingContext → String → Value → ToolCaller → HybridRun
unfolding should_try_shared_worker
call_hybrid_tool r x name arguments edge_caller =
    route_hybrid r x name arguments edge_caller (resolve_call_route (core_of r) name)
