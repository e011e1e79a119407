-- ===== src/Tests/Shared.antt =====
-- Calls that the hybrid router sends to the shared worker, or keeps at the edge.
use mcp_broker.Prelude.{
  ◌≡◌, ◌≢◌, ◌↔◌, ◌⊎◌, refl, true, false, none, some, List, [], ◌∷◌, All, split_once, is_blank,
  strip, lstrip, rstrip, lowers_to,
}
use mcp_broker.Prelude.Result.{ok}
use mcp_broker.Value.{Value, bool, str, dict, end, field}
use mcp_broker.Upstream.{UpstreamConfig, is_off, prefix_of}
use mcp_broker.SharedPolicy.{
  Affinity, shared_worker, stateless, allowlisted_stateless_upstream, tenant_scope,
  decide_session_affinity, decide_upstream_placement, normalize_upstream_class,
  validate_tenant_context, required_identifier, required_text,
}
use mcp_broker.SharedPolicy.Boundaries.{IsShareable, IsTenantBound, decide_session_affinity_iff}
use mcp_broker.Quota.{
  decide_quota, request_scope, first_denial, kill_switch_denial, switches_denial, limit_denial,
  limits_denial,
}
use mcp_broker.Core.{ToolCaller, answered, resolve_call_route, allowed_call_route, find_prefix}
use mcp_broker.Worker.{
  SharedWorkerTool, WorkerCall, WorkerScope, WorkerDecision, allowed_decision, answer, call_worker,
  required_tool_name, placement_denial, quota_denial, find_tool, execute_fake_tool,
}
use mcp_broker.Core.Calls.{IsResponse}
use mcp_broker.Worker.Isolation.{Ran, call_worker_sound}
use mcp_broker.Worker.Audit.{IsAudited, call_worker-IsAudited}
use mcp_broker.Hybrid.{
  HybridToolRouter, HybridRoutingContext, reply_of, returned, from_params, requires_local_state,
  should_try_shared_worker, call_hybrid_tool, worker_call, at_worker,
}
use mcp_broker.Hybrid.Routes.{
  IsLawful, IsRouted, call_hybrid_tool-IsLawful, call_hybrid_tool-IsRouted,
}
use mcp_broker.Hybrid.Answers.{
  IsRefusal, IsPermitted, call_hybrid_tool-IsResponse, call_hybrid_tool-IsPermitted,
  call_hybrid_tool-undotted,
}
use mcp_broker.Tests.Samples.{settings, github, dev, no_arguments, response}
use mcp_broker.Tests.Policies.{tenant, snapshot, snapshot_for, request, granted, granted_for}

abbrev edge : ToolCaller
edge name tool arguments timeout = answered response

abbrev tools : List SharedWorkerTool
tools = record { upstream_id = "github"; name = "gh.clone"; behavior = "echo" } ∷ []

abbrev clock : UpstreamConfig
clock = record github { tags = "stateless" ∷ "shared-worker" ∷ [] }

abbrev hybrid : HybridToolRouter
hybrid = record {
  settings = none;
  upstreams = ("github", clock) ∷ [];
  profile = some dev;
  shared_worker = λ c. reply_of (call_worker tools c);
}

abbrev here : HybridRoutingContext
here = record {
  tenant_context = some tenant;
  team_id = some "core";
  quota_snapshot = some snapshot;
}

abbrev placed : Affinity
placed = record {
  upstream_class = stateless;
  execution_boundary = shared_worker;
  shared_worker_eligible = true;
  reason = allowlisted_stateless_upstream;
  state_scope = tenant_scope request.tenant "github";
}

decide_session_affinity_iff_example :
    ((placed.execution_boundary ≡ shared_worker) ↔ IsShareable "stateless" true false)
    × (placed.execution_boundary ≡ shared_worker → IsTenantBound tenant "github" placed)
unfolding decide_session_affinity normalize_upstream_class decide_upstream_placement
    validate_tenant_context required_identifier required_text is_blank strip lstrip rstrip lowers_to
decide_session_affinity_iff_example =
    decide_session_affinity_iff "stateless" "github" true false tenant placed refl

abbrev asked : WorkerCall
asked =
    worker_call clock "gh.clone" no_arguments
      (record { tenant_context = tenant; team_id = "core"; quota_snapshot = snapshot }) granted

abbrev echoed : Value
echoed = answer "" (dict (field "message" (str "") end))

abbrev scope : WorkerScope
scope = record { tenant = request.tenant; upstream_id = "github" }

abbrev decision : WorkerDecision
decision = allowed_decision scope "gh.clone" echoed

ran : call_worker tools asked ≡ ok decision
unfolding call_worker required_tool_name placement_denial quota_denial find_tool execute_fake_tool
    decide_session_affinity normalize_upstream_class decide_upstream_placement
    validate_tenant_context required_identifier required_text is_blank strip lstrip rstrip lowers_to
ran = refl

call_worker_sound_example : Ran tools asked decision
call_worker_sound_example = call_worker_sound tools asked decision ran refl

call_worker-IsAudited_example : IsAudited asked decision
call_worker-IsAudited_example = call_worker-IsAudited tools asked decision ran

sent : (call_hybrid_tool hybrid here "gh.clone" no_arguments edge).0 ≡ at_worker asked ∷ []
unfolding call_hybrid_tool should_try_shared_worker requires_local_state resolve_call_route
    allowed_call_route find_prefix prefix_of is_off split_once decide_quota request_scope
    first_denial kill_switch_denial switches_denial limit_denial limits_denial
    validate_tenant_context required_identifier required_text is_blank
sent = refl

call_hybrid_tool-IsLawful_example :
    All
      (IsLawful hybrid here "gh.clone" no_arguments)
      (call_hybrid_tool hybrid here "gh.clone" no_arguments edge).0
call_hybrid_tool-IsLawful_example =
    call_hybrid_tool-IsLawful hybrid here "gh.clone" no_arguments edge

call_hybrid_tool-IsPermitted_example : IsPermitted hybrid here "gh.clone" tools asked decision
call_hybrid_tool-IsPermitted_example =
    call_hybrid_tool-IsPermitted hybrid here "gh.clone" no_arguments edge tools asked [] decision
      sent ran refl

abbrev nowhere : HybridRoutingContext
nowhere = from_params []

call_hybrid_tool-IsRouted_example :
    IsRouted hybrid nowhere "gh.clone" no_arguments edge
      (call_hybrid_tool hybrid nowhere "gh.clone" no_arguments edge)
call_hybrid_tool-IsRouted_example =
    call_hybrid_tool-IsRouted hybrid nowhere "gh.clone" no_arguments edge

-- A worker that refuses every call.
abbrev closed : HybridToolRouter
closed = record hybrid { shared_worker = λ c. returned (field "allowed" (bool false) end) }

call_hybrid_tool-IsResponse_example :
    IsResponse (dict (field "allowed" (bool false) end))
    ⊎ IsRefusal closed
        (call_hybrid_tool closed here "gh.clone" no_arguments edge).0
        (dict (field "allowed" (bool false) end))
unfolding call_hybrid_tool should_try_shared_worker requires_local_state resolve_call_route
    allowed_call_route find_prefix prefix_of is_off split_once decide_quota request_scope
    first_denial kill_switch_denial switches_denial limit_denial limits_denial
    validate_tenant_context required_identifier required_text is_blank
call_hybrid_tool-IsResponse_example =
    call_hybrid_tool-IsResponse closed here "gh.clone" no_arguments edge
      (dict (field "allowed" (bool false) end)) refl

-- A configuration with another separator.
abbrev spaced : HybridToolRouter
spaced = record hybrid { settings = some settings }

abbrev there : HybridRoutingContext
there = record here { quota_snapshot = some (snapshot_for "gh__clone") }

abbrev undotted : WorkerCall
undotted =
    worker_call clock "gh__clone" no_arguments
      (record {
        tenant_context = tenant;
        team_id = "core";
        quota_snapshot = snapshot_for "gh__clone";
      })
      (granted_for "gh__clone")

sent_undotted :
    (call_hybrid_tool spaced there "gh__clone" no_arguments edge).0 ≡ at_worker undotted ∷ []
unfolding call_hybrid_tool should_try_shared_worker requires_local_state resolve_call_route
    allowed_call_route find_prefix prefix_of is_off split_once decide_quota request_scope
    first_denial kill_switch_denial switches_denial limit_denial limits_denial
    validate_tenant_context required_identifier required_text is_blank
sent_undotted = refl

call_hybrid_tool-undotted_example : call_worker tools undotted ≢ ok decision
call_hybrid_tool-undotted_example =
    call_hybrid_tool-undotted spaced there "gh__clone" no_arguments edge tools undotted [] decision
      sent_undotted refl
