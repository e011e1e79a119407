-- ===== src/Hybrid/Answers.antt =====
-- What comes back through the hybrid router.
use mcp_broker.Prelude.{
  String, has_char, ◌≡◌, ◌≢◌, sym, ap, ap₂, ◌∙◌, Dict, arith, subst, true, false, ◌⊎◌, some, List,
  [], refl, ◌∷◌, All, inl, inr, Bool-cases, Option-cases, lookup,
}
use mcp_broker.Prelude.Result.{Result, ok, err, Result-cases}
use mcp_broker.Value.{Value, Fields, dict, fields, as_dict, got, is_true}
use mcp_broker.Upstream.{UpstreamConfig}
use mcp_broker.Core.{BrokerToolError, ToolCaller, resolve_call_route}
use mcp_broker.Core.Calls.{IsResponse, validate_sound, call_tool_sound}
use mcp_broker.Quota.{Decision, RequestScope, decision_dict, request_scope}
use mcp_broker.Quota.Permits.{Permits, decide_quota_iff}
use mcp_broker.SharedPolicy.{IdentifierError, TenantContext, validate_tenant_context}
use mcp_broker.Worker.Audit.{call_worker-IsAudited}
use mcp_broker.Worker.{WorkerCall, WorkerDecision, SharedWorkerTool, call_worker}
use mcp_broker.Worker.Isolation.{Ran, undotted_fails, call_worker_sound}
use mcp_broker.Hybrid.Defs.{
  HybridToolRouter, HybridRoutingContext, FullContext, WorkerReply, returned, raised, core_of,
  full_context, should_try_shared_worker, quota_of, ask_worker, worker_call, worker_outcome,
  HybridEvent, at_worker, call_hybrid_tool,
}
use mcp_broker.Hybrid.Routes.{IsLawful, call_hybrid_tool-IsLawful}

-- A refusal of the worker, as it is returned to the client: the run has asked the worker, and the
-- response is what the worker returned for that call.
pub record IsRefusal (r : HybridToolRouter) (events : List HybridEvent) (response : Value)
    : Type 0 where
  pub call : WorkerCall
  pub answer : Fields
  pub asked : events ≡ at_worker call ∷ []
  pub answered : r.shared_worker call ≡ returned answer
  pub is_answer : response ≡ dict answer
  pub not_allowed : is_true (got (lookup "allowed" (fields answer))) ≡ false

worker_outcome_sound :
    (r : HybridToolRouter) (w : WorkerCall) (u : UpstreamConfig) (tool : String)
    (reply : WorkerReply) (response : Value)
    → r.shared_worker w ≡ reply
    → worker_outcome u tool reply ≡ ok response
    → IsResponse response ⊎ IsRefusal r (at_worker w ∷ []) response
worker_outcome_sound r w u tool (raised text) response given h = absurd (cc (h))
worker_outcome_sound r w u tool (returned fs) response given h =
    elim (Bool-cases (is_true (got (lookup "allowed" (fields fs))))) [
      | inr denied ↦ inr (record {
        call = w;
        answer = fs;
        asked = refl;
        answered = given;
        is_answer = sym (cc (rw denied at h));
        not_allowed = denied;
      })
      | inl allowed ↦ elim (Option-cases (as_dict (got (lookup "result" (fields fs))))) [
        | inl other ↦ absurd (cc (rw (allowed, other) at h))
        | inr (d, object) ↦
            let (same, valid) = validate_sound u.name _ response (rw (allowed, object) at h) in
            inl valid
      ]
    ]

ask_worker_sound :
    (r : HybridToolRouter) (u : UpstreamConfig) (tool name : String) (arguments response : Value)
    (q : Result BrokerToolError (FullContext × Decision))
    → (ask_worker r u tool name arguments q).1 ≡ ok response
    → IsResponse response ⊎ IsRefusal r (ask_worker r u tool name arguments q).0 response
ask_worker_sound r u tool name arguments response (err e) h = absurd (cc)
ask_worker_sound r u tool name arguments response (ok (x, d)) h =
    let w = worker_call u name arguments x d in
    worker_outcome_sound r w u tool (r.shared_worker w) response refl h

-- Whatever the shared worker and the upstream answer, a call that returns gives an object whose
-- `content` is a list, or the very object that the worker returned for the one call that was sent
-- to it, which does not say that it is allowed.
pub call_hybrid_tool-IsResponse :
    (r : HybridToolRouter) (x : HybridRoutingContext) (name : String) (arguments : Value)
    (edge_caller : ToolCaller) (response : Value)
    → (call_hybrid_tool r x name arguments edge_caller).1 ≡ ok response
    → IsResponse response ⊎ IsRefusal r (call_hybrid_tool r x name arguments edge_caller).0 response
unfolding call_hybrid_tool
call_hybrid_tool-IsResponse r x name arguments edge_caller response h =
    elim (Result-cases (resolve_call_route (core_of r) name)) [
      | inr (e, refused) ↦ absurd (cc (rw refused at h))
      | inl ((u, tool), routed) ↦ elim (Bool-cases (should_try_shared_worker u x)) [
        | inl fit ↦
            rw (routed, fit)
              (ask_worker_sound r u tool name arguments response
                (quota_of (full_context x) u.name name) (rw (routed, fit) at h))
        | inr local ↦
            inl
              (call_tool_sound (core_of r) name arguments edge_caller response
                (rw (routed, local) at h)).valid
      ]
    ]

-- What stands behind a tool that the worker has run for a routed call.
pub record IsPermitted (r : HybridToolRouter) (x : HybridRoutingContext) (name : String)
    (tools : List SharedWorkerTool) (w : WorkerCall) (d : WorkerDecision) : Type 0 where
  pub upstream : UpstreamConfig
  pub tool : String
  pub routed : resolve_call_route (core_of r) name ≡ ok (upstream, tool)
  pub context : FullContext
  pub given : full_context x ≡ some context
  pub request : RequestScope
  pub requested :
      request_scope context.tenant_context context.team_id upstream.name name ≡ ok request
  pub permits : Permits context.quota_snapshot request
  pub ran : Ran tools w d
  pub in_scope : d.worker_scope ≡ record { tenant = request.tenant; upstream_id = upstream.name }

allowed_of :
    (d : Decision) → is_true (got (lookup "allowed" (decision_dict d))) ≡ true → d.allowed ≡ true
allowed_of d h = elim (Bool-cases d.allowed) [
  | inl yes' ↦ yes'
  | inr no' ↦ absurd (cc (rw no' at h))
]

request_tenant :
    (context : Dict Value) (team_id upstream_id name : String) (request : RequestScope)
    → request_scope context team_id upstream_id name ≡ ok request
    → validate_tenant_context context ≡ ok request.tenant
unfolding request_scope
request_tenant context team_id upstream_id name request h =
    elim (Result-cases (validate_tenant_context context)) [
      | inr (e, bad) ↦ absurd (cc (rw bad at h))
      | inl (t, good) ↦ ground (arith, rw good at h)
    ]

tenant_same :
    (t u : TenantContext) (v : Result IdentifierError TenantContext) → ok t ≡ v → v ≡ ok u → t ≡ u
tenant_same t u v h k = cc

-- When the worker runs a tool for a call that the hybrid router sends it, the quota snapshot of
-- the request permits that tenant's, team's and upstream's use of the tool, the broker's own
-- routing let the call through, and the tool ran in the sandbox that denies everything, in the scope
-- of just that tenant and upstream.
pub call_hybrid_tool-IsPermitted :
    (r : HybridToolRouter) (x : HybridRoutingContext) (name : String) (arguments : Value)
    (edge_caller : ToolCaller) (tools : List SharedWorkerTool) (w : WorkerCall)
    (rest : List HybridEvent) (d : WorkerDecision)
    → (call_hybrid_tool r x name arguments edge_caller).0 ≡ at_worker w ∷ rest
    → call_worker tools w ≡ ok d
    → d.allowed ≡ true
    → IsPermitted r x name tools w d
call_hybrid_tool-IsPermitted r x name arguments edge_caller tools w rest d sent answered allowed =
    let lawful =
      subst (All (IsLawful r x name arguments)) sent
        (call_hybrid_tool-IsLawful r x name arguments edge_caller) in
    let s = lawful.0 in
    let ran = call_worker_sound tools w d answered allowed in
    let audit = call_worker-IsAudited tools w d answered in
    let (requested, meets) =
      decide_quota_iff s.context.tenant_context s.context.team_id s.upstream.name name
        s.context.quota_snapshot s.decision s.decided in
    record {
      upstream = s.upstream;
      tool = s.tool;
      routed = s.routed;
      context = s.context;
      given = s.given;
      request = s.decision.audit_event.request;
      requested = requested;
      permits = meets.0 (allowed_of s.decision (rw s.handed_over at ran.in_quota));
      ran = ran;
      in_scope =
          audit.in_scope
          ∙ ap₂ (λ t u. record { tenant = t; upstream_id = u })
              (tenant_same _ _ _
                (sym audit.checked
                  ∙ ap (λ (c : WorkerCall). validate_tenant_context c.tenant_context) s.handed_over)
                (request_tenant _ _ _ _ _ requested))
              (ap (λ (c : WorkerCall). c.upstream_id) s.handed_over);
    }

-- An advertised name without a dot, as it arises with another separator than the default one, is
-- sent to the shared worker, which then raises: it has no answer for such a name.
pub call_hybrid_tool-undotted :
    (r : HybridToolRouter) (x : HybridRoutingContext) (name : String) (arguments : Value)
    (edge_caller : ToolCaller) (tools : List SharedWorkerTool) (w : WorkerCall)
    (rest : List HybridEvent) (d : WorkerDecision)
    → (call_hybrid_tool r x name arguments edge_caller).0 ≡ at_worker w ∷ rest
    → has_char b'.' name ≡ false
    → call_worker tools w ≢ ok d
call_hybrid_tool-undotted r x name arguments edge_caller tools w rest d sent plain =
    let lawful =
      subst (All (IsLawful r x name arguments)) sent
        (call_hybrid_tool-IsLawful r x name arguments edge_caller) in
    let s = lawful.0 in undotted_fails tools w d (rw s.handed_over plain)
