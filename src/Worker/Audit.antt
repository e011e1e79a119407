-- ===== src/Worker/Audit.antt =====
-- What the shared worker's decisions tell of themselves.
use mcp_broker.Prelude.{
  String, ◌≡◌, refl, ap, sym, ◌∙◌, Bool, true, false, ◌⊎◌, inl, inr, Option, none, some, List, Dict,
  arith, Bool-cases, Option-cases, is_empty, lookup, if-cases,
}
use mcp_broker.Prelude.Result.{Result, ok, Result-cases}
use mcp_broker.Value.{Value, is_true, got, as_str}
use mcp_broker.SharedPolicy.{
  TenantContext, Boundary, shared_worker, local_edge, decide_session_affinity,
  validate_tenant_context,
}
use mcp_broker.Worker.Tools.{SharedWorkerTool, default_deny, execute_fake_tool, WorkerError}
use mcp_broker.Worker.Defs.{
  WorkerCall, WorkerScope, WorkerDecision, denied_decision, allowed_decision, quota_denial,
  quota_reason, call_worker, run_tool, if_placed, text_or, off_worker, context_dict,
  placement_denial,
}
use mcp_broker.Worker.Isolation.{call_worker_inv}

pub record IsAllowed (d : WorkerDecision) : Type 0 where
  pub allowed : d.allowed ≡ true
  pub noted : d.audit_event.result ≡ "allowed"
  pub value : Value
  pub carried : d.result ≡ some value

pub record IsRefused (d : WorkerDecision) : Type 0 where
  pub refused : d.allowed ≡ false
  pub noted : d.audit_event.result ≡ "denied"
  pub no_result : d.result ≡ none
  pub reason : String
  pub given : d.audit_event.denial_reason ≡ some reason
  pub said : is_empty reason ≡ false

-- The decision and its audit event name the scope, and the event tells the outcome.
record Tells (scope : WorkerScope) (name : String) (d : WorkerDecision) : Type 0 where
  in_scope : d.worker_scope ≡ scope
  audited : d.audit_event.scope ≡ scope
  named : d.audit_event.tool_name ≡ name
  outcome : IsAllowed d ⊎ IsRefused d

pub record IsAudited (c : WorkerCall) (d : WorkerDecision) : Type 0 where
  pub tenant : TenantContext
  pub checked : validate_tenant_context c.tenant_context ≡ ok tenant
  pub in_scope : d.worker_scope ≡ record { tenant = tenant; upstream_id = c.upstream_id }
  pub audited : d.audit_event.scope ≡ d.worker_scope
  pub named : d.audit_event.tool_name ≡ c.tool_name
  pub outcome : IsAllowed d ⊎ IsRefused d

abbrev denial_ok : Option String → Result WorkerError (Option String)
denial_ok o = ok o

text_or_said :
    (o : Option String) (reason : String)
    → is_empty reason ≡ false
    → is_empty (text_or o reason) ≡ false
text_or_said none reason h = h
text_or_said (some s) reason h = ground arith

denied-Tells :
    (scope : WorkerScope) (name reason : String) (o : Option String)
    → is_empty reason ≡ false
    → Tells scope name (denied_decision scope name reason o)
unfolding denied_decision
denied-Tells scope name reason o h = record {
  in_scope = refl;
  audited = refl;
  named = refl;
  outcome = inr (record {
    refused = refl;
    noted = refl;
    no_result = refl;
    reason = text_or o reason;
    given = refl;
    said = text_or_said o reason h;
  });
}

allowed-Tells :
    (scope : WorkerScope) (name : String) (v : Value)
    → Tells scope name (allowed_decision scope name v)
allowed-Tells scope name v = record {
  in_scope = refl;
  audited = refl;
  named = refl;
  outcome = inl (record { allowed = refl; noted = refl; value = v; carried = refl });
}

quota_reason_said : (o : Option String) → is_empty (quota_reason o) ≡ false
quota_reason_said none = refl
quota_reason_said (some s) = if-cases (λ t. is_empty t ≡ false) (is_empty s) (λ _. refl) (λ h. h)

quota_said :
    (q : Dict Value) (reason : String) → quota_denial q ≡ some reason → is_empty reason ≡ false
unfolding quota_denial
quota_said q reason h = elim (Bool-cases (is_true (got (lookup "allowed" q)))) [
  | inl room ↦ absurd (cc (rw room at h))
  | inr over ↦
      let same : quota_reason (as_str (got (lookup "reason" q))) ≡ reason = cc (rw over at h) in
      rw (← same) (quota_reason_said _)
]

placement_said :
    (upstream_class id : String) (allowlisted requires_local_state : Bool) (t : TenantContext)
    (reason : String)
    → placement_denial upstream_class id allowlisted requires_local_state t ≡ ok (some reason)
    → is_empty reason ≡ false
unfolding placement_denial
placement_said upstream_class id al rl t reason h =
    elim (Result-cases (decide_session_affinity upstream_class id al rl (context_dict t))) [
      | inr (e, bad) ↦ absurd (cc (rw bad at h))
      | inl (a, good) ↦ text_of a.execution_boundary (rw good at h)
    ]
  where
    text_of :
        (b : Boundary)
        → denial_ok (off_worker b) ≡ denial_ok (some reason)
        → is_empty reason ≡ false
    text_of shared_worker e = cc
    text_of local_edge e =
        let same : "shared_worker_placement_denied" ≡ reason = cc in rw (← same) refl

run_tool-Tells :
    (tools : List SharedWorkerTool) (scope : WorkerScope) (name : String) (arguments : Value)
    (t : Option SharedWorkerTool) (d : WorkerDecision)
    → run_tool scope name arguments t ≡ ok d
    → Tells scope name d
run_tool-Tells tools scope name arguments none d h =
    let same : denied_decision scope name "unsupported_tool" none ≡ d = cc in
    rw (← same) (denied-Tells scope name "unsupported_tool" none refl)
run_tool-Tells tools scope name arguments (some t) d h =
    elim (Result-cases (execute_fake_tool t arguments default_deny)) [
      | inr (e, bad) ↦ absurd (cc (rw bad at h))
      | inl (v, good) ↦
          let same : allowed_decision scope name v ≡ d = cc (rw good at h) in
          rw (← same) (allowed-Tells scope name v)
    ]

if_placed-Tells :
    (tools : List SharedWorkerTool) (scope : WorkerScope) (name : String) (c : WorkerCall)
    (denial : Option String) (d : WorkerDecision)
    → ((reason : String) → denial ≡ some reason → is_empty reason ≡ false)
    → if_placed tools scope name c denial ≡ ok d
    → Tells scope name d
if_placed-Tells tools scope name c (some reason) d said h =
    let same : denied_decision scope name reason none ≡ d = cc in
    rw (← same) (denied-Tells scope name reason none (said reason refl))
if_placed-Tells tools scope name c none d said h =
    elim (Option-cases (quota_denial c.quota_decision)) [
      | inl room ↦ run_tool-Tells tools scope name c.arguments _ d (rw room at h)
      | inr (reason, over) ↦
          let same : denied_decision scope name "quota_denied" (some reason) ≡ d =
            cc (rw over at h) in
          rw (← same) (denied-Tells scope name "quota_denied" (some reason) refl)
    ]

-- Every decision of the worker names the checked tenant and the upstream of the call, and so does
-- its audit event. Either it is allowed, with a result, or it is denied, with no result and with a
-- reason in the audit event that is not empty.
pub call_worker-IsAudited :
    (tools : List SharedWorkerTool) (c : WorkerCall) (d : WorkerDecision)
    → call_worker tools c ≡ ok d
    → IsAudited c d
call_worker-IsAudited tools c d h =
    let k = call_worker_inv tools c d h in
    let said : (reason : String) → k.denial ≡ some reason → is_empty reason ≡ false =
      λ reason e. placement_said _ _ _ _ k.tenant reason (k.asked ∙ ap ok e) in
    let t = if_placed-Tells tools _ c.tool_name c k.denial d said k.decided in
    record {
      tenant = k.tenant;
      checked = k.checked;
      in_scope = t.in_scope;
      audited = t.audited ∙ sym t.in_scope;
      named = t.named;
      outcome = t.outcome;
    }
