-- ===== src/Worker/Isolation.antt =====
-- What the shared worker runs, and what it says of what it refuses.
use mcp_broker.Prelude.{
  String, has_char, ◌≡◌, ◌≢◌, refl, ap, ◌∙◌, Bool, true, false, Option, none, some, List, Dict,
  arith, inl, inr, Option-cases, lookup,
}
use mcp_broker.Prelude.Result.{Result, ok, Result-cases}
use mcp_broker.Value.{Value, is_true, got}
use mcp_broker.SharedPolicy.{
  TenantContext, Boundary, shared_worker, local_edge, required_text, validate_tenant_context,
  decide_session_affinity,
}
use mcp_broker.SharedPolicy.Boundaries.{
  required_text_same, IsShareable, decide_session_affinity_iff,
}
use mcp_broker.Worker.Tools.{
  SharedWorkerTool, default_deny, find_tool, execute_fake_tool, required_tool_name, WorkerError,
}
use mcp_broker.Worker.Defs.{
  WorkerCall, WorkerScope, WorkerDecision, placement_denial, quota_denial, denied_decision,
  off_worker, context_dict, call_worker, run_tool, if_placed,
}

-- A call that the worker has run.
pub record Ran (tools : List SharedWorkerTool) (c : WorkerCall) (d : WorkerDecision) : Type 0 where
  pub shareable : IsShareable c.upstream_class c.allowlisted c.requires_local_state
  pub in_quota : is_true (got (lookup "allowed" c.quota_decision)) ≡ true
  pub tool : SharedWorkerTool
  pub registered : find_tool tools c.upstream_id c.tool_name ≡ some tool
  pub value : Value
  pub answered : execute_fake_tool tool c.arguments default_deny ≡ ok value
  pub returned : d.result ≡ some value

tool_name_same : (value s : String) → required_tool_name value ≡ ok s → s ≡ value
unfolding required_tool_name required_text
tool_name_same value s h = ground arith

-- The parts of a call that is decided.
pub record Checked (tools : List SharedWorkerTool) (c : WorkerCall) (d : WorkerDecision)
    : Type 0 where
  pub tenant : TenantContext
  pub checked : validate_tenant_context c.tenant_context ≡ ok tenant
  pub named : required_tool_name c.tool_name ≡ ok c.tool_name
  pub denial : Option String
  pub asked :
      placement_denial c.upstream_class c.upstream_id c.allowlisted c.requires_local_state tenant
      ≡ ok denial
  pub decided :
      if_placed tools (record { tenant = tenant; upstream_id = c.upstream_id }) c.tool_name c denial
      ≡ ok d

pub call_worker_inv :
    (tools : List SharedWorkerTool) (c : WorkerCall) (d : WorkerDecision)
    → call_worker tools c ≡ ok d
    → Checked tools c d
unfolding call_worker
call_worker_inv tools c d h = elim (Result-cases (validate_tenant_context c.tenant_context)) [
  | inr (e, bad) ↦ absurd (cc (rw bad at h))
  | inl (t, context) ↦ elim (Result-cases (required_text c.upstream_id "upstream_id")) [
    | inr (e, bad) ↦ absurd (cc (rw (context, bad) at h))
    | inl (id, idok) ↦ elim (Result-cases (required_tool_name c.tool_name)) [
      | inr (e, bad) ↦ absurd (cc (rw (context, idok, bad) at h))
      | inl (name, nameok) ↦
          let same_id : id ≡ c.upstream_id = required_text_same c.upstream_id _ id idok in
          let same_name : name ≡ c.tool_name = tool_name_same c.tool_name name nameok in
          elim (Result-cases
            (placement_denial c.upstream_class id c.allowlisted c.requires_local_state t)) [
              | inr (e, bad) ↦ absurd (cc (rw (context, idok, nameok, bad) at h))
              | inl (denial, asked) ↦ record {
                tenant = t;
                checked = context;
                named = rw same_name at nameok;
                denial = denial;
                asked = rw same_id at asked;
                decided = rw (same_id, same_name) at (rw (context, idok, nameok, asked) at h);
              }
            ]
    ]
  ]
]

abbrev denial_at : Boundary → Result WorkerError (Option String)
denial_at b = ok (off_worker b)

placed-IsShareable :
    (upstream_class id : String) (allowlisted requires_local_state : Bool) (t : TenantContext)
    → placement_denial upstream_class id allowlisted requires_local_state t ≡ ok none
    → IsShareable upstream_class allowlisted requires_local_state
unfolding placement_denial
placed-IsShareable upstream_class id al rl t h =
    elim (Result-cases (decide_session_affinity upstream_class id al rl (context_dict t))) [
      | inr (e, bad) ↦ absurd (cc (rw bad at h))
      | inl (a, good) ↦
          (decide_session_affinity_iff upstream_class id al rl (context_dict t) a good).0.0
            (off_worker_none a.execution_boundary (rw good at h))
    ]
  where
    off_worker_none : (b : Boundary) → denial_at b ≡ ok none → b ≡ shared_worker
    off_worker_none shared_worker h = refl
    off_worker_none local_edge h = cc

unquota :
    (quota_decision : Dict Value)
    → quota_denial quota_decision ≡ none
    → is_true (got (lookup "allowed" quota_decision)) ≡ true
unfolding quota_denial
unquota quota_decision h = ground arith

-- What a tool returned, where the worker got as far as running one.
record Executed (tools : List SharedWorkerTool) (scope : WorkerScope) (name : String)
    (arguments : Value) (d : WorkerDecision) : Type 0 where
  tool : SharedWorkerTool
  registered : find_tool tools scope.upstream_id name ≡ some tool
  value : Value
  answered : execute_fake_tool tool arguments default_deny ≡ ok value
  returned : d.result ≡ some value

run_tool_inv :
    (tools : List SharedWorkerTool) (scope : WorkerScope) (name : String) (arguments : Value)
    (d : WorkerDecision)
    → run_tool scope name arguments (find_tool tools scope.upstream_id name) ≡ ok d
    → d.allowed ≡ true
    → Executed tools scope name arguments d
unfolding denied_decision
run_tool_inv tools scope name arguments d h allowed =
    elim (Option-cases (find_tool tools scope.upstream_id name)) [
      | inl missing ↦ absurd (cc (rw missing at h))
      | inr (t, found) ↦ elim (Result-cases (execute_fake_tool t arguments default_deny)) [
        | inr (e, bad) ↦ absurd (cc (rw (found, bad) at h))
        | inl (v, good) ↦ record {
          tool = t;
          registered = found;
          value = v;
          answered = good;
          returned = ground (arith, rw (found, good) at h);
        }
      ]
    ]

-- A call is allowed only for an upstream that may be shared, within its quota, for a tool that the
-- worker knows; the result is that tool's answer, run in the sandbox that denies everything.
pub call_worker_sound :
    (tools : List SharedWorkerTool) (c : WorkerCall) (d : WorkerDecision)
    → call_worker tools c ≡ ok d
    → d.allowed ≡ true
    → Ran tools c d
unfolding denied_decision
call_worker_sound tools c d h allowed =
    let k = call_worker_inv tools c d h in
    elim (Option-cases k.denial) [
      | inr (reason, denied) ↦ absurd (cc (rw denied at k.decided))
      | inl free ↦ elim (Option-cases (quota_denial c.quota_decision)) [
        | inr (reason, over) ↦ absurd (cc (rw (free, over) at k.decided))
        | inl room ↦
            let e =
              run_tool_inv tools _ c.tool_name c.arguments d (rw (free, room) at k.decided)
                allowed in
            record {
              shareable = placed-IsShareable _ _ _ _ k.tenant (k.asked ∙ ap ok free);
              in_quota = unquota c.quota_decision room;
              tool = e.tool;
              registered = e.registered;
              value = e.value;
              answered = e.answered;
              returned = e.returned;
            }
      ]
    ]

no_dot_fails : (name : String) → has_char b'.' name ≡ false → required_tool_name name ≢ ok name
unfolding required_tool_name required_text
no_dot_fails name plain h = ground arith

pub undotted_fails :
    (tools : List SharedWorkerTool) (c : WorkerCall) (d : WorkerDecision)
    → has_char b'.' c.tool_name ≡ false
    → call_worker tools c ≢ ok d
undotted_fails tools c d plain h =
    no_dot_fails c.tool_name plain (call_worker_inv tools c d h).named
