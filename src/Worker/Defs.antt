-- ===== src/Worker/Defs.antt =====
-- src/mcp_broker/shared_worker.py: `SharedWorkerRuntime`.
use mcp_broker.Prelude.{
  String, Bool, true, false, Option, none, some, List, [], ◌∷◌, Dict, is_empty, if◌then◌else◌,
  lookup,
}
use mcp_broker.Prelude.Result.{Result, ok, err, ◌>>=◌}
use mcp_broker.Value.{Value, Fields, null, bool, str, dict, end, field, as_str, got, is_true}
use mcp_broker.SharedPolicy.{
  TenantContext, AffinityError, Affinity, Boundary, required_text, validate_tenant_context,
  decide_session_affinity, local_edge, shared_worker,
}
use mcp_broker.Worker.Tools.{
  SharedWorkerTool, WorkerError, bad_affinity, default_deny, execute_fake_tool, find_tool, lift,
  required_tool_name,
}

-- The keyword arguments of `call_tool`.
pub record WorkerCall : Type 0 where
  pub tenant_context : Dict Value
  pub upstream_id : String
  pub upstream_class : String
  pub allowlisted : Bool
  pub requires_local_state : Bool
  pub tool_name : String
  pub arguments : Value
  pub quota_decision : Dict Value

pub record WorkerScope : Type 0 where
  pub tenant : TenantContext
  pub upstream_id : String

pub record WorkerAudit : Type 0 where
  pub scope : WorkerScope
  pub tool_name : String
  pub result : String
  pub denial_reason : Option String

pub record WorkerDecision : Type 0 where
  pub allowed : Bool
  pub reason : String
  pub worker_scope : WorkerScope
  pub result : Option Value
  pub audit_event : WorkerAudit

abbrev pub text_or : Option String → String → String
text_or none reason = reason
text_or (some s) reason = if is_empty s then reason else s

unfoldable pub denied_decision : WorkerScope → String → String → Option String → WorkerDecision
denied_decision scope tool_name reason audit_reason = record {
  allowed = false;
  reason = reason;
  worker_scope = scope;
  result = none;
  audit_event = record {
    scope = scope;
    tool_name = tool_name;
    result = "denied";
    denial_reason = some (text_or audit_reason reason);
  };
}

abbrev pub allowed_decision : WorkerScope → String → Value → WorkerDecision
allowed_decision scope tool_name result = record {
  allowed = true;
  reason = "worker_call_allowed";
  worker_scope = scope;
  result = some result;
  audit_event = record {
    scope = scope;
    tool_name = tool_name;
    result = "allowed";
    denial_reason = none;
  };
}

abbrev pub quota_reason : Option String → String
quota_reason none = "quota_denied"
quota_reason (some s) = if is_empty s then "quota_denied" else s

unfoldable pub quota_denial : Dict Value → Option String
quota_denial quota_decision =
    if is_true (got (lookup "allowed" quota_decision))
    then none
    else some (quota_reason (as_str (got (lookup "reason" quota_decision))))

abbrev pub context_dict : TenantContext → Dict Value
context_dict t =
    ("tenant_id", str t.tenant_id)
    ∷ ("workspace_id", str t.workspace_id)
    ∷ ("user_id", str t.user_id)
    ∷ []

abbrev pub off_worker : Boundary → Option String
off_worker shared_worker = none
off_worker local_edge = some "shared_worker_placement_denied"

abbrev pub denial_of : Result AffinityError Affinity → Result WorkerError (Option String)
denial_of (ok placement) = ok (off_worker placement.execution_boundary)
denial_of (err e) = err (bad_affinity e)

unfoldable pub placement_denial :
    String → String → Bool → Bool → TenantContext → Result WorkerError (Option String)
placement_denial upstream_class upstream_id allowlisted requires_local_state context = denial_of (
    decide_session_affinity upstream_class upstream_id allowlisted requires_local_state
      (context_dict context))

abbrev pub run_tool :
    WorkerScope → String → Value → Option SharedWorkerTool → Result WorkerError WorkerDecision
run_tool scope name arguments none = ok (denied_decision scope name "unsupported_tool" none)
run_tool scope name arguments (some t) = do
  result ← execute_fake_tool t arguments default_deny
  ok (allowed_decision scope name result)

abbrev pub within_quota :
    List SharedWorkerTool
    → WorkerScope
    → String
    → Value
    → Option String
    → Result WorkerError WorkerDecision
within_quota tools scope name arguments (some reason) =
    ok (denied_decision scope name "quota_denied" (some reason))
within_quota tools scope name arguments none =
    run_tool scope name arguments (find_tool tools scope.upstream_id name)

abbrev pub if_placed :
    List SharedWorkerTool
    → WorkerScope
    → String
    → WorkerCall
    → Option String
    → Result WorkerError WorkerDecision
if_placed tools scope name c (some reason) = ok (denied_decision scope name reason none)
if_placed tools scope name c none =
    within_quota tools scope name c.arguments (quota_denial c.quota_decision)

unfoldable pub call_worker : List SharedWorkerTool → WorkerCall → Result WorkerError WorkerDecision
unfolding required_tool_name placement_denial quota_denial
call_worker tools c = do
  context ← lift (validate_tenant_context c.tenant_context)
  id ← lift (required_text c.upstream_id "upstream_id")
  name ← required_tool_name c.tool_name
  denial ← placement_denial c.upstream_class id c.allowlisted c.requires_local_state context
  if_placed tools (record { tenant = context; upstream_id = id }) name c denial

abbrev or_null : Option Value → Value
or_null none = null
or_null (some v) = v

abbrev scope_fields : WorkerScope → Fields → Fields
scope_fields s rest = field "tenant_id" (str s.tenant.tenant_id) (
    field "workspace_id" (str s.tenant.workspace_id)
      (field "user_id" (str s.tenant.user_id) (field "upstream_id" (str s.upstream_id) rest)))

abbrev reason_field : Option String → Fields
reason_field none = end
reason_field (some s) = field "denial_reason" (str s) end

-- `_audit_event`
unfoldable pub worker_audit_event : WorkerAudit → Value
worker_audit_event a = dict (
    field "event_type" (str "shared_worker_call") (
      scope_fields a.scope (
        field "tool_name" (str a.tool_name)
          (field "result" (str a.result) (reason_field a.denial_reason)))))

-- The dictionary that `call_tool` returns.
abbrev pub decision_fields : WorkerDecision → Fields
decision_fields d = field "allowed" (bool d.allowed) (
    field "reason" (str d.reason) (
      field "worker_scope" (dict (scope_fields d.worker_scope end)) (
        field "result" (or_null d.result)
          (field "audit_event" (worker_audit_event d.audit_event) end))))
