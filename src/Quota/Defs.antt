-- ===== src/Quota/Defs.antt =====
-- src/mcp_broker/quota_policy.py: the decision whether a call is within its quotas.
use mcp_broker.Prelude.{
  ℕ, String, ◌++ₛ◌, Bool, true, false, Option, none, some, List, [], ◌∷◌, Dict, ◌==◌, if◌then◌else◌,
  lookup, leb, any,
}
use mcp_broker.Prelude.Result.{Result, ok, ◌>>=◌}
use mcp_broker.Value.{
  ℤ, max_zero, Value, Items, Fields, nil, cons, end, field, str, bool, list, dict, as_dict, as_list,
  as_str, as_int, is_true, got,
}
use mcp_broker.SharedPolicy.{IdentifierError, TenantContext, required_text, validate_tenant_context}

pub data Scope : Type 0 where
  global team user upstream tool : Scope

abbrev pub scope_text : Scope → String
scope_text global = "global"
scope_text team = "team"
scope_text user = "user"
scope_text upstream = "upstream"
scope_text tool = "tool"

-- `QUOTA_SCOPES`
abbrev pub quota_scopes : List Scope
quota_scopes = global ∷ team ∷ user ∷ upstream ∷ tool ∷ []

pub record RequestScope : Type 0 where
  pub tenant : TenantContext
  pub team_id : String
  pub upstream_id : String
  pub tool_name : String

pub data Cause : Type 0 where
  kill_switch_missing kill_switch quota_missing quota_exceeded : Cause

pub record Denial : Type 0 where
  pub scope : Scope
  pub cause : Cause

abbrev cause_text : Cause → String
cause_text kill_switch_missing = "_kill_switch_missing"
cause_text kill_switch = "_kill_switch"
cause_text quota_missing = "_quota_missing"
cause_text quota_exceeded = "_quota_exceeded"

-- The second part of the pair that the source returns.
abbrev pub reason_of : Denial → String
reason_of d = scope_text d.scope ++ₛ cause_text d.cause

-- `(scope, field, identifier)`
abbrev pub ScopedSwitch : Type 0
ScopedSwitch = Scope × String × String

abbrev pub scoped_switches : RequestScope → List ScopedSwitch
scoped_switches r =
    (team, "teams", r.team_id)
    ∷ (user, "users", r.tenant.user_id)
    ∷ (upstream, "upstreams", r.upstream_id)
    ∷ (tool, "tools", r.tool_name)
    ∷ []

abbrev is_text : String → Option String → Bool
is_text k none = false
is_text k (some s) = s == k

-- `identifier in values`
abbrev pub lists : List Value → String → Bool
lists values k = any (λ v. is_text k (as_str v)) values

abbrev switch_denial : Scope → String → Option (List Value) → Option Denial
switch_denial s k none = some (record { scope = s; cause = kill_switch_missing })
switch_denial s k (some values) =
    if lists values k then some (record { scope = s; cause = kill_switch }) else none

-- The loop goes on only past what denies nothing.
abbrev pub or_else : Option Denial → Option Denial → Option Denial
or_else (some d) rest = some d
or_else none rest = rest

unfoldable pub switches_denial : Dict Value → List ScopedSwitch → Option Denial
switches_denial switches [] = none
switches_denial switches ((s, name, k) ∷ rest) =
    or_else (switch_denial s k (as_list (got (lookup name switches))))
      (switches_denial switches rest)

abbrev in_switches : RequestScope → Option (Dict Value) → Option Denial
in_switches r none = some (record { scope = global; cause = kill_switch_missing })
in_switches r (some switches) =
    if is_true (got (lookup "global" switches))
    then some (record { scope = global; cause = kill_switch })
    else switches_denial switches (scoped_switches r)

unfoldable pub kill_switch_denial : Dict Value → RequestScope → Option Denial
kill_switch_denial snapshot r = in_switches r (as_dict (got (lookup "kill_switches" snapshot)))

-- `_limit_record(limits, field)`
abbrev pub limit_record : Dict Value → String → Option (Dict Value)
limit_record limits name = as_dict (got (lookup name limits))

abbrev below : Option (Dict Value) → String → Option (Dict Value)
below none k = none
below (some scoped) k = as_dict (got (lookup k scoped))

-- `_scoped_limit_record(limits, field, identifier)`
abbrev pub scoped_limit_record : Dict Value → String → String → Option (Dict Value)
scoped_limit_record limits name k = below (as_dict (got (lookup name limits))) k

abbrev count_of : Option ℤ → ℕ
count_of none = 0
count_of (some z) = max_zero z

abbrev pub limit_count : Dict Value → ℕ
limit_count record' = count_of (as_int (got (lookup "limit" record')))

abbrev pub used_count : Dict Value → ℕ
used_count record' = count_of (as_int (got (lookup "used" record')))

abbrev pub limit_checks : Dict Value → RequestScope → List (Scope × Option (Dict Value))
limit_checks limits r =
    (global, limit_record limits "global")
    ∷ (team, scoped_limit_record limits "teams" r.team_id)
    ∷ (user, scoped_limit_record limits "users" r.tenant.user_id)
    ∷ (upstream, scoped_limit_record limits "upstreams" r.upstream_id)
    ∷ (tool, scoped_limit_record limits "tools" r.tool_name)
    ∷ []

abbrev record_denial : Scope → Option (Dict Value) → Option Denial
record_denial s none = some (record { scope = s; cause = quota_missing })
record_denial s (some r) =
    if leb (limit_count r) (used_count r)
    then some (record { scope = s; cause = quota_exceeded })
    else none

unfoldable pub limits_denial : List (Scope × Option (Dict Value)) → Option Denial
limits_denial [] = none
limits_denial ((s, r) ∷ rest) = or_else (record_denial s r) (limits_denial rest)

abbrev in_limits : RequestScope → Option (Dict Value) → Option Denial
in_limits r none = some (record { scope = global; cause = quota_missing })
in_limits r (some limits) = limits_denial (limit_checks limits r)

unfoldable pub limit_denial : Dict Value → RequestScope → Option Denial
limit_denial snapshot r = in_limits r (as_dict (got (lookup "limits" snapshot)))

unfoldable pub first_denial : Dict Value → RequestScope → Option Denial
first_denial snapshot r = or_else (kill_switch_denial snapshot r) (limit_denial snapshot r)

pub record AuditEvent : Type 0 where
  pub request : RequestScope
  pub result : String
  pub denial_reason : Option String

pub record Decision : Type 0 where
  pub allowed : Bool
  pub reason : String
  pub blocked_scope : Option Scope
  pub checked_scopes : List Scope
  pub audit_event : AuditEvent

abbrev pub decision_of : RequestScope → Option Denial → Decision
decision_of r (some d) = record {
  allowed = false;
  reason = reason_of d;
  blocked_scope = some d.scope;
  checked_scopes = quota_scopes;
  audit_event = record { request = r; result = "denied"; denial_reason = some (reason_of d) };
}
decision_of r none = record {
  allowed = true;
  reason = "quota_allowed";
  blocked_scope = none;
  checked_scopes = quota_scopes;
  audit_event = record { request = r; result = "allowed"; denial_reason = none };
}

-- The scope that the arguments of `decide_quota` give, once they are checked.
unfoldable pub request_scope :
    Dict Value → String → String → String → Result IdentifierError RequestScope
request_scope tenant_context team_id upstream_id tool_name = do
  context ← validate_tenant_context tenant_context
  t ← required_text team_id "team_id"
  u ← required_text upstream_id "upstream_id"
  n ← required_text tool_name "tool_name"
  ok (record { tenant = context; team_id = t; upstream_id = u; tool_name = n })

unfoldable pub decide_quota :
    Dict Value → String → String → String → Dict Value → Result IdentifierError Decision
decide_quota tenant_context team_id upstream_id tool_name quota_snapshot = do
  r ← request_scope tenant_context team_id upstream_id tool_name
  ok (decision_of r (first_denial quota_snapshot r))

abbrev pub texts : List Scope → Items
texts [] = nil
texts (s ∷ ss) = cons (str (scope_text s)) (texts ss)

abbrev reason_field : Option String → Fields
reason_field none = end
reason_field (some reason) = field "denial_reason" (str reason) end

-- `_audit_event`
unfoldable pub quota_audit_event : AuditEvent → Value
quota_audit_event a = dict (
    field "event_type" (str "quota_decision") (
      field "tenant_id" (str a.request.tenant.tenant_id) (
        field "workspace_id" (str a.request.tenant.workspace_id) (
          field "user_id" (str a.request.tenant.user_id) (
            field "team_id" (str a.request.team_id) (
              field "upstream_id" (str a.request.upstream_id) (
                field "tool_name" (str a.request.tool_name)
                  (field "result" (str a.result) (reason_field a.denial_reason)))))))))

abbrev scope_entry : Option Scope → Dict Value → Dict Value
scope_entry none rest = rest
scope_entry (some s) rest = ("blocked_scope", str (scope_text s)) ∷ rest

-- The dictionary that `decide_quota` returns.
abbrev pub decision_dict : Decision → Dict Value
decision_dict d =
    ("allowed", bool d.allowed)
    ∷ ("reason", str d.reason)
    ∷ scope_entry d.blocked_scope (
        ("checked_scopes", list (texts d.checked_scopes))
        ∷ ("audit_event", quota_audit_event d.audit_event)
        ∷ [])
