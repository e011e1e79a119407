-- ===== src/Tests/Policies.antt =====
-- Quotas at a concrete snapshot.
use mcp_broker.Prelude.{◌≡◌, ◌↔◌, refl, true, none, [], ◌∷◌, Dict, String, is_blank}
use mcp_broker.Prelude.Result.{ok}
use mcp_broker.Value.{Value, dict, list, str, int, pos, nil, end, field}
use mcp_broker.SharedPolicy.{validate_tenant_context, required_identifier, required_text}
use mcp_broker.Quota.{
  RequestScope, Decision, request_scope, decide_quota, first_denial, kill_switch_denial,
  switches_denial, limit_denial, limits_denial, quota_scopes,
}
use mcp_broker.Quota.Permits.{decide_quota_iff, Permits}

abbrev pub tenant : Dict Value
tenant = ("tenant_id", str "acme") ∷ ("workspace_id", str "main") ∷ ("user_id", str "ann") ∷ []

abbrev room : Value
room = dict (field "limit" (int (pos 10)) (field "used" (int (pos 3)) end))

abbrev scoped : String → Value
scoped k = dict (field k room end)

abbrev pub snapshot_for : String → Dict Value
snapshot_for tool =
    (
      "kill_switches",
      dict (
          field "teams" (list nil) (
            field "users" (list nil)
              (field "upstreams" (list nil) (field "tools" (list nil) end)))),
    )
    ∷ (
      "limits",
      dict (
          field "global" room (
            field "teams" (scoped "core") (
              field "users" (scoped "ann")
                (field "upstreams" (scoped "github") (field "tools" (scoped tool) end))))),
    )
    ∷ []

abbrev pub snapshot : Dict Value
snapshot = snapshot_for "gh.clone"

abbrev pub request_for : String → RequestScope
request_for tool = record {
  tenant = record { tenant_id = "acme"; workspace_id = "main"; user_id = "ann" };
  team_id = "core";
  upstream_id = "github";
  tool_name = tool;
}

abbrev pub request : RequestScope
request = request_for "gh.clone"

abbrev pub granted_for : String → Decision
granted_for tool = record {
  allowed = true;
  reason = "quota_allowed";
  blocked_scope = none;
  checked_scopes = quota_scopes;
  audit_event = record { request = request_for tool; result = "allowed"; denial_reason = none };
}

abbrev pub granted : Decision
granted = granted_for "gh.clone"

decide_quota_iff_example :
    (request_scope tenant "core" "github" "gh.clone" ≡ ok request)
    × ((granted.allowed ≡ true) ↔ Permits snapshot request)
unfolding decide_quota request_scope validate_tenant_context required_identifier required_text
    is_blank first_denial kill_switch_denial switches_denial limit_denial limits_denial
decide_quota_iff_example = decide_quota_iff tenant "core" "github" "gh.clone" snapshot granted refl
