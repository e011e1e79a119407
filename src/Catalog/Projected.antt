-- ===== src/Catalog/Projected.antt =====
-- When a projection is checked.
use mcp_broker.Prelude.{String, ◌≡◌, refl, ap, some, Dict, lookup}
use mcp_broker.Prelude.Result.{Result, ok, err}
use mcp_broker.Value.{Value, Fields, dict, fields, of_fields, as_str, got}
use mcp_broker.Upstream.{UpstreamConfig}
use mcp_broker.Core.{CallError, call_tool, resolve_call_route}
use mcp_broker.Core.Calls.{expected_events, call_tool-events}
use mcp_broker.Catalog.Projection.{Json, ProjectionError, normalize_projection, apply_projection}
use mcp_broker.Catalog.Facade.{
  FacadeError, call_failed, bad_projection, BrokerCatalogFacade, core_of, inject_cwd_project_arg,
  project_response, response_dict, arguments_of, call_managed_tool, pruned,
}

projection_rejected :
    (j : Json) (response p : Dict Value) (e : ProjectionError)
    → normalize_projection p ≡ err e
    → apply_projection j response p ≡ err e
unfolding apply_projection
projection_rejected j response p e h = rw h refl

-- What becomes of the upstream's answer beside a projection that is no good.
abbrev pub rejected : ProjectionError → Result CallError Value → FacadeError
rejected e (ok response) = bad_projection e
rejected e (err failure) = call_failed failure

project_rejected :
    (j : Json) (p : Dict Value) (e : ProjectionError) (r : Result CallError Value)
    → normalize_projection p ≡ err e
    → project_response j (some p) r ≡ err (rejected e r)
project_rejected j p e (ok response) h =
    ap pruned (projection_rejected j (response_dict response) p e h)
project_rejected j p e (err failure) h = refl

-- A projection with unknown keys, bad paths or a bad cap is rejected only when the upstream has been
-- called: the call makes all the events of a call without a projection, and then its answer is
-- thrown away for an error.
pub call_managed_tool-rejected :
    (f : BrokerCatalogFacade) (arguments given : Dict Value) (name : String) (p : Fields)
    (e : ProjectionError) (u : UpstreamConfig) (tool : String)
    → as_str (got (lookup "name" arguments)) ≡ some name
    → arguments_of (lookup "arguments" arguments) ≡ some given
    → lookup "projection" arguments ≡ some (dict p)
    → normalize_projection (fields p) ≡ err e
    → resolve_call_route (core_of f) name ≡ ok (u, tool)
    → (let sent : Value = dict (of_fields (inject_cwd_project_arg f name given)) in
        ((call_managed_tool f arguments).0 ≡ expected_events u tool sent)
        × ((call_managed_tool f arguments).1
            ≡ err (rejected e (call_tool (core_of f) name sent f.call_upstream).1)))
unfolding call_managed_tool
call_managed_tool-rejected f arguments given name p e u tool named object projected' bad routed =
    rw (named, object, projected')
      (
        call_tool-events (core_of f) name _ _ f.call_upstream u tool refl routed,
        project_rejected f.json (fields p) e _ bad,
      )
