-- ===== src/Catalog/Facade.antt =====
-- src/mcp_broker/catalog.py: what a `BrokerCatalogFacade` holds, and `_call_managed_tool`.
use mcp_broker.Prelude.{
  String, Option, none, some, List, [], ◌∷◌, Dict, is_empty, if◌then◌else◌, lookup,
}
use mcp_broker.Prelude.Result.{Result, ok, err}
use mcp_broker.Value.{Value, ℤ, null, dict, fields, of_fields, as_dict, as_str, got}
use mcp_broker.Upstream.{UpstreamConfig, BrokerSettings, prefix_of}
use mcp_broker.Profile.{ToolExposureProfile}
use mcp_broker.Core.{BrokerCore, CallError, Event, ToolCaller, call_tool}
use mcp_broker.Slug.{Look, inject_cwd_project}
use mcp_broker.Identity.{BrokerIdentityConfig}
use mcp_broker.Catalog.Entries.{Texts, ToolLister}
use mcp_broker.Catalog.Search.{Source}
use mcp_broker.Catalog.Projection.{Json, ProjectionError, apply_projection}

-- The `ValueError`s of the facade by what they say, an error of the call or of the projection, and
-- the error of `int` on a limit that is no number. `unhashable_state` is the `TypeError` of a state
-- that has no hash.
pub data FacadeError : Type 0 where
  unknown_broker_tool : String → FacadeError
  bad_limit describe_name call_arguments projection_object : FacadeError
  status_arguments close_arguments session_metadata : FacadeError
  tool_not_found : String → FacadeError
  call_failed : CallError → FacadeError
  bad_projection : ProjectionError → FacadeError
  unhashable_state : FacadeError

-- `int_of` is `int` of a value that is no integer, `none` its error; `profile_names` are the names
-- of the configured profiles. A status provider that is left out gives nothing.
pub record BrokerCatalogFacade : Type 0 where
  pub settings : BrokerSettings
  pub upstreams : Dict UpstreamConfig
  pub profile : Option ToolExposureProfile
  pub texts : Texts
  pub json : Json
  pub int_of : Value → Option ℤ
  pub list_upstream : ToolLister
  pub call_upstream : ToolCaller
  pub identity : BrokerIdentityConfig
  pub profile_names : List String
  pub socket_path : String
  pub status_provider : List String → Dict (Dict Value)
  pub client_cwd : Option String
  pub session_id : Option String
  pub session_stopper : Option (String → Dict Value)
  pub look : List String → Look

abbrev pub source_of : BrokerCatalogFacade → Source
source_of f = record {
  texts = f.texts;
  profile = f.profile;
  upstreams = f.upstreams;
  separator = f.settings.tool_namespace_separator;
  list_upstream = f.list_upstream;
}

abbrev pub core_of : BrokerCatalogFacade → BrokerCore
core_of f = record { settings = f.settings; upstreams = f.upstreams; profile = f.profile }

abbrev pub or_dot : String → String
or_dot separator = if is_empty separator then "." else separator

-- The loop of `_inject_cwd_project_arg`.
unfoldable pub inject_for :
    BrokerCatalogFacade → String → Option String → Dict UpstreamConfig → Dict Value → Dict Value
inject_for f name cwd [] arguments = arguments
inject_for f name cwd ((key, u) ∷ rest) arguments = inject_for f name cwd rest (
    if u.inject_cwd_project
    then inject_cwd_project f.look name arguments cwd (prefix_of u)
        (or_dot f.settings.tool_namespace_separator) u.inject_cwd_project_exclude
    else arguments)

abbrev pub inject_given : BrokerCatalogFacade → String → Option String → Dict Value → Dict Value
inject_given f name none arguments = arguments
inject_given f name (some cwd) arguments =
    if is_empty cwd then arguments else inject_for f name (some cwd) f.upstreams arguments

unfoldable pub inject_cwd_project_arg : BrokerCatalogFacade → String → Dict Value → Dict Value
unfolding inject_for
inject_cwd_project_arg f name arguments = inject_given f name f.client_cwd arguments

-- The events of a call of the facade, and its result.
abbrev pub FacadeRun : Type 0
FacadeRun = List Event × Result FacadeError Value

abbrev pub pruned : Result ProjectionError (Dict Value) → Result FacadeError Value
pruned (ok response) = ok (dict (of_fields response))
pruned (err e) = err (bad_projection e)

-- A response that `BrokerCore` returns is a mapping.
abbrev pub response_dict : Value → Dict Value
response_dict (dict fs) = fields fs
response_dict _ = []

abbrev pub project_response :
    Json → Option (Dict Value) → Result CallError Value → Result FacadeError Value
project_response j projection (err e) = err (call_failed e)
project_response j none (ok response) = ok response
project_response j (some p) (ok response) = pruned (apply_projection j (response_dict response) p)

abbrev pub run_managed : BrokerCatalogFacade → String → Dict Value → Option (Dict Value) → FacadeRun
run_managed f name arguments projection =
    let (events, response) =
      call_tool (core_of f) name (dict (of_fields (inject_cwd_project_arg f name arguments)))
        f.call_upstream in
    (events, project_response f.json projection response)

abbrev managed :
    BrokerCatalogFacade
    → Option String
    → Option (Dict Value)
    → Option (Option (Dict Value))
    → FacadeRun
managed f (some name) (some arguments) (some projection) = run_managed f name arguments projection
managed f (some name) (some arguments) none = ([], err projection_object)
managed f _ _ _ = ([], err call_arguments)

-- The projection is left out, `None`, or a mapping; all else is an error.
abbrev projection_of : Option Value → Option (Option (Dict Value))
projection_of none = some none
projection_of (some null) = some none
projection_of (some (dict fs)) = some (some (fields fs))
projection_of (some _) = none

abbrev pub arguments_of : Option Value → Option (Dict Value)
arguments_of none = some []
arguments_of (some v) = as_dict v

unfoldable pub call_managed_tool : BrokerCatalogFacade → Dict Value → FacadeRun
unfolding inject_cwd_project_arg
call_managed_tool f arguments =
    managed f (as_str (got (lookup "name" arguments))) (arguments_of (lookup "arguments" arguments))
      (projection_of (lookup "projection" arguments))
