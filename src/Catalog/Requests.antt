-- ===== src/Catalog/Requests.antt =====
-- src/mcp_broker/catalog.py: `BrokerCatalogFacade.call_tool` and what it hands its calls to.
use mcp_broker.Prelude.{
  String, Bool, true, false, ◌&&◌, Option, none, some, List, [], ◌∷◌, ◌++◌, Dict, ◌==◌,
  if◌then◌else◌, lookup, contains, strip,
}
use mcp_broker.Prelude.Result.{Result, ok, err}
use mcp_broker.Value.{
  Value, ℤ, pos, bool, str, list, dict, nil, cons, end, field, of_fields, of_items, as_int, as_str,
  got,
}
use mcp_broker.Upstream.{UpstreamConfig}
use mcp_broker.Profile.{ToolExposureProfile, canonical_broker_tool_name}
use mcp_broker.Identity.{identity_status_payload, text_or_null}
use mcp_broker.Catalog.Entries.{Texts, CatalogEntry, exposes_upstream, keep_upstreams}
use mcp_broker.Catalog.Search.{Matches, search_tools, describe_tool}
use mcp_broker.Catalog.Projection.{Json, text_block}
use mcp_broker.Catalog.Status.{status_upstreams, broker_status}
use mcp_broker.Catalog.Facade.{
  FacadeError, unknown_broker_tool, bad_limit, describe_name, status_arguments, close_arguments,
  session_metadata, tool_not_found, unhashable_state, BrokerCatalogFacade, FacadeRun, source_of,
  call_managed_tool,
}

abbrev pub structured_tool_result : Json → Value → Value
structured_tool_result j content = dict (
    field "content" (list (cons (text_block (j.dumps content)) nil))
      (field "structuredContent" content end))

abbrev texts : List String → List Value
texts [] = []
texts (s ∷ ss) = str s ∷ texts ss

abbrev schema_field : Option Value → Dict Value
schema_field none = []
schema_field (some schema) = ("inputSchema", schema) ∷ []

abbrev pub entry_value : CatalogEntry → Value
entry_value e = dict (
    of_fields (
      ("name", str e.name)
      ∷ ("upstream", str e.upstream)
      ∷ ("description", str e.description)
      ∷ (schema_field e.input_schema
          ++ ("purpose", str e.purpose)
            ∷ ("tags", list (of_items (texts e.tags)))
            ∷ ("mutating", bool e.mutating)
            ∷ (if e.available then [] else ("available", bool false) ∷ []))))

abbrev entry_values : List CatalogEntry → List Value
entry_values [] = []
entry_values (e ∷ es) = entry_value e ∷ entry_values es

abbrev skipped_values : Dict String → Dict Value
skipped_values [] = []
skipped_values ((name, error) ∷ rest) = (name, str error) ∷ skipped_values rest

abbrev skipped_field : Dict String → Dict Value
skipped_field [] = []
skipped_field (s ∷ ss) = ("skipped_upstreams", dict (of_fields (skipped_values (s ∷ ss)))) ∷ []

abbrev pub matches_value : Matches → Value
matches_value m = dict (
    of_fields
      (("matches", list (of_items (entry_values m.matches))) ∷ skipped_field m.skipped_upstreams))

-- `str(arguments.get("query", "")).strip()`
abbrev query_text : Texts → Option Value → String
query_text t none = ""
query_text t (some (str s)) = s
query_text t (some v) = t.str_of v

abbrev or_int_of : (Value → Option ℤ) → Value → Option ℤ → Option ℤ
or_int_of int_of v none = int_of v
or_int_of int_of v (some z) = some z

-- `int(arguments.get("limit", 20))`
abbrev limit_of : (Value → Option ℤ) → Option Value → Option ℤ
limit_of int_of none = some (pos 20)
limit_of int_of (some v) = or_int_of int_of v (as_int v)

abbrev searched : BrokerCatalogFacade → String → Option ℤ → Result FacadeError Value
searched f query none = err bad_limit
searched f query (some limit) =
    ok (structured_tool_result f.json (matches_value (search_tools (source_of f) query limit)))

unfoldable pub search_request : BrokerCatalogFacade → Dict Value → Result FacadeError Value
search_request f arguments =
    searched f (strip (query_text f.texts (lookup "query" arguments)))
      (limit_of f.int_of (lookup "limit" arguments))

abbrev found : BrokerCatalogFacade → String → Option CatalogEntry → Result FacadeError Value
found f tool_name none = err (tool_not_found tool_name)
found f tool_name (some e) =
    ok (structured_tool_result f.json (dict (field "tool" (entry_value e) end)))

abbrev described : BrokerCatalogFacade → Option String → Result FacadeError Value
described f none = err describe_name
described f (some tool_name) = found f tool_name (describe_tool (source_of f) tool_name)

unfoldable pub describe_request : BrokerCatalogFacade → Dict Value → Result FacadeError Value
describe_request f arguments = described f (as_str (got (lookup "name" arguments)))

abbrev client_control_arguments : List String
client_control_arguments = "wait_for_previous" ∷ []

-- Only arguments that control the client.
abbrev pub only_control : Dict Value → Bool
only_control [] = true
only_control ((name, v) ∷ rest) = contains client_control_arguments name && only_control rest

abbrev profile_name : Option ToolExposureProfile → Option String
profile_name none = none
profile_name (some p) = some p.name

abbrev names : Dict UpstreamConfig → List String
names [] = []
names ((name, u) ∷ rest) = name ∷ names rest

abbrev values_of : Dict (Dict Value) → Dict Value
values_of [] = []
values_of ((name, status) ∷ rest) = (name, dict (of_fields status)) ∷ values_of rest

abbrev status_result :
    BrokerCatalogFacade → Dict (Dict Value) → Option String → Result FacadeError Value
status_result f upstreams none = err unhashable_state
status_result f upstreams (some status) = ok (
    structured_tool_result f.json (
      dict (
        field "identity"
          (dict (identity_status_payload f.identity f.profile_names (profile_name f.profile)))
          (field "profile" (text_or_null (profile_name f.profile)) (
            field "socket_path" (str f.socket_path) (
              field "status" (str status)
                (field "upstreams" (dict (of_fields (values_of upstreams))) end)))))))

abbrev status_of : BrokerCatalogFacade → Option (Dict (Dict Value)) → Result FacadeError Value
status_of f none = err unhashable_state
status_of f (some upstreams) = status_result f upstreams (broker_status upstreams)

unfoldable pub status_request : BrokerCatalogFacade → Dict Value → Result FacadeError Value
status_request f arguments =
    if only_control arguments
    then status_of f (
        status_upstreams f.texts f.profile
          (f.status_provider (names (keep_upstreams (exposes_upstream f.profile) f.upstreams)))
          f.upstreams)
    else err status_arguments

abbrev stopped : Json → Option String → Option (String → Dict Value) → Result FacadeError Value
stopped j (some session_id) (some stop) =
    ok (structured_tool_result j (dict (of_fields (stop session_id))))
stopped j _ _ = err session_metadata

unfoldable pub close_session : BrokerCatalogFacade → Dict Value → Result FacadeError Value
close_session f arguments =
    if only_control arguments
    then stopped f.json f.session_id f.session_stopper
    else err close_arguments

abbrev pub canonical_name : Option ToolExposureProfile → String → String
canonical_name none name = name
canonical_name (some p) name = canonical_broker_tool_name p name

-- `BrokerCatalogFacade.call_tool`
unfoldable pub call_broker_tool : BrokerCatalogFacade → String → Dict Value → FacadeRun
unfolding search_request describe_request status_request close_session
call_broker_tool f name arguments =
    let canonical = canonical_name f.profile name in
    if canonical == "broker.search_tools"
    then ([], search_request f arguments)
    else if canonical == "broker.describe_tool"
    then ([], describe_request f arguments)
    else if canonical == "broker.call_tool"
    then call_managed_tool f arguments
    else if canonical == "broker.status"
    then ([], status_request f arguments)
    else if canonical == "broker.close_session"
    then ([], close_session f arguments)
    else ([], err (unknown_broker_tool name))
