-- ===== src/Tests/Catalogs.antt =====
-- The catalog of the sample configuration, and calls through the facade.
use mcp_broker.Prelude.{
  String, split_words, ◌≡◌, refl, map, true, Option, none, some, [], ◌∷◌, All, Dict, split_once,
  split_char, starts_with, strip_prefix,
}
use mcp_broker.Prelude.Result.{err}
use mcp_broker.Value.{Value, pos, str, list, dict, nil, cons, end, field}
use mcp_broker.Upstream.{UpstreamConfig, is_off, prefix_of}
use mcp_broker.Namespace.{tool_name, advertise_tools}
use mcp_broker.Identity.{default_identity}
use mcp_broker.Slug.{absent, derive_project_slug, inject_cwd_project}
use mcp_broker.Slug.Given.{IsInjected}
use mcp_broker.Core.{answered, resolve_call_route, allowed_call_route, find_prefix, call_tool}
use mcp_broker.Core.Calls.{expected_events}
use mcp_broker.Catalog.{
  Texts, Json, BrokerCatalogFacade, CatalogEntry, tools, source_of, core_of, search_tools,
  describe_tool, entry_of, catalog_entries, list_catalog, catalog_entries_for_upstream,
  catalog_upstreams, exposes_upstream, asks_upstream, specific_query_can_select_upstream,
  upstream_owns_tool_name, project_value, unknown_keys, normalize_projection, call_managed_tool,
  inject_cwd_project_arg, status_upstreams, upstream_status, auth_state,
}
use mcp_broker.Catalog.Ranking.{IsSearched, search_tools_sound}
use mcp_broker.Catalog.Pruning.{Prunes}
use mcp_broker.Catalog.Capping.{IsCapped}
use mcp_broker.Catalog.Paths.{project_value_sound}
use mcp_broker.Catalog.Reach.{IsReachable, IsOpen, describe_tool-IsOpen}
use mcp_broker.Catalog.Found.{IsCalled, search_tools-IsCalled}
use mcp_broker.Catalog.Names.{catalog_entries-advertise_tools}
use mcp_broker.Catalog.Projected.{rejected, call_managed_tool-rejected}
use mcp_broker.Catalog.Health.{names, exposed_names, status_upstreams_sound}
use mcp_broker.Catalog.Injected.{inject_cwd_project_arg-IsInjected}
use mcp_broker.Upstream.Environment.{SecretFile, unreadable}
use mcp_broker.Metadata.{params_of}
use mcp_broker.Tests.Samples.{
  no_arguments, github, dev, settings, one_upstream, two_upstreams, router, clone, advertised_clone,
  response, tool_named,
}

abbrev plain : Texts
plain = record { lower = λ s. s; str_of = λ v. "" }

abbrev no_json : Json
no_json = record { dumps = λ v. ""; loads = λ s. none }

abbrev facade : BrokerCatalogFacade
facade = record {
  settings = settings;
  upstreams = one_upstream;
  profile = some dev;
  texts = plain;
  json = no_json;
  int_of = λ v. none;
  list_upstream = λ name timeout. tools clone;
  call_upstream = λ name tool arguments timeout. answered response;
  identity = default_identity;
  profile_names = "dev" ∷ [];
  socket_path = "/run/broker.sock";
  status_provider = λ names. [];
  client_cwd = some "/home/ann/shop";
  session_id = none;
  session_stopper = none;
  look = λ p. absent;
}

abbrev clone_entry : CatalogEntry
clone_entry = entry_of plain github "__" (tool_named "clone")

reachable : All (IsReachable facade) one_upstream
unfolding find_prefix prefix_of split_once
reachable = (record { own_name = refl; first = λ _. refl; splits = refl }, tt)

described : describe_tool (source_of facade) "gh__clone" ≡ some clone_entry
unfolding describe_tool catalog_entries list_catalog catalog_entries_for_upstream catalog_upstreams
    asks_upstream upstream_owns_tool_name prefix_of is_off starts_with strip_prefix
described = refl

describe_tool-IsOpen_example : IsOpen facade clone_entry × (clone_entry.name ≡ "gh__clone")
unfolding prefix_of
describe_tool-IsOpen_example =
    describe_tool-IsOpen facade "gh__clone" clone_entry reachable described refl

search_tools-IsCalled_example :
    All
      (λ e. e.available ≡ true → IsCalled facade e)
      (search_tools (source_of facade) "clone" (pos 5)).matches
search_tools-IsCalled_example = search_tools-IsCalled facade "clone" (pos 5) reachable

search_tools_sound_example :
    IsSearched
      (source_of facade)
      "clone"
      (pos 5)
      (search_tools (source_of facade) "clone" (pos 5)).matches
search_tools_sound_example = search_tools_sound (source_of facade) "clone" (pos 5)

abbrev document : Value
document =
    dict (field "items" (list (cons (dict (field "id" (str "a") end)) (cons (str "b") nil))) end)

project_value_sound_example :
    Prunes document (project_value document ("items.id" ∷ []) (some 1))
    × IsCapped (some 1) (project_value document ("items.id" ∷ []) (some 1))
project_value_sound_example = project_value_sound document ("items.id" ∷ []) (some 1)

catalog_entries-advertise_tools_example :
    (exposes_upstream (some dev) "github" github ≡ true)
    × (asks_upstream (some dev) "github" github ≡ true)
    × (map (λ (e : CatalogEntry). e.name) (catalog_entries_for_upstream plain github clone "__")
        ≡ map tool_name advertised_clone)
unfolding advertise_tools is_off prefix_of
catalog_entries-advertise_tools_example =
    catalog_entries-advertise_tools plain router github clone advertised_clone refl refl

abbrev unfit : Dict Value
unfit = ("name", str "gh__clone") ∷ ("projection", dict (field "depth" (str "1") end)) ∷ []

call_managed_tool-rejected_example :
    (let sent : Value = dict end in
      ((call_managed_tool facade unfit).0 ≡ expected_events github "clone" sent)
      × ((call_managed_tool facade unfit).1
          ≡ err (
              rejected unknown_keys
                (call_tool (core_of facade) "gh__clone" sent facade.call_upstream).1)))
unfolding normalize_projection resolve_call_route allowed_call_route find_prefix prefix_of is_off
    split_once inject_cwd_project_arg
call_managed_tool-rejected_example =
    call_managed_tool-rejected facade unfit [] "gh__clone" (field "depth" (str "1") end)
      unknown_keys github "clone" refl refl refl refl refl

abbrev keeping : BrokerCatalogFacade
keeping = record facade { upstreams = ("github", record github { inject_cwd_project = true }) ∷ [] }

inject_cwd_project_arg-IsInjected_example :
    IsInjected keeping.look
      (some "/home/ann/shop")
      []
      (inject_cwd_project_arg keeping "gh__clone" [])
inject_cwd_project_arg-IsInjected_example = inject_cwd_project_arg-IsInjected keeping "gh__clone" []

-- The directory is no repository, so its own path is the slug.
injected : inject_cwd_project_arg keeping "gh__clone" [] ≡ ("project", str "home-ann-shop") ∷ []
unfolding inject_cwd_project_arg inject_cwd_project strip_prefix prefix_of derive_project_slug
    starts_with split_char
injected = refl

abbrev or_nothing : Option (Dict (Dict Value)) → Dict (Dict Value)
or_nothing none = []
or_nothing (some statuses) = statuses

abbrev reported : Dict (Dict Value)
reported = or_nothing (status_upstreams plain (some dev) [] two_upstreams)

status_upstreams_sound_example :
    (names reported ≡ "old" ∷ "github" ∷ []) × (exposed_names reported ≡ "github" ∷ [])
unfolding status_upstreams upstream_status auth_state exposes_upstream is_off catalog_upstreams
    asks_upstream specific_query_can_select_upstream split_words
status_upstreams_sound_example =
    status_upstreams_sound plain (some dev) [] reported two_upstreams "." refl

-- The caller's trace is forwarded; its credential is replaced by the configured one.
abbrev sent_along : Dict Value
sent_along = ("trace", str "7") ∷ ("token", str "mine") ∷ []

abbrev tokened : UpstreamConfig
tokened = record github {
  env = ("TOKEN", "HOST_TOKEN") ∷ [];
  request_meta = ("token", "TOKEN") ∷ [];
  forward_request_meta = "trace" ∷ "token" ∷ [];
}

abbrev variables : Dict String
variables = ("HOST_TOKEN", "s3") ∷ []

abbrev no_files : String → SecretFile
no_files path = unreadable

abbrev made_params : Dict Value
made_params = params_of "clone" no_arguments (("trace", str "7") ∷ ("token", str "s3") ∷ [])
