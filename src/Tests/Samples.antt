-- ===== src/Tests/Samples.antt =====
-- A small configuration: two upstreams, a profile, and a router's settings.
use mcp_broker.Prelude.{String, Bool, true, false, none, some, List, [], ◌∷◌, Dict}
use mcp_broker.Value.{Value, list, dict, nil, end, field}
use mcp_broker.Upstream.{
  UpstreamConfig, BrokerSettings, Mode, shared, disabled, RestartPolicy, ResourcePolicy,
}
use mcp_broker.Profile.{ToolExposureProfile, dotted}
use mcp_broker.Namespace.{Tool, Router}
use mcp_broker.Core.{BrokerCore}

abbrev pub patient : RestartPolicy
patient = record { max_attempts = 2; backoff_seconds = 30 }

abbrev pub limits : ResourcePolicy
limits = record {
  idle_timeout_seconds = 60;
  cpu_watchdog_percent = 90;
  cpu_watchdog_seconds = 20;
  memory_ceiling_mb = some 512;
}

abbrev pub upstream_named : String → Mode → Bool → UpstreamConfig
upstream_named name mode serialised = record {
  name = name;
  mode = mode;
  transport = "stdio";
  enabled = true;
  state_dir = none;
  tool_prefix = some "gh";
  env = [];
  env_files = [];
  session_env = [];
  request_meta = [];
  forward_request_meta = [];
  relay_elicitation = false;
  purpose = "git hosting";
  tags = [];
  profiles = "dev" ∷ [];
  mutating = false;
  serialize_calls = serialised;
  inject_cwd_project = false;
  inject_cwd_project_exclude = [];
  restart = patient;
  call_timeout_seconds = 30;
  tool_timeouts = ("clone", 120) ∷ [];
  resources = limits;
  smoke = none;
}

abbrev pub github : UpstreamConfig
github = upstream_named "github" shared true

abbrev pub old_github : UpstreamConfig
old_github = upstream_named "old" disabled false

abbrev pub dev : ToolExposureProfile
dev = record {
  name = "dev";
  max_tools = 1;
  compact_tools_enabled = true;
  broker_tool_name_style = dotted;
  allow_mutating_upstreams = [];
  client_root_match = none;
  result_size_chars = none;
  result_budget_chars = none;
}

abbrev pub settings : BrokerSettings
settings = record { tool_namespace_separator = "__" }

abbrev pub one_upstream : Dict UpstreamConfig
one_upstream = ("github", github) ∷ []

abbrev pub two_upstreams : Dict UpstreamConfig
two_upstreams = ("old", old_github) ∷ ("github", github) ∷ []

abbrev pub core : BrokerCore
core = record { settings = settings; upstreams = one_upstream; profile = some dev }

abbrev pub shadowed_core : BrokerCore
shadowed_core = record { settings = settings; upstreams = two_upstreams; profile = some dev }

abbrev pub router : Router
router = record {
  separator = "__";
  profile = some dev;
  upstreams = one_upstream;
  prefix_to_upstream = ("gh", "github") ∷ [];
}

abbrev pub shadowed_router : Router
shadowed_router = record {
  separator = "__";
  profile = some dev;
  upstreams = two_upstreams;
  prefix_to_upstream = ("gh", "github") ∷ [];
}

abbrev pub tool_named : String → Tool
tool_named n = record { name = some n; others = [] }

abbrev pub clone : List Tool
clone = tool_named "clone" ∷ []

abbrev pub advertised_clone : List Tool
advertised_clone = tool_named "gh__clone" ∷ []

abbrev pub no_arguments : Value
no_arguments = dict end

abbrev pub response : Value
response = dict (field "content" (list nil) end)
