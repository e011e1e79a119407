-- ===== src/Upstream/Defs.antt =====
-- The records of src/mcp_broker/config.py, with the fields that the modelled operations read.
use mcp_broker.Prelude.{
  ℕ, String, Bool, true, false, not, ◌||◌, Option, none, some, List, Dict, is_empty, if◌then◌else◌,
  lookup,
}

pub data Mode : Type 0 where
  shared per_session per_call disabled : Mode

abbrev pub is_disabled : Mode → Bool
is_disabled disabled = true
is_disabled _ = false

abbrev pub is_shared : Mode → Bool
is_shared shared = true
is_shared _ = false

pub record RestartPolicy : Type 0 where
  pub max_attempts : ℕ
  pub backoff_seconds : ℕ

pub record ResourcePolicy : Type 0 where
  pub idle_timeout_seconds : ℕ
  pub cpu_watchdog_percent : ℕ
  pub cpu_watchdog_seconds : ℕ
  pub memory_ceiling_mb : Option ℕ

-- `SmokeProbe`, with the fields that the catalog reads
pub record SmokeProbe : Type 0 where
  pub query : String
  pub tool : String

pub record UpstreamConfig : Type 0 where
  pub name : String
  pub mode : Mode
  pub transport : String
  pub enabled : Bool
  pub state_dir : Option String
  pub tool_prefix : Option String
  pub env : Dict String
  pub env_files : Dict String
  pub session_env : Dict String
  pub request_meta : Dict String
  pub forward_request_meta : List String
  pub relay_elicitation : Bool
  pub purpose : String
  pub tags : List String
  pub profiles : List String
  pub mutating : Bool
  pub serialize_calls : Bool
  pub inject_cwd_project : Bool
  pub inject_cwd_project_exclude : List String
  pub restart : RestartPolicy
  pub call_timeout_seconds : ℕ
  pub tool_timeouts : Dict ℕ
  pub resources : ResourcePolicy
  pub smoke : Option SmokeProbe

-- `not upstream.enabled or upstream.mode == "disabled"`
unfoldable pub is_off : UpstreamConfig → Bool
is_off u = not u.enabled || is_disabled u.mode

abbrev or_name : Option String → String → String
or_name none name = name
or_name (some p) name = if is_empty p then name else p

-- `upstream.tool_prefix or upstream.name`
unfoldable pub prefix_of : UpstreamConfig → String
prefix_of u = or_name u.tool_prefix u.name

abbrev default_to : ℕ → Option ℕ → ℕ
default_to d none = d
default_to d (some n) = n

unfoldable pub call_timeout_for_tool : UpstreamConfig → String → ℕ
call_timeout_for_tool u tool = default_to u.call_timeout_seconds (lookup tool u.tool_timeouts)

pub record BrokerSettings : Type 0 where
  pub tool_namespace_separator : String
