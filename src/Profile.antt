-- ===== src/Profile.antt =====
-- src/mcp_broker/profiles.py: what a client profile exposes.
pub mod Selection
pub mod Routing
use mcp_broker.Prelude.{
  ℕ, String, Bool, Option, List, [], ◌∷◌, contains, ◌==◌, if◌then◌else◌, replace_char,
}

-- `broker_tool_name_style`, which the constructor checks to be one of the two
pub data NameStyle : Type 0 where
  dotted snake : NameStyle

pub record ClientRootMatch : Type 0 where
  -- the resolved path's names, the deepest first
  pub parent : List String
  pub name_prefix : String

pub record ToolExposureProfile : Type 0 where
  pub name : String
  pub max_tools : ℕ
  pub compact_tools_enabled : Bool
  pub broker_tool_name_style : NameStyle
  pub allow_mutating_upstreams : List String
  pub client_root_match : Option ClientRootMatch
  pub result_size_chars : Option ℕ
  pub result_budget_chars : Option ℕ

unfoldable pub allows_mutating_upstream : ToolExposureProfile → String → Bool
allows_mutating_upstream p upstream_name = contains p.allow_mutating_upstreams upstream_name

abbrev pub broker_tool_names : List String
broker_tool_names =
    "broker.search_tools" ∷ "broker.describe_tool" ∷ "broker.call_tool" ∷ "broker.status"
    ∷ "broker.close_session" ∷ []

abbrev dot : ℕ
dot = b'.'

abbrev pub styled : NameStyle → String → String
styled dotted canonical_name = canonical_name
styled snake canonical_name = replace_char dot "_" canonical_name

unfoldable pub exposed_broker_tool_name : ToolExposureProfile → String → String
exposed_broker_tool_name p canonical_name = styled p.broker_tool_name_style canonical_name

abbrev alias_of : List String → String → String
alias_of [] name = name
alias_of (canonical ∷ rest) name =
    if replace_char dot "_" canonical == name then canonical else alias_of rest name

abbrev by_style : NameStyle → String → String
by_style dotted name = name
by_style snake name = alias_of broker_tool_names name

unfoldable pub canonical_broker_tool_name : ToolExposureProfile → String → String
unfolding replace_char
canonical_broker_tool_name p name =
    if contains broker_tool_names name then name else by_style p.broker_tool_name_style name
