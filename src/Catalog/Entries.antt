-- ===== src/Catalog/Entries.antt =====
-- src/mcp_broker/catalog.py: the entries of the catalog and the upstreams that it asks. `Texts`
-- stands for `str.lower` and for `str` of a value that is no text.
use mcp_broker.Prelude.{
  ℕ, ◌+◌, String, ◌++ₛ◌, Bool, true, false, not, ◌&&◌, ◌||◌, Option, none, some, List, [], ◌∷◌,
  ◌++◌, Dict, is_empty, if◌then◌else◌, lookup, is_in, starts_with, split_words, ltb,
}
use mcp_broker.Value.{Value, str, dict, end, field}
use mcp_broker.Upstream.{UpstreamConfig, SmokeProbe, is_off, prefix_of}
use mcp_broker.Profile.{ToolExposureProfile, allows_mutating_upstream}
use mcp_broker.Namespace.{Tool, tool_name, in_profile}

pub record Texts : Type 0 where
  pub lower : String → String
  pub str_of : Value → String

-- The dictionary of an entry; `available` is a key, with the value `False`, and `inputSchema` is
-- none, only where the upstream could not be asked.
pub record CatalogEntry : Type 0 where
  pub name : String
  pub upstream : String
  pub description : String
  pub input_schema : Option Value
  pub purpose : String
  pub tags : List String
  pub mutating : Bool
  pub available : Bool

-- `str(tool.get("description", ""))`
abbrev text_of : Texts → Option Value → String
text_of t none = ""
text_of t (some (str s)) = s
text_of t (some v) = t.str_of v

abbrev or_object : Option Value → Value
or_object none = dict (field "type" (str "object") end)
or_object (some v) = v

abbrev pub entry_of : Texts → UpstreamConfig → String → Tool → CatalogEntry
entry_of t u separator tool = record {
  name = prefix_of u ++ₛ (separator ++ₛ tool_name tool);
  upstream = u.name;
  description = text_of t (lookup "description" tool.others);
  input_schema = some (or_object (lookup "inputSchema" tool.others));
  purpose = u.purpose;
  tags = u.tags;
  mutating = u.mutating;
  available = true;
}

unfoldable pub catalog_entries_for_upstream :
    Texts → UpstreamConfig → List Tool → String → List CatalogEntry
catalog_entries_for_upstream t u [] separator = []
catalog_entries_for_upstream t u (tool ∷ tools) separator =
    let rest = catalog_entries_for_upstream t u tools separator in
    if is_empty (tool_name tool) then rest else entry_of t u separator tool ∷ rest

abbrev pub slim_catalog_entry : CatalogEntry → CatalogEntry
slim_catalog_entry e = record e { input_schema = none }

abbrev pub catalog_unavailable_entry_for_upstream : UpstreamConfig → String → CatalogEntry
catalog_unavailable_entry_for_upstream u error = record {
  name = u.name;
  upstream = u.name;
  description = "upstream unavailable: " ++ₛ error;
  input_schema = none;
  purpose = u.purpose;
  tags = u.tags;
  mutating = u.mutating;
  available = false;
}

-- `any(token in field for field in fields)`, with the fields in lower case
abbrev in_any : Texts → String → List String → Bool
in_any t token [] = false
in_any t token (f ∷ fs) = is_in token (t.lower f) || in_any t token fs

abbrev token_score : Texts → CatalogEntry → String → ℕ
token_score t e token =
    if in_any t token (e.name ∷ e.upstream ∷ e.tags)
    then 3
    else if is_in token (t.lower e.purpose)
    then 2
    else if is_in token (t.lower e.description)
    then 1
    else 0

abbrev sum_scores : Texts → CatalogEntry → List String → ℕ
sum_scores t e [] = 0
sum_scores t e (token ∷ tokens) = token_score t e token + sum_scores t e tokens

abbrev score_tokens : Texts → CatalogEntry → List String → ℕ
score_tokens t e [] = 3
score_tokens t e (token ∷ tokens) = sum_scores t e (token ∷ tokens)

unfoldable pub catalog_entry_score : Texts → CatalogEntry → String → ℕ
catalog_entry_score t e query = score_tokens t e (split_words (t.lower query))

unfoldable pub catalog_entry_matches : Texts → CatalogEntry → String → Bool
unfolding catalog_entry_score
catalog_entry_matches t e query = ltb 0 (catalog_entry_score t e query)

abbrev smoke_query : Option SmokeProbe → String
smoke_query none = ""
smoke_query (some s) = s.query

abbrev smoke_tool : Option SmokeProbe → String
smoke_tool none = ""
smoke_tool (some s) = s.tool

-- The entry that stands for an upstream; its `upstream` is missing, which scores as "".
unfoldable pub upstream_metadata_matches : Texts → UpstreamConfig → String → Bool
unfolding catalog_entry_matches
upstream_metadata_matches t u query =
    catalog_entry_matches t
      (record {
        name = u.name ++ₛ (" " ++ₛ (prefix_of u ++ₛ (" " ++ₛ smoke_tool u.smoke)));
        upstream = "";
        description = smoke_query u.smoke;
        input_schema = none;
        purpose = u.purpose;
        tags = u.tags;
        mutating = u.mutating;
        available = true;
      })
      query

unfoldable pub upstream_owns_tool_name : UpstreamConfig → String → String → Bool
upstream_owns_tool_name u tool_name separator = starts_with tool_name (prefix_of u ++ₛ separator)

abbrev has_two_words : List String → Bool
has_two_words [] = false
has_two_words (_ ∷ []) = false
has_two_words (_ ∷ _ ∷ _) = true

unfoldable pub specific_query_can_select_upstream : String → Bool
specific_query_can_select_upstream query = has_two_words (split_words query)

abbrev pub may_use : Option ToolExposureProfile → String → UpstreamConfig → Bool
may_use none upstream_name u = true
may_use (some p) upstream_name u = not u.mutating || allows_mutating_upstream p upstream_name

-- `_status_exposes_upstream`
unfoldable pub exposes_upstream : Option ToolExposureProfile → String → UpstreamConfig → Bool
exposes_upstream profile upstream_name u =
    not (is_off u) && in_profile profile u && may_use profile upstream_name u

abbrev pub lacks_entry : Option ToolExposureProfile → String → Bool
lacks_entry none upstream_name = false
lacks_entry (some p) upstream_name = not (allows_mutating_upstream p upstream_name)

-- The guards of the loop of `_catalog_upstreams`, each of which goes on to the next upstream.
unfoldable pub asks_upstream : Option ToolExposureProfile → String → UpstreamConfig → Bool
asks_upstream profile upstream_name u =
    if is_off u
    then false
    else if not (in_profile profile u)
    then false
    else if u.mutating && lacks_entry profile upstream_name
    then false
    else true

abbrev pub keep_upstreams :
    (String → UpstreamConfig → Bool) → Dict UpstreamConfig → Dict UpstreamConfig
keep_upstreams test [] = []
keep_upstreams test ((name, u) ∷ rest) =
    if test name u then (name, u) ∷ keep_upstreams test rest else keep_upstreams test rest

abbrev pub or_all : Dict UpstreamConfig → Dict UpstreamConfig → Dict UpstreamConfig
or_all [] every = every
or_all (u ∷ us) every = u ∷ us

abbrev pub by_query : Texts → String → Dict UpstreamConfig → Dict UpstreamConfig
by_query t query upstreams =
    if specific_query_can_select_upstream query
    then or_all (keep_upstreams (λ name u. upstream_metadata_matches t u query) upstreams) upstreams
    else upstreams

abbrev pub or_by_query :
    Texts → String → Dict UpstreamConfig → Dict UpstreamConfig → Dict UpstreamConfig
or_by_query t query upstreams [] = by_query t query upstreams
or_by_query t query upstreams (u ∷ us) = u ∷ us

unfoldable pub catalog_upstreams :
    Texts
    → Option ToolExposureProfile
    → Dict UpstreamConfig
    → String
    → String
    → String
    → Dict UpstreamConfig
unfolding asks_upstream
catalog_upstreams t profile every separator query tool_name =
    let upstreams = keep_upstreams (asks_upstream profile) every in
    let owners =
      keep_upstreams (λ name u. upstream_owns_tool_name u tool_name separator) upstreams in
    or_by_query t query upstreams (if is_empty tool_name then [] else owners)

-- What an upstream's listing gives, or the text of its exception.
pub data Listed : Type 0 where
  tools : List Tool → Listed
  unavailable : String → Listed

abbrev pub ToolLister : Type 0
ToolLister = String → ℕ → Listed

pub record Catalog : Type 0 where
  pub entries : List CatalogEntry
  pub skipped : Dict String

abbrev pub add_listing : Texts → String → String → UpstreamConfig → Listed → Catalog → Catalog
add_listing t separator upstream_name u (tools ts) rest = record rest {
  entries = catalog_entries_for_upstream t u ts separator ++ rest.entries;
}
add_listing t separator upstream_name u (unavailable error) rest = record {
  entries = catalog_unavailable_entry_for_upstream u error ∷ rest.entries;
  skipped = (upstream_name, error) ∷ rest.skipped;
}

-- The loop of `_catalog_entries`.
unfoldable pub list_catalog : Texts → String → ToolLister → Dict UpstreamConfig → Catalog
list_catalog t separator list_upstream [] = record { entries = []; skipped = [] }
list_catalog t separator list_upstream ((name, u) ∷ rest) =
    add_listing t separator name u (list_upstream name u.call_timeout_seconds)
      (list_catalog t separator list_upstream rest)
