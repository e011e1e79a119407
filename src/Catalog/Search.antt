-- ===== src/Catalog/Search.antt =====
-- src/mcp_broker/catalog.py: `_search_tools` and `_describe_tool`.
use mcp_broker.Prelude.{
  ℕ, zero, suc, ◌-◌, ◌+◌, String, Bool, ◌&&◌, ◌||◌, Option, none, some, List, [], ◌∷◌, Dict, ◌==◌,
  if◌then◌else◌, length, ltb, nat_eq, text_leb,
}
use mcp_broker.Value.{ℤ, pos, negsuc}
use mcp_broker.Upstream.{UpstreamConfig}
use mcp_broker.Profile.{ToolExposureProfile}
use mcp_broker.Catalog.Entries.{
  Texts, CatalogEntry, Catalog, ToolLister, catalog_entry_score, slim_catalog_entry,
  catalog_upstreams, list_catalog,
}

-- What the catalog is made of.
pub record Source : Type 0 where
  pub texts : Texts
  pub profile : Option ToolExposureProfile
  pub upstreams : Dict UpstreamConfig
  pub separator : String
  pub list_upstream : ToolLister

-- `_catalog_entries`; its callers never give both a query and a name.
unfoldable pub catalog_entries : Source → String → String → Catalog
unfolding catalog_upstreams list_catalog
catalog_entries s query tool_name =
    list_catalog s.texts s.separator s.list_upstream
      (catalog_upstreams s.texts s.profile s.upstreams s.separator query tool_name)

pub record Scored : Type 0 where
  pub score : ℕ
  pub entry : CatalogEntry

-- `(-score, name)` in order
abbrev pub ranks_before : Scored → Scored → Bool
ranks_before a b =
    ltb b.score a.score || (nat_eq a.score b.score && text_leb a.entry.name b.entry.name)

unfoldable pub insert_ranked : Scored → List Scored → List Scored
insert_ranked a [] = a ∷ []
insert_ranked a (b ∷ bs) = if ranks_before a b then a ∷ b ∷ bs else b ∷ insert_ranked a bs

-- `sorted(scored, key=…)`: entries of one rank keep their order.
unfoldable pub sort_ranked : List Scored → List Scored
unfolding insert_ranked
sort_ranked [] = []
sort_ranked (a ∷ as') = insert_ranked a (sort_ranked as')

abbrev pub score_entries : Texts → String → List CatalogEntry → List Scored
score_entries t query [] = []
score_entries t query (e ∷ es) =
    record { score = catalog_entry_score t e query; entry = e } ∷ score_entries t query es

-- `if score > 0`
abbrev pub relevant : List Scored → List Scored
relevant [] = []
relevant (a ∷ as') = if ltb 0 a.score then a ∷ relevant as' else relevant as'

abbrev pub take {ℓ} : {A : Type ℓ} → ℕ → List A → List A
take zero xs = []
take (suc n) [] = []
take (suc n) (x ∷ xs) = x ∷ take n xs

-- `xs[:limit]`
abbrev pub up_to {ℓ} : {A : Type ℓ} → ℤ → List A → List A
up_to (pos n) xs = take n xs
up_to (negsuc n) xs = take (length xs - (n + 1)) xs

pub record Matches : Type 0 where
  pub matches : List CatalogEntry
  pub skipped_upstreams : Dict String

abbrev pub slim_entries : List Scored → List CatalogEntry
slim_entries [] = []
slim_entries (a ∷ as') = slim_catalog_entry a.entry ∷ slim_entries as'

-- `query` is stripped, and `limit` read, where the arguments are taken apart.
unfoldable pub search_tools : Source → String → ℤ → Matches
unfolding catalog_entries sort_ranked
search_tools s query limit =
    let c = catalog_entries s query "" in
    record {
      matches =
          slim_entries
            (up_to limit (relevant (sort_ranked (score_entries s.texts query c.entries))));
      skipped_upstreams = c.skipped;
    }

abbrev pub find_entry : String → List CatalogEntry → Option CatalogEntry
find_entry tool_name [] = none
find_entry tool_name (e ∷ es) = if e.name == tool_name then some e else find_entry tool_name es

-- `none` is the error `broker tool not found`.
unfoldable pub describe_tool : Source → String → Option CatalogEntry
unfolding catalog_entries
describe_tool s tool_name = find_entry tool_name (catalog_entries s "" tool_name).entries
