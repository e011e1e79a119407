-- ===== src/Catalog/Shown.antt =====
-- Which upstreams the entries of the catalog come from.
use mcp_broker.Prelude.{
  String, ◌≡◌, refl, true, false, Bool, if◌then◌else◌, List, [], ◌∷◌, ◌++◌, Dict, All, Bool-cases,
  inl, inr, is_empty, if-cases, Option,
}
use mcp_broker.Upstream.{UpstreamConfig}
use mcp_broker.Profile.{ToolExposureProfile}
use mcp_broker.Catalog.Asked.{asks-exposes_upstream}
use mcp_broker.Namespace.{Tool, tool_name}
use mcp_broker.Catalog.Entries.{
  Texts, CatalogEntry, Catalog, ToolLister, Listed, tools, unavailable, entry_of,
  catalog_entries_for_upstream, add_listing, list_catalog, catalog_upstreams, keep_upstreams,
  exposes_upstream, asks_upstream, specific_query_can_select_upstream, or_all, by_query,
  or_by_query,
}
use mcp_broker.Catalog.Search.{Source}

-- An entry of a tool that a listed upstream has, the upstream as `Q` says.
pub record IsEntry (t : Texts) (separator : String) (Q : String × UpstreamConfig → Type 0)
    (e : CatalogEntry) : Type 0 where
  pub key : String
  pub owner : UpstreamConfig
  pub tool : Tool
  pub holds : Q (key, owner)
  pub named : is_empty (tool_name tool) ≡ false
  pub same : e ≡ entry_of t owner separator tool

module _ (t : Texts) (separator : String) (Q : String × UpstreamConfig → Type 0) where
  abbrev IsShown : CatalogEntry → Type 0
  IsShown e = e.available ≡ true → IsEntry t separator Q e

  All-append :
      (P : CatalogEntry → Type 0) (xs ys : List CatalogEntry)
      → All P xs
      → All P ys
      → All P (xs ++ ys)
  All-append P [] ys h k = k
  All-append P (x ∷ xs) ys (p, h) k = (p, All-append P xs ys h k)

  entries-IsShown :
      (key : String) (u : UpstreamConfig) (ts : List Tool)
      → Q (key, u)
      → All IsShown (catalog_entries_for_upstream t u ts separator)
  unfolding catalog_entries_for_upstream
  entries-IsShown key u [] q = tt
  entries-IsShown key u (tool ∷ ts) q = elim (Bool-cases (is_empty (tool_name tool))) [
    | inl unnamed ↦ rw unnamed (entries-IsShown key u ts q)
    | inr named ↦ rw named (
      λ _. record { key = key; owner = u; tool = tool; holds = q; named = named; same = refl },
      entries-IsShown key u ts q,
    )
  ]

  add_listing-IsShown :
      (key : String) (u : UpstreamConfig) (l : Listed) (c : Catalog)
      → Q (key, u)
      → All IsShown c.entries
      → All IsShown (add_listing t separator key u l c).entries
  add_listing-IsShown key u (tools ts) c q h =
      All-append IsShown _ c.entries (entries-IsShown key u ts q) h
  add_listing-IsShown key u (unavailable error) c q h = (λ k. absurd (cc), h)

  pub list_catalog-IsShown :
      (lister : ToolLister) (d : Dict UpstreamConfig)
      → All Q d
      → All IsShown (list_catalog t separator lister d).entries
  unfolding list_catalog
  list_catalog-IsShown lister [] h = tt
  list_catalog-IsShown lister ((key, u) ∷ rest) (q, h) =
      add_listing-IsShown key u _ _ q (list_catalog-IsShown lister rest h)

pub All-map :
    (P R : CatalogEntry → Type 0) (es : List CatalogEntry)
    → ((e : CatalogEntry) → P e → R e)
    → All P es
    → All R es
All-map P R [] f h = tt
All-map P R (e ∷ es) f (p, h) = (f e p, All-map P R es f h)

-- What is kept of a dictionary passes the test.
keep_upstreams-All :
    (Q : String × UpstreamConfig → Type 0) (test : String → UpstreamConfig → Bool)
    (d : Dict UpstreamConfig)
    → All Q d
    → All (λ p. Q p × (test p.0 p.1 ≡ true)) (keep_upstreams test d)
keep_upstreams-All Q test [] h = tt
keep_upstreams-All Q test ((key, u) ∷ rest) (q, h) = elim (Bool-cases (test key u)) [
  | inl kept ↦ rw kept ((q, kept), keep_upstreams-All Q test rest h)
  | inr left ↦ rw left (keep_upstreams-All Q test rest h)
]

keep-All :
    (R : String × UpstreamConfig → Type 0) (test : String → UpstreamConfig → Bool)
    (d : Dict UpstreamConfig)
    → All R d
    → All R (keep_upstreams test d)
keep-All R test [] h = tt
keep-All R test ((key, u) ∷ rest) (r, h) =
    if-cases (All R) (test key u) (λ _. (r, keep-All R test rest h)) (λ _. keep-All R test rest h)

or_all-All :
    (R : String × UpstreamConfig → Type 0) (d every : Dict UpstreamConfig)
    → All R d
    → All R every
    → All R (or_all d every)
or_all-All R [] every h k = k
or_all-All R (p ∷ d) every h k = h

by_query-All :
    (R : String × UpstreamConfig → Type 0) (t : Texts) (query : String) (d : Dict UpstreamConfig)
    → All R d
    → All R (by_query t query d)
by_query-All R t query d h =
    if-cases (All R) (specific_query_can_select_upstream query)
      (λ _. or_all-All R _ d (keep-All R _ d h) h) (λ _. h)

or_by_query-All :
    (R : String × UpstreamConfig → Type 0) (t : Texts) (query : String)
    (d owners : Dict UpstreamConfig)
    → All R d
    → All R owners
    → All R (or_by_query t query d owners)
or_by_query-All R t query d [] h k = by_query-All R t query d h
or_by_query-All R t query d (p ∷ owners) h k = k

owners-All :
    (R : String × UpstreamConfig → Type 0) (tool_name : String)
    (test : String → UpstreamConfig → Bool) (d : Dict UpstreamConfig)
    → All R d
    → All R (if is_empty tool_name then [] else keep_upstreams test d)
owners-All R tool_name test d h =
    if-cases (All R) (is_empty tool_name) (λ _. tt) (λ _. keep-All R test d h)

exposed-All :
    (Q : String × UpstreamConfig → Type 0) (profile : Option ToolExposureProfile)
    (d : Dict UpstreamConfig)
    → All (λ p. Q p × (asks_upstream profile p.0 p.1 ≡ true)) d
    → All (λ p. Q p × (exposes_upstream profile p.0 p.1 ≡ true)) d
exposed-All Q profile [] h = tt
exposed-All Q profile ((key, u) ∷ rest) ((q, asked), later) =
    ((q, rw (← asks-exposes_upstream profile key u) asked), exposed-All Q profile rest later)

-- The upstreams that the catalog asks are exposed.
pub catalog_upstreams-All :
    (Q : String × UpstreamConfig → Type 0) (s : Source) (query tool_name : String)
    → All Q s.upstreams
    → All
        (λ p. Q p × (exposes_upstream s.profile p.0 p.1 ≡ true))
        (catalog_upstreams s.texts s.profile s.upstreams s.separator query tool_name)
unfolding catalog_upstreams
catalog_upstreams-All Q s query tool_name h =
    let kept =
      exposed-All Q s.profile _ (keep_upstreams-All Q (asks_upstream s.profile) s.upstreams h) in
    or_by_query-All _ s.texts query _ _ kept (owners-All _ tool_name _ _ kept)
