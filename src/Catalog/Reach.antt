-- ===== src/Catalog/Reach.antt =====
-- What the catalog shows can be called.
use mcp_broker.Prelude.{
  String, ◌++ₛ◌, ◌≡◌, refl, true, Option, none, some, List, [], ◌∷◌, All, arith, Bool-cases, inl,
  inr, ◌==◌, eq_iff, split_once, subst,
}
use mcp_broker.Prelude.Result.{ok}
use mcp_broker.Upstream.{UpstreamConfig, prefix_of}
use mcp_broker.Profile.{ToolExposureProfile}
use mcp_broker.Namespace.{Tool, tool_name, may_mutate}
use mcp_broker.Core.{BrokerCore, find_prefix, resolve_call_route}
use mcp_broker.Core.Routes.{IsCallable, allowed_call_route_iff, resolve_joined}
use mcp_broker.Catalog.Entries.{CatalogEntry, entry_of, exposes_upstream}
use mcp_broker.Catalog.Search.{catalog_entries, describe_tool, find_entry}
use mcp_broker.Catalog.Facade.{BrokerCatalogFacade, source_of, core_of}
use mcp_broker.Catalog.Shown.{IsEntry, All-map, list_catalog-IsShown, catalog_upstreams-All}

-- The conditions under which the names that an upstream's entries have lead to it: it stands under
-- its own name, and, if it is exposed, no earlier upstream has its prefix and the separator is first
-- met behind the prefix.
pub record IsReachable (f : BrokerCatalogFacade) (p : String × UpstreamConfig) : Type 0 where
  pub own_name : p.0 ≡ p.1.name
  pub first :
      exposes_upstream f.profile p.0 p.1 ≡ true → find_prefix f.upstreams (prefix_of p.1) ≡ some p.1
  pub splits :
      split_once f.settings.tool_namespace_separator
        (prefix_of p.1 ++ₛ f.settings.tool_namespace_separator)
      ≡ some (prefix_of p.1, "")

-- A call of the entry's name is let through, to the tool that the entry was made of.
pub record IsOpen (f : BrokerCatalogFacade) (e : CatalogEntry) : Type 0 where
  pub owner : UpstreamConfig
  pub tool : Tool
  pub same : e ≡ entry_of f.texts owner f.settings.tool_namespace_separator tool
  pub routed : resolve_call_route (core_of f) e.name ≡ ok (owner, tool_name tool)

exposed-IsCallable :
    (c : BrokerCore) (u : UpstreamConfig)
    → exposes_upstream c.profile u.name u ≡ true
    → IsCallable c u
unfolding exposes_upstream
exposed-IsCallable c u h = record {
  visible = record { on = ground arith; exposed = ground arith };
  granted = granted c.profile h;
}
  where
    granted :
        (p : Option ToolExposureProfile)
        → exposes_upstream p u.name u ≡ true
        → may_mutate p u ≡ true
    granted none k = refl
    granted (some q) k = ground arith

entry-IsOpen :
    (f : BrokerCatalogFacade) (e : CatalogEntry)
    → IsEntry f.texts f.settings.tool_namespace_separator
        (λ p. IsReachable f p × (exposes_upstream f.profile p.0 p.1 ≡ true))
        e
    → IsOpen f e
entry-IsOpen f e k =
    let (reach, exposed) = k.holds in
    let named : k.key ≡ k.owner.name = reach.own_name in
    let callable = exposed-IsCallable (core_of f) k.owner (rw named at exposed) in
    let routed : resolve_call_route (core_of f)
          (prefix_of k.owner ++ₛ (f.settings.tool_namespace_separator ++ₛ tool_name k.tool))
        ≡ ok (k.owner, tool_name k.tool) =
      rw (
        resolve_joined (core_of f) k.owner k.owner (tool_name k.tool) reach.splits k.named
            (reach.first exposed),
        (allowed_call_route_iff (core_of f) (prefix_of k.owner) k.owner).1 callable,
      ) in
    record { owner = k.owner; tool = k.tool; same = k.same; routed = rw k.same routed }

find_entry_sound :
    (P : CatalogEntry → Type 0) (name : String) (es : List CatalogEntry) (e : CatalogEntry)
    → All P es
    → find_entry name es ≡ some e
    → P e × (e.name ≡ name)
find_entry_sound P name [] e h k = absurd (cc)
find_entry_sound P name (x ∷ es) e (p, h) k = elim (Bool-cases (x.name == name)) [
  | inr other ↦ find_entry_sound P name es e h (rw other at k)
  | inl here ↦
      let same : x ≡ e = ground arith in
      (subst P same p, rw (← same) (ground (arith, eq_iff x.name name)))
]

pub entries-IsOpen :
    (f : BrokerCatalogFacade) (query tool_name : String)
    → All (IsReachable f) f.upstreams
    → All
        (λ e. e.available ≡ true → IsOpen f e)
        (catalog_entries (source_of f) query tool_name).entries
unfolding catalog_entries
entries-IsOpen f query tool_name reach =
    All-map _ _ _ (λ e h a. entry-IsOpen f e (h a))
      (list_catalog-IsShown f.texts f.settings.tool_namespace_separator _ f.list_upstream _
        (catalog_upstreams-All (IsReachable f) (source_of f) query tool_name reach))

-- A tool that `broker.describe_tool` describes, and not as unavailable, has the name that was asked
-- for, and a call of that name is let through to the upstream and the tool that the description was
-- made of. Each upstream must stand under its own name, and if it is exposed it must be the first
-- with its prefix, and the separator must be first met behind the prefix.
pub describe_tool-IsOpen :
    (f : BrokerCatalogFacade) (name : String) (e : CatalogEntry)
    → All (IsReachable f) f.upstreams
    → describe_tool (source_of f) name ≡ some e
    → e.available ≡ true
    → IsOpen f e × (e.name ≡ name)
unfolding describe_tool
describe_tool-IsOpen f name e reach found available =
    let (opens, named) = find_entry_sound _ name _ e (entries-IsOpen f "" name reach) found in
    (opens available, named)
