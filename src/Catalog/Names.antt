-- ===== src/Catalog/Names.antt =====
-- The catalog and the list of tools give an upstream's tools the same names.
use mcp_broker.Prelude.{
  String, ◌≡◌, refl, ap₂, true, false, Option, none, some, List, [], ◌∷◌, map, lookup, arith,
  Bool-cases, inl, inr, is_empty,
}
use mcp_broker.Prelude.Result.{ok, Result-cases}
use mcp_broker.Upstream.{UpstreamConfig, is_off}
use mcp_broker.Profile.{ToolExposureProfile}
use mcp_broker.Namespace.{
  Tool, Router, tool_name, namespaced, advertise_tools, advertise_loop, in_profile, may_mutate,
}
use mcp_broker.Namespace.RoundTrip.{advertise_tools_inv}
use mcp_broker.Catalog.Entries.{
  Texts, CatalogEntry, catalog_entries_for_upstream, exposes_upstream, asks_upstream, may_use,
}
use mcp_broker.Catalog.Asked.{asks-exposes_upstream}

entries-advertise_loop :
    (t : Texts) (r : Router) (u : UpstreamConfig) (key : String) (tools : List Tool)
    {out : List Tool}
    → advertise_loop r u key tools ≡ ok out
    → map (λ (e : CatalogEntry). e.name) (catalog_entries_for_upstream t u tools r.separator)
      ≡ map tool_name out
unfolding advertise_loop catalog_entries_for_upstream
entries-advertise_loop t r u key [] h = ground arith
entries-advertise_loop t r u key (x ∷ xs) {out} h = elim (Bool-cases (is_empty (tool_name x))) [
  | inl unnamed ↦ ground arith
  | inr named ↦ elim (Result-cases (advertise_loop r u key xs)) [
    | inr (e, failed) ↦ ground arith
    | inl (rest, passed) ↦
        let made : record x { name = some (namespaced r u (tool_name x)) } ∷ rest ≡ out =
          cc (rw (named, passed) at h) in
        rw (named, ← made) (ap₂ ◌∷◌ refl (entries-advertise_loop t r u key xs passed))
  ]
]

-- Where a router advertises the tools of an upstream that stands under its own name, the upstream
-- passes the catalog's own guards and those of the status too, and its entries for these tools have the advertised names, in order.
pub catalog_entries-advertise_tools :
    (t : Texts) (r : Router) (u : UpstreamConfig) (tools out : List Tool)
    → advertise_tools r u.name tools ≡ ok out
    → lookup u.name r.upstreams ≡ some u
    → (exposes_upstream r.profile u.name u ≡ true)
      × (asks_upstream r.profile u.name u ≡ true)
      × (map (λ (e : CatalogEntry). e.name) (catalog_entries_for_upstream t u tools r.separator)
          ≡ map tool_name out)
catalog_entries-advertise_tools t r u tools out h known =
    let a = advertise_tools_inv r u.name tools h in
    let same : a.upstream ≡ u = cc (rw known at a.enabled.known) in
    let on : is_off u ≡ false = rw same at a.enabled.visible.on in
    let exposed : in_profile r.profile u ≡ true = rw same at a.enabled.visible.exposed in
    let granted : may_mutate r.profile u ≡ true = rw same at a.granted in
    let seen : exposes_upstream r.profile u.name u ≡ true =
      unfold exposes_upstream in rw (on, exposed) (may r.profile granted) in
    (
      seen,
      rw (asks-exposes_upstream r.profile u.name u) seen,
      entries-advertise_loop t r u u.name tools (rw same at a.looped),
    )
  where
    may : (p : Option ToolExposureProfile) → may_mutate p u ≡ true → may_use p u.name u ≡ true
    may none k = refl
    may (some q) k = k
