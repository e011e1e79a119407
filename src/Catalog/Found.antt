-- ===== src/Catalog/Found.antt =====
-- What a search shows can be called.
use mcp_broker.Prelude.{ℕ, zero, suc, String, ◌≡◌, ap, true, List, [], ◌∷◌, All, if-cases}
use mcp_broker.Prelude.Result.{ok}
use mcp_broker.Value.{ℤ, pos, negsuc}
use mcp_broker.Upstream.{UpstreamConfig}
use mcp_broker.Core.{resolve_call_route}
use mcp_broker.Catalog.Entries.{Texts, CatalogEntry}
use mcp_broker.Catalog.Search.{
  Scored, search_tools, slim_entries, up_to, sort_ranked, insert_ranked, score_entries, take,
  ranks_before,
}
use mcp_broker.Catalog.Ranking.{relevant-All}
use mcp_broker.Catalog.Facade.{BrokerCatalogFacade, source_of, core_of}
use mcp_broker.Catalog.Shown.{All-map}
use mcp_broker.Catalog.Reach.{IsReachable, IsOpen, entries-IsOpen}

module _ (P : CatalogEntry → Type 0) where
  abbrev IsOf : Scored → Type 0
  IsOf a = P a.entry

  score-All :
      (t : Texts) (query : String) (es : List CatalogEntry)
      → All P es
      → All IsOf (score_entries t query es)
  score-All t query [] h = tt
  score-All t query (e ∷ es) (p, h) = (p, score-All t query es h)

  insert-All :
      (a : Scored) (bs : List Scored) → P a.entry → All IsOf bs → All IsOf (insert_ranked a bs)
  unfolding insert_ranked
  insert-All a [] p h = (p, tt)
  insert-All a (b ∷ bs) p (q, h) =
      if-cases (All IsOf) (ranks_before a b) (λ _. (p, (q, h))) (λ _. (q, insert-All a bs p h))

  sort-All : (bs : List Scored) → All IsOf bs → All IsOf (sort_ranked bs)
  unfolding sort_ranked
  sort-All [] h = tt
  sort-All (b ∷ bs) (p, h) = insert-All b (sort_ranked bs) p (sort-All bs h)

  take-All : (n : ℕ) (bs : List Scored) → All IsOf bs → All IsOf (take n bs)
  take-All zero bs h = tt
  take-All (suc n) [] h = tt
  take-All (suc n) (b ∷ bs) (p, h) = (p, take-All n bs h)

  up_to-All : (z : ℤ) (bs : List Scored) → All IsOf bs → All IsOf (up_to z bs)
  up_to-All (pos n) bs h = take-All n bs h
  up_to-All (negsuc n) bs h = take-All _ bs h

-- A call of the entry's name is let through to a tool of the entry's upstream.
pub record IsCalled (f : BrokerCatalogFacade) (e : CatalogEntry) : Type 0 where
  pub owner : UpstreamConfig
  pub tool : String
  pub its_own : e.upstream ≡ owner.name
  pub routed : resolve_call_route (core_of f) e.name ≡ ok (owner, tool)

abbrev Opens : BrokerCatalogFacade → CatalogEntry → Type 0
Opens f e = e.available ≡ true → IsCalled f e

IsOpen-IsCalled : (f : BrokerCatalogFacade) (e : CatalogEntry) → IsOpen f e → IsCalled f e
IsOpen-IsCalled f e k = record {
  owner = k.owner;
  tool = _;
  its_own = ap (λ (x : CatalogEntry). x.upstream) k.same;
  routed = k.routed;
}

slim-All :
    (f : BrokerCatalogFacade) (as' : List Scored)
    → All (λ a. Opens f a.entry) as'
    → All (Opens f) (slim_entries as')
slim-All f [] h = tt
slim-All f (a ∷ as') (p, h) = (
  λ k. record {
    owner = (p k).owner;
    tool = (p k).tool;
    its_own = (p k).its_own;
    routed = (p k).routed;
  },
  slim-All f as' h,
)

-- Each tool that `broker.search_tools` finds, and that it does not report as unavailable, can be
-- called by its name, at the upstream that the search names. Each upstream must stand under its own
-- name, and if it is exposed it must be the first with its prefix, and the separator must be first
-- met behind the prefix.
pub search_tools-IsCalled :
    (f : BrokerCatalogFacade) (query : String) (limit : ℤ)
    → All (IsReachable f) f.upstreams
    → All (λ e. e.available ≡ true → IsCalled f e) (search_tools (source_of f) query limit).matches
unfolding search_tools
search_tools-IsCalled f query limit reach =
    let opens =
      All-map _ (Opens f) _ (λ e h a. IsOpen-IsCalled f e (h a))
        (entries-IsOpen f query "" reach) in
    slim-All f _ (
      up_to-All (Opens f) limit _
        (relevant-All _ _ (sort-All (Opens f) _ (score-All (Opens f) f.texts query _ opens))))
