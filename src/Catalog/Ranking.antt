-- ===== src/Catalog/Ranking.antt =====
-- The order and the completeness of a search.
use mcp_broker.Prelude.{
  ◌<◌, String, ◌≡◌, refl, ◌⊎◌, true, false, List, [], ◌∷◌, All, arith, Bool-cases, inl, inr, ltb,
  text_leb, text_leb_total, text_leb_trans, if-cases,
}
use mathlib.Core.List.{Perm}
use mathlib.Core.List.Perm
use mcp_broker.Value.{ℤ}
use mcp_broker.Catalog.Entries.{CatalogEntry}
use mcp_broker.Catalog.Search.{
  Source, Scored, ranks_before, insert_ranked, sort_ranked, score_entries, relevant, up_to,
  slim_entries, catalog_entries, search_tools,
}

-- The first comes no later than the second: by falling scores, and by names where these agree.
abbrev RanksBefore : Scored → Scored → Type 0
RanksBefore a b =
    (b.score < a.score) ⊎ ((a.score ≡ b.score) × (text_leb a.entry.name b.entry.name ≡ true))

-- Each comes no later than any behind it.
abbrev pub IsRanked : List Scored → Type 0
IsRanked [] = Unit
IsRanked (a ∷ as') = All (RanksBefore a) as' × IsRanked as'

ranks_before_sound : (a b : Scored) → ranks_before a b ≡ true → RanksBefore a b
ranks_before_sound a b h = elim (Bool-cases (ltb b.score a.score)) [
  | inl higher ↦ inl (ground arith)
  | inr other ↦ inr (ground arith, ground arith)
]

ranks_before_total : (a b : Scored) → ranks_before a b ≡ false → RanksBefore b a
ranks_before_total a b h = elim (Bool-cases (ltb a.score b.score)) [
  | inl higher ↦ inl (ground arith)
  | inr other ↦
      let even : b.score ≡ a.score = ground arith in
      inr (even, text_leb_total a.entry.name b.entry.name (ground arith))
]

RanksBefore-trans : (a b c : Scored) → RanksBefore a b → RanksBefore b c → RanksBefore a c
RanksBefore-trans a b c (inl h) (inl k) = inl (omega arith)
RanksBefore-trans a b c (inl h) (inr (e, k)) = inl (omega arith)
RanksBefore-trans a b c (inr (e, h)) (inl k) = inl (omega arith)
RanksBefore-trans a b c (inr (e, h)) (inr (f, k)) =
    inr (omega arith, text_leb_trans a.entry.name b.entry.name c.entry.name h k)

weaken :
    (a b : Scored) (cs : List Scored)
    → RanksBefore a b
    → All (RanksBefore b) cs
    → All (RanksBefore a) cs
weaken a b [] h k = tt
weaken a b (c ∷ cs) h (bc, k) = (RanksBefore-trans a b c h bc, weaken a b cs h k)

insert_ranked-All :
    (c a : Scored) (bs : List Scored)
    → RanksBefore c a
    → All (RanksBefore c) bs
    → All (RanksBefore c) (insert_ranked a bs)
unfolding insert_ranked
insert_ranked-All c a [] h k = (h, tt)
insert_ranked-All c a (b ∷ bs) h (cb, k) = elim (Bool-cases (ranks_before a b)) [
  | inl here ↦ rw here (h, (cb, k))
  | inr later ↦ rw later (cb, insert_ranked-All c a bs h k)
]

insert_ranked-IsRanked :
    (a : Scored) (bs : List Scored) → IsRanked bs → IsRanked (insert_ranked a bs)
unfolding insert_ranked
insert_ranked-IsRanked a [] h = (tt, tt)
insert_ranked-IsRanked a (b ∷ bs) (first, rest) = elim (Bool-cases (ranks_before a b)) [
  | inl here ↦
      let ab = ranks_before_sound a b here in rw here ((ab, weaken a b bs ab first), (first, rest))
  | inr later ↦ rw later (
    insert_ranked-All b a bs (ranks_before_total a b later) first,
    insert_ranked-IsRanked a bs rest,
  )
]

sort_ranked-IsRanked : (as' : List Scored) → IsRanked (sort_ranked as')
unfolding sort_ranked
sort_ranked-IsRanked [] = tt
sort_ranked-IsRanked (a ∷ as') = insert_ranked-IsRanked a _ (sort_ranked-IsRanked as')

pub relevant-All : (P : Scored → Type 0) (as' : List Scored) → All P as' → All P (relevant as')
relevant-All P [] h = tt
relevant-All P (a ∷ as') (p, h) =
    if-cases (All P) (ltb 0 a.score) (λ _. (p, relevant-All P as' h)) (λ _. relevant-All P as' h)

relevant-IsRanked : (as' : List Scored) → IsRanked as' → IsRanked (relevant as')
relevant-IsRanked [] h = tt
relevant-IsRanked (a ∷ as') (first, rest) =
    if-cases IsRanked (ltb 0 a.score) (λ _. (relevant-All _ as' first, relevant-IsRanked as' rest))
      (λ _. relevant-IsRanked as' rest)

-- Leaving out what scores nothing agrees with inserting.
relevant-insert_ranked :
    (a : Scored) (bs : List Scored) → Perm (relevant (insert_ranked a bs)) (relevant (a ∷ bs))
unfolding insert_ranked
relevant-insert_ranked a [] = Perm.refl _
relevant-insert_ranked a (b ∷ bs) = elim (Bool-cases (ranks_before a b)) [
  | inl here ↦ rw here (Perm.refl _)
  | inr later ↦
      let ih = relevant-insert_ranked a bs in
      elim (Bool-cases (ltb 0 b.score)) [
        | inr nothing ↦ rw (later, nothing) ih
        | inl some' ↦ elim (Bool-cases (ltb 0 a.score)) [
          | inl any' ↦
              rw (later, some', any') (Perm.trans (Perm.cons b (rw any' at ih)) (Perm.swap a b _))
          | inr nothing ↦ rw (later, some', nothing) (Perm.cons b (rw nothing at ih))
        ]
      ]
]

keep_first :
    (a : Scored) (bs cs : List Scored)
    → Perm (relevant bs) (relevant cs)
    → Perm (relevant (a ∷ bs)) (relevant (a ∷ cs))
keep_first a bs cs p = elim (Bool-cases (ltb 0 a.score)) [
  | inl any' ↦ rw any' (Perm.cons a p)
  | inr nothing ↦ rw nothing p
]

relevant-sort_ranked : (as' : List Scored) → Perm (relevant (sort_ranked as')) (relevant as')
unfolding sort_ranked
relevant-sort_ranked [] = Perm.refl _
relevant-sort_ranked (a ∷ as') =
    Perm.trans (relevant-insert_ranked a (sort_ranked as'))
      (keep_first a (sort_ranked as') as' (relevant-sort_ranked as'))

-- What a search returns: the first entries, without their schemas, of a ranking of all the
-- entries of the catalog that score something.
pub record IsSearched (s : Source) (query : String) (limit : ℤ) (found : List CatalogEntry)
    : Type 0 where
  pub ranking : List Scored
  pub in_order : IsRanked ranking
  pub all_of_them :
      Perm ranking (relevant (score_entries s.texts query (catalog_entries s query "").entries))
  pub first_ones : found ≡ slim_entries (up_to limit ranking)

-- A search gives the best entries of the catalog, those with a score, each as often as it
-- stands there: by falling scores, entries of one score by their names, up to the limit.
pub search_tools_sound :
    (s : Source) (query : String) (limit : ℤ)
    → IsSearched s query limit (search_tools s query limit).matches
unfolding search_tools
search_tools_sound s query limit =
    let scored = score_entries s.texts query (catalog_entries s query "").entries in
    record {
      ranking = relevant (sort_ranked scored);
      in_order = relevant-IsRanked _ (sort_ranked-IsRanked scored);
      all_of_them = relevant-sort_ranked scored;
      first_ones = refl;
    }
