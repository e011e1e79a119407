-- ===== src/Namespace/Budget.antt =====
-- What the list of all advertised tools promises.
use mcp_broker.Prelude.{
  ◌≤◌, String, ◌≡◌, refl, ◌∙◌, false, Option, some, List, [], ◌∷◌, ◌++◌, map, Dict, arith,
  Bool-cases, inl, inr, contains, length, eq_iff, sym, subst,
}
use mcp_broker.Prelude.Result.{ok, ◌>>=◌, Result-cases}
use mcp_broker.Profile.{ToolExposureProfile}
use mcp_broker.Namespace.Defs.{
  Tool, Router, tool_name, collect_tools, collect_upstreams, advertise_tools, upstream_allowed,
  enforce_profile_budget, advertise_all_tools,
}

-- No tool of the list has the name of a later one.
abbrev pub Distinct : List Tool → Type 0
Distinct [] = Unit
Distinct (t ∷ ts) = (contains (map tool_name ts) (tool_name t) ≡ false) × Distinct ts

-- The set `names` answers as the names of the list do, and the list has no name twice.
record Tracks (acc : List String × List Tool) : Type 0 where
  same : (n : String) → contains acc.0 n ≡ contains (map tool_name acc.1) n
  distinct : Distinct acc.1

contains_snoc :
    (ts : List Tool) (t : Tool) (n : String)
    → contains (map tool_name (ts ++ t ∷ [])) n ≡ contains (tool_name t ∷ map tool_name ts) n
contains_snoc [] t n = refl
contains_snoc (x ∷ ts) t n = ground (arith, contains_snoc ts t n)

Distinct-snoc :
    (ts : List Tool) (t : Tool)
    → Distinct ts
    → contains (map tool_name ts) (tool_name t) ≡ false
    → Distinct (ts ++ t ∷ [])
Distinct-snoc [] t d new = (refl, tt)
Distinct-snoc (x ∷ ts) t d new = (
  ground (
    arith,
    contains_snoc ts t (tool_name x),
    eq_iff (tool_name x) (tool_name t),
    eq_iff (tool_name t) (tool_name x),
  ),
  Distinct-snoc ts t d.1 (ground arith),
)

collect_tools-Tracks :
    (ts : List Tool) (acc : List String × List Tool) {out : List String × List Tool}
    → Tracks acc
    → collect_tools ts acc ≡ ok out
    → Tracks out
unfolding collect_tools
collect_tools-Tracks [] acc k h = subst Tracks (cc) k
collect_tools-Tracks (t ∷ ts) (names, tools) k h =
    elim (Bool-cases (contains names (tool_name t))) [
      | inl taken ↦ ground arith
      | inr new ↦
          collect_tools-Tracks ts (tool_name t ∷ names, tools ++ t ∷ [])
            (record {
              same = λ n. ground (arith, k.same n, contains_snoc tools t n);
              distinct = Distinct-snoc tools t k.distinct (sym (k.same (tool_name t)) ∙ new);
            })
            (rw new at h)
    ]

collect_upstreams-Tracks :
    (r : Router) (ups : Dict (List Tool)) (acc : List String × List Tool)
    {out : List String × List Tool}
    → Tracks acc
    → collect_upstreams r ups acc ≡ ok out
    → Tracks out
unfolding collect_upstreams
collect_upstreams-Tracks r [] acc k h = subst Tracks (cc) k
collect_upstreams-Tracks r ((name, tools) ∷ rest) acc k h =
    elim (Bool-cases (upstream_allowed r name)) [
      | inr skipped ↦ collect_upstreams-Tracks r rest acc k (rw skipped at h)
      | inl taken ↦ elim (Result-cases (advertise_tools r name tools)) [
        | inr (e, failed) ↦ ground arith
        | inl (more, passed) ↦ elim (Result-cases (collect_tools more acc)) [
          | inr (e, failed) ↦ ground arith
          | inl (acc', added) ↦
              collect_upstreams-Tracks r rest acc' (collect_tools-Tracks more acc k added)
                (rw (taken, passed, added) at h)
        ]
      ]
    ]

-- The list that `advertise_all_tools` returns has no name twice, and under a profile at most
-- `max_tools` tools.
pub record IsOffer (profile : Option ToolExposureProfile) (tools : List Tool) : Type 0 where
  pub distinct : Distinct tools
  pub budgeted : (p : ToolExposureProfile) → profile ≡ some p → length tools ≤ p.max_tools

budget_inv :
    (r : Router) (ts : List Tool) (p : ToolExposureProfile) (tools : List Tool)
    → r.profile ≡ some p
    → (enforce_profile_budget r (length ts) >>= λ _. ok ts) ≡ ok tools
    → length ts ≤ p.max_tools
unfolding enforce_profile_budget
budget_inv r ts p tools e h = ground arith

-- Whatever the upstreams list, the tools that `advertise_all_tools` returns have distinct names,
-- and under a profile they are at most as many as its `max_tools`.
pub advertise_all_tools-IsOffer :
    (r : Router) (upstream_tools : Dict (List Tool)) (tools : List Tool)
    → advertise_all_tools r upstream_tools ≡ ok tools
    → IsOffer r.profile tools
unfolding advertise_all_tools
advertise_all_tools-IsOffer r upstream_tools tools h =
    elim (Result-cases (collect_upstreams r upstream_tools ([], []))) [
      | inr (e, failed) ↦ ground arith
      | inl (acc, passed) ↦
          let k = collect_upstreams-Tracks r upstream_tools ([], []) start passed in
          let same : acc.1 ≡ tools = ground arith in
          record {
            distinct = rw (← same) k.distinct;
            budgeted = λ p e. rw (← same) (budget_inv r acc.1 p tools e (rw passed at h));
          }
    ]
  where
    start : Tracks ([], [])
    start = record { same = λ n. refl; distinct = tt }
