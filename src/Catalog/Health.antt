-- ===== src/Catalog/Health.antt =====
-- What `broker.status` says of the upstreams.
use mcp_broker.Prelude.{
  String, ◌≡◌, refl, ◌↔◌, Bool, true, false, not, ◌&&◌, ◌||◌, Option, none, some, List, [], ◌∷◌,
  map, Dict, All, lookup, arith, Bool-cases, inl, inr, if◌then◌else◌,
}
use mcp_broker.Value.{Value, bool, got, is_true}
use mcp_broker.Upstream.{UpstreamConfig, is_off}
use mcp_broker.Profile.{ToolExposureProfile}
use mcp_broker.Catalog.Entries.{Texts, exposes_upstream, keep_upstreams, catalog_upstreams}
use mcp_broker.Catalog.Asked.{catalog_upstreams-all}
use mcp_broker.Catalog.Status.{
  truthy, is_among, fallen_states, status_upstreams, broker_status, degraded_or, upstream_status,
  with_auth, add_status, or_no_snapshot, status_dict,
}

-- No error, and a state other than the fallen ones.
abbrev pub IsUp : String × Dict Value → Type 0
IsUp (name, status) =
    (truthy (got (lookup "last_error" status)) ≡ false)
    × (is_among fallen_states (got (lookup "state" status)) ≡ some false)

-- One round of the loop.
round_iff :
    (failed : Bool) (fallen : Option Bool) (rest : Option String)
    → ((if failed then some "degraded" else degraded_or fallen rest) ≡ some "ok")
      ↔ (((failed ≡ false) × (fallen ≡ some false)) × (rest ≡ some "ok"))
round_iff true fallen rest = (λ h. absurd (cc), λ k. absurd (cc (k.0.0)))
round_iff false none rest = (λ h. absurd (cc), λ k. absurd (cc (k.0.1)))
round_iff false (some true) rest = (λ h. absurd (cc), λ k. absurd (cc (k.0.1)))
round_iff false (some false) rest = (λ h. ((refl, refl), h), λ k. k.1)

-- The broker is "ok" exactly when no upstream has a last error and none is exited, failed or in
-- backoff.
pub broker_status_iff :
    (statuses : Dict (Dict Value)) → (broker_status statuses ≡ some "ok") ↔ All IsUp statuses
unfolding broker_status
broker_status_iff [] = (λ _. tt, λ _. refl)
broker_status_iff ((name, status) ∷ rest) =
    let (there, back) =
      round_iff (truthy (got (lookup "last_error" status)))
        (is_among fallen_states (got (lookup "state" status))) (broker_status rest) in
    let (rest_there, rest_back) = broker_status_iff rest in
    (λ h. let (here, later) = there h in (here, rest_there later), λ k. back (k.0, rest_back k.1))

-- The names of the upstreams that a status says are exposed.
abbrev pub exposed_names : Dict (Dict Value) → List String
exposed_names [] = []
exposed_names ((name, status) ∷ rest) =
    if is_true (got (lookup "exposed" status))
    then name ∷ exposed_names rest
    else exposed_names rest

abbrev pub names : {A : Type 0} → Dict A → List String
names d = map (λ p. p.0) d

abbrev is_covered : Option ToolExposureProfile → String → UpstreamConfig → Bool
is_covered profile name u = exposes_upstream profile name u || is_off u

-- The report covers the right upstreams, and exposes the right ones.
abbrev Covers : Option ToolExposureProfile → Dict UpstreamConfig → Dict (Dict Value) → Type 0
Covers profile d statuses =
    (names statuses ≡ names (keep_upstreams (is_covered profile) d))
    × (exposed_names statuses ≡ names (keep_upstreams (exposes_upstream profile) d))

add_status_inv :
    (name : String) (status : Option (Dict Value)) (rest : Option (Dict (Dict Value)))
    (out : Dict (Dict Value))
    → add_status name status rest ≡ some out
    → (st : Dict Value) × (others : Dict (Dict Value)) × (status ≡ some st)
      × (rest ≡ some others)
      × ((name, st) ∷ others ≡ out)
add_status_inv name none rest out h = absurd (cc)
add_status_inv name (some st) none out h = absurd (cc)
add_status_inv name (some st) (some others) out h = (st, others, refl, refl, cc)

is_true-bool : (b : Bool) → is_true (bool b) ≡ b
is_true-bool true = refl
is_true-bool false = refl

with_auth-exposed :
    (t : Texts) (profile : Option ToolExposureProfile) (name : String) (u : UpstreamConfig)
    (snapshot st : Dict Value) (auth : Option Value)
    → with_auth (status_dict t profile name u snapshot) auth ≡ some st
    → is_true (got (lookup "exposed" st)) ≡ exposes_upstream profile name u
with_auth-exposed t profile name u snapshot st none h = absurd (cc)
with_auth-exposed t profile name u snapshot st (some auth) h =
    let same : status_dict t profile name u snapshot auth ≡ st = cc in
    rw (← same) (is_true-bool (exposes_upstream profile name u))

upstream_status-exposed :
    (t : Texts) (profile : Option ToolExposureProfile) (name : String) (u : UpstreamConfig)
    (snapshot st : Dict Value)
    → upstream_status t profile name u snapshot ≡ some st
    → is_true (got (lookup "exposed" st)) ≡ exposes_upstream profile name u
unfolding upstream_status
upstream_status-exposed t profile name u snapshot st h =
    with_auth-exposed t profile name u snapshot st _ h

skip-Covers :
    (profile : Option ToolExposureProfile) (name : String) (u : UpstreamConfig)
    (rest : Dict UpstreamConfig) (statuses : Dict (Dict Value))
    → exposes_upstream profile name u ≡ false
    → is_off u ≡ false
    → Covers profile rest statuses
    → Covers profile ((name, u) ∷ rest) statuses
skip-Covers profile name u rest statuses hidden on k = rw (hidden, on) k

add-Covers :
    (profile : Option ToolExposureProfile) (name : String) (u : UpstreamConfig)
    (rest : Dict UpstreamConfig) (st : Dict Value) (others : Dict (Dict Value))
    → is_covered profile name u ≡ true
    → is_true (got (lookup "exposed" st)) ≡ exposes_upstream profile name u
    → Covers profile rest others
    → Covers profile ((name, u) ∷ rest) ((name, st) ∷ others)
add-Covers profile name u rest st others covered says (all, shown) =
    elim (Bool-cases (exposes_upstream profile name u)) [
      | inl exposed ↦ (rw (covered, all) refl, rw (says, exposed, shown) refl)
      | inr hidden ↦ (rw (covered, all) refl, rw (says, hidden, shown) refl)
    ]

report-Covers :
    (t : Texts) (profile : Option ToolExposureProfile) (health statuses : Dict (Dict Value))
    (d : Dict UpstreamConfig)
    → status_upstreams t profile health d ≡ some statuses
    → Covers profile d statuses
unfolding status_upstreams
report-Covers t profile health statuses [] h =
    let same : [] ≡ statuses = cc in rw (← same) (refl, refl)
report-Covers t profile health statuses ((name, u) ∷ rest) h =
    elim (Bool-cases (not (exposes_upstream profile name u) && not (is_off u))) [
      | inl skipped ↦
          skip-Covers profile name u rest statuses (ground arith) (ground arith)
            (report-Covers t profile health statuses rest (rw skipped at h))
      | inr covered ↦
          let (st, others, made, listed, out) =
            add_status_inv name _ _ statuses (rw covered at h) in
          rw (← out) (
            add-Covers profile name u rest st others (ground arith)
              (upstream_status-exposed t profile name u (or_no_snapshot (lookup name health)) st
                made)
              (report-Covers t profile health others rest listed))
    ]

-- A status report covers, in the order of the configuration, the upstreams that are exposed and
-- those that are switched off, and it says "exposed" of exactly those that the catalog, by its own
-- guards, asks where it is given neither a query nor a name.
pub status_upstreams_sound :
    (t : Texts) (profile : Option ToolExposureProfile) (health statuses : Dict (Dict Value))
    (d : Dict UpstreamConfig) (separator : String)
    → status_upstreams t profile health d ≡ some statuses
    → (names statuses
        ≡ names (keep_upstreams (λ name u. exposes_upstream profile name u || is_off u) d))
      × (exposed_names statuses ≡ names (catalog_upstreams t profile d separator "" ""))
status_upstreams_sound t profile health statuses d separator h =
    let (all, shown) = report-Covers t profile health statuses d h in
    (all, rw (catalog_upstreams-all t profile d separator) shown)
