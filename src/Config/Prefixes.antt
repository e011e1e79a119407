-- ===== src/Config/Prefixes.antt =====
-- Prefixes that are unique for each profile are enough to build the router of each profile.
use mcp_broker.Prelude.{
  String, ◌≡◌, refl, true, false, inl, inr, some, List, [], ◌∷◌, Dict, lookup, insert,
  lookup-insert, arith, Bool-cases, is_empty, eq_iff, contains,
}
use mcp_broker.Prelude.Result.{ok, Result-cases}
use mcp_broker.Upstream.{UpstreamConfig, BrokerSettings, is_off, prefix_of}
use mcp_broker.Profile.{ToolExposureProfile}
use mcp_broker.Namespace.{Router, has_key, build_prefix_index, new_router}
use mcp_broker.Config.Defs.{
  Seen, has_seen, see_profiles, see_upstreams, validate_unique_profile_prefixes,
}

-- Each prefix of the index was seen for the profile.
abbrev Covers : String → Dict String → Seen → Type 0
Covers name index seen =
    (q : String) → has_key (lookup q index) ≡ true → has_seen seen name q ≡ true

module _ (name : String) where
  -- What was seen stays seen.
  see_profiles-keeps :
      (prefix : String) (ps : List String) (seen : Seen) {out : Seen} (q : String)
      → see_profiles prefix ps seen ≡ ok out
      → has_seen seen name q ≡ true
      → has_seen out name q ≡ true
  unfolding see_profiles
  see_profiles-keeps prefix [] seen q h s = ground arith
  see_profiles-keeps prefix (p ∷ ps) seen {out} q h s =
      ground (arith, see_profiles-keeps prefix ps ((p, prefix) ∷ seen) {out = out} q)

  -- A profile of the upstream is seen with the upstream's prefix, and was not before.
  see_profiles-adds :
      (prefix : String) (ps : List String) (seen : Seen) {out : Seen}
      → see_profiles prefix ps seen ≡ ok out
      → contains ps name ≡ true
      → (has_seen seen name prefix ≡ false) × (has_seen out name prefix ≡ true)
  unfolding see_profiles
  see_profiles-adds prefix [] seen h c = cc
  see_profiles-adds prefix (p ∷ ps) seen {out} h c = ground (
    arith,
    eq_iff p name,
    eq_iff prefix prefix,
    see_profiles-adds prefix ps ((p, prefix) ∷ seen) {out = out},
    see_profiles-keeps prefix ps ((p, prefix) ∷ seen) {out = out} prefix,
  )

Covers-keeps :
    (name prefix : String) (ps : List String) (index : Dict String) (seen : Seen) {out : Seen}
    → see_profiles prefix ps seen ≡ ok out
    → Covers name index seen
    → Covers name index out
Covers-keeps name prefix ps index seen h covers q k =
    see_profiles-keeps name prefix ps seen q h (covers q k)

Covers-insert :
    (name prefix key : String) (index : Dict String) (seen : Seen)
    → has_seen seen name prefix ≡ true
    → Covers name index seen
    → Covers name (insert prefix key index) seen
Covers-insert name prefix key index seen now covers q k =
    ground (arith, covers q, lookup-insert prefix q key index, eq_iff prefix q)

-- The prefix of an upstream that is about to be seen is not in the index.
fresh :
    (name prefix : String) (index : Dict String) (seen : Seen)
    → Covers name index seen
    → has_seen seen name prefix ≡ false
    → has_key (lookup prefix index) ≡ false
fresh name prefix index seen covers new = ground (arith, covers prefix)

build_total :
    (p : ToolExposureProfile) (ups : Dict UpstreamConfig) (index : Dict String) (seen : Seen)
    → see_upstreams ups seen ≡ ok tt
    → Covers p.name index seen
    → (out : Dict String) × (build_prefix_index ups (some p) index ≡ ok out)
unfolding see_upstreams build_prefix_index
build_total p [] index seen h covers = (index, refl)
build_total p ((key, u) ∷ rest) index seen h covers = elim (Bool-cases (is_off u)) [
  | inl off ↦ rw off (build_total p rest index seen (rw off at h) covers)
  | inr on ↦ elim (Result-cases (see_profiles (prefix_of u) u.profiles seen)) [
    | inr (e, failed) ↦ absurd (cc (rw (on, failed) at h))
    | inl (seen', passed) ↦
        let h' : see_upstreams rest seen' ≡ ok tt = rw (on, passed) at h in
        let kept = Covers-keeps p.name (prefix_of u) u.profiles index seen passed covers in
        elim (Bool-cases (contains u.profiles p.name)) [
          | inr hidden ↦ rw (on, hidden) (build_total p rest index seen' h' kept)
          | inl seen_by ↦
              let (new, now) =
                see_profiles-adds p.name (prefix_of u) u.profiles seen passed seen_by in
              rw (on, seen_by, fresh p.name (prefix_of u) index seen covers new)
                (build_total p rest (insert (prefix_of u) key index) seen' h'
                  (Covers-insert p.name (prefix_of u) key index seen' now kept))
        ]
  ]
]

-- Upstreams that pass `_validate_unique_profile_prefixes` have a router for every profile: the
-- constructor of the router raises only for an empty separator.
pub new_router-total :
    (settings : BrokerSettings) (ups : Dict UpstreamConfig) (p : ToolExposureProfile)
    → validate_unique_profile_prefixes ups ≡ ok tt
    → is_empty settings.tool_namespace_separator ≡ false
    → (r : Router) × (new_router settings ups (some p) ≡ ok r)
unfolding validate_unique_profile_prefixes new_router
new_router-total settings ups p valid separator =
    let (index, built) = build_total p ups [] [] valid (λ q k. cc) in
    let r : Router = record {
      separator = settings.tool_namespace_separator;
      profile = some p;
      upstreams = ups;
      prefix_to_upstream = index;
    } in
    (r, rw (separator, built))
