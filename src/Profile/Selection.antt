-- ===== src/Profile/Selection.antt =====
-- src/mcp_broker/profiles.py: `ClientRootMatch.matches` and `select_profile_for_cwd`. What a path
-- resolves to, its names with the deepest first, is an argument; `none` is an error.
use mcp_broker.Prelude.{
  String, Bool, true, false, ◌&&◌, ◌||◌, Option, none, some, List, [], ◌∷◌, Dict, is_empty, ◌==◌,
  if◌then◌else◌, lookup, starts_with, sort_texts,
}
use mcp_broker.Profile.{ClientRootMatch, ToolExposureProfile}

abbrev pub same_names : List String → List String → Bool
same_names [] [] = true
same_names (a ∷ as') (b ∷ bs) = a == b && same_names as' bs
same_names _ _ = false

-- The loop over the path and its parents; the root has no name, and the prefix is not empty.
unfoldable pub matches_names : ClientRootMatch → List String → Bool
matches_names m [] = false
matches_names m (name ∷ up) =
    (same_names up m.parent && starts_with name m.name_prefix) || matches_names m up

abbrev pub Resolver : Type 0
Resolver = String → Option (List String)

abbrev matches_resolved : ClientRootMatch → Option (List String) → Bool
matches_resolved m none = false
matches_resolved m (some names) = matches_names m names

unfoldable pub matches_root : Resolver → ClientRootMatch → String → Bool
unfolding matches_names
matches_root resolve m client_cwd = matches_resolved m (resolve client_cwd)

abbrev claims_by : Resolver → String → Option ClientRootMatch → Bool
claims_by resolve client_cwd none = false
claims_by resolve client_cwd (some m) = matches_root resolve m client_cwd

-- The profile routes a session of the directory.
unfoldable pub claims : Resolver → String → ToolExposureProfile → Bool
claims resolve client_cwd p = claims_by resolve client_cwd p.client_root_match

abbrev pub claimed : Resolver → String → Option ToolExposureProfile → Bool
claimed resolve client_cwd none = false
claimed resolve client_cwd (some p) = claims resolve client_cwd p

-- The loop over the names of the profiles.
unfoldable pub first_claim :
    Resolver
    → String
    → Dict ToolExposureProfile
    → Option ToolExposureProfile
    → List String
    → Option ToolExposureProfile
first_claim resolve client_cwd profiles requested [] = requested
first_claim resolve client_cwd profiles requested (name ∷ names) =
    let rest = first_claim resolve client_cwd profiles requested names in
    if claimed resolve client_cwd (lookup name profiles) then lookup name profiles else rest

abbrev pub profile_names : Dict ToolExposureProfile → List String
profile_names [] = []
profile_names ((name, p) ∷ rest) = name ∷ profile_names rest

abbrev select_for :
    Resolver
    → Dict ToolExposureProfile
    → Option ToolExposureProfile
    → Option String
    → Option ToolExposureProfile
select_for resolve profiles requested none = requested
select_for resolve profiles requested (some cwd) =
    let routed = first_claim resolve cwd profiles requested (sort_texts (profile_names profiles)) in
    if is_empty cwd then requested else routed

unfoldable pub select_profile_for_cwd :
    Resolver
    → Dict ToolExposureProfile
    → Option ToolExposureProfile
    → Option String
    → Option ToolExposureProfile
unfolding first_claim
select_profile_for_cwd resolve profiles requested client_cwd =
    select_for resolve profiles requested client_cwd
