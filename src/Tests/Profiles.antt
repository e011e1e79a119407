-- ===== src/Tests/Profiles.antt =====
-- The profile of a session at a concrete directory.
use mcp_broker.Prelude.{
  String, ◌≡◌, ◌≢◌, refl, true, Option, some, [], ◌∷◌, Dict, ◌⊎◌, lookup, text_leb, starts_with,
}
use mcp_broker.Profile.{ToolExposureProfile}
use mcp_broker.Profile.Selection.{Resolver, claims, claimed, matches_root, select_profile_for_cwd}
use mcp_broker.Profile.Routing.{select_profile_for_cwd_sound}
use mcp_broker.Tests.Samples.{dev}

-- The directories of the sample lie under /work.
abbrev resolver : Resolver
resolver cwd = some ("src" ∷ "shop-web" ∷ "work" ∷ [])

abbrev shop : ToolExposureProfile
shop = record dev {
  name = "shop";
  client_root_match = some (record { parent = "work" ∷ []; name_prefix = "shop-" });
}

abbrev profiles : Dict ToolExposureProfile
profiles = ("shop", shop) ∷ ("dev", dev) ∷ []

select_profile_for_cwd_sound_example :
    (let given : Option ToolExposureProfile =
        select_profile_for_cwd resolver profiles (some dev) (some "/work/shop-web/src") in
      (((x : String) → claimed resolver "/work/shop-web/src" (lookup x profiles) ≢ true)
        × (given ≡ some dev))
      ⊎ ((n : String) × (claimed resolver "/work/shop-web/src" (lookup n profiles) ≡ true)
          × (given ≡ lookup n profiles)
          × ((x : String)
              → claimed resolver "/work/shop-web/src" (lookup x profiles) ≡ true
              → text_leb n x ≡ true)))
select_profile_for_cwd_sound_example =
    select_profile_for_cwd_sound resolver "/work/shop-web/src" profiles (some dev) refl

routed : select_profile_for_cwd resolver profiles (some dev) (some "/work/shop-web/src") ≡ some shop
unfolding select_profile_for_cwd text_leb claims matches_root starts_with
routed = refl
