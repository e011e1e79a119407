-- ===== src/Tests/Bypasses.antt =====
-- A break-glass record at concrete times.
use mcp_broker.Prelude.{
  ℕ, String, refl, ◌==◌, if◌then◌else◌, none, some, [], ◌∷◌, strip, lstrip, rstrip, is_blank,
}
use mcp_broker.BreakGlass.{
  BreakGlassStore, Seed, Files, utc, create, required_text, policy_paths, parse_timestamp, store,
}
use mcp_broker.BreakGlass.Expiry.{IsActiveUntil, create-IsActiveUntil}

abbrev seconds : String → ℕ
seconds s = if s == "noon" then 12 else 13

abbrev clock : BreakGlassStore
clock = record { parse = λ s. some (utc (seconds s)); digest = λ seed. "break-glass-1" }

abbrev seed : Seed
seed = record {
  bypassed_policy_paths = "quota.tenant" ∷ [];
  created_at = "noon";
  expires_at = "one";
  operator = "ann";
  reason = "outage";
}

abbrev nothing : Files
nothing = record { records = []; active_pointer = none; audit = [] }

create-IsActiveUntil_example :
    IsActiveUntil clock (store clock seed nothing).0 (store clock seed nothing).1 "one" "noon"
unfolding create required_text policy_paths parse_timestamp strip lstrip rstrip is_blank
create-IsActiveUntil_example =
    create-IsActiveUntil clock "outage" " ann " "one" ("quota.tenant " ∷ []) "noon" nothing
      (store clock seed nothing).0 (store clock seed nothing).1 refl
