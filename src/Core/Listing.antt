-- ===== src/Core/Listing.antt =====
-- What `list_tools` answers under a profile's budget.
use mcp_broker.Prelude.{
  ℕ, String, ◌++ₛ◌, ◌≡◌, true, false, ◌⊎◌, inl, inr, some, List, Dict, arith, is_in, is_in_middle,
}
use text.Mathlib.TextLemmas.{append_assoc}
use mcp_broker.Prelude.Result.{ok, err, Result-cases}
use mcp_broker.Profile.{ToolExposureProfile}
use mcp_broker.Namespace.{
  over_budget, duplicate_tool, message, Tool, Router, advertise_all_tools, compact_broker_tools,
}
use mcp_broker.Namespace.RoundTrip.{new_router-IsBuilt}
use mcp_broker.Namespace.Budget.{IsOffer, advertise_all_tools-IsOffer}
use mcp_broker.Core.Defs.{BrokerCore, router_of, list_tools, can_compact_after_budget_error}

budget_named :
    (p : String) (count most : ℕ)
    → is_in "exceeds tool budget" (message (over_budget p count most)) ≡ true
unfolding message
budget_named p count most = is_in_middle _ "exceeds tool budget" _

duplicate_named :
    (front back : String)
    → is_in "exceeds tool budget"
        (message (duplicate_tool (front ++ₛ ("exceeds tool budget" ++ₛ back))))
      ≡ true
unfolding message
duplicate_named front back =
    rw (← append_assoc "duplicate advertised tool: " front ("exceeds tool budget" ++ₛ back))
      (is_in_middle _ "exceeds tool budget" back)

-- Under a profile with compact tools, a list of upstream tools that is over the profile's budget is
-- answered by the broker's own compact tools, in place of an error.
pub list_tools-over_budget :
    (c : BrokerCore) (p : ToolExposureProfile) (r : Router) (upstream_tools : Dict (List Tool))
    (name : String) (count most : ℕ)
    → c.profile ≡ some p
    → p.compact_tools_enabled ≡ true
    → router_of c ≡ ok r
    → advertise_all_tools r upstream_tools ≡ err (over_budget name count most)
    → list_tools c upstream_tools ≡ ok (compact_broker_tools r)
unfolding list_tools can_compact_after_budget_error
list_tools-over_budget c p r upstream_tools name count most who compact built over =
    rw (built, over, who, compact, budget_named name count most)

-- A profile without compact tools gets the error of the router itself.
pub list_tools-no_compact :
    (c : BrokerCore) (p : ToolExposureProfile) (r : Router) (upstream_tools : Dict (List Tool))
    → c.profile ≡ some p
    → p.compact_tools_enabled ≡ false
    → router_of c ≡ ok r
    → list_tools c upstream_tools ≡ advertise_all_tools r upstream_tools
unfolding list_tools can_compact_after_budget_error
list_tools-no_compact c p r upstream_tools who plain built =
    elim (Result-cases (advertise_all_tools r upstream_tools)) [
      | inl (tools, passed) ↦ rw (built, passed)
      | inr (e, failed) ↦ rw (built, failed, who, plain)
    ]

-- What `list_tools` returns is an offer within the profile's budget with distinct names, or the
-- broker's own compact tools.
pub list_tools_sound :
    (c : BrokerCore) (upstream_tools : Dict (List Tool)) (tools : List Tool)
    → list_tools c upstream_tools ≡ ok tools
    → IsOffer c.profile tools
      ⊎ ((r : Router) × (router_of c ≡ ok r) × (tools ≡ compact_broker_tools r))
unfolding list_tools
list_tools_sound c upstream_tools tools h = elim (Result-cases (router_of c)) [
  | inr (e, failed) ↦ ground arith
  | inl (r, built) ↦ elim (Result-cases (advertise_all_tools r upstream_tools)) [
    | inl (all, passed) ↦ inl (
        rw (← (new_router-IsBuilt c.settings c.upstreams c.profile built).same_profile)
          (advertise_all_tools-IsOffer r upstream_tools tools (ground arith)))
    | inr (e, failed) ↦ inr (r, built, ground arith)
  ]
]

-- The text of the error decides: a duplicate tool whose advertised name contains the words
-- "exceeds tool budget" is answered by the compact tools too, and its error is lost.
pub list_tools-duplicate_swallowed :
    (c : BrokerCore) (p : ToolExposureProfile) (r : Router) (upstream_tools : Dict (List Tool))
    (front back : String)
    → c.profile ≡ some p
    → p.compact_tools_enabled ≡ true
    → router_of c ≡ ok r
    → advertise_all_tools r upstream_tools
      ≡ err (duplicate_tool (front ++ₛ ("exceeds tool budget" ++ₛ back)))
    → list_tools c upstream_tools ≡ ok (compact_broker_tools r)
unfolding list_tools can_compact_after_budget_error
list_tools-duplicate_swallowed c p r upstream_tools front back who compact built twice =
    rw (built, twice, who, compact, duplicate_named front back)
