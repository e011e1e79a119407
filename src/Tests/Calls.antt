-- ===== src/Tests/Calls.antt =====
-- Names, listings and calls of the sample configuration.
use mcp_broker.Prelude.{◌≡◌, refl, map, some, [], ◌∷◌, inl, List, split_once}
use mcp_broker.Prelude.Result.{ok, err}
use mcp_broker.Upstream.{is_off, prefix_of}
use mcp_broker.Namespace.{
  Tool, tool_name, new_router, build_prefix_index, advertise_tools, advertise_all_tools,
  resolve_tool_name, duplicate_tool,
}
use mcp_broker.Namespace.Budget.{advertise_all_tools-IsOffer, IsOffer}
use mcp_broker.Core.{
  answered, resolve_call_route, call_tool, router_of, allowed_call_route, find_prefix,
  BrokerToolError, ToolCaller,
}
use mcp_broker.Core.Routes.{
  IsRoute, resolve_call_route_sound, call-advertise_tools, shadowed_call, IsHiddenError,
}
use mcp_broker.Core.Calls.{call_tool_sound, Answered}
use mcp_broker.Tests.Samples.{
  github, old_github, dev, core, shadowed_core, router, shadowed_router, clone, advertised_clone,
  no_arguments, response, tool_named,
}

core-router : router_of core ≡ ok router
unfolding new_router build_prefix_index is_off prefix_of
core-router = refl

advertised : advertise_tools router "github" clone ≡ ok advertised_clone
unfolding advertise_tools is_off prefix_of
advertised = refl

all_advertised : advertise_all_tools router (("github", clone) ∷ []) ≡ ok advertised_clone
unfolding advertise_all_tools is_off prefix_of
all_advertised = refl

advertise_all_tools-IsOffer_example : IsOffer (some dev) advertised_clone
advertise_all_tools-IsOffer_example =
    advertise_all_tools-IsOffer router (("github", clone) ∷ []) advertised_clone all_advertised

clone_route : resolve_call_route core "gh__clone" ≡ ok (github, "clone")
unfolding resolve_call_route allowed_call_route find_prefix prefix_of is_off split_once
clone_route = refl

resolve_call_route_sound_example : IsRoute core "gh__clone" github "clone"
resolve_call_route_sound_example =
    resolve_call_route_sound core "gh__clone" github "clone" clone_route

call-advertise_tools_example :
    map (λ t. resolve_call_route core (tool_name t)) advertised_clone
    ≡ map (λ t. ok (github, tool_name t)) clone
unfolding find_prefix prefix_of split_once
call-advertise_tools_example =
    call-advertise_tools core router "github" github clone advertised_clone core-router advertised
      refl refl refl

shadowed_call_example :
    (resolve_tool_name shadowed_router "gh__clone"
      ≡ ok (record { upstream_name = "github"; upstream_tool_name = "clone" }))
    × ((e : BrokerToolError) × (resolve_call_route shadowed_core "gh__clone" ≡ err e)
        × IsHiddenError e)
unfolding new_router build_prefix_index find_prefix prefix_of is_off split_once
shadowed_call_example =
    shadowed_call shadowed_core shadowed_router "github" github old_github "clone" refl refl
      (record { on = refl; exposed = refl }) refl (inl refl) refl refl

answer : ToolCaller
answer name tool arguments timeout = answered response

call_tool_sound_example : Answered core "gh__clone" no_arguments answer response
unfolding call_tool resolve_call_route allowed_call_route find_prefix prefix_of is_off split_once
    answer
call_tool_sound_example = call_tool_sound core "gh__clone" no_arguments answer response refl

abbrev twice : List Tool
twice = tool_named "exceeds tool budget" ∷ tool_named "exceeds tool budget" ∷ []

twice_refused :
    advertise_all_tools router (("github", twice) ∷ [])
    ≡ err (duplicate_tool "gh__exceeds tool budget")
unfolding advertise_all_tools is_off prefix_of
twice_refused = refl
