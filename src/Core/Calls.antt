-- ===== src/Core/Calls.antt =====
-- What a tool call does: the lock around it, the timeout that it passes, and its errors.
use mcp_broker.Prelude.{
  String, ◌≡◌, ◌≢◌, refl, inl, inr, none, some, List, [], ◌∷◌, Dict, lookup, arith, Option-cases,
  if◌then◌else◌,
}
use mcp_broker.Prelude.Result.{ok, err, Result-cases}
use mcp_broker.Value.{Value, as_dict, as_list, got}
use mcp_broker.Upstream.{UpstreamConfig, call_timeout_for_tool}
use mcp_broker.Core.Defs.{
  BrokerCore, BrokerToolError, Event, lock, unlock, call, ToolCaller, Reply, answered, timed_out,
  crashed, tool_not_found, failed, resolve_call_route, call_tool, call_resolved_tool,
  validate_tool_response,
}

-- The events of a call that is let through: one call of the upstream with the configured timeout,
-- between the taking and the letting go of the upstream's lock if its calls are serialised.
abbrev pub expected_events : UpstreamConfig → String → Value → List Event
expected_events u tool arguments =
    if u.serialize_calls
    then lock u.name
      ∷ call u.name tool arguments (call_timeout_for_tool u tool)
      ∷ unlock u.name
      ∷ []
    else call u.name tool arguments (call_timeout_for_tool u tool) ∷ []

-- A call that is let through makes exactly these events, whatever the upstream answers: also when it
-- times out or crashes the lock is let go.
pub call_tool-events :
    (c : BrokerCore) (name : String) (arguments : Value) (d : Dict Value) (caller : ToolCaller)
    (u : UpstreamConfig) (tool : String)
    → as_dict arguments ≡ some d
    → resolve_call_route c name ≡ ok (u, tool)
    → (call_tool c name arguments caller).0 ≡ expected_events u tool arguments
unfolding call_tool
call_tool-events c name arguments d caller u tool object routed = rw (object, routed) (ground arith)

-- A call that is refused, for its arguments or its name, reaches no upstream and takes no lock.
pub call_tool-refused :
    (c : BrokerCore) (name : String) (arguments : Value) (caller : ToolCaller) (e : BrokerToolError)
    → resolve_call_route c name ≡ err e
    → (call_tool c name arguments caller).0 ≡ []
unfolding call_tool
call_tool-refused c name arguments caller e refused = ground arith

-- A response that passes the check of its form.
pub record IsResponse (response : Value) : Type 0 where
  pub object : Dict Value
  pub is_object : as_dict response ≡ some object
  pub content : List Value
  pub is_list : as_list (got (lookup "content" object)) ≡ some content

pub validate_sound :
    (name : String) (given response : Value)
    → validate_tool_response name given ≡ ok response
    → (given ≡ response) × IsResponse response
unfolding validate_tool_response
validate_sound name given response h = elim (Option-cases (as_dict given)) [
  | inl other ↦ ground arith
  | inr (d, object) ↦ elim (Option-cases (as_list (got (lookup "content" d)))) [
    | inl missing ↦ ground arith
    | inr (content, listed) ↦
        let same : given ≡ response = cc (rw (object, listed) at h) in
        (
          same,
          record {
            object = d;
            is_object = rw (← same) object;
            content = content;
            is_list = listed;
          },
        )
  ]
]

-- What a successful call has done.
pub record Answered (c : BrokerCore) (name : String) (arguments : Value) (caller : ToolCaller)
    (response : Value) : Type 0 where
  pub upstream : UpstreamConfig
  pub tool : String
  pub routed : resolve_call_route c name ≡ ok (upstream, tool)
  pub replied :
      caller upstream.name tool arguments (call_timeout_for_tool upstream tool) ≡ answered response
  pub valid : IsResponse response

resolved_sound :
    (u : UpstreamConfig) (tool : String) (arguments : Value) (caller : ToolCaller)
    (response : Value) (reply : Reply)
    → caller u.name tool arguments (call_timeout_for_tool u tool) ≡ reply
    → (call_resolved_tool u tool arguments caller).1 ≡ ok response
    → (caller u.name tool arguments (call_timeout_for_tool u tool) ≡ answered response)
      × IsResponse response
unfolding call_resolved_tool
resolved_sound u tool arguments caller response (answered given) e h =
    let (same, valid) = validate_sound u.name given response (rw e at h) in (rw (← same) e, valid)
resolved_sound u tool arguments caller response timed_out e h = absurd (cc (rw e at h))
resolved_sound u tool arguments caller response crashed e h = absurd (cc (rw e at h))
resolved_sound u tool arguments caller response tool_not_found e h = absurd (cc (rw e at h))
resolved_sound u tool arguments caller response (failed text) e h = absurd (cc (rw e at h))

run_of_route :
    (c : BrokerCore) (name : String) (arguments : Value) (d : Dict Value) (caller : ToolCaller)
    (u : UpstreamConfig) (tool : String)
    → as_dict arguments ≡ some d
    → resolve_call_route c name ≡ ok (u, tool)
    → (call_tool c name arguments caller).1 ≡ (call_resolved_tool u tool arguments caller).1
unfolding call_tool
run_of_route c name arguments d caller u tool object routed = rw (object, routed) (ground arith)

refused_fails :
    (c : BrokerCore) (name : String) (arguments : Value) (caller : ToolCaller) (response : Value)
    (e : BrokerToolError)
    → resolve_call_route c name ≡ err e
    → (call_tool c name arguments caller).1 ≢ ok response
unfolding call_tool
refused_fails c name arguments caller response e refused h = ground arith

no_object_fails :
    (c : BrokerCore) (name : String) (arguments : Value) (caller : ToolCaller) (response : Value)
    → as_dict arguments ≡ none
    → (call_tool c name arguments caller).1 ≢ ok response
unfolding call_tool
no_object_fails c name arguments caller response other h = ground arith

-- A call succeeds only with the upstream's own answer to a call, with the given arguments and the
-- tool's timeout, of the tool that the name stands for, and that answer is an object whose `content` is a list.
pub call_tool_sound :
    (c : BrokerCore) (name : String) (arguments : Value) (caller : ToolCaller) (response : Value)
    → (call_tool c name arguments caller).1 ≡ ok response
    → Answered c name arguments caller response
call_tool_sound c name arguments caller response h =
    elim (Result-cases (resolve_call_route c name)) [
      | inr (e, refused) ↦ absurd (refused_fails c name arguments caller response e refused h)
      | inl ((u, tool), routed) ↦ elim (Option-cases (as_dict arguments)) [
        | inl other ↦ absurd (no_object_fails c name arguments caller response other h)
        | inr (d, object) ↦
            let (replied, valid) =
              resolved_sound u tool arguments caller response _ refl
                (rw (run_of_route c name arguments d caller u tool object routed) at h) in
            record { upstream = u; tool = tool; routed = routed; replied = replied; valid = valid }
      ]
    ]
