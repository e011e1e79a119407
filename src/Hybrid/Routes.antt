-- ===== src/Hybrid/Routes.antt =====
-- Which calls leave the local edge.
use mcp_broker.Prelude.{
  String, ◌≡◌, refl, true, false, some, List, [], ◌∷◌, map, All, arith, inl, inr, Bool-cases,
  Option-cases, contains, any, ◌⊎◌, none,
}
use mcp_broker.Prelude.Result.{ok, err, Result-cases}
use mcp_broker.Value.{Value}
use mcp_broker.Upstream.{UpstreamConfig, is_shared}
use mcp_broker.Core.{
  ToolCaller, Event, BrokerToolError, tool_error, shared_routing_quota_invalid, resolve_call_route,
  call_tool,
}
use mcp_broker.SharedPolicy.{IdentifierError, identifier_message}
use mcp_broker.Quota.{Decision, decide_quota}
use mcp_broker.Worker.{WorkerCall}
use mcp_broker.Hybrid.Defs.{
  HybridToolRouter, HybridRoutingContext, FullContext, HybridEvent, at_edge, at_worker, core_of,
  full_context, shared_worker_tags, requires_local_state, should_try_shared_worker, worker_call,
  quota_of, ask_worker, call_hybrid_tool, at_the_edge, HybridRun, worker_outcome,
}

-- The upstreams that may leave the edge.
pub record FitsWorker (u : UpstreamConfig) : Type 0 where
  pub tagged_stateless : contains u.tags "stateless" ≡ true
  pub tagged_shared : any (contains u.tags) shared_worker_tags ≡ true
  pub is_mode_shared : is_shared u.mode ≡ true
  pub reads_only : u.mutating ≡ false
  pub stateless_here : requires_local_state u ≡ false

-- What a call of the shared worker rests on.
pub record IsSent (r : HybridToolRouter) (x : HybridRoutingContext) (name : String)
    (arguments : Value) (w : WorkerCall) : Type 0 where
  pub upstream : UpstreamConfig
  pub tool : String
  pub routed : resolve_call_route (core_of r) name ≡ ok (upstream, tool)
  pub fits : FitsWorker upstream
  pub context : FullContext
  pub given : full_context x ≡ some context
  pub decision : Decision
  pub decided :
      decide_quota context.tenant_context context.team_id upstream.name name context.quota_snapshot
      ≡ ok decision
  pub handed_over : w ≡ worker_call upstream name arguments context decision

abbrev pub IsLawful :
    HybridToolRouter → HybridRoutingContext → String → Value → HybridEvent → Type 0
IsLawful r x name arguments (at_edge e) = Unit
IsLawful r x name arguments (at_worker w) = IsSent r x name arguments w

edge-IsLawful :
    (r : HybridToolRouter) (x : HybridRoutingContext) (name : String) (arguments : Value)
    (events : List Event)
    → All (IsLawful r x name arguments) (map at_edge events)
edge-IsLawful r x name arguments [] = tt
edge-IsLawful r x name arguments (e ∷ es) = (tt, edge-IsLawful r x name arguments es)

fits_sound :
    (u : UpstreamConfig) (x : HybridRoutingContext)
    → should_try_shared_worker u x ≡ true
    → FitsWorker u
unfolding should_try_shared_worker
fits_sound u x h = record {
  tagged_stateless = ground arith;
  tagged_shared = ground arith;
  is_mode_shared = ground arith;
  reads_only = ground arith;
  stateless_here = ground arith;
}

full_sound :
    (u : UpstreamConfig) (x : HybridRoutingContext)
    → should_try_shared_worker u x ≡ true
    → (c : FullContext) × (full_context x ≡ some c)
unfolding should_try_shared_worker
full_sound u x h = elim (Option-cases (full_context x)) [
  | inl missing ↦ absurd (cc (rw missing at h))
  | inr (c, given) ↦ (c, given)
]

asked-IsLawful :
    (r : HybridToolRouter) (x : HybridRoutingContext) (name : String) (arguments : Value)
    (u : UpstreamConfig) (tool : String)
    → resolve_call_route (core_of r) name ≡ ok (u, tool)
    → should_try_shared_worker u x ≡ true
    → All
        (IsLawful r x name arguments)
        (ask_worker r u tool name arguments (quota_of (full_context x) u.name name)).0
asked-IsLawful r x name arguments u tool routed fit =
    let (c, given) = full_sound u x fit in
    elim (Result-cases (decide_quota c.tenant_context c.team_id u.name name c.quota_snapshot)) [
      | inr (e, bad) ↦ rw (given, bad) tt
      | inl (d, decided) ↦
          rw (given, decided)
            (
              record {
                upstream = u;
                tool = tool;
                routed = routed;
                fits = fits_sound u x fit;
                context = c;
                given = given;
                decision = d;
                decided = decided;
                handed_over = refl;
              },
              tt,
            )
    ]

-- The shared worker is called only for a call that `_resolve_call_route` lets through, of an
-- upstream that is tagged for it, in the mode `shared`, not mutating and without local state, and
-- only with the tenant, team and quota context of the request; it is handed the decision of
-- `decide_quota` for just that tenant, team, upstream and tool.
pub call_hybrid_tool-IsLawful :
    (r : HybridToolRouter) (x : HybridRoutingContext) (name : String) (arguments : Value)
    (edge_caller : ToolCaller)
    → All (IsLawful r x name arguments) (call_hybrid_tool r x name arguments edge_caller).0
unfolding call_hybrid_tool
call_hybrid_tool-IsLawful r x name arguments edge_caller =
    elim (Result-cases (resolve_call_route (core_of r) name)) [
      | inr (e, refused) ↦ rw refused tt
      | inl ((u, tool), routed) ↦ elim (Bool-cases (should_try_shared_worker u x)) [
        | inl fit ↦ rw (routed, fit) (asked-IsLawful r x name arguments u tool routed fit)
        | inr local ↦ rw (routed, local) (edge-IsLawful r x name arguments _)
      ]
    ]

fits_complete :
    (u : UpstreamConfig) (x : HybridRoutingContext) (c : FullContext)
    → FitsWorker u
    → full_context x ≡ some c
    → should_try_shared_worker u x ≡ true
unfolding should_try_shared_worker
fits_complete u x c f given =
    rw
      (given, f.stateless_here, f.tagged_stateless, f.tagged_shared, f.is_mode_shared, f.reads_only)
      refl

-- The upstream does not fit the worker, or a part of the context is missing.
abbrev pub IsLocal : UpstreamConfig → HybridRoutingContext → Type 0
IsLocal u x = ¬ FitsWorker u ⊎ (full_context x ≡ none)

misfit_sound :
    (u : UpstreamConfig) (x : HybridRoutingContext)
    → should_try_shared_worker u x ≡ false
    → IsLocal u x
misfit_sound u x h = elim (Option-cases (full_context x)) [
  | inl missing ↦ inr missing
  | inr (c, given) ↦ inl (λ f. absurd (cc (fits_complete u x c f given)))
]

-- What a call may do, and when.
pub data IsRouted (r : HybridToolRouter) (x : HybridRoutingContext) (name : String)
    (arguments : Value) (edge_caller : ToolCaller) : HybridRun → Type 0 where
  refused :
      (e : BrokerToolError)
      → resolve_call_route (core_of r) name ≡ err e
      → IsRouted r x name arguments edge_caller ([], err (tool_error e))
  asks_worker :
      (u : UpstreamConfig) (tool : String) (c : FullContext) (d : Decision)
      → resolve_call_route (core_of r) name ≡ ok (u, tool)
      → FitsWorker u
      → full_context x ≡ some c
      → decide_quota c.tenant_context c.team_id u.name name c.quota_snapshot ≡ ok d
      → IsRouted r x name arguments edge_caller (
        at_worker (worker_call u name arguments c d) ∷ [],
        worker_outcome u tool (r.shared_worker (worker_call u name arguments c d)),
      )
  bad_quota :
      (u : UpstreamConfig) (tool : String) (c : FullContext) (e : IdentifierError)
      → resolve_call_route (core_of r) name ≡ ok (u, tool)
      → FitsWorker u
      → full_context x ≡ some c
      → decide_quota c.tenant_context c.team_id u.name name c.quota_snapshot ≡ err e
      → IsRouted r x name arguments edge_caller (
        [],
        err (
            tool_error (record {
              code = shared_routing_quota_invalid;
              message = identifier_message e;
              upstream_name = some u.name;
              tool_name = some name;
            })),
      )
  stays :
      (u : UpstreamConfig) (tool : String)
      → resolve_call_route (core_of r) name ≡ ok (u, tool)
      → IsLocal u x
      → IsRouted r x name arguments edge_caller
          (at_the_edge (call_tool (core_of r) name arguments edge_caller))

asked-IsRouted :
    (r : HybridToolRouter) (x : HybridRoutingContext) (name : String) (arguments : Value)
    (edge_caller : ToolCaller) (u : UpstreamConfig) (tool : String)
    → resolve_call_route (core_of r) name ≡ ok (u, tool)
    → should_try_shared_worker u x ≡ true
    → IsRouted r x name arguments edge_caller
        (ask_worker r u tool name arguments (quota_of (full_context x) u.name name))
asked-IsRouted r x name arguments edge_caller u tool routed fit =
    let (c, given) = full_sound u x fit in
    let fits = fits_sound u x fit in
    elim (Result-cases (decide_quota c.tenant_context c.team_id u.name name c.quota_snapshot)) [
      | inr (e, bad) ↦ rw (given, bad) (bad_quota u tool c e routed fits given bad)
      | inl (d, decided) ↦ rw (given, decided) (asks_worker u tool c d routed fits given decided)
    ]

-- A call does one of four things. A name that `_resolve_call_route` refuses raises that error. A
-- call of an upstream that fits the worker, with the whole context, asks the worker once, with the
-- decision of `decide_quota`, and ends as the worker's reply says; where `decide_quota` raises, it
-- raises `shared_routing_quota_invalid` and asks nobody. A call of an upstream that does not fit the
-- worker, or without the whole context, does just what `BrokerCore.call_tool` does.
pub call_hybrid_tool-IsRouted :
    (r : HybridToolRouter) (x : HybridRoutingContext) (name : String) (arguments : Value)
    (edge_caller : ToolCaller)
    → IsRouted r x name arguments edge_caller (call_hybrid_tool r x name arguments edge_caller)
unfolding call_hybrid_tool
call_hybrid_tool-IsRouted r x name arguments edge_caller =
    elim (Result-cases (resolve_call_route (core_of r) name)) [
      | inr (e, no') ↦ rw no' (refused e no')
      | inl ((u, tool), routed) ↦ elim (Bool-cases (should_try_shared_worker u x)) [
        | inl fit ↦
            rw (routed, fit) (asked-IsRouted r x name arguments edge_caller u tool routed fit)
        | inr local ↦ rw (routed, local) (stays u tool routed (misfit_sound u x local))
      ]
    ]
