-- ===== src/SharedPolicy/Boundaries.antt =====
-- Which upstreams may run in the shared worker, and with whose state.
use mcp_broker.Prelude.{
  String, ◌≡◌, refl, sym, ◌∙◌, ◌↔◌, Bool, true, false, not, ◌&&◌, if◌then◌else◌, Dict, arith, inl,
  inr, Bool-cases, strip, lstrip, rstrip, is_blank, lowers_to,
}
use mcp_broker.Prelude.Result.{ok, Result-cases}
use mcp_broker.Value.{Value}
use mcp_broker.SharedPolicy.{
  UpstreamClass, browser, file_access, local_secret, oauth, stateful, stateless, private_inventory,
  unknown, class_text, Boundary, shared_worker, local_edge, TenantContext, Affinity, tenant_scope,
  required_text, validate_tenant_context, normalize_upstream_class, decide_upstream_placement,
  decide_session_affinity, affinity_at, Reason, is_forbidden,
}

-- What makes a call fit for the shared worker.
pub record IsShareable (upstream_class : String) (allowlisted requires_local_state : Bool)
    : Type 0 where
  pub is_stateless : normalize_upstream_class upstream_class ≡ stateless
  pub is_allowlisted : allowlisted ≡ true
  pub needs_no_state : requires_local_state ≡ false

abbrev is_class_stateless : UpstreamClass → Bool
is_class_stateless stateless = true
is_class_stateless _ = false

reads_back :
    (c : UpstreamClass) → lowers_to (strip (class_text c)) "stateless" ≡ is_class_stateless c
unfolding strip lstrip rstrip is_blank lowers_to
reads_back browser = refl
reads_back file_access = refl
reads_back local_secret = refl
reads_back oauth = refl
reads_back stateful = refl
reads_back stateless = refl
reads_back private_inventory = refl
reads_back unknown = refl

placed :
    (c : UpstreamClass) (a r : Bool)
    → (decide_upstream_placement (class_text c) a r).execution_boundary
      ≡ (if is_class_stateless c && a && not r then shared_worker else local_edge)
unfolding decide_upstream_placement
placed c a r = rw (reads_back c) (ground arith)

all_three :
    (b a r : Bool)
    → (if b && a && not r then shared_worker else local_edge) ≡ shared_worker
    → (b ≡ true) × (a ≡ true) × (r ≡ false)
all_three false a r h = absurd (cc)
all_three true false r h = absurd (cc)
all_three true true true h = absurd (cc)
all_three true true false h = (refl, refl, refl)

stateless_of : (c : UpstreamClass) → is_class_stateless c ≡ true → c ≡ stateless
stateless_of stateless h = refl
stateless_of browser h = cc
stateless_of file_access h = cc
stateless_of local_secret h = cc
stateless_of oauth h = cc
stateless_of stateful h = cc
stateless_of private_inventory h = cc
stateless_of unknown h = cc

pub required_text_same : (value name s : String) → required_text value name ≡ ok s → s ≡ value
unfolding required_text
required_text_same value name s h = ground arith

-- What the answer says for a boundary: a shared place is bound to the checked context.
record IsPlaced (boundary : Boundary) (upstream_id : String) (tenant_context : Dict Value)
    (a : Affinity) : Type 0 where
  same : a.execution_boundary ≡ boundary
  scoped :
      boundary ≡ shared_worker
      → (t : TenantContext) × (validate_tenant_context tenant_context ≡ ok t)
        × (a.state_scope ≡ tenant_scope t upstream_id)

affinity_at-IsPlaced :
    (b : Boundary) (c : UpstreamClass) (why : Reason) (id : String) (tenant_context : Dict Value)
    (a : Affinity)
    → affinity_at b c why id tenant_context ≡ ok a
    → IsPlaced b id tenant_context a
affinity_at-IsPlaced local_edge c why id tenant_context a h = record {
  same = ground arith;
  scoped = λ e. absurd (cc);
}
affinity_at-IsPlaced shared_worker c why id tenant_context a h =
    elim (Result-cases (validate_tenant_context tenant_context)) [
      | inr (e, bad) ↦ absurd (cc (rw bad at h))
      | inl (t, good) ↦ record { same = ground arith; scoped = λ _. (t, good, ground arith) }
    ]

place_of : String → Bool → Bool → Boundary
place_of upstream_class allowlisted requires_local_state =
    (decide_upstream_placement (class_text (normalize_upstream_class upstream_class)) allowlisted
      requires_local_state).execution_boundary

affinity_inv :
    (upstream_class id : String) (allowlisted requires_local_state : Bool)
    (tenant_context : Dict Value) (a : Affinity)
    → decide_session_affinity upstream_class id allowlisted requires_local_state tenant_context
      ≡ ok a
    → IsPlaced (place_of upstream_class allowlisted requires_local_state) id tenant_context a
unfolding decide_session_affinity place_of
affinity_inv upstream_class id al rl tenant_context a h =
    elim (Bool-cases (is_forbidden (normalize_upstream_class upstream_class))) [
      | inl forbidden ↦ absurd (cc (rw forbidden at h))
      | inr fine ↦ elim (Result-cases (required_text id "upstream_id")) [
        | inr (e, bad) ↦ absurd (cc (rw (fine, bad) at h))
        | inl (id', good) ↦
            let same : id' ≡ id = required_text_same id _ id' good in
            rw (← same) (affinity_at-IsPlaced _ _ _ id' tenant_context a (rw (fine, good) at h))
      ]
    ]

-- The state of a call: that of the request's tenant, in a context that passed its checks.
pub record IsTenantBound (tenant_context : Dict Value) (upstream_id : String) (a : Affinity)
    : Type 0 where
  pub tenant : TenantContext
  pub checked : validate_tenant_context tenant_context ≡ ok tenant
  pub bound : a.state_scope ≡ tenant_scope tenant upstream_id

place_iff :
    (upstream_class : String) (allowlisted requires_local_state : Bool)
    → (place_of upstream_class allowlisted requires_local_state ≡ shared_worker)
      ↔ IsShareable upstream_class allowlisted requires_local_state
unfolding place_of
place_iff upstream_class al rl = (
  λ h.
      let (b, al', rl') =
        all_three _ al rl (sym (placed (normalize_upstream_class upstream_class) al rl) ∙ h) in
      record { is_stateless = stateless_of _ b; is_allowlisted = al'; needs_no_state = rl' },
  λ s.
      placed (normalize_upstream_class upstream_class) al rl
      ∙ rw (s.is_stateless, s.is_allowlisted, s.needs_no_state) refl,
)

-- An answer of `decide_session_affinity` names the shared worker exactly when the upstream class is
-- `stateless`, the upstream is allowlisted and no local state is needed; the state is then that of
-- the checked tenant context and of the upstream.
pub decide_session_affinity_iff :
    (upstream_class upstream_id : String) (allowlisted requires_local_state : Bool)
    (tenant_context : Dict Value) (a : Affinity)
    → decide_session_affinity upstream_class upstream_id allowlisted requires_local_state
        tenant_context
      ≡ ok a
    → ((a.execution_boundary ≡ shared_worker)
        ↔ IsShareable upstream_class allowlisted requires_local_state)
      × (a.execution_boundary ≡ shared_worker → IsTenantBound tenant_context upstream_id a)
decide_session_affinity_iff upstream_class id al rl tenant_context a h =
    let p = affinity_inv upstream_class id al rl tenant_context a h in
    let (to, from) = place_iff upstream_class al rl in
    (
      (λ e. to (sym p.same ∙ e), λ s. p.same ∙ from s),
      λ e.
          let (t, checked, bound) = p.scoped (sym p.same ∙ e) in
          record { tenant = t; checked = checked; bound = bound },
    )
