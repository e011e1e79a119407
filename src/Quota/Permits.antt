-- ===== src/Quota/Permits.antt =====
-- When the quota policy allows a call, said without the order in which the policy looks.
use mcp_broker.Prelude.{
  ◌<◌, String, ◌≡◌, refl, sym, ap, ◌∙◌, ◌↔◌, true, false, Option, none, some, List, [], ◌∷◌, Dict,
  lookup, All, arith, Bool-cases, Option-cases, inl, inr,
}
use mcp_broker.Prelude.Result.{ok, Result-cases}
use mcp_broker.Value.{Value, as_dict, as_list, is_true, got}
use mcp_broker.Quota.Defs.{
  Scope, RequestScope, Denial, ScopedSwitch, scoped_switches, lists, switches_denial,
  kill_switch_denial, limit_checks, limit_count, used_count, limits_denial, limit_denial,
  first_denial, or_else, Decision, decide_quota, request_scope, decision_of,
}

-- The list of switched-off names of one scope is there and does not hold the request's name.
pub record IsOn (switches : Dict Value) (s : ScopedSwitch) : Type 0 where
  pub names : List Value
  pub is_list : as_list (got (lookup s.1 switches)) ≡ some names
  pub unlisted : lists names s.2 ≡ false

-- There is a record of the quota, and its use is below its limit.
pub record HasRoom (s : Scope × Option (Dict Value)) : Type 0 where
  pub quota : Dict Value
  pub is_there : s.1 ≡ some quota
  pub room : used_count quota < limit_count quota

pub record Permits (snapshot : Dict Value) (r : RequestScope) : Type 0 where
  pub switches : Dict Value
  pub has_switches : as_dict (got (lookup "kill_switches" snapshot)) ≡ some switches
  pub global_on : is_true (got (lookup "global" switches)) ≡ false
  pub scopes_on : All (IsOn switches) (scoped_switches r)
  pub limits : Dict Value
  pub has_limits : as_dict (got (lookup "limits" snapshot)) ≡ some limits
  pub rooms : All HasRoom (limit_checks limits r)

switches_sound :
    (switches : Dict Value) (ss : List ScopedSwitch)
    → switches_denial switches ss ≡ none
    → All (IsOn switches) ss
unfolding switches_denial
switches_sound switches [] h = tt
switches_sound switches ((s, name, k) ∷ rest) h =
    elim (Option-cases (as_list (got (lookup name switches)))) [
      | inl missing ↦ ground arith
      | inr (names, listed) ↦ elim (Bool-cases (lists names k)) [
        | inl off ↦ ground arith
        | inr on ↦ (
          record { names = names; is_list = listed; unlisted = on },
          switches_sound switches rest (rw (listed, on) at h),
        )
      ]
    ]

switches_complete :
    (switches : Dict Value) (ss : List ScopedSwitch)
    → All (IsOn switches) ss
    → switches_denial switches ss ≡ none
unfolding switches_denial
switches_complete switches [] h = refl
switches_complete switches ((s, name, k) ∷ rest) (on, later) =
    rw (on.is_list, on.unlisted) (switches_complete switches rest later)

limits_sound :
    (checks : List (Scope × Option (Dict Value))) → limits_denial checks ≡ none → All HasRoom checks
unfolding limits_denial
limits_sound [] h = tt
limits_sound ((s, none) ∷ rest) h = cc
limits_sound ((s, some q) ∷ rest) h =
    (record { quota = q; is_there = refl; room = ground arith }, limits_sound rest (ground arith))

limits_complete :
    (checks : List (Scope × Option (Dict Value))) → All HasRoom checks → limits_denial checks ≡ none
unfolding limits_denial
limits_complete [] h = refl
limits_complete ((s, q) ∷ rest) (room, later) =
    rw (room.is_there) (ground (arith, limits_complete rest later, room.room))

or_else-none : (a b : Option Denial) → or_else a b ≡ none → (a ≡ none) × (b ≡ none)
or_else-none none b h = (refl, h)
or_else-none (some d) b h = cc

kill_switch_sound :
    (snapshot : Dict Value) (r : RequestScope)
    → kill_switch_denial snapshot r ≡ none
    → (switches : Dict Value) × (as_dict (got (lookup "kill_switches" snapshot)) ≡ some switches)
      × (is_true (got (lookup "global" switches)) ≡ false)
      × All (IsOn switches) (scoped_switches r)
unfolding kill_switch_denial
kill_switch_sound snapshot r h =
    elim (Option-cases (as_dict (got (lookup "kill_switches" snapshot)))) [
      | inl missing ↦ ground arith
      | inr (switches, found) ↦ elim (Bool-cases (is_true (got (lookup "global" switches)))) [
        | inl off ↦ ground arith
        | inr on ↦ (switches, found, on, switches_sound switches _ (rw (found, on) at h))
      ]
    ]

limit_sound :
    (snapshot : Dict Value) (r : RequestScope)
    → limit_denial snapshot r ≡ none
    → (limits : Dict Value) × (as_dict (got (lookup "limits" snapshot)) ≡ some limits)
      × All HasRoom (limit_checks limits r)
unfolding limit_denial
limit_sound snapshot r h = elim (Option-cases (as_dict (got (lookup "limits" snapshot)))) [
  | inl missing ↦ ground arith
  | inr (limits, found) ↦ (limits, found, limits_sound _ (rw found at h))
]

-- The policy finds no denial exactly when the snapshot permits the request: the kill switches are
-- there and none is set for it, and each of the five quotas is there and has room.
pub first_denial_iff :
    (snapshot : Dict Value) (r : RequestScope)
    → (first_denial snapshot r ≡ none) ↔ Permits snapshot r
unfolding first_denial
first_denial_iff snapshot r = (sound, complete)
  where
    sound :
        or_else (kill_switch_denial snapshot r) (limit_denial snapshot r) ≡ none
        → Permits snapshot r
    sound h =
        let (no_switch, no_limit) = or_else-none _ _ h in
        let (switches, has_switches, global_on, scopes_on) =
          kill_switch_sound snapshot r no_switch in
        let (limits, has_limits, rooms) = limit_sound snapshot r no_limit in
        record {
          switches = switches;
          has_switches = has_switches;
          global_on = global_on;
          scopes_on = scopes_on;
          limits = limits;
          has_limits = has_limits;
          rooms = rooms;
        }

    complete :
        Permits snapshot r
        → or_else (kill_switch_denial snapshot r) (limit_denial snapshot r) ≡ none
    complete p =
        unfold kill_switch_denial limit_denial in
        rw (
          p.has_switches,
          p.global_on,
          switches_complete p.switches _ p.scopes_on,
          p.has_limits,
          limits_complete _ p.rooms,
        )

decided_none :
    (r : RequestScope) (o : Option Denial) → ((decision_of r o).allowed ≡ true) ↔ (o ≡ none)
decided_none r none = (λ _. refl, λ _. refl)
decided_none r (some d) = (λ h. cc, λ h. cc)

decided_request : (r : RequestScope) (o : Option Denial) → (decision_of r o).audit_event.request ≡ r
decided_request r none = refl
decided_request r (some d) = refl

-- A decision that `decide_quota` returns allows the call exactly when the snapshot permits the
-- request that the decision's audit event records, and that request is the one that the arguments
-- give.
pub decide_quota_iff :
    (tenant_context : Dict Value) (team_id upstream_id tool_name : String) (snapshot : Dict Value)
    (d : Decision)
    → decide_quota tenant_context team_id upstream_id tool_name snapshot ≡ ok d
    → (request_scope tenant_context team_id upstream_id tool_name ≡ ok d.audit_event.request)
      × ((d.allowed ≡ true) ↔ Permits snapshot d.audit_event.request)
unfolding decide_quota
decide_quota_iff tenant_context team_id upstream_id tool_name snapshot d h =
    elim (Result-cases (request_scope tenant_context team_id upstream_id tool_name)) [
      | inr (e, failed) ↦ absurd (cc (rw failed at h))
      | inl (r, passed) ↦
          let made : decision_of r (first_denial snapshot r) ≡ d = cc (rw passed at h) in
          let same : r ≡ d.audit_event.request =
            sym (decided_request r _) ∙ ap (λ (x : Decision). x.audit_event.request) made in
          (
            rw (← same) passed,
            rw (← same, ← made)
                (
                  λ a. (first_denial_iff snapshot r).0 ((decided_none r _).0 a),
                  λ p. (decided_none r _).1 ((first_denial_iff snapshot r).1 p),
                ),
          )
    ]
