-- ===== src/Catalog/Status.antt =====
-- src/mcp_broker/catalog.py: `_status`, `_status_upstreams` and the functions around them.
use mcp_broker.Prelude.{
  String, Bool, true, false, not, ◌&&◌, ◌||◌, Option, none, some, List, [], ◌∷◌, Dict, is_empty,
  if◌then◌else◌, lookup, contains, is_in, any, nat_eq,
}
use mcp_broker.Value.{
  Value, ℤ, pos, negsuc, null, bool, int, float, str, list, dict, nil, cons, end, field, as_int,
  got,
}
use mcp_broker.Upstream.{UpstreamConfig, Mode, shared, per_session, per_call, disabled, is_off}
use mcp_broker.Profile.{ToolExposureProfile}
use mcp_broker.Catalog.Entries.{Texts, exposes_upstream}
use mcp_broker.Prelude.{◌==◌}

-- `if v`
abbrev pub truthy : Value → Bool
truthy null = false
truthy (bool b) = b
truthy (int (pos n)) = not (nat_eq n 0)
truthy (int (negsuc n)) = true
truthy (float s) = not (s == "0.0" || s == "-0.0")
truthy (str s) = not (is_empty s)
truthy (list nil) = false
truthy (list (cons v vs)) = true
truthy (dict end) = false
truthy (dict (field k v fs)) = true

-- `value in names`, an error for a value that has no hash
abbrev pub is_among : List String → Value → Option Bool
is_among names (str s) = some (contains names s)
is_among names (list vs) = none
is_among names (dict fs) = none
is_among names _ = some false

-- `_snapshot_int`; a `bool` stays one.
abbrev first_int : Option ℤ → Value → Value → Value
first_int none v rest = rest
first_int (some z) v rest = v

unfoldable pub snapshot_int : Dict Value → List String → Value
snapshot_int snapshot [] = int (pos 0)
snapshot_int snapshot (key ∷ keys) =
    let v = got (lookup key snapshot) in first_int (as_int v) v (snapshot_int snapshot keys)

abbrev auth_markers : List String
auth_markers = "auth" ∷ "credential" ∷ "forbidden" ∷ "token" ∷ "unauthorized" ∷ "401" ∷ "403" ∷ []

unfoldable pub looks_like_auth_error : Texts → String → Bool
looks_like_auth_error t message = any (λ marker. is_in marker (t.lower message)) auth_markers

abbrev state_by_error : Texts → Value → Value
state_by_error t (str e) =
    if looks_like_auth_error t e then str "unauthenticated" else str "unknown"
state_by_error t _ = str "unknown"

abbrev auth_states : List String
auth_states = "authenticated" ∷ "unauthenticated" ∷ "unknown" ∷ []

abbrev known_or : Option Bool → Value → Value → Option Value
known_or none v rest = none
known_or (some true) v rest = some v
known_or (some false) v rest = some rest

-- `none` is the `TypeError` of a state that has no hash.
unfoldable pub auth_state : Texts → Dict Value → Option Value
unfolding looks_like_auth_error
auth_state t snapshot =
    let v = got (lookup "auth_state" snapshot) in
    known_or (is_among auth_states v) v (state_by_error t (got (lookup "last_error" snapshot)))

abbrev mode_name : Mode → String
mode_name shared = "shared"
mode_name per_session = "per_session"
mode_name per_call = "per_call"
mode_name disabled = "disabled"

abbrev or_default : Value → Option Value → Value
or_default d none = d
or_default d (some v) = v

-- `str(snapshot.get("auth_probe", "none"))`
abbrev as_text : Texts → Option Value → Value
as_text t none = str "none"
as_text t (some (str s)) = str s
as_text t (some v) = str (t.str_of v)

abbrev pub status_dict :
    Texts → Option ToolExposureProfile → String → UpstreamConfig → Dict Value → Value → Dict Value
status_dict t profile upstream_name u snapshot auth =
    ("enabled", bool u.enabled)
    ∷ ("auth_repair_attempts", snapshot_int snapshot ("auth_repair_attempts" ∷ []))
    ∷ ("auth_repair_failures", snapshot_int snapshot ("auth_repair_failures" ∷ []))
    ∷ ("auth_repair_successes", snapshot_int snapshot ("auth_repair_successes" ∷ []))
    ∷ ("auth_probe", as_text t (lookup "auth_probe" snapshot))
    ∷ ("auth_state", auth)
    ∷ ("exposed", bool (exposes_upstream profile upstream_name u))
    ∷ ("last_error", got (lookup "last_error" snapshot))
    ∷ ("mode", str (mode_name u.mode))
    ∷ ("mutating", bool u.mutating)
    ∷ ("pid", got (lookup "pid" snapshot))
    ∷ ("restarts", got (lookup "restarts" snapshot))
    ∷ ("session_count", snapshot_int snapshot ("session_count" ∷ "sessions" ∷ []))
    ∷ ("active_call_count", snapshot_int snapshot ("active_call_count" ∷ []))
    ∷ (
      "state",
      or_default (str (if is_off u then "disabled" else "configured")) (lookup "state" snapshot),
    )
    ∷ ("transport", str u.transport)
    ∷ []

abbrev pub with_auth : (Value → Dict Value) → Option Value → Option (Dict Value)
with_auth status none = none
with_auth status (some auth) = some (status auth)

-- What `_status_upstreams` says of one upstream.
unfoldable pub upstream_status :
    Texts → Option ToolExposureProfile → String → UpstreamConfig → Dict Value → Option (Dict Value)
unfolding auth_state snapshot_int
upstream_status t profile upstream_name u snapshot =
    with_auth (status_dict t profile upstream_name u snapshot) (auth_state t snapshot)

abbrev pub or_no_snapshot : Option (Dict Value) → Dict Value
or_no_snapshot none = []
or_no_snapshot (some snapshot) = snapshot

abbrev pub add_status :
    String → Option (Dict Value) → Option (Dict (Dict Value)) → Option (Dict (Dict Value))
add_status name (some status) (some rest) = some ((name, status) ∷ rest)
add_status name _ _ = none

unfoldable pub status_upstreams :
    Texts
    → Option ToolExposureProfile
    → Dict (Dict Value)
    → Dict UpstreamConfig
    → Option (Dict (Dict Value))
unfolding upstream_status exposes_upstream
status_upstreams t profile health [] = some []
status_upstreams t profile health ((name, u) ∷ rest) =
    let others = status_upstreams t profile health rest in
    if not (exposes_upstream profile name u) && not (is_off u)
    then others
    else add_status name (upstream_status t profile name u (or_no_snapshot (lookup name health)))
        others

abbrev pub fallen_states : List String
fallen_states = "exited" ∷ "failed" ∷ "backoff" ∷ []

abbrev pub degraded_or : Option Bool → Option String → Option String
degraded_or none rest = none
degraded_or (some true) rest = some "degraded"
degraded_or (some false) rest = rest

unfoldable pub broker_status : Dict (Dict Value) → Option String
broker_status [] = some "ok"
broker_status ((name, status) ∷ rest) =
    let others = broker_status rest in
    if truthy (got (lookup "last_error" status))
    then some "degraded"
    else degraded_or (is_among fallen_states (got (lookup "state" status))) others
