-- ===== src/SharedPolicy.antt =====
-- src/mcp_broker/shared_runtime_policy.py and src/mcp_broker/session_affinity.py: who may run where.
pub mod Boundaries
use mcp_broker.Prelude.{
  String, ◌++ₛ◌, Bool, true, false, not, ◌&&◌, ◌||◌, Option, none, some, List, [], ◌∷◌, Dict,
  if◌then◌else◌, lookup, is_blank, has_char, strip, lowers_to,
}
use mcp_broker.Prelude.Result.{Result, ok, err, ◌>>=◌}
use mcp_broker.Value.{Value, as_str, got}

-- The messages of the errors, by the field that they name.
pub data IdentifierError : Type 0 where
  is_required has_separators : String → IdentifierError

-- `str(exc)`
unfoldable pub identifier_message : IdentifierError → String
identifier_message (is_required name) = name ++ₛ " is required"
identifier_message (has_separators name) = name ++ₛ " must not contain path separators"

-- `if "/" in value or "\\" in value`
abbrev checked : String → String → Result IdentifierError String
checked name value =
    if is_blank value
    then err (is_required name)
    else if has_char b'/' value || has_char 92 value
    then err (has_separators name)
    else ok value

-- `_required_identifier(value, field)` of the modules that are given a text
unfoldable pub required_text : String → String → Result IdentifierError String
required_text value name = checked name value

abbrev of_value : String → Option String → Result IdentifierError String
of_value name none = err (is_required name)
of_value name (some value) = checked name value

-- `_required_identifier(context, field)`
unfoldable pub required_identifier : Dict Value → String → Result IdentifierError String
required_identifier context name = of_value name (as_str (got (lookup name context)))

pub record TenantContext : Type 0 where
  pub tenant_id : String
  pub workspace_id : String
  pub user_id : String

unfoldable pub validate_tenant_context : Dict Value → Result IdentifierError TenantContext
validate_tenant_context context = do
  tenant ← required_identifier context "tenant_id"
  workspace ← required_identifier context "workspace_id"
  user ← required_identifier context "user_id"
  ok (record { tenant_id = tenant; workspace_id = workspace; user_id = user })

pub data Boundary : Type 0 where
  local_edge shared_worker : Boundary

pub data Reason : Type 0 where
  allowlisted_stateless_upstream local_state_or_unapproved_upstream_class : Reason

pub record Placement : Type 0 where
  pub execution_boundary : Boundary
  pub shared_worker_eligible : Bool
  pub reason : Reason

unfoldable pub decide_upstream_placement : String → Bool → Bool → Placement
decide_upstream_placement upstream_class allowlisted requires_local_state =
    if lowers_to (strip upstream_class) "stateless" && allowlisted && not requires_local_state
    then record {
      execution_boundary = shared_worker;
      shared_worker_eligible = true;
      reason = allowlisted_stateless_upstream;
    }
    else record {
      execution_boundary = local_edge;
      shared_worker_eligible = false;
      reason = local_state_or_unapproved_upstream_class;
    }

-- The texts that `_normalize_upstream_class` returns.
pub data UpstreamClass : Type 0 where
  browser file_access local_secret oauth stateful stateless private_inventory unknown :
      UpstreamClass

abbrev pub class_text : UpstreamClass → String
class_text browser = "browser"
class_text file_access = "file_access"
class_text local_secret = "local_secret"
class_text oauth = "oauth"
class_text stateful = "stateful"
class_text stateless = "stateless"
class_text private_inventory = "private_inventory"
class_text unknown = "unknown"

abbrev find_class : List UpstreamClass → String → UpstreamClass
find_class [] s = unknown
find_class (c ∷ cs) s = if lowers_to s (class_text c) then c else find_class cs s

unfoldable pub normalize_upstream_class : String → UpstreamClass
normalize_upstream_class s =
    find_class
      (browser ∷ file_access ∷ local_secret ∷ oauth ∷ stateful ∷ stateless ∷ private_inventory ∷ [])
      (strip s)

abbrev pub is_forbidden : UpstreamClass → Bool
is_forbidden private_inventory = true
is_forbidden _ = false

pub data StateScope : Type 0 where
  tenant_scope : TenantContext → String → StateScope
  client_scope : String → StateScope

-- The keys `session_affinity` and `state_binding` of the answer hold one text for each boundary.
pub record Affinity : Type 0 where
  pub upstream_class : UpstreamClass
  pub execution_boundary : Boundary
  pub shared_worker_eligible : Bool
  pub reason : Reason
  pub state_scope : StateScope

pub data AffinityError : Type 0 where
  forbidden_class : AffinityError
  bad_identifier : IdentifierError → AffinityError

abbrev lift : {A : Type 0} → Result IdentifierError A → Result AffinityError A
lift (ok a) = ok a
lift (err e) = err (bad_identifier e)

abbrev pub affinity_at :
    Boundary → UpstreamClass → Reason → String → Dict Value → Result AffinityError Affinity
affinity_at shared_worker c why upstream_id tenant_context = do
  context ← lift (validate_tenant_context tenant_context)
  ok (record {
    upstream_class = c;
    execution_boundary = shared_worker;
    shared_worker_eligible = true;
    reason = why;
    state_scope = tenant_scope context upstream_id;
  })
affinity_at local_edge c why upstream_id tenant_context = ok (record {
  upstream_class = c;
  execution_boundary = local_edge;
  shared_worker_eligible = false;
  reason = why;
  state_scope = client_scope upstream_id;
})

unfoldable pub decide_session_affinity :
    String → String → Bool → Bool → Dict Value → Result AffinityError Affinity
decide_session_affinity upstream_class upstream_id allowlisted requires_local_state tenant_context =
    let c = normalize_upstream_class upstream_class in
    let p = decide_upstream_placement (class_text c) allowlisted requires_local_state in
    if is_forbidden c then err forbidden_class else do
      id ← lift (required_text upstream_id "upstream_id")
      affinity_at p.execution_boundary c p.reason id tenant_context
