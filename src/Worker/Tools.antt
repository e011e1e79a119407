-- ===== src/Worker/Tools.antt =====
-- src/mcp_broker/shared_worker.py: the tools of the worker, their checks and their runs.
use mcp_broker.Prelude.{
  String, Bool, false, ◌&&◌, Option, none, some, List, [], ◌∷◌, Dict, ◌==◌, if◌then◌else◌, lookup,
  has_char, contains,
}
use mcp_broker.Prelude.Result.{Result, ok, err, ◌>>=◌}
use mcp_broker.Value.{
  Value, Items, Fields, bool, str, list, dict, nil, cons, end, field, as_dict, as_str, got,
}
use mcp_broker.SharedPolicy.{
  IdentifierError, identifier_message, AffinityError, forbidden_class, bad_identifier,
  required_text,
}

pub record SharedWorkerTool : Type 0 where
  pub upstream_id : String
  pub name : String
  pub behavior : String

-- The `SharedWorkerError`s, and the `AttributeError` of `arguments.get`.
pub data WorkerError : Type 0 where
  bad_request : IdentifierError → WorkerError
  no_upstream_prefix : WorkerError
  unsupported_behavior : WorkerError
  bad_affinity : AffinityError → WorkerError
  no_mapping : WorkerError

-- `str(exc)`
unfoldable pub worker_message : WorkerError → String
worker_message (bad_request e) = identifier_message e
worker_message no_upstream_prefix = "tool_name must include upstream prefix"
worker_message unsupported_behavior = "unsupported shared worker tool behavior"
worker_message (bad_affinity forbidden_class) = "upstream class is forbidden"
worker_message (bad_affinity (bad_identifier e)) = identifier_message e
worker_message no_mapping = "object has no attribute 'get'"

abbrev pub lift : {A : Type 0} → Result IdentifierError A → Result WorkerError A
lift (ok a) = ok a
lift (err e) = err (bad_request e)

abbrev pub dotted_name : String → Result WorkerError String
dotted_name value = if has_char b'.' value then ok value else err no_upstream_prefix

unfoldable pub required_tool_name : String → Result WorkerError String
required_tool_name value = do name ← lift (required_text value "tool_name"); dotted_name name

abbrev pub supported_tool_behaviors : List String
supported_tool_behaviors = "echo" ∷ "inspect_sandbox" ∷ []

unfoldable pub validate_tool : SharedWorkerTool → Result WorkerError SharedWorkerTool
unfolding required_tool_name
validate_tool t = do
  _ ← lift (required_text t.upstream_id "upstream_id")
  _ ← required_tool_name t.name
  if contains supported_tool_behaviors t.behavior then ok t else err unsupported_behavior

-- `SharedWorkerRuntime(tools=…)` validates every tool.
unfoldable pub new_runtime : List SharedWorkerTool → Result WorkerError (List SharedWorkerTool)
unfolding validate_tool
new_runtime [] = ok []
new_runtime (t ∷ ts) = do tool ← validate_tool t; rest ← new_runtime ts; ok (tool ∷ rest)

abbrev pub or_this : Option SharedWorkerTool → Bool → SharedWorkerTool → Option SharedWorkerTool
or_this (some later) same t = some later
or_this none same t = if same then some t else none

-- `self._tools.get(_tool_key(…))`: of two tools with one key the dictionary keeps the later.
unfoldable pub find_tool : List SharedWorkerTool → String → String → Option SharedWorkerTool
find_tool [] upstream_id name = none
find_tool (t ∷ ts) upstream_id name =
    or_this (find_tool ts upstream_id name) (t.upstream_id == upstream_id && t.name == name) t

pub record WorkerSandbox : Type 0 where
  pub environment : Fields
  pub secret_names : Items
  pub file_roots : Items
  pub network_allowed : Bool
  pub local_state_allowed : Bool

abbrev pub default_deny : WorkerSandbox
default_deny = record {
  environment = end;
  secret_names = nil;
  file_roots = nil;
  network_allowed = false;
  local_state_allowed = false;
}

abbrev pub describe : WorkerSandbox → Value
describe s = dict (
    field "environment" (dict s.environment) (
      field "secret_names" (list s.secret_names) (
        field "file_roots" (list s.file_roots) (
          field "network_allowed" (bool s.network_allowed)
            (field "local_state_allowed" (bool s.local_state_allowed) end)))))

-- The answer with one text and its structured content.
abbrev pub answer : String → Value → Value
answer text structured = dict (
    field "content"
      (list (cons (dict (field "type" (str "text") (field "text" (str text) end))) nil))
      (field "structuredContent" structured end))

abbrev pub text_or_empty : Option String → String
text_or_empty none = ""
text_or_empty (some s) = s

abbrev pub echo : Option (Dict Value) → Result WorkerError Value
echo none = err no_mapping
echo (some arguments) =
    let text = text_or_empty (as_str (got (lookup "message" arguments))) in
    ok (answer text (dict (field "message" (str text) end)))

unfoldable pub execute_fake_tool :
    SharedWorkerTool → Value → WorkerSandbox → Result WorkerError Value
execute_fake_tool t arguments sandbox =
    if t.behavior == "echo"
    then echo (as_dict arguments)
    else if t.behavior == "inspect_sandbox"
    then ok (answer "sandbox" (describe sandbox))
    else err unsupported_behavior
