-- ===== src/Metadata/Params.antt =====
-- src/mcp_broker/upstream_stdio.py: the parameters of a `tools/call` of an upstream, as
-- `_call_tool_locked` makes them.
use mcp_broker.Prelude.{String, [], ◌∷◌, Dict}
use mcp_broker.Prelude.Result.{Result, ok, ◌>>=◌}
use mcp_broker.Value.{Value, str, dict, of_fields}
use mcp_broker.Upstream.{UpstreamConfig}
use mcp_broker.Upstream.Environment.{SecretFile, EnvironmentError, resolve_request_meta}
use mcp_broker.Metadata.Defs.{update, outbound_request_metadata}

-- `params["_meta"]` is set only where there is some.
abbrev pub meta_field : Dict Value → Dict Value
meta_field [] = []
meta_field (entry ∷ rest) = ("_meta", dict (of_fields (entry ∷ rest))) ∷ []

abbrev pub params_of : String → Value → Dict Value → Dict Value
params_of tool arguments request_meta =
    ("name", str tool) ∷ ("arguments", arguments) ∷ meta_field request_meta

-- The caller's metadata, the broker's metadata, the process's variables and the secret files are
-- what the context gives.
unfoldable pub call_params :
    UpstreamConfig
    → String
    → Value
    → Dict Value
    → Dict Value
    → Dict String
    → (String → SecretFile)
    → Result EnvironmentError (Dict Value)
unfolding outbound_request_metadata update resolve_request_meta
call_params u tool arguments metadata broker environ files = do
  configured ← resolve_request_meta u environ files
  let request_meta = outbound_request_metadata u.forward_request_meta metadata broker
  ok (params_of tool arguments (update request_meta configured))
