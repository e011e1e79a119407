-- ===== src/Namespace/Definitions.antt =====
-- src/mcp_broker/tool_namespace.py: the table of the broker's own tools, transcribed.
use mcp_broker.Prelude.{String, true, false, [], ◌∷◌, Dict}
use mcp_broker.Value.{Value, dict, list, str, int, bool, pos, nil, cons, end, field}

pub record Definition : Type 0 where
  pub description : String
  pub input_schema : Value

abbrev pub call_tool_projection_schema : Value
call_tool_projection_schema =
    (dict (
      field "type" (str "object") (
        field "description"
          (str
            "Optional server-side projection applied to the upstream response before it reaches the client, so a verbose result is trimmed to only the fields you need and large arrays are capped. This cuts context tokens and latency. Omit it to receive the full, unmodified upstream response.")
          (field "properties"
            (dict (
              field "paths"
                (dict (
                  field "type" (str "array") (
                    field "items" (dict (field "type" (str "string") end)) (
                      field "description"
                        (str
                          "Dotted field paths to keep, such as data.items.id. A path that reaches a list is applied to every element. Omit to keep all fields and only cap arrays with max_array_items.")
                        end))))
                (field "max_array_items"
                  (dict (
                    field "type" (str "integer") (
                      field "minimum" (int (pos 0)) (
                        field "description"
                          (str
                            "Truncate every array in the projected response to at most this many items, so a long list returns only its first entries.")
                          end))))
                  end)))
            (field "additionalProperties" (bool false) end)))))

abbrev pub search_tools_definition : Definition
search_tools_definition = record {
  description =
      "Search the profile-visible upstream MCP tool catalog without advertising every upstream tool to the client. Use this first when the task mentions a capability, service, keyword, or upstream prefix and you need candidate broker-qualified tool names before describing or calling one of them.";
  input_schema =
      (dict (
        field "type" (str "object") (
          field "description"
            (str
              "Search request for the broker catalog. The broker inspects only upstreams exposed to the active profile, applies mutating-upstream policy, and returns matching tool metadata plus skipped upstreams when discovery fails.")
            (field "properties"
              (dict (
                field "query"
                  (dict (
                    field "type" (str "string") (
                      field "description"
                        (str
                          "Capability, upstream name, tool name fragment, or task keyword to match against broker-qualified tool names, upstream names, descriptions, and schemas.")
                        (field "minLength" (int (pos 1)) (
                          field "examples"
                            (list (
                              cons (str "github issue")
                                (cons (str "file read") (cons (str "browser screenshot") nil))))
                            end)))))
                  (field "limit"
                    (dict (
                      field "type" (str "integer") (
                        field "description"
                          (str
                            "Maximum number of matching tools to return. Keep this small for exploration, then refine the query or call broker_describe_tool for exact schema details.")
                          (field "minimum" (int (pos 1)) (
                            field "maximum" (int (pos 50)) (field "default" (int (pos 20)) end))))))
                    end)))
              (field "required" (list (cons (str "query") nil))
                (field "additionalProperties" (bool false) end))))));
}

abbrev pub describe_tool_definition : Definition
describe_tool_definition = record {
  description =
      "Describe one profile-visible upstream MCP tool by broker-qualified name. Use this after broker_search_tools and before broker_call_tool so the client can inspect the exact description, input schema, upstream owner, transport, and mutating metadata instead of guessing arguments.";
  input_schema =
      (dict (
        field "type" (str "object") (
          field "description"
            (str
              "Describe request for one catalog entry. The name must be the full broker-qualified tool name returned by broker_search_tools or another catalog response, including the upstream prefix and namespace separator.")
            (field "properties"
              (dict (
                field "name"
                  (dict (
                    field "type" (str "string") (
                      field "description"
                        (str
                          "Full broker-qualified tool name to inspect, such as an upstream prefix joined to the upstream tool name by the configured namespace separator.")
                        (field "minLength" (int (pos 1)) (
                          field "examples"
                            (list
                              (cons (str "github.get_me") (cons (str "filesystem.read_file") nil)))
                            end)))))
                  end))
              (field "required" (list (cons (str "name") nil))
                (field "additionalProperties" (bool false) end))))));
}

abbrev pub call_tool_definition : Definition
call_tool_definition = record {
  description =
      "Call one profile-visible upstream MCP tool through the broker using its broker-qualified name and exact argument object. The broker's mutating-tool policy remains gated by the active profile's allowlist, so call broker_describe_tool first and pass only arguments accepted by the described upstream schema.";
  input_schema =
      (dict (
        field "type" (str "object") (
          field "description"
            (str
              "Invocation request for a broker-managed upstream tool. The broker resolves the namespaced name, enforces profile exposure and mutating-tool policy, serializes calls when configured, and returns the upstream tool result.")
            (field "properties"
              (dict (
                field "name"
                  (dict (
                    field "type" (str "string") (
                      field "description"
                        (str
                          "Full broker-qualified tool name to invoke. Use a name returned by broker_search_tools or broker_describe_tool, not an unqualified upstream name.")
                        (field "minLength" (int (pos 1)) (
                          field "examples"
                            (list (
                              cons (str "github.get_file_contents")
                                (cons (str "filesystem.read_file") nil)))
                            end)))))
                  (field "arguments"
                    (dict (
                      field "type" (str "object") (
                        field "description"
                          (str
                            "Exact JSON object accepted by the described upstream tool schema. Use an empty object only when broker_describe_tool shows that the upstream tool accepts no parameters.")
                          (field "default" (dict end)
                            (field "additionalProperties" (bool true) end)))))
                    (field "projection" call_tool_projection_schema end))))
              (field "required" (list (cons (str "name") (cons (str "arguments") nil)))
                (field "additionalProperties" (bool false) end))))));
}

abbrev pub status_definition : Definition
status_definition = record {
  description =
      "Report broker and upstream status for the active profile without starting hidden or denied upstreams. Use this for health checks, support tickets, and client validation because it returns the profile name, broker socket path, aggregate status, upstream runtime state, auth state, transport, process id, restarts, and mutating exposure.";
  input_schema =
      (dict (
        field "type" (str "object") (
          field "description"
            (str
              "Status request for the active broker profile. No user arguments are accepted; clients may pass transport-control fields that the broker ignores, but status filters them before validating the request.")
            (field "properties" (dict end) (field "additionalProperties" (bool false) end)))));
}

abbrev pub close_session_definition : Definition
close_session_definition = record {
  description =
      "Release the broker-owned per-session upstream processes for the current client session. Use this after shutting down a client session when its session-scoped MCP subprocesses must exit promptly. This never stops shared upstreams or another client's session.";
  input_schema =
      (dict (
        field "type" (str "object") (
          field "description"
            (str
              "Close request for the calling broker session. The broker takes the session identity from client transport metadata; user arguments are not accepted.")
            (field "properties" (dict end) (field "additionalProperties" (bool false) end)))));
}

abbrev pub compact_broker_tool_definitions_table : Dict Definition
compact_broker_tool_definitions_table =
    ("broker.search_tools", search_tools_definition)
    ∷ ("broker.describe_tool", describe_tool_definition)
    ∷ ("broker.call_tool", call_tool_definition)
    ∷ ("broker.status", status_definition)
    ∷ ("broker.close_session", close_session_definition)
    ∷ []
