-- ===== src/Tests/Layers.antt =====
-- A layer with a reference to a secret.
use mcp_broker.Prelude.{◌≡◌, ◌↔◌, refl, is_blank}
use mcp_broker.Prelude.Result.{ok}
use mcp_broker.Value.{Fields, dict, str, list, cons, nil, end, field}
use mcp_broker.Layers.{LayerDocument, validate_layer}
use mcp_broker.Layers.Secrets.{HoldsNoSecret, validate_layer_iff}

abbrev content : Fields
content =
    field "api_key" (dict (field "secret_ref" (str "GITHUB_KEY") end))
      (field "hosts" (list (cons (str "api") nil)) end)

abbrev org : LayerDocument
org = record { name = "org"; content = dict content }

validate_layer_iff_example : (validate_layer org ≡ ok tt) ↔ HoldsNoSecret (dict content)
unfolding is_blank
validate_layer_iff_example = validate_layer_iff org content refl refl
