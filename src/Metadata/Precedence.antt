-- ===== src/Metadata/Precedence.antt =====
-- What metadata reaches an upstream, and which of its sources comes first.
use mcp_broker.Prelude.{String, ◌≡◌, false, Option, [], ◌∷◌, Dict, lookup, contains, map, ◌⊎◌}
use mathlib.Core.Option
use mcp_broker.Prelude.Result.{ok}
use mcp_broker.Upstream.{UpstreamConfig}
use mcp_broker.Upstream.Environment.{SecretFile, resolve_environment}
use mcp_broker.Value.{Value, str, as_dict}

-- No two entries have the same key, as in every mapping.
abbrev pub HasDistinctKeys {ℓ} : {A : Type ℓ} → Dict A → Type 0
HasDistinctKeys [] = Unit
HasDistinctKeys ((k, _) ∷ rest) =
    (contains (map (λ entry. entry.0) rest) k ≡ false) × HasDistinctKeys rest

-- The value that the environment has for the variable that the configuration puts under a name.
abbrev pub configured_value : Dict String → Dict String → String → Option Value
configured_value request_meta resolved k =
    Option.bind (lookup k request_meta) (λ source. Option.map str (lookup source resolved))

-- What `take_credentials` makes of the configured names.
record AreTaken (resolved request_meta : Dict String) (taken : Dict Value) : Type 0 where
  same_keys :
      map (λ (e : String × Value). e.0) taken ≡ map (λ (e : String × String). e.0) request_meta
  values : (k : String) → lookup k taken ≡ configured_value request_meta resolved k

-- The environment that the configured metadata is read from; it is not read where none is
-- configured.
abbrev pub IsEnvironment :
    UpstreamConfig → Dict String → (String → SecretFile) → Dict String → Type 0
IsEnvironment u environ files resolved =
    (u.request_meta ≡ []) ⊎ (resolve_environment u environ files ≡ ok resolved)

-- The metadata that a call's parameters carry.
abbrev pub carried : String → Dict Value → Option Value
carried k params =
    Option.bind (lookup "_meta" params) (λ meta. Option.bind (as_dict meta) (lookup k))
