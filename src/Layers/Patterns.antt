-- ===== src/Layers/Patterns.antt =====
-- src/mcp_broker/config_layers.py: the two regular expressions.
use Prim.Native.Char.{code}
use Prim.Native.String.{[], ◌∷◌}
use mcp_broker.Prelude.{
  ℕ, ◌+◌, String, Bool, true, false, ◌&&◌, ◌||◌, List, if◌then◌else◌, any, leb, nat_eq,
}

-- A character as `re.I` compares it with a lower-case ASCII letter: the ASCII capitals and four
-- more characters match one, which are the capital I with a dot, the small i without one, the long s
-- and the sign of the kelvin.
abbrev folded : ℕ → ℕ
folded c =
    if leb b'A' c && leb c b'Z'
    then c + 32
    else if nat_eq c 0x0130 || nat_eq c 0x0131
    then b'i'
    else if nat_eq c 0x017f
    then b's'
    else if nat_eq c 0x212a
    then b'k'
    else c

-- The text begins with the word, which is in lower case.
abbrev begins : String → String → Bool
begins [] s = true
begins (w ∷ ws) [] = false
begins (w ∷ ws) (c ∷ s) = nat_eq (code w) (folded (code c)) && begins ws s

abbrev searches : String → String → Bool
searches word [] = begins word []
searches word (c ∷ s) = begins word (c ∷ s) || searches word s

-- `_SECRET_KEY_PATTERN`; its part `api[_-]?key` is found only where `key` is.
abbrev secret_words : List String
secret_words =
    List.◌∷◌ "secret"
      (List.◌∷◌ "token" (List.◌∷◌ "credential" (List.◌∷◌ "password" (List.◌∷◌ "key" List.[]))))

-- `_SECRET_KEY_PATTERN.search(key)`
unfoldable pub is_secret_key : String → Bool
is_secret_key key = any (λ word. searches word key) secret_words

abbrev is_capital : ℕ → Bool
is_capital c = leb b'A' c && leb c b'Z'

abbrev in_variable : String → Bool
in_variable [] = true
in_variable (c ∷ s) =
    (is_capital (code c) || (leb b'0' (code c) && leb (code c) b'9') || nat_eq (code c) b'_')
    && in_variable s

-- `_SECRET_REF_PATTERN.fullmatch(value)`
unfoldable pub is_variable : String → Bool
is_variable [] = false
is_variable (c ∷ s) = is_capital (code c) && in_variable s
