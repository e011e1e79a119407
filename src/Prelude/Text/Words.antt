-- ===== src/Prelude/Text/Words.antt =====
-- `s.split(c)`, `s.split()` and the order of texts.
use Prim.Native.Char.{Char, code}
use Prim.Native.Nat.{ℕ}
use Prim.Native.String.{String}
use mathlib.Core.Bool.{Bool, true, false, ◌&&◌, ◌||◌}
use mathlib.Core.List.{List, [], ◌∷◌}
use mcp_broker.Prelude.Tests.{nat_eq, leb, ltb, if◌then◌else◌}

-- `str.isspace` of one character
abbrev pub is_space : ℕ → Bool
is_space c =
    (leb 9 c && leb c 13)
    || (leb 28 c && leb c 32)
    || nat_eq c 0x85
    || nat_eq c 0xa0
    || nat_eq c 0x1680
    || (leb 0x2000 c && leb c 0x200a)
    || nat_eq c 0x2028
    || nat_eq c 0x2029
    || nat_eq c 0x202f
    || nat_eq c 0x205f
    || nat_eq c 0x3000

-- One more character before the first word.
abbrev put_first : Char → List String → List String
put_first c [] = (String.◌∷◌ c String.[]) ∷ []
put_first c (w ∷ ws) = (String.◌∷◌ c w) ∷ ws

-- `s.split(c)` for a separator of one character
unfoldable pub split_char : ℕ → String → List String
split_char sep String.[] = String.[] ∷ []
split_char sep (String.◌∷◌ c s) =
    let rest = split_char sep s in
    if nat_eq (code c) sep then String.[] ∷ rest else put_first c rest

pieces : String → List String
pieces String.[] = String.[] ∷ []
pieces (String.◌∷◌ c s) =
    let rest = pieces s in if is_space (code c) then String.[] ∷ rest else put_first c rest

abbrev no_empties : List String → List String
no_empties [] = []
no_empties (String.[] ∷ ws) = no_empties ws
no_empties ((String.◌∷◌ c w) ∷ ws) = (String.◌∷◌ c w) ∷ no_empties ws

-- `s.split()`
unfoldable pub split_words : String → List String
unfolding pieces
split_words s = no_empties (pieces s)

-- `s <= t`, by code points
unfoldable pub text_leb : String → String → Bool
text_leb String.[] t = true
text_leb (String.◌∷◌ c s) String.[] = false
text_leb (String.◌∷◌ c s) (String.◌∷◌ d t) =
    ltb (code c) (code d) || (nat_eq (code c) (code d) && text_leb s t)
