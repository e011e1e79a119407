-- ===== src/Prelude/Text.antt =====
-- Python's text operations that the broker uses, by recursion on the characters.
mod Split
mod Words
mod Order
unfoldable pub use Split.*
unfoldable pub use Words.*
pub use Order.*
use Prim.Native.Char.{Char, code}
use Prim.Native.Nat.{ℕ, zero, suc, ◌+◌, ◌/◌, ◌%◌}
use Prim.Native.String.{String, [], ◌∷◌, ◌++◌}
use mathlib.Core.Bool.{Bool, true, false, ◌&&◌, ◌||◌}
use mcp_broker.Prelude.Text.Words.{is_space}
use mcp_broker.Prelude.Tests.{nat_eq, leb, if◌then◌else◌}

-- `not s`
abbrev pub is_empty : String → Bool
is_empty [] = true
is_empty (c ∷ s) = false

-- `not s.strip()`
unfoldable pub is_blank : String → Bool
is_blank [] = true
is_blank (c ∷ s) = is_space (code c) && is_blank s

unfoldable pub lstrip : String → String
lstrip [] = []
lstrip (c ∷ s) = if is_space (code c) then lstrip s else c ∷ s

unfoldable pub rstrip : String → String
unfolding is_blank
rstrip [] = []
rstrip (c ∷ s) = let rest = rstrip s in if is_space (code c) && is_blank s then [] else c ∷ rest

-- `s.strip()`
unfoldable pub strip : String → String
unfolding lstrip rstrip
strip s = rstrip (lstrip s)

abbrev lower_code : ℕ → ℕ
lower_code c = if leb b'A' c && leb c b'Z' then c + 32 else c

-- `s.lower() == t` for a text `t` of lower-case ASCII characters other than `k`: those are the
-- lower-case forms of ASCII characters only.
unfoldable pub lowers_to : String → String → Bool
lowers_to [] [] = true
lowers_to (c ∷ s) (d ∷ t) = nat_eq (lower_code (code c)) (code d) && lowers_to s t
lowers_to _ _ = false

-- `s.replace(a, b)` for texts of one character
unfoldable pub replace_char : ℕ → Char → String → String
replace_char a b [] = []
replace_char a b (c ∷ s) = (if nat_eq (code c) a then b else c) ∷ replace_char a b s

abbrev digit : ℕ → String
digit n =
    if nat_eq n 0
    then "0"
    else if nat_eq n 1
    then "1"
    else if nat_eq n 2
    then "2"
    else if nat_eq n 3
    then "3"
    else if nat_eq n 4
    then "4"
    else if nat_eq n 5
    then "5"
    else if nat_eq n 6
    then "6"
    else if nat_eq n 7
    then "7"
    else if nat_eq n 8
    then "8"
    else "9"

-- A decimal of `n` has at most `n + 1` digits, so the fuel of `show` is enough.
show_fuel : ℕ → ℕ → String
show_fuel zero n = []
show_fuel (suc f) n =
    let longer = show_fuel f (n / 10) ++ digit (n % 10) in if leb n 9 then digit n else longer

-- `str(n)` of a natural number
unfoldable pub show : ℕ → String
unfolding show_fuel
show n = show_fuel (n + 1) n
