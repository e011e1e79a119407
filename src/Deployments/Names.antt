-- ===== src/Deployments/Names.antt =====
-- src/mcp_broker/deployments.py: `_deployment_id`.
use Prim.Native.Char.{code}
use Prim.Native.String.{[], ◌∷◌}
use mcp_broker.Prelude.{
  ℕ, zero, suc, String, ◌++ₛ◌, Bool, true, false, ◌&&◌, ◌||◌, if◌then◌else◌, leb, nat_eq,
}

-- `[A-Za-z0-9._-]`
abbrev is_plain : ℕ → Bool
is_plain c =
    (leb b'A' c && leb c b'Z')
    || (leb b'a' c && leb c b'z')
    || (leb b'0' c && leb c b'9')
    || nat_eq c b'.'
    || nat_eq c b'_'
    || nat_eq c b'-'

-- `re.sub("[^A-Za-z0-9._-]+", "-", s)`, from inside a run of other characters or from outside.
unfoldable pub plain_text : Bool → String → String
plain_text inside [] = []
plain_text inside (c ∷ s) =
    let kept = plain_text false s in
    let dropped = plain_text true s in
    if is_plain (code c) then c ∷ kept else if inside then dropped else "-" ++ₛ dropped

unfoldable pub all_dashes : String → Bool
all_dashes [] = true
all_dashes (c ∷ s) = nat_eq (code c) b'-' && all_dashes s

-- `s.strip("-")`, from its left end and its right end
unfoldable pub left_dashes : String → String
left_dashes [] = []
left_dashes (c ∷ s) = let rest = left_dashes s in if nat_eq (code c) b'-' then rest else c ∷ s

unfoldable pub right_dashes : String → String
unfolding all_dashes
right_dashes [] = []
right_dashes (c ∷ s) = let rest = right_dashes s in if all_dashes (c ∷ s) then [] else c ∷ rest

abbrev take_text : ℕ → String → String
take_text zero s = []
take_text (suc n) [] = []
take_text (suc n) (c ∷ s) = c ∷ take_text n s

unfoldable pub deployment_id : String → String → String → String
unfolding plain_text left_dashes right_dashes
deployment_id bundle_id version checksum = right_dashes (
    left_dashes
      (plain_text false (bundle_id ++ₛ ("-" ++ₛ (version ++ₛ ("-" ++ₛ take_text 12 checksum))))))
