-- ===== src/Prelude/Text/Order.antt =====
-- The order of texts is total and transitive; sorting by it.
use Prim.Native.String.{String}
use mathlib.Core.Bool.{true, false}
use mathlib.Core.List.{List, [], ◌∷◌}
use mathlib.Core.Path.{◌≡◌, refl}
use native.Mathlib.Omega.{arith}
use mcp_broker.Prelude.Lists.{contains}
use mcp_broker.Prelude.Tests.{if◌then◌else◌}
use mcp_broker.Prelude.Text.Words.{text_leb}

pub text_leb_total : (s t : String) → text_leb s t ≡ false → text_leb t s ≡ true
unfolding text_leb
text_leb_total String.[] t h = cc
text_leb_total (String.◌∷◌ c s) String.[] h = refl
text_leb_total (String.◌∷◌ c s) (String.◌∷◌ d t) h = ground (arith, text_leb_total s t)

pub text_leb_trans :
    (r s t : String) → text_leb r s ≡ true → text_leb s t ≡ true → text_leb r t ≡ true
unfolding text_leb
text_leb_trans String.[] s t h k = refl
text_leb_trans (String.◌∷◌ b r) String.[] t h k = cc
text_leb_trans (String.◌∷◌ b r) (String.◌∷◌ c s) String.[] h k = cc
text_leb_trans (String.◌∷◌ b r) (String.◌∷◌ c s) (String.◌∷◌ d t) h k =
    ground (arith, text_leb_trans r s t)

-- `sorted(texts)`
abbrev pub insert_text : String → List String → List String
insert_text s [] = s ∷ []
insert_text s (t ∷ ts) = if text_leb s t then s ∷ t ∷ ts else t ∷ insert_text s ts

abbrev pub sort_texts : List String → List String
sort_texts [] = []
sort_texts (s ∷ ss) = insert_text s (sort_texts ss)

pub contains-insert_text :
    (x s : String) (ts : List String) → contains (insert_text s ts) x ≡ contains (s ∷ ts) x
contains-insert_text x s [] = refl
contains-insert_text x s (t ∷ ts) = ground (arith, contains-insert_text x s ts)

pub contains-sort_texts :
    (x : String) (ts : List String) → contains (sort_texts ts) x ≡ contains ts x
contains-sort_texts x [] = refl
contains-sort_texts x (t ∷ ts) =
    ground (arith, contains-insert_text x t (sort_texts ts), contains-sort_texts x ts)
