-- ===== src/Prelude/Text/Split.antt =====
-- `s.split(sep, 1)`, `sep in s` and `s.startswith(p)`.
use Prim.Native.Char.{Char, code}
use Prim.Native.Nat.{ℕ, suc, ◌≤◌}
use Prim.Native.String.{String, [], ◌∷◌, ◌++◌}
use mathlib.Core.Bool.{Bool, true, false, ◌||◌}
use mathlib.Core.Logic.{inl, inr}
use mathlib.Core.Option.{Option, none, some}
use mathlib.Core.Path.{◌≡◌, refl, ap, ap₂, ◌∙◌}
use native.Mathlib.Omega.{arith}
use text.Mathlib.TextEquality.{Char-path}
use text.Mathlib.TextLemmas.{nil-append, cons-append, append_assoc}
use mcp_broker.Prelude.Tests.{nat_eq, if◌then◌else◌, Bool-cases, Option-cases}

-- `c in s` for a text of one character, given by its code
abbrev pub has_char : ℕ → String → Bool
has_char k [] = false
has_char k (c ∷ s) = nat_eq (code c) k || has_char k s

-- What is left of `s` behind the prefix `p`.
unfoldable pub strip_prefix : String → String → Option String
strip_prefix [] s = some s
strip_prefix (p ∷ ps) [] = none
strip_prefix (p ∷ ps) (c ∷ s) = if nat_eq (code p) (code c) then strip_prefix ps s else none

-- `s.startswith(p)`
unfoldable pub starts_with : String → String → Bool
unfolding strip_prefix
starts_with s p = elim (strip_prefix p s) [ some _ ↦ true | none ↦ false ]

abbrev pub Split : Type 0
Split = Option (String × String)

abbrev push : Char → Split → Split
push c none = none
push c (some (a, b)) = some (c ∷ a, b)

abbrev cut : Option String → Split → Split
cut (some rest) later = some ([], rest)
cut none later = later

-- The two parts of `s.split(sep, 1)`; `none` means that `sep` is not in `s`.
unfoldable pub split_once : String → String → Split
unfolding strip_prefix
split_once sep [] = cut (strip_prefix sep []) none
split_once sep (c ∷ s) = cut (strip_prefix sep (c ∷ s)) (push c (split_once sep s))

-- `sep in s`
unfoldable pub is_in : String → String → Bool
unfolding split_once
is_in sep s = elim (split_once sep s) [ some _ ↦ true | none ↦ false ]

abbrev size : String → ℕ
size [] = 0
size (c ∷ s) = suc (size s)

pub strip_prefix_self : (p s : String) → strip_prefix p (p ++ s) ≡ some s
unfolding strip_prefix
strip_prefix_self [] s = rw nil-append
strip_prefix_self (c ∷ p) s = rw cons-append (ground (arith, strip_prefix_self p s))

strip_prefix_sound : (p s : String) {r : String} → strip_prefix p s ≡ some r → s ≡ p ++ r
unfolding strip_prefix
strip_prefix_sound [] s h = rw nil-append (cc)
strip_prefix_sound (p ∷ ps) [] h = cc
strip_prefix_sound (p ∷ ps) (c ∷ s) h = elim (Bool-cases (nat_eq (code p) (code c))) [
  | inl same ↦
      rw cons-append
        (ap₂ ◌∷◌ (Char-path c p (ground arith)) (strip_prefix_sound ps s (rw same at h)))
  | inr differ ↦ ground arith
]

strip_prefix-append :
    (p s t : String) {r : String}
    → strip_prefix p s ≡ some r
    → strip_prefix p (s ++ t) ≡ some (r ++ t)
unfolding strip_prefix
strip_prefix-append [] s t h = cc
strip_prefix-append (p ∷ ps) [] t h = cc
strip_prefix-append (p ∷ ps) (c ∷ s) t {r} h =
    rw cons-append (ground (arith, strip_prefix-append ps s t {r = r}))

strip_prefix-append_none :
    (p s t : String) → size p ≤ size s → strip_prefix p s ≡ none → strip_prefix p (s ++ t) ≡ none
unfolding strip_prefix
strip_prefix-append_none [] s t fits h = cc
strip_prefix-append_none (p ∷ ps) [] t fits h = absurd (omega arith)
strip_prefix-append_none (p ∷ ps) (c ∷ s) t fits h =
    rw cons-append (ground (arith, strip_prefix-append_none ps s t))

strip_prefix_fits : (p s : String) {r : String} → strip_prefix p s ≡ some r → size p ≤ size s
unfolding strip_prefix
strip_prefix_fits [] s h = omega arith
strip_prefix_fits (p ∷ ps) [] h = cc
strip_prefix_fits (p ∷ ps) (c ∷ s) {r} h = ground (arith, strip_prefix_fits ps s {r = r})

-- Undoing one step of the search.
push_inv :
    (c : Char) (m : Split) {a b : String}
    → push c m ≡ some (a, b)
    → (a' : String) × (m ≡ some (a', b)) × (a ≡ c ∷ a')
push_inv c none h = cc
push_inv c (some (x, y)) h = (x, cc, cc)

split_fits : (sep s : String) {a b : String} → split_once sep s ≡ some (a, b) → size sep ≤ size s
unfolding split_once
split_fits sep [] h = elim (Option-cases (strip_prefix sep [])) [
  | inl miss ↦ ground arith
  | inr (r, hit) ↦ strip_prefix_fits sep [] hit
]
split_fits sep (c ∷ s) h = elim (Option-cases (strip_prefix sep (c ∷ s))) [
  | inl miss ↦
      let (a', found, _) = push_inv c (split_once sep s) (rw miss at h) in
      omega (arith, split_fits sep s found)
  | inr (r, hit) ↦ strip_prefix_fits sep (c ∷ s) hit
]

pub split_once_hit :
    (sep s : String) {r : String} → strip_prefix sep s ≡ some r → split_once sep s ≡ some ("", r)
unfolding split_once
split_once_hit sep [] h = rw h
split_once_hit sep (c ∷ s) h = rw h

split_once_miss :
    (sep : String) (c : Char) (s : String)
    → strip_prefix sep (c ∷ s) ≡ none
    → split_once sep (c ∷ s) ≡ push c (split_once sep s)
unfolding split_once
split_once_miss sep c s h = rw h

hit_parts :
    (sep s : String) {r a b : String}
    → strip_prefix sep s ≡ some r
    → split_once sep s ≡ some (a, b)
    → (a ≡ "") × (b ≡ r)
hit_parts sep s hit h = (cc (split_once_hit sep s hit), cc (split_once_hit sep s hit))

hit_sound :
    (sep s : String) {r a b : String}
    → strip_prefix sep s ≡ some r
    → split_once sep s ≡ some (a, b)
    → s ≡ a ++ (sep ++ b)
hit_sound sep s hit h =
    let (front, back) = hit_parts sep s hit h in
    rw (front, back, nil-append) (strip_prefix_sound sep s hit)

-- The parts and the separator make up the text.
pub split_once_sound :
    (sep s : String) {a b : String} → split_once sep s ≡ some (a, b) → s ≡ a ++ (sep ++ b)
split_once_sound sep [] {a} {b} h = elim (Option-cases (strip_prefix sep [])) [
  | inl miss ↦ unfold split_once in ground arith
  | inr (r, hit) ↦ hit_sound sep [] hit h
]
split_once_sound sep (c ∷ s) {a} {b} h = elim (Option-cases (strip_prefix sep (c ∷ s))) [
  | inl miss ↦
      let (a', found, front) =
        push_inv c (split_once sep s) (rw (split_once_miss sep c s miss) at h) in
      rw (front, cons-append) (ap (◌∷◌ c) (split_once_sound sep s found))
  | inr (r, hit) ↦ hit_sound sep (c ∷ s) hit h
]

-- What is appended to a text that holds the separator joins the second part.
pub split_once-append :
    (sep s t : String) {a b : String}
    → split_once sep s ≡ some (a, b)
    → split_once sep (s ++ t) ≡ some (a, b ++ t)
split_once-append sep [] t h = elim (Option-cases (strip_prefix sep [])) [
  | inl miss ↦ unfold split_once in ground arith
  | inr (r, hit) ↦
      rw (split_once_hit sep _ (strip_prefix-append sep [] t hit)) (cc (split_once_hit sep [] hit))
]
split_once-append sep (c ∷ s) t h = elim (Option-cases (strip_prefix sep (c ∷ s))) [
  | inl miss ↦
      let (a', found, front) =
        push_inv c (split_once sep s) (rw (split_once_miss sep c s miss) at h) in
      let fits : size sep ≤ size (c ∷ s) = omega (arith, split_fits sep s found) in
      let still : strip_prefix sep (c ∷ (s ++ t)) ≡ none =
        rw cons-append at (strip_prefix-append_none sep (c ∷ s) t fits miss) in
      rw (cons-append, split_once_miss sep c (s ++ t) still, split_once-append sep s t found) (cc)
  | inr (r, hit) ↦
      rw (split_once_hit sep _ (strip_prefix-append sep (c ∷ s) t hit))
        (cc (split_once_hit sep (c ∷ s) hit))
]

-- A separator that is first met behind `p` splits every text that begins with `p` and it.
pub split_once-join :
    (sep p t : String)
    → split_once sep (p ++ sep) ≡ some (p, "")
    → split_once sep (p ++ (sep ++ t)) ≡ some (p, t)
split_once-join sep p t h =
    rw (← append_assoc p sep t) (split_once-append sep (p ++ sep) t h ∙ rw nil-append)

pub is_in_of_split :
    (sep s : String) {m : String × String} → split_once sep s ≡ some m → is_in sep s ≡ true
unfolding is_in
is_in_of_split sep s h = rw (h, is_in)

pub split_of_not_in : (sep s : String) → is_in sep s ≡ false → split_once sep s ≡ none
unfolding is_in
split_of_not_in sep s h = ground arith

-- A text of one character that is not in `p` is first met behind it.
pub split_once_char :
    (k : Char) (p : String)
    → has_char (code k) p ≡ false
    → split_once (k ∷ []) (p ++ (k ∷ [])) ≡ some (p, "")
split_once_char k [] h =
    rw nil-append (split_once_hit (k ∷ []) (k ∷ []) (unfold strip_prefix in ground arith))
split_once_char k (c ∷ p) h =
    rw
      (
        cons-append,
        split_once_miss (k ∷ []) c (p ++ (k ∷ [])) (unfold strip_prefix in ground arith),
        split_once_char k p (ground arith),
      )
      refl

push-some :
    (c : Char) (m : Split) {x : String × String}
    → m ≡ some x
    → (y : String × String) × (push c m ≡ some y)
push-some c m {x} h = ((c ∷ x.0, x.1), rw h)

split_once_middle :
    (a sep b : String) → (x : String × String) × (split_once sep (a ++ (sep ++ b)) ≡ some x)
split_once_middle [] sep b =
    (("", b), rw nil-append (split_once_hit sep _ (strip_prefix_self sep b)))
split_once_middle (c ∷ a) sep b = elim (Option-cases (strip_prefix sep (c ∷ (a ++ (sep ++ b))))) [
  | inl miss ↦
      let (y, later) = push-some c _ (split_once_middle a sep b).1 in
      (y, rw cons-append (split_once_miss sep c _ miss ∙ later))
  | inr (r, hit) ↦ (("", r), rw cons-append (split_once_hit sep _ hit))
]

pub is_in_middle : (a sep b : String) → is_in sep (a ++ (sep ++ b)) ≡ true
is_in_middle a sep b = is_in_of_split sep _ (split_once_middle a sep b).1
