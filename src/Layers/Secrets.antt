-- ===== src/Layers/Secrets.antt =====
-- No layer that passes its validation holds a literal secret.
use mcp_broker.Prelude.{
  ℕ, suc, String, ◌≡◌, ◌↔◌, refl, subst, is_blank, Bool, true, false, none, some, List, [], ◌∷◌,
  ◌++◌, arith, inl, inr, Option-cases, lookup, show, if◌then◌else◌,
}
use mcp_broker.Prelude.Result.{Result, ok, err, ◌>>=◌}
use mcp_broker.Value.{
  HasField, first, later, Value, Items, Fields, dict, list, str, nil, cons, end, field, fields,
}
use mcp_broker.Layers.Patterns.{is_secret_key, is_variable}
use mcp_broker.Layers.Defs.{
  LayerError, LayerDocument, holds_literal, has_field, validate_secret_ref,
  validate_secret_references, validate_fields, validate_items, validate_layer,
}

pub data HasItem : Value → Items → Type 0 where
  first_item : {v : Value} {vs : Items} → HasItem v (cons v vs)
  later_item : {v w : Value} {vs : Items} → HasItem v vs → HasItem v (cons w vs)

-- The mapping stands in the document, and not within a reference to a secret.
pub data IsWithin (fs : Fields) : Value → Type 0 where
  itself : IsWithin fs (dict fs)
  in_list : {v : Value} {vs : Items} → HasItem v vs → IsWithin fs v → IsWithin fs (list vs)
  in_mapping :
      {k : String} {v : Value} {gs : Fields}
      → lookup "secret_ref" (fields gs) ≡ none
      → HasField k v gs
      → IsWithin fs v
      → IsWithin fs (dict gs)

-- A mapping is a reference to a secret by the name of an environment variable, or it has no text
-- under a key that speaks of a secret.
pub record IsClean (fs : Fields) : Type 0 where
  pub no_secret_value : has_field "secret_value" fs ≡ false
  pub refers :
      (ref : Value)
      → lookup "secret_ref" (fields fs) ≡ some ref
      → (s : String) × (ref ≡ str s) × (is_variable s ≡ true)
  pub no_literal :
      (k s : String)
      → lookup "secret_ref" (fields fs) ≡ none
      → HasField k (str s) fs
      → is_secret_key k ≡ false

abbrev Passes : String → Value → Type 0
Passes layer v = (path : List String) × (validate_secret_references layer path v ≡ ok tt)

both : (a b : Result LayerError (Unit {0})) → (a >>= λ _. b) ≡ ok tt → (a ≡ ok tt) × (b ≡ ok tt)
both (ok tt) b h = (refl, h)
both (err e) b h = cc

unless :
    (b : Bool) (e : LayerError) (r : Result LayerError (Unit {0}))
    → (if b then err e else r) ≡ ok tt
    → (b ≡ false) × (r ≡ ok tt)
unless false e r h = (refl, h)
unless true e r h = absurd (cc)

key_plain : (k s : String) → holds_literal k (str s) ≡ false → is_secret_key k ≡ false
key_plain k s h = ground arith

ref_named :
    (layer : String) (path : List String) (v : Value)
    → validate_secret_ref layer path v ≡ ok tt
    → (s : String) × (v ≡ str s) × (is_variable s ≡ true)
unfolding validate_secret_ref
ref_named layer path (str s) h = (s, refl, ground arith)
ref_named layer path _ h = absurd (cc)

item-Passes :
    (layer : String) (path : List String) (index : ℕ) {v : Value} {vs : Items}
    → HasItem v vs
    → validate_items layer path index vs ≡ ok tt
    → Passes layer v
unfolding validate_items
item-Passes layer path index first_item h = (path ++ show index ∷ [], (both _ _ h).0)
item-Passes layer path index (later_item m) h = item-Passes layer path (suc index) m (both _ _ h).1

field-Passes :
    (layer : String) (path : List String) {k : String} {v : Value} {fs : Fields}
    → HasField k v fs
    → validate_fields layer path fs ≡ ok tt
    → Passes layer v × (holds_literal k v ≡ false)
unfolding validate_fields
field-Passes layer path {k} {v} first h =
    let (plain, rest) = unless _ _ _ h in ((path ++ k ∷ [], (both _ _ rest).0), plain)
field-Passes layer path (later {j} {w} m) h =
    field-Passes layer path m (both _ _ (unless _ _ _ h).1).1

-- What the checks of one mapping say.
mapping-IsClean :
    (layer : String) (path : List String) (fs : Fields)
    → validate_secret_references layer path (dict fs) ≡ ok tt
    → IsClean fs × (lookup "secret_ref" (fields fs) ≡ none → validate_fields layer path fs ≡ ok tt)
unfolding validate_secret_references
mapping-IsClean layer path fs h = elim (Option-cases (lookup "secret_ref" (fields fs))) [
  | inl missing ↦
      let (plain, rest) = unless _ _ _ (rw missing at h) in
      (
        record {
          no_secret_value = plain;
          refers = λ ref found. absurd (cc);
          no_literal = λ k s free m. key_plain k s (field-Passes layer path m rest).1;
        },
        λ free. rest,
      )
  | inr (ref, found) ↦
      let (plain, rest) = unless _ _ _ (rw found at h) in
      (
        record {
          no_secret_value = plain;
          refers =
              λ r known. let same : ref ≡ r = cc in rw (← same) (ref_named layer path ref rest);
          no_literal = λ k s free m. absurd (cc);
        },
        λ free. absurd (cc),
      )
]

within-IsClean :
    (layer : String) {fs : Fields} (path : List String) {v : Value}
    → IsWithin fs v
    → validate_secret_references layer path v ≡ ok tt
    → IsClean fs
unfolding validate_secret_references
within-IsClean layer path itself h = (mapping-IsClean layer path _ h).0
within-IsClean layer path (in_list m w) h =
    let (deeper, passed) = item-Passes layer path 0 m h in within-IsClean layer deeper w passed
within-IsClean layer path (in_mapping free m w) h =
    let children = (mapping-IsClean layer path _ h).1 free in
    let (deeper, passed) = (field-Passes layer path m children).0 in
    within-IsClean layer deeper w passed

literal_free :
    (k : String) (v : Value)
    → ((s : String) → v ≡ str s → is_secret_key k ≡ false)
    → holds_literal k v ≡ false
literal_free k (str s) h = rw (h s refl) refl
literal_free k _ h = ground arith

key_free :
    {fs : Fields} {k : String} {v : Value}
    → IsClean fs
    → lookup "secret_ref" (fields fs) ≡ none
    → HasField k v fs
    → holds_literal k v ≡ false
key_free {fs} {k} {v} c free m =
    literal_free k v (λ s e. c.no_literal k s free (subst (λ (u : Value). HasField k u fs) e m))

-- No mapping of the document, outside of references to secrets, holds a literal secret.
abbrev pub HoldsNoSecret : Value → Type 0
HoldsNoSecret v = (fs : Fields) → IsWithin fs v → IsClean fs

mutual
  unfolding validate_secret_references validate_fields validate_items validate_secret_ref

  clean_passes :
      (layer : String) (path : List String) (v : Value)
      → HoldsNoSecret v
      → validate_secret_references layer path v ≡ ok tt
  clean_passes layer path (dict fs) clean =
      let c = clean fs itself in
      elim (Option-cases (lookup "secret_ref" (fields fs))) [
        | inl free ↦
            rw (free, c.no_secret_value)
              (clean_fields layer path fs
                (λ k v m. (λ gs w. clean gs (in_mapping free m w), key_free c free m)))
        | inr (ref, found) ↦
            let (s, is_text, variable) = c.refers ref found in
            rw (found, c.no_secret_value, is_text, variable) refl
      ]
  clean_passes layer path (list vs) clean =
      clean_items layer path 0 vs (λ v m fs w. clean fs (in_list m w))
  clean_passes layer path _ clean = refl

  clean_items :
      (layer : String) (path : List String) (index : ℕ) (vs : Items)
      → ((v : Value) → HasItem v vs → HoldsNoSecret v)
      → validate_items layer path index vs ≡ ok tt
  clean_items layer path index nil clean = refl
  clean_items layer path index (cons v vs) clean =
      rw (clean_passes layer (path ++ show index ∷ []) v (clean v first_item))
        (clean_items layer path (suc index) vs (λ u m. clean u (later_item m)))

  clean_fields :
      (layer : String) (path : List String) (fs : Fields)
      → ((k : String) (v : Value) → HasField k v fs → HoldsNoSecret v × (holds_literal k v ≡ false))
      → validate_fields layer path fs ≡ ok tt
  clean_fields layer path end clean = refl
  clean_fields layer path (field k v fs) clean =
      let (below, plain) = clean k v first in
      rw (plain, clean_passes layer (path ++ k ∷ []) v below)
        (clean_fields layer path fs (λ j u m. clean j u (later m)))

-- A layer with a name and a mapping passes `_validate_layer` exactly when no mapping in it has a
-- key `secret_value` or a text under a key that speaks of a secret, and each `secret_ref` names an
-- environment variable; what stands beside a `secret_ref` is not looked into.
pub validate_layer_iff :
    (layer : LayerDocument) (fs : Fields)
    → is_blank layer.name ≡ false
    → layer.content ≡ dict fs
    → (validate_layer layer ≡ ok tt) ↔ HoldsNoSecret layer.content
unfolding validate_layer
validate_layer_iff layer fs named mapping =
    rw (named, mapping)
      (
        λ h gs w. within-IsClean layer.name [] w h,
        λ clean. clean_passes layer.name [] (dict fs) clean,
      )
