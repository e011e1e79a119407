-- ===== src/Namespace/Index.antt =====
-- What `build_prefix_index` puts into the index: each visible upstream under its prefix, and
-- nothing else.
use mcp_broker.Prelude.{
  String, ◌≡◌, refl, true, false, Option, some, [], ◌∷◌, Dict, lookup, insert, lookup-insert, ◌==◌,
  arith, eq_iff, ◌⊎◌, Bool-cases, inl, inr, eq_of_test,
}
use mcp_broker.Prelude.Result.{ok}
use mcp_broker.Upstream.{UpstreamConfig, is_off, prefix_of}
use mcp_broker.Profile.{ToolExposureProfile}
use mcp_broker.Namespace.Defs.{in_profile, has_key, build_prefix_index}

-- An upstream that the client of a profile may see.
pub record IsVisible (profile : Option ToolExposureProfile) (u : UpstreamConfig) : Type 0 where
  pub on : is_off u ≡ false
  pub exposed : in_profile profile u ≡ true

-- `(key, u)` is an entry of the dictionary.
abbrev pub Entry : String → UpstreamConfig → Dict UpstreamConfig → Type 0
Entry key u [] = ⊥
Entry key u ((name, w) ∷ rest) = ((name ≡ key) × (w ≡ u)) ⊎ Entry key u rest

module _ (profile : Option ToolExposureProfile) where
  build_keeps :
      (ups : Dict UpstreamConfig) (index : Dict String) {out : Dict String} (p : String)
      (key : String)
      → build_prefix_index ups profile index ≡ ok out
      → lookup p index ≡ some key
      → lookup p out ≡ some key
  unfolding build_prefix_index
  build_keeps [] index p key h found = ground arith
  build_keeps ((name, u) ∷ rest) index {out} p key h found = ground (
    arith,
    eq_iff (prefix_of u) p,
    lookup-insert (prefix_of u) p name index,
    build_keeps rest index {out = out} p key,
    build_keeps rest (insert (prefix_of u) name index) {out = out} p key,
  )

  pub build_complete :
      (ups : Dict UpstreamConfig) (index : Dict String) {out : Dict String} (key : String)
      {u : UpstreamConfig}
      → build_prefix_index ups profile index ≡ ok out
      → lookup key ups ≡ some u
      → IsVisible profile u
      → lookup (prefix_of u) out ≡ some key
  unfolding build_prefix_index
  build_complete [] index key h found v = cc
  build_complete ((name, w) ∷ rest) index {out} key {u} h found v = ground (
    arith,
    eq_iff name key,
    eq_iff (prefix_of w) (prefix_of w),
    lookup-insert (prefix_of w) (prefix_of w) name index,
    build_keeps rest (insert (prefix_of w) name index) {out = out} (prefix_of w) name,
    build_complete rest index {out = out} key {u = u},
    build_complete rest (insert (prefix_of w) name index) {out = out} key {u = u},
  )

  -- An upstream that is visible to the profile and has the prefix `p` and the key `key`.
  pub record Source (p key : String) (ups : Dict UpstreamConfig) : Type 0 where
    pub upstream : UpstreamConfig
    pub entry : Entry key upstream ups
    pub visible : IsVisible profile upstream
    pub prefixed : prefix_of upstream ≡ p

  later :
      {p key : String} {ups : Dict UpstreamConfig} (name : String) (u : UpstreamConfig)
      → Source p key ups
      → Source p key ((name, u) ∷ ups)
  later name u s = record {
    upstream = s.upstream;
    entry = inr s.entry;
    visible = s.visible;
    prefixed = s.prefixed;
  }

  -- What the index holds was there before or comes from a visible upstream.
  pub build_sound :
      (ups : Dict UpstreamConfig) (index : Dict String) {out : Dict String} (p key : String)
      → build_prefix_index ups profile index ≡ ok out
      → lookup p out ≡ some key
      → (lookup p index ≡ some key) ⊎ Source p key ups
  unfolding build_prefix_index
  build_sound [] index p key h found = inl (ground arith)
  build_sound ((name, u) ∷ rest) index {out} p key h found = elim (Bool-cases (is_off u)) [
    | inl off ↦ pass (build_sound rest index p key (rw off at h) found)
    | inr on ↦ elim (Bool-cases (in_profile profile u)) [
      | inr hidden ↦ pass (build_sound rest index p key (rw (on, hidden) at h) found)
      | inl seen ↦ elim (Bool-cases (has_key (lookup (prefix_of u) index))) [
        | inl taken ↦ ground arith
        | inr free ↦ added on seen (
            build_sound rest (insert (prefix_of u) name index) p key (rw (on, seen, free) at h)
              found)
      ]
    ]
  ]
    where
      pass :
          (lookup p index ≡ some key) ⊎ Source p key rest
          → (lookup p index ≡ some key) ⊎ Source p key ((name, u) ∷ rest)
      pass (inl old) = inl old
      pass (inr new) = inr (later name u new)

      added :
          is_off u ≡ false
          → in_profile profile u ≡ true
          → (lookup p (insert (prefix_of u) name index) ≡ some key) ⊎ Source p key rest
          → (lookup p index ≡ some key) ⊎ Source p key ((name, u) ∷ rest)
      added on seen (inr new) = inr (later name u new)
      added on seen (inl old) = elim (Bool-cases (prefix_of u == p)) [
        | inl same ↦ inr (record {
          upstream = u;
          entry = inl (cc (rw (lookup-insert (prefix_of u) p name index, same) at old), refl);
          visible = record { on = on; exposed = seen };
          prefixed = eq_of_test (prefix_of u) p same;
        })
        | inr differ ↦ inl (rw (lookup-insert (prefix_of u) p name index, differ) at old)
      ]
