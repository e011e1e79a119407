-- ===== src/Profile/Routing.antt =====
-- Which profile a session's directory gets.
use mcp_broker.Prelude.{
  String, ◌≡◌, ◌≢◌, refl, ◌∙◌, sym, true, false, Option, some, List, [], ◌∷◌, Dict, Bool-cases, inl,
  inr, ◌⊎◌, is_empty, ◌==◌, eq_iff, lookup, contains, sort_texts, insert_text, contains-insert_text,
  contains-sort_texts, text_leb, text_leb_total, text_leb_trans,
}
use mcp_broker.Profile.{ToolExposureProfile}
use mcp_broker.Profile.Selection.{
  Resolver, claimed, first_claim, profile_names, select_profile_for_cwd,
}

-- No earlier text comes behind a later one in the order of texts.
abbrev IsSorted : List String → Type 0
IsSorted [] = Unit
IsSorted (t ∷ ts) = ((x : String) → contains ts x ≡ true → text_leb t x ≡ true) × IsSorted ts

member_cases :
    (x t : String) (ts : List String)
    → contains (t ∷ ts) x ≡ true
    → (t ≡ x) ⊎ (contains ts x ≡ true)
member_cases x t ts h = elim (Bool-cases (t == x)) [
  | inl same ↦ inl ((eq_iff t x).0 same)
  | inr other ↦ inr (rw other at h)
]

insert_text-IsSorted : (s : String) (ts : List String) → IsSorted ts → IsSorted (insert_text s ts)
insert_text-IsSorted s [] k = (λ x h. absurd (cc), tt)
insert_text-IsSorted s (t ∷ ts) (first, rest) = elim (Bool-cases (text_leb s t)) [
  | inl before ↦ rw before (
    λ x h. elim (member_cases x t ts h) [
      | inl same ↦ rw (← same) before
      | inr later ↦ text_leb_trans s t x before (first x later)
    ],
    (first, rest),
  )
  | inr behind ↦ rw behind (
    λ x h. elim (member_cases x s ts (sym (contains-insert_text x s ts) ∙ h)) [
      | inl same ↦ rw (← same) (text_leb_total s t behind)
      | inr later ↦ first x later
    ],
    insert_text-IsSorted s ts rest,
  )
]

sort_texts-IsSorted : (ts : List String) → IsSorted (sort_texts ts)
sort_texts-IsSorted [] = tt
sort_texts-IsSorted (t ∷ ts) = insert_text-IsSorted t (sort_texts ts) (sort_texts-IsSorted ts)

text_leb_refl : (t : String) → text_leb t t ≡ true
text_leb_refl t = elim (Bool-cases (text_leb t t)) [
  | inl here ↦ here
  | inr behind ↦ text_leb_total t t behind
]

claimed-named :
    (resolve : Resolver) (cwd : String) (profiles : Dict ToolExposureProfile) (name : String)
    → claimed resolve cwd (lookup name profiles) ≡ true
    → contains (profile_names profiles) name ≡ true
claimed-named resolve cwd [] name h = absurd (cc)
claimed-named resolve cwd ((key, p) ∷ rest) name h = elim (Bool-cases (key == name)) [
  | inl here ↦ rw here refl
  | inr other ↦ rw other (claimed-named resolve cwd rest name (rw other at h))
]

module _ (resolve : Resolver) (cwd : String) (profiles : Dict ToolExposureProfile)
    (requested : Option ToolExposureProfile) where
  -- A profile by its name that claims the directory.
  abbrev Claims : String → Type 0
  Claims name = claimed resolve cwd (lookup name profiles) ≡ true

  -- No name of the list claims the directory and the requested profile is given, or the profile of
  -- the first name that does, in the order of texts.
  abbrev Chosen : List String → Option ToolExposureProfile → Type 0
  Chosen names given =
      (((x : String) → contains names x ≡ true → Claims x → ⊥) × (given ≡ requested))
      ⊎ ((n : String) × Claims n
          × (given ≡ lookup n profiles)
          × ((x : String) → contains names x ≡ true → Claims x → text_leb n x ≡ true))

  first_claim-Chosen :
      (names : List String)
      → IsSorted names
      → Chosen names (first_claim resolve cwd profiles requested names)
  unfolding first_claim
  first_claim-Chosen [] k = inl (λ x h c. absurd (cc), refl)
  first_claim-Chosen (n ∷ names) (first, k) =
      elim (Bool-cases (claimed resolve cwd (lookup n profiles))) [
        | inl here ↦ inr (
          n,
          here,
          rw here refl,
          λ x h c. elim (member_cases x n names h) [
            | inl same ↦ rw (← same) (text_leb_refl n)
            | inr later ↦ first x later
          ],
        )
        | inr other ↦ rw other (elim (first_claim-Chosen names k) [
          | inl (none', given) ↦ inl (
            λ x h c. elim (member_cases x n names h) [
              | inl same ↦ absurd (cc)
              | inr later ↦ none' x later c
            ],
            given,
          )
          | inr (m, claims', given, least) ↦ inr (
            m,
            claims',
            given,
            λ x h c. elim (member_cases x n names h) [
              | inl same ↦ absurd (cc)
              | inr later ↦ least x later c
            ],
          )
        ])
      ]

-- For a session in a directory, the profile with the first name, in the order of texts, of those
-- that claim the directory is selected, whatever profile was requested; the requested one is
-- selected where none claims it.
pub select_profile_for_cwd_sound :
    (resolve : Resolver) (cwd : String) (profiles : Dict ToolExposureProfile)
    (requested : Option ToolExposureProfile)
    → is_empty cwd ≡ false
    → (let given : Option ToolExposureProfile =
          select_profile_for_cwd resolve profiles requested (some cwd) in
        (((x : String) → claimed resolve cwd (lookup x profiles) ≢ true) × (given ≡ requested))
        ⊎ ((n : String) × (claimed resolve cwd (lookup n profiles) ≡ true)
            × (given ≡ lookup n profiles)
            × ((x : String)
                → claimed resolve cwd (lookup x profiles) ≡ true
                → text_leb n x ≡ true)))
unfolding select_profile_for_cwd
select_profile_for_cwd_sound resolve cwd profiles requested full =
    let names = profile_names profiles in
    let among : (x : String)
        → claimed resolve cwd (lookup x profiles) ≡ true
        → contains (sort_texts names) x ≡ true =
      λ x c. contains-sort_texts x names ∙ claimed-named resolve cwd profiles x c in
    rw full
      (elim (first_claim-Chosen resolve cwd profiles requested (sort_texts names)
        (sort_texts-IsSorted names)) [
          | inl (none', given) ↦ inl (λ x c. none' x (among x c) c, given)
          | inr (n, claims', given, least) ↦ inr (n, claims', given, λ x c. least x (among x c) c)
        ])
