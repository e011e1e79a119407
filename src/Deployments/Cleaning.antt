-- ===== src/Deployments/Cleaning.antt =====
-- Removing the partial files.
use mcp_broker.Prelude.{
  String, ◌≡◌, refl, true, false, List, [], ◌∷◌, contains, arith, eq_iff, eq_refl, ◌==◌, Bool-cases,
  inl, inr,
}
use mcp_broker.Deployments.Defs.{Files, write_all, remove, remove_all}

contains-remove :
    (x name : String) (xs : List String)
    → contains (remove name xs) x ≡ true
    → (contains xs x ≡ true) × (name == x ≡ false)
contains-remove x name [] h = absurd (cc)
contains-remove x name (y ∷ ys) h = elim (Bool-cases (y == name)) [
  | inl same ↦ let (k, other) = contains-remove x name ys (rw same at h) in (ground arith, other)
  | inr different ↦ elim (Bool-cases (y == x)) [
    | inl here ↦ (rw here refl, ground (arith, eq_iff y name, eq_iff y x, eq_iff name x))
    | inr elsewhere ↦
        let (k, other) = contains-remove x name ys (rw (different, elsewhere) at h) in
        (rw elsewhere k, other)
  ]
]

-- Files without partial ones, and otherwise the same records and active pointer.
pub record Cleaned (f g : Files) : Type 0 where
  pub clean : g.partials ≡ []
  pub records : g.records ≡ f.records
  pub active : g.active ≡ f.active

no_members : (xs : List String) → ((x : String) → contains xs x ≡ true → ⊥) → xs ≡ []
no_members [] h = refl
no_members (x ∷ xs) h = absurd (h x (rw (eq_refl x) refl))

pub remove_all-Cleaned :
    (names : List String) (f : Files)
    → ((x : String) → contains f.partials x ≡ true → contains names x ≡ true)
    → Cleaned f (write_all (remove_all names) f)
remove_all-Cleaned [] f h = record {
  clean = no_members f.partials (λ x k. absurd (cc (h x k)));
  records = refl;
  active = refl;
}
remove_all-Cleaned (name ∷ names) f h =
    let c =
      remove_all-Cleaned names (record f { partials = remove name f.partials })
        (λ x k. ground (
          arith,
          contains-remove x name f.partials k,
          h x (contains-remove x name f.partials k).0,
        )) in
    record { clean = c.clean; records = c.records; active = c.active }
