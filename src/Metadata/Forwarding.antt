-- ===== src/Metadata/Forwarding.antt =====
-- What a caller may pass on of its metadata.
use mcp_broker.Prelude.{
  String, ◌≡◌, refl, false, Option, none, some, List, [], ◌∷◌, Dict, if◌then◌else◌, lookup,
  lookup-insert, contains, arith, ◌==◌, Bool-cases, inl, inr, eq_of_test, eq_refl,
}
use mcp_broker.Value.{Value}
use mcp_broker.Metadata.Defs.{copy, forward_onto, forwarded_request_metadata}

-- The first, if there is one.
abbrev pub or_then : Option Value → Option Value → Option Value
or_then none later = later
or_then (some v) later = some v

copied :
    (k : String) (o : Option Value) (out : Dict Value)
    → lookup k (copy k o out) ≡ or_then o (lookup k out)
copied k none out = refl
copied k (some v) out = rw (lookup-insert k k v out, eq_refl k) refl

lookup-copy :
    (k name : String) (metadata out : Dict Value)
    → lookup k (copy name (lookup name metadata) out)
      ≡ (if name == k then or_then (lookup k metadata) (lookup k out) else lookup k out)
lookup-copy k name metadata out = elim (Bool-cases (name == k)) [
  | inl same ↦ rw (same, eq_of_test name k same) (copied k (lookup k metadata) out)
  | inr other ↦ rw other (kept (lookup name metadata) other)
]
  where
    kept : (o : Option Value) → name == k ≡ false → lookup k (copy name o out) ≡ lookup k out
    kept none other = refl
    kept (some v) other = rw (lookup-insert name k v out, other) refl

lookup-forward_onto :
    (k : String) (names : List String) (metadata out : Dict Value)
    → lookup k (forward_onto out names metadata)
      ≡ (if contains names k then or_then (lookup k metadata) (lookup k out) else lookup k out)
unfolding forward_onto
lookup-forward_onto k [] metadata out = refl
lookup-forward_onto k (name ∷ names) metadata out = ground (
  arith,
  lookup-forward_onto k names metadata (copy name (lookup name metadata) out),
  lookup-copy k name metadata out,
)

or_then-none : (o : Option Value) → or_then o none ≡ o
or_then-none none = refl
or_then-none (some v) = refl

pub lookup-forwarded :
    (k : String) (names : List String) (metadata : Dict Value)
    → lookup k (forwarded_request_metadata names metadata)
      ≡ (if contains names k then lookup k metadata else none)
unfolding forwarded_request_metadata
lookup-forwarded k names metadata =
    rw (lookup-forward_onto k names metadata [], or_then-none (lookup k metadata)) refl
