-- ===== src/SharedState/Progress.antt =====
-- That a client can always get on: the lock expires, and the next holder can write.
use mcp_broker.Prelude.{
  ℕ, ◌≤◌, ◌<◌, String, ◌≡◌, refl, true, false, Option, none, some, Dict, arith, leb, eq_refl,
}
use mcp_broker.Prelude.Result.{ok}
use mcp_broker.Value.{ℤ, Value, max_zero}
use mcp_broker.SharedPolicy.{TenantContext, required_text, validate_tenant_context}
use mcp_broker.SharedState.Defs.{
  Lock, Record, Files, Time, utc, run, result_of, acquire_lock, apply_state, matches, lock_at,
  is_held, take_lock, revision_of, next_revision, same_revision,
}
use mcp_broker.SharedState.Applying.{apply_state_sound}
use mcp_broker.SharedState.Fencing.{acquire_lock_sound}

-- The time at which a lock expires.
abbrev pub expiry : Option Lock → ℕ
expiry none = 0
expiry (some l) = l.expires_at

expired : (o : Option Lock) (now : ℕ) → expiry o ≤ now → is_held o now ≡ false
expired none now h = refl
expired (some l) now h = ground arith

take_lock-taken :
    (context : TenantContext) (owner : String) (now ttl : ℕ) (f : Files)
    → (l : Lock) × (result_of (take_lock context owner now ttl f) ≡ ok l)
take_lock-taken context owner now ttl f = (_, refl)

lock_at-taken :
    (context : TenantContext) (owner : String) (now : ℕ) (ttl : ℕ) (f : Files)
    → 0 < ttl
    → is_held f.lock now ≡ false
    → (l : Lock) × (result_of (lock_at context owner (utc now) ttl f) ≡ ok l)
lock_at-taken context owner now ttl f h free =
    let (l, taken) = take_lock-taken context owner now ttl f in
    let positive : leb ttl 0 ≡ false = ground arith in (l, rw (positive, free) taken)

matches_refl : (l : Lock) → matches l l ≡ true
matches_refl l = rw (eq_refl l.owner_id) (ground arith)

same_revision_refl : (o : Option ℕ) → same_revision o o ≡ true
same_revision_refl none = refl
same_revision_refl (some n) = ground arith

-- A lock is given, and a state that is applied with it to the revision that the files hold is
-- returned, and is then the active one of the files.
pub record Lands (owner : String) (context state : Dict Value) (now : Time) (ttl : ℤ) (f : Files)
    : Type 0 where
  pub lock : Lock
  pub taken : result_of (acquire_lock owner context now ttl f) ≡ ok lock
  pub made : Record
  pub written :
      result_of (
        apply_state lock state
          (revision_of f.active)
          (run (acquire_lock owner context now ttl f) f))
      ≡ ok made
  pub content : made.state ≡ state
  pub stored :
      (run
        (apply_state lock state
          (revision_of f.active)
          (run (acquire_lock owner context now ttl f) f))
        (run (acquire_lock owner context now ttl f) f)).active
      ≡ some made

apply_held :
    (l : Lock) (state : Dict Value) (f : Files)
    → f.lock ≡ some l
    → (r : Record) × (result_of (apply_state l state (revision_of f.active) f) ≡ ok r)
      × (r.state ≡ state)
unfolding apply_state
apply_held l state f held = (
  record { revision = next_revision (revision_of f.active) f.journal; state = state },
  rw (held, matches_refl l, same_revision_refl (revision_of f.active)) refl,
  refl,
)

acquire_lock-taken :
    (owner o : String) (context : Dict Value) (t : TenantContext) (now : ℕ) (ttl : ℤ) (f : Files)
    → validate_tenant_context context ≡ ok t
    → required_text owner "owner_id" ≡ ok o
    → 0 < max_zero ttl
    → expiry f.lock ≤ now
    → (l : Lock) × (result_of (acquire_lock owner context (utc now) ttl f) ≡ ok l)
unfolding acquire_lock
acquire_lock-taken owner o context t now ttl f valid named positive late =
    rw (valid, named) (lock_at-taken t o now (max_zero ttl) f positive (expired f.lock now late))

-- The lock of a client that never comes back holds up no other for longer than its time: whatever
-- the files hold, at any time from the lock's expiry on a valid request for the lock is granted, and
-- the state that is then applied with it, against the revision that was active, is returned as a
-- record that the files then hold as the active one.
pub acquire_lock-Lands :
    (owner o : String) (context state : Dict Value) (t : TenantContext) (now : ℕ) (ttl : ℤ)
    (f : Files)
    → validate_tenant_context context ≡ ok t
    → required_text owner "owner_id" ≡ ok o
    → 0 < max_zero ttl
    → expiry f.lock ≤ now
    → Lands owner context state (utc now) ttl f
acquire_lock-Lands owner o context state t now ttl f valid named positive late =
    let (l, taken) = acquire_lock-taken owner o context t now ttl f valid named positive late in
    let (_, _, g) = acquire_lock_sound owner context (utc now) ttl f l taken in
    let (r, written, content) =
      apply_held l state (run (acquire_lock owner context (utc now) ttl f) f) g.stored in
    let given : result_of (
          apply_state l state (revision_of f.active)
            (run (acquire_lock owner context (utc now) ttl f) f))
        ≡ ok r =
      rw g.unchanged.0 at written in
    record {
      lock = l;
      taken = taken;
      made = r;
      written = given;
      content = content;
      stored =
          (apply_state_sound l state (revision_of f.active)
            (run (acquire_lock owner context (utc now) ttl f) f) r given).1;
    }
