-- ===== src/SharedState/Fencing.antt =====
-- The lock: who gets it, and what a holder that has lost it can still do.
use mcp_broker.Prelude.{
  ℕ, ◌+◌, ◌*◌, ◌≤◌, ◌<◌, String, ◌≡◌, refl, ◌∙◌, false, Option, none, some, List, [], ◌∷◌, Dict,
  arith, inl, inr,
}
use mcp_broker.Prelude.Result.{ok, err, Result-cases}
use mcp_broker.Value.{ℤ, Value, max_zero}
use mcp_broker.SharedPolicy.Boundaries.{required_text_same}
use mcp_broker.SharedPolicy.{TenantContext, required_text, validate_tenant_context}
use mcp_broker.SharedState.Defs.{
  Lock, Files, Time, naive, utc, run, result_of, acquire_lock, apply_state, roll_back, recover,
  StateError, lock_mismatch, matches, lock_at, lock_by, microseconds,
}
use mcp_broker.SharedState.Recovery.{
  Operation, acquiring, applying, rolling_back, recovering, perform, perform_all,
}

-- The number of the last lock that was given out.
abbrev pub issued : Option ℕ → ℕ
issued none = 0
issued (some n) = n

-- What a granted lock is, and what it needed.
pub record Granted (owner : String) (now : ℕ) (ttl : ℕ) (f : Files) (l : Lock) (after : Files)
    : Type 0 where
  pub fresh : l.token ≡ issued f.lock_counter + 1
  pub owned : l.owner_id ≡ owner
  pub lasting : (now < l.expires_at) × (l.expires_at ≡ now + ttl * microseconds)
  pub free : (held : Lock) → f.lock ≡ some held → held.expires_at ≤ now
  pub stored : after.lock ≡ some l
  pub counted : after.lock_counter ≡ some l.token
  pub unchanged :
      (after.active ≡ f.active) × (after.previous ≡ f.previous) × (after.journal ≡ f.journal)

lock_at-Granted :
    (context : TenantContext) (owner : String) (now : ℕ) (ttl : ℕ) (f : Files) (l : Lock)
    → result_of (lock_at context owner (utc now) ttl f) ≡ ok l
    → Granted owner now ttl f l (run (lock_at context owner (utc now) ttl f) f)
lock_at-Granted context owner now ttl f l h = record {
  fresh = ground arith;
  owned = ground arith;
  lasting = (ground arith, ground arith);
  free = λ held e. ground arith;
  stored = ground arith;
  counted = ground arith;
  unchanged = (ground arith, ground arith, ground arith);
}

-- `acquire_lock` gives a lock only at a time with a zone and for a positive time to live, and only
-- if the lock that the files hold has expired by then. The lock is the asker's own, with a token
-- that is one above the last that was given out; it lasts for the time asked and is what the files
-- hold from then on. The records and the journal stay as they are.
pub acquire_lock_sound :
    (owner : String) (context : Dict Value) (now : Time) (ttl : ℤ) (f : Files) (l : Lock)
    → result_of (acquire_lock owner context now ttl f) ≡ ok l
    → (t : ℕ) × (now ≡ utc t)
      × Granted owner t (max_zero ttl) f l (run (acquire_lock owner context now ttl f) f)
unfolding acquire_lock
acquire_lock_sound owner context now ttl f l h =
    elim (Result-cases (validate_tenant_context context)) [
      | inr (e, failed) ↦ ground arith
      | inl (c, valid) ↦ elim (Result-cases (required_text owner "owner_id")) [
        | inr (e, failed) ↦ ground arith
        | inl (o, named) ↦ at_time c o now valid named (rw (valid, named) at h)
      ]
    ]
  where
    at_time :
        (c : TenantContext) (o : String) (time : Time)
        → validate_tenant_context context ≡ ok c
        → required_text owner "owner_id" ≡ ok o
        → result_of (lock_at c o time (max_zero ttl) f) ≡ ok l
        → (t : ℕ) × (time ≡ utc t)
          × Granted owner t (max_zero ttl) f l (
              run
                (lock_by
                  (validate_tenant_context context)
                  (required_text owner "owner_id")
                  time
                  (max_zero ttl)
                  f)
                f)
    at_time c o naive valid named r = absurd (cc)
    at_time c o (utc t) valid named r =
        let same : o ≡ owner = required_text_same owner _ o named in
        let granted = lock_at-Granted c owner t (max_zero ttl) f l (rw same at r) in
        (t, refl, rw (valid, named, same) granted)

-- A lock with the token `n` or a later one is held, and no later token than the counter's was
-- given out.
record IsBeyond (n : ℕ) (f : Files) : Type 0 where
  current : Lock
  held : f.lock ≡ some current
  late : n ≤ current.token
  counted : n ≤ issued f.lock_counter

pub record IsSameLock (f g : Files) : Type 0 where
  pub lock : g.lock ≡ f.lock
  pub counter : g.lock_counter ≡ f.lock_counter

IsBeyond-same : {n : ℕ} {f g : Files} → IsSameLock f g → IsBeyond n f → IsBeyond n g
IsBeyond-same s b = record {
  current = b.current;
  held = s.lock ∙ b.held;
  late = b.late;
  counted = rw s.counter b.counted;
}

apply-IsSameLock :
    (l : Lock) (state : Dict Value) (expected : Option ℕ) (f : Files)
    → IsSameLock f (run (apply_state l state expected f) f)
unfolding apply_state
apply-IsSameLock l state expected f = record { lock = ground arith; counter = ground arith }

roll_back-IsSameLock : (l : Lock) (f : Files) → IsSameLock f (run (roll_back l f) f)
unfolding roll_back
roll_back-IsSameLock l f = record { lock = ground arith; counter = ground arith }

recover-IsSameLock : (f : Files) → IsSameLock f (run (recover f) f)
unfolding recover
recover-IsSameLock f = record { lock = ground arith; counter = ground arith }

pub acquire_failed :
    (owner : String) (context : Dict Value) (now : Time) (ttl : ℤ) (f : Files) {e : StateError}
    → result_of (acquire_lock owner context now ttl f) ≡ err e
    → IsSameLock f (run (acquire_lock owner context now ttl f) f)
unfolding acquire_lock
acquire_failed owner context now ttl f h = record { lock = ground arith; counter = ground arith }

perform-IsBeyond : {n : ℕ} (o : Operation) (f : Files) → IsBeyond n f → IsBeyond n (perform o f)
perform-IsBeyond (applying l state expected) f b =
    IsBeyond-same (apply-IsSameLock l state expected f) b
perform-IsBeyond (rolling_back l) f b = IsBeyond-same (roll_back-IsSameLock l f) b
perform-IsBeyond recovering f b = IsBeyond-same (recover-IsSameLock f) b
perform-IsBeyond (acquiring owner context now ttl) f b =
    elim (Result-cases (result_of (acquire_lock owner context now ttl f))) [
      | inr (e, failed) ↦ IsBeyond-same (acquire_failed owner context now ttl f failed) b
      | inl (l, passed) ↦
          let (t, _, g) = acquire_lock_sound owner context now ttl f l passed in
          let fresh = g.fresh in
          let before = b.counted in
          record {
            current = l;
            held = g.stored;
            late = omega arith;
            counted = rw g.counted (omega arith);
          }
    ]

perform_all-IsBeyond :
    {n : ℕ} (os : List Operation) (f : Files) → IsBeyond n f → IsBeyond n (perform_all os f)
perform_all-IsBeyond [] f b = b
perform_all-IsBeyond (o ∷ os) f b = perform_all-IsBeyond os (perform o f) (perform-IsBeyond o f b)

other_token : (a l : Lock) → l.token < a.token → matches a l ≡ false
other_token a l h = ground arith

apply_refused :
    (l : Lock) (state : Dict Value) (expected : Option ℕ) (f : Files)
    → IsBeyond (l.token + 1) f
    → (result_of (apply_state l state expected f) ≡ err lock_mismatch)
      × ((run (apply_state l state expected f) f).active ≡ f.active)
      × ((run (apply_state l state expected f) f).journal ≡ f.journal)
unfolding apply_state
apply_refused l state expected f b =
    let late = b.late in
    let other = other_token b.current l (omega arith) in
    (rw (b.held, other), rw (b.held, other), rw (b.held, other))

-- Once another lock has been given out, a holder of an earlier token can no longer change the
-- state, whatever operations run in between: `apply_state` with its lock raises the mismatch of the
-- lock and leaves the active record and the journal as they are.
pub apply_state-fenced :
    (f : Files) (old l : Lock) (owner : String) (context : Dict Value) (now : Time) (ttl : ℤ)
    (os : List Operation) (state : Dict Value) (expected : Option ℕ)
    → old.token ≤ issued f.lock_counter
    → result_of (acquire_lock owner context now ttl f) ≡ ok l
    → (let g : Files = perform_all os (run (acquire_lock owner context now ttl f) f) in
        (result_of (apply_state old state expected g) ≡ err lock_mismatch)
        × ((run (apply_state old state expected g) g).active ≡ g.active)
        × ((run (apply_state old state expected g) g).journal ≡ g.journal))
apply_state-fenced f old l owner context now ttl os state expected given passed =
    let (t, _, g) = acquire_lock_sound owner context now ttl f l passed in
    let fresh = g.fresh in
    apply_refused old state expected _ (
      perform_all-IsBeyond os _ (record {
        current = l;
        held = g.stored;
        late = omega arith;
        counted = rw g.counted (omega arith);
      }))
