-- ===== src/BreakGlass/Expiry.antt =====
-- How long a record is active.
use mcp_broker.Prelude.{
  ℕ, String, ◌≡◌, refl, sym, ap, subst, ◌<◌, true, false, Bool, none, some, List, arith, Bool-cases,
  inl, inr, if◌then◌else◌, leb, lookup-insert, eq_refl,
}
use mcp_broker.Prelude.Result.{Result, ok, err, bind_inv}
use mcp_broker.BreakGlass.Defs.{
  BreakGlassStore, BreakGlassError, expired, Seed, Record, Files, parse_timestamp, is_expired,
  seed_of, store, create, status, require_active_record, active_record_or_none, path_of,
  required_text, policy_paths, require_future,
}

-- What `create` has checked of the times.
record IsFuture (s : BreakGlassStore) (expires_at created_at : String) : Type 0 where
  end : ℕ
  at_end : parse_timestamp s expires_at ≡ ok end
  start : ℕ
  at_start : parse_timestamp s created_at ≡ ok start
  future : start < end

abbrev expires_of : String → Result BreakGlassError Seed → String
expires_of default (ok seed) = seed.expires_at
expires_of default (err e) = default

seed_inv :
    (s : BreakGlassStore) (reason operator expires_at : String) (paths : List String)
    (created_at : String) (seed : Seed)
    → seed_of s reason operator expires_at paths created_at ≡ ok seed
    → IsFuture s expires_at created_at × (seed.expires_at ≡ expires_at)
seed_inv s reason operator expires_at paths created_at seed h =
    let (a, _, named) = bind_inv (required_text reason "reason") _ h in
    let (b, _, operated) = bind_inv (required_text operator "operator") _ named in
    let (c, _, bounded) = bind_inv (policy_paths paths) _ operated in
    let (late, compared, required') = bind_inv (is_expired s expires_at created_at) _ bounded in
    let (_, in_time, made) = bind_inv (require_future late) _ required' in
    let (end, at_end, rest) = bind_inv (parse_timestamp s expires_at) _ compared in
    let (start, at_start, tested) = bind_inv (parse_timestamp s created_at) _ rest in
    (
      record {
        end = end;
        at_end = at_end;
        start = start;
        at_start = at_start;
        future = started end start late tested in_time;
      },
      ap (expires_of expires_at) (sym made),
    )
  where
    started :
        (end start : ℕ) (late : Bool) {b : Bool}
        → ◌≡◌ {A = Result BreakGlassError Bool} (ok (leb end start)) (ok late)
        → require_future late ≡ ok b
        → start < end
    started end start true same in_time = absurd (cc)
    started end start false same in_time = let early : leb end start ≡ false = cc in ground arith

-- From its creation to its expiry a record is active, and then no longer.
pub record IsActiveUntil (s : BreakGlassStore) (g : Files) (r : Record) (expires_at : String)
    (created_at : String) : Type 0 where
  pub end : ℕ
  pub at_end : parse_timestamp s expires_at ≡ ok end
  pub start : ℕ
  pub at_start : parse_timestamp s created_at ≡ ok start
  pub future : start < end
  pub reported :
      (now : String) (t : ℕ)
      → parse_timestamp s now ≡ ok t
      → status s now g ≡ ok (if leb end t then none else some r)
  pub demanded :
      (now : String) (t : ℕ)
      → parse_timestamp s now ≡ ok t
      → require_active_record s now g ≡ (if leb end t then err expired else ok r)

stored-active :
    (s : BreakGlassStore) (seed : Seed) (f : Files)
    → active_record_or_none (store s seed f).0 ≡ ok (some (store s seed f).1)
unfolding active_record_or_none
stored-active s seed f =
    rw
      (
        lookup-insert (path_of (s.digest seed)) (path_of (s.digest seed))
            (record { record_id = s.digest seed; seed = seed }) f.records,
        eq_refl (path_of (s.digest seed)),
        eq_refl (s.digest seed),
      )
      refl

store-IsActiveUntil :
    (s : BreakGlassStore) (seed : Seed) (f : Files) (expires_at created_at : String)
    → IsFuture s expires_at created_at
    → seed.expires_at ≡ expires_at
    → IsActiveUntil s (store s seed f).0 (store s seed f).1 expires_at created_at
unfolding status require_active_record
store-IsActiveUntil s seed f expires_at created_at k same =
    let active = stored-active s seed f in
    record {
      end = k.end;
      at_end = k.at_end;
      start = k.start;
      at_start = k.at_start;
      future = k.future;
      reported = λ now t at_now.
          rw (active, same, k.at_end, at_now)
            (elim (Bool-cases (leb k.end t)) [
              | inl late ↦ rw late refl
              | inr early ↦ rw early refl
            ]);
      demanded = λ now t at_now.
          rw (active, same, k.at_end, at_now)
            (elim (Bool-cases (leb k.end t)) [
              | inl late ↦ rw late refl
              | inr early ↦ rw early refl
            ]);
    }

-- A record that `create` returns expires after its creation. At each time before its expiry `status`
-- reports it and `require_active_record` returns it, and from its expiry on the one reports none and
-- the other raises that it has expired.
pub create-IsActiveUntil :
    (s : BreakGlassStore) (reason operator expires_at : String) (paths : List String)
    (created_at : String) (f g : Files) (r : Record)
    → create s reason operator expires_at paths created_at f ≡ ok (g, r)
    → IsActiveUntil s g r expires_at created_at
unfolding create
create-IsActiveUntil s reason operator expires_at paths created_at f g r h =
    let (seed, checked, made) =
      bind_inv (seed_of s reason operator expires_at paths created_at) _ h in
    let (future, same) = seed_inv s reason operator expires_at paths created_at seed checked in
    let here = store-IsActiveUntil s seed f expires_at created_at future same in
    subst (λ p. IsActiveUntil s p.0 p.1 expires_at created_at) (stored_same made) here
  where
    stored_same :
        {x y : Files × Record}
        → ◌≡◌ {A = Result BreakGlassError (Files × Record)} (ok x) (ok y)
        → x ≡ y
    stored_same e = cc
