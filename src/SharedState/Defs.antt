-- ===== src/SharedState/Defs.antt =====
-- src/mcp_broker/distributed_state.py: `DistributedStateStore`.
-- The files of the state directory are a record: each holds what this store writes there. A method
-- returns its result, or the error that it raises, with the files as it leaves them. A method's
-- writes after its checks are a list of atomic writes, so that a stop between two of them can be
-- told. Times are counts of microseconds; a lock's token is the number that the source pads with
-- zeros.
use mcp_broker.Prelude.{
  ℕ, ◌+◌, ◌*◌, String, Bool, true, false, ◌&&◌, Option, none, some, List, [], ◌∷◌, ◌++◌, Dict, ◌==◌,
  if◌then◌else◌, ltb, leb, nat_eq,
}
use mcp_broker.Prelude.Result.{Result, ok, err}
use mcp_broker.Value.{ℤ, max_zero, Value}
use mcp_broker.SharedPolicy.{IdentifierError, TenantContext, required_text, validate_tenant_context}

pub record Lock : Type 0 where
  pub owner_id : String
  pub token : ℕ
  pub tenant : TenantContext
  pub acquired_at : ℕ
  pub expires_at : ℕ

-- The key `status` of a record is always "active".
pub record Record : Type 0 where
  pub revision : ℕ
  pub state : Dict Value

pub data JournalEntry : Type 0 where
  apply : Record → Option Record → JournalEntry
  rollback : Record → Record → JournalEntry

pub data Audit : Type 0 where
  lock_denied : TenantContext → String → Audit
  lock_recovered : TenantContext → String → String → ℕ → Audit
  lock_acquired : TenantContext → String → Audit
  token_mismatch : Lock → Audit
  revision_conflict : Lock → Audit
  applied : Lock → ℕ → Audit
  rolled_back : Lock → ℕ → Audit
  recovery_checked : ℕ → Audit
  recovery_replayed : ℕ → Audit

pub data StateError : Type 0 where
  bad_identifier : IdentifierError → StateError
  naive_time : StateError
  ttl_not_positive : StateError
  lock_is_held : StateError
  lock_is_missing : StateError
  lock_mismatch : StateError
  active_conflict : StateError
  active_is_missing : StateError
  previous_is_missing : StateError
  no_journal : StateError

pub record Files : Type 0 where
  pub lock : Option Lock
  pub lock_counter : Option ℕ
  pub active : Option Record
  pub previous : Option Record
  pub journal : List JournalEntry
  pub audit : List Audit

abbrev pub no_files : Files
no_files = record {
  lock = none;
  lock_counter = none;
  active = none;
  previous = none;
  journal = [];
  audit = [];
}

-- One call of `_write_json_atomic`, `_append_journal` or `_append_audit`.
pub data Write : Type 0 where
  put_lock : Lock → Write
  put_counter : ℕ → Write
  put_active : Record → Write
  put_previous : Record → Write
  add_journal : JournalEntry → Write
  add_audit : Audit → Write

abbrev pub write : Write → Files → Files
write (put_lock l) f = record f { lock = some l }
write (put_counter n) f = record f { lock_counter = some n }
write (put_active r) f = record f { active = some r }
write (put_previous r) f = record f { previous = some r }
write (add_journal e) f = record f { journal = f.journal ++ e ∷ [] }
write (add_audit a) f = record f { audit = f.audit ++ a ∷ [] }

abbrev pub write_all : List Write → Files → Files
write_all [] f = f
write_all (w ∷ ws) f = write_all ws (write w f)

-- What a method decides: the writes that it makes in order, and its result.
pub data Plan (A : Type 0) : Type 0 where
  returns : List Write → A → Plan A
  raises : List Write → StateError → Plan A

abbrev pub writes_of : {A : Type 0} → Plan A → List Write
writes_of (returns ws a) = ws
writes_of (raises ws e) = ws

abbrev pub result_of : {A : Type 0} → Plan A → Result StateError A
result_of (returns ws a) = ok a
result_of (raises ws e) = err e

-- The files after a method, and after a stop behind its first writes.
abbrev pub run : {A : Type 0} → Plan A → Files → Files
run p f = write_all (writes_of p) f

-- `now`, with or without a time zone
pub data Time : Type 0 where
  naive : Time
  utc : ℕ → Time

abbrev pub microseconds : ℕ
microseconds = 1_000_000

abbrev next_token : Option ℕ → ℕ
next_token none = 1
next_token (some n) = n + 1

abbrev recovered : TenantContext → String → Option Lock → List Write
recovered context owner none = []
recovered context owner (some l) = add_audit (lock_recovered context owner l.owner_id l.token) ∷ []

abbrev pub take_lock : TenantContext → String → ℕ → ℕ → Files → Plan Lock
take_lock context owner now ttl f =
    let token = next_token f.lock_counter in
    let l : Lock = record {
      owner_id = owner;
      token = token;
      tenant = context;
      acquired_at = now;
      expires_at = now + ttl * microseconds;
    } in
    returns
      (recovered context owner f.lock
        ++ put_counter token ∷ put_lock l ∷ add_audit (lock_acquired context owner) ∷ [])
      l

abbrev pub is_held : Option Lock → ℕ → Bool
is_held none now = false
is_held (some l) now = ltb now l.expires_at

abbrev pub lock_at : TenantContext → String → Time → ℕ → Files → Plan Lock
lock_at context owner naive ttl f = raises [] naive_time
lock_at context owner (utc now) ttl f =
    if leb ttl 0
    then raises [] ttl_not_positive
    else if is_held f.lock now
    then raises (add_audit (lock_denied context owner) ∷ []) lock_is_held
    else take_lock context owner now ttl f

abbrev pub lock_by :
    Result IdentifierError TenantContext
    → Result IdentifierError String
    → Time
    → ℕ
    → Files
    → Plan Lock
lock_by (err e) owner now ttl f = raises [] (bad_identifier e)
lock_by (ok context) (err e) now ttl f = raises [] (bad_identifier e)
lock_by (ok context) (ok owner) now ttl f = lock_at context owner now ttl f

-- `ttl_seconds <= 0` is read of `max(0, ttl_seconds)`.
unfoldable pub acquire_lock : String → Dict Value → Time → ℤ → Files → Plan Lock
acquire_lock owner_id tenant_context now ttl_seconds f =
    lock_by (validate_tenant_context tenant_context) (required_text owner_id "owner_id") now
      (max_zero ttl_seconds) f

-- `_require_matching_lock`, and then the rest of the method
abbrev pub matches : Lock → Lock → Bool
matches current l = current.owner_id == l.owner_id && nat_eq current.token l.token

abbrev pub with_lock : {A : Type 0} → Option Lock → Lock → Plan A → Plan A
with_lock none l rest = raises [] lock_is_missing
with_lock (some current) l rest =
    if matches current l then rest else raises (add_audit (token_mismatch l) ∷ []) lock_mismatch

abbrev pub revision_of : Option Record → Option ℕ
revision_of none = none
revision_of (some r) = some r.revision

abbrev max : ℕ → ℕ → ℕ
max a b = if ltb a b then b else a

-- The loop over the journal of `_next_revision`.
unfoldable pub latest_revision : ℕ → List JournalEntry → ℕ
latest_revision latest [] = latest
latest_revision latest (apply r previous ∷ rest) = latest_revision (max latest r.revision) rest
latest_revision latest (rollback a p ∷ rest) =
    latest_revision (max (max latest a.revision) p.revision) rest

abbrev pub next_revision : Option ℕ → List JournalEntry → ℕ
next_revision (some n) journal = n + 1
next_revision none journal = latest_revision 0 journal + 1

abbrev pub keep_previous : Option Record → List Write
keep_previous none = []
keep_previous (some r) = put_previous r ∷ []

abbrev pub same_revision : Option ℕ → Option ℕ → Bool
same_revision none none = true
same_revision (some a) (some b) = nat_eq a b
same_revision _ _ = false

abbrev pub replace_active : Lock → Record → Files → Plan Record
replace_active l r f =
    returns
      (keep_previous f.active
        ++ put_active r ∷ add_journal (apply r f.active) ∷ add_audit (applied l r.revision) ∷ [])
      r

abbrev pub apply_matching : Lock → Dict Value → Option ℕ → Files → Plan Record
apply_matching l state expected f =
    if same_revision (revision_of f.active) expected
    then replace_active l
        (record { revision = next_revision (revision_of f.active) f.journal; state = state }) f
    else raises (add_audit (revision_conflict l) ∷ []) active_conflict

-- The state's keys are sorted when it is stored; as a mapping it stays the same.
unfoldable pub apply_state : Lock → Dict Value → Option ℕ → Files → Plan Record
apply_state l state expected_active_revision f =
    with_lock f.lock l (apply_matching l state expected_active_revision f)

pub record Revisions : Type 0 where
  pub active_revision : ℕ
  pub previous_revision : ℕ

abbrev pub exchange : Lock → Option Record → Option Record → Plan Revisions
exchange l none previous = raises [] active_is_missing
exchange l (some a) none = raises [] previous_is_missing
exchange l (some a) (some p) =
    returns
      (put_active p
        ∷ put_previous a
        ∷ add_journal (rollback p a)
        ∷ add_audit (rolled_back l p.revision)
        ∷ [])
      (record { active_revision = p.revision; previous_revision = a.revision })

unfoldable pub roll_back : Lock → Files → Plan Revisions
roll_back l f = with_lock f.lock l (exchange l f.active f.previous)

-- `_replay_journal`: the active and the previous record that the journal leads to
abbrev pub replay_step :
    JournalEntry → Option Record × Option Record → Option Record × Option Record
replay_step (apply r previous) (active, _) = (some r, active)
replay_step (rollback a p) _ = (some a, some p)

abbrev pub replay_from :
    Option Record × Option Record → List JournalEntry → Option Record × Option Record
replay_from s [] = s
replay_from s (e ∷ rest) = replay_from (replay_step e s) rest

abbrev pub replay : List JournalEntry → Option Record × Option Record
replay journal = replay_from (none, none) journal

pub record Recovery : Type 0 where
  pub active_revision : ℕ
  pub replayed : Bool

abbrev pub recover_replayed : Option Record × Option Record → Plan Recovery
recover_replayed (none, previous) = raises [] no_journal
recover_replayed (some a, previous) =
    returns
      (put_active a ∷ (keep_previous previous ++ add_audit (recovery_replayed a.revision) ∷ []))
      (record { active_revision = a.revision; replayed = true })

abbrev pub recover_from : Option Record → List JournalEntry → Plan Recovery
recover_from (some a) journal =
    returns (add_audit (recovery_checked a.revision) ∷ [])
      (record { active_revision = a.revision; replayed = false })
recover_from none journal = recover_replayed (replay journal)

-- The partial files that `recover` removes first are never read, so they are no part of `Files`.
unfoldable pub recover : Files → Plan Recovery
recover f = recover_from f.active f.journal
