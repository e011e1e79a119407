-- ===== src/BreakGlass/Defs.antt =====
-- src/mcp_broker/break_glass.py: `BreakGlassStore`. The files of the state directory are a record;
-- the paths of its records are relative to their directory. What `datetime.fromisoformat` makes of a
-- text and the digest of a record are arguments; times are counts of microseconds.
use Prim.Native.Char.{code}
use mcp_broker.Prelude.{
  ℕ, String, ◌++ₛ◌, Bool, true, false, ◌&&◌, ◌||◌, Option, none, some, List, [], ◌∷◌, ◌++◌, Dict,
  is_empty, ◌==◌, if◌then◌else◌, lookup, insert, leb, nat_eq, strip,
}
use mcp_broker.Prelude.Result.{Result, ok, err, ◌>>=◌}

pub data BreakGlassError : Type 0 where
  text_required invalid_path invalid_timestamp no_zone : String → BreakGlassError
  no_paths not_future not_active expired mismatch unreadable : BreakGlassError

-- What a record says beside its name; `audit_path` and `status` are the same in each.
pub record Seed : Type 0 where
  pub bypassed_policy_paths : List String
  pub created_at : String
  pub expires_at : String
  pub operator : String
  pub reason : String

pub record Record : Type 0 where
  pub record_id : String
  pub seed : Seed

pub record Pointer : Type 0 where
  pub record_id : String
  pub record_path : String

pub record Files : Type 0 where
  pub records : Dict Record
  pub active_pointer : Option Pointer
  pub audit : List Record

pub data Time : Type 0 where
  naive : Time
  utc : ℕ → Time

-- `parse` is `datetime.fromisoformat`, `none` its error; `digest` is the name of a record.
pub record BreakGlassStore : Type 0 where
  pub parse : String → Option Time
  pub digest : Seed → String

abbrev zoned : String → Option Time → Result BreakGlassError ℕ
zoned value none = err (invalid_timestamp value)
zoned value (some naive) = err (no_zone value)
zoned value (some (utc t)) = ok t

unfoldable pub parse_timestamp : BreakGlassStore → String → Result BreakGlassError ℕ
parse_timestamp s value = zoned value (s.parse value)

unfoldable pub required_text : String → String → Result BreakGlassError String
required_text value label =
    if is_empty (strip value) then err (text_required label) else ok (strip value)

abbrev is_letter : ℕ → Bool
is_letter c = (leb b'A' c && leb c b'Z') || (leb b'a' c && leb c b'z')

abbrev in_path : String → Bool
in_path String.[] = true
in_path (String.◌∷◌ c s) =
    (is_letter (code c)
      || (leb b'0' (code c) && leb (code c) b'9')
      || nat_eq (code c) b'_'
      || nat_eq (code c) b'.'
      || nat_eq (code c) b'-')
    && in_path s

-- `POLICY_PATH_PATTERN.fullmatch(s)`
abbrev is_policy_path : String → Bool
is_policy_path String.[] = false
is_policy_path (String.◌∷◌ c s) = is_letter (code c) && in_path s

abbrev stripped : List String → List String
stripped [] = []
stripped (v ∷ vs) = let rest = stripped vs in if is_empty (strip v) then rest else strip v ∷ rest

abbrev all_valid : List String → Result BreakGlassError (List String)
all_valid [] = ok []
all_valid (p ∷ ps) =
    let rest = all_valid ps in
    if is_policy_path p then (rest >>= λ qs. ok (p ∷ qs)) else err (invalid_path p)

abbrev any_path : List String → Result BreakGlassError (List String)
any_path [] = err no_paths
any_path (p ∷ ps) = all_valid (p ∷ ps)

unfoldable pub policy_paths : List String → Result BreakGlassError (List String)
policy_paths values = any_path (stripped values)

-- `_is_expired`
abbrev pub is_expired : BreakGlassStore → String → String → Result BreakGlassError Bool
is_expired s expires_at now = do
  end ← parse_timestamp s expires_at
  time ← parse_timestamp s now
  ok (leb end time)

abbrev pub require_future : Bool → Result BreakGlassError Bool
require_future true = err not_future
require_future false = ok true

abbrev pub seed_of :
    BreakGlassStore → String → String → String → List String → String → Result BreakGlassError Seed
seed_of s reason operator expires_at paths created_at = do
  clean_reason ← required_text reason "reason"
  clean_operator ← required_text operator "operator"
  clean_paths ← policy_paths paths
  late ← is_expired s expires_at created_at
  _ ← require_future late
  ok (record {
    bypassed_policy_paths = clean_paths;
    created_at = created_at;
    expires_at = expires_at;
    operator = clean_operator;
    reason = clean_reason;
  })

abbrev pub path_of : String → String
path_of id = id ++ₛ ".json"

abbrev pub store : BreakGlassStore → Seed → Files → Files × Record
store s seed f =
    let r : Record = record { record_id = s.digest seed; seed = seed } in
    (
      record {
        records = insert (path_of r.record_id) r f.records;
        active_pointer =
            some (record { record_id = r.record_id; record_path = path_of r.record_id });
        audit = f.audit ++ r ∷ [];
      },
      r,
    )

-- `create`; a record that is not valid leaves the files as they are.
unfoldable pub create :
    BreakGlassStore
    → String
    → String
    → String
    → List String
    → String
    → Files
    → Result BreakGlassError (Files × Record)
create s reason operator expires_at bypassed_policy_paths created_at f = do
  seed ← seed_of s reason operator expires_at bypassed_policy_paths created_at
  ok (store s seed f)

abbrev pub same_record : String → Option Record → Result BreakGlassError (Option Record)
same_record id none = err unreadable
same_record id (some r) = if r.record_id == id then ok (some r) else err mismatch

abbrev pub pointed : Files → Option Pointer → Result BreakGlassError (Option Record)
pointed f none = ok none
pointed f (some p) = same_record p.record_id (lookup p.record_path f.records)

unfoldable pub active_record_or_none : Files → Result BreakGlassError (Option Record)
active_record_or_none f = pointed f f.active_pointer

abbrev pub unless_expired : Record → Bool → Option Record
unless_expired r true = none
unless_expired r false = some r

abbrev pub status_of :
    BreakGlassStore → String → Option Record → Result BreakGlassError (Option Record)
status_of s now none = ok none
status_of s now (some r) = is_expired s r.seed.expires_at now >>= λ late. ok (unless_expired r late)

-- The active record of a status; there is one exactly if it says "active" and degraded.
unfoldable pub status : BreakGlassStore → String → Files → Result BreakGlassError (Option Record)
unfolding active_record_or_none
status s now f = active_record_or_none f >>= status_of s now

abbrev pub or_expired : Record → Bool → Result BreakGlassError Record
or_expired r true = err expired
or_expired r false = ok r

abbrev pub required : BreakGlassStore → String → Option Record → Result BreakGlassError Record
required s now none = err not_active
required s now (some r) = is_expired s r.seed.expires_at now >>= or_expired r

unfoldable pub require_active_record :
    BreakGlassStore → String → Files → Result BreakGlassError Record
unfolding active_record_or_none
require_active_record s now f = active_record_or_none f >>= required s now
