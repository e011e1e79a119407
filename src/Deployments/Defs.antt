-- ===== src/Deployments/Defs.antt =====
-- src/mcp_broker/deployments.py: `DeploymentStore`.
-- The files of the state directory are a record. The paths of the deployments' records are relative
-- to the directory of the records, which stand in the order of their last change. A method returns
-- its result or raises, with the changes that it makes to the files in order, so that a stop between
-- two of them can be told; each atomic write is two, the temporary file and its renaming. The
-- journal's entries and the records are kept without their times.
use mcp_broker.Prelude.{
  String, ◌++ₛ◌, Bool, true, false, Option, none, some, List, [], ◌∷◌, ◌++◌, Dict, ◌==◌,
  if◌then◌else◌, lookup, sort_texts,
}
use mcp_broker.Prelude.Result.{Result, ok, err}
use mcp_broker.Deployments.Names.{deployment_id}

-- What `validate_bundle_file` reports of a bundle that it lets pass, and `bundle_checksum`.
pub record Bundle : Type 0 where
  pub bundle_path : String
  pub bundle_id : String
  pub version : String
  pub schema_version : String
  pub checksum_algorithm : String
  pub checksum : String

-- The key `status` of a record is always "active".
pub record Record : Type 0 where
  pub deployment_id : String
  pub bundle : Bundle

pub record Pointer : Type 0 where
  pub deployment_id : String
  pub record_path : String

pub data JournalEntry : Type 0 where
  activate : String → Option String → JournalEntry
  rollback : String → String → JournalEntry
  recover : Option String → List String → JournalEntry

pub data DeploymentError : Type 0 where
  no_active no_previous no_records : DeploymentError
  no_record : String → DeploymentError

pub record Files : Type 0 where
  pub records : Dict Record
  pub active : Option Pointer
  pub previous : Option Pointer
  pub journal : List JournalEntry
  pub partials : List String

abbrev pub no_files : Files
no_files = record { records = []; active = none; previous = none; journal = []; partials = [] }

abbrev pub remove : String → List String → List String
remove name [] = []
remove name (x ∷ xs) = if x == name then remove name xs else x ∷ remove name xs

abbrev pub add : String → List String → List String
add name xs = name ∷ remove name xs

-- A file that is written anew is the last to have changed.
abbrev pub put_last : String → Record → Dict Record → Dict Record
put_last path r [] = (path, r) ∷ []
put_last path r ((p, q) ∷ rest) =
    if p == path then put_last path r rest else (p, q) ∷ put_last path r rest

pub data Write : Type 0 where
  begin_file : String → Write
  put_record : String → Record → Write
  put_active : Pointer → Write
  put_previous : Pointer → Write
  add_journal : JournalEntry → Write
  remove_partial : String → Write

abbrev pub record_tmp : String → String
record_tmp path = "records/" ++ₛ (path ++ₛ ".tmp")

abbrev pub active_tmp : String
active_tmp = "active.json.tmp"

abbrev pub previous_tmp : String
previous_tmp = "previous.json.tmp"

abbrev pub write : Write → Files → Files
write (begin_file name) f = record f { partials = add name f.partials }
write (put_record path r) f = record f {
  records = put_last path r f.records;
  partials = remove (record_tmp path) f.partials;
}
write (put_active p) f = record f { active = some p; partials = remove active_tmp f.partials }
write (put_previous p) f = record f { previous = some p; partials = remove previous_tmp f.partials }
write (add_journal e) f = record f { journal = f.journal ++ e ∷ [] }
write (remove_partial name) f = record f { partials = remove name f.partials }

abbrev pub write_all : List Write → Files → Files
write_all [] f = f
write_all (w ∷ ws) f = write_all ws (write w f)

-- What a method decides: the changes that it makes in order, and its result.
pub data Plan (A : Type 0) : Type 0 where
  returns : List Write → A → Plan A
  raises : List Write → DeploymentError → Plan A

abbrev pub writes_of : {A : Type 0} → Plan A → List Write
writes_of (returns ws a) = ws
writes_of (raises ws e) = ws

abbrev pub result_of : {A : Type 0} → Plan A → Result DeploymentError A
result_of (returns ws a) = ok a
result_of (raises ws e) = err e

abbrev pub run : {A : Type 0} → Plan A → Files → Files
run p f = write_all (writes_of p) f

-- `_write_json_atomic`
abbrev pub write_record : String → Record → List Write
write_record path r = begin_file (record_tmp path) ∷ put_record path r ∷ []

abbrev pub write_active : Pointer → List Write
write_active p = begin_file active_tmp ∷ put_active p ∷ []

abbrev pub write_previous : Pointer → List Write
write_previous p = begin_file previous_tmp ∷ put_previous p ∷ []

abbrev pub record_of : Bundle → Record
record_of b = record { deployment_id = deployment_id b.bundle_id b.version b.checksum; bundle = b }

abbrev pub path_of : String → String
path_of id = id ++ₛ ".json"

abbrev pub pointer : String → String → Pointer
pointer id path = record { deployment_id = id; record_path = path }

abbrev pub pointer_to : Record → Pointer
pointer_to r = pointer r.deployment_id (path_of r.deployment_id)

abbrev pub keep_previous : Option Pointer → List Write
keep_previous none = []
keep_previous (some p) = write_previous p

abbrev pub id_of : Option Pointer → Option String
id_of none = none
id_of (some p) = some p.deployment_id

-- The result is the record; its path is the one of the active pointer.
unfoldable pub record_deployment : Bundle → Files → Plan Record
record_deployment b f =
    let r = record_of b in
    returns
      (write_record (path_of r.deployment_id) r
        ++ write_active (pointer_to r)
        ++ keep_previous f.active
        ++ add_journal (activate r.deployment_id (id_of f.active)) ∷ [])
      r

abbrev pub is_there : Option Record → Bool
is_there none = false
is_there (some r) = true

abbrev pub has_record : Dict Record → String → Bool
has_record records path = is_there (lookup path records)

-- The deployments that are active and previous after a rollback
abbrev pub exchanged : Files → Pointer → Pointer → Plan (String × String)
exchanged f active previous =
    if has_record f.records previous.record_path
    then returns
        (write_active previous
          ++ write_previous active
          ++ add_journal (rollback previous.deployment_id active.deployment_id) ∷ [])
        (previous.deployment_id, active.deployment_id)
    else raises [] (no_record previous.record_path)

abbrev pub exchange : Files → Option Pointer → Option Pointer → Plan (String × String)
exchange f none previous = raises [] no_active
exchange f (some a) none = raises [] no_previous
exchange f (some a) (some p) = exchanged f a p

unfoldable pub roll_back : Files → Plan (String × String)
roll_back f = exchange f f.active f.previous

-- `_latest_record_pointer`: the pointer to the last record
abbrev pub or_this : Option Pointer → Pointer → Option Pointer
or_this none p = some p
or_this (some later) p = some later

abbrev pub latest_record_pointer : Dict Record → Option Pointer
latest_record_pointer [] = none
latest_record_pointer ((path, r) ∷ rest) =
    or_this (latest_record_pointer rest) (pointer r.deployment_id path)

abbrev pub remove_all : List String → List Write
remove_all [] = []
remove_all (name ∷ names) = remove_partial name ∷ remove_all names

pub record Recovery : Type 0 where
  pub active_deployment_id : Option String
  pub recovered : Bool
  pub removed_partial_files : List String

abbrev pub note : Option Pointer → Bool → List String → List Write
note active false [] = []
note active recovered removed = add_journal (recover (id_of active) removed) ∷ []

abbrev pub recovered_as : List Write → List String → Option Pointer → Bool → Plan Recovery
recovered_as before removed active recovered =
    returns (before ++ note active recovered removed) (record {
      active_deployment_id = id_of active;
      recovered = recovered;
      removed_partial_files = removed;
    })

abbrev pub replaced : List String → Pointer → Plan Recovery
replaced removed p = recovered_as (remove_all removed ++ write_active p) removed (some p) true

-- An active pointer without its record
abbrev pub replace_lost : List String → Option Pointer → Plan Recovery
replace_lost removed none = raises (remove_all removed) no_records
replace_lost removed (some p) = replaced removed p

abbrev pub replace_missing : List String → Option Pointer → Plan Recovery
replace_missing removed none = recovered_as (remove_all removed) removed none false
replace_missing removed (some p) = replaced removed p

abbrev pub recover_active : Files → List String → Option Pointer → Plan Recovery
recover_active f removed none = replace_missing removed (latest_record_pointer f.records)
recover_active f removed (some p) =
    if has_record f.records p.record_path
    then recovered_as (remove_all removed) removed (some p) false
    else replace_lost removed (latest_record_pointer f.records)

unfoldable pub recover_files : Files → Plan Recovery
recover_files f = recover_active f (sort_texts f.partials) f.active
