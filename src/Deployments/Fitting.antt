-- ===== src/Deployments/Fitting.antt =====
-- Each pointer that is written leads to a record that is there.
use mcp_broker.Prelude.{
  String, ◌≡◌, refl, Bool, true, false, Option, none, some, List, [], ◌∷◌, ◌++◌, Dict, lookup,
  arith, eq_iff, eq_refl, ◌==◌, Bool-cases, inl, inr, if◌then◌else◌,
}
use mcp_broker.Deployments.Defs.{
  Bundle, Record, Pointer, path_of, record_of, Files, Write, begin_file, put_record, put_active,
  put_previous, add_journal, remove_partial, write_all, writes_of, run, record_deployment,
  roll_back, recover_files, has_record, put_last, exchange, recover_active, replaced, replace_lost,
  replace_missing, recovered_as, note, remove_all, latest_record_pointer, JournalEntry, or_this,
  pointer, keep_previous, write_active,
}

abbrev pub IsThere : Dict Record → Option Pointer → Type 0
IsThere records none = Unit
IsThere records (some p) = has_record records p.record_path ≡ true

-- The active and the previous pointer lead to records that are there.
pub record IsSound (f : Files) : Type 0 where
  pub active : IsThere f.records f.active
  pub previous : IsThere f.records f.previous

-- Each pointer that is written leads to a record that is there by then.
abbrev pub Fits : List Write → Dict Record → Type 0
Fits [] d = Unit
Fits (put_record path r ∷ ws) d = Fits ws (put_last path r d)
Fits (put_active p ∷ ws) d = (has_record d p.record_path ≡ true) × Fits ws d
Fits (put_previous p ∷ ws) d = (has_record d p.record_path ≡ true) × Fits ws d
Fits (_ ∷ ws) d = Fits ws d

pub lookup-put_last :
    (path q : String) (r : Record) (d : Dict Record)
    → lookup q (put_last path r d) ≡ (if path == q then some r else lookup q d)
lookup-put_last path q r [] = refl
lookup-put_last path q r ((p, x) ∷ rest) =
    ground (arith, eq_iff p path, eq_iff p q, eq_iff path q, lookup-put_last path q r rest)

pub put_last-IsThere :
    (path : String) (r : Record) (d : Dict Record) (o : Option Pointer)
    → IsThere d o
    → IsThere (put_last path r d) o
put_last-IsThere path r d none h = tt
put_last-IsThere path r d (some p) h =
    rw (lookup-put_last path p.record_path r d) (elim (Bool-cases (path == p.record_path)) [
      | inl same ↦ rw same refl
      | inr other ↦ rw other h
    ])

pub write_all-IsSound :
    (ws : List Write) (f : Files) → Fits ws f.records → IsSound f → IsSound (write_all ws f)
write_all-IsSound [] f fits h = h
write_all-IsSound (begin_file name ∷ ws) f fits h =
    write_all-IsSound ws _ fits (record { active = h.active; previous = h.previous })
write_all-IsSound (put_record path r ∷ ws) f fits h = write_all-IsSound ws _ fits (record {
  active = put_last-IsThere path r f.records f.active h.active;
  previous = put_last-IsThere path r f.records f.previous h.previous;
})
write_all-IsSound (put_active p ∷ ws) f fits h =
    write_all-IsSound ws _ fits.1 (record { active = fits.0; previous = h.previous })
write_all-IsSound (put_previous p ∷ ws) f fits h =
    write_all-IsSound ws _ fits.1 (record { active = h.active; previous = fits.0 })
write_all-IsSound (add_journal e ∷ ws) f fits h =
    write_all-IsSound ws _ fits (record { active = h.active; previous = h.previous })
write_all-IsSound (remove_partial name ∷ ws) f fits h =
    write_all-IsSound ws _ fits (record { active = h.active; previous = h.previous })

pub Fits-prefix : (ws rest : List Write) (d : Dict Record) → Fits (ws ++ rest) d → Fits ws d
Fits-prefix [] rest d h = tt
Fits-prefix (begin_file name ∷ ws) rest d h = Fits-prefix ws rest d h
Fits-prefix (put_record path r ∷ ws) rest d h = Fits-prefix ws rest _ h
Fits-prefix (put_active p ∷ ws) rest d (k, h) = (k, Fits-prefix ws rest d h)
Fits-prefix (put_previous p ∷ ws) rest d (k, h) = (k, Fits-prefix ws rest d h)
Fits-prefix (add_journal e ∷ ws) rest d h = Fits-prefix ws rest d h
Fits-prefix (remove_partial name ∷ ws) rest d h = Fits-prefix ws rest d h

keep_previous-Fits :
    (o : Option Pointer) (e : JournalEntry) (d : Dict Record)
    → IsThere d o
    → Fits (keep_previous o ++ add_journal e ∷ []) d
keep_previous-Fits none e d h = tt
keep_previous-Fits (some p) e d h = (h, tt)

pub deploy-Fits :
    (b : Bundle) (f : Files) → IsSound f → Fits (writes_of (record_deployment b f)) f.records
unfolding record_deployment
deploy-Fits b f h =
    let r = record_of b in
    let path = path_of r.deployment_id in
    (
      rw (lookup-put_last path path r f.records, eq_refl path) refl,
      keep_previous-Fits f.active _ _ (put_last-IsThere path r f.records f.active h.active),
    )

exchange-Fits :
    (f : Files) (a p : Option Pointer)
    → IsThere f.records a
    → Fits (writes_of (exchange f a p)) f.records
exchange-Fits f none p h = tt
exchange-Fits f (some a) none h = tt
exchange-Fits f (some a) (some p) h = elim (Bool-cases (has_record f.records p.record_path)) [
  | inl there ↦ rw there (there, (h, tt))
  | inr gone ↦ rw gone tt
]

later-IsThere :
    (path : String) (r : Record) (rest : Dict Record) (o : Option Pointer)
    → IsThere rest o
    → IsThere ((path, r) ∷ rest) o
later-IsThere path r rest none h = tt
later-IsThere path r rest (some p) h = elim (Bool-cases (path == p.record_path)) [
  | inl same ↦ rw same refl
  | inr other ↦ rw other h
]

or_this-IsThere :
    (d : Dict Record) (o : Option Pointer) (p : Pointer)
    → IsThere d o
    → has_record d p.record_path ≡ true
    → IsThere d (or_this o p)
or_this-IsThere d none p h k = k
or_this-IsThere d (some later) p h k = h

pub latest-IsThere : (d : Dict Record) → IsThere d (latest_record_pointer d)
latest-IsThere [] = tt
latest-IsThere ((path, r) ∷ rest) =
    or_this-IsThere ((path, r) ∷ rest) (latest_record_pointer rest) (pointer r.deployment_id path)
      (later-IsThere path r rest _ (latest-IsThere rest)) (rw (eq_refl path) refl)

remove_all-Fits :
    (names : List String) (ws : List Write) (d : Dict Record)
    → Fits ws d
    → Fits (remove_all names ++ ws) d
remove_all-Fits [] ws d h = h
remove_all-Fits (name ∷ names) ws d h = remove_all-Fits names ws d h

note-Fits :
    (active : Option Pointer) (recovered : Bool) (removed : List String) (d : Dict Record)
    → Fits (note active recovered removed) d
note-Fits active false [] d = tt
note-Fits active false (name ∷ names) d = tt
note-Fits active true removed d = tt

Fits-append :
    (ws rest : List Write) (d : Dict Record)
    → Fits ws d
    → ((e : Dict Record) → Fits rest e)
    → Fits (ws ++ rest) d
Fits-append [] rest d h k = k d
Fits-append (begin_file name ∷ ws) rest d h k = Fits-append ws rest d h k
Fits-append (put_record path r ∷ ws) rest d h k = Fits-append ws rest _ h k
Fits-append (put_active p ∷ ws) rest d (t, h) k = (t, Fits-append ws rest d h k)
Fits-append (put_previous p ∷ ws) rest d (t, h) k = (t, Fits-append ws rest d h k)
Fits-append (add_journal e ∷ ws) rest d h k = Fits-append ws rest d h k
Fits-append (remove_partial name ∷ ws) rest d h k = Fits-append ws rest d h k

remove_only-Fits : (names : List String) (d : Dict Record) → Fits (remove_all names) d
remove_only-Fits [] d = tt
remove_only-Fits (name ∷ names) d = remove_only-Fits names d

replaced-Fits :
    (removed : List String) (p : Pointer) (d : Dict Record)
    → has_record d p.record_path ≡ true
    → Fits (writes_of (replaced removed p)) d
replaced-Fits removed p d h =
    Fits-append (remove_all removed ++ write_active p) (note (some p) true removed) d
      (remove_all-Fits removed (write_active p) d (h, tt)) (note-Fits (some p) true removed)

kept-Fits :
    (removed : List String) (active : Option Pointer) (d : Dict Record)
    → Fits (writes_of (recovered_as (remove_all removed) removed active false)) d
kept-Fits removed active d =
    Fits-append (remove_all removed) (note active false removed) d (remove_only-Fits removed d)
      (note-Fits active false removed)

lost-Fits :
    (removed : List String) (o : Option Pointer) (d : Dict Record)
    → IsThere d o
    → Fits (writes_of (replace_lost removed o)) d
lost-Fits removed none d h = remove_only-Fits removed d
lost-Fits removed (some p) d h = replaced-Fits removed p d h

missing-Fits :
    (removed : List String) (o : Option Pointer) (d : Dict Record)
    → IsThere d o
    → Fits (writes_of (replace_missing removed o)) d
missing-Fits removed none d h = kept-Fits removed none d
missing-Fits removed (some p) d h = replaced-Fits removed p d h

active-Fits :
    (f : Files) (removed : List String) (o : Option Pointer)
    → Fits (writes_of (recover_active f removed o)) f.records
active-Fits f removed none = missing-Fits removed _ f.records (latest-IsThere f.records)
active-Fits f removed (some p) = elim (Bool-cases (has_record f.records p.record_path)) [
  | inl there ↦ rw there (kept-Fits removed (some p) f.records)
  | inr gone ↦ rw gone (lost-Fits removed _ f.records (latest-IsThere f.records))
]

pub recover-Fits : (f : Files) → Fits (writes_of (recover_files f)) f.records
unfolding recover_files
recover-Fits f = active-Fits f _ f.active

pub roll_back-Fits : (f : Files) → IsSound f → Fits (writes_of (roll_back f)) f.records
unfolding roll_back
roll_back-Fits f h = exchange-Fits f f.active f.previous h.active

pub deploy-IsSound : (b : Bundle) (f : Files) → IsSound f → IsSound (run (record_deployment b f) f)
deploy-IsSound b f h = write_all-IsSound (writes_of (record_deployment b f)) f (deploy-Fits b f h) h
