-- ===== src/Deployments/Healing.antt =====
-- What a recovery leaves.
use mcp_broker.Prelude.{
  String, ◌≡◌, refl, ◌∙◌, sym, subst, Bool, true, false, Option, none, some, List, [], ◌∷◌, ◌++◌,
  arith, Bool-cases, inl, inr, ◌⊎◌, sort_texts, contains-sort_texts, contains-sort_texts,
}
use mcp_broker.Prelude.Result.{ok}
use mcp_broker.Deployments.Defs.{
  Pointer, Files, Write, write_all, Plan, run, result_of, Recovery, recover_files, recover_active,
  replaced, replace_lost, replace_missing, recovered_as, note, remove_all, id_of,
  latest_record_pointer, has_record, write_active,
}
use mcp_broker.Deployments.Fitting.{IsThere, latest-IsThere}
use mcp_broker.Deployments.Cleaning.{Cleaned, remove_all-Cleaned}

-- What a recovery that returns has done.
pub record Healed (f : Files) (plan : Plan Recovery) (r : Recovery) : Type 0 where
  pub clean : (run plan f).partials ≡ []
  pub records : (run plan f).records ≡ f.records
  pub active : IsThere (run plan f).records (run plan f).active
  pub named : r.active_deployment_id ≡ id_of (run plan f).active

write_all-append :
    (xs ys : List Write) (f : Files) → write_all (xs ++ ys) f ≡ write_all ys (write_all xs f)
write_all-append [] ys f = refl
write_all-append (x ∷ xs) ys f = write_all-append xs ys _

-- The files after a recovery but for its journal entry.
record Before (f g : Files) (o : Option Pointer) : Type 0 where
  clean : g.partials ≡ []
  records : g.records ≡ f.records
  active : g.active ≡ o
  there : IsThere f.records o

note-Before :
    (f g : Files) (o : Option Pointer) (recovered : Bool) (removed : List String)
    → Before f g o
    → Before f (write_all (note o recovered removed) g) o
note-Before f g o false [] b = b
note-Before f g o false (x ∷ xs) b = record {
  clean = b.clean;
  records = b.records;
  active = b.active;
  there = b.there;
}
note-Before f g o true removed b = record {
  clean = b.clean;
  records = b.records;
  active = b.active;
  there = b.there;
}

recovered_as-Healed :
    (f : Files) (ws : List Write) (removed : List String) (o : Option Pointer) (recovered : Bool)
    (r : Recovery)
    → Before f (write_all ws f) o
    → result_of (recovered_as ws removed o recovered) ≡ ok r
    → Healed f (recovered_as ws removed o recovered) r
recovered_as-Healed f ws removed o recovered r b h =
    let same = write_all-append ws (note o recovered removed) f in
    let n = note-Before f (write_all ws f) o recovered removed b in
    record {
      clean = rw same n.clean;
      records = rw same n.records;
      active = rw (same, n.records, n.active) n.there;
      named = rw (same, n.active) (ground arith);
    }

cleaned : (f : Files) → Cleaned f (write_all (remove_all (sort_texts f.partials)) f)
cleaned f =
    remove_all-Cleaned (sort_texts f.partials) f (λ x h. contains-sort_texts x f.partials ∙ h)

activated :
    (f g : Files) (p : Pointer)
    → Cleaned f g
    → has_record f.records p.record_path ≡ true
    → Before f (write_all (write_active p) g) (some p)
activated f g p c there = record {
  clean = rw c.clean refl;
  records = c.records;
  active = refl;
  there = there;
}

replaced-Healed :
    (f : Files) (p : Pointer) (r : Recovery)
    → has_record f.records p.record_path ≡ true
    → result_of (replaced (sort_texts f.partials) p) ≡ ok r
    → Healed f (replaced (sort_texts f.partials) p) r
replaced-Healed f p r there h =
    let removed = sort_texts f.partials in
    let b =
      subst (λ g. Before f g (some p))
        (sym (write_all-append (remove_all removed) (write_active p) f))
        (activated f _ p (cleaned f) there) in
    recovered_as-Healed f (remove_all removed ++ write_active p) removed (some p) true r b h

kept-Healed :
    (f : Files) (o : Option Pointer) (r : Recovery)
    → f.active ≡ o
    → IsThere f.records o
    → result_of (recovered_as (remove_all (sort_texts f.partials)) (sort_texts f.partials) o false)
      ≡ ok r
    → Healed f (recovered_as (remove_all (sort_texts f.partials)) (sort_texts f.partials) o false) r
kept-Healed f o r e there h =
    let c = cleaned f in
    let b : Before f (write_all (remove_all (sort_texts f.partials)) f) o = record {
      clean = c.clean;
      records = c.records;
      active = c.active ∙ e;
      there = there;
    } in
    recovered_as-Healed f (remove_all (sort_texts f.partials)) (sort_texts f.partials) o false r b h

lost-Healed :
    (f : Files) (o : Option Pointer) (r : Recovery)
    → IsThere f.records o
    → result_of (replace_lost (sort_texts f.partials) o) ≡ ok r
    → Healed f (replace_lost (sort_texts f.partials) o) r
lost-Healed f none r there h = absurd (cc)
lost-Healed f (some p) r there h = replaced-Healed f p r there h

missing-Healed :
    (f : Files) (o : Option Pointer) (r : Recovery)
    → f.active ≡ none
    → IsThere f.records o
    → result_of (replace_missing (sort_texts f.partials) o) ≡ ok r
    → Healed f (replace_missing (sort_texts f.partials) o) r
missing-Healed f none r e there h = kept-Healed f none r e tt h
missing-Healed f (some p) r e there h = replaced-Healed f p r there h

active-Healed :
    (f : Files) (o : Option Pointer) (r : Recovery)
    → f.active ≡ o
    → result_of (recover_active f (sort_texts f.partials) o) ≡ ok r
    → Healed f (recover_active f (sort_texts f.partials) o) r
active-Healed f none r e h =
    missing-Healed f (latest_record_pointer f.records) r e (latest-IsThere f.records) h
active-Healed f (some p) r e h = elim (Bool-cases (has_record f.records p.record_path)) [
  | inl there ↦ rw there (kept-Healed f (some p) r e there (rw there at h))
  | inr gone ↦
      rw gone (
        lost-Healed f (latest_record_pointer f.records) r (latest-IsThere f.records) (rw gone at h))
]

recover_files-Healed :
    (f : Files) (r : Recovery) → result_of (recover_files f) ≡ ok r → Healed f (recover_files f) r
unfolding recover_files
recover_files-Healed f r h = active-Healed f f.active r refl h

-- The active pointer leads to a record or is missing, or there is some record.
abbrev pub IsRecoverable : Files → Type 0
IsRecoverable f =
    IsThere f.records f.active ⊎ ((p : Pointer) × (latest_record_pointer f.records ≡ some p))

recovered_returns :
    (ws : List Write) (removed : List String) (o : Option Pointer) (recovered : Bool)
    → (r : Recovery) × (result_of (recovered_as ws removed o recovered) ≡ ok r)
recovered_returns ws removed o recovered = (_, refl)

missing_returns :
    (removed : List String) (o : Option Pointer)
    → (r : Recovery) × (result_of (replace_missing removed o) ≡ ok r)
missing_returns removed none = (_, refl)
missing_returns removed (some p) = (_, refl)

active_returns :
    (f : Files) (removed : List String) (o : Option Pointer)
    → IsThere f.records o ⊎ ((p : Pointer) × (latest_record_pointer f.records ≡ some p))
    → (r : Recovery) × (result_of (recover_active f removed o) ≡ ok r)
active_returns f removed none k = missing_returns removed (latest_record_pointer f.records)
active_returns f removed (some p) (inl there) =
    rw there (recovered_returns (remove_all removed) removed (some p) false)
active_returns f removed (some p) (inr (q, latest)) =
    elim (Bool-cases (has_record f.records p.record_path)) [
      | inl there ↦ rw there (recovered_returns (remove_all removed) removed (some p) false)
      | inr gone ↦
          rw (gone, latest)
            (recovered_returns (remove_all removed ++ write_active q) removed (some q) true)
    ]

-- A recovery returns unless the active pointer leads to no record and there is no record at all. It
-- has then removed every partial file and kept the records, and the active pointer, which it names,
-- leads to a record that is there.
pub recover_files-returns :
    (f : Files)
    → IsRecoverable f
    → (r : Recovery) × (result_of (recover_files f) ≡ ok r) × Healed f (recover_files f) r
unfolding recover_files
recover_files-returns f k =
    let (r, h) = active_returns f (sort_texts f.partials) f.active k in
    (r, h, recover_files-Healed f r h)
