-- ===== src/SharedState/Recovery.antt =====
-- The journal leads to the files, so that a lost file comes back from it.
use mcp_broker.Prelude.{
  ℕ, String, ◌≡◌, refl, sym, ap, ◌∙◌, true, Option, none, some, List, [], ◌∷◌, ◌++◌, Dict, arith,
  Bool-cases, Option-cases, inl, inr, subst,
}
use mcp_broker.Prelude.Result.{ok}
use mcp_broker.Value.{ℤ, Value}
use mcp_broker.SharedState.Defs.{
  Lock, Record, JournalEntry, apply, rollback, Files, no_files, write, Plan, Time, run, result_of,
  Audit, add_audit, token_mismatch, matches, same_revision, revision_of, exchange, replace_active,
  acquire_lock, apply_state, roll_back, recover, recover_from, recover_replayed, replay,
  replay_from, replay_step, Recovery, with_lock,
}

-- What the journal leads to is what the files hold.
pub record IsReplayed (f : Files) : Type 0 where
  pub leads : replay f.journal ≡ (f.active, f.previous)
  pub paired : f.active ≡ none → f.previous ≡ none

replay-snoc :
    (s : Option Record × Option Record) (es : List JournalEntry) (e : JournalEntry)
    → replay_from s (es ++ e ∷ []) ≡ replay_step e (replay_from s es)
replay-snoc s [] e = refl
replay-snoc s (x ∷ es) e = replay-snoc (replay_step x s) es e

-- The operations of a deployment, in any order and with any arguments.
pub data Operation : Type 0 where
  acquiring : String → Dict Value → Time → ℤ → Operation
  applying : Lock → Dict Value → Option ℕ → Operation
  rolling_back : Lock → Operation
  recovering : Operation

abbrev pub perform : Operation → Files → Files
perform (acquiring owner context now ttl) f = run (acquire_lock owner context now ttl f) f
perform (applying l state expected) f = run (apply_state l state expected f) f
perform (rolling_back l) f = run (roll_back l f) f
perform recovering f = run (recover f) f

abbrev pub perform_all : List Operation → Files → Files
perform_all [] f = f
perform_all (o ∷ os) f = perform_all os (perform o f)

-- The files agree on what the journal speaks of.
pub record IsSameState (f g : Files) : Type 0 where
  pub active : g.active ≡ f.active
  pub previous : g.previous ≡ f.previous
  pub journal : g.journal ≡ f.journal

IsReplayed-same : {f g : Files} → IsSameState f g → IsReplayed f → IsReplayed g
IsReplayed-same {f} {g} s h = record {
  leads = rw (s.active, s.previous, s.journal) h.leads;
  paired = λ e. s.previous ∙ h.paired (sym s.active ∙ e);
}

pub acquire_same :
    (owner : String) (context : Dict Value) (now : Time) (ttl : ℤ) (f : Files)
    → IsSameState f (run (acquire_lock owner context now ttl f) f)
unfolding acquire_lock
acquire_same owner context now ttl f = record {
  active = ground arith;
  previous = ground arith;
  journal = ground arith;
}

-- What a method keeps whose lock is checked first: no write, or one audit entry, or its own writes.
with_lock-run :
    {A : Type 0} (P : Files → Type 0) (current : Option Lock) (l : Lock) (rest : Plan A) (f : Files)
    → P f
    → P (write (add_audit (token_mismatch l)) f)
    → P (run rest f)
    → P (run (with_lock current l rest) f)
with_lock-run P none l rest f same audited ran = same
with_lock-run P (some c) l rest f same audited ran = elim (Bool-cases (matches c l)) [
  | inl yes' ↦ rw yes' ran
  | inr no' ↦ rw no' audited
]

audited-IsReplayed : (a : Audit) (f : Files) → IsReplayed f → IsReplayed (write (add_audit a) f)
audited-IsReplayed a f h = record { leads = h.leads; paired = h.paired }

replace-IsReplayed :
    (l : Lock) (r : Record) (f : Files) → IsReplayed f → IsReplayed (run (replace_active l r f) f)
replace-IsReplayed l r f h = elim (Option-cases f.active) [
  | inl fresh ↦ record {
    leads = ground (arith, replay-snoc (none, none) f.journal (apply r none), h.paired);
    paired = λ e. ground arith;
  }
  | inr (a, active) ↦ record {
    leads = ground (arith, replay-snoc (none, none) f.journal (apply r (some a)));
    paired = λ e. ground arith;
  }
]

apply-IsReplayed :
    (l : Lock) (state : Dict Value) (expected : Option ℕ) (f : Files)
    → IsReplayed f
    → IsReplayed (run (apply_state l state expected f) f)
unfolding apply_state
apply-IsReplayed l state expected f h =
    with_lock-run IsReplayed f.lock l _ f h (audited-IsReplayed _ f h)
      (elim (Bool-cases (same_revision (revision_of f.active) expected)) [
        | inl same ↦ rw same (replace-IsReplayed l _ f h)
        | inr other ↦ rw other (audited-IsReplayed _ f h)
      ])

exchange-IsReplayed :
    (l : Lock) (active previous : Option Record) (f : Files)
    → IsReplayed f
    → IsReplayed (run (exchange l active previous) f)
exchange-IsReplayed l none previous f h = h
exchange-IsReplayed l (some a) none f h = h
exchange-IsReplayed l (some a) (some p) f h = record {
  leads = rw (replay-snoc (none, none) f.journal (rollback p a));
  paired = λ e. cc;
}

roll_back-IsReplayed : (l : Lock) (f : Files) → IsReplayed f → IsReplayed (run (roll_back l f) f)
unfolding roll_back
roll_back-IsReplayed l f h =
    with_lock-run IsReplayed f.lock l _ f h (audited-IsReplayed _ f h)
      (exchange-IsReplayed l f.active f.previous f h)

IsReplayed-none :
    (s : Option Record × Option Record) (f : Files)
    → s.0 ≡ none
    → IsReplayed f
    → IsReplayed (run (recover_replayed s) f)
IsReplayed-none (none, p) f e h = h
IsReplayed-none (some a, p) f e h = absurd (cc)

recover_from-IsReplayed :
    (o : Option Record) (f : Files)
    → f.active ≡ o
    → IsReplayed f
    → IsReplayed (run (recover_from o f.journal) f)
recover_from-IsReplayed (some a) f e h = audited-IsReplayed _ f h
recover_from-IsReplayed none f e h =
    IsReplayed-none (replay f.journal) f
      (ap (λ (s : Option Record × Option Record). s.0) h.leads ∙ e) h

recover-IsReplayed : (f : Files) → IsReplayed f → IsReplayed (run (recover f) f)
unfolding recover
recover-IsReplayed f h = recover_from-IsReplayed f.active f refl h

pub perform-IsReplayed : (o : Operation) (f : Files) → IsReplayed f → IsReplayed (perform o f)
perform-IsReplayed (acquiring owner context now ttl) f h =
    IsReplayed-same (acquire_same owner context now ttl f) h
perform-IsReplayed (applying l state expected) f h = apply-IsReplayed l state expected f h
perform-IsReplayed (rolling_back l) f h = roll_back-IsReplayed l f h
perform-IsReplayed recovering f h = recover-IsReplayed f h

-- Whatever operations run, failing or not, the journal leads to the active and the previous record
-- that the files hold.
pub perform_all-IsReplayed :
    (os : List Operation) (f : Files) → IsReplayed f → IsReplayed (perform_all os f)
perform_all-IsReplayed [] f h = h
perform_all-IsReplayed (o ∷ os) f h =
    perform_all-IsReplayed os (perform o f) (perform-IsReplayed o f h)

-- The files without the active record, and without the previous one.
abbrev pub lose_records : Files → Files
lose_records f = record f { active = none; previous = none }

-- What a recovery by replay does, where the journal leads to an active record.
pub record Restored (a : Record) (p : Option Record) (plan : Plan Recovery) (g : Files)
    : Type 0 where
  pub result : result_of plan ≡ ok (record { active_revision = a.revision; replayed = true })
  pub active : (run plan g).active ≡ some a
  pub previous : (run plan g).previous ≡ p
  pub journal : (run plan g).journal ≡ g.journal

restored :
    (a : Record) (p : Option Record) (g : Files)
    → g.previous ≡ none
    → Restored a p (recover_replayed (some a, p)) g
restored a none g e = record { result = refl; active = refl; previous = e; journal = refl }
restored a (some p) g e = record { result = refl; active = refl; previous = refl; journal = refl }

pub empty-IsReplayed : IsReplayed no_files
empty-IsReplayed = record { leads = refl; paired = λ _. refl }

-- After any operations from no files, if an active record is there and then the active and the
-- previous record are lost, `recover` returns the active record's revision, says that it replayed,
-- puts both records back and leaves the journal.
pub recover-lose_records :
    (os : List Operation) (a : Record)
    → (perform_all os no_files).active ≡ some a
    → Restored a
        (perform_all os no_files).previous
        (recover (lose_records (perform_all os no_files)))
        (lose_records (perform_all os no_files))
unfolding recover
recover-lose_records os a active =
    let h = perform_all-IsReplayed os no_files empty-IsReplayed in
    let f = perform_all os no_files in
    let leads : replay f.journal ≡ (some a, f.previous) =
      h.leads ∙ ap (λ (o : Option Record). (o, f.previous)) active in
    subst (λ s. Restored a f.previous (recover_replayed s) (lose_records f)) (sym leads)
      (restored a f.previous (lose_records f) refl)
