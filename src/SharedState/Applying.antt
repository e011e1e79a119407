-- ===== src/SharedState/Applying.antt =====
-- What `apply_state` needs and stores, and revisions that are used twice.
use mcp_broker.Prelude.{
  ℕ, ◌+◌, ◌≡◌, refl, inl, inr, true, Option, none, some, Dict, arith, Option-cases,
}
use mcp_broker.Prelude.Result.{ok}
use mcp_broker.Value.{Value}
use mcp_broker.SharedState.Defs.{
  Lock, Record, Files, run, result_of, apply_state, roll_back, Revisions, matches, replace_active,
  same_revision, revision_of, next_revision,
}

-- The writes that `apply_state` makes when it returns a record.
pub record Applied (l : Lock) (expected : Option ℕ) (f : Files) (r : Record) : Type 0 where
  pub holder : Lock
  pub held : f.lock ≡ some holder
  pub matching : matches holder l ≡ true
  pub expected_met : same_revision (revision_of f.active) expected ≡ true
  pub numbered : r.revision ≡ next_revision (revision_of f.active) f.journal

apply_inv :
    (l : Lock) (state : Dict Value) (expected : Option ℕ) (f : Files) (r : Record)
    → result_of (apply_state l state expected f) ≡ ok r
    → Applied l expected f r × (apply_state l state expected f ≡ replace_active l r f)
unfolding apply_state
apply_inv l state expected f r h = elim (Option-cases f.lock) [
  | inl missing ↦ ground arith
  | inr (holder, held) ↦ (
    record {
      holder = holder;
      held = held;
      matching = ground arith;
      expected_met = ground arith;
      numbered = ground arith;
    },
    ground arith,
  )
]

returned_state :
    (l : Lock) (state : Dict Value) (expected : Option ℕ) (f : Files) (r : Record)
    → result_of (apply_state l state expected f) ≡ ok r
    → r.state ≡ state
unfolding apply_state
returned_state l state expected f r h = elim (Option-cases f.lock) [
  | inl missing ↦ ground arith
  | inr (holder, held) ↦ ground arith
]

pub apply_state_sound :
    (l : Lock) (state : Dict Value) (expected : Option ℕ) (f : Files) (r : Record)
    → result_of (apply_state l state expected f) ≡ ok r
    → Applied l expected f r
      × ((run (apply_state l state expected f) f).active ≡ some r)
      × ((a : Record)
          → f.active ≡ some a
          → (run (apply_state l state expected f) f).previous ≡ some a)
      × (r.state ≡ state)
apply_state_sound l state expected f r h =
    let (made, plan) = apply_inv l state expected f r h in
    (
      made,
      rw plan (stored f.active refl),
      λ a e. rw (plan, e),
      returned_state l state expected f r h,
    )
  where
    stored : (o : Option Record) → f.active ≡ o → (run (replace_active l r f) f).active ≡ some r
    stored none e = rw e
    stored (some a) e = rw e

-- After a rollback from a revision to the one before it, the next `apply_state` gives its new record
-- the revision that was rolled back, though that number already stands for another record.
pub revision_reused :
    (l : Lock) (f : Files) (a p : Record) (state : Dict Value) (revs : Revisions)
    → f.active ≡ some a
    → f.previous ≡ some p
    → a.revision ≡ p.revision + 1
    → result_of (roll_back l f) ≡ ok revs
    → result_of (apply_state l state (some p.revision) (run (roll_back l f) f))
      ≡ ok (record { revision = a.revision; state = state })
unfolding roll_back apply_state
revision_reused l f a p state revs active previous follows h = ground arith
