-- ===== src/SharedState/Refinement.antt =====
-- The store keeps the promise of the cell.
use mcp_broker.Prelude.{
  ℕ, String, ◌≡◌, refl, ap, ap₂, ◌∙◌, Bool, true, false, Option, none, some, List, [], ◌∷◌, Dict,
  arith, inl, inr, Bool-cases, eq_iff,
}
use mcp_broker.Prelude.Result.{Result, ok, err, Result-cases}
use mcp_broker.Value.{ℤ, Value}
use mcp_broker.SharedState.Defs.{
  Lock, Record, StateError, Files, Time, Plan, run, result_of, acquire_lock, apply_state, roll_back,
  recover, matches, with_lock, exchange, replace_active, same_revision, revision_of, recover_from,
  recover_replayed, replay,
}
use mcp_broker.SharedState.Fencing.{issued, acquire_lock_sound, acquire_failed}
use mcp_broker.SharedState.Recovery.{
  Operation, acquiring, applying, rolling_back, recovering, perform, perform_all, IsReplayed,
  acquire_same, perform-IsReplayed,
}
use mcp_broker.SharedState.Cell.{Cell, Step, stay, look, grant, set, swap, Steps, done, next}

abbrev is_ok : {A : Type 0} → Result StateError A → Bool
is_ok (ok a) = true
is_ok (err e) = false

abbrev succeeds : {A : Type 0} → Plan A → Bool
succeeds plan = is_ok (result_of plan)

-- Whether an operation returns, rather than raises.
abbrev pub outcome : Operation → Files → Bool
outcome (acquiring owner context now ttl) f = succeeds (acquire_lock owner context now ttl f)
outcome (applying l state expected) f = succeeds (apply_state l state expected f)
outcome (rolling_back l) f = succeeds (roll_back l f)
outcome recovering f = succeeds (recover f)

abbrev pub outcomes : List Operation → Files → List (Operation × Bool)
outcomes [] f = []
outcomes (o ∷ os) f = (o, outcome o f) ∷ outcomes os (perform o f)

abbrev key_of : String → ℕ → Option (String × ℕ)
key_of owner token = some (owner, token)

abbrev key : Option Lock → Option (String × ℕ)
key none = none
key (some l) = some (l.owner_id, l.token)

abbrev state_of : Option Record → Option (Dict Value)
state_of none = none
state_of (some r) = some r.state

-- The cell that the files stand for.
abbrev pub view : Files → Cell
view f = record {
  holder = key f.lock;
  tokens = issued f.lock_counter;
  current = state_of f.active;
  undo = state_of f.previous;
}

matches_key : (c l : Lock) → matches c l ≡ true → key (some c) ≡ key (some l)
matches_key c l h =
    let same : c.owner_id ≡ l.owner_id = ground (arith, eq_iff c.owner_id l.owner_id) in
    let even : c.token ≡ l.token = ground arith in
    ap₂ (λ (s : String) (n : ℕ). key_of s n) same even

-- A method that checks the lock first steps as its rest does under the lock.
with_lock-Step :
    {A : Type 0} (o : Operation) (current : Option Lock) (l : Lock) (rest : Plan A) (f : Files)
    → (key current ≡ some (l.owner_id, l.token)
        → Step o (succeeds rest) (view f) (view (run rest f)))
    → Step o
        (succeeds (with_lock current l rest))
        (view f)
        (view (run (with_lock current l rest) f))
with_lock-Step o none l rest f ran = stay
with_lock-Step o (some c) l rest f ran = elim (Bool-cases (matches c l)) [
  | inl yes' ↦ rw yes' (ran (matches_key c l yes'))
  | inr no' ↦ rw no' stay
]

acquire-Step :
    (owner : String) (context : Dict Value) (now : Time) (ttl : ℤ) (f : Files)
    → Step
        (acquiring owner context now ttl)
        (succeeds (acquire_lock owner context now ttl f))
        (view f)
        (view (run (acquire_lock owner context now ttl f) f))
acquire-Step owner context now ttl f =
    let s = acquire_same owner context now ttl f in
    elim (Result-cases (result_of (acquire_lock owner context now ttl f))) [
      | inr (e, failed) ↦
          let k = acquire_failed owner context now ttl f failed in
          rw (failed, s.active, s.previous, k.lock, k.counter) stay
      | inl (l, passed) ↦
          let (t, _, g) = acquire_lock_sound owner context now ttl f l passed in
          rw (passed, s.active, s.previous, g.stored, g.counted, g.owned, g.fresh) grant
    ]

replace-Step :
    (l m : Lock) (state : Dict Value) (expected : Option ℕ) (n : ℕ) (f : Files) (o : Option Record)
    → f.active ≡ o
    → key f.lock ≡ some (l.owner_id, l.token)
    → Step
        (applying l state expected)
        true
        (view f)
        (view (run (replace_active m (record { revision = n; state = state }) f) f))
replace-Step l m state expected n f none e held = rw e (set held)
replace-Step l m state expected n f (some r) e held = rw e (set held)

apply-Step :
    (l : Lock) (state : Dict Value) (expected : Option ℕ) (f : Files)
    → Step
        (applying l state expected)
        (succeeds (apply_state l state expected f))
        (view f)
        (view (run (apply_state l state expected f) f))
unfolding apply_state
apply-Step l state expected f = with_lock-Step (applying l state expected) f.lock l _ f λ held.
    elim (Bool-cases (same_revision (revision_of f.active) expected)) [
      | inl same ↦ rw same (replace-Step l l state expected _ f f.active refl held)
      | inr other ↦ rw other stay
    ]

exchange-Step :
    (l : Lock) (active previous : Option Record) (f : Files)
    → f.active ≡ active
    → f.previous ≡ previous
    → key f.lock ≡ some (l.owner_id, l.token)
    → Step
        (rolling_back l)
        (succeeds (exchange l active previous))
        (view f)
        (view (run (exchange l active previous) f))
exchange-Step l none previous f a p held = stay
exchange-Step l (some r) none f a p held = stay
exchange-Step l (some r) (some s) f a p held = swap held (rw a refl) (rw p refl)

roll_back-Step :
    (l : Lock) (f : Files)
    → Step (rolling_back l) (succeeds (roll_back l f)) (view f) (view (run (roll_back l f) f))
unfolding roll_back
roll_back-Step l f =
    with_lock-Step (rolling_back l) f.lock l _ f (exchange-Step l f.active f.previous f refl refl)

recover_replayed-Step :
    (s : Option Record × Option Record) (f : Files)
    → s.0 ≡ none
    → Step recovering (succeeds (recover_replayed s)) (view f) (view (run (recover_replayed s) f))
recover_replayed-Step (none, p) f e = stay
recover_replayed-Step (some a, p) f e = absurd (cc)

recover_from-Step :
    (o : Option Record) (f : Files)
    → f.active ≡ o
    → IsReplayed f
    → Step recovering
        (succeeds (recover_from o f.journal))
        (view f)
        (view (run (recover_from o f.journal) f))
recover_from-Step (some a) f e h = look
recover_from-Step none f e h =
    recover_replayed-Step (replay f.journal) f
      (ap (λ (s : Option Record × Option Record). s.0) h.leads ∙ e)

recover-Step :
    (f : Files)
    → IsReplayed f
    → Step recovering (succeeds (recover f)) (view f) (view (run (recover f) f))
unfolding recover
recover-Step f h = recover_from-Step f.active f refl h

-- Each operation of the store is a step of the cell that its files stand for.
pub perform-Step :
    (o : Operation) (f : Files) → IsReplayed f → Step o (outcome o f) (view f) (view (perform o f))
perform-Step (acquiring owner context now ttl) f h = acquire-Step owner context now ttl f
perform-Step (applying l state expected) f h = apply-Step l state expected f
perform-Step (rolling_back l) f h = roll_back-Step l f
perform-Step recovering f h = recover-Step f h

-- The store refines the fenced cell: whatever operations run, failing or not, from files whose
-- journal leads to their records, the cell that the files stand for takes one step of the
-- specification for each operation, which is the effect of the operation if it returns and nothing
-- if it raises.
pub perform_all-Steps :
    (os : List Operation) (f : Files)
    → IsReplayed f
    → Steps (outcomes os f) (view f) (view (perform_all os f))
perform_all-Steps [] f h = done
perform_all-Steps (o ∷ os) f h =
    next (perform-Step o f h) (perform_all-Steps os (perform o f) (perform-IsReplayed o f h))
