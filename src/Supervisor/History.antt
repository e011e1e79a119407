-- ===== src/Supervisor/History.antt =====
-- The history of a supervisor's states.
use mcp_broker.Prelude.{
  ℕ, ◌≡◌, refl, true, false, Bool, Option, none, some, List, if-cases, [], ◌∷◌, ◌++◌, arith,
  Bool-cases, inl, inr,
}
use mcp_broker.Upstream.{UpstreamConfig, is_off}
use mcp_broker.Supervisor.Defs.{
  State, disabled, running, failed, stopped, draining, stopping, upstream_kill, Outcome, status_of,
  clean_up, terminate, stop_process, Supervisor, Event, transition, new_supervisor, status,
  StopAnswers, stop, emit, ends_with, same_state,
}
use mcp_broker.Supervisor.Moves.{Request, perform_all, Keeps, perform_all-kept}

-- No state stands twice in a row.
abbrev pub Moving : List State → Type 0
Moving [] = Unit
Moving (s ∷ []) = Unit
Moving (s ∷ t ∷ rest) = (same_state s t ≡ false) × Moving (t ∷ rest)

pub record IsLogged (s : Supervisor) : Type 0 where
  pub latest : ends_with s.history s.state ≡ true
  pub moving : Moving s.history

same_state_refl : (t : State) → same_state t t ≡ true
same_state_refl t = ground arith

ends_with-snoc : (ss : List State) (t : State) → ends_with (ss ++ t ∷ []) t ≡ true
ends_with-snoc [] t = same_state_refl t
ends_with-snoc (s ∷ []) t = same_state_refl t
ends_with-snoc (s ∷ u ∷ rest) t = ends_with-snoc (u ∷ rest) t

Moving-snoc :
    (ss : List State) (t : State) → ends_with ss t ≡ false → Moving ss → Moving (ss ++ t ∷ [])
Moving-snoc [] t e h = tt
Moving-snoc (s ∷ []) t e h = (e, tt)
Moving-snoc (s ∷ u ∷ rest) t e h = (h.0, Moving-snoc (u ∷ rest) t e h.1)

-- A transition needs nothing but a history that does not repeat.
transition-IsLogged : (t : State) (s : Supervisor) → Moving s.history → IsLogged (transition t s)
unfolding transition
transition-IsLogged t s h = elim (Bool-cases (ends_with s.history t)) [
  | inl again ↦ rw again (record { latest = again; moving = h })
  | inr new ↦
      rw new
        (record { latest = ends_with-snoc s.history t; moving = Moving-snoc s.history t new h })
]

emit-IsLogged : (e : Event) (s : Supervisor) → IsLogged s → IsLogged (emit e s)
emit-IsLogged e s h = record { latest = h.latest; moving = h.moving }

status_of-IsLogged :
    (o : Option ℕ) (alive : Bool) (s : Supervisor) → IsLogged s → IsLogged (status_of o alive s).1
status_of-IsLogged none alive s h = h
status_of-IsLogged (some pid) true s h = h
status_of-IsLogged (some pid) false s h = transition-IsLogged failed s h.moving

status-IsLogged : (alive : Bool) (s : Supervisor) → IsLogged s → IsLogged (status alive s).1
unfolding status
status-IsLogged alive s h = status_of-IsLogged s.process alive s h

clean_up-IsLogged : (a : StopAnswers) (s : Supervisor) → IsLogged s → IsLogged (clean_up a s).1
clean_up-IsLogged a s h =
    if-cases (λ (o : Outcome (Unit {0})). IsLogged o.1) a.members_left
      (λ _. transition-IsLogged failed s h.moving)
      (λ _. emit-IsLogged _ _ (transition-IsLogged stopped (record s { process = none }) h.moving))

terminate-IsLogged : (a : StopAnswers) (s : Supervisor) → IsLogged s → IsLogged (terminate a s).1
terminate-IsLogged a s h =
    let killed = emit-IsLogged upstream_kill s h in
    if-cases (λ (o : Outcome (Unit {0})). IsLogged o.1) a.ends_on_term
      (λ _. clean_up-IsLogged a s h)
      λ _.
        if-cases (λ (o : Outcome (Unit {0})). IsLogged o.1) a.ends_on_kill
          (λ _. clean_up-IsLogged a _ killed) (λ _. transition-IsLogged failed _ killed.moving)

stop_process-IsLogged :
    (o : Option ℕ) (a : StopAnswers) (s : Supervisor) → IsLogged s → IsLogged (stop_process o a s).1
stop_process-IsLogged none a s h =
    if-cases (λ (o : Outcome (Unit {0})). IsLogged o.1) (same_state s.state disabled) (λ _. h)
      (λ _. emit-IsLogged _ _ (transition-IsLogged stopped s h.moving))
stop_process-IsLogged (some pid) a s h =
    let drained = transition-IsLogged draining s h.moving in
    if-cases (λ (o : Outcome (Unit {0})). IsLogged o.1) a.alive
      (λ _. terminate-IsLogged a _ (transition-IsLogged stopping _ drained.moving))
      (λ _. clean_up-IsLogged a s h)

stop-IsLogged : (a : StopAnswers) (s : Supervisor) → IsLogged s → IsLogged (stop a s).1
unfolding stop
stop-IsLogged a s h = stop_process-IsLogged s.process a s h

Keeps-IsLogged : Keeps IsLogged
Keeps-IsLogged = record {
  stopping_kept = stop-IsLogged;
  status_kept = status-IsLogged;
  busy_kept = λ t s _ h. transition-IsLogged t s h.moving;
  off_kept = λ s _ h. transition-IsLogged disabled s h.moving;
  emit_kept = emit-IsLogged;
  touch_kept = λ now s h. record { latest = h.latest; moving = h.moving };
  spawn_kept = λ pid now s _ h.
      transition-IsLogged running (record s { process = some pid; last_activity = now }) h.moving;
}

new_supervisor-IsLogged : (u : UpstreamConfig) → IsLogged (new_supervisor u)
unfolding new_supervisor
new_supervisor-IsLogged u = elim (Bool-cases (is_off u)) [
  | inl off ↦ rw off (record { latest = refl; moving = tt })
  | inr on ↦ rw on (record { latest = refl; moving = tt })
]

-- After any calls of a new supervisor's methods, the last state of the history is the supervisor's
-- state, and no state stands twice in a row.
pub perform_all-IsLogged :
    (u : UpstreamConfig) (qs : List Request) → IsLogged (perform_all qs (new_supervisor u))
perform_all-IsLogged u qs =
    perform_all-kept IsLogged Keeps-IsLogged
      (λ n last s h. record { latest = h.latest; moving = h.moving }) qs (new_supervisor u)
      (new_supervisor-IsLogged u)
