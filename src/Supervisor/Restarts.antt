-- ===== src/Supervisor/Restarts.antt =====
-- How often and how soon a failed upstream is started again.
use mcp_broker.Prelude.{
  ℕ, ◌+◌, ◌≤◌, ◌<◌, ◌≡◌, refl, false, Bool, Option, some, List, [], ◌∷◌, arith, if-cases, leb, All,
}
use mcp_broker.Prelude.Result.{ok, err}
use mcp_broker.Upstream.{UpstreamConfig}
use mcp_broker.Supervisor.Defs.{
  State, disabled, running, failed, backoff, Supervisor, transition, new_supervisor, status,
  StopAnswers, stop, StartAnswers, Outcome, and_then, emit, restart_after_failure, restart_now,
  is_running, too_soon, Event,
}
use mcp_broker.Supervisor.Moves.{
  Keeps, start-kept, and_then-keeps, reap_if_idle-kept, kill_if_spinning-kept,
  kill_if_memory_over_ceiling-kept, Request, polls, starts, stops, restarts, restarts_after_failure,
  reaps, checks_cpu, checks_memory, perform, perform_all,
}

-- What `start` and `stop` leave alone.
pub record IsFrame (u : UpstreamConfig) (n : ℕ) (last : Option ℕ) (s : Supervisor) : Type 0 where
  pub upstream : s.upstream ≡ u
  pub count : s.restart_count ≡ n
  pub last_time : s.last_restart ≡ last

module _ (u : UpstreamConfig) (n : ℕ) (last : Option ℕ) where
  transition-IsFrame :
      (t : State) (s : Supervisor) → IsFrame u n last s → IsFrame u n last (transition t s)
  unfolding transition
  transition-IsFrame t s h = ground arith

  pub stop-IsFrame :
      (a : StopAnswers) (s : Supervisor) → IsFrame u n last s → IsFrame u n last (stop a s).1
  unfolding stop transition
  stop-IsFrame a s h = ground arith

  pub status-IsFrame :
      (alive : Bool) (s : Supervisor) → IsFrame u n last s → IsFrame u n last (status alive s).1
  unfolding status transition
  status-IsFrame alive s h = ground arith

  emit-IsFrame : (e : Event) (s : Supervisor) → IsFrame u n last s → IsFrame u n last (emit e s)
  emit-IsFrame e s h = record { upstream = h.upstream; count = h.count; last_time = h.last_time }

  touch-IsFrame :
      (p : Option ℕ) (now : ℕ) (s : Supervisor)
      → IsFrame u n last s
      → IsFrame u n last (record s { process = p; last_activity = now })
  touch-IsFrame p now s h = record {
    upstream = h.upstream;
    count = h.count;
    last_time = h.last_time;
  }

  Keeps-IsFrame : Keeps (IsFrame u n last)
  Keeps-IsFrame = record {
    stopping_kept = stop-IsFrame;
    status_kept = status-IsFrame;
    busy_kept = λ t s _ h. transition-IsFrame t s h;
    off_kept = λ s _ h. transition-IsFrame disabled s h;
    emit_kept = emit-IsFrame;
    touch_kept = λ now s h. touch-IsFrame s.process now s h;
    spawn_kept = λ pid now s _ h. transition-IsFrame running _ (touch-IsFrame (some pid) now s h);
  }

-- What a restart at the time `now` has counted.
pub restart_now-IsFrame :
    (u : UpstreamConfig) (now : ℕ) (b : StartAnswers) (s : Supervisor)
    → s.upstream ≡ u
    → IsFrame u (s.restart_count + 1) (some now) (restart_now now b s).1
restart_now-IsFrame u now b s same =
    let P = IsFrame u (s.restart_count + 1) (some now) in
    and_then-keeps P _ _
      (start-kept P (Keeps-IsFrame u (s.restart_count + 1) (some now)) b _
        (record { upstream = same; count = refl; last_time = refl }))
      (λ t h. h)

-- The restarts are counted within the policy of the upstream.
pub record IsWithin (u : UpstreamConfig) (s : Supervisor) : Type 0 where
  pub upstream : s.upstream ≡ u
  pub within : s.restart_count ≤ u.restart.max_attempts

IsFrame-IsWithin :
    (u : UpstreamConfig) (n : ℕ) (last : Option ℕ) (s : Supervisor)
    → n ≤ u.restart.max_attempts
    → IsFrame u n last s
    → IsWithin u s
IsFrame-IsWithin u n last s le h = record { upstream = h.upstream; within = rw h.count le }

pub frame :
    (u : UpstreamConfig) (s : Supervisor)
    → s.upstream ≡ u
    → IsFrame u s.restart_count s.last_restart s
frame u s same = record { upstream = same; count = refl; last_time = refl }

restart_now-IsWithin :
    (u : UpstreamConfig) (now : ℕ) (b : StartAnswers) (s : Supervisor)
    → s.upstream ≡ u
    → s.restart_count < u.restart.max_attempts
    → IsWithin u (restart_now now b s).1
restart_now-IsWithin u now b s same lt =
    IsFrame-IsWithin u (s.restart_count + 1) (some now) _ (omega arith)
      (restart_now-IsFrame u now b s same)

-- What stands behind the two guards of `restart_after_failure`.
after_stop-IsWithin :
    (u : UpstreamConfig) (n now : ℕ) (last : Option ℕ) (b : StartAnswers) (o : Outcome (Unit {0}))
    → n < u.restart.max_attempts
    → IsFrame u n last o.1
    → IsWithin u (and_then o (λ t. restart_now now b t)).1
after_stop-IsWithin u n now last b (ok x, t) lt h =
    restart_now-IsWithin u now b t h.upstream (rw h.count lt)
after_stop-IsWithin u n now last b (err e, t) lt h = IsFrame-IsWithin u n last t (omega arith) h

framed :
    (u : UpstreamConfig) (s : Supervisor) {t : Supervisor}
    → IsWithin u s
    → (IsFrame u s.restart_count s.last_restart s → IsFrame u s.restart_count s.last_restart t)
    → IsWithin u t
framed u s h k = IsFrame-IsWithin u _ _ _ h.within (k (frame u s h.upstream))

restart_after_failure-IsWithin :
    (u : UpstreamConfig) (now : ℕ) (alive : Bool) (a : StopAnswers) (b : StartAnswers)
    (s : Supervisor)
    → IsWithin u s
    → IsWithin u (restart_after_failure now alive a b s).1
unfolding restart_after_failure
restart_after_failure-IsWithin u now alive a b s h =
    let n = s.restart_count in
    let last = s.last_restart in
    let now_frame = frame u s h.upstream in
    let polled = status-IsFrame u n last alive s now_frame in
    if-cases (λ (o : Outcome Bool). IsWithin u o.1) (leb s.upstream.restart.max_attempts n)
      (λ _. IsFrame-IsWithin u n last _ h.within (transition-IsFrame u n last failed s now_frame))
      λ more.
        let lt : n < u.restart.max_attempts = below more in
        if-cases (λ (o : Outcome Bool). IsWithin u o.1)
          (too_soon last now s.upstream.restart.backoff_seconds)
          (λ _.
            IsFrame-IsWithin u n last _ h.within
              (emit-IsFrame u n last _ _ (transition-IsFrame u n last backoff s now_frame)))
          λ _.
            if-cases (λ (o : Outcome Bool). IsWithin u o.1) (is_running (status alive s).0)
              (λ _.
                after_stop-IsWithin u n now last b (stop a (status alive s).1) lt
                  (stop-IsFrame u n last a _ polled))
              (λ _.
                restart_now-IsWithin u now b (status alive s).1 polled.upstream
                  (rw polled.count lt))
  where
    below :
        leb s.upstream.restart.max_attempts s.restart_count ≡ false
        → s.restart_count < u.restart.max_attempts
    below more = rw (← h.upstream) (ground arith)

-- Every request but a `restart` that is asked for by hand.
abbrev pub IsAutomatic : Request → Type 0
IsAutomatic (restarts a b) = ⊥
IsAutomatic _ = Unit

perform-IsWithin :
    (u : UpstreamConfig) (q : Request) (s : Supervisor)
    → IsAutomatic q
    → IsWithin u s
    → IsWithin u (perform q s)
perform-IsWithin u (restarts a b) s auto h = elim auto [ ]
perform-IsWithin u (restarts_after_failure now alive a b) s auto h =
    restart_after_failure-IsWithin u now alive a b s h
perform-IsWithin u (polls alive) s auto h = framed u s h (status-IsFrame u _ _ alive s)
perform-IsWithin u (starts a) s auto h = framed u s h (start-kept _ (Keeps-IsFrame u _ _) a s)
perform-IsWithin u (stops a) s auto h = framed u s h (stop-IsFrame u _ _ a s)
perform-IsWithin u (reaps now alive a) s auto h =
    framed u s h (reap_if_idle-kept _ (Keeps-IsFrame u _ _) now alive a s)
perform-IsWithin u (checks_cpu cpu window now alive a) s auto h =
    framed u s h (kill_if_spinning-kept _ (Keeps-IsFrame u _ _) cpu window now alive a s)
perform-IsWithin u (checks_memory memory alive a) s auto h =
    framed u s h (kill_if_memory_over_ceiling-kept _ (Keeps-IsFrame u _ _) memory alive a s)

perform_all-IsWithin :
    (u : UpstreamConfig) (qs : List Request) (s : Supervisor)
    → All IsAutomatic qs
    → IsWithin u s
    → IsWithin u (perform_all qs s)
perform_all-IsWithin u [] s auto h = h
perform_all-IsWithin u (q ∷ qs) s auto h =
    perform_all-IsWithin u qs (perform q s) auto.1 (perform-IsWithin u q s auto.0 h)

new_supervisor-IsWithin : (u : UpstreamConfig) → IsWithin u (new_supervisor u)
unfolding new_supervisor
new_supervisor-IsWithin u = ground arith

-- However often a new supervisor is asked to restart after a failure, and whatever else is asked of
-- it but a restart by hand, it counts at most as many restarts as the policy's `max_attempts`.
pub restarts-le-max_attempts :
    (u : UpstreamConfig) (qs : List Request)
    → All IsAutomatic qs
    → (perform_all qs (new_supervisor u)).restart_count ≤ u.restart.max_attempts
restarts-le-max_attempts u qs auto =
    (perform_all-IsWithin u qs (new_supervisor u) auto (new_supervisor-IsWithin u)).within
