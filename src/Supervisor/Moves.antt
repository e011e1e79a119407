-- ===== src/Supervisor/Moves.antt =====
-- An invariant of the supervisor is kept by every method if it is kept by the few moves that the
-- methods are made of.
use mcp_broker.Prelude.{
  ℕ, ◌+◌, ◌≡◌, refl, ◌∙◌, arith, true, false, Bool, Option, none, some, List, [], ◌∷◌, if-cases,
  leb, ltb, not, Dict, String,
}
use mcp_broker.Prelude.Result.{Result, ok, err}
use mcp_broker.Upstream.{is_off}
use mcp_broker.Upstream.Environment.{EnvironmentError, resolve_environment}
use mcp_broker.Supervisor.Defs.{
  State, configured, starting, stopped, running, failed, backoff, disabled, Supervisor, Event,
  transition, emit, status, StopAnswers, stop, Round, wait_until_ready, ReadyCheck, says, fails,
  breaks, after_check, is_caught, StartAnswers, start, Spawn, os_fails, refused, spawned_as,
  with_environment, restart, restart_after_failure, reap_if_idle, kill_if_spinning,
  kill_if_memory_over_ceiling, Outcome, and_then, back_off, launch, await, give_up, restart_now,
  is_exited, is_running, too_soon, over_ceiling,
}

-- The states that say that no process is there.
abbrev pub resting : State → Bool
resting configured = true
resting stopped = true
resting disabled = true
resting _ = false

-- A call of one of the methods, with what the operating system answers.
pub data Request : Type 0 where
  polls : Bool → Request
  starts : StartAnswers → Request
  stops : StopAnswers → Request
  restarts : StopAnswers → StartAnswers → Request
  restarts_after_failure : ℕ → Bool → StopAnswers → StartAnswers → Request
  reaps : ℕ → Bool → StopAnswers → Request
  checks_cpu : ℕ → ℕ → ℕ → Bool → StopAnswers → Request
  checks_memory : Option ℕ → Bool → StopAnswers → Request

abbrev pub perform : Request → Supervisor → Supervisor
perform (polls alive) s = (status alive s).1
perform (starts a) s = (start a s).1
perform (stops a) s = (stop a s).1
perform (restarts a b) s = (restart a b s).1
perform (restarts_after_failure now alive a b) s = (restart_after_failure now alive a b s).1
perform (reaps now alive a) s = (reap_if_idle now alive a s).1
perform (checks_cpu cpu window now alive a) s = (kill_if_spinning cpu window now alive a s).1
perform (checks_memory memory alive a) s = (kill_if_memory_over_ceiling memory alive a s).1

abbrev pub perform_all : List Request → Supervisor → Supervisor
perform_all [] s = s
perform_all (q ∷ qs) s = perform_all qs (perform q s)

-- The moves of `start` and `stop`.
pub record Keeps (P : Supervisor → Type 0) : Type 0 where
  pub stopping_kept : (a : StopAnswers) (s : Supervisor) → P s → P (stop a s).1
  pub status_kept : (alive : Bool) (s : Supervisor) → P s → P (status alive s).1
  pub busy_kept : (t : State) (s : Supervisor) → resting t ≡ false → P s → P (transition t s)
  pub off_kept : (s : Supervisor) → is_off s.upstream ≡ true → P s → P (transition disabled s)
  pub emit_kept : (e : Event) (s : Supervisor) → P s → P (emit e s)
  pub touch_kept : (now : ℕ) (s : Supervisor) → P s → P (record s { last_activity = now })
  pub spawn_kept :
      (pid now : ℕ) (s : Supervisor)
      → is_off s.upstream ≡ false
      → P s
      → P (transition running (record s { process = some pid; last_activity = now }))

pub and_then-keeps :
    {A B : Type 0} (P : Supervisor → Type 0) (o : Outcome A) (f : Supervisor → Outcome B)
    → P o.1
    → ((s : Supervisor) → P s → P (f s).1)
    → P (and_then o f).1
and_then-keeps P (ok a, s) f h k = k s h
and_then-keeps P (err e, s) f h k = h

transition-upstream : (t : State) (s : Supervisor) → (transition t s).upstream ≡ s.upstream
unfolding transition
transition-upstream t s = ground arith

status-upstream : (alive : Bool) (s : Supervisor) → (status alive s).1.upstream ≡ s.upstream
unfolding status transition
status-upstream alive s = ground arith

module _ (P : Supervisor → Type 0) (k : Keeps P) where
  after_check-kept :
      (check : ReadyCheck) (now : ℕ) (rest : Outcome (Unit {0})) (s : Supervisor)
      → P s
      → P rest.1
      → P (after_check check now rest s).1
  after_check-kept (says true) now rest s h later = k.touch_kept now s h
  after_check-kept (says false) now rest s h later = later
  after_check-kept fails now rest s h later = h
  after_check-kept breaks now rest s h later = h

  wait_until_ready-kept :
      (deadline : ℕ) (rounds : List Round) (s : Supervisor)
      → P s
      → P (wait_until_ready deadline rounds s).1
  unfolding wait_until_ready
  wait_until_ready-kept deadline [] s h = h
  wait_until_ready-kept deadline (r ∷ rest) s h =
      let polled = k.status_kept r.alive s h in
      let again = wait_until_ready-kept deadline rest (status r.alive s).1 polled in
      if-cases (λ (o : Outcome (Unit {0})). P o.1) (leb deadline r.now) (λ _. h)
        λ _. after_check-kept r.check r.now _ s h (
          if-cases (λ (o : Outcome (Unit {0})). P o.1) (is_exited (status r.alive s).0)
            (λ _. polled) (λ _. again))

  back_off-kept : (s : Supervisor) → P s → P (back_off s)
  back_off-kept s h = k.emit_kept _ _ (k.busy_kept backoff _ refl (k.busy_kept failed s refl h))

  give_up-kept : (a : StopAnswers) (o : Outcome (Unit {0})) → P o.1 → P (give_up a o).1
  give_up-kept a (ok u, s) h = k.emit_kept _ s h
  give_up-kept a (err e, s) h =
      if-cases (λ (o : Outcome (Unit {0})). P o.1) (is_caught e)
        (λ _. and_then-keeps P (stop a s) _ (k.stopping_kept a s h) (λ t h'. back_off-kept t h'))
        (λ _. h)

  await-kept :
      (a : StartAnswers) (rounds : Option (List Round)) (s : Supervisor)
      → P s
      → P (await a rounds s).1
  await-kept a none s h = k.emit_kept _ s h
  await-kept a (some rounds) s h =
      give_up-kept a.stopping _ (wait_until_ready-kept a.deadline rounds s h)

  launch-kept :
      (a : StartAnswers) (spawned : Spawn) (s : Supervisor)
      → is_off s.upstream ≡ false
      → P s
      → P (launch a spawned s).1
  launch-kept a os_fails s on h = back_off-kept s h
  launch-kept a refused s on h = h
  launch-kept a (spawned_as pid) s on h = await-kept a a.rounds _ (k.spawn_kept pid a.now s on h)

  with_environment-kept :
      (a : StartAnswers) (env : Result EnvironmentError (Dict String)) (s : Supervisor)
      → is_off s.upstream ≡ false
      → P s
      → P (with_environment a env s).1
  with_environment-kept a (err e) s on h = h
  with_environment-kept a (ok env) s on h = launch-kept a a.spawned s on h

  pub start-kept : (a : StartAnswers) (s : Supervisor) → P s → P (start a s).1
  unfolding start
  start-kept a s h =
      let polled = k.status_kept a.alive s h in
      let t = (status a.alive s).1 in
      let same : (transition starting t).upstream ≡ s.upstream =
        transition-upstream starting t ∙ status-upstream a.alive s in
      if-cases (λ (o : Outcome (Unit {0})). P o.1) (is_off s.upstream)
        (λ off. k.emit_kept _ _ (k.off_kept s off h))
        λ on.
          if-cases (λ (o : Outcome (Unit {0})). P o.1) (is_running (status a.alive s).0)
            (λ _. polled)
            λ _.
              if-cases (λ (o : Outcome (Unit {0})). P o.1) (not a.has_directory) (λ _. polled)
                (λ _.
                  with_environment-kept a (resolve_environment s.upstream a.environ a.files) _
                    (rw same on) (k.emit_kept _ _ (k.busy_kept starting t refl polled)))

  -- The three methods that stop a running process under a condition, and then do what keeps `P`.
  stop_if-kept :
      (a : StopAnswers) (f : Supervisor → Outcome Bool) (s : Supervisor)
      → ((t : Supervisor) → P t → P (f t).1)
      → P s
      → P (and_then (stop a s) f).1
  stop_if-kept a f s g h = and_then-keeps P (stop a s) f (k.stopping_kept a s h) g

  pub reap_if_idle-kept :
      (now : ℕ) (alive : Bool) (a : StopAnswers) (s : Supervisor)
      → P s
      → P (reap_if_idle now alive a s).1
  unfolding reap_if_idle
  reap_if_idle-kept now alive a s h =
      let polled = k.status_kept alive s h in
      let t = (status alive s).1 in
      if-cases (λ (o : Outcome Bool). P o.1) (not (is_running (status alive s).0)) (λ _. polled)
        λ _.
          if-cases (λ (o : Outcome Bool). P o.1)
            (ltb now (t.last_activity + t.upstream.resources.idle_timeout_seconds)) (λ _. polled)
            (λ _. stop_if-kept a _ t (λ u h'. h') polled)

  pub kill_if_spinning-kept :
      (cpu window now : ℕ) (alive : Bool) (a : StopAnswers) (s : Supervisor)
      → P s
      → P (kill_if_spinning cpu window now alive a s).1
  unfolding kill_if_spinning
  kill_if_spinning-kept cpu window now alive a s h =
      let polled = k.status_kept alive s h in
      let t = (status alive s).1 in
      let r = t.upstream.resources in
      if-cases (λ (o : Outcome Bool). P o.1) (not (is_running (status alive s).0)) (λ _. polled)
        λ _.
          if-cases (λ (o : Outcome Bool). P o.1) (ltb cpu r.cpu_watchdog_percent) (λ _. polled)
            λ _.
              if-cases (λ (o : Outcome Bool). P o.1) (ltb window r.cpu_watchdog_seconds)
                (λ _. polled)
                λ _.
                  if-cases (λ (o : Outcome Bool). P o.1)
                    (ltb now (t.last_activity + r.cpu_watchdog_seconds)) (λ _. polled)
                    (λ _. stop_if-kept a _ t (λ u h'. k.busy_kept failed u refl h') polled)

  pub kill_if_memory_over_ceiling-kept :
      (memory : Option ℕ) (alive : Bool) (a : StopAnswers) (s : Supervisor)
      → P s
      → P (kill_if_memory_over_ceiling memory alive a s).1
  unfolding kill_if_memory_over_ceiling
  kill_if_memory_over_ceiling-kept memory alive a s h =
      let polled = k.status_kept alive s h in
      let t = (status alive s).1 in
      if-cases (λ (o : Outcome Bool). P o.1) (not (is_running (status alive s).0)) (λ _. polled)
        λ _.
          if-cases (λ (o : Outcome Bool). P o.1)
            (not (over_ceiling t.upstream.resources.memory_ceiling_mb memory)) (λ _. polled)
            (λ _. stop_if-kept a _ t (λ u h'. k.busy_kept failed u refl h') polled)

-- The other methods also count restarts.
module _ (P : Supervisor → Type 0) (k : Keeps P)
    (count_kept : (n : ℕ) (last : Option ℕ) (s : Supervisor)
      → P s
      → P (record s { restart_count = n; last_restart = last })) where
  restart-kept : (a : StopAnswers) (b : StartAnswers) (s : Supervisor) → P s → P (restart a b s).1
  unfolding restart
  restart-kept a b s h =
      and_then-keeps P _ _ (k.stopping_kept a _ (k.emit_kept _ s h))
        (λ t h'. start-kept P k b _ (count_kept (t.restart_count + 1) t.last_restart t h'))

  restart_now-kept : (now : ℕ) (b : StartAnswers) (s : Supervisor) → P s → P (restart_now now b s).1
  restart_now-kept now b s h =
      and_then-keeps P _ _
        (start-kept P k b _ (k.emit_kept _ _ (count_kept (s.restart_count + 1) (some now) s h)))
        (λ t h'. h')

  restart_after_failure-kept :
      (now : ℕ) (alive : Bool) (a : StopAnswers) (b : StartAnswers) (s : Supervisor)
      → P s
      → P (restart_after_failure now alive a b s).1
  unfolding restart_after_failure
  restart_after_failure-kept now alive a b s h =
      let polled = k.status_kept alive s h in
      if-cases (λ (o : Outcome Bool). P o.1) (leb s.upstream.restart.max_attempts s.restart_count)
        (λ _. k.busy_kept failed s refl h)
        λ _.
          if-cases (λ (o : Outcome Bool). P o.1)
            (too_soon s.last_restart now s.upstream.restart.backoff_seconds)
            (λ _. k.emit_kept _ _ (k.busy_kept backoff s refl h))
            λ _.
              if-cases (λ (o : Outcome Bool). P o.1) (is_running (status alive s).0)
                (λ _.
                  and_then-keeps P _ _ (k.stopping_kept a _ polled)
                    (λ u h'. restart_now-kept now b u h'))
                (λ _. restart_now-kept now b _ polled)

  pub perform-kept : (q : Request) (s : Supervisor) → P s → P (perform q s)
  perform-kept (polls alive) s h = k.status_kept alive s h
  perform-kept (starts a) s h = start-kept P k a s h
  perform-kept (stops a) s h = k.stopping_kept a s h
  perform-kept (restarts a b) s h = restart-kept a b s h
  perform-kept (restarts_after_failure now alive a b) s h =
      restart_after_failure-kept now alive a b s h
  perform-kept (reaps now alive a) s h = reap_if_idle-kept P k now alive a s h
  perform-kept (checks_cpu cpu window now alive a) s h =
      kill_if_spinning-kept P k cpu window now alive a s h
  perform-kept (checks_memory memory alive a) s h =
      kill_if_memory_over_ceiling-kept P k memory alive a s h

  pub perform_all-kept : (qs : List Request) (s : Supervisor) → P s → P (perform_all qs s)
  perform_all-kept [] s h = h
  perform_all-kept (q ∷ qs) s h = perform_all-kept qs (perform q s) (perform-kept q s h)
