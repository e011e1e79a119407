-- ===== src/Supervisor/Defs.antt =====
-- src/mcp_broker/upstream_process.py: `UpstreamProcessSupervisor`, with upstream_state.py.
-- What the operating system does is an argument of each method: whether the process is alive where
-- the method polls it, what a spawn gives, whether a wait ends in time, whether processes of the
-- group are left. Times of the monotonic clock are natural numbers. A method returns its result, or
-- the error that it raises, and the supervisor as it leaves it. The events are those that the
-- logger is given.
use mcp_broker.Prelude.{
  ℕ, ◌+◌, Bool, true, false, not, ◌&&◌, Option, none, some, List, [], ◌∷◌, ◌++◌, if◌then◌else◌, ltb,
  leb, Dict, String,
}
use mcp_broker.Prelude.Result.{Result, ok, err}
use mcp_broker.Upstream.{UpstreamConfig, is_off}
use mcp_broker.Upstream.Environment.{SecretFile, EnvironmentError, resolve_environment}

pub data State : Type 0 where
  configured starting running draining stopping stopped failed backoff disabled : State

pub State-discrete : Discrete State
State-discrete = hlevel

abbrev number : State → ℕ
number configured = 0
number starting = 1
number running = 2
number draining = 3
number stopping = 4
number stopped = 5
number failed = 6
number backoff = 7
number disabled = 8

abbrev pub same_state : State → State → Bool
same_state a b = leb (number a) (number b) && leb (number b) (number a)

pub data Event : Type 0 where
  upstream_disabled upstream_start upstream_ready upstream_stop upstream_kill : Event
  upstream_backoff : Event
  upstream_restart : ℕ → Event

pub data Error : Type 0 where
  is_disabled os_error exited_during_startup startup_timed_out : Error
  stop_timed_out group_has_members circuit_open bad_argument : Error
  ready_check_failed ready_check_broke : Error
  environment : EnvironmentError → Error

pub record Supervisor : Type 0 where
  pub upstream : UpstreamConfig
  pub restart_count : ℕ
  pub process : Option ℕ
  pub state : State
  pub history : List State
  pub last_activity : ℕ
  pub last_restart : Option ℕ
  pub events : List Event

abbrev pub ends_with : List State → State → Bool
ends_with [] t = false
ends_with (s ∷ []) t = same_state s t
ends_with (s ∷ u ∷ rest) t = ends_with (u ∷ rest) t

-- `_transition`: a state is not written twice in a row to the history.
unfoldable pub transition : State → Supervisor → Supervisor
transition t s =
    if ends_with s.history t
    then record s { state = t }
    else record s { state = t; history = s.history ++ t ∷ [] }

abbrev pub emit : Event → Supervisor → Supervisor
emit e s = record s { events = s.events ++ e ∷ [] }

-- `__post_init__`
unfoldable pub new_supervisor : UpstreamConfig → Supervisor
unfolding transition
new_supervisor u =
    let s : Supervisor = record {
      upstream = u;
      restart_count = 0;
      process = none;
      state = configured;
      history = [];
      last_activity = 0;
      last_restart = none;
      events = [];
    } in
    if is_off u then emit upstream_disabled (transition disabled s) else transition configured s

pub data Status : Type 0 where
  status_disabled status_stopped status_running status_exited : Status

abbrev pub is_running : Status → Bool
is_running status_running = true
is_running _ = false

abbrev pub is_exited : Status → Bool
is_exited status_exited = true
is_exited _ = false

abbrev pub status_of : Option ℕ → Bool → Supervisor → Status × Supervisor
status_of none alive s =
    (if same_state s.state disabled then status_disabled else status_stopped, s)
status_of (some pid) true s = (status_running, s)
status_of (some pid) false s = (status_exited, transition failed s)

-- The property `status`; it notes an exit.
unfoldable pub status : Bool → Supervisor → Status × Supervisor
status alive s = status_of s.process alive s

abbrev pub Outcome : Type 0 → Type 0
Outcome A = Result Error A × Supervisor

-- The rest of a method goes on only if nothing was raised.
abbrev pub and_then : {A B : Type 0} → Outcome A → (Supervisor → Outcome B) → Outcome B
and_then (ok a, s) rest = rest s
and_then (err e, s) rest = (err e, s)

-- What `stop` meets.
pub record StopAnswers : Type 0 where
  pub alive : Bool
  pub ends_on_term : Bool
  pub ends_on_kill : Bool
  pub members_left : Bool

-- From the signal to the whole group on.
abbrev pub clean_up : StopAnswers → Supervisor → Outcome (Unit {0})
clean_up a s =
    if a.members_left
    then (err group_has_members, transition failed s)
    else (ok tt, emit upstream_stop (transition stopped (record s { process = none })))

abbrev pub terminate : StopAnswers → Supervisor → Outcome (Unit {0})
terminate a s =
    if a.ends_on_term
    then clean_up a s
    else if a.ends_on_kill
    then clean_up a (emit upstream_kill s)
    else (err stop_timed_out, transition failed (emit upstream_kill s))

abbrev pub stop_process : Option ℕ → StopAnswers → Supervisor → Outcome (Unit {0})
stop_process none a s =
    if same_state s.state disabled
    then (ok tt, s)
    else (ok tt, emit upstream_stop (transition stopped s))
stop_process (some pid) a s =
    if a.alive then terminate a (transition stopping (transition draining s)) else clean_up a s

unfoldable pub stop : StopAnswers → Supervisor → Outcome (Unit {0})
stop a s = stop_process s.process a s

-- What `ready_check` does: it answers, raises `RuntimeError` or `TimeoutError`, or raises another
-- exception.
pub data ReadyCheck : Type 0 where
  says : Bool → ReadyCheck
  fails breaks : ReadyCheck

-- One round of `_wait_until_ready`: the clock, what `ready_check` says, and whether the process is
-- alive where the round asks.
pub record Round : Type 0 where
  pub now : ℕ
  pub check : ReadyCheck
  pub alive : Bool

-- `rest` is what follows a check that says no.
abbrev pub after_check : ReadyCheck → ℕ → Outcome (Unit {0}) → Supervisor → Outcome (Unit {0})
after_check (says true) now rest s = (ok tt, record s { last_activity = now })
after_check (says false) now rest s = rest
after_check fails now rest s = (err ready_check_failed, s)
after_check breaks now rest s = (err ready_check_broke, s)

-- The loop; a list that ends stands for a clock that has passed the deadline.
unfoldable pub wait_until_ready : ℕ → List Round → Supervisor → Outcome (Unit {0})
unfolding status
wait_until_ready deadline [] s = (err startup_timed_out, s)
wait_until_ready deadline (r ∷ rest) s =
    let again = wait_until_ready deadline rest (status r.alive s).1 in
    if leb deadline r.now
    then (err startup_timed_out, s)
    else after_check r.check r.now
        (if is_exited (status r.alive s).0
          then (err exited_during_startup, (status r.alive s).1)
          else again)
        s

-- What `Popen` does: it gives a process id, raises `OSError`, or raises another exception (an
-- argument that holds a null character).
pub data Spawn : Type 0 where
  spawned_as : ℕ → Spawn
  os_fails refused : Spawn

-- What `start` meets: whether its directory is there or can be made, the environment, the spawn, the
-- clock; `rounds` is `none` where no `ready_check` is given.
pub record StartAnswers : Type 0 where
  pub alive : Bool
  pub has_directory : Bool
  pub environ : Dict String
  pub files : String → SecretFile
  pub spawned : Spawn
  pub now : ℕ
  pub deadline : ℕ
  pub rounds : Option (List Round)
  pub stopping : StopAnswers

abbrev pub back_off : Supervisor → Supervisor
back_off s = emit upstream_backoff (transition backoff (transition failed s))

-- Only `RuntimeError` and `TimeoutError` are caught.
abbrev pub is_caught : Error → Bool
is_caught ready_check_broke = false
is_caught _ = true

-- The handler of a failed wait stops the process, and raises the wait's error again.
abbrev pub give_up : StopAnswers → Result Error (Unit {0}) × Supervisor → Outcome (Unit {0})
give_up a (ok u, s) = (ok tt, emit upstream_ready s)
give_up a (err e, s) =
    if is_caught e then and_then (stop a s) (λ t. (err e, back_off t)) else (err e, s)

abbrev pub await : StartAnswers → Option (List Round) → Supervisor → Outcome (Unit {0})
await a none s = (ok tt, emit upstream_ready s)
await a (some rounds) s = give_up a.stopping (wait_until_ready a.deadline rounds s)

abbrev pub launch : StartAnswers → Spawn → Supervisor → Outcome (Unit {0})
launch a os_fails s = (err os_error, back_off s)
launch a refused s = (err bad_argument, s)
launch a (spawned_as pid) s =
    await a a.rounds (transition running (record s { process = some pid; last_activity = a.now }))

-- From the environment on; an environment that does not resolve leaves the state as it is.
abbrev pub with_environment :
    StartAnswers → Result EnvironmentError (Dict String) → Supervisor → Outcome (Unit {0})
with_environment a (err e) s = (err (environment e), s)
with_environment a (ok env) s = launch a a.spawned s

unfoldable pub start : StartAnswers → Supervisor → Outcome (Unit {0})
unfolding resolve_environment
start a s =
    let (now_status, t) = status a.alive s in
    if is_off s.upstream
    then (err is_disabled, emit upstream_disabled (transition disabled s))
    else if is_running now_status
    then (ok tt, t)
    else if not a.has_directory
    then (err os_error, t)
    else with_environment a (resolve_environment s.upstream a.environ a.files)
        (emit upstream_start (transition starting t))

unfoldable pub restart : StopAnswers → StartAnswers → Supervisor → Outcome (Unit {0})
restart a b s =
    and_then (stop a (emit (upstream_restart (s.restart_count + 1)) s))
      (λ t. start b (record t { restart_count = t.restart_count + 1 }))

abbrev pub too_soon : Option ℕ → ℕ → ℕ → Bool
too_soon none now wait = false
too_soon (some last) now wait = ltb now (last + wait)

abbrev pub restart_now : ℕ → StartAnswers → Supervisor → Outcome Bool
restart_now now b s =
    let t = record s { restart_count = s.restart_count + 1; last_restart = some now } in
    and_then (start b (emit (upstream_restart t.restart_count) t)) (λ u. (ok true, u))

unfoldable pub restart_after_failure :
    ℕ → Bool → StopAnswers → StartAnswers → Supervisor → Outcome Bool
restart_after_failure now alive a b s =
    if leb s.upstream.restart.max_attempts s.restart_count
    then (err circuit_open, transition failed s)
    else if too_soon s.last_restart now s.upstream.restart.backoff_seconds
    then (ok false, emit upstream_backoff (transition backoff s))
    else let (now_status, t) = status alive s in
      if is_running now_status
      then and_then (stop a t) (λ u. restart_now now b u)
      else restart_now now b t

unfoldable pub reap_if_idle : ℕ → Bool → StopAnswers → Supervisor → Outcome Bool
reap_if_idle now alive a s =
    let (now_status, t) = status alive s in
    if not (is_running now_status)
    then (ok false, t)
    else if ltb now (t.last_activity + t.upstream.resources.idle_timeout_seconds)
    then (ok false, t)
    else and_then (stop a t) (λ u. (ok true, u))

unfoldable pub kill_if_spinning : ℕ → ℕ → ℕ → Bool → StopAnswers → Supervisor → Outcome Bool
kill_if_spinning cpu_percent sample_window now alive a s =
    let (now_status, t) = status alive s in
    let limits = t.upstream.resources in
    if not (is_running now_status)
    then (ok false, t)
    else if ltb cpu_percent limits.cpu_watchdog_percent
    then (ok false, t)
    else if ltb sample_window limits.cpu_watchdog_seconds
    then (ok false, t)
    else if ltb now (t.last_activity + limits.cpu_watchdog_seconds)
    then (ok false, t)
    else and_then (stop a t) (λ u. (ok true, transition failed u))

abbrev pub over_ceiling : Option ℕ → Option ℕ → Bool
over_ceiling (some ceiling) (some memory) = ltb ceiling memory
over_ceiling _ _ = false

unfoldable pub kill_if_memory_over_ceiling :
    Option ℕ → Bool → StopAnswers → Supervisor → Outcome Bool
kill_if_memory_over_ceiling memory_mb alive a s =
    let (now_status, t) = status alive s in
    if not (is_running now_status)
    then (ok false, t)
    else if not (over_ceiling t.upstream.resources.memory_ceiling_mb memory_mb)
    then (ok false, t)
    else and_then (stop a t) (λ u. (ok true, transition failed u))
