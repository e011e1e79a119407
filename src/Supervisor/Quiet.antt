-- ===== src/Supervisor/Quiet.antt =====
-- Whatever the operating system answers, a supervisor whose state says that nothing runs holds no
-- process, and its history ends in its state and repeats no state twice in a row.
use mcp_broker.Prelude.{ℕ, ◌≡◌, true, false, Bool, none, some, List, arith}
use mcp_broker.Upstream.{UpstreamConfig, is_off}
use mcp_broker.Supervisor.Defs.{
  State, disabled, running, Supervisor, transition, new_supervisor, status, StopAnswers, stop,
}
use mcp_broker.Supervisor.Moves.{resting, Request, perform_all, Keeps, perform_all-kept}

pub record IsQuiet (s : Supervisor) : Type 0 where
  pub at_rest : resting s.state ≡ true → s.process ≡ none
  pub switched_off : is_off s.upstream ≡ true → s.process ≡ none

new_supervisor-IsQuiet : (u : UpstreamConfig) → IsQuiet (new_supervisor u)
unfolding new_supervisor
new_supervisor-IsQuiet u = ground arith

busy-IsQuiet :
    (t : State) (s : Supervisor) → resting t ≡ false → IsQuiet s → IsQuiet (transition t s)
unfolding transition
busy-IsQuiet t s busy h = ground arith

off-IsQuiet :
    (s : Supervisor) → is_off s.upstream ≡ true → IsQuiet s → IsQuiet (transition disabled s)
unfolding transition
off-IsQuiet s off h = ground arith

stop-IsQuiet : (a : StopAnswers) (s : Supervisor) → IsQuiet s → IsQuiet (stop a s).1
unfolding stop transition
stop-IsQuiet a s h = ground arith

status-IsQuiet : (alive : Bool) (s : Supervisor) → IsQuiet s → IsQuiet (status alive s).1
unfolding status transition
status-IsQuiet alive s h = ground arith

spawn-IsQuiet :
    (pid now : ℕ) (s : Supervisor)
    → is_off s.upstream ≡ false
    → IsQuiet s
    → IsQuiet (transition running (record s { process = some pid; last_activity = now }))
unfolding transition
spawn-IsQuiet pid now s on h = ground arith

Keeps-IsQuiet : Keeps IsQuiet
Keeps-IsQuiet = record {
  stopping_kept = stop-IsQuiet;
  status_kept = status-IsQuiet;
  busy_kept = busy-IsQuiet;
  off_kept = off-IsQuiet;
  emit_kept = λ e s h. record { at_rest = h.at_rest; switched_off = h.switched_off };
  touch_kept = λ now s h. record { at_rest = h.at_rest; switched_off = h.switched_off };
  spawn_kept = spawn-IsQuiet;
}

-- After any calls of a new supervisor's methods, and whatever the operating system answers, a
-- supervisor that is configured, stopped or disabled holds no process, and one of an upstream that
-- is switched off never holds any.
pub perform_all-IsQuiet :
    (u : UpstreamConfig) (qs : List Request) → IsQuiet (perform_all qs (new_supervisor u))
perform_all-IsQuiet u qs =
    perform_all-kept IsQuiet Keeps-IsQuiet
      (λ n last s h. record { at_rest = h.at_rest; switched_off = h.switched_off }) qs
      (new_supervisor u) (new_supervisor-IsQuiet u)
