-- ===== src/Supervisor/Kills.antt =====
-- When a process that spins or that takes too much memory is killed.
use mcp_broker.Prelude.{
  ℕ, ◌+◌, ◌≤◌, ◌<◌, ◌≡◌, ◌↔◌, refl, true, false, Bool, Option, none, some, arith, ltb, not,
  if◌then◌else◌,
}
use mcp_broker.Prelude.Result.{ok}
use mcp_broker.Supervisor.Defs.{
  failed, Supervisor, transition, StopAnswers, stop, Outcome, kill_if_spinning,
  kill_if_memory_over_ceiling, over_ceiling,
}
use mcp_broker.Supervisor.Guards.{IsAlive, guard_iff, stopped_by, then_true, when-IsAlive_iff}

abbrev fail : Supervisor → Supervisor
fail = transition failed

failing_iff :
    (a : StopAnswers) (s : Supervisor) → ((then_true a fail s).0 ≡ ok true) ↔ ((stop a s).0 ≡ ok tt)
failing_iff a s = stopped_by (stop a s) (λ u. (ok true, fail u)) (λ u. refl)

abbrev if_stalled : ℕ → StopAnswers → Supervisor → Outcome Bool
if_stalled now a s =
    if ltb now (s.last_activity + s.upstream.resources.cpu_watchdog_seconds)
    then (ok false, s)
    else then_true a fail s

abbrev if_sampled : ℕ → ℕ → StopAnswers → Supervisor → Outcome Bool
if_sampled window now a s =
    if ltb window s.upstream.resources.cpu_watchdog_seconds
    then (ok false, s)
    else if_stalled now a s

abbrev if_busy : ℕ → ℕ → ℕ → StopAnswers → Supervisor → Outcome Bool
if_busy cpu window now a s =
    if ltb cpu s.upstream.resources.cpu_watchdog_percent
    then (ok false, s)
    else if_sampled window now a s

-- The process uses the CPU at the watchdog's percentage or above it, over a window and without
-- activity for the watchdog's time.
pub record IsSpinning (cpu window now : ℕ) (s : Supervisor) : Type 0 where
  pub busy : s.upstream.resources.cpu_watchdog_percent ≤ cpu
  pub sampled : s.upstream.resources.cpu_watchdog_seconds ≤ window
  pub stalled : s.last_activity + s.upstream.resources.cpu_watchdog_seconds ≤ now

if_busy_iff :
    (cpu window now : ℕ) (a : StopAnswers) (s : Supervisor)
    → ((if_busy cpu window now a s).0 ≡ ok true)
      ↔ (IsSpinning cpu window now s × ((stop a s).0 ≡ ok tt))
if_busy_iff cpu window now a s = (
  λ h.
      let (busy, h1) = (guard_iff _ s (if_sampled window now a s)).0 h in
      let (sampled, h2) = (guard_iff _ s (if_stalled now a s)).0 h1 in
      let (stalled, h3) = (guard_iff _ s (then_true a fail s)).0 h2 in
      (
        record { busy = ground arith; sampled = ground arith; stalled = ground arith },
        (failing_iff a s).0 h3,
      ),
  λ h.
      let busy = h.0.busy in
      let sampled = h.0.sampled in
      let stalled = h.0.stalled in
      (guard_iff _ s (if_sampled window now a s)).1 (
        ground arith,
        (guard_iff _ s (if_stalled now a s)).1 (
          ground arith,
          (guard_iff _ s (then_true a fail s)).1 (ground arith, (failing_iff a s).1 h.1),
        ),
      ),
)

-- `kill_if_spinning` returns `True` exactly when the process is alive, has used the CPU at the
-- watchdog's percentage or above it, over a window and without activity for the watchdog's time, and
-- `stop` returns.
pub kill_if_spinning_iff :
    (cpu window now : ℕ) (alive : Bool) (a : StopAnswers) (s : Supervisor)
    → ((kill_if_spinning cpu window now alive a s).0 ≡ ok true)
      ↔ (IsAlive alive s × IsSpinning cpu window now s × ((stop a s).0 ≡ ok tt))
unfolding kill_if_spinning
kill_if_spinning_iff cpu window now alive a s = (
  λ h.
      let (living, h') = (when-IsAlive_iff alive s (if_busy cpu window now a)).0 h in
      let (spinning, done) = (if_busy_iff cpu window now a s).0 h' in (living, spinning, done),
  λ h.
      (when-IsAlive_iff alive s (if_busy cpu window now a)).1
        (h.0, (if_busy_iff cpu window now a s).1 (h.1, h.2)),
)

abbrev if_over : Option ℕ → StopAnswers → Supervisor → Outcome Bool
if_over memory a s =
    if not (over_ceiling s.upstream.resources.memory_ceiling_mb memory)
    then (ok false, s)
    else then_true a fail s

-- A sample and a ceiling are there, and the sample is above the ceiling.
pub record IsOver (memory : Option ℕ) (ceiling : Option ℕ) : Type 0 where
  pub used : ℕ
  pub sampled : memory ≡ some used
  pub most : ℕ
  pub limited : ceiling ≡ some most
  pub above : most < used

over_ceiling_iff :
    (ceiling memory : Option ℕ)
    → (not (over_ceiling ceiling memory) ≡ false) ↔ IsOver memory ceiling
over_ceiling_iff none memory = (λ h. cc, λ h. absurd (cc h.limited))
over_ceiling_iff (some c) none = (λ h. cc, λ h. absurd (cc h.sampled))
over_ceiling_iff (some c) (some m) = (
  λ h. record { used = m; sampled = refl; most = c; limited = refl; above = ground arith },
  λ h. ground arith,
)

-- `kill_if_memory_over_ceiling` returns `True` exactly when the process is alive, a sample and a
-- ceiling are there with the sample above the ceiling, and `stop` returns.
pub kill_if_memory_over_ceiling_iff :
    (memory : Option ℕ) (alive : Bool) (a : StopAnswers) (s : Supervisor)
    → ((kill_if_memory_over_ceiling memory alive a s).0 ≡ ok true) ↔ (
        IsAlive alive s
        × IsOver memory s.upstream.resources.memory_ceiling_mb
        × ((stop a s).0 ≡ ok tt))
unfolding kill_if_memory_over_ceiling
kill_if_memory_over_ceiling_iff memory alive a s = (
  λ h.
      let (living, h1) = (when-IsAlive_iff alive s (if_over memory a)).0 h in
      let (over, h2) = (guard_iff _ s (then_true a fail s)).0 h1 in
      (living, (over_ceiling_iff _ memory).0 over, (failing_iff a s).0 h2),
  λ h. (when-IsAlive_iff alive s (if_over memory a)).1 (
    h.0,
    (guard_iff _ s (then_true a fail s)).1
        ((over_ceiling_iff _ memory).1 h.1, (failing_iff a s).1 h.2),
  ),
)
