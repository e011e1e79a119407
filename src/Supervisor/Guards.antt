-- ===== src/Supervisor/Guards.antt =====
-- Under which conditions the supervisor stops or restarts its process, and what it has done then.
use mcp_broker.Prelude.{
  ℕ, ◌+◌, ◌≤◌, ◌<◌, ◌≡◌, ◌↔◌, refl, true, false, Bool, none, some, arith, Bool-cases, Option-cases,
  inl, inr, leb, ltb, not, if◌then◌else◌,
}
use mcp_broker.Prelude.Result.{ok, err, Result-cases}
use mcp_broker.Supervisor.Defs.{
  failed, Supervisor, transition, status, status_running, StopAnswers, stop, StartAnswers, Outcome,
  and_then, restart_after_failure, restart_now, reap_if_idle, is_running, too_soon,
}
use mcp_broker.Supervisor.Restarts.{restart_now-IsFrame, stop-IsFrame, status-IsFrame, frame}

-- What a stop leaves: no process, or the same process and the state `failed`.
abbrev pub Stops : Supervisor → Outcome (Unit {0}) → Type 0
Stops s (ok u, t) = t.process ≡ none
Stops s (err e, t) = (t.process ≡ s.process) × (t.state ≡ failed)

-- Whatever the operating system answers, `stop` returns only with no process left, and when it
-- raises, the supervisor keeps its process and is failed.
pub stop-Stops : (a : StopAnswers) (s : Supervisor) → Stops s (stop a s)
unfolding stop transition
stop-Stops a s = ground arith

-- There is a process and it is alive.
pub record IsAlive (alive : Bool) (s : Supervisor) : Type 0 where
  pub pid : ℕ
  pub held : s.process ≡ some pid
  pub living : alive ≡ true

-- What a restart that took place needed and did.
pub record Restarted (now : ℕ) (s t : Supervisor) : Type 0 where
  pub allowed : s.restart_count < s.upstream.restart.max_attempts
  pub spaced :
      (last : ℕ) → s.last_restart ≡ some last → last + s.upstream.restart.backoff_seconds ≤ now
  pub counted : t.restart_count ≡ s.restart_count + 1
  pub noted : t.last_restart ≡ some now

restarted :
    (now : ℕ) (b : StartAnswers) (s t : Supervisor)
    → s.restart_count < s.upstream.restart.max_attempts
    → ((last : ℕ) → s.last_restart ≡ some last → last + s.upstream.restart.backoff_seconds ≤ now)
    → t.restart_count ≡ s.restart_count
    → Restarted now s (restart_now now b t).1
restarted now b s t allowed spaced same =
    let h = restart_now-IsFrame t.upstream now b t refl in
    record {
      allowed = allowed;
      spaced = spaced;
      counted = rw (← same) h.count;
      noted = h.last_time;
    }

-- `restart_after_failure` returns `True` only below the policy's number of restarts and not sooner
-- than the policy's backoff after the restart before; it has then counted the restart and noted its
-- time.
pub restart_after_failure_sound :
    (now : ℕ) (alive : Bool) (a : StopAnswers) (b : StartAnswers) (s : Supervisor)
    → (restart_after_failure now alive a b s).0 ≡ ok true
    → Restarted now s (restart_after_failure now alive a b s).1
unfolding restart_after_failure
restart_after_failure_sound now alive a b s h =
    elim (Bool-cases (leb s.upstream.restart.max_attempts s.restart_count)) [
      | inl over ↦ absurd (cc (rw over at h))
      | inr more ↦
          elim (Bool-cases (too_soon s.last_restart now s.upstream.restart.backoff_seconds)) [
            | inl soon ↦ absurd (cc (rw (more, soon) at h))
            | inr due ↦
                let polled =
                  status-IsFrame s.upstream s.restart_count s.last_restart alive s
                    (frame s.upstream s refl) in
                elim (Bool-cases (is_running (status alive s).0)) [
                  | inr still ↦
                      rw (more, due, still)
                        (restarted now b s (status alive s).1 (ground arith) (waited due)
                          polled.count)
                  | inl on ↦ elim (Result-cases (stop a (status alive s).1).0) [
                    | inr (e, raised) ↦ absurd (cc (rw (more, due, on, raised, and_then) at h))
                    | inl (x, done) ↦
                        rw (more, due, on, done, and_then)
                          (restarted now b s (stop a (status alive s).1).1 (ground arith)
                            (waited due) (stop-IsFrame _ _ _ a _ polled).count)
                  ]
                ]
          ]
    ]
  where
    waited :
        too_soon s.last_restart now s.upstream.restart.backoff_seconds ≡ false
        → (last : ℕ) → s.last_restart ≡ some last
        → last + s.upstream.restart.backoff_seconds ≤ now
    waited due last e = ground arith

IsAlive-status :
    (alive : Bool) (s : Supervisor)
    → is_running (status alive s).0 ≡ true
    → IsAlive alive s × (status alive s ≡ (status_running, s))
unfolding status
IsAlive-status alive s h = elim (Option-cases s.process) [
  | inl nothing ↦ ground arith
  | inr (pid, held) ↦ elim (Bool-cases alive) [
    | inl living ↦ (record { pid = pid; held = held; living = living }, rw (held, living))
    | inr dead ↦ ground arith
  ]
]

status-alive :
    (alive : Bool) (s : Supervisor) → IsAlive alive s → status alive s ≡ (status_running, s)
unfolding status
status-alive alive s h = rw (h.held, h.living)

pub stopped_by :
    (o : Outcome (Unit {0})) (f : Supervisor → Outcome Bool)
    → ((u : Supervisor) → (f u).0 ≡ ok true)
    → ((and_then o f).0 ≡ ok true) ↔ (o.0 ≡ ok tt)
stopped_by (ok x, t) f h = (λ _. refl, λ _. h t)
stopped_by (err e, t) f h = (λ k. cc, λ k. cc)

-- A guard that returns `False`.
pub guard_iff :
    (b : Bool) (t : Supervisor) (o : Outcome Bool)
    → ((if b then (ok false, t) else o).0 ≡ ok true) ↔ ((b ≡ false) × (o.0 ≡ ok true))
guard_iff true t o = (λ h. cc, λ h. cc)
guard_iff false t o = (λ h. (refl, h), λ h. h.1)

-- The common shape of the three methods: a process that is not alive is left, and one that is alive
-- is stopped if the guards let it.
pub when-IsAlive_iff :
    (alive : Bool) (s : Supervisor) (f : Supervisor → Outcome Bool)
    → ((let (now_status, t) = status alive s in
          if not (is_running now_status) then (ok false, t) else f t).0
        ≡ ok true)
      ↔ (IsAlive alive s × ((f s).0 ≡ ok true))
when-IsAlive_iff alive s f = (needs, does)
  where
    needs :
        (if not (is_running (status alive s).0)
            then (ok false, (status alive s).1)
            else f (status alive s).1).0
          ≡ ok true
        → IsAlive alive s × ((f s).0 ≡ ok true)
    needs h =
        let (running, h') =
          (guard_iff (not (is_running (status alive s).0)) (status alive s).1
              (f (status alive s).1)).0
            h in
        let (living, same) = IsAlive-status alive s (ground arith) in (living, rw same at h')

    does :
        IsAlive alive s × ((f s).0 ≡ ok true)
        → (if not (is_running (status alive s).0)
            then (ok false, (status alive s).1)
            else f (status alive s).1).0
          ≡ ok true
    does (living, h) = rw (status-alive alive s living) h

-- A stop of `s`, and what follows it.
abbrev pub then_true : StopAnswers → (Supervisor → Supervisor) → Supervisor → Outcome Bool
then_true a g s = and_then (stop a s) (λ u. (ok true, g u))

abbrev if_idle : ℕ → StopAnswers → Supervisor → Outcome Bool
if_idle now a s =
    if ltb now (s.last_activity + s.upstream.resources.idle_timeout_seconds)
    then (ok false, s)
    else then_true a (λ u. u) s

if_idle_iff :
    (now : ℕ) (a : StopAnswers) (s : Supervisor)
    → ((if_idle now a s).0 ≡ ok true) ↔ (
        (s.last_activity + s.upstream.resources.idle_timeout_seconds ≤ now)
        × ((stop a s).0 ≡ ok tt))
if_idle_iff now a s =
    (λ h. let (late, h') = g.0 h in (ground arith, k.0 h'), λ h. g.1 (ground arith, k.1 h.1))
  where
    g : ((if_idle now a s).0 ≡ ok true) ↔ (
        (ltb now (s.last_activity + s.upstream.resources.idle_timeout_seconds) ≡ false)
        × ((then_true a (λ u. u) s).0 ≡ ok true))
    g = guard_iff _ s (then_true a (λ u. u) s)

    k : ((then_true a (λ u. u) s).0 ≡ ok true) ↔ ((stop a s).0 ≡ ok tt)
    k = stopped_by (stop a s) (λ u. (ok true, u)) (λ u. refl)

-- `reap_if_idle` returns `True` exactly when the process is alive, its last activity is at least the
-- idle timeout ago, and `stop` returns.
pub reap_if_idle_iff :
    (now : ℕ) (alive : Bool) (a : StopAnswers) (s : Supervisor)
    → ((reap_if_idle now alive a s).0 ≡ ok true) ↔ (
        IsAlive alive s
        × (s.last_activity + s.upstream.resources.idle_timeout_seconds ≤ now)
        × ((stop a s).0 ≡ ok tt))
unfolding reap_if_idle
reap_if_idle_iff now alive a s = (
  λ h.
      let (living, h') = (when-IsAlive_iff alive s (if_idle now a)).0 h in
      let (late, done) = (if_idle_iff now a s).0 h' in (living, late, done),
  λ h. (when-IsAlive_iff alive s (if_idle now a)).1 (h.0, (if_idle_iff now a s).1 (h.1, h.2)),
)
