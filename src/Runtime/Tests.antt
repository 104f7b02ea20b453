-- ===== src/Runtime/Tests.antt =====
-- The runtime at concrete inputs.
use ai_enterprise_os.Prelude.{
  ◌≡◌, ◌<◌, ◌+◌, refl, inr, List, [], ◌∷◌, ◌++◌, true, false, none, some, elem, Result, err, arith,
  if◌then◌else◌, ℕ, String,
}
use ai_enterprise_os.Dict.{lookup, has, get_or}
use ai_enterprise_os.Runtime.Lifecycle.{
  RuntimePhase, stopped, starting, running, degraded, returned, transition,
}
use ai_enterprise_os.Runtime.Lifecycle.Paths.{degrade, transition_diagram}
use ai_enterprise_os.Runtime.Heartbeat
use ai_enterprise_os.Runtime.Heartbeat.{
  HeartbeatManager, Failure, HealthStatus, healthy, register, unregister, beat, misses, is_stale,
  notify, Callback,
}
use ai_enterprise_os.Runtime.Heartbeat.Misses.{IsBounded, IsCalm, operations-IsBounded}
use ai_enterprise_os.Runtime.Heartbeat.Exact.{names, next_misses, is_reported, check-exact}
use ai_enterprise_os.Runtime.Heartbeat.Handlers.{IsOwn}
use ai_enterprise_os.Runtime.Heartbeat.Beats.{unregister-Kept}
use ai_enterprise_os.Runtime.Heartbeat.Silence.{check_at, reports, IsSilent, silence_reported}
use ai_enterprise_os.Runtime.CircuitBreaker.{circuit_open, circuit_breaker, call, can_reconnect}
use ai_enterprise_os.Runtime.CircuitBreaker.Trips.{IsSound, IsPassed, call_lem}
use ai_enterprise_os.Runtime.Watchdog
use ai_enterprise_os.Runtime.Watchdog.{
  Watchdog, track_task, untrack_task, task_overrun, check_heartbeats,
}
use ai_enterprise_os.Runtime.Watchdog.Deadlines.{check-overruns}

transition_diagram_example :
    transition (record { phase = running }) degraded
    ≡ (record { phase = degraded }, returned degraded)
transition_diagram_example = (transition_diagram running degraded).0 (inr degrade)

abbrev boot_and_degrade : List RuntimePhase
boot_and_degrade = running ∷ starting ∷ running ∷ stopped ∷ degraded ∷ []

-- One engine, last heard at time 10, that is stale 5 later and fails at the second missed check.
abbrev one_engine : HeartbeatManager
one_engine = record {
  enabled = true;
  interval_seconds = 2;
  timeout_seconds = 5;
  missed_threshold = 2;
  heartbeats =
      (
        "events",
        record {
          component = "events";
          sent_at = 10;
          received_at = 10;
          seq = 4;
          interval_seconds = 2;
          status = healthy;
        },
      )
      ∷ [];
  consecutive_misses = ("events", 0) ∷ [];
}

one_engine-IsBounded : IsBounded one_engine
unfolding misses get_or lookup
one_engine-IsBounded = record { below = λ k. ground arith }

no_handler-IsCalm : IsCalm none
unfolding notify
no_handler-IsCalm = record { counts = λ f m k. omega arith; threshold = λ f m. refl }

operations-IsBounded_example :
    IsBounded (register "memory" none 16 one_engine).0
    × IsBounded (beat "memory" healthy 16 one_engine).0
    × IsBounded (unregister "memory" one_engine).0
    × IsBounded (Heartbeat.check none 16 one_engine).0
operations-IsBounded_example =
    operations-IsBounded none no_handler-IsCalm one_engine "memory" none healthy 16
      one_engine-IsBounded

check-exact_example :
    (misses "events" (Heartbeat.check none 16 one_engine).0 ≡ (
      if has "events" one_engine.heartbeats
      then next_misses (is_stale "events" 16 one_engine) 2 (misses "events" one_engine)
      else misses "events" one_engine))
    × (elem "events" (names (Heartbeat.check none 16 one_engine).1) ≡ (
        if has "events" one_engine.heartbeats
        then is_reported (is_stale "events" 16 one_engine) 2 (misses "events" one_engine)
        else false))
check-exact_example = check-exact 16 one_engine "events" (refl, tt)

one_engine-IsSilent : IsSilent "events" (16 ∷ 18 ∷ []) one_engine
unfolding is_stale has lookup
one_engine-IsSilent = record { distinct = (refl, tt); monitored = refl; stale = (refl, (refl, tt)) }

-- A handler that takes the component off the manager, as isolating it does.
abbrev take_off : Callback
take_off = some (λ component reason m. (unregister component m).0)

take_off-IsOwn : IsOwn take_off
unfolding notify
take_off-IsOwn = record {
  counts = λ f k m ne. (unregister-Kept f.component k m ne).1;
  keeps = λ f k m ne. (unregister-Kept f.component k m ne).0;
}

silence_reported_example :
    (misses "events" one_engine + 2 < 2 → reports take_off "events" (16 ∷ 18 ∷ []) one_engine ≡ 0)
    × (misses "events" one_engine + 2 ≡ 2
        → (reports take_off "events" (16 ∷ 18 ∷ []) one_engine ≡ 1)
          × (misses "events" (check_at take_off (16 ∷ 18 ∷ []) one_engine) ≡ 0))
silence_reported_example =
    silence_reported take_off take_off-IsOwn "events" 16 (18 ∷ []) one_engine one_engine-IsSilent

-- Two tasks with the deadline 30.
abbrev two_tasks : Watchdog
two_tasks = record {
  enabled = true;
  deadline_seconds = 30;
  heartbeats = none;
  tasks = ("build", 100) ∷ ("deploy", 120) ∷ [];
  task_deadlines = ("build", 30) ∷ ("deploy", 30) ∷ [];
}

check-overruns_example :
    (overrun : List Failure) × ((Watchdog.check none none 135 two_tasks).1
      ≡ (check_heartbeats none none 135).1 ++ overrun)
    × (elem "build" (names overrun) ≡ task_overrun "build" 135 two_tasks)
    × (lookup "build" (Watchdog.check none none 135 two_tasks).0.tasks
        ≡ (if task_overrun "build" 135 two_tasks then none else lookup "build" two_tasks.tasks))
    × (task_overrun "build" 135 (Watchdog.check none none 135 two_tasks).0 ≡ false)
check-overruns_example = check-overruns 135 none two_tasks "build" (refl, (refl, tt))

-- A function that counts its runs, and raises.
abbrev refuse : ℕ → Result String ℕ × ℕ
refuse w = (err "down", w + 1)

call_lem_example :
    IsSound (call refuse 70 71 (circuit_breaker "memory" 60) 0).0
    × (can_reconnect 70 (circuit_breaker "memory" 60) ≡ false
        → call refuse 70 71 (circuit_breaker "memory" 60) 0
          ≡ (circuit_breaker "memory" 60, err (circuit_open "memory"), 0))
    × (can_reconnect 70 (circuit_breaker "memory" 60) ≡ true
        → IsPassed
            (circuit_breaker "memory" 60)
            71
            (refuse 0)
            (call refuse 70 71 (circuit_breaker "memory" 60) 0))
unfolding circuit_breaker
call_lem_example = call_lem refuse 70 71 (circuit_breaker "memory" 60) 0 (omega arith) (omega arith)

abbrev three_times : List (ℕ × ℕ)
three_times = (1, 2) ∷ (3, 4) ∷ (5, 6) ∷ []
