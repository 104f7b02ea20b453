-- ===== src/Runtime/Supervisor/Tests.antt =====
-- The supervisor at concrete inputs.
use ai_enterprise_os.Prelude.{
  ℕ, ◌+◌, String, true, false, Option, none, some, [], ◌∷◌, ◌≡◌, refl, ◌==◌, not, ◌&&◌, eq_iff,
  arith,
}
use ai_enterprise_os.Dict.{lookup, get_or, has, erase}
use ai_enterprise_os.Runtime.Policies.{RecoveryPolicy, RecoveryManager, policy_for}
use ai_enterprise_os.Runtime.Recovery.{attempts_of, max_of, reset}
use ai_enterprise_os.Runtime.Heartbeat.{HeartbeatManager, healthy, check_component, is_stale}
use ai_enterprise_os.Runtime.Health.{HealthMonitor, answered}
use ai_enterprise_os.Runtime.Supervisor.{
  IsolationReason, manual, Supervisor, is_isolated, isolate, unisolate, on_failure, check_once,
}
use ai_enterprise_os.Runtime.Supervisor.Containment.{
  monitored, probed, IsContained, operations-IsContained,
}
use ai_enterprise_os.Runtime.Supervisor.Isolation.{exhausted_isolates, readmitted_unmonitored}

abbrev policy : RecoveryPolicy
policy = record { name = "memory"; enabled = true; max_attempts = some 2; actions = "restart" ∷ [] }

-- "memory" has been tried twice, which is as often as its policy allows.
abbrev recovery : RecoveryManager ℕ
recovery = record {
  default_max_attempts = 3;
  process_manager = none;
  component_factory = some (λ component w. (none, w + 10));
  event_bus = none;
  is_engine = none;
  metrics = none;
  policies = ("memory", policy) ∷ [];
  attempts = ("memory", 2) ∷ [];
  results = [];
  factories = [];
}

abbrev heartbeats : HeartbeatManager
heartbeats = record {
  enabled = true;
  interval_seconds = 5;
  timeout_seconds = 10;
  missed_threshold = 1;
  heartbeats =
      (
        "memory",
        record {
          component = "memory";
          sent_at = 0;
          received_at = 0;
          seq = 1;
          interval_seconds = 5;
          status = healthy;
        },
      )
      ∷ [];
  consecutive_misses = [];
}

abbrev health : HealthMonitor ℕ
health = record {
  components = ("memory", λ w. (answered (some "unhealthy"), w)) ∷ [];
  lower = λ raw. raw;
  system_check = λ w. (healthy, w);
}

-- The world counts what is published and written.
abbrev supervisor : Supervisor ℕ
supervisor = record {
  heartbeats = some heartbeats;
  health = some health;
  recovery = some recovery;
  event_bus = some (λ e w. w + 1);
  record_alert = λ a w. w + 1;
  on_engine_failed = none;
  isolated = "planner" ∷ [];
  recent_failures = [];
}

supervisor-IsContained : IsContained supervisor
unfolding has
supervisor-IsContained = record {
  out = λ k e.
      let q : ("planner" == k) ≡ true = ground arith in
      rw (← (eq_iff "planner" k).0 q) (refl, refl);
}

-- A pass isolates the silent "memory", so the health monitor has nothing left to report of it.
check_once_memory :
    ((check_once none 20 supervisor 0).0 ≡ "memory" ∷ [])
    × (is_isolated "memory" (check_once none 20 supervisor 0).1 ≡ true)
    × ((check_once none 20 supervisor 0).2 ≡ 3)
unfolding check_once is_isolated check_component is_stale lookup get_or erase
check_once_memory = (refl, refl, refl)

exhausted_isolates_example :
    (is_isolated "memory" (on_failure "memory" "timeout" 20 supervisor 0).0 ≡ true)
    × (monitored "memory" (on_failure "memory" "timeout" 20 supervisor 0).0.heartbeats ≡ false)
    × (probed "memory" (on_failure "memory" "timeout" 20 supervisor 0).0.health ≡ false)
    × ((again : String) (later : ℕ) (v : ℕ)
        → on_failure "memory" again later (on_failure "memory" "timeout" 20 supervisor 0).0 v
          ≡ ((on_failure "memory" "timeout" 20 supervisor 0).0, v))
unfolding policy_for max_of attempts_of lookup get_or is_isolated
exhausted_isolates_example =
    exhausted_isolates "memory" "timeout" 20 supervisor recovery policy 0 refl refl refl
      (omega arith)

operations-IsContained_example :
    ((c : String) (reason : IsolationReason) (n : Option ℕ) (w : ℕ)
      → IsContained (isolate c reason n supervisor w).0)
    × ((c : String) (w : ℕ) → IsContained (unisolate c supervisor w).0)
    × ((c reason : String) (now : ℕ) (w : ℕ) → IsContained (on_failure c reason now supervisor w).0)
    × ((now : ℕ) (w : ℕ) → IsContained (check_once none now supervisor w).1)
operations-IsContained_example = operations-IsContained supervisor supervisor-IsContained

readmitted_unmonitored_example :
    ((k : String)
      → is_isolated k (unisolate "memory" (isolate "memory" manual none supervisor 0).0 0).0
        ≡ (not ("memory" == k) && is_isolated k supervisor))
    × ((unisolate "memory" (isolate "memory" manual none supervisor 0).0 0).0.recovery
        ≡ some (reset "memory" recovery))
    × (attempts_of "memory" (reset "memory" recovery) ≡ 0)
    × (monitored "memory"
          (unisolate "memory" (isolate "memory" manual none supervisor 0).0 0).0.heartbeats
        ≡ false)
    × (probed "memory" (unisolate "memory" (isolate "memory" manual none supervisor 0).0 0).0.health
        ≡ false)
readmitted_unmonitored_example =
    readmitted_unmonitored "memory" manual none supervisor recovery 0 0 refl
