-- ===== src/Runtime/Supervisor.antt =====
-- src/ai_company/runtime/supervisor.py: Supervisor, over Heartbeat, Health and Recovery.
-- The event bus, the alerts' log and `on_engine_failed` change the world `W` and do not raise
-- (what they raise is caught). `now` is the clock's answer. The heartbeats' own `on_failure` is a
-- parameter of `check_once`. The thread, locks and logging are left out.
pub mod Containment
pub mod Isolation
mod Tests
use ai_enterprise_os.Prelude.{
  ℕ, String, Bool, true, false, not, Option, none, some, List, [], ◌∷◌, ◌++◌, ◌==◌, ◌||◌,
  if◌then◌else◌, elem,
}
use ai_enterprise_os.Dict.{Dict, insert}
use ai_enterprise_os.Runtime.Policies.{RecoveryResult, RecoveryManager, no_recovery_manager}
use ai_enterprise_os.Runtime.Recovery
use ai_enterprise_os.Runtime.Heartbeat
use ai_enterprise_os.Runtime.Heartbeat.{
  HealthStatus, healthy, degraded, unhealthy, HeartbeatManager, Failure, Callback,
}
use ai_enterprise_os.Runtime.Health
use ai_enterprise_os.Runtime.Health.{HealthCheck, HealthMonitor, is_degraded, is_unhealthy}

-- The reasons that `isolate` is given.
pub data IsolationReason : Type 0 where
  manual : IsolationReason
  recovery_failed isolated_during_recovery : String → IsolationReason

pub data RuntimeEvent : Type 0 where
  component_failed : String → String → List String → Bool → RuntimeEvent
  engine_isolated : String → IsolationReason → Option ℕ → RuntimeEvent
  engine_unisolated : String → RuntimeEvent

-- What record_alert_open and record_alert_resolved append.
pub data Alert : Type 0 where
  open_alert : String → IsolationReason → Option ℕ → Alert
  resolved_alert : String → Alert

pub record Supervisor (W : Type 0) : Type 0 where
  pub heartbeats : Option HeartbeatManager
  pub health : Option (HealthMonitor W)
  pub recovery : Option (RecoveryManager W)
  pub event_bus : Option (RuntimeEvent → W → W)
  pub record_alert : Alert → W → W
  pub on_engine_failed : Option (String → String → RecoveryResult → W → W)
  pub isolated : List String
  pub recent_failures : Dict ℕ

-- set.add and set.discard
unfoldable pub set_add : String → List String → List String
set_add k ks = if elem k ks then ks else ks ++ k ∷ []

unfoldable pub set_discard : String → List String → List String
set_discard k [] = []
set_discard k (j ∷ ks) = let rest = set_discard k ks in if j == k then rest else j ∷ rest

abbrev pub is_failing : HealthCheck → Bool
is_failing c = is_unhealthy c || is_degraded c

-- `check.status.value`
abbrev pub status_value : HealthStatus → String
status_value healthy = "healthy"
status_value degraded = "degraded"
status_value unhealthy = "unhealthy"

pub silenced : String → Option HeartbeatManager → Option HeartbeatManager
unfolding Heartbeat.unregister
silenced component none = none
silenced component (some m) = some (Heartbeat.unregister component m).0

module _ {W : Type 0} where
  publish_runtime_event : Option (RuntimeEvent → W → W) → RuntimeEvent → W → W
  publish_runtime_event none e w = w
  publish_runtime_event (some publish) e w = publish e w

  pub unprobed : String → Option (HealthMonitor W) → Option (HealthMonitor W)
  unfolding Health.unregister
  unprobed component none = none
  unprobed component (some m) = some (Health.unregister component m).0

  unfoldable pub is_isolated : String → Supervisor W → Bool
  is_isolated component s = elem component s.isolated

  unfoldable pub isolate : String → IsolationReason → Option ℕ → Supervisor W → W → Supervisor W × W
  unfolding set_add silenced unprobed publish_runtime_event
  isolate component reason attempts s w =
      let w₁ = publish_runtime_event s.event_bus (engine_isolated component reason attempts) w in
      (
        record s {
          isolated = set_add component s.isolated;
          heartbeats = silenced component s.heartbeats;
          health = unprobed component s.health;
        },
        s.record_alert (open_alert component reason attempts) w₁,
      )

  forgiven : String → Option (RecoveryManager W) → Option (RecoveryManager W)
  unfolding Recovery.reset
  forgiven component none = none
  forgiven component (some r) = some (Recovery.reset component r)

  unfoldable pub unisolate : String → Supervisor W → W → Supervisor W × W
  unfolding set_discard forgiven publish_runtime_event
  unisolate component s w =
      let w₁ = publish_runtime_event s.event_bus (engine_unisolated component) w in
      (
        record s {
          isolated = set_discard component s.isolated;
          recovery = forgiven component s.recovery;
        },
        s.record_alert (resolved_alert component) w₁,
      )

  -- What `_recover` does with the result of the recovery.
  contain : String → String → RecoveryResult → Supervisor W → W → Supervisor W × W
  unfolding isolate
  contain component reason result s w =
      if not result.success
      then isolate component (recovery_failed reason) (some result.attempts) s w
      else (if elem "isolate" result.actions_taken
          then isolate component (isolated_during_recovery reason) (some result.attempts) s w
          else (s, w))

  recover_by :
      Option (RecoveryManager W)
      → String
      → String
      → Supervisor W
      → W
      → Supervisor W × RecoveryResult × W
  unfolding Recovery.recover contain
  recover_by none component reason s w = (
    s,
    record {
      component = component;
      success = false;
      actions_taken = [];
      attempts = 0;
      message = no_recovery_manager;
    },
    w,
  )
  recover_by (some r) component reason s w =
      let (r', result, w') = Recovery.recover component reason r w in
      let (s', w'') = contain component reason result (record s { recovery = some r' }) w' in
      (s', result, w'')

  told :
      Option (String → String → RecoveryResult → W → W) → String → String → RecoveryResult → W → W
  told none component reason result w = w
  told (some handler) component reason result w = handler component reason result w

  notify : Supervisor W → String → String → RecoveryResult → W → W
  unfolding publish_runtime_event told
  notify s component reason result w = told s.on_engine_failed component reason result (
      publish_runtime_event s.event_bus
        (component_failed component reason result.actions_taken result.success) w)

  unfoldable pub on_failure : String → String → ℕ → Supervisor W → W → Supervisor W × W
  unfolding is_isolated recover_by notify
  on_failure component reason now s w =
      let s₁ : Supervisor W = record s {
        recent_failures = insert component now s.recent_failures;
      } in
      let (s₂, result, w₁) = recover_by s.recovery component reason s₁ w in
      if is_isolated component s then (s, w) else (s₂, notify s component reason result w₁)

  -- The failures that the heartbeats report.
  handle_failures : List Failure → ℕ → Supervisor W → W → List String × Supervisor W × W
  unfolding on_failure
  handle_failures [] now s w = ([], s, w)
  handle_failures (f ∷ fs) now s w =
      let (s', w') = on_failure f.component f.reason now s w in
      let (names, s'', w'') = handle_failures fs now s' w' in (f.component ∷ names, s'', w'')

  -- The checks of the health monitor.
  handle_checks : List HealthCheck → ℕ → Supervisor W → W → List String × Supervisor W × W
  unfolding on_failure
  handle_checks [] now s w = ([], s, w)
  handle_checks (c ∷ cs) now s w =
      let (s', w') =
        if is_failing c then on_failure c.component (status_value c.status) now s w else (s, w) in
      let (names, s'', w'') = handle_checks cs now s' w' in
      (if is_failing c then c.component ∷ names else names, s'', w'')

  check_heartbeats_by :
      Option HeartbeatManager → Callback → ℕ → Supervisor W → W → List String × Supervisor W × W
  unfolding Heartbeat.check handle_failures
  check_heartbeats_by none callback now s w = ([], s, w)
  check_heartbeats_by (some m) callback now s w =
      let (m', failures) = Heartbeat.check callback now m in
      handle_failures failures now (record s { heartbeats = some m' }) w

  check_health_by : Option (HealthMonitor W) → ℕ → Supervisor W → W → List String × Supervisor W × W
  unfolding Health.check_all handle_checks
  check_health_by none now s w = ([], s, w)
  check_health_by (some h) now s w =
      let (checks, w') = Health.check_all h w in handle_checks checks now s w'

  unfoldable pub check_once : Callback → ℕ → Supervisor W → W → List String × Supervisor W × W
  unfolding check_heartbeats_by check_health_by
  check_once callback now s w =
      let (silent, s₁, w₁) = check_heartbeats_by s.heartbeats callback now s w in
      let (sick, s₂, w₂) = check_health_by s₁.health now s₁ w₁ in (silent ++ sick, s₂, w₂)
