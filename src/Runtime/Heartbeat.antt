-- ===== src/Runtime/Heartbeat.antt =====
-- src/ai_company/runtime/heartbeat.py: HeartbeatManager, with models.py.
-- A point in time and a span are numbers of microseconds; `now` is the clock's answer, an argument
-- of each method. `on_failure` is a function that may change the manager (it may unregister a
-- component); what it raises is caught. Locks, payloads and logging are left out.
pub mod Misses
pub mod Exact
pub mod Handlers
pub mod Beats
pub mod Silence
use ai_enterprise_os.Prelude.{
  ℕ, zero, ◌+◌, ◌-◌, String, Bool, true, false, Option, none, some, List, [], ◌∷◌, ◌++◌,
  if◌then◌else◌, ltb, leb, eqb,
}
use ai_enterprise_os.Dict.{Dict, has, lookup, insert, erase, get_or, keys, values}

pub data HealthStatus : Type 0 where
  healthy degraded unhealthy : HealthStatus

pub record Heartbeat : Type 0 where
  pub component : String
  pub sent_at : ℕ
  pub received_at : ℕ
  pub seq : ℕ
  pub interval_seconds : ℕ
  pub status : HealthStatus

pub record HeartbeatManager : Type 0 where
  pub enabled : Bool
  pub interval_seconds : ℕ
  pub timeout_seconds : ℕ
  pub missed_threshold : ℕ
  pub heartbeats : Dict Heartbeat
  pub consecutive_misses : Dict ℕ

-- `(component, reason)`; the one reason of this module is "heartbeat_timeout".
pub record Failure : Type 0 where
  pub component : String
  pub reason : String

abbrev pub Callback : Type 0
Callback = Option (String → String → HeartbeatManager → HeartbeatManager)

-- `interval_seconds or self.interval_seconds`
or_default : Option ℕ → ℕ → ℕ
or_default none d = d
or_default (some n) d = if eqb n 0 then d else n

register_as : Option Heartbeat → String → ℕ → ℕ → HeartbeatManager → HeartbeatManager × Heartbeat
register_as (some existing) component interval now m =
    let h = record existing { interval_seconds = interval } in
    (record m { heartbeats = insert component h m.heartbeats }, h)
register_as none component interval now m =
    let h : Heartbeat = record {
      component = component;
      sent_at = now;
      received_at = now;
      seq = 0;
      interval_seconds = interval;
      status = healthy;
    } in
    (
      record m {
        heartbeats = insert component h m.heartbeats;
        consecutive_misses = insert component 0 m.consecutive_misses;
      },
      h,
    )

unfoldable pub register : String → Option ℕ → ℕ → HeartbeatManager → HeartbeatManager × Heartbeat
unfolding or_default register_as
register component interval now m =
    register_as (lookup component m.heartbeats) component (or_default interval m.interval_seconds)
      now m

unfoldable pub unregister : String → HeartbeatManager → HeartbeatManager × Bool
unregister component m = (
  record m {
    heartbeats = erase component m.heartbeats;
    consecutive_misses = erase component m.consecutive_misses;
  },
  has component m.heartbeats,
)

-- `previous`, which an unknown component gets by `self.register(component)`.
previous_of : Option Heartbeat → String → ℕ → HeartbeatManager → HeartbeatManager × Heartbeat
previous_of (some previous) component now m = (m, previous)
previous_of none component now m = register component none now m

unfoldable pub beat : String → HealthStatus → ℕ → HeartbeatManager → HeartbeatManager × Heartbeat
unfolding previous_of
beat component status now m =
    let (m', previous) = previous_of (lookup component m.heartbeats) component now m in
    let heartbeat : Heartbeat = record {
      component = component;
      sent_at = now;
      received_at = now;
      seq = previous.seq + 1;
      interval_seconds = previous.interval_seconds;
      status = status;
    } in
    (
      record m' {
        heartbeats = insert component heartbeat m'.heartbeats;
        consecutive_misses = insert component 0 m'.consecutive_misses;
      },
      heartbeat,
    )

since : Option Heartbeat → ℕ → Option ℕ
since none now = none
since (some h) now = some (now - h.received_at)

-- `none` is infinity; a heartbeat from the future counts as 0 seconds old.
unfoldable pub seconds_since : String → ℕ → HeartbeatManager → Option ℕ
unfolding since
seconds_since component now m = since (lookup component m.heartbeats) now

exceeds : Option ℕ → ℕ → Bool
exceeds none timeout = true
exceeds (some n) timeout = ltb timeout n

unfoldable pub is_stale : String → ℕ → HeartbeatManager → Bool
unfolding exceeds seconds_since
is_stale component now m = exceeds (seconds_since component now m) m.timeout_seconds

unfoldable pub misses : String → HeartbeatManager → ℕ
misses component m = get_or component 0 m.consecutive_misses

abbrev pub set_misses : String → ℕ → HeartbeatManager → HeartbeatManager
set_misses component n m = record m { consecutive_misses = insert component n m.consecutive_misses }

-- `if self.on_failure is not None: try: self.on_failure(component, reason)`
unfoldable pub notify : Callback → Failure → HeartbeatManager → HeartbeatManager
notify none f m = m
notify (some on_failure) f m = on_failure f.component f.reason m

abbrev pub timeout_of : String → Failure
timeout_of component = record { component = component; reason = "heartbeat_timeout" }

module _ (on_failure : Callback) where
  -- The body of the loop of `check`.
  unfoldable pub check_component : String → ℕ → HeartbeatManager → HeartbeatManager × List Failure
  unfolding misses notify
  check_component component now m =
      let n = misses component m + 1 in
      let m₁ = set_misses component n m in
      if is_stale component now m
      then (if leb m.missed_threshold n
          then (
            set_misses component 0 (notify on_failure (timeout_of component) m₁),
            timeout_of component ∷ [],
          )
          else (m₁, []))
      else (set_misses component 0 m, [])

  unfoldable pub check_components :
      List String → ℕ → HeartbeatManager → HeartbeatManager × List Failure
  check_components [] now m = (m, [])
  check_components (c ∷ cs) now m =
      let (m', found) = check_component c now m in
      let (m'', more) = check_components cs now m' in (m'', found ++ more)

  -- The components are listed once, before the loop.
  unfoldable pub check : ℕ → HeartbeatManager → HeartbeatManager × List Failure
  unfolding check_components
  check now m = check_components (keys m.heartbeats) now m

count_stale : List String → ℕ → HeartbeatManager → ℕ
count_stale [] now m = 0
count_stale (c ∷ cs) now m =
    let rest = count_stale cs now m in if is_stale c now m then rest + 1 else rest

unfoldable pub heartbeat_miss_count : ℕ → HeartbeatManager → ℕ
unfolding count_stale
heartbeat_miss_count now m = count_stale (keys m.heartbeats) now m

unfoldable pub reset : HeartbeatManager → HeartbeatManager
reset m = record m { heartbeats = []; consecutive_misses = [] }

-- HeartbeatSender._send: a beat for every engine that is not isolated.
unfoldable pub send : List String → (String → Bool) → ℕ → HeartbeatManager → HeartbeatManager
send [] isolated now m = m
send (name ∷ rest) isolated now m =
    send rest isolated now (if isolated name then m else (beat name healthy now m).0)
