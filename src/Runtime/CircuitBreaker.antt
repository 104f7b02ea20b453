-- ===== src/Runtime/CircuitBreaker.antt =====
-- src/ai_company/runtime/circuit_breaker.py: CircuitBreaker. `func` is the caller's code: it changes
-- a world `W` and returns an `A` or raises an `E`. Times are microseconds; `now` is the clock's
-- answer where the call begins, `later` where it has ended.

pub mod Trips
use ai_enterprise_os.Prelude.{
  ℕ, ◌+◌, ◌-◌, String, Bool, true, false, Option, none, some, if◌then◌else◌, ltb, leb, Result, ok,
  err,
}

pub data BreakerState : Type 0 where
  closed opened half_open : BreakerState

pub record CircuitBreaker : Type 0 where
  pub component_name : String
  pub timeout_seconds : ℕ
  pub failure_count : ℕ
  pub last_failure_time : Option ℕ
  pub state : BreakerState
  pub success_threshold : ℕ

-- Any other exception is the caller's.
pub data CallError (E : Type 0) : Type 0 where
  circuit_open : String → CallError E
  raised : E → CallError E

unfoldable pub circuit_breaker : String → ℕ → CircuitBreaker
circuit_breaker component_name timeout_seconds = record {
  component_name = component_name;
  timeout_seconds = timeout_seconds;
  failure_count = 0;
  last_failure_time = none;
  state = closed;
  success_threshold = 3;
}

success_in : BreakerState → CircuitBreaker → CircuitBreaker
success_in half_open b = record b { failure_count = 0; state = closed }
success_in closed b = record b { failure_count = 0 }
success_in opened b = b

unfoldable pub on_success : CircuitBreaker → CircuitBreaker
unfolding success_in
on_success b = success_in b.state b

unfoldable pub on_failure : ℕ → CircuitBreaker → CircuitBreaker
on_failure now b = record b {
  failure_count = b.failure_count + 1;
  last_failure_time = some now;
  state = if leb b.success_threshold (b.failure_count + 1) then opened else b.state;
}

waited : Option ℕ → ℕ → ℕ → Bool
waited none now timeout = false
waited (some t) now timeout = ltb timeout (now - t)

reconnect_in : BreakerState → ℕ → CircuitBreaker → Bool
unfolding waited
reconnect_in opened now b = waited b.last_failure_time now b.timeout_seconds
reconnect_in _ now b = true

unfoldable pub can_reconnect : ℕ → CircuitBreaker → Bool
unfolding reconnect_in
can_reconnect now b = reconnect_in b.state now b

module _ {A E W : Type 0} where
  -- `try: result = func(...); self.on_success()  except Exception: self.on_failure(); raise`
  finish : ℕ → CircuitBreaker → Result E A × W → CircuitBreaker × Result (CallError E) A × W
  unfolding on_success on_failure
  finish later b (ok a, w) = (on_success b, ok a, w)
  finish later b (err e, w) = (on_failure later b, err (raised e), w)

module _ {A E W : Type 0} (func : W → Result E A × W) where
  guard : BreakerState → ℕ → ℕ → CircuitBreaker → W → CircuitBreaker × Result (CallError E) A × W
  unfolding can_reconnect finish
  guard opened now later b w =
      if can_reconnect now b
      then finish later (record b { state = half_open }) (func w)
      else (b, err (circuit_open b.component_name), w)
  guard closed now later b w = finish later b (func w)
  guard half_open now later b w = finish later b (func w)

  unfoldable pub call : ℕ → ℕ → CircuitBreaker → W → CircuitBreaker × Result (CallError E) A × W
  unfolding guard
  call now later b w = guard b.state now later b w
