-- ===== src/Runtime/Heartbeat/Misses.antt =====
-- The counts of consecutive misses stay below the threshold at which a failure is declared.
use ai_enterprise_os.Prelude.{
  ℕ, ◌+◌, ◌≤◌, ◌<◌, String, ◌≡◌, Option, List, [], ◌∷◌, arith, ◌==◌, eq_iff, if◌then◌else◌,
}
use ai_enterprise_os.Dict.{insert, keys, get_or-insert, get_or-erase}
use ai_enterprise_os.Runtime.Heartbeat.{
  HealthStatus, HeartbeatManager, Failure, Callback, register, unregister, beat, misses, set_misses,
  notify, timeout_of, check_component, check_components, check,
}

-- Between two calls, each component has missed fewer beats than the threshold.
pub record IsBounded (m : HeartbeatManager) : Type 0 where
  pub below : (k : String) → misses k m < m.missed_threshold

-- A failure handler that does not raise the count of any component, nor change the threshold.
pub record IsCalm (on_failure : Callback) : Type 0 where
  pub counts :
      (f : Failure) (m : HeartbeatManager) (k : String)
      → misses k (notify on_failure f m) ≤ misses k m
  pub threshold :
      (f : Failure) (m : HeartbeatManager)
      → (notify on_failure f m).missed_threshold ≡ m.missed_threshold

pub misses-set_misses :
    (c k : String) (n : ℕ) (m : HeartbeatManager)
    → misses k (set_misses c n m) ≡ (if c == k then n else misses k m)
unfolding misses
misses-set_misses c k n m = get_or-insert c k n 0 m.consecutive_misses

register-IsBounded :
    (c : String) (i : Option ℕ) (now : ℕ) (m : HeartbeatManager)
    → IsBounded m
    → IsBounded (register c i now m).0
unfolding register misses
register-IsBounded c i now m h = record {
  below = λ k. ground (arith, h.below k, get_or-insert c k 0 0 m.consecutive_misses);
}

beat-IsBounded :
    (c : String) (s : HealthStatus) (now : ℕ) (m : HeartbeatManager)
    → IsBounded m
    → IsBounded (beat c s now m).0
unfolding beat register misses
beat-IsBounded c s now m h = record {
  below = λ k. ground (
    arith,
    h.below k,
    get_or-insert c k 0 0 m.consecutive_misses,
    get_or-insert c k 0 0 (insert c 0 m.consecutive_misses),
  );
}

unregister-IsBounded :
    (c : String) (m : HeartbeatManager) → IsBounded m → IsBounded (unregister c m).0
unfolding unregister misses
unregister-IsBounded c m h = record {
  below = λ k. ground (arith, h.below k, get_or-erase c k 0 m.consecutive_misses);
}

module _ (cb : Callback) (calm : IsCalm cb) where
  check_component-IsBounded :
      (c : String) (now : ℕ) (m : HeartbeatManager)
      → IsBounded m
      → IsBounded (check_component cb c now m).0
  unfolding check_component
  check_component-IsBounded c now m h = record {
    below = λ k.
        let m₁ = set_misses c (misses c m + 1) m in
        let m₂ = notify cb (timeout_of c) m₁ in
        ground (
          arith,
          h.below k,
          h.below c,
          misses-set_misses c k 0 m,
          misses-set_misses c k (misses c m + 1) m,
          misses-set_misses c k 0 m₂,
          calm.counts (timeout_of c) m₁ k,
          calm.threshold (timeout_of c) m₁,
          eq_iff c k,
        );
  }

  check_components-IsBounded :
      (cs : List String) (now : ℕ) (m : HeartbeatManager)
      → IsBounded m
      → IsBounded (check_components cb cs now m).0
  unfolding check_components
  check_components-IsBounded [] now m h = h
  check_components-IsBounded (c ∷ cs) now m h =
      check_components-IsBounded cs now (check_component cb c now m).0
        (check_component-IsBounded c now m h)

  -- Registering, beating, unregistering and checking keep every count of consecutive misses below
  -- the threshold, for a failure handler that does not raise a count or change the threshold.
  pub operations-IsBounded :
      (m : HeartbeatManager) (c : String) (interval : Option ℕ) (s : HealthStatus) (now : ℕ)
      → IsBounded m
      → IsBounded (register c interval now m).0
        × IsBounded (beat c s now m).0
        × IsBounded (unregister c m).0
        × IsBounded (check cb now m).0
  unfolding check
  operations-IsBounded m c interval s now h = (
    register-IsBounded c interval now m h,
    beat-IsBounded c s now m h,
    unregister-IsBounded c m h,
    check_components-IsBounded (keys m.heartbeats) now m h,
  )
