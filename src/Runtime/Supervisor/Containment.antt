-- ===== src/Runtime/Supervisor/Containment.antt =====
-- What the supervisor keeps true of isolated components, and when it isolates.
use ai_enterprise_os.Prelude.{
  ℕ, String, Bool, true, false, not, ◌&&◌, ◌||◌, Option, none, some, List, [], ◌∷◌, ◌==◌, ◌≡◌, refl,
  subst, if◌then◌else◌, elem, elem-append, eq_iff, arith, Bool-cases, inl, inr,
}
use ai_enterprise_os.Dict.{has, has-erase, insert, keys}
use ai_enterprise_os.Runtime.Policies.{RecoveryResult, RecoveryManager}
use ai_enterprise_os.Runtime.Recovery.{recover}
use ai_enterprise_os.Runtime.Heartbeat.{HeartbeatManager, Failure, unregister, check}
use ai_enterprise_os.Runtime.Heartbeat.Exact.{check_components-frame}
use ai_enterprise_os.Runtime.Health
use ai_enterprise_os.Runtime.Health.{HealthCheck, HealthMonitor, check_all}
use ai_enterprise_os.Runtime.Supervisor.{
  IsolationReason, recovery_failed, isolated_during_recovery, Supervisor, set_add, set_discard,
  silenced, unprobed, is_isolated, isolate, unisolate, contain, recover_by, on_failure,
  handle_failures, handle_checks, check_heartbeats_by, check_health_by, check_once, is_failing,
  status_value,
}

pub elem-set_add : (k j : String) (ks : List String) → elem j (set_add k ks) ≡ (k == j || elem j ks)
unfolding set_add
elem-set_add k j ks = ground (arith, elem-append j ks (k ∷ []), eq_iff k j)

pub elem-set_discard :
    (k j : String) (ks : List String) → elem j (set_discard k ks) ≡ (not (k == j) && elem j ks)
unfolding set_discard
elem-set_discard k j [] = ground arith
elem-set_discard k j (i ∷ ks) =
    ground (arith, eq_iff k j, eq_iff i k, eq_iff i j, elem-set_discard k j ks)

abbrev pub monitored : String → Option HeartbeatManager → Bool
monitored k none = false
monitored k (some m) = has k m.heartbeats

pub monitored-silenced :
    (k j : String) (o : Option HeartbeatManager)
    → monitored j (silenced k o) ≡ (if k == j then false else monitored j o)
unfolding silenced unregister
monitored-silenced k j none = ground arith
monitored-silenced k j (some m) = has-erase k j m.heartbeats

module _ {W : Type 0} where
  abbrev pub probed : String → Option (HealthMonitor W) → Bool
  probed k none = false
  probed k (some m) = has k m.components

  pub probed-unprobed :
      (k j : String) (o : Option (HealthMonitor W))
      → probed j (unprobed k o) ≡ (if k == j then false else probed j o)
  unfolding unprobed Health.unregister
  probed-unprobed k j none = ground arith
  probed-unprobed k j (some m) = has-erase k j m.components

  -- An isolated component is in neither monitor.
  pub record IsContained (s : Supervisor W) : Type 0 where
    pub out :
        (k : String)
        → elem k s.isolated ≡ true
        → (monitored k s.heartbeats ≡ false) × (probed k s.health ≡ false)

  isolate-IsContained :
      (c : String) (reason : IsolationReason) (n : Option ℕ) (s : Supervisor W) (w : W)
      → IsContained s
      → IsContained (isolate c reason n s w).0
  unfolding isolate
  isolate-IsContained c reason n s w h = record {
    out = λ k e.
        let split = elem-set_add c k s.isolated in
        let m = monitored-silenced c k s.heartbeats in
        let p = probed-unprobed c k s.health in
        elim (Bool-cases (c == k)) [
          | inl q ↦ rw (m, p, q) (refl, refl)
          | inr q ↦ rw (m, p, q) (h.out k (ground arith))
        ];
  }

  unisolate-IsContained :
      (c : String) (s : Supervisor W) (w : W) → IsContained s → IsContained (unisolate c s w).0
  unfolding unisolate
  unisolate-IsContained c s w h = record {
    out = λ k e. let split = elem-set_discard c k s.isolated in h.out k (ground arith);
  }

  contain-IsContained :
      (c reason : String) (r : RecoveryResult) (s : Supervisor W) (w : W)
      → IsContained s
      → IsContained (contain c reason r s w).0
  unfolding contain
  contain-IsContained c reason r s w h = elim (Bool-cases r.success) [
    | inl q ↦ elim (Bool-cases (elem "isolate" r.actions_taken)) [
      | inl a ↦
          rw (q, a)
            (isolate-IsContained c (isolated_during_recovery reason) (some r.attempts) s w h)
      | inr a ↦ rw (q, a) h
    ]
    | inr q ↦ rw q (isolate-IsContained c (recovery_failed reason) (some r.attempts) s w h)
  ]

  recover_by-IsContained :
      (o : Option (RecoveryManager W)) (c reason : String) (s : Supervisor W) (w : W)
      → IsContained s
      → IsContained (recover_by o c reason s w).0
  unfolding recover_by
  recover_by-IsContained none c reason s w h = h
  recover_by-IsContained (some r) c reason s w h =
      contain-IsContained c reason (recover c reason r w).1
        (record s { recovery = some (recover c reason r w).0 }) (recover c reason r w).2
        (record { out = h.out })

  on_failure-IsContained :
      (c reason : String) (now : ℕ) (s : Supervisor W) (w : W)
      → IsContained s
      → IsContained (on_failure c reason now s w).0
  unfolding on_failure
  on_failure-IsContained c reason now s w h =
      let s₁ : Supervisor W = record s { recent_failures = insert c now s.recent_failures } in
      elim (Bool-cases (is_isolated c s)) [
        | inl q ↦ rw q h
        | inr q ↦ rw q (recover_by-IsContained s.recovery c reason s₁ w (record { out = h.out }))
      ]

  handle_failures-IsContained :
      (fs : List Failure) (now : ℕ) (s : Supervisor W) (w : W)
      → IsContained s
      → IsContained (handle_failures fs now s w).1
  unfolding handle_failures
  handle_failures-IsContained [] now s w h = h
  handle_failures-IsContained (f ∷ fs) now s w h =
      handle_failures-IsContained fs now (on_failure f.component f.reason now s w).0
        (on_failure f.component f.reason now s w).1
        (on_failure-IsContained f.component f.reason now s w h)

  handle_checks-IsContained :
      (cs : List HealthCheck) (now : ℕ) (s : Supervisor W) (w : W)
      → IsContained s
      → IsContained (handle_checks cs now s w).1
  unfolding handle_checks
  handle_checks-IsContained [] now s w h = h
  handle_checks-IsContained (c ∷ cs) now s w h = elim (Bool-cases (is_failing c)) [
    | inl q ↦ rw q (
        handle_checks-IsContained cs now (on_failure c.component (status_value c.status) now s w).0
          (on_failure c.component (status_value c.status) now s w).1
          (on_failure-IsContained c.component (status_value c.status) now s w h))
    | inr q ↦ rw q (handle_checks-IsContained cs now s w h)
  ]

  heartbeats-IsContained :
      (m : HeartbeatManager) (now : ℕ) (s : Supervisor W)
      → s.heartbeats ≡ some m
      → IsContained s
      → IsContained (record s { heartbeats = some (check none now m).0 })
  unfolding check
  heartbeats-IsContained m now s e h = record {
    out = λ k i.
        let (same, t, o) = check_components-frame now (keys m.heartbeats) m in
        let held = subst (λ o. monitored k o ≡ false) e (h.out k i).0 in
        (rw same held, (h.out k i).1);
  }

  check_heartbeats_by-IsContained :
      (o : Option HeartbeatManager) (now : ℕ) (s : Supervisor W) (w : W)
      → s.heartbeats ≡ o
      → IsContained s
      → IsContained (check_heartbeats_by o none now s w).1
  unfolding check_heartbeats_by
  check_heartbeats_by-IsContained none now s w e h = h
  check_heartbeats_by-IsContained (some m) now s w e h =
      handle_failures-IsContained (check none now m).1 now
        (record s { heartbeats = some (check none now m).0 }) w (heartbeats-IsContained m now s e h)

  check_health_by-IsContained :
      (o : Option (HealthMonitor W)) (now : ℕ) (s : Supervisor W) (w : W)
      → IsContained s
      → IsContained (check_health_by o now s w).1
  unfolding check_health_by
  check_health_by-IsContained none now s w h = h
  check_health_by-IsContained (some m) now s w h =
      handle_checks-IsContained (check_all m w).0 now s (check_all m w).1 h

  check_once-IsContained :
      (now : ℕ) (s : Supervisor W) (w : W) → IsContained s → IsContained (check_once none now s w).1
  unfolding check_once
  check_once-IsContained now s w h =
      let (silent, s₁, w₁) = check_heartbeats_by s.heartbeats none now s w in
      check_health_by-IsContained s₁.health now s₁ w₁
        (check_heartbeats_by-IsContained s.heartbeats now s w refl h)

  -- An isolated component is in neither monitor: isolating a component, taking it back, handling a
  -- failure and a whole pass of checks, with no failure handler of the heartbeats, keep this so.
  pub operations-IsContained :
      (s : Supervisor W)
      → IsContained s
      → ((c : String) (reason : IsolationReason) (n : Option ℕ) (w : W)
          → IsContained (isolate c reason n s w).0)
        × ((c : String) (w : W) → IsContained (unisolate c s w).0)
        × ((c reason : String) (now : ℕ) (w : W) → IsContained (on_failure c reason now s w).0)
        × ((now : ℕ) (w : W) → IsContained (check_once none now s w).1)
  operations-IsContained s h = (
    λ c reason n w. isolate-IsContained c reason n s w h,
    λ c w. unisolate-IsContained c s w h,
    λ c reason now w. on_failure-IsContained c reason now s w h,
    λ now w. check_once-IsContained now s w h,
  )
