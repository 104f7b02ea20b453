-- ===== src/Runtime/Supervisor/Isolation.antt =====
-- Which failures isolate a component, and what comes of the next ones.
use text.Mathlib.TextPositions.{eq_refl}
use ai_enterprise_os.Prelude.{
  ℕ, ◌≤◌, String, Bool, true, false, not, ◌&&◌, ◌||◌, Option, some, ◌==◌, ◌≡◌, refl, elem, eq_iff,
  arith, Bool-cases, inl, inr,
}
use ai_enterprise_os.Dict.{insert, get_or-insert}
use ai_enterprise_os.Runtime.Policies.{RecoveryPolicy, RecoveryResult, RecoveryManager, policy_for}
use ai_enterprise_os.Runtime.Recovery.{recover, attempts_of, max_of, reset}
use ai_enterprise_os.Runtime.Recovery.Attempts.{exhausted}
use ai_enterprise_os.Runtime.Supervisor.{
  IsolationReason, Supervisor, is_isolated, isolate, unisolate, forgiven, set_add, contain,
  recover_by, on_failure,
}
use ai_enterprise_os.Runtime.Supervisor.Containment.{
  elem-set_add, elem-set_discard, monitored-silenced, probed-unprobed, monitored, probed,
}

-- A result that takes its component out of supervision.
abbrev pub is_given_up : RecoveryResult → Bool
is_given_up r = not r.success || elem "isolate" r.actions_taken

module _ {W : Type 0} where
  contain-isolated :
      (c reason k : String) (r : RecoveryResult) (s : Supervisor W) (w : W)
      → elem k (contain c reason r s w).0.isolated
        ≡ (elem k s.isolated || (c == k && is_given_up r))
  unfolding contain isolate
  contain-isolated c reason k r s w = ground (arith, elem-set_add c k s.isolated)

  on_failure-isolated :
      (c reason k : String) (now : ℕ) (s : Supervisor W) (r : RecoveryManager W) (w : W)
      → s.recovery ≡ some r
      → is_isolated k (on_failure c reason now s w).0
        ≡ (is_isolated k s || (c == k && is_given_up (recover c reason r w).1))
  unfolding on_failure is_isolated recover_by
  on_failure-isolated c reason k now s r w e =
      let s₁ : Supervisor W = record s {
        recent_failures = insert c now s.recent_failures;
        recovery = some (recover c reason r w).0;
      } in
      let after =
        contain-isolated c reason k (recover c reason r w).1 s₁ (recover c reason r w).2 in
      elim (Bool-cases (elem c s.isolated)) [
        | inl q ↦ rw q (elim (Bool-cases (c == k)) [
          | inl i ↦ rw (← (eq_iff c k).0 i, q) refl
          | inr i ↦ rw i (ground arith)
        ])
        | inr q ↦ rw (q, e) after
      ]

  contain-unmonitored :
      (c reason : String) (r : RecoveryResult) (s : Supervisor W) (w : W)
      → r.success ≡ false
      → (monitored c (contain c reason r s w).0.heartbeats ≡ false)
        × (probed c (contain c reason r s w).0.health ≡ false)
  unfolding contain isolate
  contain-unmonitored c reason r s w e =
      rw (e, monitored-silenced c c s.heartbeats, probed-unprobed c c s.health, eq_refl c)
        (refl, refl)

  unmonitored :
      (c reason : String) (now : ℕ) (s : Supervisor W) (r : RecoveryManager W) (w : W)
      → is_isolated c s ≡ false
      → s.recovery ≡ some r
      → (recover c reason r w).1.success ≡ false
      → (monitored c (on_failure c reason now s w).0.heartbeats ≡ false)
        × (probed c (on_failure c reason now s w).0.health ≡ false)
  unfolding on_failure recover_by
  unmonitored c reason now s r w h e failed =
      let s₁ : Supervisor W = record s {
        recent_failures = insert c now s.recent_failures;
        recovery = some (recover c reason r w).0;
      } in
      rw (h, e)
        (contain-unmonitored c reason (recover c reason r w).1 s₁ (recover c reason r w).2 failed)

  -- A failure of a component that is not isolated, and has been tried as often as its policy allows,
  -- isolates it: it is in neither monitor afterwards, and any later failure of it changes nothing.
  pub exhausted_isolates :
      (c reason : String) (now : ℕ) (s : Supervisor W) (r : RecoveryManager W) (p : RecoveryPolicy)
      (w : W)
      → is_isolated c s ≡ false
      → s.recovery ≡ some r
      → policy_for r c w ≡ some p
      → max_of r p ≤ attempts_of c r
      → (is_isolated c (on_failure c reason now s w).0 ≡ true)
        × (monitored c (on_failure c reason now s w).0.heartbeats ≡ false)
        × (probed c (on_failure c reason now s w).0.health ≡ false)
        × ((again : String) (later : ℕ) (v : W)
            → on_failure c again later (on_failure c reason now s w).0 v
              ≡ ((on_failure c reason now s w).0, v))
  exhausted_isolates c reason now s r p w h e q le =
      let s' = (on_failure c reason now s w).0 in
      let failed = (exhausted c reason r p w q le).1 in
      let out : is_isolated c s' ≡ true =
        rw (on_failure-isolated c reason c now s r w e, eq_refl c, failed) (ground arith) in
      let (m, b) = unmonitored c reason now s r w h e failed in
      (out, m, b, λ again later v. unfold on_failure in rw out refl)

  -- A component that is isolated and then taken back is isolated no more, as if it had never been,
  -- and has all its attempts again, but it is in neither monitor: no check is made of it.
  pub readmitted_unmonitored :
      (c : String) (reason : IsolationReason) (n : Option ℕ) (s : Supervisor W)
      (r : RecoveryManager W) (w v : W)
      → s.recovery ≡ some r
      → ((k : String)
          → is_isolated k (unisolate c (isolate c reason n s w).0 v).0
            ≡ (not (c == k) && is_isolated k s))
        × ((unisolate c (isolate c reason n s w).0 v).0.recovery ≡ some (reset c r))
        × (attempts_of c (reset c r) ≡ 0)
        × (monitored c (unisolate c (isolate c reason n s w).0 v).0.heartbeats ≡ false)
        × (probed c (unisolate c (isolate c reason n s w).0 v).0.health ≡ false)
  unfolding is_isolated unisolate isolate forgiven reset attempts_of
  readmitted_unmonitored c reason n s r w v e = (
    λ k. ground (arith, elem-set_discard c k (set_add c s.isolated), elem-set_add c k s.isolated),
    rw e refl,
    rw (get_or-insert c c 0 0 r.attempts, eq_refl c) refl,
    rw (monitored-silenced c c s.heartbeats, eq_refl c) refl,
    rw (probed-unprobed c c s.health, eq_refl c) refl,
  )
