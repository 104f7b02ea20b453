-- ===== src/Runtime/Recovery/Attempts.antt =====
-- What a recovery records, and when it may act no more.
use text.Mathlib.TextPositions.{eq_refl}
use ai_enterprise_os.Prelude.{
  ℕ, ◌+◌, ◌≤◌, String, Bool, true, false, not, Option, none, some, [], ◌∷◌, ◌++◌, ◌≡◌, refl,
  if◌then◌else◌, ltb, arith,
}
use ai_enterprise_os.Dict.{insert, get_or, get_or-insert}
use ai_enterprise_os.Runtime.Policies.{
  RecoveryPolicy, RecoveryResult, RecoveryManager, RecoveryMetrics, policy_for,
}
use ai_enterprise_os.Runtime.Recovery.{
  execute, attempt, recover, recorded, record_outcome, attempts_of, is_empty, max_of, refused,
}

-- Every attempt is counted as a success or as a failure.
abbrev pub IsCounted : Option RecoveryMetrics → Type 0
IsCounted none = Unit
IsCounted (some m) = m.recovery_attempts ≡ m.recovery_successes + m.recovery_failures

abbrev pub counted_attempts : Option RecoveryMetrics → ℕ
counted_attempts none = 0
counted_attempts (some m) = m.recovery_attempts

abbrev pub is_kept : Option RecoveryMetrics → Bool
is_kept none = false
is_kept (some m) = true

recorded-IsCounted :
    (r : RecoveryResult) (m : Option RecoveryMetrics)
    → IsCounted m
    → IsCounted (recorded r m)
      × (counted_attempts (recorded r m) ≡ (if is_kept m then counted_attempts m + 1 else 0))
unfolding recorded record_outcome
recorded-IsCounted r none h = (tt, refl)
recorded-IsCounted r (some m) h = ground arith

module _ {W : Type 0} (component reason : String) where
  attempt-lem :
      (m : RecoveryManager W) (o : Option RecoveryPolicy) (n : ℕ) (w : W)
      → ((attempt m component o reason n w).0.attempts ≡ n)
        × ((attempt m component o reason n w).0.success
            ≡ not (is_empty (attempt m component o reason n w).0.actions_taken))
  unfolding attempt refused execute
  attempt-lem m none n w = (refl, refl)
  attempt-lem m (some p) n w = ground arith

  -- A recovery counts one more attempt of its component, keeps its result behind the component's
  -- earlier ones, succeeds exactly if it took an action, and adds one to the attempts in the
  -- metrics, which remain the sum of successes and failures.
  pub recover_lem :
      (m : RecoveryManager W) (w : W)
      → IsCounted m.metrics
      → (attempts_of component (recover component reason m w).0 ≡ attempts_of component m + 1)
        × ((recover component reason m w).1.attempts ≡ attempts_of component m + 1)
        × ((recover component reason m w).1.success
            ≡ not (is_empty (recover component reason m w).1.actions_taken))
        × (get_or component [] (recover component reason m w).0.results
            ≡ get_or component [] m.results ++ (recover component reason m w).1 ∷ [])
        × IsCounted (recover component reason m w).0.metrics
        × (counted_attempts (recover component reason m w).0.metrics
            ≡ (if is_kept m.metrics then counted_attempts m.metrics + 1 else 0))
  unfolding recover attempts_of
  recover_lem m w h =
      let n = get_or component 0 m.attempts + 1 in
      let m₁ : RecoveryManager W = record m { attempts = insert component n m.attempts } in
      let (result, w') = attempt m₁ component (policy_for m₁ component w) reason n w in
      let (numbered, succeeded) = attempt-lem m₁ (policy_for m₁ component w) n w in
      let (counted, up) = recorded-IsCounted result m.metrics h in
      (
        rw (get_or-insert component component n 0 m.attempts, eq_refl component) refl,
        numbered,
        succeeded,
        rw
            (
              get_or-insert component component (get_or component [] m.results ++ result ∷ []) []
                  m.results,
              eq_refl component,
            )
            refl,
        counted,
        up,
      )

  -- Once a component has been tried as often as its policy allows, a recovery runs no action,
  -- changes nothing outside and fails, and the component still counts as tried so often.
  pub exhausted :
      (m : RecoveryManager W) (p : RecoveryPolicy) (w : W)
      → policy_for m component w ≡ some p
      → max_of m p ≤ attempts_of component m
      → ((recover component reason m w).1.actions_taken ≡ [])
        × ((recover component reason m w).1.success ≡ false)
        × ((recover component reason m w).2 ≡ w)
        × (max_of m p ≤ attempts_of component (recover component reason m w).0)
  unfolding recover attempts_of attempt refused policy_for max_of
  exhausted m p w e le =
      let n = get_or component 0 m.attempts + 1 in
      let over : ltb (max_of m p) n ≡ true = unfold max_of in ground arith in
      rw (e, get_or-insert component component n 0 m.attempts, eq_refl component)
        (ground (arith, over))
