-- ===== src/Orchestration/Executor/Attempts.antt =====
-- How often a task is tried, and what decides its result.
use Prim.Native.String.{◌++◌}
use ai_enterprise_os.Prelude.{
  ℕ, zero, suc, ◌+◌, ◌≤◌, ◌<◌, ◌⊎◌, ◌≡◌, refl, ap, true, false, none, some, arith, Bool-cases, inl,
  inr, Result, ok, err,
}
use ai_enterprise_os.Orchestration.Models.{RetryPolicy, PipelineTask}
use ai_enterprise_os.Orchestration.Executor.{
  Exc, TaskResult, TaskExecutor, completed, failed, policy_of, retryable, dispatch_task,
  settle_attempt, attempt_from, execute_task, completed_with, failed_with,
}

module _ {P O W : Type 0} (run : W → Result Exc O × W) (sleep : ℕ → W → W) (retry : RetryPolicy)
    (task : PipelineTask P) where
  -- The world in which the attempt behind so many others runs, the first of which has this number.
  abbrev pub world_at : ℕ → ℕ → W → W
  world_at first zero w = w
  world_at first (suc n) w = world_at (first + 1) n (sleep first (run w).1)

  -- An attempt that raised what may be tried again.
  abbrev pub Retried : ℕ → ℕ → W → Type 0
  Retried first n w =
      (exc : Exc) × ((run (world_at first n w)).0 ≡ err exc) × (retryable retry exc ≡ true)

  -- The last attempt returned, and the task is COMPLETED with its output; or it raised, no retry was
  -- left or none was allowed, and the task is FAILED with its error.
  abbrev pub Ended : ℕ → ℕ → W → ℕ → TaskResult O → Type 0
  Ended first n w left result =
      ((output : O) × ((run (world_at first n w)).0 ≡ ok output)
        × (result.status ≡ completed)
        × (result.output ≡ some output))
      ⊎ ((exc : Exc) × ((run (world_at first n w)).0 ≡ err exc)
          × (result.status ≡ failed)
          × (result.error ≡ some (exc.name ++ ": " ++ exc.message))
          × ((n ≡ left) ⊎ (retryable retry exc ≡ false)))

  abbrev pub Tried : ℕ → ℕ → W → TaskResult O × W → Type 0
  Tried first left w (result, w') =
      (n : ℕ) × (n ≤ left)
      × (result.attempts ≡ first + n + 1)
      × (w' ≡ (run (world_at first n w)).1)
      × ((k : ℕ) → k < n → Retried first k w)
      × Ended first n w left result

  -- One more attempt in front.
  Tried-suc :
      (first left : ℕ) (w : W) (exc : Exc) (out : TaskResult O × W)
      → (run w).0 ≡ err exc
      → retryable retry exc ≡ true
      → Tried (first + 1) left (sleep first (run w).1) out
      → Tried first (suc left) w out
  Tried-suc first left w exc (result, w') raised again (n, small, attempts, same, retried, ended) =
      (suc n, omega (arith, small), omega (arith, attempts), same, earlier, later ended)
    where
      earlier : (k : ℕ) → k < suc n → Retried first k w
      earlier zero e = (exc, raised, again)
      earlier (suc k) e = retried k (omega (arith, e))

      later :
          Ended (first + 1) n (sleep first (run w).1) left result
          → Ended first (suc n) w (suc left) result
      later (inl returned) = inl returned
      later (inr (e, ran, status, error, inl none_left)) =
          inr (e, ran, status, error, inl (ap suc none_left))
      later (inr (e, ran, status, error, inr refused)) = inr (e, ran, status, error, inr refused)

  -- The first attempt was the last.
  Tried-once :
      (first left : ℕ) (w : W) (result : TaskResult O)
      → result.attempts ≡ first + 1
      → Ended first 0 w left result
      → Tried first left w (result, (run w).1)
  Tried-once first left w result attempts ended =
      (0, omega arith, omega (arith, attempts), refl, λ k e. absurd (omega (arith, e)), ended)

  attempt_from-Tried :
      (left first : ℕ) (w : W) → Tried first left w (attempt_from run sleep retry task left first w)
  unfolding attempt_from
  attempt_from-Tried zero first w = last (run w).0 refl
    where
      last :
          (r : Result Exc O)
          → (run w).0 ≡ r
          → Tried first zero w (settle_attempt run sleep retry task first none (r, (run w).1))
      last (ok output) e =
          Tried-once first zero w (completed_with run sleep retry task output first) refl
            (inl (output, e, refl, refl))
      last (err exc) e =
          Tried-once first zero w (failed_with run sleep retry task exc first) refl
            (inr (exc, e, refl, refl, inl refl))
  attempt_from-Tried (suc left) first w =
      next (run w).0 refl (attempt_from-Tried left (first + 1) (sleep first (run w).1))
    where
      next :
          (r : Result Exc O)
          → (run w).0 ≡ r
          → Tried
              (first + 1)
              left
              (sleep first (run w).1)
              (attempt_from run sleep retry task left (first + 1) (sleep first (run w).1))
          → Tried first (suc left) w (
              settle_attempt run sleep retry task first
                (some (attempt_from run sleep retry task left (first + 1)))
                (r, (run w).1))
      next (ok output) e rest =
          Tried-once first (suc left) w (completed_with run sleep retry task output first) refl
            (inl (output, e, refl, refl))
      next (err exc) e rest = elim (Bool-cases (retryable retry exc)) [
        | inl f ↦ rw f (
            Tried-suc first left w exc
              (attempt_from run sleep retry task left (first + 1) (sleep first (run w).1)) e f rest)
        | inr f ↦ rw f (
            Tried-once first (suc left) w (failed_with run sleep retry task exc first) refl
              (inr (exc, e, refl, refl, inr f)))
      ]

module _ {P O W : Type 0} (dry : PipelineTask P → O) (sleep : ℕ → W → W) where
  -- Running a task returns, whatever its coordinator raises. It is tried at least once, and at most once
  -- more than its policy has retries; each attempt but the last raised what the policy allows to be
  -- tried again. The task is COMPLETED, with its output, if the last attempt returned; it is FAILED, with
  -- its error, if that raised, and no retry was left or the policy allows none.
  pub execute_task_lem :
      (executor : TaskExecutor P O W) (task : PipelineTask P) (w : W)
      → let retry = policy_of task.retry executor.default_retry in
        Tried
          (dispatch_task dry executor task)
          sleep
          retry
          task
          0
          retry.max_retries
          w
          (execute_task dry sleep executor task w)
  unfolding execute_task
  execute_task_lem executor task w =
      let retry = policy_of task.retry executor.default_retry in
      attempt_from-Tried (dispatch_task dry executor task) sleep retry task retry.max_retries 0 w
