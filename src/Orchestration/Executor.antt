-- ===== src/Orchestration/Executor.antt =====
-- src/ai_company/orchestration/executor.py: TaskExecutor. The coordinator is a function that changes a
-- world `W` and may raise; an exception is its class's name and its text. `sleep` is the wait behind a
-- failed attempt. Durations are left out.
pub mod Attempts
use Prim.Native.String.{◌++◌}
use ai_enterprise_os.Prelude.{
  ℕ, zero, suc, ◌+◌, String, Bool, true, false, not, Option, none, some, List, [], ◌∷◌,
  if◌then◌else◌, ltb, elem, Result, ok, err,
}
use ai_enterprise_os.Orchestration.Models.{RetryPolicy, PipelineTask}

pub record Exc : Type 0 where
  pub name : String
  pub message : String

pub data TaskOutcome : Type 0 where
  completed failed : TaskOutcome

pub record TaskResult (O : Type 0) : Type 0 where
  pub task_id : String
  pub status : TaskOutcome
  pub output : Option O
  pub error : Option String
  pub attempts : ℕ
  pub retried : Bool

pub record TaskExecutor (P O W : Type 0) : Type 0 where
  pub coordinator : Option (PipelineTask P → W → Result Exc O × W)
  pub default_retry : RetryPolicy
  pub dry_run : Bool

abbrev pub policy_of : Option RetryPolicy → RetryPolicy → RetryPolicy
policy_of none default = default
policy_of (some retry) default = retry

-- `_retryable`: an empty list lets every exception be retried.
abbrev pub retryable_in : List String → String → Bool
retryable_in [] name = true
retryable_in (x ∷ xs) name = elem name (x ∷ xs)

unfoldable pub retryable : RetryPolicy → Exc → Bool
retryable retry exc = retryable_in retry.retryable_errors exc.name

module _ {P O W : Type 0} where
  unfoldable pub call_coordinator :
      Option (PipelineTask P → W → Result Exc O × W) → PipelineTask P → W → Result Exc O × W
  call_coordinator none task w = (
    err (record { name = "EngineNotReadyError"; message = "Engine 'coordinator' not configured" }),
    w,
  )
  call_coordinator (some execute) task w = execute task w

  -- `dry` is the answer of a dry run.
  unfoldable pub dispatch_task :
      (PipelineTask P → O) → TaskExecutor P O W → PipelineTask P → W → Result Exc O × W
  dispatch_task dry executor task w =
      if executor.dry_run then (ok (dry task), w) else call_coordinator executor.coordinator task w

module _ {P O W : Type 0} (run : W → Result Exc O × W) (sleep : ℕ → W → W) (retry : RetryPolicy)
    (task : PipelineTask P) where
  abbrev pub completed_with : O → ℕ → TaskResult O
  completed_with output attempt = record {
    task_id = task.id;
    status = completed;
    output = some output;
    error = none;
    attempts = attempt + 1;
    retried = ltb 1 (attempt + 1);
  }

  abbrev pub failed_with : Exc → ℕ → TaskResult O
  failed_with exc attempt = record {
    task_id = task.id;
    status = failed;
    output = none;
    error = some (exc.name ++ ": " ++ exc.message);
    attempts = attempt + 1;
    retried = ltb 1 (attempt + 1);
  }

  -- What an attempt makes of the dispatch, with the attempts behind it, if any are left.
  unfoldable pub settle_attempt :
      ℕ → Option (W → TaskResult O × W) → Result Exc O × W → TaskResult O × W
  settle_attempt attempt again (ok output, w) = (completed_with output attempt, w)
  settle_attempt attempt none (err exc, w) = (failed_with exc attempt, w)
  settle_attempt attempt (some again) (err exc, w) =
      if not (retryable retry exc) then (failed_with exc attempt, w) else again (sleep attempt w)

  -- `for attempt in range(max_retries + 1)`, with the retries that are left
  unfoldable pub attempt_from : ℕ → ℕ → W → TaskResult O × W
  unfolding settle_attempt
  attempt_from zero attempt w = settle_attempt attempt none (run w)
  attempt_from (suc left) attempt w =
      settle_attempt attempt (some (attempt_from left (attempt + 1))) (run w)

module _ {P O W : Type 0} (dry : PipelineTask P → O) (sleep : ℕ → W → W) where
  unfoldable pub execute_task : TaskExecutor P O W → PipelineTask P → W → TaskResult O × W
  unfolding attempt_from
  execute_task executor task w =
      let retry = policy_of task.retry executor.default_retry in
      attempt_from (dispatch_task dry executor task) sleep retry task retry.max_retries 0 w
