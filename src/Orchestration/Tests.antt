-- ===== src/Orchestration/Tests.antt =====
-- Orchestration at concrete inputs.
use ai_enterprise_os.Prelude.{
  zero, suc, ◌-◌, false, Result, ℕ, ◌≡◌, ◌≢◌, ◌≤◌, refl, List, [], ◌∷◌, String, true, Option, none,
  some, map, reverse, ok, err, any, ◌==◌, if◌then◌else◌, ◌↔◌,
}
use ai_enterprise_os.Orchestration.Models.{PipelineTask}
use ai_enterprise_os.Orchestration.Executor.{
  Exc, TaskExecutor, dispatch_task, call_coordinator, execute_task, attempt_from, settle_attempt,
  retryable,
}
use ai_enterprise_os.Orchestration.Executor.Attempts.{Tried, execute_task_lem}
use ai_enterprise_os.Dict.{lookup, has, insert}
use ai_enterprise_os.Orchestration.Lifecycle.{TaskStatus, PipelineStatus, transition_pipeline}
use ai_enterprise_os.Orchestration.Lifecycle.Runs.{stage, pipeline_progress}
use ai_enterprise_os.Orchestration.Rollback.{
  Undo, PlanStatus, RollbackStep, RollbackPlan, RollbackManager, is_failed, no_handlers, new,
  register_handler, unregister_handler, clear_handlers, has_handlers, execute_rollback,
}
use ai_enterprise_os.Orchestration.Rollback.Order.{
  IsConsistent, Undone, task_of, handlers-IsConsistent, execute_rollback_lem,
}

abbrev straight : List TaskStatus
straight = TaskStatus.ready ∷ TaskStatus.running ∷ TaskStatus.completed ∷ []

pipeline_progress_example :
    (PipelineStatus.running ≡ PipelineStatus.running)
    × (stage PipelineStatus.paused ≤ stage PipelineStatus.running)
    × (stage PipelineStatus.paused ≤ 1)
    × (PipelineStatus.running ≡ PipelineStatus.completed
        → PipelineStatus.paused ≡ PipelineStatus.running)
    × (PipelineStatus.running ≡ PipelineStatus.cancelled
        → PipelineStatus.paused ≢ PipelineStatus.running)
unfolding transition_pipeline
pipeline_progress_example =
    pipeline_progress PipelineStatus.paused PipelineStatus.running PipelineStatus.running refl

new-IsConsistent : IsConsistent {P = ℕ} new
new-IsConsistent = record { distinct = tt; listed = λ k. unfold has in refl }

-- Two tasks have run and can be undone.
abbrev ran_two : RollbackManager ℕ
ran_two = register_handler "deploy" "undeploy" 2 (register_handler "build" "clean" 1 new)

ran_two-IsConsistent : IsConsistent ran_two
ran_two-IsConsistent =
    (handlers-IsConsistent (register_handler "build" "clean" 1 new) "deploy" "undeploy" 2
      (handlers-IsConsistent new "build" "clean" 1 new-IsConsistent).0).0

handlers-IsConsistent_example :
    IsConsistent (register_handler "build" "clean" 3 ran_two)
    × IsConsistent (unregister_handler "build" ran_two).0
    × IsConsistent (clear_handlers ran_two)
handlers-IsConsistent_example = handlers-IsConsistent ran_two "build" "clean" 3 ran_two-IsConsistent

-- The world lists what was undone; undoing "deploy" raises.
abbrev undo_some : Option (Undo ℕ (List String))
undo_some = some (λ task_id action params w.
    (if task_id == "deploy" then some "still in use" else none, task_id ∷ w))

execute_rollback_lem_example :
    (m' : RollbackManager ℕ) × (plan : RollbackPlan) × (w' : List String) × (execute_rollback 0
        undo_some "p1" "plan1" "failed" ran_two []
      ≡ ok (m', plan, w'))
    × (map task_of plan.steps ≡ reverse ran_two.order)
    × Undone undo_some ran_two.handlers (reverse ran_two.order) plan.steps [] w'
    × ((plan.status ≡ PlanStatus.failed)
        ↔ (any (λ (s : RollbackStep). is_failed s.status) plan.steps ≡ true))
    × (lookup "plan1" m'.rollback_plans ≡ some plan)
    × (execute_rollback 0 undo_some "p1" "plan1" "failed" m' w' ≡ err (no_handlers "plan1"))
unfolding has_handlers register_handler insert
execute_rollback_lem_example =
    execute_rollback_lem 0 undo_some "p1" "plan1" "failed" ran_two [] ran_two-IsConsistent refl

abbrev answer : ℕ → Result Exc String
answer zero = ok "done"
answer (suc n) = err (record { name = "Timeout"; message = "slow" })

-- A task whose coordinator raises until the world is 0, and then answers; each call counts down.
abbrev flaky : TaskExecutor ℕ String ℕ
flaky = record {
  coordinator = some (λ task w. (answer w, w - 1));
  default_retry = record { max_retries = 3; retryable_errors = "Timeout" ∷ [] };
  dry_run = false;
}

abbrev fetch : PipelineTask ℕ
fetch = record {
  id = "fetch";
  task_type = "run";
  engine = "shell";
  params = 0;
  dependencies = [];
  retry = none;
  on_failure = "fail";
}

execute_task_lem_example :
    Tried
      (dispatch_task (λ task. "dry") flaky fetch)
      (λ attempt w. w)
      flaky.default_retry
      fetch
      0
      3
      2
      (execute_task (λ task. "dry") (λ attempt w. w) flaky fetch 2)
execute_task_lem_example = execute_task_lem (λ task. "dry") (λ attempt w. w) flaky fetch 2

fetched_at_last : (execute_task (λ task. "dry") (λ attempt w. w) flaky fetch 2).0.attempts ≡ 3
unfolding execute_task attempt_from settle_attempt dispatch_task call_coordinator retryable
fetched_at_last = refl
