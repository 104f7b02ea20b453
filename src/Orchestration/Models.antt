-- ===== src/Orchestration/Models.antt =====
-- src/ai_company/orchestration/models.py: pipelines, their stages and tasks. Backoff times, timeouts,
-- descriptions and free metadata are left out.
use ai_enterprise_os.Prelude.{ℕ, String, Option, List, [], ◌∷◌, ◌++◌}
use ai_enterprise_os.Dict.{Dict, insert}

pub record RetryPolicy : Type 0 where
  pub max_retries : ℕ
  pub retryable_errors : List String

pub record TaskDependency : Type 0 where
  pub task_id : String
  pub type : String

-- `P` stands for a task's params.
pub record PipelineTask (P : Type 0) : Type 0 where
  pub id : String
  pub task_type : String
  pub engine : String
  pub params : P
  pub dependencies : List String
  pub retry : Option RetryPolicy
  pub on_failure : String

pub data StageMode : Type 0 where
  sequential parallel conditional : StageMode

pub record PipelineStage (P : Type 0) : Type 0 where
  pub id : String
  pub mode : StageMode
  pub tasks : List (PipelineTask P)

pub record Pipeline (P : Type 0) : Type 0 where
  pub id : String
  pub stages : List (PipelineStage P)

module _ {P : Type 0} where
  abbrev pub tasks_of : List (PipelineStage P) → List (PipelineTask P)
  tasks_of [] = []
  tasks_of (stage ∷ stages) = stage.tasks ++ tasks_of stages

  abbrev pub all_tasks : Pipeline P → List (PipelineTask P)
  all_tasks p = tasks_of p.stages

  -- A later task of the same id takes the place of the earlier one.
  abbrev pub map_from : Dict (PipelineTask P) → List (PipelineTask P) → Dict (PipelineTask P)
  map_from d [] = d
  map_from d (task ∷ tasks) = map_from (insert task.id task d) tasks

  abbrev pub task_map : Pipeline P → Dict (PipelineTask P)
  task_map p = map_from [] (all_tasks p)
