-- ===== src/Orchestration/Lifecycle.antt =====
-- src/ai_company/orchestration/lifecycle.py, with the status enums of orchestration/models.py.
-- `ValueError` is the case `invalid` of the result.
pub mod Runs
use ai_enterprise_os.Prelude.{Bool, true, false, List, [], ◌∷◌, if◌then◌else◌, any, ite}

pub data TaskStatus : Type 0 where
  pending ready running completed failed skipped cancelled : TaskStatus

pub data PipelineStatus : Type 0 where
  pending scheduled running completed failed cancelled paused recovering : PipelineStatus

pub data Moved {ℓ} (S : Type ℓ) : Type ℓ where
  moved : S → Moved S
  invalid : S → S → Moved S

unfoldable pub TaskStatus-discrete : Discrete TaskStatus
TaskStatus-discrete = hlevel

unfoldable pub PipelineStatus-discrete : Discrete PipelineStatus
PipelineStatus-discrete = hlevel

abbrev pub task_eq : TaskStatus → TaskStatus → Bool
task_eq s t = ite (TaskStatus-discrete s t) true false

abbrev pub pipeline_eq : PipelineStatus → PipelineStatus → Bool
pipeline_eq s t = ite (PipelineStatus-discrete s t) true false

-- TASK_TRANSITIONS
unfoldable pub task_transitions : TaskStatus → List TaskStatus
task_transitions TaskStatus.pending =
    TaskStatus.ready ∷ TaskStatus.running ∷ TaskStatus.skipped ∷ TaskStatus.cancelled ∷ []
task_transitions TaskStatus.ready =
    TaskStatus.running ∷ TaskStatus.skipped ∷ TaskStatus.cancelled ∷ []
task_transitions TaskStatus.running =
    TaskStatus.completed ∷ TaskStatus.failed ∷ TaskStatus.skipped ∷ TaskStatus.cancelled ∷ []
task_transitions TaskStatus.failed = TaskStatus.ready ∷ TaskStatus.cancelled ∷ []
task_transitions TaskStatus.completed = []
task_transitions TaskStatus.skipped = []
task_transitions TaskStatus.cancelled = []

-- PIPELINE_TRANSITIONS
unfoldable pub pipeline_transitions : PipelineStatus → List PipelineStatus
pipeline_transitions PipelineStatus.pending =
    PipelineStatus.scheduled ∷ PipelineStatus.running ∷ PipelineStatus.cancelled ∷ []
pipeline_transitions PipelineStatus.scheduled =
    PipelineStatus.running ∷ PipelineStatus.cancelled ∷ []
pipeline_transitions PipelineStatus.running =
    PipelineStatus.completed ∷ PipelineStatus.failed ∷ PipelineStatus.paused
    ∷ PipelineStatus.recovering ∷ []
pipeline_transitions PipelineStatus.paused =
    PipelineStatus.running ∷ PipelineStatus.recovering ∷ PipelineStatus.cancelled ∷ []
pipeline_transitions PipelineStatus.recovering =
    PipelineStatus.running ∷ PipelineStatus.failed ∷ PipelineStatus.paused ∷ []
pipeline_transitions PipelineStatus.failed = PipelineStatus.running ∷ PipelineStatus.cancelled ∷ []
pipeline_transitions PipelineStatus.completed = []
pipeline_transitions PipelineStatus.cancelled = []

unfoldable pub can_transition_task : TaskStatus → TaskStatus → Bool
unfolding task_transitions TaskStatus-discrete
can_transition_task current new = any (task_eq new) (task_transitions current)

unfoldable pub can_transition_pipeline : PipelineStatus → PipelineStatus → Bool
unfolding pipeline_transitions PipelineStatus-discrete
can_transition_pipeline current new = any (pipeline_eq new) (pipeline_transitions current)

unfoldable pub transition_task : TaskStatus → TaskStatus → Moved TaskStatus
unfolding task_transitions TaskStatus-discrete
transition_task current new =
    if any (task_eq new) (task_transitions current) then moved new else invalid current new

unfoldable pub transition_pipeline : PipelineStatus → PipelineStatus → Moved PipelineStatus
unfolding pipeline_transitions PipelineStatus-discrete
transition_pipeline current new =
    if any (pipeline_eq new) (pipeline_transitions current) then moved new else invalid current new

-- A caller that asks for statuses one after the other; the first refusal ends the run.
unfoldable pub run_task : TaskStatus → List TaskStatus → Moved TaskStatus
run_task s [] = moved s
run_task s (t ∷ ts) = elim (transition_task s t) [
  | moved u ↦ run_task u ts
  | invalid a b ↦ invalid a b
]

unfoldable pub run_pipeline : PipelineStatus → List PipelineStatus → Moved PipelineStatus
run_pipeline s [] = moved s
run_pipeline s (t ∷ ts) = elim (transition_pipeline s t) [
  | moved u ↦ run_pipeline u ts
  | invalid a b ↦ invalid a b
]
