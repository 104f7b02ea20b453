-- ===== src/Orchestration/Rollback.antt =====
-- src/ai_company/orchestration/rollback.py and its models.py. `P` stands
-- for a handler's params. `undo_func` is the target engine's code: a function that changes a world
-- `W` and may raise. Times, ids of plans and logging are left out.
pub mod Order
use ai_enterprise_os.Prelude.{
  String, Bool, true, false, not, Option, none, some, is_some, List, [], ◌∷◌, ◌++◌, if◌then◌else◌,
  reverse, elem, remove_first, any, Result, ok, err, ◌>>=◌,
}
use ai_enterprise_os.Dict.{Dict, has, lookup, insert, erase}

pub record Handler (P : Type 0) : Type 0 where
  pub action : String
  pub params : P

pub data StepStatus : Type 0 where
  pending executed failed : StepStatus

pub data PlanStatus : Type 0 where
  pending completed failed : PlanStatus

pub record RollbackStep : Type 0 where
  pub task_id : String
  pub action : String
  pub status : StepStatus
  pub error : Option String

pub record RollbackPlan : Type 0 where
  pub pipeline_id : String
  pub plan_id : String
  pub reason : String
  pub steps : List RollbackStep
  pub status : PlanStatus

pub record RollbackManager (P : Type 0) : Type 0 where
  pub handlers : Dict (Handler P)
  pub order : List String
  pub rollback_plans : Dict RollbackPlan

pub data RollbackError : Type 0 where
  no_handlers : String → RollbackError
  key_error : String → RollbackError

abbrev pub is_failed : StepStatus → Bool
is_failed StepStatus.failed = true
is_failed _ = false

module _ {P : Type 0} where
  abbrev pub new : RollbackManager P
  new = record { handlers = []; order = []; rollback_plans = [] }

  unfoldable pub register_handler : String → String → P → RollbackManager P → RollbackManager P
  register_handler task_id action params m = record m {
    handlers = insert task_id (record { action = action; params = params }) m.handlers;
    order = if elem task_id m.order then m.order else m.order ++ task_id ∷ [];
  }

  unfoldable pub unregister_handler : String → RollbackManager P → RollbackManager P × Bool
  unregister_handler task_id m =
      if has task_id m.handlers
      then (
        record m {
          handlers = erase task_id m.handlers;
          order = if elem task_id m.order then remove_first task_id m.order else m.order;
        },
        true,
      )
      else (m, false)

  unfoldable pub has_handlers : RollbackManager P → Bool
  has_handlers m = elim m.handlers [ [] ↦ false | _ ↦ true ]

  unfoldable pub clear_handlers : RollbackManager P → RollbackManager P
  clear_handlers m = record m { handlers = []; order = [] }

  -- `RollbackStep(task_id=task_id, action=self._handlers[task_id]["action"])`
  new_step : String → Option (Handler P) → Result RollbackError RollbackStep
  new_step task_id none = err (key_error task_id)
  new_step task_id (some h) =
      ok
        (record { task_id = task_id; action = h.action; status = StepStatus.pending; error = none })

  unfoldable pub new_steps :
      Dict (Handler P) → List String → Result RollbackError (List RollbackStep)
  unfolding new_step
  new_steps handlers [] = ok []
  new_steps handlers (task_id ∷ rest) = do
    step ← new_step task_id (lookup task_id handlers)
    steps ← new_steps handlers rest
    ok (step ∷ steps)

  unfoldable pub create_rollback_plan :
      String
      → String
      → String
      → RollbackManager P
      → Result RollbackError (RollbackManager P × RollbackPlan)
  create_rollback_plan pipeline_id plan_id reason m = do
    steps ← new_steps m.handlers (reverse m.order)
    let rollback : RollbackPlan = record {
      pipeline_id = pipeline_id;
      plan_id = plan_id;
      reason = reason;
      steps = steps;
      status = PlanStatus.pending;
    }
    ok (record m { rollback_plans = insert plan_id rollback m.rollback_plans }, rollback)

-- What a step records once its undo call returned or raised.
mark : RollbackStep → Option String → RollbackStep
mark step none = record step { status = StepStatus.executed }
mark step (some e) = record step { status = StepStatus.failed; error = some e }

abbrev pub Undo : Type 0 → Type 0 → Type 0
Undo P W = String → String → P → W → Option String × W

module _ {P W : Type 0} (no_params : P) where
  -- The call inside `try`, with the defaults of `dict.get` for a handler that is gone.
  call : Option (Undo P W) → RollbackStep → Option (Handler P) → W → Option String × W
  call none step handler w = (none, w)
  call (some undo) step none w = undo step.task_id "" no_params w
  call (some undo) step (some h) w = undo step.task_id h.action h.params w

module _ {P W : Type 0} (no_params : P) (undo_func : Option (Undo P W)) where
  -- `for step in rollback.steps`
  unfoldable pub run_steps : Dict (Handler P) → List RollbackStep → W → List RollbackStep × W
  unfolding mark call
  run_steps handlers [] w = ([], w)
  run_steps handlers (step ∷ rest) w =
      let (raised, w') = call no_params undo_func step (lookup step.task_id handlers) w in
      let (steps, w'') = run_steps handlers rest w' in (mark step raised ∷ steps, w'')

  unfoldable pub execute_rollback :
      String
      → String
      → String
      → RollbackManager P
      → W
      → Result RollbackError (RollbackManager P × RollbackPlan × W)
  execute_rollback pipeline_id plan_id reason m w =
      if not (has_handlers m) then err (no_handlers plan_id) else (do
        created ← create_rollback_plan pipeline_id plan_id reason m
        let ran : List RollbackStep × W = run_steps m.handlers created.1.steps w
        let rollback : RollbackPlan = record created.1 {
          steps = ran.0;
          status =
              if any (λ (s : RollbackStep). is_failed s.status) ran.0
              then PlanStatus.failed
              else PlanStatus.completed;
        }
        ok (
          clear_handlers (record (created.0) {
            rollback_plans = insert plan_id rollback created.0.rollback_plans;
          }),
          rollback,
          ran.1,
        ))
