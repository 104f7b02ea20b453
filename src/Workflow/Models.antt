-- ===== src/Workflow/Models.antt =====
-- src/ai_company/workflow/models.py: the data of a workflow definition and of an execution's context,
-- with the validators that pydantic runs when a state or a definition is built. `V` stands for the
-- values of untyped dicts. Descriptions, tags, versions and times are left out: no code reads them.
use ai_enterprise_os.Prelude.{
  ℕ, String, Bool, true, false, Option, is_some, List, [], ◌∷◌, if◌then◌else◌, Result, ok, err,
  ◌>>=◌,
}
use ai_enterprise_os.Dict.{Dict, has}

pub data WorkflowStateType : Type 0 where
  initial action approval wait terminal : WorkflowStateType

pub data WorkflowTerminalStatus : Type 0 where
  success rejected cancelled failed : WorkflowTerminalStatus

pub record Transition : Type 0 where
  pub to : String
  pub condition : String

pub record ApprovalConfig : Type 0 where
  pub required : Bool
  pub approver_role : Option String
  pub escalation_role : Option String
  pub timeout_hours : ℕ
  pub minimum_approvers : ℕ

pub record ActionConfig (V : Type 0) : Type 0 where
  pub type : String
  pub handler : String
  pub parameters : Dict V
  pub timeout_seconds : ℕ

pub record WaitConfig : Type 0 where
  pub wait_for : String
  pub timeout_hours : ℕ
  pub polling_interval_seconds : ℕ

pub record WorkflowState (V : Type 0) : Type 0 where
  pub id : String
  pub name : String
  pub type : WorkflowStateType
  pub transitions : List Transition
  pub approval : Option ApprovalConfig
  pub action : Option (ActionConfig V)
  pub wait : Option WaitConfig
  pub terminal_status : Option WorkflowTerminalStatus

pub record WorkflowDefinition (V : Type 0) : Type 0 where
  pub states : Dict (WorkflowState V)
  pub initial_state : String

pub record WorkflowContext (V : Type 0) : Type 0 where
  pub execution_id : String
  pub current_state : String
  pub previous_state : Option String
  pub values : Dict V

pub data WorkflowError : Type 0 where
  missing_approval missing_action missing_wait missing_terminal_status : WorkflowError
  initial_not_found : String → WorkflowError
  unknown_target : String → String → WorkflowError
  no_terminal_state : WorkflowError
  state_not_found : String → WorkflowError
  set_changed_size out_of_fuel : WorkflowError

abbrev pub is_terminal : WorkflowStateType → Bool
is_terminal terminal = true
is_terminal _ = false

require : Bool → WorkflowError → Result WorkflowError (Unit {0})
require true e = ok tt
require false e = err e

module _ {V : Type 0} where
  -- WorkflowState.validate_state
  validate_type : WorkflowStateType → WorkflowState V → Result WorkflowError (Unit {0})
  unfolding require
  validate_type initial s = ok tt
  validate_type approval s = require (is_some s.approval) missing_approval
  validate_type action s = require (is_some s.action) missing_action
  validate_type wait s = require (is_some s.wait) missing_wait
  validate_type terminal s = require (is_some s.terminal_status) missing_terminal_status

  unfoldable pub validate_state : WorkflowState V → Result WorkflowError (Unit {0})
  unfolding validate_type
  validate_state s = validate_type s.type s

  -- `transition.to in self.states`, for each transition of one state and of every state; the first
  -- that fails raises.
  unfoldable pub check_targets :
      Dict (WorkflowState V) → String → List Transition → Result WorkflowError (Unit {0})
  check_targets states state_id [] = ok tt
  check_targets states state_id (t ∷ ts) =
      let rest = check_targets states state_id ts in
      if has t.to states then rest else err (unknown_target state_id t.to)

  unfoldable pub check_states :
      Dict (WorkflowState V) → Dict (WorkflowState V) → Result WorkflowError (Unit {0})
  unfolding check_targets
  check_states states [] = ok tt
  check_states states ((state_id, s) ∷ rest) = do
    checked ← check_targets states state_id s.transitions
    check_states states rest

  unfoldable pub any_terminal : Dict (WorkflowState V) → Bool
  any_terminal [] = false
  any_terminal ((_, s) ∷ rest) = if is_terminal s.type then true else any_terminal rest

  -- WorkflowDefinition.validate_workflow
  unfoldable pub validate_workflow : WorkflowDefinition V → Result WorkflowError (Unit {0})
  unfolding check_states any_terminal
  validate_workflow d =
      if has d.initial_state d.states
      then (do
        checked ← check_states d.states d.states
        if any_terminal d.states then ok tt else err no_terminal_state)
      else err (initial_not_found d.initial_state)
