-- ===== src/Workflow/Checks.antt =====
-- src/ai_company/workflow/transitions.py: the checks of the validator that cannot raise. Each returns
-- what it appends to `self.errors` and `self.warnings`; its messages are the cases of `Issue`.
use ai_enterprise_os.Prelude.{
  ℕ, zero, suc, String, Bool, true, false, not, ◌&&◌, ◌||◌, Option, none, some, List, [], ◌∷◌, ◌++◌,
  if◌then◌else◌, ◌==◌,
}
use ai_enterprise_os.Dict.{Dict, has}
use ai_enterprise_os.Workflow.Models.{
  WorkflowStateType, action, approval, wait, Transition, ApprovalConfig, ActionConfig, WaitConfig,
  WorkflowState, WorkflowDefinition, is_terminal,
}
use ai_enterprise_os.Workflow.StateMachine.{Python}

pub data Issue : Type 0 where
  missing_display_name : String → Issue
  unknown_state complex_condition : String → String → Issue
  initial_state_not_found : String → Issue
  no_terminal_states only_one_terminal_state : Issue
  approval_without_config approval_not_required approver_role_missing : String → Issue
  action_without_config handler_missing wait_without_config wait_for_missing : String → Issue
  unreachable no_outgoing_transitions : String → Issue

-- What a check appends to `self.errors` and `self.warnings`.
pub record Found : Type 0 where
  pub errors : List Issue
  pub warnings : List Issue

abbrev pub nothing : Found
nothing = record { errors = []; warnings = [] }

abbrev pub error : Issue → Found
error i = record { errors = i ∷ []; warnings = [] }

abbrev pub warning : Issue → Found
warning i = record { errors = []; warnings = i ∷ [] }

infixl 60 ◌⊕◌
abbrev pub ◌⊕◌ : Found → Found → Found
a ⊕ b = record { errors = a.errors ++ b.errors; warnings = a.warnings ++ b.warnings }

abbrev pub text_or_none : Option String → Bool
text_or_none none = false
text_or_none (some s) = not (s == "")

approval_config_checks : String → Option ApprovalConfig → Found
approval_config_checks state_id none = error (approval_without_config state_id)
approval_config_checks state_id (some c) =
    (if c.required then nothing else warning (approval_not_required state_id))
    ⊕ (if text_or_none c.approver_role then nothing else warning (approver_role_missing state_id))

approval_checks : String → WorkflowStateType → Option ApprovalConfig → Found
unfolding approval_config_checks
approval_checks state_id approval c = approval_config_checks state_id c
approval_checks state_id _ c = nothing

wait_config_checks : String → Option WaitConfig → Found
wait_config_checks state_id none = error (wait_without_config state_id)
wait_config_checks state_id (some c) =
    if c.wait_for == "" then warning (wait_for_missing state_id) else nothing

wait_checks : String → WorkflowStateType → Option WaitConfig → Found
unfolding wait_config_checks
wait_checks state_id wait c = wait_config_checks state_id c
wait_checks state_id _ c = nothing

abbrev pub no_transitions : List Transition → Bool
no_transitions [] = true
no_transitions (t ∷ ts) = false

terminal_checks : ℕ → Found
terminal_checks zero = error no_terminal_states
terminal_checks (suc zero) = warning only_one_terminal_state
terminal_checks (suc (suc n)) = nothing

module _ {V : Type 0} where
  -- `for state_id, state in self.definition.states.items()`
  unfoldable pub each_state : (String → WorkflowState V → Found) → Dict (WorkflowState V) → Found
  each_state check [] = nothing
  each_state check ((state_id, s) ∷ rest) = check state_id s ⊕ each_state check rest

  unfoldable pub validate_states : WorkflowDefinition V → Found
  validate_states d =
      each_state
        (λ state_id s. if s.name == "" then warning (missing_display_name state_id) else nothing)
        d.states

  unfoldable pub validate_initial_state : WorkflowDefinition V → Found
  validate_initial_state d =
      if has d.initial_state d.states
      then nothing
      else error (initial_state_not_found d.initial_state)

  unfoldable pub count_terminal : Dict (WorkflowState V) → ℕ
  count_terminal [] = 0
  count_terminal ((_, s) ∷ rest) =
      let n = count_terminal rest in if is_terminal s.type then suc n else n

  unfoldable pub validate_terminal_states : WorkflowDefinition V → Found
  unfolding terminal_checks count_terminal
  validate_terminal_states d = terminal_checks (count_terminal d.states)

  unfoldable pub validate_approval_states : WorkflowDefinition V → Found
  unfolding approval_checks each_state
  validate_approval_states d =
      each_state (λ state_id s. approval_checks state_id s.type s.approval) d.states

  action_config_checks : String → Option (ActionConfig V) → Found
  action_config_checks state_id none = error (action_without_config state_id)
  action_config_checks state_id (some c) =
      if c.handler == "" then warning (handler_missing state_id) else nothing

  action_checks : String → WorkflowStateType → Option (ActionConfig V) → Found
  unfolding action_config_checks
  action_checks state_id action c = action_config_checks state_id c
  action_checks state_id _ c = nothing

  unfoldable pub validate_action_states : WorkflowDefinition V → Found
  unfolding action_checks each_state
  validate_action_states d =
      each_state (λ state_id s. action_checks state_id s.type s.action) d.states

  unfoldable pub validate_wait_states : WorkflowDefinition V → Found
  unfolding wait_checks each_state
  validate_wait_states d = each_state (λ state_id s. wait_checks state_id s.type s.wait) d.states

  deadlock_checks : String → WorkflowState V → Found
  deadlock_checks state_id s =
      if not (is_terminal s.type) && no_transitions s.transitions
      then error (no_outgoing_transitions state_id)
      else nothing

  unfoldable pub check_deadlocks : WorkflowDefinition V → Found
  unfolding deadlock_checks each_state
  check_deadlocks d = each_state deadlock_checks d.states

module _ {V : Type 0} (py : Python V) where
  condition_checks : String → Transition → Found
  condition_checks state_id t =
      if t.condition == "" || t.condition == "auto" || py.compiles t.condition
      then nothing
      else warning (complex_condition state_id t.to)

  unfoldable pub transition_checks : Dict (WorkflowState V) → String → List Transition → Found
  unfolding condition_checks
  transition_checks states state_id [] = nothing
  transition_checks states state_id (t ∷ ts) =
      (if has t.to states then nothing else error (unknown_state state_id t.to))
      ⊕ condition_checks state_id t
      ⊕ transition_checks states state_id ts

  unfoldable pub validate_transitions : WorkflowDefinition V → Found
  unfolding transition_checks each_state
  validate_transitions d =
      each_state (λ state_id s. transition_checks d.states state_id s.transitions) d.states
