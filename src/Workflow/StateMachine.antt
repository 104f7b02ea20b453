-- ===== src/Workflow/StateMachine.antt =====
-- src/ai_company/workflow/state_machine.py. A raised exception is `err`; `next_state`, `error` and the
-- configs of a `TransitionResult` are options, and its messages are the cases of `Problem`.
-- Python's `eval` is the parameter `Python`.
pub mod Moves
use ai_enterprise_os.Prelude.{
  ℕ, String, Bool, true, false, ◌||◌, Option, none, some, List, [], ◌∷◌, if◌then◌else◌, map, any,
  ◌==◌, Result, ok, err, ◌>>=◌,
}
use ai_enterprise_os.Dict.{Dict, has, lookup, insert}
use ai_enterprise_os.Workflow.Models.{
  WorkflowStateType, initial, action, approval, wait, terminal, WorkflowTerminalStatus, Transition,
  ApprovalConfig, ActionConfig, WaitConfig, WorkflowState, WorkflowDefinition, WorkflowContext,
  WorkflowError, initial_not_found, state_not_found, check_states, is_terminal,
}

-- What the workflow code takes from Python: `bool(eval(text, {"__builtins__": {}}, names))`, with
-- `none` for a raised exception, whether `compile` accepts a text, and how texts and truth values
-- become values of a dict.
pub record Python (V : Type 0) : Type 0 where
  pub eval : String → Dict V → Option Bool
  pub compiles : String → Bool
  pub of_bool : Bool → V
  pub of_text : String → V

pub data Problem : Type 0 where
  in_terminal_state : Problem
  approval_without_config action_without_config wait_without_config : String → Problem
  no_valid_transition : String → Problem

pub record TransitionResult (V : Type 0) : Type 0 where
  pub success : Bool
  pub next_state : Option String
  pub error : Option Problem
  pub approval_required : Bool
  pub approval_config : Option ApprovalConfig
  pub action_required : Bool
  pub action_config : Option (ActionConfig V)
  pub wait_required : Bool
  pub wait_config : Option WaitConfig

pub record StateMachine (V : Type 0) : Type 0 where
  pub definition : WorkflowDefinition V
  pub open definition use {states, initial_state}

-- The defaults of TransitionResult.__init__
abbrev pub plain : {V : Type 0} → Bool → Option String → Option Problem → TransitionResult V
plain success next_state error = record {
  success = success;
  next_state = next_state;
  error = error;
  approval_required = false;
  approval_config = none;
  action_required = false;
  action_config = none;
  wait_required = false;
  wait_config = none;
}

module _ {V : Type 0} where
  -- StateMachine.__init__ with _validate_definition
  unfoldable pub state_machine : WorkflowDefinition V → Result WorkflowError (StateMachine V)
  unfolding check_states
  state_machine d =
      if has d.initial_state d.states
      then (do checked ← check_states d.states d.states; ok (record { definition = d }))
      else err (initial_not_found d.initial_state)

  found : String → Option (WorkflowState V) → Result WorkflowError (WorkflowState V)
  found state_id none = err (state_not_found state_id)
  found state_id (some s) = ok s

  unfoldable pub get_state : StateMachine V → String → Result WorkflowError (WorkflowState V)
  unfolding found
  get_state m state_id = found state_id (lookup state_id m.states)

  unfoldable pub get_initial_state : StateMachine V → Result WorkflowError (WorkflowState V)
  unfolding found
  get_initial_state m = found m.initial_state (lookup m.initial_state m.states)

  -- What the next state requires, by its type.
  enter_approval : String → Option ApprovalConfig → TransitionResult V
  enter_approval to none = plain false none (some (approval_without_config to))
  enter_approval to (some c) = record (plain true (some to) none) {
    approval_required = true;
    approval_config = some c;
  }

  enter_action : String → Option (ActionConfig V) → TransitionResult V
  enter_action to none = plain false none (some (action_without_config to))
  enter_action to (some c) = record (plain true (some to) none) {
    action_required = true;
    action_config = some c;
  }

  enter_wait : String → Option WaitConfig → TransitionResult V
  enter_wait to none = plain false none (some (wait_without_config to))
  enter_wait to (some c) = record (plain true (some to) none) {
    wait_required = true;
    wait_config = some c;
  }

  enter_type : WorkflowStateType → String → WorkflowState V → TransitionResult V
  unfolding enter_approval enter_action enter_wait
  enter_type approval to s = enter_approval to s.approval
  enter_type action to s = enter_action to s.action
  enter_type wait to s = enter_wait to s.wait
  enter_type terminal to s = plain true (some to) none
  enter_type initial to s = plain true (some to) none

  unfoldable pub enter : String → WorkflowState V → TransitionResult V
  unfolding enter_type
  enter to s = enter_type s.type to s

  unfoldable pub get_valid_transitions :
      StateMachine V → String → Result WorkflowError (List String)
  get_valid_transitions m state_id = do
    s ← get_state m state_id
    ok (map (λ (t : Transition). t.to) s.transitions)

  unfoldable pub is_terminal_state : StateMachine V → String → Result WorkflowError Bool
  is_terminal_state m state_id = do s ← get_state m state_id; ok (is_terminal s.type)

  unfoldable pub get_terminal_status :
      StateMachine V → String → Result WorkflowError (Option WorkflowTerminalStatus)
  get_terminal_status m state_id = do
    s ← get_state m state_id
    ok (if is_terminal s.type then s.terminal_status else none)

  unfoldable pub can_transition : StateMachine V → String → String → Result WorkflowError Bool
  can_transition m from_state to_state = do
    s ← get_state m from_state
    ok (any (λ (t : Transition). t.to == to_state) s.transitions)

  unfoldable pub get_state_type : StateMachine V → String → Result WorkflowError WorkflowStateType
  get_state_type m state_id = do s ← get_state m state_id; ok s.type

-- `except Exception: return False`
unfoldable pub caught : Option Bool → Bool
caught none = false
caught (some b) = b

module _ {V : Type 0} (py : Python V) where
  unfoldable pub evaluate_condition : String → WorkflowContext V → Bool
  unfolding caught
  evaluate_condition condition context =
      if condition == "" || condition == "auto"
      then true
      else caught (py.eval condition (insert "auto" (py.of_bool true) context.values))

  -- `for transition in current_state.transitions`
  unfoldable pub first_transition :
      StateMachine V
      → String
      → WorkflowContext V
      → List Transition
      → Result WorkflowError (TransitionResult V)
  first_transition m current context [] = ok (plain false none (some (no_valid_transition current)))
  first_transition m current context (t ∷ ts) =
      let rest = first_transition m current context ts in
      if evaluate_condition t.condition context
      then (do next ← get_state m t.to; ok (enter t.to next))
      else rest

  unfoldable pub evaluate_transitions :
      StateMachine V → String → WorkflowContext V → Result WorkflowError (TransitionResult V)
  evaluate_transitions m current context = do
    s ← get_state m current
    if is_terminal s.type
        then ok (plain true none (some in_terminal_state))
        else first_transition m current context s.transitions
