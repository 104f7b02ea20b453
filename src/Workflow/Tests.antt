-- ===== src/Workflow/Tests.antt =====
-- A hiring workflow: it starts, is approved, and ends.
use ai_enterprise_os.Prelude.{
  String, ◌≡◌, refl, Bool, true, false, none, some, [], ◌∷◌, ok, err, is_ok, arith,
}
use ai_enterprise_os.Dict.{lookup, has}
use ai_enterprise_os.Workflow.Models.{
  initial, approval, terminal, success, Transition, WorkflowState, WorkflowDefinition,
  WorkflowContext, set_changed_size, validate_state, any_terminal,
}
use ai_enterprise_os.Workflow.StateMachine.{
  Python, TransitionResult, StateMachine, plain, in_terminal_state, state_machine,
  evaluate_condition, evaluate_transitions,
}
use ai_enterprise_os.Workflow.StateMachine.Moves.{
  first_match, Enters, Reports, evaluate_transitions-returns, evaluate_transitions-Reports,
}
use ai_enterprise_os.Workflow.Checks.{
  nothing, validate_states, validate_transitions, validate_initial_state, validate_terminal_states,
  validate_approval_states, validate_action_states, validate_wait_states, check_deadlocks,
  each_state,
}
use ai_enterprise_os.Workflow.Transitions.{
  validate, check_reachability, get_reachable_states, sweep, before_reachability,
}
use ai_enterprise_os.Workflow.Transitions.Reaching.{validate_raises}
use ai_enterprise_os.Workflow.Transitions.Reports.{IsConfigured, clean_report_accepts}

-- Values are truth values, and every text evaluates to true.
abbrev py : Python Bool
py = record { eval = λ s d. some true; compiles = λ s. true; of_bool = λ b. b; of_text = λ s. true }

abbrev to_state : String → Transition
to_state k = record { to = k; condition = "auto" }

abbrev start_state : WorkflowState Bool
start_state = record {
  id = "start";
  name = "Start";
  type = initial;
  transitions = to_state "review" ∷ [];
  approval = none;
  action = none;
  wait = none;
  terminal_status = none;
}

abbrev review_state : WorkflowState Bool
review_state = record start_state {
  id = "review";
  name = "Review";
  type = approval;
  transitions = to_state "done" ∷ [];
  approval = some (record {
    required = true;
    approver_role = some "ceo";
    escalation_role = none;
    timeout_hours = 48;
    minimum_approvers = 1;
  });
}

abbrev done_state : WorkflowState Bool
done_state = record start_state {
  id = "done";
  name = "Done";
  type = terminal;
  transitions = [];
  terminal_status = some success;
}

abbrev hiring : WorkflowDefinition Bool
hiring = record {
  states = ("start", start_state) ∷ ("review", review_state) ∷ ("done", done_state) ∷ [];
  initial_state = "start";
}

abbrev machine : StateMachine Bool
machine = record { definition = hiring }

abbrev context : WorkflowContext Bool
context = record {
  execution_id = "e1";
  current_state = "start";
  previous_state = none;
  values = [];
}

hiring_accepted : state_machine hiring ≡ ok machine
unfolding state_machine has
hiring_accepted = refl

hiring_valid :
    (k : String) (s : WorkflowState Bool)
    → lookup k hiring.states ≡ some s
    → is_ok (validate_state s) ≡ true
unfolding lookup validate_state
hiring_valid k s e = ground arith

evaluate_transitions-returns_example :
    (r : TransitionResult Bool) × (evaluate_transitions py machine "start" context ≡ ok r)
    × (false ≡ true → r ≡ plain true none (some in_terminal_state))
    × (false ≡ false
        → Enters machine
            (first_match (λ t. evaluate_condition py t.condition context) start_state.transitions)
            "start"
            r)
unfolding lookup
evaluate_transitions-returns_example =
    evaluate_transitions-returns py context hiring machine "start" start_state hiring_accepted refl

evaluate_transitions-Reports_example :
    (r : TransitionResult Bool) × (evaluate_transitions py machine "start" context ≡ ok r)
    × Reports py context machine "start" r
unfolding lookup
evaluate_transitions-Reports_example =
    evaluate_transitions-Reports py context hiring machine "start" start_state hiring_accepted
      hiring_valid refl refl

validate_raises_example :
    (validate py 1 (record { definition = hiring; found = nothing })).1 ≡ err set_changed_size
unfolding lookup
validate_raises_example =
    (validate_raises py 0 (record { definition = hiring; found = nothing }) start_state refl).0 refl

clean_report_accepts_example :
    (state_machine hiring ≡ ok (record { definition = hiring }))
    × (any_terminal hiring.states ≡ true)
    × ((k : String) (s : WorkflowState Bool) → lookup k hiring.states ≡ some s → IsConfigured s)
unfolding validate check_reachability get_reachable_states sweep before_reachability validate_states
    validate_transitions validate_initial_state validate_terminal_states validate_approval_states
    validate_action_states validate_wait_states check_deadlocks each_state lookup has
clean_report_accepts_example =
    clean_report_accepts py 1 (record { definition = hiring; found = nothing }) refl
