-- ===== src/Workflow/Transitions.antt =====
-- src/ai_company/workflow/transitions.py: the validator of a definition and the condition evaluator.
-- A Python set is the list of its elements; where the code iterates over one, the list's order
-- stands for the set's. `_get_reachable_states` adds to the set that it iterates over, and Python's
-- iterator raises once the size has changed.
pub mod Reaching
pub mod Reports
use ai_enterprise_os.Prelude.{
  ℕ, zero, suc, String, Bool, true, false, not, ◌&&◌, ◌||◌, Option, none, some, List, [], ◌∷◌, ◌++◌,
  if◌then◌else◌, length, elem, keep, eqb, ◌==◌, Result, ok, err, ◌>>=◌,
}
use ai_enterprise_os.Dict.{Dict, has, lookup, insert, keys}
use ai_enterprise_os.Workflow.Models.{
  WorkflowStateType, initial, action, approval, wait, terminal, Transition, ApprovalConfig,
  ActionConfig, WaitConfig, WorkflowState, WorkflowDefinition, WorkflowContext, WorkflowError,
  set_changed_size, out_of_fuel, is_terminal,
}
use ai_enterprise_os.Workflow.StateMachine.{Python, caught}
use ai_enterprise_os.Workflow.Checks.{
  Issue, Found, nothing, warning, ◌⊕◌, unreachable, validate_states, validate_transitions,
  validate_initial_state, validate_terminal_states, validate_approval_states,
  validate_action_states, validate_wait_states, check_deadlocks,
}

pub record TransitionValidator (V : Type 0) : Type 0 where
  pub definition : WorkflowDefinition V
  pub found : Found

-- The body of the innermost loop of _get_reachable_states: `reachable.add(transition.to)`.
unfoldable pub add_targets : List Transition → List String → Bool → List String × Bool
add_targets [] reachable changed = (reachable, changed)
add_targets (t ∷ ts) reachable changed =
    add_targets ts (if elem t.to reachable then reachable else reachable ++ t.to ∷ [])
      (changed || not (elem t.to reachable))

unreachable_warnings : String → List String → List String → Found
unreachable_warnings start reachable [] = nothing
unreachable_warnings start reachable (k ∷ ks) =
    (if not (elem k reachable) && not (k == start) then warning (unreachable k) else nothing)
    ⊕ unreachable_warnings start reachable ks

abbrev pub no_errors : List Issue → Bool
no_errors [] = true
no_errors (i ∷ is) = false

or_empty : Option String → String
or_empty none = ""
or_empty (some s) = s

module _ {V : Type 0} where
  -- The body of `for state_id in reachable`.
  visit : Option (WorkflowState V) → List String → Bool → List String × Bool
  unfolding add_targets
  visit none reachable changed = (reachable, changed)
  visit (some s) reachable changed = add_targets s.transitions reachable changed

  -- The `for` loop itself, over the elements that its iterator has still to give; the iterator
  -- compares the set's size with the size at its start before each element and at the end.
  unfoldable pub sweep :
      Dict (WorkflowState V)
      → ℕ
      → List String
      → List String
      → Bool
      → Result WorkflowError (List String × Bool)
  unfolding visit
  sweep states size [] reachable changed =
      if eqb (length reachable) size then ok (reachable, changed) else err set_changed_size
  sweep states size (state_id ∷ rest) reachable changed =
      let next = visit (lookup state_id states) reachable changed in
      let swept = sweep states size rest next.0 next.1 in
      if eqb (length reachable) size then swept else err set_changed_size

  -- `while changed`, on fuel.
  unfoldable pub reach_loop :
      ℕ → Dict (WorkflowState V) → List String → Result WorkflowError (List String)
  reach_loop zero states reachable = err out_of_fuel
  reach_loop (suc fuel) states reachable =
      elim (sweep states (length reachable) reachable reachable false) [
        | ok (r, changed) ↦ elim changed [ true ↦ reach_loop fuel states r | false ↦ ok r ]
        | err e ↦ err e
      ]

  unfoldable pub get_reachable_states :
      ℕ → WorkflowDefinition V → Result WorkflowError (List String)
  unfolding reach_loop
  get_reachable_states fuel d = reach_loop fuel d.states (d.initial_state ∷ [])

  unfoldable pub check_reachability : ℕ → WorkflowDefinition V → Result WorkflowError Found
  unfolding unreachable_warnings
  check_reachability fuel d = do
    reachable ← get_reachable_states fuel d
    ok (unreachable_warnings d.initial_state reachable (keys d.states))

  add_names : Option (Dict V) → Dict V → Dict V
  add_names none names = names
  add_names (some []) names = names
  add_names (some ((k, v) ∷ more)) names = add_names (some more) (insert k v names)

module _ {V : Type 0} (py : Python V) where
  -- The checks before _check_reachability, which may raise, and the one behind it.
  unfoldable pub before_reachability : WorkflowDefinition V → Found
  before_reachability d =
      validate_states d
      ⊕ validate_transitions py d
      ⊕ validate_initial_state d
      ⊕ validate_terminal_states d
      ⊕ validate_approval_states d
      ⊕ validate_action_states d
      ⊕ validate_wait_states d

  -- What is left after _check_reachability raised or returned its warnings.
  finish :
      Found
      → TransitionValidator V
      → Result WorkflowError Found
      → TransitionValidator V × Result WorkflowError Bool
  finish before v (err e) = (record v { found = before }, err e)
  finish before v (ok more) =
      let after = before ⊕ more ⊕ check_deadlocks v.definition in
      (record v { found = after }, ok (no_errors after.errors))

  -- The new `self.errors` and `self.warnings`, and the answer or the exception.
  unfoldable pub validate :
      ℕ → TransitionValidator V → TransitionValidator V × Result WorkflowError Bool
  unfolding finish
  validate fuel v =
      finish (before_reachability v.definition) v (check_reachability fuel v.definition)

  -- TransitionEvaluator.evaluate
  unfoldable pub evaluate : String → WorkflowContext V → Option (Dict V) → Bool
  unfolding caught add_names or_empty
  evaluate condition context additional_vars =
      let names = insert "execution_id" (py.of_text context.execution_id) (
        insert "previous_state" (py.of_text (or_empty context.previous_state))
          (insert "state" (py.of_text context.current_state) context.values)) in
      if condition == "" || condition == "auto"
      then true
      else caught (py.eval condition (add_names additional_vars names))

  -- TransitionEvaluator.evaluate_transitions
  unfoldable pub evaluate_transitions : WorkflowState V → WorkflowContext V → List Transition
  evaluate_transitions s context =
      keep (λ (t : Transition). evaluate t.condition context none) s.transitions
