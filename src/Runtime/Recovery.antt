-- ===== src/Runtime/Recovery.antt =====
-- src/ai_company/runtime/recovery.py: the methods of RecoveryManager, over the data of
-- Runtime/Policies. Messages are constructors; times, logging, locks and the rounded success rate
-- are left out.
pub mod Sequence
pub mod Attempts
mod Tests
use ai_enterprise_os.Prelude.{
  ℕ, ◌+◌, String, Bool, true, false, not, ◌&&◌, ◌||◌, Option, none, some, List, [], ◌∷◌, ◌++◌, ◌==◌,
  if◌then◌else◌, ltb, any,
}
use ai_enterprise_os.Dict.{Dict, lookup, insert, get_or}
use ai_enterprise_os.Runtime.Policies.{
  RecoveryPolicy, Message, no_enabled_policy, max_attempts_exceeded, succeeded, all_failed,
  RecoveryResult, RecoveryMetrics, Call, ProcessManager, RecoveryManager, policy_for,
}

abbrev pub is_empty : List String → Bool
is_empty [] = true
is_empty (x ∷ xs) = false

refused : String → ℕ → Message → RecoveryResult
refused component attempts message = record {
  component = component;
  success = false;
  actions_taken = [];
  attempts = attempts;
  message = message;
}

-- `restart` and `reload_state` restore the component.
abbrev pub restores : String → Bool
restores action = action == "restart" || action == "reload_state"

unfoldable pub record_outcome : RecoveryResult → RecoveryMetrics → RecoveryMetrics
record_outcome result m =
    if any restores result.actions_taken
    then (record m {
      recovery_attempts = m.recovery_attempts + 1;
      recovery_successes = m.recovery_successes + 1;
    })
    else (record m {
      recovery_attempts = m.recovery_attempts + 1;
      recovery_failures = m.recovery_failures + 1;
    })

recorded : RecoveryResult → Option RecoveryMetrics → Option RecoveryMetrics
unfolding record_outcome
recorded result none = none
recorded result (some m) = some (record_outcome result m)

module _ {W : Type 0} where
  call_or : String → Option (Call W) → Call W
  call_or error none w = (some error, w)
  call_or error (some f) w = f w

  applied : Option (String → Call W) → String → Option (Call W)
  applied none component = none
  applied (some f) component = some (f component)

  -- The factory of the component, before the one for any component.
  first_of : Option (Call W) → Option (Call W) → Option (Call W)
  first_of (some f) o = some f
  first_of none o = o

  restart_by : Option (ProcessManager W) → RecoveryManager W → String → Call W
  unfolding call_or applied first_of
  restart_by none m component w =
      call_or "no restart mechanism"
        (first_of (lookup component m.factories) (applied m.component_factory component)) w
  restart_by (some pm) m component w =
      if pm.has_record component w
      then pm.restart component w
      else call_or "no restart mechanism"
          (first_of (lookup component m.factories) (applied m.component_factory component)) w

  reload_state : RecoveryManager W → String → Call W
  unfolding call_or applied
  reload_state m component w =
      call_or "no state reload mechanism" (applied m.component_factory component) w

  isolate_by : Option (ProcessManager W) → String → Call W
  isolate_by none component w = (some "nothing to isolate", w)
  isolate_by (some pm) component w =
      if pm.has_record component w then pm.stop component w else (some "nothing to isolate", w)

  escalate_by :
      Option (String → String → List String → W → W) → String → String → List String → Call W
  escalate_by none component reason actions w = (some "no event bus", w)
  escalate_by (some publish) component reason actions w = (none, publish component reason actions w)

  -- The body of `try` in `_execute`.
  unfoldable pub act : RecoveryManager W → String → RecoveryPolicy → String → String → Call W
  unfolding restart_by reload_state isolate_by escalate_by
  act m component policy reason action w =
      if action == "restart"
      then restart_by m.process_manager m component w
      else (if action == "reload_state"
          then reload_state m component w
          else (if action == "isolate"
              then isolate_by m.process_manager component w
              else (if action == "escalate"
                  then escalate_by m.event_bus component reason policy.actions w
                  else (some "unknown recovery action", w))))

  -- What the action `action` leaves to do, where `rest` is what the actions after it give.
  go_on : String → Option String → W → List String × W → List String × W
  go_on action (some e) w rest = rest
  go_on action none w rest =
      if action == "escalate" then (action ∷ rest.0, rest.1) else (action ∷ [], w)

  -- `for action in policy.actions`: what is taken, and the world.
  unfoldable pub take_actions :
      RecoveryManager W → String → RecoveryPolicy → String → List String → W → List String × W
  unfolding go_on
  take_actions m component policy reason [] w = ([], w)
  take_actions m component policy reason (action ∷ actions) w =
      let (raised, w') = act m component policy reason action w in
      let rest = take_actions m component policy reason actions w' in go_on action raised w' rest

  execute : RecoveryManager W → String → RecoveryPolicy → String → ℕ → W → RecoveryResult × W
  unfolding take_actions
  execute m component policy reason attempts w =
      let (taken, w') = take_actions m component policy reason policy.actions w in
      (
        record {
          component = component;
          success = not (is_empty taken);
          actions_taken = taken;
          attempts = attempts;
          message = if is_empty taken then all_failed else succeeded;
        },
        w',
      )

  unfoldable pub max_of : RecoveryManager W → RecoveryPolicy → ℕ
  max_of m policy = elim policy.max_attempts [ none ↦ m.default_max_attempts | some n ↦ n ]

  attempt : RecoveryManager W → String → Option RecoveryPolicy → String → ℕ → W → RecoveryResult × W
  unfolding refused max_of execute
  attempt m component none reason n w = (refused component n no_enabled_policy, w)
  attempt m component (some policy) reason n w =
      if not policy.enabled
      then (refused component n no_enabled_policy, w)
      else (if ltb (max_of m policy) n
          then (refused component n max_attempts_exceeded, w)
          else execute m component policy reason n w)

  unfoldable pub attempts_of : String → RecoveryManager W → ℕ
  attempts_of component m = get_or component 0 m.attempts

  unfoldable pub register_factory : String → Call W → RecoveryManager W → RecoveryManager W
  register_factory name factory m = record m { factories = insert name factory m.factories }

  unfoldable pub reset : String → RecoveryManager W → RecoveryManager W
  reset component m = record m { attempts = insert component 0 m.attempts }

  unfoldable pub recover :
      String → String → RecoveryManager W → W → RecoveryManager W × RecoveryResult × W
  unfolding attempt attempts_of policy_for recorded
  recover component reason m w =
      let n = attempts_of component m + 1 in
      let m₁ : RecoveryManager W = record m { attempts = insert component n m.attempts } in
      let (result, w') = attempt m₁ component (policy_for m₁ component w) reason n w in
      (
        record m₁ {
          results = insert component (get_or component [] m₁.results ++ result ∷ []) m₁.results;
          metrics = recorded result m₁.metrics;
        },
        result,
        w',
      )
