-- ===== src/Runtime/Policies.antt =====
-- The data of src/ai_company/runtime/recovery.py, and policy_for, which finds a component's policy.
-- The process manager, factories and event bus are the caller's code: functions that change a world
-- `W` and may raise, but for publishing, which does not. The manager itself, and the monitors of the
-- supervisor that holds it, are not in that world: a factory that also beats the heartbeats, as the
-- engine's _restart_engine does, is modelled without the beat.
use Prim.Native.Char.{Char, code}
use text.Mathlib.Text.{starts_with}
use text.Mathlib.TextBridge.{to_list, of_list}
use ai_enterprise_os.Prelude.{
  ℕ, String, Bool, false, Option, none, some, List, [], ◌∷◌, if◌then◌else◌, eqb,
}
use ai_enterprise_os.Dict.{Dict, lookup}

pub record RecoveryPolicy : Type 0 where
  pub name : String
  pub enabled : Bool
  pub max_attempts : Option ℕ
  pub actions : List String

pub data Message : Type 0 where
  no_enabled_policy max_attempts_exceeded succeeded all_failed no_recovery_manager : Message

pub record RecoveryResult : Type 0 where
  pub component : String
  pub success : Bool
  pub actions_taken : List String
  pub attempts : ℕ
  pub message : Message

-- The counters that `_record_outcome` increments.
pub record RecoveryMetrics : Type 0 where
  pub recovery_attempts : ℕ
  pub recovery_successes : ℕ
  pub recovery_failures : ℕ

abbrev pub Call : Type 0 → Type 0
Call W = W → Option String × W

pub record ProcessManager (W : Type 0) : Type 0 where
  pub has_record : String → W → Bool
  pub restart : String → Call W
  pub stop : String → Call W

pub record RecoveryManager (W : Type 0) : Type 0 where
  pub default_max_attempts : ℕ
  pub process_manager : Option (ProcessManager W)
  pub component_factory : Option (String → Call W)
  pub event_bus : Option (String → String → List String → W → W)
  pub is_engine : Option (String → Bool)
  pub metrics : Option RecoveryMetrics
  pub policies : Dict RecoveryPolicy
  pub attempts : Dict ℕ
  pub results : Dict (List RecoveryResult)
  pub factories : Dict (Call W)

-- `pattern[:-1]`, for a pattern that ends with "*".
before_star : List Char → Option (List Char)
before_star [] = none
before_star (c ∷ []) = if eqb (code c) 42 then some [] else none
before_star (c ∷ d ∷ cs) = elim (before_star (d ∷ cs)) [ none ↦ none | some ps ↦ some (c ∷ ps) ]

unfoldable pub wildcard : String → String → Bool
unfolding before_star
wildcard pattern component = elim (before_star (to_list pattern)) [
  | none ↦ false
  | some ps ↦ starts_with component (of_list ps)
]

first_wildcard : String → Dict RecoveryPolicy → Option RecoveryPolicy
first_wildcard component [] = none
first_wildcard component ((pattern, policy) ∷ d) =
    let rest = first_wildcard component d in
    if wildcard pattern component then some policy else rest

is_an_engine : Option (String → Bool) → String → Bool
is_an_engine none component = false
is_an_engine (some is_engine) component = is_engine component

or_else : Option RecoveryPolicy → Option RecoveryPolicy → Option RecoveryPolicy
or_else (some p) o = some p
or_else none o = o

module _ {W : Type 0} where
  has_process : Option (ProcessManager W) → String → W → Bool
  has_process none component w = false
  has_process (some pm) component w = pm.has_record component w

  -- The fallbacks of `policy_for`, in order.
  by_category : RecoveryManager W → String → W → Option RecoveryPolicy
  unfolding has_process is_an_engine
  by_category m component w =
      if is_an_engine m.is_engine component
      then lookup "engine" m.policies
      else (if has_process m.process_manager component w then lookup "process" m.policies else none)

  unfoldable pub policy_for : RecoveryManager W → String → W → Option RecoveryPolicy
  unfolding by_category first_wildcard or_else
  policy_for m component w =
      or_else (lookup component m.policies)
        (or_else (first_wildcard component m.policies) (by_category m component w))
