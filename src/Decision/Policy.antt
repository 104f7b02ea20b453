-- ===== src/Decision/Policy.antt =====
-- src/ai_company/decision/policy.py: Policy and PolicyEngine. A policy's conditions and its action
-- are data with one constructor for each key or type that the code knows. Priorities are not
-- negative. Messages are constructors.
pub mod Order
use ai_enterprise_os.Prelude.{
  ℕ, String, Bool, true, false, not, ◌&&◌, ◌||◌, Option, none, some, List, [], ◌∷◌, ◌++◌, ◌==◌,
  if◌then◌else◌, ltb, leb, keep, sort_by,
}
use ai_enterprise_os.Dict.{Dict, has, lookup, insert, erase, get_or, values}
use ai_enterprise_os.Decision.Models.{Floats, Values, Decision, level, category_value}
use ai_enterprise_os.Decision.Approval.{too_risky}

pub data Condition (F : Type 0) : Type 0 where
  min_priority : ℕ → Condition F
  max_priority : ℕ → Condition F
  of_category : String → Condition F
  risk_max : F → Condition F
  unknown : String → Condition F

pub data Action : Type 0 where
  require_approval : Action
  auto_approve : Action
  add_constraint : String → Action
  set_owner : String → Action
  escalate : Action
  unknown : Action

pub data Taken : Type 0 where
  approval_required_by : String → Taken
  auto_approved_by : String → Taken
  constraint_added : String → Taken
  owner_set : String → Taken
  escalation_triggered : String → Taken

pub record Policy (F : Type 0) : Type 0 where
  pub policy_id : String
  pub name : String
  pub scope : String
  pub enabled : Bool
  pub priority : ℕ
  pub conditions : List (Condition F)
  pub action : Action

-- PolicyEngine.policies
abbrev pub Policies : Type 0 → Type 0
Policies F = Dict (Policy F)

module _ {F : Type 0} (floats : Floats F) where
  -- `(decision.risk_score or 0) > value`
  abbrev pub score_above : Option F → F → Bool
  score_above none limit = floats.gt (floats.tenths 0) limit
  score_above (some score) limit = floats.gt score limit

module _ {F : Type 0} where
  -- `sorted(..., key=lambda p: p.priority, reverse=True)`
  unfoldable pub sorted_policies : Policies F → List (Policy F)
  sorted_policies policies =
      sort_by (λ (p q : Policy F). leb q.priority p.priority) (values policies)

module _ {F V : Type 0} (floats : Floats F) (vals : Values V) where
  unfoldable pub condition_holds : Condition F → Decision F V → Bool
  condition_holds (min_priority n) d = leb n (level d.priority)
  condition_holds (max_priority n) d = leb (level d.priority) n
  condition_holds (of_category c) d = category_value d.category == c
  condition_holds (risk_max limit) d = not (score_above floats d.risk_score limit)
  condition_holds (Condition.unknown key) d = true

  unfoldable pub all_hold : List (Condition F) → Decision F V → Bool
  all_hold [] d = true
  all_hold (c ∷ cs) d = condition_holds c d && all_hold cs d

  unfoldable pub in_scope : Policy F → Decision F V → Bool
  in_scope policy d =
      policy.scope == "global"
      || vals.same (some (get_or "scope" (vals.text (category_value d.category)) d.context))
          (vals.text policy.scope)

  unfoldable pub applies_to : Policy F → Decision F V → Bool
  applies_to policy d =
      if not policy.enabled
      then false
      else if not (in_scope policy d)
      then false
      else all_hold policy.conditions d

  -- The chain on the action's type, of a policy with this name that applies.
  unfoldable pub take_action : String → Action → Decision F V → Decision F V × List Taken
  take_action name require_approval d =
      (record d { approval_required = true }, approval_required_by name ∷ [])
  take_action name auto_approve d =
      (record d { approval_required = false }, auto_approved_by name ∷ [])
  take_action name (add_constraint c) d =
      if c == ""
      then (d, [])
      else (record d { constraints = d.constraints ++ c ∷ [] }, constraint_added c ∷ [])
  take_action name (set_owner o) d =
      if o == "" then (d, []) else (record d { owner = o }, owner_set o ∷ [])
  take_action name Action.escalate d = (d, escalation_triggered name ∷ [])
  take_action name Action.unknown d = (d, [])

  unfoldable pub enforce_policy : Policy F → Decision F V → Decision F V × List Taken
  enforce_policy policy d =
      if applies_to policy d then take_action policy.name policy.action d else (d, [])

  -- `for policy in sorted_policies`
  unfoldable pub enforce_all : List (Policy F) → Decision F V → Decision F V × List Taken
  enforce_all [] d = (d, [])
  enforce_all (policy ∷ rest) d =
      let (d', results) = enforce_policy policy d in
      let (d'', more) = enforce_all rest d' in (d'', results ++ more)

  unfoldable pub enforce : Policies F → Decision F V → Decision F V × List Taken
  enforce policies d = enforce_all (sorted_policies policies) d

  -- `policies_applied` and `policies_not_applied`
  unfoldable pub get_reasoning : Policies F → Decision F V → List (Policy F) × List (Policy F)
  get_reasoning policies d = (
    keep (λ p. applies_to p d) (values policies),
    keep (λ p. not (applies_to p d)) (values policies),
  )

module _ {F : Type 0} where
  unfoldable pub add_policy : Policy F → Policies F → Policies F
  add_policy policy policies = insert policy.policy_id policy policies

  unfoldable pub remove_policy : String → Policies F → Policies F × Bool
  remove_policy policy_id policies =
      if has policy_id policies then (erase policy_id policies, true) else (policies, false)

  unfoldable pub get_policy : String → Policies F → Option (Policy F)
  get_policy policy_id policies = lookup policy_id policies
