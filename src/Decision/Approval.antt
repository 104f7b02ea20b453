-- ===== src/Decision/Approval.antt =====
-- src/ai_company/decision/approval.py: ApprovalRule, ApprovalMatrix and ApprovalRouter. The loop of
-- `determine_path` runs on fuel.
pub mod Paths
pub mod Rules
use ai_enterprise_os.Prelude.{
  ℕ, zero, suc, String, Bool, true, false, not, ◌&&◌, ◌||◌, Option, none, some, List, [], ◌∷◌, ◌++◌,
  ◌==◌, if◌then◌else◌, elem, ltb, keep,
}
use ai_enterprise_os.Dict.{Dict, lookup}
use ai_enterprise_os.Decision.Models.{Floats, Values, Decision, level, category_value}

pub record ApprovalRule (F V : Type 0) : Type 0 where
  pub rule_id : String
  pub category : Option String
  pub min_priority : ℕ
  pub max_risk_score : F
  pub requires_approval : Bool
  pub approver_role : String
  pub auto_approve : Bool
  pub conditions : Dict V

pub record ApprovalMatrix (F V : Type 0) : Type 0 where
  pub rules : List (ApprovalRule F V)
  pub default_approver : String

-- `self.category and decision.category.value != self.category`
abbrev pub other_category : Option String → String → Bool
other_category none value = false
other_category (some wanted) value = not (wanted == "") && not (value == wanted)

module _ {V : Type 0} (values : Values V) where
  -- `for key, value in self.conditions.items(): if decision.context.get(key) != value`
  unfoldable pub conditions_hold : Dict V → Dict V → Bool
  conditions_hold [] context = true
  conditions_hold ((k, v) ∷ rest) context =
      values.same (lookup k context) v && conditions_hold rest context

module _ {F : Type 0} (floats : Floats F) where
  -- `decision.risk_score is not None and decision.risk_score > limit`
  abbrev pub too_risky : Option F → F → Bool
  too_risky none limit = false
  too_risky (some score) limit = floats.gt score limit

module _ {F V : Type 0} (floats : Floats F) (values : Values V) where
  unfoldable pub rule_matches : ApprovalRule F V → Decision F V → Bool
  rule_matches rule d =
      if other_category rule.category (category_value d.category)
      then false
      else if ltb (level d.priority) rule.min_priority
      then false
      else if too_risky floats d.risk_score rule.max_risk_score
      then false
      else conditions_hold values rule.conditions d.context

  -- `for rule in self.rules: if rule.matches(decision): return ...`
  unfoldable pub approval_by : List (ApprovalRule F V) → Decision F V → Bool
  approval_by [] d = true
  approval_by (rule ∷ rules) d =
      if rule_matches rule d then rule.requires_approval else approval_by rules d

  unfoldable pub is_approval_required : ApprovalMatrix F V → Decision F V → Bool
  is_approval_required m d = approval_by m.rules d

  unfoldable pub approver_by : List (ApprovalRule F V) → String → Decision F V → String
  approver_by [] default d = default
  approver_by (rule ∷ rules) default d =
      let rest = approver_by rules default d in
      if rule_matches rule d
      then (if rule.approver_role == "" then default else rule.approver_role)
      else rest

  unfoldable pub get_approver : ApprovalMatrix F V → Decision F V → String
  get_approver m d = approver_by m.rules m.default_approver d

  unfoldable pub auto_by : List (ApprovalRule F V) → Decision F V → Bool
  auto_by [] d = false
  auto_by (rule ∷ rules) d = if rule_matches rule d then rule.auto_approve else auto_by rules d

  unfoldable pub can_auto_approve : ApprovalMatrix F V → Decision F V → Bool
  can_auto_approve m d = auto_by m.rules d

  unfoldable pub get_matching_rules : ApprovalMatrix F V → Decision F V → List (ApprovalRule F V)
  get_matching_rules m d = keep (λ rule. rule_matches rule d) m.rules

  unfoldable pub add_rule : ApprovalRule F V → ApprovalMatrix F V → ApprovalMatrix F V
  add_rule rule m = record m { rules = m.rules ++ rule ∷ [] }

-- `path.append(role)`, in front of what the rest of the loop appends
abbrev pub onto : String → Option (List String) → Option (List String)
onto role none = none
onto role (some path) = some (role ∷ path)

-- One pass of the loop, with the rest of it: on to the superior, or the end of the path.
unfoldable pub climb :
    String → (String → Option (List String)) → Option String → Option (List String)
climb role rest none = some (if role == "" then [] else role ∷ [])
climb role rest (some next) = onto role (rest next)

-- `while current_role in self.approval_hierarchy`; `none` when the fuel is used up.
unfoldable pub path_from : ℕ → Dict String → String → Option (List String)
unfolding climb
path_from zero hierarchy role = none
path_from (suc fuel) hierarchy role = climb role (path_from fuel hierarchy) (lookup role hierarchy)

abbrev pub start_role : String → String
start_role owner = if owner == "" then "requester" else owner

module _ {F V : Type 0} where
  unfoldable pub determine_path : ℕ → Dict String → Decision F V → Option (List String)
  determine_path fuel hierarchy d = path_from fuel hierarchy (start_role d.owner)

-- `path[-1]`, for a path that begins with `first`
unfoldable pub last_role : String → List String → String
last_role first [] = first
last_role first (role ∷ path) = last_role role path

-- `path[path.index(owner) + 1]` where there is such an entry, else `path[-1]`, for an owner in path
unfoldable pub level_above : String → String → List String → String
level_above owner first [] = first
level_above owner first (role ∷ path) =
    let rest = level_above owner role path in if first == owner then role else rest

-- What ApprovalRouter.escalate reads of a decision: its owner and its escalation path.
unfoldable pub next_level : String → List String → String
unfolding level_above
next_level owner [] = "board"
next_level owner (first ∷ path) =
    if elem owner (first ∷ path) then level_above owner first path else first
