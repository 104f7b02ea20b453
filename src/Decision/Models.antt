-- ===== src/Decision/Models.antt =====
-- src/ai_company/decision/models.py. `F` stands for Python's floats and `V` for the values of an
-- untyped dictionary, with the operations on them that the package uses. Times are numbers of
-- microseconds.
use ai_enterprise_os.Prelude.{ℕ, String, Bool, Option, List}
use ai_enterprise_os.Dict.{Dict}

pub record Floats (F : Type 0) : Type 0 where
  -- the literal for n / 10
  pub tenths : ℕ → F
  pub add : F → F → F
  pub mul : F → F → F
  pub div : F → F → F
  pub min : F → F → F
  pub gt : F → F → Bool
  pub is_zero : F → Bool

pub record Values (V : Type 0) : Type 0 where
  pub text : String → V
  -- `d.get(k) == v`, where `none` is a missing key
  pub same : Option V → V → Bool
  -- `d.get(k, 0) > n`
  pub exceeds : Option V → ℕ → Bool
  -- `isinstance(x, list) and name in x`
  pub lists : Option V → String → Bool

pub data DecisionStatus : Type 0 where
  pending approved rejected escalated deferred cancelled in_review awaiting_info : DecisionStatus

pub data DecisionPriority : Type 0 where
  low medium high critical emergency : DecisionPriority

pub data DecisionCategory : Type 0 where
  strategic operational financial technical hr compliance governance risk other : DecisionCategory

abbrev pub level : DecisionPriority → ℕ
level DecisionPriority.low = 1
level DecisionPriority.medium = 2
level DecisionPriority.high = 3
level DecisionPriority.critical = 4
level DecisionPriority.emergency = 5

-- `priority.name`
abbrev pub priority_name : DecisionPriority → String
priority_name DecisionPriority.low = "LOW"
priority_name DecisionPriority.medium = "MEDIUM"
priority_name DecisionPriority.high = "HIGH"
priority_name DecisionPriority.critical = "CRITICAL"
priority_name DecisionPriority.emergency = "EMERGENCY"

abbrev pub category_value : DecisionCategory → String
category_value DecisionCategory.strategic = "strategic"
category_value DecisionCategory.operational = "operational"
category_value DecisionCategory.financial = "financial"
category_value DecisionCategory.technical = "technical"
category_value DecisionCategory.hr = "hr"
category_value DecisionCategory.compliance = "compliance"
category_value DecisionCategory.governance = "governance"
category_value DecisionCategory.risk = "risk"
category_value DecisionCategory.other = "other"

abbrev pub status_value : DecisionStatus → String
status_value DecisionStatus.pending = "pending"
status_value DecisionStatus.approved = "approved"
status_value DecisionStatus.rejected = "rejected"
status_value DecisionStatus.escalated = "escalated"
status_value DecisionStatus.deferred = "deferred"
status_value DecisionStatus.cancelled = "cancelled"
status_value DecisionStatus.in_review = "in_review"
status_value DecisionStatus.awaiting_info = "awaiting_info"

pub record Decision (F V : Type 0) : Type 0 where
  pub id : String
  pub title : String
  pub description : String
  pub category : DecisionCategory
  pub priority : DecisionPriority
  pub status : DecisionStatus
  pub requester : String
  pub owner : String
  pub stakeholders : List String
  pub options : List (Dict V)
  pub selected_option : Option String
  pub rationale : Option String
  pub risk_score : Option F
  pub risk_factors : List String
  pub approval_required : Bool
  pub approved_by : Option String
  pub escalation_path : List String
  pub tags : List String
  pub created_at : ℕ
  pub updated_at : Option ℕ
  pub resolved_at : Option ℕ
  pub metadata : Dict V
  pub context : Dict V
  pub constraints : List String
  pub dependents : List String
