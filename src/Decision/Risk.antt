-- ===== src/Decision/Risk.antt =====
-- src/ai_company/decision/risk.py: RiskScorer.
use ai_enterprise_os.Prelude.{
  ℕ, ◌*◌, String, Bool, true, false, not, List, [], ◌∷◌, ◌==◌, if◌then◌else◌, map, take, sort_by,
}
use ai_enterprise_os.Dict.{lookup}
use ai_enterprise_os.Decision.Models.{Floats, Values, DecisionCategory, level, Decision}

pub record RiskFactor (F : Type 0) : Type 0 where
  pub name : String
  pub weight : F
  pub category : String

abbrev is_compliance : DecisionCategory → Bool
is_compliance DecisionCategory.compliance = true
is_compliance _ = false

abbrev is_governance : DecisionCategory → Bool
is_governance DecisionCategory.governance = true
is_governance _ = false

abbrev is_strategic : DecisionCategory → Bool
is_strategic DecisionCategory.strategic = true
is_strategic _ = false

module _ {F V : Type 0} (floats : Floats F) (values : Values V) where
  unfoldable pub default_factors : List (RiskFactor F)
  default_factors =
      record { name = "financial_impact"; weight = floats.tenths 30; category = "financial" }
      ∷ record { name = "compliance_risk"; weight = floats.tenths 40; category = "compliance" }
      ∷ record { name = "reputation_risk"; weight = floats.tenths 25; category = "strategic" }
      ∷ record { name = "operational_impact"; weight = floats.tenths 20; category = "operational" }
      ∷ record { name = "technical_complexity"; weight = floats.tenths 15; category = "technical" }
      ∷ record { name = "stakeholder_impact"; weight = floats.tenths 20; category = "social" }
      ∷ record { name = "time_pressure"; weight = floats.tenths 10; category = "operational" }
      ∷ record { name = "data_security"; weight = floats.tenths 45; category = "compliance" }
      ∷ []

  -- `base_risk += n / 10` if `test`
  raise_if : Bool → ℕ → F → F
  raise_if test n base = if test then floats.add base (floats.tenths n) else base

  -- The steps of the budget: the highest one that it exceeds.
  budget_risk : Decision F V → F → F
  budget_risk d base =
      let budget = lookup "budget" d.context in
      if values.exceeds budget 100000
      then floats.add base (floats.tenths 3)
      else if values.exceeds budget 50000
      then floats.add base (floats.tenths 2)
      else if values.exceeds budget 10000
      then floats.add base (floats.tenths 1)
      else base

  category_risk : RiskFactor F → Decision F V → F → F
  category_risk factor d base =
      if factor.category == "financial"
      then budget_risk d base
      else if factor.category == "compliance"
      then raise_if (is_governance d.category) 3 (raise_if (is_compliance d.category) 4 base)
      else if factor.category == "strategic"
      then raise_if (is_strategic d.category) 3 base
      else base

  unfoldable pub evaluate_factor : RiskFactor F → Decision F V → F
  unfolding raise_if category_risk budget_risk
  evaluate_factor factor d =
      let base = floats.div (floats.tenths (10 * level d.priority)) (floats.tenths 50) in
      let risk = category_risk factor d base in
      floats.min (floats.tenths 10)
        (raise_if (values.lists (lookup "risk_factors" d.context) factor.name) 2 risk)

  total_weight : List (RiskFactor F) → F
  total_weight factors = sum_from (floats.tenths 0) factors
    where
      sum_from : F → List (RiskFactor F) → F
      sum_from acc [] = acc
      sum_from acc (f ∷ fs) = sum_from (floats.add acc f.weight) fs

  weighted_score : Decision F V → F → List (RiskFactor F) → F
  weighted_score d acc [] = acc
  weighted_score d acc (f ∷ fs) =
      weighted_score d (floats.add acc (floats.mul (evaluate_factor f d) f.weight)) fs

  unfoldable pub calculate : List (RiskFactor F) → Decision F V → F
  unfolding total_weight weighted_score
  calculate [] d = floats.tenths 0
  calculate (f ∷ fs) d =
      if floats.is_zero (total_weight (f ∷ fs))
      then floats.tenths 0
      else floats.min (floats.tenths 10)
          (floats.div (weighted_score d (floats.tenths 0) (f ∷ fs)) (total_weight (f ∷ fs)))

  scored : Decision F V → List (RiskFactor F) → List (String × F)
  scored d [] = []
  scored d (f ∷ fs) =
      let rest = scored d fs in
      let score = evaluate_factor f d in
      if floats.gt score (floats.tenths 5) then (f.name, score) ∷ rest else rest

  unfoldable pub identify_factors : List (RiskFactor F) → Decision F V → List String
  unfolding scored
  identify_factors factors d =
      map (λ (s : String × F). s.0)
        (take 5 (sort_by (λ a b. not (floats.gt b.1 a.1)) (scored d factors)))
