-- ===== src/Decision/Approval/Rules.antt =====
-- The approval matrix answers by its first matching rule, and escalation by the first entry behind
-- the owner.
use ai_enterprise_os.Prelude.{
  String, ◌≡◌, refl, Bool, true, false, List, [], ◌∷◌, ◌++◌, ◌==◌, arith, if◌then◌else◌, Bool-cases,
  inl, inr, keep, elem, elem-append,
}
use ai_enterprise_os.Decision.Models.{Floats, Values, Decision}
use ai_enterprise_os.Decision.Approval.{
  ApprovalRule, ApprovalMatrix, rule_matches, approval_by, approver_by, auto_by,
  is_approval_required, get_approver, can_auto_approve, get_matching_rules, next_level, level_above,
}

-- What the first of some rules says, or the answer without one.
abbrev pub first_says : {F V A : Type 0} → A → (ApprovalRule F V → A) → List (ApprovalRule F V) → A
first_says answer says [] = answer
first_says answer says (rule ∷ rules) = says rule

module _ {F V : Type 0} (floats : Floats F) (values : Values V) (d : Decision F V) where
  abbrev matches_it : ApprovalRule F V → Bool
  matches_it rule = rule_matches floats values rule d

  abbrev pub role_of : String → ApprovalRule F V → String
  role_of default rule = if rule.approver_role == "" then default else rule.approver_role

  approval-first :
      (rules : List (ApprovalRule F V))
      → approval_by floats values rules d
        ≡ first_says true (λ rule. rule.requires_approval) (keep matches_it rules)
  unfolding approval_by
  approval-first [] = refl
  approval-first (rule ∷ rules) = elim (Bool-cases (matches_it rule)) [
    | inl e ↦ rw e refl
    | inr e ↦ rw e (approval-first rules)
  ]

  auto-first :
      (rules : List (ApprovalRule F V))
      → auto_by floats values rules d
        ≡ first_says false (λ rule. rule.auto_approve) (keep matches_it rules)
  unfolding auto_by
  auto-first [] = refl
  auto-first (rule ∷ rules) = elim (Bool-cases (matches_it rule)) [
    | inl e ↦ rw e refl
    | inr e ↦ rw e (auto-first rules)
  ]

  approver-first :
      (default : String) (rules : List (ApprovalRule F V))
      → approver_by floats values rules default d
        ≡ first_says default (role_of default) (keep matches_it rules)
  unfolding approver_by
  approver-first default [] = refl
  approver-first default (rule ∷ rules) = elim (Bool-cases (matches_it rule)) [
    | inl e ↦ rw e refl
    | inr e ↦ rw e (approver-first default rules)
  ]

  -- Whether approval is required, by whom, and whether it may be automatic, are all answered by the
  -- same rule, the first of those that match the decision, where an empty role means the default
  -- approver; without a match approval is required, by the default approver, and not automatic.
  pub first_rule_decides :
      (m : ApprovalMatrix F V)
      → (is_approval_required floats values m d
          ≡ first_says true (λ rule. rule.requires_approval) (get_matching_rules floats values m d))
        × (get_approver floats values m d
            ≡ first_says m.default_approver
                (role_of m.default_approver)
                (get_matching_rules floats values m d))
        × (can_auto_approve floats values m d
            ≡ first_says false (λ rule. rule.auto_approve) (get_matching_rules floats values m d))
  unfolding is_approval_required get_approver can_auto_approve get_matching_rules
  first_rule_decides m =
      (approval-first m.rules, approver-first m.default_approver m.rules, auto-first m.rules)

level_above-snoc :
    (owner first : String) (path : List String)
    → elem owner (first ∷ path) ≡ true
    → level_above owner first (path ++ level_above owner first path ∷ [])
      ≡ level_above owner first path
unfolding level_above
level_above-snoc owner first [] e = ground arith
level_above-snoc owner first (role ∷ path) e = elim (Bool-cases (first == owner)) [
  | inl q ↦ rw q refl
  | inr q ↦ rw q (level_above-snoc owner role path (ground arith))
]

pub next_level-snoc :
    (owner : String) (path : List String)
    → next_level owner (path ++ next_level owner path ∷ []) ≡ next_level owner path
unfolding next_level
next_level-snoc owner [] = unfold level_above in ground arith
next_level-snoc owner (first ∷ path) = elim (Bool-cases (elem owner (first ∷ path))) [
  | inl e ↦ rw e (
      ground (
        arith,
        level_above-snoc owner first path e,
        elem-append owner path (level_above owner first path ∷ []),
      ))
  | inr e ↦ rw e (ground (arith, elem-append owner path (first ∷ [])))
]

-- Approval depends on a decision's category, priority, risk and context only.
module _ {F V : Type 0} (floats : Floats F) (values : Values V) (d d' : Decision F V)
    (category : d'.category ≡ d.category) (priority : d'.priority ≡ d.priority)
    (risk_score : d'.risk_score ≡ d.risk_score) (context : d'.context ≡ d.context) where
  rule_matches-same :
      (rule : ApprovalRule F V)
      → rule_matches floats values rule d' ≡ rule_matches floats values rule d
  unfolding rule_matches
  rule_matches-same rule = rw (category, priority, risk_score, context) refl

  pub approval_by-same :
      (rules : List (ApprovalRule F V))
      → approval_by floats values rules d' ≡ approval_by floats values rules d
  unfolding approval_by
  approval_by-same [] = refl
  approval_by-same (rule ∷ rules) = rw (rule_matches-same rule, approval_by-same rules) refl
