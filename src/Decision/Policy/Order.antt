-- ===== src/Decision/Policy/Order.antt =====
-- The order in which policies act on a decision, and which of them has the last word.
use mathlib.Core.List.{Perm}
use ai_enterprise_os.Prelude.{
  String, ◌≡◌, refl, Bool, true, false, Option, none, some, List, [], ◌∷◌, ◌++◌, ◌==◌, arith,
  if◌then◌else◌, Bool-cases, inl, inr, keep, leb, IsSortedBy, sort_by-perm, sort_by-IsSortedBy,
}
use ai_enterprise_os.Dict.{values}
use ai_enterprise_os.Decision.Models.{Floats, Values, Decision}
use ai_enterprise_os.Decision.Policy.{
  Condition, Action, Policy, Policies, condition_holds, all_hold, in_scope, applies_to, take_action,
  enforce_policy, enforce_all, sorted_policies, enforce, require_approval, auto_approve, set_owner,
}

-- What an action says about approval and about the owner, if anything.
abbrev pub says_approval : Action → Option Bool
says_approval require_approval = some true
says_approval auto_approve = some false
says_approval _ = none

abbrev pub says_owner : Action → Option String
says_owner (set_owner owner) = if owner == "" then none else some owner
says_owner _ = none

-- The later of two statements, and what holds after them.
abbrev pub later : {A : Type 0} → Option A → Option A → Option A
later none earlier = earlier
later (some a) earlier = some a

abbrev pub after : {A : Type 0} → Option A → A → A
after none a = a
after (some b) a = b

-- What the last of some policies that says anything says.
abbrev pub last_word : {F A : Type 0} → (Action → Option A) → List (Policy F) → Option A
last_word says [] = none
last_word says (p ∷ ps) = later (last_word says ps) (says p.action)

after-later : {A : Type 0} (x y : Option A) (a : A) → after (later x y) a ≡ after x (after y a)
after-later none y a = refl
after-later (some b) y a = refl

-- The decision with other values where a policy may write.
abbrev pub rewritten : {F V : Type 0} → String → List String → Bool → Decision F V → Decision F V
rewritten owner constraints required d = record d {
  owner = owner;
  constraints = constraints;
  approval_required = required;
}

-- A policy stands before those of lower and of equal priority.
abbrev pub before : {F : Type 0} → Policy F → Policy F → Bool
before p q = leb q.priority p.priority

module _ {F V : Type 0} (floats : Floats F) (vals : Values V) (d d' : Decision F V)
    (priority : d'.priority ≡ d.priority) (category : d'.category ≡ d.category)
    (risk_score : d'.risk_score ≡ d.risk_score) (context : d'.context ≡ d.context) where
  condition-same :
      (c : Condition F) → condition_holds floats vals c d' ≡ condition_holds floats vals c d
  unfolding condition_holds
  condition-same (Condition.min_priority n) = rw priority refl
  condition-same (Condition.max_priority n) = rw priority refl
  condition-same (Condition.of_category n) = rw category refl
  condition-same (Condition.risk_max n) = rw risk_score refl
  condition-same (Condition.unknown n) = refl

  all_hold-same : (cs : List (Condition F)) → all_hold floats vals cs d' ≡ all_hold floats vals cs d
  unfolding all_hold
  all_hold-same [] = refl
  all_hold-same (c ∷ cs) = rw (condition-same c, all_hold-same cs) refl

  -- Whether a policy applies depends on a decision's priority, category, risk and context only.
  pub applies_to-same : (p : Policy F) → applies_to floats vals p d' ≡ applies_to floats vals p d
  unfolding applies_to in_scope
  applies_to-same p = rw (all_hold-same p.conditions, category, context) refl

module _ {F V : Type 0} (floats : Floats F) (vals : Values V) (d : Decision F V) where
  abbrev pub applies : Policy F → Bool
  applies p = applies_to floats vals p d

  applies_to-rewritten :
      (o : String) (cs : List String) (b : Bool) (p : Policy F)
      → applies_to floats vals p (rewritten o cs b d) ≡ applies p
  applies_to-rewritten o cs b =
      applies_to-same floats vals d (rewritten o cs b d) refl refl refl refl

  take_action-words :
      (name o : String) (cs : List String) (b : Bool) (a : Action)
      → (cs' : List String) × ((take_action floats vals name a (rewritten o cs b d)).0
          ≡ rewritten (after (says_owner a) o) cs' (after (says_approval a) b) d)
  unfolding take_action
  take_action-words name o cs b Action.require_approval = (cs, refl)
  take_action-words name o cs b Action.auto_approve = (cs, refl)
  take_action-words name o cs b (Action.add_constraint c) = elim (Bool-cases (c == "")) [
    | inl e ↦ (cs, rw e refl)
    | inr e ↦ (cs ++ c ∷ [], rw e refl)
  ]
  take_action-words name o cs b (Action.set_owner owner) = elim (Bool-cases (owner == "")) [
    | inl e ↦ (cs, rw e refl)
    | inr e ↦ (cs, rw e refl)
  ]
  take_action-words name o cs b Action.escalate = (cs, refl)
  take_action-words name o cs b Action.unknown = (cs, refl)

  enforce_all-words :
      (ps : List (Policy F)) (o : String) (cs : List String) (b : Bool)
      → (cs' : List String) × ((enforce_all floats vals ps (rewritten o cs b d)).0
          ≡ rewritten
              (after (last_word says_owner (keep applies ps)) o)
              cs'
              (after (last_word says_approval (keep applies ps)) b)
              d)
  unfolding enforce_all enforce_policy
  enforce_all-words [] o cs b = (cs, refl)
  enforce_all-words (p ∷ ps) o cs b = elim (Bool-cases (applies p)) [
    | inl e ↦
        let (cs', acted) = take_action-words p.name o cs b p.action in
        let (cs'', rest) =
          enforce_all-words ps (after (says_owner p.action) o) cs'
            (after (says_approval p.action) b) in
        (
          cs'',
          rw
              (
                applies_to-rewritten o cs b p,
                e,
                acted,
                rest,
                after-later (last_word says_owner (keep applies ps)) (says_owner p.action) o,
                after-later (last_word says_approval (keep applies ps)) (says_approval p.action) b,
              )
              refl,
        )
    | inr e ↦
        let (cs', rest) = enforce_all-words ps o cs b in
        (cs', rw (applies_to-rewritten o cs b p, e) rest)
  ]

  -- Enforcing policies changes at most a decision's owner, its constraints and whether it requires
  -- approval. Policies act in a rearrangement of theirs by falling priority, and of those that apply
  -- to the decision as it came, the last one that says whether approval is required decides that,
  -- and the last one that names an owner decides that: of two such, the one of lower priority.
  pub last_policy_decides :
      (policies : Policies F)
      → Perm (sorted_policies policies) (values policies)
        × IsSortedBy before (sorted_policies policies)
        × ((constraints : List String) × ((enforce floats vals policies d).0
              ≡ rewritten
                  (after (last_word says_owner (keep applies (sorted_policies policies))) d.owner)
                  constraints
                  (after
                    (last_word says_approval (keep applies (sorted_policies policies)))
                    d.approval_required)
                  d))
  unfolding sorted_policies enforce
  last_policy_decides policies = (
    sort_by-perm before (values policies),
    sort_by-IsSortedBy before (λ p q e. ground arith) (λ p q r e f. ground arith) (values policies),
    enforce_all-words (sorted_policies policies) d.owner d.constraints d.approval_required,
  )
