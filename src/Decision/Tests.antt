-- ===== src/Decision/Tests.antt =====
-- The decision engine at concrete inputs: floats are thousandths, and the values of a dictionary are
-- texts.
use mathlib.Core.List.{Perm}
use ai_enterprise_os.Prelude.{
  ok, ℕ, ◌+◌, ◌*◌, ◌/◌, String, ◌≡◌, refl, Bool, true, false, ◌||◌, Option, none, some, List, [],
  ◌∷◌, ◌==◌, eq_iff, arith, if◌then◌else◌, ltb, eqb, subst, ◌<◌, Bool-cases, inl, inr, IsSortedBy,
  insert_by, sort_by,
}
use ai_enterprise_os.Dict.{Dict, lookup, values}
use ai_enterprise_os.Decision.Models.{
  Floats, Values, DecisionStatus, DecisionPriority, DecisionCategory, Decision,
}
use ai_enterprise_os.Decision.Approval.{ApprovalRule, ApprovalMatrix, next_level, level_above}
use ai_enterprise_os.Decision.Approval.Paths.{Climbs, IsRanked, IsRound}
use ai_enterprise_os.Decision.Policy.{
  Condition, applies_to, in_scope, all_hold, condition_holds, Action, Policy, Policies,
  sorted_policies, enforce,
}
use ai_enterprise_os.Decision.Policy.Order.{last_policy_decides, before, rewritten}
use ai_enterprise_os.Decision.History.{
  DecisionHistory, Heap, Texts, Filters, query, selected, get_all,
}
use ai_enterprise_os.Decision.Engine.{
  State, Request, new_decision, make_decision, create_decision, escalate,
}
use ai_enterprise_os.Decision.Engine.Create.{
  Created, create_decision_returns, create_decision_never,
}
use ai_enterprise_os.Decision.Engine.Index.{IsIndexedState, operations-IsIndexed}
use ai_enterprise_os.Decision.Engine.Steps.{escalate_again, make_decision_lem}

abbrev floats : Floats ℕ
floats = record {
  tenths = λ n. n * 100;
  add = λ a b. a + b;
  mul = λ a b. a * b / 1000;
  div = λ a b. a * 1000 / b;
  min = λ a b. if ltb a b then a else b;
  gt = λ a b. ltb b a;
  is_zero = λ a. eqb a 0;
}

abbrev same_text : Option String → String → Bool
same_text none v = false
same_text (some w) v = w == v

abbrev texts : Values String
texts = record { text = λ s. s; same = same_text; exceeds = λ v n. false; lists = λ v name. false }

abbrev purchase : Request String
purchase = record {
  title = "Buy servers";
  description = "Four of them";
  category = DecisionCategory.financial;
  priority = DecisionPriority.high;
  requester = "ops";
  owner = "dev";
  stakeholders = [];
  options = [];
  context = [];
  tags = "infra" ∷ [];
  metadata = [];
}

abbrev bought : Decision ℕ String
bought = record (new_decision "d1" 5 purchase) {
  approval_required = false;
  escalation_path = "dev" ∷ "lead" ∷ "board" ∷ [];
}

abbrev ladder : Dict String
ladder = ("dev", "lead") ∷ ("lead", "board") ∷ []

abbrev rung : String → ℕ
rung role = if role == "dev" then 2 else if role == "lead" then 1 else 0

ladder-IsRanked : IsRanked ladder rung
unfolding lookup
ladder-IsRanked role next e = elim (Bool-cases ("dev" == role)) [
  | inl f ↦
      let superior : "lead" ≡ next = ground arith in
      subst (λ r. rung next < rung r) ((eq_iff "dev" role).0 f)
        (subst (λ n. rung n < 2) superior (omega arith))
  | inr f ↦ elim (Bool-cases ("lead" == role)) [
    | inl g ↦
        let superior : "board" ≡ next = ground arith in
        subst (λ r. rung next < rung r) ((eq_iff "lead" role).0 g)
          (subst (λ n. rung n < 1) superior (omega arith))
    | inr g ↦ absurd (ground arith)
  ]
]

abbrev round : Dict String
round = ("dev", "lead") ∷ ("lead", "dev") ∷ []

abbrev in_round : String → Bool
in_round role = role == "dev" || role == "lead"

round-IsRound : IsRound round in_round
unfolding lookup
round-IsRound role e = elim (Bool-cases ("dev" == role)) [
  | inl f ↦ ("lead", rw f refl, refl)
  | inr f ↦ (
    "dev",
    ground (arith, eq_iff "dev" role, eq_iff "lead" role, eq_iff role "lead", eq_iff role "dev"),
    refl,
  )
]

-- Purchases of high priority need the finance role; a later rule would approve them all.
abbrev strict : ApprovalRule ℕ String
strict = record {
  rule_id = "r1";
  category = some "financial";
  min_priority = 3;
  max_risk_score = 1000;
  requires_approval = true;
  approver_role = "cfo";
  auto_approve = false;
  conditions = [];
}

abbrev rules : ApprovalMatrix ℕ String
rules = record {
  rules = strict ∷ record strict { category = none; requires_approval = false } ∷ [];
  default_approver = "board";
}

abbrev guard : Policy ℕ
guard = record {
  policy_id = "p1";
  name = "guard";
  scope = "global";
  enabled = true;
  priority = 9;
  conditions = Condition.min_priority 2 ∷ [];
  action = Action.require_approval;
}

-- Two policies apply: the guard of priority 9, and one of priority 1 that approves automatically.
abbrev policies : Policies ℕ
policies =
    ("p2", record guard { policy_id = "p2"; priority = 1; action = Action.auto_approve })
    ∷ ("p1", guard)
    ∷ []

last_policy_decides_example :
    Perm (sorted_policies policies) (values policies)
    × IsSortedBy before (sorted_policies policies)
    × ((constraints : List String) × ((enforce floats texts policies bought).0
          ≡ rewritten "dev" constraints false bought))
unfolding sorted_policies insert_by sort_by applies_to in_scope all_hold condition_holds
last_policy_decides_example = last_policy_decides floats texts bought policies

abbrev history : DecisionHistory ℕ String
history = record { decisions = ("d1", 0) ∷ []; entries = [] }

abbrev heap : Heap ℕ String
heap r = bought

-- Every date is the time 0, as far as the test goes.
abbrev python : Texts
python = record { lower = λ s. s; fromisoformat = λ date. ok 0 }

abbrev filters : Filters
filters = record {
  status = none;
  category = some "financial";
  owner = none;
  requester = none;
  priority = some "HIGH";
  tags = "infra" ∷ [];
  start_date = some "2026-01-01";
  end_date = none;
}

-- The decision is found, as it answers to the filters.
query_finds : query python filters 10 heap history ≡ ok (bought ∷ [])
unfolding query selected get_all sort_by
query_finds = refl

abbrev state : State ℕ String
state = record {
  engine = record {
    approval_matrix = rules;
    approval_hierarchy = ladder;
    factors = [];
    policies = ("p1", guard) ∷ [];
    history = history;
    decision_counter = 1;
  };
  heap = heap;
  next = 1;
}

state-IsIndexed : IsIndexedState state
unfolding lookup
state-IsIndexed = record {
  indexed = λ id r e. elim (Bool-cases ("d1" == id)) [
    | inl f ↦
        let here : 0 ≡ r = ground arith in
        (subst (λ q. q < 1) here (omega arith), (eq_iff "d1" id).0 f)
    | inr f ↦ absurd (ground arith)
  ];
  shown = tt;
}

operations-IsIndexed_example :
    IsIndexedState (make_decision floats texts 0 "a" "cheap" (some "cfo") 6 7 state)
operations-IsIndexed_example =
    (operations-IsIndexed floats texts state 0 6 7 state-IsIndexed (omega arith)).0 "a" "cheap"
      (some "cfo")

escalate_again_example :
    ((escalate texts 0 "" 8 state).heap 0).escalation_path ≡ "dev" ∷ "lead" ∷ "board" ∷ "lead" ∷ []
unfolding next_level level_above
escalate_again_example = (escalate_again texts 0 state "" "" 8 9).0

-- Nobody approved and the guard demands approval, but the decision is APPROVED: it demanded none.
make_decision_lem_example :
    ((make_decision floats texts 0 "a" "cheap" none 6 7 state).heap 0).status
    ≡ DecisionStatus.approved
make_decision_lem_example = (make_decision_lem floats texts 0 "a" "cheap" none 6 7 state).0

guard_too_late :
    ((make_decision floats texts 0 "a" "cheap" none 6 7 state).heap 0).approval_required ≡ true
unfolding sorted_policies insert_by sort_by applies_to in_scope all_hold condition_holds
guard_too_late = (make_decision_lem floats texts 0 "a" "cheap" none 6 7 state).1

create_decision_returns_example :
    (path : List String) × (s' : State ℕ String) × (create_decision floats texts
        (λ now counter. "d2")
        3
        purchase
        6
        state
      ≡ some (s', 1))
    × Climbs ladder "dev" path
    × Created floats texts (λ now counter. "d2") purchase 6 state path s'
create_decision_returns_example =
    create_decision_returns floats texts (λ now counter. "d2") purchase 6 state rung ladder-IsRanked

abbrev turning : State ℕ String
turning = record state { engine = record (state.engine) { approval_hierarchy = round } }

create_decision_never_example :
    create_decision floats texts (λ now counter. "d2") 1000 purchase 6 turning ≡ none
create_decision_never_example =
    create_decision_never floats texts (λ now counter. "d2") purchase 6 turning in_round
      round-IsRound refl 1000
