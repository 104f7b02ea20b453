-- ===== src/Decision/Engine.antt =====
-- src/ai_company/decision/engine.py: DecisionEngine. Its clock is an argument, the text of a new id a
-- parameter, and a priority or a category is given as a member of its enumeration.
pub mod Create
pub mod Index
pub mod Steps
use ai_enterprise_os.Prelude.{
  ℕ, ◌+◌, String, Bool, true, false, ◌&&◌, Option, none, some, List, [], ◌∷◌, ◌++◌, ◌==◌,
  if◌then◌else◌,
}
use ai_enterprise_os.Dict.{Dict, insert}
use ai_enterprise_os.Decision.Models.{
  Floats, Values, DecisionStatus, DecisionPriority, DecisionCategory, Decision,
}
use ai_enterprise_os.Decision.Risk.{RiskFactor, calculate, identify_factors}
use ai_enterprise_os.Decision.Approval.{
  ApprovalMatrix, is_approval_required, determine_path, next_level,
}
use ai_enterprise_os.Decision.Policy.{Policies, enforce}
use ai_enterprise_os.Decision.History.{Ref, Heap, DecisionHistory, write, record_decision, get}

pub record DecisionEngine (F V : Type 0) : Type 0 where
  pub approval_matrix : ApprovalMatrix F V
  pub approval_hierarchy : Dict String
  pub factors : List (RiskFactor F)
  pub policies : Policies F
  pub history : DecisionHistory F V
  pub decision_counter : ℕ

-- An engine with the heap of decisions, of which `next` is the first free place.
pub record State (F V : Type 0) : Type 0 where
  pub engine : DecisionEngine F V
  pub heap : Heap F V
  pub next : Ref

pub record Request (V : Type 0) : Type 0 where
  pub title : String
  pub description : String
  pub category : DecisionCategory
  pub priority : DecisionPriority
  pub requester : String
  pub owner : String
  pub stakeholders : List String
  pub options : List (Dict V)
  pub context : Dict V
  pub tags : List String
  pub metadata : Dict V

-- `not approved_by`
abbrev pub is_blank : Option String → Bool
is_blank none = true
is_blank (some s) = s == ""

abbrev pub or_else : Option ℕ → ℕ → ℕ
or_else none n = n
or_else (some m) n = m

module _ {F V : Type 0} where
  -- The decision is changed in place, and recorded.
  unfoldable pub save : Ref → Decision F V → ℕ → State F V → State F V
  save r d now s =
      let heap = write r d s.heap in
      record s {
        heap = heap;
        engine = record (s.engine) { history = record_decision heap r now s.engine.history };
      }

  unfoldable pub get_decision : String → State F V → Option Ref
  get_decision id s = get id s.engine.history

  unfoldable pub resolve : String → String → Option String → ℕ → ℕ → Decision F V → Decision F V
  resolve option rationale approved_by now later d = record d {
    selected_option = some option;
    rationale = some rationale;
    approved_by = approved_by;
    updated_at = some now;
    resolved_at = some later;
    status =
        if d.approval_required && is_blank approved_by
        then DecisionStatus.escalated
        else DecisionStatus.approved;
  }

module _ {V : Type 0} (vals : Values V) where
  unfoldable pub with_note : String → Dict V → Dict V
  with_note note metadata =
      if note == "" then metadata else insert "escalation_note" (vals.text note) metadata

  unfoldable pub until : Option String → Dict V → Dict V
  until none metadata = metadata
  until (some time) metadata =
      if time == "" then metadata else insert "defer_until" (vals.text time) metadata

module _ {F V : Type 0} (vals : Values V) where
  unfoldable pub escalate : Ref → String → ℕ → State F V → State F V
  escalate r note now s =
      let d : Decision F V = s.heap r in
      save r
        (record d {
          status = DecisionStatus.escalated;
          updated_at = some now;
          metadata = with_note vals note d.metadata;
          escalation_path = d.escalation_path ++ next_level d.owner d.escalation_path ∷ [];
        })
        now s

  unfoldable pub defer : Ref → String → Option String → ℕ → State F V → State F V
  defer r reason time now s =
      let d : Decision F V = s.heap r in
      save r
        (record d {
          status = DecisionStatus.deferred;
          updated_at = some now;
          metadata = until vals time (insert "defer_reason" (vals.text reason) d.metadata);
        })
        now s

  unfoldable pub cancel : Ref → String → ℕ → State F V → State F V
  cancel r reason now s =
      let d : Decision F V = s.heap r in
      save r
        (record d {
          status = DecisionStatus.cancelled;
          updated_at = some now;
          metadata = insert "cancel_reason" (vals.text reason) d.metadata;
        })
        now s

  unfoldable pub reject : Ref → String → ℕ → State F V → State F V
  reject r reason now s =
      let d : Decision F V = s.heap r in
      save r
        (record d {
          status = DecisionStatus.rejected;
          updated_at = some now;
          resolved_at = some (or_else d.resolved_at now);
          metadata = insert "reject_reason" (vals.text reason) d.metadata;
        })
        now s

module _ {F V : Type 0} where
  -- `Decision(id=decision_id, ...)`
  abbrev pub new_decision : String → ℕ → Request V → Decision F V
  new_decision id now q = record {
    id = id;
    title = q.title;
    description = q.description;
    category = q.category;
    priority = q.priority;
    status = DecisionStatus.pending;
    requester = q.requester;
    owner = q.owner;
    stakeholders = q.stakeholders;
    options = q.options;
    selected_option = none;
    rationale = none;
    risk_score = none;
    risk_factors = [];
    approval_required = true;
    approved_by = none;
    escalation_path = [];
    tags = q.tags;
    created_at = now;
    updated_at = none;
    resolved_at = none;
    metadata = q.metadata;
    context = q.context;
    constraints = [];
    dependents = [];
  }

  -- The rest of `create_decision`, once the path is known; without one, the loop did not end.
  unfoldable pub file_decision :
      Decision F V → ℕ → State F V → Option (List String) → Option (State F V × Ref)
  file_decision d now s none = none
  file_decision d now s (some path) =
      let filed : State F V = save s.next (record d { escalation_path = path }) now s in
      some (record filed { next = s.next + 1 }, s.next)

module _ {F V : Type 0} (floats : Floats F) (vals : Values V) where
  unfoldable pub make_decision :
      Ref → String → String → Option String → ℕ → ℕ → State F V → State F V
  make_decision r option rationale approved_by now later s =
      save r
        (enforce floats vals s.engine.policies
          (resolve option rationale approved_by now later (s.heap r))).0
        later s

  -- The risk score, its factors, and whether approval is required: the rules read the score.
  unfoldable pub assess : DecisionEngine F V → Decision F V → Decision F V
  assess e d =
      let scored : Decision F V = record d {
        risk_score = some (calculate floats vals e.factors d);
        risk_factors = identify_factors floats vals e.factors d;
      } in
      record scored {
        approval_required = is_approval_required floats vals e.approval_matrix scored;
      }

  unfoldable pub create_decision :
      (ℕ → ℕ → String) → ℕ → Request V → ℕ → State F V → Option (State F V × Ref)
  create_decision new_id fuel q now s =
      let counter = s.engine.decision_counter + 1 in
      let e : DecisionEngine F V = record (s.engine) { decision_counter = counter } in
      let d = assess e (new_decision (new_id now counter) now q) in
      file_decision d now (record s { engine = e }) (determine_path fuel e.approval_hierarchy d)
