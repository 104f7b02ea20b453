-- ===== src/Decision/Engine/Create.antt =====
-- Creating a decision: where it ends, with what, and where it does not.
use ai_enterprise_os.Prelude.{
  ℕ, suc, ◌+◌, String, ◌≡◌, refl, sym, ap, Bool, true, false, none, some, List, [], ◌∷◌, ◌++◌, eqb,
}
use ai_enterprise_os.Decision.Models.{Floats, Values, DecisionStatus, Decision}
use ai_enterprise_os.Decision.Approval.{start_role, is_approval_required}
use ai_enterprise_os.Decision.Approval.Paths.{
  Climbs, IsRanked, IsRound, determine_path_returns, determine_path_never,
}
use ai_enterprise_os.Decision.Approval.Rules.{approval_by-same}
use ai_enterprise_os.Decision.History.{Ref}
use ai_enterprise_os.Decision.Engine.{
  DecisionEngine, State, Request, get_decision, save, file_decision, new_decision, assess,
  create_decision,
}
use ai_enterprise_os.Decision.Engine.Steps.{save-here, recorded}

module _ {F V : Type 0} (floats : Floats F) (vals : Values V) (new_id : ℕ → ℕ → String)
    (q : Request V) (now : ℕ) (s : State F V) where
  abbrev counted : DecisionEngine F V
  counted = record (s.engine) { decision_counter = s.engine.decision_counter + 1 }

  abbrev pub id_of : String
  id_of = new_id now (s.engine.decision_counter + 1)

  abbrev assessed : Decision F V
  assessed = assess floats vals counted (new_decision id_of now q)

  -- What creating a decision leaves: the new object has the id, is PENDING, with the path, and asks
  -- for approval as the matrix says of it; the index gives it, the history has one entry more, which
  -- is of that object as it is, and the other decisions are as they were.
  abbrev pub Created : List String → State F V → Type 0
  Created path s' =
      let d : Decision F V = s'.heap s.next in
      (d.id ≡ id_of)
      × (d.status ≡ DecisionStatus.pending)
      × (d.escalation_path ≡ path)
      × (d.approval_required ≡ is_approval_required floats vals s.engine.approval_matrix d)
      × (get_decision id_of s' ≡ some s.next)
      × (s'.engine.history.entries
          ≡ s.engine.history.entries
            ++ record { object = s.next; copied = d; recorded_at = now } ∷ [])
      × ((r : Ref) → eqb s.next r ≡ false → s'.heap r ≡ s.heap r)

  -- Where no role of the hierarchy is above itself, as ranks show, creating a decision ends, within as
  -- many passes of its loop as the rank of the owner's role and one: the path leads from the owner,
  -- or from "requester" without one, from each role to its superior, up to one that has none. The new
  -- decision is PENDING, with that path, and requires approval as the matrix says of it; the index
  -- gives it for its id, the history has one entry more, of that decision as it is, and no other decision
  -- changes.
  pub create_decision_returns :
      (rank : String → ℕ)
      → IsRanked s.engine.approval_hierarchy rank
      → (path : List String) × (s' : State F V) × (create_decision floats vals new_id
            (suc (rank (start_role q.owner)))
            q
            now
            s
          ≡ some (s', s.next))
        × Climbs s.engine.approval_hierarchy (start_role q.owner) path
        × Created path s'
  unfolding create_decision file_decision assess
  create_decision_returns rank ranked =
      let (path, found, way) =
        determine_path_returns s.engine.approval_hierarchy rank ranked assessed in
      let d = record assessed { escalation_path = path } in
      let made = save s.next d now (record s { engine = counted }) in
      let (here, got, more, others) = save-here s.next d now (record s { engine = counted }) in
      let says =
        approval_by-same floats vals (record d { approval_required = true; escalation_path = [] }) d
          refl refl refl refl s.engine.approval_matrix.rules in
      (
        path,
        record made { next = s.next + 1 },
        rw found refl,
        way,
        (
          ap (λ x. x.id) here,
          ap (λ x. x.status) here,
          ap (λ x. x.escalation_path) here,
          rw here (unfold is_approval_required in sym says),
          unfold get_decision in got,
          recorded s.next d now (record s { engine = counted }),
          others,
        ),
      )

  -- Where the superiors of some roles are all among those roles, and the owner's role, or "requester"
  -- without an owner, is one of them, creating a decision does not end: no number of passes of its
  -- loop is enough.
  pub create_decision_never :
      (inside : String → Bool)
      → IsRound s.engine.approval_hierarchy inside
      → inside (start_role q.owner) ≡ true
      → (fuel : ℕ) → create_decision floats vals new_id fuel q now s ≡ none
  unfolding create_decision file_decision assess
  create_decision_never inside round e fuel =
      let never = determine_path_never s.engine.approval_hierarchy inside round assessed e fuel in
      rw never refl
