-- ===== src/Decision/Engine/Index.antt =====
-- The index and the history stay in step with the decisions.
use text.Mathlib.TextPositions.{eq_refl}
use ai_enterprise_os.Prelude.{
  All-snoc, All-mono, ℕ, ◌+◌, ◌<◌, ◌≤◌, String, ◌≡◌, refl, sym, ap, subst, ◌⊎◌, ◌∙◌, true, Option,
  none, some, List, ◌==◌, eq_iff, arith, Bool-cases, inl, inr, ◌↔◌, eqb, All,
}
use ai_enterprise_os.Dict.{Dict, has, lookup, insert, lookup-insert, has-insert}
use ai_enterprise_os.Decision.Models.{Floats, Values, Decision}
use ai_enterprise_os.Decision.Policy.{Policies, enforce}
use ai_enterprise_os.Decision.Policy.Order.{last_policy_decides}
use ai_enterprise_os.Decision.History.{Ref, Heap, Entry, DecisionHistory, write, record_decision}
use ai_enterprise_os.Decision.Engine.{
  State, Request, save, resolve, escalate, defer, cancel, reject, make_decision, create_decision,
  file_decision,
}

eqb_iff : (a b : ℕ) → (eqb a b ≡ true) ↔ (a ≡ b)
eqb_iff a b = (λ e. ground arith, λ e. ground arith)

-- What is found after an insertion was inserted, or was there.
lookup-insert-cases :
    {V : Type 0} (k j : String) (v w : V) (d : Dict V)
    → lookup j (insert k v d) ≡ some w
    → ((k ≡ j) × (v ≡ w)) ⊎ (lookup j d ≡ some w)
lookup-insert-cases k j v w d e = elim (Bool-cases (k == j)) [
  | inl f ↦ inl ((eq_iff k j).0 f, ground (arith, lookup-insert k j v d))
  | inr f ↦ inr (ground (arith, lookup-insert k j v d))
]

module _ {F V : Type 0} where
  -- An entry is of an object that is there, whose id has not changed and is in the index.
  abbrev pub IsShown : Heap F V → DecisionHistory F V → ℕ → Entry F V → Type 0
  IsShown heap h n e =
      (e.object < n) × ((heap e.object).id ≡ e.copied.id) × (has e.copied.id h.decisions ≡ true)

  -- The index gives, for each id, an object that is there and has that id, and knows every id that
  -- the history shows.
  pub record IsIndexed (heap : Heap F V) (h : DecisionHistory F V) (n : ℕ) : Type 0 where
    pub indexed :
        (id : String) (r : Ref) → lookup id h.decisions ≡ some r → (r < n) × ((heap r).id ≡ id)
    pub shown : All (IsShown heap h n) h.entries

  abbrev pub IsIndexedState : State F V → Type 0
  IsIndexedState s = IsIndexed s.heap s.engine.history s.next

  module _ (heap : Heap F V) (h : DecisionHistory F V) (m n r : ℕ) (d : Decision F V)
      (c : IsIndexed heap h m) (below : m ≤ n) (small : r < n)
      (same : r < m → d.id ≡ (heap r).id) where
    write-id : (q : Ref) → q < m → (write r d heap q).id ≡ (heap q).id
    write-id q e = elim (Bool-cases (eqb r q)) [
      | inl f ↦
          rw f (same (omega (arith, (eqb_iff r q).0 f)) ∙ ap (λ x. (heap x).id) ((eqb_iff r q).0 f))
      | inr f ↦ rw f refl
    ]

    write-here : (write r d heap r).id ≡ d.id
    write-here = rw ((eqb_iff r r).1 refl) refl

    record-IsIndexed :
        (now : ℕ) → IsIndexed (write r d heap) (record_decision (write r d heap) r now h) n
    unfolding record_decision
    record-IsIndexed now = record {
      indexed = λ id q e. elim (lookup-insert-cases ((write r d heap r).id) id r q h.decisions e) [
        | inl (k, v) ↦ (subst (λ x. x < n) v small, ap (λ x. (write r d heap x).id) (sym v) ∙ k)
        | inr old ↦
            let (small', known) = c.indexed id q old in
            (omega (arith, small'), write-id q small' ∙ known)
      ];
      shown =
          All-snoc _ h.entries _
            (All-mono _ _
              (λ e old. (
                omega (arith, old.0),
                write-id e.object old.0 ∙ old.1,
                ground (arith, old.2, has-insert ((write r d heap r).id) e.copied.id r h.decisions),
              ))
              h.entries c.shown)
            (
              small,
              refl,
              ground (
                arith,
                has-insert ((write r d heap r).id) ((write r d heap r).id) r h.decisions,
                eq_refl ((write r d heap r).id),
              ),
            );
    }

  save-IsIndexed :
      (s : State F V) (r : Ref) (d : Decision F V) (now : ℕ)
      → IsIndexedState s
      → r < s.next
      → d.id ≡ (s.heap r).id
      → IsIndexedState (save r d now s)
  unfolding save
  save-IsIndexed s r d now c small same =
      record-IsIndexed s.heap s.engine.history s.next s.next r d c (omega arith) small (λ _. same)
        now

  file_decision-IsIndexed :
      (s : State F V) (d : Decision F V) (now : ℕ) (path : Option (List String)) (s' : State F V)
      (r : Ref)
      → IsIndexedState s
      → file_decision d now s path ≡ some (s', r)
      → IsIndexedState s' × (r ≡ s.next) × (r < s'.next)
  unfolding file_decision save
  file_decision-IsIndexed s d now none s' r c e = cc
  file_decision-IsIndexed s d now (some path) s' r c e =
      let made =
        record-IsIndexed s.heap s.engine.history s.next (s.next + 1) s.next
          (record d { escalation_path = path }) c (omega arith) (omega arith)
          (λ less. absurd (omega (arith, less))) now in
      let filed : State F V = save s.next (record d { escalation_path = path }) now s in
      let new : State F V × Ref = (record filed { next = s.next + 1 }, s.next) in
      let same : new ≡ (s', r) = cc in
      subst (λ p. IsIndexedState p.0 × (p.1 ≡ s.next) × (p.1 < p.0.next)) same
        (made, refl, omega arith)

module _ {F V : Type 0} (floats : Floats F) (vals : Values V) where
  enforce-id :
      (policies : Policies F) (d : Decision F V) → (enforce floats vals policies d).0.id ≡ d.id
  enforce-id policies d =
      let (constraints, e) = (last_policy_decides floats vals d policies).2 in ap (λ x. x.id) e

  -- Creating a decision, where that returns, and making, escalating, deferring, cancelling and
  -- rejecting one that is there, keep index and history in step with the decisions: the index gives
  -- for an id an object that is there and has that id, every entry of the history is of an object
  -- that is there, with the id it had then, and the index knows that id. What is created is a new
  -- object.
  pub operations-IsIndexed :
      (s : State F V) (r : Ref) (now later : ℕ)
      → IsIndexedState s
      → r < s.next
      → ((option rationale : String) (approved_by : Option String)
          → IsIndexedState (make_decision floats vals r option rationale approved_by now later s))
        × ((note : String) → IsIndexedState (escalate vals r note now s))
        × ((reason : String) (time : Option String)
            → IsIndexedState (defer vals r reason time now s))
        × ((reason : String) → IsIndexedState (cancel vals r reason now s))
        × ((reason : String) → IsIndexedState (reject vals r reason now s))
        × ((new_id : ℕ → ℕ → String) (fuel : ℕ) (q : Request V) (s' : State F V) (r' : Ref)
            → create_decision floats vals new_id fuel q now s ≡ some (s', r')
            → IsIndexedState s' × (r' ≡ s.next) × (r' < s'.next))
  unfolding make_decision escalate defer cancel reject create_decision resolve
  operations-IsIndexed s r now later c small = (
    λ option rationale approved_by.
        save-IsIndexed s r _ later c small (
          enforce-id s.engine.policies (resolve option rationale approved_by now later (s.heap r))),
    λ note. save-IsIndexed s r _ now c small refl,
    λ reason time. save-IsIndexed s r _ now c small refl,
    λ reason. save-IsIndexed s r _ now c small refl,
    λ reason. save-IsIndexed s r _ now c small refl,
    λ new_id fuel q s' r' e. file_decision-IsIndexed _ _ now _ s' r' c e,
  )
