-- ===== src/Workflow/StateMachine/Moves.antt =====
-- What the state machine's moves guarantee once its definition was accepted.
use ai_enterprise_os.Prelude.{
  subst, >>=-ok, String, ◌≡◌, refl, Bool, true, false, Option, none, some, List, [], ◌∷◌,
  if◌then◌else◌, ◌==◌, ok, arith, Bool-cases, ◌⊎◌, inl, inr, All, is_ok,
}
use ai_enterprise_os.Dict.{Dict, has, lookup, lookup-some_of_has}
use ai_enterprise_os.Workflow.Models.{
  WorkflowStateType, action, approval, wait, Transition, WorkflowState, WorkflowDefinition,
  WorkflowContext, check_states, check_targets, is_terminal, validate_state,
}
use ai_enterprise_os.Workflow.StateMachine.{
  Python, TransitionResult, StateMachine, no_valid_transition, state_machine, get_state, enter,
  evaluate_condition, first_transition, evaluate_transitions, plain, in_terminal_state,
}

abbrev pub target : Transition → String
target t = t.to

-- The transition that an evaluation takes: the first whose condition holds.
abbrev pub first_match : (Transition → Bool) → List Transition → Option Transition
first_match p [] = none
first_match p (t ∷ ts) = if p t then some t else first_match p ts

module _ {V : Type 0} where
  -- Every transition leads to a state of the definition.
  abbrev pub Known : Dict (WorkflowState V) → List Transition → Type 0
  Known states = All (λ (t : Transition). has t.to states ≡ true)

  check_targets-Known :
      (states : Dict (WorkflowState V)) (sid : String) (ts : List Transition) (u : Unit {0})
      → check_targets states sid ts ≡ ok u
      → Known states ts
  unfolding check_targets
  check_targets-Known states sid [] u h = tt
  check_targets-Known states sid (t ∷ ts) u h = elim (Bool-cases (has t.to states)) [
    | inl e ↦ (e, check_targets-Known states sid ts u (rw e at h))
    | inr e ↦ absurd (ground arith)
  ]

  check_states-Known :
      (states part : Dict (WorkflowState V)) (k : String) (s : WorkflowState V) (u : Unit {0})
      → check_states states part ≡ ok u
      → lookup k part ≡ some s
      → Known states s.transitions
  unfolding check_states lookup
  check_states-Known states [] k s u h e = absurd (ground arith)
  check_states-Known states ((j, r) ∷ part) k s u h e =
      let (w, here, rest) = >>=-ok (check_targets states j r.transitions) _ u h in
      elim (Bool-cases (j == k)) [
        | inl q ↦
            let e' : some r ≡ some s = rw q at e in
            let same : r ≡ s = cc in
            subst (λ x. Known states x.transitions) same
              (check_targets-Known states j r.transitions w here)
        | inr q ↦ check_states-Known states part k s u rest (rw q at e)
      ]

  -- Every state of an accepted machine has transitions to states of the machine only.
  pub state_machine-Known :
      (d : WorkflowDefinition V) (m : StateMachine V) (k : String) (s : WorkflowState V)
      → state_machine d ≡ ok m
      → lookup k m.states ≡ some s
      → Known m.states s.transitions
  unfolding state_machine
  state_machine-Known d m k s h e = elim (Bool-cases (has d.initial_state d.states)) [
    | inl q ↦
        let (u, checked, made) =
          >>=-ok (check_states d.states d.states) (λ _. ok (record { definition = d })) m
            (rw q at h) in
        let same : d ≡ m.definition = cc made in
        subst (λ x. Known x.states s.transitions) same
          (check_states-Known d.states d.states k s u checked (rw same e))
    | inr q ↦ absurd (ground arith)
  ]

  -- `states[t.to]` is entered, for the transition that was chosen.
  abbrev pub Enters : StateMachine V → Option Transition → String → TransitionResult V → Type 0
  Enters m none current r = r ≡ plain false none (some (no_valid_transition current))
  Enters m (some t) current r =
      (s : WorkflowState V) × (lookup t.to m.states ≡ some s) × (r ≡ enter t.to s)

  get_state-known :
      (m : StateMachine V) (k : String)
      → has k m.states ≡ true
      → (s : WorkflowState V) × (lookup k m.states ≡ some s) × (get_state m k ≡ ok s)
  unfolding get_state
  get_state-known m k h = let (s, e) = lookup-some_of_has k m.states h in (s, e, rw e refl)

module _ {V : Type 0} (py : Python V) (context : WorkflowContext V) where
  first_transition-Enters :
      (m : StateMachine V) (current : String) (ts : List Transition)
      → Known m.states ts
      → (r : TransitionResult V) × (first_transition py m current context ts ≡ ok r)
        × Enters m (first_match (λ t. evaluate_condition py t.condition context) ts) current r
  unfolding first_transition
  first_transition-Enters m current [] h =
      (plain false none (some (no_valid_transition current)), refl, refl)
  first_transition-Enters m current (t ∷ ts) h =
      elim (Bool-cases (evaluate_condition py t.condition context)) [
        | inl q ↦
            let (s, e, g) = get_state-known m t.to h.0 in
            rw q (enter t.to s, rw g refl, (s, e, refl))
        | inr q ↦ rw q (first_transition-Enters m current ts h.1)
      ]

  -- For a machine whose definition was accepted and a state that it has, evaluation returns: a
  -- terminal state stays where it is; otherwise the first transition whose condition holds is taken
  -- into the state that it names, which exists; and if no condition holds, that is reported.
  pub evaluate_transitions-returns :
      (d : WorkflowDefinition V) (m : StateMachine V) (current : String) (s : WorkflowState V)
      → state_machine d ≡ ok m
      → lookup current m.states ≡ some s
      → (r : TransitionResult V) × (evaluate_transitions py m current context ≡ ok r)
        × (is_terminal s.type ≡ true → r ≡ plain true none (some in_terminal_state))
        × (is_terminal s.type ≡ false
            → Enters m
                (first_match (λ t. evaluate_condition py t.condition context) s.transitions)
                current
                r)
  unfolding evaluate_transitions get_state
  evaluate_transitions-returns d m current s h e = elim (Bool-cases (is_terminal s.type)) [
    | inl q ↦ (plain true none (some in_terminal_state), rw (e, q) refl, λ _. refl, λ n. cc)
    | inr q ↦
        let (r, ran, enters) =
          first_transition-Enters m current s.transitions (state_machine-Known d m current s h e) in
        (r, rw (e, q) ran, λ n. cc, λ _. enters)
  ]

abbrev pub is_approval : WorkflowStateType → Bool
is_approval approval = true
is_approval _ = false

abbrev pub is_action : WorkflowStateType → Bool
is_action action = true
is_action _ = false

abbrev pub is_wait : WorkflowStateType → Bool
is_wait wait = true
is_wait _ = false

module _ {V : Type 0} where
  -- What entering a state asks of the caller: the type of the state, and its configuration.
  pub record Asks (to : String) (s : WorkflowState V) (r : TransitionResult V) : Type 0 where
    pub success : r.success ≡ true
    pub next_state : r.next_state ≡ some to
    pub error : r.error ≡ none
    pub approval : r.approval_required ≡ is_approval s.type
    pub approval_config : r.approval_config ≡ (if is_approval s.type then s.approval else none)
    pub action : r.action_required ≡ is_action s.type
    pub action_config : r.action_config ≡ (if is_action s.type then s.action else none)
    pub wait : r.wait_required ≡ is_wait s.type
    pub wait_config : r.wait_config ≡ (if is_wait s.type then s.wait else none)

  enter-Asks :
      (to : String) (s : WorkflowState V) → is_ok (validate_state s) ≡ true → Asks to s (enter to s)
  unfolding enter validate_state
  enter-Asks to s h = ground arith

module _ {V : Type 0} (py : Python V) (context : WorkflowContext V) where
  -- What a caller learns from a result that was not a terminal state's.
  abbrev pub Reports : StateMachine V → String → TransitionResult V → Type 0
  Reports m current r =
      ((r.success ≡ false) × (r.error ≡ some (no_valid_transition current)) × (r.next_state ≡ none))
      ⊎ ((to : String) × (s : WorkflowState V) × (lookup to m.states ≡ some s) × Asks to s r)

  Enters-Reports :
      (m : StateMachine V) (current : String) (t : Option Transition) (r : TransitionResult V)
      → ((k : String) (s : WorkflowState V)
          → lookup k m.states ≡ some s
          → is_ok (validate_state s) ≡ true)
      → Enters m t current r
      → Reports m current r
  Enters-Reports m current none r valid h = inl (rw h (refl, refl, refl))
  Enters-Reports m current (some t) r valid (s, e, h) =
      inr (t.to, s, e, rw h (enter-Asks t.to s (valid t.to s e)))

  -- For an accepted machine whose states pass their own validation, a non-terminal state's
  -- evaluation either reports that no transition is valid, or succeeds into a known state and asks
  -- exactly for what that state's type needs, with its configuration: none is ever missing.
  pub evaluate_transitions-Reports :
      (d : WorkflowDefinition V) (m : StateMachine V) (current : String) (s : WorkflowState V)
      → state_machine d ≡ ok m
      → ((k : String) (t : WorkflowState V)
          → lookup k m.states ≡ some t
          → is_ok (validate_state t) ≡ true)
      → lookup current m.states ≡ some s
      → is_terminal s.type ≡ false
      → (r : TransitionResult V) × (evaluate_transitions py m current context ≡ ok r)
        × Reports m current r
  evaluate_transitions-Reports d m current s made valid e n =
      let (r, ran, _, enters) = evaluate_transitions-returns py context d m current s made e in
      (r, ran, Enters-Reports m current _ r valid (enters n))
