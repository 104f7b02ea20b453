-- ===== src/Workflow/Transitions/Reports.antt =====
-- What it means that the validator found no error.
use ai_enterprise_os.Prelude.{
  ℕ, String, ◌≡◌, ◌≢◌, refl, true, some, is_some, List, [], ◌∷◌, ◌++◌, if◌then◌else◌, ◌==◌, eq_iff,
  Result, ok, err, arith, Bool-cases, inl, inr,
}
use ai_enterprise_os.Dict.{Dict, has, lookup}
use ai_enterprise_os.Workflow.Models.{
  Transition, WorkflowState, WorkflowDefinition, WorkflowError, check_targets, check_states,
  any_terminal,
}
use ai_enterprise_os.Workflow.StateMachine.{Python, state_machine}
use ai_enterprise_os.Workflow.StateMachine.Moves.{Known, is_approval, is_action, is_wait}
use ai_enterprise_os.Workflow.Checks.{
  Found, nothing, validate_transitions, validate_initial_state, validate_terminal_states,
  validate_approval_states, validate_action_states, validate_wait_states, check_deadlocks,
  each_state, transition_checks, count_terminal,
}
use ai_enterprise_os.Workflow.Transitions.{
  TransitionValidator, check_reachability, before_reachability, finish, validate,
}

append-eq-nil : {A : Type 0} (xs ys : List A) → xs ++ ys ≡ [] → (xs ≡ []) × (ys ≡ [])
append-eq-nil [] ys h = (refl, h)
append-eq-nil (x ∷ xs) ys h = absurd (cc)

module _ {V : Type 0} where
  -- A loop over the states that found no error found none at any state.
  each_state-clean :
      (check : String → WorkflowState V → Found) (states : Dict (WorkflowState V)) (k : String)
      (s : WorkflowState V)
      → (each_state check states).errors ≡ []
      → lookup k states ≡ some s
      → (check k s).errors ≡ []
  unfolding each_state lookup
  each_state-clean check [] k s h e = cc
  each_state-clean check ((j, r) ∷ rest) k s h e =
      let (here, there) = append-eq-nil (check j r).errors _ h in
      elim (Bool-cases (j == k)) [
        | inl q ↦
            let e' : some r ≡ some s = rw q at e in
            let same : r ≡ s = cc in let key : j ≡ k = (eq_iff j k).0 q in rw (← same, ← key) here
        | inr q ↦ each_state-clean check rest k s there (rw q at e)
      ]

  Known-check_targets :
      (states : Dict (WorkflowState V)) (sid : String) (ts : List Transition)
      → Known states ts
      → check_targets states sid ts ≡ ok tt
  unfolding check_targets
  Known-check_targets states sid [] h = refl
  Known-check_targets states sid (t ∷ ts) h = rw (h.0) (Known-check_targets states sid ts h.1)

module _ {V : Type 0} (py : Python V) (states : Dict (WorkflowState V)) where
  transition_checks-Known :
      (sid : String) (ts : List Transition)
      → (transition_checks py states sid ts).errors ≡ []
      → Known states ts
  unfolding transition_checks
  transition_checks-Known sid [] h = tt
  transition_checks-Known sid (t ∷ ts) h =
      let (head, rest) = append-eq-nil _ (transition_checks py states sid ts).errors h in
      let (here, _) = append-eq-nil (if has t.to states then nothing else _).errors _ head in
      (ground arith, transition_checks-Known sid ts rest)

  clean-check_states :
      (part : Dict (WorkflowState V))
      → (each_state (λ sid s. transition_checks py states sid s.transitions) part).errors ≡ []
      → check_states states part ≡ ok tt
  unfolding check_states each_state
  clean-check_states [] h = refl
  clean-check_states ((j, r) ∷ part) h =
      let (here, there) = append-eq-nil (transition_checks py states j r.transitions).errors _ h in
      rw (Known-check_targets states j r.transitions (transition_checks-Known j r.transitions here))
        (clean-check_states part there)

  any_terminal-count :
      (part : Dict (WorkflowState V)) → count_terminal part ≢ 0 → any_terminal part ≡ true
  unfolding count_terminal any_terminal
  any_terminal-count [] h = absurd (h refl)
  any_terminal-count ((j, r) ∷ part) h = ground (arith, any_terminal-count part)

-- Each kind of state has the configuration that the state machine asks for.
pub record IsConfigured {V : Type 0} (s : WorkflowState V) : Type 0 where
  pub approval : is_approval s.type ≡ true → is_some s.approval ≡ true
  pub action : is_action s.type ≡ true → is_some s.action ≡ true
  pub wait : is_wait s.type ≡ true → is_some s.wait ≡ true

module _ {V : Type 0} (py : Python V) (d : WorkflowDefinition V) where
  finish-before :
      (v : TransitionValidator V) (r : Result WorkflowError Found)
      → (finish py (before_reachability py d) v r).0.found.errors ≡ []
      → (before_reachability py d).errors ≡ []
  unfolding finish
  finish-before v (err e) h = h
  finish-before v (ok more) h =
      (append-eq-nil (before_reachability py d).errors more.errors
        (append-eq-nil _ (check_deadlocks v.definition).errors h).0).0

  clean_parts :
      (before_reachability py d).errors ≡ []
      → ((validate_transitions py d).errors ≡ [])
        × ((validate_initial_state d).errors ≡ [])
        × ((validate_terminal_states d).errors ≡ [])
        × ((validate_approval_states d).errors ≡ [])
        × ((validate_action_states d).errors ≡ [])
        × ((validate_wait_states d).errors ≡ [])
  unfolding before_reachability
  clean_parts h =
      let (h₅, w) = append-eq-nil _ (validate_wait_states d).errors h in
      let (h₄, a) = append-eq-nil _ (validate_action_states d).errors h₅ in
      let (h₃, p) = append-eq-nil _ (validate_approval_states d).errors h₄ in
      let (h₂, t) = append-eq-nil _ (validate_terminal_states d).errors h₃ in
      let (h₁, i) = append-eq-nil _ (validate_initial_state d).errors h₂ in
      let (_, r) = append-eq-nil _ (validate_transitions py d).errors h₁ in (r, i, t, p, a, w)

  clean_machine :
      (before_reachability py d).errors ≡ [] → state_machine d ≡ ok (record { definition = d })
  unfolding state_machine validate_transitions validate_initial_state
  clean_machine h =
      let (r, i, _, _, _, _) = clean_parts h in
      ground (arith, clean-check_states py d.states d.states r)

  clean_terminal : (before_reachability py d).errors ≡ [] → any_terminal d.states ≡ true
  unfolding validate_terminal_states
  clean_terminal h =
      any_terminal-count py d.states d.states (λ e. ground (arith, (clean_parts h).2))

  clean-IsConfigured :
      (before_reachability py d).errors ≡ []
      → (k : String) (s : WorkflowState V) → lookup k d.states ≡ some s
      → IsConfigured s
  unfolding validate_approval_states validate_action_states validate_wait_states
  clean-IsConfigured h k s e =
      let (_, _, _, p, a, w) = clean_parts h in
      record {
        approval = λ q. ground (arith, each_state-clean _ d.states k s p e);
        action = λ q. ground (arith, each_state-clean _ d.states k s a e);
        wait = λ q. ground (arith, each_state-clean _ d.states k s w e);
      }

-- A definition for which the validator reports no error, even if it raises, is accepted by the
-- state machine, has a terminal state, and has every approval, action and wait configured.
pub clean_report_accepts :
    {V : Type 0} (py : Python V) (fuel : ℕ) (v : TransitionValidator V)
    → (validate py fuel v).0.found.errors ≡ []
    → (state_machine v.definition ≡ ok (record { definition = v.definition }))
      × (any_terminal v.definition.states ≡ true)
      × ((k : String) (s : WorkflowState V)
          → lookup k v.definition.states ≡ some s
          → IsConfigured s)
unfolding validate
clean_report_accepts py fuel v h =
    let d = v.definition in
    let clean = finish-before py d v (check_reachability fuel d) h in
    (clean_machine py d clean, clean_terminal py d clean, clean-IsConfigured py d clean)
