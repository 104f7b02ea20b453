-- ===== src/Workflow/Transitions/Reaching.antt =====
-- When the validator's search for reachable states raises.
use ai_enterprise_os.Prelude.{
  ℕ, suc, ◌≤◌, String, ◌≡◌, refl, Bool, true, false, not, ◌||◌, some, List, [], ◌∷◌, ◌++◌,
  if◌then◌else◌, length, length-append, elem, ◌==◌, ok, err, arith, any,
}
use ai_enterprise_os.Dict.{Dict, lookup}
use ai_enterprise_os.Workflow.Models.{Transition, WorkflowState, set_changed_size}
use ai_enterprise_os.Workflow.StateMachine.{Python}
use ai_enterprise_os.Workflow.Transitions.{
  TransitionValidator, add_targets, sweep, reach_loop, get_reachable_states, check_reachability,
  validate, no_errors,
}

-- Some transition leads to another state.
abbrev pub leaves : String → List Transition → Bool
leaves i = any (λ (t : Transition). not (i == t.to))

length-add_targets :
    (ts : List Transition) (r : List String) (c : Bool) → length r ≤ length (add_targets ts r c).0
unfolding add_targets
length-add_targets [] r c = omega arith
length-add_targets (t ∷ ts) r c = ground (
  arith,
  length-append r (t.to ∷ []),
  length-add_targets ts r (c || not (elem t.to r)),
  length-add_targets ts (r ++ t.to ∷ []) (c || not (elem t.to r)),
)

add_targets_stays :
    (ts : List Transition) (i : String) (c : Bool)
    → leaves i ts ≡ false
    → add_targets ts (i ∷ []) c ≡ (i ∷ [], c)
unfolding add_targets
add_targets_stays [] i c h = refl
add_targets_stays (t ∷ ts) i c h =
    ground (arith, add_targets_stays ts i (c || not (i == t.to || false)))

add_targets_grows :
    (ts : List Transition) (i : String) (c : Bool)
    → leaves i ts ≡ true
    → 2 ≤ length (add_targets ts (i ∷ []) c).0
unfolding add_targets
add_targets_grows [] i c h = absurd (ground arith)
add_targets_grows (t ∷ ts) i c h = ground (
  arith,
  add_targets_grows ts i (c || not (i == t.to || false)),
  length-add_targets ts (i ∷ t.to ∷ []) (c || not (i == t.to || false)),
)

module _ {V : Type 0} (states : Dict (WorkflowState V)) (i : String) (s : WorkflowState V)
    (known : lookup i states ≡ some s) where
  -- One pass over the set that holds the initial state alone.
  sweep_first :
      sweep states 1 (i ∷ []) (i ∷ []) false
      ≡ (if leaves i s.transitions then err set_changed_size else ok (i ∷ [], false))
  unfolding sweep
  sweep_first = rw known (
      ground
        (arith, add_targets_stays s.transitions i false, add_targets_grows s.transitions i false))

  reach_loop_first :
      (fuel : ℕ)
      → reach_loop (suc fuel) states (i ∷ [])
        ≡ (if leaves i s.transitions then err set_changed_size else ok (i ∷ []))
  unfolding reach_loop
  reach_loop_first fuel = ground (arith, sweep_first)

module _ {V : Type 0} (py : Python V) (fuel : ℕ) (v : TransitionValidator V) where
  -- `validate` raises because of its own loop, which adds to the set that it iterates over, exactly
  -- when the initial state is there and has a transition to another state; else it answers whether
  -- it found no error.
  pub validate_raises :
      (s : WorkflowState V)
      → lookup v.definition.initial_state v.definition.states ≡ some s
      → (leaves v.definition.initial_state s.transitions ≡ true
          → (validate py (suc fuel) v).1 ≡ err set_changed_size)
        × (leaves v.definition.initial_state s.transitions ≡ false
            → (validate py (suc fuel) v).1
              ≡ ok (no_errors (validate py (suc fuel) v).0.found.errors))
  unfolding validate check_reachability get_reachable_states
  validate_raises s known = (
    λ h.
        ground
          (arith, reach_loop_first v.definition.states v.definition.initial_state s known fuel),
    λ h.
        ground
          (arith, reach_loop_first v.definition.states v.definition.initial_state s known fuel),
  )
