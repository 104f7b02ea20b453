-- ===== src/Runtime/Lifecycle.antt =====
-- src/ai_company/runtime/lifecycle.py: the state machine of the runtime's phase.
-- A method that may raise returns the object beside its reply; logging is left out.
pub mod Paths
use ai_enterprise_os.Prelude.{Bool, true, false, ◌||◌, List, [], ◌∷◌, if◌then◌else◌, any, ite}

pub data RuntimePhase : Type 0 where
  stopped starting running degraded recovering stopping failed : RuntimePhase

unfoldable pub RuntimePhase-discrete : Discrete RuntimePhase
RuntimePhase-discrete = hlevel

abbrev pub phase_eq : RuntimePhase → RuntimePhase → Bool
phase_eq p q = ite (RuntimePhase-discrete p q) true false

-- RUNTIME_TRANSITIONS
unfoldable pub runtime_transitions : RuntimePhase → List RuntimePhase
runtime_transitions stopped = starting ∷ []
runtime_transitions starting = running ∷ failed ∷ stopping ∷ []
runtime_transitions running = degraded ∷ recovering ∷ stopping ∷ failed ∷ []
runtime_transitions degraded = running ∷ recovering ∷ stopping ∷ failed ∷ []
runtime_transitions recovering = running ∷ degraded ∷ stopping ∷ []
runtime_transitions stopping = stopped ∷ failed ∷ []
runtime_transitions failed = starting ∷ stopped ∷ []

pub record RuntimeLifecycle : Type 0 where
  pub phase : RuntimePhase

pub data Reply : Type 0 where
  returned : RuntimePhase → Reply
  invalid_transition : RuntimePhase → RuntimePhase → Reply

abbrev pub new : RuntimeLifecycle
new = record { phase = stopped }

unfoldable pub can_transition : RuntimeLifecycle → RuntimePhase → Bool
unfolding runtime_transitions RuntimePhase-discrete
can_transition lc new_phase = any (phase_eq new_phase) (runtime_transitions lc.phase)

unfoldable pub transition : RuntimeLifecycle → RuntimePhase → RuntimeLifecycle × Reply
unfolding can_transition RuntimePhase-discrete
transition lc new_phase =
    if phase_eq new_phase lc.phase
    then (lc, returned lc.phase)
    else if can_transition lc new_phase
    then (record { phase = new_phase }, returned new_phase)
    else (lc, invalid_transition lc.phase new_phase)

unfoldable pub force : RuntimeLifecycle → RuntimePhase → RuntimeLifecycle × Reply
force lc new_phase = (record { phase = new_phase }, returned new_phase)

unfoldable pub is_active : RuntimeLifecycle → Bool
unfolding RuntimePhase-discrete
is_active lc = any (phase_eq lc.phase) (starting ∷ running ∷ degraded ∷ recovering ∷ stopping ∷ [])

-- A caller that requests phases one after the other and goes on after a refusal.
unfoldable pub request_all : RuntimeLifecycle → List RuntimePhase → RuntimeLifecycle
request_all lc [] = lc
request_all lc (p ∷ ps) = request_all (transition lc p).0 ps
