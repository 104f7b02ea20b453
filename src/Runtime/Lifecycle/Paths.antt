-- ===== src/Runtime/Lifecycle/Paths.antt =====
-- What the phase table promises: which moves are taken, and what every run of requests keeps.
use ai_enterprise_os.Prelude.{
  ◌≡◌, refl, sym, ◌⊎◌, inl, inr, ◌≢◌, Bool, true, false, List, [], ◌∷◌, arith, Bool-cases,
}
use mathlib.Core.List.{Memᴰ}
use ai_enterprise_os.Runtime.Lifecycle.{
  RuntimePhase, stopped, starting, running, degraded, recovering, stopping, failed,
  RuntimeLifecycle, returned, invalid_transition, new, can_transition, transition, is_active,
  request_all,
}

-- The diagram as a relation: stages of start-up, of a live runtime, and of its end.
pub data IsLive : RuntimePhase → Type 0 where
  live_running : IsLive running
  live_degraded : IsLive degraded
  live_recovering : IsLive recovering

infix 40 ◌⟶◌
pub data ◌⟶◌ : RuntimePhase → RuntimePhase → Type 0 where
  boot : stopped ⟶ starting
  reboot : failed ⟶ starting
  reset : failed ⟶ stopped
  ready : starting ⟶ running
  boot_fails : starting ⟶ failed
  abort : starting ⟶ stopping
  degrade : running ⟶ degraded
  recover : running ⟶ recovering
  heal : degraded ⟶ running
  repair : degraded ⟶ recovering
  recovered : recovering ⟶ running
  partly_recovered : recovering ⟶ degraded
  stop : {p : RuntimePhase} → IsLive p → p ⟶ stopping
  running_fails : running ⟶ failed
  degraded_fails : degraded ⟶ failed
  finish : stopping ⟶ stopped
  stop_fails : stopping ⟶ failed

ruleset edges = (
  boot, reboot, reset, ready, boot_fails, abort, degrade, recover, heal, repair, recovered,
  partly_recovered, stop, running_fails, degraded_fails, finish, stop_fails, live_running,
  live_degraded, live_recovering,
)

pub can_transition→⟶ : (p q : RuntimePhase) → can_transition (record { phase = p }) q ≡ true → p ⟶ q
unfolding can_transition
can_transition→⟶ p q h = grind (arith, edges)

pub ⟶→can_transition : {p q : RuntimePhase} → p ⟶ q → can_transition (record { phase = p }) q ≡ true
unfolding can_transition
⟶→can_transition boot = refl
⟶→can_transition reboot = refl
⟶→can_transition reset = refl
⟶→can_transition ready = refl
⟶→can_transition boot_fails = refl
⟶→can_transition abort = refl
⟶→can_transition degrade = refl
⟶→can_transition recover = refl
⟶→can_transition heal = refl
⟶→can_transition repair = refl
⟶→can_transition recovered = refl
⟶→can_transition partly_recovered = refl
⟶→can_transition (stop live_running) = refl
⟶→can_transition (stop live_degraded) = refl
⟶→can_transition (stop live_recovering) = refl
⟶→can_transition running_fails = refl
⟶→can_transition degraded_fails = refl
⟶→can_transition finish = refl
⟶→can_transition stop_fails = refl

-- A request for the current phase, or along an edge of the diagram, is granted; any other raises
-- and leaves the phase as it was.
pub transition_diagram :
    (p q : RuntimePhase)
    → ((p ≡ q) ⊎ (p ⟶ q) → transition (record { phase = p }) q ≡ (record { phase = q }, returned q))
      × (p ≢ q
          → ¬ (p ⟶ q)
          → transition (record { phase = p }) q ≡ (record { phase = p }, invalid_transition p q))
unfolding transition
transition_diagram p q = (granted, refused)
  where
    granted :
        (p ≡ q) ⊎ (p ⟶ q) → transition (record { phase = p }) q ≡ (record { phase = q }, returned q)
    granted (inl e) = ground arith
    granted (inr e) = ground (arith, ⟶→can_transition e)

    refused :
        p ≢ q
        → ¬ (p ⟶ q)
        → transition (record { phase = p }) q ≡ (record { phase = p }, invalid_transition p q)
    refused n m = elim (Bool-cases (can_transition (record { phase = p }) q)) [
      | inl h ↦ absurd (m (can_transition→⟶ p q h))
      | inr h ↦ ground arith
    ]

-- The guards of the engine's `start` and `stop` suffice: an inactive lifecycle grants STARTING, and
-- an active one grants STOPPING.
pub guards_suffice :
    (lc : RuntimeLifecycle)
    → (is_active lc ≡ false
        → transition lc starting ≡ (record { phase = starting }, returned starting))
      × (is_active lc ≡ true
          → transition lc stopping ≡ (record { phase = stopping }, returned stopping))
unfolding is_active transition
guards_suffice lc = (λ h. ground arith, λ h. ground arith)

abbrev is_live : RuntimePhase → Bool
is_live running = true
is_live degraded = true
is_live recovering = true
is_live _ = false

-- Only STARTING leads from the dormant phases to the live ones.
abbrev IsDormant : RuntimePhase → Type 0
IsDormant p = (p ≡ stopped) ⊎ (p ≡ failed) ⊎ (p ≡ stopping)

IsDormant-step :
    (lc : RuntimeLifecycle) (q : RuntimePhase)
    → IsDormant lc.phase
    → (q ≡ starting) ⊎ IsDormant (transition lc q).0.phase
unfolding transition
IsDormant-step lc q h = ground arith

IsDormant-not_live : (p : RuntimePhase) → IsDormant p → IsLive p → ⊥
IsDormant-not_live p h live_running = ground arith
IsDormant-not_live p h live_degraded = ground arith
IsDormant-not_live p h live_recovering = ground arith

dormant_needs_starting :
    (lc : RuntimeLifecycle) (ps : List RuntimePhase)
    → IsDormant lc.phase
    → IsLive (request_all lc ps).phase
    → Memᴰ starting ps
unfolding request_all
dormant_needs_starting lc [] h l = absurd (IsDormant-not_live lc.phase h l)
dormant_needs_starting lc (q ∷ ps) h l = elim (IsDormant-step lc q h) [
  | inl e ↦ Memᴰ.head (sym e)
  | inr d ↦ Memᴰ.tail (dormant_needs_starting (transition lc q).0 ps d l)
]

-- However phases are requested, a new lifecycle is live (running, degraded or recovering) only if
-- STARTING was among the requests.
pub live_needs_starting :
    (ps : List RuntimePhase) → IsLive (request_all new ps).phase → Memᴰ starting ps
live_needs_starting ps l = dormant_needs_starting new ps (inl refl) l

-- The requests that end each phase.
abbrev pub way_to_stopped : RuntimePhase → List RuntimePhase
way_to_stopped stopped = []
way_to_stopped failed = stopped ∷ []
way_to_stopped stopping = stopped ∷ []
way_to_stopped _ = stopping ∷ stopped ∷ []

-- Every phase is STOPPED, has an edge to STOPPED, or has an edge to STOPPING and on; and the
-- requests along that way take a lifecycle in any phase to a new one.
pub stopped_reachable :
    (p : RuntimePhase)
    → (request_all (record { phase = p }) (way_to_stopped p) ≡ new)
      × ((p ≡ stopped) ⊎ (p ⟶ stopped) ⊎ ((p ⟶ stopping) × (stopping ⟶ stopped)))
unfolding request_all transition
stopped_reachable stopped = (refl, inl refl)
stopped_reachable failed = (refl, inr (inl reset))
stopped_reachable stopping = (refl, inr (inl finish))
stopped_reachable starting = (refl, inr (inr (abort, finish)))
stopped_reachable running = (refl, inr (inr (stop live_running, finish)))
stopped_reachable degraded = (refl, inr (inr (stop live_degraded, finish)))
stopped_reachable recovering = (refl, inr (inr (stop live_recovering, finish)))
