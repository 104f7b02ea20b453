-- ===== src/Runtime/Recovery/Tests.antt =====
-- Recovery at concrete inputs.
use ai_enterprise_os.Prelude.{ℕ, ◌+◌, ◌≤◌, true, false, none, some, [], ◌∷◌, ◌≡◌, refl, arith}
use ai_enterprise_os.Dict.{lookup, get_or}
use ai_enterprise_os.Runtime.Policies.{RecoveryPolicy, RecoveryManager, policy_for}
use ai_enterprise_os.Runtime.Recovery.{recover, attempts_of, max_of}
use ai_enterprise_os.Runtime.Recovery.Sequence.{Pass, take_actions-Pass}
use ai_enterprise_os.Runtime.Recovery.Attempts.{exhausted}

abbrev engine_policy : RecoveryPolicy
engine_policy = record {
  name = "engine";
  enabled = true;
  max_attempts = some 2;
  actions = "escalate" ∷ "reload_state" ∷ "isolate" ∷ [];
}

-- The world counts what was published and created; "memory" has been tried once.
abbrev manager : RecoveryManager ℕ
manager = record {
  default_max_attempts = 3;
  process_manager = none;
  component_factory = some (λ component w. (none, w + 10));
  event_bus = some (λ component reason actions w. w + 1);
  is_engine = none;
  metrics = some (record { recovery_attempts = 1; recovery_successes = 0; recovery_failures = 1 });
  policies = ("memory", engine_policy) ∷ [];
  attempts = ("memory", 1) ∷ [];
  results = [];
  factories = [];
}

take_actions-Pass_example : Pass manager "memory" engine_policy "timeout" engine_policy.actions 0
take_actions-Pass_example =
    take_actions-Pass manager "memory" engine_policy "timeout" engine_policy.actions 0

abbrev tired : RecoveryManager ℕ
tired = record manager { attempts = ("memory", 2) ∷ [] }

exhausted_example :
    ((recover "memory" "timeout" tired 0).1.actions_taken ≡ [])
    × ((recover "memory" "timeout" tired 0).1.success ≡ false)
    × ((recover "memory" "timeout" tired 0).2 ≡ 0)
    × (max_of tired engine_policy ≤ attempts_of "memory" (recover "memory" "timeout" tired 0).0)
unfolding policy_for max_of attempts_of lookup get_or
exhausted_example = exhausted "memory" "timeout" tired engine_policy 0 refl (omega arith)
