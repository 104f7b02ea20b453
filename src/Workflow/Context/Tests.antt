-- ===== src/Workflow/Context/Tests.antt =====
-- Contexts at concrete inputs.
use ai_enterprise_os.Prelude.{ℕ, String, Bool, Option, none, [], ◌∷◌, refl, All, arith, eq_iff}
use ai_enterprise_os.Dict.{Dict, has, lookup}
use ai_enterprise_os.Workflow.Context.{
  Context, ContextManager, HistoryEntry, pending, create_context, change, add_history_entry,
  remove_context,
}
use ai_enterprise_os.Workflow.Context.Filed.{IsFiled, changes, operations-IsFiled}

abbrev approval : Context ℕ
approval = record {
  workflow_id = "approval";
  execution_id = "e1";
  current_state = "draft";
  previous_state = none;
  status = pending;
  terminal_status = none;
  data_of = [];
  error = none;
  updated_at = 0;
  started_at = none;
  paused_at = none;
  completed_at = none;
}

abbrev one_context : ContextManager ℕ
one_context = record { contexts = ("e1", approval) ∷ []; step_contexts = ("e1", []) ∷ [] }

one_context-IsFiled : IsFiled one_context
unfolding lookup has
one_context-IsFiled = record { own = λ k c e. ground (arith, eq_iff "e1" k); paired = λ k. refl }

operations-IsFiled_example :
    ((workflow_id initial_state : String) (d : Dict ℕ) (id : Option String) (uuid : String)
        (now : ℕ)
      → IsFiled (create_context workflow_id initial_state d id uuid now one_context).0)
    × ((d : Dict ℕ) (merge : Bool) (s t k : String) (now later : ℕ)
        → All (λ f. IsFiled (change f k one_context).0) (changes d merge s t now later))
    × ((k : String) (entry : HistoryEntry ℕ) → IsFiled (add_history_entry k entry one_context))
    × ((k : String) → IsFiled (remove_context k one_context).0)
operations-IsFiled_example = operations-IsFiled one_context one_context-IsFiled
