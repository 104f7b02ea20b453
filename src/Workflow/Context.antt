-- ===== src/Workflow/Context.antt =====
-- src/ai_company/workflow/context.py: ContextManager. The contexts stand in the manager by value:
-- a method that returns one returns what the manager then has. `now` and `later` are the clock's
-- answers, and `uuid` that of uuid4. update_context, which sets attributes by their names, is left
-- out.
pub mod Filed
mod Tests
use ai_enterprise_os.Prelude.{
  ℕ, String, Bool, true, false, Option, none, some, List, [], ◌∷◌, ◌++◌, ◌==◌, if◌then◌else◌,
}
use ai_enterprise_os.Dict.{Dict, has, lookup, insert, erase, get_or, values}

pub data WorkflowStatus : Type 0 where
  pending running paused waiting_approval waiting_external completed failed cancelled timed_out :
      WorkflowStatus

-- The WorkflowContext of models.py, with the attributes that the manager sets.
pub record Context (V : Type 0) : Type 0 where
  pub workflow_id : String
  pub execution_id : String
  pub current_state : String
  pub previous_state : Option String
  pub status : WorkflowStatus
  pub terminal_status : Option String
  pub data_of : Dict V
  pub error : Option String
  pub updated_at : ℕ
  pub started_at : Option ℕ
  pub paused_at : Option ℕ
  pub completed_at : Option ℕ

-- The attributes of an ExecutionHistoryEntry that are read.
pub record HistoryEntry (V : Type 0) : Type 0 where
  pub id : String
  pub to_state : Option String
  pub data_snapshot : Dict V

pub record StepContext (V : Type 0) : Type 0 where
  pub step_id : String
  pub execution_id : String
  pub workflow_id : String
  pub state_id : String
  pub data_of : Dict V

pub record ContextManager (V : Type 0) : Type 0 where
  pub contexts : Dict (Context V)
  pub step_contexts : Dict (List (StepContext V))

-- `execution_id or str(uuid4())`
id_or : Option String → String → String
id_or none uuid = uuid
id_or (some id) uuid = if id == "" then uuid else id

-- `to_state or ""`
state_or_empty : Option String → String
state_or_empty none = ""
state_or_empty (some s) = s

unfoldable pub is_active_status : WorkflowStatus → Bool
is_active_status pending = true
is_active_status running = true
is_active_status paused = true
is_active_status waiting_approval = true
is_active_status waiting_external = true
is_active_status completed = false
is_active_status failed = false
is_active_status cancelled = false
is_active_status timed_out = false

module _ {V : Type 0} where
  unfoldable pub create_context :
      String
      → String
      → Dict V
      → Option String
      → String
      → ℕ
      → ContextManager V
      → ContextManager V × Context V
  unfolding id_or
  create_context workflow_id initial_state initial_data execution_id uuid now m =
      let ctx : Context V = record {
        workflow_id = workflow_id;
        execution_id = id_or execution_id uuid;
        current_state = initial_state;
        previous_state = none;
        status = pending;
        terminal_status = none;
        data_of = initial_data;
        error = none;
        updated_at = now;
        started_at = none;
        paused_at = none;
        completed_at = none;
      } in
      (
        record {
          contexts = insert ctx.execution_id ctx m.contexts;
          step_contexts = insert ctx.execution_id [] m.step_contexts;
        },
        ctx,
      )

  unfoldable pub get_context : String → ContextManager V → Option (Context V)
  get_context execution_id m = lookup execution_id m.contexts

  changed_by :
      Option (Context V)
      → (Context V → Context V)
      → String
      → ContextManager V
      → ContextManager V × Option (Context V)
  changed_by none f execution_id m = (m, none)
  changed_by (some ctx) f execution_id m =
      (record m { contexts = insert execution_id (f ctx) m.contexts }, some (f ctx))

  -- What the methods that change one context share: None for an unknown one.
  unfoldable pub change :
      (Context V → Context V) → String → ContextManager V → ContextManager V × Option (Context V)
  unfolding changed_by get_context
  change f execution_id m = changed_by (get_context execution_id m) f execution_id m

  -- dict.update
  update : Dict V → Dict V → Dict V
  update [] d = d
  update ((k, v) ∷ more) d = update more (insert k v d)

  unfoldable pub with_data : Dict V → Bool → ℕ → Context V → Context V
  unfolding update
  with_data given merge now ctx = record ctx {
    data_of = if merge then update given ctx.data_of else given;
    updated_at = now;
  }

  -- `from_state` is not looked at.
  unfoldable pub moved : String → String → ℕ → Context V → Context V
  moved from_state to_state now ctx = record ctx {
    previous_state = some ctx.current_state;
    current_state = to_state;
    updated_at = now;
  }

  unfoldable pub started : ℕ → ℕ → Context V → Context V
  started now later ctx = record ctx { status = running; started_at = some now; updated_at = later }

  unfoldable pub suspended : ℕ → ℕ → Context V → Context V
  suspended now later ctx = record ctx { status = paused; paused_at = some now; updated_at = later }

  unfoldable pub resumed : ℕ → Context V → Context V
  resumed now ctx = record ctx { status = running; paused_at = none; updated_at = now }

  unfoldable pub finished : String → ℕ → ℕ → Context V → Context V
  finished terminal_status now later ctx = record ctx {
    status = completed;
    completed_at = some now;
    terminal_status = some terminal_status;
    updated_at = later;
  }

  unfoldable pub broken : String → ℕ → ℕ → Context V → Context V
  broken error now later ctx = record ctx {
    status = failed;
    error = some error;
    completed_at = some now;
    updated_at = later;
  }

  unfoldable pub called_off : ℕ → ℕ → Context V → Context V
  called_off now later ctx = record ctx {
    status = cancelled;
    completed_at = some now;
    updated_at = later;
  }

  step_of : HistoryEntry V → String → Context V → StepContext V
  unfolding state_or_empty
  step_of entry execution_id ctx = record {
    step_id = entry.id;
    execution_id = execution_id;
    workflow_id = ctx.workflow_id;
    state_id = state_or_empty entry.to_state;
    data_of = entry.data_snapshot;
  }

  entered : Option (Context V) → String → HistoryEntry V → ContextManager V → ContextManager V
  unfolding step_of
  entered none execution_id entry m = m
  entered (some ctx) execution_id entry m =
      let steps = get_or execution_id [] m.step_contexts ++ step_of entry execution_id ctx ∷ [] in
      if has execution_id m.step_contexts
      then (record m { step_contexts = insert execution_id steps m.step_contexts })
      else m

  unfoldable pub add_history_entry : String → HistoryEntry V → ContextManager V → ContextManager V
  unfolding entered
  add_history_entry execution_id entry m =
      entered (lookup execution_id m.contexts) execution_id entry m

  unfoldable pub get_step_contexts : String → ContextManager V → List (StepContext V)
  get_step_contexts execution_id m = get_or execution_id [] m.step_contexts

  unfoldable pub remove_context : String → ContextManager V → ContextManager V × Bool
  remove_context execution_id m =
      if has execution_id m.contexts
      then (
        record {
          contexts = erase execution_id m.contexts;
          step_contexts = erase execution_id m.step_contexts;
        },
        true,
      )
      else (m, false)

  -- The contexts for which a test holds, in order.
  those : (Context V → Bool) → List (Context V) → List (Context V)
  those f [] = []
  those f (c ∷ cs) = let rest = those f cs in if f c then c ∷ rest else rest

  unfoldable pub list_active_contexts : ContextManager V → List (Context V)
  unfolding those is_active_status
  list_active_contexts m = those (λ c. is_active_status c.status) (values m.contexts)

  unfoldable pub get_context_by_workflow : String → ContextManager V → List (Context V)
  unfolding those
  get_context_by_workflow workflow_id m =
      those (λ c. c.workflow_id == workflow_id) (values m.contexts)
