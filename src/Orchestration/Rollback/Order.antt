-- ===== src/Orchestration/Rollback/Order.antt =====
-- Undo handlers run once each, in reverse order of registration, whatever they raise.
use mathlib.Core.List.{reverse-cons}
use mathlib.Core.Path.{ap₂}
use text.Mathlib.TextPositions.{eq_refl}
use ai_enterprise_os.Prelude.{
  String, ◌≡◌, refl, ◌∙◌, ap, true, Option, none, some, List, [], ◌∷◌, if◌then◌else◌, reverse, elem,
  elem-append, elem-remove_first, IsDistinct, IsDistinct-snoc, IsDistinct-remove_first, any, ok,
  err, arith, ◌↔◌, eq_iff, map,
}
use ai_enterprise_os.Dict.{
  Dict, has, lookup, insert, has-insert, has-erase, lookup-insert, lookup-some_of_has,
}
use ai_enterprise_os.Orchestration.Rollback.{
  Handler, StepStatus, PlanStatus, RollbackStep, RollbackPlan, RollbackManager, no_handlers,
  is_failed, register_handler, unregister_handler, clear_handlers, has_handlers, new_steps,
  create_rollback_plan, run_steps, execute_rollback, Undo, mark, call,
}

-- The order lists each task that has a handler, once.
pub record IsConsistent {P : Type 0} (m : RollbackManager P) : Type 0 where
  pub distinct : IsDistinct m.order
  pub listed : (k : String) → elem k m.order ≡ has k m.handlers

module _ {P : Type 0} (m : RollbackManager P) (task_id : String) (c : IsConsistent m) where
  register-IsConsistent :
      (action : String) (params : P) → IsConsistent (register_handler task_id action params m)
  unfolding register_handler
  register-IsConsistent action params = record {
    distinct = ground (arith, c.distinct, IsDistinct-snoc task_id m.order c.distinct);
    listed = λ k. ground (
      arith,
      c.listed k,
      c.listed task_id,
      elem-append k m.order (task_id ∷ []),
      has-insert task_id k (record { action = action; params = params }) m.handlers,
      eq_iff task_id k,
    );
  }

  unregister-IsConsistent : IsConsistent (unregister_handler task_id m).0
  unfolding unregister_handler
  unregister-IsConsistent = record {
    distinct = ground (arith, c.distinct, IsDistinct-remove_first task_id m.order c.distinct);
    listed = λ k. ground (
      arith,
      c.listed k,
      c.listed task_id,
      elem-remove_first task_id k m.order c.distinct,
      has-erase task_id k m.handlers,
      eq_iff task_id k,
    );
  }

-- Registering a handler, anew or again, removing one and clearing them all keep the order in step
-- with the handlers: it lists each task that has one, once.
pub handlers-IsConsistent :
    {P : Type 0} (m : RollbackManager P) (task_id action : String) (params : P)
    → IsConsistent m
    → IsConsistent (register_handler task_id action params m)
      × IsConsistent (unregister_handler task_id m).0
      × IsConsistent (clear_handlers m)
unfolding clear_handlers
handlers-IsConsistent m t a p c = (
  register-IsConsistent m t c a p,
  unregister-IsConsistent m t c,
  record { distinct = tt; listed = λ k. unfold has in refl },
)

elem-reverse : (k : String) (xs : List String) → elem k (reverse xs) ≡ elem k xs
elem-reverse k [] = refl
elem-reverse k (x ∷ xs) =
    rw (reverse-cons x xs) (ground (arith, elem-append k (reverse xs) (x ∷ []), elem-reverse k xs))

abbrev pub task_of : RollbackStep → String
task_of s = s.task_id

module _ {P : Type 0} where
  -- A new step for each of the tasks, with the action of its handler.
  abbrev Planned : Dict (Handler P) → List String → List RollbackStep → Type 0
  Planned handlers [] [] = Unit
  Planned handlers [] (s ∷ steps) = ⊥
  Planned handlers (k ∷ ks) [] = ⊥
  Planned handlers (k ∷ ks) (s ∷ steps) =
      (h : Handler P) × (lookup k handlers ≡ some h)
      × (s.task_id ≡ k)
      × (s.action ≡ h.action)
      × Planned handlers ks steps

  new_steps-of_has :
      (handlers : Dict (Handler P)) (ks : List String)
      → ((k : String) → elem k ks ≡ true → has k handlers ≡ true)
      → (steps : List RollbackStep) × (new_steps handlers ks ≡ ok steps) × Planned handlers ks steps
  unfolding new_steps
  new_steps-of_has handlers [] h = ([], refl, tt)
  new_steps-of_has handlers (k ∷ ks) h =
      let (v, found) = lookup-some_of_has k handlers (h k (ground (arith, eq_iff k k))) in
      let (steps, made, same) = new_steps-of_has handlers ks (λ j e. h j (ground arith)) in
      let step : RollbackStep = record {
        task_id = k;
        action = v.action;
        status = StepStatus.pending;
        error = none;
      } in
      (step ∷ steps, rw found (rw made refl), (v, found, refl, refl, same))

-- What a step shows of a call that returned, or raised.
abbrev pub Shows : RollbackStep → Option String → Type 0
Shows s none = s.status ≡ StepStatus.executed
Shows s (some e) = (s.status ≡ StepStatus.failed) × (s.error ≡ some e)

mark-Shows :
    (s : RollbackStep) (raised : Option String)
    → (task_of (mark s raised) ≡ task_of s)
      × ((mark s raised).action ≡ s.action)
      × Shows (mark s raised) raised
unfolding mark
mark-Shows s none = (refl, refl, refl)
mark-Shows s (some e) = (refl, refl, (refl, refl))

-- Undoing a task by its handler; without an undo function nothing is called.
abbrev pub effect : {P W : Type 0} → Option (Undo P W) → String → Handler P → W → Option String × W
effect none k h w = (none, w)
effect (some undo) k h w = undo k h.action h.params w

-- From the world `w` to `w'`, each of the tasks is undone in turn by its own handler, and the steps
-- show what came of it.
abbrev pub Undone :
    {P W : Type 0}
    → Option (Undo P W)
    → Dict (Handler P)
    → List String
    → List RollbackStep
    → W
    → W
    → Type 0
Undone undo handlers [] [] w w' = w' ≡ w
Undone undo handlers [] (s ∷ steps) w w' = ⊥
Undone undo handlers (k ∷ ks) [] w w' = ⊥
Undone undo handlers (k ∷ ks) (s ∷ steps) w w' =
    (h : Handler _) × (lookup k handlers ≡ some h)
    × (s.task_id ≡ k)
    × (s.action ≡ h.action)
    × Shows s (effect undo k h w).0
    × Undone undo handlers ks steps (effect undo k h w).1 w'

module _ {P W : Type 0} (no_params : P) (undo : Option (Undo P W)) where
  call-effect :
      (o : Option (Undo P W)) (k : String) (s : RollbackStep) (h : Handler P) (w : W)
      → s.task_id ≡ k
      → call no_params o s (some h) w ≡ effect o k h w
  unfolding call
  call-effect none k s h w e = refl
  call-effect (some f) k s h w e = rw e refl

  run_steps-Undone :
      (handlers : Dict (Handler P)) (ks : List String) (steps : List RollbackStep) (w : W)
      → Planned handlers ks steps
      → let (ran, w') = run_steps no_params undo handlers steps w in
        (map task_of ran ≡ ks) × Undone undo handlers ks ran w w'
  unfolding run_steps
  run_steps-Undone handlers [] [] w planned = (refl, refl)
  run_steps-Undone handlers [] (s ∷ steps) w planned = absurd planned
  run_steps-Undone handlers (k ∷ ks) [] w planned = absurd planned
  run_steps-Undone handlers (k ∷ ks) (s ∷ steps) w (h, found, same, action, planned) =
      let called : call no_params undo s (lookup s.task_id handlers) w ≡ effect undo k h w =
        ap (λ o. call no_params undo s o w) (ap (λ j. lookup j handlers) same ∙ found)
        ∙ call-effect undo k s h w same in
      let (raised, w') = effect undo k h w in
      let (tasks, undone) = run_steps-Undone handlers ks steps w' planned in
      let (task, own, shows) = mark-Shows s raised in
      rw called (
        ap₂ (λ t ts. t ∷ ts) (task ∙ same) tasks,
        (h, found, task ∙ same, own ∙ action, shows, undone),
      )

  -- With handlers registered, and listed once each in their order, a rollback returns: it calls the
  -- undo function, if there is one, for every registered task, once each, with the action and the
  -- params of its handler, in reverse order of registration, also after calls that raised, and does
  -- nothing else; a step is EXECUTED if its call returned, and FAILED with its error if that raised;
  -- the plan is FAILED exactly if some step is; it is stored under its id; and no handler is left, so
  -- that a second rollback raises.
  pub execute_rollback_lem :
      (pipeline_id plan_id reason : String) (m : RollbackManager P) (w : W)
      → IsConsistent m
      → has_handlers m ≡ true
      → (m' : RollbackManager P) × (plan : RollbackPlan) × (w' : W) × (execute_rollback no_params
            undo pipeline_id plan_id reason m w
          ≡ ok (m', plan, w'))
        × (map task_of plan.steps ≡ reverse m.order)
        × Undone undo m.handlers (reverse m.order) plan.steps w w'
        × ((plan.status ≡ PlanStatus.failed)
            ↔ (any (λ (s : RollbackStep). is_failed s.status) plan.steps ≡ true))
        × (lookup plan_id m'.rollback_plans ≡ some plan)
        × (execute_rollback no_params undo pipeline_id plan_id reason m' w'
            ≡ err (no_handlers plan_id))
  unfolding execute_rollback create_rollback_plan
  execute_rollback_lem pid plan_id reason m w c h =
      let (steps, made, same) =
        new_steps-of_has m.handlers (reverse m.order)
          (λ k e. ground (arith, c.listed k, elem-reverse k m.order)) in
      let (tasks, undone) = run_steps-Undone m.handlers (reverse m.order) steps w same in
      let ran : List RollbackStep × W = run_steps no_params undo m.handlers steps w in
      let first : RollbackPlan = record {
        pipeline_id = pid;
        plan_id = plan_id;
        reason = reason;
        steps = steps;
        status = PlanStatus.pending;
      } in
      let plan : RollbackPlan = record first {
        steps = ran.0;
        status =
            if any (λ (s : RollbackStep). is_failed s.status) ran.0
            then PlanStatus.failed
            else PlanStatus.completed;
      } in
      let plans = insert plan_id plan (insert plan_id first m.rollback_plans) in
      (
        record { handlers = []; order = []; rollback_plans = plans },
        plan,
        ran.1,
        rw h (rw made (unfold clear_handlers in refl)),
        tasks,
        undone,
        (λ e. ground arith, λ e. rw e refl),
        rw
            (
              lookup-insert plan_id plan_id plan (insert plan_id first m.rollback_plans),
              eq_refl plan_id,
            )
            refl,
        unfold has_handlers in refl,
      )
