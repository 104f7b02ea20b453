-- ===== src/Orchestration/Lifecycle/Runs.antt =====
-- What a run of accepted status changes can and cannot do.
use mathlib.Core.List.{Memᴰ}
use ai_enterprise_os.Prelude.{ℕ, ◌≤◌, ◌≡◌, refl, sym, ◌∙◌, ◌⊎◌, inl, inr, ◌≢◌, List, [], ◌∷◌, arith}
use ai_enterprise_os.Orchestration.Lifecycle.{
  TaskStatus, PipelineStatus, Moved, moved, invalid, TaskStatus-discrete, transition_task,
  transition_pipeline, run_task,
}

abbrev pub IsFinal : TaskStatus → Type 0
IsFinal s = (s ≡ TaskStatus.completed) ⊎ (s ≡ TaskStatus.skipped) ⊎ (s ≡ TaskStatus.cancelled)

-- A task that is completed, skipped or cancelled accepts no status at all, and from every other
-- status the task can still be cancelled.
pub IsFinal-iff_stuck :
    (s : TaskStatus)
    → (IsFinal s → (t : TaskStatus) → transition_task s t ≡ invalid s t)
      × ((IsFinal s → ⊥) → transition_task s TaskStatus.cancelled ≡ moved TaskStatus.cancelled)
unfolding transition_task
IsFinal-iff_stuck s = (λ h t. ground arith, λ n. ground arith)

step_to_completed :
    (s t u : TaskStatus)
    → transition_task s t ≡ moved u
    → (u ≡ t) × ((u ≡ TaskStatus.completed) → s ≡ TaskStatus.running)
unfolding transition_task
step_to_completed s t u h = (ground arith, λ e. ground arith)

run_task_inv :
    (s : TaskStatus) (t : TaskStatus) (ts : List TaskStatus) (u : TaskStatus)
    → run_task s (t ∷ ts) ≡ moved u
    → (v : TaskStatus) × (transition_task s t ≡ moved v) × (run_task v ts ≡ moved u)
unfolding run_task
run_task_inv s t ts u h =
    elim (transition_task s t)
        as (λ m.
          (elim m as (λ _. Moved TaskStatus) [
            | moved v ↦ run_task v ts
            | invalid a b ↦ invalid a b
          ])
            ≡ moved u
          → (v : TaskStatus) × (m ≡ moved v) × (run_task v ts ≡ moved u)) [
            | moved v ↦ λ e. (v, refl, e)
            | invalid a b ↦ λ e. cc
          ]
      h

completed_needs_running_from :
    (s : TaskStatus) (ts : List TaskStatus)
    → s ≢ TaskStatus.completed
    → run_task s ts ≡ moved TaskStatus.completed
    → (s ≡ TaskStatus.running) ⊎ Memᴰ TaskStatus.running ts
unfolding run_task
completed_needs_running_from s [] n h = absurd (ground arith)
completed_needs_running_from s (t ∷ ts) n h =
    let (v, e, r) = run_task_inv s t ts TaskStatus.completed h in
    let (same, from) = step_to_completed s t v e in
    elim (TaskStatus-discrete v TaskStatus.completed) [
      | yes done ↦ inl (from done)
      | no n' ↦ elim (completed_needs_running_from v ts n' r) [
        | inl q ↦ inr (Memᴰ.head (sym q ∙ same))
        | inr m ↦ inr (Memᴰ.tail m)
      ]
    ]

-- A task that starts PENDING and ends COMPLETED, by accepted status changes, was RUNNING.
pub completed_needs_running :
    (ts : List TaskStatus)
    → run_task TaskStatus.pending ts ≡ moved TaskStatus.completed
    → Memᴰ TaskStatus.running ts
completed_needs_running ts h =
    elim (completed_needs_running_from TaskStatus.pending ts (λ e. ground arith) h) [
      | inl e ↦ absurd (ground arith)
      | inr m ↦ m
    ]

-- How much of its life a pipeline has used up: 0 before it runs, 1 while it runs, waits or fails,
-- 2 when it is over.
abbrev pub stage : PipelineStatus → ℕ
stage PipelineStatus.pending = 0
stage PipelineStatus.scheduled = 0
stage PipelineStatus.completed = 2
stage PipelineStatus.cancelled = 2
stage _ = 1

-- A pipeline never goes back: an accepted change keeps or raises its stage, a pipeline that is over
-- accepts none, COMPLETED comes only from RUNNING, and a RUNNING pipeline cannot be cancelled.
pub pipeline_progress :
    (s t u : PipelineStatus)
    → transition_pipeline s t ≡ moved u
    → (u ≡ t)
      × (stage s ≤ stage u)
      × (stage s ≤ 1)
      × (u ≡ PipelineStatus.completed → s ≡ PipelineStatus.running)
      × (u ≡ PipelineStatus.cancelled → s ≢ PipelineStatus.running)
unfolding transition_pipeline
pipeline_progress s t u h =
    (ground arith, ground arith, ground arith, λ e. ground arith, λ e r. ground arith)
