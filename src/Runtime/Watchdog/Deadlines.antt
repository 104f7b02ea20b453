-- ===== src/Runtime/Watchdog/Deadlines.antt =====
-- When a task is overrun, and what one check does about it.
use text.Mathlib.TextPositions.{eq_refl}
use ai_enterprise_os.Prelude.{
  ℕ, ◌+◌, String, ◌≡◌, refl, sym, false, ◌&&◌, none, some, List, [], ◌∷◌, ◌++◌, if◌then◌else◌, ltb,
  ◌==◌, eq_iff, arith, elem, elem-append, IsDistinct, Bool-cases, inl, inr,
}
use ai_enterprise_os.Dict.{
  lookup, has, keys, lookup-insert, lookup-erase, get_or-insert, get_or-erase,
  lookup-none_of_not_has,
}
use ai_enterprise_os.Dict.Keys.{elem-keys}
use ai_enterprise_os.Runtime.Heartbeat
use ai_enterprise_os.Runtime.Heartbeat.{HeartbeatManager, Failure}
use ai_enterprise_os.Runtime.Heartbeat.Exact.{names, names-append}
use ai_enterprise_os.Runtime.Watchdog.{
  Watchdog, track_task, untrack_task, task_overrun, check_task, check_tasks, check,
  check_heartbeats,
}

-- A task tracked at `start` with a deadline of its own is overrun at `now` exactly when more than
-- that time has passed, until it is untracked; and no other task's answer changes.
pub overrun_iff :
    (k j : String) (d start now : ℕ) (w : Watchdog)
    → (task_overrun k now (track_task k (some (d + 1)) start w) ≡ ltb (start + d + 1) now)
      × (task_overrun k now (untrack_task k w) ≡ false)
      × ((k == j) ≡ false
          → (task_overrun j now (track_task k (some (d + 1)) start w) ≡ task_overrun j now w)
            × (task_overrun j now (untrack_task k w) ≡ task_overrun j now w))
unfolding task_overrun track_task untrack_task
overrun_iff k j d start now w = (
  rw (lookup-insert k k start w.tasks, get_or-insert k k, eq_refl k) (ground arith),
  rw (lookup-erase k k w.tasks, eq_refl k) refl,
  λ n. (
    rw (lookup-insert k j start w.tasks, get_or-insert k j, n) refl,
    rw (lookup-erase k j w.tasks, get_or-erase k j, n) refl,
  ),
)

module _ (now : ℕ) where
  overrun-untrack :
      (k j : String) (w : Watchdog)
      → task_overrun j now (untrack_task k w) ≡ (if k == j then false else task_overrun j now w)
  unfolding task_overrun untrack_task
  overrun-untrack k j w =
      ground (arith, lookup-erase k j w.tasks, get_or-erase k j w.deadline_seconds w.task_deadlines)

  check_task-overrun :
      (k j : String) (w : Watchdog)
      → task_overrun j now (check_task none k now w).0
        ≡ (if k == j then false else task_overrun j now w)
  unfolding check_task
  check_task-overrun k j w = elim (Bool-cases (task_overrun k now w)) [
    | inl e ↦ rw e (overrun-untrack k j w)
    | inr e ↦ elim (Bool-cases (k == j)) [
      | inl q ↦ let same : k ≡ j = (eq_iff k j).0 q in rw (e, q, ← same) e
      | inr q ↦ rw (e, q) refl
    ]
  ]

  check_task-tasks :
      (k j : String) (w : Watchdog)
      → lookup j (check_task none k now w).0.tasks
        ≡ (if k == j && task_overrun k now w then none else lookup j w.tasks)
  unfolding check_task untrack_task
  check_task-tasks k j w = ground (arith, lookup-erase k j w.tasks)

  check_task-names :
      (k j : String) (w : Watchdog)
      → elem j (names (check_task none k now w).1) ≡ (k == j && task_overrun k now w)
  unfolding check_task
  check_task-names k j w = ground arith

  -- What the loop over distinct tasks does to the task `j`.
  record Outcome (ks : List String) (j : String) (w : Watchdog) : Type 0 where
    overrun :
        task_overrun j now (check_tasks none ks now w).0
        ≡ (if elem j ks then false else task_overrun j now w)
    tasks :
        lookup j (check_tasks none ks now w).0.tasks
        ≡ (if elem j ks && task_overrun j now w then none else lookup j w.tasks)
    named : elem j (names (check_tasks none ks now w).1) ≡ (elem j ks && task_overrun j now w)

  check_tasks-Outcome :
      (ks : List String) (j : String) (w : Watchdog) → IsDistinct ks → Outcome ks j w
  unfolding check_tasks
  check_tasks-Outcome [] j w h = record { overrun = refl; tasks = refl; named = refl }
  check_tasks-Outcome (k ∷ ks) j w h =
      let w' = (check_task none k now w).0 in
      let ih = check_tasks-Outcome ks j w' h.1 in
      let o = check_task-overrun k j w in
      let t = check_task-tasks k j w in
      let n = check_task-names k j w in
      let split = names-append (check_task none k now w).1 (check_tasks none ks now w').1 in
      let split' =
        elem-append j (names (check_task none k now w).1) (names (check_tasks none ks now w').1) in
      elim (Bool-cases (k == j)) [
        | inl q ↦
            let same : k ≡ j = (eq_iff k j).0 q in
            let out : elem j ks ≡ false = rw (← same) h.0 in
            record {
              overrun = rw (ih.overrun, out, o, q) refl;
              tasks = rw (ih.tasks, out, t, q, same) refl;
              named = rw (split, split', ih.named, out, n, q, same) (ground arith);
            }
        | inr q ↦ record {
          overrun = rw (ih.overrun, o, q) refl;
          tasks = rw (ih.tasks, o, t, q) refl;
          named = rw (split, split', ih.named, n, o, q) refl;
        }
      ]

  untracked : (j : String) (w : Watchdog) → has j w.tasks ≡ false → task_overrun j now w ≡ false
  unfolding task_overrun
  untracked j w h = rw (lookup-none_of_not_has j w.tasks h) refl

  -- One check, with no failure handler of its own: behind the heartbeats' failures it reports
  -- exactly the overrun tasks; those are no longer tracked, every other task is tracked as before,
  -- and no task is overrun any more, so that a second check at that time reports none of them.
  pub check-overruns :
      (on_stale : Heartbeat.Callback) (w : Watchdog) (j : String)
      → IsDistinct (keys w.tasks)
      → (overrun : List Failure) × ((check none on_stale now w).1
          ≡ (check_heartbeats on_stale w.heartbeats now).1 ++ overrun)
        × (elem j (names overrun) ≡ task_overrun j now w)
        × (lookup j (check none on_stale now w).0.tasks
            ≡ (if task_overrun j now w then none else lookup j w.tasks))
        × (task_overrun j now (check none on_stale now w).0 ≡ false)
  unfolding check task_overrun
  check-overruns on_stale w j h =
      let w₁ : Watchdog = record w {
        heartbeats = (check_heartbeats on_stale w.heartbeats now).0;
      } in
      let o = check_tasks-Outcome (keys w.tasks) j w₁ h in
      let there = elem-keys j w.tasks in
      let away = untracked j w in
      let overrun = (check_tasks none (keys w.tasks) now w₁).1 in
      elim (Bool-cases (has j w.tasks)) [
        | inl q ↦ (
          overrun,
          refl,
          rw (o.named, there, q) refl,
          rw (o.tasks, there, q) refl,
          rw (o.overrun, there, q) refl,
        )
        | inr q ↦ (
          overrun,
          refl,
          rw (o.named, there, q) (sym (away q)),
          rw (o.tasks, there, q, away q) refl,
          rw (o.overrun, there, q) (away q),
        )
      ]
