-- ===== src/Runtime/Watchdog.antt =====
-- src/ai_company/runtime/watchdog.py: task deadlines, and the check that runs the heartbeats too. Times
-- are microseconds, as in Runtime/Heartbeat. `on_failure` may change the watchdog, and what it
-- raises is caught. The thread that repeats the check, locks and logging are left out.
pub mod Deadlines
use ai_enterprise_os.Prelude.{
  ℕ, zero, ◌-◌, String, Bool, true, false, Option, none, some, List, [], ◌∷◌, ◌++◌, if◌then◌else◌,
  ltb, eqb,
}
use ai_enterprise_os.Dict.{Dict, lookup, insert, erase, get_or, keys}
use ai_enterprise_os.Runtime.Heartbeat
use ai_enterprise_os.Runtime.Heartbeat.{HeartbeatManager, Failure}

pub record Watchdog : Type 0 where
  pub enabled : Bool
  pub deadline_seconds : ℕ
  pub heartbeats : Option HeartbeatManager
  pub tasks : Dict ℕ
  pub task_deadlines : Dict ℕ

abbrev pub Callback : Type 0
Callback = Option (String → String → Watchdog → Watchdog)

-- `deadline_seconds or self.deadline_seconds`
or_default : Option ℕ → ℕ → ℕ
or_default none d = d
or_default (some n) d = if eqb n 0 then d else n

unfoldable pub track_task : String → Option ℕ → ℕ → Watchdog → Watchdog
unfolding or_default
track_task task_id deadline now w = record w {
  tasks = insert task_id now w.tasks;
  task_deadlines = insert task_id (or_default deadline w.deadline_seconds) w.task_deadlines;
}

unfoldable pub untrack_task : String → Watchdog → Watchdog
untrack_task task_id w = record w {
  tasks = erase task_id w.tasks;
  task_deadlines = erase task_id w.task_deadlines;
}

overrun_since : Option ℕ → ℕ → ℕ → Bool
overrun_since none deadline now = false
overrun_since (some started) deadline now = ltb deadline (now - started)

-- Deadlines are not negative, so a task from the future (`now - started` below 0) is not overrun.
unfoldable pub task_overrun : String → ℕ → Watchdog → Bool
unfolding overrun_since
task_overrun task_id now w =
    overrun_since (lookup task_id w.tasks) (get_or task_id w.deadline_seconds w.task_deadlines) now

notify : Callback → Failure → Watchdog → Watchdog
notify none f w = w
notify (some on_failure) f w = on_failure f.component f.reason w

abbrev pub exceeded : String → Failure
exceeded task_id = record { component = task_id; reason = "deadline_exceeded" }

unfoldable pub check_heartbeats :
    Heartbeat.Callback → Option HeartbeatManager → ℕ → Option HeartbeatManager × List Failure
check_heartbeats on_stale none now = (none, [])
check_heartbeats on_stale (some m) now =
    let (m', found) = Heartbeat.check on_stale now m in (some m', found)

module _ (on_failure : Callback) where
  -- The body of the loop of `check`.
  unfoldable pub check_task : String → ℕ → Watchdog → Watchdog × List Failure
  unfolding notify
  check_task task_id now w =
      if task_overrun task_id now w
      then (notify on_failure (exceeded task_id) (untrack_task task_id w), exceeded task_id ∷ [])
      else (w, [])

  unfoldable pub check_tasks : List String → ℕ → Watchdog → Watchdog × List Failure
  check_tasks [] now w = (w, [])
  check_tasks (k ∷ ks) now w =
      let (w', found) = check_task k now w in
      let (w'', more) = check_tasks ks now w' in (w'', found ++ more)

  unfoldable pub check : Heartbeat.Callback → ℕ → Watchdog → Watchdog × List Failure
  unfolding check_heartbeats
  check on_stale now w =
      let (hb, stale) = check_heartbeats on_stale w.heartbeats now in
      let w₁ : Watchdog = record w { heartbeats = hb } in
      let (w₂, overrun) = check_tasks (keys w₁.tasks) now w₁ in (w₂, stale ++ overrun)
