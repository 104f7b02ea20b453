-- ===== src/Runtime/Heartbeat/Beats.antt =====
-- A beat for a component, and taking it off the manager, leave the others as they are.
use ai_enterprise_os.Prelude.{ℕ, Option, some, none, ◌+◌, String, ◌≡◌, refl, ◌∙◌, false, ◌==◌}
use ai_enterprise_os.Dict.{lookup, insert, lookup-insert, lookup-erase, get_or-insert, get_or-erase}
use ai_enterprise_os.Dict.Keys.{IsDistinct-insert, IsDistinct-erase}
use ai_enterprise_os.Runtime.Heartbeat.{
  HealthStatus, Heartbeat, HeartbeatManager, beat, register, previous_of, unregister, misses,
}
use ai_enterprise_os.Runtime.Heartbeat.Handlers.{Kept, Kept-refl, Kept-trans}

-- A beat for a component touches only that component, and so does taking it off the manager.
module _ (c k : String) (m : HeartbeatManager) (ne : (c == k) ≡ false) where
  put-Kept :
      (h : Heartbeat)
      → let m' : HeartbeatManager = record m {
        heartbeats = insert c h m.heartbeats;
        consecutive_misses = insert c 0 m.consecutive_misses;
      } in
        Kept k m m' × (misses k m' ≡ misses k m)
  unfolding misses
  put-Kept h = (
    record {
      seen = rw (lookup-insert c k h m.heartbeats, ne) refl;
      threshold = refl;
      timeout = refl;
      distinct = IsDistinct-insert c h m.heartbeats;
    },
    rw (get_or-insert c k 0 0 m.consecutive_misses, ne) refl,
  )

  pub unregister-Kept : Kept k m (unregister c m).0 × (misses k (unregister c m).0 ≡ misses k m)
  unfolding unregister misses
  unregister-Kept = (
    record {
      seen = rw (lookup-erase c k m.heartbeats, ne) refl;
      threshold = refl;
      timeout = refl;
      distinct = IsDistinct-erase c m.heartbeats;
    },
    rw (get_or-erase c k 0 m.consecutive_misses, ne) refl,
  )

previous_of-Kept :
    (c k : String) (now : ℕ) (m : HeartbeatManager)
    → (c == k) ≡ false
    → (o : Option Heartbeat) → lookup c m.heartbeats ≡ o
    → Kept k m (previous_of o c now m).0 × (misses k (previous_of o c now m).0 ≡ misses k m)
unfolding previous_of register
previous_of-Kept c k now m ne (some p) e = (Kept-refl k m, refl)
previous_of-Kept c k now m ne none e = rw e (put-Kept c k m ne _)

pub beat-Kept :
    (c k : String) (s : HealthStatus) (now : ℕ) (m : HeartbeatManager)
    → (c == k) ≡ false
    → Kept k m (beat c s now m).0 × (misses k (beat c s now m).0 ≡ misses k m)
unfolding beat
beat-Kept c k s now m ne =
    let (m', previous) = previous_of (lookup c m.heartbeats) c now m in
    let h : Heartbeat = record {
      component = c;
      sent_at = now;
      received_at = now;
      seq = previous.seq + 1;
      interval_seconds = previous.interval_seconds;
      status = s;
    } in
    let (kept, count) = previous_of-Kept c k now m ne (lookup c m.heartbeats) refl in
    let (kept', count') = put-Kept c k m' ne h in (Kept-trans k m m' _ kept kept', count' ∙ count)
