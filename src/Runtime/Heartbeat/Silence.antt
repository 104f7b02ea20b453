-- ===== src/Runtime/Heartbeat/Silence.antt =====
-- When a silent component is reported: once for every `missed_threshold` checks in a row.
use text.Mathlib.TextPositions.{eq_refl}
use ai_enterprise_os.Prelude.{
  ℕ, suc, ◌+◌, ◌≤◌, ◌<◌, String, ◌≡◌, refl, sym, ap, true, false, Option, none, some, is_some, List,
  [], ◌∷◌, arith, if◌then◌else◌, length, All, elem, IsDistinct, ◌∙◌,
}
use ai_enterprise_os.Dict.{lookup, has, has-lookup, insert, keys, get_or-insert, lookup-insert}
use ai_enterprise_os.Dict.Keys.{elem-keys}
use ai_enterprise_os.Runtime.Heartbeat.{
  HealthStatus, Heartbeat, HeartbeatManager, Callback, register, beat, is_stale, misses, check,
  seconds_since, previous_of,
}
use ai_enterprise_os.Runtime.Heartbeat.Exact.{names}
use ai_enterprise_os.Runtime.Heartbeat.Handlers.{
  Kept, IsOwn, Checked, is_stale-Kept, check_components-Checked,
}

-- The manager after checks at the given times, and how many of them reported `k`.
module _ (on_failure : Callback) where
  abbrev pub check_at : List ℕ → HeartbeatManager → HeartbeatManager
  check_at [] m = m
  check_at (t ∷ ts) m = check_at ts (check on_failure t m).0

  abbrev pub reports : String → List ℕ → HeartbeatManager → ℕ
  reports k [] m = 0
  reports k (t ∷ ts) m =
      let rest = reports k ts (check on_failure t m).0 in
      if elem k (names (check on_failure t m).1) then rest + 1 else rest

-- A monitored component that every one of the checks finds silent.
pub record IsSilent (k : String) (ts : List ℕ) (m : HeartbeatManager) : Type 0 where
  pub distinct : IsDistinct (keys m.heartbeats)
  pub monitored : has k m.heartbeats ≡ true
  pub stale : All (λ t. is_stale k t m ≡ true) ts

All-stale-Kept :
    (k : String) (ts : List ℕ) (m m' : HeartbeatManager)
    → Kept k m m'
    → All (λ t. is_stale k t m ≡ true) ts
    → All (λ t. is_stale k t m' ≡ true) ts
All-stale-Kept k [] m m' h s = tt
All-stale-Kept k (t ∷ ts) m m' h s =
    (is_stale-Kept k t m m' h ∙ s.0, All-stale-Kept k ts m m' h s.1)

module _ (on_failure : Callback) (own : IsOwn on_failure) where
  module _ (k : String) (t : ℕ) (ts : List ℕ) (m : HeartbeatManager)
      (h : IsSilent k (t ∷ ts) m) where
    check-Checked : Checked on_failure own t k m (check on_failure t m)
    unfolding check
    check-Checked =
        check_components-Checked on_failure own t (keys m.heartbeats) k m h.distinct
          (elem-keys k m.heartbeats ∙ h.monitored)

    -- An early check counts the silence, and the component stays as it is.
    check_early :
        misses k m + 1 < m.missed_threshold
        → (misses k (check on_failure t m).0 ≡ misses k m + 1)
          × (elem k (names (check on_failure t m).1) ≡ false)
          × ((check on_failure t m).0.missed_threshold ≡ m.missed_threshold)
          × IsSilent k ts (check on_failure t m).0
    check_early lt =
        let (count, reported, kept) = check-Checked in
        let quiet : elem k (names (check on_failure t m).1) ≡ false =
          ground (arith, reported, h.stale.0, lt) in
        let same = kept quiet in
        (
          ground (arith, count, h.stale.0, lt),
          quiet,
          same.threshold,
          record {
            distinct = same.distinct h.distinct;
            monitored =
                has-lookup k (check on_failure t m).0.heartbeats
                ∙ ap is_some same.seen
                ∙ sym (has-lookup k m.heartbeats)
                ∙ h.monitored;
            stale = All-stale-Kept k ts m (check on_failure t m).0 same h.stale.1;
          },
        )

    check_due :
        misses k m + 1 ≡ m.missed_threshold
        → (misses k (check on_failure t m).0 ≡ 0) × (elem k (names (check on_failure t m).1) ≡ true)
    check_due e =
        let (count, reported, kept) = check-Checked in ground (arith, count, reported, h.stale.0, e)

  silent_early :
      (k : String) (ts : List ℕ) (m : HeartbeatManager)
      → IsSilent k ts m
      → misses k m + length ts < m.missed_threshold
      → reports on_failure k ts m ≡ 0
  silent_early k [] m h lt = refl
  silent_early k (t ∷ ts) m h lt =
      let (n, quiet, th, later) = check_early k t ts m h (omega arith) in
      rw quiet (silent_early k ts (check on_failure t m).0 later (omega arith))

  silent_due :
      (k : String) (t : ℕ) (ts : List ℕ) (m : HeartbeatManager)
      → IsSilent k (t ∷ ts) m
      → misses k m + suc (length ts) ≡ m.missed_threshold
      → (reports on_failure k (t ∷ ts) m ≡ 1) × (misses k (check_at on_failure (t ∷ ts) m) ≡ 0)
  silent_due k t [] m h e = let (n, due) = check_due k t [] m h (omega arith) in (rw due refl, n)
  silent_due k t (u ∷ ts) m h e =
      let (n, quiet, th, later) = check_early k t (u ∷ ts) m h (omega arith) in
      rw quiet (silent_due k u ts (check on_failure t m).0 later (omega arith))

  -- With a failure handler that touches only the component that failed, as one that beats for it or
  -- takes it off the manager, or with none: a monitored component that stays silent is not reported
  -- while its consecutive misses are below the threshold; with the check that reaches it, it has been
  -- reported once, and its count starts again from 0.
  pub silence_reported :
      (k : String) (t : ℕ) (ts : List ℕ) (m : HeartbeatManager)
      → IsSilent k (t ∷ ts) m
      → (misses k m + length (t ∷ ts) < m.missed_threshold → reports on_failure k (t ∷ ts) m ≡ 0)
        × (misses k m + length (t ∷ ts) ≡ m.missed_threshold
            → (reports on_failure k (t ∷ ts) m ≡ 1)
              × (misses k (check_at on_failure (t ∷ ts) m) ≡ 0))
  silence_reported k t ts m h = (silent_early k (t ∷ ts) m h, silent_due k t ts m h)

previous_of-timeout :
    (o : Option Heartbeat) (c : String) (now : ℕ) (m : HeartbeatManager)
    → (previous_of o c now m).0.timeout_seconds ≡ m.timeout_seconds
unfolding previous_of register
previous_of-timeout (some p) c now m = refl
previous_of-timeout none c now m = ground arith

-- A beat at time `now` makes the component monitored, with no misses and the next sequence number,
-- and it is not stale until the timeout has passed.
pub beat_revives :
    (c : String) (s : HealthStatus) (now later : ℕ) (m : HeartbeatManager)
    → later ≤ now + m.timeout_seconds
    → (misses c (beat c s now m).0 ≡ 0)
      × (lookup c (beat c s now m).0.heartbeats ≡ some (beat c s now m).1)
      × (is_stale c later (beat c s now m).0 ≡ false)
      × ((h : Heartbeat) → lookup c m.heartbeats ≡ some h → (beat c s now m).1.seq ≡ h.seq + 1)
unfolding beat register is_stale seconds_since misses
beat_revives c s now later m le =
    let (m', previous) = previous_of (lookup c m.heartbeats) c now m in
    let h : Heartbeat = record {
      component = c;
      sent_at = now;
      received_at = now;
      seq = previous.seq + 1;
      interval_seconds = previous.interval_seconds;
      status = s;
    } in
    let stored : lookup c (insert c h m'.heartbeats) ≡ some h =
      rw (lookup-insert c c h m'.heartbeats, eq_refl c) in
    (
      rw (get_or-insert c c 0 0 m'.consecutive_misses, eq_refl c),
      stored,
      rw stored (ground (arith, previous_of-timeout (lookup c m.heartbeats) c now m)),
      λ p e. rw e refl,
    )
