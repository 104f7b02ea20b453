-- ===== src/Runtime/Heartbeat/Exact.antt =====
-- What one check does to each component: its count of misses, and whether it is reported.
use ai_enterprise_os.Prelude.{
  ℕ, ◌+◌, String, ◌≡◌, refl, Bool, false, none, List, [], ◌∷◌, ◌++◌, arith, ◌==◌, eq_iff,
  if◌then◌else◌, leb, elem, elem-append, IsDistinct, ◌∙◌, Bool-cases, inl, inr,
}
use ai_enterprise_os.Dict.{has, keys}
use ai_enterprise_os.Runtime.Heartbeat.{
  HeartbeatManager, Failure, is_stale, misses, set_misses, check_component, check_components, check,
  seconds_since,
}
use ai_enterprise_os.Dict.Keys.{elem-keys}
use ai_enterprise_os.Runtime.Heartbeat.Misses.{misses-set_misses}

abbrev pub names : List Failure → List String
names [] = []
names (f ∷ fs) = f.component ∷ names fs

pub names-append : (fs gs : List Failure) → names (fs ++ gs) ≡ names fs ++ names gs
names-append [] gs = refl
names-append (f ∷ fs) gs = rw (names-append fs gs)

-- The count after one more check of a monitored component.
abbrev pub next_misses : Bool → ℕ → ℕ → ℕ
next_misses stale threshold n = if stale then (if leb threshold (n + 1) then 0 else n + 1) else 0

abbrev pub is_reported : Bool → ℕ → ℕ → Bool
is_reported stale threshold n = if stale then leb threshold (n + 1) else false

module _ (now : ℕ) where
  -- What one pass over the components leaves alone.
  check_component-frame :
      (c : String) (m : HeartbeatManager)
      → ((check_component none c now m).0.heartbeats ≡ m.heartbeats)
        × ((check_component none c now m).0.missed_threshold ≡ m.missed_threshold)
        × ((check_component none c now m).0.timeout_seconds ≡ m.timeout_seconds)
  unfolding check_component
  check_component-frame c m = ground arith

  check_component-misses :
      (c k : String) (m : HeartbeatManager)
      → misses k (check_component none c now m).0 ≡ (
          if c == k
          then next_misses (is_stale c now m) m.missed_threshold (misses c m)
          else misses k m)
  unfolding check_component
  check_component-misses c k m = ground (
    arith,
    misses-set_misses c k 0 m,
    misses-set_misses c k (misses c m + 1) m,
    misses-set_misses c k 0 (set_misses c (misses c m + 1) m),
    eq_iff c k,
  )

  pub check_components-frame :
      (cs : List String) (m : HeartbeatManager)
      → ((check_components none cs now m).0.heartbeats ≡ m.heartbeats)
        × ((check_components none cs now m).0.missed_threshold ≡ m.missed_threshold)
        × ((check_components none cs now m).0.timeout_seconds ≡ m.timeout_seconds)
  unfolding check_components
  check_components-frame [] m = (refl, refl, refl)
  check_components-frame (c ∷ cs) m =
      let (a, b, d) = check_component-frame c m in
      let (a', b', d') = check_components-frame cs (check_component none c now m).0 in
      (a' ∙ a, b' ∙ b, d' ∙ d)

  pub is_stale-frame :
      (k : String) (t : ℕ) (m m' : HeartbeatManager)
      → m'.heartbeats ≡ m.heartbeats
      → m'.timeout_seconds ≡ m.timeout_seconds
      → is_stale k t m' ≡ is_stale k t m
  unfolding is_stale seconds_since
  is_stale-frame k t m m' h e = rw (h, e) refl

  check_component-names :
      (c k : String) (m : HeartbeatManager)
      → elem k (names (check_component none c now m).1)
        ≡ (if c == k then is_reported (is_stale c now m) m.missed_threshold (misses c m) else false)
  unfolding check_component
  check_component-names c k m = ground (arith, eq_iff c k)

  check_components-exact :
      (cs : List String) (k : String) (m : HeartbeatManager)
      → IsDistinct cs
      → (misses k (check_components none cs now m).0 ≡ (
          if elem k cs
          then next_misses (is_stale k now m) m.missed_threshold (misses k m)
          else misses k m))
        × (elem k (names (check_components none cs now m).1) ≡ (
            if elem k cs
            then is_reported (is_stale k now m) m.missed_threshold (misses k m)
            else false))
  unfolding check_components
  check_components-exact [] k m h = (refl, refl)
  check_components-exact (c ∷ cs) k m h =
      let m' = (check_component none c now m).0 in
      let (hb, th, tm) = check_component-frame c m in
      let (counts, found) = check_components-exact cs k m' h.1 in
      let stale = is_stale-frame k now m m' hb tm in
      let here = check_component-misses c k m in
      let named = check_component-names c k m in
      let split =
        elem-append k (names (check_component none c now m).1)
          (names (check_components none cs now m').1) in
      rw (names-append (check_component none c now m).1 (check_components none cs now m').1, split)
        (elim (Bool-cases (c == k)) [
          | inl q ↦
              let same : c ≡ k = (eq_iff c k).0 q in
              let out : elem k cs ≡ false = rw (← same) h.0 in
              rw (q, counts, found, out, named, here, q, same) (ground arith, ground arith)
          | inr q ↦ rw (q, counts, found, stale, th, named, here, q) (refl, refl)
        ])

  -- One check, with no failure handler: a component that is not monitored keeps its count and is
  -- not reported; one that is heard loses its count; one that is silent is counted once more, and
  -- is reported, with its count set back, exactly when the count reaches the threshold.
  pub check-exact :
      (m : HeartbeatManager) (k : String)
      → IsDistinct (keys m.heartbeats)
      → (misses k (check none now m).0 ≡ (
          if has k m.heartbeats
          then next_misses (is_stale k now m) m.missed_threshold (misses k m)
          else misses k m))
        × (elem k (names (check none now m).1) ≡ (
            if has k m.heartbeats
            then is_reported (is_stale k now m) m.missed_threshold (misses k m)
            else false))
  unfolding check
  check-exact m k h =
      rw (← elem-keys k m.heartbeats) (check_components-exact (keys m.heartbeats) k m h)
