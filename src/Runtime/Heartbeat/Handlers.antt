-- ===== src/Runtime/Heartbeat/Handlers.antt =====
-- One check with a failure handler that touches only the component that failed, as the engine's does:
-- it may beat for it, or take it off the manager.
use text.Mathlib.TextPositions.{eq_refl}
use ai_enterprise_os.Prelude.{
  sym, subst, ℕ, ◌+◌, String, ◌≡◌, refl, ◌∙◌, true, false, List, [], ◌∷◌, ◌==◌, arith, leb, elem,
  elem-append, IsDistinct, eq_iff, Bool-cases, inl, inr,
}
use ai_enterprise_os.Dict.{lookup, keys}
use ai_enterprise_os.Runtime.Heartbeat.{
  HeartbeatManager, Failure, Callback, notify, misses, is_stale, seconds_since, set_misses,
  timeout_of, check_component, check_components,
}
use ai_enterprise_os.Runtime.Heartbeat.Misses.{misses-set_misses}
use ai_enterprise_os.Runtime.Heartbeat.Exact.{names, names-append, next_misses, is_reported}

-- What stays of a component `k` and of the settings.
pub record Kept (k : String) (m m' : HeartbeatManager) : Type 0 where
  pub seen : lookup k m'.heartbeats ≡ lookup k m.heartbeats
  pub threshold : m'.missed_threshold ≡ m.missed_threshold
  pub timeout : m'.timeout_seconds ≡ m.timeout_seconds
  pub distinct : IsDistinct (keys m.heartbeats) → IsDistinct (keys m'.heartbeats)

-- The handler leaves the counts and the heartbeats of the other components, and the settings.
pub record IsOwn (on_failure : Callback) : Type 0 where
  pub counts :
      (f : Failure) (k : String) (m : HeartbeatManager)
      → (f.component == k) ≡ false
      → misses k (notify on_failure f m) ≡ misses k m
  pub keeps :
      (f : Failure) (k : String) (m : HeartbeatManager)
      → (f.component == k) ≡ false
      → Kept k m (notify on_failure f m)

pub Kept-refl : (k : String) (m : HeartbeatManager) → Kept k m m
Kept-refl k m = record { seen = refl; threshold = refl; timeout = refl; distinct = λ d. d }

pub Kept-trans : (k : String) (m n l : HeartbeatManager) → Kept k m n → Kept k n l → Kept k m l
Kept-trans k m n l a b = record {
  seen = b.seen ∙ a.seen;
  threshold = b.threshold ∙ a.threshold;
  timeout = b.timeout ∙ a.timeout;
  distinct = λ d. b.distinct (a.distinct d);
}

pub is_stale-Kept :
    (k : String) (t : ℕ) (m m' : HeartbeatManager) → Kept k m m' → is_stale k t m' ≡ is_stale k t m
unfolding is_stale seconds_since
is_stale-Kept k t m m' h = rw (h.seen, h.timeout) refl

module _ (on_failure : Callback) (own : IsOwn on_failure) (now : ℕ) where
  check_component-other :
      (c k : String) (m : HeartbeatManager)
      → (c == k) ≡ false
      → Kept k m (check_component on_failure c now m).0
        × (misses k (check_component on_failure c now m).0 ≡ misses k m)
        × (elem k (names (check_component on_failure c now m).1) ≡ false)
  unfolding check_component
  check_component-other c k m ne =
      let m₁ = set_misses c (misses c m + 1) m in
      let handled = notify on_failure (timeout_of c) m₁ in
      let one = misses-set_misses c k (misses c m + 1) m in
      elim (Bool-cases (is_stale c now m)) [
        | inl q ↦ elim (Bool-cases (leb m.missed_threshold (misses c m + 1))) [
          | inl due ↦
              let kept = own.keeps (timeout_of c) k m₁ ne in
              let same = own.counts (timeout_of c) k m₁ ne in
              let reset = misses-set_misses c k 0 handled in
              rw (q, due)
                (
                  record {
                    seen = kept.seen;
                    threshold = kept.threshold;
                    timeout = kept.timeout;
                    distinct = kept.distinct;
                  },
                  ground (arith, reset, same, one, ne),
                  ground (arith, ne),
                )
          | inr early ↦
              rw (q, early)
                (
                  record { seen = refl; threshold = refl; timeout = refl; distinct = λ d. d },
                  ground (arith, one, ne),
                  refl,
                )
        ]
        | inr q ↦
            let reset = misses-set_misses c k 0 m in
            rw q (
              record { seen = refl; threshold = refl; timeout = refl; distinct = λ d. d },
              ground (arith, reset, ne),
              refl,
            )
      ]

  pub check_components-other :
      (cs : List String) (k : String) (m : HeartbeatManager)
      → elem k cs ≡ false
      → Kept k m (check_components on_failure cs now m).0
        × (misses k (check_components on_failure cs now m).0 ≡ misses k m)
        × (elem k (names (check_components on_failure cs now m).1) ≡ false)
  unfolding check_components
  check_components-other [] k m out = (Kept-refl k m, refl, refl)
  check_components-other (c ∷ cs) k m out =
      let m₁ = (check_component on_failure c now m).0 in
      let m₂ = (check_components on_failure cs now m₁).0 in
      let (kept, same, quiet) = check_component-other c k m (ground arith) in
      let (kept', same', quiet') = check_components-other cs k m₁ (ground arith) in
      let found = (check_component on_failure c now m).1 in
      let more = (check_components on_failure cs now m₁).1 in
      (
        Kept-trans k m m₁ m₂ kept kept',
        same' ∙ same,
        rw (names-append found more, elem-append k (names found) (names more), quiet, quiet') refl,
      )

  -- What a check makes of a component, by what it is before.
  abbrev pub Checked : String → HeartbeatManager → HeartbeatManager × List Failure → Type 0
  Checked k m (m', found) =
      (misses k m' ≡ next_misses (is_stale k now m) m.missed_threshold (misses k m))
      × (elem k (names found) ≡ is_reported (is_stale k now m) m.missed_threshold (misses k m))
      × (elem k (names found) ≡ false → Kept k m m')

  check_component-Checked :
      (k : String) (m : HeartbeatManager) → Checked k m (check_component on_failure k now m)
  unfolding check_component
  check_component-Checked k m =
      let n = misses k m + 1 in
      let handled = notify on_failure (timeout_of k) (set_misses k n m) in
      elim (Bool-cases (is_stale k now m)) [
        | inl q ↦ elim (Bool-cases (leb m.missed_threshold n)) [
          | inl due ↦
              rw (q, due)
                (
                  rw (misses-set_misses k k 0 handled, eq_refl k) refl,
                  rw (eq_refl k) refl,
                  λ quiet. absurd (ground (arith, eq_refl k, quiet)),
                )
          | inr early ↦
              rw (q, early)
                (
                  rw (misses-set_misses k k n m, eq_refl k) refl,
                  refl,
                  λ quiet. record {
                    seen = refl;
                    threshold = refl;
                    timeout = refl;
                    distinct = λ d. d;
                  },
                )
        ]
        | inr q ↦ rw q (
          rw (misses-set_misses k k 0 m, eq_refl k) refl,
          refl,
          λ quiet. record { seen = refl; threshold = refl; timeout = refl; distinct = λ d. d },
        )
      ]

  pub check_components-Checked :
      (cs : List String) (k : String) (m : HeartbeatManager)
      → IsDistinct cs
      → elem k cs ≡ true
      → Checked k m (check_components on_failure cs now m)
  unfolding check_components
  check_components-Checked [] k m d here = absurd (ground arith)
  check_components-Checked (c ∷ cs) k m d here =
      let m₁ = (check_component on_failure c now m).0 in
      let m₂ = (check_components on_failure cs now m₁).0 in
      let found = (check_component on_failure c now m).1 in
      let more = (check_components on_failure cs now m₁).1 in
      let split = elem-append k (names found) (names more) in
      elim (Bool-cases (c == k)) [
        | inl q ↦
            let same : c ≡ k = (eq_iff c k).0 q in
            let (count, reported, kept) =
              subst (λ x. Checked k m (check_component on_failure x now m)) (sym same)
                (check_component-Checked k m) in
            let (kept', count', quiet') =
              check_components-other cs k m₁ (subst (λ x. elem x cs ≡ false) same d.0) in
            (
              count' ∙ count,
              rw (names-append found more, split) (ground (arith, reported, quiet')),
              λ none_found.
                  Kept-trans k m m₁ m₂
                    (kept (ground (arith, names-append found more, split, none_found))) kept',
            )
        | inr q ↦
            let (kept, count, quiet) = check_component-other c k m q in
            let (count', reported', kept') =
              check_components-Checked cs k m₁ d.1 (ground (arith, here, q)) in
            let stale = is_stale-Kept k now m m₁ kept in
            let threshold = kept.threshold in
            (
              count' ∙ rw (stale, threshold, count) refl,
              rw (names-append found more, split, quiet)
                  (reported' ∙ rw (stale, threshold, count) refl),
              λ none_found.
                  Kept-trans k m m₁ m₂ kept
                    (kept' (ground (arith, names-append found more, split, none_found))),
            )
      ]
