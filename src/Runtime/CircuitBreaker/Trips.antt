-- ===== src/Runtime/CircuitBreaker/Trips.antt =====
-- When the breaker is open, and what it does to a call then.
use ai_enterprise_os.Prelude.{
  ℕ, ◌+◌, ◌≤◌, ◌<◌, ◌≡◌, refl, ◌∙◌, ap, true, false, some, if◌then◌else◌, leb, Result, ok, err,
  List, [], ◌∷◌, length, arith, Bool-cases, inl, inr, ◌↔◌, ◌⊎◌, subst,
}
use ai_enterprise_os.Runtime.CircuitBreaker.{
  BreakerState, closed, opened, half_open, CircuitBreaker, CallError, circuit_open, raised,
  on_success, on_failure, can_reconnect, call, finish,
}

-- Between two calls the breaker is closed with fewer failures than the threshold, or open since
-- some failure with at least so many; it is half open only during a call.
abbrev pub IsSoundIn : BreakerState → CircuitBreaker → Type 0
IsSoundIn closed b = b.failure_count < b.success_threshold
IsSoundIn opened b =
    (b.success_threshold ≤ b.failure_count) × (t : ℕ) × (b.last_failure_time ≡ some t)
IsSoundIn half_open b = ⊥

abbrev pub IsSound : CircuitBreaker → Type 0
IsSound b = IsSoundIn b.state b

-- What a call that went through leaves, in the words of its outcome.
abbrev pub IsPassed :
    {A E W : Type 0}
    → CircuitBreaker
    → ℕ
    → Result E A × W
    → CircuitBreaker × Result (CallError E) A × W
    → Type 0
IsPassed b later (ok a, w) (b', r, w') =
    (r ≡ ok a) × (w' ≡ w) × (b'.state ≡ closed) × (b'.failure_count ≡ 0)
IsPassed b later (err e, w) (b', r, w') =
    (r ≡ err (raised e))
    × (w' ≡ w)
    × (b'.failure_count ≡ b.failure_count + 1)
    × (b'.last_failure_time ≡ some later)
    × ((b'.state ≡ opened) ↔ (b.success_threshold ≤ b.failure_count + 1))

module _ {A E W : Type 0} (later : ℕ) where
  closed_passes :
      (b : CircuitBreaker) (out : Result E A × W)
      → b.state ≡ closed
      → 0 < b.success_threshold
      → IsSound (finish later b out).0 × IsPassed b later out (finish later b out)
  unfolding finish on_success on_failure
  closed_passes b (ok a, w) e p = rw e (p, (refl, refl, refl, refl))
  closed_passes b (err x, w) e p =
      elim (Bool-cases (leb b.success_threshold (b.failure_count + 1))) [
        | inl q ↦
            rw q (
              (ground arith, later, refl),
              (refl, refl, refl, refl, (λ z. ground arith, λ z. refl)),
            )
        | inr q ↦
            rw (q, e)
              (ground arith, (refl, refl, refl, refl, (λ z. ground arith, λ z. ground arith)))
      ]

  half_passes :
      (b : CircuitBreaker) (out : Result E A × W)
      → 0 < b.success_threshold
      → b.success_threshold ≤ b.failure_count
      → IsSound (finish later (record b { state = half_open }) out).0
        × IsPassed b later out (finish later (record b { state = half_open }) out)
  unfolding finish on_success on_failure
  half_passes b (ok a, w) p le = (p, (refl, refl, refl, refl))
  half_passes b (err x, w) p le =
      let q : leb b.success_threshold (b.failure_count + 1) ≡ true = ground arith in
      rw q ((ground arith, later, refl), (refl, refl, refl, refl, (λ z. ground arith, λ z. refl)))

abbrev pub state-cases : (s : BreakerState) → (s ≡ closed) ⊎ (s ≡ opened) ⊎ (s ≡ half_open)
state-cases closed = inl refl
state-cases opened = inr (inl refl)
state-cases half_open = inr (inr refl)

module _ {A E W : Type 0} (func : W → Result E A × W) (now later : ℕ) (b : CircuitBreaker)
    (w : W) where
  call-closed : b.state ≡ closed → call func now later b w ≡ finish later b (func w)
  unfolding call
  call-closed e = rw e refl

  call-opened :
      b.state ≡ opened
      → call func now later b w ≡ (
          if can_reconnect now b
          then finish later (record b { state = half_open }) (func w)
          else (b, err (circuit_open b.component_name), w))
  unfolding call
  call-opened e = rw e refl

  closed_can_reconnect : b.state ≡ closed → can_reconnect now b ≡ true
  unfolding can_reconnect
  closed_can_reconnect e = rw e refl

  -- From a state between calls, a call leaves such a state. If the breaker may not reconnect, it
  -- raises and changes nothing, without running the function. Otherwise it runs the function once
  -- and hands on what that returns or raises: a success closes the breaker and clears the count; a
  -- failure counts once more, and the breaker is open exactly if the count reached the threshold.
  pub call_lem :
      IsSound b
      → 0 < b.success_threshold
      → IsSound (call func now later b w).0
        × (can_reconnect now b ≡ false
            → call func now later b w ≡ (b, err (circuit_open b.component_name), w))
        × (can_reconnect now b ≡ true → IsPassed b later (func w) (call func now later b w))
  call_lem h p = elim (state-cases b.state) [
    | inl e ↦
        let (sound, passed) = closed_passes later b (func w) e p in
        rw (call-closed e) (sound, (λ n. ground (arith, closed_can_reconnect e)), λ y. passed)
    | inr (inl e) ↦
        let at : IsSoundIn opened b = subst (λ s. IsSoundIn s b) e h in
        let (sound, passed) = half_passes later b (func w) p at.0 in
        elim (Bool-cases (can_reconnect now b)) [
          | inl y ↦ rw (call-opened e, y) (sound, (λ n. ground arith), λ y. passed)
          | inr n ↦ rw (call-opened e, n) (h, (λ n. refl), λ y. ground arith)
        ]
    | inr (inr e) ↦ absurd (subst (λ s. IsSoundIn s b) e h)
  ]

on_failure_counts :
    (later : ℕ) (b : CircuitBreaker)
    → ((on_failure later b).failure_count ≡ b.failure_count + 1)
      × ((on_failure later b).success_threshold ≡ b.success_threshold)
unfolding on_failure
on_failure_counts later b = (refl, refl)

module _ {A E W : Type 0} (func : W → Result E A × W) where
  -- The breaker and the world after calls that begin and end at the given times.
  abbrev pub call_at : List (ℕ × ℕ) → CircuitBreaker → W → CircuitBreaker × W
  call_at [] b w = (b, w)
  call_at ((now, later) ∷ ts) b w = let (b', r, w') = call func now later b w in call_at ts b' w'

  -- The world after running the function itself so many times.
  abbrev pub run_for : List (ℕ × ℕ) → W → W
  run_for [] w = w
  run_for (t ∷ ts) w = run_for ts (func w).1

  -- Every run raises.
  abbrev pub IsFailing : Type 0
  IsFailing = (w : W) → (e : E) × (func w ≡ (err e, (func w).1))

  failing_call :
      (now later : ℕ) (b : CircuitBreaker) (w : W)
      → IsFailing
      → b.state ≡ closed
      → ((call func now later b w).0 ≡ on_failure later b)
        × ((call func now later b w).2 ≡ (func w).1)
  unfolding finish
  failing_call now later b w fails e =
      let (x, raises) = fails w in
      rw (call-closed func now later b w e, raises) (refl, ap (λ (o : Result E A × W). o.1) raises)

  failure_below :
      (later : ℕ) (b : CircuitBreaker)
      → b.failure_count + 1 < b.success_threshold
      → (on_failure later b).state ≡ b.state
  unfolding on_failure
  failure_below later b lt =
      let n : leb b.success_threshold (b.failure_count + 1) ≡ false = ground arith in rw n refl

  failure_at :
      (later : ℕ) (b : CircuitBreaker)
      → b.failure_count + 1 ≡ b.success_threshold
      → (on_failure later b).state ≡ opened
  unfolding on_failure
  failure_at later b e =
      let y : leb b.success_threshold (b.failure_count + 1) ≡ true = ground arith in rw y refl

  failing_step :
      (now later : ℕ) (ts : List (ℕ × ℕ)) (b : CircuitBreaker) (w : W)
      → IsFailing
      → b.state ≡ closed
      → call_at ((now, later) ∷ ts) b w ≡ call_at ts (on_failure later b) (func w).1
  failing_step now later ts b w fails e =
      let (broken, run) = failing_call now later b w fails e in rw (broken, run) refl

  failing_below :
      (ts : List (ℕ × ℕ)) (b : CircuitBreaker) (w : W)
      → IsFailing
      → b.state ≡ closed
      → b.failure_count + length ts < b.success_threshold
      → ((call_at ts b w).0.state ≡ closed)
        × ((call_at ts b w).0.failure_count ≡ b.failure_count + length ts)
        × ((call_at ts b w).1 ≡ run_for ts w)
  failing_below [] b w fails e lt = (e, ground arith, refl)
  failing_below ((now, later) ∷ ts) b w fails e lt =
      let (count, threshold) = on_failure_counts later b in
      let (state, counted, world) =
        failing_below ts (on_failure later b) (func w).1 fails
          (failure_below later b (omega arith) ∙ e) (ground arith) in
      rw (failing_step now later ts b w fails e) (state, ground arith, world)

  failing_at :
      (ts : List (ℕ × ℕ)) (b : CircuitBreaker) (w : W)
      → IsFailing
      → b.state ≡ closed
      → b.failure_count < b.success_threshold
      → b.failure_count + length ts ≡ b.success_threshold
      → ((call_at ts b w).0.state ≡ opened) × ((call_at ts b w).1 ≡ run_for ts w)
  failing_at [] b w fails e lt n = absurd (omega arith)
  failing_at ((now, later) ∷ []) b w fails e lt n =
      let (broken, run) = failing_call now later b w fails e in
      rw (broken, run) (failure_at later b (omega arith), refl)
  failing_at ((now, later) ∷ t ∷ ts) b w fails e lt n =
      let (count, threshold) = on_failure_counts later b in
      rw (failing_step now later (t ∷ ts) b w fails e) (
        failing_at (t ∷ ts) (on_failure later b) (func w).1 fails
          (failure_below later b (omega arith) ∙ e) (ground arith) (ground arith))

  -- A function that always raises, called through a closed breaker, is run at every call until the
  -- failures reach the threshold: below it the breaker is still closed, and with the call that
  -- reaches it, it is open.
  pub failing_trips :
      (ts : List (ℕ × ℕ)) (b : CircuitBreaker) (w : W)
      → IsFailing
      → b.state ≡ closed
      → (b.failure_count + length ts < b.success_threshold
          → ((call_at ts b w).0.state ≡ closed)
            × ((call_at ts b w).0.failure_count ≡ b.failure_count + length ts)
            × ((call_at ts b w).1 ≡ run_for ts w))
        × (b.failure_count < b.success_threshold
            → b.failure_count + length ts ≡ b.success_threshold
            → ((call_at ts b w).0.state ≡ opened) × ((call_at ts b w).1 ≡ run_for ts w))
  failing_trips ts b w fails e = (failing_below ts b w fails e, failing_at ts b w fails e)
