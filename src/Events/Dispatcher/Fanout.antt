-- ===== src/Events/Dispatcher/Fanout.antt =====
-- Fan-out: one result per subscriber, the counters, and what each delivery mode guarantees.
use ai_enterprise_os.Prelude.{
  ℕ, ◌+◌, ◌≤◌, String, true, false, ◌||◌, Option, none, some, List, [], ◌∷◌, ◌==◌, ◌≡◌, refl, ◌∙◌,
  if◌then◌else◌, elem, ok, err, map, arith, ltb, Bool-cases, inl, inr,
}
use mathlib.Core.Path.{ap₂}
use ai_enterprise_os.Events.Models.{EventStatus, delivered, failed, skipped, Event, DeliveryResult}
use ai_enterprise_os.Events.Dispatcher.{
  Subscriber, Dispatcher, delivery_modes, record_metrics, handle, matches, deliver_to_subscriber,
  dispatch_all, dispatch, call_back, finish, skip, is_empty,
}
use ai_enterprise_os.Events.Dispatcher.Delivery.{
  is_delivered, is_failed, count, metrics-counted, deliver-frame, deliver-once,
}

abbrev pub name_of : {P W : Type 0} → Subscriber P W → String
name_of s = s.name

abbrev pub subscriber_of : DeliveryResult → String
subscriber_of r = r.subscriber_name

module _ {P W : Type 0} (elapsed_ms : W → W → ℕ) (delivery_mode : String) (event : Event P) where
  -- The dispatcher after a delivery and its metrics.
  abbrev pub after_one : Subscriber P W → Dispatcher → W → Dispatcher
  after_one s d w =
      let (result, d₁, w₁) = deliver_to_subscriber elapsed_ms delivery_mode event s d w in
      record d₁ { metrics = record_metrics event.metadata.event_type result d₁.metrics }

  -- What a dispatch to a list of subscribers gives.
  record Outcome (callback : Option (DeliveryResult → W → W)) (subscribers : List (Subscriber P W))
      (d : Dispatcher) (w : W) : Type 0 where
    names :
        map subscriber_of (dispatch_all elapsed_ms delivery_mode event callback subscribers d w).0
        ≡ map name_of subscribers
    delivered_count :
        (dispatch_all elapsed_ms delivery_mode event callback subscribers d
          w).1.metrics.total_delivered
        ≡ d.metrics.total_delivered
          + count is_delivered
              (dispatch_all elapsed_ms delivery_mode event callback subscribers d w).0
    failed_count :
        (dispatch_all elapsed_ms delivery_mode event callback subscribers d
          w).1.metrics.total_failed
        ≡ d.metrics.total_failed
          + count is_failed (dispatch_all elapsed_ms delivery_mode event callback subscribers d w).0

  dispatch_all-Outcome :
      (callback : Option (DeliveryResult → W → W)) (subscribers : List (Subscriber P W))
      (d : Dispatcher) (w : W)
      → Outcome callback subscribers d w
  unfolding dispatch_all
  dispatch_all-Outcome callback [] d w = record {
    names = refl;
    delivered_count = ground arith;
    failed_count = ground arith;
  }
  dispatch_all-Outcome callback (s ∷ subscribers) d w =
      let (r, d₁, w₁) = deliver_to_subscriber elapsed_ms delivery_mode event s d w in
      let rest =
        dispatch_all-Outcome callback subscribers (after_one s d w)
          (call_back elapsed_ms delivery_mode event callback r w₁) in
      let (name, same) = deliver-frame elapsed_ms delivery_mode event s d w in
      let (up, down) = metrics-counted event.metadata.event_type r d₁.metrics in
      record {
        names = ap₂ (λ x xs. x ∷ xs) name rest.names;
        delivered_count = rw (rest.delivered_count, up, same) (ground arith);
        failed_count = rw (rest.failed_count, down, same) (ground arith);
      }

  once_all :
      (callback : Option (DeliveryResult → W → W)) (subscribers : List (Subscriber P W))
      (d : Dispatcher) (w : W)
      → (delivery_mode == "EXACTLY_ONCE") ≡ true
      → (count is_delivered (dispatch_all elapsed_ms delivery_mode event callback subscribers d w).0
          ≤ (if elem event.metadata.event_id d.processed_ids then 0 else 1))
  unfolding dispatch_all
  once_all callback [] d w e = omega arith
  once_all callback (s ∷ subscribers) d w e =
      let (r, d₁, w₁) = deliver_to_subscriber elapsed_ms delivery_mode event s d w in
      let (remembered, skips) = deliver-once elapsed_ms delivery_mode event s d w e in
      let rest =
        once_all callback subscribers (after_one s d w)
          (call_back elapsed_ms delivery_mode event callback r w₁) e in
      ground arith

  ids_all :
      (callback : Option (DeliveryResult → W → W)) (subscribers : List (Subscriber P W))
      (d : Dispatcher) (w : W)
      → (delivery_mode == "EXACTLY_ONCE") ≡ true
      → elem event.metadata.event_id
          (dispatch_all elapsed_ms delivery_mode event callback subscribers d w).1.processed_ids
        ≡ (elem event.metadata.event_id d.processed_ids
            || ltb 0 (
                count is_delivered
                  (dispatch_all elapsed_ms delivery_mode event callback subscribers d w).0))
  unfolding dispatch_all
  ids_all callback [] d w e = ground arith
  ids_all callback (s ∷ subscribers) d w e =
      let (r, d₁, w₁) = deliver_to_subscriber elapsed_ms delivery_mode event s d w in
      let (remembered, skips) = deliver-once elapsed_ms delivery_mode event s d w e in
      let rest =
        ids_all callback subscribers (after_one s d w)
          (call_back elapsed_ms delivery_mode event callback r w₁) e in
      ground arith

  idle_all :
      (subscribers : List (Subscriber P W)) (d : Dispatcher) (w : W)
      → (delivery_mode == "EXACTLY_ONCE") ≡ true
      → elem event.metadata.event_id d.processed_ids ≡ true
      → (dispatch_all elapsed_ms delivery_mode event none subscribers d w).2 ≡ w
  unfolding dispatch_all call_back
  idle_all [] d w e y = refl
  idle_all (s ∷ subscribers) d w e y =
      let (r, d₁, w₁) = deliver_to_subscriber elapsed_ms delivery_mode event s d w in
      let (remembered, skips) = deliver-once elapsed_ms delivery_mode event s d w e in
      idle_all subscribers (after_one s d w) w₁ e (remembered ∙ rw y refl) ∙ (skips y).1

  -- With a known delivery mode, a dispatch returns one result per subscriber, in their order, and
  -- the metrics count its deliveries and its failures; with an unknown one it raises.
  pub dispatch_lem :
      (callback : Option (DeliveryResult → W → W)) (subscribers : List (Subscriber P W))
      (d : Dispatcher) (w : W)
      → (elem delivery_mode delivery_modes ≡ true
          → (results : List DeliveryResult) × (d' : Dispatcher) × (w' : W) × (dispatch elapsed_ms
                delivery_mode event callback subscribers d w
              ≡ ok (results, d', w'))
            × (map subscriber_of results ≡ map name_of subscribers)
            × (d'.metrics.total_delivered ≡ d.metrics.total_delivered + count is_delivered results)
            × (d'.metrics.total_failed ≡ d.metrics.total_failed + count is_failed results))
        × (elem delivery_mode delivery_modes ≡ false
            → dispatch elapsed_ms delivery_mode event callback subscribers d w ≡ err delivery_mode)
  unfolding dispatch
  dispatch_lem callback subscribers d w =
      let out = dispatch_all elapsed_ms delivery_mode event callback subscribers d w in
      let o = dispatch_all-Outcome callback subscribers d w in
      (
        (λ y. (out.0, out.1, out.2, rw y refl, o.names, o.delivered_count, o.failed_count)),
        (λ n. rw n refl),
      )

  -- In EXACTLY_ONCE mode, at most one subscriber of all is delivered an event, and once one has
  -- been, a later dispatch of the event delivers it to nobody and runs no handler.
  pub exactly_once :
      (callback : Option (DeliveryResult → W → W)) (subscribers others : List (Subscriber P W))
      (d : Dispatcher) (w v : W)
      → (delivery_mode == "EXACTLY_ONCE") ≡ true
      → (count is_delivered (dispatch_all elapsed_ms delivery_mode event callback subscribers d w).0
          ≤ 1)
        × (count is_delivered
                (dispatch_all elapsed_ms delivery_mode event callback subscribers d w).0
              ≡ 1
            → let d' = (dispatch_all elapsed_ms delivery_mode event callback subscribers d w).1 in
              (count is_delivered (dispatch_all elapsed_ms delivery_mode event none others d' v).0
                ≡ 0)
              × ((dispatch_all elapsed_ms delivery_mode event none others d' v).2 ≡ v))
  exactly_once callback subscribers others d w v e =
      let d' = (dispatch_all elapsed_ms delivery_mode event callback subscribers d w).1 in
      let first = once_all callback subscribers d w e in
      let second = once_all none others d' v e in
      let ids = ids_all callback subscribers d w e in
      (
        ground arith,
        λ one.
            let known : elem event.metadata.event_id d'.processed_ids ≡ true = ground arith in
            (ground arith, idle_all others d' v e known),
      )

  -- What the other modes promise of one subscriber: the world behind it, and its result, which is
  -- SKIPPED for a type that it does not take, and else FAILED with the error that its handler raised,
  -- or DELIVERED, also if it is not active, when no handler runs.
  abbrev pub result_of : Subscriber P W → EventStatus → String → ℕ → String → DeliveryResult
  result_of s status error elapsed note = record {
    event_id = event.metadata.event_id;
    subscriber_name = s.name;
    status = status;
    error = error;
    processing_time_ms = elapsed;
    note = note;
  }

  abbrev pub answered : Subscriber P W → W → Option String × W → DeliveryResult × W
  answered s w (none, w') = (result_of s delivered "" (elapsed_ms w w') "", w')
  answered s w (some error, w') = (result_of s failed error (elapsed_ms w w') "", w')

  abbrev pub expected : Subscriber P W → W → DeliveryResult × W
  expected s w =
      if elem event.metadata.event_type s.event_types || is_empty s.event_types
      then (if s.is_active
          then answered s w (s.handler event w)
          else (result_of s delivered "" (elapsed_ms w w) "", w))
      else (result_of s skipped "" 0 "Subscriber does not handle this event type", w)

  -- The callback is given each result in turn.
  abbrev pub heard : Option (DeliveryResult → W → W) → DeliveryResult × W → W
  heard none (result, w) = w
  heard (some callback) (result, w) = callback result w

  abbrev pub expected_all :
      Option (DeliveryResult → W → W) → List (Subscriber P W) → W → List DeliveryResult × W
  expected_all callback [] w = ([], w)
  expected_all callback (s ∷ subscribers) w =
      let out = expected s w in
      let (rest, w') = expected_all callback subscribers (heard callback out) in (out.0 ∷ rest, w')

  finish-answered :
      (s : Subscriber P W) (d : Dispatcher) (w : W) (out : Option String × W)
      → ((finish delivery_mode (elapsed_ms w out.1) event s d out.0).0 ≡ (answered s w out).0)
        × (out.1 ≡ (answered s w out).1)
  unfolding finish
  finish-answered s d w (none, w') = (refl, refl)
  finish-answered s d w (some e, w') = (refl, refl)

  deliver-expected :
      (s : Subscriber P W) (d : Dispatcher) (w : W)
      → (delivery_mode == "EXACTLY_ONCE") ≡ false
      → ((deliver_to_subscriber elapsed_ms delivery_mode event s d w).0 ≡ (expected s w).0)
        × ((deliver_to_subscriber elapsed_ms delivery_mode event s d w).2 ≡ (expected s w).1)
  unfolding deliver_to_subscriber skip matches handle
  deliver-expected s d w e =
      elim (Bool-cases (elem event.metadata.event_type s.event_types || is_empty s.event_types)) [
        | inl t ↦ elim (Bool-cases s.is_active) [
          | inl a ↦ rw (e, t, a) (finish-answered s d w (s.handler event w))
          | inr a ↦ rw (e, t, a) (finish-answered s d w (none, w))
        ]
        | inr f ↦ rw (e, f) (refl, refl)
      ]

  call_back-heard :
      (callback : Option (DeliveryResult → W → W)) (out : DeliveryResult × W)
      → call_back elapsed_ms delivery_mode event callback out.0 out.1 ≡ heard callback out
  unfolding call_back
  call_back-heard none (r, w) = refl
  call_back-heard (some f) (r, w) = refl

  -- In the other modes every active subscriber that takes the event's type has its handler run once,
  -- in order, whether those before it raised or not, and nothing is tried again: its result is
  -- DELIVERED if its handler returned, and FAILED with the error if it raised. One that is not active
  -- is DELIVERED too, but no handler runs; one that does not take the type is SKIPPED. A callback is
  -- given each result in turn.
  pub other_modes :
      (callback : Option (DeliveryResult → W → W)) (subscribers : List (Subscriber P W))
      (d : Dispatcher) (w : W)
      → (delivery_mode == "EXACTLY_ONCE") ≡ false
      → ((dispatch_all elapsed_ms delivery_mode event callback subscribers d w).0
          ≡ (expected_all callback subscribers w).0)
        × ((dispatch_all elapsed_ms delivery_mode event callback subscribers d w).2
            ≡ (expected_all callback subscribers w).1)
  unfolding dispatch_all
  other_modes callback [] d w e = (refl, refl)
  other_modes callback (s ∷ subscribers) d w e =
      let (r, d₁, w₁) = deliver_to_subscriber elapsed_ms delivery_mode event s d w in
      let (result, world) = deliver-expected s d w e in
      let next : call_back elapsed_ms delivery_mode event callback r w₁
          ≡ heard callback (expected s w) =
        ap₂ (call_back elapsed_ms delivery_mode event callback) result world
        ∙ call_back-heard callback (expected s w) in
      let (rest, end) =
        other_modes callback subscribers (after_one s d w) (heard callback (expected s w)) e in
      rw next (ap₂ (λ x xs. x ∷ xs) result rest, end)
