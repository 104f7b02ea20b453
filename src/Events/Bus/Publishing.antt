-- ===== src/Events/Bus/Publishing.antt =====
-- What publishing an event does, from the middleware to the metrics, and when it raises.
use ai_enterprise_os.Prelude.{
  ℕ, ◌+◌, String, ◌≡◌, refl, ap, ◌∙◌, true, false, Option, none, some, List, [], ◌∷◌, ◌==◌, arith,
  if◌then◌else◌, Bool-cases, inl, inr, elem, keep, map, ok, err,
}
use ai_enterprise_os.Events.Models.{
  EventStatus, pending, delivering, delivered, failed, skipped, retrying, dead_letter, expired,
  replayed, Event, DeliveryResult, value,
}
use ai_enterprise_os.Events.Metrics
use ai_enterprise_os.Events.Dispatcher.{Subscriber, Dispatcher, delivery_modes}
use ai_enterprise_os.Events.Dispatcher.Delivery.{is_delivered, is_failed, count}
use ai_enterprise_os.Events.Dispatcher.Fanout.{name_of, subscriber_of, dispatch_lem}
use ai_enterprise_os.Events.DeadLetter.{DeadLetterRecord, DeadLetterQueue, Json, add}
use ai_enterprise_os.Events.History.{record_publish}
use ai_enterprise_os.Events.Router.{route_event}
use ai_enterprise_os.Events.Middleware.{execute, handle_by, timed, add_time}
use ai_enterprise_os.Events.Bus.{
  EventBus, Services, default_middleware, letter, settle_as, settle, dispatched, deliver_to,
  deliver, record_time, store, published, after_middleware, publish,
}

abbrev pub add_all :
    {P V T : Type 0}
    → Json P T
    → List (DeadLetterRecord P V)
    → DeadLetterQueue P V T
    → DeadLetterQueue P V T
add_all json [] q = q
add_all json (r ∷ rs) q = add_all json rs (add json r q)

-- The dead letters of some results: one for each that failed.
abbrev pub letters :
    {P V : Type 0} → Event P → ℕ → List DeliveryResult → List (DeadLetterRecord P V)
letters event time results =
    map (letter event time) (keep (λ (r : DeliveryResult). is_failed r.status) results)

module _ {P V T W : Type 0} (json : Json P T) (event : Event P) (time : ℕ) where
  -- Apart from the history, settling a result leaves all but the dead letters.
  abbrev Settled : DeadLetterQueue P V T → EventBus P V T W → EventBus P V T W → Type 0
  Settled q bus bus' =
      (bus'.dead_letter ≡ q) × (bus'.metrics ≡ bus.metrics) × (bus'.dispatcher ≡ bus.dispatcher)

  settle_as-Settled :
      (status : EventStatus) (r : DeliveryResult) (bus : EventBus P V T W)
      → Settled
          (if is_failed status
            then add json (letter event time r) bus.dead_letter
            else bus.dead_letter)
          bus
          (settle_as json event status time r bus)
  unfolding settle_as
  settle_as-Settled pending r bus = (refl, refl, refl)
  settle_as-Settled delivering r bus = (refl, refl, refl)
  settle_as-Settled delivered r bus = (refl, refl, refl)
  settle_as-Settled failed r bus = (refl, refl, refl)
  settle_as-Settled skipped r bus = (refl, refl, refl)
  settle_as-Settled retrying r bus = (refl, refl, refl)
  settle_as-Settled dead_letter r bus = (refl, refl, refl)
  settle_as-Settled expired r bus = (refl, refl, refl)
  settle_as-Settled replayed r bus = (refl, refl, refl)

  settle-Settled :
      (results : List DeliveryResult) (bus : EventBus P V T W)
      → Settled
          (add_all json (letters event time results) bus.dead_letter)
          bus
          (settle json event time results bus)
  unfolding settle
  settle-Settled [] bus = (refl, refl, refl)
  settle-Settled (r ∷ rs) bus =
      let (letters', metrics, dispatcher) = settle_as-Settled r.status r bus in
      let (rest, metrics', dispatcher') =
        settle-Settled rs (settle_as json event r.status time r bus) in
      (
        elim (Bool-cases (is_failed r.status)) [
          | inl e ↦
              rw e (rest ∙ ap (add_all json (letters event time rs)) (rw letters' (rw e refl)))
          | inr e ↦
              rw e (rest ∙ ap (add_all json (letters event time rs)) (rw letters' (rw e refl)))
        ],
        metrics' ∙ metrics,
        dispatcher' ∙ dispatcher,
      )

module _ {P V T W : Type 0} (env : Services P T W) (event : Event P) (delivery_mode : String)
    (bus : EventBus P V T W) (w : W) where
  abbrev pub targets : List (Subscriber P W)
  targets = route_event env.same_value env.same event bus.router

  -- What the deliveries of an event leave, with one result for each of some subscribers.
  abbrev pub Delivered : List (Subscriber P W) → List DeliveryResult → EventBus P V T W → Type 0
  Delivered subscribers results bus' =
      (map subscriber_of results ≡ map name_of subscribers)
      × (bus'.dispatcher.metrics.total_delivered
          ≡ bus.dispatcher.metrics.total_delivered + count is_delivered results)
      × (bus'.dispatcher.metrics.total_failed
          ≡ bus.dispatcher.metrics.total_failed + count is_failed results)
      × ((time : ℕ) × (bus'.dead_letter
            ≡ add_all env.json (letters event time results) bus.dead_letter))

  deliver_to-Delivered :
      (subscribers : List (Subscriber P W))
      → elem delivery_mode delivery_modes ≡ true
      → (results : List DeliveryResult) × (bus' : EventBus P V T W) × (w' : W) × (deliver_to env
            event delivery_mode subscribers
            (bus, w)
          ≡ (ok results, (bus', w')))
        × (bus'.metrics ≡ bus.metrics)
        × Delivered subscribers results bus'
  unfolding deliver_to
  deliver_to-Delivered [] known =
      ([], bus, w, refl, refl, (refl, omega arith, omega arith, (0, refl)))
  deliver_to-Delivered (s ∷ ss) known =
      let (results, d, w', ran, names, delivered_count, failed_count) =
        (dispatch_lem env.elapsed delivery_mode event none (s ∷ ss) bus.dispatcher w).0 known in
      let bus1 : EventBus P V T W = record bus { dispatcher = d } in
      let time = env.now w' in
      let (queue, metrics, dispatcher) = settle-Settled env.json event time results bus1 in
      (
        results,
        settle env.json event time results bus1,
        w',
        rw ran (unfold dispatched in refl),
        metrics,
        (
          names,
          ap (λ (x : Dispatcher). x.metrics.total_delivered) dispatcher ∙ delivered_count,
          ap (λ (x : Dispatcher). x.metrics.total_failed) dispatcher ∙ failed_count,
          (time, queue),
        ),
      )

  -- The default middleware lets an event with a type and a source through, and notes the time.
  through :
      (event.metadata.event_type == "") ≡ false
      → (event.metadata.source == "") ≡ false
      → execute
          (record_time env event delivery_mode)
          event
          default_middleware
          (deliver env event delivery_mode)
          (bus, w)
        ≡ timed
            (record_time env event delivery_mode)
            event
            (bus, w)
            (deliver env event delivery_mode (bus, w))
  unfolding execute handle_by
  through type source = rw (type, source) refl

  published_bus : EventBus P V T W → EventBus P V T W
  published_bus bus' = record bus' {
    metrics =
        Metrics.record_publish event.metadata.event_type (value event.metadata.priority)
          event.metadata.source bus'.metrics;
    history = record_publish event bus'.history;
  }

  published-ok :
      (results : List DeliveryResult) (bus' : EventBus P V T W) (stored : Option String × W)
      → stored.0 ≡ none
      → published env event delivery_mode results bus' stored
        ≡ (ok results, (published_bus bus', stored.1))
  unfolding published published_bus
  published-ok results bus' (none, w') e = refl
  published-ok results bus' (some raised, w') e = absurd cc

  -- With the default middleware, an event type, a source, a known delivery mode, and a store whose
  -- writes succeed, publishing returns: one result for each subscriber that the event is routed to, in
  -- order, and a dead letter for each that failed. The dispatcher's metrics count the deliveries and
  -- failures; the bus's own count the event as published, and nothing else.
  pub publish_lem :
      bus.middleware ≡ default_middleware
      → (event.metadata.event_type == "") ≡ false
      → (event.metadata.source == "") ≡ false
      → elem delivery_mode delivery_modes ≡ true
      → ((v : W) → (store env.persist event v).0 ≡ none)
      → (results : List DeliveryResult) × (bus' : EventBus P V T W) × (w' : W) × (publish env event
            delivery_mode bus w
          ≡ (ok results, (bus', w')))
        × (bus'.metrics
            ≡ Metrics.record_publish event.metadata.event_type
                (value event.metadata.priority)
                event.metadata.source
                bus.metrics)
        × Delivered targets results bus'
  unfolding publish deliver after_middleware timed published_bus
  publish_lem default type source known writes =
      let (results, bus', w', ran, metrics, facts) = deliver_to-Delivered targets known in
      let timed_bus : EventBus P V T W = record bus' {
        processing_times =
            add_time event.metadata.event_type (env.elapsed w w') bus'.processing_times;
      } in
      let after = after_middleware env event delivery_mode in
      (
        results,
        published_bus timed_bus,
        (store env.persist event w').1,
        ap
              (λ ms. after (
                execute (record_time env event delivery_mode) event ms
                  (deliver env event delivery_mode) (bus, w)))
              default
            ∙ ap after (through type source)
            ∙ ap (λ out. after (timed (record_time env event delivery_mode) event (bus, w) out)) ran
            ∙ published-ok results timed_bus (store env.persist event w') (writes w'),
        ap
            (Metrics.record_publish event.metadata.event_type (value event.metadata.priority)
              event.metadata.source)
            metrics,
        facts,
      )

  -- With the default middleware and an event type: publishing an event without a source raises, runs no
  -- handler and changes nothing; with a source and an unknown delivery mode it raises too, where the
  -- event is routed to a subscriber, and only the time that it took is noted.
  pub publish_refuses :
      bus.middleware ≡ default_middleware
      → (event.metadata.event_type == "") ≡ false
      → ((event.metadata.source == "") ≡ true
          → publish env event delivery_mode bus w ≡ (err "Event must have a source", (bus, w)))
        × ((event.metadata.source == "") ≡ false
            → (s : Subscriber P W) (ss : List (Subscriber P W)) → targets ≡ s ∷ ss
            → elem delivery_mode delivery_modes ≡ false
            → publish env event delivery_mode bus w ≡ (
              err delivery_mode,
              (
                record bus {
                  processing_times =
                      add_time event.metadata.event_type (env.elapsed w w) bus.processing_times;
                },
                w,
              ),
            ))
  unfolding publish deliver deliver_to dispatched after_middleware timed execute handle_by
  publish_refuses default type =
      let after = after_middleware env event delivery_mode in
      let on_default =
        ap
          (λ ms. after (
            execute (record_time env event delivery_mode) event ms (deliver env event delivery_mode)
              (bus, w)))
          default in
      (
        λ source. on_default ∙ rw (type, source) refl,
        λ source s ss routed unknown.
            let raised =
              (dispatch_lem env.elapsed delivery_mode event none (s ∷ ss) bus.dispatcher w).1
                unknown in
            on_default
            ∙ ap after (through type source)
            ∙ ap
                (λ subs. after (
                  timed (record_time env event delivery_mode) event (bus, w)
                    (deliver_to env event delivery_mode subs (bus, w))))
                routed
            ∙ rw raised refl,
      )
