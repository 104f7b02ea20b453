-- ===== src/Events/Bus.antt =====
-- src/ai_company/events/bus.py: EventBus, with subscribers, routes and the publication of an event.
-- The clock is `now`, of a world; `persist` is the event store's write, which may raise; `elapsed` is
-- the time between two worlds. The priority queue, which nothing fills, publishers, replay and
-- request/reply are left out.
pub mod Publishing
mod Tests
use Prim.Native.String.{◌++◌}
use ai_enterprise_os.Prelude.{
  ℕ, String, Bool, true, false, Option, none, some, List, [], ◌∷◌, ◌==◌, if◌then◌else◌, Result, ok,
  err,
}
use ai_enterprise_os.Events.Models.{EventStatus, failed, Event, DeliveryResult, value}
use ai_enterprise_os.Events.Metrics.{EventMetrics}
use ai_enterprise_os.Events.Metrics
use ai_enterprise_os.Events.Dispatcher.{Subscriber, Dispatcher, dispatch, or_unknown}
use ai_enterprise_os.Events.DeadLetter.{DeadLetterRecord, DeadLetterQueue, Json, add}
use ai_enterprise_os.Events.History.{
  EventHistory, record_delivery, record_dead_letter, record_publish,
}
use ai_enterprise_os.Events.Router.{
  Router, Route, add_route, add_subscriber_route, remove_route, route_event,
}
use ai_enterprise_os.Events.Middleware.{Middleware, Times, add_time, execute}

pub record EventBus (P V T W : Type 0) : Type 0 where
  pub router : Router P W
  pub dispatcher : Dispatcher
  pub metrics : EventMetrics
  pub history : EventHistory
  pub dead_letter : DeadLetterQueue P V T
  pub middleware : List Middleware
  pub processing_times : Times
  pub running : Bool

-- `if enable_middleware`
abbrev pub default_middleware : List Middleware
default_middleware = Middleware.logging ∷ Middleware.validation ∷ Middleware.metrics ∷ []

-- `result.error or "unknown error"`
abbrev pub or_unknown_error : String → String
or_unknown_error error = if error == "" then "unknown error" else error

module _ {P V T W : Type 0} where
  unfoldable pub start : EventBus P V T W → EventBus P V T W
  start bus = record bus { running = true }

  unfoldable pub subscribe :
      String
      → (Event P → W → Option String × W)
      → List String
      → Bool
      → EventBus P V T W
      → EventBus P V T W × Subscriber P W
  subscribe name handler event_types auto_route bus =
      let subscriber : Subscriber P W = record {
        subscriber_id = "sub:" ++ name;
        name = name;
        handler = handler;
        event_types = event_types;
        is_active = true;
      } in
      (
        if auto_route
            then record bus {
              router =
                  add_subscriber_route ("route:" ++ name) subscriber event_types 100 bus.router;
            }
            else bus,
        subscriber,
      )

  unfoldable pub unsubscribe : String → EventBus P V T W → EventBus P V T W × Bool
  unsubscribe name bus =
      let (router, removed) = remove_route ("route:" ++ name) bus.router in
      (record bus { router = router }, removed)

module _ {P V : Type 0} where
  -- The record that `self.dead_letter.add` makes.
  abbrev pub letter : Event P → ℕ → DeliveryResult → DeadLetterRecord P V
  letter event time result = record {
    event = event;
    subscriber_name = result.subscriber_name;
    error = or_unknown_error result.error;
    failed_at = time;
    retry_count = 3;
    last_envelope = none;
  }

module _ {P V T W : Type 0} (json : Json P T) (event : Event P) where
  -- One result: a failure is a dead letter, any other status a delivery in the history.
  unfoldable pub settle_as : EventStatus → ℕ → DeliveryResult → EventBus P V T W → EventBus P V T W
  settle_as failed time result bus = record bus {
    dead_letter = add json (letter event time result) bus.dead_letter;
    history = record_dead_letter event result.subscriber_name (or_unknown result.error) bus.history;
  }
  settle_as _ time result bus = record bus { history = record_delivery event result bus.history }

  -- `for result in results`
  unfoldable pub settle : ℕ → List DeliveryResult → EventBus P V T W → EventBus P V T W
  settle time [] bus = bus
  settle time (result ∷ results) bus = settle time results (settle_as result.status time result bus)

-- What the bus is given from outside.
pub record Services (P T W : Type 0) : Type 0 where
  pub json : Json P T
  pub elapsed : W → W → ℕ
  pub now : W → ℕ
  pub persist : Option (Event P → W → Option String × W)
  pub same_value : P → P → Bool
  pub same : Subscriber P W → Subscriber P W → Bool

-- `if self.persistence: self.persistence.persist(event)`
unfoldable pub store :
    {P W : Type 0} → Option (Event P → W → Option String × W) → Event P → W → Option String × W
store none event w = (none, w)
store (some write) event w = write event w

module _ {P V T W : Type 0} (env : Services P T W) (event : Event P) (delivery_mode : String) where
  -- What the dispatch returned or raised.
  unfoldable pub dispatched :
      EventBus P V T W
      → W
      → Result String (List DeliveryResult × Dispatcher × W)
      → Result String (List DeliveryResult) × (EventBus P V T W × W)
  dispatched bus w (err e) = (err e, (bus, w))
  dispatched bus w (ok (results, d, w')) =
      (ok results, (settle env.json event (env.now w') results (record bus { dispatcher = d }), w'))

  unfoldable pub deliver_to :
      List (Subscriber P W)
      → EventBus P V T W × W
      → Result String (List DeliveryResult) × (EventBus P V T W × W)
  deliver_to [] (bus, w) = (ok [], (bus, w))
  deliver_to (s ∷ ss) (bus, w) =
      dispatched bus w (dispatch env.elapsed delivery_mode event none (s ∷ ss) bus.dispatcher w)

  -- `_deliver`
  unfoldable pub deliver :
      EventBus P V T W × W → Result String (List DeliveryResult) × (EventBus P V T W × W)
  deliver (bus, w) = deliver_to (route_event env.same_value env.same event bus.router) (bus, w)

  -- MetricsMiddleware, whose times are the bus's.
  abbrev pub record_time : EventBus P V T W × W → EventBus P V T W × W → EventBus P V T W × W
  record_time (before, w) (bus, w') = (
    record bus {
      processing_times = add_time event.metadata.event_type (env.elapsed w w') bus.processing_times;
    },
    w',
  )

  -- `self.metrics.record_publish(...)`, `self.history.record_publish(event)`, unless the store raised
  unfoldable pub published :
      List DeliveryResult
      → EventBus P V T W
      → Option String × W
      → Result String (List DeliveryResult) × (EventBus P V T W × W)
  published results bus (some e, w) = (err e, (bus, w))
  published results bus (none, w) = (
    ok results,
    (
      record bus {
        metrics =
            Metrics.record_publish event.metadata.event_type (value event.metadata.priority)
              event.metadata.source bus.metrics;
        history = record_publish event bus.history;
      },
      w,
    ),
  )

  unfoldable pub after_middleware :
      Result String (List DeliveryResult) × (EventBus P V T W × W)
      → Result String (List DeliveryResult) × (EventBus P V T W × W)
  after_middleware (err e, s) = (err e, s)
  after_middleware (ok results, (bus, w)) = published results bus (store env.persist event w)

  -- A bus that was not started publishes all the same.
  unfoldable pub publish :
      EventBus P V T W → W → Result String (List DeliveryResult) × (EventBus P V T W × W)
  publish bus w = after_middleware (execute record_time event bus.middleware deliver (bus, w))
