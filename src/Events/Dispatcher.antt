-- ===== src/Events/Dispatcher.antt =====
-- src/ai_company/events/dispatcher.py and subscriber.py: delivery of one event to subscribers, one
-- after the other. A handler changes a world `W` and may raise; `elapsed_ms` is the rounded time
-- between two worlds, the clock's. A callback returns. The thread pools of `broadcast` and
-- `dispatch_async` and logging are left out.
pub mod Delivery
pub mod Fanout
use ai_enterprise_os.Prelude.{
  ℕ, String, Bool, true, false, not, ◌&&◌, ◌||◌, Option, none, some, List, [], ◌∷◌, ◌++◌, ◌==◌,
  if◌then◌else◌, elem, Result, ok, err,
}
use ai_enterprise_os.Events.Models.{EventStatus, delivered, failed, skipped, Event, DeliveryResult}
use ai_enterprise_os.Events.Metrics.{
  EventMetrics, record_subscriber_delivery, record_delivery, record_failure,
  record_subscriber_error,
}

pub record Subscriber (P W : Type 0) : Type 0 where
  pub subscriber_id : String
  pub name : String
  pub handler : Event P → W → Option String × W
  pub event_types : List String
  pub is_active : Bool

pub record Dispatcher : Type 0 where
  pub metrics : EventMetrics
  pub processed_ids : List String

abbrev pub delivery_modes : List String
delivery_modes = "AT_MOST_ONCE" ∷ "AT_LEAST_ONCE" ∷ "EXACTLY_ONCE" ∷ []

abbrev pub is_empty : List String → Bool
is_empty [] = true
is_empty (x ∷ xs) = false

-- `self._processed_ids.add(event_id)`
abbrev pub add_id : String → List String → List String
add_id event_id ids = if elem event_id ids then ids else ids ++ event_id ∷ []

-- `result.error or "unknown"`
abbrev pub or_unknown : String → String
or_unknown error = if error == "" then "unknown" else error

record_status : EventStatus → String → DeliveryResult → EventMetrics → EventMetrics
record_status delivered event_type result m = record_delivery event_type result.processing_time_ms m
record_status failed event_type result m =
    record_subscriber_error result.subscriber_name
      (record_failure event_type (or_unknown result.error) m)
record_status _ event_type result m = m

unfoldable pub record_metrics : String → DeliveryResult → EventMetrics → EventMetrics
unfolding record_status
record_metrics event_type result m =
    record_status result.status event_type result
      (record_subscriber_delivery result.subscriber_name m)

module _ {P W : Type 0} where
  unfoldable pub handle : Subscriber P W → Event P → W → Option String × W
  handle s event w = if not s.is_active then (none, w) else s.handler event w

  unfoldable pub matches : Subscriber P W → String → Bool
  matches s event_type = elem event_type s.event_types || is_empty s.event_types

  skip : Event P → Subscriber P W → String → DeliveryResult
  skip event s note = record {
    event_id = event.metadata.event_id;
    subscriber_name = s.name;
    status = skipped;
    error = "";
    processing_time_ms = 0;
    note = note;
  }

  -- What the handler's return or exception makes of the delivery.
  finish :
      String
      → ℕ
      → Event P
      → Subscriber P W
      → Dispatcher
      → Option String
      → DeliveryResult × Dispatcher
  finish delivery_mode elapsed event s d none = (
    record {
      event_id = event.metadata.event_id;
      subscriber_name = s.name;
      status = delivered;
      error = "";
      processing_time_ms = elapsed;
      note = "";
    },
    if delivery_mode == "EXACTLY_ONCE"
        then record d { processed_ids = add_id event.metadata.event_id d.processed_ids }
        else d,
  )
  finish delivery_mode elapsed event s d (some e) = (
    record {
      event_id = event.metadata.event_id;
      subscriber_name = s.name;
      status = failed;
      error = e;
      processing_time_ms = elapsed;
      note = "";
    },
    d,
  )

module _ {P W : Type 0} (elapsed_ms : W → W → ℕ) (delivery_mode : String) (event : Event P) where
  unfoldable pub deliver_to_subscriber :
      Subscriber P W → Dispatcher → W → DeliveryResult × Dispatcher × W
  unfolding skip finish handle matches
  deliver_to_subscriber s d w =
      if delivery_mode == "EXACTLY_ONCE" && elem event.metadata.event_id d.processed_ids
      then (skip event s "Already processed (exactly-once)", d, w)
      else (if not (matches s event.metadata.event_type)
          then (skip event s "Subscriber does not handle this event type", d, w)
          else (let (raised, w') = handle s event w in
              let (result, d') = finish delivery_mode (elapsed_ms w w') event s d raised in
              (result, d', w')))

  -- `if callback: callback(result)`
  call_back : Option (DeliveryResult → W → W) → DeliveryResult → W → W
  call_back none result w = w
  call_back (some callback) result w = callback result w

  unfoldable pub dispatch_all :
      Option (DeliveryResult → W → W)
      → List (Subscriber P W)
      → Dispatcher
      → W
      → List DeliveryResult × Dispatcher × W
  unfolding deliver_to_subscriber call_back record_metrics
  dispatch_all callback [] d w = ([], d, w)
  dispatch_all callback (s ∷ subscribers) d w =
      let (result, d₁, w₁) = deliver_to_subscriber s d w in
      let d₂ : Dispatcher = record d₁ {
        metrics = record_metrics event.metadata.event_type result d₁.metrics;
      } in
      let (results, d₃, w₂) = dispatch_all callback subscribers d₂ (call_back callback result w₁) in
      (result ∷ results, d₃, w₂)

  -- ValueError for an unknown mode.
  unfoldable pub dispatch :
      Option (DeliveryResult → W → W)
      → List (Subscriber P W)
      → Dispatcher
      → W
      → Result String (List DeliveryResult × Dispatcher × W)
  dispatch callback subscribers d w =
      if not (elem delivery_mode delivery_modes)
      then err delivery_mode
      else ok (dispatch_all callback subscribers d w)
