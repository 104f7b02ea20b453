-- ===== src/Events/Dispatcher/Delivery.antt =====
-- One delivery: what it leaves alone, what it counts, and what EXACTLY_ONCE mode remembers.
use text.Mathlib.TextPositions.{eq_refl}
use ai_enterprise_os.Prelude.{
  ℕ, ◌+◌, String, Bool, true, false, ◌||◌, Option, none, some, List, [], ◌∷◌, ◌==◌, ◌≡◌, refl,
  if◌then◌else◌, elem, elem-append, arith,
}
use ai_enterprise_os.Events.Models.{
  EventStatus, pending, delivering, delivered, failed, skipped, retrying, dead_letter, expired,
  replayed, Event, DeliveryResult,
}
use ai_enterprise_os.Events.Metrics.{EventMetrics, record_subscriber_delivery}
use ai_enterprise_os.Events.Dispatcher.{
  Subscriber, Dispatcher, record_metrics, record_status, handle, finish, skip,
  deliver_to_subscriber,
}

abbrev pub is_delivered : EventStatus → Bool
is_delivered delivered = true
is_delivered _ = false

abbrev pub is_failed : EventStatus → Bool
is_failed failed = true
is_failed _ = false

-- How many of the results have a status.
abbrev pub count : (EventStatus → Bool) → List DeliveryResult → ℕ
count test [] = 0
count test (r ∷ rs) = let rest = count test rs in if test r.status then rest + 1 else rest

status-counted :
    (s : EventStatus) (event_type : String) (r : DeliveryResult) (m : EventMetrics)
    → ((record_status s event_type r m).total_delivered
        ≡ (if is_delivered s then m.total_delivered + 1 else m.total_delivered))
      × ((record_status s event_type r m).total_failed
          ≡ (if is_failed s then m.total_failed + 1 else m.total_failed))
unfolding record_status
status-counted delivered event_type r m = (refl, refl)
status-counted failed event_type r m = (refl, refl)
status-counted skipped event_type r m = (refl, refl)
status-counted pending event_type r m = (refl, refl)
status-counted delivering event_type r m = (refl, refl)
status-counted retrying event_type r m = (refl, refl)
status-counted dead_letter event_type r m = (refl, refl)
status-counted expired event_type r m = (refl, refl)
status-counted replayed event_type r m = (refl, refl)

pub metrics-counted :
    (event_type : String) (r : DeliveryResult) (m : EventMetrics)
    → ((record_metrics event_type r m).total_delivered
        ≡ (if is_delivered r.status then m.total_delivered + 1 else m.total_delivered))
      × ((record_metrics event_type r m).total_failed
          ≡ (if is_failed r.status then m.total_failed + 1 else m.total_failed))
unfolding record_metrics
metrics-counted event_type r m =
    status-counted r.status event_type r (record_subscriber_delivery r.subscriber_name m)

module _ {P W : Type 0} (delivery_mode : String) (event : Event P) where
  finish-frame :
      (n : ℕ) (s : Subscriber P W) (d : Dispatcher) (raised : Option String)
      → ((finish delivery_mode n event s d raised).0.subscriber_name ≡ s.name)
        × ((finish delivery_mode n event s d raised).1.metrics ≡ d.metrics)
  unfolding finish
  finish-frame n s d none = (refl, ground arith)
  finish-frame n s d (some e) = (refl, refl)

  finish-ids :
      (n : ℕ) (s : Subscriber P W) (d : Dispatcher) (raised : Option String)
      → (delivery_mode == "EXACTLY_ONCE") ≡ true
      → elem event.metadata.event_id (finish delivery_mode n event s d raised).1.processed_ids ≡ (
          elem event.metadata.event_id d.processed_ids
          || is_delivered (finish delivery_mode n event s d raised).0.status)
  unfolding finish
  finish-ids n s d none e = rw e (
      ground (
        arith,
        eq_refl event.metadata.event_id,
        elem-append event.metadata.event_id d.processed_ids (event.metadata.event_id ∷ []),
      ))
  finish-ids n s d (some x) e = ground arith

module _ {P W : Type 0} (elapsed_ms : W → W → ℕ) (delivery_mode : String) (event : Event P) where
  pub deliver-frame :
      (s : Subscriber P W) (d : Dispatcher) (w : W)
      → ((deliver_to_subscriber elapsed_ms delivery_mode event s d w).0.subscriber_name ≡ s.name)
        × ((deliver_to_subscriber elapsed_ms delivery_mode event s d w).1.metrics ≡ d.metrics)
  unfolding deliver_to_subscriber skip
  deliver-frame s d w =
      let (raised, w') = handle s event w in
      ground (arith, finish-frame delivery_mode event (elapsed_ms w w') s d raised)

  pub deliver-once :
      (s : Subscriber P W) (d : Dispatcher) (w : W)
      → (delivery_mode == "EXACTLY_ONCE") ≡ true
      → (elem event.metadata.event_id
            (deliver_to_subscriber elapsed_ms delivery_mode event s d w).1.processed_ids
          ≡ (elem event.metadata.event_id d.processed_ids
              || is_delivered
                  (deliver_to_subscriber elapsed_ms delivery_mode event s d w).0.status))
        × (elem event.metadata.event_id d.processed_ids ≡ true
            → (is_delivered (deliver_to_subscriber elapsed_ms delivery_mode event s d w).0.status
                ≡ false)
              × ((deliver_to_subscriber elapsed_ms delivery_mode event s d w).2 ≡ w))
  unfolding deliver_to_subscriber skip
  deliver-once s d w e =
      let (raised, w') = handle s event w in
      ground (arith, e, finish-ids delivery_mode event (elapsed_ms w w') s d raised e)
