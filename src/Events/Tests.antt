-- ===== src/Events/Tests.antt =====
-- The event bus at concrete inputs.
use ai_enterprise_os.Prelude.{
  arith, drop, ℕ, ◌+◌, ◌≤◌, ◌<◌, String, true, false, Option, none, some, List, [], ◌∷◌, ◌++◌, ◌≡◌,
  refl, elem, map, ok, err, length,
}
use ai_enterprise_os.Events.Models.{normal, Event, DeliveryResult}
use ai_enterprise_os.Events.Metrics.{reset}
use ai_enterprise_os.Events.Dispatcher.{
  Subscriber, Dispatcher, delivery_modes, dispatch, dispatch_all,
}
use ai_enterprise_os.Events.Dispatcher.Delivery.{count, is_delivered, is_failed}
use ai_enterprise_os.Events.Dispatcher.Fanout.{
  name_of, subscriber_of, expected_all, dispatch_lem, exactly_once, other_modes,
}
use ai_enterprise_os.Events.DeadLetter.{
  DeadLetterRecord, DeadLetterQueue, Line, Json, dead_letter_queue, enforce_max, load, load_lines,
  add, pop, remove, cleanup, clear,
}
use ai_enterprise_os.Events.DeadLetter.Storage.{
  IsCodec, IsSynced, stored, operations-IsSynced, overflow_returns,
}

abbrev hired : Event ℕ
hired = record {
  metadata = record {
    event_id = "evt_1";
    timestamp = 5;
    event_type = "executive.hired";
    source = "company";
    correlation_id = none;
    priority = normal;
    tags = [];
  };
  payload = [];
}

-- The world lists the subscribers whose handlers ran.
abbrev logger : Subscriber ℕ (List String)
logger = record {
  subscriber_id = "sub:log";
  name = "log";
  handler = λ event w. (none, "log" ∷ w);
  event_types = [];
  is_active = true;
}

abbrev broken : Subscriber ℕ (List String)
broken = record {
  subscriber_id = "sub:mail";
  name = "mail";
  handler = λ event w. (some "no server", "mail" ∷ w);
  event_types = "executive.hired" ∷ [];
  is_active = true;
}

abbrev two : List (Subscriber ℕ (List String))
two = broken ∷ logger ∷ []

abbrev new_dispatcher : Dispatcher
new_dispatcher = record { metrics = reset; processed_ids = [] }

abbrev no_time : List String → List String → ℕ
no_time v w = 0

dispatch_lem_example :
    (elem "AT_LEAST_ONCE" delivery_modes ≡ true
      → (results : List DeliveryResult) × (d' : Dispatcher) × (w' : List String) × (dispatch no_time
            "AT_LEAST_ONCE" hired none two new_dispatcher []
          ≡ ok (results, d', w'))
        × (map subscriber_of results ≡ map name_of two)
        × (d'.metrics.total_delivered ≡ 0 + count is_delivered results)
        × (d'.metrics.total_failed ≡ 0 + count is_failed results))
    × (elem "AT_LEAST_ONCE" delivery_modes ≡ false
        → dispatch no_time "AT_LEAST_ONCE" hired none two new_dispatcher [] ≡ err "AT_LEAST_ONCE")
dispatch_lem_example = dispatch_lem no_time "AT_LEAST_ONCE" hired none two new_dispatcher []

exactly_once_example :
    (count is_delivered (dispatch_all no_time "EXACTLY_ONCE" hired none two new_dispatcher []).0
      ≤ 1)
    × (count is_delivered (dispatch_all no_time "EXACTLY_ONCE" hired none two new_dispatcher []).0
          ≡ 1
        → let d' = (dispatch_all no_time "EXACTLY_ONCE" hired none two new_dispatcher []).1 in
          (count is_delivered (dispatch_all no_time "EXACTLY_ONCE" hired none (logger ∷ []) d' []).0
            ≡ 0)
          × ((dispatch_all no_time "EXACTLY_ONCE" hired none (logger ∷ []) d' []).2 ≡ []))
exactly_once_example =
    exactly_once no_time "EXACTLY_ONCE" hired none two (logger ∷ []) new_dispatcher [] [] refl

other_modes_example :
    ((dispatch_all no_time "AT_MOST_ONCE" hired none two new_dispatcher []).0
      ≡ (expected_all no_time "AT_MOST_ONCE" hired none two []).0)
    × ((dispatch_all no_time "AT_MOST_ONCE" hired none two new_dispatcher []).2
        ≡ (expected_all no_time "AT_MOST_ONCE" hired none two []).1)
other_modes_example = other_modes no_time "AT_MOST_ONCE" hired none two new_dispatcher [] refl

-- A text is what was dumped.
abbrev plain : Json ℕ (Option (Line ℕ))
plain = record { dumps = λ l. some l; loads = λ t. t; strip = λ t. t; is_empty = λ t. false }

plain-IsCodec : IsCodec plain
plain-IsCodec = record {
  strip-dumps = λ l. refl;
  dumps-not_empty = λ l. refl;
  loads-dumps = λ l. refl;
}

abbrev failure : String → DeadLetterRecord ℕ ℕ
failure name = record {
  event = hired;
  subscriber_name = name;
  error = "no server";
  failed_at = 9;
  retry_count = 3;
  last_envelope = some 4;
}

-- A queue for two records, with one and with two.
abbrev one_letter : DeadLetterQueue ℕ ℕ (Option (Line ℕ))
one_letter = add plain (failure "mail") (dead_letter_queue plain none 2 30)

abbrev two_letters : DeadLetterQueue ℕ ℕ (Option (Line ℕ))
two_letters = add plain (failure "chat") one_letter

one_letter-IsSynced : IsSynced plain one_letter
unfolding add dead_letter_queue load load_lines enforce_max
one_letter-IsSynced = refl

two_letters-IsSynced : IsSynced plain two_letters
unfolding add dead_letter_queue load load_lines enforce_max
two_letters-IsSynced = refl

operations-IsSynced_example :
    IsSynced {V = ℕ} plain
      (dead_letter_queue plain one_letter.file one_letter.max_records one_letter.ttl_days)
    × IsSynced plain (pop plain 1 one_letter).0
    × IsSynced plain (remove plain "evt_1" one_letter).0
    × IsSynced plain (cleanup plain 20 one_letter).0
    × IsSynced plain (clear one_letter)
    × (length one_letter.records < one_letter.max_records
        → IsSynced plain (add plain (failure "chat") one_letter))
operations-IsSynced_example =
    operations-IsSynced plain (failure "chat") "evt_1" 1 20 one_letter plain-IsCodec
      one_letter-IsSynced

overflow_returns_example :
    let q' =
      dead_letter_queue {V = ℕ} plain
        (add plain (failure "news") two_letters).file
        two_letters.max_records
        two_letters.ttl_days in
    (q'.records ≡ map stored (two_letters.records ++ failure "news" ∷ []))
    × (length q'.records ≡ two_letters.max_records + 1)
    × ((add plain (failure "news") two_letters).records
        ≡ drop 1 two_letters.records ++ failure "news" ∷ [])
    × (length (add plain (failure "news") two_letters).records ≡ two_letters.max_records)
unfolding add dead_letter_queue load load_lines enforce_max
overflow_returns_example =
    overflow_returns plain (failure "news") two_letters plain-IsCodec two_letters-IsSynced refl
      (omega arith)
