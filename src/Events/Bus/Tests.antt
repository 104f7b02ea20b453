-- ===== src/Events/Bus/Tests.antt =====
-- The bus and its router at concrete inputs. The world lists the subscribers whose handlers ran.
use mathlib.Core.List.{Perm}
use ai_enterprise_os.Prelude.{
  ℕ, ◌≡◌, refl, Bool, String, true, false, Option, none, some, List, [], ◌∷◌, ◌==◌, ok, err, eqb,
  keep, IsSortedBy, insert_by, sort_by,
}
use ai_enterprise_os.Events.Models.{normal, Event, DeliveryResult, value}
use ai_enterprise_os.Events.Metrics
use ai_enterprise_os.Events.Metrics.{reset}
use ai_enterprise_os.Events.Filters.{
  Filters, source_filter, end, item, passes, passes_all, passes_filter,
}
use ai_enterprise_os.Events.Dispatcher.{Subscriber}
use ai_enterprise_os.Events.DeadLetter.{Json, Line}
use ai_enterprise_os.Events.Router.{Route, no_later, add_route, route_from, route_event}
use ai_enterprise_os.Events.Router.Order.{route_event_lem}
use ai_enterprise_os.Events.Middleware.{add_time}
use ai_enterprise_os.Events.Bus.{EventBus, Services, default_middleware, store, publish}
use ai_enterprise_os.Events.Bus.Publishing.{Delivered, publish_lem, publish_refuses}

abbrev hired : Event ℕ
hired = record {
  metadata = record {
    event_id = "evt_1";
    timestamp = 5;
    event_type = "executive.hired";
    source = "company";
    correlation_id = none;
    priority = normal;
    tags = [];
  };
  payload = [];
}

abbrev sub : String → Option String → Subscriber ℕ (List String)
sub name raised = record {
  subscriber_id = name;
  name = name;
  handler = λ event w. (raised, name ∷ w);
  event_types = [];
  is_active = true;
}

abbrev route : Subscriber ℕ (List String) → Filters ℕ → ℕ → Route ℕ (List String)
route s filters priority = record {
  name = s.name;
  subscriber = s;
  filter_chain = filters;
  priority = priority;
}

abbrev same_id : Subscriber ℕ (List String) → Subscriber ℕ (List String) → Bool
same_id a b = a.subscriber_id == b.subscriber_id

-- The mail has two routes; the audit comes first.
abbrev mail_routes : List (Route ℕ (List String))
mail_routes =
    route (sub "mail" (some "no server")) end 100
    ∷ route (sub "mail" (some "no server")) (item (source_filter ("company" ∷ [])) end) 100
    ∷ []

abbrev audit : Route ℕ (List String)
audit = route (sub "audit" none) end 10

route_event_lem_example :
    IsSortedBy no_later (add_route audit mail_routes)
    × Perm (add_route audit mail_routes) (
        route (sub "mail" (some "no server")) end 100
        ∷ route (sub "mail" (some "no server")) (item (source_filter ("company" ∷ [])) end) 100
        ∷ audit
        ∷ [])
    × ((k : ℕ)
        → keep (λ (r : Route ℕ (List String)). eqb r.priority k) (add_route audit mail_routes)
          ≡ keep
              (λ (r : Route ℕ (List String)). eqb r.priority k)
              (route (sub "mail" (some "no server")) end 100
                ∷ route
                    (sub "mail" (some "no server"))
                    (item (source_filter ("company" ∷ [])) end)
                    100
                ∷ audit
                ∷ []))
    × (route_event (λ a b. eqb a b) same_id hired (add_route audit mail_routes)
        ≡ sub "audit" none ∷ sub "mail" (some "no server") ∷ [])
unfolding add_route insert_by sort_by passes passes_all passes_filter
route_event_lem_example = route_event_lem (λ a b. eqb a b) same_id hired audit mail_routes

abbrev plain : Json ℕ (Line ℕ)
plain = record {
  dumps = λ line. line;
  loads = λ line. some line;
  strip = λ line. line;
  is_empty = λ line. false;
}

abbrev services : Services ℕ (Line ℕ) (List String)
services = record {
  json = plain;
  elapsed = λ v w. 1;
  now = λ w. 9;
  persist = none;
  same_value = λ a b. eqb a b;
  same = same_id;
}

abbrev bus : EventBus ℕ ℕ (Line ℕ) (List String)
bus = record {
  router = audit ∷ mail_routes;
  dispatcher = record { metrics = reset; processed_ids = [] };
  metrics = reset;
  history = record { max_entries = 10; entries = [] };
  dead_letter = record { file = none; max_records = 10; ttl_days = 7; records = [] };
  middleware = default_middleware;
  processing_times = [];
  running = true;
}

publish_lem_example :
    (results : List DeliveryResult) × (bus' : EventBus ℕ ℕ (Line ℕ) (List String)) × (w' : List
      String)
    × (publish services hired "AT_LEAST_ONCE" bus [] ≡ (ok results, (bus', w')))
    × (bus'.metrics ≡ Metrics.record_publish "executive.hired" (value normal) "company" reset)
    × Delivered services hired "AT_LEAST_ONCE" bus []
        (sub "audit" none ∷ sub "mail" (some "no server") ∷ [])
        results
        bus'
unfolding store route_event route_from passes passes_all passes_filter
publish_lem_example =
    publish_lem services hired "AT_LEAST_ONCE" bus [] refl refl refl refl (λ v. refl)

publish_refuses_example :
    publish services hired "TWICE" bus []
    ≡ (err "TWICE", (record bus { processing_times = add_time "executive.hired" 1 [] }, []))
unfolding route_event route_from passes passes_all passes_filter
publish_refuses_example =
    (publish_refuses services hired "TWICE" bus [] refl refl).1 refl (sub "audit" none)
      (sub "mail" (some "no server") ∷ []) refl refl
