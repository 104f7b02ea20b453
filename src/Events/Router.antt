-- ===== src/Events/Router.antt =====
-- src/ai_company/events/router.py: Route and Router. `same` is the equality of subscribers, by which
-- `in` tells them apart; `same_value` is that of payload values. Priorities are not negative.
pub mod Order
use ai_enterprise_os.Prelude.{
  ℕ, String, Bool, true, false, Option, none, some, List, [], ◌∷◌, ◌++◌, ◌==◌, if◌then◌else◌, any,
  leb, sort_by, length,
}
use ai_enterprise_os.Events.Models.{Event}
use ai_enterprise_os.Events.Filters.{
  EventFilter, Filters, type_filter, end, item, passes, add_filter,
}
use ai_enterprise_os.Events.Dispatcher.{Subscriber}

pub record Route (P W : Type 0) : Type 0 where
  pub name : String
  pub subscriber : Subscriber P W
  pub filter_chain : Filters P
  pub priority : ℕ

-- Router._routes
abbrev pub Router : Type 0 → Type 0 → Type 0
Router P W = List (Route P W)

-- `if event_types: chain.add_filter(TypeFilter(event_types))`
unfoldable pub chain_for : {P : Type 0} → List String → Filters P
chain_for [] = end
chain_for (t ∷ ts) = add_filter (type_filter (t ∷ ts)) end

module _ {P W : Type 0} where
  abbrev pub no_later : Route P W → Route P W → Bool
  no_later a b = leb a.priority b.priority

  unfoldable pub add_route : Route P W → Router P W → Router P W
  add_route route router = sort_by no_later (router ++ route ∷ [])

  unfoldable pub add_subscriber_route :
      String → Subscriber P W → List String → ℕ → Router P W → Router P W
  add_subscriber_route name subscriber event_types priority router =
      add_route
        (record {
          name = name;
          subscriber = subscriber;
          filter_chain = chain_for event_types;
          priority = priority;
        })
        router

  unfoldable pub drop_route : String → Router P W → Router P W
  drop_route name [] = []
  drop_route name (route ∷ routes) =
      let rest = drop_route name routes in if route.name == name then routes else route ∷ rest

  unfoldable pub has_route : String → Router P W → Bool
  has_route name router = any (λ (r : Route P W). r.name == name) router

  unfoldable pub remove_route : String → Router P W → Router P W × Bool
  remove_route name router =
      if has_route name router then (drop_route name router, true) else (router, false)

  unfoldable pub get_route : String → Router P W → Option (Route P W)
  get_route name [] = none
  get_route name (route ∷ routes) = if route.name == name then some route else get_route name routes

  unfoldable pub clear_routes : Router P W → Router P W
  clear_routes router = []

  unfoldable pub route_count : Router P W → ℕ
  route_count router = length router

module _ {P W : Type 0} (same_value : P → P → Bool) (same : Subscriber P W → Subscriber P W → Bool)
    (event : Event P) where
  -- `for route in self._routes`, with the subscribers so far
  unfoldable pub route_from : Router P W → List (Subscriber P W) → List (Subscriber P W)
  route_from [] subscribers = subscribers
  route_from (route ∷ routes) subscribers =
      if any (λ s. same s route.subscriber) subscribers
      then route_from routes subscribers
      else if passes same_value event route.filter_chain
      then route_from routes (subscribers ++ route.subscriber ∷ [])
      else route_from routes subscribers

  unfoldable pub route_event : Router P W → List (Subscriber P W)
  route_event router = route_from router []
