-- ===== src/Decision/Routing.antt =====
-- src/ai_company/decision/routing.py: RouteEntry and RoutingTable.
use ai_enterprise_os.Prelude.{
  ℕ, String, Bool, true, false, ◌||◌, Option, none, some, List, [], ◌∷◌, ◌++◌, ◌==◌, if◌then◌else◌,
  ltb,
}
use ai_enterprise_os.Dict.{Dict}
use ai_enterprise_os.Decision.Models.{Values, Decision, level, category_value}
use ai_enterprise_os.Decision.Approval.{other_category, conditions_hold}

pub record RouteEntry (V : Type 0) : Type 0 where
  pub route_id : String
  pub category : Option String
  pub min_priority : ℕ
  pub max_priority : ℕ
  pub destination : String
  pub conditions : Dict V

pub record RoutingTable (V : Type 0) : Type 0 where
  pub routes : List (RouteEntry V)
  pub default_route : String

module _ {F V : Type 0} (values : Values V) where
  unfoldable pub route_matches : RouteEntry V → Decision F V → Bool
  route_matches route d =
      if other_category route.category (category_value d.category)
      then false
      else if ltb (level d.priority) route.min_priority || ltb route.max_priority (level d.priority)
      then false
      else conditions_hold values route.conditions d.context

  unfoldable pub destination_by : List (RouteEntry V) → String → Decision F V → String
  destination_by [] default d = default
  destination_by (route ∷ routes) default d =
      let rest = destination_by routes default d in
      if route_matches route d then route.destination else rest

  unfoldable pub route_decision : RoutingTable V → Decision F V → String
  route_decision t d = destination_by t.routes t.default_route d

module _ {V : Type 0} where
  unfoldable pub add_route : RouteEntry V → RoutingTable V → RoutingTable V
  add_route route t = record t { routes = t.routes ++ route ∷ [] }

  unfoldable pub route_by_id : String → List (RouteEntry V) → Option (RouteEntry V)
  route_by_id route_id [] = none
  route_by_id route_id (route ∷ routes) =
      if route.route_id == route_id then some route else route_by_id route_id routes

  unfoldable pub find_route : String → RoutingTable V → Option (RouteEntry V)
  find_route route_id t = route_by_id route_id t.routes

  -- `del self.routes[i]` at the first route with the id
  unfoldable pub without_id : String → List (RouteEntry V) → Option (List (RouteEntry V))
  without_id route_id [] = none
  without_id route_id (route ∷ routes) =
      let rest = kept route (without_id route_id routes) in
      if route.route_id == route_id then some routes else rest
    where
      kept : RouteEntry V → Option (List (RouteEntry V)) → Option (List (RouteEntry V))
      kept r none = none
      kept r (some rs) = some (r ∷ rs)

  removed : RoutingTable V → Option (List (RouteEntry V)) → RoutingTable V × Bool
  removed t none = (t, false)
  removed t (some routes) = (record t { routes = routes }, true)

  -- RoutingTable.remove_route
  unfoldable pub remove_route : String → RoutingTable V → RoutingTable V × Bool
  unfolding removed
  remove_route route_id t = removed t (without_id route_id t.routes)

  unfoldable pub clear : RoutingTable V → RoutingTable V
  clear t = record t { routes = [] }
