-- ===== src/Events/Router/Order.antt =====
-- Routes by priority, and the subscribers that an event is routed to.
use mathlib.Core.List.{Perm, append_assoc, append-nil}
use ai_enterprise_os.Prelude.{
  ℕ, ◌≡◌, sym, ◌∙◌, Bool, List, [], ◌∷◌, ◌++◌, arith, if◌then◌else◌, Bool-cases, inl, inr, any, eqb,
  keep, map, IsSortedBy, sort_by, sort_by-perm, sort_by-stable, sort_by-IsSortedBy,
}
use ai_enterprise_os.Events.Models.{Event}
use ai_enterprise_os.Events.Filters.{passes}
use ai_enterprise_os.Events.Dispatcher.{Subscriber}
use ai_enterprise_os.Events.Router.{Route, Router, no_later, add_route, route_from, route_event}

-- Those of some items that are not the same as one before them, or as one seen.
abbrev pub firsts : {A : Type 0} → (A → A → Bool) → List A → List A → List A
firsts same seen [] = []
firsts same seen (x ∷ xs) =
    if any (λ s. same s x) seen then firsts same seen xs else x ∷ firsts same (seen ++ x ∷ []) xs

module _ {P W : Type 0} (same_value : P → P → Bool) (same : Subscriber P W → Subscriber P W → Bool)
    (event : Event P) where
  abbrev pub takes : Route P W → Bool
  takes route = passes same_value event route.filter_chain

  abbrev pub target : Route P W → Subscriber P W
  target route = route.subscriber

  route_from-firsts :
      (routes : Router P W) (seen : List (Subscriber P W))
      → route_from same_value same event routes seen
        ≡ seen ++ firsts same seen (map target (keep takes routes))
  unfolding route_from
  route_from-firsts [] seen = sym (append-nil seen)
  route_from-firsts (r ∷ rs) seen = elim (Bool-cases (takes r)) [
    | inl e ↦ elim (Bool-cases (any (λ s. same s r.subscriber) seen)) [
      | inl f ↦ rw (e, f) (route_from-firsts rs seen)
      | inr f ↦
          rw (e, f)
            (route_from-firsts rs (seen ++ r.subscriber ∷ [])
              ∙ append_assoc seen (r.subscriber ∷ []) _)
    ]
    | inr e ↦ elim (Bool-cases (any (λ s. same s r.subscriber) seen)) [
      | inl f ↦ rw (e, f) (route_from-firsts rs seen)
      | inr f ↦ rw (e, f) (route_from-firsts rs seen)
    ]
  ]

  -- Adding a route keeps the routes in the order of their priorities, lowest number first, and those of
  -- one priority in the order in which they stood, the new one last. An event is then routed to the
  -- subscribers of all the routes whose filters it passes, in that order, each subscriber once.
  pub route_event_lem :
      (route : Route P W) (router : Router P W)
      → let routes = add_route route router in
        IsSortedBy no_later routes
        × Perm routes (router ++ route ∷ [])
        × ((k : ℕ)
            → keep (λ (r : Route P W). eqb r.priority k) routes
              ≡ keep (λ (r : Route P W). eqb r.priority k) (router ++ route ∷ []))
        × (route_event same_value same event routes
            ≡ firsts same [] (map target (keep takes routes)))
  unfolding add_route route_event
  route_event_lem route router = (
    sort_by-IsSortedBy no_later (λ a b e. ground arith) (λ a b c e f. ground arith)
        (router ++ route ∷ []),
    sort_by-perm no_later (router ++ route ∷ []),
    λ k.
        sort_by-stable no_later (λ (r : Route P W). eqb r.priority k) (λ a b e f. ground arith)
          (router ++ route ∷ []),
    route_from-firsts (sort_by no_later (router ++ route ∷ [])) [],
  )
