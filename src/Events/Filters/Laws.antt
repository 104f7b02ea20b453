-- ===== src/Events/Filters/Laws.antt =====
-- The filters as a Boolean algebra, and the order of priorities that they use.
use ai_enterprise_os.Prelude.{ℕ, Bool, true, ◌&&◌, ◌≡◌, refl, ◌∙◌, arith, leb}
use ai_enterprise_os.Events.Models.{
  EventPriority, critical, high, normal, low, background, Event, value,
}
use ai_enterprise_os.Events.Filters.{
  EventFilter, Filters, end, item, priority_filter, and_filter, priority_le, passes_filter,
  passes_all, passes, both, either, invert, add_filter,
}

-- The place of a priority's value in the alphabet.
abbrev pub place : EventPriority → ℕ
place background = 0
place critical = 1
place high = 2
place low = 3
place normal = 4

priority_le-place : (p q : EventPriority) → priority_le p q ≡ leb (place p) (place q)
unfolding priority_le value
priority_le-place critical critical = refl
priority_le-place critical high = refl
priority_le-place critical normal = refl
priority_le-place critical low = refl
priority_le-place critical background = refl
priority_le-place high critical = refl
priority_le-place high high = refl
priority_le-place high normal = refl
priority_le-place high low = refl
priority_le-place high background = refl
priority_le-place normal critical = refl
priority_le-place normal high = refl
priority_le-place normal normal = refl
priority_le-place normal low = refl
priority_le-place normal background = refl
priority_le-place low critical = refl
priority_le-place low high = refl
priority_le-place low normal = refl
priority_le-place low low = refl
priority_le-place low background = refl
priority_le-place background critical = refl
priority_le-place background high = refl
priority_le-place background normal = refl
priority_le-place background low = refl
priority_le-place background background = refl

first_places : (p : EventPriority) → leb (place p) 4 ≡ true
first_places critical = refl
first_places high = refl
first_places normal = refl
first_places low = refl
first_places background = refl

module _ {P : Type 0} (same : P → P → Bool) (event : Event P) where
  passes-all : (fs : Filters P) → passes same event fs ≡ passes_all same event fs
  unfolding passes passes_all
  passes-all end = refl
  passes-all (item f fs) = refl

  passes_all-add :
      (a : EventFilter P) (fs : Filters P)
      → passes_all same event (add_filter a fs)
        ≡ (passes_all same event fs && passes_filter same event a)
  unfolding passes_all add_filter
  passes_all-add a end = ground arith
  passes_all-add a (item f fs) = ground (arith, passes_all-add a fs)

  -- A priority filter goes by the alphabet, not by urgency: an event passes if the name of its
  -- priority does not come after the filter's. So a background event passes every such filter, and
  -- the filter for normal priority lets every event pass.
  pub priority_alphabet :
      (q : EventPriority)
      → (passes_filter same event (priority_filter q)
          ≡ leb (place event.metadata.priority) (place q))
        × (event.metadata.priority ≡ background
            → passes_filter same event (priority_filter q) ≡ true)
        × (passes_filter same event (priority_filter normal) ≡ true)
  unfolding passes_filter
  priority_alphabet q =
      let rank = priority_le-place event.metadata.priority in
      (rank q, (λ e. rank q ∙ ground arith), rank normal ∙ first_places event.metadata.priority)

  -- Filters obey De Morgan's laws and double inversion, a chain passes what all its filters in
  -- conjunction pass, also when it is empty, and adding a filter to a chain narrows it by that one.
  pub filter_laws :
      (a b : EventFilter P) (fs : Filters P)
      → (passes_filter same event (invert (both a b))
          ≡ passes_filter same event (either (invert a) (invert b)))
        × (passes_filter same event (invert (either a b))
            ≡ passes_filter same event (both (invert a) (invert b)))
        × (passes_filter same event (invert (invert a)) ≡ passes_filter same event a)
        × (passes same event fs ≡ passes_filter same event (and_filter fs))
        × (passes same event (add_filter a fs)
            ≡ (passes same event fs && passes_filter same event a))
  unfolding passes_filter both either invert
  filter_laws a b fs = (
    ground arith,
    ground arith,
    ground arith,
    passes-all fs,
    rw (passes-all (add_filter a fs), passes-all fs) (passes_all-add a fs),
  )
