-- ===== src/Events/Filters/Tests.antt =====
-- Filters at concrete inputs.
use ai_enterprise_os.Prelude.{none, ℕ, true, [], ◌∷◌, ◌≡◌, eqb, leb}
use ai_enterprise_os.Events.Models.{normal, high, background, Event}
use ai_enterprise_os.Events.Filters.{
  EventFilter, type_filter, priority_filter, tag_filter, passes_filter,
}
use ai_enterprise_os.Events.Filters.Laws.{place, priority_alphabet}

abbrev cleaned : Event ℕ
cleaned = record {
  metadata = record {
    event_id = "evt_2";
    timestamp = 7;
    event_type = "memory.archived";
    source = "memory";
    correlation_id = none;
    priority = background;
    tags = "nightly" ∷ [];
  };
  payload = ("count", 3) ∷ [];
}

priority_alphabet_example :
    (passes_filter eqb cleaned (priority_filter high) ≡ leb (place background) (place high))
    × (background ≡ background → passes_filter eqb cleaned (priority_filter high) ≡ true)
    × (passes_filter eqb cleaned (priority_filter normal) ≡ true)
priority_alphabet_example = priority_alphabet eqb cleaned high

abbrev nightly : EventFilter ℕ
nightly = tag_filter ("nightly" ∷ [])

abbrev saved : EventFilter ℕ
saved = type_filter ("memory.saved" ∷ [])
