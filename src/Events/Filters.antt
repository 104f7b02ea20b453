-- ===== src/Events/Filters.antt =====
-- src/ai_company/events/filters.py: the filters, their combinations and FilterChain. `same` is the
-- equality of payload values. `EventPriority` is a `str` that defines only `__lt__`, so that `<=`
-- compares the values as texts, by code points.
pub mod Laws
mod Tests
use text.Mathlib.Text.{is_le}
use Prim.Native.String.{compare}
use ai_enterprise_os.Prelude.{
  String, Bool, true, false, not, ◌&&◌, ◌||◌, Option, none, some, List, [], ◌∷◌, elem, all,
}
use ai_enterprise_os.Dict.{Dict, lookup}
use ai_enterprise_os.Events.Models.{EventPriority, Event, value}

mutual
  pub data EventFilter (P : Type 0) : Type 0 where
    type_filter : List String → EventFilter P
    priority_filter : EventPriority → EventFilter P
    source_filter : List String → EventFilter P
    tag_filter : List String → EventFilter P
    payload_filter : Dict P → EventFilter P
    and_filter : Filters P → EventFilter P
    or_filter : Filters P → EventFilter P
    not_filter : EventFilter P → EventFilter P

  pub data Filters (P : Type 0) : Type 0 where
    end : Filters P
    item : EventFilter P → Filters P → Filters P

-- `p <= q` of two priorities
unfoldable pub priority_le : EventPriority → EventPriority → Bool
priority_le p q = is_le (compare (value p) (value q))

module _ {P : Type 0} (same : P → P → Bool) (event : Event P) where
  equals : Option P → P → Bool
  equals none v = false
  equals (some u) v = same u v

  unfoldable pub has_all : Dict P → Bool
  unfolding equals
  has_all [] = true
  has_all ((key, v) ∷ conditions) = equals (lookup key event.payload) v && has_all conditions

  unfoldable mutual
    pub passes_filter : EventFilter P → Bool
    passes_filter (type_filter event_types) = elem event.metadata.event_type event_types
    passes_filter (priority_filter min_priority) = priority_le event.metadata.priority min_priority
    passes_filter (source_filter sources) = elem event.metadata.source sources
    passes_filter (tag_filter required_tags) =
        all (λ tag. elem tag event.metadata.tags) required_tags
    passes_filter (payload_filter conditions) = has_all conditions
    passes_filter (and_filter filters) = passes_all filters
    passes_filter (or_filter filters) = passes_any filters
    passes_filter (not_filter filter) = not (passes_filter filter)

    pub passes_all : Filters P → Bool
    passes_all end = true
    passes_all (item filter filters) = passes_filter filter && passes_all filters

    pub passes_any : Filters P → Bool
    passes_any end = false
    passes_any (item filter filters) = passes_filter filter || passes_any filters

  -- FilterChain.passes
  unfoldable pub passes : Filters P → Bool
  passes end = true
  passes (item filter filters) = passes_all (item filter filters)

module _ {P : Type 0} where
  -- `a & b`, `a | b`, `~a`
  unfoldable pub both : EventFilter P → EventFilter P → EventFilter P
  both a b = and_filter (item a (item b end))

  unfoldable pub either : EventFilter P → EventFilter P → EventFilter P
  either a b = or_filter (item a (item b end))

  unfoldable pub invert : EventFilter P → EventFilter P
  invert a = not_filter a

  -- FilterChain.add_filter
  unfoldable pub add_filter : EventFilter P → Filters P → Filters P
  add_filter f end = item f end
  add_filter f (item g gs) = item g (add_filter f gs)
