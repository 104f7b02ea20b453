-- ===== src/Events/History.antt =====
-- src/ai_company/events/history.py: EventHistory, a ring buffer of the last `max_entries` entries.
-- Times are left out; a detail is a text or a number, a number of hundredths of a millisecond for
-- a processing time. Limits are not negative.
pub mod Buffer
mod Tests
use ai_enterprise_os.Prelude.{
  ℕ, ◌-◌, ◌+◌, String, Bool, true, false, Option, none, some, List, [], ◌∷◌, ◌++◌, ◌==◌,
  if◌then◌else◌, ltb, eqb, length, drop, keep,
}
use ai_enterprise_os.Dict.{Dict}
use ai_enterprise_os.Events.Models.{EventStatus, delivered, Event, DeliveryResult, value}

pub data Detail : Type 0 where
  text : String → Detail
  number : ℕ → Detail
  null : Detail

or_null : Option String → Detail
or_null none = null
or_null (some s) = text s

pub record HistoryEntry : Type 0 where
  pub event_id : String
  pub event_type : String
  pub source : String
  pub action : String
  pub details : Dict Detail

pub record EventHistory : Type 0 where
  pub max_entries : ℕ
  pub entries : List HistoryEntry

-- `deque.append` with a `maxlen`
unfoldable pub append : HistoryEntry → EventHistory → EventHistory
append e h = record h {
  entries = drop (length h.entries + 1 - h.max_entries) (h.entries ++ e ∷ []);
}

action_of : EventStatus → String
action_of delivered = "delivered"
action_of _ = "failed"

module _ {P : Type 0} where
  entry_of : Event P → String → Dict Detail → HistoryEntry
  entry_of event action details = record {
    event_id = event.metadata.event_id;
    event_type = event.metadata.event_type;
    source = event.metadata.source;
    action = action;
    details = details;
  }

  unfoldable pub record_publish : Event P → EventHistory → EventHistory
  unfolding entry_of or_null
  record_publish event h =
      let details : Dict Detail =
        ("priority", text (value event.metadata.priority))
        ∷ ("correlation_id", or_null event.metadata.correlation_id)
        ∷ [] in
      append (entry_of event "published" details) h

  unfoldable pub record_delivery : Event P → DeliveryResult → EventHistory → EventHistory
  unfolding entry_of action_of
  record_delivery event result h =
      let details : Dict Detail =
        ("subscriber", text result.subscriber_name)
        ∷ ("processing_time_ms", number result.processing_time_ms)
        ∷ (if result.error == "" then [] else ("error", text result.error) ∷ []) in
      append (entry_of event (action_of result.status) details) h

  unfoldable pub record_dead_letter : Event P → String → String → EventHistory → EventHistory
  unfolding entry_of
  record_dead_letter event subscriber_name error h =
      append
        (entry_of event "dead_lettered"
          (("subscriber", text subscriber_name) ∷ ("error", text error) ∷ []))
        h

unfoldable pub record_replay : String → ℕ → EventHistory → EventHistory
record_replay event_type replay_count h =
    append
      (record {
        event_id = "replay_batch";
        event_type = event_type;
        source = "replay_engine";
        action = "replayed";
        details = ("count", number replay_count) ∷ [];
      })
      h

-- `if event_type: entries = [e for e in entries if e.event_type == event_type]`, and so on: `none`
-- and the empty text ask for nothing.
abbrev pub asks : Option String → String → Bool
asks none field = true
asks (some wanted) field = if wanted == "" then true else field == wanted

-- `entries[-limit:]`
unfoldable pub last : ℕ → List HistoryEntry → List HistoryEntry
last limit entries = if eqb limit 0 then entries else drop (length entries - limit) entries

unfoldable pub get_history :
    ℕ → Option String → Option String → Option String → EventHistory → List HistoryEntry
get_history limit event_type action source h = last limit (
    keep (λ e. asks source e.source)
      (keep (λ e. asks action e.action) (keep (λ e. asks event_type e.event_type) h.entries)))

unfoldable pub get_recent : ℕ → EventHistory → List HistoryEntry
get_recent limit h = last limit h.entries

unfoldable pub count : EventHistory → ℕ
count h = length h.entries

unfoldable pub clear : EventHistory → EventHistory
clear h = record h { entries = [] }
