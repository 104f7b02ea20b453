-- ===== src/Events/History/Tests.antt =====
-- The history at concrete inputs.
use ai_enterprise_os.Prelude.{
  ℕ, ◌<◌, none, some, List, [], ◌++◌, ◌≡◌, if◌then◌else◌, ltb, length, keep,
}
use ai_enterprise_os.Events.Models.{high, failed, Event, DeliveryResult}
use ai_enterprise_os.Events.History.{
  HistoryEntry, EventHistory, record_publish, record_replay, get_history,
}
use ai_enterprise_os.Events.History.Buffer.{is_asked, get_history_lem}

abbrev started : Event ℕ
started = record {
  metadata = record {
    event_id = "evt_3";
    timestamp = 8;
    event_type = "task.started";
    source = "pipeline";
    correlation_id = some "run_1";
    priority = high;
    tags = [];
  };
  payload = [];
}

abbrev refused : DeliveryResult
refused = record {
  event_id = "evt_3";
  subscriber_name = "mail";
  status = failed;
  error = "no server";
  processing_time_ms = 12;
  note = "";
}

-- A full buffer.
abbrev full : EventHistory
full =
    record_replay "task.failed" 4
      (record_publish started (record { max_entries = 2; entries = [] }))

get_history_lem_example :
    let asked = keep (is_asked none (some "published") none) full.entries in
    (0 < 1
      → (older : List HistoryEntry) × (asked
          ≡ older ++ get_history 1 none (some "published") none full)
        × (length (get_history 1 none (some "published") none full)
            ≡ (if ltb 1 (length asked) then 1 else length asked)))
    × (get_history 0 none (some "published") none full ≡ asked)
get_history_lem_example = get_history_lem 1 none (some "published") none full
