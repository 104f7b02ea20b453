-- ===== src/Events/Metrics.antt =====
-- src/ai_company/events/metrics.py: EventMetrics. A Counter is a dictionary of numbers; a processing
-- time is a number of hundredths of a millisecond. The averages of `get_stats` are left out.
use ai_enterprise_os.Prelude.{ℕ, ◌+◌, String, List, [], ◌∷◌, ◌++◌}
use ai_enterprise_os.Dict.{Dict, insert, get_or}

pub record EventMetrics : Type 0 where
  pub total_published : ℕ
  pub total_delivered : ℕ
  pub total_failed : ℕ
  pub total_dead_letter : ℕ
  pub total_replayed : ℕ
  pub by_type : Dict ℕ
  pub by_priority : Dict ℕ
  pub by_source : Dict ℕ
  pub by_subscriber : Dict ℕ
  pub processing_times : Dict (List ℕ)
  pub errors : Dict ℕ
  pub subscriber_errors : Dict ℕ

abbrev pub reset : EventMetrics
reset = record {
  total_published = 0;
  total_delivered = 0;
  total_failed = 0;
  total_dead_letter = 0;
  total_replayed = 0;
  by_type = [];
  by_priority = [];
  by_source = [];
  by_subscriber = [];
  processing_times = [];
  errors = [];
  subscriber_errors = [];
}

-- `counter[key] += 1`
abbrev pub count_up : String → Dict ℕ → Dict ℕ
count_up key counter = insert key (get_or key 0 counter + 1) counter

abbrev pub record_publish : String → String → String → EventMetrics → EventMetrics
record_publish event_type priority source m = record m {
  total_published = m.total_published + 1;
  by_type = count_up event_type m.by_type;
  by_priority = count_up priority m.by_priority;
  by_source = count_up source m.by_source;
}

abbrev pub record_delivery : String → ℕ → EventMetrics → EventMetrics
record_delivery event_type processing_time m = record m {
  total_delivered = m.total_delivered + 1;
  processing_times =
      insert event_type (get_or event_type [] m.processing_times ++ processing_time ∷ [])
        m.processing_times;
}

abbrev pub record_failure : String → String → EventMetrics → EventMetrics
record_failure event_type error m = record m {
  total_failed = m.total_failed + 1;
  errors = count_up error m.errors;
}

abbrev pub record_dead_letter : String → EventMetrics → EventMetrics
record_dead_letter event_type m = record m { total_dead_letter = m.total_dead_letter + 1 }

abbrev pub record_replay : ℕ → EventMetrics → EventMetrics
record_replay count m = record m { total_replayed = m.total_replayed + count }

abbrev pub record_subscriber_delivery : String → EventMetrics → EventMetrics
record_subscriber_delivery subscriber_name m = record m {
  by_subscriber = count_up subscriber_name m.by_subscriber;
}

abbrev pub record_subscriber_error : String → EventMetrics → EventMetrics
record_subscriber_error subscriber_name m = record m {
  subscriber_errors = count_up subscriber_name m.subscriber_errors;
}
