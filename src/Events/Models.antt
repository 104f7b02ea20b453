-- ===== src/Events/Models.antt =====
-- src/ai_company/events/models.py: the parts of an event and of a delivery's result that the bus
-- reads. An event type and a priority of `str` enums are compared by their values; `P` stands for a
-- payload's values. Times are microseconds.
use ai_enterprise_os.Prelude.{ℕ, String, Option, List}
use ai_enterprise_os.Dict.{Dict}

pub data EventPriority : Type 0 where
  critical high normal low background : EventPriority

pub data EventStatus : Type 0 where
  pending delivering delivered failed skipped retrying dead_letter expired replayed : EventStatus

pub record EventMetadata : Type 0 where
  pub event_id : String
  pub timestamp : ℕ
  pub event_type : String
  pub source : String
  pub correlation_id : Option String
  pub priority : EventPriority
  pub tags : List String

pub record Event (P : Type 0) : Type 0 where
  pub metadata : EventMetadata
  pub payload : Dict P

pub record DeliveryResult : Type 0 where
  pub event_id : String
  pub subscriber_name : String
  pub status : EventStatus
  pub error : String
  pub processing_time_ms : ℕ
  pub note : String

-- `EventPriority.value`
unfoldable pub value : EventPriority → String
value critical = "critical"
value high = "high"
value normal = "normal"
value low = "low"
value background = "background"
