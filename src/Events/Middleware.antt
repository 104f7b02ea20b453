-- ===== src/Events/Middleware.antt =====
-- src/ai_company/events/middleware.py: the middleware of the bus and its pipeline. What a handler
-- reads and changes is a state `S`; it returns a value or raises. Sleeping between tries is left out,
-- and so are the statistics in floating point.
use ai_enterprise_os.Prelude.{
  ℕ, zero, suc, String, List, [], ◌∷◌, ◌++◌, ◌==◌, if◌then◌else◌, Result, ok, err,
}
use ai_enterprise_os.Dict.{Dict, insert, get_or}
use ai_enterprise_os.Events.Models.{Event}

pub data Middleware : Type 0 where
  logging : Middleware
  metrics : Middleware
  validation : Middleware
  retry : ℕ → Middleware

-- MetricsMiddleware.processing_times
abbrev pub Times : Type 0
Times = Dict (List ℕ)

unfoldable pub add_time : String → ℕ → Times → Times
add_time event_type elapsed times =
    insert event_type (get_or event_type [] times ++ elapsed ∷ []) times

abbrev pub NextHandler : Type 0 → Type 0 → Type 0
NextHandler S A = S → Result String A × S

module _ {S A : Type 0} where
  -- `for attempt in range(...)`: another try after one that raised, while there are more.
  unfoldable pub try_again : NextHandler S A → Result String A × S → Result String A × S
  try_again next (ok a, s) = (ok a, s)
  try_again next (err e, s) = next s

  -- RetryMiddleware.handle; without a try there is no exception to raise, which is a TypeError.
  unfoldable pub retry_handle : ℕ → NextHandler S A → NextHandler S A
  retry_handle zero next s = (err "exceptions must derive from BaseException", s)
  retry_handle (suc zero) next s = next s
  retry_handle (suc (suc n)) next s = try_again (retry_handle (suc n) next) (next s)

-- `record_time` puts the time between two states into the second.
module _ {P S A : Type 0} (record_time : S → S → S) (event : Event P) where
  unfoldable pub timed : S → Result String A × S → Result String A × S
  timed s (r, s') = (r, record_time s s')

  unfoldable pub handle_by : Middleware → NextHandler S A → NextHandler S A
  handle_by Middleware.logging next s = next s
  handle_by Middleware.metrics next s = timed s (next s)
  handle_by Middleware.validation next s =
      if event.metadata.event_type == ""
      then (err "Event must have an event_type", s)
      else if event.metadata.source == ""
      then (err "Event must have a source", s)
      else next s
  handle_by (Middleware.retry n) next s = retry_handle n next s

  -- MiddlewarePipeline.execute
  unfoldable pub execute : List Middleware → NextHandler S A → NextHandler S A
  execute [] handler s = handler s
  execute (m ∷ ms) handler s = handle_by m (execute ms handler) s
