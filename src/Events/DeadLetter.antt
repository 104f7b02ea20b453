-- ===== src/Events/DeadLetter.antt =====
-- src/ai_company/events/dead_letter.py: DeadLetterQueue. The file is its lines, or `none` where it
-- does not exist. `T` stands for a line's text; JSON, with the events' own conversions, and
-- `str.strip` are the parameter `Json`.
-- Times and spans are microseconds, counts are not negative. Logging and directories are left out.
pub mod Records
pub mod Storage
use ai_enterprise_os.Prelude.{
  ℕ, ◌-◌, ◌*◌, String, Bool, true, false, Option, none, some, List, [], ◌∷◌, ◌++◌, map, ◌==◌,
  if◌then◌else◌, ltb, eqb, length, take, drop, keep,
}
use ai_enterprise_os.Events.Models.{Event}

-- `V` stands for the last delivery envelope.
pub record DeadLetterRecord (P V : Type 0) : Type 0 where
  pub event : Event P
  pub subscriber_name : String
  pub error : String
  pub failed_at : ℕ
  pub retry_count : ℕ
  pub last_envelope : Option V

-- The fields that a line of the file holds.
pub record Line (P : Type 0) : Type 0 where
  pub event : Event P
  pub subscriber_name : String
  pub error : String
  pub failed_at : ℕ
  pub retry_count : ℕ

pub record Json (P T : Type 0) : Type 0 where
  pub dumps : Line P → T
  pub loads : T → Option (Line P)
  pub strip : T → T
  pub is_empty : T → Bool

pub record DeadLetterQueue (P V T : Type 0) : Type 0 where
  pub file : Option (List T)
  pub max_records : ℕ
  pub ttl_days : ℕ
  pub records : List (DeadLetterRecord P V)

module _ {P V : Type 0} where
  abbrev pub line_of : DeadLetterRecord P V → Line P
  line_of r = record {
    event = r.event;
    subscriber_name = r.subscriber_name;
    error = r.error;
    failed_at = r.failed_at;
    retry_count = r.retry_count;
  }

  abbrev pub record_of : Line P → DeadLetterRecord P V
  record_of l = record {
    event = l.event;
    subscriber_name = l.subscriber_name;
    error = l.error;
    failed_at = l.failed_at;
    retry_count = l.retry_count;
    last_envelope = none;
  }

  load_line : Option (Line P) → List (DeadLetterRecord P V)
  load_line none = []
  load_line (some l) = record_of l ∷ []

  -- `while len(self._records) > self.max_records: self._records.pop(0)`
  unfoldable pub enforce_max : ℕ → List (DeadLetterRecord P V) → List (DeadLetterRecord P V)
  enforce_max max_records [] = []
  enforce_max max_records (r ∷ rs) =
      let rest = enforce_max max_records rs in
      if ltb max_records (length (r ∷ rs)) then rest else r ∷ rs

  unfoldable pub peek : {T : Type 0} → ℕ → DeadLetterQueue P V T → List (DeadLetterRecord P V)
  peek limit q = take limit q.records

  abbrev pub has_id : String → DeadLetterRecord P V → Bool
  has_id event_id r = r.event.metadata.event_id == event_id

  -- The records without the first of that id, if there is one.
  unfoldable pub pop_id :
      String → List (DeadLetterRecord P V) → Option (List (DeadLetterRecord P V))
  pop_id event_id [] = none
  pop_id event_id (r ∷ rs) =
      let rest = pop_id event_id rs in
      if has_id event_id r then some rs else (elim rest [ none ↦ none | some ts ↦ some (r ∷ ts) ])

  unfoldable pub count : {T : Type 0} → DeadLetterQueue P V T → ℕ
  count q = length q.records

  unfoldable pub clear : {T : Type 0} → DeadLetterQueue P V T → DeadLetterQueue P V T
  clear q = record q { records = []; file = none }

  abbrev pub is_fresh : ℕ → DeadLetterRecord P V → Bool
  is_fresh cutoff r = ltb cutoff r.failed_at

abbrev pub lines_of : {T : Type 0} → Option (List T) → List T
lines_of none = []
lines_of (some lines) = lines

abbrev pub day : ℕ
day = 86400000000

module _ {P V T : Type 0} (json : Json P T) where
  unfoldable pub load_lines : List T → List (DeadLetterRecord P V)
  unfolding load_line
  load_lines [] = []
  load_lines (line ∷ lines) =
      let rest = load_lines lines in
      let stripped = json.strip line in
      if json.is_empty stripped then rest else load_line (json.loads stripped) ++ rest

  unfoldable pub load : Option (List T) → List (DeadLetterRecord P V)
  load file = load_lines (lines_of file)

  unfoldable pub dead_letter_queue : Option (List T) → ℕ → ℕ → DeadLetterQueue P V T
  dead_letter_queue file max_records ttl_days = record {
    file = file;
    max_records = max_records;
    ttl_days = ttl_days;
    records = load file;
  }

  unfoldable pub append_record :
      DeadLetterRecord P V → DeadLetterQueue P V T → DeadLetterQueue P V T
  append_record r q = record q { file = some (lines_of q.file ++ json.dumps (line_of r) ∷ []) }

  unfoldable pub save_all : DeadLetterQueue P V T → DeadLetterQueue P V T
  save_all q = record q { file = some (map (λ r. json.dumps (line_of r)) q.records) }

  unfoldable pub add : DeadLetterRecord P V → DeadLetterQueue P V T → DeadLetterQueue P V T
  unfolding append_record
  add r q =
      let q' = append_record r (record q { records = q.records ++ r ∷ [] }) in
      record q' { records = enforce_max q.max_records q'.records }

  unfoldable pub pop :
      ℕ → DeadLetterQueue P V T → DeadLetterQueue P V T × List (DeadLetterRecord P V)
  unfolding save_all
  pop n q = (save_all (record q { records = drop n q.records }), take n q.records)

  removed :
      DeadLetterQueue P V T → Option (List (DeadLetterRecord P V)) → DeadLetterQueue P V T × Bool
  unfolding save_all
  removed q none = (q, false)
  removed q (some rs) = (save_all (record q { records = rs }), true)

  unfoldable pub remove : String → DeadLetterQueue P V T → DeadLetterQueue P V T × Bool
  unfolding removed
  remove event_id q = removed q (pop_id event_id q.records)

  unfoldable pub requeue_events : ℕ → DeadLetterQueue P V T → DeadLetterQueue P V T × List (Event P)
  unfolding pop
  requeue_events n q =
      let (q', records) = pop n q in (q', map (λ (r : DeadLetterRecord P V). r.event) records)

  -- `now - ttl` is a date after the year 1 and so not below 0.
  unfoldable pub cleanup : ℕ → DeadLetterQueue P V T → DeadLetterQueue P V T × ℕ
  unfolding save_all
  cleanup now q =
      let fresh = keep (is_fresh (now - q.ttl_days * day)) q.records in
      let removed_count = length q.records - length fresh in
      let q' : DeadLetterQueue P V T = record q { records = fresh } in
      (if eqb removed_count 0 then q' else save_all q', removed_count)
