-- ===== src/Events/History/Buffer.antt =====
-- The buffer's bound, and what a query returns.
use ai_enterprise_os.Prelude.{
  ℕ, zero, suc, ◌+◌, ◌-◌, ◌≤◌, ◌<◌, String, Bool, false, ◌&&◌, Option, List, [], ◌∷◌, ◌++◌, ◌≡◌,
  refl, sym, if◌then◌else◌, eqb, ltb, length, take, keep, arith, length-append, length-drop,
  take-append-drop,
}
use ai_enterprise_os.Events.Models.{Event, DeliveryResult}
use ai_enterprise_os.Events.History.{
  HistoryEntry, EventHistory, append, record_publish, record_delivery, record_dead_letter,
  record_replay, asks, last, get_history,
}

-- At most `max_entries` are kept.
abbrev pub IsBounded : EventHistory → Type 0
IsBounded h = length h.entries ≤ h.max_entries

append-IsBounded : (e : HistoryEntry) (h : EventHistory) → IsBounded (append e h)
unfolding append
append-IsBounded e h = ground (
  arith,
  length-drop (length h.entries + 1 - h.max_entries) (h.entries ++ e ∷ []),
  length-append h.entries (e ∷ []),
)

-- A later history: some of the oldest entries are gone, and one entry is new.
abbrev pub IsNext : EventHistory → EventHistory → Type 0
IsNext h h' =
    (dropped : List HistoryEntry) × (e : HistoryEntry) × (h.entries ++ e ∷ []
      ≡ dropped ++ h'.entries)
    × (length dropped ≡ length h.entries + 1 - h.max_entries)

length-take : (n : ℕ) (xs : List HistoryEntry) → n ≤ length xs → length (take n xs) ≡ n
length-take zero xs le = refl
length-take (suc n) [] le = absurd (omega arith)
length-take (suc n) (x ∷ xs) le = omega (arith, length-take n xs (omega arith))

append-IsNext : (e : HistoryEntry) (h : EventHistory) → IsNext h (append e h)
unfolding append
append-IsNext e h =
    let n = length h.entries + 1 - h.max_entries in
    (
      take n (h.entries ++ e ∷ []),
      e,
      sym (take-append-drop n (h.entries ++ e ∷ [])),
      length-take n (h.entries ++ e ∷ []) (omega (arith, length-append h.entries (e ∷ []))),
    )

-- Each of the four ways to record adds one entry behind the others, drops as many of the oldest as
-- the bound demands and no more, and leaves at most `max_entries`.
pub records_lem :
    {P : Type 0} (event : Event P) (r : DeliveryResult) (a b : String) (n : ℕ) (h : EventHistory)
    → (IsNext h (record_publish event h) × IsBounded (record_publish event h))
      × (IsNext h (record_delivery event r h) × IsBounded (record_delivery event r h))
      × (IsNext h (record_dead_letter event a b h) × IsBounded (record_dead_letter event a b h))
      × (IsNext h (record_replay a n h) × IsBounded (record_replay a n h))
unfolding record_publish record_delivery record_dead_letter record_replay
records_lem event r a b n h = (
  (append-IsNext _ h, append-IsBounded _ h),
  (append-IsNext _ h, append-IsBounded _ h),
  (append-IsNext _ h, append-IsBounded _ h),
  (append-IsNext _ h, append-IsBounded _ h),
)

-- An entry that a query asks for.
abbrev pub is_asked : Option String → Option String → Option String → HistoryEntry → Bool
is_asked event_type action source e =
    asks event_type e.event_type && asks action e.action && asks source e.source

keep-keep :
    (p q r s : HistoryEntry → Bool)
    → ((e : HistoryEntry) → s e ≡ (p e && q e && r e))
    → (xs : List HistoryEntry) → keep r (keep q (keep p xs)) ≡ keep s xs
keep-keep p q r s h [] = refl
keep-keep p q r s h (x ∷ xs) = ground (arith, h x, keep-keep p q r s h xs)

-- A query with a positive limit returns the newest of the entries it asks for, in their order, as
-- many as the limit or all if they are fewer; with the limit 0 it returns all of them.
pub get_history_lem :
    (limit : ℕ) (event_type action source : Option String) (h : EventHistory)
    → let asked = keep (is_asked event_type action source) h.entries in
      (0 < limit
        → (older : List HistoryEntry) × (asked
            ≡ older ++ get_history limit event_type action source h)
          × (length (get_history limit event_type action source h)
              ≡ (if ltb limit (length asked) then limit else length asked)))
      × (get_history 0 event_type action source h ≡ asked)
unfolding get_history last
get_history_lem limit event_type action source h =
    let asked = keep (is_asked event_type action source) h.entries in
    let same =
      keep-keep (λ e. asks event_type e.event_type) (λ e. asks action e.action)
        (λ e. asks source e.source) (is_asked event_type action source) (λ e. refl) h.entries in
    rw same (
      (λ p.
          let n : eqb limit 0 ≡ false = ground arith in
          (
            take (length asked - limit) asked,
            rw n (sym (take-append-drop (length asked - limit) asked)),
            rw n (ground (arith, length-drop (length asked - limit) asked)),
          )),
      refl,
    )
