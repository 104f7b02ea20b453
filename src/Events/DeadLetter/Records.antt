-- ===== src/Events/DeadLetter/Records.antt =====
-- The queue in memory: bounded, oldest first, and what each operation takes out of it.
use ai_enterprise_os.Prelude.{
  ℕ, zero, suc, ◌+◌, ◌-◌, ◌≤◌, ◌<◌, String, true, false, Option, none, some, List, [], ◌∷◌, ◌++◌,
  map, ◌≡◌, refl, ◌∙◌, ap, ltb, length, take, drop, any, arith, length-append, length-drop,
  take-append-drop, Bool-cases, inl, inr,
}
use ai_enterprise_os.Events.DeadLetter.{
  DeadLetterRecord, DeadLetterQueue, Json, enforce_max, has_id, pop_id, add, pop, remove,
  requeue_events, removed, save_all,
}

module _ {P V : Type 0} where
  pub enforce_max-drop :
      (m : ℕ) (rs : List (DeadLetterRecord P V)) → enforce_max m rs ≡ drop (length rs - m) rs
  unfolding enforce_max
  enforce_max-drop m [] = ground arith
  enforce_max-drop m (r ∷ rs) = elim (Bool-cases (ltb m (length (r ∷ rs)))) [
    | inl e ↦
        let more : length (r ∷ rs) - m ≡ suc (length rs - m) = ground arith in
        rw (e, more) (enforce_max-drop m rs)
    | inr e ↦ let none_more : length (r ∷ rs) - m ≡ 0 = ground arith in rw (e, none_more) refl
  ]

  pub drop-snoc :
      (n : ℕ) (rs : List (DeadLetterRecord P V)) (r : DeadLetterRecord P V)
      → n ≤ length rs
      → drop n (rs ++ r ∷ []) ≡ drop n rs ++ r ∷ []
  drop-snoc zero rs r le = refl
  drop-snoc (suc n) [] r le = absurd (omega arith)
  drop-snoc (suc n) (x ∷ rs) r le = drop-snoc n rs r (omega arith)

module _ {P V T : Type 0} (json : Json P T) where
  -- Adding keeps the newest `max_records` records, in order of arrival: it drops the oldest ones
  -- that are too many, and never more than the bound stay.
  pub add-newest :
      (r : DeadLetterRecord P V) (q : DeadLetterQueue P V T)
      → 0 < q.max_records
      → ((add json r q).records ≡ drop (length q.records + 1 - q.max_records) q.records ++ r ∷ [])
        × (length (add json r q).records ≤ q.max_records)
  unfolding add
  add-newest r q p =
      let shown : (add json r q).records
          ≡ drop (length q.records + 1 - q.max_records) (q.records ++ r ∷ []) =
        rw (enforce_max-drop q.max_records (q.records ++ r ∷ []), length-append q.records (r ∷ []))
          refl in
      (
        shown ∙ drop-snoc (length q.records + 1 - q.max_records) q.records r (omega arith),
        rw (enforce_max-drop q.max_records (q.records ++ r ∷ [])) (
            ground (
              arith,
              length-drop (length (q.records ++ r ∷ []) - q.max_records) (q.records ++ r ∷ []),
            )),
      )

  -- Re-queuing takes the oldest records, in order, gives their events, and leaves the others; what
  -- it took and what it left are the queue as it was.
  pub requeue_lem :
      (n : ℕ) (q : DeadLetterQueue P V T)
      → (taken : List (DeadLetterRecord P V)) × ((requeue_events json n q).1
          ≡ map (λ (r : DeadLetterRecord P V). r.event) taken)
        × (taken ++ (requeue_events json n q).0.records ≡ q.records)
        × (length (requeue_events json n q).0.records ≡ length q.records - n)
  unfolding requeue_events pop
  requeue_lem n q = (take n q.records, refl, take-append-drop n q.records, length-drop n q.records)

module _ {P V : Type 0} (event_id : String) where
  -- The record that is removed is the first of its id.
  pub record Found (rs left : List (DeadLetterRecord P V)) : Type 0 where
    pub before : List (DeadLetterRecord P V)
    pub found : DeadLetterRecord P V
    pub after : List (DeadLetterRecord P V)
    pub split : rs ≡ before ++ found ∷ after
    pub left_is : left ≡ before ++ after
    pub matches : has_id event_id found ≡ true
    pub first : any (has_id event_id) before ≡ false

  abbrev pub IsFound : List (DeadLetterRecord P V) → Option (List (DeadLetterRecord P V)) → Type 0
  IsFound rs none = any (has_id event_id) rs ≡ false
  IsFound rs (some left) = Found rs left

  later-IsFound :
      (r : DeadLetterRecord P V) (rs : List (DeadLetterRecord P V))
      (o : Option (List (DeadLetterRecord P V)))
      → has_id event_id r ≡ false
      → IsFound rs o
      → IsFound (r ∷ rs) (elim o [ none ↦ none | some ts ↦ some (r ∷ ts) ])
  later-IsFound r rs none n h = rw n h
  later-IsFound r rs (some ts) n h = record {
    before = r ∷ h.before;
    found = h.found;
    after = h.after;
    split = ap (λ xs. r ∷ xs) h.split;
    left_is = ap (λ xs. r ∷ xs) h.left_is;
    matches = h.matches;
    first = rw n h.first;
  }

  pub pop_id-IsFound : (rs : List (DeadLetterRecord P V)) → IsFound rs (pop_id event_id rs)
  unfolding pop_id
  pop_id-IsFound [] = refl
  pop_id-IsFound (r ∷ rs) = elim (Bool-cases (has_id event_id r)) [
    | inl e ↦ rw e record {
      before = [];
      found = r;
      after = rs;
      split = refl;
      left_is = refl;
      matches = e;
      first = refl;
    }
    | inr e ↦ rw e (later-IsFound r rs (pop_id event_id rs) e (pop_id-IsFound rs))
  ]

  removed-Found :
      {T : Type 0} (json : Json P T) (q : DeadLetterQueue P V T)
      (o : Option (List (DeadLetterRecord P V)))
      → IsFound q.records o
      → ((removed json q o).1 ≡ false
          → (any (has_id event_id) q.records ≡ false) × ((removed json q o).0 ≡ q))
        × ((removed json q o).1 ≡ true → Found q.records (removed json q o).0.records)
  unfolding removed save_all
  removed-Found json q none h = ((λ e. (h, refl)), λ e. ground arith)
  removed-Found json q (some rs) h = ((λ e. ground arith), λ e. h)

  -- Removing an id answers no exactly when it changes nothing, as no record has the id; it answers
  -- yes when it took out the first record of that id, and left all others in their order.
  pub remove_lem :
      {T : Type 0} (json : Json P T) (q : DeadLetterQueue P V T)
      → ((remove json event_id q).1 ≡ false
          → (any (has_id event_id) q.records ≡ false) × ((remove json event_id q).0 ≡ q))
        × ((remove json event_id q).1 ≡ true → Found q.records (remove json event_id q).0.records)
  unfolding remove
  remove_lem json q = removed-Found json q (pop_id event_id q.records) (pop_id-IsFound q.records)
