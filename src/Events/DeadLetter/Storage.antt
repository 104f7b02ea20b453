-- ===== src/Events/DeadLetter/Storage.antt =====
-- The file: loading it gives back the queue, except after an overflow.
use mathlib.Core.Path.{ap₂}
use ai_enterprise_os.Prelude.{
  ℕ, suc, ◌+◌, ◌-◌, ◌*◌, ◌<◌, String, Bool, false, Option, none, some, List, [], ◌∷◌, ◌++◌, map,
  ◌≡◌, refl, ◌∙◌, sym, ap, eqb, length, drop, keep, arith, length-append, length-drop, length-keep,
  Bool-cases, Option-cases, inl, inr,
}
use ai_enterprise_os.Events.DeadLetter.{
  DeadLetterRecord, DeadLetterQueue, Line, Json, line_of, record_of, lines_of, load_lines,
  load_line, load, add, append_record, save_all, pop, pop_id, remove, cleanup, clear,
  dead_letter_queue, is_fresh, day,
}
use ai_enterprise_os.Events.DeadLetter.Records.{enforce_max-drop, add-newest}

-- A line that was dumped is neither blank nor changed by `strip`, and loads as what was dumped.
pub record IsCodec {P T : Type 0} (json : Json P T) : Type 0 where
  pub strip-dumps : (l : Line P) → json.strip (json.dumps l) ≡ json.dumps l
  pub dumps-not_empty : (l : Line P) → json.is_empty (json.dumps l) ≡ false
  pub loads-dumps : (l : Line P) → json.loads (json.dumps l) ≡ some l

-- A record as it comes back from the file: without its envelope.
abbrev pub stored : {P V : Type 0} → DeadLetterRecord P V → DeadLetterRecord P V
stored r = record_of (line_of r)

append_assoc : {A : Type 0} (xs ys zs : List A) → (xs ++ ys) ++ zs ≡ xs ++ ys ++ zs
append_assoc [] ys zs = refl
append_assoc (x ∷ xs) ys zs = ap (λ ts. x ∷ ts) (append_assoc xs ys zs)

map-append : {A B : Type 0} (f : A → B) (xs ys : List A) → map f (xs ++ ys) ≡ map f xs ++ map f ys
map-append f [] ys = refl
map-append f (x ∷ xs) ys = ap (λ ts. f x ∷ ts) (map-append f xs ys)

length-map : {A B : Type 0} (f : A → B) (xs : List A) → length (map f xs) ≡ length xs
length-map f [] = refl
length-map f (x ∷ xs) = ap suc (length-map f xs)

keep-same :
    {A : Type 0} (p : A → Bool) (xs : List A) → length (keep p xs) ≡ length xs → keep p xs ≡ xs
keep-same p [] e = refl
keep-same p (x ∷ xs) e = ground (arith, length-keep p xs, keep-same p xs)

module _ {P V T : Type 0} (json : Json P T) where
  -- A queue started anew on the file has the records of this one.
  abbrev pub IsSynced : DeadLetterQueue P V T → Type 0
  IsSynced q = load json q.file ≡ map stored q.records

  load-append :
      (xs ys : List T)
      → load_lines {V = V} json (xs ++ ys) ≡ load_lines json xs ++ load_lines json ys
  unfolding load_lines
  load-append [] ys = refl
  load-append (x ∷ xs) ys = ground (
    arith,
    load-append xs ys,
    append_assoc (load_line {V = V} (json.loads (json.strip x))) (load_lines json xs)
        (load_lines json ys),
  )

  load-save :
      IsCodec json
      → (rs : List (DeadLetterRecord P V))
      → load_lines json (map (λ r. json.dumps (line_of r)) rs) ≡ map stored rs
  unfolding load_lines
  load-save c [] = refl
  load-save c (r ∷ rs) =
      rw (c.strip-dumps (line_of r), c.dumps-not_empty (line_of r), c.loads-dumps (line_of r))
        (ap (λ ts. stored r ∷ ts) (load-save c rs))

  load_line-stored : (o : Option (Line P)) → map stored (load_line {V = V} o) ≡ load_line o
  unfolding load_line
  load_line-stored none = refl
  load_line-stored (some l) = refl

  load_lines-stored : (xs : List T) → map stored (load_lines {V = V} json xs) ≡ load_lines json xs
  unfolding load_lines
  load_lines-stored [] = refl
  load_lines-stored (x ∷ xs) = ground (
    arith,
    load_lines-stored xs,
    load_line-stored (json.loads (json.strip x)),
    map-append (stored {V = V}) (load_line (json.loads (json.strip x))) (load_lines json xs),
  )

  save-IsSynced : IsCodec json → (q : DeadLetterQueue P V T) → IsSynced (save_all json q)
  unfolding save_all load
  save-IsSynced c q = load-save c q.records

  -- What the file holds after an addition.
  load-add :
      IsCodec json
      → (r : DeadLetterRecord P V) (q : DeadLetterQueue P V T) → IsSynced q
      → load json (add json r q).file ≡ map stored (q.records ++ r ∷ [])
  unfolding add append_record load
  load-add c r q h =
      load-append (lines_of q.file) (json.dumps (line_of r) ∷ [])
      ∙ ap₂ (λ xs ys. xs ++ ys) h (load-save c (r ∷ []))
      ∙ sym (map-append stored q.records (r ∷ []))

  add-all :
      (r : DeadLetterRecord P V) (q : DeadLetterQueue P V T)
      → length q.records < q.max_records
      → (add json r q).records ≡ q.records ++ r ∷ []
  unfolding add
  add-all r q lt =
      let few : length (q.records ++ r ∷ []) - q.max_records ≡ 0 =
        omega (arith, length-append q.records (r ∷ [])) in
      rw (enforce_max-drop q.max_records (q.records ++ r ∷ []), few) refl

  pub new-IsSynced :
      (file : Option (List T)) (max_records ttl_days : ℕ)
      → IsSynced (dead_letter_queue json file max_records ttl_days)
  unfolding dead_letter_queue load
  new-IsSynced file max_records ttl_days = sym (load_lines-stored (lines_of file))

  remove-IsSynced :
      IsCodec json
      → (event_id : String) (q : DeadLetterQueue P V T) → IsSynced q
      → IsSynced (remove json event_id q).0
  unfolding remove
  remove-IsSynced c event_id q h = elim (Option-cases (pop_id event_id q.records)) [
    | inl e ↦ rw e h
    | inr (rs, e) ↦ rw e (save-IsSynced c (record q { records = rs }))
  ]

  cleanup-IsSynced :
      IsCodec json
      → (now : ℕ) (q : DeadLetterQueue P V T) → IsSynced q
      → IsSynced (cleanup json now q).0
  unfolding cleanup
  cleanup-IsSynced c now q h =
      let fresh = keep (is_fresh (now - q.ttl_days * day)) q.records in
      elim (Bool-cases (eqb (length q.records - length fresh) 0)) [
        | inl e ↦
            let same : fresh ≡ q.records =
              keep-same (is_fresh (now - q.ttl_days * day)) q.records
                (ground (arith, length-keep (is_fresh (now - q.ttl_days * day)) q.records)) in
            rw (e, same) h
        | inr e ↦ rw e (save-IsSynced c (record q { records = fresh }))
      ]

  -- A queue started on the file has what this queue has, but for envelopes, after it starts, pops,
  -- removes, cleans up or clears, and after an addition that drops no record.
  pub operations-IsSynced :
      (r : DeadLetterRecord P V) (event_id : String) (n now : ℕ) (q : DeadLetterQueue P V T)
      → IsCodec json
      → IsSynced q
      → IsSynced (dead_letter_queue json q.file q.max_records q.ttl_days)
        × IsSynced (pop json n q).0
        × IsSynced (remove json event_id q).0
        × IsSynced (cleanup json now q).0
        × IsSynced (clear q)
        × (length q.records < q.max_records → IsSynced (add json r q))
  operations-IsSynced r event_id n now q c h = (
    new-IsSynced q.file q.max_records q.ttl_days,
    unfold pop in save-IsSynced c (record q { records = drop n q.records }),
    remove-IsSynced c event_id q h,
    cleanup-IsSynced c now q h,
    unfold clear load load_lines in refl,
    λ lt. load-add c r q h ∙ ap (map stored) (sym (add-all r q lt)),
  )

  -- Where JSON gives back what it dumped and the file holds the queue: an addition to a queue that is
  -- full, and may hold a record, drops the oldest record from memory and puts the new one last, but
  -- leaves the dropped one in the file: a queue started on that file has every old record and the new
  -- one, one more than `max_records`.
  pub overflow_returns :
      (r : DeadLetterRecord P V) (q : DeadLetterQueue P V T)
      → IsCodec json
      → IsSynced q
      → length q.records ≡ q.max_records
      → 0 < q.max_records
      → let q' = dead_letter_queue {V = V} json (add json r q).file q.max_records q.ttl_days in
        (q'.records ≡ map stored (q.records ++ r ∷ []))
        × (length q'.records ≡ q.max_records + 1)
        × ((add json r q).records ≡ drop 1 q.records ++ r ∷ [])
        × (length (add json r q).records ≡ q.max_records)
  unfolding dead_letter_queue
  overflow_returns r q c h full some_room =
      let file = load-add c r q h in
      let grown = length-append q.records (r ∷ []) in
      let one : length q.records + 1 - q.max_records ≡ 1 = omega (arith, full) in
      (
        file,
        rw (file, length-map stored (q.records ++ r ∷ [])) (ground (arith, grown)),
        rw (← one) (add-newest json r q some_room).0,
        unfold add in
            rw (enforce_max-drop q.max_records (q.records ++ r ∷ [])) (
              ground (
                arith,
                grown,
                length-drop (length (q.records ++ r ∷ []) - q.max_records) (q.records ++ r ∷ []),
              )),
      )
