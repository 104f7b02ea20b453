-- ===== src/Dict.antt =====
-- Python's dict with text keys, in insertion order, as the components use it: `d.get(k)`, `k in d`,
-- `d[k] = v` (in place for a key that is there, else at the end), `d.pop(k, None)` and the views.
pub mod Keys
use ai_enterprise_os.Prelude.{
  String, ◌≡◌, refl, Bool, true, false, ◌||◌, Option, none, some, is_some, List, [], ◌∷◌, arith,
  ◌==◌, eq_iff, if◌then◌else◌, Option-cases, inl, inr,
}

abbrev pub Dict {ℓ} : Type ℓ → Type ℓ
Dict V = List (String × V)

module _ {ℓ} {V : Type ℓ} where
  -- d.get(k)
  unfoldable pub lookup : String → Dict V → Option V
  lookup k [] = none
  lookup k ((j, v) ∷ d) = if j == k then some v else lookup k d

  -- k in d
  unfoldable pub has : String → Dict V → Bool
  has k [] = false
  has k ((j, v) ∷ d) = j == k || has k d

  -- d[k] = v
  unfoldable pub insert : String → V → Dict V → Dict V
  insert k v [] = (k, v) ∷ []
  insert k v ((j, w) ∷ d) = let rest = (j, w) ∷ insert k v d in if j == k then (k, v) ∷ d else rest

  -- d.pop(k, None)
  unfoldable pub erase : String → Dict V → Dict V
  erase k [] = []
  erase k ((j, v) ∷ d) = let rest = erase k d in if j == k then rest else (j, v) ∷ rest

  -- d.get(k, v)
  unfoldable pub get_or : String → V → Dict V → V
  get_or k w [] = w
  get_or k w ((j, v) ∷ d) = if j == k then v else get_or k w d

  -- list(d)
  abbrev pub keys : Dict V → List String
  keys [] = []
  keys ((k, v) ∷ d) = k ∷ keys d

  -- d.values()
  abbrev pub values : Dict V → List V
  values [] = []
  values ((k, v) ∷ d) = v ∷ values d

  pub lookup-insert :
      (k j : String) (v : V) (d : Dict V)
      → lookup j (insert k v d) ≡ (if k == j then some v else lookup j d)
  unfolding lookup insert
  lookup-insert k j v [] = ground arith
  lookup-insert k j v ((i, w) ∷ d) =
      ground (arith, eq_iff k j, eq_iff i k, eq_iff i j, lookup-insert k j v d)

  pub lookup-erase :
      (k j : String) (d : Dict V) → lookup j (erase k d) ≡ (if k == j then none else lookup j d)
  unfolding lookup erase
  lookup-erase k j [] = ground arith
  lookup-erase k j ((i, w) ∷ d) =
      ground (arith, eq_iff k j, eq_iff i k, eq_iff i j, lookup-erase k j d)

  pub has-insert : (k j : String) (v : V) (d : Dict V) → has j (insert k v d) ≡ (k == j || has j d)
  unfolding has insert
  has-insert k j v [] = ground arith
  has-insert k j v ((i, w) ∷ d) =
      ground (arith, eq_iff k j, eq_iff i k, eq_iff i j, has-insert k j v d)

  pub has-erase :
      (k j : String) (d : Dict V) → has j (erase k d) ≡ (if k == j then false else has j d)
  unfolding has erase
  has-erase k j [] = ground arith
  has-erase k j ((i, w) ∷ d) = ground (arith, eq_iff k j, eq_iff i k, eq_iff i j, has-erase k j d)

  -- A key is in the dict exactly when a lookup finds a value.
  pub has-lookup : (k : String) (d : Dict V) → has k d ≡ is_some (lookup k d)
  unfolding lookup has
  has-lookup k [] = refl
  has-lookup k ((i, w) ∷ d) = ground (arith, has-lookup k d)

  pub lookup-some_of_has :
      (k : String) (d : Dict V) → has k d ≡ true → (v : V) × (lookup k d ≡ some v)
  lookup-some_of_has k d h = elim (Option-cases (lookup k d)) [
    | inl e ↦ absurd (ground (arith, has-lookup k d))
    | inr found ↦ found
  ]

  pub has_of_lookup : (k : String) (d : Dict V) (v : V) → lookup k d ≡ some v → has k d ≡ true
  has_of_lookup k d v h = rw (has-lookup k d, h)

  pub lookup-none_of_not_has : (k : String) (d : Dict V) → has k d ≡ false → lookup k d ≡ none
  lookup-none_of_not_has k d h = elim (Option-cases (lookup k d)) [
    | inl e ↦ e
    | inr (v, e) ↦ absurd (ground (arith, has-lookup k d))
  ]

  -- d.get(k, w) in terms of d.get(k)
  pub get_or-insert :
      (k j : String) (v w : V) (d : Dict V)
      → get_or j w (insert k v d) ≡ (if k == j then v else get_or j w d)
  unfolding get_or insert
  get_or-insert k j v w [] = ground arith
  get_or-insert k j v w ((i, u) ∷ d) =
      ground (arith, eq_iff k j, eq_iff i k, eq_iff i j, get_or-insert k j v w d)

  pub get_or-erase :
      (k j : String) (w : V) (d : Dict V)
      → get_or j w (erase k d) ≡ (if k == j then w else get_or j w d)
  unfolding get_or erase
  get_or-erase k j w [] = ground arith
  get_or-erase k j w ((i, u) ∷ d) =
      ground (arith, eq_iff k j, eq_iff i k, eq_iff i j, get_or-erase k j w d)
