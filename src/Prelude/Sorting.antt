-- ===== src/Prelude/Sorting.antt =====
-- Python's stable `sorted`, by a test that says when one item may stand before another.
use mathlib.Core.Path.{◌≡◌, refl}
use mathlib.Core.Bool.{Bool, true, false}
use mathlib.Core.List.{List, [], ◌∷◌}
use mathlib.Core.List.Perm
use mathlib.Core.List.{Perm}
use mathlib.Core.Logic.{inl, inr, ◌↔◌}
use native.Mathlib.Omega.{arith}
use ai_enterprise_os.Prelude.Tests.{if◌then◌else◌, Bool-cases}
use ai_enterprise_os.Prelude.Lists.{keep, All}

module _ {ℓ} {A : Type ℓ} (le : A → A → Bool) where
  unfoldable pub insert_by : A → List A → List A
  insert_by x [] = x ∷ []
  insert_by x (y ∷ ys) = let rest = insert_by x ys in if le x y then x ∷ y ∷ ys else y ∷ rest

  unfoldable pub sort_by : List A → List A
  unfolding insert_by
  sort_by [] = []
  sort_by (x ∷ xs) = insert_by x (sort_by xs)

  insert_by-perm : (x : A) (xs : List A) → Perm (insert_by x xs) (x ∷ xs)
  unfolding insert_by
  insert_by-perm x [] = Perm.refl (x ∷ [])
  insert_by-perm x (y ∷ ys) = elim (Bool-cases (le x y)) [
    | inl e ↦ rw e (Perm.refl (x ∷ y ∷ ys))
    | inr e ↦ rw e (Perm.trans (Perm.cons y (insert_by-perm x ys)) (Perm.swap x y ys))
  ]

  -- Sorting rearranges.
  pub sort_by-perm : (xs : List A) → Perm (sort_by xs) xs
  unfolding sort_by
  sort_by-perm [] = Perm.refl []
  sort_by-perm (x ∷ xs) = Perm.trans (insert_by-perm x (sort_by xs)) (Perm.cons x (sort_by-perm xs))

  All-insert_by : (P : A → Type 0) (x : A) (ys : List A) → (P x × All P ys) ↔ All P (insert_by x ys)
  unfolding insert_by
  All-insert_by P x [] = (λ h. h, λ h. h)
  All-insert_by P x (y ∷ ys) = elim (Bool-cases (le x y)) [
    | inl e ↦ rw e (λ h. h, λ h. h)
    | inr e ↦
        let (into, back) = All-insert_by P x ys in
        rw e (λ h. (h.1.0, into (h.0, h.1.1)), λ h. let (at, rest) = back h.1 in (at, (h.0, rest)))
  ]

  -- What all items are, all sorted items are, and conversely.
  pub All-sort_by : (P : A → Type 0) (xs : List A) → All P xs ↔ All P (sort_by xs)
  unfolding sort_by
  All-sort_by P [] = (λ h. h, λ h. h)
  All-sort_by P (x ∷ xs) =
      let (into, back) = All-sort_by P xs in
      let (into', back') = All-insert_by P x (sort_by xs) in
      (λ h. into' (h.0, into h.1), λ h. let (at, rest) = back' h in (at, back rest))

  -- Items that may all stand before one another keep their order.
  insert_by-stable :
      (p : A → Bool)
      → ((a b : A) → p a ≡ true → p b ≡ true → le a b ≡ true)
      → (x : A) (ys : List A) → keep p (insert_by x ys) ≡ keep p (x ∷ ys)
  unfolding insert_by
  insert_by-stable p h x [] = refl
  insert_by-stable p h x (y ∷ ys) = ground (arith, h x y, insert_by-stable p h x ys)

  pub sort_by-stable :
      (p : A → Bool)
      → ((a b : A) → p a ≡ true → p b ≡ true → le a b ≡ true)
      → (xs : List A) → keep p (sort_by xs) ≡ keep p xs
  unfolding sort_by
  sort_by-stable p h [] = refl
  sort_by-stable p h (x ∷ xs) =
      ground (arith, insert_by-stable p h x (sort_by xs), sort_by-stable p h xs)

  -- Each item may stand before all behind it.
  abbrev pub IsSortedBy : List A → Type 0
  IsSortedBy [] = Unit
  IsSortedBy (x ∷ xs) = All (λ y. le x y ≡ true) xs × IsSortedBy xs

  module _ (total : (a b : A) → le a b ≡ false → le b a ≡ true)
      (trans : (a b c : A) → le a b ≡ true → le b c ≡ true → le a c ≡ true) where
    insert_by-All :
        (z x : A) (ys : List A)
        → le z x ≡ true
        → All (λ y. le z y ≡ true) ys
        → All (λ y. le z y ≡ true) (insert_by x ys)
    unfolding insert_by
    insert_by-All z x [] e h = (e, tt)
    insert_by-All z x (y ∷ ys) e h = elim (Bool-cases (le x y)) [
      | inl q ↦ rw q (e, h)
      | inr q ↦ rw q (h.0, insert_by-All z x ys e h.1)
    ]

    All-trans :
        (x y : A) (ys : List A)
        → le x y ≡ true
        → All (λ z. le y z ≡ true) ys
        → All (λ z. le x z ≡ true) ys
    All-trans x y [] e h = tt
    All-trans x y (z ∷ ys) e h = (trans x y z e h.0, All-trans x y ys e h.1)

    insert_by-IsSortedBy : (x : A) (ys : List A) → IsSortedBy ys → IsSortedBy (insert_by x ys)
    unfolding insert_by
    insert_by-IsSortedBy x [] h = (tt, tt)
    insert_by-IsSortedBy x (y ∷ ys) h = elim (Bool-cases (le x y)) [
      | inl q ↦ rw q ((q, All-trans x y ys q h.0), h)
      | inr q ↦ rw q (insert_by-All y x ys (total x y q) h.0, insert_by-IsSortedBy x ys h.1)
    ]

    pub sort_by-IsSortedBy : (xs : List A) → IsSortedBy (sort_by xs)
    unfolding sort_by
    sort_by-IsSortedBy [] = tt
    sort_by-IsSortedBy (x ∷ xs) = insert_by-IsSortedBy x (sort_by xs) (sort_by-IsSortedBy xs)
