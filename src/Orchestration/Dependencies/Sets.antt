-- ===== src/Orchestration/Dependencies/Sets.antt =====
-- Sets of ids as lists: filters, distinct ids, and the ids for which a test fails.
use ai_enterprise_os.Prelude.{
  ℕ, ◌≤◌, ◌<◌, String, ◌≡◌, refl, ap, subst, ◌∙◌, Bool, true, false, ◌&&◌, List, [], ◌∷◌, ◌++◌,
  ◌==◌, eq_iff, arith, Bool-cases, inl, inr, elem, keep, all, All, length, length-keep, elem-append,
  IsDistinct, leb,
}
use ai_enterprise_os.Orchestration.Dependencies.{distinct}

pub elem-keep :
    (p : String → Bool) (t : String) (xs : List String) → elem t (keep p xs) ≡ (elem t xs && p t)
elem-keep p t [] = refl
elem-keep p t (x ∷ xs) = elim (Bool-cases (x == t)) [
  | inl e ↦
      subst (λ y. elem y (keep p (x ∷ xs)) ≡ (elem y (x ∷ xs) && p y)) ((eq_iff x t).0 e)
        (ground (arith, elem-keep p x xs, eq_iff x x))
  | inr e ↦ ground (arith, elem-keep p t xs)
]

pub IsDistinct-keep :
    (p : String → Bool) (xs : List String) → IsDistinct xs → IsDistinct (keep p xs)
IsDistinct-keep p [] h = tt
IsDistinct-keep p (x ∷ xs) h = ground (arith, IsDistinct-keep p xs h.1, elem-keep p x xs)

pub IsDistinct-append :
    (xs ys : List String)
    → IsDistinct xs
    → IsDistinct ys
    → ((t : String) → elem t xs ≡ true → elem t ys ≡ false)
    → IsDistinct (xs ++ ys)
IsDistinct-append [] ys hx hy apart = hy
IsDistinct-append (x ∷ xs) ys hx hy apart = (
  ground (arith, elem-append x xs ys, apart x, eq_iff x x),
  IsDistinct-append xs ys hx.1 hy (λ t e. apart t (ground arith)),
)

pub distinct-elem : (t : String) (xs : List String) → elem t (distinct xs) ≡ elem t xs
distinct-elem t [] = refl
distinct-elem t (x ∷ xs) = ground (arith, distinct-elem t xs, distinct-elem x xs, eq_iff x t)

pub distinct-IsDistinct : (xs : List String) → IsDistinct (distinct xs)
distinct-IsDistinct [] = tt
distinct-IsDistinct (x ∷ xs) = ground (arith, distinct-IsDistinct xs)

length-distinct : (xs : List String) → length (distinct xs) ≤ length xs
length-distinct [] = omega arith
length-distinct (x ∷ xs) = ground (arith, length-distinct xs)

pub length-keep-lt :
    (p : String → Bool) (t : String) (xs : List String)
    → elem t xs ≡ true
    → p t ≡ false
    → length (keep p xs) < length xs
length-keep-lt p t [] e f = cc
length-keep-lt p t (x ∷ xs) e f = elim (Bool-cases (x == t)) [
  | inl q ↦
      let off : p x ≡ false = ap p ((eq_iff x t).0 q) ∙ f in
      rw off (omega (arith, length-keep p xs))
  | inr q ↦ ground (arith, length-keep-lt p t xs)
]

pub All-keep : (p : String → Bool) (xs : List String) → All (λ t. p t ≡ true) (keep p xs)
All-keep p [] = tt
All-keep p (x ∷ xs) = ground (arith, All-keep p xs)

pub keep-nil : (p : String → Bool) (xs : List String) → keep p xs ≡ [] → All (λ t. p t ≡ false) xs
keep-nil p [] e = tt
keep-nil p (x ∷ xs) e = elim (Bool-cases (p x)) [
  | inl q ↦ absurd (ground arith)
  | inr q ↦ (q, keep-nil p xs (ground arith))
]

pub All-of_elem :
    (P : String → Type 0) (xs : List String) → ((t : String) → elem t xs ≡ true → P t) → All P xs
All-of_elem P [] f = tt
All-of_elem P (x ∷ xs) f =
    (f x (ground (arith, eq_iff x x)), All-of_elem P xs (λ t e. f t (ground arith)))

pub elem-of_All :
    (P : String → Type 0) (xs : List String) (t : String) → All P xs → elem t xs ≡ true → P t
elem-of_All P [] t h e = absurd cc
elem-of_All P (x ∷ xs) t h e = elim (Bool-cases (x == t)) [
  | inl q ↦ subst P ((eq_iff x t).0 q) h.0
  | inr q ↦ elem-of_All P xs t h.1 (ground arith)
]

-- One of some tasks of lowest rank.
pub lowest :
    (rank : String → ℕ) (x : String) (xs : List String)
    → (m : String) × (elem m (x ∷ xs) ≡ true)
      × ((t : String) → elem t (x ∷ xs) ≡ true → rank m ≤ rank t)
lowest rank x [] = (
  x,
  ground (arith, eq_iff x x),
  λ t e. subst (λ y. rank x ≤ rank y) ((eq_iff x t).0 (ground arith)) (omega arith),
)
lowest rank x (y ∷ ys) =
    let (m, inside, least) = lowest rank y ys in
    elim (Bool-cases (leb (rank x) (rank m))) [
      | inl e ↦ (
        x,
        ground (arith, eq_iff x x),
        λ t f. elim (Bool-cases (x == t)) [
          | inl q ↦ subst (λ z. rank x ≤ rank z) ((eq_iff x t).0 q) (omega arith)
          | inr q ↦ ground (arith, e, least t)
        ],
      )
      | inr e ↦ (
        m,
        ground (arith, inside),
        λ t f. elim (Bool-cases (x == t)) [
          | inl q ↦ subst (λ z. rank m ≤ rank z) ((eq_iff x t).0 q) (ground (arith, e))
          | inr q ↦ ground (arith, e, least t)
        ],
      )
    ]

-- What is not all true is false somewhere.
pub all-false :
    {A : Type 0} (p : A → Bool) (P : A → Type 0) (xs : List A)
    → all p xs ≡ false
    → All P xs
    → (x : A) × (p x ≡ false) × P x
all-false p P [] e h = absurd cc
all-false p P (x ∷ xs) e h = elim (Bool-cases (p x)) [
  | inl q ↦ all-false p P xs (ground arith) h.1
  | inr q ↦ (x, q, h.0)
]

pub All-and :
    {A : Type 0} (P Q : A → Type 0) (xs : List A) → All P xs → All Q xs → All (λ x. P x × Q x) xs
All-and P Q [] h k = tt
All-and P Q (x ∷ xs) h k = ((h.0, k.0), All-and P Q xs h.1 k.1)
