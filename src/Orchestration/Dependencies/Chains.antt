-- ===== src/Orchestration/Dependencies/Chains.antt =====
-- Chains of tasks, each depending on the next, and filters that keep less.
use ai_enterprise_os.Prelude.{
  ◌≤◌, ◌<◌, String, ◌≡◌, refl, ap, ◌∙◌, Bool, true, false, List, [], ◌∷◌, ◌++◌, ◌==◌, eq_iff, arith,
  Bool-cases, inl, inr, elem, keep, length,
}
use ai_enterprise_os.Orchestration.Dependencies.{Deps, dependencies_of, ids, cycle_from, drop_last}

-- Each task depends on the next.
abbrev pub IsChain : Deps → List String → Type 0
IsChain deps [] = Unit
IsChain deps (x ∷ []) = Unit
IsChain deps (x ∷ y ∷ ys) = (elem y (ids (dependencies_of deps x)) ≡ true) × IsChain deps (y ∷ ys)

-- A chain of tasks that ends where it began.
abbrev pub IsCycle : Deps → List String → Type 0
IsCycle deps c =
    (t : String) × (between : List String) × (c ≡ t ∷ between ++ t ∷ []) × IsChain deps c

IsChain-tail :
    (deps : Deps) (x : String) (xs : List String) → IsChain deps (x ∷ xs) → IsChain deps xs
IsChain-tail deps x [] h = tt
IsChain-tail deps x (y ∷ ys) h = h.1

pub IsChain-snoc :
    (deps : Deps) (xs : List String) (t u : String)
    → IsChain deps (xs ++ t ∷ [])
    → elem u (ids (dependencies_of deps t)) ≡ true
    → IsChain deps ((xs ++ t ∷ []) ++ u ∷ [])
IsChain-snoc deps [] t u h e = (e, tt)
IsChain-snoc deps (x ∷ []) t u h e = (h.0, (e, tt))
IsChain-snoc deps (x ∷ y ∷ ys) t u h e = (h.0, IsChain-snoc deps (y ∷ ys) t u h.1 e)

pub cycle_from-IsCycle :
    (deps : Deps) (t : String) (path : List String)
    → elem t path ≡ true
    → IsChain deps (path ++ t ∷ [])
    → IsCycle deps (cycle_from t path)
unfolding cycle_from
cycle_from-IsCycle deps t [] e h = absurd cc
cycle_from-IsCycle deps t (x ∷ path) e h = elim (Bool-cases (x == t)) [
  | inl q ↦ rw q (t, path, ap (λ y. y ∷ path ++ t ∷ []) ((eq_iff x t).0 q), h)
  | inr q ↦
      rw q (
        cycle_from-IsCycle deps t path (ground (arith, e)) (IsChain-tail deps x (path ++ t ∷ []) h))
]

pub drop_last-snoc : (xs : List String) (t : String) → drop_last (xs ++ t ∷ []) ≡ xs
drop_last-snoc [] t = refl
drop_last-snoc (x ∷ []) t = refl
drop_last-snoc (x ∷ y ∷ ys) t = ap (λ zs. x ∷ zs) (drop_last-snoc (y ∷ ys) t)

pub length-keep-le :
    (p q : String → Bool) (xs : List String)
    → ((x : String) → p x ≡ true → q x ≡ true)
    → length (keep p xs) ≤ length (keep q xs)
length-keep-le p q [] h = omega arith
length-keep-le p q (x ∷ xs) h = ground (arith, h x, length-keep-le p q xs h)

pub length-keep-less :
    (p q : String → Bool) (t : String) (xs : List String)
    → ((x : String) → p x ≡ true → q x ≡ true)
    → elem t xs ≡ true
    → p t ≡ false
    → q t ≡ true
    → length (keep p xs) < length (keep q xs)
length-keep-less p q t [] h e f g = absurd cc
length-keep-less p q t (x ∷ xs) h e f g = elim (Bool-cases (x == t)) [
  | inl s ↦
      let off : p x ≡ false = ap p ((eq_iff x t).0 s) ∙ f in
      let on : q x ≡ true = ap q ((eq_iff x t).0 s) ∙ g in
      rw (off, on) (omega (arith, length-keep-le p q xs h))
  | inr s ↦ ground (arith, h x, length-keep-less p q t xs h, e)
]
