-- ===== src/Prelude/Lists.antt =====
-- List functions over the native numbers, Boolean membership of texts, and their laws.
use Prim.Native.Nat.{ℕ, zero, suc, ◌+◌, ◌-◌, ◌≤◌}
use Prim.Native.String.{String}
use mathlib.Core.Path.{◌≡◌, refl}
use mathlib.Core.Bool.{Bool, true, false, ◌&&◌, ◌||◌, not}
use mathlib.Core.List.{List, [], ◌∷◌, ◌++◌}
use native.Mathlib.Omega.{arith}
use text.Mathlib.Text.{◌==◌}
use text.Mathlib.TextEquality.{eq_iff}
use ai_enterprise_os.Prelude.Tests.{if◌then◌else◌}

module _ {ℓ} {A : Type ℓ} where
  abbrev pub length : List A → ℕ
  length [] = 0
  length (_ ∷ xs) = suc (length xs)

  abbrev pub take : ℕ → List A → List A
  take zero xs = []
  take (suc n) [] = []
  take (suc n) (x ∷ xs) = x ∷ take n xs

  abbrev pub drop : ℕ → List A → List A
  drop zero xs = xs
  drop (suc n) [] = []
  drop (suc n) (x ∷ xs) = drop n xs

  -- any(p(x) for x in xs), all(p(x) for x in xs), [x for x in xs if p(x)]
  abbrev pub any : (A → Bool) → List A → Bool
  any p [] = false
  any p (x ∷ xs) = p x || any p xs

  abbrev pub all : (A → Bool) → List A → Bool
  all p [] = true
  all p (x ∷ xs) = p x && all p xs

  abbrev pub keep : (A → Bool) → List A → List A
  keep p [] = []
  keep p (x ∷ xs) = let rest = keep p xs in if p x then x ∷ rest else rest

  abbrev pub All {κ} : (A → Type κ) → List A → Type κ
  All P [] = Unit
  All P (x ∷ xs) = P x × All P xs

  pub All-mono : (P Q : A → Type 0) → ((x : A) → P x → Q x) → (xs : List A) → All P xs → All Q xs
  All-mono P Q f [] h = tt
  All-mono P Q f (x ∷ xs) h = (f x h.0, All-mono P Q f xs h.1)

  pub All-snoc : (P : A → Type 0) (xs : List A) (x : A) → All P xs → P x → All P (xs ++ x ∷ [])
  All-snoc P [] x h p = (p, tt)
  All-snoc P (y ∷ ys) x h p = (h.0, All-snoc P ys x h.1 p)

  pub length-append : (xs ys : List A) → length (xs ++ ys) ≡ length xs + length ys
  length-append [] ys = omega arith
  length-append (x ∷ xs) ys = omega (arith, length-append xs ys)

  pub length-drop : (n : ℕ) (xs : List A) → length (drop n xs) ≡ length xs - n
  length-drop zero xs = omega arith
  length-drop (suc n) [] = omega arith
  length-drop (suc n) (x ∷ xs) = omega (arith, length-drop n xs)

  pub take-append-drop : (n : ℕ) (xs : List A) → take n xs ++ drop n xs ≡ xs
  take-append-drop zero xs = refl
  take-append-drop (suc n) [] = refl
  take-append-drop (suc n) (x ∷ xs) = rw (take-append-drop n xs)

  pub length-keep : (p : A → Bool) (xs : List A) → length (keep p xs) ≤ length xs
  length-keep p [] = omega arith
  length-keep p (x ∷ xs) = ground (arith, length-keep p xs)

-- x in xs, for a list or a set of texts
abbrev pub elem : String → List String → Bool
elem k [] = false
elem k (x ∷ xs) = x == k || elem k xs

-- xs.remove(k): the first occurrence
abbrev pub remove_first : String → List String → List String
remove_first k [] = []
remove_first k (x ∷ xs) = let rest = x ∷ remove_first k xs in if x == k then xs else rest

-- No text stands twice.
abbrev pub IsDistinct : List String → Type 0
IsDistinct [] = Unit
IsDistinct (x ∷ xs) = (elem x xs ≡ false) × IsDistinct xs

pub elem-append : (k : String) (xs ys : List String) → elem k (xs ++ ys) ≡ (elem k xs || elem k ys)
elem-append k [] ys = refl
elem-append k (x ∷ xs) ys = ground (arith, elem-append k xs ys)

pub elem-remove_first :
    (k j : String) (xs : List String)
    → IsDistinct xs
    → elem j (remove_first k xs) ≡ (elem j xs && not (k == j))
elem-remove_first k j [] h = ground arith
elem-remove_first k j (x ∷ xs) h =
    ground (arith, elem-remove_first k j xs h.1, eq_iff x k, eq_iff x j, eq_iff k j)

pub IsDistinct-remove_first :
    (k : String) (xs : List String) → IsDistinct xs → IsDistinct (remove_first k xs)
IsDistinct-remove_first k [] h = tt
IsDistinct-remove_first k (x ∷ xs) h =
    ground (arith, IsDistinct-remove_first k xs h.1, elem-remove_first k x xs h.1, eq_iff x k)

pub IsDistinct-snoc :
    (k : String) (xs : List String) → IsDistinct xs → elem k xs ≡ false → IsDistinct (xs ++ k ∷ [])
IsDistinct-snoc k [] h n = (refl, tt)
IsDistinct-snoc k (x ∷ xs) h n =
    ground (arith, IsDistinct-snoc k xs h.1, elem-append x xs (k ∷ []), eq_iff x k, eq_iff k x)
