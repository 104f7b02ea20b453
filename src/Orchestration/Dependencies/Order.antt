-- ===== src/Orchestration/Dependencies/Order.antt =====
-- The topological order: each task behind its dependencies, where none depends on itself.
use mathlib.Core.List.{append_assoc, append-nil}
use ai_enterprise_os.Prelude.{
  ℕ, zero, suc, ◌+◌, ◌≤◌, ◌<◌, String, ◌≡◌, refl, sym, ap, subst, ◌∙◌, Bool, true, false, ◌↔◌, ◌&&◌,
  ◌||◌, some, List, [], ◌∷◌, ◌++◌, ◌==◌, eq_iff, arith, Bool-cases, inl, inr, elem, All,
  elem-append, IsDistinct, IsDistinct-snoc, All-sort_by,
}
use ai_enterprise_os.Orchestration.Models.{TaskDependency, all_tasks}
use ai_enterprise_os.Orchestration.Dependencies.{
  Deps, DependencyGraph, dependencies_of, ids, task_ids, Sorted, sorted_ids, place, place_all,
  topological_order,
}
use ai_enterprise_os.Orchestration.Dependencies.Sets.{All-and, All-of_elem, elem-of_All}
use ai_enterprise_os.Orchestration.Dependencies.Layers.{IsRanked}

pub ids-All :
    (P : String → Type 0) (ds : List TaskDependency)
    → All (λ (d : TaskDependency). P d.task_id) ds ↔ All P (ids ds)
ids-All P [] = (λ h. h, λ h. h)
ids-All P (d ∷ ds) = let (into, back) = ids-All P ds in (λ h. (h.0, into h.1), λ h. (h.0, back h.1))

-- Behind those seen, each task comes when its dependencies have come.
abbrev pub DepsFirst : Deps → List String → List String → Type 0
DepsFirst deps seen [] = Unit
DepsFirst deps seen (t ∷ ts) =
    All (λ (d : TaskDependency). elem d.task_id seen ≡ true) (dependencies_of deps t)
    × DepsFirst deps (seen ++ t ∷ []) ts

-- Every dependency of one of these tasks is one of them.
abbrev pub IsInside : Deps → List String → Type 0
IsInside deps tasks =
    (t : String)
    → elem t tasks ≡ true
    → All (λ (d : TaskDependency). elem d.task_id tasks ≡ true) (dependencies_of deps t)

pub DepsFirst-snoc :
    (deps : Deps) (seen ts : List String) (t : String)
    → DepsFirst deps seen ts
    → All (λ (d : TaskDependency). elem d.task_id (seen ++ ts) ≡ true) (dependencies_of deps t)
    → DepsFirst deps seen (ts ++ t ∷ [])
DepsFirst-snoc deps seen [] t h known = (
  subst (λ xs. All (λ (d : TaskDependency). elem d.task_id xs ≡ true) (dependencies_of deps t))
      (append-nil seen) known,
  tt,
)
DepsFirst-snoc deps seen (x ∷ ts) t h known = (
  h.0,
  DepsFirst-snoc deps (seen ++ x ∷ []) ts t h.1 (
      subst (λ xs. All (λ (d : TaskDependency). elem d.task_id xs ≡ true) (dependencies_of deps t))
        (sym (append_assoc seen (x ∷ []) ts)) known),
)

module _ (before : String → String → Bool) (deps : Deps) (tasks : List String) (rank : String → ℕ)
    (ranked : IsRanked deps rank) (inside : IsInside deps tasks) where
  record IsPlaced (s : Sorted) : Type 0 where
    within : (x : String) → elem x s.result ≡ true → (elem x s.visited && elem x tasks) ≡ true
    ordered : DepsFirst deps [] s.result
    apart : IsDistinct s.result

  -- Tasks of a rank below this one are in the result once they are visited.
  abbrev IsSettled : ℕ → Sorted → Type 0
  IsSettled k s = (x : String) → elem x s.visited ≡ true → rank x < k → elem x s.result ≡ true

  -- From one state of the search to a later one.
  record Step (s s' : Sorted) : Type 0 where
    placed : IsPlaced s'
    kept : (x : String) → elem x s.result ≡ true → elem x s'.result ≡ true
    grown : (x : String) → elem x s.visited ≡ true → elem x s'.visited ≡ true
    finished :
        (x : String) → elem x s'.visited ≡ true → (elem x s'.result || elem x s.visited) ≡ true
    unfinished :
        (x : String) → elem x s.visited ≡ true → elem x s'.result ≡ true → elem x s.result ≡ true

  Step-IsSettled : (k : ℕ) (s s' : Sorted) → Step s s' → IsSettled k s → IsSettled k s'
  Step-IsSettled k s s' step settled x e small =
      ground (arith, step.finished x e, settled x, step.kept x, small)

  abbrev Placing : ℕ → Type 0
  Placing fuel =
      (t : String) (s : Sorted)
      → rank t < fuel
      → elem t tasks ≡ true
      → IsPlaced s
      → IsSettled (suc (rank t)) s
      → (s' : Sorted) × (place before deps fuel t s ≡ some s')
        × Step s s'
        × (elem t s'.result ≡ true)

  place_all-Step :
      (fuel k : ℕ)
      → Placing fuel
      → k ≤ fuel
      → (ts : List String) (s : Sorted) → All (λ t. (rank t < k) × (elem t tasks ≡ true)) ts
      → IsPlaced s
      → IsSettled k s
      → (s' : Sorted) × (place_all (place before deps fuel) ts s ≡ some s')
        × Step s s'
        × All (λ t. elem t s'.result ≡ true) ts
  unfolding place_all
  place_all-Step fuel k placing enough [] s low placed settled = (
    s,
    refl,
    record {
      placed = placed;
      kept = λ x e. e;
      grown = λ x e. e;
      finished = λ x e. ground (arith, e);
      unfinished = λ x e f. f;
    },
    tt,
  )
  place_all-Step fuel k placing enough (t ∷ ts) s low placed settled =
      let (s1, ran, step, here) =
        placing t s (omega (arith, low.0.0, enough)) low.0.1 placed
          (λ x e small. settled x e (omega (arith, small, low.0.0))) in
      let (s2, ran', step', rest) =
        place_all-Step fuel k placing enough ts s1 low.1 step.placed
          (Step-IsSettled k s s1 step settled) in
      (
        s2,
        rw ran ran',
        record {
          placed = step'.placed;
          kept = λ x e. step'.kept x (step.kept x e);
          grown = λ x e. step'.grown x (step.grown x e);
          finished = λ x e. ground (arith, step'.finished x e, step.finished x, step'.kept x);
          unfinished = λ x e f. step.unfinished x e (step'.unfinished x (step.grown x e) f);
        },
        (step'.kept t here, rest),
      )

  deps-low :
      (t : String)
      → elem t tasks ≡ true
      → All
          (λ u. (rank u < rank t) × (elem u tasks ≡ true))
          (sorted_ids before (dependencies_of deps t))
  deps-low t known = (ids-All (λ u. (rank u < rank t) × (elem u tasks ≡ true)) _).0 (
      (All-sort_by _ _ (dependencies_of deps t)).0
        (All-and _ _ (dependencies_of deps t) (ranked t) (inside t known)))

  deps-come :
      (t : String) (result : List String)
      → All (λ u. elem u result ≡ true) (sorted_ids before (dependencies_of deps t))
      → All (λ (d : TaskDependency). elem d.task_id result ≡ true) (dependencies_of deps t)
  deps-come t result h =
      (All-sort_by _ _ (dependencies_of deps t)).1 ((ids-All (λ u. elem u result ≡ true) _).1 h)

  start-IsPlaced :
      (s : Sorted) (t : String) → IsPlaced s → IsPlaced (record s { visited = s.visited ++ t ∷ [] })
  start-IsPlaced s t placed = record {
    within = λ x e. ground (arith, placed.within x e, elem-append x s.visited (t ∷ []));
    ordered = placed.ordered;
    apart = placed.apart;
  }

  start-IsSettled :
      (s : Sorted) (t : String)
      → IsSettled (suc (rank t)) s
      → IsSettled (rank t) (record s { visited = s.visited ++ t ∷ [] })
  start-IsSettled s t settled x e small = elim (Bool-cases (t == x)) [
    | inl q ↦ absurd (omega (arith, small, ap rank ((eq_iff t x).0 q)))
    | inr q ↦ settled x (ground (arith, e, elem-append x s.visited (t ∷ []))) (omega (arith, small))
  ]

  -- A task joins the result behind its dependencies.
  finish :
      (s s2 : Sorted) (t : String)
      → elem t tasks ≡ true
      → elem t s.visited ≡ false
      → IsPlaced s
      → Step (record s { visited = s.visited ++ t ∷ [] }) s2
      → All (λ u. elem u s2.result ≡ true) (sorted_ids before (dependencies_of deps t))
      → Step s (record s2 { result = s2.result ++ t ∷ [] })
  finish s s2 t known new placed step come =
      let snoc = λ (x : String) (xs : List String). elem-append x xs (t ∷ []) in
      let seen : elem t (s.visited ++ t ∷ []) ≡ true =
        ground (arith, snoc t s.visited, eq_iff t t) in
      record {
        placed = record {
          within = λ x e. elim (Bool-cases (t == x)) [
            | inl q ↦
                subst (λ y. (elem y s2.visited && elem y tasks) ≡ true) ((eq_iff t x).0 q)
                  (rw (step.grown t seen, known) refl)
            | inr q ↦ step.placed.within x (ground (arith, e, snoc x s2.result))
          ];
          ordered =
              DepsFirst-snoc deps [] s2.result t step.placed.ordered (deps-come t s2.result come);
          apart =
              IsDistinct-snoc t s2.result step.placed.apart (elim (Bool-cases (elem t s2.result)) [
                | inl q ↦ absurd (ground (arith, new, placed.within t (step.unfinished t seen q)))
                | inr q ↦ q
              ]);
        };
        kept = λ x e. ground (arith, snoc x s2.result, step.kept x e);
        grown = λ x e. step.grown x (ground (arith, e, snoc x s.visited));
        finished = λ x e. ground (arith, step.finished x e, snoc x s2.result, snoc x s.visited);
        unfinished = λ x e f. elim (Bool-cases (t == x)) [
          | inl q ↦
              absurd (
                ground
                  (arith, new, subst (λ y. elem y s.visited ≡ true) (sym ((eq_iff t x).0 q)) e))
          | inr q ↦
              step.unfinished x (ground (arith, e, snoc x s.visited))
                (ground (arith, f, snoc x s2.result))
        ];
      }

  place-Step : (fuel : ℕ) → Placing fuel
  unfolding place
  place-Step zero t s small known placed settled = absurd (omega (arith, small))
  place-Step (suc fuel) t s small known placed settled = elim (Bool-cases (elem t s.visited)) [
    | inl e ↦ (
      s,
      rw e refl,
      record {
        placed = placed;
        kept = λ x e. e;
        grown = λ x e. e;
        finished = λ x e. ground (arith, e);
        unfinished = λ x e f. f;
      },
      settled t e (omega arith),
    )
    | inr e ↦
        let s1 : Sorted = record s { visited = s.visited ++ t ∷ [] } in
        let (s2, ran, step, come) =
          place_all-Step fuel (rank t) (place-Step fuel) (omega (arith, small))
            (sorted_ids before (dependencies_of deps t)) s1 (deps-low t known)
            (start-IsPlaced s t placed) (start-IsSettled s t settled) in
        (
          record s2 { result = s2.result ++ t ∷ [] },
          rw (e, ran) refl,
          finish s s2 t known e placed step come,
          ground (arith, elem-append t s2.result (t ∷ []), eq_iff t t),
        )
  ]

-- The fuel that the ranks of some tasks ask for.
abbrev pub fuel_for : (String → ℕ) → List String → ℕ
fuel_for rank [] = 0
fuel_for rank (t ∷ ts) = suc (rank t) + fuel_for rank ts

fuel_for-enough :
    (rank : String → ℕ) (ts : List String) (n : ℕ) → fuel_for rank ts ≤ n → All (λ t. rank t < n) ts
fuel_for-enough rank [] n e = tt
fuel_for-enough rank (t ∷ ts) n e = (omega (arith, e), fuel_for-enough rank ts n (omega (arith, e)))

-- Where no task comes to depend on itself, as ranks show, and all dependencies are tasks of the graph,
-- the search for a topological order ends, with a recursion no deeper than the ranks add up to: it
-- lists every task of the graph, once, and nothing else, each behind all its dependencies.
pub topological_order_lem :
    {P : Type 0} (before : String → String → Bool) (g : DependencyGraph P) (rank : String → ℕ)
    → IsRanked g.deps rank
    → IsInside g.deps (task_ids (all_tasks g.pipeline))
    → (order : List String) × (topological_order before
          (fuel_for rank (task_ids (all_tasks g.pipeline)))
          g
        ≡ some order)
      × DepsFirst g.deps [] order
      × IsDistinct order
      × ((t : String) → elem t order ≡ elem t (task_ids (all_tasks g.pipeline)))
unfolding topological_order
topological_order_lem before g rank ranked inside =
    let ts = task_ids (all_tasks g.pipeline) in
    let fuel = fuel_for rank ts in
    let (s, ran, step, come) =
      place_all-Step before g.deps ts rank ranked inside fuel fuel
        (place-Step before g.deps ts rank ranked inside fuel) (omega arith) ts
        (record { visited = []; result = [] })
        (All-and _ _ ts (fuel_for-enough rank ts fuel (omega arith)) (All-of_elem _ ts (λ t e. e)))
        (record { within = λ x e. absurd cc; ordered = tt; apart = tt }) (λ x e small. absurd cc) in
    (
      s.result,
      rw ran refl,
      step.placed.ordered,
      step.placed.apart,
      λ t. elim (Bool-cases (elem t ts)) [
        | inl e ↦ elem-of_All _ ts t come e ∙ sym e
        | inr e ↦ elim (Bool-cases (elem t s.result)) [
          | inl f ↦ absurd (ground (arith, e, step.placed.within t f))
          | inr f ↦ f ∙ sym e
        ]
      ],
    )
