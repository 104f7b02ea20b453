-- ===== src/Orchestration/Dependencies/Layers.antt =====
-- The layers of a dependency graph: the loop ends, with what, and when it raises.
use mathlib.Core.List.{append_assoc, append-nil}
use ai_enterprise_os.Prelude.{
  ℕ, zero, suc, ◌≤◌, ◌<◌, String, ◌≡◌, refl, sym, subst, ap, ◌∙◌, Bool, if◌then◌else◌, true, false,
  not, ◌&&◌, ◌||◌, some, List, [], ◌∷◌, ◌++◌, eq_iff, arith, elem, keep, All, length, elem-append,
  IsDistinct, ok, err,
}
use ai_enterprise_os.Orchestration.Models.{TaskDependency, all_tasks}
use ai_enterprise_os.Orchestration.Dependencies.{
  unlayered, Deps, DependencyGraph, dependencies_of, dep_satisfied, satisfied, distinct, Layers,
  add_layer, next_layer, layers_from, left_with, parallel_groups, task_ids,
}
use ai_enterprise_os.Orchestration.Dependencies.Sets.{
  elem-keep, IsDistinct-keep, IsDistinct-append, distinct-IsDistinct, length-keep-lt, All-keep,
  keep-nil, All-of_elem, elem-of_All, lowest, all-false, All-and,
}

abbrev pub is_empty : List String → Bool
is_empty [] = true
is_empty (x ∷ xs) = false

abbrev pub concat : List (List String) → List String
concat [] = []
concat (layer ∷ layers) = layer ++ concat layers

-- Each task is satisfied by what was completed before its layer.
abbrev pub IsOrdered : Deps → List String → List (List String) → Type 0
IsOrdered deps completed [] = Unit
IsOrdered deps completed (layer ∷ layers) =
    All (λ t. satisfied deps completed t ≡ true) layer × IsOrdered deps (completed ++ layer) layers

-- Some of the remaining tasks wait for one another or for what is not there: none is satisfied by
-- what is completed and the other remaining tasks.
abbrev pub IsStuck : Deps → List String → List String → Type 0
IsStuck deps completed remaining =
    (first : String) × (stuck : List String) × (done : List String) × All
      (λ t. (elem t remaining ≡ true) × (satisfied deps done t ≡ false)) (first ∷ stuck)
    × ((t : String)
        → elem t done ≡ (elem t completed || (elem t remaining && not (elem t (first ∷ stuck)))))

abbrev pub Outcome : Deps → List String → List String → Layers → Type 0
Outcome deps completed remaining (err e) = (e ≡ unlayered) × IsStuck deps completed remaining
Outcome deps completed remaining (ok (layers, completed')) =
    IsOrdered deps completed layers
    × IsDistinct (concat layers)
    × ((t : String) → elem t (concat layers) ≡ elem t remaining)
    × (completed' ≡ completed ++ concat layers)

-- The same of the layers with the caller's set: it grows by their tasks, unless it is empty.
abbrev pub Grouped : Deps → List String → List String → Layers → Type 0
Grouped deps completed remaining (err e) = (e ≡ unlayered) × IsStuck deps completed remaining
Grouped deps completed remaining (ok (layers, callers)) =
    IsOrdered deps completed layers
    × IsDistinct (concat layers)
    × ((t : String) → elem t (concat layers) ≡ elem t remaining)
    × (callers ≡ (if is_empty completed then [] else completed ++ concat layers))

left_with-Grouped :
    (deps : Deps) (completed remaining : List String) (all : Layers)
    → Outcome deps completed remaining all
    → (left : Layers) × (left_with completed (some all) ≡ some left)
      × Grouped deps completed remaining left
left_with-Grouped deps completed remaining (err e) h = (err e, refl, h)
left_with-Grouped deps [] remaining (ok (layers, grown)) (o, d, t, same) =
    (ok (layers, []), refl, (o, d, t, refl))
left_with-Grouped deps (c ∷ completed) remaining (ok (layers, grown)) (o, d, t, same) =
    (ok (layers, grown), refl, (o, d, t, same))

module _ (deps : Deps) (completed remaining : List String) where
  -- The tasks that are ready, and those that then remain.
  abbrev ready : List String
  ready = keep (satisfied deps completed) remaining

  abbrev left : List String
  left = keep (λ x. not (elem x ready)) remaining

  -- What the rest of the loop made of the tasks left, with this layer.
  Outcome-step :
      IsDistinct remaining
      → (out : Layers) → Outcome deps (completed ++ ready) left out
      → (all : Layers) × (add_layer ready (some out) ≡ some all)
        × Outcome deps completed remaining all
  Outcome-step d (err e) (same, (first, stuck, done, waiting, exactly)) =
      let waits_inside : (t : String) → elem t (first ∷ stuck) ≡ true → elem t left ≡ true =
        λ t m. (elem-of_All _ (first ∷ stuck) t waiting m).0 in
      (
        err e,
        refl,
        (
          same,
          (
            first,
            stuck,
            done,
            All-of_elem _ (first ∷ stuck) (λ t m.
                let (inside, waits) = elem-of_All _ (first ∷ stuck) t waiting m in
                (ground (arith, elem-keep (λ x. not (elem x ready)) t remaining), waits)),
            λ t. ground (
              arith,
              exactly t,
              elem-append t completed ready,
              elem-keep (satisfied deps completed) t remaining,
              elem-keep (λ x. not (elem x ready)) t remaining,
              waits_inside t,
            ),
          ),
        ),
      )
  Outcome-step d (ok (layers, completed')) (ordered, apart, same, grown) = (
    ok (ready ∷ layers, completed'),
    refl,
    (
      (All-keep (satisfied deps completed) remaining, ordered),
      IsDistinct-append ready (concat layers) (IsDistinct-keep _ remaining d) apart
          (λ t e. ground (arith, same t, elem-keep (λ x. not (elem x ready)) t remaining)),
      λ t. ground (
        arith,
        same t,
        elem-append t ready (concat layers),
        elem-keep (satisfied deps completed) t remaining,
        elem-keep (λ x. not (elem x ready)) t remaining,
      ),
      grown ∙ append_assoc completed ready (concat layers),
    ),
  )

module _ (deps : Deps) where
  -- The loop ends with this fuel, where no more tasks than that remain.
  abbrev IsLayered : ℕ → Type 0
  IsLayered fuel =
      (completed remaining : List String)
      → length remaining ≤ fuel
      → IsDistinct remaining
      → (all : Layers) × (layers_from fuel deps completed remaining ≡ some all)
        × Outcome deps completed remaining all

  pass-Outcome :
      (fuel : ℕ) (completed : List String) (r : String) (rs now : List String)
      → IsLayered fuel
      → length (r ∷ rs) ≤ suc fuel
      → IsDistinct (r ∷ rs)
      → keep (satisfied deps completed) (r ∷ rs) ≡ now
      → (all : Layers) × (next_layer (layers_from fuel deps) completed (r ∷ rs) now ≡ some all)
        × Outcome deps completed (r ∷ rs) all
  unfolding next_layer
  pass-Outcome fuel completed r rs [] rec enough d e = (
    err unlayered,
    refl,
    (
      refl,
      (
        r,
        rs,
        completed,
        All-of_elem _ (r ∷ rs) (λ t m.
            (m, elem-of_All _ (r ∷ rs) t (keep-nil (satisfied deps completed) (r ∷ rs) e) m)),
        λ t. ground arith,
      ),
    ),
  )
  pass-Outcome fuel completed r rs (t ∷ ts) rec enough d e =
      let now = ready deps completed (r ∷ rs) in
      let rest = left deps completed (r ∷ rs) in
      let here : elem t now ≡ true =
        subst (λ xs. elem t xs ≡ true) (sym e) (ground (arith, eq_iff t t)) in
      let shorter =
        length-keep-lt (λ x. not (elem x now)) t (r ∷ rs)
          (ground (arith, here, elem-keep (satisfied deps completed) t (r ∷ rs))) (rw here refl) in
      let (out, ran, o) =
        rec (completed ++ now) rest (omega (arith, shorter, enough))
          (IsDistinct-keep (λ x. not (elem x now)) (r ∷ rs) d) in
      let (every, added, outcome) = Outcome-step deps completed (r ∷ rs) d out o in
      (
        every,
        subst
            (λ xs.
              add_layer xs
                (layers_from fuel deps (completed ++ xs) (keep (λ x. not (elem x xs)) (r ∷ rs)))
              ≡ some every)
            e (rw ran added),
        outcome,
      )

  -- Enough fuel is one pass for each task that remains.
  layers_from-Outcome : (fuel : ℕ) → IsLayered fuel
  unfolding layers_from
  layers_from-Outcome fuel completed [] enough d =
      (ok ([], completed), refl, (tt, tt, λ t. refl, sym (append-nil completed)))
  layers_from-Outcome zero completed (r ∷ rs) enough d = absurd (omega (arith, enough))
  layers_from-Outcome (suc fuel) completed (r ∷ rs) enough d =
      pass-Outcome fuel completed r rs (keep (satisfied deps completed) (r ∷ rs))
        (layers_from-Outcome fuel) enough d refl

-- Ranks show that no task comes, over dependencies, to depend on itself.
abbrev pub IsRanked : Deps → (String → ℕ) → Type 0
IsRanked deps rank =
    (t : String) → All (λ (d : TaskDependency). rank d.task_id < rank t) (dependencies_of deps t)

-- What a task of the remaining ones depends on is completed or remains too.
abbrev pub IsClosed : Deps → List String → List String → Type 0
IsClosed deps completed remaining =
    (t : String)
    → elem t remaining ≡ true
    → All (λ (d : TaskDependency). (elem d.task_id completed || elem d.task_id remaining) ≡ true)
        (dependencies_of deps t)

ranked-unstuck :
    (deps : Deps) (rank : String → ℕ) (completed remaining : List String)
    → IsRanked deps rank
    → IsClosed deps completed remaining
    → ¬ IsStuck deps completed remaining
ranked-unstuck deps rank completed remaining ranked closed (first, stuck, done, waiting, exactly) =
    let (m, inside, least) = lowest rank first stuck in
    let (remains, waits) = elem-of_All _ (first ∷ stuck) m waiting inside in
    let (d, not_yet, (lower, known)) =
      all-false (dep_satisfied done) _ (dependencies_of deps m) waits
        (All-and _ _ (dependencies_of deps m) (ranked m) (closed m remains)) in
    ground (arith, exactly d.task_id, least d.task_id, lower, known, not_yet)

module _ {P : Type 0} (g : DependencyGraph P) (completed : List String) where
  abbrev pub open_tasks : List String
  open_tasks = distinct (keep (λ t. not (elem t completed)) (task_ids (all_tasks g.pipeline)))

  -- The layers of a graph are found within as many passes as it has tasks that are not completed: all
  -- those, each in one layer, with its dependencies completed or in an earlier layer, but for optional
  -- ones; and they are added to the caller's set of completed tasks, unless that is empty, when it stays
  -- so. Or it raises, and then there are some of the tasks of which each depends on one of them, or on
  -- what is neither completed nor a task.
  pub parallel_groups_lem :
      (all : Layers) × (parallel_groups (length open_tasks) g completed ≡ some all)
      × Grouped g.deps completed open_tasks all
  unfolding parallel_groups
  parallel_groups_lem =
      let (all, ran, outcome) =
        layers_from-Outcome g.deps (length open_tasks) completed open_tasks (omega arith) (
          distinct-IsDistinct
            (keep (λ t. not (elem t completed)) (task_ids (all_tasks g.pipeline)))) in
      let (left, same, grouped) = left_with-Grouped g.deps completed open_tasks all outcome in
      (left, ap (left_with completed) ran ∙ same, grouped)

  -- Where no task comes to depend on itself, as ranks show, and all depend on what is completed or a
  -- task of the graph, finding the layers does not raise.
  pub parallel_groups-ok :
      (rank : String → ℕ)
      → IsRanked g.deps rank
      → IsClosed g.deps completed open_tasks
      → (layers : List (List String)) × (completed' : List String) × (parallel_groups
            (length open_tasks)
            g
            completed
          ≡ some (ok (layers, completed')))
        × Grouped g.deps completed open_tasks (ok (layers, completed'))
  parallel_groups-ok rank ranked closed =
      let (out, ran, outcome) = parallel_groups_lem in found out ran outcome
    where
      found :
          (out : Layers)
          → parallel_groups (length open_tasks) g completed ≡ some out
          → Grouped g.deps completed open_tasks out
          → (layers : List (List String)) × (completed' : List String) × (parallel_groups
                (length open_tasks)
                g
                completed
              ≡ some (ok (layers, completed')))
            × Grouped g.deps completed open_tasks (ok (layers, completed'))
      found (ok (layers, completed')) ran outcome = (layers, completed', ran, outcome)
      found (err e) ran (same, stuck) =
          absurd (ranked-unstuck g.deps rank completed open_tasks ranked closed stuck)
