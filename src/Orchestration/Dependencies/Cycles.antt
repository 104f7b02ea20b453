-- ===== src/Orchestration/Dependencies/Cycles.antt =====
-- The search for a cycle: it ends, what it finds is a cycle, and where it finds none, the tasks have
-- an order with each behind its dependencies.
use ai_enterprise_os.Prelude.{
  ℕ, zero, suc, ◌≤◌, ◌<◌, String, ◌≡◌, refl, sym, ap, subst, ◌∙◌, true, false, not, ◌&&◌, some,
  List, [], ◌∷◌, ◌++◌, ◌==◌, eq_iff, arith, Bool-cases, inl, inr, elem, elem-append, keep, length,
  All,
}
use ai_enterprise_os.Orchestration.Dependencies.{
  Deps, dependencies_of, ids, Walk, cycle_from, drop_last, leave, or_next, visit_all, visit,
}
use ai_enterprise_os.Orchestration.Dependencies.Sets.{All-of_elem, elem-of_All}
use ai_enterprise_os.Orchestration.Dependencies.Order.{DepsFirst, DepsFirst-snoc, IsInside, ids-All}
use ai_enterprise_os.Orchestration.Dependencies.Chains.{
  IsChain, IsCycle, IsChain-snoc, cycle_from-IsCycle, drop_last-snoc, length-keep-le,
  length-keep-less,
}

module _ (deps : Deps) (tasks : List String) (inside : IsInside deps tasks) where
  -- The tasks that were visited and left have an order; those on the path were visited.
  pub record IsWalk (w : Walk) : Type 0 where
    pub order : List String
    pub ordered : DepsFirst deps [] order
    pub left : (x : String) → elem x order ≡ (elem x w.visited && not (elem x w.path))
    pub on_path : (x : String) → elem x w.path ≡ true → elem x w.visited ≡ true

  -- What visiting some tasks leaves: a cycle, or a walk on the same path, with them all left.
  abbrev pub Seen : List String → Walk → List String × Walk → Type 0
  Seen ts w (x ∷ xs, w') = IsCycle deps (x ∷ xs)
  Seen ts w ([], w') =
      IsWalk w'
      × (w'.path ≡ w.path)
      × ((x : String) → elem x w.visited ≡ true → elem x w'.visited ≡ true)
      × All (λ t. (elem t w'.visited ≡ true) × (elem t w.path ≡ false)) ts

  abbrev pub unvisited : Walk → ℕ
  unvisited w = length (keep (λ x. not (elem x w.visited)) tasks)

  abbrev pub Visiting : ℕ → Type 0
  Visiting fuel =
      (t : String) (w : Walk)
      → unvisited w < fuel
      → elem t tasks ≡ true
      → IsWalk w
      → IsChain deps (w.path ++ t ∷ [])
      → (out : List String × Walk) × (visit deps fuel t w ≡ some out) × Seen (t ∷ []) w out

  -- The tasks behind the first, from the walk that its visit left.
  abbrev pub Rest : ℕ → List String → Type 0
  Rest fuel ts =
      (w : Walk)
      → unvisited w < fuel
      → All (λ t. (elem t tasks ≡ true) × IsChain deps (w.path ++ t ∷ [])) ts
      → IsWalk w
      → (out : List String × Walk) × (visit_all deps (visit deps fuel) ts w ≡ some out)
        × Seen ts w out

  unvisited-le :
      (w w' : Walk)
      → ((x : String) → elem x w.visited ≡ true → elem x w'.visited ≡ true)
      → unvisited w' ≤ unvisited w
  unvisited-le w w' grown =
      length-keep-le (λ x. not (elem x w'.visited)) (λ x. not (elem x w.visited)) tasks
        (λ x e. ground (arith, e, grown x))

  -- The first task was left before the others were visited, so it is left after them.
  Seen-cons :
      (t : String) (ts : List String) (w w' : Walk)
      → w'.path ≡ w.path
      → ((x : String) → elem x w.visited ≡ true → elem x w'.visited ≡ true)
      → (elem t w'.visited ≡ true) × (elem t w.path ≡ false)
      → (out : List String × Walk) → Seen ts w' out
      → Seen (t ∷ ts) w out
  Seen-cons t ts w w' same grown left (x ∷ xs, w2) cycle = cycle
  Seen-cons t ts w w' same grown left ([], w2) (walk, same', grown', rest) = (
    walk,
    same' ∙ same,
    λ x e. grown' x (grown x e),
    (
      (grown' t left.0, left.1),
      subst (λ p. All (λ u. (elem u w2.visited ≡ true) × (elem u p ≡ false)) ts) same rest,
    ),
  )

  Seen-next :
      (fuel : ℕ) (t : String) (ts : List String) (w : Walk)
      → unvisited w < fuel
      → All (λ t. (elem t tasks ≡ true) × IsChain deps (w.path ++ t ∷ [])) ts
      → Rest fuel ts
      → (out : List String × Walk) → Seen (t ∷ []) w out
      → (out' : List String × Walk) × (or_next (some out) (visit_all deps (visit deps fuel) ts)
          ≡ some out')
        × Seen (t ∷ ts) w out'
  unfolding or_next
  Seen-next fuel t ts w enough h rest (x ∷ xs, w') seen = ((x ∷ xs, w'), refl, seen)
  Seen-next fuel t ts w enough h rest ([], w') (walk, same, grown, left) =
      let (out, ran, seen) =
        rest w' (omega (arith, unvisited-le w w' grown, enough))
          (subst (λ p. All (λ u. (elem u tasks ≡ true) × IsChain deps (p ++ u ∷ [])) ts) (sym same)
            h)
          walk in
      (out, ran, Seen-cons t ts w w' same grown left.0 out seen)

  pub visit_all-Seen : (fuel : ℕ) → Visiting fuel → (ts : List String) → Rest fuel ts
  unfolding visit_all
  visit_all-Seen fuel visiting [] w enough h walk = (([], w), refl, (walk, refl, λ x e. e, tt))
  visit_all-Seen fuel visiting (t ∷ ts) w enough h walk =
      let (out, ran, seen) = visiting t w enough h.0.0 walk h.0.1 in
      let (out', ran', seen') =
        Seen-next fuel t ts w enough h.1 (visit_all-Seen fuel visiting ts) out seen in
      (out', rw ran ran', seen')

  -- The walk on which a task's dependencies are visited.
  abbrev entered : String → Walk → Walk
  entered t w = record { visited = w.visited ++ t ∷ []; path = w.path ++ t ∷ [] }

  entered-IsWalk :
      (t : String) (w : Walk) → elem t w.visited ≡ false → IsWalk w → IsWalk (entered t w)
  entered-IsWalk t w new walk = record {
    order = walk.order;
    ordered = walk.ordered;
    left = λ x. ground (
      arith,
      walk.left x,
      elem-append x w.visited (t ∷ []),
      elem-append x w.path (t ∷ []),
      eq_iff t x,
      not_visited x,
    );
    on_path = λ x e.
        ground (
          arith,
          e,
          walk.on_path x,
          elem-append x w.visited (t ∷ []),
          elem-append x w.path (t ∷ []),
        );
  }
    where
      not_visited : (x : String) → t ≡ x → elem x w.visited ≡ false
      not_visited x e = subst (λ y. elem y w.visited ≡ false) e new

  -- A task whose dependencies were all left is left behind them.
  left-Seen :
      (t : String) (w : Walk)
      → elem t w.visited ≡ false
      → elem t w.path ≡ false
      → IsWalk w
      → (out : List String × Walk) → Seen (ids (dependencies_of deps t)) (entered t w) out
      → (out' : List String × Walk) × (leave (some out) ≡ some out') × Seen (t ∷ []) w out'
  unfolding leave
  left-Seen t w new off walk (x ∷ xs, w') seen = ((x ∷ xs, w'), refl, seen)
  left-Seen t w new off walk ([], w') (walk', same, grown, come) =
      let path : drop_last w'.path ≡ w.path = ap drop_last same ∙ drop_last-snoc w.path t in
      let needed = ids (dependencies_of deps t) in
      let snoc = λ (x : String) (xs : List String). elem-append x xs (t ∷ []) in
      let here : elem t w'.visited ≡ true =
        grown t (ground (arith, snoc t w.visited, eq_iff t t)) in
      (
        ([], record w' { path = drop_last w'.path }),
        refl,
        (
          record {
            order = walk'.order ++ t ∷ [];
            ordered = DepsFirst-snoc deps [] walk'.order t walk'.ordered (
                (ids-All (λ u. elem u walk'.order ≡ true) (dependencies_of deps t)).1 (
                  All-of_elem _ needed (λ u m.
                    let (seen, away) = elem-of_All _ needed u come m in
                    ground (arith, walk'.left u, seen, away, ap (elem u) same))));
            left = λ x. elim (Bool-cases (t == x)) [
              | inl q ↦
                  subst
                    (λ y.
                      elem y (walk'.order ++ t ∷ [])
                      ≡ (elem y w'.visited && not (elem y (drop_last w'.path))))
                    ((eq_iff t x).0 q)
                    (ground (arith, snoc t walk'.order, eq_iff t t, here, off, ap (elem t) path))
              | inr q ↦ ground (
                arith,
                q,
                snoc x walk'.order,
                walk'.left x,
                ap (elem x) same,
                ap (elem x) path,
                snoc x w.path,
              )
            ];
            on_path = λ x e.
                ground
                  (arith, e, ap (elem x) path, walk'.on_path x, ap (elem x) same, snoc x w.path);
          },
          path,
          λ x e. grown x (ground (arith, e, elem-append x w.visited (t ∷ []))),
          ((here, off), tt),
        ),
      )

  cycle-Seen : (ts : List String) (w : Walk) (c : List String) → IsCycle deps c → Seen ts w (c, w)
  cycle-Seen ts w [] (t, between, same, chain) = absurd cc
  cycle-Seen ts w (x ∷ xs) cycle = cycle

  entered-unvisited :
      (t : String) (w : Walk)
      → elem t tasks ≡ true
      → elem t w.visited ≡ false
      → unvisited (entered t w) < unvisited w
  entered-unvisited t w known new =
      length-keep-less (λ x. not (elem x (w.visited ++ t ∷ []))) (λ x. not (elem x w.visited)) t
        tasks (λ x e. ground (arith, e, elem-append x w.visited (t ∷ []))) known
        (ground (arith, elem-append t w.visited (t ∷ []), eq_iff t t)) (rw new refl)

  pub visit-Seen : (fuel : ℕ) → Visiting fuel
  unfolding visit
  visit-Seen zero t w enough known walk chain = absurd (omega (arith, enough))
  visit-Seen (suc fuel) t w enough known walk chain = elim (Bool-cases (elem t w.path)) [
    | inl e ↦ (
      (cycle_from t w.path, w),
      rw e refl,
      cycle-Seen (t ∷ []) w (cycle_from t w.path) (cycle_from-IsCycle deps t w.path e chain),
    )
    | inr e ↦ elim (Bool-cases (elem t w.visited)) [
      | inl f ↦ (([], w), rw (e, f) refl, (walk, refl, λ x g. g, ((f, e), tt)))
      | inr f ↦
          let needed = ids (dependencies_of deps t) in
          let (out, ran, seen) =
            visit_all-Seen fuel (visit-Seen fuel) needed (entered t w)
              (omega (arith, enough, entered-unvisited t w known f))
              (All-of_elem _ needed (λ u m. (
                elem-of_All _ needed u ((ids-All _ (dependencies_of deps t)).0 (inside t known)) m,
                IsChain-snoc deps w.path t u chain m,
              )))
              (entered-IsWalk t w f walk) in
          let (out', left, seen') = left-Seen t w f e walk out seen in
          (out', rw (e, f, ran) left, seen')
    ]
  ]
