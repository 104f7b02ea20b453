-- ===== src/Orchestration/Dependencies/Ranks.antt =====
-- Where the search finds no cycle, the places of the tasks in its order are ranks.
use mathlib.Core.List.{append_assoc}
use ai_enterprise_os.Prelude.{
  ℕ, suc, ◌<◌, String, ◌≡◌, refl, sym, ap, subst, true, false, some, List, [], ◌∷◌, ◌++◌, ◌==◌,
  eq_iff, arith, if◌then◌else◌, Bool-cases, inl, inr, elem, elem-append, length, length-keep, All,
  All-mono,
}
use ai_enterprise_os.Orchestration.Models.{TaskDependency, all_tasks}
use ai_enterprise_os.Orchestration.Dependencies.{
  Deps, DependencyGraph, dependencies_of, task_ids, Walk, cycle_of, find_cycle,
}
use ai_enterprise_os.Orchestration.Dependencies.Sets.{All-of_elem, elem-of_All}
use ai_enterprise_os.Orchestration.Dependencies.Order.{DepsFirst, IsInside}
use ai_enterprise_os.Orchestration.Dependencies.Layers.{IsRanked}
use ai_enterprise_os.Orchestration.Dependencies.Chains.{IsCycle}
use ai_enterprise_os.Orchestration.Dependencies.Cycles.{Seen, visit-Seen, visit_all-Seen}
use ai_enterprise_os.Orchestration.Dependencies.Validation.{IsValid}

-- The place of a task in an order.
abbrev pub position : String → List String → ℕ
position t [] = 0
position t (x ∷ xs) = let rest = position t xs in if x == t then 0 else suc rest

position-seen :
    (t : String) (seen rest : List String)
    → elem t seen ≡ true
    → position t (seen ++ rest) < length seen
position-seen t [] rest e = absurd cc
position-seen t (x ∷ seen) rest e = ground (arith, e, position-seen t seen rest)

position-here :
    (t : String) (seen rest : List String)
    → elem t seen ≡ false
    → position t (seen ++ t ∷ rest) ≡ length seen
position-here t [] rest e = ground (arith, eq_iff t t)
position-here t (x ∷ seen) rest e = ground (arith, e, position-here t seen rest)

position-ranked :
    (deps : Deps) (seen ts : List String) (t : String)
    → DepsFirst deps seen ts
    → elem t ts ≡ true
    → elem t seen ≡ false
    → All
        (λ (d : TaskDependency). position d.task_id (seen ++ ts) < position t (seen ++ ts))
        (dependencies_of deps t)
position-ranked deps seen [] t h e new = absurd cc
position-ranked deps seen (x ∷ ts) t h e new = elim (Bool-cases (x == t)) [
  | inl q ↦
      subst
        (λ y.
          All
            (λ (d : TaskDependency).
              position d.task_id (seen ++ x ∷ ts) < position y (seen ++ x ∷ ts))
            (dependencies_of deps y))
        ((eq_iff x t).0 q)
        (All-lower (dependencies_of deps x) h.0
          (position-here x seen ts (subst (λ y. elem y seen ≡ false) (sym ((eq_iff x t).0 q)) new)))
  | inr q ↦
      subst
        (λ xs.
          All (λ (d : TaskDependency). position d.task_id xs < position t xs)
            (dependencies_of deps t))
        (append_assoc seen (x ∷ []) ts)
        (position-ranked deps (seen ++ x ∷ []) ts t h.1 (ground (arith, e))
          (ground (arith, new, elem-append t seen (x ∷ []))))
]
  where
    All-lower :
        (ds : List TaskDependency)
        → All (λ (d : TaskDependency). elem d.task_id seen ≡ true) ds
        → position x (seen ++ x ∷ ts) ≡ length seen
        → All
            (λ (d : TaskDependency).
              position d.task_id (seen ++ x ∷ ts) < position x (seen ++ x ∷ ts))
            ds
    All-lower [] k here = tt
    All-lower (d ∷ ds) k here =
        (omega (arith, here, position-seen d.task_id seen (x ∷ ts) k.0), All-lower ds k.1 here)

-- What the search found: a cycle, or ranks.
abbrev pub Searched : Deps → List String → Type 0
Searched deps [] = (rank : String → ℕ) × IsRanked deps rank
Searched deps (x ∷ xs) = IsCycle deps (x ∷ xs)

pub valid-IsInside : (deps : Deps) (ts : List String) → IsValid deps ts → IsInside deps ts
valid-IsInside deps ts valid t e =
    All-mono _ _ (λ d h. h.0) (dependencies_of deps t) (valid.known t)

walk-Searched :
    (deps : Deps) (ts : List String) (valid : IsValid deps ts) (out : List String × Walk)
    → Seen deps ts (valid-IsInside deps ts valid) ts (record { visited = []; path = [] }) out
    → Searched deps out.0
walk-Searched deps ts valid (x ∷ xs, w) cycle = cycle
walk-Searched deps ts valid ([], w) (walk, same, grown, left) = (
  λ t. position t walk.order,
  λ t. elim (Bool-cases (elem t ts)) [
    | inl e ↦
        let (seen, off) = elem-of_All _ ts t left e in
        position-ranked deps [] walk.order t walk.ordered
          (ground (arith, walk.left t, seen, ap (elem t) same)) refl
    | inr e ↦ rw (valid.keyed t e) tt
  ],
)

module _ {P : Type 0} where
  pub find_cycle-Searched :
      (g : DependencyGraph P)
      → IsValid g.deps (task_ids (all_tasks g.pipeline))
      → (c : List String) × (find_cycle (suc (length (task_ids (all_tasks g.pipeline)))) g ≡ some c)
        × Searched g.deps c
  unfolding find_cycle
  find_cycle-Searched g valid =
      let ts = task_ids (all_tasks g.pipeline) in
      let inside = valid-IsInside g.deps ts valid in
      let (out, ran, seen) =
        visit_all-Seen g.deps ts inside (suc (length ts))
          (visit-Seen g.deps ts inside (suc (length ts))) ts (record { visited = []; path = [] })
          (omega (arith, length-keep (λ x. true) ts)) (All-of_elem _ ts (λ t e. (e, tt)))
          (record { order = []; ordered = tt; left = λ x. refl; on_path = λ x e. absurd cc }) in
      (out.0, ap cycle_of ran, walk-Searched g.deps ts valid out seen)
