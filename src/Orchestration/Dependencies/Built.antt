-- ===== src/Orchestration/Dependencies/Built.antt =====
-- What the constructor of a dependency graph lets through, and what its queries then return.
use ai_enterprise_os.Prelude.{
  ℕ, suc, String, ◌≡◌, refl, sym, ap, subst, ◌∙◌, Bool, true, false, not, ◌&&◌, some, List, [], ◌∷◌,
  arith, Bool-cases, inl, inr, elem, keep, length, All-mono, Result, ok, err, IsDistinct,
}
use ai_enterprise_os.Orchestration.Models.{Pipeline, all_tasks, task_map}
use ai_enterprise_os.Orchestration.Dependencies.{
  GraphError, self_dependency, unknown_dependency, cyclic, unlayered, Config, Deps, DependencyGraph,
  dependencies_of, task_ids, validate_tasks, refuse_cycle, check_cycles, dependency_graph,
  topological_order, parallel_groups,
}
use ai_enterprise_os.Orchestration.Dependencies.Sets.{elem-keep, distinct-elem}
use ai_enterprise_os.Orchestration.Dependencies.Order.{DepsFirst, fuel_for, topological_order_lem}
use ai_enterprise_os.Orchestration.Dependencies.Layers.{
  IsRanked, Grouped, open_tasks, parallel_groups-ok,
}
use ai_enterprise_os.Orchestration.Dependencies.Chains.{IsCycle}
use ai_enterprise_os.Orchestration.Dependencies.Ranks.{
  Searched, valid-IsInside, find_cycle-Searched,
}
use ai_enterprise_os.Orchestration.Dependencies.Validation.{IsValid, Checked, Lists, validated}

module _ {P : Type 0} (config : Config) (p : Pipeline P) where
  -- What the constructor returns, or raises.
  abbrev pub Built : Result GraphError (DependencyGraph P) → Type 0
  Built (ok g) =
      (g.pipeline ≡ p)
      × IsValid g.deps (task_ids (all_tasks p))
      × (config.detect_cycles ≡ true → (rank : String → ℕ) × IsRanked g.deps rank)
  Built (err (self_dependency id)) = Lists config p id id
  Built (err (unknown_dependency id dep)) =
      Lists config p id dep × (elem dep (task_ids (all_tasks p)) ≡ false)
  Built (err (cyclic c)) =
      (deps : Deps) × (validate_tasks config (task_map p) (all_tasks p) [] ≡ ok deps)
      × IsCycle deps c
  Built (err unlayered) = ⊥

  -- Building the graph of a pipeline ends, within a recursion one deeper than it has tasks. If it
  -- returns, each recorded dependency is of a task on another task, and where cycles are looked for
  -- there are ranks by which every task is above its dependencies. If it raises, a task lists itself,
  -- or what is not a task, or the error's cycle is one: a chain of tasks, each depending on the next,
  -- that ends where it began.
  pub dependency_graph_lem :
      (out : Result GraphError (DependencyGraph P)) × (dependency_graph
          (suc (length (task_ids (all_tasks p))))
          config
          p
        ≡ some out)
      × Built out
  unfolding dependency_graph
  dependency_graph_lem =
      checked (validate_tasks config (task_map p) (all_tasks p) []) refl (validated config p)
    where
      refused :
          (deps : Deps) (c : List String)
          → validate_tasks config (task_map p) (all_tasks p) [] ≡ ok deps
          → IsValid deps (task_ids (all_tasks p))
          → Searched deps c
          → (out : Result GraphError (DependencyGraph P)) × (refuse_cycle
                (record { pipeline = p; deps = deps })
                (some c)
              ≡ some out)
            × Built out
      refused deps [] e valid ranks = (
        ok (record { pipeline = p; deps = deps }),
        unfold refuse_cycle in refl,
        (refl, valid, λ _. ranks),
      )
      refused deps (x ∷ xs) e valid cycle =
          (err (cyclic (x ∷ xs)), unfold refuse_cycle in refl, (deps, e, cycle))

      checked :
          (r : Result GraphError Deps)
          → validate_tasks config (task_map p) (all_tasks p) [] ≡ r
          → Checked config p r
          → (out : Result GraphError (DependencyGraph P)) × (check_cycles
                (suc (length (task_ids (all_tasks p))))
                config
                p
                r
              ≡ some out)
            × Built out
      checked (err (self_dependency id)) e h =
          (err (self_dependency id), unfold check_cycles in refl, h)
      checked (err (unknown_dependency id dep)) e h =
          (err (unknown_dependency id dep), unfold check_cycles in refl, h)
      checked (err (cyclic c)) e h = absurd h
      checked (err unlayered) e h = absurd h
      checked (ok deps) e valid = elim (Bool-cases config.detect_cycles) [
        | inl q ↦
            let (c, found, searched) =
              find_cycle-Searched (record { pipeline = p; deps = deps }) valid in
            let (out, same, built) = refused deps c e valid searched in
            (out, unfold check_cycles in rw (q, found) same, built)
        | inr q ↦ (
          ok (record { pipeline = p; deps = deps }),
          unfold check_cycles in rw q refl,
          (refl, valid, λ on. absurd (ground (arith, q, on))),
        )
      ]

  -- A graph that was built with cycles looked for has a topological order of all its tasks, once each,
  -- each behind its dependencies; and whatever is completed, finding the layers of the other tasks
  -- does not raise: each is in one layer, behind its dependencies.
  pub built_graph_runs :
      (before : String → String → Bool) (g : DependencyGraph P) (completed : List String)
      → dependency_graph (suc (length (task_ids (all_tasks p)))) config p ≡ some (ok g)
      → config.detect_cycles ≡ true
      → ((fuel : ℕ) × (order : List String) × (topological_order before fuel g ≡ some order)
          × DepsFirst g.deps [] order
          × IsDistinct order
          × ((t : String) → elem t order ≡ elem t (task_ids (all_tasks p))))
        × ((layers : List (List String)) × (completed' : List String) × (parallel_groups
                (length (open_tasks g completed))
                g
                completed
              ≡ some (ok (layers, completed')))
            × Grouped g.deps completed (open_tasks g completed) (ok (layers, completed')))
  built_graph_runs before g completed built on =
      let (out, made, facts) = dependency_graph_lem in
      let same : out ≡ ok g = cc in
      let (own, valid, ranks) = subst Built same facts in
      let (rank, ranked) = ranks on in
      let ts = task_ids (all_tasks p) in
      let valid' : IsValid g.deps (task_ids (all_tasks g.pipeline)) =
        subst (λ q. IsValid g.deps (task_ids (all_tasks q))) (sym own) valid in
      let inside = valid-IsInside g.deps (task_ids (all_tasks g.pipeline)) valid' in
      let (order, ran, first, apart, all) = topological_order_lem before g rank ranked inside in
      (
        (
          fuel_for rank (task_ids (all_tasks g.pipeline)),
          order,
          ran,
          first,
          apart,
          λ t. all t ∙ ap (λ q. elem t (task_ids (all_tasks q))) own,
        ),
        parallel_groups-ok g completed rank ranked (λ t e.
            All-mono _ _ (λ d h. ground (arith, h.0, open-elem d.task_id))
              (dependencies_of g.deps t) (valid'.known t)),
      )
    where
      open-elem :
          (t : String)
          → elem t (open_tasks g completed)
            ≡ (elem t (task_ids (all_tasks g.pipeline)) && not (elem t completed))
      open-elem t =
          distinct-elem t (keep (λ x. not (elem x completed)) (task_ids (all_tasks g.pipeline)))
          ∙ elem-keep (λ x. not (elem x completed)) t (task_ids (all_tasks g.pipeline))
