-- ===== src/Orchestration/Dependencies/Tests.antt =====
-- Dependency graphs at concrete inputs.
use ai_enterprise_os.Prelude.{
  ℕ, String, ◌≡◌, refl, true, none, some, List, [], ◌∷◌, ok, Result, elem, IsDistinct,
}
use ai_enterprise_os.Dict.{insert, get_or, has}
use ai_enterprise_os.Orchestration.Models.{PipelineTask, Pipeline, StageMode}
use ai_enterprise_os.Orchestration.Dependencies.{
  GraphError, Config, DependencyGraph, Layers, dependency_graph, topological_order, parallel_groups,
  validate_dep, validate_deps, validate_tasks, check_cycles, find_cycle, refuse_cycle, visit,
  visit_all, leave, or_next, dependencies_of,
}
use ai_enterprise_os.Orchestration.Dependencies.Layers.{Grouped, parallel_groups_lem}
use ai_enterprise_os.Orchestration.Dependencies.Order.{DepsFirst}
use ai_enterprise_os.Orchestration.Dependencies.Built.{
  Built, dependency_graph_lem, built_graph_runs,
}

abbrev task : String → List String → PipelineTask ℕ
task id dependencies = record {
  id = id;
  task_type = "run";
  engine = "shell";
  params = 0;
  dependencies = dependencies;
  retry = none;
  on_failure = "fail";
}

-- Deploying waits for the tests, and those for the build.
abbrev release : Pipeline ℕ
release = record {
  id = "release";
  stages =
      record {
        id = "all";
        mode = StageMode.sequential;
        tasks = task "deploy" ("test" ∷ []) ∷ task "test" ("build" ∷ []) ∷ task "build" [] ∷ [];
      }
      ∷ [];
}

abbrev strict : Config
strict = record {
  detect_cycles = true;
  missing_dependency_policy = "raise";
  self_dependency_policy = "raise";
}

abbrev release_graph : DependencyGraph ℕ
release_graph = record {
  pipeline = release;
  deps =
      ("deploy", record { task_id = "test"; type = "required" } ∷ [])
      ∷ ("test", record { task_id = "build"; type = "required" } ∷ [])
      ∷ [];
}

release_built : dependency_graph 4 strict release ≡ some (ok release_graph)
unfolding dependency_graph check_cycles validate_tasks validate_deps validate_dep refuse_cycle
    find_cycle visit_all visit leave or_next dependencies_of insert get_or has
release_built = refl

dependency_graph_lem_example :
    (out : Result GraphError (DependencyGraph ℕ)) × (dependency_graph 4 strict release ≡ some out)
    × Built strict release out
dependency_graph_lem_example = dependency_graph_lem strict release

built_graph_runs_example :
    (fuel : ℕ) × (order : List String) × (topological_order (λ a b. true) fuel release_graph
      ≡ some order)
    × DepsFirst release_graph.deps [] order
    × IsDistinct order
    × ((t : String) → elem t order ≡ elem t ("deploy" ∷ "test" ∷ "build" ∷ []))
built_graph_runs_example =
    (built_graph_runs strict release (λ a b. true) release_graph [] release_built refl).0

parallel_groups_lem_example :
    (all : Layers) × (parallel_groups 2 release_graph ("build" ∷ []) ≡ some all)
    × Grouped release_graph.deps ("build" ∷ []) ("deploy" ∷ "test" ∷ []) all
parallel_groups_lem_example = parallel_groups_lem release_graph ("build" ∷ [])
