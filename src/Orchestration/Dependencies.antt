-- ===== src/Orchestration/Dependencies.antt =====
-- src/ai_company/orchestration/dependencies.py: DependencyGraph. The recursion of `visit` and the
-- loop of `parallel_groups` run on fuel; `none` is fuel used up. A set is a list of distinct ids, in
-- the order in which they were added.
pub mod Order
pub mod Sets
pub mod Layers
pub mod Chains
pub mod Cycles
pub mod Validation
pub mod Ranks
pub mod Built
mod Tests
use ai_enterprise_os.Prelude.{
  ℕ, zero, suc, String, Bool, true, false, not, ◌&&◌, ◌||◌, Option, none, some, List, [], ◌∷◌, ◌++◌,
  ◌==◌, if◌then◌else◌, elem, keep, all, any, map, Result, ok, err, ◌>>=◌, sort_by,
}
use ai_enterprise_os.Dict.{Dict, has, insert, get_or}
use ai_enterprise_os.Orchestration.Models.{
  TaskDependency, PipelineTask, Pipeline, all_tasks, task_map,
}

pub data GraphError : Type 0 where
  self_dependency : String → GraphError
  unknown_dependency : String → String → GraphError
  cyclic : List String → GraphError
  unlayered : GraphError

pub record Config : Type 0 where
  pub detect_cycles : Bool
  pub missing_dependency_policy : String
  pub self_dependency_policy : String

-- `self._deps`
abbrev pub Deps : Type 0
Deps = Dict (List TaskDependency)

pub record DependencyGraph (P : Type 0) : Type 0 where
  pub pipeline : Pipeline P
  pub deps : Deps

unfoldable pub dependencies_of : Deps → String → List TaskDependency
dependencies_of deps task_id = get_or task_id [] deps

-- `[tid for tid, deps in self._deps.items() if any(d.task_id == task_id for d in deps)]`
unfoldable pub dependents_of : Deps → String → List String
dependents_of [] task_id = []
dependents_of ((tid, ds) ∷ deps) task_id =
    let rest = dependents_of deps task_id in
    if any (λ (d : TaskDependency). d.task_id == task_id) ds then tid ∷ rest else rest

abbrev pub ids : List TaskDependency → List String
ids [] = []
ids (d ∷ ds) = d.task_id ∷ ids ds

-- One dependency in `_validate`: kept, passed over by a policy, or refused.
unfoldable pub validate_dep :
    {P : Type 0} → Config → Dict (PipelineTask P) → String → String → Deps → Result GraphError Deps
validate_dep config tasks id dep deps =
    if dep == id
    then (if config.self_dependency_policy == "ignore" then ok deps else err (self_dependency id))
    else if has dep tasks
    then ok (insert id (get_or id [] deps ++ record { task_id = dep; type = "required" } ∷ []) deps)
    else if config.missing_dependency_policy == "skip"
    then ok deps
    else err (unknown_dependency id dep)

module _ {P : Type 0} (config : Config) (tasks : Dict (PipelineTask P)) where
  -- `for dep in task.dependencies`
  unfoldable pub validate_deps : String → List String → Deps → Result GraphError Deps
  validate_deps id [] deps = ok deps
  validate_deps id (dep ∷ rest) deps = do
    deps' ← validate_dep config tasks id dep deps
    validate_deps id rest deps'

  -- `for task in self.pipeline.all_tasks()`
  unfoldable pub validate_tasks : List (PipelineTask P) → Deps → Result GraphError Deps
  validate_tasks [] deps = ok deps
  validate_tasks (task ∷ rest) deps = do
    deps' ← validate_deps task.id task.dependencies deps
    validate_tasks rest deps'

-- The ids visited, and those on the path, deepest last.
pub record Walk : Type 0 where
  pub visited : List String
  pub path : List String

-- `path[path.index(task_id):] + [task_id]`
unfoldable pub cycle_from : String → List String → List String
cycle_from task_id [] = task_id ∷ []
cycle_from task_id (x ∷ path) =
    let rest = cycle_from task_id path in if x == task_id then (x ∷ path) ++ task_id ∷ [] else rest

abbrev pub drop_last : List String → List String
drop_last [] = []
drop_last (x ∷ []) = []
drop_last (x ∷ y ∷ ys) = x ∷ drop_last (y ∷ ys)

-- After the loop over a task's dependencies: a cycle is handed on, else the task leaves the path.
unfoldable pub leave : Option (List String × Walk) → Option (List String × Walk)
leave none = none
leave (some ([], w)) = some ([], record w { path = drop_last w.path })
leave (some (x ∷ xs, w)) = some (x ∷ xs, w)

-- `result = visit(...)`, `if result: return result`, else on to the rest
unfoldable pub or_next :
    Option (List String × Walk) → (Walk → Option (List String × Walk)) → Option (List String × Walk)
or_next none rest = none
or_next (some ([], w)) rest = rest w
or_next (some (x ∷ xs, w)) rest = some (x ∷ xs, w)

module _ (deps : Deps) where
  -- `for dep in ...: result = visit(dep)`, given the recursive `visit`; [] stands for None
  unfoldable pub visit_all :
      (String → Walk → Option (List String × Walk))
      → List String
      → Walk
      → Option (List String × Walk)
  visit_all visit [] w = some ([], w)
  visit_all visit (t ∷ ts) w = or_next (visit t w) (visit_all visit ts)

  -- `visit` of `find_cycle`
  unfoldable pub visit : ℕ → String → Walk → Option (List String × Walk)
  visit zero t w = none
  visit (suc fuel) t w =
      if elem t w.path
      then some (cycle_from t w.path, w)
      else if elem t w.visited
      then some ([], w)
      else leave (
          visit_all (visit fuel) (ids (dependencies_of deps t))
            (record { visited = w.visited ++ t ∷ []; path = w.path ++ t ∷ [] }))

abbrev pub cycle_of : Option (List String × Walk) → Option (List String)
cycle_of none = none
cycle_of (some (cycle, w)) = some cycle

abbrev pub task_ids : {P : Type 0} → List (PipelineTask P) → List String
task_ids [] = []
task_ids (task ∷ tasks) = task.id ∷ task_ids tasks

module _ {P : Type 0} where
  unfoldable pub find_cycle : ℕ → DependencyGraph P → Option (List String)
  find_cycle fuel g = cycle_of (
      visit_all g.deps (visit g.deps fuel) (task_ids (all_tasks g.pipeline))
        (record { visited = []; path = [] }))

  -- The end of `_validate`: no cycle, or the error.
  unfoldable pub refuse_cycle :
      DependencyGraph P → Option (List String) → Option (Result GraphError (DependencyGraph P))
  refuse_cycle g none = none
  refuse_cycle g (some []) = some (ok g)
  refuse_cycle g (some (x ∷ xs)) = some (err (cyclic (x ∷ xs)))

  unfoldable pub check_cycles :
      ℕ
      → Config
      → Pipeline P
      → Result GraphError Deps
      → Option (Result GraphError (DependencyGraph P))
  check_cycles fuel config p (err e) = some (err e)
  check_cycles fuel config p (ok deps) =
      let g : DependencyGraph P = record { pipeline = p; deps = deps } in
      if config.detect_cycles then refuse_cycle g (find_cycle fuel g) else some (ok g)

  -- DependencyGraph.__init__
  unfoldable pub dependency_graph :
      ℕ → Config → Pipeline P → Option (Result GraphError (DependencyGraph P))
  dependency_graph fuel config p =
      check_cycles fuel config p (validate_tasks config (task_map p) (all_tasks p) [])

-- What `topological_order` has visited, and its result so far.
pub record Sorted : Type 0 where
  pub visited : List String
  pub result : List String

abbrev pub append_to : String → Option Sorted → Option Sorted
append_to t none = none
append_to t (some s) = some (record s { result = s.result ++ t ∷ [] })

module _ (before : String → String → Bool) where
  -- `sorted(..., key=lambda d: d.task_id)`, by the order of texts
  abbrev pub sorted_ids : List TaskDependency → List String
  sorted_ids ds = ids (sort_by (λ (a b : TaskDependency). before a.task_id b.task_id) ds)

abbrev pub then_all : (Sorted → Option Sorted) → Option Sorted → Option Sorted
then_all f none = none
then_all f (some s) = f s

unfoldable pub place_all : (String → Sorted → Option Sorted) → List String → Sorted → Option Sorted
place_all place [] s = some s
place_all place (t ∷ ts) s = then_all (place_all place ts) (place t s)

module _ (before : String → String → Bool) (deps : Deps) where
  -- `visit` of `topological_order`
  unfoldable pub place : ℕ → String → Sorted → Option Sorted
  place zero t s = none
  place (suc fuel) t s =
      if elem t s.visited
      then some s
      else append_to t (
          place_all (place fuel) (sorted_ids before (dependencies_of deps t))
            (record s { visited = s.visited ++ t ∷ [] }))

abbrev pub result_of : Option Sorted → Option (List String)
result_of none = none
result_of (some s) = some s.result

module _ {P : Type 0} (before : String → String → Bool) where
  unfoldable pub topological_order : ℕ → DependencyGraph P → Option (List String)
  topological_order fuel g = result_of (
      place_all (place before g.deps fuel) (task_ids (all_tasks g.pipeline))
        (record { visited = []; result = [] }))

-- `dep.task_id in completed or dep.type == "optional"`
abbrev pub dep_satisfied : List String → TaskDependency → Bool
dep_satisfied completed d = elem d.task_id completed || d.type == "optional"

abbrev pub satisfied : Deps → List String → String → Bool
satisfied deps completed t = all (dep_satisfied completed) (dependencies_of deps t)

module _ {P : Type 0} where
  unfoldable pub ready_tasks : DependencyGraph P → List String → List String → List String
  ready_tasks g completed failed =
      keep (λ t. not (elem t completed || elem t failed) && satisfied g.deps completed t)
        (task_ids (all_tasks g.pipeline))

-- A set comprehension: each id once.
abbrev pub distinct : List String → List String
distinct [] = []
distinct (x ∷ xs) = let rest = distinct xs in if elem x rest then rest else x ∷ rest

-- The layers so far, with the set `completed`, which grows.
abbrev pub Layers : Type 0
Layers = Result GraphError (List (List String) × List String)

abbrev pub add_layer : List String → Option Layers → Option Layers
add_layer layer none = none
add_layer layer (some (err e)) = some (err e)
add_layer layer (some (ok (layers, completed))) = some (ok (layer ∷ layers, completed))

-- A pass of the loop, with the tasks that are ready, and the rest of the loop.
unfoldable pub next_layer :
    (List String → List String → Option Layers)
    → List String
    → List String
    → List String
    → Option Layers
next_layer rest completed remaining [] = some (err unlayered)
next_layer rest completed remaining (t ∷ ts) =
    add_layer (t ∷ ts) (rest (completed ++ t ∷ ts) (keep (λ x. not (elem x (t ∷ ts))) remaining))

-- `while remaining`
unfoldable pub layers_from : ℕ → Deps → List String → List String → Option Layers
layers_from fuel deps completed [] = some (ok ([], completed))
layers_from zero deps completed (r ∷ rs) = none
layers_from (suc fuel) deps completed (r ∷ rs) =
    next_layer (layers_from fuel deps) completed (r ∷ rs) (keep (satisfied deps completed) (r ∷ rs))

-- `completed = completed or set()`: the set that grows is the caller's, unless that is empty, when the
-- caller's stays so. What was added to it before an exception is left out.
abbrev pub callers_set : List String → List String → List String
callers_set [] grown = []
callers_set (c ∷ completed) grown = grown

abbrev pub left_with : List String → Option Layers → Option Layers
left_with completed none = none
left_with completed (some (err e)) = some (err e)
left_with completed (some (ok (layers, grown))) = some (ok (layers, callers_set completed grown))

module _ {P : Type 0} where
  -- The layers, and the caller's set afterwards.
  unfoldable pub parallel_groups : ℕ → DependencyGraph P → List String → Option Layers
  parallel_groups fuel g completed = left_with completed (
      layers_from fuel g.deps completed
        (distinct (keep (λ t. not (elem t completed)) (task_ids (all_tasks g.pipeline)))))
