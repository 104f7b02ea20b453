-- ===== src/Orchestration/Dependencies/Validation.antt =====
-- What the constructor of a dependency graph records, and what it refuses before it looks for cycles.
use ai_enterprise_os.Prelude.{
  String, ◌≡◌, refl, sym, subst, ◌∙◌, true, false, ◌&&◌, ◌||◌, List, [], ◌∷◌, ◌++◌, ◌==◌, eq_iff,
  arith, Bool-cases, inl, inr, elem, All, All-snoc, All-mono, any, Result, ok, err, ◌>>=◌,
}
use ai_enterprise_os.Dict.{Dict, has, insert, get_or, has-insert, get_or-insert}
use ai_enterprise_os.Orchestration.Models.{
  TaskDependency, PipelineTask, Pipeline, all_tasks, map_from, task_map,
}
use ai_enterprise_os.Orchestration.Dependencies.{
  GraphError, self_dependency, unknown_dependency, cyclic, unlayered, Config, Deps, dependencies_of,
  task_ids, validate_dep, validate_deps, validate_tasks,
}
use ai_enterprise_os.Orchestration.Dependencies.Sets.{All-of_elem}

-- Every recorded dependency is of a task on another task.
pub record IsValid (deps : Deps) (tasks : List String) : Type 0 where
  pub known :
      (t : String)
      → All
          (λ (d : TaskDependency). (elem d.task_id tasks ≡ true) × ((d.task_id == t) ≡ false))
          (dependencies_of deps t)
  pub keyed : (t : String) → elem t tasks ≡ false → dependencies_of deps t ≡ []

has-map_from :
    {P : Type 0} (k : String) (d : Dict (PipelineTask P)) (ts : List (PipelineTask P))
    → has k (map_from d ts) ≡ (has k d || elem k (task_ids ts))
has-map_from k d [] = ground arith
has-map_from k d (t ∷ ts) =
    ground (arith, has-map_from k (insert t.id t d) ts, has-insert t.id k t d)

module _ {P : Type 0} (config : Config) (p : Pipeline P) where
  abbrev tasks : List String
  tasks = task_ids (all_tasks p)

  has-task_map : (k : String) → has k (task_map p) ≡ elem k tasks
  has-task_map k = has-map_from k [] (all_tasks p) ∙ unfold has in refl

  insert-IsValid :
      (id dep : String) (deps : Deps)
      → elem id tasks ≡ true
      → elem dep tasks ≡ true
      → (dep == id) ≡ false
      → IsValid deps tasks
      → IsValid
          (insert id (get_or id [] deps ++ record { task_id = dep; type = "required" } ∷ []) deps)
          tasks
  unfolding dependencies_of
  insert-IsValid id dep deps inside known other valid =
      let new : List TaskDependency =
        get_or id [] deps ++ record { task_id = dep; type = "required" } ∷ [] in
      record {
        known = λ t. rw (get_or-insert id t new [] deps) (elim (Bool-cases (id == t)) [
          | inl e ↦ rw e (
              subst
                (λ y.
                  All
                    (λ (d : TaskDependency).
                      (elem d.task_id tasks ≡ true) × ((d.task_id == y) ≡ false))
                    new)
                ((eq_iff id t).0 e)
                (All-snoc _ (get_or id [] deps) _ (valid.known id) (known, other)))
          | inr e ↦ rw e (valid.known t)
        ]);
        keyed = λ t e. rw (get_or-insert id t new [] deps) (elim (Bool-cases (id == t)) [
          | inl f ↦ absurd (
              ground (arith, inside, subst (λ y. elem y tasks ≡ false) (sym ((eq_iff id t).0 f)) e))
          | inr f ↦ rw f (valid.keyed t e)
        ]);
      }

  -- A task with this id lists this dependency.
  abbrev pub Lists : String → String → Type 0
  Lists id dep =
      any (λ (task : PipelineTask P). task.id == id && elem dep task.dependencies) (all_tasks p)
      ≡ true

  -- What the first of some steps refuses is reported; else the rest goes on with what it made.
  abbrev pub Checked : Result GraphError Deps → Type 0
  Checked (ok deps) = IsValid deps tasks
  Checked (err (self_dependency id)) = Lists id id
  Checked (err (unknown_dependency id dep)) = Lists id dep × (elem dep tasks ≡ false)
  Checked (err (cyclic c)) = ⊥
  Checked (err unlayered) = ⊥

  Checked-bind :
      (r : Result GraphError Deps) (f : Deps → Result GraphError Deps)
      → Checked r
      → ((deps : Deps) → IsValid deps tasks → Checked (f deps))
      → Checked (r >>= f)
  Checked-bind (ok deps) f h go = go deps h
  Checked-bind (err (self_dependency id)) f h go = h
  Checked-bind (err (unknown_dependency id dep)) f h go = h
  Checked-bind (err (cyclic c)) f h go = h
  Checked-bind (err unlayered) f h go = h

  validate_dep-Checked :
      (id dep : String) (deps : Deps)
      → elem id tasks ≡ true
      → Lists id dep
      → IsValid deps tasks
      → Checked (validate_dep config (task_map p) id dep deps)
  unfolding validate_dep
  validate_dep-Checked id dep deps inside lists valid = elim (Bool-cases (dep == id)) [
    | inl e ↦ elim (Bool-cases (config.self_dependency_policy == "ignore")) [
      | inl f ↦ rw (e, f) valid
      | inr f ↦ rw (e, f) (subst (λ d. Lists id d) ((eq_iff dep id).0 e) lists)
    ]
    | inr e ↦ elim (Bool-cases (has dep (task_map p))) [
      | inl f ↦ rw (e, f) (insert-IsValid id dep deps inside (sym (has-task_map dep) ∙ f) e valid)
      | inr f ↦ elim (Bool-cases (config.missing_dependency_policy == "skip")) [
        | inl g ↦ rw (e, f, g) valid
        | inr g ↦ rw (e, f, g) (lists, sym (has-task_map dep) ∙ f)
      ]
    ]
  ]

  validate_deps-Checked :
      (id : String) (ds : List String) (deps : Deps)
      → elem id tasks ≡ true
      → All (Lists id) ds
      → IsValid deps tasks
      → Checked (validate_deps config (task_map p) id ds deps)
  unfolding validate_deps
  validate_deps-Checked id [] deps inside lists valid = valid
  validate_deps-Checked id (dep ∷ ds) deps inside lists valid =
      Checked-bind (validate_dep config (task_map p) id dep deps) _
        (validate_dep-Checked id dep deps inside lists.0 valid)
        (λ deps' valid'. validate_deps-Checked id ds deps' inside lists.1 valid')

  validate_tasks-Checked :
      (ts : List (PipelineTask P)) (deps : Deps)
      → All (λ (t : PipelineTask P). (elem t.id tasks ≡ true) × All (Lists t.id) t.dependencies) ts
      → IsValid deps tasks
      → Checked (validate_tasks config (task_map p) ts deps)
  unfolding validate_tasks
  validate_tasks-Checked [] deps inside valid = valid
  validate_tasks-Checked (t ∷ ts) deps inside valid =
      Checked-bind (validate_deps config (task_map p) t.id t.dependencies deps) _
        (validate_deps-Checked t.id t.dependencies deps inside.0.0 inside.0.1 valid)
        (λ deps' valid'. validate_tasks-Checked ts deps' inside.1 valid')

  each_listed :
      (ts : List (PipelineTask P))
      → All
          (λ (t : PipelineTask P).
            (elem t.id (task_ids ts) ≡ true)
            × All
                (λ dep.
                  any (λ (s : PipelineTask P). s.id == t.id && elem dep s.dependencies) ts ≡ true)
                t.dependencies)
          ts
  each_listed [] = tt
  each_listed (t ∷ ts) = (
    (
      ground (arith, eq_iff t.id t.id),
      All-of_elem _ t.dependencies (λ dep e. ground (arith, e, eq_iff t.id t.id)),
    ),
    All-mono _ _
        (λ (s : PipelineTask P) h.
          (ground (arith, h.0), All-mono _ _ (λ dep e. ground (arith, e)) s.dependencies h.1))
        ts (each_listed ts),
  )

  pub validated : Checked (validate_tasks config (task_map p) (all_tasks p) [])
  validated = validate_tasks-Checked (all_tasks p) [] (each_listed (all_tasks p)) (record {
    known = λ t. unfold dependencies_of get_or in tt;
    keyed = λ t e. unfold dependencies_of get_or in refl;
  })
