-- ===== src/Workflow/Context/Filed.antt =====
-- Contexts and their steps stay filed under their own ids.
use ai_enterprise_os.Prelude.{
  ℕ, String, Bool, true, Option, none, some, List, [], ◌∷◌, ◌++◌, ◌≡◌, refl, ◌∙◌, eq_iff, arith,
  Bool-cases, inl, inr, All, All-mono,
}
use ai_enterprise_os.Dict.{
  Dict, has, lookup, insert, get_or, lookup-insert, lookup-erase, has-insert, has-erase,
  has_of_lookup,
}
use ai_enterprise_os.Workflow.Context.{
  Context, HistoryEntry, ContextManager, id_or, create_context, change, changed_by, get_context,
  with_data, moved, started, suspended, resumed, finished, broken, called_off, add_history_entry,
  entered, step_of, remove_context,
}

module _ {V : Type 0} where
  -- A context stands under its own id, and there is a list of steps for each context and no other.
  pub record IsFiled (m : ContextManager V) : Type 0 where
    pub own : (k : String) (c : Context V) → lookup k m.contexts ≡ some c → c.execution_id ≡ k
    pub paired : (k : String) → has k m.step_contexts ≡ has k m.contexts

  own-insert :
      (k : String) (c : Context V) (d : Dict (Context V))
      → c.execution_id ≡ k
      → ((j : String) (b : Context V) → lookup j d ≡ some b → b.execution_id ≡ j)
      → (j : String) (b : Context V) → lookup j (insert k c d) ≡ some b
      → b.execution_id ≡ j
  own-insert k c d e h j b q = ground (arith, lookup-insert k j c d, eq_iff k j, h j b)

  create_context-IsFiled :
      (workflow_id initial_state : String) (d : Dict V) (id : Option String) (uuid : String)
      (now : ℕ) (m : ContextManager V)
      → IsFiled m
      → IsFiled (create_context workflow_id initial_state d id uuid now m).0
  unfolding create_context
  create_context-IsFiled workflow_id initial_state d id uuid now m h =
      let c = (create_context workflow_id initial_state d id uuid now m).1 in
      record {
        own = own-insert (id_or id uuid) c m.contexts refl h.own;
        paired = λ k.
            rw
              (
                has-insert (id_or id uuid) k [] m.step_contexts,
                has-insert (id_or id uuid) k c m.contexts,
                h.paired k,
              )
              refl;
      }

  changed_by-IsFiled :
      (f : Context V → Context V) (k : String) (o : Option (Context V)) (m : ContextManager V)
      → ((c : Context V) → (f c).execution_id ≡ c.execution_id)
      → lookup k m.contexts ≡ o
      → IsFiled m
      → IsFiled (changed_by o f k m).0
  unfolding changed_by
  changed_by-IsFiled f k none m same e h = h
  changed_by-IsFiled f k (some c) m same e h =
      let held : has k m.contexts ≡ true = has_of_lookup k m.contexts c e in
      record {
        own = own-insert k (f c) m.contexts (same c ∙ h.own k c e) h.own;
        paired = λ j. ground (arith, has-insert k j (f c) m.contexts, h.paired j, held, eq_iff k j);
      }

  change-IsFiled :
      (f : Context V → Context V) (k : String) (m : ContextManager V)
      → ((c : Context V) → (f c).execution_id ≡ c.execution_id)
      → IsFiled m
      → IsFiled (change f k m).0
  unfolding change get_context
  change-IsFiled f k m same h = changed_by-IsFiled f k (lookup k m.contexts) m same refl h

  entered-IsFiled :
      (o : Option (Context V)) (k : String) (entry : HistoryEntry V) (m : ContextManager V)
      → IsFiled m
      → IsFiled (entered o k entry m)
  unfolding entered
  entered-IsFiled none k entry m h = h
  entered-IsFiled (some c) k entry m h =
      let steps = get_or k [] m.step_contexts ++ step_of entry k c ∷ [] in
      elim (Bool-cases (has k m.step_contexts)) [
        | inl q ↦ rw q (record {
          own = h.own;
          paired =
              λ j. ground (arith, has-insert k j steps m.step_contexts, h.paired j, q, eq_iff k j);
        })
        | inr q ↦ rw q h
      ]

  remove_context-IsFiled :
      (k : String) (m : ContextManager V) → IsFiled m → IsFiled (remove_context k m).0
  unfolding remove_context
  remove_context-IsFiled k m h = elim (Bool-cases (has k m.contexts)) [
    | inl q ↦ rw q (record {
      own = λ j b e. ground (arith, lookup-erase k j m.contexts, h.own j b);
      paired = λ j. rw (has-erase k j m.step_contexts, has-erase k j m.contexts, h.paired j) refl;
    })
    | inr q ↦ rw q h
  ]

  -- The changes of one context that the manager makes.
  abbrev pub changes : Dict V → Bool → String → String → ℕ → ℕ → List (Context V → Context V)
  changes d merge s t now later =
      with_data d merge now
      ∷ moved s t now
      ∷ started now later
      ∷ suspended now later
      ∷ resumed now
      ∷ finished t now later
      ∷ broken t now later
      ∷ called_off now later
      ∷ []

  changes-same :
      (d : Dict V) (merge : Bool) (s t : String) (now later : ℕ)
      → All
          (λ f. (c : Context V) → (f c).execution_id ≡ c.execution_id)
          (changes d merge s t now later)
  unfolding with_data moved started suspended resumed finished broken called_off
  changes-same d merge s t now later = (
    λ c. refl,
    (λ c. refl, (λ c. refl, (λ c. refl, (λ c. refl, (λ c. refl, (λ c. refl, (λ c. refl, tt))))))),
  )

  -- Each context stands under its own execution id, and there is a list of steps for each context
  -- and no other: creating, changing and removing a context and adding a history entry keep this
  -- so, where the changes are those of its data, its state and its status.
  pub operations-IsFiled :
      (m : ContextManager V)
      → IsFiled m
      → ((workflow_id initial_state : String) (d : Dict V) (id : Option String) (uuid : String)
            (now : ℕ)
          → IsFiled (create_context workflow_id initial_state d id uuid now m).0)
        × ((d : Dict V) (merge : Bool) (s t k : String) (now later : ℕ)
            → All (λ f. IsFiled (change f k m).0) (changes d merge s t now later))
        × ((k : String) (entry : HistoryEntry V) → IsFiled (add_history_entry k entry m))
        × ((k : String) → IsFiled (remove_context k m).0)
  unfolding add_history_entry
  operations-IsFiled m h = (
    λ workflow_id initial_state d id uuid now.
        create_context-IsFiled workflow_id initial_state d id uuid now m h,
    λ d merge s t k now later.
        All-mono (λ f. (c : Context V) → (f c).execution_id ≡ c.execution_id)
          (λ f. IsFiled (change f k m).0) (λ f same. change-IsFiled f k m same h)
          (changes d merge s t now later) (changes-same d merge s t now later),
    λ k entry. entered-IsFiled (lookup k m.contexts) k entry m h,
    λ k. remove_context-IsFiled k m h,
  )
