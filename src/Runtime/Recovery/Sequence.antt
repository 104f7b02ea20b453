-- ===== src/Runtime/Recovery/Sequence.antt =====
-- Which actions a recovery runs, in which order, and what it records.
use ai_enterprise_os.Prelude.{
  String, Bool, true, false, not, ◌⊎◌, none, is_some, if◌then◌else◌, List, [], ◌∷◌, ◌++◌, ◌==◌, ◌≡◌,
  refl, ap, inl, inr, any, arith, Bool-cases, Option-cases,
}
use ai_enterprise_os.Runtime.Policies.{RecoveryPolicy, RecoveryManager}
use ai_enterprise_os.Runtime.Recovery.{act, take_actions, go_on}

abbrev pub is_concrete : String → Bool
is_concrete action = not (action == "escalate")

-- Escalations, and behind them at most one other action.
abbrev pub IsSequence : List String → Type 0
IsSequence [] = Unit
IsSequence (a ∷ rest) = (is_concrete a ≡ true → rest ≡ []) × IsSequence rest

module _ {W : Type 0} (m : RecoveryManager W) (component : String) (policy : RecoveryPolicy)
    (reason : String) where
  -- The world after all of these actions, whether they raise or not.
  abbrev pub run_all : List String → W → W
  run_all [] w = w
  run_all (a ∷ rest) w = run_all rest (act m component policy reason a w).1

  -- Those of these actions, run one after the other, that do not raise.
  abbrev pub succeeding : List String → W → List String
  succeeding [] w = []
  succeeding (a ∷ rest) w =
      let (raised, w') = act m component policy reason a w in
      let others = succeeding rest w' in if is_some raised then others else a ∷ others

  -- The last of these actions is not an escalation and does not raise, and no action before it is so.
  abbrev pub IsDone : List String → W → Type 0
  IsDone tried w =
      (front : List String) × (a : String) × (tried ≡ front ++ a ∷ [])
      × (any is_concrete (succeeding front w) ≡ false)
      × (is_concrete a ≡ true)
      × ((act m component policy reason a (run_all front w)).0 ≡ none)

  -- What a pass over `actions` from the world `w` did.
  pub record Pass (actions : List String) (w : W) : Type 0 where
    pub tried : List String
    pub untried : List String
    pub split : actions ≡ tried ++ untried
    pub ran : (take_actions m component policy reason actions w).1 ≡ run_all tried w
    pub taken : (take_actions m component policy reason actions w).0 ≡ succeeding tried w
    pub stops : ((untried ≡ []) × (any is_concrete (succeeding tried w) ≡ false)) ⊎ IsDone tried w
    pub sequence : IsSequence (take_actions m component policy reason actions w).0
    pub complete :
        any is_concrete (take_actions m component policy reason actions w).0 ≡ false → untried ≡ []

  -- Behind an action that raises, or is an escalation, a pass is done when its rest is.
  IsDone-later :
      (a : String) (rest : List String) (w : W)
      → any is_concrete (succeeding (a ∷ []) w) ≡ false
      → IsDone rest (act m component policy reason a w).1
      → IsDone (a ∷ rest) w
  IsDone-later a rest w quiet (front, b, split, before, concrete, returned) = (
    a ∷ front,
    b,
    ap (λ xs. a ∷ xs) split,
    elim (Option-cases (act m component policy reason a w).0) [
      | inl q ↦ ground (arith, q, quiet, before)
      | inr (e, q) ↦ ground (arith, q, before)
    ],
    concrete,
    returned,
  )

  -- The actions of a policy are run in order, each once, up to the first that is not an escalation
  -- and does not raise: if there is none, all are run. What is taken are those that did not raise, in
  -- order: escalations, and behind them at most one other action.
  pub take_actions-Pass : (actions : List String) (w : W) → Pass actions w
  unfolding take_actions go_on
  take_actions-Pass [] w = record {
    tried = [];
    untried = [];
    split = refl;
    ran = refl;
    taken = refl;
    stops = inl (refl, refl);
    sequence = tt;
    complete = λ e. refl;
  }
  take_actions-Pass (a ∷ rest) w =
      let (raised, w') = act m component policy reason a w in
      let p = take_actions-Pass rest w' in
      elim (Option-cases (act m component policy reason a w).0) [
        | inr (e, q) ↦ record {
          tried = a ∷ p.tried;
          untried = p.untried;
          split = ap (λ xs. a ∷ xs) p.split;
          ran = rw q p.ran;
          taken = rw q p.taken;
          stops = elim p.stops [
            | inl (all, none_done) ↦ inl (all, rw q none_done)
            | inr done ↦ inr (IsDone-later a p.tried w (rw q refl) done)
          ];
          sequence = rw q p.sequence;
          complete = rw q p.complete;
        }
        | inl q ↦ elim (Bool-cases (a == "escalate")) [
          | inl y ↦ record {
            tried = a ∷ p.tried;
            untried = p.untried;
            split = ap (λ xs. a ∷ xs) p.split;
            ran = rw (q, y) p.ran;
            taken = rw (q, y) (ap (λ xs. a ∷ xs) p.taken);
            stops = elim p.stops [
              | inl (all, none_done) ↦ inl (all, rw (q, y) none_done)
              | inr done ↦ inr (IsDone-later a p.tried w (rw (q, y) refl) done)
            ];
            sequence = rw (q, y) ((λ z. ground (arith, y)), p.sequence);
            complete = rw (q, y) (λ z. p.complete (ground (arith, y)));
          }
          | inr n ↦ record {
            tried = a ∷ [];
            untried = rest;
            split = refl;
            ran = rw (q, n) refl;
            taken = rw (q, n) refl;
            stops = inr ([], a, refl, refl, rw n refl, q);
            sequence = rw (q, n) ((λ z. refl), tt);
            complete = rw (q, n) (λ z. ground (arith, n));
          }
        ]
      ]
