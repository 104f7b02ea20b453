-- ===== src/Decision/Engine/Steps.antt =====
-- What the engine's operations do to a decision.
use text.Mathlib.TextPositions.{eq_refl}
use ai_enterprise_os.Prelude.{
  ℕ, ◌+◌, String, ◌≡◌, refl, ap, subst, ◌∙◌, Bool, false, ◌&&◌, Option, some, List, [], ◌∷◌, ◌++◌,
  arith, if◌then◌else◌, keep, length, eqb, length-append,
}
use ai_enterprise_os.Dict.{lookup-insert}
use ai_enterprise_os.Decision.Models.{Floats, Values, DecisionStatus, Decision}
use ai_enterprise_os.Decision.Approval.{next_level}
use ai_enterprise_os.Decision.Approval.Rules.{next_level-snoc}
use ai_enterprise_os.Decision.Policy.{sorted_policies, enforce}
use ai_enterprise_os.Decision.Policy.Order.{
  applies, applies_to-same, last_word, after, says_approval, says_owner, last_policy_decides,
}
use ai_enterprise_os.Decision.History.{Ref, Heap, Entry, write, record_decision, get, to_dict}
use ai_enterprise_os.Decision.Engine.{
  State, is_blank, save, get_decision, resolve, escalate, defer, cancel, reject, make_decision,
}

module _ {F V : Type 0} where
  pub write-here : (r : Ref) (d : Decision F V) (heap : Heap F V) → write r d heap r ≡ d
  write-here r d heap = ground arith

  pub save-here :
      (r : Ref) (d : Decision F V) (now : ℕ) (s : State F V)
      → ((save r d now s).heap r ≡ d)
        × (get_decision d.id (save r d now s) ≡ some r)
        × (length (save r d now s).engine.history.entries ≡ length s.engine.history.entries + 1)
        × ((q : Ref) → eqb r q ≡ false → (save r d now s).heap q ≡ s.heap q)
  unfolding save get_decision get record_decision
  save-here r d now s = (
    write-here r d s.heap,
    rw (write-here r d s.heap)
        (ground (arith, lookup-insert d.id d.id r s.engine.history.decisions, eq_refl d.id)),
    length-append s.engine.history.entries _,
    λ q e. rw e refl,
  )

  -- The entry behind the earlier ones is of that object, and shows it as it is.
  pub recorded :
      (r : Ref) (d : Decision F V) (now : ℕ) (s : State F V)
      → (save r d now s).engine.history.entries
        ≡ s.engine.history.entries
          ++ record { object = r; copied = (save r d now s).heap r; recorded_at = now } ∷ []
  unfolding save record_decision
  recorded r d now s = refl

module _ {F V : Type 0} (vals : Values V) (r : Ref) (s : State F V) where
  -- A decision in any status, also one that is approved, rejected or cancelled, can be escalated,
  -- deferred, cancelled and rejected: it then has that status, is what the index gives for its id,
  -- and the history has one entry more; no other decision changes.
  abbrev pub Moved : DecisionStatus → State F V → Type 0
  Moved status s' =
      ((s'.heap r).status ≡ status)
      × (get_decision ((s.heap r).id) s' ≡ some r)
      × (length s'.engine.history.entries ≡ length s.engine.history.entries + 1)
      × ((q : Ref) → eqb r q ≡ false → s'.heap q ≡ s.heap q)

  save-Moved :
      (status : DecisionStatus) (d : Decision F V) (now : ℕ)
      → d.id ≡ (s.heap r).id
      → d.status ≡ status
      → Moved status (save r d now s)
  save-Moved status d now same e =
      let (here, found, more, others) = save-here r d now s in
      (
        ap (λ x. x.status) here ∙ e,
        subst (λ id. get_decision id (save r d now s) ≡ some r) same found,
        more,
        others,
      )

  pub moves_lem :
      (now : ℕ) (note : String) (time : Option String)
      → Moved DecisionStatus.escalated (escalate vals r note now s)
        × Moved DecisionStatus.deferred (defer vals r note time now s)
        × Moved DecisionStatus.cancelled (cancel vals r note now s)
        × Moved DecisionStatus.rejected (reject vals r note now s)
  unfolding escalate defer cancel reject
  moves_lem now note time = (
    save-Moved DecisionStatus.escalated _ now refl refl,
    save-Moved DecisionStatus.deferred _ now refl refl,
    save-Moved DecisionStatus.cancelled _ now refl refl,
    save-Moved DecisionStatus.rejected _ now refl refl,
  )

  escalate-path :
      (note : String) (now : ℕ)
      → (((escalate vals r note now s).heap r).escalation_path
          ≡ (s.heap r).escalation_path
            ++ next_level (s.heap r).owner (s.heap r).escalation_path ∷ [])
        × (((escalate vals r note now s).heap r).owner ≡ (s.heap r).owner)
  unfolding escalate
  escalate-path note now =
      let here = (save-here r _ now s).0 in
      (ap (λ x. x.escalation_path) here, ap (λ x. x.owner) here)

-- Escalating a decision a second time goes to the level that it went to the first time, as the owner
-- stays who it was and levels are added at the end of the path. And every earlier entry that the
-- history has of the decision then shows the longer path, beside the status of its own time.
pub escalate_again :
    {F V : Type 0} (vals : Values V) (r : Ref) (s : State F V) (note more : String) (now later : ℕ)
    → let d : Decision F V = s.heap r in
      let s1 = escalate vals r note now s in
      let s2 = escalate vals r more later s1 in
      let level = next_level d.owner d.escalation_path in
      ((s1.heap r).escalation_path ≡ d.escalation_path ++ level ∷ [])
      × ((s2.heap r).escalation_path ≡ (d.escalation_path ++ level ∷ []) ++ level ∷ [])
      × ((e : Entry F V)
          → e.object ≡ r
          → ((to_dict s1.heap e).escalation_path ≡ d.escalation_path ++ level ∷ [])
            × ((to_dict s1.heap e).status ≡ e.copied.status))
unfolding to_dict
escalate_again vals r s note more now later =
    let d : Decision _ _ = s.heap r in
    let s1 = escalate vals r note now s in
    let (path, owner) = escalate-path vals r s note now in
    let (path', _) = escalate-path vals r s1 more later in
    (
      path,
      rw path' (rw (path, owner, next_level-snoc d.owner d.escalation_path) refl),
      λ e same. (ap (λ q. (s1.heap q).escalation_path) same ∙ path, refl),
    )

keep-ext :
    {A : Type 0} (p q : A → Bool) → ((x : A) → p x ≡ q x) → (xs : List A) → keep p xs ≡ keep q xs
keep-ext p q h [] = refl
keep-ext p q h (x ∷ xs) = rw (h x, keep-ext p q h xs) refl

module _ {F V : Type 0} (floats : Floats F) (vals : Values V) where
  -- Making a decision sets its option and approver, and its status by what it required before:
  -- ESCALATED if approval was required and nobody approved, else APPROVED. Only then the policies
  -- act: the last that speaks of approval, or of the owner, sets that, and the status stays. The
  -- index then gives this decision for its id, and no other decision changes.
  pub make_decision_lem :
      (r : Ref) (option rationale : String) (approved_by : Option String) (now later : ℕ)
      (s : State F V)
      → let d : Decision F V = s.heap r in
        let s' = make_decision floats vals r option rationale approved_by now later s in
        let d' : Decision F V = s'.heap r in
        let policies = sorted_policies s.engine.policies in
        (d'.status ≡ (
          if d.approval_required && is_blank approved_by
          then DecisionStatus.escalated
          else DecisionStatus.approved))
        × (d'.approval_required
            ≡ after
                (last_word says_approval (keep (applies floats vals d) policies))
                d.approval_required)
        × (d'.owner ≡ after (last_word says_owner (keep (applies floats vals d) policies)) d.owner)
        × (d'.selected_option ≡ some option)
        × (d'.approved_by ≡ approved_by)
        × (d'.resolved_at ≡ some later)
        × (get_decision d.id s' ≡ some r)
        × ((q : Ref) → eqb r q ≡ false → s'.heap q ≡ s.heap q)
  unfolding make_decision
  make_decision_lem r option rationale approved_by now later s =
      let d : Decision F V = s.heap r in
      let d1 : Decision F V = resolve option rationale approved_by now later d in
      let (here, found, _, others) =
        save-here r (enforce floats vals s.engine.policies d1).0 later s in
      let (constraints, e) = (last_policy_decides floats vals d1 s.engine.policies).2 in
      let same =
        keep-ext (applies floats vals d1) (applies floats vals d)
          (applies_to-same floats vals d d1 (unfold resolve in refl) (unfold resolve in refl)
            (unfold resolve in refl) (unfold resolve in refl))
          (sorted_policies s.engine.policies) in
      let s' = save r (enforce floats vals s.engine.policies d1).0 later s in
      let same_id : (enforce floats vals s.engine.policies d1).0.id ≡ d.id =
        ap (λ x. x.id) e ∙ unfold resolve in refl in
      (
        ap (λ x. x.status) (here ∙ e) ∙ unfold resolve in refl,
        ap (λ x. x.approval_required) (here ∙ e)
            ∙ ap (λ ps. after (last_word says_approval ps) d1.approval_required) same
            ∙ unfold resolve in refl,
        ap (λ x. x.owner) (here ∙ e)
            ∙ ap (λ ps. after (last_word says_owner ps) d1.owner) same
            ∙ unfold resolve in refl,
        ap (λ x. x.selected_option) (here ∙ e) ∙ unfold resolve in refl,
        ap (λ x. x.approved_by) (here ∙ e) ∙ unfold resolve in refl,
        ap (λ x. x.resolved_at) (here ∙ e) ∙ unfold resolve in refl,
        subst (λ id. get_decision id s' ≡ some r) same_id found,
        others,
      )
