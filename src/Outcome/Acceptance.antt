-- ===== src/Outcome/Acceptance.antt =====
-- When a task counts as a success.
use hlinor_agent_registry.Prelude.{
  ◌≡◌, refl, sym, ◌∙◌, ◌↔◌, inl, inr, Bool, true, false, not, List, [], ◌∷◌, ◌++◌, keep, is_empty,
  All, Text, arith, ok, >>=-eq-ok, ok-injective, Bool-cases,
}
use hlinor_agent_registry.Outcome.{
  success, ExecutionState, completed, run_failed, run_blocked, run_awaiting, run_partial, timed_out,
  interrupted, AcceptanceCriterion, Evidence, TaskOutcome, Gate, StateInput, coerce_execution_state,
  check_records, is_verified, criterion_missing, collect, without_repeats, status_for, outcome_of,
  evaluate_outcome,
}

module _ (evidence : Evidence) where
  -- Every reference that a criterion requires has a verified record.
  abbrev pub IsMet : AcceptanceCriterion → Type 0
  IsMet c = All (λ (reference : Text). is_verified evidence reference ≡ true) c.required_evidence

  none_missing→ :
      (refs : List Text)
      → is_empty (keep (λ (reference : Text). not (is_verified evidence reference)) refs) ≡ true
      → All (λ (reference : Text). is_verified evidence reference ≡ true) refs
  none_missing→ [] h = tt
  none_missing→ (r ∷ refs) h = elim (Bool-cases (is_verified evidence r)) [
    | inl v ↦ (v, none_missing→ refs (rw v at h))
    | inr v ↦ let k = rw v at h in cc
  ]

  none_missing← :
      (refs : List Text)
      → All (λ (reference : Text). is_verified evidence reference ≡ true) refs
      → is_empty (keep (λ (reference : Text). not (is_verified evidence reference)) refs) ≡ true
  none_missing← [] h = refl
  none_missing← (r ∷ refs) (v, h) = rw v (none_missing← refs h)

  empty_append : (xs ys : List Text) → is_empty (xs ++ ys) ≡ true → is_empty xs ≡ true
  empty_append [] ys h = refl
  empty_append (x ∷ xs) ys h = h

  collect→ :
      (criteria : List AcceptanceCriterion)
      → is_empty (collect evidence criteria).missing_refs ≡ true
      → All IsMet criteria
  unfolding collect
  collect→ [] h = tt
  collect→ (c ∷ criteria) h = elim (Bool-cases (is_empty (criterion_missing evidence c))) [
    | inl met ↦ (none_missing→ c.required_evidence met, collect→ criteria (rw (met, collect) at h))
    | inr unmet ↦
        let k = empty_append (criterion_missing evidence c) _ (rw (unmet, collect) at h) in
        absurd (cc (k, unmet))
  ]

  collect← :
      (criteria : List AcceptanceCriterion)
      → All IsMet criteria
      → is_empty (collect evidence criteria).missing_refs ≡ true
  unfolding collect
  collect← [] h = refl
  collect← (c ∷ criteria) (met, h) =
      rw (none_missing← c.required_evidence met, collect) (collect← criteria h)

  empty-without_repeats : (xs : List Text) → is_empty (without_repeats xs) ≡ is_empty xs
  unfolding without_repeats
  empty-without_repeats [] = refl
  empty-without_repeats (x ∷ xs) = refl

success→ :
    (state : ExecutionState) (missing : Bool)
    → (status_for state missing).0 ≡ success
    → (state ≡ completed) × (missing ≡ false)
success→ completed false h = (refl, refl)
success→ completed true h = cc
success→ run_failed missing h = cc
success→ run_blocked missing h = cc
success→ run_awaiting missing h = cc
success→ run_partial missing h = cc
success→ timed_out missing h = cc
success→ interrupted missing h = cc

outcome_of-success_iff :
    (gate : Gate) (evidence : Evidence) (state : ExecutionState)
    → ((outcome_of gate evidence state).status ≡ success)
      ↔ ((state ≡ completed) × All (IsMet evidence) gate.criteria)
unfolding outcome_of
outcome_of-success_iff gate evidence state = (
  λ h.
      let (c, m) = success→ state _ h in
      let e =
        rw (empty-without_repeats evidence (collect evidence gate.criteria).missing_refs) at m in
      (c, collect→ evidence gate.criteria (ground (arith, e))),
  λ (c, met).
      rw
        (
          c,
          empty-without_repeats evidence (collect evidence gate.criteria).missing_refs,
          collect← evidence gate.criteria met,
        )
        refl,
)

-- An evaluation that returns an outcome calls the task a success exactly when the execution state is
-- completed and every reference that a criterion of the gate requires has a verified record.
pub evaluate_outcome-success_iff :
    (gate : Gate) (evidence : Evidence) (input : StateInput) (outcome : TaskOutcome)
    → evaluate_outcome gate evidence input ≡ ok outcome
    → (outcome.status ≡ success)
      ↔ ((coerce_execution_state input ≡ ok completed) × All (IsMet evidence) gate.criteria)
unfolding evaluate_outcome
evaluate_outcome-success_iff gate evidence input outcome h =
    let (state, e, h1) = >>=-eq-ok (coerce_execution_state input) _ h in
    let (u, valid, h2) = >>=-eq-ok (check_records evidence) _ h1 in
    let same = ok-injective _ _ h2 in
    let (there, back) = outcome_of-success_iff gate evidence state in
    (
      λ s. let (c, met) = there (rw (← same) at s) in (rw (← c) e, met),
      λ (c, met). rw (sym same) (back (ok-injective _ _ (sym e ∙ c), met)),
    )
