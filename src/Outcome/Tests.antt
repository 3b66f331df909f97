-- ===== src/Outcome/Tests.antt =====
-- A task with one criterion.
use hlinor_agent_registry.Prelude.{
  ◌≡◌, refl, ◌↔◌, false, [], ◌∷◌, All, codes, is_blank, text_eq, lookup, ok,
}
use hlinor_agent_registry.Outcome.{
  success, completed, Gate, Evidence, TaskOutcome, named, coerce_execution_state, outcome_of,
  evaluate_outcome,
}
use hlinor_agent_registry.Outcome.Acceptance.{IsMet, evaluate_outcome-success_iff}

abbrev gate_of_one : Gate
gate_of_one = record {
  task_id = codes "t";
  criteria = record { criterion_id = codes "c"; required_evidence = codes "r" ∷ [] } ∷ [];
}

abbrev unverified : Evidence
unverified =
    (codes "r", record { evidence_id = codes "e"; reference = codes "r"; verified = false }) ∷ []

abbrev claimed_outcome : TaskOutcome
claimed_outcome = outcome_of gate_of_one unverified completed

evaluate_outcome-success_iff_example : (claimed_outcome.status ≡ success) ↔ (
    (coerce_execution_state (named (codes "completed")) ≡ ok completed)
    × All (IsMet unverified) gate_of_one.criteria)
unfolding evaluate_outcome lookup text_eq is_blank
evaluate_outcome-success_iff_example =
    evaluate_outcome-success_iff gate_of_one unverified (named (codes "completed")) claimed_outcome
      refl
