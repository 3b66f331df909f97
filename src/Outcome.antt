-- ===== src/Outcome.antt =====
-- hlinor_registry/outcome.py: the acceptance gate of a task. Fields have their declared types; evidence
-- is a dictionary by reference.
pub mod Acceptance
mod Tests
use hlinor_agent_registry.Prelude.{
  Bool, true, false, not, ◌&&◌, ◌||◌, Option, none, some, List, [], ◌∷◌, ◌++◌, if◌then◌else◌, any,
  keep, map, is_empty, Text, codes, text_eq, strip, is_blank, has_repeat, lookup, Result, ok, err,
  ◌>>=◌, ◌>>◌, guard,
}

pub data GateError : Type 0 where
  field_invalid contract_invalid evidence_invalid state_invalid : GateError

pub data OutcomeStatus : Type 0 where
  success task_failed blocked awaiting_approval partial : OutcomeStatus

pub data ExecutionState : Type 0 where
  completed run_failed run_blocked run_awaiting run_partial timed_out interrupted : ExecutionState

pub data OutcomeReason : Type 0 where
  acceptance_verified acceptance_evidence_missing execution_failed : OutcomeReason
  execution_blocked approval_pending execution_partial : OutcomeReason

pub record AcceptanceCriterion : Type 0 where
  pub criterion_id : Text
  pub required_evidence : List Text

pub record EvidenceRecord : Type 0 where
  pub evidence_id : Text
  pub reference : Text
  pub verified : Bool

abbrev pub Evidence : Type 0
Evidence = List (Text × EvidenceRecord)

pub record TaskOutcome : Type 0 where
  pub task_id : Text
  pub status : OutcomeStatus
  pub execution_state : ExecutionState
  pub acceptance_criteria : List AcceptanceCriterion
  pub criterion_ids : List Text
  pub satisfied_criterion_ids : List Text
  pub verified_evidence_refs : List Text
  pub missing_evidence_refs : List Text
  pub reason : OutcomeReason

pub record Gate : Type 0 where
  pub task_id : Text
  pub criteria : List AcceptanceCriterion

unfoldable pub require_text : Text → Result GateError (Unit {0})
require_text s = guard (not (is_blank s) && text_eq s (strip s)) field_invalid

unfoldable pub require_texts : List Text → Result GateError (Unit {0})
unfolding require_text
require_texts [] = ok tt
require_texts (s ∷ rest) = do require_text s; require_texts rest

unfoldable pub new_criterion : Text → List Text → Result GateError AcceptanceCriterion
unfolding require_text require_texts has_repeat
new_criterion criterion_id required = do
  require_text criterion_id
  guard (not (is_empty required)) contract_invalid
  require_texts required
  guard (not (has_repeat required)) contract_invalid
  ok (record { criterion_id = criterion_id; required_evidence = required })

unfoldable pub new_evidence : Text → Text → Bool → Result GateError EvidenceRecord
unfolding require_text
new_evidence evidence_id reference verified = do
  require_text evidence_id
  require_text reference
  ok (record { evidence_id = evidence_id; reference = reference; verified = verified })

-- The constructor of the gate.
unfoldable pub new_gate : Text → List AcceptanceCriterion → Result GateError Gate
unfolding require_text has_repeat
new_gate task_id criteria = do
  require_text task_id
  guard (not (is_empty criteria)) contract_invalid
  guard (not (has_repeat (map (λ (c : AcceptanceCriterion). c.criterion_id) criteria)))
      contract_invalid
  ok (record { task_id = task_id; criteria = criteria })

-- An execution state, or the text of one.
pub data StateInput : Type 0 where
  given : ExecutionState → StateInput
  named : Text → StateInput

abbrev state_names : List (Text × ExecutionState)
state_names =
    (codes "completed", completed)
    ∷ (codes "failed", run_failed)
    ∷ (codes "blocked", run_blocked)
    ∷ (codes "awaiting_approval", run_awaiting)
    ∷ (codes "partial", run_partial)
    ∷ (codes "timed_out", timed_out)
    ∷ (codes "interrupted", interrupted)
    ∷ []

unfoldable pub coerce_execution_state : StateInput → Result GateError ExecutionState
coerce_execution_state (given state) = ok state
coerce_execution_state (named s) = elim (lookup s state_names) [
  | none ↦ err state_invalid
  | some state ↦ ok state
]

-- The loop over the evidence at the start of `evaluate`.
unfoldable pub check_records : Evidence → Result GateError (Unit {0})
unfolding require_text
check_records [] = ok tt
check_records ((reference, r) ∷ rest) = do
  require_text reference
  guard (text_eq r.reference reference) evidence_invalid
  check_records rest

unfoldable pub is_verified : Evidence → Text → Bool
is_verified evidence reference = elim (lookup reference evidence) [
  | none ↦ false
  | some r ↦ r.verified
]

abbrev pub criterion_missing : Evidence → AcceptanceCriterion → List Text
criterion_missing evidence c =
    keep (λ (reference : Text). not (is_verified evidence reference)) c.required_evidence

-- The three lists that the loop over the criteria extends.
pub record Collected : Type 0 where
  pub satisfied : List Text
  pub verified_refs : List Text
  pub missing_refs : List Text

unfoldable pub collect : Evidence → List AcceptanceCriterion → Collected
collect evidence [] = record { satisfied = []; verified_refs = []; missing_refs = [] }
collect evidence (c ∷ rest) =
    let later = collect evidence rest in
    if is_empty (criterion_missing evidence c)
    then record later {
      satisfied = c.criterion_id ∷ later.satisfied;
      verified_refs = c.required_evidence ++ later.verified_refs;
    }
    else record later { missing_refs = criterion_missing evidence c ++ later.missing_refs }

-- `list(dict.fromkeys(xs))`
unfoldable pub without_repeats : List Text → List Text
without_repeats [] = []
without_repeats (s ∷ rest) = s ∷ keep (λ (t : Text). not (text_eq s t)) (without_repeats rest)

abbrev pub status_for : ExecutionState → Bool → OutcomeStatus × OutcomeReason
status_for run_awaiting missing = (awaiting_approval, approval_pending)
status_for run_failed missing = (task_failed, execution_failed)
status_for timed_out missing = (task_failed, execution_failed)
status_for interrupted missing = (task_failed, execution_failed)
status_for run_blocked missing = (blocked, execution_blocked)
status_for run_partial missing = (partial, execution_partial)
status_for completed true = (blocked, acceptance_evidence_missing)
status_for completed false = (success, acceptance_verified)

unfoldable pub outcome_of : Gate → Evidence → ExecutionState → TaskOutcome
unfolding collect without_repeats
outcome_of gate evidence state =
    let found = collect evidence gate.criteria in
    let missing = without_repeats found.missing_refs in
    let verdict = status_for state (not (is_empty missing)) in
    record {
      task_id = gate.task_id;
      status = verdict.0;
      execution_state = state;
      acceptance_criteria = gate.criteria;
      criterion_ids = map (λ (c : AcceptanceCriterion). c.criterion_id) gate.criteria;
      satisfied_criterion_ids = found.satisfied;
      verified_evidence_refs = without_repeats found.verified_refs;
      missing_evidence_refs = missing;
      reason = verdict.1;
    }

unfoldable pub evaluate_outcome : Gate → Evidence → StateInput → Result GateError TaskOutcome
unfolding coerce_execution_state check_records outcome_of
evaluate_outcome gate evidence input = do
  state ← coerce_execution_state input
  check_records evidence
  ok (outcome_of gate evidence state)
