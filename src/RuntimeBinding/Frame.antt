-- ===== src/RuntimeBinding/Frame.antt =====
-- The arguments, the local variables and the exceptions of `BoundTool.invoke` in
-- hlinor_registry/runtime_binding.py.
use hlinor_agent_registry.Prelude.{
  ℕ, Bool, true, false, Option, List, ◌∷◌, if◌then◌else◌, Text, Value, Fields, Result, ok, err,
}
use hlinor_agent_registry.ActionRequest.{ActionRequest}
use hlinor_agent_registry.Approval.{VerifiedApproval}
use hlinor_agent_registry.CircuitBreaker.{BreakerSnapshot}
use hlinor_agent_registry.Decision.{PolicyDecision}
use hlinor_agent_registry.Delegation.{VerifiedDelegation}
use hlinor_agent_registry.ExecutionScope.{ExecutionScope}
use hlinor_agent_registry.RuntimeLimits.{LimitSnapshot}

-- An exception: the name of its type, its code and its text.
pub record Problem : Type 0 where
  pub type_name : Text
  pub code : Text
  pub message : Text

-- The exceptions by the `except` clause that they meet; `trust_error` are those with a code of the
-- approval, the delegation, the fan-out, the limits and the binding.
pub data Fault : Type 0 where
  denied_error : Problem → PolicyDecision → Fault
  trust_error : Problem → Fault
  breaker_error : Problem → Option BreakerSnapshot → Fault
  other_error : Problem → Fault

abbrev pub problem_of : Fault → Problem
problem_of (denied_error p d) = p
problem_of (trust_error p) = p
problem_of (breaker_error p s) = p
problem_of (other_error p) = p

pub record BoundTool : Type 0 where
  pub contract_digest : Text
  pub tool_id : Text
  pub action : Text
  pub resource_patterns : List Text

-- The arguments about a delegation: whether each document and the keys are given.
pub record DelegationInput : Type 0 where
  pub has_chain : Bool
  pub has_transport : Bool
  pub has_trusted_keys : Bool
  pub audience : Option Text
  pub sender_deployment_identity : Option Text
  pub sender_workload_identity : Option Text
  pub receiver_deployment_identity : Option Text
  pub receiver_workload_identity : Option Text

pub record Invocation : Type 0 where
  pub agent_id : Text
  pub actor_id : Option Text
  pub resource : Option Text
  pub signals : Fields
  pub session_id : Option Text
  pub tenant_id : Option Text
  pub execution_scope : Option ExecutionScope
  pub require_execution_scope : Bool
  pub delegation : DelegationInput
  pub has_approval_token : Bool
  pub has_approval_keys : Bool
  pub invocation_id : Text
  pub effective_binding_id : Text
  pub has_receipt_sink : Bool
  pub has_circuit_breaker : Bool
  pub failure_fingerprint : Text
  pub failure_threshold : Option ℕ
  pub has_runtime_budget : Bool
  pub budget_scope : Option Text

-- What the calls to verify an approval or a delegation expect.
pub record Expected : Type 0 where
  pub agent_id : Text
  pub action : Text
  pub tool_id : Text
  pub resource : Option Text
  pub session_id : Option Text
  pub tenant_id : Option Text
  pub project_id : Option Text
  pub workspace_id : Option Text

-- What the invocation does to the world, in its order.
pub data Event : Type 0 where
  authorized : PolicyDecision → Event
  breaker_passed : BreakerSnapshot → Event
  lease_requested leased released : Text → Event
  recorded : Fields → Event
  dispatched : Fields → Event

-- The local variables, the events with the newest first, and the world.
pub record Frame (W : Type 0) : Type 0 where
  pub arguments_digest : Option Text
  pub request : Option ActionRequest
  pub verified_approval : Option VerifiedApproval
  pub verified_delegation : Option VerifiedDelegation
  pub breaker_snapshot : Option BreakerSnapshot
  pub budget_snapshot : Option LimitSnapshot
  pub budget_lease_id : Option Text
  pub receipt_attempted : Bool
  pub events : List Event
  pub world : W

-- The components that an invocation calls.
pub record Services (W : Type 0) : Type 0 where
  -- `inspect.signature`, `signature.bind` and the JSON Schema validation
  pub normalize : Result Fault Fields
  pub digest : Value → Result Fault Text
  pub request_digest : ActionRequest → Text
  -- the receipt's UUID and the clock
  pub stamp : W → Text × Text
  pub bundle_revision : W → ℕ
  pub bundle_digest : W → Text
  pub verify_transport : Text → DelegationInput → Expected → W → Result Fault VerifiedDelegation × W
  pub verify_chain : Text → Expected → W → Result Fault VerifiedDelegation × W
  pub verify_approval : Expected → Text → W → Result Fault VerifiedApproval × W
  -- `checker.reload_if_changed()`, with the environment of the bundle
  pub reload : W → Result Fault Text × W
  pub check_policy : ActionRequest → W → Result Fault PolicyDecision × W
  pub emit_decision : PolicyDecision → W → Result Fault (Unit {0}) × W
  pub breaker_before_dispatch : Text → ℕ → W → Result Fault BreakerSnapshot × W
  pub breaker_record_failure : Text → ℕ → W → Result Fault BreakerSnapshot × W
  pub breaker_record_success : Text → W → Result Fault BreakerSnapshot × W
  pub budget_acquire : Text → Text → W → Result Fault LimitSnapshot × W
  pub budget_release : Text → W → Result Fault (Unit {0}) × W
  pub append : Fields → W → Result Fault (Unit {0}) × W
  pub target : Fields → W → Result Fault Value × W

abbrev pub Action : Type 0 → Type 0 → Type 0
Action W A = Frame W → Result Fault A × Frame W

module _ {W : Type 0} where
  unfoldable pub go_on :
      {A B : Type 0} → Result Fault A × Frame W → (A → Action W B) → Result Fault B × Frame W
  go_on (err fault, f) next = (err fault, f)
  go_on (ok a, f) next = next a f

  infixl 5 ◌>>=◌ ◌>>◌
  -- An exception ends the sequence, and keeps the frame that it has reached.
  abbrev pub ◌>>=◌ : {A B : Type 0} → Action W A → (A → Action W B) → Action W B
  ◌>>=◌ m next f = go_on (m f) next

  abbrev pub ◌>>◌ : {B : Type 0} → Action W (Unit {0}) → Action W B → Action W B
  m >> k = m >>= λ done. k

  abbrev pub give : {A : Type 0} → A → Action W A
  give a f = (ok a, f)

  abbrev pub raise : {A : Type 0} → Fault → Action W A
  raise fault f = (err fault, f)

  abbrev pub lift : {A : Type 0} → Result Fault A → Action W A
  lift r f = (r, f)

  unfoldable pub require : Bool → Fault → Action W (Unit {0})
  require true fault f = (ok tt, f)
  require false fault f = (err fault, f)

  abbrev pub modify : (Frame W → Frame W) → Action W (Unit {0})
  modify change f = (ok tt, change f)

  abbrev pub note : Event → Action W (Unit {0})
  note e f = (ok tt, record f { events = e ∷ f.events })

  abbrev pub in_frame : {A : Type 0} → Frame W → Result Fault A × W → Result Fault A × Frame W
  in_frame f (r, w) = (r, record f { world = w })

  -- A call of a component.
  abbrev pub call : {A : Type 0} → (W → Result Fault A × W) → Action W A
  call service f = in_frame f (service f.world)

  unfoldable pub when : Bool → Action W (Unit {0}) → Action W (Unit {0})
  when test m f = if test then m f else (ok tt, f)
