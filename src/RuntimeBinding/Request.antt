-- ===== src/RuntimeBinding/Request.antt =====
-- The request of an invocation, and `GovernanceGate.authorize` of hlinor_registry/integrations/_gate.py,
-- as `BoundTool.invoke` uses it: with a request factory, a checker and a decision sink.
use hlinor_agent_registry.Prelude.{
  Bool, true, false, not, Option, none, some, [], Text, codes, text_eq, null, str, Fields, end,
  Result, ok, err,
}
use hlinor_agent_registry.ActionRequest.{ActionRequest, RequestError, post_init}
use hlinor_agent_registry.Approval.{VerifiedApproval}
use hlinor_agent_registry.Decision.{PolicyDecision}
use hlinor_agent_registry.Enums.{DecisionResult, allowed, denied}
use hlinor_agent_registry.RuntimeBinding.Frame.{
  Fault, denied_error, other_error, BoundTool, Invocation, authorized, Frame, Services, Action,
  ◌>>=◌, ◌>>◌, give, lift, require, modify, note, call,
}
use hlinor_agent_registry.RuntimeBinding.Signals.{approval_error, project_of, workspace_of}

abbrev request_value_error : Text → Fault
request_value_error message =
    other_error (record { type_name = codes "ValueError"; code = []; message = message })

abbrev pub is_denied : DecisionResult → Bool
is_denied denied = true
is_denied allowed = false

-- `GovernanceDeniedError(decision)`
abbrev pub governance_denied : PolicyDecision → Fault
governance_denied d =
    denied_error
      (record { type_name = codes "GovernanceDeniedError"; code = []; message = d.decision_id }) d

abbrev token_id_of : Option VerifiedApproval → Option Text
token_id_of none = none
token_id_of (some a) = some a.token_id

-- The approval's digest, where it has one, is that of the request.
abbrev pub approves : Option VerifiedApproval → Text → Bool
approves none digest = true
approves (some a) digest = elim a.request_digest [
  | null ↦ true
  | str d ↦ text_eq d digest
  | _ ↦ false
]

module _ {W : Type 0} (services : Services W) (tool : BoundTool) (inv : Invocation) where
  abbrev drafted : Text → Text → Fields → Frame W → ActionRequest
  drafted environment requested_at signals f = record {
    agent_id = inv.agent_id;
    action = tool.action;
    request_id = inv.invocation_id;
    actor_id = inv.actor_id;
    tool_id = some tool.tool_id;
    resource = inv.resource;
    arguments_digest = f.arguments_digest;
    attributes = end;
    signals = signals;
    approval_id = token_id_of f.verified_approval;
    session_id = inv.session_id;
    tenant_id = inv.tenant_id;
    project_id = project_of inv.execution_scope;
    workspace_id = workspace_of inv.execution_scope;
    environment = some environment;
    requested_at = requested_at;
  }

  abbrev constructed : Result RequestError ActionRequest → Result Fault ActionRequest
  constructed (ok r) = ok r
  constructed (err problem) = err (request_value_error (codes "ActionRequest"))

  -- `request_factory`
  unfoldable pub request_factory : Text → Fields → Action W ActionRequest
  unfolding post_init
  request_factory environment signals = do
    request ← λ f.
        lift (constructed (post_init (drafted environment (services.stamp f.world).1 signals f))) f
    modify (λ f. record f { request = some request })
    allowed_here ← λ f. give (approves f.verified_approval (services.request_digest request)) f
    require allowed_here (approval_error (codes "APPROVAL_REQUEST_MISMATCH"))
    give request

  -- `authorize`; the request names the agent, the action and the tool of the gate.
  unfoldable pub authorize : Fields → Action W PolicyDecision
  unfolding request_factory
  authorize signals = do
    environment ← call services.reload
    request ← request_factory environment signals
    decision ← call (services.check_policy request)
    call (services.emit_decision decision)
    require (not (is_denied decision.result)) (governance_denied decision)
    note (authorized decision)
    give decision
