-- ===== src/RuntimeBinding/Signals.antt =====
-- The first part of `BoundTool.invoke` in hlinor_registry/runtime_binding.py: the arguments, the
-- resource, and the verified facts that become signals of the request. The text of an exception of
-- this part is its code.
use hlinor_agent_registry.Prelude.{
  Bool, true, false, not, ◌&&◌, ◌||◌, Option, none, some, List, [], ◌∷◌, ◌++◌, if◌then◌else◌, any,
  is_empty, Text, codes, is_blank, Value, bool, str, obj, Fields, end, field, has_field,
}
use hlinor_agent_registry.ActionRequest.{optional_value}
use hlinor_agent_registry.Approval.{VerifiedApproval}
use hlinor_agent_registry.Delegation.{VerifiedDelegation}
use hlinor_agent_registry.ExecutionScope.{ExecutionScope, as_policy_signal}
use hlinor_agent_registry.Fnmatch.{fnmatchcase}
use hlinor_agent_registry.Tokens.{set_field}
use hlinor_agent_registry.RuntimeBinding.Frame.{
  Fault, trust_error, BoundTool, DelegationInput, Invocation, Expected, Services, Action, ◌>>=◌,
  ◌>>◌, give, raise, lift, require, modify, call, when,
}

abbrev pub coded : Text → Text → Fault
coded type_name code = trust_error (record { type_name = type_name; code = code; message = code })

abbrev pub runtime_binding_error : Text → Fault
runtime_binding_error code = coded (codes "RuntimeBindingError") code

abbrev pub delegation_error : Text → Fault
delegation_error code = coded (codes "DelegationVerificationError") code

abbrev pub approval_error : Text → Fault
approval_error code = coded (codes "ApprovalVerificationError") code

abbrev pub is_given : {A : Type 0} → Option A → Bool
is_given none = false
is_given (some a) = true

abbrev pub project_of : Option ExecutionScope → Option Text
project_of none = none
project_of (some s) = some s.project_id

abbrev pub workspace_of : Option ExecutionScope → Option Text
workspace_of none = none
workspace_of (some s) = some s.workspace_id

unfoldable pub expected_of : BoundTool → Invocation → Expected
expected_of tool inv = record {
  agent_id = inv.agent_id;
  action = tool.action;
  tool_id = tool.tool_id;
  resource = inv.resource;
  session_id = inv.session_id;
  tenant_id = inv.tenant_id;
  project_id = project_of inv.execution_scope;
  workspace_id = workspace_of inv.execution_scope;
}

-- `VerifiedDelegation.as_policy_signal`
unfoldable pub delegation_signal : VerifiedDelegation → Fields
delegation_signal d = field (codes "delegation_id") (str d.delegation_id) (
    field (codes "issuer_agent_id") (str d.issuer_agent_id) (
      field (codes "subject_agent_id") (str d.subject_agent_id) (
        field (codes "audience") (str d.audience) (
          field (codes "deployment_identity") (optional_value d.deployment_identity) (
            field (codes "workload_identity") (optional_value d.workload_identity)
              (field (codes "verified") (bool true) end))))))

abbrev granted_for : Text → Value → Text
granted_for action (str resource) = action ++ b':' ∷ resource
granted_for action _ = action

-- `VerifiedApproval.as_policy_signal`; a verified resource is a text or None.
unfoldable pub approval_signal : VerifiedApproval → Fields
approval_signal a = field (codes "token_id") (str a.token_id) (
    field (codes "approver_role") a.approver_role (
      field (codes "granted_for") (str (granted_for a.action a.resource)) (
        field (codes "granted_at") (str a.issued_at) (
          field (codes "project_id") a.project_id (
            field (codes "workspace_id") a.workspace_id
              (field (codes "verified") (bool true) end))))))

abbrev pub in_patterns : List Text → Text → Bool
in_patterns patterns resource = any (λ (p : Text). fnmatchcase resource p) patterns

module _ {W : Type 0} (services : Services W) (tool : BoundTool) (inv : Invocation) where
  abbrev pub check_pattern : Option Text → Action W (Unit {0})
  check_pattern none = raise (runtime_binding_error (codes "RESOURCE_REQUIRED"))
  check_pattern (some resource) = do
    require (not (is_blank resource)) (runtime_binding_error (codes "RESOURCE_REQUIRED"))
    require (in_patterns tool.resource_patterns resource)
        (runtime_binding_error (codes "RESOURCE_OUT_OF_SCOPE"))

  -- `_validate_resource`
  unfoldable pub validate_resource : Action W (Unit {0})
  validate_resource = when (not (is_empty tool.resource_patterns)) (check_pattern inv.resource)

  unfoldable pub normalized_arguments : Action W Fields
  unfolding validate_resource
  normalized_arguments = do
    normalized ← lift services.normalize
    validate_resource
    digest ← lift (services.digest (obj normalized))
    modify (λ f. record f { arguments_digest = some digest })
    give normalized

  abbrev with_scope : Option ExecutionScope → Fields → Fields
  with_scope none signals = signals
  with_scope (some s) signals =
      set_field (codes "execution_scope") (obj (as_policy_signal s)) signals

  unfoldable pub scope_signals : Action W Fields
  scope_signals = do
    require (not (inv.require_execution_scope && not (is_given inv.execution_scope)))
        (runtime_binding_error (codes "EXECUTION_SCOPE_REQUIRED"))
    require (not (has_field (codes "execution_scope") inv.signals))
        (runtime_binding_error (codes "EXECUTION_SCOPE_INPUT_AMBIGUOUS"))
    give (with_scope inv.execution_scope inv.signals)

  abbrev pub has_identities : DelegationInput → Bool
  has_identities d =
      is_given d.sender_deployment_identity
      && is_given d.sender_workload_identity
      && is_given d.receiver_deployment_identity
      && is_given d.receiver_workload_identity

  abbrev pub delegation_verified_by : DelegationInput → Text → Action W VerifiedDelegation
  delegation_verified_by d audience =
      if d.has_transport
      then (require (has_identities d)
            (delegation_error (codes "DELEGATION_TRANSPORT_IDENTITY_REQUIRED"))
          >> call (services.verify_transport audience d (expected_of tool inv)))
      else call (services.verify_chain audience (expected_of tool inv))

  abbrev pub for_audience : DelegationInput → Option Text → Action W VerifiedDelegation
  for_audience d none = raise (delegation_error (codes "DELEGATION_AUDIENCE_REQUIRED"))
  for_audience d (some audience) = delegation_verified_by d audience

  abbrev pub accept_delegation : DelegationInput → Fields → Action W Fields
  accept_delegation d signals = do
    require d.has_trusted_keys (delegation_error (codes "DELEGATION_TRUST_ROOT_REQUIRED"))
    verified ← for_audience d d.audience
    modify (λ f. record f { verified_delegation = some verified })
    require (not (has_field (codes "delegation") signals))
        (delegation_error (codes "DELEGATION_INPUT_AMBIGUOUS"))
    give (set_field (codes "delegation") (obj (delegation_signal verified)) signals)

  unfoldable pub delegation_signals : Fields → Action W Fields
  unfolding delegation_signal expected_of
  delegation_signals signals =
      require (not (inv.delegation.has_chain && inv.delegation.has_transport))
        (delegation_error (codes "DELEGATION_INPUT_AMBIGUOUS"))
      >> (if inv.delegation.has_chain || inv.delegation.has_transport
          then accept_delegation inv.delegation signals
          else give signals)

  abbrev digest_or_empty : Option Text → Text
  digest_or_empty none = []
  digest_or_empty (some d) = d

  abbrev pub accept_approval : Fields → Action W Fields
  accept_approval signals = do
    require (not (has_field (codes "approval") signals))
        (approval_error (codes "APPROVAL_INPUT_AMBIGUOUS"))
    require inv.has_approval_keys (approval_error (codes "APPROVAL_TRUST_ROOT_REQUIRED"))
    digest ← λ f. give (digest_or_empty f.arguments_digest) f
    verified ← call (services.verify_approval (expected_of tool inv) digest)
    modify (λ f. record f { verified_approval = some verified })
    give (set_field (codes "approval") (obj (approval_signal verified)) signals)

  unfoldable pub approval_signals : Fields → Action W Fields
  unfolding approval_signal expected_of
  approval_signals signals =
      if inv.has_approval_token then accept_approval signals else give signals
