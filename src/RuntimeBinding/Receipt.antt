-- ===== src/RuntimeBinding/Receipt.antt =====
-- `emit_receipt` of `BoundTool.invoke` in hlinor_registry/runtime_binding.py.
use hlinor_agent_registry.Prelude.{
  ℕ, true, Option, none, some, [], ◌∷◌, ◌++◌, if◌then◌else◌, pos, Text, codes, Value, null, bool,
  int, str, obj, Fields, end, field,
}
use hlinor_agent_registry.ActionRequest.{ActionRequest, optional_value}
use hlinor_agent_registry.Approval.{VerifiedApproval}
use hlinor_agent_registry.CircuitBreaker.{
  BreakerSnapshot, State, closed, opened, half_open, other_state,
}
use hlinor_agent_registry.Decision.{PolicyDecision}
use hlinor_agent_registry.Delegation.{VerifiedDelegation}
use hlinor_agent_registry.RuntimeLimits.{LimitSnapshot}
use hlinor_agent_registry.RuntimeBinding.Frame.{
  BoundTool, Invocation, recorded, Frame, Services, Action, ◌>>=◌, ◌>>◌, give, modify, note, call,
  when,
}
use hlinor_agent_registry.RuntimeBinding.Signals.{is_given, project_of, workspace_of}

-- The arguments of `emit_receipt`.
pub record ReceiptFacts : Type 0 where
  pub authorization_result : Text
  pub side_effect_state : Text
  pub phase : Text
  pub reason : Text
  pub decision : Option PolicyDecision
  pub output_digest : Option Text
  pub error_code : Option Text
  pub breaker : Option BreakerSnapshot

abbrev from : {A : Type 0} → (A → Value) → Option A → Value
from read none = null
from read (some a) = read a

abbrev or_else : Text → Option Text → Text
or_else t none = t
or_else t (some s) = s

-- `session_id or "unspecified"`
abbrev session_or : Option Text → Text
session_or none = codes "unspecified"
session_or (some []) = codes "unspecified"
session_or (some (c ∷ s)) = c ∷ s

-- `actor_id or agent_id`
abbrev actor_or : Text → Option Text → Text
actor_or agent none = agent
actor_or agent (some []) = agent
actor_or agent (some (c ∷ s)) = c ∷ s

abbrev decision_id_of : Option PolicyDecision → Text
decision_id_of none = []
decision_id_of (some d) = d.decision_id

abbrev request_id_of : Text → Option ActionRequest → Text
request_id_of id none = id
request_id_of id (some r) = r.request_id

abbrev approval_id_of : Option VerifiedApproval → Text
approval_id_of none = []
approval_id_of (some a) = a.token_id

abbrev receipt_scope : Option Text → Fields
receipt_scope none = end
receipt_scope (some r) = field (codes "resource") (str r) end

abbrev state_text : State → Text
state_text closed = codes "closed"
state_text opened = codes "open"
state_text half_open = codes "half_open"
state_text (other_state s) = s

abbrev count : ℕ → Value
count n = int (pos n)

module _ {W : Type 0} (services : Services W) (tool : BoundTool) (inv : Invocation) where
  -- The last keys of a receipt: the breaker, the delegation and the budget.
  abbrev control_fields : ReceiptFacts → Frame W → Fields
  control_fields o f =
      field (codes "failure_fingerprint")
        (if inv.has_circuit_breaker then str inv.failure_fingerprint else null)
        (field (codes "breaker_state")
          (from (λ (b : BreakerSnapshot). str (state_text b.state)) o.breaker)
          (field (codes "breaker_count")
            (from (λ (b : BreakerSnapshot). count b.current_count) o.breaker)
            (field (codes "delegation_id")
              (from (λ (d : VerifiedDelegation). str d.delegation_id) f.verified_delegation)
              (field (codes "delegation_depth")
                (from (λ (d : VerifiedDelegation). count d.delegation_depth) f.verified_delegation)
                (field (codes "budget_scope")
                  (from (λ (b : LimitSnapshot). str b.scope) f.budget_snapshot)
                  (field (codes "budget_lease_id")
                    (from (λ (b : LimitSnapshot). str b.lease_id) f.budget_snapshot)
                    (field (codes "budget_active_leases")
                      (from (λ (b : LimitSnapshot). count b.active_leases) f.budget_snapshot)
                      (field (codes "budget_rate_events")
                        (from (λ (b : LimitSnapshot). count b.rate_events) f.budget_snapshot)
                        end))))))))

  abbrev evidence_fields : ReceiptFacts → Frame W → Fields
  evidence_fields o f =
      field (codes "normalized_argument_digest") (str (or_else [] f.arguments_digest)) (
        field (codes "target_resource_scope") (obj (receipt_scope inv.resource)) (
          field (codes "approval_id_or_lease_id") (str (approval_id_of f.verified_approval)) (
            field (codes "request_id") (str (request_id_of inv.invocation_id f.request)) (
              field (codes "decision_id") (str (decision_id_of o.decision)) (
                field (codes "reason") (str o.reason) (
                  field (codes "output_digest") (optional_value o.output_digest) (
                    field (codes "error_code") (optional_value o.error_code)
                      (control_fields o f))))))))

  abbrev result_fields : ReceiptFacts → Frame W → Fields
  result_fields o f = field (codes "requested_tool_name") (str tool.tool_id) (
      field (codes "tool_id") (str tool.tool_id) (
        field (codes "authorization_result") (str o.authorization_result) (
          field (codes "side_effect_state") (str o.side_effect_state) (
            field (codes "matched_approved_binding") (bool (is_given f.verified_approval)) (
              field (codes "registry_version") (count (services.bundle_revision f.world)) (
                field (codes "policy_bundle_digest") (str (services.bundle_digest f.world)) (
                  field (codes "tool_descriptor_digest") (str tool.contract_digest)
                    (evidence_fields o f))))))))

  unfoldable pub receipt_of : ReceiptFacts → Frame W → Fields
  receipt_of o f = field (codes "schema_version") (str (codes "1.0")) (
      field (codes "receipt_id") (str (services.stamp f.world).0) (
        field (codes "check_id") (str (codes "check:" ++ inv.invocation_id)) (
          field (codes "phase") (str o.phase) (
            field (codes "session_id") (str (session_or inv.session_id)) (
              field (codes "binding_id") (str inv.effective_binding_id) (
                field (codes "timestamp") (str (services.stamp f.world).1) (
                  field (codes "actor") (str (actor_or inv.agent_id inv.actor_id)) (
                    field (codes "agent_id") (str inv.agent_id) (
                      field (codes "project_id") (optional_value (project_of inv.execution_scope)) (
                        field (codes "workspace_id")
                          (optional_value (workspace_of inv.execution_scope))
                          (result_fields o f)))))))))))

  -- The two steps of an append: the attempt is noted before the sink is called.
  abbrev pub append_to_sink : ReceiptFacts → Action W (Unit {0})
  append_to_sink o = do
    modify (λ f. record f { receipt_attempted = true })
    receipt ← λ f. give (receipt_of o f) f
    call (services.append receipt)
    note (recorded receipt)

  -- `emit_receipt`
  unfoldable pub emit_receipt : ReceiptFacts → Action W (Unit {0})
  unfolding receipt_of
  emit_receipt o = when inv.has_receipt_sink (append_to_sink o)
