-- ===== src/Enums.antt =====
-- hlinor_registry/enums.py: the results and reason codes of a decision.

pub data DecisionResult : Type 0 where
  allowed denied : DecisionResult

pub data ReasonCode : Type 0 where
  explicitly_allowed allowed_not_blocklisted action_blocklisted : ReasonCode
  action_not_allowlisted unknown_agent policy_signal_missing : ReasonCode
  approval_required evidence_required failure_threshold_reached : ReasonCode
  bundle_integrity_failed signature_invalid policy_evaluation_error : ReasonCode
