-- ===== src/Decision.antt =====
-- hlinor_registry/decision.py: the immutable record of one evaluation. The identifier and the time of
-- a decision are drawn when it is made, and are arguments.
use hlinor_agent_registry.Prelude.{ℕ, Option, List, Text}
use hlinor_agent_registry.Enums.{DecisionResult, allowed, denied, ReasonCode}
use hlinor_agent_registry.Policies.Rule.{Detail}

pub data Mode : Type 0 where
  strict permissive : Mode

-- Validated signature metadata.
pub record VerifiedSignature : Type 0 where
  pub algorithm : Text
  pub key_id : Text
  pub key_fingerprint : Text
  pub issuer : Text
  pub issued_at : Text
  pub expires_at : Text

-- The keyword arguments that `_decision_provenance` collects.
pub record Provenance : Type 0 where
  pub request_id : Text
  pub bundle_digest : Text
  pub request_digest : Text
  pub matched_pattern : Option Text
  pub matched_policy_ids : List Text
  pub policy_detail : Detail
  pub enforcement_mode : Mode
  pub environment : Text
  pub actor_id : Option Text
  pub bundle_schema_version : Text
  pub compiler_version : Text
  pub bundle_revision : ℕ
  pub policy_revision : Text
  pub signature : Option VerifiedSignature

pub record PolicyDecision : Type 0 where
  pub decision_id : Text
  pub agent_id : Text
  pub action : Text
  pub result : DecisionResult
  pub reason_code : ReasonCode
  pub checked_at : Text
  pub provenance : Provenance
  pub open provenance use *

-- The fresh identifier and the clock reading of one decision.
pub record Issue : Type 0 where
  pub decision_id : Text
  pub checked_at : Text

unfoldable pub deny : Issue → Text → Text → ReasonCode → Provenance → PolicyDecision
deny issue agent_id action reason_code provenance = record {
  decision_id = issue.decision_id;
  agent_id = agent_id;
  action = action;
  result = denied;
  reason_code = reason_code;
  checked_at = issue.checked_at;
  provenance = provenance;
}

unfoldable pub allow : Issue → Text → Text → ReasonCode → Provenance → PolicyDecision
allow issue agent_id action reason_code provenance = record {
  decision_id = issue.decision_id;
  agent_id = agent_id;
  action = action;
  result = allowed;
  reason_code = reason_code;
  checked_at = issue.checked_at;
  provenance = provenance;
}
