-- ===== src/PolicyChecker.antt =====
-- hlinor_registry/policy_checker.py: the evaluation of one request against the loaded agents, once
-- `_assert_runtime_trust` and the checks of the clock have passed.
pub mod Outcomes
pub mod Narrowing
mod Tests
use hlinor_agent_registry.Prelude.{
  ℕ, Bool, true, false, not, ◌&&◌, ◌||◌, Option, none, some, List, [], ◌∷◌, map, if◌then◌else◌,
  keep, Text, codes, Value, arr, nil, Fields, get_value, lookup, Result, ok, err, ◌>>=◌,
}
use hlinor_agent_registry.Enums.{
  ReasonCode, explicitly_allowed, allowed_not_blocklisted, action_blocklisted,
  action_not_allowlisted, unknown_agent, policy_evaluation_error,
}
use hlinor_agent_registry.ActionRequest.{ActionRequest}
use hlinor_agent_registry.Matching.{request_key, find_match, find_block_match}
use hlinor_agent_registry.Policies.Clock.{Stamp}
use hlinor_agent_registry.Policies.Rule.{
  PolicyRule, PolicyOutcome, Detail, silent, HandlerError, check, applies_to,
}
use hlinor_agent_registry.Decision.{
  Mode, strict, permissive, VerifiedSignature, Provenance, PolicyDecision, Issue, deny, allow,
}

-- One entry of `self.agents`.
pub record AgentConfig : Type 0 where
  pub config : Fields
  pub enforcement_mode : Mode
  pub source_path : Value
  pub digest : Value
  pub rules : List PolicyRule
  pub declarative_policy_ids : List Text

-- The verified snapshot that the checker serves.
pub record Snapshot : Type 0 where
  pub agents : List (Text × AgentConfig)
  pub bundle_digest : Text
  pub schema_version : Text
  pub compiler_version : Text
  pub bundle_revision : ℕ
  pub policy_revision : Text
  pub environment : Text
  pub verified_signature : Option VerifiedSignature

abbrev or_text : Option Text → Text → Text
or_text none default = default
or_text (some s) default = s

unfoldable pub decision_provenance :
    (ActionRequest → Text)
    → Snapshot
    → ActionRequest
    → Mode
    → Option Text
    → List Text
    → Detail
    → Provenance
decision_provenance request_digest snapshot request mode pattern policy_ids detail = record {
  request_id = request.request_id;
  bundle_digest = snapshot.bundle_digest;
  request_digest = request_digest request;
  matched_pattern = pattern;
  matched_policy_ids = policy_ids;
  policy_detail = detail;
  enforcement_mode = mode;
  environment = or_text request.environment snapshot.environment;
  actor_id = request.actor_id;
  bundle_schema_version = snapshot.schema_version;
  compiler_version = snapshot.compiler_version;
  bundle_revision = snapshot.bundle_revision;
  policy_revision = snapshot.policy_revision;
  signature = snapshot.verified_signature;
}

-- `agent_config["data"].get(field) or []`, for a list or null, as the loader has checked.
abbrev pub action_list : Text → Fields → Value
action_list name config = elim (get_value name config) [ arr entries ↦ arr entries | _ ↦ arr nil ]

abbrev pub or_evaluation_error : Option ReasonCode → ReasonCode
or_evaluation_error none = policy_evaluation_error
or_evaluation_error (some code) = code

-- The reason that an allowance records.
abbrev pub allow_reason : Option Text → ReasonCode
allow_reason none = allowed_not_blocklisted
allow_reason (some pattern) = explicitly_allowed

-- `casefold`, `fromisoformat` and the digest of a request are library functions; `now` is what the
-- clock returned.
module _ (casefold : Text → Text) where
  unfoldable pub applicable_rules : AgentConfig → ActionRequest → List PolicyRule
  applicable_rules agent request =
      keep (λ rule. applies_to casefold rule (request_key request.action request.resource))
        agent.rules

  abbrev pub allow_match : ActionRequest → AgentConfig → Option Text
  allow_match request agent =
      find_match casefold (action_list (codes "allowed_actions") agent.config)
        (request_key request.action request.resource) false

  abbrev pub block_match : ActionRequest → AgentConfig → Option Text
  block_match request agent =
      find_block_match casefold (action_list (codes "blocked_actions") agent.config) request.action
        (request_key request.action request.resource)

module _ (casefold : Text → Text) (fromisoformat : Text → Option Stamp) (now : ℕ) where
  -- The outcome of the first rule that refuses.
  unfoldable pub first_refusal :
      ActionRequest → List PolicyRule → Result HandlerError (Option PolicyOutcome)
  first_refusal request [] = ok none
  first_refusal request (rule ∷ rest) = do
    outcome ← check casefold fromisoformat now rule request
    let later = first_refusal request rest
    if outcome.satisfied then later else ok (some outcome)

module _ (request_digest : ActionRequest → Text) (issue : Issue) where
  abbrev pub denial :
      Snapshot
      → ActionRequest
      → Mode
      → ReasonCode
      → Option Text
      → Result HandlerError PolicyDecision
  denial snapshot request mode code pattern = ok (
      deny issue request.agent_id request.action code
        (decision_provenance request_digest snapshot request mode pattern [] silent))

  -- The decision after the loop over the rules, of which all that apply are recorded.
  unfoldable pub decide :
      Snapshot
      → ActionRequest
      → Mode
      → Option Text
      → List PolicyRule
      → Option PolicyOutcome
      → PolicyDecision
  decide snapshot request mode allowed_by applicable (some outcome) =
      deny issue request.agent_id request.action (or_evaluation_error outcome.reason_code) (
        decision_provenance request_digest snapshot request mode allowed_by
          (map (λ rule. rule.policy_id) applicable) outcome.detail)
  decide snapshot request mode allowed_by applicable none =
      allow issue request.agent_id request.action (allow_reason allowed_by) (
        decision_provenance request_digest snapshot request mode allowed_by
          (map (λ rule. rule.policy_id) applicable) silent)

module _ (casefold : Text → Text) (fromisoformat : Text → Option Stamp)
    (request_digest : ActionRequest → Text) (now : ℕ) (issue : Issue) where
  -- The typed policies, on an action that the lists permit.
  unfoldable pub apply_rules :
      Snapshot → ActionRequest → AgentConfig → Option Text → Result HandlerError PolicyDecision
  unfolding first_refusal decide
  apply_rules snapshot request agent allowed_by = do
    let applicable = applicable_rules casefold agent request
    refusal ← first_refusal casefold fromisoformat now request applicable
    ok (
        decide request_digest issue snapshot request agent.enforcement_mode allowed_by applicable
          refusal)

  -- The allow list, which strict mode demands a match of, and then the policies.
  unfoldable pub permit :
      Snapshot
      → ActionRequest
      → AgentConfig
      → Mode
      → Option Text
      → Result HandlerError PolicyDecision
  unfolding apply_rules
  permit snapshot request agent strict none =
      denial request_digest issue snapshot request agent.enforcement_mode action_not_allowlisted
        none
  permit snapshot request agent _ allowed_by = apply_rules snapshot request agent allowed_by

  -- The lists and the policies of a known agent.
  unfoldable pub evaluate_agent :
      Snapshot → ActionRequest → AgentConfig → Result HandlerError PolicyDecision
  unfolding permit
  evaluate_agent snapshot request agent = elim (block_match casefold request agent) [
    | some pattern ↦
        denial request_digest issue snapshot request agent.enforcement_mode action_blocklisted
          (some pattern)
    | none ↦
        permit snapshot request agent agent.enforcement_mode (allow_match casefold request agent)
  ]

  unfoldable pub evaluate : Snapshot → ActionRequest → Result HandlerError PolicyDecision
  unfolding evaluate_agent
  evaluate snapshot request = elim (lookup request.agent_id snapshot.agents) [
    | none ↦ denial request_digest issue snapshot request strict unknown_agent none
    | some agent ↦ evaluate_agent snapshot request agent
  ]
