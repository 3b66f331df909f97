-- ===== src/PolicyChecker/Tests.antt =====
-- Decisions on concrete requests.
use hlinor_agent_registry.Prelude.{
  ◌≡◌, refl, ◌↔◌, Bool, true, false, Option, none, some, List, [], ◌∷◌, ◌++◌, map, Text, codes,
  lookup, Result, ok, err,
}
use hlinor_agent_registry.Enums.{denied, explicitly_allowed, failure_threshold_reached}
use hlinor_agent_registry.Samples.{
  same_case, any_instant, some_digest, issued, send_request, failing_request, threshold_rule,
  evidence_rule, mailer, snapshot_of_mailer,
}
use hlinor_agent_registry.Policies.Rule.{PolicyRule, refused, count_reached, check}
use hlinor_agent_registry.Decision.{PolicyDecision}
use hlinor_agent_registry.PolicyChecker.{
  AgentConfig, evaluate, evaluate_agent, apply_rules, applicable_rules, allow_match, allow_reason,
  or_evaluation_error,
}
use hlinor_agent_registry.PolicyChecker.Outcomes.{Allows, Permitted, evaluate-allowed_iff}
use hlinor_agent_registry.PolicyChecker.Narrowing.{
  with_rules, evaluate_agent-fewer_rules, apply_rules-refused,
}

evaluate-allowed_iff_example :
    Allows same_case any_instant some_digest 103 issued explicitly_allowed
      (evaluate same_case any_instant some_digest 103 issued snapshot_of_mailer send_request)
    ↔ ((agent : AgentConfig) × (lookup send_request.agent_id snapshot_of_mailer.agents ≡ some agent)
        × (Permitted same_case any_instant some_digest 103 issued send_request agent)
        × (explicitly_allowed ≡ allow_reason (allow_match same_case send_request agent)))
evaluate-allowed_iff_example =
    evaluate-allowed_iff same_case any_instant some_digest 103 issued snapshot_of_mailer
      send_request explicitly_allowed

evaluate_agent-fewer_rules_example :
    Allows same_case any_instant some_digest 103 issued explicitly_allowed (
      evaluate_agent same_case any_instant some_digest 103 issued snapshot_of_mailer send_request
        (with_rules mailer ([] ++ [])))
unfolding evaluate_agent hlinor_agent_registry.Matching.find_block_match
    hlinor_agent_registry.Matching.find_match hlinor_agent_registry.Prelude.get_value
    hlinor_agent_registry.Prelude.text_eq hlinor_agent_registry.Prelude.items
    hlinor_agent_registry.Matching.matches hlinor_agent_registry.Fnmatch.fnmatchcase
    hlinor_agent_registry.Matching.request_key hlinor_agent_registry.Prelude.is_blank
    applicable_rules hlinor_agent_registry.Policies.Rule.applies_to check
    hlinor_agent_registry.Policies.Rule.check_failure_threshold
    hlinor_agent_registry.Policies.Rule.require_field
    hlinor_agent_registry.Policies.Rule.observed_count hlinor_agent_registry.Policies.Rule.reaches
    hlinor_agent_registry.Decision.allow hlinor_agent_registry.Decision.deny
    hlinor_agent_registry.Fnmatch.accepts hlinor_agent_registry.Fnmatch.any_suffix
    hlinor_agent_registry.Fnmatch.body_members hlinor_agent_registry.Fnmatch.bracket_body
    hlinor_agent_registry.Fnmatch.first_member hlinor_agent_registry.Fnmatch.glob
    hlinor_agent_registry.Fnmatch.members hlinor_agent_registry.Fnmatch.next_token
    hlinor_agent_registry.Fnmatch.tokens hlinor_agent_registry.Fnmatch.translate
    hlinor_agent_registry.Fnmatch.until_close hlinor_agent_registry.Matching.first_match
    hlinor_agent_registry.Policies.Clock.drop_last hlinor_agent_registry.Policies.Clock.ends_in_z
    hlinor_agent_registry.Policies.Clock.freshness_error
    hlinor_agent_registry.Policies.Clock.is_older
    hlinor_agent_registry.Policies.Clock.parse_timestamp
    hlinor_agent_registry.Policies.Clock.with_offset hlinor_agent_registry.Policies.Rule.age_error
    hlinor_agent_registry.Policies.Rule.binding_error
    hlinor_agent_registry.Policies.Rule.bound_approval
    hlinor_agent_registry.Policies.Rule.check_approval
    hlinor_agent_registry.Policies.Rule.check_evidence hlinor_agent_registry.Policies.Rule.claims
    hlinor_agent_registry.Policies.Rule.count_outcome
    hlinor_agent_registry.Policies.Rule.evidence_types hlinor_agent_registry.Policies.Rule.handle
    hlinor_agent_registry.Policies.Rule.is_fresh_claim
    hlinor_agent_registry.Policies.Rule.names_resource hlinor_agent_registry.Policies.Rule.of_type
    hlinor_agent_registry.Policies.Rule.require_bool hlinor_agent_registry.Policies.Rule.role_ok
    hlinor_agent_registry.Policies.Rule.to_float hlinor_agent_registry.Policies.Rule.type_error?
    hlinor_agent_registry.Policies.Rule.types_error hlinor_agent_registry.Policies.Rule.window_error
    apply_rules hlinor_agent_registry.PolicyChecker.decide
    hlinor_agent_registry.PolicyChecker.decision_provenance
    hlinor_agent_registry.PolicyChecker.first_refusal hlinor_agent_registry.PolicyChecker.permit
    hlinor_agent_registry.Prelude.field_count hlinor_agent_registry.Prelude.float_eq
    hlinor_agent_registry.Prelude.frozen_eq hlinor_agent_registry.Prelude.get_field
    hlinor_agent_registry.Prelude.number hlinor_agent_registry.Prelude.number_eq
    hlinor_agent_registry.Prelude.is_space hlinor_agent_registry.Prelude.lstrip
    hlinor_agent_registry.Prelude.rstrip hlinor_agent_registry.Prelude.strip
evaluate_agent-fewer_rules_example =
    evaluate_agent-fewer_rules same_case any_instant some_digest 103 issued snapshot_of_mailer
      send_request mailer explicitly_allowed [] (threshold_rule ∷ []) [] (_, refl, refl, refl)

-- An agent with two policies that apply.
abbrev two_rules : AgentConfig
two_rules = with_rules mailer (threshold_rule ∷ evidence_rule ∷ [])

apply_rules-refused_example :
    (d : PolicyDecision) × (apply_rules same_case any_instant some_digest 103 issued
        snapshot_of_mailer failing_request two_rules
        (some (codes "send:*"))
      ≡ ok d)
    × (d.result ≡ denied)
    × (d.reason_code ≡ or_evaluation_error (some failure_threshold_reached))
    × (d.policy_detail ≡ count_reached)
    × (d.matched_policy_ids
        ≡ map (λ (r : PolicyRule). r.policy_id) ([] ++ threshold_rule ∷ evidence_rule ∷ []))
unfolding applicable_rules hlinor_agent_registry.Policies.Rule.applies_to
    hlinor_agent_registry.Matching.find_match hlinor_agent_registry.Prelude.items
    hlinor_agent_registry.Matching.matches hlinor_agent_registry.Fnmatch.fnmatchcase
    hlinor_agent_registry.Matching.request_key hlinor_agent_registry.Prelude.is_blank check
    hlinor_agent_registry.Prelude.get_value hlinor_agent_registry.Prelude.text_eq
    hlinor_agent_registry.Policies.Rule.check_failure_threshold
    hlinor_agent_registry.Policies.Rule.require_field
    hlinor_agent_registry.Policies.Rule.observed_count hlinor_agent_registry.Policies.Rule.reaches
apply_rules-refused_example =
    apply_rules-refused same_case any_instant some_digest 103 issued snapshot_of_mailer
      failing_request two_rules (some (codes "send:*")) [] threshold_rule (evidence_rule ∷ [])
      (refused threshold_rule failure_threshold_reached count_reached) refl tt refl refl
