-- ===== src/Policies/Tests.antt =====
-- Runs of the handlers and of the loader.
use hlinor_agent_registry.Prelude.{
  ℕ, ◌+◌, ◌*◌, ◌≤◌, ◌<◌, ◌≡◌, ◌≢◌, refl, ap, ◌∙◌, ◌↔◌, inl, inr, Bool, true, false, Option, none,
  some, List, [], ◌∷◌, ◌++◌, All, In, million, Text, codes, text_eq, Value, null, int, str, arr,
  obj, pos, Items, nil, cons, items, entries, Fields, field, end, get_value, get_field, lookup,
  assign, micros, Result, ok, err,
}
use hlinor_agent_registry.Samples.{
  same_case, any_instant, send_request, threshold_rule, approval_rule, evidence_rule,
  null_evidence_rule, evidence_types_of, consent, threshold_config, threshold_entry,
  compiled_policies,
}
use hlinor_agent_registry.Policies.Clock.{
  allowed_clock_skew, freshness_error, freshness_error-none_iff,
}
use hlinor_agent_registry.Policies.Rule.{
  PolicyRule, is_unset, passed, require_bool, requires_evidence, check_approval, check_evidence,
  check_failure_threshold,
}
use hlinor_agent_registry.Policies.Definition.{
  policy_definition_errors, required_errors, required_spec_fields, spec_field_errors,
}
use hlinor_agent_registry.Policies.Loading.{load_policy_rules, typed_rule}
use hlinor_agent_registry.Policies.Handlers.{
  RoleHolds, BindingHolds, WindowHolds, check_approval-passed_iff,
}
use hlinor_agent_registry.Policies.Evidence.{AllDischarged, check_evidence-passed}
use hlinor_agent_registry.Policies.Loader.{
  Compiled, HasRule, IsTyped, load_policy_rules-Compiled, load_policy_rules-HasRule,
}
use hlinor_agent_registry.Policies.NullTypes.{null_evidence_types-unenforced}

abbrev approval : Fields
approval = field (codes "approver_role") (str (codes "lead")) (
    field (codes "granted_for") (str (codes "send:email:*"))
      (field (codes "granted_at") (str (codes "t")) end))

freshness_error-none_iff_example :
    (freshness_error 100 (micros (pos 5)) 103 ≡ none)
    ↔ ((100 ≤ 103 + allowed_clock_skew) × (103 ≤ 100 + 5))
freshness_error-none_iff_example = freshness_error-none_iff 100 5 103

check_approval-passed_iff_example :
    (check_approval same_case any_instant 103 approval_rule send_request (obj approval)
      ≡ ok (passed approval_rule))
    ↔ (RoleHolds approval (some (codes "lead"))
        × BindingHolds send_request approval true
        × WindowHolds any_instant 103 (get_value (codes "granted_at") approval) (some 60))
unfolding get_value text_eq require_bool
check_approval-passed_iff_example =
    check_approval-passed_iff same_case any_instant 103 approval_rule send_request approval
      (some (codes "lead")) true (some 60) refl refl refl

check_evidence-passed_example :
    AllDischarged same_case any_instant 103 true send_request.resource none
      (items consent)
      (items evidence_types_of)
    × (true ≡ true → is_unset send_request.resource ≡ false)
unfolding require_bool get_field text_eq get_value check_evidence
    hlinor_agent_registry.Prelude.is_blank hlinor_agent_registry.Policies.Rule.evidence_types items
    hlinor_agent_registry.Policies.Rule.type_error? hlinor_agent_registry.Policies.Rule.claims
    hlinor_agent_registry.Policies.Rule.of_type hlinor_agent_registry.Prelude.frozen_eq
    hlinor_agent_registry.Policies.Rule.names_resource
check_evidence-passed_example =
    check_evidence-passed same_case any_instant 103 evidence_rule send_request consent
      evidence_types_of true none refl refl refl refl

abbrev null_evidence_config : Fields
null_evidence_config = field (codes "kind") (str (codes "requires_evidence")) (
    field (codes "trigger") (arr (cons (str (codes "send:*")) nil))
      (field (codes "requires") (obj null_evidence_rule.spec) end))

null_evidence_types-unenforced_example :
    (policy_definition_errors null_evidence_config ≡ [])
    × (rule : PolicyRule) × (typed_rule (codes "consent") null_evidence_config ≡ ok rule)
    × (check_evidence same_case any_instant 103 rule send_request (arr nil) ≡ ok (passed rule))
unfolding get_field get_value text_eq hlinor_agent_registry.Policies.Definition.max_age_ok
    hlinor_agent_registry.Policies.Definition.boolean_ok hlinor_agent_registry.Prelude.is_blank
    hlinor_agent_registry.Policies.Definition.trigger_errors items
    hlinor_agent_registry.Matching.pattern_errors hlinor_agent_registry.Prelude.contains
    hlinor_agent_registry.Policies.Definition.entry_errors
null_evidence_types-unenforced_example =
    null_evidence_types-unenforced same_case any_instant 103 (codes "consent") null_evidence_config
      null_evidence_rule.spec send_request nil refl refl refl refl refl refl refl

abbrev threshold_rules : List (Text × PolicyRule)
threshold_rules = (codes "stop-after-four", threshold_rule) ∷ []

loads_threshold_rules : load_policy_rules (obj compiled_policies) ≡ ok threshold_rules
unfolding load_policy_rules entries hlinor_agent_registry.Policies.Loading.load_entry
    hlinor_agent_registry.Prelude.is_blank get_value text_eq
    hlinor_agent_registry.Policies.Loading.by_kind hlinor_agent_registry.Policies.Loading.typed_rule
    policy_definition_errors hlinor_agent_registry.Policies.Definition.kind_of items
    hlinor_agent_registry.Matching.pattern_errors hlinor_agent_registry.Prelude.contains
    hlinor_agent_registry.Prelude.has_field hlinor_agent_registry.Policies.Definition.section_of
    hlinor_agent_registry.Policies.Definition.max_age_ok
    hlinor_agent_registry.Policies.Definition.counter_ok
    hlinor_agent_registry.Policies.Definition.boolean_errors
    hlinor_agent_registry.Policies.Definition.boolean_ok
    hlinor_agent_registry.Policies.Definition.entry_errors
    hlinor_agent_registry.Policies.Definition.evidence_errors
    hlinor_agent_registry.Policies.Definition.evidence_types_ok
    hlinor_agent_registry.Policies.Definition.is_finite_positive
    hlinor_agent_registry.Policies.Definition.kind_errors
    hlinor_agent_registry.Policies.Definition.kind_of_text
    hlinor_agent_registry.Policies.Definition.limit_ok
    hlinor_agent_registry.Policies.Definition.section_errors
    hlinor_agent_registry.Policies.Definition.threshold_errors
    hlinor_agent_registry.Policies.Definition.trigger_entries
    hlinor_agent_registry.Policies.Definition.trigger_errors
    hlinor_agent_registry.Matching.unsupported_errors required_errors spec_field_errors
    hlinor_agent_registry.Policies.Loading.as_list hlinor_agent_registry.Policies.Loading.as_mapping
    hlinor_agent_registry.Policies.Loading.load_entries
    hlinor_agent_registry.Policies.Loading.rule_of assign get_field
    hlinor_agent_registry.Prelude.is_space hlinor_agent_registry.Prelude.lstrip
    hlinor_agent_registry.Prelude.rstrip hlinor_agent_registry.Prelude.starts_with
    hlinor_agent_registry.Prelude.strip
loads_threshold_rules = refl

threshold_entry-IsTyped : IsTyped (obj threshold_entry)
unfolding get_value text_eq
threshold_entry-IsTyped entry config e f k =
    let same : threshold_entry ≡ entry = cc e in
    let g : obj threshold_config ≡ obj config = ap (get_value (codes "config")) same ∙ f in
    let h : threshold_config ≡ config = cc g in
    let l : str (codes "failure_threshold") ≡ null = ap (get_value (codes "kind")) h ∙ k in cc l

load_policy_rules-Compiled_example : All (Compiled (entries compiled_policies)) threshold_rules
load_policy_rules-Compiled_example =
    load_policy_rules-Compiled compiled_policies threshold_rules loads_threshold_rules

load_policy_rules-HasRule_example : HasRule (codes "stop-after-four") threshold_rules
unfolding entries
load_policy_rules-HasRule_example =
    load_policy_rules-HasRule compiled_policies threshold_rules (codes "stop-after-four")
      (obj threshold_entry) threshold_entry-IsTyped (inl refl) loads_threshold_rules
