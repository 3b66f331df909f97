-- ===== src/Policies/NullTypes.antt =====
-- A null `evidence_types`: accepted by the definition check, and it demands nothing.
use hlinor_agent_registry.Prelude.{
  ℕ, ◌≡◌, refl, inl, inr, Bool, is_empty, text_eq, int, float, str, obj, true, false, Option, some,
  [], arith, Text, codes, Value, null, bool, arr, Items, Fields, get_field, has_field, get_value,
  ok, Option-cases,
}
use hlinor_agent_registry.ActionRequest.{ActionRequest}
use hlinor_agent_registry.Policies.Clock.{Stamp}
use hlinor_agent_registry.Policies.Rule.{
  requires_evidence, PolicyRule, passed, require_bool, check_evidence, is_unset,
}
use hlinor_agent_registry.Policies.Definition.{
  evidence_errors, required_errors, spec_field_errors, required_spec_fields, evidence_types_ok,
  max_age_ok, boolean_ok, boolean_errors, threshold_errors, kind_of, kind_of_text, kind_errors,
  section_errors, section_of, trigger_errors, policy_definition_errors,
}
use hlinor_agent_registry.Policies.Loading.{as_list, rule_of, typed_rule}
use hlinor_agent_registry.Policies.Evidence.{null_evidence_types-passed}

module _ (spec : Fields) (e : get_field (codes "evidence_types") spec ≡ some null) where
  evidence_types-null : get_value (codes "evidence_types") spec ≡ null
  unfolding get_value
  evidence_types-null = rw (e, get_value)

  evidence_types-present : has_field (codes "evidence_types") spec ≡ true
  unfolding has_field
  evidence_types-present = rw (e, has_field)

  null-required : required_errors spec (required_spec_fields requires_evidence) ≡ []
  unfolding required_errors
  null-required = rw evidence_types-present

  null-evidence_errors : evidence_errors requires_evidence spec ≡ []
  unfolding evidence_errors evidence_types_ok
  null-evidence_errors = rw evidence_types-null

  null-spec_field_errors :
      max_age_ok spec ≡ true
      → boolean_ok spec (codes "same_resource") ≡ true
      → spec_field_errors requires_evidence spec ≡ []
  unfolding spec_field_errors boolean_errors threshold_errors
  null-spec_field_errors a b = rw (a, null-evidence_errors, b)

-- A switch that the definition check accepts is read without an exception.
require_bool-ok :
    (name : Text) (spec : Fields)
    → boolean_ok spec name ≡ true
    → (b : Bool) × (require_bool name spec ≡ ok b)
unfolding boolean_ok require_bool
require_bool-ok name spec h = elim (Option-cases (get_field name spec)) [
  | inl e ↦ (true, rw (e, require_bool))
  | inr (v, e) ↦ switch v e (rw (e, boolean_ok) at h)
]
  where
    switch :
        (v : Value)
        → get_field name spec ≡ some v
        → ◌≡◌ {A = Bool} (elim v [ bool b ↦ true | _ ↦ false ]) true
        → (b : Bool) × (require_bool name spec ≡ ok b)
    switch (bool b) e h = (b, rw (e, require_bool))
    switch v e h = cc

-- A trigger with no errors is a list.
listed_trigger :
    (v : Value) → trigger_errors v ≡ [] → (patterns : Items) × (as_list v ≡ ok patterns)
unfolding trigger_errors as_list
listed_trigger (arr patterns) h = (patterns, refl)
listed_trigger null h = cc
listed_trigger (bool b) h = cc
listed_trigger (int n) h = cc
listed_trigger (float x) h = cc
listed_trigger (str s) h = cc
listed_trigger (obj fs) h = cc

evidence_kind : kind_of (str (codes "requires_evidence")) ≡ some requires_evidence
unfolding kind_of kind_of_text text_eq
evidence_kind = refl

null-kind_errors :
    (policy spec : Fields)
    → trigger_errors (get_value (codes "trigger") policy) ≡ []
    → get_value (codes "requires") policy ≡ obj spec
    → get_field (codes "evidence_types") spec ≡ some null
    → max_age_ok spec ≡ true
    → boolean_ok spec (codes "same_resource") ≡ true
    → kind_errors requires_evidence policy ≡ []
unfolding kind_errors section_errors section_of
null-kind_errors policy spec t r e a b =
    rw (t, r, null-required spec e, null-spec_field_errors spec e a b)

null-typed_rule :
    (policy_id : Text) (policy spec : Fields) (patterns : Items)
    → get_value (codes "kind") policy ≡ str (codes "requires_evidence")
    → policy_definition_errors policy ≡ []
    → as_list (get_value (codes "trigger") policy) ≡ ok patterns
    → get_value (codes "requires") policy ≡ obj spec
    → typed_rule policy_id policy
      ≡ ok (record {
        policy_id = policy_id;
        kind = requires_evidence;
        trigger = patterns;
        spec = spec;
      })
unfolding typed_rule rule_of section_of is_empty
null-typed_rule policy_id policy spec patterns k d t r =
    rw (d, k, evidence_kind, t, r, typed_rule, rule_of) refl

-- Let a policy of the kind `requires_evidence` have a trigger without errors and a section `requires`
-- whose `evidence_types` is there and null, with `max_age_seconds` and `same_resource` each absent or
-- valid. It has no definition error, and the loader reads it as a rule, which every list of evidence,
-- the empty one included, passes on any request that names a resource.
pub null_evidence_types-unenforced :
    (casefold : Text → Text) (fromisoformat : Text → Option Stamp) (now : ℕ) (policy_id : Text)
    (policy spec : Fields) (request : ActionRequest) (signal : Items)
    → get_value (codes "kind") policy ≡ str (codes "requires_evidence")
    → trigger_errors (get_value (codes "trigger") policy) ≡ []
    → get_value (codes "requires") policy ≡ obj spec
    → get_field (codes "evidence_types") spec ≡ some null
    → max_age_ok spec ≡ true
    → boolean_ok spec (codes "same_resource") ≡ true
    → is_unset request.resource ≡ false
    → (policy_definition_errors policy ≡ [])
      × (rule : PolicyRule) × (typed_rule policy_id policy ≡ ok rule)
      × (check_evidence casefold fromisoformat now rule request (arr signal) ≡ ok (passed rule))
unfolding policy_definition_errors
null_evidence_types-unenforced casefold fromisoformat now policy_id policy spec request signal k t r
      e a b n =
    let (same, switch) = require_bool-ok (codes "same_resource") spec b in
    let (patterns, listed) = listed_trigger (get_value (codes "trigger") policy) t in
    let none_found : policy_definition_errors policy ≡ [] =
      rw (k, evidence_kind, null-kind_errors policy spec t r e a b, policy_definition_errors)
        refl in
    let rule : PolicyRule = record {
      policy_id = policy_id;
      kind = requires_evidence;
      trigger = patterns;
      spec = spec;
    } in
    (
      none_found,
      rule,
      null-typed_rule policy_id policy spec patterns k none_found listed r,
      null_evidence_types-passed casefold fromisoformat now rule request signal same switch
          (evidence_types-null spec e) (ground arith),
    )
