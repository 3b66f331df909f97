-- ===== src/Policies/Definition.antt =====
-- `policy_definition_errors`: what an authored or compiled policy must satisfy to be enforced. Each
-- message of the source is one constructor of `PolicyError`.
use hlinor_agent_registry.Prelude.{
  ℕ, ◌+◌, Bool, true, false, not, ◌&&◌, Option, none, some, List, [], ◌∷◌, ◌++◌, map, if◌then◌else◌,
  all, is_empty, ltb_ℤ, leb_ℤ, pos, Text, codes, text_eq, is_blank, Value, null, bool, int, float,
  str, arr, obj, nil, cons, Fields, end, micros, get_field, get_value, has_field, items,
}
use hlinor_agent_registry.Matching.{PatternError, pattern_errors}
use hlinor_agent_registry.Policies.Rule.{
  PolicyKind, requires_approval, requires_evidence, failure_threshold,
}

pub data PolicyError : Type 0 where
  unsupported_kind trigger_not_a_list section_not_an_object : PolicyError
  invalid_trigger : ℕ → PolicyError
  trigger_pattern : ℕ → PatternError → PolicyError
  missing_field : Text → PolicyError
  invalid_max_age invalid_evidence_types invalid_counter invalid_limit : PolicyError
  not_a_boolean : Text → PolicyError

unfoldable pub kind_of_text : Text → Option PolicyKind
kind_of_text s =
    if text_eq s (codes "requires_approval")
    then some requires_approval
    else if text_eq s (codes "requires_evidence")
    then some requires_evidence
    else if text_eq s (codes "failure_threshold")
    then some failure_threshold
    else none

unfoldable pub kind_of : Value → Option PolicyKind
unfolding kind_of_text
kind_of (str s) = kind_of_text s
kind_of _ = none

abbrev pub spec_section : PolicyKind → Text
spec_section requires_approval = codes "requires"
spec_section requires_evidence = codes "requires"
spec_section failure_threshold = codes "threshold"

abbrev pub required_spec_fields : PolicyKind → List Text
required_spec_fields requires_approval = []
required_spec_fields requires_evidence = codes "evidence_types" ∷ []
required_spec_fields failure_threshold = codes "counter" ∷ codes "max_consecutive_failures" ∷ []

abbrev pub boolean_spec_fields : PolicyKind → List Text
boolean_spec_fields requires_approval = codes "bind_to_request" ∷ []
boolean_spec_fields requires_evidence = codes "same_resource" ∷ []
boolean_spec_fields failure_threshold = []

unfoldable pub entry_errors : ℕ → Value → List PolicyError
entry_errors index (str pattern) =
    if is_blank pattern
    then invalid_trigger index ∷ []
    else map (trigger_pattern index) (pattern_errors pattern)
entry_errors index _ = invalid_trigger index ∷ []

unfoldable pub trigger_entries : ℕ → List Value → List PolicyError
unfolding entry_errors
trigger_entries index [] = []
trigger_entries index (entry ∷ rest) = entry_errors index entry ++ trigger_entries (index + 1) rest

unfoldable pub trigger_errors : Value → List PolicyError
unfolding trigger_entries
trigger_errors (arr nil) = trigger_not_a_list ∷ []
trigger_errors (arr (cons v vs)) = trigger_entries 0 (items (cons v vs))
trigger_errors _ = trigger_not_a_list ∷ []

unfoldable pub is_finite_positive : Value → Bool
is_finite_positive (int n) = ltb_ℤ (pos 0) n
is_finite_positive (float (micros n)) = ltb_ℤ (pos 0) n
is_finite_positive _ = false

abbrev is_filled_text : Value → Bool
is_filled_text (str s) = not (is_blank s)
is_filled_text _ = false

-- `None` counts as absent in the next three tests.
unfoldable pub evidence_types_ok : Value → Bool
evidence_types_ok null = true
evidence_types_ok (arr types) = not (is_empty (items types)) && all is_filled_text (items types)
evidence_types_ok _ = false

unfoldable pub counter_ok : Value → Bool
counter_ok null = true
counter_ok v = is_filled_text v

unfoldable pub limit_ok : Value → Bool
limit_ok null = true
limit_ok (int n) = leb_ℤ (pos 1) n
limit_ok _ = false

abbrev pub report : Bool → PolicyError → List PolicyError
report true e = []
report false e = e ∷ []

unfoldable pub max_age_ok : Fields → Bool
max_age_ok spec = elim (get_field (codes "max_age_seconds") spec) [
  | none ↦ true
  | some v ↦ is_finite_positive v
]

unfoldable pub boolean_ok : Fields → Text → Bool
boolean_ok spec name = elim (get_field name spec) [
  | none ↦ true
  | some v ↦ elim v [ bool b ↦ true | _ ↦ false ]
]

unfoldable pub boolean_errors : Fields → List Text → List PolicyError
boolean_errors spec [] = []
boolean_errors spec (name ∷ rest) =
    report (boolean_ok spec name) (not_a_boolean name) ++ boolean_errors spec rest

-- The tests that one kind alone has.
unfoldable pub evidence_errors : PolicyKind → Fields → List PolicyError
evidence_errors requires_evidence spec =
    report (evidence_types_ok (get_value (codes "evidence_types") spec)) invalid_evidence_types
evidence_errors _ spec = []

unfoldable pub threshold_errors : PolicyKind → Fields → List PolicyError
threshold_errors failure_threshold spec =
    report (counter_ok (get_value (codes "counter") spec)) invalid_counter
    ++ report (limit_ok (get_value (codes "max_consecutive_failures") spec)) invalid_limit
threshold_errors _ spec = []

-- `_spec_field_errors`
unfoldable pub spec_field_errors : PolicyKind → Fields → List PolicyError
unfolding boolean_errors evidence_errors threshold_errors
spec_field_errors kind spec =
    report (max_age_ok spec) invalid_max_age
    ++ (evidence_errors kind spec
        ++ (boolean_errors spec (boolean_spec_fields kind) ++ threshold_errors kind spec))

unfoldable pub required_errors : Fields → List Text → List PolicyError
required_errors spec [] = []
required_errors spec (name ∷ rest) =
    report (has_field name spec) (missing_field name) ++ required_errors spec rest

-- The section that a kind reads: an absent or unusable one is empty.
unfoldable pub section_of : Value → Fields
section_of (obj spec) = spec
section_of _ = end

unfoldable pub section_errors : Value → List PolicyError
section_errors null = []
section_errors (obj spec) = []
section_errors _ = section_not_an_object ∷ []

unfoldable pub kind_errors : PolicyKind → Fields → List PolicyError
unfolding trigger_errors section_errors required_errors spec_field_errors
kind_errors kind policy =
    let section = get_value (spec_section kind) policy in
    trigger_errors (get_value (codes "trigger") policy)
    ++ (section_errors section
        ++ (required_errors (section_of section) (required_spec_fields kind)
            ++ spec_field_errors kind (section_of section)))

-- A policy with no kind is prose, and has no errors.
unfoldable pub policy_definition_errors : Fields → List PolicyError
unfolding kind_errors
policy_definition_errors policy = elim (get_value (codes "kind") policy) [
  | null ↦ []
  | v ↦ elim (kind_of v) [ none ↦ unsupported_kind ∷ [] | some kind ↦ kind_errors kind policy ]
]
