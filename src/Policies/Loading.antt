-- ===== src/Policies/Loading.antt =====
-- `load_policy_rules`: the enforceable rules of a bundle's compiled policy entries.
use hlinor_agent_registry.Prelude.{
  not, Option, none, some, List, [], ◌∷◌, Text, codes, is_blank, Value, null, arr, obj, Items,
  Fields, entries, get_value, assign, Result, ok, err, ◌>>=◌, ◌>>◌, guard, is_empty,
}
use hlinor_agent_registry.Policies.Rule.{PolicyKind, PolicyRule}
use hlinor_agent_registry.Policies.Definition.{
  PolicyError, kind_of, spec_section, section_of, policy_definition_errors,
}

pub data LoadError : Type 0 where
  invalid_policy_id entry_not_an_object config_not_an_object trigger_not_a_list : LoadError
  invalid_policy : List PolicyError → LoadError

unfoldable pub as_mapping : LoadError → Value → Result LoadError Fields
as_mapping e (obj fields) = ok fields
as_mapping e _ = err e

unfoldable pub as_list : Value → Result LoadError Items
as_list (arr entries) = ok entries
as_list _ = err trigger_not_a_list

-- A kind that the definition check has let through.
unfoldable pub rule_of : Text → Fields → PolicyKind → Result LoadError PolicyRule
unfolding as_list
rule_of policy_id config kind = do
  trigger ← as_list (get_value (codes "trigger") config)
  ok (record {
    policy_id = policy_id;
    kind = kind;
    trigger = trigger;
    spec = section_of (get_value (spec_section kind) config);
  })

-- The rule of a policy with a kind; the definition check has refused every unknown kind.
unfoldable pub typed_rule : Text → Fields → Result LoadError PolicyRule
unfolding rule_of
typed_rule policy_id config = do
  guard (is_empty (policy_definition_errors config))
      (invalid_policy (policy_definition_errors config))
  elim (kind_of (get_value (codes "kind") config)) [
    | none ↦ err (invalid_policy [])
    | some kind ↦ rule_of policy_id config kind
  ]

-- A policy with no kind is prose and makes no rule.
unfoldable pub by_kind : Text → Fields → Value → Result LoadError (Option PolicyRule)
by_kind policy_id config null = ok none
by_kind policy_id config v = do rule ← typed_rule policy_id config; ok (some rule)

-- One entry: no rule where the policy is prose.
unfoldable pub load_entry : Text → Value → Result LoadError (Option PolicyRule)
unfolding as_mapping
load_entry policy_id entry = do
  guard (not (is_blank policy_id)) invalid_policy_id
  bundle_entry ← as_mapping entry_not_an_object entry
  config ← as_mapping config_not_an_object (get_value (codes "config") bundle_entry)
  by_kind policy_id config (get_value (codes "kind") config)

abbrev pub add_rule : Text → Option PolicyRule → List (Text × PolicyRule) → List (Text × PolicyRule)
add_rule policy_id none rules = rules
add_rule policy_id (some rule) rules = assign policy_id rule rules

unfoldable pub load_entries :
    List (Text × Value) → List (Text × PolicyRule) → Result LoadError (List (Text × PolicyRule))
load_entries [] rules = ok rules
load_entries ((policy_id, entry) ∷ rest) rules = do
  loaded ← load_entry policy_id entry
  load_entries rest (add_rule policy_id loaded rules)

unfoldable pub load_policy_rules : Value → Result LoadError (List (Text × PolicyRule))
unfolding load_entries
load_policy_rules (obj policies) = load_entries (entries policies) []
load_policy_rules _ = ok []
