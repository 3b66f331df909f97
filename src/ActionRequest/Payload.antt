-- ===== src/ActionRequest/Payload.antt =====
-- The digest payload binds every field of a request.
use hlinor_agent_registry.Prelude.{
  ◌≡◌, refl, true, Option, none, some, arith, Text, Value, null, Fields, end, field,
}
use hlinor_agent_registry.ActionRequest.{
  ActionRequest, to_dict, optional_value, same_presence, scope_fields,
}

optional_value-injective : (a b : Option Text) → optional_value a ≡ optional_value b → a ≡ b
optional_value-injective none none h = refl
optional_value-injective none (some t) h = cc
optional_value-injective (some s) none h = cc
optional_value-injective (some s) (some t) h = cc

abbrev field_value : Fields → Value
field_value end = null
field_value (field k v fs) = v

abbrev field_rest : Fields → Fields
field_rest end = end
field_rest (field k v fs) = fs

scope_fields-injective :
    (p w q x : Option Text)
    → same_presence p w ≡ true
    → same_presence q x ≡ true
    → scope_fields p w ≡ scope_fields q x
    → (p ≡ q) × (w ≡ x)
scope_fields-injective none none none none a b h = (refl, refl)
scope_fields-injective none none (some q) (some x) a b h = cc
scope_fields-injective (some p) (some w) none none a b h = cc
scope_fields-injective (some p) (some w) (some q) (some x) a b h = (cc, cc)
scope_fields-injective none (some w) q x a b h = cc
scope_fields-injective (some p) none q x a b h = cc
scope_fields-injective p w none (some x) a b h = cc
scope_fields-injective p w (some q) none a b h = cc

-- Two requests whose project and workspace are given together have one digest payload only if they
-- are equal in every field.
pub to_dict-injective :
    (r s : ActionRequest)
    → same_presence r.project_id r.workspace_id ≡ true
    → same_presence s.project_id s.workspace_id ≡ true
    → to_dict r ≡ to_dict s
    → r ≡ s
unfolding to_dict
to_dict-injective r s hr hs h = ground (
  arith,
  optional_value-injective r.actor_id s.actor_id,
  optional_value-injective r.tool_id s.tool_id,
  optional_value-injective r.resource s.resource,
  optional_value-injective r.arguments_digest s.arguments_digest,
  optional_value-injective r.approval_id s.approval_id,
  optional_value-injective r.session_id s.session_id,
  optional_value-injective r.tenant_id s.tenant_id,
  optional_value-injective r.environment s.environment,
  scope_fields-injective r.project_id r.workspace_id s.project_id s.workspace_id,
)
