-- ===== src/ActionRequest.antt =====
-- hlinor_registry/action_request.py: the immutable request. Its constructor checks the fields and
-- freezes the two mappings; `to_dict` is what the request digest is taken of. A frozen mapping or
-- tuple and the JSON object or list that it thaws to are one value here.
pub mod Payload
pub mod Validity
mod Tests
use hlinor_agent_registry.Prelude.{
  ℕ, Bool, true, false, not, ◌&&◌, ◌||◌, Option, none, some, List, [], ◌∷◌, if◌then◌else◌, Text,
  codes, text_eq, strip, is_blank, Value, null, bool, int, float, str, arr, obj, Items, nil, cons,
  Fields, end, field, Float, micros, nan, infinite, minus_infinite, Result, ok, err, ◌>>=◌, ◌>>◌,
  guard,
}

pub record ActionRequest : Type 0 where
  pub agent_id : Text
  pub action : Text
  pub request_id : Text
  pub actor_id : Option Text
  pub tool_id : Option Text
  pub resource : Option Text
  pub arguments_digest : Option Text
  pub attributes : Fields
  pub signals : Fields
  pub approval_id : Option Text
  pub session_id : Option Text
  pub tenant_id : Option Text
  pub project_id : Option Text
  pub workspace_id : Option Text
  pub environment : Option Text
  pub requested_at : Text

-- The fields that the constructor checks, by their order in the source.
pub data FieldName : Type 0 where
  request_id agent_id action requested_at : FieldName
  actor_id tool_id resource arguments_digest approval_id : FieldName
  session_id tenant_id project_id workspace_id environment : FieldName

-- The exceptions of the constructor.
pub data RequestError : Type 0 where
  empty_text outer_whitespace : FieldName → RequestError
  scope_unpaired non_finite : RequestError

unfoldable pub check_text : FieldName → Text → Result RequestError (Unit {0})
check_text name value = do
  guard (not (is_blank value)) (empty_text name)
  guard (text_eq value (strip value)) (outer_whitespace name)

unfoldable pub check_optional : FieldName → Option Text → Result RequestError (Unit {0})
unfolding check_text
check_optional name none = ok tt
check_optional name (some value) = check_text name value

abbrev is_finite : Float → Bool
is_finite (micros n) = true
is_finite _ = false

-- `_freeze_json` raises on a float that is not finite, at any depth.
unfoldable mutual
  pub freezable : Value → Bool
  freezable (float x) = is_finite x
  freezable (arr vs) = freezable_items vs
  freezable (obj fs) = freezable_fields fs
  freezable _ = true

  pub freezable_items : Items → Bool
  freezable_items nil = true
  freezable_items (cons v vs) = freezable v && freezable_items vs

  pub freezable_fields : Fields → Bool
  freezable_fields end = true
  freezable_fields (field k v fs) = freezable v && freezable_fields fs

abbrev pub is_none : Option Text → Bool
is_none none = true
is_none (some s) = false

abbrev pub same_presence : Option Text → Option Text → Bool
same_presence none none = true
same_presence (some s) (some t) = true
same_presence _ _ = false

-- `__post_init__`
unfoldable pub post_init : ActionRequest → Result RequestError ActionRequest
unfolding check_text check_optional
post_init r = do
  check_text request_id r.request_id
  check_text agent_id r.agent_id
  check_text action r.action
  check_text requested_at r.requested_at
  check_optional actor_id r.actor_id
  check_optional tool_id r.tool_id
  check_optional resource r.resource
  check_optional arguments_digest r.arguments_digest
  check_optional approval_id r.approval_id
  check_optional session_id r.session_id
  check_optional tenant_id r.tenant_id
  check_optional project_id r.project_id
  check_optional workspace_id r.workspace_id
  check_optional environment r.environment
  guard (same_presence r.project_id r.workspace_id) scope_unpaired
  guard (freezable_fields r.attributes) non_finite
  guard (freezable_fields r.signals) non_finite
  ok r

abbrev pub optional_value : Option Text → Value
optional_value none = null
optional_value (some s) = str s

-- The two keys that are there only where the request names its scope.
abbrev scope_fields : Option Text → Option Text → Fields
scope_fields (some project) (some workspace) =
    field (codes "project_id") (str project) (field (codes "workspace_id") (str workspace) end)
scope_fields _ _ = end

unfoldable pub to_dict : ActionRequest → Fields
to_dict r = field (codes "request_id") (str r.request_id) (
    field (codes "agent_id") (str r.agent_id) (
      field (codes "action") (str r.action) (
        field (codes "actor_id") (optional_value r.actor_id) (
          field (codes "tool_id") (optional_value r.tool_id) (
            field (codes "resource") (optional_value r.resource) (
              field (codes "arguments_digest") (optional_value r.arguments_digest) (
                field (codes "attributes") (obj r.attributes) (
                  field (codes "signals") (obj r.signals) (
                    field (codes "approval_id") (optional_value r.approval_id) (
                      field (codes "session_id") (optional_value r.session_id) (
                        field (codes "tenant_id") (optional_value r.tenant_id) (
                          field (codes "environment") (optional_value r.environment) (
                            field (codes "requested_at") (str r.requested_at)
                              (scope_fields r.project_id r.workspace_id))))))))))))))
