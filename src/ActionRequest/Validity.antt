-- ===== src/ActionRequest/Validity.antt =====
-- What the constructor promises of a request that it lets through.
use hlinor_agent_registry.Prelude.{
  ◌≡◌, ◌↔◌, refl, Bool, true, false, Option, none, some, arith, Text, text_eq, strip, is_blank,
  Result, ok, ◌>>◌, guard, >>=-eq-ok,
}
use hlinor_agent_registry.ActionRequest.{
  ActionRequest, FieldName, RequestError, scope_unpaired, non_finite, check_text, check_optional,
  freezable_fields, same_presence, post_init,
}

-- A text that is not empty and has no outer whitespace.
abbrev pub IsClean : Text → Type 0
IsClean s = (is_blank s ≡ false) × (text_eq s (strip s) ≡ true)

abbrev pub IsCleanIfSet : Option Text → Type 0
IsCleanIfSet none = Unit
IsCleanIfSet (some s) = IsClean s

pub record IsValid (r : ActionRequest) : Type 0 where
  pub agent_id : IsClean r.agent_id
  pub action : IsClean r.action
  pub request_id : IsClean r.request_id
  pub requested_at : IsClean r.requested_at
  pub actor_id : IsCleanIfSet r.actor_id
  pub tool_id : IsCleanIfSet r.tool_id
  pub resource : IsCleanIfSet r.resource
  pub arguments_digest : IsCleanIfSet r.arguments_digest
  pub approval_id : IsCleanIfSet r.approval_id
  pub session_id : IsCleanIfSet r.session_id
  pub tenant_id : IsCleanIfSet r.tenant_id
  pub project_id : IsCleanIfSet r.project_id
  pub workspace_id : IsCleanIfSet r.workspace_id
  pub environment : IsCleanIfSet r.environment
  pub scope_paired : same_presence r.project_id r.workspace_id ≡ true
  pub attributes_finite : freezable_fields r.attributes ≡ true
  pub signals_finite : freezable_fields r.signals ≡ true

check_text-ok : (n : FieldName) (s : Text) → check_text n s ≡ ok tt → IsClean s
unfolding check_text
check_text-ok n s h = ground arith

check_optional-ok : (n : FieldName) (s : Option Text) → check_optional n s ≡ ok tt → IsCleanIfSet s
unfolding check_optional
check_optional-ok n none h = tt
check_optional-ok n (some s) h = check_text-ok n s h

text-guard :
    (n : FieldName) (s : Text) {B : Type 0} (k : Result RequestError B) {b : B}
    → (check_text n s >> k) ≡ ok b
    → IsClean s × (k ≡ ok b)
text-guard n s k h =
    let (_, e, rest) = >>=-eq-ok (check_text n s) (λ _. k) h in (check_text-ok n s e, rest)

optional-guard :
    (n : FieldName) (s : Option Text) {B : Type 0} (k : Result RequestError B) {b : B}
    → (check_optional n s >> k) ≡ ok b
    → IsCleanIfSet s × (k ≡ ok b)
optional-guard n s k h =
    let (_, e, rest) = >>=-eq-ok (check_optional n s) (λ _. k) h in (check_optional-ok n s e, rest)

bool-guard :
    (t : Bool) (e : RequestError) {B : Type 0} (k : Result RequestError B) {b : B}
    → (guard t e >> k) ≡ ok b
    → (t ≡ true) × (k ≡ ok b)
bool-guard true e k h = (refl, h)
bool-guard false e k h = cc

check_text-IsClean : (n : FieldName) (s : Text) → IsClean s → check_text n s ≡ ok tt
unfolding check_text
check_text-IsClean n s (h, k) = rw (h, k)

check_optional-IsClean :
    (n : FieldName) (s : Option Text) → IsCleanIfSet s → check_optional n s ≡ ok tt
unfolding check_optional
check_optional-IsClean n none h = refl
check_optional-IsClean n (some s) h = check_text-IsClean n s h

post_init→IsValid : (r s : ActionRequest) → post_init r ≡ ok s → (s ≡ r) × IsValid r
unfolding post_init
post_init→IsValid r s h0 =
    let (q0, h1) = text-guard FieldName.request_id r.request_id _ h0 in
    let (q1, h2) = text-guard FieldName.agent_id r.agent_id _ h1 in
    let (q2, h3) = text-guard FieldName.action r.action _ h2 in
    let (q3, h4) = text-guard FieldName.requested_at r.requested_at _ h3 in
    let (q4, h5) = optional-guard FieldName.actor_id r.actor_id _ h4 in
    let (q5, h6) = optional-guard FieldName.tool_id r.tool_id _ h5 in
    let (q6, h7) = optional-guard FieldName.resource r.resource _ h6 in
    let (q7, h8) = optional-guard FieldName.arguments_digest r.arguments_digest _ h7 in
    let (q8, h9) = optional-guard FieldName.approval_id r.approval_id _ h8 in
    let (q9, h10) = optional-guard FieldName.session_id r.session_id _ h9 in
    let (q10, h11) = optional-guard FieldName.tenant_id r.tenant_id _ h10 in
    let (q11, h12) = optional-guard FieldName.project_id r.project_id _ h11 in
    let (q12, h13) = optional-guard FieldName.workspace_id r.workspace_id _ h12 in
    let (q13, h14) = optional-guard FieldName.environment r.environment _ h13 in
    let (q14, h15) = bool-guard (same_presence r.project_id r.workspace_id) scope_unpaired _ h14 in
    let (q15, h16) = bool-guard (freezable_fields r.attributes) non_finite _ h15 in
    let (q16, h17) = bool-guard (freezable_fields r.signals) non_finite _ h16 in
    (
      cc h17,
      record {
        agent_id = q1;
        action = q2;
        request_id = q0;
        requested_at = q3;
        actor_id = q4;
        tool_id = q5;
        resource = q6;
        arguments_digest = q7;
        approval_id = q8;
        session_id = q9;
        tenant_id = q10;
        project_id = q11;
        workspace_id = q12;
        environment = q13;
        scope_paired = q14;
        attributes_finite = q15;
        signals_finite = q16;
      },
    )

IsValid→post_init : (r : ActionRequest) → IsValid r → post_init r ≡ ok r
unfolding post_init
IsValid→post_init r v = rw (
  check_text-IsClean FieldName.request_id r.request_id v.request_id,
  check_text-IsClean FieldName.agent_id r.agent_id v.agent_id,
  check_text-IsClean FieldName.action r.action v.action,
  check_text-IsClean FieldName.requested_at r.requested_at v.requested_at,
  check_optional-IsClean FieldName.actor_id r.actor_id v.actor_id,
  check_optional-IsClean FieldName.tool_id r.tool_id v.tool_id,
  check_optional-IsClean FieldName.resource r.resource v.resource,
  check_optional-IsClean FieldName.arguments_digest r.arguments_digest v.arguments_digest,
  check_optional-IsClean FieldName.approval_id r.approval_id v.approval_id,
  check_optional-IsClean FieldName.session_id r.session_id v.session_id,
  check_optional-IsClean FieldName.tenant_id r.tenant_id v.tenant_id,
  check_optional-IsClean FieldName.project_id r.project_id v.project_id,
  check_optional-IsClean FieldName.workspace_id r.workspace_id v.workspace_id,
  check_optional-IsClean FieldName.environment r.environment v.environment,
  v.scope_paired,
  v.attributes_finite,
  v.signals_finite,
)

-- The constructor lets a request through exactly when its four required texts and its set optional
-- texts are non-empty with no outer whitespace, project and workspace are given together and no
-- float of the two mappings is infinite or NaN; the request is then stored as given.
pub post_init_iff : (r s : ActionRequest) → (post_init r ≡ ok s) ↔ ((s ≡ r) × IsValid r)
post_init_iff r s = (post_init→IsValid r s, λ (e, v). rw e (IsValid→post_init r v))
