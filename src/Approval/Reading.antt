-- ===== src/Approval/Reading.antt =====
-- What the facts of an approval are, in terms of its fields and of the request.
use hlinor_agent_registry.Prelude.{
  Bool, ◌≡◌, refl, ap, ◌∙◌, subst, true, all-All, Option, Text, codes, Value, str, obj, null, bool,
  int, float, arr, Fields, get_value, ok, guard, >>=-eq-ok, ok-injective,
}
use hlinor_agent_registry.Tokens.{
  invalid, version_unsupported, token_text, only_fields, is_text, read_seal,
}
use hlinor_agent_registry.Tokens.Reading.{
  optional, is_expected-eq, token_text-eq-ok, read_seal-eq-ok,
}
use hlinor_agent_registry.Approval.{
  Named, read_named, approval_of, Target, VerifiedApproval, approval_fields, scope_pair, truth_of,
  read_approval, expected, meets, is_target, fields_of,
}

-- The facts of an approval are what its fields say.
abbrev pub IsRead : Fields → VerifiedApproval → Value → Type 0
IsRead fs a value =
    (seal : Fields) × (get_value (codes "signature") fs ≡ obj seal)
    × (get_value (codes "key_id") seal ≡ str a.key_id)
    × (get_value (codes "issuer") seal ≡ str a.issuer)
    × (get_value (codes "value") seal ≡ value)
    × (get_value (codes "token_id") fs ≡ str a.token_id)
    × (get_value (codes "subject_agent_id") fs ≡ str a.subject_agent_id)
    × (get_value (codes "action") fs ≡ str a.action)
    × (get_value (codes "arguments_digest") fs ≡ str a.arguments_digest)
    × (get_value (codes "issued_at") fs ≡ str a.issued_at)
    × (get_value (codes "expires_at") fs ≡ str a.expires_at)
    × (get_value (codes "nonce") fs ≡ str a.nonce)
    × (get_value (codes "resource") fs ≡ a.resource)
    × (get_value (codes "tool_id") fs ≡ a.tool_id)
    × (get_value (codes "session_id") fs ≡ a.session_id)
    × (get_value (codes "tenant_id") fs ≡ a.tenant_id)
    × (get_value (codes "project_id") fs ≡ a.project_id)
    × (get_value (codes "workspace_id") fs ≡ a.workspace_id)
    × (get_value (codes "request_digest") fs ≡ a.request_digest)
    × (get_value (codes "approver_role") fs ≡ a.approver_role)
    × (get_value (codes "single_use") fs ≡ bool a.single_use)

truth_of-eq-ok : (v : Value) {b : Bool} → truth_of v ≡ ok b → v ≡ bool b
truth_of-eq-ok (bool c) {b = b} h = ap bool (ok-injective c b h)
truth_of-eq-ok null h = cc
truth_of-eq-ok (int n) h = cc
truth_of-eq-ok (float x) h = cc
truth_of-eq-ok (str s) h = cc
truth_of-eq-ok (arr vs) h = cc
truth_of-eq-ok (obj fs) h = cc

read_named-eq-ok :
    (fs : Fields) {named : Named}
    → read_named fs ≡ ok named
    → (get_value (codes "token_id") fs ≡ str named.token_id)
      × (get_value (codes "subject_agent_id") fs ≡ str named.subject_agent_id)
      × (get_value (codes "action") fs ≡ str named.action)
      × (get_value (codes "arguments_digest") fs ≡ str named.arguments_digest)
      × (get_value (codes "issued_at") fs ≡ str named.issued_at)
      × (get_value (codes "expires_at") fs ≡ str named.expires_at)
      × (get_value (codes "nonce") fs ≡ str named.nonce)
unfolding read_named
read_named-eq-ok fs {named = named} h =
    let (token_id, e2, h2) = >>=-eq-ok (token_text (get_value (codes "token_id") fs)) _ h in
    let (subject, e3, h3) = >>=-eq-ok (token_text (get_value (codes "subject_agent_id") fs)) _ h2 in
    let (action, e4, h4) = >>=-eq-ok (token_text (get_value (codes "action") fs)) _ h3 in
    let (digest, e5, h5) = >>=-eq-ok (token_text (get_value (codes "arguments_digest") fs)) _ h4 in
    let (issued, e6, h6) = >>=-eq-ok (token_text (get_value (codes "issued_at") fs)) _ h5 in
    let (expires, e7, h7) = >>=-eq-ok (token_text (get_value (codes "expires_at") fs)) _ h6 in
    let (nonce, e8, h8) = >>=-eq-ok (token_text (get_value (codes "nonce") fs)) _ h7 in
    let s = ok-injective _ named h8 in
    (
      token_text-eq-ok _ (e2 ∙ ap (λ (n : Named). ok n.token_id) s),
      token_text-eq-ok _ (e3 ∙ ap (λ (n : Named). ok n.subject_agent_id) s),
      token_text-eq-ok _ (e4 ∙ ap (λ (n : Named). ok n.action) s),
      token_text-eq-ok _ (e5 ∙ ap (λ (n : Named). ok n.arguments_digest) s),
      token_text-eq-ok _ (e6 ∙ ap (λ (n : Named). ok n.issued_at) s),
      token_text-eq-ok _ (e7 ∙ ap (λ (n : Named). ok n.expires_at) s),
      token_text-eq-ok _ (e8 ∙ ap (λ (n : Named). ok n.nonce) s),
    )

pub read_approval-IsRead :
    (fs : Fields) {a : VerifiedApproval} {value : Value}
    → read_approval (obj fs) ≡ ok (a, value)
    → IsRead fs a value
unfolding read_approval
read_approval-IsRead fs {a = a} {value = value} h =
    let version = is_text (codes "1.0") (get_value (codes "schema_version") fs) in
    let (u, e0, h0) = >>=-eq-ok (guard (only_fields approval_fields fs) invalid) _ h in
    let (v, e1, h1) = >>=-eq-ok (guard version version_unsupported) _ h0 in
    let (named, e2, h2) = >>=-eq-ok (read_named fs) _ h1 in
    let (single, e9, h9) = >>=-eq-ok (truth_of (get_value (codes "single_use") fs)) _ h2 in
    let (w, ea, ha) =
      >>=-eq-ok
        (scope_pair (get_value (codes "project_id") fs) (get_value (codes "workspace_id") fs)) _
        h9 in
    let (seal, eb, hb) = >>=-eq-ok (read_seal (get_value (codes "signature") fs)) _ ha in
    let (inside, s, algorithm, key_id, issuer, sealed) =
      read_seal-eq-ok (get_value (codes "signature") fs) eb in
    let (n0, n1, n2, n3, n4, n5, n6) = read_named-eq-ok fs e2 in
    subst (λ (r : VerifiedApproval × Value). IsRead fs r.0 r.1)
      (ok-injective (approval_of fs named single seal, seal.value) (a, value) hb)
      (
        inside,
        s,
        key_id,
        issuer,
        sealed,
        n0,
        n1,
        n2,
        n3,
        n4,
        n5,
        n6,
        refl,
        refl,
        refl,
        refl,
        refl,
        refl,
        refl,
        refl,
        truth_of-eq-ok _ e9,
      )

-- The token is for this agent, action, arguments and context.
abbrev pub IsFor : Target → VerifiedApproval → Type 0
IsFor target a =
    (a.subject_agent_id ≡ target.agent_id)
    × (a.action ≡ target.action)
    × (a.arguments_digest ≡ target.arguments_digest)
    × (a.resource ≡ optional target.resource)
    × (a.tool_id ≡ optional target.tool_id)
    × (a.session_id ≡ optional target.session_id)
    × (a.tenant_id ≡ optional target.tenant_id)
    × (a.project_id ≡ optional target.project_id)
    × (a.workspace_id ≡ optional target.workspace_id)

str-injective : (s t : Text) → str s ≡ str t → s ≡ t
str-injective s t h = cc

pub is_target-IsFor :
    (target : Target) (a : VerifiedApproval) → is_target target a ≡ true → IsFor target a
is_target-IsFor target a h =
    let (
      agent,
      (action, (digest, (resource, (tool, (session, (tenant, (project, (workspace, u)))))))),
    ) =
      all-All {P = λ (p : Option Text × Value). p.1 ≡ optional p.0} meets
        (λ p. is_expected-eq p.0 p.1) (expected target a) h in
    (
      str-injective _ _ agent,
      str-injective _ _ action,
      str-injective _ _ digest,
      resource,
      tool,
      session,
      tenant,
      project,
      workspace,
    )

pub IsRead-obj :
    (token : Value) {a : VerifiedApproval} {value : Value}
    → read_approval token ≡ ok (a, value)
    → token ≡ obj (fields_of token)
unfolding read_approval
IsRead-obj (obj fs) h = refl
IsRead-obj null h = cc
IsRead-obj (bool b) h = cc
IsRead-obj (int n) h = cc
IsRead-obj (float x) h = cc
IsRead-obj (str s) h = cc
IsRead-obj (arr vs) h = cc
