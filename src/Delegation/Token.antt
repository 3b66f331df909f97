-- ===== src/Delegation/Token.antt =====
-- `verify_delegation_token` of hlinor_registry/delegation.py.
use hlinor_agent_registry.Prelude.{
  Bool, true, not, Option, none, some, List, [], ◌∷◌, all, Text, codes, text_eq, Value, obj, Fields,
  get_value, Result, ok, err, ◌>>=◌, ◌>>◌, guard,
}
use hlinor_agent_registry.Tokens.{
  TokenError, invalid, version_unsupported, chain_invalid, context_mismatch, signature_invalid,
  key_untrusted, issuer_unbound, issuer_invalid, Platform, token_text, optional_token_text,
  only_fields, is_text, Seal, read_seal, issuer_ok, signed_payload, check_seal,
}
use hlinor_agent_registry.Tokens.Reading.{optional}
use hlinor_agent_registry.Tokens.Window.{check_window}
use hlinor_agent_registry.Approval.{Moment}
use hlinor_agent_registry.Delegation.{
  DelegationTrustedKey, VerifiedDelegation, Context, DelegationLimits, identity_pair,
  identity_binding, scope_list, validate_limits,
}

-- The texts that every token has.
pub record DelegationTexts : Type 0 where
  pub delegation_id : Text
  pub issuer_agent_id : Text
  pub subject_agent_id : Text
  pub audience : Text
  pub issued_at : Text
  pub expires_at : Text
  pub nonce : Text

unfoldable pub read_texts : Fields → Result TokenError DelegationTexts
unfolding token_text
read_texts fs = do
  delegation_id ← token_text (get_value (codes "delegation_id") fs)
  issuer_agent_id ← token_text (get_value (codes "issuer_agent_id") fs)
  subject_agent_id ← token_text (get_value (codes "subject_agent_id") fs)
  audience ← token_text (get_value (codes "audience") fs)
  issued_at ← token_text (get_value (codes "issued_at") fs)
  expires_at ← token_text (get_value (codes "expires_at") fs)
  nonce ← token_text (get_value (codes "nonce") fs)
  ok (record {
    delegation_id = delegation_id;
    issuer_agent_id = issuer_agent_id;
    subject_agent_id = subject_agent_id;
    audience = audience;
    issued_at = issued_at;
    expires_at = expires_at;
    nonce = nonce;
  })

-- What the token grants, and to whom: everything before the context and the signature.
pub record Granted : Type 0 where
  pub texts : DelegationTexts
  pub actions : List Text
  pub resources : List Text
  pub parent : Option Text
  pub limits : DelegationLimits

abbrev pub delegation_fields : List Text
delegation_fields =
    codes "schema_version"
    ∷ codes "delegation_id"
    ∷ codes "issuer_agent_id"
    ∷ codes "subject_agent_id"
    ∷ codes "audience"
    ∷ codes "allowed_actions"
    ∷ codes "allowed_resource_scopes"
    ∷ codes "session_id"
    ∷ codes "tenant_id"
    ∷ codes "project_id"
    ∷ codes "workspace_id"
    ∷ codes "parent_delegation_id"
    ∷ codes "delegation_depth"
    ∷ codes "max_depth"
    ∷ codes "max_fan_out"
    ∷ codes "issued_at"
    ∷ codes "expires_at"
    ∷ codes "nonce"
    ∷ codes "issuer_deployment_identity"
    ∷ codes "issuer_workload_identity"
    ∷ codes "signature"
    ∷ []

unfoldable pub read_granted : Context → Fields → Result TokenError Granted
unfolding read_texts scope_list optional_token_text identity_pair validate_limits
read_granted context fs = do
  guard (only_fields delegation_fields fs) invalid
  guard (is_text (codes "1.0") (get_value (codes "schema_version") fs)) version_unsupported
  texts ← read_texts fs
  guard (not (text_eq texts.issuer_agent_id texts.subject_agent_id)) chain_invalid
  actions ← scope_list (get_value (codes "allowed_actions") fs)
  resources ← scope_list (get_value (codes "allowed_resource_scopes") fs)
  parent ← optional_token_text (get_value (codes "parent_delegation_id") fs)
  identity_pair (get_value (codes "issuer_deployment_identity") fs)
      (get_value (codes "issuer_workload_identity") fs)
  identity_pair (optional context.issuer_deployment_identity)
      (optional context.issuer_workload_identity)
  limits ←
      validate_limits (get_value (codes "delegation_depth") fs) (get_value (codes "max_depth") fs)
        (get_value (codes "max_fan_out") fs) parent
  ok (record {
    texts = texts;
    actions = actions;
    resources = resources;
    parent = parent;
    limits = limits;
  })

-- `expected is not None and token.get(field) != expected`, in the order of the fields
abbrev pub allows : Option Text × Value → Bool
allows entry = elim entry.0 [ none ↦ true | some t ↦ is_text t entry.1 ]

abbrev pub expectations : Context → Fields → List (Option Text × Value)
expectations context fs =
    (some context.audience, get_value (codes "audience") fs)
    ∷ (context.subject_agent_id, get_value (codes "subject_agent_id") fs)
    ∷ (context.session_id, get_value (codes "session_id") fs)
    ∷ (context.tenant_id, get_value (codes "tenant_id") fs)
    ∷ (context.project_id, get_value (codes "project_id") fs)
    ∷ (context.workspace_id, get_value (codes "workspace_id") fs)
    ∷ []

abbrev pub in_context : Context → Fields → Bool
in_context context fs = all allows (expectations context fs)

abbrev pub delegation_of :
    {K : Type 0} → Fields → Granted → Seal → DelegationTrustedKey K → VerifiedDelegation
delegation_of fs g seal trusted = record {
  delegation_id = g.texts.delegation_id;
  issuer_agent_id = g.texts.issuer_agent_id;
  subject_agent_id = g.texts.subject_agent_id;
  audience = g.texts.audience;
  allowed_actions = g.actions;
  allowed_resource_scopes = g.resources;
  session_id = get_value (codes "session_id") fs;
  tenant_id = get_value (codes "tenant_id") fs;
  project_id = get_value (codes "project_id") fs;
  workspace_id = get_value (codes "workspace_id") fs;
  parent_delegation_id = g.parent;
  delegation_depth = g.limits.delegation_depth;
  max_depth = g.limits.max_depth;
  max_fan_out = g.limits.max_fan_out;
  issued_at = g.texts.issued_at;
  expires_at = g.texts.expires_at;
  nonce = g.texts.nonce;
  key_id = seal.key_id;
  issuer = seal.issuer;
  deployment_identity = trusted.deployment_identity;
  workload_identity = trusted.workload_identity;
}

abbrev pub domain_delegation : Text
domain_delegation = codes "hlinor/agent-delegation/v1"

abbrev pub key_or :
    {K : Type 0} → Option (DelegationTrustedKey K) → Result TokenError (DelegationTrustedKey K)
key_or none = err key_untrusted
key_or (some key) = ok key

module _ {K : Type 0} (platform : Platform K)
    (trusted_keys : Text → Option (DelegationTrustedKey K)) where
  -- The key that has signed the token, which is that of its issuer.
  unfoldable pub check_signer :
      Context → Fields → Granted → Seal → Result TokenError (DelegationTrustedKey K)
  unfolding identity_binding check_seal signed_payload
  check_signer context fs g seal = do
    trusted ← key_or (trusted_keys seal.key_id)
    guard (text_eq trusted.agent_id g.texts.issuer_agent_id) issuer_unbound
    identity_binding trusted (get_value (codes "issuer_deployment_identity") fs)
        (get_value (codes "issuer_workload_identity") fs) context
    guard (issuer_ok trusted.issuer seal.issuer) issuer_invalid
    check_seal platform trusted.public_key seal.value
        (signed_payload platform domain_delegation signature_invalid fs)
    ok trusted

  unfoldable pub verify_delegation_token :
      Context → Moment → Value → Result TokenError VerifiedDelegation
  unfolding read_granted read_seal check_signer check_window
  verify_delegation_token context moment (obj fs) = do
    g ← read_granted context fs
    guard (in_context context fs) context_mismatch
    seal ← read_seal (get_value (codes "signature") fs)
    trusted ← check_signer context fs g seal
    check_window platform.fromisoformat g.texts.issued_at g.texts.expires_at moment.current_time
        moment.clock moment.clock_skew_seconds
    ok (delegation_of fs g seal trusted)
  verify_delegation_token context moment _ = err invalid
