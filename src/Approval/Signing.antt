-- ===== src/Approval/Signing.antt =====
-- `sign_approval_token` of hlinor_registry/execution_receipts.py.
use hlinor_agent_registry.Prelude.{
  ℕ, Bool, Option, none, some, [], if◌then◌else◌, is_empty, pos, Text, codes, Value, bool, str, obj,
  Fields, end, field, Result, ok, ◌>>=◌, ◌>>◌,
}
use hlinor_agent_registry.Tokens.{
  TokenError, canonicalization_failed, Platform, token_text, signed_payload,
}
use hlinor_agent_registry.Tokens.Reading.{optional}
use hlinor_agent_registry.Tokens.Window.{check_window}
use hlinor_agent_registry.Approval.{domain_approval, scope_pair}

-- The private key and the base64 encoding of the platform.
pub record Signer : Type 0 where
  pub sign : Text → Text
  pub encode : Text → Text

-- The arguments of the signing.
pub record Grant : Type 0 where
  pub key_id : Text
  pub issuer : Text
  pub subject_agent_id : Text
  pub action : Text
  pub arguments_digest : Text
  pub issued_at : Text
  pub expires_at : Text
  pub nonce : Text
  pub resource : Option Text
  pub tool_id : Option Text
  pub session_id : Option Text
  pub tenant_id : Option Text
  pub project_id : Option Text
  pub workspace_id : Option Text
  pub request_digest : Option Text
  pub approver_role : Option Text
  pub token_id : Option Text
  pub single_use : Bool

-- `token_id or str(uuid.uuid4())`
abbrev pub id_or : Text → Option Text → Text
id_or uuid none = uuid
id_or uuid (some id) = if is_empty id then uuid else id

abbrev pub sealed : Grant → Text → Value
sealed g value = obj (
    field (codes "algorithm") (str (codes "Ed25519")) (
      field (codes "key_id") (str g.key_id)
        (field (codes "issuer") (str g.issuer) (field (codes "value") (str value) end))))

-- The token, with the value of its signature.
abbrev pub token_of : Grant → Text → Text → Fields
token_of g id value = field (codes "schema_version") (str (codes "1.0")) (
    field (codes "token_id") (str id) (
      field (codes "subject_agent_id") (str g.subject_agent_id) (
        field (codes "action") (str g.action) (
          field (codes "tool_id") (optional g.tool_id) (
            field (codes "resource") (optional g.resource) (
              field (codes "arguments_digest") (str g.arguments_digest) (
                field (codes "request_digest") (optional g.request_digest) (
                  field (codes "session_id") (optional g.session_id) (
                    field (codes "tenant_id") (optional g.tenant_id) (
                      field (codes "project_id") (optional g.project_id) (
                        field (codes "workspace_id") (optional g.workspace_id) (
                          field (codes "approver_role") (optional g.approver_role) (
                            field (codes "issued_at") (str g.issued_at) (
                              field (codes "expires_at") (str g.expires_at) (
                                field (codes "nonce") (str g.nonce) (
                                  field (codes "single_use") (bool g.single_use)
                                    (field (codes "signature") (sealed g value) end)))))))))))))))))

module _ {K : Type 0} (platform : Platform K) (signer : Signer) where
  unfoldable pub sign_approval_token : Text → ℕ → Grant → Result TokenError Value
  unfolding token_text scope_pair check_window signed_payload
  sign_approval_token uuid clock g =
      let id = id_or uuid g.token_id in
      do
        key_id ← token_text (str g.key_id)
        issuer ← token_text (str g.issuer)
        subject_agent_id ← token_text (str g.subject_agent_id)
        action ← token_text (str g.action)
        arguments_digest ← token_text (str g.arguments_digest)
        nonce ← token_text (str g.nonce)
        scope_pair (optional g.project_id) (optional g.workspace_id)
        token_id ← token_text (str id)
        check_window platform.fromisoformat g.issued_at g.expires_at none clock (pos 0)
        payload ← signed_payload platform domain_approval canonicalization_failed (token_of g id [])
        ok (obj (token_of g id (signer.encode (signer.sign payload))))
