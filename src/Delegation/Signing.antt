-- ===== src/Delegation/Signing.antt =====
-- `sign_delegation_token` of hlinor_registry/delegation.py.
use hlinor_agent_registry.Prelude.{
  ℕ, not, Option, none, some, List, [], ◌∷◌, ℤ, pos, Text, codes, text_eq, Value, int, str, arr,
  obj, Items, nil, cons, Fields, end, field, Result, ok, ◌>>=◌, ◌>>◌, guard,
}
use hlinor_agent_registry.Tokens.{
  TokenError, chain_invalid, canonicalization_failed, Platform, token_text, optional_token_text,
  signed_payload,
}
use hlinor_agent_registry.Tokens.Reading.{optional}
use hlinor_agent_registry.Tokens.Window.{check_window}
use hlinor_agent_registry.Approval.Signing.{Signer}
use hlinor_agent_registry.Delegation.{identity_pair, scope_list, validate_limits}
use hlinor_agent_registry.Delegation.Token.{domain_delegation}

-- The arguments of the signing; the id is the one given or a fresh one.
pub record Delegated : Type 0 where
  pub key_id : Text
  pub issuer : Text
  pub issuer_agent_id : Text
  pub subject_agent_id : Text
  pub audience : Text
  pub allowed_actions : List Text
  pub allowed_resource_scopes : List Text
  pub issued_at : Text
  pub expires_at : Text
  pub nonce : Text
  pub session_id : Option Text
  pub tenant_id : Option Text
  pub project_id : Option Text
  pub workspace_id : Option Text
  pub parent_delegation_id : Option Text
  pub delegation_depth : ℤ
  pub max_depth : ℤ
  pub max_fan_out : ℤ
  pub delegation_id : Option Text
  pub issuer_deployment_identity : Option Text
  pub issuer_workload_identity : Option Text

abbrev text_items : List Text → Items
text_items [] = nil
text_items (t ∷ ts) = cons (str t) (text_items ts)

abbrev given_or : Text → Option Text → Text
given_or uuid none = uuid
given_or uuid (some id) = id

-- The token, with the value of its signature.
abbrev pub delegation_token : Delegated → Text → List Text → List Text → Text → Fields
delegation_token g id actions resources value = field (codes "schema_version") (str (codes "1.0")) (
    field (codes "delegation_id") (str id) (
      field (codes "issuer_agent_id") (str g.issuer_agent_id) (
        field (codes "subject_agent_id") (str g.subject_agent_id) (
          field (codes "audience") (str g.audience) (
            field (codes "allowed_actions") (arr (text_items actions)) (
              field (codes "allowed_resource_scopes") (arr (text_items resources)) (
                field (codes "session_id") (optional g.session_id) (
                  field (codes "tenant_id") (optional g.tenant_id) (
                    field (codes "project_id") (optional g.project_id) (
                      field (codes "workspace_id") (optional g.workspace_id) (
                        field (codes "parent_delegation_id") (optional g.parent_delegation_id) (
                          field (codes "delegation_depth") (int g.delegation_depth) (
                            field (codes "max_depth") (int g.max_depth) (
                              field (codes "max_fan_out") (int g.max_fan_out) (
                                field (codes "issued_at") (str g.issued_at) (
                                  field (codes "expires_at") (str g.expires_at) (
                                    field (codes "nonce") (str g.nonce) (
                                      field (codes "issuer_deployment_identity")
                                        (optional g.issuer_deployment_identity)
                                        (field (codes "issuer_workload_identity")
                                          (optional g.issuer_workload_identity)
                                          (field (codes "signature")
                                            (obj (
                                              field (codes "algorithm") (str (codes "Ed25519")) (
                                                field (codes "key_id") (str g.key_id) (
                                                  field (codes "issuer") (str g.issuer)
                                                    (field (codes "value") (str value) end)))))
                                            end))))))))))))))))))))

-- The checks of the single arguments.
unfoldable pub check_arguments : Delegated → Result TokenError (Unit {0})
unfolding token_text optional_token_text identity_pair
check_arguments g = do
  key_id ← token_text (str g.key_id)
  issuer ← token_text (str g.issuer)
  issuer_agent_id ← token_text (str g.issuer_agent_id)
  subject_agent_id ← token_text (str g.subject_agent_id)
  audience ← token_text (str g.audience)
  nonce ← token_text (str g.nonce)
  identity_pair (optional g.issuer_deployment_identity) (optional g.issuer_workload_identity)
  guard (not (text_eq g.issuer_agent_id g.subject_agent_id)) chain_invalid
  session_id ← optional_token_text (optional g.session_id)
  tenant_id ← optional_token_text (optional g.tenant_id)
  project_id ← optional_token_text (optional g.project_id)
  workspace_id ← optional_token_text (optional g.workspace_id)
  parent ← optional_token_text (optional g.parent_delegation_id)
  ok tt

module _ {K : Type 0} (platform : Platform K) (signer : Signer) where
  unfoldable pub sign_delegation_token : Text → ℕ → Delegated → Result TokenError Value
  unfolding check_arguments token_text scope_list validate_limits check_window signed_payload
  sign_delegation_token uuid clock g =
      let id = given_or uuid g.delegation_id in
      do
        check_arguments g
        delegation_id ← token_text (str id)
        actions ← scope_list (arr (text_items g.allowed_actions))
        resources ← scope_list (arr (text_items g.allowed_resource_scopes))
        limits ←
            validate_limits (int g.delegation_depth) (int g.max_depth) (int g.max_fan_out)
              g.parent_delegation_id
        check_window platform.fromisoformat g.issued_at g.expires_at none clock (pos 0)
        payload ←
            signed_payload platform domain_delegation canonicalization_failed
              (delegation_token g id actions resources [])
        ok (obj (delegation_token g id actions resources (signer.encode (signer.sign payload))))
