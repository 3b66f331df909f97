-- ===== src/Messages/Signing.antt =====
-- `sign_scoped_message` of hlinor_registry/message_transport.py.
use hlinor_agent_registry.Prelude.{
  ℕ, Option, none, some, [], length, leb, pos, Text, codes, Value, str, obj, Fields, end, field,
  Result, ok, ◌>>=◌, ◌>>◌, guard,
}
use hlinor_agent_registry.ExecutionScope.{ExecutionScope}
use hlinor_agent_registry.Tokens.{TokenError, payload_invalid, Platform, set_field}
use hlinor_agent_registry.Approval.Signing.{Signer}
use hlinor_agent_registry.Messages.{message_text, message_window, domained, payload_or}

-- The arguments of the signing.
pub record Letter : Type 0 where
  pub key_id : Text
  pub issuer : Text
  pub sender_agent_id : Text
  pub recipient_agent_id : Text
  pub scope : ExecutionScope
  pub body : Value
  pub issued_at : Text
  pub expires_at : Text
  pub nonce : Text
  pub message_id : Option Text

abbrev letter_id : Text → Option Text → Text
letter_id uuid none = uuid
letter_id uuid (some id) = id

abbrev pub letter_fields : Letter → Text → Text → Fields
letter_fields g id value = field (codes "schema_version") (str (codes "1.0")) (
    field (codes "message_id") (str id) (
      field (codes "project_id") (str g.scope.project_id) (
        field (codes "workspace_id") (str g.scope.workspace_id) (
          field (codes "sender_agent_id") (str g.sender_agent_id) (
            field (codes "recipient_agent_id") (str g.recipient_agent_id) (
              field (codes "body") g.body (
                field (codes "issued_at") (str g.issued_at) (
                  field (codes "expires_at") (str g.expires_at) (
                    field (codes "nonce") (str g.nonce) (
                      field (codes "signature")
                        (obj (
                          field (codes "algorithm") (str (codes "Ed25519")) (
                            field (codes "key_id") (str g.key_id) (
                              field (codes "issuer") (str g.issuer)
                                (field (codes "value") (str value) end)))))
                        end))))))))))

module _ {K : Type 0} (platform : Platform K) (signer : Signer) where
  unfoldable pub sign_scoped_message : Text → ℕ → Letter → Result TokenError Value
  unfolding message_text message_window set_field
  sign_scoped_message uuid clock g =
      let id = letter_id uuid g.message_id in
      do
        key_id ← message_text (str g.key_id)
        issuer ← message_text (str g.issuer)
        sender ← message_text (str g.sender_agent_id)
        recipient ← message_text (str g.recipient_agent_id)
        nonce ← message_text (str g.nonce)
        message_id ← message_text (str id)
        body ← payload_or (platform.canonical g.body) payload_invalid
        guard (leb (length {A = ℕ} body) 1048576) payload_invalid
        message_window platform.fromisoformat g.issued_at g.expires_at
            (record { current_time = none; clock = clock; clock_skew_seconds = pos 0 })
        payload ← payload_or (platform.canonical (domained (letter_fields g id []))) payload_invalid
        ok (obj (letter_fields g id (signer.encode (signer.sign payload))))
