-- ===== src/Messages/Tests.antt =====
-- A message that is signed and delivered.
use hlinor_agent_registry.Prelude.{
  ℕ, ◌*◌, ◌≡◌, refl, Bool, true, Option, none, some, List, [], ◌∷◌, ◌++◌, million, Text, codes,
  text_eq, Value, null, str, obj, Fields, get_value, Result, ok, err,
}
use hlinor_agent_registry.ExecutionScope.{ExecutionScope}
use hlinor_agent_registry.Samples.Signing.{
  plain_platform, plain_signer, moment_at, empty_store, working_at, time_of,
}
use hlinor_agent_registry.ReplayGuard.{ReplayGuard, ReplayStore, sqlite_guard}
use hlinor_agent_registry.Messages.{MessageTrustedKey, VerifiedScopedMessage, verify_scoped_message}
use hlinor_agent_registry.Messages.Delivery.{IsFrom, IsClaimed, verify_scoped_message-bound}
use hlinor_agent_registry.Messages.Signing.{Letter, sign_scoped_message}

abbrev lead_message_key : Text → Option (MessageTrustedKey Text)
lead_message_key id = some (record {
  key_id = codes "k";
  agent_id = codes "lead";
  public_key = codes "lead";
  issuer = none;
})

abbrev the_scope : ExecutionScope
the_scope = record { project_id = codes "p"; workspace_id = codes "w" }

abbrev letter : Letter
letter = record {
  key_id = codes "k";
  issuer = codes "desk";
  sender_agent_id = codes "lead";
  recipient_agent_id = codes "bot";
  scope = the_scope;
  body = str (codes "hello");
  issued_at = codes "t";
  expires_at = codes "ttttt";
  nonce = codes "n";
  message_id = none;
}

abbrev sent : Value
sent = elim (sign_scoped_message plain_platform plain_signer (codes "m") (3 * million) letter) [
  | err problem ↦ null
  | ok v ↦ v
]

abbrev received : VerifiedScopedMessage
received = record {
  message_id = codes "m";
  scope = the_scope;
  sender_agent_id = codes "lead";
  recipient_agent_id = codes "bot";
  body = str (codes "hello");
  issued_at = codes "t";
  expires_at = codes "ttttt";
  nonce = codes "n";
  key_id = codes "k";
  issuer = codes "desk";
}

abbrev shared_guard : Option (ReplayGuard ReplayStore)
shared_guard = some (sqlite_guard time_of (working_at 3))

message_received :
    (verify_scoped_message plain_platform lead_message_key the_scope
      (codes "bot")
      (moment_at 3)
      shared_guard
      sent
      empty_store).0
    ≡ ok received
unfolding verify_scoped_message sign_scoped_message hlinor_agent_registry.Prelude.is_blank text_eq
    hlinor_agent_registry.Samples.Signing.written hlinor_agent_registry.Prelude.entries
    hlinor_agent_registry.Prelude.has_field get_value
    hlinor_agent_registry.ReplayGuard.sqlite_is_revoked
    hlinor_agent_registry.ReplayGuard.sqlite_claim
message_received = refl

verify_scoped_message-bound_example :
    IsFrom plain_platform lead_message_key the_scope (codes "bot") (moment_at 3) sent received
    × IsClaimed plain_platform lead_message_key the_scope
        (codes "bot")
        (moment_at 3)
        shared_guard
        received
        empty_store
verify_scoped_message-bound_example =
    verify_scoped_message-bound plain_platform lead_message_key the_scope (codes "bot")
      (moment_at 3) shared_guard sent received empty_store message_received
