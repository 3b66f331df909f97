-- ===== src/Messages.antt =====
-- hlinor_registry/message_transport.py: messages between agents, signed and bound to a scope. The length
-- of canonical bytes is that of the text that stands for them.
pub mod Reading
pub mod Window
pub mod Delivery
pub mod Signing
mod Tests
use hlinor_agent_registry.Prelude.{
  ℕ, ◌+◌, ◌*◌, Bool, true, false, not, ◌&&◌, ◌||◌, Option, none, some, List, [], ◌∷◌, ◌++◌,
  if◌then◌else◌, length, is_empty, leb, ltb, ◌==◌, ℤ, pos, negsuc, million, Text, codes, text_eq,
  Value, str, obj, Fields, end, field, get_value, Result, ok, err, ◌>>=◌, ◌>>◌, guard,
}
use hlinor_agent_registry.Policies.Clock.{Stamp, drop_last}
use hlinor_agent_registry.ExecutionScope.{ExecutionScope, new_scope}
use hlinor_agent_registry.Tokens.{
  TokenError, value_error, invalid, field_invalid, version_unsupported, timestamp_invalid,
  not_yet_valid, expired, scope_invalid, scope_mismatch, recipient_mismatch, payload_invalid,
  key_untrusted, issuer_invalid, signature_invalid, guard_required, revoked, replayed,
  store_unavailable, Platform, token_text, same_fields, is_text, set_field, blanked, Seal,
  read_seal, issuer_ok, check_seal,
}
use hlinor_agent_registry.Tokens.Window.{instant_now}
use hlinor_agent_registry.ReplayGuard.{ReplayGuard}
use hlinor_agent_registry.Approval.{Moment}

pub record MessageTrustedKey (K : Type 0) : Type 0 where
  pub key_id : Text
  pub agent_id : Text
  pub public_key : K
  pub issuer : Option Text

pub record VerifiedScopedMessage : Type 0 where
  pub message_id : Text
  pub scope : ExecutionScope
  pub sender_agent_id : Text
  pub recipient_agent_id : Text
  pub body : Value
  pub issued_at : Text
  pub expires_at : Text
  pub nonce : Text
  pub key_id : Text
  pub issuer : Text

-- `_text`
unfoldable pub message_text : Value → Result TokenError Text
unfolding token_text
message_text v = do s ← token_text v; guard (leb (length {A = ℕ} s) 256) field_invalid; ok s

abbrev ends_in_capital_z : Text → Bool
ends_in_capital_z [] = false
ends_in_capital_z (c ∷ []) = c == b'Z'
ends_in_capital_z (c ∷ s) = ends_in_capital_z s

abbrev zoned : Text → Text
zoned text = if ends_in_capital_z text then drop_last text ++ codes "+00:00" else text

abbrev parsed : Option Stamp → Result TokenError Stamp
parsed none = err timestamp_invalid
parsed (some stamp) = ok stamp

abbrev seconds_of : ℤ → Result TokenError ℕ
seconds_of (pos seconds) = ok (seconds * million)
seconds_of (negsuc n) = err value_error

module _ (fromisoformat : Text → Option Stamp) where
  -- `_window`
  unfoldable pub message_window : Text → Text → Moment → Result TokenError (Unit {0})
  unfolding drop_last instant_now
  message_window issued_at expires_at moment = do
    skew ← seconds_of moment.clock_skew_seconds
    issued ← parsed (fromisoformat (zoned issued_at))
    expires ← parsed (fromisoformat (zoned expires_at))
    guard (issued.aware && expires.aware) timestamp_invalid
    guard (ltb issued.instant expires.instant) timestamp_invalid
    now ← instant_now fromisoformat moment.current_time moment.clock
    guard (leb issued.instant (now + skew)) not_yet_valid
    guard (leb now (expires.instant + skew)) expired

abbrev pub message_fields : List Text
message_fields =
    codes "schema_version"
    ∷ codes "message_id"
    ∷ codes "project_id"
    ∷ codes "workspace_id"
    ∷ codes "sender_agent_id"
    ∷ codes "recipient_agent_id"
    ∷ codes "body"
    ∷ codes "issued_at"
    ∷ codes "expires_at"
    ∷ codes "nonce"
    ∷ codes "signature"
    ∷ []

-- `_scope`, whose errors are one
abbrev pub scope_or : Value → Value → Result TokenError ExecutionScope
scope_or project_id workspace_id = elim (new_scope project_id workspace_id) [
  | err problem ↦ err scope_invalid
  | ok scope ↦ ok scope
]

abbrev pub same_scope : ExecutionScope → ExecutionScope → Bool
same_scope s t = text_eq s.project_id t.project_id && text_eq s.workspace_id t.workspace_id

-- The six texts of a message.
pub record Addressed : Type 0 where
  pub message_id : Text
  pub sender_agent_id : Text
  pub recipient_agent_id : Text
  pub issued_at : Text
  pub expires_at : Text
  pub nonce : Text

unfoldable pub read_addressed : Fields → Result TokenError Addressed
unfolding message_text
read_addressed fs = do
  message_id ← message_text (get_value (codes "message_id") fs)
  sender ← message_text (get_value (codes "sender_agent_id") fs)
  recipient ← message_text (get_value (codes "recipient_agent_id") fs)
  issued_at ← message_text (get_value (codes "issued_at") fs)
  expires_at ← message_text (get_value (codes "expires_at") fs)
  nonce ← message_text (get_value (codes "nonce") fs)
  ok (record {
    message_id = message_id;
    sender_agent_id = sender;
    recipient_agent_id = recipient;
    issued_at = issued_at;
    expires_at = expires_at;
    nonce = nonce;
  })

-- `_signed_payload`: the message under its domain, a signature without its value
abbrev pub domained : Fields → Value
domained fs = elim (blanked (get_value (codes "signature") fs)) [
  | none ↦ obj (field (codes "domain") (str (codes "hlinor/scoped-message/v1")) fs)
  | some signature ↦ obj (
      field (codes "domain") (str (codes "hlinor/scoped-message/v1"))
        (set_field (codes "signature") signature fs))
]

abbrev pub payload_or : Option Text → TokenError → Result TokenError Text
payload_or none problem = err problem
payload_or (some bytes) problem = ok bytes

-- The signature of a message, whose names are held to the length of a text too.
unfoldable pub message_seal : Value → Result TokenError Seal
unfolding read_seal message_text
message_seal v = do
  seal ← read_seal v
  key_id ← message_text (str seal.key_id)
  issuer ← message_text (str seal.issuer)
  ok seal

abbrev pub sender_key :
    {K : Type 0}
    → Text
    → Text
    → Option (MessageTrustedKey K)
    → Result TokenError (MessageTrustedKey K)
sender_key key_id sender none = err key_untrusted
sender_key key_id sender (some key) =
    if text_eq key.key_id key_id && text_eq key.agent_id sender then ok key else err key_untrusted

-- `isinstance(encoded, str) and encoded`
abbrev pub is_written : Value → Bool
is_written (str s) = not (is_empty s)
is_written _ = false

-- The fields up to the scope, against the recipient and the scope expected.
unfoldable pub read_message :
    ExecutionScope → Text → Fields → Result TokenError (Addressed × ExecutionScope)
unfolding message_text read_addressed new_scope
read_message expected_scope expected_recipient fs = do
  wanted ← message_text (str expected_recipient)
  guard (same_fields message_fields fs) invalid
  guard (is_text (codes "1.0") (get_value (codes "schema_version") fs)) version_unsupported
  a ← read_addressed fs
  guard (text_eq a.recipient_agent_id expected_recipient) recipient_mismatch
  scope ← scope_or (get_value (codes "project_id") fs) (get_value (codes "workspace_id") fs)
  guard (same_scope scope expected_scope) scope_mismatch
  ok (a, scope)

abbrev pub message_of : Fields → Addressed → ExecutionScope → Seal → VerifiedScopedMessage
message_of fs a scope seal = record {
  message_id = a.message_id;
  scope = scope;
  sender_agent_id = a.sender_agent_id;
  recipient_agent_id = a.recipient_agent_id;
  body = get_value (codes "body") fs;
  issued_at = a.issued_at;
  expires_at = a.expires_at;
  nonce = a.nonce;
  key_id = seal.key_id;
  issuer = seal.issuer;
}

module _ {K : Type 0} (platform : Platform K)
    (trusted_keys : Text → Option (MessageTrustedKey K)) where
  unfoldable pub check_sender : Fields → Text → Seal → Result TokenError (Unit {0})
  unfolding check_seal set_field
  check_sender fs sender seal = do
    key ← sender_key seal.key_id sender (trusted_keys seal.key_id)
    guard (issuer_ok key.issuer seal.issuer) issuer_invalid
    check_seal platform key.public_key seal.value
        (payload_or (platform.canonical (domained fs)) signature_invalid)

  -- Everything before the replay guard.
  unfoldable pub message_facts :
      ExecutionScope → Text → Moment → Value → Result TokenError VerifiedScopedMessage
  unfolding read_message message_window message_seal check_sender
  message_facts expected_scope expected_recipient moment (obj fs) = do
    (a, scope) ← read_message expected_scope expected_recipient fs
    body ← payload_or (platform.canonical (get_value (codes "body") fs)) payload_invalid
    guard (leb (length {A = ℕ} body) 1048576) payload_invalid
    message_window platform.fromisoformat a.issued_at a.expires_at moment
    seal ← message_seal (get_value (codes "signature") fs)
    guard (is_written seal.value) signature_invalid
    check_sender fs a.sender_agent_id seal
    ok (message_of fs a scope seal)
  message_facts expected_scope expected_recipient moment _ = err invalid

  abbrev delivered_or :
      VerifiedScopedMessage → Result TokenError Bool → Result TokenError VerifiedScopedMessage
  delivered_or m (err problem) = err store_unavailable
  delivered_or m (ok true) = ok m
  delivered_or m (ok false) = err replayed

  abbrev pub deliver_after :
      {S : Type 0}
      → ReplayGuard S
      → VerifiedScopedMessage
      → S
      → Result TokenError Bool
      → Result TokenError VerifiedScopedMessage × S
  deliver_after replay_guard m store (err problem) = (err store_unavailable, store)
  deliver_after replay_guard m store (ok true) = (err revoked, store)
  deliver_after replay_guard m store (ok false) =
      let after = replay_guard.claim m.message_id m.nonce m.expires_at store in
      (delivered_or m after.0, after.1)

  unfoldable pub deliver_once :
      {S : Type 0}
      → Option (ReplayGuard S)
      → VerifiedScopedMessage
      → S
      → Result TokenError VerifiedScopedMessage × S
  deliver_once none m store = (err guard_required, store)
  deliver_once (some replay_guard) m store =
      deliver_after replay_guard m store (replay_guard.is_revoked m.message_id m.nonce store)

  abbrev pub delivered :
      {S : Type 0}
      → Option (ReplayGuard S)
      → S
      → Result TokenError VerifiedScopedMessage
      → Result TokenError VerifiedScopedMessage × S
  delivered replay_guard store (err problem) = (err problem, store)
  delivered replay_guard store (ok m) = deliver_once replay_guard m store

  unfoldable pub verify_scoped_message :
      {S : Type 0}
      → ExecutionScope
      → Text
      → Moment
      → Option (ReplayGuard S)
      → Value
      → S
      → Result TokenError VerifiedScopedMessage × S
  unfolding message_facts deliver_once
  verify_scoped_message expected_scope expected_recipient moment replay_guard message store =
      delivered replay_guard store (message_facts expected_scope expected_recipient moment message)
