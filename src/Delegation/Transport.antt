-- ===== src/Delegation/Transport.antt =====
-- `verify_delegation_transport` of hlinor_registry/delegation.py: the envelope that carries a chain.
use hlinor_agent_registry.Prelude.{
  Bool, true, false, Option, none, some, List, [], ◌∷◌, all, Text, codes, text_eq, Value, str, arr,
  obj, Fields, get_value, Result, ok, err, ◌>>=◌, ◌>>◌, guard,
}
use hlinor_agent_registry.Tokens.{
  TokenError, invalid, version_unsupported, context_mismatch, issuer_unbound, issuer_invalid,
  signature_invalid, guard_required, revoked, replayed, store_unavailable, Platform, token_text,
  only_fields, is_text, Seal, read_seal, issuer_ok, signed_payload, check_seal,
}
use hlinor_agent_registry.Tokens.Window.{check_window}
use hlinor_agent_registry.ReplayGuard.{ReplayGuard}
use hlinor_agent_registry.Approval.{Moment}
use hlinor_agent_registry.Delegation.{
  DelegationTrustedKey, VerifiedDelegation, Context, identity_pair, identity_binding,
}
use hlinor_agent_registry.Delegation.Token.{key_or}
use hlinor_agent_registry.Delegation.Chain.{FanOutView, ChainContext, verify_delegation_chain}

-- The arguments named `expected_` that the envelope itself is compared with.
pub record Receiver : Type 0 where
  pub sender_deployment_identity : Text
  pub sender_workload_identity : Text
  pub receiver_deployment_identity : Text
  pub receiver_workload_identity : Text

pub record VerifiedDelegationTransport : Type 0 where
  pub transport_id : Text
  pub audience : Text
  pub sender_agent_id : Text
  pub sender_deployment_identity : Text
  pub sender_workload_identity : Text
  pub receiver_deployment_identity : Text
  pub receiver_workload_identity : Text
  pub issued_at : Text
  pub expires_at : Text
  pub nonce : Text
  pub key_id : Text
  pub issuer : Text
  pub delegation_chain : List VerifiedDelegation

-- The texts that every envelope has.
pub record Envelope : Type 0 where
  pub transport_id : Text
  pub audience : Text
  pub sender_agent_id : Text
  pub receiver_deployment_identity : Text
  pub receiver_workload_identity : Text
  pub issued_at : Text
  pub expires_at : Text
  pub nonce : Text

unfoldable pub read_envelope : Fields → Result TokenError Envelope
unfolding token_text
read_envelope fs = do
  transport_id ← token_text (get_value (codes "transport_id") fs)
  audience ← token_text (get_value (codes "audience") fs)
  sender ← token_text (get_value (codes "sender_agent_id") fs)
  deployment ← token_text (get_value (codes "receiver_deployment_identity") fs)
  workload ← token_text (get_value (codes "receiver_workload_identity") fs)
  issued_at ← token_text (get_value (codes "issued_at") fs)
  expires_at ← token_text (get_value (codes "expires_at") fs)
  nonce ← token_text (get_value (codes "nonce") fs)
  ok (record {
    transport_id = transport_id;
    audience = audience;
    sender_agent_id = sender;
    receiver_deployment_identity = deployment;
    receiver_workload_identity = workload;
    issued_at = issued_at;
    expires_at = expires_at;
    nonce = nonce;
  })

abbrev transport_fields : List Text
transport_fields =
    codes "schema_version"
    ∷ codes "transport_id"
    ∷ codes "audience"
    ∷ codes "sender_agent_id"
    ∷ codes "sender_deployment_identity"
    ∷ codes "sender_workload_identity"
    ∷ codes "receiver_deployment_identity"
    ∷ codes "receiver_workload_identity"
    ∷ codes "delegation_chain"
    ∷ codes "issued_at"
    ∷ codes "expires_at"
    ∷ codes "nonce"
    ∷ codes "signature"
    ∷ []

abbrev is_sequence : Value → Bool
is_sequence (arr vs) = true
is_sequence _ = false

abbrev equals : Text × Value → Bool
equals entry = is_text entry.0 entry.1

-- The comparisons with the receiving context, which raise one exception.
abbrev pub is_received : ChainContext → Receiver → Fields → Bool
is_received c r fs = all equals (
    (c.audience, get_value (codes "audience") fs)
    ∷ (c.subject_agent_id, get_value (codes "sender_agent_id") fs)
    ∷ (r.sender_deployment_identity, get_value (codes "sender_deployment_identity") fs)
    ∷ (r.sender_workload_identity, get_value (codes "sender_workload_identity") fs)
    ∷ (r.receiver_deployment_identity, get_value (codes "receiver_deployment_identity") fs)
    ∷ (r.receiver_workload_identity, get_value (codes "receiver_workload_identity") fs)
    ∷ [])

-- What the identity binding of the envelope's key reads: the expected identities, and that it is strict.
abbrev sender_context : ChainContext → Receiver → Context
sender_context c r = record {
  audience = c.audience;
  subject_agent_id = none;
  session_id = none;
  tenant_id = none;
  project_id = none;
  workspace_id = none;
  issuer_deployment_identity = some r.sender_deployment_identity;
  issuer_workload_identity = some r.sender_workload_identity;
  require_identity_binding = true;
}

-- The chain is verified for the sender, strictly, and with no identity expected of its leaf.
abbrev carried : ChainContext → ChainContext
carried c = record c {
  leaf_deployment_identity = none;
  leaf_workload_identity = none;
  require_identity_binding = true;
}

module _ {K : Type 0} (platform : Platform K)
    (trusted_keys : Text → Option (DelegationTrustedKey K)) (view : Option FanOutView)
    (c : ChainContext) (r : Receiver) (moment : Moment) where
  -- The key of the envelope, its identities and its signature.
  unfoldable pub check_carrier : Fields → Envelope → Seal → Result TokenError (Unit {0})
  unfolding identity_binding check_seal signed_payload
  check_carrier fs e seal = do
    trusted ← key_or (trusted_keys seal.key_id)
    guard (text_eq trusted.agent_id e.sender_agent_id) issuer_unbound
    identity_binding trusted (get_value (codes "sender_deployment_identity") fs)
        (get_value (codes "sender_workload_identity") fs) (sender_context c r)
    guard (issuer_ok trusted.issuer seal.issuer) issuer_invalid
    check_seal platform trusted.public_key seal.value (
        signed_payload platform (codes "hlinor/agent-delegation-transport/v1") signature_invalid fs)

  -- Everything before the replay guard.
  unfoldable pub transport_facts : Value → Result TokenError VerifiedDelegationTransport
  unfolding read_envelope identity_pair check_window read_seal check_carrier verify_delegation_chain
  transport_facts (obj fs) = do
    guard (only_fields transport_fields fs) invalid
    guard (is_text (codes "1.0") (get_value (codes "schema_version") fs)) version_unsupported
    e ← read_envelope fs
    identity_pair (get_value (codes "sender_deployment_identity") fs)
        (get_value (codes "sender_workload_identity") fs)
    identity_pair (str r.sender_deployment_identity) (str r.sender_workload_identity)
    guard (is_received c r fs) context_mismatch
    check_window platform.fromisoformat e.issued_at e.expires_at moment.current_time moment.clock
        moment.clock_skew_seconds
    seal ← read_seal (get_value (codes "signature") fs)
    check_carrier fs e seal
    guard (is_sequence (get_value (codes "delegation_chain") fs)) invalid
    chain ←
        verify_delegation_chain platform trusted_keys view (carried c) moment
          (get_value (codes "delegation_chain") fs)
    ok (record {
      transport_id = e.transport_id;
      audience = e.audience;
      sender_agent_id = e.sender_agent_id;
      sender_deployment_identity = r.sender_deployment_identity;
      sender_workload_identity = r.sender_workload_identity;
      receiver_deployment_identity = e.receiver_deployment_identity;
      receiver_workload_identity = e.receiver_workload_identity;
      issued_at = e.issued_at;
      expires_at = e.expires_at;
      nonce = e.nonce;
      key_id = seal.key_id;
      issuer = seal.issuer;
      delegation_chain = chain;
    })
  transport_facts _ = err invalid

  abbrev accepted_or :
      VerifiedDelegationTransport
      → Result TokenError Bool
      → Result TokenError VerifiedDelegationTransport
  accepted_or t (err problem) = err store_unavailable
  accepted_or t (ok true) = ok t
  accepted_or t (ok false) = err replayed

  abbrev pub accept_after :
      {S : Type 0}
      → ReplayGuard S
      → VerifiedDelegationTransport
      → S
      → Result TokenError Bool
      → Result TokenError VerifiedDelegationTransport × S
  accept_after replay_guard t store (err problem) = (err store_unavailable, store)
  accept_after replay_guard t store (ok true) = (err revoked, store)
  accept_after replay_guard t store (ok false) =
      let after = replay_guard.claim t.transport_id t.nonce t.expires_at store in
      (accepted_or t after.0, after.1)

  abbrev pub accept_once :
      {S : Type 0}
      → Option (ReplayGuard S)
      → S
      → Result TokenError VerifiedDelegationTransport
      → Result TokenError VerifiedDelegationTransport × S
  accept_once replay_guard store (err problem) = (err problem, store)
  accept_once none store (ok t) = (err guard_required, store)
  accept_once (some replay_guard) store (ok t) =
      accept_after replay_guard t store (replay_guard.is_revoked t.transport_id t.nonce store)

  unfoldable pub verify_delegation_transport :
      {S : Type 0}
      → Option (ReplayGuard S)
      → Value
      → S
      → Result TokenError VerifiedDelegationTransport × S
  unfolding transport_facts
  verify_delegation_transport replay_guard envelope store =
      accept_once replay_guard store (transport_facts envelope)
