-- ===== src/Approval.antt =====
-- The approval tokens of hlinor_registry/execution_receipts.py: signing one, and verifying one against
-- the request that it is shown for.
pub mod Verification
pub mod Reading
pub mod SingleUse
pub mod Signing
pub mod RoundTrip
mod Tests
use hlinor_agent_registry.Prelude.{
  ℕ, Bool, true, false, ◌&&◌, ◌||◌, Option, none, some, List, [], ◌∷◌, if◌then◌else◌, any, all, ℤ,
  pos, Text, codes, text_eq, strip, is_blank, Value, null, bool, str, obj, Fields, end, field,
  get_value, Result, ok, err, ◌>>=◌, ◌>>◌, guard,
}
use hlinor_agent_registry.Policies.Clock.{Stamp}
use hlinor_agent_registry.Tokens.{
  TokenError, invalid, version_unsupported, scope_invalid, key_untrusted, issuer_invalid,
  canonicalization_failed, target_mismatch, request_mismatch, guard_required, revoked, replayed,
  Platform, token_text, only_fields, is_text, is_expected, set_field, Seal, read_seal, issuer_ok,
  signed_payload, check_seal,
}
use hlinor_agent_registry.Tokens.Window.{check_window}
use hlinor_agent_registry.ReplayGuard.{ReplayGuard}

pub record TrustedKey (K : Type 0) : Type 0 where
  pub public_key : K
  pub issuer : Option Text

-- What the request is: the arguments of the verification named `expected_`.
pub record Target : Type 0 where
  pub agent_id : Text
  pub action : Text
  pub arguments_digest : Text
  pub resource : Option Text
  pub tool_id : Option Text
  pub session_id : Option Text
  pub tenant_id : Option Text
  pub project_id : Option Text
  pub workspace_id : Option Text
  pub request_digest : Option Text

-- The time that the caller gives, the clock that stands in for it, and the tolerance in seconds.
pub record Moment : Type 0 where
  pub current_time : Option Stamp
  pub clock : ℕ
  pub clock_skew_seconds : ℤ

-- The fields that no verification reads as texts are kept as they are.
pub record VerifiedApproval : Type 0 where
  pub token_id : Text
  pub key_id : Text
  pub issuer : Text
  pub subject_agent_id : Text
  pub action : Text
  pub arguments_digest : Text
  pub resource : Value
  pub tool_id : Value
  pub session_id : Value
  pub tenant_id : Value
  pub project_id : Value
  pub workspace_id : Value
  pub request_digest : Value
  pub approver_role : Value
  pub issued_at : Text
  pub expires_at : Text
  pub nonce : Text
  pub single_use : Bool

abbrev pub approval_fields : List Text
approval_fields =
    codes "schema_version"
    ∷ codes "token_id"
    ∷ codes "subject_agent_id"
    ∷ codes "action"
    ∷ codes "tool_id"
    ∷ codes "resource"
    ∷ codes "arguments_digest"
    ∷ codes "request_digest"
    ∷ codes "session_id"
    ∷ codes "tenant_id"
    ∷ codes "project_id"
    ∷ codes "workspace_id"
    ∷ codes "approver_role"
    ∷ codes "issued_at"
    ∷ codes "expires_at"
    ∷ codes "nonce"
    ∷ codes "single_use"
    ∷ codes "signature"
    ∷ []

abbrev pub domain_approval : Text
domain_approval = codes "hlinor/approval-token/v1"

unfoldable pub scope_pair : Value → Value → Result TokenError (Unit {0})
unfolding token_text
scope_pair null null = ok tt
scope_pair null workspace_id = err scope_invalid
scope_pair project_id null = err scope_invalid
scope_pair project_id workspace_id = do
  project ← token_text project_id
  workspace ← token_text workspace_id
  ok tt

abbrev pub truth_of : Value → Result TokenError Bool
truth_of (bool b) = ok b
truth_of _ = err invalid

abbrev pub known_key : {K : Type 0} → Option (TrustedKey K) → Result TokenError (TrustedKey K)
known_key none = err key_untrusted
known_key (some key) = ok key

-- The texts that every token has.
pub record Named : Type 0 where
  pub token_id : Text
  pub subject_agent_id : Text
  pub action : Text
  pub arguments_digest : Text
  pub issued_at : Text
  pub expires_at : Text
  pub nonce : Text

unfoldable pub read_named : Fields → Result TokenError Named
unfolding token_text
read_named fs = do
  token_id ← token_text (get_value (codes "token_id") fs)
  subject_agent_id ← token_text (get_value (codes "subject_agent_id") fs)
  action ← token_text (get_value (codes "action") fs)
  arguments_digest ← token_text (get_value (codes "arguments_digest") fs)
  issued_at ← token_text (get_value (codes "issued_at") fs)
  expires_at ← token_text (get_value (codes "expires_at") fs)
  nonce ← token_text (get_value (codes "nonce") fs)
  ok (record {
    token_id = token_id;
    subject_agent_id = subject_agent_id;
    action = action;
    arguments_digest = arguments_digest;
    issued_at = issued_at;
    expires_at = expires_at;
    nonce = nonce;
  })

abbrev pub approval_of : Fields → Named → Bool → Seal → VerifiedApproval
approval_of fs named single_use seal = record {
  token_id = named.token_id;
  key_id = seal.key_id;
  issuer = seal.issuer;
  subject_agent_id = named.subject_agent_id;
  action = named.action;
  arguments_digest = named.arguments_digest;
  resource = get_value (codes "resource") fs;
  tool_id = get_value (codes "tool_id") fs;
  session_id = get_value (codes "session_id") fs;
  tenant_id = get_value (codes "tenant_id") fs;
  project_id = get_value (codes "project_id") fs;
  workspace_id = get_value (codes "workspace_id") fs;
  request_digest = get_value (codes "request_digest") fs;
  approver_role = get_value (codes "approver_role") fs;
  issued_at = named.issued_at;
  expires_at = named.expires_at;
  nonce = named.nonce;
  single_use = single_use;
}

-- The checks that the token alone decides, and the value of its signature.
unfoldable pub read_approval : Value → Result TokenError (VerifiedApproval × Value)
unfolding scope_pair read_named read_seal
read_approval (obj fs) = do
  guard (only_fields approval_fields fs) invalid
  guard (is_text (codes "1.0") (get_value (codes "schema_version") fs)) version_unsupported
  named ← read_named fs
  single_use ← truth_of (get_value (codes "single_use") fs)
  scope_pair (get_value (codes "project_id") fs) (get_value (codes "workspace_id") fs)
  seal ← read_seal (get_value (codes "signature") fs)
  ok (approval_of fs named single_use seal, seal.value)
read_approval _ = err invalid

-- The mapping `expected`, each value with the field that must equal it.
abbrev pub expected : Target → VerifiedApproval → List (Option Text × Value)
expected target a =
    (some target.agent_id, str a.subject_agent_id)
    ∷ (some target.action, str a.action)
    ∷ (some target.arguments_digest, str a.arguments_digest)
    ∷ (target.resource, a.resource)
    ∷ (target.tool_id, a.tool_id)
    ∷ (target.session_id, a.session_id)
    ∷ (target.tenant_id, a.tenant_id)
    ∷ (target.project_id, a.project_id)
    ∷ (target.workspace_id, a.workspace_id)
    ∷ []

abbrev pub meets : Option Text × Value → Bool
meets entry = is_expected entry.0 entry.1

abbrev pub is_target : Target → VerifiedApproval → Bool
is_target target a = all meets (expected target a)

abbrev pub is_request : Option Text → VerifiedApproval → Bool
is_request none a = true
is_request (some digest) a = is_text digest a.request_digest

abbrev pub fields_of : Value → Fields
fields_of (obj fs) = fs
fields_of _ = end

module _ {K : Type 0} (platform : Platform K) where
  -- The signature, by a key that is trusted, and the window.
  unfoldable pub check_authority :
      (Text → Option (TrustedKey K))
      → Moment
      → Fields
      → VerifiedApproval
      → Value
      → Result TokenError (Unit {0})
  unfolding signed_payload check_seal check_window
  check_authority trusted_keys moment fs a value = do
    trusted ← known_key (trusted_keys a.key_id)
    guard (issuer_ok trusted.issuer a.issuer) issuer_invalid
    check_seal platform trusted.public_key value
        (signed_payload platform domain_approval canonicalization_failed fs)
    check_window platform.fromisoformat a.issued_at a.expires_at moment.current_time moment.clock
        moment.clock_skew_seconds

  -- The verification before the single use.
  unfoldable pub approval_facts :
      (Text → Option (TrustedKey K)) → Target → Moment → Value → Result TokenError VerifiedApproval
  unfolding read_approval check_authority
  approval_facts trusted_keys target moment token = do
    (a, value) ← read_approval token
    check_authority trusted_keys moment (fields_of token) a value
    guard (is_target target a) target_mismatch
    guard (is_request target.request_digest a) request_mismatch
    ok a

  abbrev claimed_or : VerifiedApproval → Result TokenError Bool → Result TokenError VerifiedApproval
  claimed_or a (err problem) = err problem
  claimed_or a (ok true) = ok a
  claimed_or a (ok false) = err replayed

  abbrev pub use_after :
      {S : Type 0}
      → ReplayGuard S
      → VerifiedApproval
      → S
      → Result TokenError Bool
      → Result TokenError VerifiedApproval × S
  use_after replay_guard a store (err problem) = (err problem, store)
  use_after replay_guard a store (ok true) = (err revoked, store)
  use_after replay_guard a store (ok false) =
      let after = replay_guard.claim a.token_id a.nonce a.expires_at store in
      (claimed_or a after.0, after.1)

  unfoldable pub use_once :
      {S : Type 0}
      → Option (ReplayGuard S)
      → VerifiedApproval
      → S
      → Result TokenError VerifiedApproval × S
  use_once none a store = (err guard_required, store)
  use_once (some replay_guard) a store =
      use_after replay_guard a store (replay_guard.is_revoked a.token_id a.nonce store)

  abbrev pub used :
      {S : Type 0}
      → Option (ReplayGuard S)
      → S
      → Result TokenError VerifiedApproval
      → Result TokenError VerifiedApproval × S
  used replay_guard store (err problem) = (err problem, store)
  used replay_guard store (ok a) =
      if a.single_use then use_once replay_guard a store else (ok a, store)

  unfoldable pub verify_approval_token :
      {S : Type 0}
      → (Text → Option (TrustedKey K))
      → Target
      → Moment
      → Option (ReplayGuard S)
      → Value
      → S
      → Result TokenError VerifiedApproval × S
  unfolding approval_facts use_once
  verify_approval_token trusted_keys target moment replay_guard token store =
      used replay_guard store (approval_facts trusted_keys target moment token)
