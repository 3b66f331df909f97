-- ===== src/Tokens.antt =====
-- What the signed tokens of hlinor_registry/execution_receipts.py, delegation.py and
-- message_transport.py share: reading their fields, and checking their signatures. The codes of the
-- exceptions are constructors, without the prefix of the module that raises them.
pub mod Window
pub mod Reading
pub mod Setting
mod Tests
use hlinor_agent_registry.Prelude.{
  ℕ, Bool, true, false, not, ◌&&◌, ◌||◌, Option, none, some, List, [], ◌∷◌, if◌then◌else◌, is_empty,
  any, all, Text, codes, text_eq, strip, is_blank, Value, null, str, obj, Fields, end, field,
  get_value, has_field, entries, Result, ok, err, ◌>>=◌, ◌>>◌, guard,
}
use hlinor_agent_registry.Policies.Clock.{Stamp}

pub data TokenError : Type 0 where
  value_error invalid field_invalid version_unsupported : TokenError
  timestamp_invalid window_invalid not_yet_valid expired : TokenError
  scope_invalid limit_invalid chain_invalid context_mismatch : TokenError
  identity_invalid identity_unbound identity_mismatch : TokenError
  signature_invalid key_untrusted issuer_unbound issuer_invalid : TokenError
  canonicalization_failed payload_invalid target_mismatch request_mismatch : TokenError
  recipient_mismatch scope_mismatch guard_required revoked replayed store_unavailable : TokenError
  scope_escalation chain_too_deep fanout_guard_required fanout_unregistered : TokenError
  action_not_allowed resource_not_allowed fanout_exceeded : TokenError

-- The functions of other packages: `datetime.fromisoformat`, `rfc8785.dumps`, `base64.b64decode` and the
-- verification of an Ed25519 signature by a key.
pub record Platform (K : Type 0) : Type 0 where
  pub fromisoformat : Text → Option Stamp
  pub canonical : Value → Option Text
  pub decode : Text → Option Text
  pub verify : K → Text → Text → Bool

-- `_validate_text`
unfoldable pub token_text : Value → Result TokenError Text
token_text (str s) = if is_blank s || not (text_eq s (strip s)) then err field_invalid else ok s
token_text _ = err field_invalid

-- `_validate_optional_text`
unfoldable pub optional_token_text : Value → Result TokenError (Option Text)
unfolding token_text
optional_token_text null = ok none
optional_token_text v = do s ← token_text v; ok (some s)

-- `set(mapping).difference(allowed)` is empty
abbrev pub only_fields : List Text → Fields → Bool
only_fields allowed fs = all (λ (entry : Text × Value). any (text_eq entry.0) allowed) (entries fs)

-- `set(mapping) == names`
abbrev pub same_fields : List Text → Fields → Bool
same_fields names fs = only_fields names fs && all (λ (name : Text). has_field name fs) names

-- `value == text`, and the same for an expected value that may be None
abbrev pub is_text : Text → Value → Bool
is_text t (str s) = text_eq s t
is_text t _ = false

abbrev pub is_expected : Option Text → Value → Bool
is_expected none null = true
is_expected none _ = false
is_expected (some t) v = is_text t v

-- `mapping[key] = value`
unfoldable pub set_field : Text → Value → Fields → Fields
set_field k v end = field k v end
set_field k v (field j w fs) = if text_eq j k then field j v fs else field j w (set_field k v fs)

-- `payload["signature"]["value"] = ""`, under the domain of the token; none if there is no signature
abbrev pub blanked : Value → Option Value
blanked (obj signature) = some (obj (set_field (codes "value") (str []) signature))
blanked _ = none

abbrev pub payload_with : Text → Fields → Option Value → Option Value
payload_with domain token none = none
payload_with domain token (some signature) = some (
    obj (
      field (codes "domain") (str domain)
        (field (codes "payload") (obj (set_field (codes "signature") signature token)) end)))

unfoldable pub signed_value : Text → Fields → Option Value
signed_value domain token =
    payload_with domain token (blanked (get_value (codes "signature") token))

abbrev pub signature_fields : List Text
signature_fields = codes "algorithm" ∷ codes "key_id" ∷ codes "issuer" ∷ codes "value" ∷ []

-- The four fields of a signature that passed the checks of its shape.
pub record Seal : Type 0 where
  pub key_id : Text
  pub issuer : Text
  pub value : Value

unfoldable pub read_seal : Value → Result TokenError Seal
unfolding token_text
read_seal (obj fs) = do
  guard (same_fields signature_fields fs) signature_invalid
  guard (is_text (codes "Ed25519") (get_value (codes "algorithm") fs)) signature_invalid
  key_id ← token_text (get_value (codes "key_id") fs)
  issuer ← token_text (get_value (codes "issuer") fs)
  ok (record { key_id = key_id; issuer = issuer; value = get_value (codes "value") fs })
read_seal _ = err signature_invalid

-- `trusted.issuer is None or trusted.issuer == issuer`
abbrev pub issuer_ok : Option Text → Text → Bool
issuer_ok none issuer = true
issuer_ok (some expected) issuer = text_eq expected issuer

module _ {K : Type 0} (platform : Platform K) where
  -- The canonical bytes that a signature covers, or the error that stands for their absence.
  unfoldable pub signed_payload : Text → TokenError → Fields → Result TokenError Text
  unfolding signed_value
  signed_payload domain problem token = elim (signed_value domain token) [
    | none ↦ err signature_invalid
    | some v ↦ elim (platform.canonical v) [ none ↦ err problem | some bytes ↦ ok bytes ]
  ]

  abbrev pub check_bytes : K → Option Text → Result TokenError Text → Result TokenError (Unit {0})
  check_bytes key none payload = err signature_invalid
  check_bytes key (some bytes) payload =
      payload >>= λ text. guard (platform.verify key bytes text) signature_invalid

  -- The value of a signature is a non-empty text that decodes to bytes which the key accepts.
  unfoldable pub check_seal : K → Value → Result TokenError Text → Result TokenError (Unit {0})
  check_seal key (str encoded) payload =
      if is_empty encoded
      then err signature_invalid
      else check_bytes key (platform.decode encoded) payload
  check_seal key _ payload = err signature_invalid
