-- ===== src/Receipts.antt =====
-- The receipt chain of hlinor_registry/execution_receipts.py, with validate_execution_receipt of
-- hlinor_registry/validator.py. The digest is an argument; records are the dictionaries of the list.
pub mod Hashing
pub mod Linked
pub mod Integrity
pub mod Sink
pub mod Appending
pub mod Placing
mod Tests
use hlinor_agent_registry.Prelude.{
  ℕ, suc, ◌+◌, Bool, true, false, not, ◌&&◌, ◌||◌, Option, none, some, List, [], ◌∷◌, ◌++◌,
  if◌then◌else◌, length, any, all, is_empty, ◌==◌, ℤ, pos, Text, codes, text_eq, Value, null, bool,
  int, str, obj, Fields, end, field, get_value, has_field, value_eq, Result, ok, err, ◌>>=◌, ◌>>◌,
  guard,
}
use hlinor_agent_registry.Tokens.{
  Platform, same_fields, is_text, is_expected, set_field, signature_fields,
}
use hlinor_agent_registry.Tokens.Reading.{optional}
use hlinor_agent_registry.Approval.{TrustedKey}

pub data ReceiptError : Type 0 where
  receipt_invalid sequence_broken link_broken hash_missing hash_wrong : ReceiptError
  seal_invalid key_unknown not_canonical checkpoint_wrong sink_broken : ReceiptError

abbrev pub required_fields : List Text
required_fields =
    codes "receipt_id"
    ∷ codes "session_id"
    ∷ codes "binding_id"
    ∷ codes "check_id"
    ∷ codes "timestamp"
    ∷ codes "actor"
    ∷ codes "requested_tool_name"
    ∷ codes "authorization_result"
    ∷ codes "side_effect_state"
    ∷ codes "matched_approved_binding"
    ∷ codes "registry_version"
    ∷ codes "policy_bundle_digest"
    ∷ codes "tool_descriptor_digest"
    ∷ codes "normalized_argument_digest"
    ∷ codes "target_resource_scope"
    ∷ codes "approval_id_or_lease_id"
    ∷ []

abbrev one_of : List Text → Value → Bool
one_of names v = any (λ (name : Text). is_text name v) names

abbrev truth_value : Value → Option Bool
truth_value (bool b) = some b
truth_value _ = none

abbrev is_object : Value → Bool
is_object (obj fs) = true
is_object _ = false

abbrev if_present : Text → (Value → Bool) → Fields → Bool
if_present name test fs = not (has_field name fs) || test (get_value name fs)

abbrev pub has_required : Fields → Bool
has_required fs = all (λ (name : Text). has_field name fs) required_fields

-- Whether `validate_execution_receipt` finds no error.
unfoldable pub valid_receipt : Fields → Bool
valid_receipt fs =
    let result = get_value (codes "authorization_result") fs in
    let state = get_value (codes "side_effect_state") fs in
    let matched = truth_value (get_value (codes "matched_approved_binding") fs) in
    has_required fs
    && (if_present (codes "authorization_result")
          (one_of
            (codes "allowed" ∷ codes "denied" ∷ codes "expired" ∷ codes "reapproval_required" ∷ []))
          fs
        && if_present (codes "side_effect_state")
            (one_of (codes "blocked_before_side_effect" ∷ codes "side_effect_attempted" ∷ [])) fs
        && if_present (codes "matched_approved_binding")
            (λ v. elim (truth_value v) [ none ↦ false | some b ↦ true ]) fs
        && if_present (codes "target_resource_scope") is_object fs
        && (not
              (one_of (codes "denied" ∷ codes "expired" ∷ codes "reapproval_required" ∷ []) result)
            || is_text (codes "blocked_before_side_effect") state)
        && (not (is_text (codes "allowed") result) || elim matched [ none ↦ false | some b ↦ b ]))

abbrev domain_receipt : Text
domain_receipt = codes "hlinor/execution-receipt/v1"

-- `signature["value"] = ""`, where there is a signature
abbrev pub blank_value : Value → Fields → Fields
blank_value (obj signature) payload =
    set_field (codes "signature") (obj (set_field (codes "value") (str []) signature)) payload
blank_value _ payload = payload

-- The record as it is hashed.
unfoldable pub hashed : Fields → Fields
unfolding set_field
hashed fs =
    let payload = set_field (codes "receipt_hash") (str []) fs in
    blank_value (get_value (codes "signature") fs) payload

-- The record as it is signed, its hash in it.
abbrev signed_record : Fields → Option Fields
signed_record fs = elim (get_value (codes "signature") fs) [
  | obj signature ↦
      some (set_field (codes "signature") (obj (set_field (codes "value") (str []) signature)) fs)
  | _ ↦ none
]

abbrev pub under_domain : Fields → Value
under_domain payload =
    obj (field (codes "domain") (str domain_receipt) (field (codes "payload") (obj payload) end))

module _ {K : Type 0} (platform : Platform K) (digest : Text → Text) where
  -- `_receipt_hash_payload`, and the hash of it
  abbrev pub receipt_hash_payload : Fields → Option Text
  receipt_hash_payload fs = platform.canonical (under_domain (hashed fs))

  abbrev pub hash_or : Option Text → Result ReceiptError Text
  hash_or none = err not_canonical
  hash_or (some bytes) = ok (codes "sha256:" ++ digest bytes)

  unfoldable pub receipt_hash : Fields → Result ReceiptError Text
  unfolding hashed
  receipt_hash fs = hash_or (receipt_hash_payload fs)

  -- `_receipt_signed_payload`
  unfoldable pub receipt_signed_payload : Fields → Result ReceiptError Text
  receipt_signed_payload fs = elim (signed_record fs) [
    | none ↦ err seal_invalid
    | some payload ↦ elim (platform.canonical (under_domain payload)) [
      | none ↦ err not_canonical
      | some bytes ↦ ok bytes
    ]
  ]

  abbrev text_or : ReceiptError → Value → Result ReceiptError Text
  text_or problem (str s) = ok s
  text_or problem _ = err problem

  abbrev written_or : ReceiptError → Value → Result ReceiptError Text
  written_or problem (str s) = if is_empty s then err problem else ok s
  written_or problem _ = err problem

  abbrev trusted_or : Option (TrustedKey K) → Result ReceiptError (TrustedKey K)
  trusted_or none = err key_unknown
  trusted_or (some key) = ok key

  abbrev signer_ok : Option Text → Value → Bool
  signer_ok none issuer = true
  signer_ok (some expected) issuer = is_text expected issuer

  abbrev bytes_or : Option Text → Result ReceiptError Text
  bytes_or none = err seal_invalid
  bytes_or (some bytes) = ok bytes

  unfoldable pub check_receipt_seal :
      (Text → Option (TrustedKey K)) → Fields → Value → Result ReceiptError (Unit {0})
  unfolding receipt_signed_payload
  check_receipt_seal trusted_keys fs null = ok tt
  check_receipt_seal trusted_keys fs (obj signature) = do
    guard (same_fields signature_fields signature) seal_invalid
    guard (is_text (codes "Ed25519") (get_value (codes "algorithm") signature)) seal_invalid
    key_id ← text_or seal_invalid (get_value (codes "key_id") signature)
    trusted ← trusted_or (trusted_keys key_id)
    guard (signer_ok trusted.issuer (get_value (codes "issuer") signature)) seal_invalid
    encoded ← written_or seal_invalid (get_value (codes "value") signature)
    bytes ← bytes_or (platform.decode encoded)
    payload ← receipt_signed_payload fs
    guard (platform.verify trusted.public_key bytes payload) seal_invalid
  check_receipt_seal trusted_keys fs _ = err seal_invalid

  -- One round of the loop, which gives the next `previous`.
  unfoldable pub verify_record :
      (Text → Option (TrustedKey K)) → ℕ → Option Text → Fields → Result ReceiptError Text
  unfolding valid_receipt receipt_hash check_receipt_seal value_eq
  verify_record trusted_keys expected_sequence previous fs = do
    guard (valid_receipt fs) receipt_invalid
    guard (value_eq (get_value (codes "sequence") fs) (int (pos expected_sequence))) sequence_broken
    guard (is_expected previous (get_value (codes "previous_receipt_hash") fs)) link_broken
    actual_hash ← written_or hash_missing (get_value (codes "receipt_hash") fs)
    expected_hash ← receipt_hash fs
    guard (text_eq actual_hash expected_hash) hash_wrong
    check_receipt_seal trusted_keys fs (get_value (codes "signature") fs)
    ok actual_hash

  unfoldable pub verify_from :
      (Text → Option (TrustedKey K))
      → ℕ
      → Option Text
      → List Fields
      → Result ReceiptError (Option Text)
  unfolding verify_record
  verify_from trusted_keys n previous [] = ok previous
  verify_from trusted_keys n previous (record_fields ∷ rest) = do
    actual_hash ← verify_record trusted_keys n previous record_fields
    verify_from trusted_keys (suc n) (some actual_hash) rest

  unfoldable pub verify_receipt_chain :
      (Text → Option (TrustedKey K)) → List Fields → Result ReceiptError (Unit {0})
  unfolding verify_from
  verify_receipt_chain trusted_keys records = do
    last ← verify_from trusted_keys 1 none records
    ok tt

-- `records[-1]["receipt_hash"] if records else None`
unfoldable pub last_hash : List Fields → Value
last_hash [] = null
last_hash (fs ∷ []) = get_value (codes "receipt_hash") fs
last_hash (fs ∷ g ∷ rest) = last_hash (g ∷ rest)

-- The last comparison of `_verify_checkpoint`, of a checkpoint that has been read.
unfoldable pub matches_checkpoint : ℕ → Option Text → List Fields → Bool
unfolding last_hash
matches_checkpoint last_sequence last_receipt_hash records =
    (last_sequence == length records) && is_expected last_receipt_hash (last_hash records)
