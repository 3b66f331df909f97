-- ===== src/Receipts/Sink.antt =====
-- `HashChainedReceiptSink.append` and `JsonlReceiptSink.append` of hlinor_registry/execution_receipts.py.
use hlinor_agent_registry.Prelude.{
  suc, Option, none, some, List, [], ◌∷◌, ◌++◌, if◌then◌else◌, length, pos, Text, codes, text_eq,
  Value, int, str, obj, Fields, end, field, has_field, Result, ok, err, ◌>>=◌, ◌>>◌, guard,
}
use hlinor_agent_registry.Tokens.{Platform, set_field}
use hlinor_agent_registry.Receipts.{
  ReceiptError, receipt_invalid, valid_receipt, receipt_hash, receipt_signed_payload, last_hash,
}

-- The key of a sink that signs its records.
pub record ReceiptSigner : Type 0 where
  pub key_id : Text
  pub issuer : Text
  pub sign : Text → Text
  pub encode : Text → Text

-- `record.setdefault(key, value)`
abbrev pub set_default : Text → Value → Fields → Fields
set_default k v fs = if has_field k fs then fs else set_field k v fs

-- `record.pop(key, None)`
unfoldable pub pop_field : Text → Fields → Fields
pop_field k end = end
pop_field k (field j v fs) = if text_eq j k then pop_field k fs else field j v (pop_field k fs)

abbrev pub receipt_seal : ReceiptSigner → Text → Value
receipt_seal signer value = obj (
    field (codes "algorithm") (str (codes "Ed25519")) (
      field (codes "key_id") (str signer.key_id)
        (field (codes "issuer") (str signer.issuer) (field (codes "value") (str value) end))))

abbrev pub with_seal : Option ReceiptSigner → Fields → Fields
with_seal none fs = pop_field (codes "signature") fs
with_seal (some signer) fs = set_field (codes "signature") (receipt_seal signer []) fs

-- The record before its hash: its place in the chain.
unfoldable pub placed : Option ReceiptSigner → Text → List Fields → Fields → Fields
unfolding set_field pop_field last_hash
placed signer uuid records receipt =
    let versioned = set_default (codes "schema_version") (str (codes "1.0")) receipt in
    let identified = set_default (codes "receipt_id") (str uuid) versioned in
    let numbered = set_field (codes "sequence") (int (pos (suc (length records)))) identified in
    let linked = set_field (codes "previous_receipt_hash") (last_hash records) numbered in
    set_field (codes "receipt_hash") (str []) (with_seal signer linked)

module _ {K : Type 0} (platform : Platform K) (digest : Text → Text)
    (signer : Option ReceiptSigner) where
  abbrev pub sealed_receipt : Option ReceiptSigner → Fields → Result ReceiptError Fields
  sealed_receipt none fs = ok fs
  sealed_receipt (some s) fs = receipt_signed_payload platform digest fs >>= λ payload.
      ok (set_field (codes "signature") (receipt_seal s (s.encode (s.sign payload))) fs)

  -- The record that is committed.
  unfoldable pub new_receipt : Text → List Fields → Fields → Result ReceiptError Fields
  unfolding valid_receipt placed receipt_hash
  new_receipt uuid records receipt = do
    guard (valid_receipt receipt) receipt_invalid
    let body = placed signer uuid records receipt
    hash ← receipt_hash platform digest body
    sealed_receipt signer (set_field (codes "receipt_hash") (str hash) body)

  -- `HashChainedReceiptSink.append`
  unfoldable pub append_receipt :
      Text → Fields → List Fields → Result ReceiptError Fields × List Fields
  unfolding new_receipt
  append_receipt uuid receipt records = elim (new_receipt uuid records receipt) [
    | err problem ↦ (err problem, records)
    | ok stored ↦ (ok stored, records ++ stored ∷ [])
  ]
