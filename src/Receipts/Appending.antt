-- ===== src/Receipts/Appending.antt =====
-- HashChainedReceiptSink.append, of a sink without a key, on a chain that is verified.
use hlinor_agent_registry.Prelude.{
  ℕ, suc, ◌+◌, ◌≡◌, refl, sym, ap, ◌∙◌, subst, inl, inr, true, Option, none, some, List, [], ◌∷◌,
  ◌++◌, arith, and_elim, Result-cases, length, Text, codes, text_eq_refl, str, Fields, has_field,
  ok, guard, guard-eq-ok, >>=-eq-ok, ok-injective,
}
use hlinor_agent_registry.Tokens.{Platform, is_expected, set_field}
use hlinor_agent_registry.Tokens.Reading.{optional}
use hlinor_agent_registry.Approval.{TrustedKey}
use hlinor_agent_registry.Receipts.{
  receipt_invalid, hash_missing, written_or, hash_or, valid_receipt, has_required, under_domain,
  receipt_hash_payload, receipt_hash, check_receipt_seal, verify_record, verify_from,
  verify_receipt_chain, last_hash,
}
use hlinor_agent_registry.Receipts.Linked.{chain-last}
use hlinor_agent_registry.Receipts.Sink.{placed, new_receipt, append_receipt}
use hlinor_agent_registry.Tokens.Setting.{set_field-again}
use hlinor_agent_registry.Receipts.Placing.{
  stored, unsealed, placed-eq, stored-valid, stored-sequence, stored-link, stored-hash,
  stored-signature, stored-hashed,
}

is_expected-optional : (o : Option Text) → is_expected o (optional o) ≡ true
is_expected-optional none = refl
is_expected-optional (some t) = text_eq_refl t

module _ {K : Type 0} (platform : Platform K) (digest : Text → Text)
    (trusted_keys : Text → Option (TrustedKey K)) where
  hash-same :
      (uuid : Text) (records : List Fields) (receipt : Fields) (hash : Text)
      → receipt_hash platform digest (stored uuid records receipt hash)
        ≡ receipt_hash platform digest (stored uuid records receipt [])
  unfolding receipt_hash
  hash-same uuid records receipt hash =
      ap (λ (fs : Fields). hash_or platform digest (platform.canonical (under_domain fs)))
        (stored-hashed uuid records receipt hash ∙ sym (stored-hashed uuid records receipt []))

  hash-written :
      (o : Option Text) (hash : Text)
      → hash_or platform digest o ≡ ok hash
      → written_or platform digest hash_missing (str hash) ≡ ok hash
  hash-written none hash h = cc
  hash-written (some bytes) hash h =
      subst (λ (t : Text). written_or platform digest hash_missing (str t) ≡ ok t)
        (ok-injective _ hash h) refl

  stored-verified :
      (uuid : Text) (records : List Fields) (receipt : Fields) (o : Option Text) (hash : Text)
      → valid_receipt receipt ≡ true
      → last_hash records ≡ optional o
      → receipt_hash platform digest (stored uuid records receipt []) ≡ ok hash
      → verify_record platform digest trusted_keys
          (suc (length records))
          o
          (stored uuid records receipt hash)
        ≡ ok hash
  unfolding verify_record receipt_hash check_receipt_seal
  stored-verified uuid records receipt o hash valid last e =
      let link = stored-link uuid records receipt hash ∙ last in
      let found =
        hash-written (receipt_hash_payload platform digest (stored uuid records receipt [])) hash
          e in
      rw
        (
          stored-valid uuid records receipt hash valid,
          stored-sequence uuid records receipt hash,
          link,
          is_expected-optional o,
          stored-hash uuid records receipt hash,
          found,
          hash-same uuid records receipt hash ∙ e,
          text_eq_refl hash,
          stored-signature uuid records receipt hash,
          verify_record,
          check_receipt_seal,
        )
        refl

  verify_from-append :
      (n m : ℕ) (p o : Option Text) (records : List Fields) (fs : Fields) (hash : Text)
      → verify_from platform digest trusted_keys n p records ≡ ok o
      → m ≡ n + length records
      → verify_record platform digest trusted_keys m o fs ≡ ok hash
      → verify_from platform digest trusted_keys n p (records ++ fs ∷ []) ≡ ok (some hash)
  unfolding verify_from
  verify_from-append n m p o [] fs hash h size e =
      let same = ok-injective p o h in
      let first : m ≡ n = omega (arith, size) in
      let there =
        subst (λ (k : ℕ). verify_record platform digest trusted_keys k o fs ≡ ok hash) first e in
      rw (same, there, verify_from) refl
  verify_from-append n m p o (r ∷ records) fs hash h size e =
      let (actual, e0, h0) = >>=-eq-ok (verify_record platform digest trusted_keys n p r) _ h in
      rw (e0, verify_from)
        (verify_from-append (suc n) m (some actual) o records fs hash h0 (omega (arith, size)) e)

  valid-receipt_id :
      (fs : Fields) → valid_receipt fs ≡ true → has_field (codes "receipt_id") fs ≡ true
  unfolding valid_receipt
  valid-receipt_id fs h =
      let (required, others) = and_elim (has_required fs) _ h in
      let (first, rest) = and_elim (has_field (codes "receipt_id") fs) _ required in first

  new_receipt-eq-ok :
      (uuid : Text) (records : List Fields) (receipt fs : Fields)
      → new_receipt platform digest none uuid records receipt ≡ ok fs
      → (hash : Text) × (valid_receipt receipt ≡ true)
        × (receipt_hash platform digest (stored uuid records receipt []) ≡ ok hash)
        × (stored uuid records receipt hash ≡ fs)
  unfolding new_receipt
  new_receipt-eq-ok uuid records receipt fs h =
      let body = placed none uuid records receipt in
      let (u, e0, h0) = >>=-eq-ok (guard (valid_receipt receipt) receipt_invalid) _ h in
      let (hash, e1, h1) = >>=-eq-ok (receipt_hash platform digest body) _ h0 in
      let valid = guard-eq-ok (valid_receipt receipt) receipt_invalid e0 in
      let shape = placed-eq uuid records receipt (valid-receipt_id receipt valid) in
      let e = subst (λ (g : Fields). receipt_hash platform digest g ≡ ok hash) shape e1 in
      let again =
        set_field-again (codes "receipt_hash") (str hash) (str [])
          (unsealed uuid records receipt) in
      let end_value = ok-injective (set_field (codes "receipt_hash") (str hash) body) fs h1 in
      (
        hash,
        valid,
        e,
        sym again ∙ (ap (set_field (codes "receipt_hash") (str hash)) (sym shape) ∙ end_value),
      )

  -- What a sink without a key appends to a chain that is verified makes a chain that is verified, under
  -- whatever trusted keys.
  pub append_receipt-verified :
      (uuid : Text) (receipt fs : Fields) (records : List Fields)
      → verify_receipt_chain platform digest trusted_keys records ≡ ok tt
      → (append_receipt platform digest none uuid receipt records).0 ≡ ok fs
      → verify_receipt_chain platform digest trusted_keys
          (append_receipt platform digest none uuid receipt records).1
        ≡ ok tt
  unfolding verify_receipt_chain append_receipt
  append_receipt-verified uuid receipt fs records h k =
      elim (Result-cases (new_receipt platform digest none uuid records receipt)) [
        | inr (problem, e) ↦ let w = rw (e, append_receipt) at k in cc
        | inl (g, e) ↦
            let (o, e0, h0) =
              >>=-eq-ok (verify_from platform digest trusted_keys 1 none records) _ h in
            let (hash, valid, hashes, same) = new_receipt-eq-ok uuid records receipt g e in
            let last = chain-last platform digest trusted_keys records o e0 in
            let there = stored-verified uuid records receipt o hash valid last hashes in
            let new =
              subst
                (λ (f : Fields).
                  verify_record platform digest trusted_keys (suc (length records)) o f ≡ ok hash)
                same there in
            let all_of =
              verify_from-append 1 (suc (length records)) none o records g hash e0 (omega arith)
                new in
            rw (e, append_receipt, all_of) refl
      ]
