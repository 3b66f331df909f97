-- ===== src/Receipts/Integrity.antt =====
-- Chains that verify_receipt_chain accepts, and the checkpoint that they match.
use hlinor_agent_registry.Prelude.{
  ℕ, suc, ◌≡◌, refl, sym, ap, ◌∙◌, subst, true, Option, none, some, List, [], ◌∷◌, ◌++◌, arith,
  and_elim, length, ◌==◌, ==_iff, Text, codes, text_eq, Value, null, Fields, get_field, get_value,
  Bool-cases, Option-cases, inl, inr, ok, >>=-eq-ok, ok-injective,
}
use hlinor_agent_registry.Tokens.{Platform, is_expected}
use hlinor_agent_registry.Tokens.Reading.{optional, is_expected-eq}
use hlinor_agent_registry.Approval.{TrustedKey}
use hlinor_agent_registry.Receipts.{
  hashed, under_domain, receipt_hash_payload, hash_or, receipt_hash, verify_record, verify_from,
  verify_receipt_chain, last_hash, matches_checkpoint,
}
use hlinor_agent_registry.Receipts.Hashing.{covered, hashed-covered}
use hlinor_agent_registry.Receipts.Linked.{
  optional-injective, IsLinked, verify_record-IsLinked, chain-last,
}

abbrev value_or : Option Value → Value
value_or none = null
value_or (some v) = v

get_value-value_or : (k : Text) (fs : Fields) → value_or (get_field k fs) ≡ get_value k fs
unfolding get_value
get_value-value_or k fs = elim (Option-cases (get_field k fs)) [
  | inl e ↦ rw (e, get_value) refl
  | inr (v, e) ↦ rw (e, get_value) refl
]

module _ {K : Type 0} (platform : Platform K) (digest : Text → Text)
    (trusted_keys : Text → Option (TrustedKey K)) where
  -- Sameness of JSON values, as canonical bytes tell them apart: it may forget the order of members and
  -- how a number is written, but not a text or null.
  module _ (Same : Value → Value → Type 0)
      (collision_free : (s t : Text) → digest s ≡ digest t → s ≡ t)
      (same_texts : (o p : Option Text) → Same (optional o) (optional p) → o ≡ p) where
    -- Both fields are absent, or both are there with the same value.
    abbrev pub SameField : Option Value → Option Value → Type 0
    SameField none none = Unit
    SameField (some v) (some w) = Same v w
    SameField _ _ = ⊥

    -- Two records with one hash, and the same in all that a hash covers.
    abbrev pub Agree : Fields → Fields → Type 0
    Agree fs gs =
        (get_value (codes "receipt_hash") fs ≡ get_value (codes "receipt_hash") gs)
        × ((k : Text) → SameField (covered k fs) (covered k gs))

    abbrev pub AllAgree : List Fields → List Fields → Type 0
    AllAgree [] [] = Unit
    AllAgree (fs ∷ rs) (gs ∷ qs) = Agree fs gs × AllAgree rs qs
    AllAgree _ _ = ⊥

    -- Where canonical bytes are equal, the payloads have the same fields.
    module _
        (reads_back : (fs gs : Fields) (bytes : Text)
          → platform.canonical (under_domain fs) ≡ some bytes
          → platform.canonical (under_domain gs) ≡ some bytes
          → (k : Text) → SameField (get_field k fs) (get_field k gs)) where
      hash_or-eq-ok :
          (o : Option Text) (actual : Text)
          → hash_or platform digest o ≡ ok actual
          → (bytes : Text) × (o ≡ some bytes) × (actual ≡ codes "sha256:" ++ digest bytes)
      hash_or-eq-ok none actual h = cc
      hash_or-eq-ok (some bytes) actual h = (bytes, refl, sym (ok-injective _ actual h))

      prefix-injective : (s t : Text) → codes "sha256:" ++ s ≡ codes "sha256:" ++ t → s ≡ t
      prefix-injective s t h = cc

      covered-SameField :
          (fs gs : Fields)
          → ((k : Text) → SameField (get_field k (hashed fs)) (get_field k (hashed gs)))
          → (k : Text) → SameField (covered k fs) (covered k gs)
      covered-SameField fs gs same k = elim (Bool-cases (text_eq k (codes "receipt_hash"))) [
        | inl e ↦ rw e tt
        | inr e ↦
            subst (λ (o : Option Value). SameField o (covered k gs)) (hashed-covered k fs e)
              (subst (λ (o : Option Value). SameField (get_field k (hashed fs)) o)
                (hashed-covered k gs e) (same k))
      ]

      -- A field that is a text or null in both records is the same one.
      same_link :
          (fo go : Option Value) (p q : Option Text)
          → SameField fo go
          → value_or fo ≡ optional p
          → value_or go ≡ optional q
          → p ≡ q
      same_link none none p q s h k = optional-injective p q (sym h ∙ k)
      same_link none (some w) p q s h k = absurd s
      same_link (some v) none p q s h k = absurd s
      same_link (some v) (some w) p q s h k = same_texts p q (rw (sym h, sym k) s)

      -- One hash, one record.
      same-hash :
          (p q : Option Text) (fs gs : Fields) (actual : Text)
          → IsLinked platform digest trusted_keys p fs actual
          → IsLinked platform digest trusted_keys q gs actual
          → (p ≡ q) × Agree fs gs
      unfolding receipt_hash text_eq
      same-hash p q fs gs actual (link, found, hash) (other_link, other_found, other_hash) =
          let (bytes, e, a) = hash_or-eq-ok (receipt_hash_payload platform digest fs) actual hash in
          let (other_bytes, f, b) =
            hash_or-eq-ok (receipt_hash_payload platform digest gs) actual other_hash in
          let bytes_agree = collision_free bytes other_bytes (prefix-injective _ _ (sym a ∙ b)) in
          let same =
            covered-SameField fs gs
              (reads_back (hashed fs) (hashed gs) bytes e (f ∙ ap some (sym bytes_agree))) in
          (
            same_link (get_field (codes "previous_receipt_hash") fs)
                (get_field (codes "previous_receipt_hash") gs) p q
                (same (codes "previous_receipt_hash")) (get_value-value_or _ fs ∙ link)
                (get_value-value_or _ gs ∙ other_link),
            (found ∙ sym other_found, same),
          )

      same-chain :
          (n : ℕ) (p q : Option Text) (rs qs : List Fields) (o : Option Text)
          → verify_from platform digest trusted_keys n p rs ≡ ok o
          → verify_from platform digest trusted_keys n q qs ≡ ok o
          → length rs ≡ length qs
          → (p ≡ q) × AllAgree rs qs
      unfolding verify_from
      same-chain n p q [] [] o h k size = (ok-injective p o h ∙ sym (ok-injective q o k), tt)
      same-chain n p q [] (g ∷ qs) o h k size = absurd (omega (arith, size))
      same-chain n p q (f ∷ rs) [] o h k size = absurd (omega (arith, size))
      same-chain n p q (f ∷ rs) (g ∷ qs) o h k size =
          let (a, e0, h0) = >>=-eq-ok (verify_record platform digest trusted_keys n p f) _ h in
          let (b, e1, k0) = >>=-eq-ok (verify_record platform digest trusted_keys n q g) _ k in
          let (ab, rest) =
            same-chain (suc n) (some a) (some b) rs qs o h0 k0 (omega (arith, size)) in
          let same : a ≡ b = cc in
          let linked = verify_record-IsLinked platform digest trusted_keys n p f a e0 in
          let other_linked =
            subst (λ (t : Text). IsLinked platform digest trusted_keys q g t) (sym same)
              (verify_record-IsLinked platform digest trusted_keys n q g b e1) in
          let (pq, fg) = same-hash p q f g a linked other_linked in (pq, (fg, rest))

      -- Two chains that are verified, and match one checkpoint, hold the same records: as many, and record
      -- by record the same receipt_hash, the same signature but for its text, and under every other name
      -- the same value, or none in both. The digest has no collisions, and canonical bytes determine the
      -- fields of a payload up to a sameness of JSON values that keeps texts and null apart.
      pub verify_receipt_chain-unchanged :
          (records others : List Fields) (last_sequence : ℕ) (last_receipt_hash : Option Text)
          → verify_receipt_chain platform digest trusted_keys records ≡ ok tt
          → verify_receipt_chain platform digest trusted_keys others ≡ ok tt
          → matches_checkpoint last_sequence last_receipt_hash records ≡ true
          → matches_checkpoint last_sequence last_receipt_hash others ≡ true
          → AllAgree records others
      unfolding verify_receipt_chain matches_checkpoint
      verify_receipt_chain-unchanged records others count hash h k m n =
          let (o, e0, h0) =
            >>=-eq-ok (verify_from platform digest trusted_keys 1 none records) _ h in
          let (p, e1, k0) =
            >>=-eq-ok (verify_from platform digest trusted_keys 1 none others) _ k in
          let (size, last) =
            and_elim (count == length records) (is_expected hash (last_hash records)) m in
          let (other_size, other_last) =
            and_elim (count == length others) (is_expected hash (last_hash others)) n in
          let c = (==_iff count (length records)).0 size in
          let d = (==_iff count (length others)).0 other_size in
          let x =
            sym (chain-last platform digest trusted_keys records o e0)
            ∙ is_expected-eq hash (last_hash records) last in
          let y =
            sym (chain-last platform digest trusted_keys others p e1)
            ∙ is_expected-eq hash (last_hash others) other_last in
          let same = optional-injective o p (x ∙ sym y) in
          (same-chain 1 none none records others o e0 (e1 ∙ ap ok (sym same)) (sym c ∙ d)).1
