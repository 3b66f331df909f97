-- ===== src/Receipts/Linked.antt =====
-- What verify_receipt_chain has found of each record that it passed.
use hlinor_agent_registry.Prelude.{
  ℕ, suc, ◌≡◌, refl, sym, ap, ◌∙◌, subst, Option, none, some, List, [], ◌∷◌, arith, pos, Text,
  codes, text_eq, text_eq→eq, Value, null, bool, int, float, str, arr, obj, Fields, get_value,
  value_eq, ok, guard, guard-eq-ok, >>=-eq-ok, ok-injective,
}
use hlinor_agent_registry.Tokens.{Platform, is_expected}
use hlinor_agent_registry.Tokens.Reading.{optional, is_expected-eq}
use hlinor_agent_registry.Approval.{TrustedKey}
use hlinor_agent_registry.Receipts.{
  ReceiptError, receipt_invalid, sequence_broken, link_broken, hash_missing, hash_wrong,
  valid_receipt, receipt_hash, written_or, check_receipt_seal, verify_record, verify_from,
  last_hash,
}

pub optional-injective : (o p : Option Text) → optional o ≡ optional p → o ≡ p
optional-injective none none h = refl
optional-injective none (some t) h = cc
optional-injective (some s) none h = cc
optional-injective (some s) (some t) h = let e : s ≡ t = cc in ap some e

module _ {K : Type 0} (platform : Platform K) (digest : Text → Text)
    (trusted_keys : Text → Option (TrustedKey K)) where
  -- What a verified record is: its link, and its hash.
  abbrev pub IsLinked : Option Text → Fields → Text → Type 0
  IsLinked previous fs actual =
      (get_value (codes "previous_receipt_hash") fs ≡ optional previous)
      × (get_value (codes "receipt_hash") fs ≡ str actual)
      × (receipt_hash platform digest fs ≡ ok actual)

  written_or-eq-ok :
      (problem : ReceiptError) (v : Value) {s : Text}
      → written_or platform digest problem v ≡ ok s
      → v ≡ str s
  written_or-eq-ok problem (str t) h = ground arith
  written_or-eq-ok problem null h = cc
  written_or-eq-ok problem (bool b) h = cc
  written_or-eq-ok problem (int n) h = cc
  written_or-eq-ok problem (float x) h = cc
  written_or-eq-ok problem (arr vs) h = cc
  written_or-eq-ok problem (obj fs) h = cc

  pub verify_record-IsLinked :
      (n : ℕ) (previous : Option Text) (fs : Fields) (actual : Text)
      → verify_record platform digest trusted_keys n previous fs ≡ ok actual
      → IsLinked previous fs actual
  unfolding verify_record
  verify_record-IsLinked n previous fs actual h =
      let in_order = value_eq (get_value (codes "sequence") fs) (int (pos n)) in
      let linked = is_expected previous (get_value (codes "previous_receipt_hash") fs) in
      let found = written_or platform digest hash_missing (get_value (codes "receipt_hash") fs) in
      let (u, e0, h0) = >>=-eq-ok (guard (valid_receipt fs) receipt_invalid) _ h in
      let (v, e1, h1) = >>=-eq-ok (guard in_order sequence_broken) _ h0 in
      let (w, e2, h2) = >>=-eq-ok (guard linked link_broken) _ h1 in
      let (hash, e3, h3) = >>=-eq-ok found _ h2 in
      let (wanted, e4, h4) = >>=-eq-ok (receipt_hash platform digest fs) _ h3 in
      let (x, e5, h5) = >>=-eq-ok (guard (text_eq hash wanted) hash_wrong) _ h4 in
      let (y, e6, h6) =
        >>=-eq-ok
          (check_receipt_seal platform digest trusted_keys fs (get_value (codes "signature") fs)) _
          h5 in
      let same = text_eq→eq hash wanted (guard-eq-ok (text_eq hash wanted) hash_wrong e5) in
      subst (λ (t : Text). IsLinked previous fs t) (ok-injective hash actual h6)
        (
          is_expected-eq previous _ (guard-eq-ok linked link_broken e2),
          written_or-eq-ok hash_missing (get_value (codes "receipt_hash") fs) e3,
          e4 ∙ ap ok (sym same),
        )

  verify_from-last :
      (n : ℕ) (previous : Option Text) (fs : Fields) (rest : List Fields) (o : Option Text)
      → verify_from platform digest trusted_keys n previous (fs ∷ rest) ≡ ok o
      → last_hash (fs ∷ rest) ≡ optional o
  unfolding verify_from last_hash
  verify_from-last n previous fs [] o h =
      let (actual, e0, h0) =
        >>=-eq-ok (verify_record platform digest trusted_keys n previous fs) _ h in
      let linked = verify_record-IsLinked n previous fs actual e0 in
      linked.1 ∙ ap optional (ok-injective (some actual) o h0)
  verify_from-last n previous fs (g ∷ rest) o h =
      let (actual, e0, h0) =
        >>=-eq-ok (verify_record platform digest trusted_keys n previous fs) _ h in
      verify_from-last (suc n) (some actual) g rest o h0

  pub chain-last :
      (records : List Fields) (o : Option Text)
      → verify_from platform digest trusted_keys 1 none records ≡ ok o
      → last_hash records ≡ optional o
  unfolding verify_from last_hash
  chain-last [] o h = ap optional (ok-injective none o h)
  chain-last (fs ∷ rest) o h = verify_from-last 1 none fs rest o h
