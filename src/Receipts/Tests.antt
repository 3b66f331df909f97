-- ===== src/Receipts/Tests.antt =====
-- Two receipts that are appended, and the chain of them.
use hlinor_agent_registry.Prelude.{
  ◌≡◌, ◌≢◌, suc, inl, inr, Bool-cases, pos, micros, refl, sym, ap, ◌∙◌, true, Option, none, some,
  List, [], ◌∷◌, ◌++◌, Text, codes, text_eq, Value, null, bool, int, float, str, obj, Fields, end,
  field, get_value, get_field, has_field, number, number_eq, ok, err,
}
use mathlib.Core.Option.{some-injective}
use hlinor_agent_registry.Tokens.{Platform}
use hlinor_agent_registry.Tokens.Reading.{optional}
use hlinor_agent_registry.Approval.{fields_of}
use hlinor_agent_registry.Samples.Signing.{plain_platform, lead_keys}
use hlinor_agent_registry.Receipts.{
  under_domain, verify_receipt_chain, last_hash, matches_checkpoint,
}
use hlinor_agent_registry.Receipts.Integrity.{SameField, AllAgree, verify_receipt_chain-unchanged}
use hlinor_agent_registry.Receipts.Appending.{append_receipt-verified}
use hlinor_agent_registry.Receipts.Sink.{append_receipt}

abbrev mark : Value → Text
mark null = 0 ∷ []
mark (str s) = 1 ∷ s
mark _ = 2 ∷ []

-- A text with its end written.
abbrev ended : Text → Text
ended [] = 0 ∷ []
ended (c ∷ s) = suc c ∷ ended s

abbrev written : Fields → Text
written end = []
written (field k v fs) = ended k ++ (ended (mark v) ++ written fs)

-- Bytes that tell the fields of records apart, and of a field whether it is null or which text it is.
abbrev mark_platform : Platform Text
mark_platform = record plain_platform {
  canonical = λ v. some (written (fields_of (get_value (codes "payload") (fields_of v))));
}

abbrev SameMark : Value → Value → Type 0
SameMark v w = mark v ≡ mark w

same_marks : (o p : Option Text) → SameMark (optional o) (optional p) → o ≡ p
same_marks none none h = refl
same_marks none (some t) h = cc
same_marks (some s) none h = cc
same_marks (some s) (some t) h = let e : s ≡ t = cc in ap some e

ended-injective : (s t u v : Text) → ended s ++ u ≡ ended t ++ v → (s ≡ t) × (u ≡ v)
ended-injective [] [] u v h = (refl, cc)
ended-injective [] (d ∷ t) u v h = cc
ended-injective (c ∷ s) [] u v h = cc
ended-injective (c ∷ s) (d ∷ t) u v h =
    let (e, f) = ended-injective s t u v (cc) in let k : c ≡ d = cc in (rw (e, k) refl, f)

unended : (k u : Text) → [] ≢ ended k ++ u
unended [] u h = cc
unended (c ∷ k) u h = cc

written-Same :
    (fs gs : Fields)
    → written fs ≡ written gs
    → (k : Text)
    → SameField mark_platform
        (λ s. s)
        lead_keys
        SameMark
        (λ s t e. e)
        same_marks
        (get_field k fs)
        (get_field k gs)
unfolding get_field
written-Same end end h k = tt
written-Same end (field j w gs) h k = absurd (unended j _ h)
written-Same (field i v fs) end h k = absurd (unended i _ (sym h))
written-Same (field i v fs) (field j w gs) h k =
    let (names, rest) = ended-injective i j _ _ h in
    let (marks, others) = ended-injective (mark v) (mark w) _ _ rest in
    elim (Bool-cases (text_eq j k)) [
      | inl e ↦ rw (names, e) marks
      | inr e ↦ rw (names, e) (written-Same fs gs others k)
    ]

marks_read_back :
    (fs gs : Fields) (bytes : Text)
    → mark_platform.canonical (under_domain fs) ≡ some bytes
    → mark_platform.canonical (under_domain gs) ≡ some bytes
    → (k : Text)
    → SameField mark_platform
        (λ s. s)
        lead_keys
        SameMark
        (λ s t e. e)
        same_marks
        (get_field k fs)
        (get_field k gs)
unfolding get_value get_field text_eq
marks_read_back fs gs bytes e f = written-Same fs gs (some-injective _ _ (e ∙ sym f))

abbrev first_receipt : Fields
first_receipt = field (codes "receipt_id") (str (codes "r")) (
    field (codes "session_id") (str (codes "s")) (
      field (codes "binding_id") (str (codes "b")) (
        field (codes "check_id") (str (codes "c")) (
          field (codes "timestamp") (str (codes "t")) (
            field (codes "actor") (str (codes "bot")) (
              field (codes "requested_tool_name") (str (codes "mail")) (
                field (codes "authorization_result") (str (codes "allowed")) (
                  field (codes "side_effect_state") (str (codes "side_effect_attempted")) (
                    field (codes "matched_approved_binding") (bool true) (
                      field (codes "registry_version") (str (codes "1")) (
                        field (codes "policy_bundle_digest") (str (codes "p")) (
                          field (codes "tool_descriptor_digest") (str (codes "d")) (
                            field (codes "normalized_argument_digest") (str (codes "a")) (
                              field (codes "target_resource_scope") (obj end) (
                                field (codes "approval_id_or_lease_id") (str (codes "l"))
                                  end)))))))))))))))

abbrev text_of : Value → Option Text
text_of (str s) = some s
text_of v = none

-- Two receipts; the first has a note.
abbrev records_noting : Value → List Fields
records_noting note =
    (append_receipt mark_platform (λ s. s) none (codes "u") first_receipt
      (append_receipt mark_platform (λ s. s) none (codes "u")
        (field (codes "note") note first_receipt) []).1).1

abbrev two_records : List Fields
two_records = records_noting (int (pos 1))

-- The same, the number written as a float.
abbrev other_records : List Fields
other_records = records_noting (float (micros (pos 1000000)))

chain_holds : verify_receipt_chain mark_platform (λ s. s) lead_keys two_records ≡ ok tt
unfolding verify_receipt_chain append_receipt get_value get_field text_eq has_field number_eq number
chain_holds = refl

others_hold : verify_receipt_chain mark_platform (λ s. s) lead_keys other_records ≡ ok tt
unfolding verify_receipt_chain append_receipt get_value get_field text_eq has_field number_eq number
others_hold = refl

abbrev second_hash : Option Text
second_hash = text_of (last_hash two_records)

both_match :
    (matches_checkpoint 2 second_hash two_records ≡ true)
    × (matches_checkpoint 2 second_hash other_records ≡ true)
unfolding matches_checkpoint append_receipt get_value get_field text_eq has_field last_hash
both_match = (refl, refl)

verify_receipt_chain-unchanged_example :
    AllAgree mark_platform
      (λ s. s)
      lead_keys
      SameMark
      (λ s t e. e)
      same_marks
      two_records
      other_records
verify_receipt_chain-unchanged_example =
    verify_receipt_chain-unchanged mark_platform (λ s. s) lead_keys SameMark (λ s t e. e) same_marks
      marks_read_back two_records other_records 2 second_hash chain_holds others_hold both_match.0
      both_match.1

abbrev one_record : List Fields
one_record = (append_receipt mark_platform (λ s. s) none (codes "u") first_receipt []).1

one_holds : verify_receipt_chain mark_platform (λ s. s) lead_keys one_record ≡ ok tt
unfolding verify_receipt_chain append_receipt get_value get_field text_eq has_field number_eq number
one_holds = refl

abbrev next_record : Fields
next_record =
    elim (append_receipt mark_platform (λ s. s) none (codes "u") first_receipt one_record).0 [
      | err problem ↦ end
      | ok fs ↦ fs
    ]

append_receipt-verified_example :
    verify_receipt_chain mark_platform
      (λ s. s)
      lead_keys
      (append_receipt mark_platform (λ s. s) none (codes "u") first_receipt one_record).1
    ≡ ok tt
unfolding append_receipt get_value get_field text_eq has_field
append_receipt-verified_example =
    append_receipt-verified mark_platform (λ s. s) lead_keys (codes "u") first_receipt next_record
      one_record one_holds refl
