-- ===== src/Receipts/Placing.antt =====
-- The fields of a record that a sink without a key has placed in its chain.
use hlinor_agent_registry.Prelude.{
  ℕ, suc, ◌≡◌, refl, ◌∙◌, inl, inr, Bool, true, false, not, none, some, List, [], ◌∷◌, arith, All,
  Bool-cases, length, all, all-All, pos, Text, codes, text_eq, text_eq_sound, Value, null, int, str,
  Fields, end, field, get_value, get_field, has_field, value_eq, number, number_eq, float_eq,
}
use hlinor_agent_registry.Tokens.{set_field}
use hlinor_agent_registry.Receipts.{valid_receipt, required_fields, hashed, last_hash}
use hlinor_agent_registry.Receipts.Sink.{pop_field, set_default, placed}
use hlinor_agent_registry.Tokens.Setting.{get_field-set_field, get_field-same, set_field-again}

get_field-pop_other :
    (j k : Text) (fs : Fields) → text_eq k j ≡ false → get_field j (pop_field k fs) ≡ get_field j fs
unfolding get_field pop_field
get_field-pop_other j k end other = refl
get_field-pop_other j k (field i w fs) other = ground (
  arith,
  other,
  text_eq_sound k j,
  text_eq_sound i k,
  text_eq_sound i j,
  get_field-pop_other j k fs other,
)

get_field-popped : (k : Text) (fs : Fields) → get_field k (pop_field k fs) ≡ none
unfolding get_field pop_field
get_field-popped k end = refl
get_field-popped k (field i w fs) = ground (arith, get_field-popped k fs)

-- The fields that the shape of a receipt is read from.
abbrev Agrees : Fields → Fields → Type 0
Agrees fs gs = All (λ (name : Text). get_field name fs ≡ get_field name gs) required_fields

Agrees-valid : (fs gs : Fields) → Agrees fs gs → valid_receipt fs ≡ valid_receipt gs
unfolding valid_receipt has_field get_value
Agrees-valid fs gs
      (
        a0,
        (a1, (a2, (a3, (a4, (a5, (a6, (a7, (a8, (a9, (b0, (b1, (b2, (b3, (b4, (b5, u))))))))))))))),
      ) =
    rw
      (
        a0, a1, a2, a3, a4, a5, a6, a7, a8, a9, b0, b1, b2, b3, b4, b5, valid_receipt, has_field,
        get_value,
      )
      refl

get_field-set_default :
    (j k : Text) (v : Value) (fs : Fields)
    → text_eq k j ≡ false
    → get_field j (set_default k v fs) ≡ get_field j fs
get_field-set_default j k v fs other = elim (Bool-cases (has_field k fs)) [
  | inl there ↦ rw there refl
  | inr new ↦ rw new (get_field-set_field j k v fs other)
]

has_field-by :
    (k : Text) (fs gs : Fields)
    → get_field k fs ≡ get_field k gs
    → has_field k gs ≡ true
    → has_field k fs ≡ true
unfolding has_field
has_field-by k fs gs e h = rw (e, has_field) h

-- What the sink sets, or removes.
abbrev own_fields : List Text
own_fields =
    codes "schema_version"
    ∷ codes "sequence"
    ∷ codes "previous_receipt_hash"
    ∷ codes "signature"
    ∷ codes "receipt_hash"
    ∷ []

flip : (b : Bool) → not b ≡ true → b ≡ false
flip true h = cc
flip false h = refl

get_value-by : (k : Text) (v : Value) (fs : Fields) → get_field k fs ≡ some v → get_value k fs ≡ v
unfolding get_value
get_value-by k v fs e = rw (e, get_value) refl

same_number : (n : ℕ) → value_eq (int (pos n)) (int (pos n)) ≡ true
unfolding value_eq number number_eq float_eq
same_number n = ground arith

module _ (uuid : Text) (records : List Fields) (receipt : Fields) where
  abbrev versioned : Fields
  versioned = set_default (codes "schema_version") (str (codes "1.0")) receipt

  abbrev numbered : Fields
  numbered = set_field (codes "sequence") (int (pos (suc (length records)))) versioned

  abbrev linked : Fields
  linked = set_field (codes "previous_receipt_hash") (last_hash records) numbered

  abbrev pub unsealed : Fields
  unsealed = pop_field (codes "signature") linked

  pub placed-eq :
      has_field (codes "receipt_id") receipt ≡ true
      → placed none uuid records receipt ≡ set_field (codes "receipt_hash") (str []) unsealed
  unfolding placed text_eq
  placed-eq h =
      let same =
        get_field-set_default (codes "receipt_id") (codes "schema_version") (str (codes "1.0"))
          receipt refl in
      let there = has_field-by (codes "receipt_id") versioned receipt same h in
      rw (there, placed) refl

  -- Any field that the sink does not set.
  get_field-unsealed :
      (name : Text)
      → text_eq (codes "schema_version") name ≡ false
      → text_eq (codes "sequence") name ≡ false
      → text_eq (codes "previous_receipt_hash") name ≡ false
      → text_eq (codes "signature") name ≡ false
      → get_field name unsealed ≡ get_field name receipt
  get_field-unsealed name a b c d =
      get_field-pop_other name (codes "signature") linked d
      ∙ (get_field-set_field name (codes "previous_receipt_hash") (last_hash records) numbered c
          ∙ (get_field-set_field name (codes "sequence") (int (pos (suc (length records))))
                versioned b
              ∙ get_field-set_default name (codes "schema_version") (str (codes "1.0")) receipt a))

  -- The record with a hash, whichever it is.
  module _ (hash : Text) where
    abbrev pub stored : Fields
    stored = set_field (codes "receipt_hash") (str hash) unsealed

    stored-kept :
        (name : Text)
        → text_eq (codes "schema_version") name ≡ false
        → text_eq (codes "sequence") name ≡ false
        → text_eq (codes "previous_receipt_hash") name ≡ false
        → text_eq (codes "signature") name ≡ false
        → text_eq (codes "receipt_hash") name ≡ false
        → get_field name stored ≡ get_field name receipt
    stored-kept name a b c d e =
        get_field-set_field name (codes "receipt_hash") (str hash) unsealed e
        ∙ get_field-unsealed name a b c d

    abbrev is_apart : Text → Bool
    is_apart name = all (λ (k : Text). not (text_eq k name)) own_fields

    apart-kept :
        (name : Text) → is_apart name ≡ true → get_field name stored ≡ get_field name receipt
    apart-kept name h =
        let (a, (b, (c, (d, (e, u))))) =
          all-All {P = λ (k : Text). text_eq k name ≡ false} (λ (k : Text). not (text_eq k name))
            (λ k g. flip (text_eq k name) g) own_fields h in
        stored-kept name a b c d e

    stored-Agrees : Agrees stored receipt
    unfolding text_eq
    stored-Agrees =
        all-All {P = λ (name : Text). get_field name stored ≡ get_field name receipt} is_apart
          apart-kept required_fields refl

    pub stored-valid : valid_receipt receipt ≡ true → valid_receipt stored ≡ true
    stored-valid h = Agrees-valid stored receipt stored-Agrees ∙ h

    pub stored-sequence :
        value_eq (get_value (codes "sequence") stored) (int (pos (suc (length records)))) ≡ true
    unfolding text_eq
    stored-sequence =
        let n = int (pos (suc (length records))) in
        let e = get_value-by (codes "sequence") n stored (
          get_field-set_field (codes "sequence") (codes "receipt_hash") (str hash) unsealed refl
          ∙ (get_field-pop_other (codes "sequence") (codes "signature") linked refl
              ∙ (get_field-set_field (codes "sequence") (codes "previous_receipt_hash")
                    (last_hash records) numbered refl
                  ∙ get_field-same (codes "sequence") n versioned))) in
        rw e (same_number (suc (length records)))

    pub stored-link : get_value (codes "previous_receipt_hash") stored ≡ last_hash records
    unfolding text_eq
    stored-link = get_value-by (codes "previous_receipt_hash") (last_hash records) stored (
        get_field-set_field (codes "previous_receipt_hash") (codes "receipt_hash") (str hash)
          unsealed refl
        ∙ (get_field-pop_other (codes "previous_receipt_hash") (codes "signature") linked refl
            ∙ get_field-same (codes "previous_receipt_hash") (last_hash records) numbered))

    pub stored-hash : get_value (codes "receipt_hash") stored ≡ str hash
    unfolding get_value
    stored-hash = rw (get_field-same (codes "receipt_hash") (str hash) unsealed, get_value) refl

    pub stored-signature : get_value (codes "signature") stored ≡ null
    unfolding get_value text_eq
    stored-signature =
        let e =
          get_field-set_field (codes "signature") (codes "receipt_hash") (str hash) unsealed refl
          ∙ get_field-popped (codes "signature") linked in
        rw (e, get_value) refl

    pub stored-hashed : hashed stored ≡ set_field (codes "receipt_hash") (str []) unsealed
    unfolding hashed
    stored-hashed =
        rw (stored-signature, hashed)
          (set_field-again (codes "receipt_hash") (str []) (str hash) unsealed)
