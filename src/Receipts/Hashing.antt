-- ===== src/Receipts/Hashing.antt =====
-- What the hash of a receipt covers: the record that execution_receipts.py hashes, field by field.
use hlinor_agent_registry.Prelude.{
  ◌≡◌, refl, sym, ◌∙◌, subst, inl, inr, true, false, Option, none, some, [], if◌then◌else◌,
  Bool-cases, Option-cases, Text, codes, text_eq, text_eq→eq, text_eq_refl, Value, null, bool, int,
  float, str, arr, obj, Fields, get_field, get_value,
}
use hlinor_agent_registry.Tokens.{set_field}
use hlinor_agent_registry.Tokens.Setting.{get_field-set_field, get_field-same}
use hlinor_agent_registry.Receipts.{blank_value, hashed}

-- A signature without its text; any other value is as it is.
abbrev pub unsigned : Value → Value
unsigned (obj signature) = obj (set_field (codes "value") (str []) signature)
unsigned v = v

abbrev unsigned_field : Option Value → Option Value
unsigned_field none = none
unsigned_field (some v) = some (unsigned v)

-- What the hash covers of a field: of its own field nothing, of the signature all but its text, and
-- every other field as it is, absent or there.
abbrev pub covered : Text → Fields → Option Value
covered k fs =
    if text_eq k (codes "receipt_hash")
    then none
    else if text_eq k (codes "signature")
    then unsigned_field (get_field k fs)
    else get_field k fs

get_field-blank_value :
    (k : Text) (v : Value) (fs : Fields)
    → text_eq (codes "signature") k ≡ false
    → get_field k (blank_value v fs) ≡ get_field k fs
get_field-blank_value k (obj signature) fs other =
    get_field-set_field k (codes "signature") (obj (set_field (codes "value") (str []) signature))
      fs other
get_field-blank_value k null fs other = refl
get_field-blank_value k (bool b) fs other = refl
get_field-blank_value k (int n) fs other = refl
get_field-blank_value k (float x) fs other = refl
get_field-blank_value k (str s) fs other = refl
get_field-blank_value k (arr vs) fs other = refl

signature-blank_value :
    (v : Value) (fs : Fields)
    → get_field (codes "signature") fs ≡ some v
    → get_field (codes "signature") (blank_value v fs) ≡ some (unsigned v)
signature-blank_value (obj signature) fs h = get_field-same (codes "signature") _ fs
signature-blank_value null fs h = h
signature-blank_value (bool b) fs h = h
signature-blank_value (int n) fs h = h
signature-blank_value (float x) fs h = h
signature-blank_value (str s) fs h = h
signature-blank_value (arr vs) fs h = h

-- The fields before the signature is blanked.
emptied :
    (k : Text) (fs : Fields)
    → text_eq (codes "receipt_hash") k ≡ false
    → get_field k (set_field (codes "receipt_hash") (str []) fs) ≡ get_field k fs
emptied k fs other = get_field-set_field k (codes "receipt_hash") (str []) fs other

signature_covered :
    (fs : Fields)
    → get_field (codes "signature") (hashed fs) ≡ unsigned_field (get_field (codes "signature") fs)
unfolding hashed get_value text_eq
signature_covered fs =
    let payload = set_field (codes "receipt_hash") (str []) fs in
    let kept = emptied (codes "signature") fs refl in
    elim (Option-cases (get_field (codes "signature") fs)) [
      | inl e ↦ rw (e, get_value) (kept ∙ e)
      | inr (v, e) ↦ rw (e, get_value) (signature-blank_value v payload (kept ∙ e))
    ]

swapped : (s t : Text) → text_eq s t ≡ false → text_eq t s ≡ false
swapped s t h = elim (Bool-cases (text_eq t s)) [
  | inr e ↦ e
  | inl e ↦
      let same : text_eq s t ≡ true =
        subst (λ (u : Text). text_eq s u ≡ true) (sym (text_eq→eq t s e)) (text_eq_refl s) in
      cc
]

-- The record that is hashed has, under every name but that of the hash, what the hash covers.
pub hashed-covered :
    (k : Text) (fs : Fields)
    → text_eq k (codes "receipt_hash") ≡ false
    → get_field k (hashed fs) ≡ covered k fs
unfolding hashed
hashed-covered k fs other = elim (Bool-cases (text_eq k (codes "signature"))) [
  | inl e ↦
      let at_signature : get_field k (hashed fs) ≡ unsigned_field (get_field k fs) =
        subst (λ (j : Text). get_field j (hashed fs) ≡ unsigned_field (get_field j fs))
          (sym (text_eq→eq k (codes "signature") e)) (signature_covered fs) in
      rw (other, e) at_signature
  | inr e ↦
      rw (other, e)
        (get_field-blank_value k (get_value (codes "signature") fs) _
            (swapped k (codes "signature") e)
          ∙ emptied k fs (swapped k (codes "receipt_hash") other))
]
