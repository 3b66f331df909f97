-- ===== src/Tokens/Reading.antt =====
-- What a text, a signature and its check have been, where they passed.
use hlinor_agent_registry.Prelude.{
  ◌≡◌, refl, ap, subst, inl, inr, true, Option, none, some, arith, is_empty, Bool-cases,
  Option-cases, Text, codes, text_eq→eq, Value, null, bool, int, float, str, arr, obj, Fields,
  get_value, Result, ok, guard, guard-eq-ok, >>=-eq-ok, ok-injective,
}
use hlinor_agent_registry.Tokens.{
  TokenError, signature_invalid, Platform, token_text, is_text, is_expected, signature_fields,
  same_fields, Seal, read_seal, check_seal,
}

pub token_text-eq-ok : (v : Value) {s : Text} → token_text v ≡ ok s → v ≡ str s
unfolding token_text
token_text-eq-ok (str t) h = ground arith
token_text-eq-ok null h = cc
token_text-eq-ok (bool b) h = cc
token_text-eq-ok (int n) h = cc
token_text-eq-ok (float x) h = cc
token_text-eq-ok (arr vs) h = cc
token_text-eq-ok (obj fs) h = cc

-- An expected value, which may be None, is the value.
abbrev pub optional : Option Text → Value
optional none = null
optional (some t) = str t

pub is_text-eq : (t : Text) (v : Value) → is_text t v ≡ true → v ≡ str t
is_text-eq t (str s) h = ap str (text_eq→eq s t h)
is_text-eq t null h = cc
is_text-eq t (bool b) h = cc
is_text-eq t (int n) h = cc
is_text-eq t (float x) h = cc
is_text-eq t (arr vs) h = cc
is_text-eq t (obj fs) h = cc

pub is_expected-eq : (t : Option Text) (v : Value) → is_expected t v ≡ true → v ≡ optional t
is_expected-eq (some t) v h = is_text-eq t v h
is_expected-eq none null h = refl
is_expected-eq none (str s) h = cc
is_expected-eq none (bool b) h = cc
is_expected-eq none (int n) h = cc
is_expected-eq none (float x) h = cc
is_expected-eq none (arr vs) h = cc
is_expected-eq none (obj fs) h = cc

pub read_seal-eq-ok :
    (v : Value) {seal : Seal}
    → read_seal v ≡ ok seal
    → (fs : Fields) × (v ≡ obj fs)
      × (get_value (codes "algorithm") fs ≡ str (codes "Ed25519"))
      × (get_value (codes "key_id") fs ≡ str seal.key_id)
      × (get_value (codes "issuer") fs ≡ str seal.issuer)
      × (get_value (codes "value") fs ≡ seal.value)
unfolding read_seal
read_seal-eq-ok (obj fs) {seal = seal} h =
    let algorithm = is_text (codes "Ed25519") (get_value (codes "algorithm") fs) in
    let (u, e0, h0) = >>=-eq-ok (guard (same_fields signature_fields fs) signature_invalid) _ h in
    let (v, e1, h1) = >>=-eq-ok (guard algorithm signature_invalid) _ h0 in
    let (key_id, e2, h2) = >>=-eq-ok (token_text (get_value (codes "key_id") fs)) _ h1 in
    let (issuer, e3, h3) = >>=-eq-ok (token_text (get_value (codes "issuer") fs)) _ h2 in
    let same = ok-injective _ seal h3 in
    (
      fs,
      refl,
      is_text-eq (codes "Ed25519") _ (guard-eq-ok algorithm signature_invalid e1),
      subst (λ (s : Seal). get_value (codes "key_id") fs ≡ str s.key_id) same
          (token_text-eq-ok _ e2),
      subst (λ (s : Seal). get_value (codes "issuer") fs ≡ str s.issuer) same
          (token_text-eq-ok _ e3),
      subst (λ (s : Seal). get_value (codes "value") fs ≡ s.value) same refl,
    )
read_seal-eq-ok null h = cc
read_seal-eq-ok (bool b) h = cc
read_seal-eq-ok (int n) h = cc
read_seal-eq-ok (float x) h = cc
read_seal-eq-ok (arr vs) h = cc
read_seal-eq-ok (str s) h = cc

module _ {K : Type 0} (platform : Platform K) (key : K) (payload : Result TokenError Text) where
  -- The value encodes bytes that the key accepts for the payload.
  abbrev pub IsAccepted : Value → Type 0
  IsAccepted value =
      (encoded bytes text : Text) × (value ≡ str encoded)
      × (platform.decode encoded ≡ some bytes)
      × (payload ≡ ok text)
      × (platform.verify key bytes text ≡ true)

  pub check_seal-eq-ok :
      (value : Value) → check_seal platform key value payload ≡ ok tt → IsAccepted value
  unfolding check_seal
  check_seal-eq-ok (str encoded) h = elim (Bool-cases (is_empty encoded)) [
    | inl e ↦ let w = rw (e, check_seal) at h in cc
    | inr full ↦ elim (Option-cases (platform.decode encoded)) [
      | inl n ↦ let w = rw (full, n, check_seal) at h in cc
      | inr (bytes, d) ↦
          let w = rw (full, d, check_seal) at h in
          let (text, e, v) = >>=-eq-ok payload _ w in
          (
            encoded,
            bytes,
            text,
            refl,
            d,
            e,
            guard-eq-ok (platform.verify key bytes text) signature_invalid v,
          )
    ]
  ]
  check_seal-eq-ok null h = cc
  check_seal-eq-ok (bool b) h = cc
  check_seal-eq-ok (int n) h = cc
  check_seal-eq-ok (float x) h = cc
  check_seal-eq-ok (arr vs) h = cc
  check_seal-eq-ok (obj fs) h = cc
