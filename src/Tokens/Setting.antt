-- ===== src/Tokens/Setting.antt =====
-- Reading a mapping after one of its keys is set.
use hlinor_agent_registry.Prelude.{
  ◌≡◌, refl, ap, inl, inr, false, some, arith, Bool-cases, Text, text_eq, text_eq_refl,
  text_eq_sound, Value, Fields, end, field, get_value, get_field,
}
use hlinor_agent_registry.Tokens.{set_field}

pub get_field-set_field :
    (j k : Text) (v : Value) (fs : Fields)
    → text_eq k j ≡ false
    → get_field j (set_field k v fs) ≡ get_field j fs
unfolding get_field set_field
get_field-set_field j k v end other = rw (other, get_field) refl
get_field-set_field j k v (field i w fs) other = ground (
  arith,
  other,
  text_eq_sound k j,
  text_eq_sound i k,
  text_eq_sound i j,
  get_field-set_field j k v fs other,
)

pub get_value-set_field :
    (j k : Text) (v : Value) (fs : Fields)
    → text_eq k j ≡ false
    → get_value j (set_field k v fs) ≡ get_value j fs
unfolding get_value
get_value-set_field j k v fs other = rw (get_field-set_field j k v fs other, get_value) refl

pub get_field-same : (k : Text) (v : Value) (fs : Fields) → get_field k (set_field k v fs) ≡ some v
unfolding get_field set_field
get_field-same k v end = rw (text_eq_refl k, get_field) refl
get_field-same k v (field j w fs) = ground (arith, text_eq_refl k, get_field-same k v fs)

pub set_field-again :
    (k : Text) (v w : Value) (fs : Fields) → set_field k v (set_field k w fs) ≡ set_field k v fs
unfolding set_field
set_field-again k v w end = rw (text_eq_refl k, set_field) refl
set_field-again k v w (field j x fs) = elim (Bool-cases (text_eq j k)) [
  | inl e ↦ rw (e, set_field) (rw (e, set_field) refl)
  | inr e ↦ rw (e, set_field) (rw (e, set_field) (ap (field j x) (set_field-again k v w fs)))
]
