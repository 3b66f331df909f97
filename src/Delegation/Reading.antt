-- ===== src/Delegation/Reading.antt =====
-- What the reading of a delegation token in hlinor_registry/delegation.py takes from its fields.
use hlinor_agent_registry.Prelude.{
  ℕ, ◌≡◌, ◌↔◌, refl, sym, ap, ◌∙◌, subst, inl, inr, not, Option, none, some, List, [], ◌∷◌, ◌>>=◌,
  ltb, arith, is_empty, In, Bool-cases, text_leb, text_eq, pos, negsuc, Text, codes, Value, null,
  bool, int, float, str, arr, obj, Items, items, Fields, get_value, ok, guard, >>=-eq-ok,
  ok-injective,
}
use hlinor_agent_registry.Tokens.{
  invalid, version_unsupported, field_invalid, chain_invalid, limit_invalid, token_text,
  optional_token_text, only_fields, is_text, Seal, read_seal,
}
use hlinor_agent_registry.Tokens.Reading.{optional, token_text-eq-ok, read_seal-eq-ok}
use hlinor_agent_registry.Delegation.{
  VerifiedDelegation, DelegationTrustedKey, Context, DelegationLimits, identity_pair, scope_list,
  token_texts, insert, sorted, has_repeat, validate_limits, natural, depth_fits,
}
use hlinor_agent_registry.Delegation.Token.{
  DelegationTexts, Granted, read_texts, read_granted, delegation_fields, delegation_of,
}

-- The texts of a token, each under its name.
abbrev AreTexts : Fields → DelegationTexts → Type 0
AreTexts fs texts =
    (get_value (codes "delegation_id") fs ≡ str texts.delegation_id)
    × (get_value (codes "issuer_agent_id") fs ≡ str texts.issuer_agent_id)
    × (get_value (codes "subject_agent_id") fs ≡ str texts.subject_agent_id)
    × (get_value (codes "audience") fs ≡ str texts.audience)
    × (get_value (codes "issued_at") fs ≡ str texts.issued_at)
    × (get_value (codes "expires_at") fs ≡ str texts.expires_at)
    × (get_value (codes "nonce") fs ≡ str texts.nonce)

read_texts-AreTexts :
    (fs : Fields) {texts : DelegationTexts} → read_texts fs ≡ ok texts → AreTexts fs texts
unfolding read_texts
read_texts-AreTexts fs {texts = texts} h =
    let (id, e0, h0) = >>=-eq-ok (token_text (get_value (codes "delegation_id") fs)) _ h in
    let (issuer, e1, h1) = >>=-eq-ok (token_text (get_value (codes "issuer_agent_id") fs)) _ h0 in
    let (subject, e2, h2) = >>=-eq-ok (token_text (get_value (codes "subject_agent_id") fs)) _ h1 in
    let (audience, e3, h3) = >>=-eq-ok (token_text (get_value (codes "audience") fs)) _ h2 in
    let (issued, e4, h4) = >>=-eq-ok (token_text (get_value (codes "issued_at") fs)) _ h3 in
    let (expires, e5, h5) = >>=-eq-ok (token_text (get_value (codes "expires_at") fs)) _ h4 in
    let (nonce, e6, h6) = >>=-eq-ok (token_text (get_value (codes "nonce") fs)) _ h5 in
    subst (AreTexts fs) (ok-injective _ texts h6) (
      token_text-eq-ok _ e0,
      token_text-eq-ok _ e1,
      token_text-eq-ok _ e2,
      token_text-eq-ok _ e3,
      token_text-eq-ok _ e4,
      token_text-eq-ok _ e5,
      token_text-eq-ok _ e6,
    )

insert-In : (t s : Text) (ts : List Text) → In t (insert s ts) ↔ In t (s ∷ ts)
insert-In t s [] = (λ h. h, λ h. h)
insert-In t s (u ∷ ts) = elim (Bool-cases (text_leb s u)) [
  | inl e ↦ rw e (λ h. h, λ h. h)
  | inr e ↦ rw e (ground (arith, insert-In t s ts))
]

sorted-In : (t : Text) (ts : List Text) → In t (sorted ts) ↔ In t ts
sorted-In t [] = (λ h. h, λ h. h)
sorted-In t (s ∷ ts) = ground (arith, insert-In t s (sorted ts), sorted-In t ts)

str-injective : (s t : Text) → str s ≡ str t → s ≡ t
str-injective s t h = cc

same_member :
    (s t : Text) (v : Value) (ts : List Text) (vs : List Value)
    → v ≡ str s
    → (In t ts ↔ In (str t) vs)
    → In t (s ∷ ts) ↔ In (str t) (v ∷ vs)
same_member s t v ts vs e (into, back) = (
  λ h. elim h [ inl a ↦ inl (e ∙ ap str a) | inr b ↦ inr (into b) ],
  λ h. elim h [ inl a ↦ inl (str-injective s t (sym e ∙ a)) | inr b ↦ inr (back b) ],
)

token_texts-In :
    (vs : List Value) (ts : List Text) (t : Text) → token_texts vs ≡ ok ts → In t ts ↔ In (str t) vs
unfolding token_texts
token_texts-In [] ts t h =
    subst (λ (us : List Text). In t us ↔ ⊥) (ok-injective _ ts h) (λ h. h, λ h. h)
token_texts-In (v ∷ vs) ts t h =
    let (s, e0, h0) = >>=-eq-ok (token_text v) _ h in
    let (rest, e1, h1) = >>=-eq-ok (token_texts vs) _ h0 in
    subst (λ (us : List Text). In t us ↔ In (str t) (v ∷ vs)) (ok-injective _ ts h1)
      (same_member s t v rest vs (token_text-eq-ok v e0) (token_texts-In vs rest t e1))

-- The granted texts are those of the array.
abbrev pub AreListed : Value → List Text → Type 0
AreListed v ts = (vs : Items) × (v ≡ arr vs) × ((t : Text) → In t ts ↔ In (str t) (items vs))

scope_list-AreListed : (v : Value) {ts : List Text} → scope_list v ≡ ok ts → AreListed v ts
unfolding scope_list
scope_list-AreListed (arr vs) {ts = ts} h =
    let (texts, e0, h0) = >>=-eq-ok (token_texts (items vs)) _ h in
    let (u, e1, h1) = >>=-eq-ok (guard (not (is_empty texts)) field_invalid) _ h0 in
    let (w, e2, h2) = >>=-eq-ok (guard (not (has_repeat texts)) field_invalid) _ h1 in
    subst (AreListed (arr vs)) (ok-injective (sorted texts) ts h2) (
      vs,
      refl,
      λ t.
          let (a, b) = sorted-In t texts in
          let (c, d) = token_texts-In (items vs) texts t e0 in (λ i. c (a i), λ i. b (d i)),
    )
scope_list-AreListed null h = cc
scope_list-AreListed (bool b) h = cc
scope_list-AreListed (int n) h = cc
scope_list-AreListed (float x) h = cc
scope_list-AreListed (str s) h = cc
scope_list-AreListed (obj fs) h = cc

filled_text :
    (v : Value) {o : Option Text} → (token_text v >>= λ s. ok (some s)) ≡ ok o → v ≡ optional o
filled_text v {o = o} h =
    let (s, e, k) = >>=-eq-ok (token_text v) _ h in
    token_text-eq-ok v e ∙ ap optional (ok-injective (some s) o k)

optional_token_text-eq-ok :
    (v : Value) {o : Option Text} → optional_token_text v ≡ ok o → v ≡ optional o
unfolding optional_token_text
optional_token_text-eq-ok null {o = o} h = ap optional (ok-injective none o h)
optional_token_text-eq-ok (bool b) h = filled_text (bool b) h
optional_token_text-eq-ok (int n) h = filled_text (int n) h
optional_token_text-eq-ok (float x) h = filled_text (float x) h
optional_token_text-eq-ok (str s) h = filled_text (str s) h
optional_token_text-eq-ok (arr vs) h = filled_text (arr vs) h
optional_token_text-eq-ok (obj fs) h = filled_text (obj fs) h

natural-eq-ok : (v : Value) {n : ℕ} → natural v ≡ ok n → v ≡ int (pos n)
natural-eq-ok (int (pos m)) {n = n} h = ap (λ (k : ℕ). int (pos k)) (ok-injective m n h)
natural-eq-ok (int (negsuc m)) h = cc
natural-eq-ok null h = cc
natural-eq-ok (bool b) h = cc
natural-eq-ok (float x) h = cc
natural-eq-ok (str s) h = cc
natural-eq-ok (arr vs) h = cc
natural-eq-ok (obj fs) h = cc

-- The limits of a token, each the number that it names.
abbrev AreLimits : Value → Value → Value → DelegationLimits → Type 0
AreLimits depth max_depth fan_out limits =
    (depth ≡ int (pos limits.delegation_depth))
    × (max_depth ≡ int (pos limits.max_depth))
    × (fan_out ≡ int (pos limits.max_fan_out))

validate_limits-AreLimits :
    (a b d : Value) (o : Option Text) {limits : DelegationLimits}
    → validate_limits a b d o ≡ ok limits
    → AreLimits a b d limits
unfolding validate_limits
validate_limits-AreLimits a b d o {limits = limits} h =
    let (depth, e0, h0) = >>=-eq-ok (natural a) _ h in
    let (most, e1, h1) = >>=-eq-ok (natural b) _ h0 in
    let (fan, e2, h2) = >>=-eq-ok (natural d) _ h1 in
    let (u, e3, h3) = >>=-eq-ok (guard (not (ltb most depth)) limit_invalid) _ h2 in
    let (v, e4, h4) = >>=-eq-ok (guard (depth_fits o depth) chain_invalid) _ h3 in
    subst (AreLimits a b d) (ok-injective _ limits h4)
      (natural-eq-ok a e0, natural-eq-ok b e1, natural-eq-ok d e2)

-- What is granted is what the fields say.
abbrev AreGranted : Fields → Granted → Type 0
AreGranted fs g =
    AreTexts fs g.texts
    × AreListed (get_value (codes "allowed_actions") fs) g.actions
    × AreListed (get_value (codes "allowed_resource_scopes") fs) g.resources
    × (get_value (codes "parent_delegation_id") fs ≡ optional g.parent)
    × AreLimits (get_value (codes "delegation_depth") fs) (get_value (codes "max_depth") fs)
        (get_value (codes "max_fan_out") fs) g.limits

read_granted-AreGranted :
    (context : Context) (fs : Fields) {g : Granted}
    → read_granted context fs ≡ ok g
    → AreGranted fs g
unfolding read_granted
read_granted-AreGranted context fs {g = g} h =
    let version = is_text (codes "1.0") (get_value (codes "schema_version") fs) in
    let (u, e0, h0) = >>=-eq-ok (guard (only_fields delegation_fields fs) invalid) _ h in
    let (v, e1, h1) = >>=-eq-ok (guard version version_unsupported) _ h0 in
    let (texts, e2, h2) = >>=-eq-ok (read_texts fs) _ h1 in
    let differ = not (text_eq texts.issuer_agent_id texts.subject_agent_id) in
    let (w, e3, h3) = >>=-eq-ok (guard differ chain_invalid) _ h2 in
    let (actions, e4, h4) = >>=-eq-ok (scope_list (get_value (codes "allowed_actions") fs)) _ h3 in
    let (resources, e5, h5) =
      >>=-eq-ok (scope_list (get_value (codes "allowed_resource_scopes") fs)) _ h4 in
    let (parent, e6, h6) =
      >>=-eq-ok (optional_token_text (get_value (codes "parent_delegation_id") fs)) _ h5 in
    let (x, e7, h7) =
      >>=-eq-ok
        (identity_pair (get_value (codes "issuer_deployment_identity") fs)
          (get_value (codes "issuer_workload_identity") fs))
        _ h6 in
    let (y, e8, h8) =
      >>=-eq-ok
        (identity_pair (optional context.issuer_deployment_identity)
          (optional context.issuer_workload_identity))
        _ h7 in
    let (limits, e9, h9) =
      >>=-eq-ok
        (validate_limits (get_value (codes "delegation_depth") fs)
          (get_value (codes "max_depth") fs) (get_value (codes "max_fan_out") fs) parent)
        _ h8 in
    subst (AreGranted fs) (ok-injective _ g h9) (
      read_texts-AreTexts fs e2,
      scope_list-AreListed _ e4,
      scope_list-AreListed _ e5,
      optional_token_text-eq-ok _ e6,
      validate_limits-AreLimits _ _ _ parent e9,
    )

-- The facts of a delegation are what the fields of its token say, the signature's text among them.
abbrev pub IsRead : Fields → VerifiedDelegation → Value → Type 0
IsRead fs d value =
    (seal : Fields) × (get_value (codes "signature") fs ≡ obj seal)
    × (get_value (codes "algorithm") seal ≡ str (codes "Ed25519"))
    × (get_value (codes "key_id") seal ≡ str d.key_id)
    × (get_value (codes "issuer") seal ≡ str d.issuer)
    × (get_value (codes "value") seal ≡ value)
    × (get_value (codes "delegation_id") fs ≡ str d.delegation_id)
    × (get_value (codes "issuer_agent_id") fs ≡ str d.issuer_agent_id)
    × (get_value (codes "subject_agent_id") fs ≡ str d.subject_agent_id)
    × (get_value (codes "audience") fs ≡ str d.audience)
    × AreListed (get_value (codes "allowed_actions") fs) d.allowed_actions
    × AreListed (get_value (codes "allowed_resource_scopes") fs) d.allowed_resource_scopes
    × (get_value (codes "session_id") fs ≡ d.session_id)
    × (get_value (codes "tenant_id") fs ≡ d.tenant_id)
    × (get_value (codes "project_id") fs ≡ d.project_id)
    × (get_value (codes "workspace_id") fs ≡ d.workspace_id)
    × (get_value (codes "parent_delegation_id") fs ≡ optional d.parent_delegation_id)
    × (get_value (codes "delegation_depth") fs ≡ int (pos d.delegation_depth))
    × (get_value (codes "max_depth") fs ≡ int (pos d.max_depth))
    × (get_value (codes "max_fan_out") fs ≡ int (pos d.max_fan_out))
    × (get_value (codes "issued_at") fs ≡ str d.issued_at)
    × (get_value (codes "expires_at") fs ≡ str d.expires_at)
    × (get_value (codes "nonce") fs ≡ str d.nonce)

pub delegation_of-IsRead :
    {K : Type 0} (context : Context) (fs : Fields) (g : Granted) (seal : Seal)
    (key : DelegationTrustedKey K)
    → read_granted context fs ≡ ok g
    → read_seal (get_value (codes "signature") fs) ≡ ok seal
    → IsRead fs (delegation_of fs g seal key) seal.value
delegation_of-IsRead context fs g seal key h k =
    let (inside, s, algorithm, key_id, issuer, value) = read_seal-eq-ok _ k in
    let (texts, actions, resources, parent, (depth, most, fan)) =
      read_granted-AreGranted context fs h in
    let (id, by, subject, audience, issued, expires, nonce) = texts in
    (
      inside, s, algorithm, key_id, issuer, value, id, by, subject, audience, actions, resources,
      refl, refl, refl, refl, parent, depth, most, fan, issued, expires, nonce,
    )
