-- ===== src/Approval/RoundTrip.antt =====
-- sign_approval_token of hlinor_registry/execution_receipts.py, and the verification of what it signs.
use hlinor_agent_registry.Prelude.{
  ℕ, ◌≡◌, refl, sym, ap, ◌∙◌, subst, inl, inr, true, false, not, ◌||◌, Option, none, some, [],
  is_empty, Bool-cases, pos, Text, text_eq, text_eq_refl, strip, is_blank, Value, str, obj, Fields,
  get_value, entries, has_field, Result, ok, >>=-eq-ok, ok-injective,
}
use hlinor_agent_registry.Tokens.{
  TokenError, Seal, canonicalization_failed, Platform, token_text, read_seal, issuer_ok, set_field,
  signed_payload, check_bytes, check_seal,
}
use hlinor_agent_registry.Tokens.Reading.{optional, token_text-eq-ok}
use hlinor_agent_registry.Tokens.Window.{parse_time, check_window, check_window_iff}
use hlinor_agent_registry.Approval.Signing.{
  Signer, Grant, id_or, sealed, token_of, sign_approval_token,
}
use hlinor_agent_registry.Approval.{
  TrustedKey, Target, Moment, VerifiedApproval, Named, domain_approval, scope_pair, read_named,
  read_approval, check_authority, approval_facts, is_target, is_request, meets,
}

module _ {K : Type 0} (platform : Platform K) (signer : Signer) where
  -- What the verification gives out of it.
  abbrev pub granted : Text → Grant → VerifiedApproval
  granted id g = record {
    token_id = id;
    key_id = g.key_id;
    issuer = g.issuer;
    subject_agent_id = g.subject_agent_id;
    action = g.action;
    arguments_digest = g.arguments_digest;
    resource = optional g.resource;
    tool_id = optional g.tool_id;
    session_id = optional g.session_id;
    tenant_id = optional g.tenant_id;
    project_id = optional g.project_id;
    workspace_id = optional g.workspace_id;
    request_digest = optional g.request_digest;
    approver_role = optional g.approver_role;
    issued_at = g.issued_at;
    expires_at = g.expires_at;
    nonce = g.nonce;
    single_use = g.single_use;
  }

  abbrev pub target_of : Grant → Target
  target_of g = record {
    agent_id = g.subject_agent_id;
    action = g.action;
    arguments_digest = g.arguments_digest;
    resource = g.resource;
    tool_id = g.tool_id;
    session_id = g.session_id;
    tenant_id = g.tenant_id;
    project_id = g.project_id;
    workspace_id = g.workspace_id;
    request_digest = g.request_digest;
  }

  abbrev named_of : Grant → Text → Named
  named_of g id = record {
    token_id = id;
    subject_agent_id = g.subject_agent_id;
    action = g.action;
    arguments_digest = g.arguments_digest;
    issued_at = g.issued_at;
    expires_at = g.expires_at;
    nonce = g.nonce;
  }

  abbrev seal_of : Grant → Text → Seal
  seal_of g value = record { key_id = g.key_id; issuer = g.issuer; value = str value }

  text-of-time :
      (x : Text) {i : ℕ} → parse_time platform.fromisoformat x ≡ ok i → token_text (str x) ≡ ok x
  unfolding parse_time token_text
  text-of-time x h = elim (Bool-cases (is_blank x || not (text_eq x (strip x)))) [
    | inl bad ↦ let w = rw (bad, parse_time) at h in cc
    | inr good ↦ rw (good, token_text) refl
  ]

  same-text : (x : Text) {s : Text} → token_text (str x) ≡ ok s → token_text (str x) ≡ ok x
  same-text x {s = s} h =
      let e = token_text-eq-ok (str x) h in let same : x ≡ s = cc in h ∙ ap ok (sym same)

  facts-of :
      (trusted_keys : Text → Option (TrustedKey K)) (target : Target) (moment : Moment)
      (fs : Fields) (a : VerifiedApproval) (value : Value)
      → read_approval (obj fs) ≡ ok (a, value)
      → check_authority platform trusted_keys moment fs a value ≡ ok tt
      → is_target target a ≡ true
      → is_request target.request_digest a ≡ true
      → approval_facts platform trusted_keys target moment (obj fs) ≡ ok a
  unfolding approval_facts
  facts-of trusted_keys target moment fs a value e0 e1 e2 e3 =
      rw (e0, e1, e2, e3, approval_facts) refl

  -- The payload does not depend on the value of the signature.
  payload-same :
      (g : Grant) (id value : Text)
      → signed_payload platform domain_approval canonicalization_failed (token_of g id value)
        ≡ signed_payload platform domain_approval canonicalization_failed (token_of g id [])
  unfolding signed_payload set_field get_value text_eq
  payload-same g id value = refl

  named-same :
      (g : Grant) (id value : Text)
      → token_text (str id) ≡ ok id
      → token_text (str g.subject_agent_id) ≡ ok g.subject_agent_id
      → token_text (str g.action) ≡ ok g.action
      → token_text (str g.arguments_digest) ≡ ok g.arguments_digest
      → token_text (str g.issued_at) ≡ ok g.issued_at
      → token_text (str g.expires_at) ≡ ok g.expires_at
      → token_text (str g.nonce) ≡ ok g.nonce
      → read_named (token_of g id value) ≡ ok (named_of g id)
  unfolding read_named get_value text_eq
  named-same g id value e0 e1 e2 e3 e4 e5 e6 = rw (e0, e1, e2, e3, e4, e5, e6, read_named) refl

  seal-same :
      (g : Grant) (value : Text)
      → token_text (str g.key_id) ≡ ok g.key_id
      → token_text (str g.issuer) ≡ ok g.issuer
      → read_seal (sealed g value) ≡ ok (seal_of g value)
  unfolding read_seal get_value text_eq entries has_field
  seal-same g value e0 e1 = rw (e0, e1, read_seal) refl

  read-same :
      (g : Grant) (id value : Text)
      → read_named (token_of g id value) ≡ ok (named_of g id)
      → scope_pair (optional g.project_id) (optional g.workspace_id) ≡ ok tt
      → read_seal (sealed g value) ≡ ok (seal_of g value)
      → read_approval (obj (token_of g id value)) ≡ ok (granted id g, str value)
  unfolding read_approval get_value text_eq entries
  read-same g id value e0 e1 e2 = rw (e0, e1, e2, read_approval) refl

  optional-meets : (o : Option Text) → meets (o, optional o) ≡ true
  optional-meets none = refl
  optional-meets (some t) = text_eq_refl t

  is_target-of : (g : Grant) (id : Text) → is_target (target_of g) (granted id g) ≡ true
  is_target-of g id =
      rw
        (
          text_eq_refl g.subject_agent_id,
          text_eq_refl g.action,
          text_eq_refl g.arguments_digest,
          optional-meets g.resource,
          optional-meets g.tool_id,
          optional-meets g.session_id,
          optional-meets g.tenant_id,
          optional-meets g.project_id,
          optional-meets g.workspace_id,
        )
        refl

  is_request-of :
      (o : Option Text) (a : VerifiedApproval)
      → a.request_digest ≡ optional o
      → is_request o a ≡ true
  is_request-of none a e = refl
  is_request-of (some t) a e = rw e (text_eq_refl t)

  module _ (key : TrustedKey K)
      (verifies : (text : Text) → platform.verify key.public_key (signer.sign text) text ≡ true)
      (decodes : (bytes : Text) → platform.decode (signer.encode bytes) ≡ some bytes)
      (is_written : (text : Text) → is_empty (signer.encode (signer.sign text)) ≡ false) where
    seal-accepted :
        (payload : Result TokenError Text) (text : Text)
        → payload ≡ ok text
        → check_seal platform key.public_key (str (signer.encode (signer.sign text))) payload
          ≡ ok tt
    unfolding check_seal
    seal-accepted payload text e =
        rw (is_written text, decodes (signer.sign text), e, verifies text, check_seal, check_bytes)
          refl

    -- What is signed is verified: with a key under the key id that the grant names, which is for its issuer
    -- or for any, by a request for what is granted and at a time in the window, the verification gives out
    -- the facts granted, and the id that the token was given. The key accepts what the private key signs,
    -- and base64 decodes what it encodes, which for a signature is not empty.
    pub approval_facts-sign :
        (uuid : Text) (clock : ℕ) (g : Grant) (token : Value)
        → sign_approval_token platform signer uuid clock g ≡ ok token
        → (trusted_keys : Text → Option (TrustedKey K)) (moment : Moment)
        → trusted_keys g.key_id ≡ some key
        → issuer_ok key.issuer g.issuer ≡ true
        → check_window platform.fromisoformat g.issued_at g.expires_at moment.current_time
            moment.clock moment.clock_skew_seconds
          ≡ ok tt
        → approval_facts platform trusted_keys (target_of g) moment token
          ≡ ok (granted (id_or uuid g.token_id) g)
    unfolding sign_approval_token check_authority
    approval_facts-sign uuid clock g token signed trusted_keys moment known issuer window =
        let id = id_or uuid g.token_id in
        let body = token_of g id [] in
        let payload = signed_payload platform domain_approval canonicalization_failed body in
        let (s0, e0, h0) = >>=-eq-ok (token_text (str g.key_id)) _ signed in
        let (s1, e1, h1) = >>=-eq-ok (token_text (str g.issuer)) _ h0 in
        let (s2, e2, h2) = >>=-eq-ok (token_text (str g.subject_agent_id)) _ h1 in
        let (s3, e3, h3) = >>=-eq-ok (token_text (str g.action)) _ h2 in
        let (s4, e4, h4) = >>=-eq-ok (token_text (str g.arguments_digest)) _ h3 in
        let (s5, e5, h5) = >>=-eq-ok (token_text (str g.nonce)) _ h4 in
        let (u, e6, h6) =
          >>=-eq-ok (scope_pair (optional g.project_id) (optional g.workspace_id)) _ h5 in
        let (s7, e7, h7) = >>=-eq-ok (token_text (str id)) _ h6 in
        let (v, e8, h8) =
          >>=-eq-ok
            (check_window platform.fromisoformat g.issued_at g.expires_at none clock (pos 0)) _
            h7 in
        let (text, e9, h9) = >>=-eq-ok payload _ h8 in
        let value = signer.encode (signer.sign text) in
        let (seconds, skew, (issued, expires, now, p0, p1, p2, p3, p4, p5)) =
          (check_window_iff platform.fromisoformat g.issued_at g.expires_at moment.current_time
              moment.clock moment.clock_skew_seconds).0
            window in
        let named =
          named-same g id value (same-text id e7) (same-text g.subject_agent_id e2)
            (same-text g.action e3) (same-text g.arguments_digest e4) (text-of-time g.issued_at p0)
            (text-of-time g.expires_at p1) (same-text g.nonce e5) in
        let seal = seal-same g value (same-text g.key_id e0) (same-text g.issuer e1) in
        let accepted =
          seal-accepted
            (signed_payload platform domain_approval canonicalization_failed (token_of g id value))
            text (payload-same g id value ∙ e9) in
        subst
          (λ (t : Value).
            approval_facts platform trusted_keys (target_of g) moment t ≡ ok (granted id g))
          (ok-injective (obj (token_of g id value)) token h9)
          (facts-of trusted_keys (target_of g) moment (token_of g id value) (granted id g)
            (str value) (read-same g id value named e6 seal)
            (rw (known, issuer, accepted, window, check_authority) refl) (is_target-of g id)
            (is_request-of g.request_digest (granted id g) refl))
