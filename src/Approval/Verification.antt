-- ===== src/Approval/Verification.antt =====
-- What a verified approval has been bound to.
use hlinor_agent_registry.Prelude.{
  ℕ, pos, ◌≡◌, refl, sym, ap, ◌∙◌, subst, inl, inr, true, false, if-cases, Option, none, some,
  Result-cases, Text, Value, obj, Fields, ok, guard, guard-eq-ok, >>=-eq-ok, ok-injective,
}
use hlinor_agent_registry.Tokens.{
  issuer_invalid, canonicalization_failed, target_mismatch, request_mismatch, Platform, issuer_ok,
  signed_payload, check_seal,
}
use hlinor_agent_registry.Tokens.Reading.{IsAccepted, check_seal-eq-ok}
use hlinor_agent_registry.Tokens.Window.{check_window_iff, InWindow}
use hlinor_agent_registry.ReplayGuard.{ReplayGuard}
use hlinor_agent_registry.Approval.{
  TrustedKey, Target, Moment, VerifiedApproval, domain_approval, known_key, read_approval,
  is_target, is_request, fields_of, check_authority, approval_facts, use_after, use_once, used,
  verify_approval_token,
}
use hlinor_agent_registry.Approval.Reading.{
  IsRead, IsFor, read_approval-IsRead, is_target-IsFor, IsRead-obj,
}

known_key-eq :
    {K : Type 0} (o : Option (TrustedKey K)) (key : TrustedKey K)
    → known_key o ≡ ok key
    → o ≡ some key
known_key-eq none key h = cc
known_key-eq (some k) key h = ap some (ok-injective k key h)

module _ {K : Type 0} (platform : Platform K) (trusted_keys : Text → Option (TrustedKey K))
    (target : Target) (moment : Moment) where
  -- A trusted key, for this issuer if it names one, has signed the fields within their window.
  abbrev pub IsSigned : Fields → VerifiedApproval → Value → Type 0
  IsSigned fs a value =
      (key : TrustedKey K) × (seconds : ℕ) × (trusted_keys a.key_id ≡ some key)
      × (issuer_ok key.issuer a.issuer ≡ true)
      × IsAccepted platform key.public_key
          (signed_payload platform domain_approval canonicalization_failed fs) value
      × (moment.clock_skew_seconds ≡ pos seconds)
      × InWindow platform.fromisoformat a.issued_at a.expires_at moment.current_time moment.clock
          seconds

  check_authority-eq-ok :
      (fs : Fields) (a : VerifiedApproval) (value : Value)
      → check_authority platform trusted_keys moment fs a value ≡ ok tt
      → IsSigned fs a value
  unfolding check_authority
  check_authority-eq-ok fs a value h =
      let payload = signed_payload platform domain_approval canonicalization_failed fs in
      let (key, e0, h0) = >>=-eq-ok (known_key (trusted_keys a.key_id)) _ h in
      let (u, e1, h1) = >>=-eq-ok (guard (issuer_ok key.issuer a.issuer) issuer_invalid) _ h0 in
      let (v, e2, w) = >>=-eq-ok (check_seal platform key.public_key value payload) _ h1 in
      let (seconds, s, window) =
        (check_window_iff platform.fromisoformat a.issued_at a.expires_at moment.current_time
            moment.clock moment.clock_skew_seconds).0
          w in
      (
        key,
        seconds,
        known_key-eq (trusted_keys a.key_id) key e0,
        guard-eq-ok (issuer_ok key.issuer a.issuer) issuer_invalid e1,
        check_seal-eq-ok platform key.public_key payload value e2,
        s,
        window,
      )

  -- What a verification that ends well has established.
  abbrev pub IsVerified : Value → VerifiedApproval → Type 0
  IsVerified token a =
      (fs : Fields) × (value : Value) × (token ≡ obj fs)
      × IsRead fs a value
      × IsSigned fs a value
      × IsFor target a
      × (is_request target.request_digest a ≡ true)

  facts-IsVerified :
      (token : Value) (a : VerifiedApproval)
      → approval_facts platform trusted_keys target moment token ≡ ok a
      → IsVerified token a
  unfolding approval_facts
  facts-IsVerified token a h =
      let ((b, value), e0, h0) = >>=-eq-ok (read_approval token) _ h in
      let (u, e1, h1) =
        >>=-eq-ok (check_authority platform trusted_keys moment (fields_of token) b value) _ h0 in
      let (v, e2, h2) = >>=-eq-ok (guard (is_target target b) target_mismatch) _ h1 in
      let (w, e3, h3) =
        >>=-eq-ok (guard (is_request target.request_digest b) request_mismatch) _ h2 in
      let o = IsRead-obj token e0 in
      let r =
        read_approval-IsRead (fields_of token)
          (subst (λ (t : Value). read_approval t ≡ ok (b, value)) o e0) in
      subst (λ (c : VerifiedApproval). IsVerified token c) (ok-injective b a h3)
        (
          fields_of token,
          value,
          o,
          r,
          check_authority-eq-ok (fields_of token) b value e1,
          is_target-IsFor target b (guard-eq-ok (is_target target b) target_mismatch e2),
          guard-eq-ok (is_request target.request_digest b) request_mismatch e3,
        )

module _ {K S : Type 0} (platform : Platform K) where
  -- The guard has let the approval be used, and this is what it left.
  abbrev pub IsUsed : Option (ReplayGuard S) → VerifiedApproval → S → S → Type 0
  IsUsed replay_guard a store after =
      (g : ReplayGuard S) × (replay_guard ≡ some g)
      × ((g.claim a.token_id a.nonce a.expires_at store).0 ≡ ok true)
      × (after ≡ (g.claim a.token_id a.nonce a.expires_at store).1)

  use_once-eq-ok :
      (replay_guard : Option (ReplayGuard S)) (a b : VerifiedApproval) (store : S)
      → (use_once platform replay_guard a store).0 ≡ ok b
      → (a ≡ b) × IsUsed replay_guard a store (use_once platform replay_guard a store).1
  unfolding use_once
  use_once-eq-ok none a b store h = cc
  use_once-eq-ok (some g) a b store h =
      elim (Result-cases (g.is_revoked a.token_id a.nonce store)) [
        | inr (problem, e) ↦ let w = rw (e, use_once, use_after) at h in cc
        | inl (true, e) ↦ let w = rw (e, use_once, use_after) at h in cc
        | inl (false, e) ↦ elim (Result-cases (g.claim a.token_id a.nonce a.expires_at store).0) [
          | inr (problem, c) ↦ let w = rw (e, c, use_once, use_after) at h in cc
          | inl (false, c) ↦ let w = rw (e, c, use_once, use_after) at h in cc
          | inl (true, c) ↦
              let w = rw (e, c, use_once, use_after) at h in
              (ok-injective a b w, (g, refl, c, rw (e, use_once, use_after) refl))
        ]
      ]

  -- A verification that ends well has found the facts, and used them where they are for one use.
  pub verify-eq-ok :
      (trusted_keys : Text → Option (TrustedKey K)) (target : Target) (moment : Moment)
      (replay_guard : Option (ReplayGuard S)) (token : Value) (a : VerifiedApproval) (store : S)
      → (verify_approval_token platform trusted_keys target moment replay_guard token store).0
        ≡ ok a
      → (approval_facts platform trusted_keys target moment token ≡ ok a)
        × (a.single_use ≡ true
            → IsUsed replay_guard a store
                (verify_approval_token platform trusted_keys target moment replay_guard token
                  store).1)
  unfolding verify_approval_token
  verify-eq-ok trusted_keys target moment replay_guard token a store h =
      elim (Result-cases (approval_facts platform trusted_keys target moment token)) [
        | inr (problem, e) ↦ let w = rw (e, verify_approval_token, used) at h in cc
        | inl (b, e) ↦
            elim (if-cases b.single_use (use_once platform replay_guard b store) (ok b, store)) [
              | inr (many, i) ↦
                  let w = rw (e, i, verify_approval_token, used) at h in
                  let same = ok-injective b a w in
                  (
                    e ∙ w,
                    λ single.
                        let n = sym (ap (λ (c : VerifiedApproval). c.single_use) same) ∙ many in cc,
                  )
              | inl (single, i) ↦
                  let w = rw (e, i, verify_approval_token, used) at h in
                  let (same, used_up) = use_once-eq-ok replay_guard b a store w in
                  (
                    e ∙ ap ok same,
                    λ again.
                        rw (e, i, verify_approval_token, used)
                          (subst
                            (λ (c : VerifiedApproval).
                              IsUsed replay_guard c store
                                (use_once platform replay_guard b store).1)
                            same used_up),
                  )
            ]
      ]

module _ {K S : Type 0} (platform : Platform K) where
  -- An approval is verified only if its fields are those of the facts given out; a key that is trusted, and
  -- for its issuer where it names one, accepts its signature over the canonical form of these fields; the
  -- clock lies in its window, with the skew; its agent, action, argument digest and six context fields are
  -- those of the request, absent ones included, and its request digest too where one is expected; and, where
  -- it is for one use, a replay guard was given and granted the claim.
  pub verify_approval_token-bound :
      (trusted_keys : Text → Option (TrustedKey K)) (target : Target) (moment : Moment)
      (replay_guard : Option (ReplayGuard S)) (token : Value) (a : VerifiedApproval) (store : S)
      → (verify_approval_token platform trusted_keys target moment replay_guard token store).0
        ≡ ok a
      → IsVerified platform trusted_keys target moment token a
        × (a.single_use ≡ true
            → IsUsed platform replay_guard a store
                (verify_approval_token platform trusted_keys target moment replay_guard token
                  store).1)
  verify_approval_token-bound trusted_keys target moment replay_guard token a store h =
      let (facts, used_up) =
        verify-eq-ok platform trusted_keys target moment replay_guard token a store h in
      (facts-IsVerified platform trusted_keys target moment token a facts, used_up)
