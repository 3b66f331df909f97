-- ===== src/Delegation/Authority.antt =====
-- What one verified delegation is bound to, and how deep a chain of them is.
use hlinor_agent_registry.Prelude.{
  ℕ, ◌≤◌, ◌≡◌, ◌≢◌, refl, ap, subst, true, not, Option, none, some, arith, ltb, text_eq, text_eq→eq,
  text_eq_refl, pos, Text, codes, Value, null, bool, int, float, str, arr, obj, Fields, get_value,
  ok, guard, guard-eq-ok, >>=-eq-ok, ok-injective,
}
use hlinor_agent_registry.Tokens.{
  invalid, version_unsupported, chain_invalid, limit_invalid, context_mismatch, signature_invalid,
  issuer_unbound, issuer_invalid, Platform, optional_token_text, only_fields, is_text, Seal,
  read_seal, issuer_ok, signed_payload, check_seal,
}
use hlinor_agent_registry.Tokens.Reading.{optional, IsAccepted, check_seal-eq-ok}
use hlinor_agent_registry.Delegation.Bindings.{
  InContext, in_context-InContext, IsBound, identity_binding-IsBound,
}
use hlinor_agent_registry.Delegation.Reading.{IsRead, delegation_of-IsRead}
use hlinor_agent_registry.Tokens.Window.{check_window, check_window_iff, InWindow}
use hlinor_agent_registry.Approval.{Moment}
use hlinor_agent_registry.Delegation.{
  DelegationTrustedKey, VerifiedDelegation, Context, DelegationLimits, identity_pair,
  identity_binding, scope_list, validate_limits, natural, depth_fits,
}
use hlinor_agent_registry.Delegation.Token.{
  Granted, read_texts, read_granted, delegation_fields, in_context, delegation_of,
  domain_delegation, key_or, check_signer, verify_delegation_token,
}

validate_limits-fits :
    (a b d : Value) (o : Option Text) {limits : DelegationLimits}
    → validate_limits a b d o ≡ ok limits
    → limits.delegation_depth ≤ limits.max_depth
unfolding validate_limits
validate_limits-fits a b d o {limits = limits} h =
    let (depth, e0, h0) = >>=-eq-ok (natural a) _ h in
    let (most, e1, h1) = >>=-eq-ok (natural b) _ h0 in
    let (fan, e2, h2) = >>=-eq-ok (natural d) _ h1 in
    let (u, e3, h3) = >>=-eq-ok (guard (not (ltb most depth)) limit_invalid) _ h2 in
    let (v, e4, h4) = >>=-eq-ok (guard (depth_fits o depth) chain_invalid) _ h3 in
    let g = guard-eq-ok (not (ltb most depth)) limit_invalid e3 in
    subst (λ (l : DelegationLimits). l.delegation_depth ≤ l.max_depth) (ok-injective _ limits h4)
      (ground (arith, g))

other_text : (s t : Text) → not (text_eq s t) ≡ true → s ≢ t
other_text s t apart same =
    let e : text_eq s t ≡ true = rw same (text_eq_refl t) in let bad = rw e at apart in cc

read_granted-eq-ok :
    (context : Context) (fs : Fields) {g : Granted}
    → read_granted context fs ≡ ok g
    → (g.texts.issuer_agent_id ≢ g.texts.subject_agent_id)
      × (g.limits.delegation_depth ≤ g.limits.max_depth)
unfolding read_granted
read_granted-eq-ok context fs {g = g} h =
    let version = is_text (codes "1.0") (get_value (codes "schema_version") fs) in
    let (u, e0, h0) = >>=-eq-ok (guard (only_fields delegation_fields fs) invalid) _ h in
    let (v, e1, h1) = >>=-eq-ok (guard version version_unsupported) _ h0 in
    let (texts, e2, h2) = >>=-eq-ok (read_texts fs) _ h1 in
    let differ = not (text_eq texts.issuer_agent_id texts.subject_agent_id) in
    let (w, e3, h3) = >>=-eq-ok (guard differ chain_invalid) _ h2 in
    let (actions, e4, h4) = >>=-eq-ok (scope_list (get_value (codes "allowed_actions") fs)) _ h3 in
    let (resources, e5, h5) =
      >>=-eq-ok (scope_list (get_value (codes "allowed_resource_scopes") fs)) _ h4 in
    let (parent, e6, h6) =
      >>=-eq-ok (optional_token_text (get_value (codes "parent_delegation_id") fs)) _ h5 in
    let (x, e7, h7) =
      >>=-eq-ok
        (identity_pair (get_value (codes "issuer_deployment_identity") fs)
          (get_value (codes "issuer_workload_identity") fs))
        _ h6 in
    let (y, e8, h8) =
      >>=-eq-ok
        (identity_pair (optional context.issuer_deployment_identity)
          (optional context.issuer_workload_identity))
        _ h7 in
    let (limits, e9, h9) =
      >>=-eq-ok
        (validate_limits (get_value (codes "delegation_depth") fs)
          (get_value (codes "max_depth") fs) (get_value (codes "max_fan_out") fs) parent)
        _ h8 in
    let apart = guard-eq-ok differ chain_invalid e3 in
    subst
      (λ (k : Granted).
        (k.texts.issuer_agent_id ≢ k.texts.subject_agent_id)
        × (k.limits.delegation_depth ≤ k.limits.max_depth))
      (ok-injective _ g h9)
      (
        other_text texts.issuer_agent_id texts.subject_agent_id apart,
        validate_limits-fits (get_value (codes "delegation_depth") fs)
            (get_value (codes "max_depth") fs) (get_value (codes "max_fan_out") fs) parent e9,
      )

module _ {K : Type 0} (platform : Platform K)
    (trusted_keys : Text → Option (DelegationTrustedKey K)) (context : Context)
    (moment : Moment) where
  -- A trusted key of the issuer has signed the token, within its window, by this text.
  abbrev pub IsAuthorised : Fields → VerifiedDelegation → Value → Type 0
  IsAuthorised fs d value =
      (key : DelegationTrustedKey K) × (seconds : ℕ) × (trusted_keys d.key_id ≡ some key)
      × (key.agent_id ≡ d.issuer_agent_id)
      × (issuer_ok key.issuer d.issuer ≡ true)
      × (d.deployment_identity ≡ key.deployment_identity)
      × (d.workload_identity ≡ key.workload_identity)
      × IsAccepted platform key.public_key
          (signed_payload platform domain_delegation signature_invalid fs) value
      × IsBound key (get_value (codes "issuer_deployment_identity") fs)
          (get_value (codes "issuer_workload_identity") fs) context
      × (moment.clock_skew_seconds ≡ pos seconds)
      × InWindow platform.fromisoformat d.issued_at d.expires_at moment.current_time moment.clock
          seconds
      × InContext context fs
      × (d.issuer_agent_id ≢ d.subject_agent_id)
      × (d.delegation_depth ≤ d.max_depth)

  key_or-eq :
      (o : Option (DelegationTrustedKey K)) (key : DelegationTrustedKey K)
      → key_or o ≡ ok key
      → o ≡ some key
  key_or-eq none key h = cc
  key_or-eq (some k) key h = ap some (ok-injective k key h)

  check_signer-eq-ok :
      (fs : Fields) (g : Granted) (seal : Seal) {key : DelegationTrustedKey K}
      → check_signer platform trusted_keys context fs g seal ≡ ok key
      → (trusted_keys seal.key_id ≡ some key)
        × (key.agent_id ≡ g.texts.issuer_agent_id)
        × (issuer_ok key.issuer seal.issuer ≡ true)
        × IsAccepted platform key.public_key
            (signed_payload platform domain_delegation signature_invalid fs)
            seal.value
        × (identity_binding key
              (get_value (codes "issuer_deployment_identity") fs)
              (get_value (codes "issuer_workload_identity") fs)
              context
            ≡ ok tt)
  unfolding check_signer
  check_signer-eq-ok fs g seal {key = key} h =
      let payload = signed_payload platform domain_delegation signature_invalid fs in
      let (k, e0, h0) = >>=-eq-ok (key_or (trusted_keys seal.key_id)) _ h in
      let mine = text_eq k.agent_id g.texts.issuer_agent_id in
      let bound =
        identity_binding k (get_value (codes "issuer_deployment_identity") fs)
          (get_value (codes "issuer_workload_identity") fs) context in
      let (u, e1, h1) = >>=-eq-ok (guard mine issuer_unbound) _ h0 in
      let (v, e2, h2) = >>=-eq-ok bound _ h1 in
      let (w, e3, h3) = >>=-eq-ok (guard (issuer_ok k.issuer seal.issuer) issuer_invalid) _ h2 in
      let (x, e4, h4) = >>=-eq-ok (check_seal platform k.public_key seal.value payload) _ h3 in
      subst
        (λ (j : DelegationTrustedKey K).
          (trusted_keys seal.key_id ≡ some j)
          × (j.agent_id ≡ g.texts.issuer_agent_id)
          × (issuer_ok j.issuer seal.issuer ≡ true)
          × IsAccepted platform j.public_key payload seal.value
          × (identity_binding j (get_value (codes "issuer_deployment_identity") fs)
                (get_value (codes "issuer_workload_identity") fs) context
              ≡ ok tt))
        (ok-injective k key h4)
        (
          key_or-eq (trusted_keys seal.key_id) k e0,
          text_eq→eq _ _ (guard-eq-ok mine issuer_unbound e1),
          guard-eq-ok (issuer_ok k.issuer seal.issuer) issuer_invalid e3,
          check_seal-eq-ok platform k.public_key payload seal.value e4,
          e2,
        )

  -- A token is verified only if it is an object, of whose named fields the returned facts are what they
  -- say: its texts, actions, resource scopes, parent, depth, limits and context, and its signature's key,
  -- issuer and text. The key of that name is trusted, belongs to the agent that issues the token, is for
  -- its issuer where it names one, gives the identities returned, and accepts that text over the canonical
  -- form of the fields. A key that has identities is for tokens that claim the same ones; where the caller
  -- expects identities of the issuer, the key has them; where a binding is required, the key and the token
  -- have both. The clock lies between the token's times, with the skew; every expected context field that
  -- is given equals the token's; the issuer is not the subject; and the depth is within the token's limit.
  pub verify_delegation_token-bound :
      (token : Value) (d : VerifiedDelegation)
      → verify_delegation_token platform trusted_keys context moment token ≡ ok d
      → (fs : Fields) × (value : Value) × (token ≡ obj fs)
        × IsRead fs d value
        × IsAuthorised fs d value
  unfolding verify_delegation_token
  verify_delegation_token-bound (obj fs) d h =
      let (g, e0, h0) = >>=-eq-ok (read_granted context fs) _ h in
      let (u, e1, h1) = >>=-eq-ok (guard (in_context context fs) context_mismatch) _ h0 in
      let (seal, e2, h2) = >>=-eq-ok (read_seal (get_value (codes "signature") fs)) _ h1 in
      let (key, e3, h3) = >>=-eq-ok (check_signer platform trusted_keys context fs g seal) _ h2 in
      let (v, e4, h4) =
        >>=-eq-ok
          (check_window platform.fromisoformat g.texts.issued_at g.texts.expires_at
            moment.current_time moment.clock moment.clock_skew_seconds)
          _ h3 in
      let (seconds, skew, window) =
        (check_window_iff platform.fromisoformat g.texts.issued_at g.texts.expires_at
            moment.current_time moment.clock moment.clock_skew_seconds).0
          e4 in
      let (known, mine, issuer, accepted, identity) = check_signer-eq-ok fs g seal e3 in
      let (apart, fits) = read_granted-eq-ok context fs e0 in
      subst
        (λ (e : VerifiedDelegation).
          (gs : Fields) × (value : Value) × (obj fs ≡ obj gs)
          × IsRead gs e value
          × IsAuthorised gs e value)
        (ok-injective (delegation_of fs g seal key) d h4)
        (
          fs,
          seal.value,
          refl,
          delegation_of-IsRead context fs g seal key e0 e2,
          (
            key,
            seconds,
            known,
            mine,
            issuer,
            refl,
            refl,
            accepted,
            identity_binding-IsBound key (get_value (codes "issuer_deployment_identity") fs)
                (get_value (codes "issuer_workload_identity") fs) context identity,
            skew,
            window,
            in_context-InContext context fs
                (guard-eq-ok (in_context context fs) context_mismatch e1),
            apart,
            fits,
          ),
        )
  verify_delegation_token-bound null d h = cc
  verify_delegation_token-bound (bool b) d h = cc
  verify_delegation_token-bound (int n) d h = cc
  verify_delegation_token-bound (float x) d h = cc
  verify_delegation_token-bound (str s) d h = cc
  verify_delegation_token-bound (arr vs) d h = cc
