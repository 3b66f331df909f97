-- ===== src/Delegation/Attenuation.antt =====
-- The authority of the links of a chain that verify_delegation_chain accepts.
use hlinor_agent_registry.Prelude.{
  ℕ, suc, ◌+◌, ◌≤◌, ◌≡◌, refl, ap, subst, true, false, not, ◌&&◌, Option, none, some, List, [], ◌∷◌,
  arith, length, All, In, is_empty, ltb, ◌==◌, ℤ, pos, negsuc, Text, Value, null, bool, int, float,
  str, arr, obj, items, ok, guard, guard-eq-ok, >>=-eq-ok, ok-injective,
}
use hlinor_agent_registry.Tokens.{
  value_error, chain_invalid, chain_too_deep, action_not_allowed, resource_not_allowed, Platform,
}
use hlinor_agent_registry.Approval.{Moment}
use hlinor_agent_registry.Delegation.{DelegationTrustedKey, VerifiedDelegation}
use hlinor_agent_registry.Delegation.Chain.{
  FanOutView, ChainContext, context_at, is_root, permits, last_or, check_leaf, within, check_place,
  verify_link, verify_links, verify_delegation_chain,
}
use hlinor_agent_registry.Delegation.Authority.{verify_delegation_token-bound}
use hlinor_agent_registry.Delegation.Links.{
  is_member-In, Within, IsLink, IsTrusted, Follows, Apart, verify_link-eq-ok, links-Follows,
}

root_option :
    (o : Option Text) (depth : ℕ)
    → (elim o [ none ↦ true | some parent ↦ false ] && (depth == 0)) ≡ true
    → (o ≡ none) × (depth ≡ 0)
root_option none depth h = (refl, ground (arith, h))
root_option (some t) depth h = cc

module _ {K : Type 0} (platform : Platform K)
    (trusted_keys : Text → Option (DelegationTrustedKey K)) (view : Option FanOutView)
    (c : ChainContext) (moment : Moment) where
  is_root-eq :
      (d : VerifiedDelegation)
      → is_root d ≡ true
      → (d.parent_delegation_id ≡ none) × (d.delegation_depth ≡ 0)
  is_root-eq d h = root_option d.parent_delegation_id d.delegation_depth h

  -- From a root down: every token is verified, is not revoked, is the registered child of the one above
  -- it, and no identity occurs twice.
  abbrev pub IsChain : List VerifiedDelegation → Type 0
  IsChain [] = ⊥
  IsChain (root ∷ rest) =
      (root.parent_delegation_id ≡ none)
      × (root.delegation_depth ≡ 0)
      × All (IsTrusted platform trusted_keys view c moment) (root ∷ rest)
      × Apart platform trusted_keys view c moment [] (root ∷ rest)
      × Follows platform trusted_keys view c moment root rest

  links-IsChain :
      (token : Value) (tokens : List Value) (ds : List VerifiedDelegation)
      → verify_links platform trusted_keys view c moment [] none (token ∷ tokens) ≡ ok ds
      → IsChain ds × (length ds ≡ suc (length tokens))
  unfolding verify_links check_place
  links-IsChain token tokens ds h =
      let (d, e0, h0) =
        >>=-eq-ok (verify_link platform trusted_keys view c moment [] none (is_empty tokens) token)
          _ h in
      let (rest, e1, h1) =
        >>=-eq-ok
          (verify_links platform trusted_keys view c moment (d.delegation_id ∷ []) (some d) tokens)
          _ h0 in
      let (trusted, new, place) =
        verify_link-eq-ok platform trusted_keys view c moment [] none (is_empty tokens) token e0 in
      let (top, zero_depth) = is_root-eq d (guard-eq-ok (is_root d) chain_invalid place) in
      let (all_trusted, apart, follow, size) =
        links-Follows platform trusted_keys view c moment (d.delegation_id ∷ []) d tokens rest e1 in
      subst (λ (es : List VerifiedDelegation). IsChain es × (length es ≡ suc (length tokens)))
        (ok-injective (d ∷ rest) ds h1)
        ((top, zero_depth, (trusted, all_trusted), (new, apart), follow), ap suc size)

  -- What the leaf may do, every link above it may do.
  module _ (scopes : VerifiedDelegation → List Text)
      (narrows : (p d : VerifiedDelegation) → IsLink p d → Within (scopes d) (scopes p)) where
    last-All :
        (t : Text) (parent : VerifiedDelegation) (rest : List VerifiedDelegation)
        → Follows platform trusted_keys view c moment parent rest
        → In t (scopes (last_or parent rest))
        → All (λ (d : VerifiedDelegation). In t (scopes d)) (parent ∷ rest)
    last-All t parent [] f i = (i, tt)
    last-All t parent (d ∷ rest) (link, known, f) i =
        let below = last-All t d rest f i in (narrows parent d link t below.0, below)

  last-depth :
      (parent : VerifiedDelegation) (rest : List VerifiedDelegation)
      → Follows platform trusted_keys view c moment parent rest
      → ((last_or parent rest).delegation_depth ≡ parent.delegation_depth + length rest)
        × ((last_or parent rest).max_depth ≤ parent.max_depth)
  last-depth parent [] f = (omega arith, omega arith)
  last-depth parent (d ∷ rest) (link, known, f) =
      let (e, m) = last-depth d rest f in (omega (arith, e, link.2), omega (arith, m, link.3))

  check_leaf-eq-ok :
      (root : VerifiedDelegation) (rest : List VerifiedDelegation) {ds : List VerifiedDelegation}
      → check_leaf c (root ∷ rest) ≡ ok ds
      → (root ∷ rest ≡ ds)
        × (permits c.action (last_or root rest).allowed_actions ≡ true)
        × (permits c.resource_scope (last_or root rest).allowed_resource_scopes ≡ true)
  check_leaf-eq-ok root rest {ds = ds} h =
      let leaf = last_or root rest in
      let (u, e0, h0) =
        >>=-eq-ok (guard (permits c.action leaf.allowed_actions) action_not_allowed) _ h in
      let (v, e1, h1) =
        >>=-eq-ok
          (guard (permits c.resource_scope leaf.allowed_resource_scopes) resource_not_allowed) _
          h0 in
      (
        ok-injective (root ∷ rest) ds h1,
        guard-eq-ok (permits c.action leaf.allowed_actions) action_not_allowed e0,
        guard-eq-ok (permits c.resource_scope leaf.allowed_resource_scopes) resource_not_allowed e1,
      )

  within-eq-ok : (most : ℤ) (k : ℕ) → within most k ≡ ok tt → (n : ℕ) × (most ≡ pos n) × (k ≤ n)
  within-eq-ok (negsuc n) k h = cc
  within-eq-ok (pos n) k h =
      let (u, e0, e1) = >>=-eq-ok (guard (not (n == 0)) value_error) _ h in
      let fits = guard-eq-ok (not (ltb n k)) chain_too_deep e1 in (n, refl, ground (arith, fits))

  -- A verified chain, with the texts that its leaf must permit, and what the length may be.
  abbrev pub IsAttenuated : List VerifiedDelegation → Type 0
  IsAttenuated ds =
      (n : ℕ) × (c.max_chain_length ≡ pos n)
      × (length ds ≤ n)
      × IsChain ds
      × ((t : Text)
          → c.action ≡ some t
          → All (λ (d : VerifiedDelegation). In t d.allowed_actions) ds)
      × ((t : Text)
          → c.resource_scope ≡ some t
          → All (λ (d : VerifiedDelegation). In t d.allowed_resource_scopes) ds)

  permits-In :
      (o : Option Text) (ts : List Text) (t : Text) → permits o ts ≡ true → o ≡ some t → In t ts
  permits-In o ts t h e = is_member-In t ts (rw e at h)

  chain-IsAttenuated :
      (n : ℕ) (token : Value) (tokens : List Value) (found ds : List VerifiedDelegation)
      → c.max_chain_length ≡ pos n
      → suc (length tokens) ≤ n
      → verify_links platform trusted_keys view c moment [] none (token ∷ tokens) ≡ ok found
      → check_leaf c found ≡ ok ds
      → IsAttenuated ds
  chain-IsAttenuated n token tokens [] ds most fits links leaf =
      absurd (links-IsChain token tokens [] links).0
  chain-IsAttenuated n token tokens (root ∷ rest) ds most fits links leaf =
      let (is_chain, size) = links-IsChain token tokens (root ∷ rest) links in
      let (same, action, resource) = check_leaf-eq-ok root rest leaf in
      let last = last_or root rest in
      let actions : (t : Text)
          → c.action ≡ some t
          → All (λ (d : VerifiedDelegation). In t d.allowed_actions) (root ∷ rest) =
        λ t e.
          last-All (λ d. d.allowed_actions) (λ p d link. link.9) t root rest is_chain.4
            (permits-In c.action last.allowed_actions t action e) in
      let resources : (t : Text)
          → c.resource_scope ≡ some t
          → All (λ (d : VerifiedDelegation). In t d.allowed_resource_scopes) (root ∷ rest) =
        λ t e.
          last-All (λ d. d.allowed_resource_scopes) (λ p d link. link.10) t root rest is_chain.4
            (permits-In c.resource_scope last.allowed_resource_scopes t resource e) in
      subst IsAttenuated same (n, most, rw size fits, is_chain, actions, resources)

  pub verify_delegation_chain-IsAttenuated :
      (chain : Value) (ds : List VerifiedDelegation)
      → verify_delegation_chain platform trusted_keys view c moment chain ≡ ok ds
      → IsAttenuated ds
  unfolding verify_delegation_chain
  verify_delegation_chain-IsAttenuated (arr vs) ds h =
      let (u, e0, h0) = >>=-eq-ok (guard (not (is_empty (items vs))) chain_invalid) _ h in
      let (v, e1, h1) = >>=-eq-ok (within c.max_chain_length (length (items vs))) _ h0 in
      let (found, e2, e3) =
        >>=-eq-ok (verify_links platform trusted_keys view c moment [] none (items vs)) _ h1 in
      let (n, most, fits) = within-eq-ok c.max_chain_length (length (items vs)) e1 in
      whole (items vs) (guard-eq-ok (not (is_empty (items vs))) chain_invalid e0) n most fits found
        e2 e3
    where
      whole :
          (tokens : List Value)
          → not (is_empty tokens) ≡ true
          → (n : ℕ) → c.max_chain_length ≡ pos n
          → length tokens ≤ n
          → (found : List VerifiedDelegation)
          → verify_links platform trusted_keys view c moment [] none tokens ≡ ok found
          → check_leaf c found ≡ ok ds
          → IsAttenuated ds
      whole [] full n most fits found links leaf = cc
      whole (token ∷ tokens) full n most fits found links leaf =
          chain-IsAttenuated n token tokens found ds most fits links leaf
  verify_delegation_chain-IsAttenuated null ds h = cc
  verify_delegation_chain-IsAttenuated (bool b) ds h = cc
  verify_delegation_chain-IsAttenuated (int n) ds h = cc
  verify_delegation_chain-IsAttenuated (float x) ds h = cc
  verify_delegation_chain-IsAttenuated (str s) ds h = cc
  verify_delegation_chain-IsAttenuated (obj fs) ds h = cc

  last-IsTrusted :
      (root : VerifiedDelegation) (rest : List VerifiedDelegation)
      → All (IsTrusted platform trusted_keys view c moment) (root ∷ rest)
      → IsTrusted platform trusted_keys view c moment (last_or root rest)
  last-IsTrusted root [] (trusted, u) = trusted
  last-IsTrusted root (d ∷ rest) (trusted, others) = last-IsTrusted d rest others

  -- A verified chain has no more delegations below its root than the depth limit of the root.
  pub verify_delegation_chain-depth :
      (chain : Value) (root : VerifiedDelegation) (rest : List VerifiedDelegation)
      → verify_delegation_chain platform trusted_keys view c moment chain ≡ ok (root ∷ rest)
      → length rest ≤ root.max_depth
  verify_delegation_chain-depth chain root rest h =
      let (n, most, size, (top, start, trusted, apart, follow), actions, resources) =
        verify_delegation_chain-IsAttenuated chain (root ∷ rest) h in
      let (token, is_leaf, verified, live) = last-IsTrusted root rest trusted in
      let (
        fs,
        value,
        shape,
        facts,
        (key, seconds, a0, a1, a2, a3, a4, a5, a6, a7, a8, a9, b0, fits),
      ) =
        verify_delegation_token-bound platform trusted_keys (context_at c is_leaf) moment token
          (last_or root rest) verified in
      let (depth, lower) = last-depth root rest follow in omega (arith, depth, lower, fits, start)
